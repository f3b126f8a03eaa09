-- ===== src/Webhook/Deliveries.antt =====
-- The replay protection of the receiver: `_delivery_is_duplicate` and its cache of accepted
-- deliveries, oldest first.
use mathlib.Core.Option.{some-injective}
use bay.Prelude.{
  ℕ, suc, ◌≤◌, ◌<◌, String, Bool, true, false, ◌≡◌, inl, inr, refl, sym, ap, ◌∙◌, Option, none,
  some, List, [], ◌∷◌, ◌++◌, ◌==◌, string_eq, if◌then◌else◌, ltb, arith, eq_iff, Bool-cases, differ,
  eqb_refl, not_true,
}
use bay.Prelude.Assoc.{contains, length}
use bay.Prelude.Text.{concat, is_empty}

abbrev pub cache_size : ℕ
cache_size = 256

-- `while len(seen) > size: seen.popitem(last=False)`
unfoldable pub trim : ℕ → List String → List String
trim size [] = []
trim size (key ∷ l) = let rest = trim size l in if ltb size (suc (length l)) then rest else key ∷ l

-- `seen.move_to_end(key)`, and also `del seen[key]; seen[key] = None`
unfoldable pub move_to_end : String → List String → List String
move_to_end key [] = key ∷ []
move_to_end key (k ∷ l) = let rest = move_to_end key l in if k == key then rest else k ∷ rest

-- the answer for a key, and the cache behind it
unfoldable pub is_duplicate : ℕ → String → List String → Bool × List String
is_duplicate size key seen =
    if contains seen key
    then (true, move_to_end key seen)
    else (false, trim size (seen ++ (key ∷ [])))

-- A delivery: `X-GitHub-Delivery`, and the service's path.
abbrev pub Delivery : Type 0
Delivery = String × String

-- `f"{delivery_id}:{service}"`
unfoldable pub delivery_key : Delivery → String
unfolding concat
delivery_key (id, service) = concat (id ∷ ":" ∷ service ∷ [])

-- `_delivery_is_duplicate`
unfoldable pub delivery_is_duplicate : Delivery → List String → Bool × List String
delivery_is_duplicate d seen =
    if is_empty (d.0) then (false, seen) else is_duplicate cache_size (delivery_key d) seen

-- The cache behind a row of deliveries.
unfoldable pub deliver : List Delivery → List String → List String
deliver [] seen = seen
deliver (d ∷ l) seen = deliver l ((delivery_is_duplicate d seen).1)

-- How many keys of the cache are younger than `key`, if it is there.
unfoldable pub behind : String → List String → Option ℕ
unfolding length
behind key [] = none
behind key (k ∷ l) = let rest = behind key l in if k == key then some (length l) else rest

-- The key is in the cache, and fewer than `n` keys are younger.
abbrev pub Recent : String → ℕ → List String → Type 0
Recent key n seen = (m : ℕ) × (behind key seen ≡ some m) × (m < n)

pub length-append_one : (l : List String) (x : String) → length (l ++ (x ∷ [])) ≡ suc (length l)
unfolding length
length-append_one [] x = refl
length-append_one (y ∷ l) x = ap suc (length-append_one l x)

pub length-trim : (size : ℕ) (l : List String) → length (trim size l) ≤ size
unfolding length trim
length-trim size [] = omega arith
length-trim size (x ∷ l) = elim (Bool-cases (ltb size (suc (length l)))) [
  | inl e ↦ rw e (length-trim size l)
  | inr e ↦ rw e (ground arith)
]

pub length-move_to_end :
    (key : String) (l : List String) → length (move_to_end key l) ≤ suc (length l)
unfolding length move_to_end
length-move_to_end key [] = omega arith
length-move_to_end key (k ∷ l) =
    let ih = length-move_to_end key l in
    elim (Bool-cases (k == key)) [ inl e ↦ rw e (omega arith) | inr e ↦ rw e (omega arith) ]

pub contains-behind :
    (l : List String) (key : String) (m : ℕ) → behind key l ≡ some m → contains l key ≡ true
unfolding behind contains
contains-behind [] key m h = cc
contains-behind (k ∷ l) key m h = elim (Bool-cases (k == key)) [
  | inl e ↦ rw e refl
  | inr e ↦ rw e (contains-behind l key m (rw e at h))
]

pub behind-append_one :
    (l : List String) (key k : String) (m : ℕ)
    → behind key l ≡ some m
    → behind key (l ++ (k ∷ [])) ≡ some (suc m)
unfolding behind
behind-append_one [] key k m h = cc
behind-append_one (j ∷ l) key k m h = elim (Bool-cases (j == key)) [
  | inl e ↦
      let at : some (length l) ≡ some m = rw e at h in
      rw e (ap some (length-append_one l k) ∙ ap suc_some at)
  | inr e ↦ rw e (behind-append_one l key k m (rw e at h))
]
  where
    suc_some : Option ℕ → Option ℕ
    suc_some none = none
    suc_some (some n) = some (suc n)

-- the key that moved is the youngest
pub behind-move_to_end_same :
    (l : List String) (key : String) → behind key (move_to_end key l) ≡ some 0
unfolding behind move_to_end length
behind-move_to_end_same [] key = rw (eqb_refl key) refl
behind-move_to_end_same (j ∷ l) key = elim (Bool-cases (j == key)) [
  | inl e ↦ rw e (behind-move_to_end_same l key)
  | inr e ↦ rw (e, e) (behind-move_to_end_same l key)
]

pub move_other-Recent :
    (l : List String) (key k : String) (m : ℕ)
    → (k == key) ≡ false
    → behind key l ≡ some m
    → Recent key (suc (suc m)) (move_to_end k l)
unfolding behind move_to_end
move_other-Recent [] key k m ne h = cc
move_other-Recent (j ∷ l) key k m ne h = elim (Bool-cases (j == key)) [
  | inl e ↦
      let other : (j == k) ≡ false =
        not_true _ (λ t. differ _ _ ne (sym ((eq_iff j k).0 t) ∙ (eq_iff j key).0 e)) in
      let at : length l ≡ m = some-injective _ _ (rw e at h) in
      let longer = length-move_to_end k l in
      (length (move_to_end k l), rw (other, e) refl, omega arith)
  | inr e ↦ elim (Bool-cases (j == k)) [
    | inl moved ↦ rw moved (move_other-Recent l key k m ne (rw e at h))
    | inr other ↦ rw (other, e) (move_other-Recent l key k m ne (rw e at h))
  ]
]

pub behind-trim :
    (size : ℕ) (l : List String) (key : String) (m : ℕ)
    → m < size
    → behind key l ≡ some m
    → behind key (trim size l) ≡ some m
unfolding behind trim
behind-trim size [] key m le h = cc
behind-trim size (k ∷ l) key m le h = elim (Bool-cases (ltb size (suc (length l)))) [
  | inr e ↦ rw e h
  | inl e ↦ elim (Bool-cases (k == key)) [
    | inl t ↦ let at : length l ≡ m = some-injective _ _ (rw t at h) in absurd (ground arith)
    | inr f ↦ rw e (behind-trim size l key m le (rw f at h))
  ]
]
