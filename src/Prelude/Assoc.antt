-- ===== src/Prelude/Assoc.antt =====
-- Python's `dict` with text keys as an association list in insertion order, and list searches.
use Prim.Native.String.{String}
use Prim.Native.Nat.{ℕ, suc}
use mathlib.Core.Path.{◌≡◌, refl, sym, subst, ap, ap₂, ◌∙◌}
use mathlib.Core.Logic.{◌⊎◌, ◌↔◌, inl, inr}
use mathlib.Core.Bool.{Bool, true, false, ◌&&◌, ◌||◌, false≢true}
use mathlib.Core.Option.{Option, none, some, some-injective}
use mathlib.Core.List.{List, [], ◌∷◌, ◌++◌, map}
use native.Mathlib.Omega.{arith}
use text.Mathlib.TextEquality.{eq_iff}
use bay.Prelude.Tests.{if◌then◌else◌, ◌==◌, string_eq, Bool-cases}

abbrev pub Assoc {ℓ} : Type ℓ → Type ℓ
Assoc V = List (String × V)

module _ {ℓ} {V : Type ℓ} where
  -- `d[k] = v`: a key that is there keeps its place.
  unfoldable pub insert : String → V → Assoc V → Assoc V
  insert k v [] = (k, v) ∷ []
  insert k v ((j, w) ∷ d) = if j == k then (j, v) ∷ d else (j, w) ∷ insert k v d

  -- `d.get(k)`
  unfoldable pub lookup : String → Assoc V → Option V
  lookup k [] = none
  lookup k ((j, v) ∷ d) = if j == k then some v else lookup k d

  -- `del d[k]`, for a key that may be absent.
  unfoldable pub without : String → Assoc V → Assoc V
  without k [] = []
  without k ((j, w) ∷ d) = let rest = without k d in if j == k then rest else (j, w) ∷ rest

  pub lookup-insert :
      (k j : String) (v : V) (d : Assoc V)
      → lookup j (insert k v d) ≡ (if k == j then some v else lookup j d)
  unfolding lookup insert
  lookup-insert k j v [] = refl
  lookup-insert k j v ((i, w) ∷ d) =
      ground (arith, eq_iff k j, eq_iff i k, eq_iff i j, lookup-insert k j v d)

  pub lookup-without :
      (k j : String) (d : Assoc V) → lookup j (without k d) ≡ (if k == j then none else lookup j d)
  unfolding lookup without
  lookup-without k j [] = ground arith
  lookup-without k j ((i, w) ∷ d) =
      ground (arith, lookup-without k j d, eq_iff i k, eq_iff i j, eq_iff k j)

-- `len(l)`
unfoldable pub length {ℓ} : {A : Type ℓ} → List A → ℕ
length [] = 0
length (x ∷ l) = suc (length l)

-- `x in l`
unfoldable pub contains : List String → String → Bool
contains [] k = false
contains (x ∷ l) k = x == k || contains l k

-- A list with no text twice.
unfoldable pub distinct : List String → Bool
distinct [] = true
distinct (x ∷ l) = (if contains l x then false else true) && distinct l

abbrev pub All {ℓ κ} : {A : Type ℓ} → (A → Type κ) → List A → Type κ
All P [] = Unit
All P (x ∷ xs) = P x × All P xs

-- `[x for x in l if p(x)]`
unfoldable pub keep {ℓ} : {A : Type ℓ} → (A → Bool) → List A → List A
keep p [] = []
keep p (x ∷ l) = let rest = keep p l in if p x then x ∷ rest else rest

-- `any(p(x) for x in l)`
unfoldable pub any {ℓ} : {A : Type ℓ} → (A → Bool) → List A → Bool
any p [] = false
any p (x ∷ l) = p x || any p l

-- `all(p(x) for x in l)`
unfoldable pub all {ℓ} : {A : Type ℓ} → (A → Bool) → List A → Bool
all p [] = true
all p (x ∷ l) = p x && all p l

-- Membership with its place kept.
abbrev pub In : {A : Type 0} → A → List A → Type 0
In a [] = ⊥
In a (x ∷ l) = (a ≡ x) ⊎ In a l

pub contains-In : (l : List String) (k : String) → contains l k ≡ true → In k l
unfolding contains
contains-In [] k h = ground arith
contains-In (x ∷ l) k h = elim (Bool-cases (x == k)) [
  | inl e ↦ inl (sym ((eq_iff x k).0 e))
  | inr e ↦ inr (contains-In l k (ground arith))
]

pub In-contains : (l : List String) (k : String) → In k l → contains l k ≡ true
unfolding contains
In-contains [] k h = elim h [ ]
In-contains (x ∷ l) k (inl e) = ground (arith, eq_iff x k)
In-contains (x ∷ l) k (inr m) = ground (arith, In-contains l k m)

pub All-In : {A : Type 0} (P : A → Type 0) (l : List A) (a : A) → All P l → In a l → P a
All-In P [] a h m = elim m [ ]
All-In P (x ∷ l) a (p, ps) (inl e) = subst P (sym e) p
All-In P (x ∷ l) a (p, ps) (inr m) = All-In P l a ps m

pub In-append_left : {A : Type 0} (a : A) (l m : List A) → In a l → In a (l ++ m)
In-append_left a [] m h = elim h [ ]
In-append_left a (x ∷ l) m (inl e) = inl e
In-append_left a (x ∷ l) m (inr h) = inr (In-append_left a l m h)

pub In-append_iff : {A : Type 0} (a : A) (l m : List A) → In a (l ++ m) ↔ (In a l ⊎ In a m)
In-append_iff a [] m = (inr, λ h. elim h [ inl x ↦ absurd x | inr x ↦ x ])
In-append_iff a (x ∷ l) m =
    let ih = In-append_iff a l m in
    (
      λ h. elim h [
        | inl e ↦ inl (inl e)
        | inr t ↦ elim (ih.0 t) [ inl y ↦ inl (inr y) | inr y ↦ inr y ]
      ],
      λ h. elim h [
        | inl y ↦ elim y [ inl e ↦ inl e | inr t ↦ inr (ih.1 (inl t)) ]
        | inr y ↦ inr (ih.1 (inr y))
      ],
    )

pub In-map : {A B : Type 0} (g : A → B) (a : A) (l : List A) → In a l → In (g a) (map g l)
In-map g a [] h = elim h [ ]
In-map g a (x ∷ l) (inl e) = inl (ap g e)
In-map g a (x ∷ l) (inr h) = inr (In-map g a l h)

pub All-append : {A : Type 0} (P : A → Type 0) (l m : List A) → All P l → All P m → All P (l ++ m)
All-append P [] m _ h = h
All-append P (x ∷ l) m (p, ps) h = (p, All-append P l m ps h)

-- It is enough to show a property of the members.
pub All-of_In : {A : Type 0} (P : A → Type 0) (l : List A) → ((a : A) → In a l → P a) → All P l
All-of_In P [] h = tt
All-of_In P (x ∷ l) h = (h x (inl refl), All-of_In P l (λ a m. h a (inr m)))

pub In-keep :
    {A : Type 0} (p : A → Bool) (a : A) (l : List A) → In a (keep p l) ↔ (In a l × (p a ≡ true))
unfolding keep
In-keep p a [] = (λ h. absurd h, λ h. h.0)
In-keep p a (x ∷ l) =
    let ih = In-keep p a l in
    elim (Bool-cases (p x)) [
      | inl e ↦ rw e (λ h. down ih e h, λ h. up ih h.0 h.1)
      | inr e ↦ rw e (λ h. (inr (ih.0 h).0, (ih.0 h).1), λ h. skip ih e h.0 h.1)
    ]
  where
    down :
        In a (keep p l) ↔ (In a l × (p a ≡ true))
        → p x ≡ true
        → In a (x ∷ keep p l)
        → In a (x ∷ l) × (p a ≡ true)
    down ih e (inl h) = (inl h, ap p h ∙ e)
    down ih e (inr m) = (inr (ih.0 m).0, (ih.0 m).1)

    up : In a (keep p l) ↔ (In a l × (p a ≡ true)) → In a (x ∷ l) → p a ≡ true → In a (x ∷ keep p l)
    up ih (inl h) t = inl h
    up ih (inr m) t = inr (ih.1 (m, t))

    skip :
        In a (keep p l) ↔ (In a l × (p a ≡ true))
        → p x ≡ false
        → In a (x ∷ l)
        → p a ≡ true
        → In a (keep p l)
    skip ih e (inl h) t = absurd (false≢true (sym e ∙ ap p (sym h) ∙ t))
    skip ih e (inr m) t = ih.1 (m, t)

pub lookup-In : {V : Type 0} (d : Assoc V) (k : String) (v : V) → lookup k d ≡ some v → In (k, v) d
unfolding lookup
lookup-In [] k v h = cc
lookup-In ((j, w) ∷ d) k v h = elim (Bool-cases (j == k)) [
  | inl e ↦
      let key : j ≡ k = (eq_iff j k).0 e in
      let same : w ≡ v = some-injective _ _ (rw e at h) in
      inl (ap₂ (λ a b. (a, b)) (sym key) (sym same))
  | inr e ↦ inr (lookup-In d k v (rw e at h))
]
