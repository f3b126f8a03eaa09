-- ===== src/Webhook/Cache.antt =====
-- The cache of deliveries stays within its size, and holds each key once.
use bay.Prelude.{
  ℕ, suc, ◌≤◌, String, true, false, ◌||◌, ◌≡◌, inl, inr, refl, List, [], ◌∷◌, ◌++◌, ◌==◌, string_eq,
  ltb, arith, eq_iff, Bool-cases, false≢true,
}
use bay.Prelude.Assoc.{contains, distinct, length}
use bay.Prelude.Text.{is_empty}
use bay.Webhook.Deliveries.{
  cache_size, trim, move_to_end, is_duplicate, Delivery, delivery_key, delivery_is_duplicate,
  length-trim, length-move_to_end,
}

contains-append_one :
    (l : List String) (key x : String) → contains (l ++ (key ∷ [])) x ≡ (contains l x || key == x)
unfolding contains
contains-append_one [] key x = ground arith
contains-append_one (k ∷ l) key x = ground (arith, contains-append_one l key x)

distinct-append_one :
    (l : List String) (key : String)
    → distinct l ≡ true
    → contains l key ≡ false
    → distinct (l ++ (key ∷ [])) ≡ true
unfolding contains distinct
distinct-append_one [] key h c = refl
distinct-append_one (k ∷ l) key h c =
    ground
      (arith, distinct-append_one l key, contains-append_one l key k, eq_iff k key, eq_iff key k)

distinct-trim : (size : ℕ) (l : List String) → distinct l ≡ true → distinct (trim size l) ≡ true
unfolding distinct trim
distinct-trim size [] h = refl
distinct-trim size (k ∷ l) h = elim (Bool-cases (ltb size (suc (length l)))) [
  | inl e ↦ rw e (distinct-trim size l (ground arith))
  | inr e ↦ rw e h
]

contains-move_to_end :
    (key : String) (l : List String) (x : String)
    → contains (move_to_end key l) x ≡ (key == x || contains l x)
unfolding contains move_to_end
contains-move_to_end key [] x = ground arith
contains-move_to_end key (k ∷ l) x =
    ground (arith, contains-move_to_end key l x, eq_iff k key, eq_iff key x, eq_iff k x)

distinct-move_to_end :
    (key : String) (l : List String) → distinct l ≡ true → distinct (move_to_end key l) ≡ true
unfolding distinct move_to_end contains
distinct-move_to_end key [] h = refl
distinct-move_to_end key (k ∷ l) h =
    ground
      (arith, distinct-move_to_end key l, contains-move_to_end key l k, eq_iff k key, eq_iff key k)

length-move_kept :
    (key : String) (l : List String) → contains l key ≡ true → length (move_to_end key l) ≤ length l
unfolding length move_to_end contains
length-move_kept key [] h = absurd (false≢true h)
length-move_kept key (k ∷ l) h = elim (Bool-cases (k == key)) [
  | inl e ↦ rw e (length-move_to_end key l)
  | inr e ↦ let ih = length-move_kept key l (rw e at h) in rw e (omega arith)
]

-- The cache is within its size and has no key twice.
abbrev pub WellFormed : List String → Type 0
WellFormed seen = (length seen ≤ cache_size) × (distinct seen ≡ true)

-- Every delivery leaves a cache within its size and with no key twice.
pub delivery_is_duplicate-WellFormed :
    (d : Delivery) (seen : List String)
    → WellFormed seen
    → WellFormed ((delivery_is_duplicate d seen).1)
unfolding delivery_is_duplicate is_duplicate
delivery_is_duplicate-WellFormed d seen (few, once) = elim (Bool-cases (is_empty (d.0))) [
  | inl e ↦ rw e (few, once)
  | inr e ↦ elim (Bool-cases (contains seen (delivery_key d))) [
    | inl c ↦
        let kept = length-move_kept (delivery_key d) seen c in
        rw (e, c) (omega arith, distinct-move_to_end (delivery_key d) seen once)
    | inr c ↦
        let new = distinct-append_one seen (delivery_key d) once c in
        rw (e, c) (length-trim cache_size _, distinct-trim cache_size _ new)
  ]
]
