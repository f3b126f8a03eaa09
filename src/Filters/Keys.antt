-- ===== src/Filters/Keys.antt =====
-- Dictionaries that group names: their keys and their entries.
use mathlib.Core.Path.{subst}
use bay.Prelude.{
  arith, String, true, ◌≡◌, inl, inr, refl, sym, ap, Option, none, some, List, [], ◌∷◌, map, ◌||◌,
  ◌==◌, string_eq, Bool-cases, eq_iff,
}
use bay.Prelude.Assoc.{
  lookup-In, Assoc, insert, lookup, contains, distinct, In, In-map, In-contains,
}
use bay.Filters.{or_nil}

-- the keys of a dictionary
abbrev pub keys : {V : Type 0} → Assoc V → List String
keys d = map (λ e. e.0) d

pub contains-insert :
    {V : Type 0} (k : String) (v : V) (d : Assoc V) (x : String)
    → contains (keys (insert k v d)) x ≡ (k == x || contains (keys d) x)
unfolding insert contains
contains-insert k v [] x = ground arith
contains-insert k v ((j, w) ∷ d) x =
    ground (arith, contains-insert k v d x, eq_iff j k, eq_iff k x, eq_iff j x)

pub distinct-insert :
    {V : Type 0} (k : String) (v : V) (d : Assoc V)
    → distinct (keys d) ≡ true
    → distinct (keys (insert k v d)) ≡ true
unfolding insert contains distinct
distinct-insert k v [] h = refl
distinct-insert k v ((j, w) ∷ d) h =
    ground (arith, distinct-insert k v d, contains-insert k v d j, eq_iff j k, eq_iff k j)

-- a dictionary without a key twice finds its entries
pub lookup-distinct :
    {V : Type 0} (d : Assoc V) (k : String) (v : V)
    → distinct (keys d) ≡ true
    → In (k, v) d
    → lookup k d ≡ some v
unfolding lookup distinct
lookup-distinct [] k v h m = absurd m
lookup-distinct ((j, w) ∷ d) k v h (inl e) =
    let key : j ≡ k = sym (ap (λ p. p.0) e) in
    rw ((eq_iff j k).1 key) (ap (λ p. some (p.1)) (sym e))
lookup-distinct ((j, w) ∷ d) k v h (inr m) = elim (Bool-cases (j == k)) [
  | inl e ↦
      let key : j ≡ k = (eq_iff j k).0 e in
      let there : contains (keys d) j ≡ true =
        subst (λ y. contains (keys d) y ≡ true) (sym key)
          (In-contains (keys d) k (In-map (λ p. p.0) (k, v) d m)) in
      absurd (ground arith)
  | inr e ↦ rw e (lookup-distinct d k v (ground arith) m)
]

-- a group with a member is an entry
pub names_for-In :
    (d : Assoc (List String)) (k x : String) (o : Option (List String))
    → lookup k d ≡ o
    → In x (or_nil o)
    → In (k, or_nil o) d
names_for-In d k x none e m = absurd m
names_for-In d k x (some g) e m = lookup-In d k g e
