-- ===== src/Prelude/Order.antt =====
-- The order of texts, and what `sorted` returns: a list that only depends on which texts are there,
-- and how often.
use Prim.Native.Char.{Char, code}
use Prim.Native.Nat.{Ordering}
use Prim.Native.String.{String}
use Prim.Native.String.compare
use mathlib.Core.Path.{◌≡◌, refl, sym, ◌∙◌, ap, ap₂, subst}
use text.Mathlib.TextEquality.{Char-path}
use mathlib.Core.Logic.{inl, inr, ◌↔◌}
use mathlib.Core.Bool.{Bool, true, false, false≢true}
use mathlib.Core.List.{List, [], ◌∷◌, Permᴰ}
use mathlib.Core.List.Permᴰ
use native.Mathlib.Omega.{arith}
use bay.Prelude.Tests.{if◌then◌else◌, ◌==◌, nat_eq, ltb, Bool-cases}
use bay.Prelude.Assoc.{In, keep, contains, contains-In}
use bay.Prelude.Sort.{text_leb, insert_sorted, sort, dedup}

abbrev not_gt : Ordering → Bool
not_gt o = elim o [ Ordering.gt ↦ false | _ ↦ true ]

nil-leb : (s : String) → text_leb "" s ≡ true
nil-leb String.[] = refl
nil-leb (String.◌∷◌ c s) = ap not_gt (λ i. compare.nil-cons c s i)

leb-nil : (c : Char) (s : String) → text_leb (String.◌∷◌ c s) "" ≡ false
leb-nil c s = ap not_gt (λ i. compare.cons-nil c s i)

leb-cons :
    (c d : Char) (s t : String)
    → text_leb (String.◌∷◌ c s) (String.◌∷◌ d t)
      ≡ (if ltb (code c) (code d) then true else if code c == code d then text_leb s t else false)
leb-cons c d s t = ap not_gt (λ i. compare.cons-cons c d s t i) ∙ ground arith

leb_total : (s t : String) → text_leb s t ≡ false → text_leb t s ≡ true
leb_total String.[] t h = absurd (false≢true (sym h ∙ nil-leb t))
leb_total (String.◌∷◌ c s) String.[] h = nil-leb (String.◌∷◌ c s)
leb_total (String.◌∷◌ c s) (String.◌∷◌ d t) h =
    ground (arith, leb-cons c d s t, leb-cons d c t s, leb_total s t)

leb_antisymm : (s t : String) → text_leb s t ≡ true → text_leb t s ≡ true → s ≡ t
leb_antisymm String.[] String.[] h k = refl
leb_antisymm String.[] (String.◌∷◌ d t) h k = absurd (false≢true (sym (leb-nil d t) ∙ k))
leb_antisymm (String.◌∷◌ c s) String.[] h k = absurd (false≢true (sym (leb-nil c s) ∙ h))
leb_antisymm (String.◌∷◌ c s) (String.◌∷◌ d t) h k =
    let same : code c ≡ code d = ground (arith, leb-cons c d s t, leb-cons d c t s) in
    let rest : s ≡ t =
      leb_antisymm s t (ground (arith, leb-cons c d s t)) (ground (arith, leb-cons d c t s)) in
    ap₂ String.◌∷◌ (Char-path c d same) rest

leb_trans : (s t u : String) → text_leb s t ≡ true → text_leb t u ≡ true → text_leb s u ≡ true
leb_trans String.[] t u h k = nil-leb u
leb_trans (String.◌∷◌ c s) String.[] u h k = absurd (false≢true (sym (leb-nil c s) ∙ h))
leb_trans (String.◌∷◌ c s) (String.◌∷◌ d t) String.[] h k =
    absurd (false≢true (sym (leb-nil d t) ∙ k))
leb_trans (String.◌∷◌ c s) (String.◌∷◌ d t) (String.◌∷◌ e u) h k =
    ground (arith, leb-cons c d s t, leb-cons d e t u, leb-cons c e s u, leb_trans s t u)

-- Two insertions commute.
insert_comm :
    (a b : String) (l : List String)
    → insert_sorted a (insert_sorted b l) ≡ insert_sorted b (insert_sorted a l)
unfolding insert_sorted
insert_comm a b [] = ground (arith, leb_total a b, leb_antisymm a b)
insert_comm a b (x ∷ l) = ground (
  arith,
  leb_total a b,
  leb_total b a,
  leb_antisymm a b,
  leb_trans a b x,
  leb_trans b a x,
  leb_total a x,
  leb_total b x,
  leb_trans a x b,
  leb_trans b x a,
  insert_comm a b l,
)

-- `sorted` forgets the order.
pub sort-permᴰ : {l m : List String} → Permᴰ l m → sort l ≡ sort m
unfolding sort
sort-permᴰ Permᴰ.nil = refl
sort-permᴰ (Permᴰ.cons e p) = ap₂ insert_sorted e (sort-permᴰ p)
sort-permᴰ (Permᴰ.swap {a = a} {b = b} {l = l} e f) =
    insert_comm a b (sort l) ∙ ap₂ (λ x y. insert_sorted x (insert_sorted y (sort l))) f e
sort-permᴰ (Permᴰ.trans p q) = sort-permᴰ p ∙ sort-permᴰ q

swap_if :
    {A : Type 0} {a b a' b' : A}
    → a ≡ b'
    → b ≡ a'
    → (x y : Bool) (l : List A)
    → Permᴰ
        (if x then a ∷ (if y then b ∷ l else l) else if y then b ∷ l else l)
        (if y then a' ∷ (if x then b' ∷ l else l) else if x then b' ∷ l else l)
swap_if e f true true l = Permᴰ.swap e f
swap_if e f true false l = Permᴰ.cons e (Permᴰ.refl l)
swap_if e f false true l = Permᴰ.cons f (Permᴰ.refl l)
swap_if e f false false l = Permᴰ.refl l

pub keep-permᴰ :
    {A : Type 0} {l m : List A} (p : A → Bool) → Permᴰ l m → Permᴰ (keep p l) (keep p m)
unfolding keep
keep-permᴰ p Permᴰ.nil = Permᴰ.nil
keep-permᴰ p (Permᴰ.cons {a = a} {b = b} {l₁ = l} {l₂ = m} e r) =
    let rest = keep-permᴰ p r in
    elim (Bool-cases (p a)) [
      | inl h ↦ rw (h, sym (ap p e) ∙ h) (Permᴰ.cons e rest)
      | inr h ↦ rw (h, sym (ap p e) ∙ h) rest
    ]
keep-permᴰ p (Permᴰ.swap {a = a} {b = b} {l = l} e f) =
    rw (ap p (sym f), ap p (sym e)) (swap_if e f (p a) (p b) (keep p l))
keep-permᴰ p (Permᴰ.trans r s) = Permᴰ.trans (keep-permᴰ p r) (keep-permᴰ p s)

In-insert_sorted : (x s : String) (l : List String) → In x (insert_sorted s l) ↔ In x (s ∷ l)
unfolding insert_sorted
In-insert_sorted x s [] = (λ h. h, λ h. h)
In-insert_sorted x s (t ∷ l) = elim (Bool-cases (text_leb s t)) [
  | inl e ↦ rw e (λ h. h, λ h. h)
  | inr e ↦ let ih = In-insert_sorted x s l in rw e (λ h. there ih h, λ h. back ih h)
]
  where
    there :
        In x (insert_sorted s l) ↔ In x (s ∷ l) → In x (t ∷ insert_sorted s l) → In x (s ∷ t ∷ l)
    there ih (inl e) = inr (inl e)
    there ih (inr m) = swap (ih.0 m)
      where
        swap : In x (s ∷ l) → In x (s ∷ t ∷ l)
        swap (inl e) = inl e
        swap (inr m) = inr (inr m)

    back : In x (insert_sorted s l) ↔ In x (s ∷ l) → In x (s ∷ t ∷ l) → In x (t ∷ insert_sorted s l)
    back ih (inl e) = inr (ih.1 (inl e))
    back ih (inr (inl e)) = inl e
    back ih (inr (inr m)) = inr (ih.1 (inr m))

pub In-sort : (x : String) (l : List String) → In x (sort l) ↔ In x l
unfolding sort
In-sort x [] = (λ h. h, λ h. h)
In-sort x (s ∷ l) =
    let first = In-insert_sorted x s (sort l) in
    let rest = In-sort x l in (λ h. down rest (first.0 h), λ h. first.1 (up rest h))
  where
    down : In x (sort l) ↔ In x l → In x (s ∷ sort l) → In x (s ∷ l)
    down r (inl e) = inl e
    down r (inr m) = inr (r.0 m)

    up : In x (sort l) ↔ In x l → In x (s ∷ l) → In x (s ∷ sort l)
    up r (inl e) = inl e
    up r (inr m) = inr (r.1 m)

pub In-dedup : (x : String) (l : List String) → In x (dedup l) ↔ In x l
unfolding dedup
In-dedup x [] = (λ h. h, λ h. h)
In-dedup x (s ∷ l) =
    let rest = In-dedup x l in
    elim (Bool-cases (contains (dedup l) s)) [
      | inl e ↦ rw e (λ h. inr (rest.0 h), λ h. again (contains-In (dedup l) s e) rest h)
      | inr e ↦ rw e (λ h. down rest h, λ h. up rest h)
    ]
  where
    again : In s (dedup l) → In x (dedup l) ↔ In x l → In x (s ∷ l) → In x (dedup l)
    again here r (inl e) = subst (λ y. In y (dedup l)) (sym e) here
    again here r (inr m) = r.1 m

    down : In x (dedup l) ↔ In x l → In x (s ∷ dedup l) → In x (s ∷ l)
    down r (inl e) = inl e
    down r (inr m) = inr (r.0 m)

    up : In x (dedup l) ↔ In x l → In x (s ∷ l) → In x (s ∷ dedup l)
    up r (inl e) = inl e
    up r (inr m) = inr (r.1 m)
