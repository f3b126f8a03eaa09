-- ===== src/Cron/Bounds.antt =====
-- What a part of a cron field stands for: a range within the bounds of the field.
use mathlib.Core.Path.{subst}
use mathlib.Core.Option.{some-injective}
use bay.Prelude.{
  ℕ, suc, ◌+◌, ◌≤◌, ◌<◌, String, Bool, true, false, not, ◌&&◌, ◌≡◌, ◌≢◌, ◌↔◌, inl, inr, refl, ap,
  ◌∙◌, Option, none, some, List, [], ◌∷◌, ◌==◌, string_eq, nat_eq, if◌then◌else◌, ltb, leb, arith,
  Bool-cases,
}
use bay.Prelude.Assoc.{In, length}
use bay.Prelude.Text.{partition, lower, read_digits}
use bay.Prelude.Result.{Result, ok, err, ◌>>=◌, value_error}
use bay.Cron.{
  Field, minute, hour, day, month, weekday, low, high, index_from, named_value, month_words,
  day_words, Range, range_values, checked_value, number_by, number, step_of, ordered, base_range,
  has_step, range_of, values, all_digits,
}
use bay.Cron.Ranges.{Inside, Selected, In-range_values}

-- the value that a chain of results needs
chained :
    {A B : Type 0} (m : Result A) (next : A → Result B) (b : B)
    → (m >>= next) ≡ ok b
    → (a : A) × (m ≡ ok a) × (next a ≡ ok b)
chained (err e) next b h = cc
chained (ok a) next b h = (a, refl, h)

raised : {A : Type 0} {v : A} {text : String} → value_error text ≢ ok v
raised z = cc

same_value : {A : Type 0} {a b : A} → ok a ≡ ok b → a ≡ b
same_value h = cc

index_from_bounds :
    (n : ℕ) (word : String) (l : List String) (v : ℕ)
    → index_from n word l ≡ some v
    → (n ≤ v) × (v < n + length l)
unfolding index_from length
index_from_bounds n word [] v h = cc
index_from_bounds n word (w ∷ l) v h = elim (Bool-cases (w == word)) [
  | inl e ↦ let v_is : n ≡ v = some-injective _ _ (rw e at h) in (omega arith, omega arith)
  | inr e ↦
      let (a, b) = index_from_bounds (suc n) word l v (rw e at h) in (omega arith, omega arith)
]

module _ (repr : String → String) where
  named_value_bounds :
      (f : Field) (word : String) (v : ℕ) → named_value f word ≡ some v → (low f ≤ v) × (v ≤ high f)
  unfolding length
  named_value_bounds minute word v h = cc
  named_value_bounds hour word v h = cc
  named_value_bounds day word v h = cc
  named_value_bounds month word v h =
      let (a, b) = index_from_bounds 1 word month_words v h in (omega arith, omega arith)
  named_value_bounds weekday word v h =
      let (a, b) = index_from_bounds 0 word day_words v h in (omega arith, omega arith)

  checked_value_bounds :
      (f : Field) (value v : ℕ) → checked_value repr f value ≡ ok v → (low f ≤ v) × (v ≤ high f)
  checked_value_bounds f value v h = elim (Bool-cases (leb (low f) value && leb value (high f))) [
    | inl e ↦
        let x : ok value ≡ ok v = rw e at h in
        let same : value ≡ v = cc in (ground arith, ground arith)
    | inr e ↦ absurd (raised (rw e at h))
  ]

  number_by_bounds :
      (f : Field) (text : String) (o : Option ℕ) (v : ℕ)
      → named_value f (lower text) ≡ o
      → number_by repr f text o ≡ ok v
      → (low f ≤ v) × (v ≤ high f)
  number_by_bounds f text (some w) v e h =
      let same : w ≡ v = cc in named_value_bounds f (lower text) v (e ∙ ap some same)
  number_by_bounds f text none v e h = elim (Bool-cases (all_digits text)) [
    | inl d ↦ checked_value_bounds f (read_digits 0 text) v (rw d at h)
    | inr d ↦ absurd (raised (rw d at h))
  ]

  number_bounds :
      (f : Field) (text : String) (v : ℕ) → number repr f text ≡ ok v → (low f ≤ v) × (v ≤ high f)
  unfolding number
  number_bounds f text v h = number_by_bounds f text _ v refl h

  step_of_positive :
      (f : Field) (o : Option String) (step : ℕ) → step_of repr f o ≡ ok step → 1 ≤ step
  step_of_positive f none step h = let same : 1 ≡ step = cc in omega arith
  step_of_positive f (some text) step h =
      elim (Bool-cases (all_digits text && not (ltb (read_digits 0 text) 1))) [
        | inl e ↦
            let x : ok (read_digits 0 text) ≡ ok step = rw e at h in
            let same : read_digits 0 text ≡ step = cc in ground arith
        | inr e ↦ absurd (raised (rw e at h))
      ]

  -- A range with its bounds, and a first value.
  abbrev Sound : Field → Range → Type 0
  Sound f r = Inside f r × (r.start ≤ r.end)

  ordered-Sound :
      (f : Field) (base : String) (start end step : ℕ) (r : Range)
      → low f ≤ start
      → end ≤ high f
      → 1 ≤ step
      → ordered repr f base start end step ≡ ok r
      → Sound f r
  ordered-Sound f base start end step r a b c h = elim (Bool-cases (ltb end start)) [
    | inl e ↦ absurd (raised (rw e at h))
    | inr e ↦ subst (Sound f) (same_value (rw e at h)) ((a, b, c), ground arith)
  ]

  base_range-Sound :
      (f : Field) (base : String) (step : ℕ) (stepped : Bool) (p : String × Option String)
      (r : Range)
      → 1 ≤ step
      → base_range repr f base step stepped p ≡ ok r
      → Sound f r
  base_range-Sound f base step stepped (a, some b) r pos h =
      let (start, s, h₁) =
        chained (number repr f a)
          (λ start. number repr f b >>= λ end. ordered repr f base start end step) r h in
      let (end, e, h₂) =
        chained (number repr f b) (λ end. ordered repr f base start end step) r h₁ in
      ordered-Sound f base start end step r (number_bounds f a start s).0
        (number_bounds f b end e).1 pos h₂
  base_range-Sound f base step true (a, none) r pos h =
      let (start, s, h₁) =
        chained (number repr f base)
          (λ start. ok (record { start = start; end = high f; step = step })) r h in
      let (lo, hi) = number_bounds f base start s in
      subst (Sound f) (same_value h₁) ((lo, omega arith, pos), hi)
  base_range-Sound f base step false (a, none) r pos h =
      let (start, s, h₁) =
        chained (number repr f base)
          (λ start. ok (record { start = start; end = start; step = step })) r h in
      let (lo, hi) = number_bounds f base start s in
      subst (Sound f) (same_value h₁) ((lo, hi, pos), omega arith)

  star-Sound :
      (f : Field) (step : ℕ)
      → 1 ≤ step
      → Sound f (record { start = low f; end = high f; step = step })
  star-Sound minute step pos = ((omega arith, omega arith, pos), omega arith)
  star-Sound hour step pos = ((omega arith, omega arith, pos), omega arith)
  star-Sound day step pos = ((omega arith, omega arith, pos), omega arith)
  star-Sound month step pos = ((omega arith, omega arith, pos), omega arith)
  star-Sound weekday step pos = ((omega arith, omega arith, pos), omega arith)

  range_of-Sound : (f : Field) (part : String) (r : Range) → range_of repr f part ≡ ok r → Sound f r
  unfolding range_of
  range_of-Sound f part r h =
      let base = (partition "/" part).0 in
      let slash = (partition "/" part).1 in
      let (step, s, h₁) =
        chained (step_of repr f slash)
          (λ step.
            if base == "*"
            then ok (record { start = low f; end = high f; step = step })
            else base_range repr f base step (has_step repr slash) (partition "-" base))
          r h in
      let pos = step_of_positive f slash step s in
      elim (Bool-cases (base == "*")) [
        | inl e ↦ subst (Sound f) (same_value (rw e at h₁)) (star-Sound f step pos)
        | inr e ↦
            base_range-Sound f base step (has_step repr slash) (partition "-" base) r pos
              (rw e at h₁)
      ]

  -- When a part of a field is read, it stands for a range within the bounds of the field, with a
  -- first value and a step of one or more, and its values are exactly those that the range selects.
  pub values_lem :
      (f : Field) (part : String) (l : List ℕ)
      → values repr f part ≡ ok l
      → (r : Range) × (range_of repr f part ≡ ok r)
        × Inside f r
        × (r.start ≤ r.end)
        × ((v : ℕ) → In v l ↔ Selected f r v)
  unfolding values
  values_lem f part l h =
      let (r, e, h₁) = chained (range_of repr f part) (λ r. ok (range_values f r)) l h in
      let (inside, first) = range_of-Sound f part r e in
      (
        r,
        e,
        inside,
        first,
        λ v. subst (λ m. In v m ↔ Selected f r v) (same_value h₁) (In-range_values f r v inside.2),
      )
