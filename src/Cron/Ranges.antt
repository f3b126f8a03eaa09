-- ===== src/Cron/Ranges.antt =====
-- The values of a cron field: what a range selects, and the bounds of the field.
use bay.Prelude.{
  ℕ, zero, suc, ◌+◌, ◌*◌, ◌%◌, ◌≤◌, ◌<◌, ◌≡◌, ◌↔◌, ◌⊎◌, inl, inr, refl, ap, ◌∙◌, List, [], ◌∷◌, map,
  ◌==◌, string_eq, nat_eq, ltb, leb, arith, Bool-cases,
}
use bay.Prelude.Assoc.{In}
use bay.Cron.{
  Field, minute, hour, day, month, weekday, low, high, range_from, insert_value, sorted_set, Range,
  range_values,
}

-- A value that the steps of a range reach.
abbrev pub Reached : ℕ → ℕ → ℕ → ℕ → Type 0
Reached start end step v = (k : ℕ) × (v ≡ start + k * step) × (v ≤ end)

range_from_iff :
    (fuel start end step v : ℕ)
    → 1 ≤ step
    → end < fuel + start
    → In v (range_from fuel start end step) ↔ Reached start end step v
unfolding range_from
range_from_iff zero start end step v pos enough =
    (λ h. absurd h, λ r. absurd (beyond (r.0) (r.1) (r.2)))
  where
    beyond : (k : ℕ) → v ≡ start + k * step → v ≤ end → ⊥
    beyond k e le = omega arith
range_from_iff (suc fuel) start end step v pos enough =
    let ih = range_from_iff fuel (start + step) end step v pos (omega arith) in
    elim (Bool-cases (leb start end)) [
      | inl e ↦ rw e (λ h. there ih (ground arith) h, λ r. back ih (r.0) (r.1) (r.2))
      | inr e ↦ rw e (λ h. absurd h, λ r. absurd (past (ground arith) (r.0) (r.1) (r.2)))
    ]
  where
    there :
        In v (range_from fuel (start + step) end step) ↔ Reached (start + step) end step v
        → start ≤ end
        → (v ≡ start) ⊎ In v (range_from fuel (start + step) end step)
        → Reached start end step v
    there ih le (inl e) = (0, (omega arith), (omega arith))
    there ih le (inr m) = let (k, e, b) = ih.0 m in (suc k, (omega arith), b)

    back :
        In v (range_from fuel (start + step) end step) ↔ Reached (start + step) end step v
        → (k : ℕ) → v ≡ start + k * step
        → v ≤ end
        → (v ≡ start) ⊎ In v (range_from fuel (start + step) end step)
    back ih zero e le = inl (omega arith)
    back ih (suc k) e le = inr (ih.1 (k, (omega arith), le))

    past : end < start → (k : ℕ) → v ≡ start + k * step → v ≤ end → ⊥
    past lt k e le = omega arith

In-insert_value : (x v : ℕ) (l : List ℕ) → In x (insert_value v l) ↔ In x (v ∷ l)
unfolding insert_value
In-insert_value x v [] = (λ h. h, λ h. h)
In-insert_value x v (w ∷ l) =
    let ih = In-insert_value x v l in
    elim (Bool-cases (ltb v w)) [
      | inl e ↦ rw e (λ h. h, λ h. h)
      | inr e ↦ elim (Bool-cases (v == w)) [
        | inl same ↦ rw (e, same) (λ h. inr h, λ h. collapse ((nat_eq.test_iff v w).0 same) h)
        | inr other ↦ rw (e, other) (λ h. down ih h, λ h. up ih h)
      ]
    ]
  where
    collapse : v ≡ w → In x (v ∷ w ∷ l) → In x (w ∷ l)
    collapse e (inl x_is) = inl (x_is ∙ e)
    collapse e (inr m) = m

    down : In x (insert_value v l) ↔ In x (v ∷ l) → In x (w ∷ insert_value v l) → In x (v ∷ w ∷ l)
    down ih (inl e) = inr (inl e)
    down ih (inr m) = elim (ih.0 m) [ inl e ↦ inl e | inr t ↦ inr (inr t) ]

    up : In x (insert_value v l) ↔ In x (v ∷ l) → In x (v ∷ w ∷ l) → In x (w ∷ insert_value v l)
    up ih (inl e) = inr (ih.1 (inl e))
    up ih (inr (inl e)) = inl e
    up ih (inr (inr m)) = inr (ih.1 (inr m))

pub In-sorted_set : (x : ℕ) (l : List ℕ) → In x (sorted_set l) ↔ In x l
unfolding sorted_set
In-sorted_set x [] = (λ h. h, λ h. h)
In-sorted_set x (v ∷ l) =
    let first = In-insert_value x v (sorted_set l) in
    let rest = In-sorted_set x l in (λ h. under rest.0 (first.0 h), λ h. first.1 (over rest.1 h))
  where
    under : (In x (sorted_set l) → In x l) → In x (v ∷ sorted_set l) → In x (v ∷ l)
    under r (inl e) = inl e
    under r (inr m) = inr (r m)

    over : (In x l → In x (sorted_set l)) → In x (v ∷ l) → In x (v ∷ sorted_set l)
    over r (inl e) = inl e
    over r (inr m) = inr (r m)

In-days : (v : ℕ) (l : List ℕ) → In v (map (λ w. w % 7) l) ↔ ((w : ℕ) × In w l × (v ≡ w % 7))
In-days v [] = (λ h. absurd h, λ x. absurd x.1)
In-days v (w ∷ l) =
    let ih = In-days v l in
    (
      λ h. elim h [ inl e ↦ (w, inl refl, e) | inr m ↦ let (u, n, e) = ih.0 m in (u, inr n, e) ],
      λ x. elim (x.1) [ inl e ↦ inl (x.2 ∙ ap (λ n. n % 7) e) | inr m ↦ inr (ih.1 (x.0, m, x.2)) ],
    )

-- A value that a range of the field selects: one that its steps reach, for the weekday by its place
-- in the week.
abbrev pub Selected : Field → Range → ℕ → Type 0
Selected weekday r v = (w : ℕ) × Reached r.start r.end r.step w × (v ≡ w % 7)
Selected f r v = Reached r.start r.end r.step v

-- The range stands within the bounds of its field, and its step goes on.
abbrev pub Inside : Field → Range → Type 0
Inside f r = (low f ≤ r.start) × (r.end ≤ high f) × (1 ≤ r.step)

Reached-iff :
    (r : Range) (v : ℕ)
    → 1 ≤ r.step
    → In v (range_from (suc r.end) r.start r.end r.step) ↔ Reached r.start r.end r.step v
Reached-iff r v pos = range_from_iff (suc r.end) r.start r.end r.step v pos (omega arith)

pub In-range_values :
    (f : Field) (r : Range) (v : ℕ) → 1 ≤ r.step → In v (range_values f r) ↔ Selected f r v
unfolding range_values
In-range_values minute r v pos = Reached-iff r v pos
In-range_values hour r v pos = Reached-iff r v pos
In-range_values day r v pos = Reached-iff r v pos
In-range_values month r v pos = Reached-iff r v pos
In-range_values weekday r v pos =
    let l = range_from (suc r.end) r.start r.end r.step in
    let sorted = In-sorted_set v (map (λ w. w % 7) l) in
    let days = In-days v l in
    (
      λ h. let (w, m, e) = days.0 (sorted.0 h) in (w, (Reached-iff r w pos).0 m, e),
      λ x. sorted.1 (days.1 (x.0, (Reached-iff r (x.0) pos).1 x.1, x.2)),
    )
