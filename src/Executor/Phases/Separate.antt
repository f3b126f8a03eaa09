-- ===== src/Executor/Phases/Separate.antt =====
-- A plan whose actions are about different names is scheduled in batches of actions that leave each
-- other alone.
use mathlib.Core.Path.{subst}
use bay.Prelude.{
  ℕ, suc, String, Bool, true, false, ◌+◌, ◌*◌, ◌≤◌, ◌≡◌, ◌⊎◌, inl, inr, refl, List, [], ◌∷◌, ◌++◌,
  sym, ap, arith, nat_eq, Bool-cases,
}
use bay.Prelude.Assoc.{keep, In, In-append_iff, In-keep}
use bay.Model.{
  Action, Plan, ReconcilerConfig, no_op, create, recreate, canary_swap, remove, is_no_op,
  action_target,
}
use bay.Executor.{Clock}
use bay.Executor.Fleet.{Own}
use bay.Executor.Pool.{Apart, Disjoint, DisjointAll}
use bay.Executor.Phases.{phase_batch, phase_order, removes, is_canary, is_remove, in_phase}
use bay.Executor.Phases.Rounds.{rounds, actions_of, not_canary}

-- the place of an action's batch among the rounds
slot : Action → ℕ
slot (no_op name) = 7
slot (create spec) = 2 * phase_order spec.type
slot (recreate spec reason) = 2 * phase_order spec.type
slot (canary_swap spec reason) = 2 * phase_order spec.type + 1
slot (remove name reason) = 6

plain_slot : (k : ℕ) (a : Action) → in_phase k a ≡ true → not_canary a ≡ true → slot a ≡ 2 * k
unfolding slot
plain_slot k (no_op name) h c = cc
plain_slot k (create spec) h c = ground arith
plain_slot k (recreate spec reason) h c = ground arith
plain_slot k (canary_swap spec reason) h c = cc
plain_slot k (remove name reason) h c = cc

canary_slot : (k : ℕ) (a : Action) → in_phase k a ≡ true → is_canary a ≡ true → slot a ≡ 2 * k + 1
unfolding slot
canary_slot k (no_op name) h c = cc
canary_slot k (create spec) h c = cc
canary_slot k (recreate spec reason) h c = cc
canary_slot k (canary_swap spec reason) h c = ground arith
canary_slot k (remove name reason) h c = cc

phase_changes : (k : ℕ) (a : Action) → in_phase k a ≡ true → is_no_op a ≡ false
phase_changes k (no_op name) h = cc
phase_changes k (create spec) h = refl
phase_changes k (recreate spec reason) h = refl
phase_changes k (canary_swap spec reason) h = refl
phase_changes k (remove name reason) h = cc

remove_slot : (a : Action) → is_remove a ≡ true → (is_no_op a ≡ false) × (slot a ≡ 6)
unfolding slot
remove_slot (remove name reason) h = (refl, refl)
remove_slot (no_op name) h = cc
remove_slot (create spec) h = cc
remove_slot (recreate spec reason) h = cc
remove_slot (canary_swap spec reason) h = cc

module _ (clock : Clock) (cfg : ReconcilerConfig) where
  -- the names that an action is about or may touch
  abbrev pub Claims : Action → String → Type 0
  Claims a n = (n ≡ action_target a) ⊎ Own clock cfg a n

  abbrev pub Foreign : Action → Action → Type 0
  Foreign a b = (n : String) → Claims a n → Claims b n → ⊥

  abbrev pub ForeignAll : Action → List Action → Type 0
  ForeignAll a [] = Unit
  ForeignAll a (b ∷ l) = Foreign a b × ForeignAll a l

  -- No name is claimed by two actions of the list.
  abbrev pub Separate : List Action → Type 0
  Separate [] = Unit
  Separate (a ∷ l) = ForeignAll a l × Separate l

  ForeignAll-In : (a b : Action) (l : List Action) → ForeignAll a l → In b l → Foreign a b
  ForeignAll-In a b (x ∷ l) (f, fs) (inl e) = subst (Foreign a) (sym e) f
  ForeignAll-In a b (x ∷ l) (f, fs) (inr m) = ForeignAll-In a b l fs m
  ForeignAll-In a b [] f m = absurd m

  pub Separate-In :
      (a b : Action) (l : List Action) → Separate l → In a l → In b l → (a ≡ b) ⊎ Foreign a b
  Separate-In a b [] s m k = absurd m
  Separate-In a b (x ∷ l) (f, s) (inl e) (inl d) = inl (cc (e, d))
  Separate-In a b (x ∷ l) (f, s) (inl e) (inr k) =
      inr (subst (λ c. Foreign c b) (sym e) (ForeignAll-In x b l f k))
  Separate-In a b (x ∷ l) (f, s) (inr m) (inl d) =
      inr (λ n p q. subst (λ c. Foreign c a) (sym d) (ForeignAll-In x a l f m) n q p)
  Separate-In a b (x ∷ l) (f, s) (inr m) (inr k) = Separate-In a b l s m k

  ForeignAll-keep :
      (p : Action → Bool) (a : Action) (l : List Action) → ForeignAll a l → ForeignAll a (keep p l)
  unfolding keep
  ForeignAll-keep p a [] f = tt
  ForeignAll-keep p a (x ∷ l) (f, fs) = elim (Bool-cases (p x)) [
    | inl e ↦ rw e (f, ForeignAll-keep p a l fs)
    | inr e ↦ rw e (ForeignAll-keep p a l fs)
  ]

  Separate-keep : (p : Action → Bool) (l : List Action) → Separate l → Separate (keep p l)
  unfolding keep
  Separate-keep p [] s = tt
  Separate-keep p (x ∷ l) (f, s) = elim (Bool-cases (p x)) [
    | inl e ↦ rw e (ForeignAll-keep p x l f, Separate-keep p l s)
    | inr e ↦ rw e (Separate-keep p l s)
  ]

  ForeignAll-DisjointAll :
      (a : Action) (l : List Action) → ForeignAll a l → DisjointAll clock cfg a l
  ForeignAll-DisjointAll a [] f = tt
  ForeignAll-DisjointAll a (x ∷ l) (f, fs) =
      (λ n p q. f n (inr p) (inr q), ForeignAll-DisjointAll a l fs)

  Separate-Apart : (l : List Action) → Separate l → Apart clock cfg l
  Separate-Apart [] s = tt
  Separate-Apart (x ∷ l) (f, s) = (ForeignAll-DisjointAll x l f, Separate-Apart l s)

  DisjointAll-append :
      (a : Action) (l m : List Action)
      → DisjointAll clock cfg a l
      → ((b : Action) → In b m → Disjoint clock cfg a b)
      → DisjointAll clock cfg a (l ++ m)
  DisjointAll-append a [] [] d f = tt
  DisjointAll-append a [] (x ∷ m) d f =
      (f x (inl refl), DisjointAll-append a [] m tt (λ b k. f b (inr k)))
  DisjointAll-append a (x ∷ l) m (d, ds) f = (d, DisjointAll-append a l m ds f)

  Apart-join :
      (l m : List Action)
      → Apart clock cfg l
      → Apart clock cfg m
      → ((a b : Action) → In a l → In b m → Disjoint clock cfg a b)
      → Apart clock cfg (l ++ m)
  Apart-join [] m p q f = q
  Apart-join (x ∷ l) m (d, p) q f = (
    DisjointAll-append x l m d (λ b k. f x b (inl refl) k),
    Apart-join l m p q (λ a b h k. f a b (inr h) k),
  )

  module _ (p : Plan) (separate : Separate p) where
    -- one batch of the plan
    Part : ℕ → List Action → Type 0
    Part i l = Separate l × ((a : Action) → In a l → In a p × (is_no_op a ≡ false) × (slot a ≡ i))

    -- the batches from a place on
    Rest : ℕ → List Action → Type 0
    Rest i l =
        Apart clock cfg l × ((a : Action) → In a l → In a p × (is_no_op a ≡ false) × (i ≤ slot a))

    join : (i : ℕ) (l m : List Action) → Part i l → Rest (suc i) m → Rest i (l ++ m)
    unfolding Part Rest
    join i l m (s, here) (q, there) = (
      Apart-join l m (Separate-Apart l s) q (λ a b h k. apart a b (here a h) (there b k)),
      λ a k. elim ((In-append_iff a l m).0 k) [
        | inl h ↦ let (x, y, z) = here a h in (x, y, ground arith)
        | inr h ↦ let (x, y, z) = there a h in (x, y, ground arith)
      ],
    )
      where
        apart :
            (a b : Action)
            → In a p × (is_no_op a ≡ false) × (slot a ≡ i)
            → In b p × (is_no_op b ≡ false) × (suc i ≤ slot b)
            → Disjoint clock cfg a b
        apart a b (ma, na, ia) (mb, nb, ib) = elim (Separate-In a b p separate ma mb) [
          | inl e ↦ absurd (omega (arith, ap slot e))
          | inr f ↦ λ n x y. f n (inr x) (inr y)
        ]

    part :
        (i : ℕ) (f : Action → Bool) (l : List Action)
        → Separate l
        → ((a : Action) → In a l → In a p)
        → ((a : Action) → In a l → f a ≡ true → (is_no_op a ≡ false) × (slot a ≡ i))
        → Part i (keep f l)
    unfolding Part
    part i f l s within placed = (
      Separate-keep f l s,
      λ a k. let (m, e) = (In-keep f a l).0 k in (within a m, (placed a m e).0, (placed a m e).1),
    )

    phase :
        (k : ℕ) (m : List Action)
        → Rest (suc (suc (2 * k))) m
        → Rest
            (2 * k)
            (keep not_canary (phase_batch k p) ++ (keep is_canary (phase_batch k p) ++ m))
    unfolding phase_batch
    phase k m rest =
        let batch = keep (in_phase k) p in
        let s = Separate-keep (in_phase k) p separate in
        let within : (a : Action) → In a batch → In a p × (in_phase k a ≡ true) =
          λ a h. (In-keep (in_phase k) a p).0 h in
        join (2 * k) (keep not_canary batch) (keep is_canary batch ++ m)
          (part (2 * k) not_canary batch s (λ a h. (within a h).0)
            (λ a h e. (phase_changes k a (within a h).1, plain_slot k a (within a h).1 e)))
          (join (suc (2 * k)) (keep is_canary batch) m
            (part (suc (2 * k)) is_canary batch s (λ a h. (within a h).0)
              (λ a h e. (
                phase_changes k a (within a h).1,
                omega (arith, canary_slot k a (within a h).1 e),
              )))
            rest)

    all_rounds : (max_workers : ℕ) → Rest 0 (actions_of clock cfg (rounds max_workers p))
    unfolding rounds removes
    all_rounds max_workers = phase 0 _ (
        phase 1 _ (
          phase 2 _ (
            join 6 (keep is_remove p) []
              (part 6 is_remove p separate (λ a h. h) (λ a h e. remove_slot a e))
              (unfold Rest in (tt, λ a h. absurd h)))))

    -- Let the actions of a plan be about different names. Then the actions that its rounds apply
    -- leave each other's names alone.
    pub rounds-Apart :
        (max_workers : ℕ) → Apart clock cfg (actions_of clock cfg (rounds max_workers p))
    unfolding Rest
    rounds-Apart max_workers = (all_rounds max_workers).0

    -- The rounds apply changes of the plan only.
    pub rounds-In :
        (max_workers : ℕ) (a : Action)
        → In a (actions_of clock cfg (rounds max_workers p))
        → In a p × (is_no_op a ≡ false)
    unfolding Rest
    rounds-In max_workers a m = let (k, e, i) = (all_rounds max_workers).1 a m in (k, e)
