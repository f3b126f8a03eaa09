-- ===== src/Executor/Phases/Rounds.antt =====
-- What `execute` has made of the fleet when every action is done: one round after another, each a
-- batch that the pool runs in some interleaving.
use mathlib.Core.Path.{subst}
use bay.Prelude.{
  ℕ, Bool, true, not, ◌≡◌, ◌⊎◌, inl, inr, refl, List, [], ◌∷◌, ◌++◌, map, sym, ◌∙◌, ap, String,
  Bool-cases,
}
use bay.Prelude.Assoc.{In, In-append_iff, In-keep, All, keep}
use bay.Model.{
  Action, Plan, ReconcilerConfig, no_op, create, recreate, canary_swap, remove, is_no_op,
}
use bay.Executor.{Clock, canary_name}
use bay.Executor.Calls.{ret, throw, call}
use bay.Executor.Fleet.{Fleet, Own, Achieved}
use bay.Executor.Pool.{
  Thread, action_of, Interleaving, submit, Apart, Disjoint, DisjointAll, Reported, pool-Reported,
  pool-foreign,
}
use bay.Executor.Phases.{phase_batch, removes, is_canary, is_remove, in_phase}
use bay.Executor.Phases.Report.{Part-Part, In-front, In-behind}

abbrev pub Round : Type 0
Round = ℕ × List Action

abbrev pub not_canary : Action → Bool
not_canary a = not (is_canary a)

-- the batches of `_run_phase` with their numbers of workers
abbrev pub phase_rounds : ℕ → List Action → List Round
phase_rounds max_workers batch =
    (max_workers, keep not_canary batch) ∷ (1, keep is_canary batch) ∷ []

-- the batches of `execute` in their order
unfoldable pub rounds : ℕ → Plan → List Round
rounds max_workers p =
    phase_rounds max_workers (phase_batch 0 p)
    ++ (phase_rounds max_workers (phase_batch 1 p)
        ++ (phase_rounds max_workers (phase_batch 2 p) ++ ((max_workers, removes p) ∷ [])))

-- a thread whose result is `done`
abbrev pub Returned : Thread → Type 0
Returned (a, ret detail) = Unit
Returned (a, throw e) = ⊥
Returned (a, call c k) = ⊥

module _ (clock : Clock) (cfg : ReconcilerConfig) where
  -- The rounds one after another, each with the result `done` for all its actions.
  pub data AllDone : List Round → Fleet → Fleet → Type 0 where
    finished : {h : Fleet} → AllDone [] h h
    round :
        {workers : ℕ} {batch : List Action} {l : List Round} {h i j : Fleet} (threads : List Thread)
        → Interleaving workers (submit clock cfg batch) h threads i
        → All Returned threads
        → AllDone l i j
        → AllDone ((workers, batch) ∷ l) h j

  abbrev pub actions_of : List Round → List Action
  actions_of [] = []
  actions_of ((workers, batch) ∷ l) = batch ++ actions_of l

  Achieved-stable :
      (a : Action) (h i : Fleet)
      → ((n : String) → Own clock cfg a n → h n ≡ i n)
      → Achieved clock cfg a h
      → Achieved clock cfg a i
  Achieved-stable (no_op name) h i same q = tt
  Achieved-stable (create spec) h i same q = sym (same spec.name (inl refl)) ∙ q
  Achieved-stable (recreate spec reason) h i same q = sym (same spec.name (inl refl)) ∙ q
  Achieved-stable (canary_swap spec reason) h i same (q, free) = (
    sym (same spec.name (inl refl)) ∙ q,
    λ ne. sym (same (canary_name clock cfg spec) (inr (inr refl))) ∙ free ne,
  )
  Achieved-stable (remove name reason) h i same q = sym (same name refl) ∙ q

  -- the aims of threads that have all returned
  All-met :
      (threads : List Thread) (i : Fleet)
      → All Returned threads
      → Reported clock cfg threads i
      → (a : Action) → In a (map action_of threads)
      → Achieved clock cfg a i
  All-met [] i r q a m = absurd m
  All-met ((b, ret detail) ∷ l) i (r, rs) (q, qs) a (inl e) =
      subst (λ c. Achieved clock cfg c i) (sym e) q
  All-met ((b, ret detail) ∷ l) i (r, rs) (q, qs) a (inr m) = All-met l i rs qs a m
  All-met ((b, throw e) ∷ l) i (r, rs) q a m = absurd r
  All-met ((b, call c k) ∷ l) i (r, rs) q a m = absurd r

  DisjointAll-In :
      (a b : Action) (l : List Action) → DisjointAll clock cfg a l → In b l → Disjoint clock cfg a b
  DisjointAll-In a b [] d m = absurd m
  DisjointAll-In a b (x ∷ l) (d, ds) (inl e) = subst (Disjoint clock cfg a) (sym e) d
  DisjointAll-In a b (x ∷ l) (d, ds) (inr m) = DisjointAll-In a b l ds m

  DisjointAll-first :
      (a : Action) (l m : List Action)
      → DisjointAll clock cfg a (l ++ m)
      → DisjointAll clock cfg a l
  DisjointAll-first a [] m d = tt
  DisjointAll-first a (x ∷ l) m (d, ds) = (d, DisjointAll-first a l m ds)

  -- the parts of a list of actions about different names
  Apart-append :
      (l m : List Action)
      → Apart clock cfg (l ++ m)
      → Apart clock cfg l
        × Apart clock cfg m
        × ((a b : Action) → In a l → In b m → Disjoint clock cfg a b)
  Apart-append [] m p = (tt, p, λ a b h. absurd h)
  Apart-append (x ∷ l) m (d, p) =
      let (first, second, across) = Apart-append l m p in
      (
        (DisjointAll-first x l m d, first),
        second,
        λ a b h k. elim h [
          | inl e ↦
              subst (λ c. Disjoint clock cfg c b) (sym e)
                (DisjointAll-In x b (l ++ m) d ((In-append_iff b l m).1 (inr k)))
          | inr t ↦ across a b t k
        ],
      )

  -- a name of none of the actions is left alone
  pub AllDone-foreign :
      {l : List Round} {h j : Fleet} (n : String)
      → AllDone l h j
      → Apart clock cfg (actions_of l)
      → ((a : Action) → In a (actions_of l) → ¬ Own clock cfg a n)
      → h n ≡ j n
  AllDone-foreign n finished p foreign = refl
  AllDone-foreign n (round {batch = batch} {l = l} threads run r rest) p foreign =
      let (first, second, across) = Apart-append batch (actions_of l) p in
      pool-foreign clock cfg batch n first run
        (λ a m. foreign a ((In-append_iff a batch (actions_of l)).1 (inl m)))
      ∙ AllDone-foreign n rest second
          (λ a m. foreign a ((In-append_iff a batch (actions_of l)).1 (inr m)))

  AllDone-Achieved :
      {l : List Round} {h j : Fleet}
      → AllDone l h j
      → Apart clock cfg (actions_of l)
      → (a : Action) → In a (actions_of l)
      → Achieved clock cfg a j
  AllDone-Achieved finished p a m = absurd m
  AllDone-Achieved
        (round {workers = workers} {batch = batch} {l = l} {h = h} {i = i} {j = j} threads run r
          rest)
        p a m =
      let (first, second, across) = Apart-append batch (actions_of l) p in
      elim ((In-append_iff a batch (actions_of l)).0 m) [
        | inl here ↦
            let (same, met) = pool-Reported clock cfg workers batch h i threads first run in
            Achieved-stable a i j
              (λ n own.
                AllDone-foreign n rest second (λ b k foreign. across a b here k n own foreign))
              (All-met threads i r met a (subst (In a) (sym same) here))
        | inr later ↦ AllDone-Achieved rest second a later
      ]

  skipped-Achieved : (a : Action) (j : Fleet) → is_no_op a ≡ true → Achieved clock cfg a j
  skipped-Achieved (no_op name) j e = tt
  skipped-Achieved (create spec) j e = cc
  skipped-Achieved (recreate spec reason) j e = cc
  skipped-Achieved (canary_swap spec reason) j e = cc
  skipped-Achieved (remove name reason) j e = cc

  phase_member :
      (batch l : List Action) (a : Action)
      → In a batch
      → In a (keep not_canary batch ++ (keep is_canary batch ++ l))
  phase_member batch l a m = elim (Bool-cases (is_canary a)) [
    | inl e ↦ In-behind not_canary batch _ a (In-front is_canary batch l a m e)
    | inr e ↦ In-front not_canary batch _ a m (ap not e)
  ]

  behind_phase :
      (batch l : List Action) (a : Action)
      → In a l
      → In a (keep not_canary batch ++ (keep is_canary batch ++ l))
  behind_phase batch l a m = In-behind not_canary batch _ a (In-behind is_canary batch l a m)

  scheduled :
      (max_workers : ℕ) (p : Plan) (a : Action)
      → In a p
      → (is_no_op a ≡ true) ⊎ In a (actions_of (rounds max_workers p))
  unfolding rounds phase_batch removes
  scheduled max_workers p a m =
      let b : (f : Action → Bool) → f a ≡ true → In a (keep f p) =
        λ f e. (In-keep f a p).1 (m, e) in
      elim (Part-Part a) [
        | inl e ↦ inl e
        | inr x ↦ inr (elim x [
          | inl e ↦ phase_member (keep (in_phase 0) p) _ a (b (in_phase 0) e)
          | inr y ↦ behind_phase (keep (in_phase 0) p) _ a (elim y [
            | inl e ↦ phase_member (keep (in_phase 1) p) _ a (b (in_phase 1) e)
            | inr z ↦ behind_phase (keep (in_phase 1) p) _ a (elim z [
              | inl e ↦ phase_member (keep (in_phase 2) p) _ a (b (in_phase 2) e)
              | inr e ↦
                  behind_phase (keep (in_phase 2) p) _ a
                    ((In-append_iff a (keep is_remove p) []).1 (inl (b is_remove e)))
            ])
          ])
        ])
      ]

  -- Let the actions that the rounds of a plan apply be about different names. If every round ends
  -- with all its actions done, in any interleaving within a round, then at the end every action
  -- of the plan has achieved its aim.
  pub execute-Achieved :
      (max_workers : ℕ) (p : Plan) (h j : Fleet)
      → Apart clock cfg (actions_of (rounds max_workers p))
      → AllDone (rounds max_workers p) h j
      → (a : Action) → In a p
      → Achieved clock cfg a j
  execute-Achieved max_workers p h j apart run a m = elim (scheduled max_workers p a m) [
    | inl e ↦ skipped-Achieved a j e
    | inr k ↦ AllDone-Achieved run apart a k
  ]
