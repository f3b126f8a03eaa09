-- ===== src/Executor/Phases/Report.antt =====
-- The report of `execute` lists every action of the plan.
use mathlib.Core.Path.{subst}
use bay.Prelude.{
  ℕ, suc, Bool, true, ◌≡◌, ◌↔◌, ◌≤◌, ◌<◌, ◌⊎◌, inl, inr, refl, List, [], ◌∷◌, ◌++◌, map, ltb, ap,
  sym, ◌∙◌, arith, ◌==◌, nat_eq, Bool-cases,
}
use bay.Prelude.Assoc.{keep, In, In-append_iff, In-keep}
use bay.Model.{
  ContainerType, service, accessory, infra, Action, no_op, create, recreate, canary_swap, remove,
  ActionResult, Plan, is_no_op,
}
use bay.Executor.Phases.{
  Placed, value, enumerate, insert_placed, by_position, placed_canary, other, run_phase, execute,
  phase_batch, removes, Runner, skipped_result, is_canary, is_remove, in_phase, phase_order,
}

-- a result, as the action it is about
abbrev pub about : Placed ActionResult → Placed Action
about r = (r.0, r.1.action)

abbrev pub result_action : ActionResult → Action
result_action r = r.action

-- every position of the list is at least `n`
abbrev From : ℕ → List (Placed Action) → Type 0
From n [] = Unit
From n (x ∷ l) = (n ≤ x.0) × From n l

From-weaker : (n : ℕ) (l : List (Placed Action)) → From (suc n) l → From n l
From-weaker n [] h = tt
From-weaker n (x ∷ l) (h, hs) = (ground arith, From-weaker n l hs)

enumerate-From : (n : ℕ) (l : List Action) → From n (enumerate n l)
unfolding enumerate
enumerate-From n [] = tt
enumerate-From n (a ∷ l) = (ground arith, From-weaker n _ (enumerate-From (suc n) l))

insert_placed-least :
    (n : ℕ) (a : Action) (l : List (Placed Action)) → From n l → insert_placed (n, a) l ≡ (n, a) ∷ l
unfolding insert_placed
insert_placed-least n a [] h = refl
insert_placed-least n a (x ∷ l) (h, hs) = ground arith

insert_placed-swap :
    (m n : ℕ) (a b : Action) (l : List (Placed Action))
    → m < n
    → insert_placed (n, b) (insert_placed (m, a) l) ≡ insert_placed (m, a) (insert_placed (n, b) l)
unfolding insert_placed
insert_placed-swap m n a b [] h = ground arith
insert_placed-swap m n a b (x ∷ l) h = ground (arith, insert_placed-swap m n a b l h)

-- an element in the middle, with a position below those in front of it
by_position-middle :
    (n : ℕ) (a : Action) (l m : List (Placed Action))
    → From (suc n) l
    → by_position (l ++ ((n, a) ∷ m)) ≡ insert_placed (n, a) (by_position (l ++ m))
unfolding by_position
by_position-middle n a [] m h = refl
by_position-middle n a ((k, b) ∷ l) m (h, hs) =
    ap (insert_placed (k, b)) (by_position-middle n a l m hs)
    ∙ insert_placed-swap n k a b (by_position (l ++ m)) (ground arith)

From-keep :
    (n : ℕ) (p : Placed Action → Bool) (l : List (Placed Action)) → From n l → From n (keep p l)
unfolding keep
From-keep n p [] h = tt
From-keep n p (x ∷ l) (h, hs) = elim (Bool-cases (p x)) [
  | inl e ↦ rw e (h, From-keep n p l hs)
  | inr e ↦ rw e (From-keep n p l hs)
]

-- The two parts of a batch, sorted by position, are the batch again.
by_position-parts :
    (n : ℕ) (batch : List Action)
    → by_position (keep other (enumerate n batch) ++ keep placed_canary (enumerate n batch))
      ≡ enumerate n batch
unfolding keep enumerate by_position
by_position-parts n [] = refl
by_position-parts n (a ∷ l) =
    let least =
      insert_placed-least n a (enumerate (suc n) l) (From-weaker n _ (enumerate-From (suc n) l)) in
    elim (Bool-cases (is_canary a)) [
      | inl e ↦ rw e (
          by_position-middle n a (keep other (enumerate (suc n) l))
            (keep placed_canary (enumerate (suc n) l))
            (From-keep (suc n) other _ (enumerate-From (suc n) l))
          ∙ ap (insert_placed (n, a)) (by_position-parts (suc n) l)
          ∙ least)
      | inr e ↦ rw e (ap (insert_placed (n, a)) (by_position-parts (suc n) l) ∙ least)
    ]

insert_placed-about :
    (r : Placed ActionResult) (l : List (Placed ActionResult))
    → map about (insert_placed r l) ≡ insert_placed (about r) (map about l)
unfolding insert_placed
insert_placed-about r [] = refl
insert_placed-about r (s ∷ l) = elim (Bool-cases (ltb s.0 r.0)) [
  | inl e ↦ rw e (ap (◌∷◌ (about s)) (insert_placed-about r l))
  | inr e ↦ rw e refl
]

by_position-about :
    (l : List (Placed ActionResult)) → map about (by_position l) ≡ by_position (map about l)
unfolding by_position
by_position-about [] = refl
by_position-about (r ∷ l) =
    insert_placed-about r (by_position l) ∙ ap (insert_placed (about r)) (by_position-about l)

actions-about :
    (l : List (Placed ActionResult)) → map result_action (map value l) ≡ map value (map about l)
actions-about [] = refl
actions-about (r ∷ l) = ap (◌∷◌ r.1.action) (actions-about l)

value-enumerate : (n : ℕ) (l : List Action) → map value (enumerate n l) ≡ l
unfolding enumerate
value-enumerate n [] = refl
value-enumerate n (a ∷ l) = ap (◌∷◌ a) (value-enumerate (suc n) l)

map-append : {A B : Type 0} (g : A → B) (l m : List A) → map g (l ++ m) ≡ map g l ++ map g m
map-append g [] m = refl
map-append g (x ∷ l) m = ap (◌∷◌ (g x)) (map-append g l m)

phase_cases :
    (t : ContainerType)
    → ((phase_order t == 0) ≡ true)
      ⊎ (((phase_order t == 1) ≡ true) ⊎ ((phase_order t == 2) ≡ true))
phase_cases infra = inl refl
phase_cases accessory = inr (inl refl)
phase_cases service = inr (inr refl)

-- Every action is skipped, a change of one of the phases, or a removal.
abbrev pub Part : Action → Type 0
Part a =
    (is_no_op a ≡ true)
    ⊎ ((in_phase 0 a ≡ true)
        ⊎ ((in_phase 1 a ≡ true) ⊎ ((in_phase 2 a ≡ true) ⊎ (is_remove a ≡ true))))

pub Part-Part : (a : Action) → Part a
Part-Part (no_op name) = inl refl
Part-Part (create spec) = elim (phase_cases spec.type) [
  | inl e ↦ inr (inl e)
  | inr x ↦ elim x [ inl e ↦ inr (inr (inl e)) | inr e ↦ inr (inr (inr (inl e))) ]
]
Part-Part (recreate spec reason) = elim (phase_cases spec.type) [
  | inl e ↦ inr (inl e)
  | inr x ↦ elim x [ inl e ↦ inr (inr (inl e)) | inr e ↦ inr (inr (inr (inl e))) ]
]
Part-Part (canary_swap spec reason) = elim (phase_cases spec.type) [
  | inl e ↦ inr (inl e)
  | inr x ↦ elim x [ inl e ↦ inr (inr (inl e)) | inr e ↦ inr (inr (inr (inl e))) ]
]
Part-Part (remove name reason) = inr (inr (inr (inr refl)))

-- the actions in the order of the report
abbrev pub listed : Plan → List Action
listed p =
    keep is_no_op p ++ (phase_batch 0 p ++ (phase_batch 1 p ++ (phase_batch 2 p ++ removes p)))

-- membership in two lists of which the first is filtered
kept_or :
    (f : Action → Bool) (p l : List Action) (a : Action)
    → (In a l → In a p)
    → In a (keep f p ++ l)
    → In a p
kept_or f p l a rest h = elim ((In-append_iff a (keep f p) l).0 h) [
  | inl m ↦ ((In-keep f a p).0 m).0
  | inr m ↦ rest m
]

pub In-front :
    (f : Action → Bool) (p l : List Action) (a : Action)
    → In a p
    → f a ≡ true
    → In a (keep f p ++ l)
In-front f p l a m e = (In-append_iff a (keep f p) l).1 (inl ((In-keep f a p).1 (m, e)))

pub In-behind : (f : Action → Bool) (p l : List Action) (a : Action) → In a l → In a (keep f p ++ l)
In-behind f p l a m = (In-append_iff a (keep f p) l).1 (inr m)

listed_iff : (p : Plan) (a : Action) → In a (listed p) ↔ In a p
unfolding phase_batch removes
listed_iff p a = (
  kept_or is_no_op p _ a (
      kept_or (in_phase 0) p _ a (
        kept_or (in_phase 1) p _ a
          (kept_or (in_phase 2) p _ a (λ m. ((In-keep is_remove a p).0 m).0)))),
  λ m. elim (Part-Part a) [
    | inl e ↦ In-front is_no_op p _ a m e
    | inr x ↦ In-behind is_no_op p _ a (elim x [
      | inl e ↦ In-front (in_phase 0) p _ a m e
      | inr y ↦ In-behind (in_phase 0) p _ a (elim y [
        | inl e ↦ In-front (in_phase 1) p _ a m e
        | inr z ↦ In-behind (in_phase 1) p _ a (elim z [
          | inl e ↦ In-front (in_phase 2) p _ a m e
          | inr e ↦ In-behind (in_phase 2) p _ a ((In-keep is_remove a p).1 (m, e))
        ])
      ])
    ])
  ],
)

-- The results of a batch stand in the order of submission.
abbrev pub InOrder : Runner → Type 0
InOrder runner = (workers : ℕ) (l : List (Placed Action)) → map about (runner workers l) ≡ l

module _ (runner : Runner) (ordered : InOrder runner) (max_workers : ℕ) where
  run_phase-order :
      (batch : List Action) → map result_action (run_phase runner max_workers batch) ≡ batch
  unfolding run_phase
  run_phase-order batch =
      let others = keep other (enumerate 0 batch) in
      let canaries = keep placed_canary (enumerate 0 batch) in
      let done = runner max_workers others ++ runner 1 canaries in
      let parts : map about done ≡ others ++ canaries =
        map-append about (runner max_workers others) (runner 1 canaries)
        ∙ rw (ordered max_workers others, ordered 1 canaries) refl in
      actions-about (by_position done)
      ∙ ap (map value) (by_position-about done ∙ ap by_position parts ∙ by_position-parts 0 batch)
      ∙ value-enumerate 0 batch

  skipped-order : (l : List Action) → map result_action (map skipped_result l) ≡ l
  skipped-order [] = refl
  skipped-order (a ∷ l) = ap (◌∷◌ a) (skipped-order l)

  removes-order :
      (l : List Action) → map result_action (map value (runner max_workers (enumerate 0 l))) ≡ l
  removes-order l =
      actions-about (runner max_workers (enumerate 0 l))
      ∙ ap (map value) (ordered max_workers (enumerate 0 l))
      ∙ value-enumerate 0 l

  -- If the pool returns the results of a batch in the order of submission, the report of a plan has
  -- the skipped actions first, then the changes of the infra, the accessory and the service phase,
  -- and the removals last, each of them in the order of the plan.
  pub execute-order :
      (p : Plan)
      → map result_action (execute runner max_workers p)
        ≡ keep is_no_op p
          ++ (phase_batch 0 p ++ (phase_batch 1 p ++ (phase_batch 2 p ++ removes p)))
  unfolding execute
  execute-order p =
      let r : ℕ → List ActionResult = λ n. run_phase runner max_workers (phase_batch n p) in
      let last = map value (runner max_workers (enumerate 0 (removes p))) in
      map-append result_action (map skipped_result (keep is_no_op p)) _
      ∙ rw
          (
            map-append result_action (r 0) (r 1 ++ (r 2 ++ last)),
            map-append result_action (r 1) (r 2 ++ last),
            map-append result_action (r 2) last,
            skipped-order (keep is_no_op p),
            run_phase-order (phase_batch 0 p),
            run_phase-order (phase_batch 1 p),
            run_phase-order (phase_batch 2 p),
            removes-order (removes p),
          )
          refl

  -- If the pool returns the results of a batch in the order of submission, an action has a result in
  -- the report exactly if it is in the plan.
  pub execute_complete :
      (p : Plan) (a : Action) → In a (map result_action (execute runner max_workers p)) ↔ In a p
  execute_complete p a =
      let split = listed_iff p a in
      let same = execute-order p in
      (λ h. split.0 (subst (In a) same h), λ h. subst (In a) (sym same) (split.1 h))
