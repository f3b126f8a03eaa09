-- ===== src/Planner/Decisions.antt =====
-- Every action of a plan is justified by what was wanted and observed.
use bay.Prelude.{
  String, Bool, not, ◌&&◌, if◌then◌else◌, true, false, ◌≡◌, ◌⊎◌, inl, inr, refl, Option, none, some,
  List, [], ◌∷◌, map, arith, Bool-cases, false≢true, sym, ◌∙◌, string_eq, list_eq,
}
use bay.Prelude.Assoc.{Assoc, lookup, contains, In, In-contains, All, All-append}
use bay.Model.{ContainerSpec, ContainerState, Action, no_op, create, recreate, canary_swap, remove}
use bay.Planner.Changes.{
  UpToDate, up_to_date_iff, CanSwap, can_swap, can_swap_iff, fallback_reason, change_lem,
}
use bay.Planner.{
  change_reason, up_to_date, decide, spec_name, desired_actions, orphan_actions, plan,
}

-- What an action of a plan says of the container that it is for.
abbrev pub Justified : List ContainerSpec → Assoc ContainerState → Bool → Action → Type 0
Justified desired observed remove_orphans (no_op name) =
    (spec : ContainerSpec) × (state : ContainerState) × In spec desired
    × (name ≡ spec.name)
    × (lookup spec.name observed ≡ some state)
    × (state.exists ≡ true)
    × UpToDate spec state
Justified desired observed remove_orphans (create spec) =
    In spec desired
    × ((lookup spec.name observed ≡ none)
        ⊎ ((state : ContainerState) × (lookup spec.name observed ≡ some state)
            × (state.exists ≡ false)))
Justified desired observed remove_orphans (recreate spec reason) =
    (state : ContainerState) × In spec desired
    × (lookup spec.name observed ≡ some state)
    × (state.exists ≡ true)
    × (¬ UpToDate spec state)
    × (¬ CanSwap spec state)
Justified desired observed remove_orphans (canary_swap spec reason) =
    (state : ContainerState) × In spec desired
    × (lookup spec.name observed ≡ some state)
    × (state.exists ≡ true)
    × (¬ UpToDate spec state)
    × CanSwap spec state
Justified desired observed remove_orphans (remove name reason) =
    (state : ContainerState) × (remove_orphans ≡ true)
    × In (name, state) observed
    × (state.managed ≡ true)
    × (¬ In name (map spec_name desired))

module _ (desired : List ContainerSpec) (observed : Assoc ContainerState) (orphans : Bool) where
  module _ (spec : ContainerSpec) (m : In spec desired) where
    -- the ladder of tests on an observed container, one clause for each way through it
    pick : ContainerState → Bool → Bool → Bool → Action
    pick state false updated swap = create spec
    pick state true true swap = no_op spec.name
    pick state true false true = canary_swap spec (change_reason spec state)
    pick state true false false = recreate spec (fallback_reason spec state)

    pick-Justified :
        (state : ContainerState)
        → lookup spec.name observed ≡ some state
        → (there updated swap : Bool) → state.exists ≡ there
        → up_to_date spec state ≡ updated
        → can_swap spec state ≡ swap
        → Justified desired observed orphans (pick state there updated swap)
    unfolding pick
    pick-Justified state e false updated swap p q r = (m, inr (state, e, p))
    pick-Justified state e true true swap p q r =
        (spec, state, m, refl, e, p, (up_to_date_iff spec state).0 q)
    pick-Justified state e true false true p q r = (
      state,
      m,
      e,
      p,
      λ u. false≢true (sym q ∙ (up_to_date_iff spec state).1 u),
      (can_swap_iff spec state).0 r,
    )
    pick-Justified state e true false false p q r = (
      state,
      m,
      e,
      p,
      λ u. false≢true (sym q ∙ (up_to_date_iff spec state).1 u),
      λ c. false≢true (sym r ∙ (can_swap_iff spec state).1 c),
    )

    decide-pick :
        (state : ContainerState)
        → decide spec (some state)
          ≡ pick state state.exists (up_to_date spec state) (can_swap spec state)
    unfolding decide pick
    decide-pick state = ground (arith, change_lem spec state)

    decide-Justified :
        (o : Option ContainerState)
        → lookup spec.name observed ≡ o
        → Justified desired observed orphans (decide spec o)
    decide-Justified none e = unfold decide in (m, inl e)
    decide-Justified (some state) e =
        rw (decide-pick state) (pick-Justified state e _ _ _ refl refl refl)

  -- without the orphans
  desired-Justified :
      (l : List ContainerSpec)
      → ((spec : ContainerSpec) → In spec l → In spec desired)
      → All (Justified desired observed orphans) (desired_actions l observed)
  unfolding desired_actions
  desired-Justified [] sub = tt
  desired-Justified (spec ∷ l) sub = (
    decide-Justified spec (sub spec (inl refl)) (lookup spec.name observed) refl,
    desired-Justified l (λ s m. sub s (inr m)),
  )

  orphans-Justified :
      orphans ≡ true
      → (l : Assoc ContainerState) → ((x : String × ContainerState) → In x l → In x observed)
      → All (Justified desired observed orphans) (orphan_actions (map spec_name desired) l)
  unfolding orphan_actions
  orphans-Justified on [] sub = tt
  orphans-Justified on ((name, state) ∷ l) sub =
      let rest = orphans-Justified on l (λ x m. sub x (inr m)) in
      elim (Bool-cases (state.managed && not (contains (map spec_name desired) name))) [
        | inl e ↦ rw e (
          (
            state,
            on,
            sub _ (inl refl),
            ground arith,
            λ m. false≢true (ground (arith, In-contains (map spec_name desired) name m)),
          ),
          rest,
        )
        | inr e ↦ rw e rest
      ]

  -- Every action of a plan is justified by what was wanted and observed: a container is left alone
  -- only if it is up to date, created only if it is missing, swapped only if it has changed and
  -- two of it can run side by side, recreated only if it has changed and they cannot, and removed
  -- only if orphan removal is on, the container is managed and no spec has its name.
  pub plan-Justified : All (Justified desired observed orphans) (plan desired observed orphans)
  unfolding plan
  plan-Justified =
      All-append _ (desired_actions desired observed) _ (desired-Justified desired (λ s m. m))
        (rest orphans refl)
    where
      rest :
          (b : Bool)
          → orphans ≡ b
          → All
              (Justified desired observed orphans)
              (if b then orphan_actions (map spec_name desired) observed else [])
      rest true e = orphans-Justified e observed (λ x m. m)
      rest false e = tt
