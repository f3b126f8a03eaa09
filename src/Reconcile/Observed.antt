-- ===== src/Reconcile/Observed.antt =====
-- What docker reports of a fleet, and the actions of a plan by the specs they are about.
use mathlib.Core.Option.{some-injective}
use bay.Prelude.{
  String, Bool, true, false, not, ◌&&◌, ◌≡◌, ◌⊎◌, inl, inr, refl, Option, none, some, List, [], ◌∷◌,
  map, sym, ap, ◌∙◌, arith, Bool-cases, string_eq,
}
use bay.Prelude.Assoc.{Assoc, lookup, contains, contains-In, In, In-append_iff}
use bay.Model.{
  ContainerSpec, ContainerState, Action, no_op, create, recreate, canary_swap, remove, is_no_op,
}
use bay.Executor.Fleet.{Fleet, release_name}
use bay.Planner.{decide, spec_name, desired_actions, orphan_actions, plan}
use bay.Planner.Changes.{change_lem}
use bay.Planner.Coverage.{In-orphans}

-- What is observed of a fleet: the containers that `create` made are there, with the labels that
-- it gave them, and no other container has a managed label or a hash label.
pub record Shows (h : Fleet) (observed : Assoc ContainerState) : Type 0 where
  pub present :
      (name : String) (spec : ContainerSpec)
      → h name ≡ some spec
      → (state : ContainerState) × (lookup name observed ≡ some state)
        × (state.exists ≡ true)
        × (state.managed ≡ true)
        × (state.config_hash ≡ some spec.config_hash)
  pub made :
      (name : String) (state : ContainerState)
      → In (name, state) observed
      → (state.managed ≡ true) ⊎ ((hash : String) × (state.config_hash ≡ some hash))
      → (spec : ContainerSpec) × (h name ≡ some spec)

-- The release containers are gone, unless a wanted container has the name.
abbrev pub Released : List ContainerSpec → Fleet → Type 0
Released desired j =
    (spec : ContainerSpec)
    → In spec desired
    → ¬ In (release_name spec) (map spec_name desired)
    → j (release_name spec) ≡ none

-- the spec of an action that makes a container
abbrev pub spec_of : Action → Option ContainerSpec
spec_of (no_op name) = none
spec_of (create spec) = some spec
spec_of (recreate spec reason) = some spec
spec_of (canary_swap spec reason) = some spec
spec_of (remove name reason) = none

pub spec_of-decide :
    (spec : ContainerSpec) (o : Option ContainerState)
    → is_no_op (decide spec o) ≡ false
    → spec_of (decide spec o) ≡ some spec
unfolding decide
spec_of-decide spec none e = refl
spec_of-decide spec (some state) e = ground (arith, change_lem spec state)

pub no_op-decide :
    (spec : ContainerSpec) (o : Option ContainerState) (s : ContainerSpec)
    → spec_of (decide spec o) ≡ some s
    → s ≡ spec
unfolding decide
no_op-decide spec none s e = sym (some-injective _ _ e)
no_op-decide spec (some state) s e = ground (arith, change_lem spec state)

pub In-desired :
    (desired : List ContainerSpec) (observed : Assoc ContainerState) (spec : ContainerSpec)
    → In spec desired
    → In (decide spec (lookup spec.name observed)) (desired_actions desired observed)
unfolding desired_actions
In-desired [] observed spec m = absurd m
In-desired (x ∷ l) observed spec (inl e) =
    inl (ap (λ (c : ContainerSpec). decide c (lookup c.name observed)) e)
In-desired (x ∷ l) observed spec (inr m) = inr (In-desired l observed spec m)

pub desired-spec :
    (desired : List ContainerSpec) (observed : Assoc ContainerState) (a : Action)
    (s : ContainerSpec)
    → In a (desired_actions desired observed)
    → spec_of a ≡ some s
    → In s desired
unfolding desired_actions
desired-spec [] observed a s m e = absurd m
desired-spec (x ∷ l) observed a s (inl d) e =
    inl (no_op-decide x (lookup x.name observed) s (sym (ap spec_of d) ∙ e))
desired-spec (x ∷ l) observed a s (inr m) e = inr (desired-spec l observed a s m e)

pub orphan-spec :
    (names : List String) (observed : Assoc ContainerState) (a : Action) (s : ContainerSpec)
    → In a (orphan_actions names observed)
    → spec_of a ≡ some s
    → ⊥
unfolding orphan_actions
orphan-spec names [] a s m e = m
orphan-spec names ((n, x) ∷ l) a s m e = elim (Bool-cases (x.managed && not (contains names n))) [
  | inl t ↦ orphan_case (λ k. orphan-spec names l a s k e) (rw t at m)
  | inr t ↦ orphan-spec names l a s (rw t at m) e
]
  where
    orphan_case :
        (In a (orphan_actions names l) → ⊥)
        → In a (remove n "orphaned — not in desired set" ∷ orphan_actions names l)
        → ⊥
    orphan_case rest (inl d) = cc (ap spec_of d, e)
    orphan_case rest (inr k) = rest k

pub plan-spec :
    (desired : List ContainerSpec) (observed : Assoc ContainerState) (orphans : Bool) (a : Action)
    (s : ContainerSpec)
    → In a (plan desired observed orphans)
    → spec_of a ≡ some s
    → In s desired
unfolding plan
plan-spec desired observed true a s m e = elim ((In-append_iff a _ _).0 m) [
  | inl k ↦ desired-spec desired observed a s k e
  | inr k ↦ absurd (orphan-spec (map spec_name desired) observed a s k e)
]
plan-spec desired observed false a s m e = elim ((In-append_iff a _ _).0 m) [
  | inl k ↦ desired-spec desired observed a s k e
  | inr k ↦ absurd k
]

pub In-plan :
    (desired : List ContainerSpec) (observed : Assoc ContainerState) (orphans : Bool)
    (spec : ContainerSpec)
    → In spec desired
    → In (decide spec (lookup spec.name observed)) (plan desired observed orphans)
unfolding plan
In-plan desired observed orphans spec m =
    (In-append_iff _ (desired_actions desired observed) _).1
      (inl (In-desired desired observed spec m))

pub In-orphan :
    (desired : List ContainerSpec) (observed : Assoc ContainerState) (orphans : Bool)
    → orphans ≡ true
    → (n : String) (state : ContainerState) → In (n, state) observed
    → state.managed ≡ true
    → ¬ In n (map spec_name desired)
    → In (remove n "orphaned — not in desired set") (plan desired observed orphans)
unfolding plan
In-orphan desired observed orphans on n state m managed out = rw on (
    (In-append_iff _ (desired_actions desired observed) _).1
      (inr (In-orphans (map spec_name desired) observed n state m managed unlisted)))
  where
    unlisted : contains (map spec_name desired) n ≡ false
    unlisted = elim (Bool-cases (contains (map spec_name desired) n)) [
      | inl e ↦ absurd (out (contains-In _ n e))
      | inr e ↦ e
    ]
