-- ===== src/Tests/Converging.antt =====
-- A pass that removes an orphan next to a container that is up to date.
use bay.Prelude.{
  String, true, false, ◌≡◌, ◌⊎◌, inl, inr, refl, ◌≢◌, sym, ap, ◌∙◌, false≢true, Option, none, some,
  [], ◌∷◌, ◌==◌, string_eq, Bool-cases, eq_iff, arith,
}
use mathlib.Core.Path.{subst}
use bay.Prelude.Text.{concat}
use bay.Prelude.Assoc.{Assoc, In, lookup, keep}
use bay.Model.{ContainerSpec, ContainerState, action_target, is_noop, image_drifted, no_op, remove}
use bay.Executor.Fleet.{Fleet, release_name}
use bay.Executor.Phases.{phase_batch, removes}
use bay.Executor.Phases.Rounds.{AllDone, rounds}
use bay.Executor.Phases.Separate.{Separate, Foreign}
use bay.Planner.{plan, decide, desired_actions, orphan_actions, up_to_date, same_hash}
use bay.Reconcile.Observed.{Shows, Released}
use bay.Reconcile.Converge.{plan-converges}
use bay.Samples.{web, running_web, leftover, defaults, two_attempts}
use bay.Tests.Executing.{one, two}
use bay.Tests.Phasing.{all_done}

abbrev orphan_box : Assoc ContainerState
orphan_box = ("web", running_web) ∷ ("job", record leftover { config_hash = some "abc" }) ∷ []

abbrev clean_box : Assoc ContainerState
clean_box = ("web", running_web) ∷ []

orphan_plan :
    plan (web ∷ []) orphan_box true
    ≡ no_op "web" ∷ remove "job" "orphaned — not in desired set" ∷ []
unfolding plan decide desired_actions orphan_actions up_to_date same_hash image_drifted
orphan_plan = refl

pass : AllDone two_attempts defaults (rounds 8 (plan (web ∷ []) orphan_box true)) two one
unfolding rounds phase_batch removes keep
pass = rw orphan_plan (all_done "orphaned — not in desired set")

clash : {n : String} → n ≡ "web" → n ≡ "job" → ⊥
clash e d = absurd (false≢true (ap (λ s. s == "job") (sym e ∙ d)))

stamped : (spec : ContainerSpec) → In spec (web ∷ []) → spec.config_hash ≢ ""
stamped spec (inl e) d =
    absurd (false≢true (ap (λ s. s == "") (sym (ap (λ (s : ContainerSpec). s.config_hash) e) ∙ d)))
stamped spec (inr e) d = absurd e

released : Released (web ∷ []) one
unfolding release_name concat
released spec (inl e) m = ap (λ (s : ContainerSpec). one (release_name s)) e
released spec (inr e) m = absurd e

-- a container of the spec is shown under its name
Shown : Assoc ContainerState → String → ContainerSpec → Type 0
Shown observed name spec =
    (state : ContainerState) × (lookup name observed ≡ some state)
    × (state.exists ≡ true)
    × (state.managed ≡ true)
    × (state.config_hash ≡ some spec.config_hash)

-- what the sample fleets hold is `web`, under one of two names
at_names :
    (fleet : Fleet) (observed : Assoc ContainerState)
    → ((name : String) → name ≢ "job" → name ≢ "web" → fleet name ≡ none)
    → ((spec : ContainerSpec) → fleet "job" ≡ some spec → Shown observed "job" spec)
    → ((spec : ContainerSpec) → fleet "web" ≡ some spec → Shown observed "web" spec)
    → (name : String) (spec : ContainerSpec) → fleet name ≡ some spec
    → Shown observed name spec
at_names fleet observed else_none job service name spec e = elim (Bool-cases (name == "job")) [
  | inl a ↦
      let same = (eq_iff name "job").0 a in
      subst (λ n. Shown observed n spec) (sym same) (job spec (ap fleet (sym same) ∙ e))
  | inr a ↦ elim (Bool-cases (name == "web")) [
    | inl b ↦
        let same = (eq_iff name "web").0 b in
        subst (λ n. Shown observed n spec) (sym same) (service spec (ap fleet (sym same) ∙ e))
    | inr b ↦ cc (
      else_none name (λ q. cc (a, (eq_iff name "job").1 q)) (λ q. cc (b, (eq_iff name "web").1 q)),
      e,
    )
  ]
]

abbrev hash_of : Option ContainerSpec → Option String
hash_of none = none
hash_of (some spec) = some spec.config_hash

before : Shows two orphan_box
unfolding Shown lookup
before = record {
  present =
      at_names two orphan_box (λ n a b. ground (arith, eq_iff n "job", eq_iff n "web"))
        (λ spec e. (_, refl, refl, refl, ap hash_of e))
        (λ spec e. (_, refl, refl, refl, ap hash_of e));
  made = from;
}
  where
    from :
        (name : String) (state : ContainerState)
        → In (name, state) orphan_box
        → (state.managed ≡ true) ⊎ ((hash : String) × (state.config_hash ≡ some hash))
        → (spec : ContainerSpec) × (two name ≡ some spec)
    from name state (inl e) m = (web, ap (λ (x : String × ContainerState). two x.0) e)
    from name state (inr (inl e)) m = (web, ap (λ (x : String × ContainerState). two x.0) e)
    from name state (inr (inr e)) m = absurd e

behind : Shows one clean_box
unfolding Shown lookup
behind = record {
  present =
      at_names one clean_box (λ n a b. ground (arith, eq_iff n "job", eq_iff n "web"))
        (λ spec e. cc e) (λ spec e. (_, refl, refl, refl, ap hash_of e));
  made = from;
}
  where
    from :
        (name : String) (state : ContainerState)
        → In (name, state) clean_box
        → (state.managed ≡ true) ⊎ ((hash : String) × (state.config_hash ≡ some hash))
        → (spec : ContainerSpec) × (one name ≡ some spec)
    from name state (inl e) m = (web, ap (λ (x : String × ContainerState). one x.0) e)
    from name state (inr e) m = absurd e

apart : Separate two_attempts defaults (plan (web ∷ []) orphan_box true)
unfolding action_target
apart = rw orphan_plan ((claims, tt), (tt, tt))
  where
    claims :
        Foreign two_attempts defaults (no_op "web") (remove "job" "orphaned — not in desired set")
    claims n (inl e) (inl d) = clash e d
    claims n (inl e) (inr d) = clash e d
    claims n (inr e) d = e

undrifted :
    (name : String) (state : ContainerState)
    → In (name, state) clean_box
    → image_drifted state ≡ false
unfolding image_drifted
undrifted name state (inl e) = ap (λ (x : String × ContainerState). image_drifted x.1) e
undrifted name state (inr e) = absurd e

plan-converges_example : is_noop (plan (web ∷ []) clean_box true) ≡ true
plan-converges_example =
    plan-converges two_attempts defaults 8 (web ∷ []) orphan_box clean_box true two one before
      behind apart pass stamped undrifted released
