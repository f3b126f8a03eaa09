-- ===== src/Reconcile/Converge.antt =====
-- What a pass of `reconcile` leaves to do for the pass behind it: planner.py and executor.py joined by
-- what docker reports of the containers that the first pass has made.
use mathlib.Core.Option.{some-injective}
use bay.Prelude.{
  ℕ, String, Bool, true, false, ◌≡◌, ◌≢◌, inl, inr, refl, some, List, map, sym, ap, ◌∙◌, Bool-cases,
  string_eq,
}
use bay.Prelude.Assoc.{lookup-In, Assoc, lookup, contains, contains-In, In-contains, In, All-of_In}
use bay.Model.{
  ContainerSpec, ContainerState, Action, ReconcilerConfig, remove, is_noop, is_no_op, image_drifted,
}
use bay.Executor.{Clock}
use bay.Executor.Fleet.{Fleet, Own, Achieved}
use bay.Executor.Phases.Rounds.{AllDone, AllDone-foreign, actions_of, rounds, execute-Achieved}
use bay.Executor.Phases.Separate.{Separate, Separate-In, rounds-Apart, rounds-In}
use bay.Planner.{decide, spec_name, plan}
use bay.Planner.Changes.{not_drifted}
use bay.Planner.Coverage.{InPlace, decide-InPlace, decide-target, plan-is_noop}
use bay.Reconcile.Observed.{Shows, Released, spec_of-decide, In-plan, plan-spec, In-orphan}
use bay.Reconcile.Owners.{owner, decided-Achieved, claimed}

module _ (clock : Clock) (cfg : ReconcilerConfig) where
  module _ (max_workers : ℕ) (desired : List ContainerSpec) (observed after : Assoc ContainerState)
      (orphans : Bool) (h j : Fleet) (first : Shows h observed) (second : Shows j after)
      (separate : Separate clock cfg (plan desired observed orphans))
      (run : AllDone clock cfg (rounds max_workers (plan desired observed orphans)) h j) where
    met : (a : Action) → In a (plan desired observed orphans) → Achieved clock cfg a j
    met =
        execute-Achieved clock cfg max_workers (plan desired observed orphans) h j
          (rounds-Apart clock cfg (plan desired observed orphans) separate max_workers) run

    untouched :
        (n : String)
        → ((a : Action)
            → In a (actions_of clock cfg (rounds max_workers (plan desired observed orphans)))
            → ¬ Own clock cfg a n)
        → h n ≡ j n
    untouched n f =
        AllDone-foreign clock cfg n run
          (rounds-Apart clock cfg (plan desired observed orphans) separate max_workers) f

    -- a container that the plan keeps is one that `create` made from a spec with the wanted hash
    kept :
        (spec : ContainerSpec)
        → In spec desired
        → is_no_op (decide spec (lookup spec.name observed)) ≡ true
        → (s : ContainerSpec) × (j spec.name ≡ some s) × (s.config_hash ≡ spec.config_hash)
    kept spec m e =
        let (state, found, there, fresh) = (decide-InPlace observed spec _ refl).0 e in
        let (s, hs) =
          first.made spec.name state (lookup-In observed spec.name state found)
            (inr (spec.config_hash, fresh.same)) in
        let (state2, found2, there2, managed2, hash2) = first.present spec.name s hs in
        let same : state ≡ state2 = some-injective _ _ (sym found ∙ found2) in
        (
          s,
          sym (untouched spec.name foreign) ∙ hs,
          some-injective _ _
              (sym hash2 ∙ sym (ap (λ (x : ContainerState). x.config_hash) same) ∙ fresh.same),
        )
      where
        foreign :
            (a : Action)
            → In a (actions_of clock cfg (rounds max_workers (plan desired observed orphans)))
            → ¬ Own clock cfg a spec.name
        foreign a k o =
            let (within, change) =
              rounds-In clock cfg (plan desired observed orphans) separate max_workers a k in
            elim (Separate-In clock cfg a (decide spec (lookup spec.name observed)) _ separate
              within (In-plan desired observed orphans spec m)) [
                | inl d ↦ cc (ap is_no_op d, change, e)
                | inr f ↦
                    f spec.name (inr o) (inl (sym (decide-target spec (lookup spec.name observed))))
              ]

    -- the spec that a wanted container is made from
    standing_spec :
        (spec : ContainerSpec)
        → In spec desired
        → (s : ContainerSpec) × (j spec.name ≡ some s) × (s.config_hash ≡ spec.config_hash)
    standing_spec spec m = elim (Bool-cases (is_no_op (decide spec (lookup spec.name observed)))) [
      | inl e ↦ kept spec m e
      | inr e ↦ (
        spec,
        decided-Achieved clock cfg _ spec j (spec_of-decide spec _ e)
            (met _ (In-plan desired observed orphans spec m)),
        refl,
      )
    ]

    settled :
        (spec : ContainerSpec)
        → In spec desired
        → spec.config_hash ≢ ""
        → ((name : String) (state : ContainerState)
            → In (name, state) after
            → image_drifted state ≡ false)
        → InPlace after spec
    settled spec m stamped fresh =
        let (s, js, hash) = standing_spec spec m in
        let (state, found, there, managed, label) = second.present spec.name s js in
        (
          state,
          found,
          there,
          record {
            same = label ∙ ap some hash;
            stamped = stamped;
            same_image =
                not_drifted spec state
                  (fresh spec.name state (lookup-In after spec.name state found));
          },
        )

    unwanted :
        orphans ≡ true
        → Released desired j
        → (n : String) (state : ContainerState) → In (n, state) after
        → state.managed ≡ true
        → ¬ In n (map spec_name desired)
        → ⊥
    unwanted on gone n state m managed out =
        let (s, js) = second.made n state m (inl managed) in
        elim (owner clock cfg n
          (actions_of clock cfg (rounds max_workers (plan desired observed orphans)))) [
            | inl (a, k, o) ↦
                let within =
                  (rounds-In clock cfg (plan desired observed orphans) separate max_workers a
                    k).0 in
                claimed clock cfg desired a n j s o (met a within)
                  (λ spec e. plan-spec desired observed orphans a spec within e) gone js out
            | inr f ↦
                let (state2, found, there, mine, hash) = first.present n s (untouched n f ∙ js) in
                orphan n state2 s js (lookup-In observed n state2 found) mine out
          ]
      where
        orphan :
            (n : String) (state : ContainerState) (s : ContainerSpec)
            → j n ≡ some s
            → In (n, state) observed
            → state.managed ≡ true
            → ¬ In n (map spec_name desired)
            → ⊥
        orphan n state s js m mine out = cc (
          met (remove n "orphaned — not in desired set")
              (In-orphan desired observed orphans on n state m mine out),
          js,
        )

    listed :
        orphans ≡ true
        → Released desired j
        → (x : String × ContainerState) → In x after
        → x.1.managed ≡ true
        → In x.0 (map spec_name desired)
    listed on gone (n, state) m managed = elim (Bool-cases (contains (map spec_name desired) n)) [
      | inl e ↦ contains-In _ n e
      | inr e ↦ absurd (
          unwanted on gone n state m managed (λ k. cc (In-contains (map spec_name desired) n k, e)))
    ]

  -- A pass of the reconciler converges: let the actions of a plan be about different names, and let
  -- all the rounds of the plan end with every action done, in any interleaving within a round. Let
  -- the reads before and behind the pass show what the fleet then holds; let every wanted hash be
  -- not empty, no image reference have moved away from the image of a container behind the pass,
  -- and the release containers be gone. Then the plan of the second read changes nothing, with the
  -- same wanted containers and the same orphan removal.
  pub plan-converges :
      (max_workers : ℕ) (desired : List ContainerSpec) (observed after : Assoc ContainerState)
      (orphans : Bool) (h j : Fleet)
      → Shows h observed
      → Shows j after
      → Separate clock cfg (plan desired observed orphans)
      → AllDone clock cfg (rounds max_workers (plan desired observed orphans)) h j
      → ((spec : ContainerSpec) → In spec desired → spec.config_hash ≢ "")
      → ((name : String) (state : ContainerState)
          → In (name, state) after
          → image_drifted state ≡ false)
      → Released desired j
      → is_noop (plan desired after orphans) ≡ true
  plan-converges max_workers desired observed after orphans h j first second separate run stamped
        fresh gone =
      (plan-is_noop desired after orphans).1 (
        All-of_In (InPlace after) desired (λ spec m.
            settled max_workers desired observed after orphans h j first second separate run spec m
              (stamped spec m) fresh),
        λ on. All-of_In _ after (
            listed max_workers desired observed after orphans h j first second separate run on
              gone),
      )
