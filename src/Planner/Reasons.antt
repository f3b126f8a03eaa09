-- ===== src/Planner/Reasons.antt =====
-- The report of a plan is complete: describing never fails, and every change has a reason.
use mathlib.Core.Path.{subst}
use bay.Prelude.{
  not_true, String, Bool, true, false, ◌≡◌, ◌≢◌, inl, inr, refl, some, List, [], ◌∷◌, ◌++◌, map,
  arith, eqb_refl, sym, ◌∙◌, ap, Bool-cases, string_eq,
}
use bay.Prelude.Assoc.{Assoc, lookup, insert, lookup-insert, contains, distinct, In, All}
use bay.Prelude.Result.{ok}
use bay.Json.{Python}
use bay.Model.{
  ContainerSpec, ContainerState, image_drifted, is_set, Action, no_op, create, recreate,
  canary_swap, remove, action_target,
}
use bay.Planner.{same_hash, up_to_date, spec_name, plan}
use bay.Planner.Changes.{UpToDate, up_to_date_iff}
use bay.Planner.Decisions.{Justified, plan-Justified}
use bay.Planner.Describe.{
  details, reference_detail, drift_detail, diff_reasons, Entry, Word, noop, action_word,
  by_name_from, by_name, reasons_of, changed_reasons, describe_actions, describe,
}

by_name_other :
    (n : String) (d : Assoc ContainerSpec) (l : List ContainerSpec)
    → contains (map spec_name l) n ≡ false
    → lookup n (by_name_from d l) ≡ lookup n d
unfolding by_name_from contains
by_name_other n d [] h = refl
by_name_other n d (spec ∷ l) h =
    by_name_other n (insert spec.name spec d) l (ground arith)
    ∙ lookup-insert spec.name n spec d
    ∙ ground arith

by_name_self :
    (d : Assoc ContainerSpec) (l : List ContainerSpec) (spec : ContainerSpec)
    → distinct (map spec_name l) ≡ true
    → In spec l
    → lookup spec.name (by_name_from d l) ≡ some spec
unfolding by_name_from distinct
by_name_self d [] spec h m = elim m [ ]
by_name_self d (x ∷ l) spec h (inl e) =
    subst (λ s. lookup s.name (by_name_from (insert x.name x d) l) ≡ some s) (sym e)
      (by_name_other x.name (insert x.name x d) l (ground arith)
        ∙ lookup-insert x.name x.name x d
        ∙ rw (eqb_refl x.name))
by_name_self d (x ∷ l) spec h (inr m) = by_name_self (insert x.name x d) l spec (ground arith) m

append-ne-nil {ℓ} : {A : Type ℓ} (l m : List A) → m ≢ [] → l ++ m ≢ []
append-ne-nil [] m h e = h e
append-ne-nil (x ∷ l) m h e = cc

append_left-ne-nil {ℓ} : {A : Type ℓ} (l m : List A) → l ≢ [] → l ++ m ≢ []
append_left-ne-nil [] m h e = h refl
append_left-ne-nil (x ∷ l) m h e = cc

abbrev swap_reason : List String
swap_reason = "zero_downtime: a canary takes over before the old one stops" ∷ []

drift_detail-ne-nil :
    (state : ContainerState) → image_drifted state ≡ true → drift_detail state ≢ []
unfolding drift_detail
drift_detail-ne-nil state h = rw h (λ e. cc)

details-drifted :
    (py : Python) (spec : ContainerSpec) (state : ContainerState)
    → image_drifted state ≡ true
    → details py spec state ≢ []
unfolding details
details-drifted py spec state h =
    append-ne-nil (reference_detail spec state) _
      (append_left-ne-nil (drift_detail state) _ (drift_detail-ne-nil state h))

up_to_date-false :
    (spec : ContainerSpec) (state : ContainerState)
    → up_to_date spec state ≡ false
    → is_set state.config_hash ≡ true
    → same_hash spec state ≡ true
    → image_drifted state ≡ true
unfolding up_to_date
up_to_date-false spec state h p q = ground arith

-- A container that is not up to date has a reason to change.
diff_reasons-ne-nil :
    (py : Python) (spec : ContainerSpec) (state : ContainerState)
    → up_to_date spec state ≡ false
    → diff_reasons py spec state ≢ []
unfolding diff_reasons
diff_reasons-ne-nil py spec state h = elim (Bool-cases (is_set state.config_hash)) [
  | inr e ↦ rw e (λ e'. cc)
  | inl set ↦ elim (Bool-cases (same_hash spec state)) [
    | inr e ↦ rw (set, e) (λ e'. cc)
    | inl same ↦
        rw (set, same) (details-drifted py spec state (up_to_date-false spec state h set same))
  ]
]

abbrev pub entry_name : Entry → String
entry_name e = e.name

abbrev pub entry_action : Entry → Word
entry_action e = e.action

-- The reasons of an action, and that a change has one.
abbrev Told : Python → Assoc ContainerSpec → Assoc ContainerState → Action → Type 0
Told py specs observed a =
    (reasons : List String) × (reasons_of py specs observed a ≡ ok reasons)
    × (action_word a ≢ noop → reasons ≢ [])

changed_reasons-ok :
    (py : Python) (specs : Assoc ContainerSpec) (name : String) (spec : ContainerSpec)
    (state : ContainerState)
    → lookup name specs ≡ some spec
    → changed_reasons py specs name (some state) ≡ ok (diff_reasons py spec state)
unfolding changed_reasons
changed_reasons-ok py specs name spec state h = rw (h, changed_reasons)

module _ (py : Python) (desired : List ContainerSpec) (observed : Assoc ContainerState) where
  changed-Told :
      (spec : ContainerSpec) (state : ContainerState)
      → distinct (map spec_name desired) ≡ true
      → In spec desired
      → lookup spec.name observed ≡ some state
      → ¬ UpToDate spec state
      → (changed_reasons py (by_name desired) spec.name (lookup spec.name observed)
          ≡ ok (diff_reasons py spec state))
        × (diff_reasons py spec state ≢ [])
  unfolding by_name
  changed-Told spec state once m e stale = (
    rw e (
        changed_reasons-ok py (by_name desired) spec.name spec state
          (by_name_self [] desired spec once m)),
    diff_reasons-ne-nil py spec state (not_true _ (λ u. stale ((up_to_date_iff spec state).0 u))),
  )

  told :
      (orphans : Bool) (a : Action)
      → distinct (map spec_name desired) ≡ true
      → Justified desired observed orphans a
      → Told py (by_name desired) observed a
  unfolding reasons_of action_word
  told orphans (no_op name) once j = (_, refl, λ ne. absurd (ne refl))
  told orphans (create spec) once j = (_, refl, λ ne e. cc)
  told orphans (remove name reason) once j = (_, refl, λ ne e. cc)
  told orphans (recreate spec reason) once (state, m, e, there, stale, rest) =
      let (same, some_reason) = changed-Told spec state once m e stale in
      (_, same, λ ne. some_reason)
  told orphans (canary_swap spec reason) once (state, m, e, there, stale, rest) =
      let (same, some_reason) = changed-Told spec state once m e stale in
      (_, rw same refl, λ ne. append-ne-nil (diff_reasons py spec state) swap_reason (λ e'. cc))

  -- Every entry that is no `noop` has a reason.
  abbrev pub Explained : Entry → Type 0
  Explained e = e.action ≢ noop → e.reasons ≢ []

  told-All :
      (orphans : Bool) (l : List Action)
      → distinct (map spec_name desired) ≡ true
      → All (Justified desired observed orphans) l
      → (entries : List Entry) × (describe_actions py (by_name desired) observed l ≡ ok entries)
        × (map entry_name entries ≡ map action_target l)
        × (map entry_action entries ≡ map action_word l)
        × All Explained entries
  unfolding describe_actions
  told-All orphans [] once j = ([], refl, refl, refl, tt)
  told-All orphans (a ∷ l) once (j, js) =
      let (reasons, same, some_reason) = told orphans a once j in
      let (entries, rest, names, words, explained) = told-All orphans l once js in
      (
        record { name = action_target a; action = action_word a; reasons = reasons } ∷ entries,
        rw (same, rest),
        ap (◌∷◌ (action_target a)) names,
        ap (◌∷◌ (action_word a)) words,
        (some_reason, explained),
      )

  -- For specs of distinct names, describing the plan of an observation never raises. The report has
  -- one entry for each action, in order, with its target and its kind, and every entry of a change
  -- names at least one reason.
  pub describe-Explained :
      (orphans : Bool)
      → distinct (map spec_name desired) ≡ true
      → (entries : List Entry) × (describe py (plan desired observed orphans) desired observed
          ≡ ok entries)
        × (map entry_name entries ≡ map action_target (plan desired observed orphans))
        × (map entry_action entries ≡ map action_word (plan desired observed orphans))
        × All Explained entries
  unfolding describe
  describe-Explained orphans once =
      told-All orphans _ once (plan-Justified desired observed orphans)
