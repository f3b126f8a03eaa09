-- ===== src/Planner.antt =====
-- planner.py of src/bay_reconcile: desired specs and observed states to a plan.
-- `plan` and the reasons of its actions stand here, the report of a plan in the children `Memory`
-- and `Describe`, the theorems in the other children.
pub mod Changes
pub mod Decisions
pub mod Coverage
pub mod Memory
pub mod Describe
pub mod Reasons
use bay.Prelude.{
  String, Bool, true, false, not, ◌&&◌, Option, none, some, List, [], ◌∷◌, ◌++◌, map, ◌==◌,
  string_eq, list_eq, if◌then◌else◌, Option-cases,
}
use bay.Prelude.Assoc.{Assoc, lookup, contains}
use bay.Prelude.Text.{concat, partition, take, is_empty}
use bay.Model.{
  ContainerType, service, accessory, infra, ContainerSpec, ContainerState, is_set, image_drifted,
  Action, no_op, create, recreate, canary_swap, remove, Plan,
}
use bay.Observe.{desired_port_tuples, or_empty, or_text}

-- `image_id.split(":", 1)[-1]`
abbrev after_colon : String → String
after_colon s = elim ((partition ":" s).1) [ none ↦ s | some rest ↦ rest ]

unfoldable pub short_id : Option String → String
unfolding take partition
short_id none = "unknown"
short_id (some s) = if is_empty s then "unknown" else take 12 (after_colon s)

unfoldable pub image_reason : ContainerState → String
unfolding concat short_id
image_reason state = concat (
    "image changed under "
    ∷ or_text (or_empty state.image) "its reference"
    ∷ " ("
    ∷ short_id state.image_id
    ∷ " -> "
    ∷ short_id state.local_image_id
    ∷ ")"
    ∷ [])

-- `state.config_hash == spec.config_hash`
unfoldable pub same_hash : ContainerSpec → ContainerState → Bool
same_hash spec state = elim state.config_hash [ none ↦ false | some h ↦ h == spec.config_hash ]

unfoldable pub change_reason : ContainerSpec → ContainerState → String
unfolding concat take image_reason same_hash image_drifted
change_reason spec state =
    if not (is_set state.config_hash)
    then "no config-hash label (pre-reconciler container)"
    else if same_hash spec state
    then image_reason state
    else concat (
        "config-hash changed ("
        ∷ take 12 (or_empty state.config_hash)
        ∷ " -> "
        ∷ take 12 spec.config_hash
        ∷ ")"
        ∷ (if image_drifted state then "; " ∷ image_reason state ∷ [] else []))

abbrev pub is_service : ContainerType → Bool
is_service service = true
is_service _ = false

unfoldable pub ports_drifted : ContainerSpec → ContainerState → Bool
ports_drifted spec state = not (desired_port_tuples spec.ports == state.port_bindings)

-- the branch of `plan` for a container that runs another config or image
unfoldable pub change : ContainerSpec → ContainerState → Action
unfolding ports_drifted concat
change spec state =
    let reason = change_reason spec state in
    let drifted = ports_drifted spec state in
    if spec.zero_downtime && is_service spec.type && not drifted
    then canary_swap spec reason
    else if drifted && spec.zero_downtime && is_service spec.type
    then recreate spec (concat (reason ∷ " (port drift — canary unsafe, standard recreate)" ∷ []))
    else recreate spec reason

-- the test of the branch that leaves the container as it is
unfoldable pub up_to_date : ContainerSpec → ContainerState → Bool
up_to_date spec state =
    is_set state.config_hash && same_hash spec state && not (image_drifted state)

-- the body of the loop over `desired`, by the state that `observed.get(spec.name)` returns
unfoldable pub decide : ContainerSpec → Option ContainerState → Action
decide spec none = create spec
decide spec (some state) =
    if not state.exists
    then create spec
    else if up_to_date spec state
    then no_op spec.name
    else change spec state

abbrev pub spec_name : ContainerSpec → String
spec_name s = s.name

unfoldable pub desired_actions : List ContainerSpec → Assoc ContainerState → List Action
unfolding decide lookup
desired_actions [] observed = []
desired_actions (spec ∷ l) observed =
    decide spec (lookup spec.name observed) ∷ desired_actions l observed

-- the loop over `observed.items()`
unfoldable pub orphan_actions : List String → Assoc ContainerState → List Action
unfolding contains
orphan_actions desired_names [] = []
orphan_actions desired_names ((name, state) ∷ l) =
    let rest = orphan_actions desired_names l in
    if state.managed && not (contains desired_names name)
    then remove name "orphaned — not in desired set" ∷ rest
    else rest

unfoldable pub plan : List ContainerSpec → Assoc ContainerState → Bool → Plan
unfolding desired_actions orphan_actions
plan desired observed remove_orphans =
    desired_actions desired observed
    ++ (if remove_orphans then orphan_actions (map spec_name desired) observed else [])
