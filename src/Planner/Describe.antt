-- ===== src/Planner/Describe.antt =====
-- `describe` of planner.py: the report of a plan, one entry for each action.
use bay.Prelude.{
  ℕ, ltb, ◌-◌, String, Bool, true, false, not, ◌&&◌, Option, none, some, List, [], ◌∷◌, ◌++◌, map,
  ◌==◌, string_eq, option_eq, list_eq, if◌then◌else◌,
}
use bay.Prelude.Assoc.{length, Assoc, lookup, insert}
use bay.Prelude.Sort.{sort}
use bay.Prelude.Text.{concat, join, take, show_nat}
use bay.Prelude.Result.{Result, ok, err, ◌>>=◌}
use bay.Json.{Python, Value, arr, truthy, str, items}
use bay.Model.{
  ContainerSpec, ContainerState, is_set, running, image_drifted, Action, no_op, create, recreate,
  canary_swap, remove, action_target, Plan,
}
use bay.Observe.{or_empty, volume_tuples}
use bay.Planner.{image_reason, same_hash, ports_drifted}
use bay.Planner.Memory.{memory_reason}

abbrev max_keys : ℕ
max_keys = 8

unfoldable pub first {ℓ} : {A : Type ℓ} → ℕ → List A → List A
first Prim.Native.Nat.zero l = []
first (Prim.Native.Nat.suc n) [] = []
first (Prim.Native.Nat.suc n) (x ∷ l) = x ∷ first n l

-- `_keys`
unfoldable pub keys_text : List String → String
unfolding concat join length first show_nat
keys_text keys = concat (
    join ", " (first max_keys keys)
    ∷ (if ltb max_keys (length keys)
        then " and " ∷ show_nat (length keys - max_keys) ∷ " more" ∷ []
        else []))

-- the keys `k` of `wanted` with `observed.get(k) != v`
unfoldable pub differing : Assoc String → Assoc String → List String
unfolding lookup
differing [] observed = []
differing ((k, v) ∷ l) observed =
    let rest = differing l observed in if lookup k observed == some v then rest else k ∷ rest

-- `_names`
unfoldable pub names_of : Python → Option Value → List String
unfolding sort items str
names_of py (some (arr l)) = sort (map (str py) (items l))
names_of py _ = []

abbrev reason_if : Bool → String → List String
reason_if true s = s ∷ []
reason_if false s = []

abbrev unless_empty : String → List String → List String
unless_empty prefix [] = []
unless_empty prefix (k ∷ l) = concat (prefix ∷ keys_text (k ∷ l) ∷ []) ∷ []

-- `env_file_reason`
unfoldable pub env_file_reason : Python → Option (Assoc Value) → Option String
unfolding lookup truthy names_of concat join keys_text
env_file_reason py none = none
env_file_reason py (some []) = none
env_file_reason py (some (kv ∷ rest)) =
    let change = kv ∷ rest in
    let live : Bool = elim (lookup "live" change) [ none ↦ true | some v ↦ truthy py v ] in
    let reordered : Bool = elim (lookup "reordered" change) [
      | none ↦ false
      | some v ↦ truthy py v
    ] in
    let parts =
      unless_empty "new variables " (names_of py (lookup "added" change))
      ++ unless_empty "variables removed: " (names_of py (lookup "removed" change))
      ++ unless_empty "values differ for " (names_of py (lookup "changed" change)) in
    let shown : List String = elim parts [
      | [] ↦
          (if reordered
            then "same variables, different order"
            else "same variables and values; only comments or blank lines differ")
          ∷ []
      | p ∷ l ↦ p ∷ l
    ] in
    if not live
    then some "env_file: the box has no env file for it yet"
    else some (concat ("env_file: the env file bytes differ (" ∷ join "; " shown ∷ ")" ∷ []))

abbrev of_option : Option String → List String
of_option none = []
of_option (some s) = s ∷ []

-- the parts of the list `detail` of `_diff_reasons`, in order
unfoldable pub reference_detail : ContainerSpec → ContainerState → List String
unfolding concat
reference_detail spec state =
    reason_if (is_set state.image && not (state.image == some spec.image)) (
      concat ("image: reference changed (" ∷ or_empty state.image ∷ " -> " ∷ spec.image ∷ ")" ∷ []))

unfoldable pub drift_detail : ContainerState → List String
drift_detail state = reason_if (image_drifted state) (concat ("image: " ∷ image_reason state ∷ []))

unfoldable pub env_detail : ContainerSpec → ContainerState → List String
unfolding sort differing keys_text
env_detail spec state = elim state.env [
  | none ↦ []
  | some env ↦ unless_empty "env: values differ for " (sort (differing spec.env env))
]

unfoldable pub ports_detail : ContainerSpec → ContainerState → List String
unfolding concat ports_drifted
ports_detail spec state = reason_if (ports_drifted spec state) (
    concat (
      "ports: the published ports differ"
      ∷ (if spec.zero_downtime then " (a canary is unsafe, so a plain recreate)" ∷ [] else [])))

unfoldable pub volumes_detail : ContainerSpec → ContainerState → List String
unfolding volume_tuples
volumes_detail spec state = elim state.volumes [
  | none ↦ []
  | some volumes ↦
      reason_if (not (volume_tuples spec.volumes == volume_tuples volumes))
        "volumes: the mounts differ"
]

-- the list `detail` of `_diff_reasons`
unfoldable pub details : Python → ContainerSpec → ContainerState → List String
details py spec state =
    reference_detail spec state
    ++ (drift_detail state
        ++ (env_detail spec state
            ++ (unless_empty "labels: differ for " (sort (differing spec.labels state.labels))
                ++ (ports_detail spec state
                    ++ (volumes_detail spec state
                        ++ (of_option (memory_reason spec state)
                            ++ of_option (env_file_reason py spec.env_file_change)))))))

abbrev unexplained : String
unexplained =
    "; image, env, labels, ports, volumes and memory match, and the cause (the env file bytes, command, healthcheck or another hashed setting) is not readable from docker inspect"

-- `_diff_reasons`
unfoldable pub diff_reasons : Python → ContainerSpec → ContainerState → List String
diff_reasons py spec state =
    let detail = details py spec state in
    let changed : String = concat (
      "config_hash: changed ("
      ∷ take 12 (or_empty state.config_hash)
      ∷ " -> "
      ∷ take 12 spec.config_hash
      ∷ ")"
      ∷ (elim detail [ [] ↦ unexplained ∷ [] | d ∷ l ↦ [] ])) in
    (if not (is_set state.config_hash)
      then "config_hash: the container has no config-hash label" ∷ []
      else if same_hash spec state
      then []
      else changed ∷ [])
    ++ detail

pub data Word : Type 0 where
  noop create_word recreate_word remove_word : Word

-- `_ACTION_WORD`
unfoldable pub action_word : Action → Word
action_word (no_op name) = noop
action_word (create spec) = create_word
action_word (recreate spec reason) = recreate_word
action_word (canary_swap spec reason) = recreate_word
action_word (remove name reason) = remove_word

pub record Entry : Type 0 where
  pub name : String
  pub action : Word
  pub reasons : List String

-- `by_name`: a later spec of the same name takes the place of an earlier one
unfoldable pub by_name_from : Assoc ContainerSpec → List ContainerSpec → Assoc ContainerSpec
unfolding insert
by_name_from d [] = d
by_name_from d (spec ∷ l) = by_name_from (insert spec.name spec d) l

unfoldable pub by_name : List ContainerSpec → Assoc ContainerSpec
unfolding by_name_from
by_name desired = by_name_from [] desired

-- the reasons of a no-op, by the status of the container
unfoldable pub stopped_reason : Option ContainerState → List String
unfolding running concat
stopped_reason none = []
stopped_reason (some state) = reason_if (is_set state.status && not (running state)) (
    concat (
      "stopped: the container is "
      ∷ or_empty state.status
      ∷ "; the deploy leaves it as it is"
      ∷ []))

-- the last branch: `assert state is not None`, then `by_name[name]`
unfoldable pub changed_reasons :
    Python → Assoc ContainerSpec → String → Option ContainerState → Result (List String)
unfolding lookup
changed_reasons py specs name none = err (record { class_name = "AssertionError"; message = "" })
changed_reasons py specs name (some state) = elim (lookup name specs) [
  | none ↦ err (record { class_name = "KeyError"; message = concat ("'" ∷ name ∷ "'" ∷ []) })
  | some spec ↦ ok (diff_reasons py spec state)
]

-- `reasons` of an action
unfoldable pub reasons_of :
    Python → Assoc ContainerSpec → Assoc ContainerState → Action → Result (List String)
unfolding lookup changed_reasons stopped_reason
reasons_of py specs observed (create spec) =
    ok ("missing: no container with this name on the box" ∷ [])
reasons_of py specs observed (remove name reason) =
    ok ("orphan: a managed container that the deploy no longer lists" ∷ [])
reasons_of py specs observed (no_op name) = ok (stopped_reason (lookup name observed))
reasons_of py specs observed (recreate spec reason) =
    changed_reasons py specs spec.name (lookup spec.name observed)
reasons_of py specs observed (canary_swap spec reason) = do
  reasons ← changed_reasons py specs spec.name (lookup spec.name observed)
  ok (reasons ++ "zero_downtime: a canary takes over before the old one stops" ∷ [])

unfoldable pub describe_actions :
    Python → Assoc ContainerSpec → Assoc ContainerState → List Action → Result (List Entry)
unfolding reasons_of action_target action_word
describe_actions py specs observed [] = ok []
describe_actions py specs observed (a ∷ l) =
    let rest = describe_actions py specs observed l in
    do
      reasons ← reasons_of py specs observed a
      entries ← rest
      ok (record { name = action_target a; action = action_word a; reasons = reasons } ∷ entries)

unfoldable pub describe :
    Python → Plan → List ContainerSpec → Assoc ContainerState → Result (List Entry)
unfolding describe_actions by_name
describe py the_plan desired observed = describe_actions py (by_name desired) observed the_plan
