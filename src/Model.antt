-- ===== src/Model.antt =====
-- models.py of src/bay_reconcile: the typed domain of the reconciler.
pub mod Durations
pub mod Settled
use bay.Prelude.{
  ℕ, String, Bool, true, false, not, ◌||◌, Option, none, some, List, [], ◌∷◌, ◌==◌, string_eq,
  option_eq, if◌then◌else◌, ◌+◌,
}
use bay.Prelude.Assoc.{Assoc, lookup, insert, keep}
use bay.Prelude.Int.{ℤ, pos}
use bay.Prelude.Text.{is_empty}
use bay.Json.{Value}

pub data ContainerType : Type 0 where
  service accessory infra : ContainerType

-- `str | Sequence[str]`: a shell line, or an argument vector
pub data Command : Type 0 where
  line : String → Command
  argv : List String → Command

pub record ContainerSpec : Type 0 where
  pub name : String
  pub image : String
  pub type : ContainerType
  pub config_hash : String
  pub env : Assoc String
  pub volumes : List String
  pub networks : List String
  pub network_mode : Option String
  pub ports : List String
  pub command : Option Command
  pub entrypoint : Option Command
  pub user : Option String
  pub restart_policy : String
  pub mem_limit : Option String
  pub memswap_limit : Option String
  pub labels : Assoc String
  pub healthcheck : Option (Assoc Value)
  pub log_driver : Option String
  pub log_options : Option (Assoc String)
  pub zero_downtime : Bool
  pub build : Bool
  pub release : Option Command
  pub env_file_change : Option (Assoc Value)

pub record ContainerState : Type 0 where
  pub name : String
  pub exists : Bool
  pub image : Option String
  pub config_hash : Option String
  pub status : Option String
  pub health : Option String
  pub managed : Bool
  pub restart_count : ℤ
  pub port_bindings : List String
  pub image_id : Option String
  pub local_image_id : Option String
  pub env : Option (Assoc String)
  pub labels : Assoc String
  pub volumes : Option (List String)
  pub memory : Option ℤ
  pub memory_swap : Option ℤ

-- `ContainerState(name=name, exists=False)`: the other fields have their defaults
abbrev pub absent_state : String → ContainerState
absent_state name = record {
  name = name;
  exists = false;
  image = none;
  config_hash = none;
  status = none;
  health = none;
  managed = false;
  restart_count = pos 0;
  port_bindings = [];
  image_id = none;
  local_image_id = none;
  env = none;
  labels = [];
  volumes = none;
  memory = none;
  memory_swap = none;
}

-- `bool(s)` of an optional text
abbrev pub is_set : Option String → Bool
is_set none = false
is_set (some s) = not (is_empty s)

-- the property `running`
unfoldable pub running : ContainerState → Bool
running s = s.status == some "running"

-- the property `image_drifted`
unfoldable pub image_drifted : ContainerState → Bool
image_drifted s =
    if not (is_set s.image_id) || not (is_set s.local_image_id)
    then false
    else not (s.image_id == s.local_image_id)

pub data Action : Type 0 where
  no_op : String → Action
  create : ContainerSpec → Action
  recreate : ContainerSpec → String → Action
  canary_swap : ContainerSpec → String → Action
  remove : String → String → Action

unfoldable pub action_target : Action → String
action_target (no_op name) = name
action_target (create spec) = spec.name
action_target (recreate spec reason) = spec.name
action_target (canary_swap spec reason) = spec.name
action_target (remove name reason) = name

abbrev pub Plan : Type 0
Plan = List Action

abbrev pub is_no_op : Action → Bool
is_no_op (no_op name) = true
is_no_op _ = false

-- the properties `changes` and `is_noop` of a plan
unfoldable pub changes : Plan → List Action
unfolding keep
changes p = keep (λ a. not (is_no_op a)) p

unfoldable pub is_noop : Plan → Bool
unfolding changes
is_noop p = elim (changes p) [ [] ↦ true | a ∷ l ↦ false ]

-- `type(action).__name__`
unfoldable pub kind : Action → String
kind (no_op name) = "NoOp"
kind (create spec) = "Create"
kind (recreate spec reason) = "Recreate"
kind (canary_swap spec reason) = "CanarySwap"
kind (remove name reason) = "Remove"

-- `out[kind] = out.get(kind, 0) + 1`
unfoldable pub count_kind : Assoc ℕ → Action → Assoc ℕ
unfolding kind lookup insert
count_kind out a = elim (lookup (kind a) out) [
  | none ↦ insert (kind a) 1 out
  | some n ↦ insert (kind a) (n + 1) out
]

unfoldable pub summary_from : Assoc ℕ → Plan → Assoc ℕ
unfolding count_kind
summary_from out [] = out
summary_from out (a ∷ l) = summary_from (count_kind out a) l

unfoldable pub summary : Plan → Assoc ℕ
unfolding summary_from
summary p = summary_from [] p

pub data ActionStatus : Type 0 where
  done skipped failed : ActionStatus

pub record ActionResult : Type 0 where
  pub action : Action
  pub status : ActionStatus
  pub detail : String

abbrev pub is_failed : ActionResult → Bool
is_failed r = elim r.status [ failed ↦ true | _ ↦ false ]

abbrev pub is_done : ActionResult → Bool
is_done r = elim r.status [ done ↦ true | _ ↦ false ]

-- The results of an ExecutionReport, and its properties `failed` and `ok`.
unfoldable pub failures : List ActionResult → List ActionResult
unfolding keep
failures rs = keep is_failed rs

unfoldable pub report_ok : List ActionResult → Bool
unfolding failures
report_ok rs = elim (failures rs) [ [] ↦ true | r ∷ l ↦ false ]

pub record ReconcilerConfig : Type 0 where
  pub canary_suffix : String
  pub stop_timeout : ℤ
  -- seconds as the literals of their floats
  pub healthcheck_timeout : String
  pub healthcheck_poll : String
  pub release_timeout : String

-- One result of a report, as the operator reads it.
pub record ResultRow : Type 0 where
  pub kind : String
  pub name : String
  pub status : ActionStatus
  pub detail : String

pub record ReportDict : Type 0 where
  pub ok : Bool
  pub changed : Bool
  pub results : List ResultRow

unfoldable pub any_done : List ActionResult → Bool
any_done [] = false
any_done (r ∷ l) = is_done r || any_done l

unfoldable pub result_rows : List ActionResult → List ResultRow
result_rows [] = []
result_rows (r ∷ l) =
    record {
      kind = kind r.action;
      name = action_target r.action;
      status = r.status;
      detail = r.detail;
    }
    ∷ result_rows l

-- `ExecutionReport.to_dict`
unfoldable pub to_dict : List ActionResult → ReportDict
to_dict l = record { ok = report_ok l; changed = any_done l; results = result_rows l }

-- `release_command_kwargs`: the entrypoint, if it is overridden, and the command
unfoldable pub release_command_kwargs : Option Command → Option (List String) × List String
release_command_kwargs (some (line s)) = (some ("/bin/sh" ∷ []), "-c" ∷ s ∷ [])
release_command_kwargs (some (argv l)) = (none, l)
release_command_kwargs none = (none, [])
