-- ===== src/Bundle.antt =====
-- bundle.py of src/bay_reconcile: the bundle of a deploy read into specs and a configuration.
-- The entries have the shape that the CLI writes, one field for each key (`none` where it is missing
-- or null); the values that the module checks itself are JSON values.
pub mod Settings
pub mod Given
pub mod Checked
pub mod Valid
use Prim.Native.Char.{Char}
use bay.Prelude.{
  String, Bool, true, false, not, ◌&&◌, ◌||◌, Option, none, some, List, [], ◌∷◌, map, if◌then◌else◌,
  ◌==◌, string_eq,
}
use bay.Prelude.Assoc.{Assoc, lookup, contains, keep}
use bay.Prelude.Int.{ℤ, pos, is_positive}
use bay.Prelude.Sort.{sort, dedup}
use bay.Prelude.Text.{concat, strip, is_empty}
use bay.Prelude.Result.{Exn, Result, ok, err, ◌>>=◌, value_error}
use bay.Json.{
  Value, Items, nil, cons, Fields, null, bool, int, float, text, arr, obj, Python, fields, truthy,
  str,
}
use bay.Model.{
  ContainerType, service, accessory, infra, Command, line, argv, ContainerSpec, ReconcilerConfig,
}
use bay.Model.Durations.{healthcheck_to_sdk}
use bay.Observe.{managed_label, or_nil, or_text, or_empty}

-- One container of the bundle; `name`, `image`, `type` and `config_hash` are always there.
pub record Entry : Type 0 where
  pub name : String
  pub image : String
  pub type : String
  pub config_hash : String
  pub env : Option (Assoc String)
  pub volumes : Option (List String)
  pub networks : Option (List String)
  pub network_mode : Option String
  pub ports : Option (List String)
  pub command : Option Command
  pub entrypoint : Option Command
  pub user : Option String
  pub restart_policy : Option String
  pub mem_limit : Option String
  pub memswap_limit : Option String
  pub labels : Option (Assoc String)
  pub healthcheck : Option (Assoc Value)
  pub log_driver : Option String
  pub log_options : Option (Assoc String)
  pub zero_downtime : Option Value
  pub build : Option Value
  pub release : Option Value
  pub env_file_change : Option Value

-- `_VALID_TYPES`
unfoldable pub container_type : String → Option ContainerType
container_type t =
    if t == "service"
    then some service
    else if t == "accessory"
    then some accessory
    else if t == "infra"
    then some infra
    else none

-- the texts of a list that holds nothing else
unfoldable pub all_texts : Items → Option (List String)
all_texts nil = some []
all_texts (cons (text s) l) = elim (all_texts l) [ none ↦ none | some rest ↦ some (s ∷ rest) ]
all_texts (cons v l) = none

-- `raw[0].strip()`
abbrev first_nonblank : List String → Bool
first_nonblank [] = false
first_nonblank (s ∷ l) = not (is_empty (strip s))

module _ (py : Python) where
  -- `f"{d.get('name')!r}: {message}"`
  unfoldable pub entry_error {ℓ} : {A : Type ℓ} → Entry → String → Result A
  unfolding concat
  entry_error d message = value_error (concat (py.repr (text d.name) ∷ ": " ∷ message ∷ []))

  unfoldable pub bad_release : Entry → Result (Option Command)
  unfolding entry_error
  bad_release d = entry_error d "release must be a non-empty string or a non-empty list of strings"

  abbrev pub release_vector : Entry → Option (List String) → Result (Option Command)
  release_vector d none = bad_release d
  release_vector d (some l) = if first_nonblank l then ok (some (argv l)) else bad_release d

  -- `_release`
  unfoldable pub checked_release : Entry → Option Value → Result (Option Command)
  unfolding strip all_texts bad_release
  checked_release d none = ok none
  checked_release d (some null) = ok none
  checked_release d (some (text s)) =
      if is_empty (strip s) then bad_release d else ok (some (line s))
  checked_release d (some (arr l)) = release_vector d (all_texts l)
  checked_release d (some v) = bad_release d

  -- `_env_file_change`
  unfoldable pub checked_change : Entry → Option Value → Result (Option (Assoc Value))
  unfolding entry_error fields
  checked_change d none = ok none
  checked_change d (some null) = ok none
  checked_change d (some (obj l)) = ok (some (fields l))
  checked_change d (some v) = entry_error d "env_file_change must be an object"

  -- `except ValueError as exc` of `_healthcheck`
  abbrev pub named : Entry → Result (Assoc Value) → Result (Option (Assoc Value))
  named d (ok hc) = ok (some hc)
  named d (err e) = if e.class_name == "ValueError" then entry_error d e.message else err e

  -- `_healthcheck`
  unfoldable pub checked_healthcheck : Entry → Option (Assoc Value) → Result (Option (Assoc Value))
  unfolding healthcheck_to_sdk entry_error
  checked_healthcheck d none = ok none
  checked_healthcheck d (some []) = ok (some [])
  checked_healthcheck d (some (p ∷ l)) = named d (healthcheck_to_sdk py (p ∷ l))

  -- `bool(d.get(key, False))`
  abbrev pub flag : Option Value → Bool
  flag none = false
  flag (some v) = truthy py v

  abbrev pub spec_of :
      Entry
      → ContainerType
      → Option (Assoc Value)
      → Option Command
      → Option (Assoc Value)
      → ContainerSpec
  spec_of d type hc command change = record {
    name = d.name;
    image = d.image;
    type = type;
    config_hash = d.config_hash;
    env = or_nil d.env;
    volumes = or_nil d.volumes;
    networks = or_nil d.networks;
    network_mode = d.network_mode;
    ports = or_nil d.ports;
    command = d.command;
    entrypoint = d.entrypoint;
    user = d.user;
    restart_policy = or_text (or_empty d.restart_policy) "unless-stopped";
    mem_limit = d.mem_limit;
    memswap_limit = d.memswap_limit;
    labels = or_nil d.labels;
    healthcheck = hc;
    log_driver = d.log_driver;
    log_options = d.log_options;
    zero_downtime = flag d.zero_downtime;
    build = flag d.build;
    release = command;
    env_file_change = change;
  }

  unfoldable pub invalid_type : Entry → Result ContainerSpec
  unfolding concat
  invalid_type d = value_error (
      concat
        ("invalid container type " ∷ py.repr (text d.type) ∷ " for " ∷ py.repr (text d.name) ∷ []))

  -- the part of `spec_from_dict` behind the type check
  abbrev pub typed_spec : Entry → Option ContainerType → Result ContainerSpec
  typed_spec d none = invalid_type d
  typed_spec d (some type) = checked_healthcheck d d.healthcheck >>= λ hc.
      checked_release d d.release >>= λ command.
      checked_change d d.env_file_change >>= λ change. ok (spec_of d type hc command change)

  -- `spec_from_dict`
  unfoldable pub spec_from_dict : Entry → Result ContainerSpec
  spec_from_dict d = typed_spec d (container_type d.type)
