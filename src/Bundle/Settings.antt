-- ===== src/Bundle/Settings.antt =====
-- `_config` and `load_bundle` of bundle.py. A setting of a configuration that loads is valid.
use bay.Prelude.{
  String, Bool, true, false, not, ◌&&◌, Option, none, some, List, [], ◌∷◌, map, if◌then◌else◌, ◌==◌,
  string_eq,
}
use bay.Prelude.Assoc.{Assoc, lookup, keep}
use bay.Prelude.Int.{pos, is_positive}
use bay.Prelude.Sort.{sort}
use bay.Prelude.Text.{concat}
use bay.Prelude.Result.{Result, ok, err, ◌>>=◌, value_error}
use bay.Json.{
  Value, null, bool, int, float, text, arr, obj, Python, fields, truthy, str, get_truthy,
}
use bay.Model.{ContainerSpec, ReconcilerConfig}
use bay.Observe.{managed_label}
use bay.Bundle.{Entry, spec_from_dict}

-- `ReconcilerConfig()`
abbrev pub default_config : ReconcilerConfig
default_config = record {
  canary_suffix = "-new";
  stop_timeout = pos 30;
  healthcheck_timeout = "120.0";
  healthcheck_poll = "1.0";
  release_timeout = "600.0";
}

-- The settings of `_CONFIG_KEYS`: whole seconds, and three floats.
pub data Setting : Type 0 where
  whole : Setting
  timeout : Setting
  poll : Setting
  release : Setting

unfoldable pub setting_of : String → Option Setting
setting_of key =
    if key == "stop_timeout"
    then some whole
    else if key == "healthcheck_timeout"
    then some timeout
    else if key == "healthcheck_poll"
    then some poll
    else if key == "release_timeout"
    then some release
    else none

-- `type(raw).__name__`
abbrev type_name : Value → String
type_name null = "NoneType"
type_name (text s) = "str"
type_name (bool b) = "bool"
type_name (int n) = "int"
type_name (float x) = "float"
type_name (obj l) = "dict"
type_name (arr l) = "list"

-- the value of a float setting
abbrev pub set_float : Setting → String → ReconcilerConfig → ReconcilerConfig
set_float whole x cfg = cfg
set_float timeout x cfg = record cfg { healthcheck_timeout = x }
set_float poll x cfg = record cfg { healthcheck_poll = x }
set_float release x cfg = record cfg { release_timeout = x }

abbrev known_keys : String
known_keys = "stop_timeout, healthcheck_timeout, healthcheck_poll, release_timeout"

abbrev is_unknown : String → Bool
is_unknown key = elim (setting_of key) [ none ↦ true | some s ↦ false ]

abbrev key_of : String × Value → String
key_of p = p.0

module _ (py : Python) where
  unfoldable pub refused {ℓ} : {A : Type ℓ} → String → String → Value → Result A
  unfolding concat
  refused kind key value = value_error (
      concat (
        "config "
        ∷ py.repr (text key)
        ∷ " must be a positive "
        ∷ kind
        ∷ ", got "
        ∷ py.repr value
        ∷ []))

  -- the body of the loop over `raw.items()`, for a key of `_CONFIG_KEYS`
  unfoldable pub set_value : Setting → String → Value → ReconcilerConfig → Result ReconcilerConfig
  set_value whole key (int n) cfg =
      if is_positive n then ok (record cfg { stop_timeout = n }) else refused "number" key (int n)
  set_value s key (int n) cfg =
      if is_positive n
      then (py.to_float n >>= λ x. ok (set_float s x cfg))
      else refused "number" key (int n)
  set_value whole key (float x) cfg = refused "whole number" key (float x)
  set_value s key (float x) cfg =
      if py.positive x && not (py.infinite x)
      then ok (set_float s x cfg)
      else refused "number" key (float x)
  set_value s key v cfg = refused "number" key v

  unfoldable pub set_all : Assoc Value → ReconcilerConfig → Result ReconcilerConfig
  set_all [] cfg = ok cfg
  set_all ((key, value) ∷ l) cfg = elim (setting_of key) [
    | none ↦ err (record { class_name = "KeyError"; message = py.repr (text key) })
    | some s ↦ set_value s key value cfg >>= set_all l
  ]

  abbrev pub without_unknown : List String → Assoc Value → Result ReconcilerConfig
  without_unknown [] raw = set_all raw default_config
  without_unknown (key ∷ rest) raw =
      value_error
        (concat ("unknown config key " ∷ py.repr (text key) ∷ " (known: " ∷ known_keys ∷ ")" ∷ []))

  -- `_config`
  unfoldable pub config : Option Value → Result ReconcilerConfig
  unfolding fields setting_of concat
  config none = ok default_config
  config (some null) = ok default_config
  config (some (obj l)) =
      without_unknown (sort (keep is_unknown (map key_of (fields l)))) (fields l)
  config (some v) = value_error (concat ("config must be an object, got " ∷ type_name v ∷ []))

-- A complete payload: `data` with its typed entries.
pub record Payload : Type 0 where
  pub values : Assoc Value
  pub containers : List Entry

pub record Loaded : Type 0 where
  pub stack : String
  pub managed : String
  pub containers : List ContainerSpec
  pub remove_orphans : Bool
  pub config : ReconcilerConfig

module _ (py : Python) where
  unfoldable pub load_specs : List Entry → Result (List ContainerSpec)
  load_specs [] = ok []
  load_specs (d ∷ l) = spec_from_dict py d >>= λ spec. load_specs l >>= λ specs. ok (spec ∷ specs)

  -- `str(data.get(key) or default)`
  unfoldable pub text_or : Option Value → String → String
  text_or none default = default
  text_or (some v) default = str py v

  -- `bool(data.get(key, False))`
  unfoldable pub flag_of : Option Value → Bool
  flag_of none = false
  flag_of (some v) = truthy py v

  -- `load_bundle`
  unfoldable pub load_bundle : Payload → Result Loaded
  load_bundle payload = load_specs payload.containers >>= λ specs.
      config py (lookup "config" payload.values) >>= λ cfg. ok (record {
        stack = text_or (get_truthy py "stack" payload.values) "bay";
        managed = text_or (get_truthy py "managed_label" payload.values) managed_label;
        containers = specs;
        remove_orphans = flag_of (lookup "remove_orphans" payload.values);
        config = cfg;
      })
