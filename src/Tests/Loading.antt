-- ===== src/Tests/Loading.antt =====
-- bundle.py and the healthchecks of models.py on the sample service.
use bay.Prelude.{◌≡◌, refl, none, some, [], ◌∷◌}
use bay.Prelude.Assoc.{Assoc, lookup, insert, keep}
use bay.Prelude.Sort.{sort}
use bay.Prelude.Int.{pos}
use bay.Prelude.Text.{strip, is_digit, strip_prefix}
use bay.Prelude.Result.{ok}
use bay.Json.{Value, int, text, obj, Fields, field, end, fields}
use bay.Model.{service, line}
use bay.Model.Durations.{healthcheck_to_sdk, convert_duration, convert_retries, duration_ns, total}
use bay.Model.Settled.{healthcheck_again}
use bay.Bundle.{
  Entry, spec_from_dict, spec_of, container_type, checked_healthcheck, checked_release,
  checked_change,
}
use bay.Bundle.Checked.{Checked, spec_from_dict-Checked}
use bay.Bundle.Settings.{config, default_config, setting_of, set_all, set_value}
use bay.Bundle.Valid.{ValidConfig, config-ValidConfig}
use bay.Model.{ReconcilerConfig}
use bay.Tests.Planning.{interpreter}

abbrev composed : Assoc Value
composed = ("interval", text "5s") ∷ ("retries", int (pos 3)) ∷ []

abbrev in_nanoseconds : Assoc Value
in_nanoseconds = ("interval", int (pos 0)) ∷ ("retries", int (pos 3)) ∷ []

converts : healthcheck_to_sdk interpreter composed ≡ ok in_nanoseconds
unfolding healthcheck_to_sdk convert_duration convert_retries duration_ns lookup insert total
    is_digit strip_prefix
converts = refl

healthcheck_again_example : healthcheck_to_sdk interpreter in_nanoseconds ≡ ok in_nanoseconds
healthcheck_again_example = healthcheck_again interpreter composed in_nanoseconds converts

abbrev entry : Entry
entry = record {
  name = "web";
  image = "repo/web:1";
  type = "service";
  config_hash = "abc";
  env = none;
  volumes = none;
  networks = none;
  network_mode = none;
  ports = none;
  command = none;
  entrypoint = none;
  user = none;
  restart_policy = none;
  mem_limit = none;
  memswap_limit = none;
  labels = none;
  healthcheck = some composed;
  log_driver = none;
  log_options = none;
  zero_downtime = none;
  build = none;
  release = some (text "migrate");
  env_file_change = none;
}

loads :
    spec_from_dict interpreter entry
    ≡ ok (spec_of interpreter entry service (some in_nanoseconds) (some (line "migrate")) none)
unfolding spec_from_dict container_type checked_healthcheck checked_release checked_change
    healthcheck_to_sdk convert_duration convert_retries duration_ns lookup insert strip total
    is_digit strip_prefix
loads = refl

spec_from_dict-Checked_example :
    Checked interpreter entry
      (spec_of interpreter entry service (some in_nanoseconds) (some (line "migrate")) none)
spec_from_dict-Checked_example =
    spec_from_dict-Checked interpreter entry
      (spec_of interpreter entry service (some in_nanoseconds) (some (line "migrate")) none) loads

abbrev given : Fields
given = field "stop_timeout" (int (pos 60)) end

abbrev patient : ReconcilerConfig
patient = record default_config { stop_timeout = pos 60 }

configured : config interpreter (some (obj given)) ≡ ok patient
unfolding config fields setting_of set_all set_value sort keep
configured = refl

config-ValidConfig_example : ValidConfig interpreter patient
config-ValidConfig_example = config-ValidConfig interpreter (some (obj given)) patient configured
