-- ===== src/Samples.antt =====
-- Test data: a service, a state that runs it, and a fleet.
use bay.Prelude.{true, false, none, some, [], ◌∷◌}
use bay.Prelude.Assoc.{Assoc}
use bay.Prelude.Int.{pos}
use bay.Model.{service, line, ContainerSpec, ContainerState, absent_state, ReconcilerConfig}
use bay.Executor.{Clock}

abbrev pub web : ContainerSpec
web = record {
  name = "web";
  image = "repo/web:1";
  type = service;
  config_hash = "abc";
  env = [];
  volumes = [];
  networks = [];
  network_mode = none;
  ports = [];
  command = none;
  entrypoint = none;
  user = none;
  restart_policy = "unless-stopped";
  mem_limit = none;
  memswap_limit = none;
  labels = [];
  healthcheck = none;
  log_driver = none;
  log_options = none;
  zero_downtime = true;
  build = false;
  release = some (line "migrate");
  env_file_change = none;
}

abbrev pub running_web : ContainerState
running_web = record (absent_state "web") {
  exists = true;
  config_hash = some "abc";
  managed = true;
}

abbrev pub old_web : ContainerState
old_web = record (absent_state "web") { exists = true; config_hash = some "old"; managed = true }

abbrev pub leftover : ContainerState
leftover = record (absent_state "job") { exists = true; managed = true }

abbrev pub box : Assoc ContainerState
box = ("web", old_web) ∷ ("job", leftover) ∷ []

abbrev pub defaults : ReconcilerConfig
defaults = record {
  canary_suffix = "-new";
  stop_timeout = pos 30;
  healthcheck_timeout = "120.0";
  healthcheck_poll = "1.0";
  release_timeout = "600.0";
}

abbrev pub two_attempts : Clock
two_attempts = record { attempts = λ timeout poll. 2; show_g = λ x. x }
