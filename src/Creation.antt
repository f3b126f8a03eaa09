-- ===== src/Creation.antt =====
-- The arguments that `SdkDockerClient.create` of sdk_client.py hands to docker.
use bay.Prelude.{String, Option, none, some, List, [], ◌∷◌, if◌then◌else◌}
use bay.Prelude.Assoc.{Assoc, insert}
use bay.Prelude.Result.{Result, ok, ◌>>=◌}
use bay.Prelude.Text.{concat, split, has_char, is_empty}
use bay.Json.{Value, Python}
use bay.Model.{Command, ContainerSpec}
use bay.Model.Durations.{healthcheck_to_sdk}
use bay.Observe.{or_nil}
use bay.Observe.Labels.{stamped}

-- `_ctr_port_key`
unfoldable pub ctr_port_key : String → String
unfolding has_char concat
ctr_port_key ctr = if has_char "/" ctr then ctr else concat (ctr ∷ "/tcp" ∷ [])

-- A host binding: a port, with the address if there is one.
pub data HostPort : Type 0 where
  port : String → HostPort
  address : (ip host : String) → HostPort

-- the binding of a spec's parts; a spec of another number of parts has none
unfoldable pub put_port : List String → Assoc HostPort → Assoc HostPort
unfolding insert ctr_port_key
put_port (ip ∷ host ∷ ctr ∷ []) out = insert (ctr_port_key ctr) (address ip host) out
put_port (host ∷ ctr ∷ []) out = insert (ctr_port_key ctr) (port host) out
put_port parts out = out

unfoldable pub ports_from : Assoc HostPort → List String → Assoc HostPort
unfolding split put_port
ports_from out [] = out
ports_from out (raw ∷ ports) = ports_from (put_port (split ":" raw) out) ports

-- `_ports_to_sdk`
unfoldable pub ports_to_sdk : List String → Assoc HostPort
unfolding ports_from
ports_to_sdk ports = ports_from [] ports

-- The keyword arguments of `containers.run`; `none` is an argument that is not given.
pub record RunArguments : Type 0 where
  pub name : String
  pub image : String
  pub restart_policy : String
  pub environment : Assoc String
  pub labels : Assoc String
  pub network_mode : Option String
  pub network : Option String
  pub volumes : Option (List String)
  pub command : Option Command
  pub entrypoint : Option Command
  pub user : Option String
  pub mem_limit : Option String
  pub memswap_limit : Option String
  pub ports : Option (Assoc HostPort)
  pub healthcheck : Option (Assoc Value)
  pub log_config : Option (String × Assoc String)

-- a text that is given if it is not empty
abbrev if_set : Option String → Option String
if_set none = none
if_set (some s) = if is_empty s then none else some s

abbrev if_any {ℓ} : {A : Type ℓ} → List A → Option (List A)
if_any [] = none
if_any (x ∷ l) = some (x ∷ l)

-- the first network, where no network mode is set
abbrev network_of : Option String → List String → Option String
network_of none [] = none
network_of none (n ∷ l) = some n
network_of (some mode) l = none

-- `name_override or spec.name`
abbrev name_or : Option String → String → String
name_or none name = name
name_or (some s) name = if is_empty s then name else s

abbrev bindings : List String → Option (Assoc HostPort)
bindings [] = none
bindings (p ∷ l) = some (ports_to_sdk (p ∷ l))

abbrev logging : Option String → Option (Assoc String) → Option (String × Assoc String)
logging none options = none
logging (some driver) options = some (driver, or_nil options)

module _ (py : Python) (managed stack_key stack : String) where
  abbrev health : Option (Assoc Value) → Result (Option (Assoc Value))
  health none = ok none
  health (some []) = ok none
  health (some (p ∷ l)) = healthcheck_to_sdk py (p ∷ l) >>= λ hc. ok (some hc)

  -- `create` up to the call of docker
  unfoldable pub run_arguments : ContainerSpec → Option String → Result RunArguments
  unfolding stamped
  run_arguments spec name_override = health spec.healthcheck >>= λ hc. ok (record {
    name = name_or name_override spec.name;
    image = spec.image;
    restart_policy = spec.restart_policy;
    environment = spec.env;
    labels = stamped managed stack_key stack spec;
    network_mode = if_set spec.network_mode;
    network = network_of (if_set spec.network_mode) spec.networks;
    volumes = if_any spec.volumes;
    command = spec.command;
    entrypoint = spec.entrypoint;
    user = if_set spec.user;
    mem_limit = if_set spec.mem_limit;
    memswap_limit = if_set spec.memswap_limit;
    ports = bindings spec.ports;
    healthcheck = hc;
    log_config = logging (if_set spec.log_driver) spec.log_options;
  })
