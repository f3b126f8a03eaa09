-- ===== src/Observe.antt =====
-- observe.py of src/bay_reconcile: docker's attributes of a container parsed into a
-- ContainerState, and the normal forms of ports and volumes.
-- The attributes have docker's documented shape, one record for each object of the payload; a key
-- that is missing or null is `none`.
pub mod Normal
pub mod Labels
use bay.Prelude.{
  String, Bool, true, false, not, ◌||◌, Option, none, some, List, [], ◌∷◌, ◌++◌, map, if◌then◌else◌,
  ◌≡◌, refl,
}
use bay.Prelude.Assoc.{Assoc, lookup, insert, contains, keep}
use bay.Prelude.Int.{ℤ, pos}
use bay.Prelude.Sort.{sort, dedup}
use bay.Prelude.Text.{concat, join, split, strip, lstrip_by, partition, is_empty, ◌is◌}
use bay.Model.{ContainerState, is_set}

abbrev pub hash_label : String
hash_label = "com.bay.config-hash"

abbrev pub managed_label : String
managed_label = "bay.managed"

abbrev pub stack_label : String
stack_label = "bay.stack"

abbrev pub legacy_hash_label : String
legacy_hash_label = "com.argo.config-hash"

abbrev pub legacy_managed_label : String
legacy_managed_label = "argo.managed"

-- One entry of HostConfig.PortBindings; `other` is a value that is no mapping.
pub data PortEntry : Type 0 where
  mapping : Option String → Option String → PortEntry
  other : PortEntry

-- `str(x or "")`
abbrev pub or_empty : Option String → String
or_empty none = ""
or_empty (some s) = s

-- `s or default`
abbrev pub or_text : String → String → String
or_text s default = if is_empty s then default else s

unfoldable pub port_binding_tuple : PortEntry → String
unfolding strip concat
port_binding_tuple other = ""
port_binding_tuple (mapping host_ip host_port) =
    concat (or_text (strip (or_empty host_ip)) "0.0.0.0" ∷ ":" ∷ strip (or_empty host_port) ∷ [])

-- `parts` of a port spec; `split` never returns the empty list
unfoldable pub port_parts : List String → String
unfolding concat
port_parts [] = ""
port_parts (port ∷ []) = concat ("0.0.0.0:" ∷ port ∷ [])
port_parts (host ∷ port ∷ []) = concat ("0.0.0.0:" ∷ host ∷ [])
port_parts (ip ∷ host ∷ port ∷ rest) = concat (ip ∷ ":" ∷ host ∷ [])

unfoldable pub port_spec_tuple : Option String → String
unfolding port_parts strip split
port_spec_tuple none = ""
port_spec_tuple (some spec) =
    let s = strip spec in if is_empty s then "" else port_parts (split ":" s)

abbrev pub is_nonempty : String → Bool
is_nonempty s = not (is_empty s)

unfoldable pub desired_port_tuples : List String → List String
unfolding sort keep port_spec_tuple
desired_port_tuples ports = sort (keep is_nonempty (map (λ p. port_spec_tuple (some p)) ports))

-- the mode flags, with `rw` where neither `ro` nor `rw` is there
unfoldable pub mode_flags : String → List String
unfolding dedup contains keep strip split
mode_flags mode =
    let flags = dedup (keep is_nonempty (map strip (split "," mode))) in
    if contains flags "ro" || contains flags "rw" then flags else flags ++ "rw" ∷ []

unfoldable pub mount : String → String → String → String
unfolding mode_flags concat join sort
mount source target mode =
    concat (source ∷ ":" ∷ target ∷ ":" ∷ join "," (sort (mode_flags mode)) ∷ [])

-- `parts` of a bind spec
unfoldable pub volume_parts : List String → String
unfolding mount join
volume_parts [] = ""
volume_parts (target ∷ []) = mount "" target ""
volume_parts (source ∷ target ∷ []) = mount source target ""
volume_parts (source ∷ target ∷ mode ∷ rest) = mount source target (join ":" (mode ∷ rest))

unfoldable pub volume_tuple : Option String → String
unfolding volume_parts strip split
volume_tuple none = ""
volume_tuple (some spec) =
    let s = strip spec in if is_empty s then "" else volume_parts (split ":" s)

unfoldable pub volume_tuples : List String → List String
unfolding sort keep volume_tuple
volume_tuples specs = sort (keep is_nonempty (map (λ v. volume_tuple (some v)) specs))

abbrev pub or_nil {ℓ} : {A : Type ℓ} → Option (List A) → List A
or_nil none = []
or_nil (some l) = l

unfoldable pub entry_tuples : List PortEntry → List String
unfolding keep port_binding_tuple
entry_tuples entries = keep is_nonempty (map port_binding_tuple entries)

-- the loop over `port_bindings.values()`
unfoldable pub binding_tuples : Assoc (Option (List PortEntry)) → List String
unfolding entry_tuples
binding_tuples [] = []
binding_tuples ((port, entries) ∷ l) = entry_tuples (or_nil entries) ++ binding_tuples l

unfoldable pub observed_port_tuples : Option (Assoc (Option (List PortEntry))) → List String
unfolding sort binding_tuples
observed_port_tuples none = []
observed_port_tuples (some bindings) = sort (binding_tuples bindings)

pub record Config : Type 0 where
  pub image : Option String
  pub labels : Option (Assoc String)
  pub env : Option (List String)

pub record Status : Type 0 where
  pub status : Option String
  -- `Status` of the object `Health`
  pub health : Option String

pub record HostConfig : Type 0 where
  pub port_bindings : Option (Assoc (Option (List PortEntry)))
  pub binds : Option (List String)
  pub memory : Option ℤ
  pub memory_swap : Option ℤ

pub record Attrs : Type 0 where
  pub name : Option String
  pub config : Option Config
  pub state : Option Status
  pub host_config : Option HostConfig
  pub restart_count : Option ℤ
  pub image : Option String

-- `x or {}` of the objects
abbrev pub or_config : Option Config → Config
or_config none = record { image = none; labels = none; env = none }
or_config (some c) = c

abbrev pub or_status : Option Status → Status
or_status none = record { status = none; health = none }
or_status (some s) = s

abbrev pub or_host : Option HostConfig → HostConfig
or_host none = record { port_bindings = none; binds = none; memory = none; memory_swap = none }
or_host (some h) = h

-- `x or None`
abbrev pub or_none : Option String → Option String
or_none o = if is_set o then o else none

-- `d.get(k, default)`
abbrev pub get_or : String → Assoc String → Option String → Option String
get_or k d default = elim (lookup k d) [ none ↦ default | some v ↦ some v ]

-- `k in d`
abbrev pub has_key : String → Assoc String → Bool
has_key k d = elim (lookup k d) [ none ↦ false | some v ↦ true ]

-- `key, _, value = item.partition("=")`
unfoldable pub put_env : Assoc String → String → Assoc String
unfolding insert partition
put_env out item = let (key, value) = partition "=" item in insert key (or_empty value) out

unfoldable pub env_from : Assoc String → List String → Assoc String
unfolding put_env
env_from out [] = out
env_from out (item ∷ l) = env_from (put_env out item) l

unfoldable pub env_dict : Option (List String) → Option (Assoc String)
unfolding env_from
env_dict none = none
env_dict (some env) = some (env_from [] env)

unfoldable pub parse_state : String → String → Option String → Attrs → ContainerState
parse_state managed_label hash_label local_image_id attrs =
    let config = or_config attrs.config in
    let labels = or_nil config.labels in
    let state = or_status attrs.state in
    let host = or_host attrs.host_config in
    record {
      name = lstrip_by (λ c. c is "/") (or_empty attrs.name);
      exists = true;
      image = config.image;
      config_hash = get_or hash_label labels (lookup legacy_hash_label labels);
      status = state.status;
      health = state.health;
      managed = has_key managed_label labels || has_key legacy_managed_label labels;
      restart_count = elim attrs.restart_count [ none ↦ pos 0 | some n ↦ n ];
      port_bindings = observed_port_tuples host.port_bindings;
      image_id = or_none attrs.image;
      local_image_id = or_none local_image_id;
      env = env_dict config.env;
      labels = labels;
      volumes = elim host.binds [ none ↦ none | some l ↦ some (sort l) ];
      memory = host.memory;
      memory_swap = host.memory_swap;
    }

ports_test :
    desired_port_tuples ("5432:5432" ∷ "127.0.0.1:80:80" ∷ " " ∷ "9" ∷ [])
    ≡ "0.0.0.0:5432" ∷ "0.0.0.0:9" ∷ "127.0.0.1:80" ∷ []
unfolding desired_port_tuples
ports_test = refl

volumes_test :
    volume_tuples ("data:/data" ∷ "data:/data:z,rw" ∷ "/data" ∷ "data:/data:ro" ∷ [])
    ≡ ":/data:rw" ∷ "data:/data:ro" ∷ "data:/data:rw" ∷ "data:/data:rw,z" ∷ []
unfolding volume_tuples
volumes_test = refl
