-- ===== src/Bundle/Checked.antt =====
-- What a spec that loads has been checked for.
use mathlib.Core.Path.{subst}
use bay.Prelude.{◌≡◌, refl, Option, none, some, string_eq}
use bay.Prelude.Assoc.{Assoc}
use bay.Prelude.Result.{Result, ok, err, ◌>>=◌}
use bay.Json.{Value, Python}
use bay.Model.{ContainerType, Command, ContainerSpec}
use bay.Bundle.{
  Entry, container_type, checked_release, checked_change, checked_healthcheck, flag, spec_of,
  invalid_type, typed_spec, spec_from_dict,
}
use bay.Bundle.Given.{
  ReleaseOf, ChangeOf, HealthcheckOf, Listed, PolicyOf, FlagOf, or_nil-Listed, or_text-PolicyOf,
  release-ReleaseOf, change-ChangeOf, checked-HealthcheckOf,
}

module _ (py : Python) where
  no_spec : (d : Entry) (spec : ContainerSpec) → ¬ (invalid_type py d ≡ ok spec)
  unfolding invalid_type
  no_spec d spec h = cc

  abbrev pub Checked : Entry → ContainerSpec → Type 0
  Checked d spec =
      (spec.name ≡ d.name)
      × (spec.image ≡ d.image)
      × (spec.config_hash ≡ d.config_hash)
      × (container_type d.type ≡ some spec.type)
      × Listed d.env spec.env
      × Listed d.volumes spec.volumes
      × Listed d.networks spec.networks
      × (spec.network_mode ≡ d.network_mode)
      × Listed d.ports spec.ports
      × (spec.command ≡ d.command)
      × (spec.entrypoint ≡ d.entrypoint)
      × (spec.user ≡ d.user)
      × PolicyOf d.restart_policy spec.restart_policy
      × (spec.mem_limit ≡ d.mem_limit)
      × (spec.memswap_limit ≡ d.memswap_limit)
      × Listed d.labels spec.labels
      × HealthcheckOf py d.healthcheck spec.healthcheck
      × (spec.log_driver ≡ d.log_driver)
      × (spec.log_options ≡ d.log_options)
      × FlagOf py d.zero_downtime spec.zero_downtime
      × FlagOf py d.build spec.build
      × ReleaseOf d.release spec.release
      × ChangeOf d.env_file_change spec.env_file_change

  flag-FlagOf : (o : Option Value) → FlagOf py o (flag py o)
  flag-FlagOf none = refl
  flag-FlagOf (some v) = refl

  spec_of-Checked :
      (d : Entry) (type : ContainerType) (hc : Option (Assoc Value)) (command : Option Command)
      (change : Option (Assoc Value))
      → container_type d.type ≡ some type
      → HealthcheckOf py d.healthcheck hc
      → ReleaseOf d.release command
      → ChangeOf d.env_file_change change
      → Checked d (spec_of py d type hc command change)
  spec_of-Checked d type hc command change t c q x = (
    refl,
    refl,
    refl,
    t,
    or_nil-Listed d.env,
    or_nil-Listed d.volumes,
    or_nil-Listed d.networks,
    refl,
    or_nil-Listed d.ports,
    refl,
    refl,
    refl,
    or_text-PolicyOf d.restart_policy,
    refl,
    refl,
    or_nil-Listed d.labels,
    c,
    refl,
    refl,
    flag-FlagOf d.zero_downtime,
    flag-FlagOf d.build,
    q,
    x,
  )

  built-Checked :
      (d : Entry) (type : ContainerType) (hc : Option (Assoc Value)) (command : Option Command)
      (r : Result (Option (Assoc Value))) (spec : ContainerSpec)
      → container_type d.type ≡ some type
      → HealthcheckOf py d.healthcheck hc
      → ReleaseOf d.release command
      → checked_change py d d.env_file_change ≡ r
      → (r >>= λ change. ok (spec_of py d type hc command change)) ≡ ok spec
      → Checked d spec
  built-Checked d type hc command (err x) spec t c q e h = cc
  built-Checked d type hc command (ok change) spec t c q e h =
      let same : spec_of py d type hc command change ≡ spec = cc in
      subst (Checked d) same (
        spec_of-Checked d type hc command change t c q
          (change-ChangeOf py d d.env_file_change change e))

  released-Checked :
      (d : Entry) (type : ContainerType) (hc : Option (Assoc Value)) (r : Result (Option Command))
      (spec : ContainerSpec)
      → container_type d.type ≡ some type
      → HealthcheckOf py d.healthcheck hc
      → checked_release py d d.release ≡ r
      → (r >>= λ command. checked_change py d d.env_file_change >>= λ change.
          ok (spec_of py d type hc command change))
        ≡ ok spec
      → Checked d spec
  released-Checked d type hc (err x) spec t c e h = cc
  released-Checked d type hc (ok command) spec t c e h =
      built-Checked d type hc command (checked_change py d d.env_file_change) spec t c
        (release-ReleaseOf py d d.release command e) refl h

  typed-Checked :
      (d : Entry) (type : ContainerType) (r : Result (Option (Assoc Value))) (spec : ContainerSpec)
      → container_type d.type ≡ some type
      → checked_healthcheck py d d.healthcheck ≡ r
      → (r >>= λ hc. checked_release py d d.release >>= λ command.
          checked_change py d d.env_file_change >>= λ change.
          ok (spec_of py d type hc command change))
        ≡ ok spec
      → Checked d spec
  typed-Checked d type (err x) spec t e h = cc
  typed-Checked d type (ok hc) spec t e h =
      released-Checked d type hc (checked_release py d d.release) spec t
        (checked-HealthcheckOf py d d.healthcheck hc e) refl h

  -- Every field of a spec that loads comes from the field of its entry with the same name: as it is;
  -- empty where the entry has no list or map; `unless-stopped` where it has no restart policy or an
  -- empty one; by Python's truth for the two flags, false where they are missing. The type is one that
  -- the entry names. There is no release command exactly where the entry has none or a null, and one
  -- is the text or the list of texts of the entry and runs something; there is no env file change
  -- exactly where the entry has none or a null. There is no healthcheck where the entry has none, and
  -- one is the entry's, converted, and converts again without an error and without a change.
  pub spec_from_dict-Checked :
      (d : Entry) (spec : ContainerSpec) → spec_from_dict py d ≡ ok spec → Checked d spec
  unfolding spec_from_dict
  spec_from_dict-Checked d spec h = of_type (container_type d.type) refl h
    where
      of_type :
          (o : Option ContainerType)
          → container_type d.type ≡ o
          → typed_spec py d o ≡ ok spec
          → Checked d spec
      of_type none e h = absurd (no_spec d spec h)
      of_type (some type) e h = typed-Checked d type _ spec e refl h
