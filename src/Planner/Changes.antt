-- ===== src/Planner/Changes.antt =====
-- When a container is up to date, and when two of it can run side by side, as accounts that the
-- tests of planner.py are measured against.
use bay.Prelude.{
  String, Bool, not, ◌&&◌, if◌then◌else◌, true, false, ◌≡◌, ◌≢◌, ◌↔◌, inl, inr, some, [], ◌∷◌,
  arith, eq_iff, Option-cases, string_eq, list_eq,
}
use bay.Model.{
  ContainerType, service, accessory, infra, ContainerSpec, ContainerState, image_drifted, recreate,
  canary_swap,
}
use bay.Prelude.Text.{is_empty_iff, concat}
use bay.Observe.{desired_port_tuples}
use bay.Planner.{is_service, same_hash, ports_drifted, change, change_reason, up_to_date}

-- The container runs the wanted config, and the image that its reference names on the host, as
-- far as both ids are known.
pub record UpToDate (spec : ContainerSpec) (state : ContainerState) : Type 0 where
  pub same : state.config_hash ≡ some spec.config_hash
  pub stamped : spec.config_hash ≢ ""
  pub same_image :
      (a b : String)
      → state.image_id ≡ some a
      → state.local_image_id ≡ some b
      → a ≢ ""
      → b ≢ ""
      → a ≡ b

module _ (spec : ContainerSpec) (state : ContainerState) where
  same_hash_iff : (same_hash spec state ≡ true) ↔ (state.config_hash ≡ some spec.config_hash)
  unfolding same_hash
  same_hash_iff = elim (Option-cases state.config_hash) [
    | inl e ↦ ground arith
    | inr (h, e) ↦ ground (arith, eq_iff h spec.config_hash)
  ]

  pub not_drifted :
      image_drifted state ≡ false
      → (a b : String) → state.image_id ≡ some a
      → state.local_image_id ≡ some b
      → a ≢ ""
      → b ≢ ""
      → a ≡ b
  unfolding image_drifted
  not_drifted h a b ea eb na nb = ground (arith, ea, eb, eq_iff a b, is_empty_iff a, is_empty_iff b)

  drifted :
      ((a b : String)
        → state.image_id ≡ some a
        → state.local_image_id ≡ some b
        → a ≢ ""
        → b ≢ ""
        → a ≡ b)
      → image_drifted state ≡ false
  unfolding image_drifted
  drifted h = elim (Option-cases state.image_id) [
    | inl e ↦ ground arith
    | inr (a, ea) ↦ elim (Option-cases state.local_image_id) [
      | inl e ↦ ground arith
      | inr (b, eb) ↦ ground (arith, h a b ea eb, eq_iff a b, is_empty_iff a, is_empty_iff b)
    ]
  ]

  -- The test that keeps a container is exactly the account of an up-to-date container: the hash
  -- label is the wanted hash and not empty, and two known image ids are equal.
  pub up_to_date_iff : (up_to_date spec state ≡ true) ↔ UpToDate spec state
  unfolding up_to_date
  up_to_date_iff = (
    λ h. record {
      same = same_hash_iff.0 (ground arith);
      stamped = λ e. ground (arith, same_hash_iff.0, is_empty_iff spec.config_hash);
      same_image = not_drifted (ground arith);
    },
    λ u. ground (
      arith,
      same_hash_iff.1 u.same,
      is_empty_iff spec.config_hash,
      u.stamped,
      u.same,
      drifted u.same_image,
    ),
  )

-- Two containers of the spec can run side by side: it is a service with zero downtime, and its
-- published ports are those of the running container.
pub record CanSwap (spec : ContainerSpec) (state : ContainerState) : Type 0 where
  pub wanted : spec.zero_downtime ≡ true
  pub is_service : spec.type ≡ service
  pub same_ports : desired_port_tuples spec.ports ≡ state.port_bindings

not-false_iff : (b : Bool) → (not b ≡ false) ↔ (b ≡ true)
not-false_iff true = ground arith
not-false_iff false = ground arith

service_iff : (t : ContainerType) → (is_service t ≡ true) ↔ (t ≡ service)
service_iff service = ground arith
service_iff accessory = ground arith
service_iff infra = ground arith

module _ (spec : ContainerSpec) (state : ContainerState) where
  ports_drifted_iff :
      (ports_drifted spec state ≡ false) ↔ (desired_port_tuples spec.ports ≡ state.port_bindings)
  unfolding ports_drifted
  ports_drifted_iff =
      let same = list_eq.test_iff (desired_port_tuples spec.ports) state.port_bindings in
      (λ h. same.0 ((not-false_iff _).0 h), λ e. (not-false_iff _).1 (same.1 e))

  unfoldable pub can_swap : Bool
  can_swap = spec.zero_downtime && is_service spec.type && not (ports_drifted spec state)

  pub can_swap_iff : (can_swap ≡ true) ↔ CanSwap spec state
  unfolding can_swap
  can_swap_iff = (
    λ h. record {
      wanted = ground arith;
      is_service = (service_iff spec.type).0 (ground arith);
      same_ports = ports_drifted_iff.0 (ground arith);
    },
    λ c.
        ground (
          arith,
          c.wanted,
          (service_iff spec.type).1 c.is_service,
          ports_drifted_iff.1 c.same_ports,
        ),
  )

  pub fallback_reason : String
  fallback_reason =
      if ports_drifted spec state && spec.zero_downtime && is_service spec.type
      then concat
          (change_reason spec state ∷ " (port drift — canary unsafe, standard recreate)" ∷ [])
      else change_reason spec state

  pub change_lem : change spec state ≡ (
      if can_swap
      then canary_swap spec (change_reason spec state)
      else recreate spec fallback_reason)
  unfolding change can_swap fallback_reason ports_drifted
  change_lem = ground arith
