-- ===== src/Webhook.antt =====
-- The push receiver, roles/git_deploy/files/webhook/app.py: what it does with a delivery before it
-- writes a trigger. This module has the routing to other regions and the services that share a hook.
pub mod Deliveries
pub mod Replay
pub mod Routing
pub mod Cache
pub mod Filter
pub mod Written
pub mod Lookups
pub mod Push
pub mod Triggers
pub mod Isolated
pub mod Front
pub mod Pulls
pub mod Patterns
pub mod Agrees
pub mod Passing
pub mod Unreadable
use bay.Prelude.{
  String, Bool, true, false, not, ◌&&◌, ◌≡◌, Option, none, some, List, [], ◌∷◌, ◌==◌, string_eq,
  if◌then◌else◌,
}
use bay.Prelude.Assoc.{Assoc, keep, contains}
use bay.Prelude.Text.{is_empty}

-- `if not service_regions: service_regions = [local_region]`
abbrev pub or_local : String → List String → List String
or_local here [] = here ∷ []
or_local here (r ∷ regions) = r ∷ regions

-- the peers that a push goes on to
abbrev pub is_target : String → List String → String × String → Bool
is_target here regions (region, url) = not (region == here) && contains regions region

abbrev pub targets : Bool → String → List String → Assoc String → List (String × String)
targets true here regions peers = []
targets false here regions peers = keep (is_target here regions) peers

-- `compute_routing`
unfoldable pub compute_routing :
    String → List String → Assoc String → Bool → Bool × List (String × String)
compute_routing here regions peers is_forwarded = if is_empty here then (true, []) else (
  contains (or_local here regions) here,
  targets is_forwarded here (or_local here regions) peers,
)

-- `_push_siblings`, behind the names `out` that count so far
unfoldable pub siblings_from :
    (known : String → Bool) → String → List String → List String → List String
siblings_from known service out [] = []
siblings_from known service out (name ∷ l) =
    let new = known name && not (name == service) && not (contains out name) in
    let rest = siblings_from known service (if new then name ∷ out else out) l in
    if new then name ∷ rest else rest

-- `_push_siblings` of the texts among a service's `siblings`
unfoldable pub push_siblings : (known : String → Bool) → String → List String → List String
push_siblings known service names = siblings_from known service [] names
