-- ===== src/Filters/Siblings.antt =====
-- The services that one push must also build: `bay_push_siblings` of bay_filters.py. The hash of a
-- build and the slug of a repository and branch are parameters.
use bay.Prelude.{
  String, Bool, false, not, ◌&&◌, Option, none, some, List, [], ◌∷◌, ◌==◌, string_eq, list_eq,
  if◌then◌else◌,
}
use bay.Prelude.Assoc.{Assoc, lookup, keep, contains}
use bay.Prelude.Sort.{sort}
use bay.Prelude.Text.{is_empty}
use bay.Filters.{Build, Service, Project, toml, project, service_of, push_project, build_strategy}
use bay.Filters.Groups.{Role, bay_build_dedup_map}

abbrev pub same_project : Option Project → Option Project → Bool
same_project (some (toml a)) (some (toml b)) = a == b
same_project (some (project a)) (some (project b)) = a == b
same_project _ _ = false

module _ (identity : Option Build → String) (repo_slug : String → String → String) where
  abbrev is_local : String → Option Build → Bool
  is_local strategy none = false
  is_local strategy (some build) = build_strategy build strategy == "local"

  -- the names of the local builds, in the order of the services
  unfoldable pub local_names : String → Assoc Service → List String
  local_names strategy [] = []
  local_names strategy ((name, s) ∷ l) =
      let rest = local_names strategy l in if is_local strategy s.build then name ∷ rest else rest

  abbrev pub alias_row : Option Role → Option String
  alias_row none = none
  alias_row (some role) = if role.primary then none else some role.primary_svc

  -- `_local_aliases`, asked for a name
  unfoldable pub alias_of : Assoc Service → String → String → Option String
  alias_of services strategy name =
      alias_row
        (lookup name (bay_build_dedup_map identity services (local_names strategy services)))

  -- a build of the same project, repository and branch
  abbrev pub is_same : Build → Option Build → Bool
  is_same own none = false
  is_same own (some build) =
      is_empty build.shared_from
      && same_project (push_project build) (push_project own)
      && not (is_empty build.repo)
      && repo_slug build.repo build.branch == repo_slug own.repo own.branch

  -- `names`
  unfoldable pub candidates : String → Build → Assoc Service → List String
  candidates service own [] = []
  candidates service own ((name, s) ∷ l) =
      let rest = candidates service own l in
      if not (name == service) && is_same own s.build then name ∷ rest else rest

  -- a name that the fan-out of its primary triggers already
  abbrev pub reached_by : Assoc Service → List String → String → Option String → Bool
  reached_by services group name none = false
  reached_by services group name (some primary) =
      contains group primary
      && (service_of services name).regions == (service_of services primary).regions

  abbrev pub with_project : Assoc Service → String → String → Build → Option Project → List String
  with_project services service strategy own none = []
  with_project services service strategy own (some key) =
      if is_empty own.repo
      then []
      else (let names = candidates service own services in
          sort (
            keep (λ n. not (reached_by services (service ∷ names) n (alias_of services strategy n)))
              names))

  abbrev pub with_build : Assoc Service → String → String → Option Build → List String
  with_build services service strategy none = []
  with_build services service strategy (some own) =
      with_project services service strategy own (push_project own)

  -- `bay_push_siblings`
  unfoldable pub bay_push_siblings : Assoc Service → String → String → List String
  bay_push_siblings services service strategy =
      with_build services service strategy (service_of services service).build
