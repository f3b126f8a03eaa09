-- ===== src/Tests/Grouping.antt =====
-- The build roles of two services of one repository.
use bay.Prelude.{String, ◌≡◌, ◌↔◌, ◌==◌, string_eq, inl, inr, refl, Option, none, some, [], ◌∷◌}
use bay.Prelude.Assoc.{In, keep, insert, Assoc, lookup}
use bay.Filters.{push_project, build_strategy, add_to, Build, Service, no_service, service_of}
use bay.Filters.Groups.{all_roles, groups_from, group_roles, primary_of, Role, bay_build_dedup_map}
use bay.Filters.Siblings.{candidates, alias_of, local_names, bay_push_siblings}
use bay.Filters.Same.{Sibling, bay_push_siblings_iff}
use bay.Prelude.Sort.{sort}
use bay.Filters.Roles.{Primary, same_primary}

abbrev repo_of : Option Build → String
repo_of none = ""
repo_of (some build) = build.repo

abbrev shop : Build
shop = record {
  repo = "git@host:shop";
  branch = "main";
  strategy = none;
  shared_from = "";
  bay_toml_path = "";
  bay_project = "";
  bay_build_hash = "";
}

abbrev fleet : Assoc Service
fleet =
    ("worker", record no_service { build = some (record shop { shared_from = "web" }) })
    ∷ ("web", record no_service { build = some shop })
    ∷ []

same_build : repo_of (service_of fleet "worker").build ≡ repo_of (service_of fleet "web").build
unfolding service_of lookup
same_build = refl

same_primary_example :
    (p : String) × (r : Role) × (s : Role) × Primary repo_of fleet
      ("worker" ∷ "web" ∷ [])
      "worker"
      p
    × (lookup "worker" (bay_build_dedup_map repo_of fleet ("worker" ∷ "web" ∷ [])) ≡ some r)
    × (lookup "web" (bay_build_dedup_map repo_of fleet ("worker" ∷ "web" ∷ [])) ≡ some s)
    × (r.primary_svc ≡ p)
    × (s.primary_svc ≡ p)
    × (r.primary ≡ ("worker" == p))
    × (s.primary ≡ ("web" == p))
same_primary_example =
    same_primary repo_of fleet ("worker" ∷ "web" ∷ []) "worker" "web" (inl refl) (inr (inl refl))
      same_build

abbrev two_builds : Assoc Service
two_builds =
    (
      "web",
      record no_service {
        build = some (record shop { bay_toml_path = "bay.toml"; bay_project = "web" });
      },
    )
    ∷ (
      "web-jobs",
      record no_service {
        build = some (record shop { bay_toml_path = "bay.toml"; bay_project = "jobs" });
      },
    )
    ∷ []

-- builds are told apart by a text that differs for the two
abbrev project_of : Option Build → String
project_of none = ""
project_of (some build) = build.bay_project

abbrev slug : String → String → String
slug repo branch = repo

jobs_listed : In "web-jobs" (bay_push_siblings project_of slug two_builds "web" "local")
unfolding bay_push_siblings service_of lookup push_project sort keep candidates alias_of
    bay_build_dedup_map all_roles groups_from local_names build_strategy add_to insert group_roles
    primary_of
jobs_listed = inl refl

jobs-Sibling : Sibling project_of slug two_builds "web" "local" "web-jobs"
jobs-Sibling =
    (bay_push_siblings_iff project_of slug two_builds "web" "local" "web-jobs").0 jobs_listed

bay_push_siblings_iff_example :
    In "web-jobs" (bay_push_siblings project_of slug two_builds "web" "local")
    ↔ Sibling project_of slug two_builds "web" "local" "web-jobs"
bay_push_siblings_iff_example =
    bay_push_siblings_iff project_of slug two_builds "web" "local" "web-jobs"
