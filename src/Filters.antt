-- ===== src/Filters.antt =====
-- filter_plugins/bay_filters.py: what the playbooks compute from services.yml about builds and images.
-- The hash of a build and the slug of a repository are parameters.
pub mod Consumers
pub mod Keys
pub mod Groups
pub mod Roles
pub mod Siblings
pub mod Candidates
pub mod Same
use bay.Prelude.{
  ℕ, String, Bool, true, false, not, ◌&&◌, ◌||◌, Option, none, some, List, [], ◌∷◌, ◌++◌, map, ◌==◌,
  string_eq, option_eq, if◌then◌else◌,
}
use bay.Prelude.Assoc.{Assoc, insert, lookup, keep, contains, any, length}
use bay.Prelude.Sort.{sort, dedup}
use bay.Prelude.Text.{is_empty}

-- The `build` of a service; a missing text is empty, and the branch has its default.
pub record Build : Type 0 where
  pub repo : String
  pub branch : String
  pub strategy : Option String
  pub shared_from : String
  pub bay_toml_path : String
  pub bay_project : String
  pub bay_build_hash : String

pub record Service : Type 0 where
  pub build : Option Build
  pub image : String
  pub regions : List String

abbrev pub no_service : Service
no_service = record { build = none; image = ""; regions = [] }

-- `services.get(name, {})`
unfoldable pub service_of : Assoc Service → String → Service
service_of services name = elim (lookup name services) [ none ↦ no_service | some s ↦ s ]

-- `d.get(k, [])`
abbrev pub or_nil : Option (List String) → List String
or_nil none = []
or_nil (some l) = l

-- `if key not in d: d[key] = []` and `d[key].append(name)`
unfoldable pub add_to : String → String → Assoc (List String) → Assoc (List String)
add_to key name d = insert key (or_nil (lookup key d) ++ (name ∷ [])) d

-- the loop of `bay_image_consumers`
unfoldable pub consumers_from :
    Assoc Service → List String → Assoc (List String) → Assoc (List String)
consumers_from services [] d = d
consumers_from services (name ∷ l) d =
    let image = (service_of services name).image in
    consumers_from services l (if is_empty image then d else add_to image name d)

-- sorts the names of each group
unfoldable pub sort_groups : Assoc (List String) → Assoc (List String)
sort_groups [] = []
sort_groups ((key, names) ∷ d) = (key, sort names) ∷ sort_groups d

-- `bay_image_consumers`
unfoldable pub bay_image_consumers : Assoc Service → List String → Assoc (List String)
bay_image_consumers services names = sort_groups (consumers_from services names [])

-- `strategy in ("remote", "push")`, with the default "local"
abbrev pub is_remote : Option String → Bool
is_remote none = false
is_remote (some s) = s == "remote" || s == "push"

abbrev pub built_by : Option Build → String → List String
built_by none image = []
built_by (some build) image =
    if is_remote build.strategy && not (is_empty image) then image ∷ [] else []

-- `built_images`
unfoldable pub built_images : Assoc Service → List String → List String
built_images services [] = []
built_images services (name ∷ l) =
    let s = service_of services name in built_by s.build s.image ++ built_images services l

-- the regions of the services that use the image
unfoldable pub regions_of : String → Assoc Service → List String
regions_of image [] = []
regions_of image ((name, s) ∷ l) =
    let rest = regions_of image l in if s.image == image then s.regions ++ rest else rest

abbrev pub region_row : String → List String → Assoc (List String) → Assoc (List String)
region_row image [] rest = rest
region_row image (r ∷ regions) rest = (image, r ∷ regions) ∷ rest

unfoldable pub region_rows : Assoc Service → List String → Assoc (List String)
region_rows services [] = []
region_rows services (image ∷ l) =
    region_row image (sort (dedup (regions_of image services))) (region_rows services l)

-- `bay_image_region_map`
unfoldable pub bay_image_region_map : Assoc Service → List String → Assoc (List String)
bay_image_region_map services names =
    region_rows services (sort (dedup (built_images services names)))

-- `_push_project`
pub data Project : Type 0 where
  toml : String → Project
  project : String → Project

unfoldable pub push_project : Build → Option Project
push_project build =
    if is_empty build.bay_toml_path
    then (if is_empty build.bay_project then none else some (project build.bay_project))
    else some (toml build.bay_toml_path)

-- `_build_strategy`
abbrev pub or_text : Option String → String → String
or_text none b = b
or_text (some s) b = if is_empty s then b else s

unfoldable pub build_strategy : Build → String → String
build_strategy build default_strategy =
    let raw =
      or_text build.strategy (if is_empty default_strategy then "local" else default_strategy) in
    if raw == "push" then "remote" else raw
