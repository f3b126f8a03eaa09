-- ===== src/Webhook/Filter.antt =====
-- Whether a push changes a build input: `push_filter` of the receiver and what it calls. The set of
-- changed files is a list without repetitions. A compiled pattern list is a function of the library `pathspec`.
use bay.Prelude.{
  ℕ, String, Bool, true, false, not, ◌&&◌, ◌||◌, Option, none, some, List, [], ◌∷◌, ◌++◌, ◌==◌,
  string_eq, if◌then◌else◌,
}
use bay.Prelude.Assoc.{keep, contains, any, length}
use bay.Prelude.Sort.{sort, dedup}
use bay.Prelude.Text.{concat, join, show_nat, is_empty, strip_prefix, lstrip_by, rstrip_by, ◌is◌}
use bay.Prelude.Result.{Result, ok, err}
use bay.PushInputs.Inputs.{clean_dir, in_context}

-- A commit of the payload.
pub record Commit : Type 0 where
  pub added : List String
  pub removed : List String
  pub modified : List String

abbrev pub commit_files : List Commit → List String
commit_files [] = []
commit_files (c ∷ l) = (c.added ++ c.removed ++ c.modified) ++ commit_files l

-- `_extract_changed_files`
unfoldable pub extract_changed_files : List Commit → List String
extract_changed_files commits = dedup (commit_files commits)

-- The entry `paths`: the patterns of `include` and of `exclude`.
pub record Paths : Type 0 where
  pub include : List String
  pub exclude : List String

-- The entry of a service. A value that is no text counts as missing for the keys that the receiver
-- checks; an empty `paths` counts as missing.
pub record ServiceConfig : Type 0 where
  pub bay_toml_path : Option String
  pub bay_toml_files : List String
  pub shared_toml_paths : List String
  pub paths : Option Paths
  pub context : Option String
  pub dockerfile : Option String

abbrev pub no_config : ServiceConfig
no_config = record {
  bay_toml_path = none;
  bay_toml_files = [];
  shared_toml_paths = [];
  paths = none;
  context = none;
  dockerfile = none;
}

-- `if not l`
abbrev pub is_nil : List String → Bool
is_nil [] = true
is_nil (x ∷ l) = false

abbrev pub starts_with : String → String → Bool
starts_with p f = is_some (strip_prefix p f)
  where
    is_some : Option String → Bool
    is_some none = false
    is_some (some s) = true

-- `f == p or f.startswith(p + "/")`
unfoldable pub at_path : String → String → Bool
at_path f p = f == p || starts_with (concat (p ∷ "/" ∷ [])) f

-- the texts of the entries without slashes at their ends
unfoldable pub clean_paths : List String → List String
clean_paths [] = []
clean_paths (e ∷ l) =
    let rest = clean_paths l in
    let p = rstrip_by (λ c. c is "/") (lstrip_by (λ c. c is "/") e) in
    if is_empty p then rest else p ∷ rest

-- `_matching`
unfoldable pub matching : List String → List String → List String
matching files entries = sort (keep (λ f. any (at_path f) (clean_paths entries)) files)

abbrev pub own_path : Option String → List String
own_path none = []
own_path (some path) = path ∷ []

-- `_own_config_files`
unfoldable pub own_config_files : List String → ServiceConfig → List String
own_config_files files cfg = matching files (own_path cfg.bay_toml_path ++ cfg.bay_toml_files)

-- `config_files_changed`
unfoldable pub config_files_changed : List String → Option ServiceConfig → List String
config_files_changed files none = []
config_files_changed files (some cfg) =
    sort (dedup (own_config_files files cfg ++ matching files cfg.shared_toml_paths))

-- What the receiver uses of `pathspec`: the match of `PathSpec.from_lines("gitignore", lines)`.
pub record Pathspec : Type 0 where
  pub from_lines : List String → Result (String → Bool)

abbrev pub Verdict : Type 0
Verdict = Bool × String

-- `f"{n} file(s) …"`
abbrev pub count_text : ℕ → String → String
count_text n text = concat (show_nat n ∷ text ∷ [])

-- the return of `should_rebuild` for the files that are left
abbrev pub remaining : List String → List String → Verdict
remaining files [] =
    (false, concat ("all " ∷ show_nat (length files) ∷ " file(s) filtered out" ∷ []))
remaining files (f ∷ l) = (true, count_text (length (f ∷ l)) " file(s) matched after filtering")

module _ (pathspec : Pathspec) where
  abbrev pub exclude_with : List String → List String → Result (String → Bool) → Verdict
  exclude_with files relevant (err e) =
      (true, concat ("invalid exclude patterns: " ∷ e.message ∷ []))
  exclude_with files relevant (ok finds) = remaining files (keep (λ f. not (finds f)) relevant)

  -- `if exclude:` and what follows
  abbrev pub excluding : List String → List String → List String → Verdict
  excluding files [] relevant = remaining files relevant
  excluding files (p ∷ ps) relevant = exclude_with files relevant (pathspec.from_lines (p ∷ ps))

  -- behind `if not relevant:`
  abbrev pub included : List String → List String → List String → Verdict
  included files exclude [] =
      (false, concat ("0/" ∷ show_nat (length files) ∷ " file(s) matched include patterns" ∷ []))
  included files exclude (f ∷ l) = excluding files exclude (f ∷ l)

  abbrev pub include_with : List String → List String → Result (String → Bool) → Verdict
  include_with files exclude (err e) =
      (true, concat ("invalid include patterns: " ∷ e.message ∷ []))
  include_with files exclude (ok finds) = included files exclude (keep finds files)

  -- `if include:` and what follows
  abbrev pub including : List String → List String → List String → Verdict
  including files [] exclude = excluding files exclude files
  including files (p ∷ ps) exclude = include_with files exclude (pathspec.from_lines (p ∷ ps))

  abbrev pub with_files : List String → Paths → Verdict
  with_files [] paths = (false, "no files changed")
  with_files (f ∷ files) paths = including (f ∷ files) paths.include paths.exclude

  -- `should_rebuild`
  unfoldable pub should_rebuild : List String → Option Paths → Verdict
  should_rebuild files none = (true, "no path filtering configured")
  should_rebuild files (some paths) =
      if is_nil paths.include && is_nil paths.exclude
      then (true, "no path filter patterns configured")
      else with_files files paths

  -- `_clean_dir`; a value that is no text counts as ""
  abbrev pub clean_or_empty : Option String → String
  clean_or_empty none = ""
  clean_or_empty (some path) = clean_dir path

  abbrev pub includes_of : Option Paths → List String
  includes_of none = []
  includes_of (some paths) = paths.include

  abbrev pub excludes_of : Option Paths → List String
  excludes_of none = []
  excludes_of (some paths) = paths.exclude

  -- the verdict for the files inside the context
  abbrev pub in_context_verdict : ℕ → String → Option Paths → List String → Verdict
  in_context_verdict n ctx paths [] =
      (false, concat ("0/" ∷ show_nat n ∷ " file(s) under the build context " ∷ ctx ∷ []))
  in_context_verdict n ctx paths (f ∷ inside) =
      if is_nil (excludes_of paths)
      then (
        true,
        concat (show_nat (length (f ∷ inside)) ∷ " file(s) under the build context " ∷ ctx ∷ []),
      )
      else should_rebuild (f ∷ inside) paths

  -- `input_filter`
  unfoldable pub input_filter : List String → ServiceConfig → Verdict
  input_filter files cfg =
      let ctx = clean_or_empty cfg.context in
      if not (is_empty ctx) && is_nil (includes_of cfg.paths)
      then in_context_verdict (length files) ctx cfg.paths
          (keep (in_context ctx (clean_or_empty cfg.dockerfile)) files)
      else should_rebuild files cfg.paths

  abbrev pub config_changed : List String → String
  config_changed names = concat ("config file changed: " ∷ join ", " names ∷ [])

  -- the branch for a sibling project's bay.toml, by the verdict on the other files
  abbrev pub with_others : List String → List String → Verdict → Verdict
  with_others shared [] verdict = (true, config_changed shared)
  with_others shared (f ∷ others) (true, reason) =
      (true, concat (config_changed shared ∷ "; " ∷ reason ∷ []))
  with_others shared (f ∷ others) (false, reason) = (
    false,
    concat ("bay.toml of another project changed with files outside the watch: " ∷ reason ∷ []),
  )

  abbrev pub if_shared : List String → ServiceConfig → List String → Verdict
  if_shared files cfg [] = input_filter files cfg
  if_shared files cfg (s ∷ shared) =
      let others = keep (λ f. not (contains (s ∷ shared) f)) files in
      with_others (s ∷ shared) others (input_filter others cfg)

  abbrev pub if_own : List String → ServiceConfig → List String → List String → Verdict
  if_own files cfg [] shared = if_shared files cfg shared
  if_own files cfg (f ∷ own) shared = (true, config_changed (sort (dedup ((f ∷ own) ++ shared))))

  -- `push_filter`
  unfoldable pub push_filter : List String → Option ServiceConfig → Verdict
  push_filter files none = input_filter files no_config
  push_filter [] (some cfg) = input_filter [] cfg
  push_filter (f ∷ files) (some cfg) =
      if_own (f ∷ files) cfg (own_config_files (f ∷ files) cfg)
        (matching (f ∷ files) cfg.shared_toml_paths)
