-- ===== src/PushInputs/Inputs.antt =====
-- The rules of a spec, and the files of a push that are build inputs.
use Prim.Native.Char.{Char}
use bay.Prelude.{
  ℕ, String, Bool, true, false, not, ◌&&◌, ◌||◌, Option, none, some, List, [], ◌∷◌, ◌++◌, map,
  if◌then◌else◌, ◌==◌, string_eq,
}
use bay.Prelude.Assoc.{keep, contains}
use bay.Prelude.Sort.{sort, dedup}
use bay.Prelude.Text.{concat, strip, lstrip_by, rstrip_by, strip_prefix, is_empty, ◌is◌}
use bay.Prelude.Result.{Result, ok, err, ◌>>=◌}
use bay.PushInputs.{Regex, translate}

-- A compiled pattern: `regex.search` and `include`.
abbrev pub Rule : Type 0
Rule = (String → Bool) × Bool

unfoldable pub rule : Regex → Option (String × Bool) → Result (Option Rule)
rule re none = ok none
rule re (some (regex, include)) = re.compile regex >>= λ finds. ok (some (finds, include))

abbrev pub add_rule : Option Rule → List Rule → List Rule
add_rule none rules = rules
add_rule (some r) rules = r ∷ rules

-- `Spec.__init__`
unfoldable pub spec : Regex → List String → Result (List Rule)
unfolding translate rule
spec re [] = ok []
spec re (line ∷ lines) =
    translate re line >>= λ t. rule re t >>= λ r. spec re lines >>= λ rules. ok (add_rule r rules)

-- `while path.startswith("./"): path = path[2:]`
unfoldable pub drop_dots : String → String
drop_dots String.[] = ""
drop_dots (String.◌∷◌ c String.[]) = String.◌∷◌ c ""
drop_dots (String.◌∷◌ c (String.◌∷◌ d s)) =
    let rest = drop_dots s in if c is "." && d is "/" then rest else String.◌∷◌ c (String.◌∷◌ d s)

abbrev is_slash : Char → Bool
is_slash c = c is "/"

-- the path that a rule searches
unfoldable pub searched : String → String
unfolding lstrip_by drop_dots
searched path = drop_dots (lstrip_by is_slash path)

-- the loop over the rules, with `hit` so far
unfoldable pub decide_by : List Rule → String → Bool → Bool
decide_by [] path hit = hit
decide_by ((finds, include) ∷ rules) path hit =
    decide_by rules path (if finds path then include else hit)

-- `Spec.match`
unfoldable pub spec_match : List Rule → String → Bool
unfolding searched decide_by
spec_match rules path = decide_by rules (searched path) false

-- `clean_dir`; its argument is never None in this module
unfoldable pub clean_dir : String → String
unfolding strip drop_dots lstrip_by rstrip_by
clean_dir path =
    let p = rstrip_by is_slash (lstrip_by is_slash (drop_dots (strip path))) in
    if p == "." then "" else p

-- the Dockerfile and its ignore file
unfoldable pub own_files : String → List String
unfolding concat
own_files dockerfile =
    if is_empty dockerfile then [] else dockerfile ∷ concat (dockerfile ∷ ".dockerignore" ∷ []) ∷ []

abbrev is_some : Option String → Bool
is_some none = false
is_some (some s) = true

-- `f == ctx or f.startswith(ctx + "/") or f in own`
unfoldable pub in_context : String → String → String → Bool
unfolding concat strip_prefix contains
in_context ctx dockerfile f =
    f == ctx
    || is_some (strip_prefix (concat (ctx ∷ "/" ∷ [])) f)
    || contains (own_files dockerfile) f

-- The options of a run: `--include`, `--exclude`, `--context` and `--dockerfile`.
pub record Options : Type 0 where
  pub include : List String
  pub exclude : List String
  pub context : String
  pub dockerfile : String

-- `{**o, flag: value}` of the argument loop; `none` for another flag
unfoldable pub set_option : String → String → Options → Option Options
set_option flag value o =
    if flag == "--include"
    then some (record o { include = o.include ++ (value ∷ []) })
    else if flag == "--exclude"
    then some (record o { exclude = o.exclude ++ (value ∷ []) })
    else if flag == "--context"
    then some (record o { context = value })
    else if flag == "--dockerfile"
    then some (record o { dockerfile = value })
    else none

-- the argument loop; `none` is a usage error
unfoldable pub read_options : List String → Options → Option Options
read_options [] o = some o
read_options (flag ∷ []) o = none
read_options (flag ∷ value ∷ args) o = elim (set_option flag value o) [
  | none ↦ none
  | some o' ↦ read_options args o'
]

module _ (re : Regex) where
  -- the branches for `include`, `ctx` and neither, by the patterns of `include`
  abbrev pub include_by : List String → Options → List String → Result (List String)
  include_by [] o names =
      let ctx = clean_dir o.context in
      ok (if is_empty ctx then names else keep (in_context ctx (clean_dir o.dockerfile)) names)
  include_by (p ∷ ps) o names = spec re (p ∷ ps) >>= λ rules. ok (keep (spec_match rules) names)

  -- the branch for `exclude`
  abbrev pub exclude_by : List String → List String → Result (List String)
  exclude_by [] names = ok names
  exclude_by (p ∷ ps) names =
      spec re (p ∷ ps) >>= λ rules. ok (keep (λ f. not (spec_match rules f)) names)

  -- `input_files`
  unfoldable pub input_files : List String → Options → Result (List String)
  input_files files o =
      let names = sort (dedup (keep (λ f. not (is_empty f)) files)) in
      include_by o.include o names >>= exclude_by o.exclude

  abbrev pub exit_of : Result (List String) → ℕ × List String
  exit_of (ok found) = (0, found)
  exit_of (err e) = (2, [])

  -- what `main` does with the options
  abbrev pub outcome : List String → Option Options → ℕ × List String
  outcome stdin none = (2, [])
  outcome stdin (some o) = exit_of (input_files (map (rstrip_by (λ c. c is "\n")) stdin) o)

  -- `main`: the exit code and the lines it prints to standard output
  unfoldable pub main : List String → List String → ℕ × List String
  main args stdin =
      outcome stdin
        (read_options args (record { include = []; exclude = []; context = ""; dockerfile = "" }))
