-- ===== src/PushInputs/Chosen.antt =====
-- Which files of a push `input_files` keeps.
use mathlib.Core.Path.{subst}
use bay.Prelude.{
  String, Bool, true, false, not, ◌≡◌, ◌≢◌, ◌↔◌, ◌⊎◌, inl, inr, refl, Option, none, some, List, [],
  ◌∷◌, map, false≢true, sym, ap, ◌∙◌, string_eq, if◌then◌else◌, not_true,
}
use bay.Prelude.Assoc.{In, keep, In-keep, In-map}
use bay.Prelude.Order.{In-sort, In-dedup}
use bay.Prelude.Sort.{sort, dedup}
use bay.Prelude.Text.{is_empty, is_empty_iff, rstrip_by, ◌is◌}
use bay.Prelude.Result.{Result, ok, err, ◌>>=◌}
use bay.PushInputs.{Regex}
use bay.PushInputs.Inputs.{
  Rule, spec, spec_match, searched, clean_dir, in_context, Options, include_by, exclude_by,
  input_files, read_options, main, outcome, exit_of,
}
use bay.PushInputs.Rules.{LastIncludes, spec_match_iff}

-- The rules that the lines of a spec are read as.
abbrev pub Matches : Regex → List String → String → Type 0
Matches re lines f =
    (rules : List Rule) × (spec re lines ≡ ok rules) × LastIncludes (searched f) rules

-- The build context of the options, without `./` and slashes at its ends; it is empty for the root.
abbrev pub context_of : Options → String
context_of o = clean_dir o.context

-- A file counts by the `include` patterns, if there are any, and else by the context.
abbrev pub Included : Regex → List String → Options → String → Type 0
Included re [] o f =
    (is_empty (context_of o) ≡ true) ⊎ (in_context (context_of o) (clean_dir o.dockerfile) f ≡ true)
Included re (p ∷ ps) o f = Matches re (p ∷ ps) f

abbrev pub Excluded : Regex → List String → String → Type 0
Excluded re [] f = ⊥
Excluded re (p ∷ ps) f = Matches re (p ∷ ps) f

-- A file with a name is a build input: the options include it and do not exclude it.
abbrev pub Counts : Regex → Options → String → Type 0
Counts re o f = (f ≢ "") × Included re o.include o f × ¬ Excluded re o.exclude f

module _ (re : Regex) (f : String) where
  -- a list that is filtered by the rules of a spec
  by_spec :
      (lines names kept : List String) (q : Bool → Bool) (r : Result (List Rule))
      → spec re lines ≡ r
      → (r >>= λ rules. ok (keep (λ g. q (spec_match rules g)) names)) ≡ ok kept
      → (rules : List Rule) × (spec re lines ≡ ok rules)
        × (In f kept ↔ (In f names × (q (spec_match rules f) ≡ true)))
  by_spec lines names kept q (err x) s e = cc
  by_spec lines names kept q (ok rules) s e =
      let same : keep (λ g. q (spec_match rules g)) names ≡ kept = cc in
      (
        rules,
        s,
        subst (λ k. In f k ↔ (In f names × (q (spec_match rules f) ≡ true))) same
            (In-keep _ f names),
      )

  -- the rules of a spec are what its lines compile to
  pub Matches-iff :
      (lines : List String) (rules : List Rule)
      → spec re lines ≡ ok rules
      → (spec_match rules f ≡ true) ↔ Matches re lines f
  Matches-iff lines rules s =
      let test = spec_match_iff rules f in
      (
        λ h. (rules, s, test.0 h),
        λ h.
            let (others, t, l) = h in
            let same : others ≡ rules = cc in test.1 (subst (LastIncludes (searched f)) same l),
      )

  by_context :
      (o : Options) (names kept : List String) (root : Bool)
      → is_empty (context_of o) ≡ root
      → (if root then names else keep (in_context (context_of o) (clean_dir o.dockerfile)) names)
        ≡ kept
      → In f kept ↔ (In f names × Included re [] o f)
  by_context o names kept true r same =
      (λ h. (subst (In f) (sym same) h, inl r), λ h. subst (In f) same h.0)
  by_context o names kept false r same =
      let member = In-keep (in_context (context_of o) (clean_dir o.dockerfile)) f names in
      (
        λ h. let (m, t) = member.0 (subst (In f) (sym same) h) in (m, inr t),
        λ h.
            subst (In f) same
              (member.1 (h.0, elim h.1 [ inl e ↦ absurd (false≢true (sym r ∙ e)) | inr t ↦ t ])),
      )

  include_by_iff :
      (patterns : List String) (o : Options) (names kept : List String)
      → include_by re patterns o names ≡ ok kept
      → In f kept ↔ (In f names × Included re patterns o f)
  include_by_iff [] o names kept e = by_context o names kept _ refl cc
  include_by_iff (p ∷ ps) o names kept e =
      let (rules, s, member) = by_spec (p ∷ ps) names kept (λ b. b) _ refl e in
      let matches = Matches-iff (p ∷ ps) rules s in
      (λ h. ((member.0 h).0, matches.0 (member.0 h).1), λ h. member.1 (h.0, matches.1 h.1))

  exclude_by_iff :
      (patterns names kept : List String)
      → exclude_by re patterns names ≡ ok kept
      → In f kept ↔ (In f names × ¬ Excluded re patterns f)
  exclude_by_iff [] names kept e =
      let same : names ≡ kept = cc in
      (λ h. (subst (In f) (sym same) h, λ x. x), λ h. subst (In f) same h.0)
  exclude_by_iff (p ∷ ps) names kept e =
      let (rules, s, member) = by_spec (p ∷ ps) names kept not _ refl e in
      let matches = Matches-iff (p ∷ ps) rules s in
      (
        λ h. (
          (member.0 h).0,
          λ x. absurd (false≢true (sym (ap not (matches.1 x)) ∙ (member.0 h).1)),
        ),
        λ h. member.1 (h.0, ap not (not_true _ (λ t. h.1 (matches.0 t)))),
      )

  named :
      (files : List String)
      → In f (sort (dedup (keep (λ g. not (is_empty g)) files))) ↔ (In f files × (f ≢ ""))
  named files =
      let sorted = In-sort f (dedup (keep (λ g. not (is_empty g)) files)) in
      let once = In-dedup f (keep (λ g. not (is_empty g)) files) in
      let member = In-keep (λ g. not (is_empty g)) f files in
      let empty = is_empty_iff f in
      (
        λ h.
            let (m, t) = member.0 (once.0 (sorted.0 h)) in
            (m, λ e. absurd (false≢true (ap not (sym (empty.1 e)) ∙ t))),
        λ h.
            sorted.1
              (once.1 (member.1 (h.0, ap not (not_true (is_empty f) (λ t. h.1 (empty.0 t)))))),
      )

  -- If the patterns can be read, the result holds exactly the changed files that count: they have a
  -- name; the include patterns match them or, without include patterns, they are in the context or
  -- the context is the root; and the exclude patterns do not match them.
  pub input_files_iff :
      (files found : List String) (o : Options)
      → input_files re files o ≡ ok found
      → In f found ↔ (In f files × Counts re o f)
  unfolding input_files
  input_files_iff files found o e = through (include_by re o.include o names) refl e
    where
      names : List String
      names = sort (dedup (keep (λ g. not (is_empty g)) files))

      through :
          (r : Result (List String))
          → include_by re o.include o names ≡ r
          → (r >>= exclude_by re o.exclude) ≡ ok found
          → In f found ↔ (In f files × Counts re o f)
      through (err x) s e = cc
      through (ok kept) s e =
          let first = include_by_iff o.include o names kept s in
          let second = exclude_by_iff o.exclude kept found e in
          let start = named files in
          (
            λ h.
                let (m, out) = second.0 h in
                let (n, in_) = first.0 m in let (there, ne) = start.0 n in (there, (ne, in_, out)),
            λ h.
                let (there, (ne, in_, out)) = h in
                second.1 (first.1 (start.1 (there, ne), in_), out),
          )

abbrev pub no_options : Options
no_options = record { include = []; exclude = []; context = ""; dockerfile = "" }

abbrev pub line_of : String → String
line_of = rstrip_by (λ c. c is "\n")

nothing-Counts :
    (re : Regex) (files found : List String) (o : Options) (f : String)
    → input_files re files o ≡ ok found
    → found ≡ []
    → In f files
    → ¬ Counts re o f
nothing-Counts re files found o f e none_found m c =
    subst (In f) none_found ((input_files_iff re f files found o e).1 (m, c))

quiet :
    (re : Regex) (stdin : List String) (o : Options) (r : Result (List String))
    → input_files re (map line_of stdin) o ≡ r
    → exit_of re r ≡ (0, [])
    → (line : String) → In line stdin
    → ¬ Counts re o (line_of line)
quiet re stdin o (err x) s e line m = cc
quiet re stdin o (ok found) s e line m =
    nothing-Counts re (map line_of stdin) found o (line_of line) s (ap (λ p. p.1) e)
      (In-map line_of line stdin m)

-- A run that exits with 0 and prints nothing has read its options, and none of the changed files on
-- its standard input counts.
pub main_quiet :
    (re : Regex) (args stdin : List String)
    → main re args stdin ≡ (0, [])
    → (o : Options) × (read_options args no_options ≡ some o)
      × ((line : String) → In line stdin → ¬ Counts re o (line_of line))
unfolding main
main_quiet re args stdin e = options (read_options args no_options) refl e
  where
    options :
        (r : Option Options)
        → read_options args no_options ≡ r
        → outcome re stdin r ≡ (0, [])
        → (o : Options) × (read_options args no_options ≡ some o)
          × ((line : String) → In line stdin → ¬ Counts re o (line_of line))
    options none s e = cc
    options (some o) s e = (o, s, quiet re stdin o _ refl e)
