-- ===== src/Tests/Pushing.antt =====
-- pushinputs.py on a push that changes the docs only.
use bay.Prelude.{String, Bool, true, false, ◌≡◌, ◌↔◌, refl, some, none, List, [], ◌∷◌}
use bay.Prelude.Assoc.{In, keep}
use bay.Prelude.Sort.{sort, dedup}
use bay.Prelude.Text.{strip_prefix, rstrip_by}
use bay.Prelude.Result.{ok}
use bay.PushInputs.{Regex, translate}
use bay.PushInputs.Inputs.{
  Rule, Options, input_files, main, searched, spec, spec_match, read_options, set_option, clean_dir,
}
use bay.PushInputs.Rules.{LastIncludes, spec_match_iff}
use bay.PushInputs.Chosen.{Counts, input_files_iff, line_of, main_quiet, no_options}

-- An engine for the one regex of the test.
abbrev pub under_docs : String → Bool
under_docs path = elim (strip_prefix "docs/" path) [ none ↦ false | some rest ↦ true ]

abbrev pub engine : Regex
engine = record { compile = λ s. ok under_docs; repr = λ s. s }

abbrev no_docs : Options
no_docs = record no_options { exclude = "docs/" ∷ [] }

abbrev pushed : List String
pushed = "src/app.py" ∷ "docs/a.md" ∷ "" ∷ []

abbrev docs_then_not : List Rule
docs_then_not = (under_docs, true) ∷ (under_docs, false) ∷ []

spec_match_iff_example :
    (spec_match docs_then_not "/docs/a.md" ≡ true)
    ↔ LastIncludes (searched "/docs/a.md") docs_then_not
spec_match_iff_example = spec_match_iff docs_then_not "/docs/a.md"

chosen : input_files engine pushed no_docs ≡ ok ("src/app.py" ∷ [])
unfolding input_files spec spec_match translate sort dedup keep clean_dir strip_prefix
chosen = refl

input_files_iff_example :
    In {A = String} "src/app.py" ("src/app.py" ∷ [])
    ↔ (In {A = String} "src/app.py" pushed × Counts engine no_docs "src/app.py")
input_files_iff_example =
    input_files_iff engine "src/app.py" pushed ("src/app.py" ∷ []) no_docs chosen

nothing_printed : main engine ("--exclude" ∷ "docs/" ∷ []) ("docs/a.md\n" ∷ []) ≡ (0, [])
unfolding main read_options input_files spec spec_match translate sort dedup keep clean_dir
    rstrip_by set_option strip_prefix
nothing_printed = refl

main_quiet_example :
    (o : Options) × (read_options ("--exclude" ∷ "docs/" ∷ []) no_options ≡ some o)
    × ((line : String) → In line ("docs/a.md\n" ∷ []) → ¬ Counts engine o (line_of line))
main_quiet_example =
    main_quiet engine ("--exclude" ∷ "docs/" ∷ []) ("docs/a.md\n" ∷ []) nothing_printed
