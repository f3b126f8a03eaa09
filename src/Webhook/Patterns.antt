-- ===== src/Webhook/Patterns.antt =====
-- The patterns of an entry: what the receiver keeps by them, and the options that rebuild.sh passes.
use bay.Prelude.{
  String, Bool, true, not, ◌&&◌, ◌≡◌, ◌↔◌, inl, refl, sym, ap, ◌∙◌, Option, none, some, List, [],
  ◌∷◌, if◌then◌else◌, not_true, false≢true,
}
use bay.Prelude.Assoc.{keep, In, In-keep}
use bay.Prelude.Result.{ok}
use bay.PushInputs.{Regex}
use bay.PushInputs.Inputs.{Options}
use bay.PushInputs.Chosen.{Matches, Excluded}
use bay.Webhook.Filter.{
  Paths, ServiceConfig, Pathspec, is_nil, remaining, excluding, included, including, should_rebuild,
  includes_of, excludes_of,
}

abbrev pub text_of : Option String → String
text_of none = ""
text_of (some s) = s

-- Some file of the list has the property.
abbrev pub Some : (String → Type 0) → List String → Type 0
Some P l = (f : String) × In f l × P f

module _ (re : Regex) (pathspec : Pathspec) where
  -- The options that rebuild.sh passes for the entry.
  abbrev pub options_of : ServiceConfig → Options
  options_of cfg = record {
    include = includes_of pathspec cfg.paths;
    exclude = excludes_of pathspec cfg.paths;
    context = text_of cfg.context;
    dockerfile = text_of cfg.dockerfile;
  }

  -- The library reads the patterns, and matches the files that pushinputs.py matches.
  abbrev pub Reads : List String → Type 0
  Reads [] = Unit
  Reads (p ∷ ps) =
      (finds : String → Bool) × (pathspec.from_lines (p ∷ ps) ≡ ok finds)
      × ((f : String) → (finds f ≡ true) ↔ Matches re (p ∷ ps) f)

  -- the patterns of `include`, where there are any
  abbrev pub Picked : List String → String → Type 0
  Picked [] f = Unit
  Picked (p ∷ ps) f = Matches re (p ∷ ps) f

  abbrev pub Left : List String → List String → String → Type 0
  Left inc exc f = Picked inc f × ¬ Excluded re exc f

  remaining_iff : (files l : List String) → ((remaining files l).0 ≡ true) ↔ ((f : String) × In f l)
  remaining_iff files [] = (λ h. absurd (false≢true h), λ x. absurd (x.1))
  remaining_iff files (g ∷ l) = (λ h. (g, inl refl), λ x. refl)

  keep_iff :
      (files l : List String) (finds : String → Bool) (P : String → Type 0)
      → ((f : String) → (finds f ≡ true) ↔ P f)
      → ((f : String) × In f (keep finds l)) ↔ Some P l
  keep_iff files l finds P test = (
    λ x. let (m, t) = (In-keep finds (x.0) l).0 (x.1) in (x.0, m, (test (x.0)).0 t),
    λ x. (x.0, (In-keep finds (x.0) l).1 (x.1, (test (x.0)).1 (x.2))),
  )

  excluding_iff :
      (files exc l : List String)
      → Reads exc
      → ((excluding pathspec files exc l).0 ≡ true) ↔ Some (λ f. ¬ Excluded re exc f) l
  excluding_iff files [] l u =
      let base = remaining_iff files l in
      (λ h. let x = base.0 h in (x.0, x.1, λ z. z), λ x. base.1 (x.0, x.1))
  excluding_iff files (p ∷ ps) l (finds, e, test) =
      let base = remaining_iff files (keep (λ f. not (finds f)) l) in
      let kept = keep_iff files l (λ f. not (finds f)) (λ f. ¬ Matches re (p ∷ ps) f) negated in
      rw e (λ h. kept.0 (base.0 h), λ x. base.1 (kept.1 x))
    where
      negated : (f : String) → (not (finds f) ≡ true) ↔ ¬ Matches re (p ∷ ps) f
      negated f = (
        λ h m. false≢true (ap not (sym ((test f).1 m)) ∙ h),
        λ h. ap not (not_true (finds f) (λ t. h ((test f).0 t))),
      )

  included_iff :
      (files exc l : List String)
      → Reads exc
      → ((included pathspec files exc l).0 ≡ true) ↔ Some (λ f. ¬ Excluded re exc f) l
  included_iff files exc [] r = (λ h. absurd (false≢true h), λ x. absurd (x.1))
  included_iff files exc (f ∷ l) r = excluding_iff files exc (f ∷ l) r

  including_iff :
      (files inc exc : List String)
      → Reads inc
      → Reads exc
      → ((including pathspec files inc exc).0 ≡ true) ↔ Some (Left inc exc) files
  including_iff files [] exc u r =
      let base = excluding_iff files exc files r in
      (λ h. let x = base.0 h in (x.0, x.1, (tt, x.2)), λ x. base.1 (x.0, x.1, x.2.1))
  including_iff files (p ∷ ps) exc (finds, e, test) r =
      let base = included_iff files exc (keep finds files) r in
      rw e (
        λ h.
            let x = base.0 h in
            let (m, t) = (In-keep finds (x.0) files).0 (x.1) in (x.0, m, ((test (x.0)).0 t, x.2)),
        λ x. base.1 (x.0, (In-keep finds (x.0) files).1 (x.1, (test (x.0)).1 (x.2.0)), x.2.1),
      )

  patterns_iff :
      (f : String) (files inc exc : List String) (text : String)
      → Reads inc
      → Reads exc
      → ((if is_nil inc && is_nil exc
            then (true, text)
            else including pathspec (f ∷ files) inc exc).0
          ≡ true)
        ↔ Some (Left inc exc) (f ∷ files)
  patterns_iff f files [] [] text i e = (λ h. (f, inl refl, (tt, λ z. z)), λ x. refl)
  patterns_iff f files [] (q ∷ qs) text i e = including_iff (f ∷ files) [] (q ∷ qs) i e
  patterns_iff f files (p ∷ ps) exc text i e = including_iff (f ∷ files) (p ∷ ps) exc i e

  pub should_rebuild_iff :
      (f : String) (files : List String) (paths : Option Paths)
      → Reads (includes_of pathspec paths)
      → Reads (excludes_of pathspec paths)
      → ((should_rebuild pathspec (f ∷ files) paths).0 ≡ true)
        ↔ Some (Left (includes_of pathspec paths) (excludes_of pathspec paths)) (f ∷ files)
  unfolding should_rebuild
  should_rebuild_iff f files none i e = (λ h. (f, inl refl, (tt, λ z. z)), λ x. refl)
  should_rebuild_iff f files (some paths) i e =
      patterns_iff f files paths.include paths.exclude _ i e
