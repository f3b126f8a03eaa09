-- ===== src/Webhook/Agrees.antt =====
-- The receiver and rebuild.sh agree on a push: `input_filter` passes it exactly if one of its files
-- counts by the rules of pushinputs.py.
use mathlib.Core.Path.{subst}
use bay.Prelude.{
  ℕ, String, Bool, true, false, not, ◌&&◌, ◌≡◌, ◌≢◌, ◌↔◌, inl, inr, refl, sym, Option, none, some,
  List, [], ◌∷◌, if◌then◌else◌, Bool-cases, false≢true, arith,
}
use bay.Prelude.Assoc.{keep, In, In-keep, length}
use bay.Prelude.Text.{is_empty}
use bay.PushInputs.{Regex}
use bay.PushInputs.Inputs.{Options, clean_dir, in_context}
use bay.PushInputs.Chosen.{Included, Excluded, Counts, context_of}
use bay.Webhook.Filter.{
  Paths, ServiceConfig, Pathspec, is_nil, should_rebuild, clean_or_empty, includes_of, excludes_of,
  in_context_verdict, input_filter,
}
use bay.Webhook.Patterns.{text_of, Some, options_of, Reads, Picked, Left, should_rebuild_iff}

module _ (re : Regex) (pathspec : Pathspec) where
  clean_text : (o : Option String) → clean_or_empty pathspec o ≡ clean_dir (text_of o)
  unfolding clean_dir
  clean_text none = refl
  clean_text (some s) = refl

  nil_is : (l : List String) → is_nil l ≡ true → l ≡ []
  nil_is [] h = refl
  nil_is (x ∷ l) h = absurd (false≢true h)

  -- without the context of the options, a file is included if it is picked
  Picked-iff :
      (inc : List String) (o : Options) (f : String)
      → (not (is_empty (context_of o)) && is_nil inc) ≡ false
      → Picked re pathspec inc f ↔ Included re inc o f
  Picked-iff [] o f h = (λ u. inl (ground arith), λ x. tt)
  Picked-iff (p ∷ ps) o f h = (λ x. x, λ x. x)

  -- with a context and no patterns, a file is included if it is in the context
  dir_iff :
      (inc : List String) (o : Options) (f : String)
      → inc ≡ []
      → not (is_empty (context_of o)) ≡ true
      → (in_context (context_of o) (clean_dir o.dockerfile) f ≡ true) ↔ Included re inc o f
  dir_iff [] o f z h =
      (inr, λ x. elim x [ inl empty ↦ absurd (ground arith) | inr inside ↦ inside ])
  dir_iff (p ∷ ps) o f z h = absurd (cons_nil z)
    where
      cons_nil : (p ∷ ps) ≢ []
      cons_nil z = cc

  without_picks :
      (inc exc l : List String)
      → inc ≡ []
      → Some (Left re pathspec inc exc) l ↔ Some (λ f. ¬ Excluded re exc f) l
  without_picks inc exc l e = (
    λ x. (x.0, x.1, x.2.1),
    λ x. (x.0, x.1, (subst (λ i. Picked re pathspec i (x.0)) (sym e) tt, x.2)),
  )

  excludes_or_iff :
      (f : String) (l exc : List String) (b : Bool) (text : String) (v : Bool × String)
      → ((v.0 ≡ true) ↔ Some (λ g. ¬ Excluded re exc g) (f ∷ l))
      → is_nil exc ≡ b
      → ((if b then (true, text) else v).0 ≡ true) ↔ Some (λ g. ¬ Excluded re exc g) (f ∷ l)
  excludes_or_iff f l [] true text v base e = (λ h. (f, inl refl, λ z. z), λ x. refl)
  excludes_or_iff f l (p ∷ ps) true text v base e = absurd (false≢true e)
  excludes_or_iff f l exc false text v base e = base

  in_context_verdict_iff :
      (n : ℕ) (ctx : String) (paths : Option Paths) (inside : List String)
      → Reads re pathspec (includes_of pathspec paths)
      → Reads re pathspec (excludes_of pathspec paths)
      → includes_of pathspec paths ≡ []
      → ((in_context_verdict pathspec n ctx paths inside).0 ≡ true)
        ↔ Some (λ f. ¬ Excluded re (excludes_of pathspec paths) f) inside
  in_context_verdict_iff n ctx paths [] i e z = (λ h. absurd (false≢true h), λ x. absurd (x.1))
  in_context_verdict_iff n ctx paths (f ∷ inside) i e z =
      let base = should_rebuild_iff re pathspec f inside paths i e in
      let drop =
        without_picks (includes_of pathspec paths) (excludes_of pathspec paths) (f ∷ inside) z in
      excludes_or_iff f inside (excludes_of pathspec paths) _ _
        (should_rebuild pathspec (f ∷ inside) paths)
        (λ h. drop.0 (base.0 h), λ x. base.1 (drop.1 x)) refl

  module _ (cfg : ServiceConfig) (f₀ : String) (l : List String)
      (all_named : (f : String) → In f (f₀ ∷ l) → f ≢ "") where
    by_patterns :
        (not (is_empty (context_of (options_of re pathspec cfg)))
            && is_nil (includes_of pathspec cfg.paths))
          ≡ false
        → Some
            (Left re pathspec (includes_of pathspec cfg.paths) (excludes_of pathspec cfg.paths))
            (f₀ ∷ l)
          ↔ Some (Counts re (options_of re pathspec cfg)) (f₀ ∷ l)
    by_patterns h = (
      λ x.
          let p =
            Picked-iff (includes_of pathspec cfg.paths) (options_of re pathspec cfg) (x.0) h in
          (x.0, x.1, (all_named (x.0) (x.1), p.0 (x.2.0), x.2.1)),
      λ x.
          let p =
            Picked-iff (includes_of pathspec cfg.paths) (options_of re pathspec cfg) (x.0) h in
          (x.0, x.1, (p.1 (x.2.1), x.2.2)),
    )

    by_dir :
        includes_of pathspec cfg.paths ≡ []
        → not (is_empty (context_of (options_of re pathspec cfg))) ≡ true
        → Some
            (λ f. ¬ Excluded re (excludes_of pathspec cfg.paths) f)
            (keep
              (in_context
                (context_of (options_of re pathspec cfg))
                (clean_dir (text_of cfg.dockerfile)))
              (f₀ ∷ l))
          ↔ Some (Counts re (options_of re pathspec cfg)) (f₀ ∷ l)
    by_dir z ctx =
        let o = options_of re pathspec cfg in
        (
          λ x.
              let (m, t) = (In-keep _ (x.0) (f₀ ∷ l)).0 (x.1) in
              (
                x.0,
                m,
                (
                  all_named (x.0) m,
                  (dir_iff (includes_of pathspec cfg.paths) o (x.0) z ctx).0 t,
                  x.2,
                ),
              ),
          λ x.
              let (ne, inside, kept) = x.2 in
              (
                x.0,
                (In-keep _ (x.0) (f₀ ∷ l)).1
                    (x.1, (dir_iff (includes_of pathspec cfg.paths) o (x.0) z ctx).1 inside),
                kept,
              ),
        )

    -- Let no changed file have an empty name, and let the library read the patterns of an entry and
    -- match what pushinputs.py matches. For a push that changes a file, `input_filter` answers true
    -- exactly if some changed file counts as a build input for the options that rebuild.sh passes.
    pub input_filter_iff :
        Reads re pathspec (includes_of pathspec cfg.paths)
        → Reads re pathspec (excludes_of pathspec cfg.paths)
        → ((input_filter pathspec (f₀ ∷ l) cfg).0 ≡ true)
          ↔ Some (Counts re (options_of re pathspec cfg)) (f₀ ∷ l)
    unfolding input_filter
    input_filter_iff i e =
        rw (clean_text cfg.context, clean_text cfg.dockerfile)
          (elim (Bool-cases (
            not (is_empty (context_of (options_of re pathspec cfg)))
            && is_nil (includes_of pathspec cfg.paths))) [
              | inl h ↦
                  let z = nil_is (includes_of pathspec cfg.paths) (ground arith) in
                  let first =
                    in_context_verdict_iff (length (f₀ ∷ l))
                      (context_of (options_of re pathspec cfg)) cfg.paths
                      (keep
                        (in_context (context_of (options_of re pathspec cfg))
                          (clean_dir (text_of cfg.dockerfile)))
                        (f₀ ∷ l))
                      i e z in
                  let second = by_dir z (ground arith) in
                  rw h (λ x. second.0 (first.0 x), λ x. first.1 (second.1 x))
              | inr h ↦
                  let first = should_rebuild_iff re pathspec f₀ l cfg.paths i e in
                  let second = by_patterns h in
                  rw h (λ x. second.0 (first.0 x), λ x. first.1 (second.1 x))
            ])
