-- ===== src/Webhook/Unreadable.antt =====
-- A push is never dropped because the patterns of an entry cannot be read.
use bay.Prelude.{
  String, true, false, not, ◌&&◌, ◌≡◌, refl, ap, Option, none, some, List, [], ◌∷◌, if◌then◌else◌,
  arith,
}
use bay.Prelude.Text.{is_empty}
use bay.Prelude.Result.{Exn, err}
use bay.Webhook.Filter.{
  Paths, ServiceConfig, Pathspec, Verdict, is_nil, including, should_rebuild, includes_of,
  input_filter, with_others, if_shared, if_own, own_config_files, matching, push_filter,
  clean_or_empty,
}

module _ (pathspec : Pathspec) (p : String) (ps : List String) (e : Exn) where
  patterns_pass :
      (files inc exc : List String) (text : String)
      → inc ≡ p ∷ ps
      → pathspec.from_lines (p ∷ ps) ≡ err e
      → (if is_nil inc && is_nil exc then (true, text) else including pathspec files inc exc).0
        ≡ true
  patterns_pass files inc exc text is bad = rw (is, bad) refl

  should_rebuild_passes :
      (f : String) (files : List String) (o : Option Paths)
      → includes_of pathspec o ≡ p ∷ ps
      → pathspec.from_lines (p ∷ ps) ≡ err e
      → (should_rebuild pathspec (f ∷ files) o).0 ≡ true
  unfolding should_rebuild
  should_rebuild_passes f files none is bad = refl
  should_rebuild_passes f files (some q) is bad =
      patterns_pass (f ∷ files) q.include q.exclude _ is bad

  not_nil : (l : List String) → l ≡ p ∷ ps → is_nil l ≡ false
  not_nil l h = ap is_nil h

  input_filter_passes :
      (f : String) (files : List String) (cfg : ServiceConfig)
      → includes_of pathspec cfg.paths ≡ p ∷ ps
      → pathspec.from_lines (p ∷ ps) ≡ err e
      → (input_filter pathspec (f ∷ files) cfg).0 ≡ true
  unfolding input_filter
  input_filter_passes f files cfg is bad =
      let rest = should_rebuild_passes f files cfg.paths is bad in
      let picks = not_nil (includes_of pathspec cfg.paths) is in
      let no_context : (not (is_empty (clean_or_empty pathspec cfg.context))
            && is_nil (includes_of pathspec cfg.paths))
          ≡ false =
        ground arith in
      rw no_context rest

  others_pass :
      (shared others : List String) (cfg : ServiceConfig)
      → includes_of pathspec cfg.paths ≡ p ∷ ps
      → pathspec.from_lines (p ∷ ps) ≡ err e
      → (with_others pathspec shared others (input_filter pathspec others cfg)).0 ≡ true
  others_pass shared [] cfg is bad = refl
  others_pass shared (f ∷ others) cfg is bad =
      passes (input_filter pathspec (f ∷ others) cfg) (input_filter_passes f others cfg is bad)
    where
      passes : (v : Verdict) → v.0 ≡ true → (with_others pathspec shared (f ∷ others) v).0 ≡ true
      passes (true, reason) h = refl
      passes (false, reason) h = h

  shared_pass :
      (f : String) (files shared : List String) (cfg : ServiceConfig)
      → includes_of pathspec cfg.paths ≡ p ∷ ps
      → pathspec.from_lines (p ∷ ps) ≡ err e
      → (if_shared pathspec (f ∷ files) cfg shared).0 ≡ true
  shared_pass f files [] cfg is bad = input_filter_passes f files cfg is bad
  shared_pass f files (s ∷ shared) cfg is bad = others_pass (s ∷ shared) _ cfg is bad

  own_pass :
      (f : String) (files own shared : List String) (cfg : ServiceConfig)
      → includes_of pathspec cfg.paths ≡ p ∷ ps
      → pathspec.from_lines (p ∷ ps) ≡ err e
      → (if_own pathspec (f ∷ files) cfg own shared).0 ≡ true
  own_pass f files [] shared cfg is bad = shared_pass f files shared cfg is bad
  own_pass f files (g ∷ own) shared cfg is bad = refl

  -- If the library cannot read the include patterns of an entry, a push that changes a file passes.
  pub push_filter_unreadable :
      (f : String) (files : List String) (cfg : ServiceConfig)
      → includes_of pathspec cfg.paths ≡ p ∷ ps
      → pathspec.from_lines (p ∷ ps) ≡ err e
      → (push_filter pathspec (f ∷ files) (some cfg)).0 ≡ true
  unfolding push_filter
  push_filter_unreadable f files cfg is bad =
      own_pass f files (own_config_files (f ∷ files) cfg)
        (matching (f ∷ files) cfg.shared_toml_paths) cfg is bad
