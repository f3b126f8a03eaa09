-- ===== src/Webhook/Passing.antt =====
-- Which pushes the receiver lets through to a build: `push_filter` as a whole.
use mathlib.Core.Path.{subst}
use bay.Prelude.{
  String, Bool, true, false, not, ◌≡◌, ◌≢◌, ◌↔◌, ◌⊎◌, inl, inr, refl, sym, ap, ◌∙◌, some, List, [],
  ◌∷◌, ◌++◌, false≢true, not_true,
}
use bay.Prelude.Assoc.{keep, contains, any, In, In-keep, contains-In, In-contains}
use bay.Prelude.Order.{In-sort}
use bay.PushInputs.{Regex}
use bay.PushInputs.Chosen.{Counts}
use bay.Webhook.Filter.{
  ServiceConfig, Pathspec, Verdict, own_path, clean_paths, at_path, matching, own_config_files,
  includes_of, excludes_of, input_filter, with_others, if_shared, if_own, push_filter,
}
use bay.Webhook.Agrees.{input_filter_iff}
use bay.Webhook.Patterns.{options_of, Reads, Some}

-- The file is one of the entries, or is under one of them.
abbrev pub AtEntry : List String → String → Type 0
AtEntry entries f = any (at_path f) (clean_paths entries) ≡ true

-- a file of the service's own bay.toml
abbrev pub Own : ServiceConfig → String → Type 0
Own cfg f = AtEntry (own_path cfg.bay_toml_path ++ cfg.bay_toml_files) f

-- the bay.toml of another project of the repository
abbrev pub Shared : ServiceConfig → String → Type 0
Shared cfg f = AtEntry cfg.shared_toml_paths f

In-matching :
    (files entries : List String) (f : String)
    → In f (matching files entries) ↔ (In f files × AtEntry entries f)
unfolding matching
In-matching files entries f =
    let sorted = In-sort f (keep (λ g. any (at_path g) (clean_paths entries)) files) in
    let member = In-keep (λ g. any (at_path g) (clean_paths entries)) f files in
    (λ h. member.0 (sorted.0 h), λ h. sorted.1 (member.1 h))

module _ (re : Regex) (pathspec : Pathspec) (cfg : ServiceConfig) where
  -- A push passes: it changes a file of the service's own bay.toml; or it changes the bay.toml of no
  -- other project, and a changed file counts as a build input; or it changes one, and nothing else
  -- but such files, or another file that counts.
  abbrev pub Passes : List String → Type 0
  Passes files =
      Some (Own cfg) files
      ⊎ ((¬ Some (Shared cfg) files) × Some (Counts re (options_of re pathspec cfg)) files)
      ⊎ (Some (Shared cfg) files
          × (((f : String) → In f files → Shared cfg f)
              ⊎ Some (λ f. (¬ Shared cfg f) × Counts re (options_of re pathspec cfg) f) files))

  module _ (reads_in : Reads re pathspec (includes_of pathspec cfg.paths))
      (reads_ex : Reads re pathspec (excludes_of pathspec cfg.paths)) where
    abbrev Count : String → Type 0
    Count = Counts re (options_of re pathspec cfg)

    verdict_iff :
        (l : List String)
        → ((f : String) → In f l → f ≢ "")
        → l ≢ []
        → ((input_filter pathspec l cfg).0 ≡ true) ↔ Some Count l
    verdict_iff [] named ne = absurd (ne refl)
    verdict_iff (f ∷ l) named ne = input_filter_iff re pathspec cfg f l named reads_in reads_ex

    with_others_iff :
        (shared others : List String)
        → ((f : String) → In f others → f ≢ "")
        → ((with_others pathspec shared others (input_filter pathspec others cfg)).0 ≡ true)
          ↔ ((others ≡ []) ⊎ Some Count others)
    with_others_iff shared [] named = (λ h. inl refl, λ x. refl)
    with_others_iff shared (f ∷ l) named =
        let base = verdict_iff (f ∷ l) named cons_nil in
        let same = answer (input_filter pathspec (f ∷ l) cfg) in
        (
          λ h. inr (base.0 (sym same ∙ h)),
          λ x. same ∙ elim x [ inl z ↦ absurd (cons_nil z) | inr c ↦ base.1 c ],
        )
      where
        cons_nil : f ∷ l ≢ []
        cons_nil z = cc

        answer : (v : Verdict) → (with_others pathspec shared (f ∷ l) v).0 ≡ v.0
        answer (true, reason) = refl
        answer (false, reason) = refl

    -- what `if_shared` decides, for the files of other projects' bay.toml
    abbrev IfShared : List String → Type 0
    IfShared files =
        ((¬ Some (Shared cfg) files) × Some Count files)
        ⊎ (Some (Shared cfg) files
            × (((f : String) → In f files → Shared cfg f)
                ⊎ Some (λ f. (¬ Shared cfg f) × Count f) files))

    no_others :
        (q : String → Bool) (l : List String) → keep q l ≡ [] → (f : String) → In f l → q f ≡ false
    no_others q l e f m = not_true (q f) (λ t. subst (In f) e ((In-keep q f l).1 (m, t)))

    all_gone :
        (q : String → Bool) (l : List String)
        → ((f : String) → In f l → q f ≡ false)
        → keep q l ≡ []
    unfolding keep
    all_gone q [] h = refl
    all_gone q (f ∷ l) h = rw (h f (inl refl)) (all_gone q l (λ g m. h g (inr m)))

    others_iff :
        (files shared : List String)
        → ((f : String) → In f shared ↔ (In f files × Shared cfg f))
        → (f : String) → In f files
        → (not (contains shared f) ≡ true) ↔ ¬ Shared cfg f
    others_iff files shared member f m = (
      λ h s. false≢true (ap not (sym (In-contains shared f ((member f).1 (m, s)))) ∙ h),
      λ h. ap not (not_true (contains shared f) (λ t. h ((member f).0 (contains-In shared f t)).1)),
    )

    if_shared_iff :
        (files shared : List String)
        → ((f : String) → In f files → f ≢ "")
        → files ≢ []
        → ((f : String) → In f shared ↔ (In f files × Shared cfg f))
        → ((if_shared pathspec files cfg shared).0 ≡ true) ↔ IfShared files
    if_shared_iff files [] named ne member =
        let base = verdict_iff files named ne in
        let nowhere : ¬ Some (Shared cfg) files = λ x. (member (x.0)).1 (x.1, x.2) in
        (
          λ h. inl (nowhere, base.0 h),
          λ x. elim x [ inl a ↦ base.1 a.1 | inr b ↦ absurd (nowhere b.0) ],
        )
    if_shared_iff files (s ∷ shared) named ne member =
        let q : String → Bool = λ f. not (contains (s ∷ shared) f) in
        let others = keep q files in
        let base =
          with_others_iff (s ∷ shared) others (λ f m. named f ((In-keep q f files).0 m).0) in
        let there : Some (Shared cfg) files =
          (s, ((member s).0 (inl refl)).0, ((member s).0 (inl refl)).1) in
        let other = others_iff files (s ∷ shared) member in
        (
          λ h. elim (base.0 h) [
            | inl gone ↦ inr (
              there,
              inl (λ f m.
                  let kept : contains (s ∷ shared) f ≡ true =
                    is_kept _ (no_others q files gone f m) in
                  ((member f).0 (contains-In (s ∷ shared) f kept)).1),
            )
            | inr c ↦
                let (m, t) = (In-keep q (c.0) files).0 (c.1) in
                inr (there, inr (c.0, m, ((other (c.0) m).0 t, c.2)))
          ],
          λ x. elim x [
            | inl a ↦ absurd (a.0 there)
            | inr b ↦ elim b.1 [
              | inl every ↦ base.1 (
                  inl (
                    all_gone q files
                      (λ f m. ap not (In-contains (s ∷ shared) f ((member f).1 (m, every f m))))))
              | inr c ↦
                  base.1
                    (inr (c.0, (In-keep q (c.0) files).1 (c.1, (other (c.0) c.1).1 c.2.0), c.2.1))
            ]
          ],
        )
      where
        is_kept : (b : Bool) → not b ≡ false → b ≡ true
        is_kept true h = refl
        is_kept false h = absurd (false≢true (sym h))

    if_own_iff :
        (files own : List String)
        → ((f : String) → In f files → f ≢ "")
        → files ≢ []
        → ((f : String) → In f own ↔ (In f files × Own cfg f))
        → ((if_own pathspec files cfg own (matching files cfg.shared_toml_paths)).0 ≡ true)
          ↔ Passes files
    if_own_iff files [] named ne member =
        let base =
          if_shared_iff files (matching files cfg.shared_toml_paths) named ne
            (In-matching files cfg.shared_toml_paths) in
        (
          λ h. inr (base.0 h),
          λ x. elim x [
            | inl own ↦ absurd ((member (own.0)).1 (own.1, own.2))
            | inr rest ↦ base.1 rest
          ],
        )
    if_own_iff files (f ∷ own) named ne member =
        let (m, is_own) = (member f).0 (inl refl) in (λ h. inl (f, m, is_own), λ x. refl)

    -- Let no changed file have an empty name, and let the library read the patterns of the entry and
    -- match what pushinputs.py matches. A push that changes a file goes to a build exactly if it
    -- changes a config file of the service; or no bay.toml of another project, and some file that
    -- counts as a build input; or one, and then nothing else, or another file that counts.
    pub push_filter_iff :
        (f : String) (files : List String)
        → ((g : String) → In g (f ∷ files) → g ≢ "")
        → ((push_filter pathspec (f ∷ files) (some cfg)).0 ≡ true) ↔ Passes (f ∷ files)
    unfolding push_filter own_config_files
    push_filter_iff f files named =
        if_own_iff (f ∷ files) (own_config_files (f ∷ files) cfg) named cons_nil
          (In-matching (f ∷ files) (own_path cfg.bay_toml_path ++ cfg.bay_toml_files))
      where
        cons_nil : f ∷ files ≢ []
        cons_nil z = cc
