-- ===== src/Filters/Candidates.antt =====
-- The candidates of `bay_push_siblings` of bay_filters.py, by the fields of their builds.
use mathlib.Core.Option.{some-injective}
use bay.Prelude.{
  String, Bool, true, false, not, ◌&&◌, ◌≡◌, ◌≢◌, ◌↔◌, inl, inr, refl, sym, ap, ◌∙◌, Option, none,
  some, [], ◌∷◌, ◌==◌, string_eq, list_eq, Bool-cases, arith, eq_iff, false≢true, not_true,
}
use bay.Prelude.Assoc.{Assoc, In}
use bay.Prelude.Text.{is_empty_iff}
use bay.Filters.{Build, Service, Project, toml, project, push_project}
use bay.Filters.Siblings.{same_project, is_same, candidates}

same_project_iff :
    (p q : Option Project)
    → (same_project p q ≡ true) ↔ ((key : Project) × (p ≡ some key) × (q ≡ some key))
same_project_iff (some (toml a)) (some (toml b)) = (
  λ h. (toml a, refl, ap (λ x. some (toml x)) (sym ((eq_iff a b).0 h))),
  λ (key, e, d). (eq_iff a b).1 (toml_inj a b (some-injective _ _ (e ∙ sym d))),
)
  where
    toml_inj : (a b : String) → toml a ≡ toml b → a ≡ b
    toml_inj a b e = cc
same_project_iff (some (project a)) (some (project b)) = (
  λ h. (project a, refl, ap (λ x. some (project x)) (sym ((eq_iff a b).0 h))),
  λ (key, e, d). (eq_iff a b).1 (project_inj a b (some-injective _ _ (e ∙ sym d))),
)
  where
    project_inj : (a b : String) → project a ≡ project b → a ≡ b
    project_inj a b e = cc
same_project_iff none q = (λ h. cc, λ x. cc (x.1))
same_project_iff (some (toml a)) none = (λ h. cc, λ x. cc (x.2))
same_project_iff (some (project a)) none = (λ h. cc, λ x. cc (x.2))
same_project_iff (some (toml a)) (some (project b)) = (λ h. cc, λ x. cc (x.1, x.2))
same_project_iff (some (project a)) (some (toml b)) = (λ h. cc, λ x. cc (x.1, x.2))

module _ (identity : Option Build → String) (repo_slug : String → String → String) where
  -- The build is one of its own, for the same project, and of the same repository and branch.
  abbrev pub SameBuild : Build → Build → Type 0
  SameBuild own build =
      (build.shared_from ≡ "")
      × ((key : Project) × (push_project build ≡ some key) × (push_project own ≡ some key))
      × (build.repo ≢ "")
      × (repo_slug build.repo build.branch ≡ repo_slug own.repo own.branch)

  is_same_iff :
      (own build : Build)
      → (is_same identity repo_slug own (some build) ≡ true) ↔ SameBuild own build
  is_same_iff own build =
      let key = same_project_iff (push_project build) (push_project own) in
      (
        λ h. (
          (is_empty_iff build.shared_from).0 (ground arith),
          key.0 (ground arith),
          λ e. ground (arith, is_empty_iff build.repo),
          ground
              (arith, eq_iff (repo_slug build.repo build.branch) (repo_slug own.repo own.branch)),
        ),
        λ (unshared, same, named, slug). ground (
          arith,
          is_empty_iff build.shared_from,
          is_empty_iff build.repo,
          key.1 same,
          unshared,
          named,
          eq_iff (repo_slug build.repo build.branch) (repo_slug own.repo own.branch),
          slug,
        ),
      )

  -- Another service of the project, with such a build.
  abbrev pub Candidate : String → Build → Assoc Service → String → Type 0
  Candidate service own services n =
      (n ≢ service)
      × (s : Service) × In (n, s) services
      × ((build : Build) × (s.build ≡ some build) × SameBuild own build)

  picked :
      (own : Build) (o : Option Build)
      → (is_same identity repo_slug own o ≡ true)
        ↔ ((build : Build) × (o ≡ some build) × SameBuild own build)
  picked own none = (λ h. cc, λ x. cc (x.1))
  picked own (some build) = (
    λ h. (build, refl, (is_same_iff own build).0 h),
    λ (b, e, same). ap (is_same identity repo_slug own) e ∙ (is_same_iff own b).1 same,
  )

  pub candidates_iff :
      (service : String) (own : Build) (services : Assoc Service) (n : String)
      → In n (candidates identity repo_slug service own services) ↔ Candidate service own services n
  unfolding candidates
  candidates_iff service own [] n = (λ m. absurd m, λ x. absurd (x.2))
  candidates_iff service own ((name, s) ∷ l) n =
      let ih = candidates_iff service own l n in
      let here = picked own s.build in
      elim (Bool-cases (not (name == service) && is_same identity repo_slug own s.build)) [
        | inl e ↦ rw e (
          λ h. elim h [
            | inl d ↦ (
              λ z. absurd (false≢true (sym (apart e) ∙ (eq_iff name service).1 (sym d ∙ z))),
              s,
              inl (ap (λ y. (y, s)) d),
              here.0 (ground arith),
            )
            | inr m ↦ let (ne, t, k, b) = ih.0 m in (ne, t, inr k, b)
          ],
          λ (ne, t, k, b). elim k [
            | inl d ↦ inl (ap (λ y. y.0) d)
            | inr k ↦ inr (ih.1 (ne, t, k, b))
          ],
        )
        | inr e ↦ rw e (
          λ m. let (ne, t, k, b) = ih.0 m in (ne, t, inr k, b),
          λ (ne, t, k, b). elim k [
            | inl d ↦ absurd (
                false≢true (
                  sym e
                  ∙ both
                      (not_true (name == service)
                        (λ q. ne (ap (λ y. y.0) d ∙ (eq_iff name service).0 q)))
                      (here.1 (b.0, ap (λ y. y.1.build) (sym d) ∙ b.1, b.2))))
            | inr k ↦ ih.1 (ne, t, k, b)
          ],
        )
      ]
    where
      apart :
          (not (name == service) && is_same identity repo_slug own s.build) ≡ true
          → (name == service) ≡ false
      apart e = ground arith

      both : {a b : Bool} → a ≡ false → b ≡ true → (not a && b) ≡ true
      both e d = ground arith
