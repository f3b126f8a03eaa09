-- ===== src/Filters/Same.antt =====
-- Which services `bay_push_siblings` of bay_filters.py names.
use mathlib.Core.Path.{subst}
use mathlib.Core.Option.{some-injective}
use bay.Prelude.{
  String, Bool, true, false, not, ◌&&◌, ◌≡◌, ◌≢◌, ◌↔◌, ◌⊎◌, inl, inr, refl, sym, ap, ◌∙◌, Option,
  none, some, List, ◌∷◌, string_eq, list_eq, Bool-cases, arith, false≢true, not_true,
}
use bay.Prelude.Assoc.{Assoc, keep, contains, contains-In, In-contains, In, In-keep}
use bay.Prelude.Order.{In-sort}
use bay.Prelude.Sort.{sort}
use bay.Prelude.Text.{is_empty, is_empty_iff}
use bay.Filters.{Build, Service, Project, service_of, push_project}
use bay.Filters.Siblings.{
  candidates, reached_by, alias_of, with_project, with_build, bay_push_siblings,
}
use bay.Filters.Candidates.{Candidate, candidates_iff}

module _ (identity : Option Build → String) (repo_slug : String → String → String) where
  -- The service is a member of a build group whose primary the push builds too, in the same regions.
  abbrev pub Reached : Assoc Service → String → String → Build → String → Type 0
  Reached services service strategy own n =
      (primary : String) × (alias_of identity repo_slug services strategy n ≡ some primary)
      × ((primary ≡ service) ⊎ Candidate identity repo_slug service own services primary)
      × ((service_of services n).regions ≡ (service_of services primary).regions)

  group_iff :
      (service : String) (own : Build) (services : Assoc Service) (k : String)
      → (contains (service ∷ candidates identity repo_slug service own services) k ≡ true)
        ↔ ((k ≡ service) ⊎ Candidate identity repo_slug service own services k)
  group_iff service own services k =
      let names = candidates identity repo_slug service own services in
      let found = candidates_iff identity repo_slug service own services k in
      (
        λ h. elim (contains-In (service ∷ names) k h) [ inl e ↦ inl e | inr m ↦ inr (found.0 m) ],
        λ x. In-contains (service ∷ names) k (elim x [ inl e ↦ inl e | inr c ↦ inr (found.1 c) ]),
      )

  reached_by_iff :
      (services : Assoc Service) (service strategy : String) (own : Build) (n : String)
      → (reached_by identity repo_slug services
            (service ∷ candidates identity repo_slug service own services)
            n
            (alias_of identity repo_slug services strategy n)
          ≡ true)
        ↔ Reached services service strategy own n
  reached_by_iff services service strategy own n =
      by (alias_of identity repo_slug services strategy n) refl
    where
      names : List String
      names = service ∷ candidates identity repo_slug service own services

      both : {a b : Bool} → a ≡ true → b ≡ true → (a && b) ≡ true
      both e d = ground arith

      by :
          (o : Option String)
          → alias_of identity repo_slug services strategy n ≡ o
          → (reached_by identity repo_slug services names n o ≡ true)
            ↔ Reached services service strategy own n
      by none e = (λ h. cc, λ (p, d, x, same). cc)
      by (some primary) e =
          let listed = group_iff service own services primary in
          let regions =
            list_eq.test_iff (service_of services n).regions
              (service_of services primary).regions in
          (
            λ h. (primary, e, listed.0 (ground arith), regions.0 (ground arith)),
            λ (p, d, x, same).
                let at : p ≡ primary = some-injective _ _ (sym d ∙ e) in
                both
                  (listed.1 (
                    subst (λ k. (k ≡ service) ⊎ Candidate identity repo_slug service own services k)
                      at x))
                  (regions.1 (same ∙ ap (λ k. (service_of services k).regions) at)),
          )

  -- The build of the service names a project and a repository; the other one is a candidate that is
  -- not reached.
  abbrev pub Fits : Assoc Service → String → String → String → Build → Type 0
  Fits services service strategy n own =
      ((key : Project) × (push_project own ≡ some key))
      × (own.repo ≢ "")
      × Candidate identity repo_slug service own services n
      × ¬ Reached services service strategy own n

  abbrev pub Sibling : Assoc Service → String → String → String → Type 0
  Sibling services service strategy n =
      (own : Build) × ((service_of services service).build ≡ some own)
      × Fits services service strategy n own

  kept_iff :
      (services : Assoc Service) (service strategy : String) (own : Build) (n : String)
      → In n (
          sort (
            keep
              (λ k. not (
                reached_by identity repo_slug services
                  (service ∷ candidates identity repo_slug service own services)
                  k
                  (alias_of identity repo_slug services strategy k)))
              (candidates identity repo_slug service own services)))
        ↔ (Candidate identity repo_slug service own services n
            × ¬ Reached services service strategy own n)
  kept_iff services service strategy own n =
      let names = candidates identity repo_slug service own services in
      let q : String → Bool = λ k. not (
        reached_by identity repo_slug services (service ∷ names) k
          (alias_of identity repo_slug services strategy k)) in
      let found = candidates_iff identity repo_slug service own services n in
      let reached = reached_by_iff services service strategy own n in
      (
        λ m.
            let (here, t) = (In-keep q n names).0 ((In-sort n (keep q names)).0 m) in
            (found.0 here, λ r. false≢true (sym (denied t) ∙ reached.1 r)),
        λ (c, r).
            (In-sort n (keep q names)).1
              ((In-keep q n names).1 (found.1 c, allowed (λ e. r (reached.0 e)))),
      )
    where
      denied : {b : Bool} → not b ≡ true → b ≡ false
      denied e = ground arith

      allowed : {b : Bool} → ¬ (b ≡ true) → not b ≡ true
      allowed {b} ne = ap not (not_true b ne)

  with_project_iff :
      (services : Assoc Service) (service strategy n : String) (own : Build) (o : Option Project)
      → push_project own ≡ o
      → In n (with_project identity repo_slug services service strategy own o)
        ↔ Fits services service strategy n own
  with_project_iff services service strategy n own none e = (λ m. absurd m, λ x. cc (e, x.0.1))
  with_project_iff services service strategy n own (some key) e =
      let kept = kept_iff services service strategy own n in
      let blank = is_empty_iff own.repo in
      elim (Bool-cases (is_empty own.repo)) [
        | inl t ↦ rw t (λ m. absurd m, λ (k, named, c, r). absurd (named (blank.0 t)))
        | inr t ↦ rw t (
          λ m. let (c, r) = kept.0 m in ((key, e), λ z. false≢true (sym t ∙ blank.1 z), c, r),
          λ (k, named, c, r). kept.1 (c, r),
        )
      ]

  -- A push to a service must also build another one exactly where the service has a build, with a
  -- project and a repository, and the other one is a service of the inventory, not the same one, with
  -- a build of its own (not a shared one) for the same project, and of a repository, which with its
  -- branch has the same slug as that of the service. Left out are those that the build of another
  -- service reaches: local builds that share the build of a primary, where that primary is the service
  -- itself or is such a service too, and has the same list of regions.
  pub bay_push_siblings_iff :
      (services : Assoc Service) (service strategy n : String)
      → In n (bay_push_siblings identity repo_slug services service strategy)
        ↔ Sibling services service strategy n
  unfolding bay_push_siblings
  bay_push_siblings_iff services service strategy n = by (service_of services service).build refl
    where
      by :
          (o : Option Build)
          → (service_of services service).build ≡ o
          → In n (with_build identity repo_slug services service strategy o)
            ↔ Sibling services service strategy n
      by none e = (λ m. absurd m, λ x. cc (e, x.1))
      by (some own) e =
          let rest = with_project_iff services service strategy n own (push_project own) refl in
          (
            λ m. (own, e, rest.0 m),
            λ (b, d, x).
                let at : b ≡ own = some-injective _ _ (sym d ∙ e) in
                rest.1 (subst (Fits services service strategy n) at x),
          )
