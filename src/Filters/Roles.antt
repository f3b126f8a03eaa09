-- ===== src/Filters/Roles.antt =====
-- The role that the map gives to each service.
use mathlib.Core.Path.{subst}
use bay.Prelude.{
  ℕ, String, true, false, ◌≡◌, ◌⊎◌, inl, inr, refl, sym, ap, ◌∙◌, Option, some, List, [], ◌∷◌, ◌==◌,
  string_eq, Bool-cases, eq_iff, false≢true, not_true,
}
use bay.Prelude.Assoc.{
  Assoc, insert, lookup, lookup-insert, length, contains, In, contains-In, In-contains,
}
use bay.Filters.{Build, Service}
use bay.Filters.Keys.{names_for-In}
use bay.Filters.Consumers.{names_for}
use bay.Filters.Groups.{
  Role, identity_of, owns, primary_of, group_roles, all_roles, groups_from, bay_build_dedup_map,
  Leads, primary_by-Leads, Grouped, groups-Grouped, Same, groups_iff,
}

module _ (identity : Option Build → String) (services : Assoc Service) where
  -- The row of a name: it is in the result with a primary that leads the group.
  abbrev Row : String → List String → Assoc Role → Type 0
  Row x group result =
      (r : Role) × (lookup x result ≡ some r)
      × (r.primary_svc ≡ primary_of identity services group)
      × (r.primary ≡ (x == primary_of identity services group))

  insert-Row :
      (x name : String) (l group : List String) (result : Assoc Role) (row : Role)
      → row.primary_svc ≡ primary_of identity services group
      → row.primary ≡ (name == primary_of identity services group)
      → (Row x group result) ⊎ In x (name ∷ l)
      → (Row x group (insert name row result)) ⊎ In x l
  insert-Row x name l group result row p f h = elim (Bool-cases (name == x)) [
    | inl e ↦
        let same : name ≡ x = (eq_iff name x).0 e in
        let found : lookup x (insert name row result) ≡ some row =
          rw e at (lookup-insert name x row result) in
        inl (row, found, p, f ∙ ap (λ n. n == primary_of identity services group) same)
    | inr e ↦
        let found : lookup x (insert name row result) ≡ lookup x result =
          rw e at (lookup-insert name x row result) in
        elim h [
          | inl r ↦ inl (r.0, found ∙ r.1, r.2, r.3)
          | inr (inl y) ↦ absurd (false≢true (sym e ∙ (eq_iff name x).1 (sym y)))
          | inr (inr m) ↦ inr m
        ]
  ]

  group_roles-Row :
      (primary x : String) (size : ℕ) (l group : List String) (result : Assoc Role)
      → primary ≡ primary_of identity services group
      → (Row x group result) ⊎ In x l
      → Row x group (group_roles identity services primary size l result)
  unfolding group_roles
  group_roles-Row primary x size [] group result p (inl r) = r
  group_roles-Row primary x size [] group result p (inr m) = absurd m
  group_roles-Row primary x size (name ∷ l) group result p h =
      group_roles-Row primary x size l group
        (insert name
          (record { primary = name == primary; primary_svc = primary; group_size = size }) result)
        p
        (insert-Row x name l group result
          (record { primary = name == primary; primary_svc = primary; group_size = size }) p
          (ap (λ q. name == q) p) h)

  group_roles-other :
      (primary x : String) (size : ℕ) (l group : List String) (result : Assoc Role)
      → ¬ In x l
      → Row x group result
      → Row x group (group_roles identity services primary size l result)
  unfolding group_roles
  group_roles-other primary x size [] group result out r = r
  group_roles-other primary x size (name ∷ l) group result out r =
      let row : Role = record {
        primary = name == primary;
        primary_svc = primary;
        group_size = size;
      } in
      let other : (name == x) ≡ false =
        not_true (name == x) (λ t. out (inl (sym ((eq_iff name x).0 t)))) in
      let found : lookup x (insert name row result) ≡ lookup x result =
        rw other at (lookup-insert name x row result) in
      group_roles-other primary x size l group (insert name row result) (λ m. out (inr m))
        (r.0, found ∙ r.1, r.2, r.3)

  all_roles-Row :
      (D d : Assoc (List String)) (x : String) (result : Assoc Role)
      → In x (names_for (identity_of identity services x) D)
      → Grouped identity services D d
      → (Row x (names_for (identity_of identity services x) D) result)
        ⊎ ((id : String) × In (id, names_for (identity_of identity services x) D) d)
      → Row x (names_for (identity_of identity services x) D) (all_roles identity services d result)
  unfolding all_roles
  all_roles-Row D [] x result here g (inl r) = r
  all_roles-Row D [] x result here g (inr y) = absurd (y.1)
  all_roles-Row D ((id, group) ∷ d) x result here g h =
      let G = names_for (identity_of identity services x) D in
      let later : Grouped identity services D d = λ i gr m y n. g i gr (inr m) y n in
      elim (Bool-cases (contains group x)) [
        | inl c ↦
            let same : G ≡ group = g id group (inl refl) x (contains-In group x c) in
            all_roles-Row D d x _ here later (
              inl (
                group_roles-Row (primary_of identity services group) x (length group) group G result
                  (ap (primary_of identity services) (sym same)) (inr (contains-In group x c))))
        | inr c ↦
            let out : ¬ In x group = λ m. false≢true (sym c ∙ In-contains group x m) in
            elim h [
              | inl r ↦ all_roles-Row D d x _ here later (
                  inl (
                    group_roles-other (primary_of identity services group) x (length group) group G
                      result out r))
              | inr (i, inl e) ↦ absurd (out (subst (In x) (ap (λ p. p.1) e) here))
              | inr (i, inr m) ↦ all_roles-Row D d x _ here later (inr (i, m))
            ]
      ]

  -- Among the names of a list, the services with the build of a given one: the primary is one of
  -- them, and has a build of its own if some of them has.
  abbrev pub Primary : List String → String → String → Type 0
  Primary names x p =
      Same identity services names x p
      × ((owns identity services p ≡ true)
          ⊎ ((n : String) → Same identity services names x n → owns identity services n ≡ false))

  groups-Primary :
      (names : List String) (x p : String)
      → Leads identity services p
          (names_for (identity_of identity services x) (groups_from identity services names []))
      → Primary names x p
  groups-Primary names x p (m, h) = (
    (groups_iff identity services names x p).0 m,
    elim h [
      | inl own ↦ inl own
      | inr none_owns ↦ inr (λ n s. none_owns n ((groups_iff identity services names x n).1 s))
    ],
  )

  -- Two listed services with the same build have a role in the map with the same primary, which is a
  -- listed service with that build and, if one of those has a build of its own, has one; and a
  -- service is marked as the primary exactly if it is that service.
  pub same_primary :
      (names : List String) (x y : String)
      → In x names
      → In y names
      → identity_of identity services x ≡ identity_of identity services y
      → (p : String) × (r : Role) × (s : Role) × Primary names x p
        × (lookup x (bay_build_dedup_map identity services names) ≡ some r)
        × (lookup y (bay_build_dedup_map identity services names) ≡ some s)
        × (r.primary_svc ≡ p)
        × (s.primary_svc ≡ p)
        × (r.primary ≡ (x == p))
        × (s.primary ≡ (y == p))
  unfolding bay_build_dedup_map primary_of
  same_primary names x y mx my same =
      let D = groups_from identity services names [] in
      let G = names_for (identity_of identity services x) D in
      let (r, e, p, f) = row x mx in
      let (s, e', p', f') = row y my in
      let here = (groups_iff identity services names x x).1 (mx, refl) in
      let equal = ap (λ i. primary_of identity services (names_for i D)) (sym same) in
      (
        primary_of identity services G,
        r,
        s,
        groups-Primary names x (primary_of identity services G)
            (primary_by-Leads identity services G _ x here refl),
        e,
        e',
        p,
        p' ∙ equal,
        f,
        f' ∙ ap (λ q. y == q) equal,
      )
    where
      row :
          (z : String)
          → In z names
          → Row z
              (names_for (identity_of identity services z) (groups_from identity services names []))
              (all_roles identity services (groups_from identity services names []) [])
      row z m =
          let D = groups_from identity services names [] in
          let here = (groups_iff identity services names z z).1 (m, refl) in
          all_roles-Row D D z [] here (groups-Grouped identity services names) (
            inr (
              identity_of identity services z,
              names_for-In D (identity_of identity services z) z _ refl here,
            ))
