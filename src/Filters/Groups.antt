-- ===== src/Filters/Groups.antt =====
-- Which service builds for a group of services with the same build: `bay_build_dedup_map`. Each name
-- that it gets is taken to have an entry, whose build is not null.
use mathlib.Core.Path.{subst}
use bay.Prelude.{
  ℕ, String, Bool, true, false, not, ◌≡◌, ◌↔◌, ◌⊎◌, inl, inr, refl, sym, ap, ◌∙◌, Option, none,
  some, List, [], ◌∷◌, ◌==◌, string_eq, not_true,
}
use bay.Prelude.Assoc.{Assoc, insert, lookup, keep, length, distinct, In, In-keep}
use bay.Prelude.Text.{is_empty}
use bay.Filters.{Build, Service, service_of, or_nil, add_to}
use bay.Filters.Keys.{keys, distinct-insert, lookup-distinct}
use bay.Filters.Consumers.{names_for, names_for-add_to}

-- The role of a service in its group.
pub record Role : Type 0 where
  pub primary : Bool
  pub primary_svc : String
  pub group_size : ℕ

abbrev pub shares : Option Build → Bool
shares none = false
shares (some build) = not (is_empty build.shared_from)

abbrev pub first_or : String → List String → String
first_or name [] = name
first_or name (n ∷ l) = n

-- `(owners or group)[0]`
abbrev pub primary_by : List String → List String → String
primary_by group [] = first_or "" group
primary_by group (n ∷ owners) = n

module _ (identity : Option Build → String) (services : Assoc Service) where
  -- `_build_identity` of the build of a service
  abbrev pub identity_of : String → String
  identity_of name = identity (service_of services name).build

  -- `identity_groups`
  unfoldable pub groups_from : List String → Assoc (List String) → Assoc (List String)
  groups_from [] d = d
  groups_from (name ∷ l) d = groups_from l (add_to (identity_of name) name d)

  abbrev pub owns : String → Bool
  owns name = not (shares (service_of services name).build)

  unfoldable pub primary_of : List String → String
  primary_of group = primary_by group (keep owns group)

  -- the rows of the names of a group
  unfoldable pub group_roles : String → ℕ → List String → Assoc Role → Assoc Role
  group_roles primary size [] result = result
  group_roles primary size (name ∷ l) result = group_roles primary size l (
      insert name (record { primary = name == primary; primary_svc = primary; group_size = size })
        result)

  unfoldable pub all_roles : Assoc (List String) → Assoc Role → Assoc Role
  all_roles [] result = result
  all_roles ((id, group) ∷ d) result =
      all_roles d (group_roles (primary_of group) (length group) group result)

  -- `bay_build_dedup_map`
  unfoldable pub bay_build_dedup_map : List String → Assoc Role
  bay_build_dedup_map names = all_roles (groups_from names []) []

  pub groups_from_iff :
      (names : List String) (id x : String) (d : Assoc (List String))
      → In x (names_for id (groups_from names d))
        ↔ (In x (names_for id d) ⊎ (In x names × (identity_of x ≡ id)))
  unfolding groups_from
  groups_from_iff [] id x d = (λ h. inl h, λ h. elim h [ inl m ↦ m | inr y ↦ absurd y.0 ])
  groups_from_iff (name ∷ l) id x d =
      let first = names_for-add_to (identity_of name) name id d x in
      let rest = groups_from_iff l id x (add_to (identity_of name) name d) in
      (
        λ h. elim (rest.0 h) [
          | inl m ↦ elim (first.0 m) [
            | inl old ↦ inl old
            | inr y ↦ inr (inl y.0, ap identity_of y.0 ∙ y.1)
          ]
          | inr y ↦ inr (inr y.0, y.1)
        ],
        λ h. elim h [
          | inl m ↦ rest.1 (inl (first.1 (inl m)))
          | inr (inl e, u) ↦ rest.1 (inl (first.1 (inr (e, ap identity_of (sym e) ∙ u))))
          | inr (inr m, u) ↦ rest.1 (inr (m, u))
        ],
      )

  -- The primary of a group is one of its members, and has its own build if some member has one.
  abbrev pub Leads : String → List String → Type 0
  Leads p group = In p group × ((owns p ≡ true) ⊎ ((n : String) → In n group → owns n ≡ false))

  pub primary_by-Leads :
      (group owners : List String) (n : String)
      → In n group
      → keep owns group ≡ owners
      → Leads (primary_by group owners) group
  primary_by-Leads [] owners n m e = absurd m
  primary_by-Leads (g ∷ l) [] n m e = (inl refl, inr none_owns)
    where
      none_owns : (x : String) → In x (g ∷ l) → owns x ≡ false
      none_owns x h = not_true (owns x) (λ t. subst (In x) e ((In-keep owns x (g ∷ l)).1 (h, t)))
  primary_by-Leads group (o ∷ owners) n m e =
      let (h, t) = (In-keep owns o group).0 (subst (In o) (sym e) (inl refl)) in (h, inl t)

  distinct-groups_from :
      (names : List String) (d : Assoc (List String))
      → distinct (keys d) ≡ true
      → distinct (keys (groups_from names d)) ≡ true
  unfolding groups_from add_to
  distinct-groups_from [] d h = h
  distinct-groups_from (name ∷ l) d h =
      distinct-groups_from l (add_to (identity_of name) name d) (distinct-insert _ _ d h)

  -- The services that have the build of a service.
  abbrev pub Same : List String → String → String → Type 0
  Same names x y = In y names × (identity_of y ≡ identity_of x)

  pub groups_iff :
      (names : List String) (x y : String)
      → In y (names_for (identity_of x) (groups_from names [])) ↔ Same names x y
  unfolding lookup
  groups_iff names x y =
      let base = groups_from_iff names (identity_of x) y [] in
      (λ h. elim (base.0 h) [ inl z ↦ absurd z | inr m ↦ m ], λ h. base.1 (inr h))

  -- Every group is that of the identity of its members, in a dictionary `D`.
  abbrev pub Grouped : Assoc (List String) → Assoc (List String) → Type 0
  Grouped D d =
      (id : String) (group : List String)
      → In (id, group) d
      → (x : String) → In x group
      → names_for (identity_of x) D ≡ group

  pub groups-Grouped : (names : List String) → Grouped (groups_from names []) (groups_from names [])
  unfolding lookup distinct
  groups-Grouped names id group m x here =
      let D = groups_from names [] in
      let found : lookup id D ≡ some group =
        lookup-distinct D id group (distinct-groups_from names [] refl) m in
      let named : names_for id D ≡ group = ap or_nil found in
      let base = groups_from_iff names id x [] in
      elim (base.0 (subst (In x) (sym named) here)) [
        | inl z ↦ absurd z
        | inr y ↦ ap (λ i. names_for i D) y.1 ∙ named
      ]
