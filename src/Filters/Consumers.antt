-- ===== src/Filters/Consumers.antt =====
-- Which services the map of image consumers names.
use mathlib.Core.Path.{subst}
use bay.Prelude.{
  String, false, ◌≡◌, ◌↔◌, ◌⊎◌, inl, inr, refl, sym, ap, ◌∙◌, some, List, [], ◌∷◌, ◌++◌, ◌==◌,
  string_eq, if◌then◌else◌, Bool-cases, eq_iff, false≢true,
}
use bay.Prelude.Assoc.{Assoc, insert, lookup, lookup-insert, In, In-append_iff}
use bay.Prelude.Order.{In-sort}
use bay.Prelude.Text.{is_empty}
use bay.Filters.{
  Service, service_of, or_nil, add_to, consumers_from, sort_groups, bay_image_consumers,
}

-- The names that the map has for an image.
abbrev pub names_for : String → Assoc (List String) → List String
names_for image d = or_nil (lookup image d)

-- The service has the image, which is set.
abbrev pub Uses : Assoc Service → String → String → Type 0
Uses services image name = (is_empty image ≡ false) × ((service_of services name).image ≡ image)

pub names_for-add_to :
    (key name image : String) (d : Assoc (List String)) (x : String)
    → In x (names_for image (add_to key name d))
      ↔ (In x (names_for image d) ⊎ ((x ≡ name) × (key ≡ image)))
unfolding add_to
names_for-add_to key name image d x = elim (Bool-cases (key == image)) [
  | inl e ↦
      let same : key ≡ image = (eq_iff key image).0 e in
      let v = or_nil (lookup key d) ++ (name ∷ []) in
      let found : lookup image (insert key v d) ≡ some v = rw e at (lookup-insert key image v d) in
      rw found (
        λ h. elim ((In-append_iff x (or_nil (lookup key d)) (name ∷ [])).0 h) [
          | inl m ↦ inl (subst (λ k. In x (or_nil (lookup k d))) same m)
          | inr (inl y) ↦ inr (y, same)
          | inr (inr z) ↦ absurd z
        ],
        λ h. (In-append_iff x (or_nil (lookup key d)) (name ∷ [])).1 (elim h [
          | inl m ↦ inl (subst (λ k. In x (or_nil (lookup k d))) (sym same) m)
          | inr y ↦ inr (inl y.0)
        ]),
      )
  | inr e ↦
      let v = or_nil (lookup key d) ++ (name ∷ []) in
      let kept : lookup image (insert key v d) ≡ lookup image d =
        rw e at (lookup-insert key image v d) in
      rw kept (
        λ h. inl h,
        λ h. elim h [ inl m ↦ m | inr y ↦ absurd (false≢true (sym e ∙ (eq_iff key image).1 y.1)) ],
      )
]

-- what one service adds to the map
step_iff :
    (services : Assoc Service) (name image : String) (d : Assoc (List String)) (x own : String)
    → (service_of services name).image ≡ own
    → In x (names_for image (if is_empty own then d else add_to own name d))
      ↔ (In x (names_for image d) ⊎ ((x ≡ name) × Uses services image name))
step_iff services name image d x own own_is = elim (Bool-cases (is_empty own)) [
  | inl e ↦ rw e (
    λ h. inl h,
    λ h. elim h [
      | inl m ↦ m
      | inr y ↦
          let same : own ≡ image = sym own_is ∙ y.1.1 in
          absurd (false≢true (sym (ap is_empty same ∙ y.1.0) ∙ e))
    ],
  )
  | inr e ↦
      let base = names_for-add_to own name image d x in
      rw e (
        λ h. elim (base.0 h) [
          | inl m ↦ inl m
          | inr y ↦ inr (y.0, (ap is_empty (sym y.1) ∙ e, own_is ∙ y.1))
        ],
        λ h. base.1 (elim h [ inl m ↦ inl m | inr y ↦ inr (y.0, sym own_is ∙ y.1.1) ]),
      )
]

consumers_from_iff :
    (services : Assoc Service) (names : List String) (image x : String) (d : Assoc (List String))
    → In x (names_for image (consumers_from services names d))
      ↔ (In x (names_for image d) ⊎ (In x names × Uses services image x))
unfolding consumers_from
consumers_from_iff services [] image x d =
    (λ h. inl h, λ h. elim h [ inl m ↦ m | inr y ↦ absurd y.0 ])
consumers_from_iff services (name ∷ l) image x d =
    let own = (service_of services name).image in
    let first = step_iff services name image d x own refl in
    let rest =
      consumers_from_iff services l image x (if is_empty own then d else add_to own name d) in
    (
      λ h. elim (rest.0 h) [
        | inl m ↦ elim (first.0 m) [
          | inl old ↦ inl old
          | inr y ↦ inr (inl y.0, subst (Uses services image) (sym y.0) y.1)
        ]
        | inr y ↦ inr (inr y.0, y.1)
      ],
      λ h. elim h [
        | inl m ↦ rest.1 (inl (first.1 (inl m)))
        | inr (inl e, u) ↦ rest.1 (inl (first.1 (inr (e, subst (Uses services image) e u))))
        | inr (inr m, u) ↦ rest.1 (inr (m, u))
      ],
    )

names_for-sort_groups :
    (image x : String) (d : Assoc (List String))
    → In x (names_for image (sort_groups d)) ↔ In x (names_for image d)
unfolding sort_groups lookup
names_for-sort_groups image x [] = (λ h. h, λ h. h)
names_for-sort_groups image x ((key, names) ∷ d) = elim (Bool-cases (key == image)) [
  | inl e ↦ rw e (In-sort x names)
  | inr e ↦ rw e (names_for-sort_groups image x d)
]

-- The map of image consumers names, for every image, exactly the given services that use it; an
-- empty image has none.
pub bay_image_consumers_iff :
    (services : Assoc Service) (names : List String) (image x : String)
    → In x (names_for image (bay_image_consumers services names))
      ↔ (In x names × Uses services image x)
unfolding bay_image_consumers lookup
bay_image_consumers_iff services names image x =
    let sorted = names_for-sort_groups image x (consumers_from services names []) in
    let found = consumers_from_iff services names image x [] in
    (
      λ h. elim (found.0 (sorted.0 h)) [ inl z ↦ absurd z | inr y ↦ y ],
      λ h. sorted.1 (found.1 (inr h)),
    )
