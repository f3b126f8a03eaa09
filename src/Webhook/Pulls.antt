-- ===== src/Webhook/Pulls.antt =====
-- A pull signal and the map of images that the playbooks render for the receiver.
use bay.Prelude.{
  String, ◌≡◌, ◌↔◌, inl, inr, refl, ◌∙◌, Option, some, List, [], ◌∷◌, ◌==◌, string_eq,
  if◌then◌else◌, Bool-cases,
}
use bay.Prelude.Assoc.{Assoc, insert, lookup, lookup-insert, In, contains}
use bay.Prelude.Int.{ℤ}
use bay.Filters.{Service, bay_image_consumers}
use bay.Filters.Consumers.{names_for, Uses, bay_image_consumers_iff}
use bay.Webhook.Front.{pull_text, write_all, pull_image, valid_revision, valid_time}

lookup-write_all :
    (text x : String) (l : List String) (triggers : Assoc String)
    → lookup x (write_all text l triggers) ≡ (if contains l x then some text else lookup x triggers)
unfolding write_all contains
lookup-write_all text x [] triggers = refl
lookup-write_all text x (name ∷ l) triggers =
    let rest = lookup-write_all text x l (insert name text triggers) in
    let new = lookup-insert name x text triggers in
    elim (Bool-cases (name == x)) [
      | inl e ↦ elim (Bool-cases (contains l x)) [
        | inl c ↦ rw e (rw c at rest)
        | inr c ↦ rw e ((rw c at rest) ∙ (rw e at new))
      ]
      | inr e ↦ elim (Bool-cases (contains l x)) [
        | inl c ↦ rw (e, c) (rw c at rest)
        | inr c ↦ rw (e, c) ((rw c at rest) ∙ (rw e at new))
      ]
    ]

-- When the receiver has the map of the services of its host and can write its triggers, a pull
-- signal for an image triggers exactly the services of the host that use the image, and leaves the
-- triggers of all others.
pub pull_image_lem :
    (services : Assoc Service) (host : List String) (corr image revision : String)
    (built_at : Option ℤ) (triggers : Assoc String) (x : String)
    → (In x
          ((pull_image (bay_image_consumers services host) corr image revision built_at triggers).0)
        ↔ (In x host × Uses services image x))
      × (lookup x (
            (pull_image
              (bay_image_consumers services host)
              corr
              image
              revision
              built_at
              triggers).1)
          ≡ (if contains
                ((pull_image
                  (bay_image_consumers services host)
                  corr
                  image
                  revision
                  built_at
                  triggers).0)
                x
              then some (pull_text corr (valid_revision revision) (valid_time built_at))
              else lookup x triggers))
unfolding pull_image
pull_image_lem services host corr image revision built_at triggers x = (
  bay_image_consumers_iff services host image x,
  lookup-write_all (pull_text corr (valid_revision revision) (valid_time built_at)) x
      (names_for image (bay_image_consumers services host)) triggers,
)
