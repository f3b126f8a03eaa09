-- ===== src/Tests/Pulling.antt =====
-- A pull signal on a host with two services of one image.
use bay.Prelude.{String, ◌≡◌, ◌↔◌, none, some, List, [], ◌∷◌, if◌then◌else◌}
use bay.Prelude.Assoc.{Assoc, lookup, In, contains}
use bay.Filters.{Service, no_service, bay_image_consumers}
use bay.Filters.Consumers.{Uses}
use bay.Webhook.Front.{pull_text, pull_image, valid_revision, valid_time}
use bay.Webhook.Pulls.{pull_image_lem}

abbrev services : Assoc Service
services =
    ("shop-de", record no_service { image = "shop:latest" })
    ∷ ("shop-es", record no_service { image = "shop:latest" })
    ∷ ("db", record no_service { image = "postgres:16" })
    ∷ []

abbrev host : List String
host = "shop-es" ∷ "shop-de" ∷ "db" ∷ []

pull_image_lem_example :
    (In "shop-de"
        ((pull_image (bay_image_consumers services host) "id-1" "shop:latest" "" none []).0)
      ↔ (In {A = String} "shop-de" host × Uses services "shop:latest" "shop-de"))
    × (lookup "shop-de"
          ((pull_image (bay_image_consumers services host) "id-1" "shop:latest" "" none []).1)
        ≡ (if contains
              ((pull_image (bay_image_consumers services host) "id-1" "shop:latest" "" none []).0)
              "shop-de"
            then some (pull_text "id-1" (valid_revision "") (valid_time none))
            else lookup "shop-de" []))
pull_image_lem_example = pull_image_lem services host "id-1" "shop:latest" "" none [] "shop-de"
