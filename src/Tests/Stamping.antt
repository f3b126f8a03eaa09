-- ===== src/Tests/Stamping.antt =====
-- receipt.py on a row of the sample service.
use bay.Prelude.{String, ◌≡◌, ◌≢◌, false, some, [], ◌∷◌}
use bay.Prelude.Assoc.{Assoc, lookup}
use bay.Json.{Value, text, bool}
use bay.Receipt.{stamp_row, commit_or_none, of_option}
use bay.Receipt.Stamp.{stamp_row_lem}

abbrev deployed : Assoc Value
deployed = ("name", text "web") ∷ ("image", text "repo/web:1") ∷ ("failed", bool false) ∷ []

stamp_row_lem_example :
    (lookup "image" (stamp_row (some "0123456789ab") "repo/web:2" deployed)
      ≡ some (text "repo/web:2"))
    × (lookup "commit" (stamp_row (some "0123456789ab") "repo/web:2" deployed)
        ≡ some (commit_or_none (of_option (some "0123456789ab"))))
    × (lookup "image_ref" (stamp_row (some "0123456789ab") "repo/web:2" deployed)
        ≡ some (text "repo/web:1"))
    × ((key : String)
        → key ≢ "image"
        → key ≢ "image_ref"
        → key ≢ "commit"
        → key ≢ "commit_source"
        → key ≢ "commit_tags"
        → lookup key (stamp_row (some "0123456789ab") "repo/web:2" deployed) ≡ lookup key deployed)
unfolding lookup
stamp_row_lem_example = stamp_row_lem (some "0123456789ab") "repo/web:2" deployed
