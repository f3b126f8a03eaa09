-- ===== src/Tests/Tagging.antt =====
-- images.py on an image with two tags of the same build.
use bay.Prelude.{String, ◌≡◌, refl, some, List, [], ◌∷◌}
use bay.Prelude.Assoc.{keep}
use bay.Prelude.Sort.{sort, dedup}
use bay.Images.{
  split_ref, is_commit_tag, commit_from_own, commit_from_tags, own_commit_tags, own_tags, own_tag,
  repo_key, naming,
}
use bay.Images.Tags.{Unique, commit_from_tags-Unique}

abbrev local : List String
local =
    "ghcr.io/acme/web:latest" ∷ "ghcr.io/acme/web:0123456789ab" ∷ "ghcr.io/acme/job:ffffffffffff"
    ∷ []

answer :
    commit_from_tags local (some "ghcr.io/acme/web:latest")
    ≡ some ("0123456789ab", "ghcr.io/acme/web:0123456789ab")
unfolding commit_from_tags commit_from_own own_commit_tags own_tags own_tag repo_key naming
    split_ref is_commit_tag sort dedup keep
answer = refl

commit_from_tags-Unique_example :
    Unique local "ghcr.io/acme/web:latest" "0123456789ab" "ghcr.io/acme/web:0123456789ab"
commit_from_tags-Unique_example =
    commit_from_tags-Unique local "ghcr.io/acme/web:latest" "0123456789ab"
      "ghcr.io/acme/web:0123456789ab" answer
