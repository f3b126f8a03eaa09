-- ===== src/Status.antt =====
-- `_state_after` of __main__.py: status, health, commit and image of every wanted container after the
-- pass. The reads of the daemon are arguments; a failed read is an `err`.
use bay.Prelude.{String, Option, none, some, List, [], ◌∷◌, if◌then◌else◌}
use bay.Prelude.Assoc.{Assoc, lookup, insert}
use bay.Prelude.Result.{Result, ok, err}
use bay.Model.{ContainerSpec, ContainerState, is_set}
use bay.Images.{commit_from_labels, commit_from_tags, own_commit_tags, resolved_image}

-- What the report says of a container.
pub record Seen : Type 0 where
  pub status : Option String
  pub health : Option String
  pub commit : Option String
  pub commit_source : Option String
  pub commit_tags : Option (List String)
  pub image : Option String

-- `image_id` and `image_tags` of the client, where it has them.
pub record Reads : Type 0 where
  pub image_id : Option (String → Result (Option String))
  pub image_tags : Option (String → Result (List String))

-- `list(tags_of(current.image_id))` where it is asked for and can be read
unfoldable pub repo_tags :
    Option (String → Result (List String)) → Option String → Option (List String)
repo_tags (some tags_of) (some id) =
    if is_set (some id) then elim (tags_of id) [ err e ↦ none | ok refs ↦ some refs ] else none
repo_tags tags_of id = none

-- the report by the commit tags of the image that runs
unfoldable pub seen_by_tags :
    ContainerSpec → ContainerState → Option String → Option (List String) → Seen
seen_by_tags spec state image none = record {
  status = state.status;
  health = state.health;
  commit = none;
  commit_source = none;
  commit_tags = none;
  image = image;
}
seen_by_tags spec state image (some refs) = elim (commit_from_tags refs (some spec.image)) [
  | none ↦ record {
    status = state.status;
    health = state.health;
    commit = none;
    commit_source = none;
    commit_tags = some (own_commit_tags refs (some spec.image));
    image = image;
  }
  | some (commit, ref) ↦ record {
    status = state.status;
    health = state.health;
    commit = some commit;
    commit_source = some "tag";
    commit_tags = some (own_commit_tags refs (some spec.image));
    image = some ref;
  }
]

-- the body of the loop for a container that exists
unfoldable pub seen : Reads → ContainerSpec → ContainerState → Seen
unfolding commit_from_labels repo_tags seen_by_tags
seen reads spec state =
    let commit = commit_from_labels state.labels in
    let image = resolved_image (some spec.image) commit state.image_id reads.image_id in
    elim commit [
      | none ↦ seen_by_tags spec state image (repo_tags reads.image_tags state.image_id)
      | some c ↦ record {
        status = state.status;
        health = state.health;
        commit = some c;
        commit_source = if is_set (some c) then some "label" else none;
        commit_tags = none;
        image = image;
      }
    ]

-- `out[spec.name] = …` for a container that was observed and exists
unfoldable pub put_seen : Reads → ContainerSpec → Option ContainerState → Assoc Seen → Assoc Seen
unfolding seen
put_seen reads spec none out = out
put_seen reads spec (some state) out =
    if state.exists then insert spec.name (seen reads spec state) out else out

unfoldable pub state_from :
    Reads → Assoc ContainerState → Assoc Seen → List ContainerSpec → Assoc Seen
unfolding put_seen lookup
state_from reads observed out [] = out
state_from reads observed out (spec ∷ l) =
    state_from reads observed (put_seen reads spec (lookup spec.name observed) out) l

-- `_state_after`
unfoldable pub state_after : Reads → Result (Assoc ContainerState) → List ContainerSpec → Assoc Seen
unfolding state_from
state_after reads (err e) containers = []
state_after reads (ok observed) containers = state_from reads observed [] containers
