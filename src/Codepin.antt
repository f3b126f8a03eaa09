-- ===== src/Codepin.antt =====
-- codepin.py of src/bay_reconcile: which `:latest` tags a deploy moves to a commit's image. The docker
-- daemon is an `Images` with a state of its own; a method that changes something returns the new
-- state, also where it raises.
pub mod Plan
pub mod Commits
pub mod Lawful
pub mod Good
pub mod Safe
pub mod Lock
pub mod Guard
pub mod Guarded
pub mod Excluded
pub mod Records
use Prim.Native.String
use bay.Prelude.{
  String, Bool, true, false, not, ◌&&◌, ◌||◌, Option, none, some, List, [], ◌∷◌, ◌==◌, string_eq,
  option_eq, if◌then◌else◌,
}
use bay.Prelude.Assoc.{Assoc, lookup, insert, contains, any}
use bay.Prelude.Text.{concat, partition, has_char, is_empty}
use bay.Prelude.Result.{Exn, Result, ok, err}
use bay.Images.{split_ref, is_commit, short, commit_from_labels, own_commit_tags}

-- The Protocol `Images`.
pub record Images : Type 1 where
  pub State : Type 0
  pub image_id : State → String → Option String
  pub pull : State → String → Bool × State
  pub tag : State → String → String → Result (Unit {0}) × State
  pub commit_tags : State → String → List String
  pub container_image : State → String → Option String
  pub image_meta : State → String → Assoc String × List String
  pub labelled : State → String → List (String × Assoc String)

pub data Status : Type 0 where
  retag noop skipped missing : Status

pub record Move : Type 0 where
  pub name : String
  pub status : Status
  pub source : Option String
  pub target : Option String
  pub detail : String
  pub strict : Bool
  pub available : List String

-- A row of the previous receipt: `commit` where it is a text, and `str(image or "")`.
pub record PrevRow : Type 0 where
  pub name : String
  pub commit : Option String
  pub image : String

-- the commit of an image tag
abbrev tag_commit : Option String → Option String
tag_commit none = none
tag_commit (some tag) = if is_commit tag then some (short tag) else none

abbrev row_commit : Option String → String → Option String
row_commit none image = tag_commit ((split_ref image).1)
row_commit (some commit) image =
    if is_commit commit then some (short commit) else tag_commit ((split_ref image).1)

-- `_prev_commit`: the first row with the name decides
unfoldable pub prev_commit : List PrevRow → String → Option String
prev_commit [] name = none
prev_commit (row ∷ l) name =
    let rest = prev_commit l name in
    if row.name == name then row_commit row.commit row.image else rest

-- `_registry_ref`
unfoldable pub registry_ref : String → Bool
unfolding has_char partition
registry_ref repo =
    let first = (partition "/" repo).0 in
    has_char "/" repo && (has_char "." first || has_char ":" first || first == "localhost")

-- `a or b` of two texts that may be missing
abbrev pub or_else : Option String → Option String → Option String
or_else none b = b
or_else (some s) b = if is_empty s then b else some s

-- What failed its health check on this box, for one container.
pub record Failed : Type 0 where
  pub commits : List String
  pub images : List String

-- A target of the deploy: `source` is "prev", or `commit` names the commit where it is a text.
pub record Target : Type 0 where
  pub name : String
  pub image : String
  pub strict : Bool
  pub from_prev : Bool
  pub commit : Option String

-- `f"{repo}:{tag}"`
unfoldable pub ref_of : String → String → String
unfolding concat
ref_of repo tag = concat (repo ∷ ":" ∷ tag ∷ [])

-- The state of `plan_moves`: the daemon's, and the dictionary `found`.
pub record St (I : Images) : Type 0 where
  pub images : I.State
  pub found : Assoc String

module _ (I : Images) where
  abbrev pub Out : Type 0
  Out = Result Move × St I

  abbrev pub id_of : St I → String → Option String
  id_of st ref = I.image_id st.images ref

  -- `running` of `runs_commit` with its labels and tags
  abbrev pub names_it : String → String → Assoc String × List String → Bool
  names_it image commit (labels, tags) =
      commit_from_labels labels == some commit
      || contains (own_commit_tags tags (some image)) commit

  -- `running` of `runs_commit`, where it is set
  abbrev pub checked_running : St I → String → String → Option String → Option String
  checked_running st image commit none = none
  checked_running st image commit (some running) =
      if is_empty running
      then none
      else if names_it image commit (I.image_meta st.images running)
      then some running
      else none

  unfoldable pub runs_commit : St I → String → String → String → Option String
  runs_commit st name image commit =
      checked_running st image commit (or_else (I.container_image st.images name) (id_of st image))

  -- the images of the list with the commit's label that have not failed
  unfoldable pub with_label : String → List String → List (String × Assoc String) → List String
  with_label commit bad [] = []
  with_label commit bad ((id, labels) ∷ l) =
      let rest = with_label commit bad l in
      if commit_from_labels labels == some commit && not (contains bad id) then id ∷ rest else rest

  abbrev pub preferred : Option String → Option String → List String → Option String
  preferred container latest [] = none
  preferred container latest (id ∷ l) =
      if any (λ x. container == some x) (id ∷ l)
      then container
      else if any (λ x. latest == some x) (id ∷ l)
      then latest
      else some id

  -- `by_label`
  unfoldable pub by_label : St I → String → String → String → List String → Option String
  unfolding any
  by_label st name image commit bad_images =
      preferred (I.container_image st.images name) (id_of st image)
        (with_label commit bad_images (I.labelled st.images ((split_ref image).0)))

  -- `images.tag(source, target)` with what follows it
  abbrev pub tag_result : (St I → Out) → St I → Result (Unit {0}) × I.State → Out
  tag_result next st (err e, s) = (err e, record st { images = s })
  tag_result next st (ok u, s) = next (record st { images = s })

  abbrev pub tagging : St I → String → String → (St I → Out) → Out
  tagging st source target next = tag_result next st (I.tag st.images source target)

  -- `if latest is not None: images.tag(image, f"{repo}:previous")`
  abbrev pub keep_previous : St I → Option String → String → String → (St I → Out) → Out
  keep_previous st none repo image next = next st
  keep_previous st (some latest) repo image next = tagging st image (ref_of repo "previous") next
