-- ===== src/Images.antt =====
-- images.py of src/bay_reconcile: image references and commit tags.
pub mod Tags
use Prim.Native.Char.{code, Char}
use Prim.Native.String
use bay.Prelude.{
  ℕ, ◌+◌, zero, suc, String, Bool, true, false, not, ◌&&◌, ◌||◌, Option, none, some, List, [], ◌∷◌,
  map, ◌==◌, nat_eq, string_eq, option_eq, if◌then◌else◌, leb, ◌≡◌, refl,
}
use bay.Prelude.Assoc.{Assoc, lookup, keep, contains}
use bay.Prelude.Sort.{sort, dedup}
use bay.Prelude.Text.{
  concat, partition, rpartition, has_char, strip, strip_prefix, is_empty, every, take, lower, ◌is◌,
}
use bay.Prelude.Result.{Result, ok, err}

abbrev pub commit_label : String
commit_label = "com.bay.commit"

abbrev pub revision_label : String
revision_label = "org.opencontainers.image.revision"

-- `split_ref`: the last colon starts a tag if no slash comes behind it
unfoldable pub untagged : String → Option (String × String) → String × Option String
unfolding has_char
untagged ref none = (ref, none)
untagged ref (some (repo, tag)) = if has_char "/" tag then (ref, none) else (repo, some tag)

unfoldable pub split_ref : String → String × Option String
unfolding strip has_char partition rpartition untagged
split_ref ref =
    let s = strip ref in
    if has_char "@" s then ((partition "@" s).0, none) else untagged s (rpartition ":" s)

-- `$` also matches in front of a newline that ends the text
unfoldable pub before_newline : String → String
before_newline String.[] = ""
before_newline (String.◌∷◌ c String.[]) = if c is "\n" then "" else String.◌∷◌ c ""
before_newline (String.◌∷◌ c (String.◌∷◌ d s)) = String.◌∷◌ c (before_newline (String.◌∷◌ d s))

-- `[0-9a-f]`
unfoldable pub is_hex : Char → Bool
is_hex c = let n = code c in (leb b'0' n && leb n b'9') || (leb b'a' n && leb n b'f')

-- `is_commit` of a text
unfoldable pub is_commit : String → Bool
unfolding lower before_newline every is_hex
is_commit value =
    let s = before_newline (lower value) in
    every is_hex s && leb 7 (String.count s) && leb (String.count s) 64

-- `is_commit_tag` of a text
unfoldable pub is_commit_tag : String → Bool
unfolding before_newline every is_hex
is_commit_tag value = let s = before_newline value in every is_hex s && String.count s == 12

unfoldable pub short : String → String
unfolding lower take
short commit = take 12 (lower commit)

abbrev commit_of : Option String → Option String
commit_of none = none
commit_of (some value) = if is_commit value then some (short value) else none

unfoldable pub commit_from_labels : Assoc String → Option String
unfolding lookup
commit_from_labels labels = elim (commit_of (lookup commit_label labels)) [
  | some commit ↦ some commit
  | none ↦ commit_of (lookup revision_label labels)
]

-- the loop over the prefixes, which stops at the first that fits
unfoldable pub drop_registry : String → String
unfolding strip_prefix
drop_registry repo = elim (strip_prefix "docker.io/" repo) [
  | some rest ↦ rest
  | none ↦ elim (strip_prefix "index.docker.io/" repo) [ some rest ↦ rest | none ↦ repo ]
]

-- `repo.count("/")`
unfoldable pub slashes : String → ℕ
slashes String.[] = 0
slashes (String.◌∷◌ c s) = if c is "/" then suc (slashes s) else slashes s

unfoldable pub repo_key : String → String
unfolding drop_registry strip_prefix slashes
repo_key name =
    let repo = drop_registry name in
    elim (strip_prefix "library/" repo) [
      | some rest ↦ if slashes repo == 1 then rest else repo
      | none ↦ repo
    ]

-- the tag of `ref`, if it is a commit tag of the repository `want`
unfoldable pub own_tag : String → String → Option String
own_tag want ref =
    let (repo, tag) = split_ref ref in
    elim tag [
      | none ↦ none
      | some t ↦ if is_commit_tag t && repo_key repo == want then some t else none
    ]

-- `found.add(tag)`
abbrev pub add_tag : Option String → List String → List String
add_tag none found = found
add_tag (some tag) found = tag ∷ found

unfoldable pub own_tags : String → List String → List String
own_tags want [] = []
own_tags want (ref ∷ l) = add_tag (own_tag want ref) (own_tags want l)

abbrev pub no_image : Option String → Bool
no_image none = true
no_image (some s) = is_empty s

abbrev pub want_of : String → String
want_of image = repo_key ((split_ref image).0)

unfoldable pub own_commit_tags : List String → Option String → List String
own_commit_tags refs none = []
own_commit_tags refs (some image) =
    if is_empty image then [] else sort (dedup (own_tags (want_of image) refs))

-- the references of the repository with the tag `commit`
unfoldable pub naming : String → String → List String → List String
naming commit want refs =
    keep (λ r. (split_ref r).1 == some commit && repo_key ((split_ref r).0) == want) refs

abbrev pub head_or : String → List String → String
head_or d [] = d
head_or d (x ∷ l) = x

-- `commit_from_tags` by the own tags; `sorted(…)[0]` is there because the tag came from a reference
unfoldable pub commit_from_own : List String → List String → String → Option (String × String)
commit_from_own (commit ∷ []) refs image =
    some (commit, head_or "" (sort (naming commit (want_of image) refs)))
commit_from_own _ refs image = none

unfoldable pub commit_from_tags : List String → Option String → Option (String × String)
commit_from_tags refs none = none
commit_from_tags refs (some image) = commit_from_own (own_commit_tags refs (some image)) refs image

unfoldable pub commit_ref : String → String → String
unfolding concat
commit_ref image commit = concat ((split_ref image).0 ∷ ":" ∷ short commit ∷ [])

-- `found and running_id and found == running_id`
abbrev is_running : Option String → Option String → Bool
is_running (some found) (some running) =
    not (is_empty found) && not (is_empty running) && found == running
is_running _ _ = false

-- `lookup(candidate)` as a Result: an exception keeps the image
unfoldable pub resolve : String → String → Option String → Result (Option String) → String
resolve image candidate running_id (err e) = image
resolve image candidate running_id (ok found) =
    if is_running found running_id then candidate else image

unfoldable pub resolved_image :
    Option String
    → Option String
    → Option String
    → Option (String → Result (Option String))
    → Option String
unfolding resolve
resolved_image (some image) (some commit) running_id (some lookup_id) =
    if is_empty image || is_empty commit
    then some image
    else some
        (resolve image (commit_ref image commit) running_id (lookup_id (commit_ref image commit)))
resolved_image image commit running_id lookup_id = image
