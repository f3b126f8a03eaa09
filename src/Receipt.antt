-- ===== src/Receipt.antt =====
-- receipt.py of src/bay_reconcile: the fields of a receipt's rows, and the stamp of a webhook build.
pub mod Atomic
pub mod Build
pub mod Tally
pub mod Main
pub mod Restamp
pub mod Rows
pub mod Reported
pub mod Files
pub mod Stamp
use bay.Prelude.{
  String, Bool, true, false, not, ◌&&◌, ◌||◌, Option, none, some, List, [], ◌∷◌, if◌then◌else◌,
  ◌==◌, string_eq,
}
use bay.Prelude.Assoc.{Assoc, lookup, insert, keep}
use bay.Prelude.Sort.{sort, dedup}
use bay.Prelude.Text.{strip}
use bay.Json.{
  Value, Items, Fields, nil, cons, end, field, null, bool, int, float, text, arr, obj, Python,
  items, fields, truthy, str, get_truthy,
}
use bay.Images.{is_commit, is_commit_tag, short}

-- `value == text`
abbrev pub equals : Option Value → String → Bool
equals (some (text s)) t = s == t
equals v t = false

-- `_healthy`; `none` is unknown, and so is a state that is missing or empty
unfoldable pub healthy : Assoc Value → Option Bool
unfolding lookup
healthy [] = none
healthy (p ∷ state) =
    if not (equals (lookup "status" (p ∷ state)) "running")
    then some false
    else if equals (lookup "health" (p ∷ state)) "healthy"
    then some true
    else if equals (lookup "health" (p ∷ state)) "unhealthy"
    then some false
    else none

-- `is_commit(value)` of any value
abbrev pub names_commit : Option Value → Option String
names_commit (some (text s)) = if is_commit s then some s else none
names_commit v = none

-- `_commit_or_none`
unfoldable pub commit_or_none : Option Value → Value
commit_or_none v = elim (names_commit v) [ none ↦ null | some s ↦ text (short s) ]

-- `_source_or_none`
unfoldable pub source_or_none : Option Value → Option Value → Value
source_or_none commit source = elim (names_commit commit) [
  | none ↦ null
  | some s ↦ if equals source "tag" then text "tag" else text "label"
]

-- the commit tags of a list of values
unfoldable pub commit_tags : List Value → List String
unfolding is_commit_tag
commit_tags [] = []
commit_tags (text s ∷ l) = let rest = commit_tags l in if is_commit_tag s then s ∷ rest else rest
commit_tags (v ∷ l) = commit_tags l

-- `_tags_or_none`
unfoldable pub tags_or_none : Option Value → Option (List String)
unfolding items commit_tags
tags_or_none (some (arr l)) = some (sort (dedup (commit_tags (items l))))
tags_or_none v = none

-- A row of `code_moves` in a receipt.
pub record Move : Type 0 where
  pub name : String
  pub status : String
  pub detail : String

module _ (py : Python) where
  -- `str(move.get(key) or "")`
  unfoldable pub text_of : String → Assoc Value → String
  text_of key move = elim (get_truthy py key move) [ none ↦ "" | some v ↦ str py v ]

  -- the rows of the moves that have a name
  unfoldable pub move_rows : List Value → List Move
  unfolding fields text_of get_truthy
  move_rows [] = []
  move_rows (obj m ∷ l) =
      let rest = move_rows l in
      let move = fields m in
      elim (get_truthy py "name" move) [
        | none ↦ rest
        | some v ↦
            record {
              name = str py v;
              status = text_of "status" move;
              detail = text_of "detail" move;
            }
            ∷ rest
      ]
  move_rows (v ∷ l) = move_rows l

  -- `_code_moves`
  unfoldable pub code_moves : Option Value → Option (List Move)
  unfolding items move_rows
  code_moves (some (arr l)) = some (move_rows (items l))
  code_moves v = none

-- `row.setdefault("image_ref", row.get("image"))`, by the two values of the row
abbrev pub keep_by : (reference image : Option Value) → Assoc Value → Assoc Value
keep_by (some v) image row = row
keep_by none (some v) row = insert "image_ref" v row
keep_by none none row = insert "image_ref" null row

unfoldable pub keep_reference : Assoc Value → Assoc Value
keep_reference row = keep_by (lookup "image_ref" row) (lookup "image" row) row

abbrev pub of_option : Option String → Option Value
of_option none = none
of_option (some s) = some (text s)

-- The new fields of a row.
unfoldable pub stamp_row : Option String → String → Assoc Value → Assoc Value
stamp_row commit image row = insert "commit_tags" null (
    insert "commit_source" (source_or_none (of_option commit) (some (text "label"))) (
      insert "commit" (commit_or_none (of_option commit))
        (insert "image" (text image) (keep_reference row))))

-- A row of a receipt: an object, or a value of another kind, which stays as it is.
pub data Row : Type 0 where
  entry : Assoc Value → Row
  other : Value → Row

-- `isinstance(row, dict) and row.get("name") == name`
unfoldable pub is_row_of : String → Row → Bool
unfolding lookup
is_row_of name (entry row) = equals (lookup "name" row) name
is_row_of name (other v) = false

abbrev stamped_row : Option String → String → Row → Row
stamped_row commit image (entry row) = entry (stamp_row commit image row)
stamped_row commit image (other v) = other v

-- the loop over the rows
unfoldable pub stamp_rows : String → Option String → String → List Row → List Row
stamp_rows name commit image [] = []
stamp_rows name commit image (r ∷ l) =
    let rest = stamp_rows name commit image l in
    if is_row_of name r then stamped_row commit image r ∷ rest else r ∷ rest

-- `hit`
unfoldable pub has_row : String → List Row → Bool
has_row name [] = false
has_row name (r ∷ l) = is_row_of name r || has_row name l

-- `stamp_receipt`: the rows of the copy, or `none` when no row has the name
unfoldable pub stamp_receipt : List Row → String → Option String → String → Option (List Row)
stamp_receipt rows name commit image =
    if has_row name rows then some (stamp_rows name commit image rows) else none
