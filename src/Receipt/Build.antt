-- ===== src/Receipt/Build.antt =====
-- `build_receipt` of receipt.py. The clock and the read of the route file are arguments.
use bay.Prelude.{
  String, Bool, false, not, ◌&&◌, Option, none, some, List, [], ◌∷◌, ◌++◌, map, if◌then◌else◌, ◌==◌,
  nat_eq, string_eq,
}
use bay.Prelude.Assoc.{Assoc, lookup, insert, contains}
use bay.Prelude.Int.{pos}
use bay.Prelude.Result.{Result, ok, err, ◌>>=◌}
use bay.Prelude.Text.{is_empty}
use bay.Json.{
  Value, Items, nil, cons, null, bool, int, float, text, arr, obj, Python, items, fields, truthy,
  str, get_truthy,
}
use bay.Receipt.{Move, equals, healthy, commit_or_none, source_or_none, tags_or_none, code_moves}

-- `_ACTIONS`
abbrev pub receipt_actions : Assoc String
receipt_actions =
    ("NoOp", "noop")
    ∷ ("Create", "create")
    ∷ ("Recreate", "recreate")
    ∷ ("CanarySwap", "recreate")
    ∷ ("Remove", "remove")
    ∷ []

-- What the loop over the results collects.
pub record Tally : Type 0 where
  pub actions : Assoc String
  pub failed : List String
  pub removed : List String

abbrev pub no_results : Tally
no_results = record { actions = []; failed = []; removed = [] }

pub record Receipt : Type 0 where
  pub env : String
  pub box : String
  pub deployed_at : String
  pub framework_version : Value
  pub framework_commit : Value
  pub fleet_commit : Value
  pub fleet_dirty : Value
  pub result : String
  pub containers : List (Assoc Value)
  pub code_moves : Option (List Move)
  pub routes : Option Value

-- `d.get(key)`
abbrev pub or_null : Option Value → Value
or_null none = null
or_null (some v) = v

-- the mappings of a list; the loops pass over what is no mapping
unfoldable pub mappings : List Value → List (Assoc Value)
unfolding fields
mappings [] = []
mappings (obj m ∷ l) = fields m ∷ mappings l
mappings (v ∷ l) = mappings l

-- a field that is a mapping, else `{}`
abbrev pub mapping_or_empty : Option Value → Assoc Value
mapping_or_empty (some (obj m)) = fields m
mapping_or_empty v = []

abbrev pub raises {ℓ} : {A : Type ℓ} → String → String → Result A
raises class_name message = err (record { class_name = class_name; message = message })

-- `bool | None`
abbrev pub flag_value : Option Bool → Value
flag_value none = null
flag_value (some b) = bool b

abbrev pub texts_items : List String → Items
texts_items [] = nil
texts_items (s ∷ l) = cons (text s) (texts_items l)

abbrev pub tags_value : Option (List String) → Value
tags_value none = null
tags_value (some l) = arr (texts_items l)

abbrev pub action_value : Option String → Value
action_value none = null
action_value (some a) = text a

-- the row of a container that the pass removed
unfoldable pub removed_row : List String → String → Assoc Value
unfolding contains
removed_row failed name =
    ("name", text name)
    ∷ ("image", null)
    ∷ ("image_ref", null)
    ∷ ("commit", null)
    ∷ ("commit_source", null)
    ∷ ("commit_tags", null)
    ∷ ("config_hash", null)
    ∷ ("action", text "remove")
    ∷ ("failed", bool (contains failed name))
    ∷ ("healthy", null)
    ∷ []

-- `isinstance(fleet_dirty, bool)`
abbrev pub flag_or_null : Option Value → Value
flag_or_null (some (bool b)) = bool b
flag_or_null v = null

module _ (py : Python) where
  -- `str(d.get(key, ""))`
  abbrev pub text_or_empty : Option Value → String
  text_or_empty none = ""
  text_or_empty (some v) = str py v

  -- the elements of `value or []` that a loop may take for mappings
  unfoldable pub iterated : Option Value → Result (List Value)
  unfolding items truthy
  iterated none = ok []
  iterated (some null) = ok []
  iterated (some (arr l)) = ok (items l)
  iterated (some (obj m)) = ok []
  iterated (some (text s)) = ok []
  iterated (some (bool b)) = if b then raises "TypeError" "'bool' object is not iterable" else ok []
  iterated (some (int n)) =
      if truthy py (int n) then raises "TypeError" "'int' object is not iterable" else ok []
  iterated (some (float x)) =
      if py.nonzero x then raises "TypeError" "'float' object is not iterable" else ok []

  -- `v == 0`
  abbrev pub is_zero : Option Value → Bool
  is_zero (some (int (pos n))) = n == 0
  is_zero (some (bool b)) = not b
  is_zero (some (float x)) = not (py.nonzero x)
  is_zero v = false

  -- `report.get("ok") is True`
  abbrev pub says_true : Option Value → Bool
  says_true (some (bool b)) = b
  says_true v = false

  -- `name` and `kind` of a result
  abbrev pub result_name : Assoc Value → String
  result_name r = text_or_empty (lookup "name" r)

  abbrev pub result_kind : Assoc Value → String
  result_kind r = text_or_empty (lookup "kind" r)

  -- the receipt's word for a result; `none` where the result is passed over
  unfoldable pub receipt_action : Assoc Value → Option String
  unfolding lookup
  receipt_action r =
      if is_empty (result_name r) then none else lookup (result_kind r) receipt_actions

  -- a result that counts, with its action
  unfoldable pub count : Assoc Value → Option String → Tally → Tally
  count r none t = t
  count r (some action) t = record {
    actions = insert (result_name r) action t.actions;
    failed = if equals (lookup "status" r) "failed" then result_name r ∷ t.failed else t.failed;
    removed = if result_kind r == "Remove" then t.removed ++ (result_name r ∷ []) else t.removed;
  }

  -- the loop over the results
  unfoldable pub tally : Tally → List (Assoc Value) → Tally
  unfolding count receipt_action
  tally t [] = t
  tally t (r ∷ l) = tally (count r (receipt_action r) t) l

  -- `a or b`, for values of two dictionaries
  abbrev pub either : Option Value → Value → Value
  either none v = v
  either (some u) v = u

  -- `_healthy(state.get(name))`
  unfoldable pub health_of : Option Value → Result (Option Bool)
  unfolding healthy truthy
  health_of none = ok none
  health_of (some (obj m)) = ok (healthy (fields m))
  health_of (some v) = if truthy py v then raises "AttributeError" "get" else ok none

  -- the row of a wanted container
  unfoldable pub container_row : Tally → Assoc Value → Assoc Value → Result (Assoc Value)
  unfolding health_of contains
  container_row t state entry =
      let name = text_or_empty (lookup "name" entry) in
      let seen = mapping_or_empty (lookup name state) in
      health_of (lookup name state) >>= λ health. ok (
        ("name", text name)
        ∷ ("image", either (get_truthy py "image" seen) (or_null (lookup "image" entry)))
        ∷ ("image_ref", or_null (lookup "image" entry))
        ∷ ("commit", commit_or_none (lookup "commit" seen))
        ∷ ("commit_source", source_or_none (lookup "commit" seen) (lookup "commit_source" seen))
        ∷ ("commit_tags", tags_value (tags_or_none (lookup "commit_tags" seen)))
        ∷ ("config_hash", or_null (lookup "config_hash" entry))
        ∷ ("action", action_value (lookup name t.actions))
        ∷ ("failed", bool (contains t.failed name))
        ∷ ("healthy", flag_value health)
        ∷ [])

  -- the loop over the containers of the bundle
  unfoldable pub container_rows :
      Tally → Assoc Value → List (Assoc Value) → Result (List (Assoc Value))
  unfolding container_row
  container_rows t state [] = ok []
  container_rows t state (entry ∷ l) =
      container_row t state entry >>= λ row. container_rows t state l >>= λ rows. ok (row ∷ rows)

  -- `str(meta[key])`
  abbrev pub required : String → Option Value → Result String
  required key none = raises "KeyError" key
  required key (some v) = ok (str py v)

  -- `stack_dir`, where it is a text that is not empty
  abbrev pub routes_at : (String → Value) → Option Value → Option Value
  routes_at rendered_routes (some (text s)) = if is_empty s then none else some (rendered_routes s)
  routes_at rendered_routes v = none

  abbrev pub or_no_report : Option (Assoc Value) → Assoc Value
  or_no_report none = []
  or_no_report (some r) = r

  -- `ok`
  unfoldable pub succeeded : Assoc Value → Option (Assoc Value) → Bool
  unfolding lookup
  succeeded meta none = false
  succeeded meta (some report) =
      is_zero (lookup "reconcile_rc" meta) && says_true (lookup "ok" report)

  -- `build_receipt`, for the time `now`
  unfoldable pub build_receipt :
      (String → Value) → String → Assoc Value → Assoc Value → Option (Assoc Value) → Result Receipt
  unfolding lookup iterated mappings tally container_rows code_moves succeeded
  build_receipt rendered_routes now meta bundle report =
      iterated (lookup "results" (or_no_report report)) >>= λ results.
      let t = tally no_results (mappings results) in
      iterated (lookup "containers" bundle) >>= λ entries.
      container_rows t (mapping_or_empty (lookup "state" (or_no_report report))) (mappings entries)
      >>= λ rows. required "env" (lookup "env" meta) >>= λ env.
          required "box" (lookup "box" meta) >>= λ box. ok (record {
            env = env;
            box = box;
            deployed_at = now;
            framework_version = or_null (lookup "framework_version" meta);
            framework_commit = or_null (get_truthy py "framework_commit" meta);
            fleet_commit = or_null (get_truthy py "fleet_commit" meta);
            fleet_dirty = flag_or_null (lookup "fleet_dirty" meta);
            result = if succeeded meta report then "ok" else "failed";
            containers = rows ++ map (removed_row t.failed) t.removed;
            code_moves = code_moves py (lookup "code_moves" meta);
            routes = routes_at rendered_routes (lookup "stack_dir" meta);
          })
