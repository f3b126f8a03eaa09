-- ===== src/Webhook/Lookups.antt =====
-- The lookups in a push payload that `_push_target` of the receiver makes for its alerts. Each may raise
-- on a value of another type; the texts of the exceptions are those of CPython up to 3.11.
use bay.Prelude.{String, Option, none, some, [], ◌∷◌}
use bay.Prelude.Assoc.{Assoc, lookup}
use bay.Prelude.Text.{concat}
use bay.Prelude.Result.{Result, ok, err, ◌>>=◌}
use bay.Json.{Value, null, text, bool, int, float, obj, arr, Python, fields, get_truthy}

-- the name of a value's type
abbrev pub type_name : Value → String
type_name null = "NoneType"
type_name (text s) = "str"
type_name (bool b) = "bool"
type_name (int n) = "int"
type_name (float x) = "float"
type_name (arr l) = "list"
type_name (obj l) = "dict"

abbrev pub no_attribute : {A : Type 0} → String → Value → Result A
no_attribute name v = err (record {
  class_name = "AttributeError";
  message = concat ("'" ∷ type_name v ∷ "' object has no attribute '" ∷ name ∷ "'" ∷ []);
})

-- `payload.get(key, {})`, of which `get` is called
abbrev pub mapping_at : Option Value → Result (Assoc Value)
mapping_at none = ok []
mapping_at (some (obj m)) = ok (fields m)
mapping_at (some v) = no_attribute "get" v

-- `v[:7]`
abbrev pub sliced : Option Value → Result (Unit {0})
sliced none = ok tt
sliced (some (text s)) = ok tt
sliced (some (arr l)) = ok tt
sliced (some (obj m)) =
    err (record { class_name = "TypeError"; message = "unhashable type: 'slice'" })
sliced (some v) = err (record {
  class_name = "TypeError";
  message = concat ("'" ∷ type_name v ∷ "' object is not subscriptable" ∷ []);
})

-- `(v or "").split("\n")`, for a value that is true
abbrev pub split_lines : Option Value → Result (Unit {0})
split_lines none = ok tt
split_lines (some (text s)) = ok tt
split_lines (some v) = no_attribute "split" v

-- the lookups for the alerts
unfoldable pub noted : Python → (head_commit pusher repository : Option Value) → Result (Unit {0})
noted py head_commit pusher repository = mapping_at head_commit >>= λ head.
    sliced (lookup "id" head) >>= λ u. split_lines (get_truthy py "message" head) >>= λ v.
    mapping_at pusher >>= λ p. mapping_at repository >>= λ r. ok tt
