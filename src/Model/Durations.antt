-- ===== src/Model/Durations.antt =====
-- Healthcheck durations of models.py: `duration_ns` and `healthcheck_to_sdk`.
use Prim.Native.String
use bay.Prelude.{
  ℕ, suc, zero, ◌+◌, ◌-◌, String, Option, none, some, List, [], ◌∷◌, if◌then◌else◌, ◌==◌, string_eq,
}
use bay.Prelude.Assoc.{Assoc, lookup, insert}
use bay.Prelude.Int.{ℤ, negate}
use bay.Prelude.Text.{concat, strip, strip_prefix, is_empty, is_digit, ◌is◌}
use bay.Prelude.Result.{Exn, Result, ok, err, ◌>>=◌, value_error}
use bay.Json.{Value, null, bool, int, float, text, Python}

-- the longest prefix of digits
unfoldable pub digits : String → String
digits String.[] = ""
digits (String.◌∷◌ c s) = if is_digit c then String.◌∷◌ c (digits s) else ""

-- `(?:\.\d+)?` behind the digits
unfoldable pub fraction : String → String
fraction String.[] = ""
fraction (String.◌∷◌ c s) =
    if c is "." then (if is_empty (digits s) then "" else String.◌∷◌ c (digits s)) else ""

-- `_DURATION_UNITS_NS`, in the order of `_DURATION_PART_RE`
abbrev pub units : List (String × ℕ)
units =
    ("ns", 1)
    ∷ ("us", 1000)
    ∷ ("µs", 1000)
    ∷ ("ms", 1000000)
    ∷ ("s", 1000000000)
    ∷ ("m", 60000000000)
    ∷ ("h", 3600000000000)
    ∷ []

-- the first unit that `s` starts with: its length and its nanoseconds
unfoldable pub unit_at : List (String × ℕ) → String → Option (ℕ × ℕ)
unit_at [] s = none
unit_at ((name, ns) ∷ l) s = elim (strip_prefix name s) [
  | some rest ↦ some (String.count name, ns)
  | none ↦ unit_at l s
]

-- the text behind its first `n` characters
unfoldable pub drop : ℕ → String → String
drop zero s = s
drop (suc n) String.[] = ""
drop (suc n) (String.◌∷◌ c s) = drop n s

-- A match of `_DURATION_PART_RE` at the front of `s`: the number with its unit, and the length.
unfoldable pub duration_part : String → Option ((String × ℕ) × ℕ)
unfolding digits fraction drop unit_at
duration_part s =
    let whole = digits s in
    let number = String.◌++◌ whole (fraction (drop (String.count whole) s)) in
    if is_empty whole then none else elim (unit_at units (drop (String.count number) s)) [
      | none ↦ none
      | some (n, ns) ↦ some ((number, ns), String.count number + n)
    ]

abbrev with_part : String × ℕ → Option (List (String × ℕ)) → Option (List (String × ℕ))
with_part p none = none
with_part p (some l) = some (p ∷ l)

-- The loop over `finditer`, which ends at the first gap; `skipped` characters belong to the last match.
unfoldable pub parts_from : (skipped : ℕ) → String → Option (List (String × ℕ))
unfolding duration_part
parts_from skipped String.[] = some []
parts_from (suc skipped) (String.◌∷◌ c s) = parts_from skipped s
parts_from zero (String.◌∷◌ c s) = elim (duration_part (String.◌∷◌ c s)) [
  | none ↦ none
  | some (p, n) ↦ with_part p (parts_from (n - 1) s)
]

-- `except ValueError as exc: raise ValueError(f"healthcheck {key}: {exc}") from exc`
unfoldable pub named_error : String → Result ℤ → Result ℤ
unfolding concat
named_error key (ok n) = ok n
named_error key (err e) =
    if e.class_name == "ValueError"
    then value_error (concat ("healthcheck " ∷ key ∷ ": " ∷ e.message ∷ []))
    else err e

-- `out[key] = convert(out[key])` where the key is there and not null
unfoldable pub convert :
    String → (Value → Result ℤ) → Option Value → Assoc Value → Result (Assoc Value)
convert key f none out = ok out
convert key f (some null) out = ok out
convert key f (some v) out = f v >>= λ n. ok (insert key (int n) out)

module _ (py : Python) where
  abbrev no_duration : Value → Exn
  no_duration value = record {
    class_name = "ValueError";
    message = concat ("not a duration: " ∷ py.repr value ∷ []);
  }

  -- the sum of the parts, or the error where a part is none
  unfoldable pub total : Value → Option (List (String × ℕ)) → Result ℤ
  unfolding concat
  total value none = err (no_duration value)
  total value (some []) = err (no_duration value)
  total value (some (p ∷ l)) = py.sum_of (p ∷ l)

  -- the part of `duration_ns` for a text without white space around it
  unfoldable pub signed : Value → String → Result ℤ
  unfolding parts_from
  signed value String.[] = value_error "not a duration: empty string"
  signed value (String.◌∷◌ c s) =
      if c is "-"
      then (total value (parts_from 0 s) >>= λ n. ok (negate n))
      else if c is "+"
      then total value (parts_from 0 s)
      else total value (parts_from 0 (String.◌∷◌ c s))

  -- `str(value)` of a value that is neither a bool nor a number
  abbrev text_of : Value → String
  text_of (text s) = s
  text_of v = py.show v

  unfoldable pub duration_ns : Value → Result ℤ
  unfolding strip concat signed
  duration_ns (bool b) = err (no_duration (bool b))
  duration_ns (int n) = ok n
  duration_ns (float x) = py.int_of (float x)
  duration_ns v = signed v (strip (text_of v))

  unfoldable pub convert_duration : String → Assoc Value → Result (Assoc Value)
  unfolding duration_ns named_error convert lookup
  convert_duration key out = convert key (λ v. named_error key (duration_ns v)) (lookup key out) out

  -- `int(value)`
  unfoldable pub to_int : Value → Result ℤ
  to_int (int n) = ok n
  to_int v = py.int_of v

  unfoldable pub convert_retries : Assoc Value → Result (Assoc Value)
  unfolding to_int convert lookup
  convert_retries out = convert "retries" to_int (lookup "retries" out) out

  unfoldable pub healthcheck_to_sdk : Assoc Value → Result (Assoc Value)
  healthcheck_to_sdk hc = convert_duration "interval" hc >>= λ a.
      convert_duration "timeout" a >>= λ b. convert_duration "start_period" b >>= convert_retries
