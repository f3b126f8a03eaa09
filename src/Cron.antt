-- ===== src/Cron.antt =====
-- src/bay_cli/cron.py: cron lines as systemd calendar expressions. `repr` of a text, which only error
-- messages show, is a parameter.
pub mod Ranges
pub mod Bounds
use Prim.Native.String
use bay.Prelude.{
  ℕ, zero, suc, ◌+◌, ◌%◌, String, Bool, true, false, not, ◌&&◌, ◌||◌, Option, none, some, List, [],
  ◌∷◌, ◌++◌, map, ◌==◌, string_eq, nat_eq, if◌then◌else◌, ltb, leb,
}
use bay.Prelude.Text.{
  concat, join, split, partition, has_char, is_empty, lower, every, is_digit, read_digits, show_nat,
  strip_prefix, words,
}
use bay.Prelude.Result.{Result, ok, err, ◌>>=◌, value_error}

-- The fields of a line, with their names and bounds in `_FIELDS`.
pub data Field : Type 0 where
  minute hour day month weekday : Field

abbrev pub name : Field → String
name minute = "minute"
name hour = "hour"
name day = "day of month"
name month = "month"
name weekday = "day of week"

abbrev pub low : Field → ℕ
low minute = 0
low hour = 0
low day = 1
low month = 1
low weekday = 0

abbrev pub high : Field → ℕ
high minute = 59
high hour = 23
high day = 31
high month = 12
high weekday = 7

abbrev pub month_words : List String
month_words =
    "jan" ∷ "feb" ∷ "mar" ∷ "apr" ∷ "may" ∷ "jun" ∷ "jul" ∷ "aug" ∷ "sep" ∷ "oct" ∷ "nov" ∷ "dec"
    ∷ []

abbrev pub day_words : List String
day_words = "sun" ∷ "mon" ∷ "tue" ∷ "wed" ∷ "thu" ∷ "fri" ∷ "sat" ∷ []

abbrev pub day_names : List String
day_names = "Sun" ∷ "Mon" ∷ "Tue" ∷ "Wed" ∷ "Thu" ∷ "Fri" ∷ "Sat" ∷ []

-- `l.index(word)`, behind the number of the first word
unfoldable pub index_from : ℕ → String → List String → Option ℕ
index_from n word [] = none
index_from n word (w ∷ l) =
    let rest = index_from (suc n) word l in if w == word then some n else rest

-- `l[n]`
unfoldable pub get_elem? : List String → ℕ → String
get_elem? [] n = ""
get_elem? (w ∷ l) zero = w
get_elem? (w ∷ l) (suc n) = get_elem? l n

-- the number that a name stands for
abbrev pub named_value : Field → String → Option ℕ
named_value month word = index_from 1 word month_words
named_value weekday word = index_from 0 word day_words
named_value _ word = none

-- `text.isdigit()`
abbrev pub all_digits : String → Bool
all_digits text = not (is_empty text) && every is_digit text

-- `range(start, end + 1, step)`, for enough fuel
unfoldable pub range_from : ℕ → ℕ → ℕ → ℕ → List ℕ
range_from zero start end step = []
range_from (suc fuel) start end step =
    let rest = range_from fuel (start + step) end step in if leb start end then start ∷ rest else []

-- `sorted(set(l))`
unfoldable pub insert_value : ℕ → List ℕ → List ℕ
insert_value v [] = v ∷ []
insert_value v (w ∷ l) =
    let rest = insert_value v l in if ltb v w then v ∷ w ∷ l else if v == w then w ∷ l else w ∷ rest

unfoldable pub sorted_set : List ℕ → List ℕ
sorted_set [] = []
sorted_set (v ∷ l) = insert_value v (sorted_set l)

-- The values from a start to an end, by steps.
pub record Range : Type 0 where
  pub start : ℕ
  pub end : ℕ
  pub step : ℕ

-- the values of a range; the day 7 is Sunday too
unfoldable pub range_values : Field → Range → List ℕ
range_values weekday r = sorted_set (map (λ v. v % 7) (range_from (suc r.end) r.start r.end r.step))
range_values f r = range_from (suc r.end) r.start r.end r.step

-- `f"{v:02d}"`
unfoldable pub two_digits : ℕ → String
two_digits v = if ltb v 10 then concat ("0" ∷ show_nat v ∷ []) else show_nat v

-- the texts of a field's values
unfoldable pub show_values : Field → List ℕ → String
show_values weekday values = join "," (map (get_elem? day_names) values)
show_values f values = join "," (map two_digits values)

abbrev pub is_star : Option String → Bool
is_star none = false
is_star (some s) = s == "*"

module _ (repr : String → String) where
  abbrev pub checked_value : Field → ℕ → Result ℕ
  checked_value f value =
      if leb (low f) value && leb value (high f)
      then ok value
      else value_error (
          concat (
            name f
            ∷ ": "
            ∷ show_nat value
            ∷ " is outside "
            ∷ show_nat (low f)
            ∷ "-"
            ∷ show_nat (high f)
            ∷ []))

  abbrev pub number_by : Field → String → Option ℕ → Result ℕ
  number_by f text (some value) = ok value
  number_by f text none =
      if all_digits text
      then checked_value f (read_digits 0 text)
      else value_error (concat (name f ∷ ": " ∷ repr text ∷ " is not a number" ∷ []))

  -- `_number`
  unfoldable pub number : Field → String → Result ℕ
  number f text = number_by f text (named_value f (lower text))

  -- the step behind a slash
  abbrev pub step_of : Field → Option String → Result ℕ
  step_of f none = ok 1
  step_of f (some text) =
      if all_digits text && not (ltb (read_digits 0 text) 1)
      then ok (read_digits 0 text)
      else value_error
          (concat (name f ∷ ": step " ∷ repr text ∷ " must be a whole number of 1 or more" ∷ []))

  abbrev pub text_of : Option String → String
  text_of none = ""
  text_of (some s) = s

  abbrev pub ordered : Field → String → ℕ → ℕ → ℕ → Result Range
  ordered f base start end step =
      if ltb end start
      then value_error (concat (name f ∷ ": range " ∷ repr base ∷ " runs backwards" ∷ []))
      else ok (record { start = start; end = end; step = step })

  -- `a-b`, a number, and the end of a number with a step
  abbrev pub base_range : Field → String → ℕ → Bool → String × Option String → Result Range
  base_range f base step stepped (a, some b) =
      number f a >>= λ start. number f b >>= λ end. ordered f base start end step
  base_range f base step stepped (a, none) = number f base >>= λ start.
      ok (record { start = start; end = if stepped then high f else start; step = step })

  abbrev pub has_step : Option String → Bool
  has_step none = false
  has_step (some s) = true

  -- the range of one part of a field
  unfoldable pub range_of : Field → String → Result Range
  range_of f part =
      let (base, step_text) = partition "/" part in
      step_of f step_text >>= λ step.
      if base == "*"
      then ok (record { start = low f; end = high f; step = step })
      else base_range f base step (has_step step_text) (partition "-" base)

  -- `_values`
  unfoldable pub values : Field → String → Result (List ℕ)
  values f part = range_of f part >>= λ r. ok (range_values f r)

  -- the union over the parts of a field
  unfoldable pub all_values : Field → String → List String → Result (List ℕ)
  all_values f text [] = ok []
  all_values f text (part ∷ l) =
      let rest = all_values f text l in
      if is_empty part
      then value_error (concat (name f ∷ ": empty item in " ∷ repr text ∷ []))
      else (values f part >>= λ here. rest >>= λ there. ok (here ++ there))

  -- `*/n`, but for the weekday
  abbrev pub star_step : Field → String → Option String
  star_step weekday text = none
  star_step f text = strip_prefix "*/" text

  -- a step as wide as the field means the first value
  abbrev pub stepped : Field → String → Result String
  stepped f text = step_of f (some text) >>= λ step. ok (
      if ltb (high f) (step + low f)
      then two_digits (low f)
      else concat (two_digits (low f) ∷ "/" ∷ show_nat step ∷ []))

  abbrev pub listed : Field → String → Option String → Result String
  listed f text (some step) = stepped f step
  listed f text none =
      all_values f text (split "," text) >>= λ found. ok (show_values f (sorted_set found))

  -- `_field`
  unfoldable pub field : Field → String → Result String
  field f text = if text == "*" then ok "*" else listed f text (star_step f text)

  -- the check of the days, and the expression
  abbrev pub expression : String → String → String → String → String → Result String
  expression minutes hours days months weekdays =
      if not (days == "*") && not (weekdays == "*")
      then value_error
          "it sets both the day of the month and the day of the week; cron runs the job when either matches, a timer only when both do. Set one of them to *"
      else ok (
          concat (
            (if weekdays == "*" then "" else concat (weekdays ∷ " " ∷ []))
            ∷ "*-"
            ∷ months
            ∷ "-"
            ∷ days
            ∷ " "
            ∷ hours
            ∷ ":"
            ∷ minutes
            ∷ ":00 UTC"
            ∷ []))

  abbrev pub count_words : List String → ℕ
  count_words [] = 0
  count_words (w ∷ l) = suc (count_words l)

  abbrev pub from_parts : String → List String → Result String
  from_parts line (a ∷ b ∷ c ∷ d ∷ e ∷ []) = field minute a >>= λ minutes. field hour b >>= λ hours.
      field day c >>= λ days. field month d >>= λ months.
      field weekday e >>= λ weekdays. expression minutes hours days months weekdays
  from_parts line parts = value_error (
      concat
        (repr line ∷ " has " ∷ show_nat (count_words parts) ∷ " fields; a cron line has five" ∷ []))

  -- `to_on_calendar`
  unfoldable pub to_on_calendar : String → Result String
  to_on_calendar line = from_parts line (words line)
