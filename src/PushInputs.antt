-- ===== src/PushInputs.antt =====
-- pushinputs.py of src/bay_reconcile: the translation of a gitignore pattern to a regex. The choice of
-- the files is in PushInputs.Inputs.
pub mod Inputs
pub mod Rules
pub mod Chosen
use Prim.Native.Char.{Char}
use Prim.Native.String
use bay.Prelude.{
  ℕ, suc, zero, String, Bool, true, false, not, ◌&&◌, ◌||◌, Option, none, some, List, [], ◌∷◌, map,
  if◌then◌else◌, ◌==◌, string_eq, list_eq, ◌≡◌, refl,
}
use bay.Prelude.Text.{
  concat, split, strip_prefix, rstrip_by, is_space, is_empty, take, has_char, ◌is◌,
}
use bay.Prelude.Result.{Exn, Result, ok, err, ◌>>=◌}

-- What Python contributes: `re.compile(s).search`, which raises for a regex that it cannot read, and
-- `repr` of a text.
pub record Regex : Type 0 where
  pub compile : String → Result (String → Bool)
  pub repr : String → String

-- `re.escape(char)`
unfoldable pub escape_char : Char → String
unfolding has_char
escape_char c =
    if has_char c "()[]{}?*+-|^$\\.&~# \t\n\r\u{b}\u{c}"
    then String.◌∷◌ "\\" (String.◌∷◌ c "")
    else String.◌∷◌ c ""

-- the length of `s` up to and with its first `]`
unfoldable pub to_bracket : String → Option ℕ
to_bracket String.[] = none
to_bracket (String.◌∷◌ c s) =
    let rest = to_bracket s in
    if c is "]" then some 1 else elim rest [ none ↦ none | some n ↦ some (suc n) ]

abbrev add_one : Option ℕ → Option ℕ
add_one none = none
add_one (some n) = some (suc n)

-- the same where a `]` at the front is a member
unfoldable pub past_member : String → Option ℕ
unfolding to_bracket
past_member String.[] = none
past_member (String.◌∷◌ c s) =
    if c is "]" then add_one (to_bracket s) else to_bracket (String.◌∷◌ c s)

-- `pattern[i] in "!^"`
abbrev negates : String → Bool
negates String.[] = false
negates (String.◌∷◌ c s) = c is "!" || c is "^"

abbrev tail : String → String
tail String.[] = ""
tail (String.◌∷◌ c s) = s

-- `j - i` for the text behind a `[`, or `none` where no `]` closes it
unfoldable pub bracket_length : String → Option ℕ
unfolding past_member
bracket_length s = if negates s then add_one (past_member (tail s)) else past_member s

-- `s.replace("\\", "\\\\")`
unfoldable pub double_backslashes : String → String
double_backslashes String.[] = ""
double_backslashes (String.◌∷◌ c s) =
    let rest = double_backslashes s in
    if c is "\\" then String.◌∷◌ c (String.◌∷◌ c rest) else String.◌∷◌ c rest

-- `expr` for the text behind a `[` and its length
unfoldable pub bracket : String → ℕ → String
unfolding take double_backslashes concat
bracket s n =
    let body = take n s in
    if negates s
    then concat ("[^" ∷ double_backslashes (tail body) ∷ [])
    else concat ("[" ∷ double_backslashes body ∷ [])

-- `regex += piece`
abbrev before : String → Result String → Result String
before piece (ok regex) = ok (String.◌++◌ piece regex)
before piece (err e) = err e

module _ (re : Regex) (pattern : String) where
  unfoldable pub dangling_escape : Exn
  unfolding concat
  dangling_escape = record {
    class_name = "PatternError";
    message = concat ("escape character with nothing to escape: " ∷ re.repr pattern ∷ []);
  }

  -- The loop of `_segment_glob`: `skipped` characters belong to a bracket that is written already.
  unfoldable pub glob_from : (skipped : ℕ) (escape : Bool) → String → Result String
  unfolding escape_char bracket_length bracket
  glob_from skipped escape String.[] = if escape then err dangling_escape else ok ""
  glob_from (suc skipped) escape (String.◌∷◌ c s) = glob_from skipped escape s
  glob_from zero true (String.◌∷◌ c s) = before (escape_char c) (glob_from zero false s)
  glob_from zero false (String.◌∷◌ c s) =
      let rest = glob_from zero false s in
      if c is "\\"
      then glob_from zero true s
      else if c is "*"
      then before "[^/]*" rest
      else if c is "?"
      then before "[^/]" rest
      else if c is "["
      then elim (bracket_length s) [
        | none ↦ before "\\[" rest
        | some n ↦ before (bracket s n) (glob_from n false s)
      ]
      else before (escape_char c) rest

-- `_segment_glob`
unfoldable pub segment_glob : Regex → String → Result String
unfolding glob_from
segment_glob re pattern = glob_from re pattern zero false pattern

-- `len(segs) == 1 or (len(segs) == 2 and not segs[1])`, behind the first segment
abbrev ends_here : List String → Bool
ends_here [] = true
ends_here (s ∷ []) = is_empty s
ends_here _ = false

-- a leading slash goes, and a name alone may stand in any directory
unfoldable pub anchor : List String → List String
anchor [] = []
anchor (s ∷ rest) =
    if is_empty s
    then rest
    else if ends_here rest && not (s == "**")
    then "**" ∷ s ∷ rest
    else s ∷ rest

-- `if not segs[-1]: segs[-1] = "**"`
unfoldable pub open_end : List String → List String
open_end [] = []
open_end (s ∷ []) = (if is_empty s then "**" else s) ∷ []
open_end (s ∷ t ∷ l) = s ∷ open_end (t ∷ l)

-- `del segs[i]` where `segs[i - 1]` and `segs[i]` are both `**`
abbrev in_front : String → List String → List String
in_front s [] = s ∷ []
in_front s (t ∷ l) = if s == "**" && t == "**" then s ∷ l else s ∷ t ∷ l

unfoldable pub merge_stars : List String → List String
merge_stars [] = []
merge_stars (s ∷ l) = in_front s (merge_stars l)

-- What `_normalize` returns: segments, or the whole regex.
pub data Normal : Type 0 where
  segments : List String → Normal
  whole : String → Normal

unfoldable pub override : (is_dir : Bool) → List String → Normal
override is_dir segs =
    if segs == "**" ∷ []
    then whole (if is_dir then "/" else ".")
    else if segs == "**" ∷ "*" ∷ []
    then whole "."
    else if segs == "**" ∷ "*" ∷ "**" ∷ []
    then whole "/"
    else segments segs

abbrev normalize_anchored : Bool → List String → Result Normal
normalize_anchored is_dir [] =
    err (record { class_name = "PatternError"; message = "pattern normalized to nothing" })
normalize_anchored is_dir (s ∷ l) = ok (override is_dir (merge_stars (open_end (s ∷ l))))

-- `_normalize`
unfoldable pub normalize : Bool → List String → Result Normal
unfolding anchor open_end merge_stars override
normalize is_dir segs = normalize_anchored is_dir (anchor segs)

abbrev is_last : List String → Bool
is_last [] = true
is_last (s ∷ l) = false

-- The loop of `_segments`; `first` is `i == 0`.
unfoldable pub segments_from : Regex → (first need_slash : Bool) → List String → Result String
unfolding segment_glob concat
segments_from re first need_slash [] = ok ""
segments_from re first need_slash (seg ∷ rest) =
    let last = is_last rest in
    if seg == "**"
    then (if first
        then before "^(?:.+/)?" (segments_from re false need_slash rest)
        else if last
        then before "/" (segments_from re false need_slash rest)
        else before "(?:/.+)?" (segments_from re false true rest))
    else (let front : String =
          concat ((if first then "^" else "") ∷ (if need_slash then "/" else "") ∷ []) in
        let star = seg == "*" in
        let back : String = if last then (if star then "/?$" else "(?:/|$)") else "" in
        (if star then ok "[^/]+" else segment_glob re seg) >>= λ body.
        before (concat (front ∷ body ∷ back ∷ [])) (segments_from re false true rest))

abbrev translate_normal : Regex → Bool → Normal → Result (Option (String × Bool))
translate_normal re include (whole regex) = ok (some (regex, include))
translate_normal re include (segments segs) =
    segments_from re true false segs >>= λ regex. ok (some (regex, include))

-- `not segs[-1]`
unfoldable pub ends_empty : List String → Bool
ends_empty [] = false
ends_empty (s ∷ []) = is_empty s
ends_empty (s ∷ t ∷ l) = ends_empty (t ∷ l)

-- the part of `translate` behind the `!`
unfoldable pub translate_path : Regex → Bool → String → Result (Option (String × Bool))
unfolding split ends_empty normalize segments_from
translate_path re include pattern =
    let segs = split "/" pattern in
    normalize (ends_empty segs && not (pattern == "/")) segs >>= translate_normal re include

-- `pattern.endswith("\\ ")`
unfoldable pub ends_in_escaped_space : String → Bool
ends_in_escaped_space String.[] = false
ends_in_escaped_space (String.◌∷◌ c s) = s == " " && c is "\\" || ends_in_escaped_space s

-- `translate`; `none` for a blank or a comment
unfoldable pub translate : Regex → String → Result (Option (String × Bool))
unfolding translate_path strip_prefix ends_in_escaped_space rstrip_by is_space
translate re line =
    let pattern : String = if ends_in_escaped_space line then line else rstrip_by is_space line in
    if is_empty pattern then ok none else elim (strip_prefix "#" pattern) [
      | some rest ↦ ok none
      | none ↦ elim (strip_prefix "!" pattern) [
        | some rest ↦ translate_path re false rest
        | none ↦ translate_path re true pattern
      ]
    ]

abbrev plain : Regex
plain = record { compile = λ s. ok (λ path. true); repr = λ s. s }

translate_tests :
    (translate plain "docs/" ≡ ok (some ("^(?:.+/)?docs/", true)))
    × (translate plain "!/src/*.py" ≡ ok (some ("^src/[^/]*\\.py(?:/|$)", false)))
    × (translate plain "# note" ≡ ok none)
    × (translate plain "[!a]b" ≡ ok (some ("^(?:.+/)?[^a]b(?:/|$)", true)))
unfolding translate
translate_tests = (refl, refl, refl, refl)
