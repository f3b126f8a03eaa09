-- ===== src/Prelude/Text.antt =====
-- The methods of Python's `str` that the program calls, over the native texts.
use Prim.Native.Nat.{◌<◌, ℕ, zero, suc, ◌+◌, ◌-◌, ◌*◌, ◌/◌, ◌%◌}
use Prim.Native.Char.{Char, code}
use Prim.Native.String.{String}
use Prim.Native.String
use mathlib.Core.Path.{◌≡◌, refl, ap}
use mathlib.Core.Bool.{Bool, true, false, ◌&&◌, ◌||◌, false≢true}
use mathlib.Core.Logic.{◌↔◌, inl, inr}
use native.Mathlib.Omega.{arith}
use text.Mathlib.TextLemmas.{cons≢nil}
use mathlib.Core.Option.{Option, none, some}
use mathlib.Core.List.{List, [], ◌∷◌}
use bay.Prelude.Tests.{if◌then◌else◌, ◌==◌, nat_eq, ltb, leb, Bool-cases}

infix 50 ◌is◌
-- a character against a character literal
abbrev pub ◌is◌ : Char → Char → Bool
c is d = code c == code d

-- an f-string: its pieces in a row
unfoldable pub concat : List String → String
concat [] = ""
concat (s ∷ l) = String.◌++◌ s (concat l)

-- `not s`
abbrev pub is_empty : String → Bool
is_empty String.[] = true
is_empty (String.◌∷◌ c s) = false

pub is_empty_iff : (s : String) → (is_empty s ≡ true) ↔ (s ≡ "")
is_empty_iff String.[] = ground arith
is_empty_iff (String.◌∷◌ c s) = (λ h. absurd (false≢true h), λ h. absurd (cons≢nil h))

-- `sep.join(l)`
unfoldable pub join : String → List String → String
join sep [] = ""
join sep (s ∷ []) = s
join sep (s ∷ t ∷ l) = String.◌++◌ s (String.◌++◌ sep (join sep (t ∷ l)))

-- puts a character in front of the first part
abbrev pub push : Char → List String → List String
push c [] = String.◌∷◌ c "" ∷ []
push c (p ∷ ps) = String.◌∷◌ c p ∷ ps

-- `s.split(sep)` for a separator of one character
unfoldable pub split : Char → String → List String
split sep String.[] = "" ∷ []
split sep (String.◌∷◌ c s) = let rest = split sep s in if c is sep then "" ∷ rest else push c rest

-- the part before the first separator, and the part after it if there is one
unfoldable pub partition : Char → String → String × Option String
partition sep String.[] = ("", none)
partition sep (String.◌∷◌ c s) =
    let (before, after) = partition sep s in
    if c is sep then ("", some s) else (String.◌∷◌ c before, after)

-- `s.rfind(sep)` in the form that the callers use: the parts around the last separator
unfoldable pub rpartition : Char → String → Option (String × String)
rpartition sep String.[] = none
rpartition sep (String.◌∷◌ c s) = elim (rpartition sep s) [
  | some (before, after) ↦ some (String.◌∷◌ c before, after)
  | none ↦ if c is sep then some ("", s) else none
]

-- `sep in s`
unfoldable pub has_char : Char → String → Bool
has_char sep String.[] = false
has_char sep (String.◌∷◌ c s) = c is sep || has_char sep s

-- the white space of `str.strip()`
unfoldable pub is_space : Char → Bool
is_space c =
    let n = code c in
    (leb 9 n && leb n 13)
    || (leb 28 n && leb n 32)
    || n == 133
    || n == 160
    || n == 5760
    || (leb 8192 n && leb n 8202)
    || n == 8232
    || n == 8233
    || n == 8239
    || n == 8287
    || n == 12288

-- the first word, as far as it goes, and the words behind it
unfoldable pub word_parts : String → String × List String
unfolding is_space
word_parts String.[] = ("", [])
word_parts (String.◌∷◌ c s) =
    let (word, rest) = word_parts s in
    if is_space c
    then ("", if is_empty word then rest else word ∷ rest)
    else (String.◌∷◌ c word, rest)

-- `s.split()`
unfoldable pub words : String → List String
unfolding word_parts
words s = let (word, rest) = word_parts s in if is_empty word then rest else word ∷ rest

-- the characters that end a line for `str.splitlines()`
abbrev is_break : Char → Bool
is_break c =
    let n = code c in
    (leb 10 n && leb n 13) || (leb 28 n && leb n 30) || n == 133 || n == 8232 || n == 8233

abbrev starts_newline : String → Bool
starts_newline String.[] = false
starts_newline (String.◌∷◌ c s) = c is "\n"

-- `s.splitlines()`; a return and a newline in a row end one line
unfoldable pub lines : String → List String
lines String.[] = []
lines (String.◌∷◌ c s) =
    let rest = lines s in
    if c is "\r" && starts_newline s then rest else if is_break c then "" ∷ rest else push c rest

unfoldable pub lstrip_by : (Char → Bool) → String → String
lstrip_by p String.[] = ""
lstrip_by p (String.◌∷◌ c s) = if p c then lstrip_by p s else String.◌∷◌ c s

unfoldable pub rstrip_by : (Char → Bool) → String → String
rstrip_by p String.[] = ""
rstrip_by p (String.◌∷◌ c s) =
    let rest = rstrip_by p s in if is_empty rest && p c then "" else String.◌∷◌ c rest

-- `s.strip()`
unfoldable pub strip : String → String
unfolding is_space lstrip_by rstrip_by
strip s = rstrip_by is_space (lstrip_by is_space s)

-- `s[:n]`
unfoldable pub take : ℕ → String → String
take zero s = ""
take (suc n) String.[] = ""
take (suc n) (String.◌∷◌ c s) = String.◌∷◌ c (take n s)

-- `s[-n:]`
unfoldable pub take_last : ℕ → String → String
take_last n String.[] = ""
take_last n (String.◌∷◌ c s) =
    let rest = take_last n s in if ltb (String.count s) n then String.◌∷◌ c s else rest

-- `s[len(p):]` if `s.startswith(p)`
unfoldable pub strip_prefix : String → String → Option String
strip_prefix String.[] s = some s
strip_prefix (String.◌∷◌ d p) String.[] = none
strip_prefix (String.◌∷◌ d p) (String.◌∷◌ c s) = if c is d then strip_prefix p s else none

unfoldable pub every : (Char → Bool) → String → Bool
every p String.[] = true
every p (String.◌∷◌ c s) = p c && every p s

-- the ASCII capitals with their small letters
abbrev capitals : List (Char × Char)
capitals =
    ("A", "a")
    ∷ ("B", "b")
    ∷ ("C", "c")
    ∷ ("D", "d")
    ∷ ("E", "e")
    ∷ ("F", "f")
    ∷ ("G", "g")
    ∷ ("H", "h")
    ∷ ("I", "i")
    ∷ ("J", "j")
    ∷ ("K", "k")
    ∷ ("L", "l")
    ∷ ("M", "m")
    ∷ ("N", "n")
    ∷ ("O", "o")
    ∷ ("P", "p")
    ∷ ("Q", "q")
    ∷ ("R", "r")
    ∷ ("S", "s")
    ∷ ("T", "t")
    ∷ ("U", "u")
    ∷ ("V", "v")
    ∷ ("W", "w")
    ∷ ("X", "x")
    ∷ ("Y", "y")
    ∷ ("Z", "z")
    ∷ []

unfoldable pub lower_by : List (Char × Char) → Char → Char
lower_by [] c = c
lower_by ((d, small) ∷ l) c = if c is d then small else lower_by l c

-- `s.lower()` of ASCII text
unfoldable pub lower : String → String
unfolding lower_by
lower String.[] = ""
lower (String.◌∷◌ c s) = String.◌∷◌ (lower_by capitals c) (lower s)

-- one decimal digit
abbrev digit : ℕ → String
digit zero = "0"
digit (suc zero) = "1"
digit (suc (suc zero)) = "2"
digit (suc (suc (suc zero))) = "3"
digit (suc (suc (suc (suc zero)))) = "4"
digit (suc (suc (suc (suc (suc zero))))) = "5"
digit (suc (suc (suc (suc (suc (suc zero)))))) = "6"
digit (suc (suc (suc (suc (suc (suc (suc zero))))))) = "7"
digit (suc (suc (suc (suc (suc (suc (suc (suc zero)))))))) = "8"
digit _ = "9"

-- the decimal digits of `n`, for fuel above `n`
unfoldable pub show_fuel : ℕ → ℕ → String
show_fuel zero n = ""
show_fuel (suc f) n =
    let more = String.◌++◌ (show_fuel f (n / 10)) (digit (n % 10)) in
    if ltb n 10 then digit n else more

-- `str(n)` of a natural number
unfoldable pub show_nat : ℕ → String
unfolding show_fuel
show_nat n = show_fuel (suc n) n

-- Any fuel above `n` is enough.
pub show_fuel-enough : (f g n : ℕ) → n < f → n < g → show_fuel f n ≡ show_fuel g n
unfolding show_fuel
show_fuel-enough zero g n h k = ground arith
show_fuel-enough (suc f) zero n h k = ground arith
show_fuel-enough (suc f) (suc g) n h k = elim (Bool-cases (ltb n 10)) [
  | inl e ↦ rw e refl
  | inr e ↦ rw e (
      ap (λ s. String.◌++◌ s (digit (n % 10)))
        (show_fuel-enough f g (n / 10) (ground arith) (ground arith)))
]

-- the value of a decimal digit
unfoldable pub digit_value : Char → Option ℕ
digit_value c = let n = code c in if leb 48 n && leb n 57 then some (n - 48) else none

unfoldable pub is_digit : Char → Bool
is_digit c = leb 48 (code c) && leb (code c) 57

-- `int(s)` of decimal digits, behind the digits read so far
unfoldable pub read_digits : ℕ → String → ℕ
read_digits n String.[] = n
read_digits n (String.◌∷◌ c s) = read_digits (n * 10 + (code c - 48)) s

show_tests : (show_nat 0 ≡ "0") × (show_nat 1073741824 ≡ "1073741824")
unfolding show_nat
show_tests = (refl, refl)

split_test : split "." "a.b.." ≡ "a" ∷ "b" ∷ "" ∷ "" ∷ []
unfolding split
split_test = refl

strip_test : strip "  a b\t" ≡ "a b"
unfolding strip
strip_test = refl

lines_test : lines "a b\r\n\nc\n" ≡ "a b" ∷ "" ∷ "c" ∷ []
unfolding lines
lines_test = refl

words_test : words "  30 2\t* " ≡ "30" ∷ "2" ∷ "*" ∷ []
unfolding words
words_test = refl
