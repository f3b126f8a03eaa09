-- ===== src/Planner/Memory.antt =====
-- Docker's memory sizes, and the reason that names a difference in the caps (planner.py).
-- A digit is an ASCII digit.
use Prim.Native.Char.{code}
use Prim.Native.Nat.{◌^◌}
use bay.Prelude.{
  ℕ, ◌*◌, ◌/◌, ◌%◌, String, Bool, ◌||◌, Option, none, some, List, [], ◌∷◌, ◌++◌, ◌==◌, nat_eq,
  option_eq, if◌then◌else◌, ◌≡◌, refl,
}
use bay.Prelude.Int.{ℤ, pos, negsuc, int_eq, double}
use bay.Prelude.Text.{concat, join, strip, is_empty, is_digit, read_digits, show_nat}
use bay.Model.{ContainerSpec, ContainerState, is_set}

-- the digits in front of a text, and the rest
unfoldable pub span_digits : String → String × String
unfolding is_digit
span_digits String.[] = ("", "")
span_digits (String.◌∷◌ c s) =
    let (digits, rest) = span_digits s in
    if is_digit c then (String.◌∷◌ c digits, rest) else ("", String.◌∷◌ c s)

-- `_UNITS` of a letter in either case
unfoldable pub unit_of : ℕ → Option ℕ
unit_of c =
    if c == b'b' || c == b'B'
    then some 1
    else if c == b'k' || c == b'K'
    then some 1024
    else if c == b'm' || c == b'M'
    then some (1024 ^ 2)
    else if c == b'g' || c == b'G'
    then some (1024 ^ 3)
    else none

-- the group `([bkmg]?)b?` up to the end
unfoldable pub unit_suffix : String → Option ℕ
unfolding unit_of
unit_suffix String.[] = some 1
unit_suffix (String.◌∷◌ c String.[]) = unit_of (code c)
unit_suffix (String.◌∷◌ c (String.◌∷◌ d String.[])) =
    if code d == b'b' || code d == b'B' then unit_of (code c) else none
unit_suffix (String.◌∷◌ c (String.◌∷◌ d (String.◌∷◌ e s))) = none

unfoldable pub size_in_bytes : String → String → Option ℕ
unfolding read_digits unit_suffix
size_in_bytes digits rest =
    if is_empty digits
    then none
    else elim (unit_suffix rest) [ none ↦ none | some size ↦ some (read_digits 0 digits * size) ]

-- `_bytes`: `none` is a size that cannot be read
unfoldable pub bytes : Option String → Option ℕ
unfolding strip span_digits size_in_bytes
bytes none = some 0
bytes (some value) =
    if is_empty value
    then some 0
    else let (digits, rest) = span_digits (strip value) in size_in_bytes digits rest

-- `_fmt_bytes`
unfoldable pub fmt_bytes : ℤ → String
unfolding concat show_nat
fmt_bytes (negsuc n) = "unlimited"
fmt_bytes (pos n) =
    if n == 0
    then "none"
    else if n % 1024 ^ 3 == 0
    then concat (show_nat (n / 1024 ^ 3) ∷ "g" ∷ [])
    else if n % 1024 ^ 2 == 0
    then concat (show_nat (n / 1024 ^ 2) ∷ "m" ∷ [])
    else if n % 1024 == 0
    then concat (show_nat (n / 1024) ∷ "k" ∷ [])
    else concat (show_nat n ∷ "b" ∷ [])

abbrev or_zero : Option ℤ → ℤ
or_zero none = pos 0
or_zero (some n) = n

-- whether the observed swap cap is what the spec asks for
unfoldable pub swap_ok : ContainerSpec → ContainerState → ℕ → ℤ → Bool
unfolding double
swap_ok spec state want_swap swap =
    if is_set spec.memswap_limit
    then swap == pos want_swap
    else swap == pos 0 || swap == double (or_zero state.memory)

unfoldable pub mem_part : ContainerState → ℕ → List String
unfolding concat
mem_part state want_mem = elim state.memory [
  | none ↦ []
  | some m ↦
      if m == pos want_mem
      then []
      else concat ("mem_limit " ∷ fmt_bytes m ∷ " -> " ∷ fmt_bytes (pos want_mem) ∷ []) ∷ []
]

unfoldable pub swap_part : ContainerSpec → ContainerState → ℕ → List String
unfolding concat
swap_part spec state want_swap = elim state.memory_swap [
  | none ↦ []
  | some swap ↦
      if swap_ok spec state want_swap swap
      then []
      else concat (
          "memswap_limit "
          ∷ fmt_bytes swap
          ∷ " -> "
          ∷ (if is_set spec.memswap_limit then fmt_bytes (pos want_swap) else "docker's default")
          ∷ [])
        ∷ []
]

abbrev memory_parts : List String → Option String
memory_parts [] = none
memory_parts (p ∷ l) = some (concat ("memory: " ∷ join ", " (p ∷ l) ∷ []))

-- `_memory_reason`
unfoldable pub memory_reason : ContainerSpec → ContainerState → Option String
unfolding bytes mem_part swap_part concat join swap_ok fmt_bytes
memory_reason spec state = elim (bytes spec.mem_limit) [
  | none ↦ none
  | some want_mem ↦ elim (bytes spec.memswap_limit) [
    | none ↦ none
    | some want_swap ↦ memory_parts (mem_part state want_mem ++ swap_part spec state want_swap)
  ]
]

sizes :
    (bytes (some " 512m ") ≡ some 536870912)
    × (bytes (some "2Gb") ≡ some 2147483648)
    × (bytes (some "7x") ≡ none)
    × (fmt_bytes (pos 536870912) ≡ "512m")
unfolding bytes fmt_bytes
sizes = (refl, refl, refl, refl)
