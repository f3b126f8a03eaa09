-- ===== src/Codepin/Commits.antt =====
-- A commit is written in hex digits, so it is none of the tags that move.
use Prim.Native.String
use bay.Prelude.{
  String, Bool, true, false, ◌≡◌, ◌≢◌, arith, sym, ap, ◌∙◌, false≢true, inl, inr, Bool-cases,
  nat_eq, leb,
}
use bay.Prelude.Text.{every, lower, take, ◌is◌}
use bay.Images.{is_commit, is_hex, before_newline, short}

-- the first character of a text
abbrev pub head_is_hex : String → Bool
head_is_hex String.[] = false
head_is_hex (String.◌∷◌ c s) = is_hex c

-- a text whose part before a newline at its end is long starts with a hex digit if that part does
front_hex :
    (s : String)
    → every is_hex (before_newline s) ≡ true
    → leb 7 (String.count (before_newline s)) ≡ true
    → head_is_hex (take 12 s) ≡ true
unfolding before_newline every take
front_hex String.[] h n = ground arith
front_hex (String.◌∷◌ c String.[]) h n = elim (Bool-cases (c is "\n")) [
  | inl e ↦ absurd (false≢true (rw e at n))
  | inr e ↦ let x : every is_hex (String.◌∷◌ c "") ≡ true = rw e at h in ground arith
]
front_hex (String.◌∷◌ c (String.◌∷◌ d s)) h n = ground arith

pub short_hex : (value : String) → is_commit value ≡ true → head_is_hex (short value) ≡ true
unfolding is_commit short
short_hex value h = front_hex (lower value) (ground arith) (ground arith)

-- a text that starts with another character is no commit
pub no_commit :
    (value word : String) → is_commit value ≡ true → head_is_hex word ≡ false → short value ≢ word
no_commit value word h w e = false≢true (sym w ∙ sym (ap head_is_hex e) ∙ short_hex value h)
