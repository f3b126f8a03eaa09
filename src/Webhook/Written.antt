-- ===== src/Webhook/Written.antt =====
-- The trigger files that `_push_target` of the receiver writes, and what a failed write leaves.
use bay.Prelude.{ℕ, String, Bool, true, false, Option, none, some, [], ◌∷◌}
use bay.Prelude.Assoc.{Assoc, insert, lookup}
use bay.Prelude.Text.{concat, take}
use bay.Prelude.Result.{Exn, Result, ok, err}

-- The text of each waiting trigger file, by service.
abbrev pub Triggers : Type 0
Triggers = Assoc String

-- the text of a normal trigger, and of one that only tags
unfoldable pub normal_trigger : String → String
normal_trigger corr = concat (corr ∷ "\n" ∷ [])

unfoldable pub tag_trigger : String → String
tag_trigger corr = concat (corr ∷ "\n" ∷ "no_input_change" ∷ [])

-- Where a trigger cannot be written: in front of the write, or in it, when the file is there with
-- the first characters of the text.
pub data Fault : Type 0 where
  at_open : Exn → Fault
  at_write : Exn → ℕ → Fault

-- `trigger_path.open("x")` and its write: a trigger that waits is kept
abbrev pub create :
    Option Fault → String → String → Triggers → Option String → Result (Unit {0}) × Triggers
create (some (at_open e)) service content triggers waiting = (err e, triggers)
create (some (at_write e n)) service content triggers none =
    (err e, insert service (take n content) triggers)
create (some (at_write e n)) service content triggers (some waiting) = (ok tt, triggers)
create none service content triggers none = (ok tt, insert service content triggers)
create none service content triggers (some waiting) = (ok tt, triggers)

-- `trigger_path.write_text`
abbrev pub replace : Option Fault → String → String → Triggers → Result (Unit {0}) × Triggers
replace (some (at_open e)) service content triggers = (err e, triggers)
replace (some (at_write e n)) service content triggers =
    (err e, insert service (take n content) triggers)
replace none service content triggers = (ok tt, insert service content triggers)

-- writing a trigger, where the disk may raise
abbrev pub write_trigger :
    (tag_only : Bool) → Option Fault → String → String → Triggers → Result (Unit {0}) × Triggers
write_trigger true fault service corr triggers =
    create fault service (tag_trigger corr) triggers (lookup service triggers)
write_trigger false fault service corr triggers =
    replace fault service (normal_trigger corr) triggers
