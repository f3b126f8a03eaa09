-- ===== src/Webhook/Triggers.antt =====
-- What a push does to the trigger files that wait, and how it answers for each sibling.
use bay.Prelude.{ℕ, String, ◌≡◌, ◌⊎◌, Option, none, some, string_eq}
use bay.Prelude.Text.{take}
use bay.Prelude.Result.{Exn, Result}
use bay.Webhook.Written.{Fault, at_write, normal_trigger, tag_trigger}

-- The text is there, or its first characters, where the disk has failed in the write.
abbrev pub Cut : Option Fault → String → Option String → Type 0
Cut fault content after =
    (after ≡ some content)
    ⊎ ((e : Exn) × (n : ℕ) × (fault ≡ some (at_write e n)) × (after ≡ some (take n content)))

-- What may become of the trigger of a service, by the fault of its file: it stays, or it is a normal
-- one behind, or there was none and it is one that only tags.
abbrev pub Waits : Option Fault → Option String → Option String → Type 0
Waits fault before after =
    (after ≡ before)
    ⊎ ((corr : String) × Cut fault (normal_trigger corr) after)
    ⊎ ((before ≡ none) × ((corr : String) × Cut fault (tag_trigger corr) after))
