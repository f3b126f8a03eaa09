-- ===== src/Webhook/Isolated.antt =====
-- A target of a push that raises does not stop the others.
use bay.Prelude.{ℕ, String, ◌≡◌, ◌⊎◌, some, [], ◌∷◌, string_eq}
use bay.Prelude.Text.{concat}
use bay.Prelude.Result.{Exn, Result, ok, err}
use bay.Webhook.Filter.{Pathspec}
use bay.Webhook.Written.{Triggers, at_open, at_write}
use bay.Webhook.Push.{Payload, Reply, failed, Box, notes}

abbrev pub name_of : String × Reply → String
name_of (name, reply) = name

module _ (pathspec : Pathspec) (box : Box) where
  -- The disk raises `e` for the trigger file of the service.
  abbrev pub DiskRaises : String → Exn → Type 0
  DiskRaises name e =
      (box.broken name ≡ some (at_open e)) ⊎ ((n : ℕ) × (box.broken name ≡ some (at_write e n)))

  -- The lookups in the payload raise `e`, or the disk does for the service's own trigger file.
  abbrev pub Raises : Payload → String → Exn → Type 0
  Raises payload name e = (notes pathspec box payload ≡ err e) ⊎ DiskRaises name e

  -- An error in the answer for a service is such an exception, by its class and its text.
  abbrev pub Explained : Payload → String × Reply → Type 0
  Explained payload (name, failed reason) =
      (e : Exn) × (reason ≡ concat (e.class_name ∷ ": " ∷ e.message ∷ [])) × Raises payload name e
  Explained payload (name, reply) = Unit

  abbrev ResultExplained : Payload → String → Result Reply × Triggers → Type 0
  ResultExplained payload name (err e, triggers) = Raises payload name e
  ResultExplained payload name (ok reply, triggers) = Explained payload (name, reply)

  -- a write that raises does so by the fault of the file
  abbrev WriteRaises : String → Result (Unit {0}) × Triggers → Type 0
  WriteRaises name (err e, triggers) = DiskRaises name e
  WriteRaises name (ok u, triggers) = Unit
