-- ===== src/Prelude/Result.antt =====
-- A Python function that may raise returns a Result; an exception is its class name and its text.
use Prim.Native.String.{String}

pub record Exn : Type 0 where
  pub class_name : String
  pub message : String

pub data Result {ℓ} (V : Type ℓ) : Type ℓ where
  err : Exn → Result V
  ok : V → Result V

-- an exception skips what follows
abbrev pub ◌>>=◌ {ℓ κ} : {V : Type ℓ} {W : Type κ} (m : Result V) (next : V → Result W) → Result W
err raised >>= next = err raised
ok value >>= next = next value

infixl 5 ◌>>=◌
-- `raise ValueError(message)`
abbrev pub value_error {ℓ} : {A : Type ℓ} → String → Result A
value_error message = err (record { class_name = "ValueError"; message = message })
