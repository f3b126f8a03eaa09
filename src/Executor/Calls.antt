-- ===== src/Executor/Calls.antt =====
-- The calls of docker_client.py (the Protocol `DockerClient`) and the programs that make them.
-- A program is a tree: it returns, raises, or makes one call and goes on with the answer. So what
-- is proved of a program holds for every answer of the docker daemon, and a thread of the pool can
-- be interrupted between any two calls.
use bay.Prelude.{String, Option, Bool, true, false}
use bay.Prelude.Int.{ℤ}
use bay.Prelude.Result.{Exn, Result, ok, err}
use bay.Model.{ContainerSpec, ContainerState}

pub data Call : Type 0 where
  pull : String → Call
  -- with the `name_override`
  create : ContainerSpec → Option String → Call
  stop : String → ℤ → Call
  remove : String → Call
  rename : String → String → Call
  inspect : String → Call
  run_release : ContainerSpec → String → Call
  -- `time.sleep`
  sleep : String → Call

-- what a call returns if it does not raise
abbrev pub Reply : Call → Type 0
Reply (inspect name) = ContainerState
Reply (run_release spec timeout) = Option ℤ × String
Reply _ = Unit

pub data Prog (A : Type 0) : Type 0 where
  ret : A → Prog A
  throw : Exn → Prog A
  call : (c : Call) → (Result (Reply c) → Prog A) → Prog A

module _ {A B : Type 0} where
  infixl 5 ◌>>=◌
  unfoldable pub ◌>>=◌ : Prog A → (A → Prog B) → Prog B
  ret a >>= f = f a
  throw e >>= f = throw e
  call c k >>= f = call c (λ r. k r >>= f)

infixl 5 ◌>>◌
abbrev pub ◌>>◌ : {B : Type 0} → Prog (Unit {0}) → Prog B → Prog B
m >> n = m >>= λ _. n

-- `try: m  except Exception as exc: handler(exc)`
unfoldable pub try : {A : Type 0} → Prog A → (Exn → Prog A) → Prog A
try (ret a) handler = ret a
try (throw e) handler = handler e
try (call c k) handler = call c (λ r. try (k r) handler)

-- an answer as a program: the value, or the exception
abbrev pub from_result : {A : Type 0} → Result A → Prog A
from_result (ok a) = ret a
from_result (err e) = throw e

unfoldable pub perform : (c : Call) → Prog (Reply c)
perform c = call c from_result

-- `if b: m  else: n`
unfoldable pub choose : {A : Type 0} → Bool → Prog A → Prog A → Prog A
choose true m n = m
choose false m n = n
