-- ===== src/Executor.antt =====
-- executor.py of src/bay_reconcile: what the plan's actions do to the docker daemon.
-- Each function is a program over the calls of `Calls`. The thread pool and the phases are in the
-- child `Pool`; the proofs are in the other children.
pub mod Calls
pub mod Hoare
pub mod Gates
pub mod Fleet
pub mod Outcome
pub mod Pool
pub mod Phases
use bay.Prelude.{
  ℕ, zero, suc, String, Bool, true, false, not, ◌||◌, Option, none, some, [], ◌∷◌, ◌==◌, string_eq,
  option_eq, if◌then◌else◌,
}
use bay.Prelude.Int.{ℤ, pos, int_eq, show_int, is_positive}
use bay.Prelude.Result.{Exn}
use bay.Prelude.Text.{concat, is_empty, take_last}
use bay.Model.{
  ContainerSpec, ContainerState, Command, line, argv, Action, no_op, create, recreate, canary_swap,
  remove, ReconcilerConfig,
}
use Calls.{Prog, Call, ret, throw, perform, try, choose, ◌>>=◌, ◌>>◌}

-- `bool(spec.release)`
abbrev pub has_release : Option Command → Bool
has_release none = false
has_release (some (line s)) = not (is_empty s)
has_release (some (argv [])) = false
has_release (some (argv (a ∷ l))) = true

-- What Python's floats contribute: `int(timeout / max(poll, 0.001))`, and the format `:g`.
pub record Clock : Type 0 where
  pub attempts : String → String → ℕ
  pub show_g : String → String

module _ (clock : Clock) (cfg : ReconcilerConfig) where
  -- the exception of a release that did not exit with 0
  unfoldable pub release_failed : ContainerSpec → Option ℤ → String → Exn
  unfolding concat take_last show_int
  release_failed spec code tail =
      let what : String = elim code [
        | none ↦ concat ("timed out after " ∷ clock.show_g cfg.release_timeout ∷ "s" ∷ [])
        | some n ↦ concat ("exited " ∷ show_int n ∷ [])
      ] in
      let detail : String =
        if is_empty tail then "" else concat ("; last output: " ∷ take_last 500 tail ∷ []) in
      record {
        class_name = "ReleaseFailed";
        message =
            concat
              ("release of " ∷ spec.name ∷ " " ∷ what ∷ "; the old container stays" ∷ detail ∷ []);
      }

  -- `_release`
  unfoldable pub release : ContainerSpec → Prog (Unit {0})
  release spec = choose (not (has_release spec.release)) (ret tt) do
    (code, tail) ← perform (Call.run_release spec cfg.release_timeout)
    choose (code == some (pos 0)) (ret tt) (throw (release_failed spec code tail))

  -- `_stop_then_remove`
  unfoldable pub stop_then_remove : String → Prog (Unit {0})
  stop_then_remove name = do perform (Call.stop name cfg.stop_timeout); perform (Call.remove name)

  -- `if not spec.build: client.pull(spec.image)`
  unfoldable pub pull_unless_build : ContainerSpec → Prog (Unit {0})
  pull_unless_build spec = choose spec.build (ret tt) (perform (Call.pull spec.image))

  -- `if attempt < attempts - 1: time.sleep(…)`, by the attempts that are left
  unfoldable pub sleep_unless_last : ℕ → Prog (Unit {0})
  sleep_unless_last zero = ret tt
  sleep_unless_last (suc left) = perform (Call.sleep cfg.healthcheck_poll)

  -- The loop of `_wait_healthy`, by the attempts that are left.
  unfoldable pub poll_health : ℕ → String → Prog Bool
  poll_health zero name = ret false
  poll_health (suc left) name = do
    state ← perform (Call.inspect name)
    choose (is_positive state.restart_count) (ret false) (
        choose (state.health == none || state.health == some "healthy") (ret true)
          do sleep_unless_last left; poll_health left name)

  -- `_wait_healthy`
  unfoldable pub wait_healthy : String → Prog Bool
  wait_healthy name =
      let n = clock.attempts cfg.healthcheck_timeout cfg.healthcheck_poll in
      poll_health (elim n [ zero ↦ 1 | suc k ↦ suc k ]) name

  unfoldable pub canary_name : ContainerSpec → String
  unfolding concat
  canary_name spec = concat (spec.name ∷ cfg.canary_suffix ∷ [])

  -- the `try` body of `_canary_swap`
  unfoldable pub promote : ContainerSpec → Prog String
  unfolding concat
  promote spec = do
    healthy ← wait_healthy (canary_name spec)
    choose (not healthy)
        (throw (record {
          class_name = "_CanaryUnhealthy";
          message = concat (canary_name spec ∷ " did not become healthy" ∷ []);
        }))
        do
          stop_then_remove spec.name
          perform (Call.rename (canary_name spec) spec.name)
          ret (concat ("canary-swapped " ∷ spec.name ∷ []))

  -- its `except` block
  unfoldable pub rescue : ContainerSpec → Exn → Prog String
  unfolding concat
  rescue spec exc = do
    stop_then_remove (canary_name spec)
    stop_then_remove spec.name
    perform (Call.create spec none)
    ret (concat ("recreated " ∷ spec.name ∷ " (canary fallback: " ∷ exc.class_name ∷ ")" ∷ []))

  -- `_canary_swap`
  unfoldable pub run_canary_swap : ContainerSpec → Prog String
  run_canary_swap spec = do
    pull_unless_build spec
    release spec
    perform (Call.create spec (some (canary_name spec)))
    try (promote spec) (rescue spec)

  -- `_apply`
  unfoldable pub apply : Action → Prog String
  unfolding concat
  apply (no_op name) = ret "noop"
  apply (create spec) = do
    pull_unless_build spec
    release spec
    perform (Call.create spec none)
    ret (concat ("created " ∷ spec.name ∷ []))
  apply (canary_swap spec reason) = run_canary_swap spec
  apply (recreate spec reason) = do
    pull_unless_build spec
    release spec
    stop_then_remove spec.name
    perform (Call.create spec none)
    ret (concat ("recreated " ∷ spec.name ∷ []))
  apply (remove name reason) = do stop_then_remove name; ret (concat ("removed " ∷ name ∷ []))
