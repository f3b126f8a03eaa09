-- ===== src/Tests/Phasing.antt =====
-- `execute` on the sample box.
use bay.Prelude.{String, ◌≡◌, refl, List, [], ◌∷◌, ◌++◌, map, ap, inl}
use bay.Prelude.Assoc.{keep}
use bay.Model.{Action, Plan, ActionResult, no_op, recreate, canary_swap, remove, done, is_no_op}
use bay.Executor.Calls.{ret}
use bay.Executor.Fleet.{Achieved}
use bay.Executor.Pool.{start, submit}
use bay.Executor.Phases.{Placed, Runner, execute, phase_batch, removes}
use bay.Executor.Phases.Report.{result_action, InOrder, execute-order}
use bay.Executor.Phases.Rounds.{AllDone, finished, round, rounds, execute-Achieved}
use bay.Tests.Executing.{one, two, removal}
use bay.Samples.{web, defaults, two_attempts}

abbrev pub done_all : List (Placed Action) → List (Placed ActionResult)
done_all [] = []
done_all ((n, a) ∷ l) = (n, record { action = a; status = done; detail = "" }) ∷ done_all l

abbrev pub pool : Runner
pool workers l = done_all l

pool-InOrder : InOrder pool
pool-InOrder workers [] = refl
pool-InOrder workers ((n, a) ∷ l) = ap (◌∷◌ (n, a)) (pool-InOrder workers l)

abbrev changes : Plan
changes =
    canary_swap web "changed" ∷ recreate web "changed" ∷ no_op "db" ∷ remove "job" "orphan" ∷ []

execute-order_example :
    map result_action (execute pool 8 changes)
    ≡ keep is_no_op changes
      ++ (phase_batch 0 changes
          ++ (phase_batch 1 changes ++ (phase_batch 2 changes ++ removes changes)))
execute-order_example = execute-order pool pool-InOrder 8 changes

abbrev pub removal_only : String → Plan
removal_only reason = remove "job" reason ∷ []

pub all_done :
    (reason : String) → AllDone two_attempts defaults (rounds 8 (removal_only reason)) two one
unfolding rounds phase_batch removes keep submit
all_done reason = round [] start tt (
    round [] start tt (
      round [] start tt (
        round [] start tt (
          round [] start tt (
            round [] start tt (
              round ((remove "job" reason, ret "removed job") ∷ []) (removal reason) (tt, tt)
                finished))))))

execute-Achieved_example : Achieved two_attempts defaults (remove "job" "orphan") one
unfolding rounds phase_batch removes keep
execute-Achieved_example =
    execute-Achieved two_attempts defaults 8 (removal_only "orphan") two one (tt, tt)
      (all_done "orphan") (remove "job" "orphan") (inl refl)
