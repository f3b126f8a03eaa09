-- ===== src/Tests/Executing.antt =====
-- executor.py: the actions of the sample box.
use bay.Prelude.{
  String, ◌≡◌, refl, false, none, some, [], ◌∷◌, map, ◌==◌, string_eq, if◌then◌else◌, ◌≢◌, inl, inr,
  Bool-cases, eq_iff,
}
use bay.Prelude.Result.{ok}
use bay.Model.{canary_swap, remove}
use bay.Executor.{apply, stop_then_remove}
use bay.Executor.Calls.{ret, perform, ◌>>=◌}
use bay.Executor.Hoare.{Wp}
use bay.Executor.Gates.{gate, needs_release, Any, apply-gate}
use bay.Executor.Fleet.{Fleet, fleet, Own, OnOk, Achieved}
use bay.Executor.Outcome.{apply-Achieved}
use bay.Executor.Pool.{
  action_of, Interleaving, start, step, answered, submit, Reported, pool-Reported,
}
use bay.Samples.{web, defaults, two_attempts}

apply-gate_example :
    Wp
      (gate (needs_release (canary_swap web "changed")))
      (apply two_attempts defaults (canary_swap web "changed"))
      Any
      false
apply-gate_example = apply-gate two_attempts defaults (canary_swap web "changed")

abbrev pub two : Fleet
two n = if n == "job" then some web else if n == "web" then some web else none

abbrev pub one : Fleet
one n = if n == "job" then none else if n == "web" then some web else none

apply-Achieved_example :
    Wp
      (fleet (Own two_attempts defaults (canary_swap web "changed")))
      (apply two_attempts defaults (canary_swap web "changed"))
      (OnOk (Achieved two_attempts defaults (canary_swap web "changed")))
      two
apply-Achieved_example = apply-Achieved two_attempts defaults (canary_swap web "changed") two

only_job : (n : String) → n ≢ "job" → two n ≡ one n
only_job n t = elim (Bool-cases (n == "job")) [
  | inl e ↦ absurd (t ((eq_iff n "job").0 e))
  | inr e ↦ rw e
]

pub removal :
    (reason : String)
    → Interleaving 8
        (submit two_attempts defaults (remove "job" reason ∷ []))
        two
        ((remove "job" reason, ret "removed job") ∷ [])
        one
unfolding submit apply stop_then_remove perform ◌>>=◌
removal reason =
    step (step start (answered (ok tt) ((λ n t. refl), refl))) (answered (ok tt) (only_job, refl))

pool-Reported_example :
    (map action_of ((remove "job" "orphan", ret "removed job") ∷ []) ≡ remove "job" "orphan" ∷ [])
    × Reported two_attempts defaults ((remove "job" "orphan", ret "removed job") ∷ []) one
pool-Reported_example =
    pool-Reported two_attempts defaults 8 (remove "job" "orphan" ∷ []) two one
      ((remove "job" "orphan", ret "removed job") ∷ []) (tt, tt) (removal "orphan")
