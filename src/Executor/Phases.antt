-- ===== src/Executor/Phases.antt =====
-- `execute` and `_run_phase` of executor.py: the phases of a plan and the order of the report.
-- `sorted(done, key=position)` orders by the identity of the actions; so an action and its result carry
-- their position in the phase here. The pool behind `_run_batch` is a function that returns the
-- results of a batch.
pub mod Report
pub mod Rounds
pub mod Separate
use bay.Prelude.{
  ℕ, suc, zero, Bool, true, false, not, ◌&&◌, List, [], ◌∷◌, ◌++◌, map, ltb, ◌==◌, nat_eq,
  if◌then◌else◌,
}
use bay.Prelude.Assoc.{keep}
use bay.Model.{
  ContainerType, service, accessory, infra, Action, no_op, create, recreate, canary_swap, remove,
  Plan, ActionResult, skipped, is_no_op,
}

-- `_PHASE_ORDER`
abbrev pub phase_order : ContainerType → ℕ
phase_order infra = 0
phase_order accessory = 1
phase_order service = 2

abbrev pub is_canary : Action → Bool
is_canary (canary_swap spec reason) = true
is_canary _ = false

abbrev pub is_remove : Action → Bool
is_remove (remove name reason) = true
is_remove _ = false

-- a change whose type belongs to the phase
abbrev pub in_phase : ℕ → Action → Bool
in_phase phase (create spec) = phase_order spec.type == phase
in_phase phase (recreate spec reason) = phase_order spec.type == phase
in_phase phase (canary_swap spec reason) = phase_order spec.type == phase
in_phase phase _ = false

-- `batch` of a phase
unfoldable pub phase_batch : ℕ → Plan → List Action
phase_batch phase p = keep (in_phase phase) p

unfoldable pub removes : Plan → List Action
removes p = keep is_remove p

abbrev pub Placed : Type 0 → Type 0
Placed A = ℕ × A

-- `enumerate(batch)`
unfoldable pub enumerate : ℕ → List Action → List (Placed Action)
enumerate n [] = []
enumerate n (a ∷ l) = (n, a) ∷ enumerate (suc n) l

module _ {A : Type 0} where
  unfoldable pub insert_placed : Placed A → List (Placed A) → List (Placed A)
  insert_placed x [] = x ∷ []
  insert_placed x (y ∷ l) =
      let rest = insert_placed x l in if ltb y.0 x.0 then y ∷ rest else x ∷ y ∷ l

  -- `sorted(…, key=position)`, stable
  unfoldable pub by_position : List (Placed A) → List (Placed A)
  by_position [] = []
  by_position (x ∷ l) = insert_placed x (by_position l)

  abbrev pub value : Placed A → A
  value x = x.1

-- `_run_batch` for a number of workers
abbrev pub Runner : Type 0
Runner = ℕ → List (Placed Action) → List (Placed ActionResult)

abbrev pub placed_canary : Placed Action → Bool
placed_canary x = is_canary x.1

abbrev pub other : Placed Action → Bool
other x = not (is_canary x.1)

-- `_run_phase`
unfoldable pub run_phase : Runner → ℕ → List Action → List ActionResult
run_phase runner max_workers batch =
    let actions = enumerate 0 batch in
    map value (
      by_position
        (runner max_workers (keep other actions) ++ runner 1 (keep placed_canary actions)))

abbrev pub skipped_result : Action → ActionResult
skipped_result a = record { action = a; status = skipped; detail = "config-hash match" }

-- `execute`: the results of its report
unfoldable pub execute : Runner → ℕ → Plan → List ActionResult
execute runner max_workers p =
    map skipped_result (keep is_no_op p)
    ++ (run_phase runner max_workers (phase_batch 0 p)
        ++ (run_phase runner max_workers (phase_batch 1 p)
            ++ (run_phase runner max_workers (phase_batch 2 p)
                ++ map value (runner max_workers (enumerate 0 (removes p))))))
