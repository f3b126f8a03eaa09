-- ===== src/Tests/Running.antt =====
-- The entry point on a bundle that wants nothing and removes orphans.
use bay.Prelude.{ℕ, String, Bool, true, false, ◌≡◌, ◌↔◌, refl, none, List, [], ◌∷◌, map}
use bay.Prelude.Assoc.{lookup, contains}
use bay.Prelude.Result.{Result, ok}
use bay.Json.{bool}
use bay.Model.{summary, to_dict}
use bay.Planner.{plan}
use bay.Bundle.Settings.{Payload, load_bundle}
use bay.Executor.Phases.{execute}
use bay.Reconcile.{Host, Output, applied, says_ok, main, max_workers, main-code}
use bay.Samples.{box}
use bay.Tests.Phasing.{pool}
use bay.Tests.Planning.{interpreter}

abbrev payload : Payload
payload = record { values = ("remove_orphans", bool true) ∷ []; containers = [] }

abbrev read : String → Result Payload
read path = ok payload

abbrev host : Host
host = record {
  observe = λ label. ok box;
  runner = λ config. pool;
  observe_after = λ label. ok [];
  reads = record { image_id = none; image_tags = none };
}

abbrev report : Output
report =
    applied (summary (plan [] box true)) (to_dict (execute pool max_workers (plan [] box true))) []

runs : main interpreter host read ("bundle.json" ∷ []) ≡ ok (0, report)
unfolding main bay.Prelude.Text.strip_prefix load_bundle bay.Bundle.Settings.load_specs
    bay.Bundle.Settings.config lookup bay.Reconcile.reconcile contains bay.Model.report_ok
    bay.Bundle.Settings.flag_of bay.Status.state_after execute bay.Json.truthy plan
    bay.Executor.Phases.run_phase bay.Executor.Phases.by_position bay.Executor.Phases.enumerate
    bay.Executor.Phases.phase_batch bay.Executor.Phases.removes
runs = refl

main-code_example : (◌≡◌ {A = ℕ} 0 0) ↔ (says_ok report ≡ true)
main-code_example = main-code interpreter host read ("bundle.json" ∷ []) 0 report runs
