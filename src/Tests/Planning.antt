-- ===== src/Tests/Planning.antt =====
-- planner.py on a box with an outdated service and a leftover container.
use bay.Prelude.{◌≡◌, ◌↔◌, List, none, refl, true, false, [], ◌∷◌, map}
use bay.Prelude.Assoc.{All, contains, distinct}
use bay.Prelude.Int.{pos}
use bay.Prelude.Result.{ok}
use bay.Json.{Python}
use bay.Model.{action_target, is_noop, kind}
use bay.Observe.{desired_port_tuples}
use bay.Planner.{change, same_hash, plan, spec_name, up_to_date}
use bay.Planner.Decisions.{Justified, plan-Justified}
use bay.Planner.Coverage.{InPlace, NoOrphan, plan-is_noop}
use bay.Planner.Describe.{Entry, action_word, describe}
use bay.Planner.Reasons.{entry_name, entry_action, Explained, describe-Explained}
use bay.Samples.{web, box}

kinds : map kind (plan (web ∷ []) box true) ≡ "CanarySwap" ∷ "Remove" ∷ []
unfolding plan kind up_to_date change desired_port_tuples same_hash
kinds = refl

plan-Justified_example : All (Justified (web ∷ []) box true) (plan (web ∷ []) box true)
plan-Justified_example = plan-Justified (web ∷ []) box true

plan-is_noop_example :
    (is_noop (plan (web ∷ []) box true) ≡ true)
    ↔ (All (InPlace box) (web ∷ []) × (true ≡ true → NoOrphan (map spec_name (web ∷ [])) box))
plan-is_noop_example = plan-is_noop (web ∷ []) box true

-- the interpreter on the values of the sample, which hold no float
abbrev pub interpreter : Python
interpreter = record {
  show = λ v. "";
  nonzero = λ x. true;
  positive = λ x. true;
  infinite = λ x. false;
  truncate = λ x. none;
  int_of = λ v. ok (pos 0);
  sum_of = λ l. ok (pos 0);
  to_float = λ n. ok "1.0";
  repr = λ v. "";
}

describe-Explained_example :
    (entries : List Entry) × (describe interpreter (plan (web ∷ []) box true) (web ∷ []) box
      ≡ ok entries)
    × (map entry_name entries ≡ map action_target (plan (web ∷ []) box true))
    × (map entry_action entries ≡ map action_word (plan (web ∷ []) box true))
    × All (Explained interpreter (web ∷ []) box) entries
unfolding distinct contains
describe-Explained_example = describe-Explained interpreter (web ∷ []) box true refl
