-- ===== src/Receipt/Reported.antt =====
-- The receipt of a pass: what `build_receipt` makes of the report that `reconcile` prints and of its exit
-- code.
use mathlib.Core.Path.{subst}
use mathlib.Core.Option.{some-injective}
use bay.Prelude.{
  ℕ, String, Bool, true, false, ◌≡◌, ◌≢◌, ◌↔◌, inl, inr, refl, some, List, [], ◌∷◌, map,
  if◌then◌else◌, ◌==◌, sym, ap, ◌∙◌, arith, Bool-cases, string_eq,
}
use bay.Prelude.Assoc.{In-map, Assoc, lookup, In, All, keep, All-of_In, All-In}
use bay.Prelude.Int.{pos}
use bay.Prelude.Result.{ok}
use bay.Prelude.Text.{is_empty_iff}
use bay.Json.{
  Value, Items, Fields, nil, cons, end, field, text, bool, int, arr, obj, Python, items, fields,
  str,
}
use bay.Model.{
  ActionStatus, done, skipped, failed, ActionResult, ResultRow, is_failed, result_rows, any_done,
  report_ok, failures, kind, action_target, Action, no_op, create, recreate, canary_swap, remove,
}
use bay.Receipt.{equals}
use bay.Receipt.Build.{
  is_zero, says_true, Receipt, mappings, result_name, receipt_action, receipt_actions,
  build_receipt,
}
use bay.Receipt.Tally.{Fails}
use bay.Receipt.Rows.{Marked, Succeeded, build_receipt-Marked}

-- the value of a status
abbrev pub status_text : ActionStatus → String
status_text done = "done"
status_text skipped = "skipped"
status_text failed = "failed"

-- a result as JSON
abbrev pub result_fields : ResultRow → Fields
result_fields r = field "kind" (text r.kind) (
    field "name" (text r.name)
      (field "status" (text (status_text r.status)) (field "detail" (text r.detail) end)))

unfoldable pub results_json : List ResultRow → Items
results_json [] = nil
results_json (r ∷ l) = cons (obj (result_fields r)) (results_json l)

-- what `reconcile` prints of a pass
unfoldable pub report_json : Fields → Value → List ActionResult → Assoc Value
unfolding results_json result_rows report_ok any_done
report_json plan state rs =
    ("plan", obj plan)
    ∷ ("ok", bool (report_ok rs))
    ∷ ("changed", bool (any_done rs))
    ∷ ("results", arr (results_json (result_rows rs)))
    ∷ ("state", state)
    ∷ []

-- An action on the name has failed.
abbrev pub FailedOn : List ActionResult → String → Type 0
FailedOn rs name =
    (r : ActionResult) × In r rs × (action_target r.action ≡ name) × (is_failed r ≡ true)

abbrev row_of : ActionResult → Assoc Value
row_of r =
    ("kind", text (kind r.action))
    ∷ ("name", text (action_target r.action))
    ∷ ("status", text (status_text r.status))
    ∷ ("detail", text r.detail)
    ∷ []

mappings-results :
    (rs : List ActionResult) → mappings (items (results_json (result_rows rs))) ≡ map row_of rs
unfolding mappings items results_json result_rows fields
mappings-results [] = refl
mappings-results (r ∷ l) = ap (◌∷◌ (row_of r)) (mappings-results l)

known_kind : (a : Action) → (s : String) × (lookup (kind a) receipt_actions ≡ some s)
unfolding kind lookup
known_kind (no_op name) = (_, refl)
known_kind (create spec) = (_, refl)
known_kind (recreate spec reason) = (_, refl)
known_kind (canary_swap spec reason) = (_, refl)
known_kind (remove name reason) = (_, refl)

status_failed :
    (s : ActionStatus) → (status_text s == "failed") ≡ elim s [ failed ↦ true | _ ↦ false ]
status_failed done = refl
status_failed skipped = refl
status_failed failed = refl

from_map :
    {A B : Type 0} (f : A → B) (b : B) (l : List A) → In b (map f l) → (a : A) × In a l × (b ≡ f a)
from_map f b [] m = absurd m
from_map f b (x ∷ l) (inl e) = (x, inl refl, e)
from_map f b (x ∷ l) (inr m) = let (a, k, e) = from_map f b l m in (a, inr k, e)

report_fine :
    (r : ActionResult) (l : List ActionResult)
    → is_failed r ≡ false
    → report_ok (r ∷ l) ≡ report_ok l
unfolding report_ok failures keep
report_fine r l e = ground (arith, e)

report_failed :
    (r : ActionResult) (l : List ActionResult) → is_failed r ≡ true → report_ok (r ∷ l) ≡ false
unfolding report_ok failures keep
report_failed r l e = ground (arith, e)

report_ok_iff : (rs : List ActionResult) → (report_ok rs ≡ true) ↔ All (λ r. is_failed r ≡ false) rs
report_ok_iff [] = unfold report_ok failures keep in (λ e. tt, λ e. refl)
report_ok_iff (r ∷ l) =
    let ih = report_ok_iff l in
    elim (Bool-cases (is_failed r)) [
      | inl e ↦ (λ h. cc (h, report_failed r l e), λ h. cc (h.0, e))
      | inr e ↦ (λ h. (e, ih.0 (sym (report_fine r l e) ∙ h)), λ h. report_fine r l e ∙ ih.1 h.1)
    ]

-- the exit code of `reconcile`
abbrev pub pass_code : List ActionResult → ℕ
pass_code rs = if report_ok rs then 0 else 1

-- A row has a name, and is marked as failed exactly if an action on that name has failed.
abbrev pub Told : List ActionResult → Assoc Value → Type 0
Told rs row =
    (name : String) × (lookup "name" row ≡ some (text name))
    × ((b : Bool) × (lookup "failed" row ≡ some (bool b))
        × ((b ≡ true) ↔ ((name ≢ "") × FailedOn rs name)))

module _ (py : Python) where
  row_action :
      (r : ActionResult)
      → action_target r.action ≢ ""
      → (a : String) × (receipt_action py (row_of r) ≡ some a)
  unfolding receipt_action lookup str
  row_action r named =
      let (a, e) = known_kind r.action in
      (a, ground (arith, is_empty_iff (action_target r.action), e))

  row_named :
      (r : ActionResult) (a : String)
      → receipt_action py (row_of r) ≡ some a
      → action_target r.action ≢ ""
  unfolding receipt_action lookup str
  row_named r a e empty = ground (arith, is_empty_iff (action_target r.action))

  Fails-iff :
      (rs : List ActionResult) (name : String)
      → Fails py (map row_of rs) name ↔ ((name ≢ "") × FailedOn rs name)
  unfolding lookup str
  Fails-iff rs name = (
    λ (x, m, target, (a, known), f).
        let (r, k, e) = from_map row_of x rs m in
        let same : action_target r.action ≡ name = ap (result_name py) (sym e) ∙ target in
        (
          λ empty. row_named r a (ap (receipt_action py) (sym e) ∙ known) (same ∙ empty),
          (
            r,
            k,
            same,
            sym (status_failed r.status)
                ∙ (ap (λ v. equals (lookup "status" v) "failed") (sym e) ∙ f),
          ),
        ),
    λ (named, (r, m, target, f)). (
      row_of r,
      In-map row_of r rs m,
      target,
      row_action r (λ e. named (sym target ∙ e)),
      status_failed r.status ∙ f,
    ),
  )

  Marked-Told :
      (rs : List ActionResult) (row : Assoc Value)
      → Marked py (mappings (items (results_json (result_rows rs)))) row
      → Told rs row
  Marked-Told rs row marked =
      let (name, here, (b, flag, means)) : Marked py (map row_of rs) row =
        subst (λ l. Marked py l row) (mappings-results rs) marked in
      let back = Fails-iff rs name in
      (name, here, (b, flag, (λ e. back.0 (means.0 e), λ f. means.1 (back.1 f))))

  fine_iff :
      (meta : Assoc Value) (plan : Fields) (state : Value) (rs : List ActionResult)
      → lookup "reconcile_rc" meta ≡ some (int (pos (pass_code rs)))
      → Succeeded py meta (some (report_json plan state rs)) ↔ (report_ok rs ≡ true)
  unfolding report_json lookup
  fine_iff meta plan state rs code = (
    λ (x, same, zero, says). ap (says_true py) (ap (lookup "ok") (some-injective _ _ same)) ∙ says,
    λ e. (_, refl, ap (is_zero py) code ∙ rw e refl, e),
  )

  listed_results :
      (plan : Fields) (state : Value) (rs : List ActionResult)
      → lookup "results" (report_json plan state rs) ≡ some (arr (results_json (result_rows rs)))
  unfolding report_json lookup
  listed_results plan state rs = refl

  -- A receipt that is built from the report that a pass has printed and from its exit code, with a
  -- list of containers in the bundle: its result is `ok` exactly if no action of the pass has
  -- failed, and each of its rows is marked as failed exactly if its name is not empty and an
  -- action of the pass on that name has failed.
  pub build_receipt-Told :
      (rendered_routes : String → Value) (now : String) (meta bundle : Assoc Value) (plan : Fields)
      (state : Value) (rs : List ActionResult) (entries : Items) (receipt : Receipt)
      → lookup "reconcile_rc" meta ≡ some (int (pos (pass_code rs)))
      → lookup "containers" bundle ≡ some (arr entries)
      → build_receipt py rendered_routes now meta bundle (some (report_json plan state rs))
        ≡ ok receipt
      → ((receipt.result ≡ "ok") ↔ All (λ r. is_failed r ≡ false) rs)
        × All (Told rs) receipt.containers
  build_receipt-Told rendered_routes now meta bundle plan state rs entries receipt code wanted
        built =
      let (names, marked, outcome) =
        build_receipt-Marked py rendered_routes now meta bundle (some (report_json plan state rs))
          (results_json (result_rows rs)) entries receipt (listed_results plan state rs) wanted
          built in
      let one = fine_iff meta plan state rs code in
      let two = report_ok_iff rs in
      (
        (λ e. two.0 (one.0 (outcome.0 e)), λ h. outcome.1 (one.1 (two.1 h))),
        All-of_In (Told rs) receipt.containers
            (λ row m. Marked-Told rs row (All-In _ receipt.containers row marked m)),
      )
