-- ===== src/Tests/Recording.antt =====
-- receipt.py: the files of a receipt, and a receipt of a pass that failed for one container.
use bay.Prelude.{
  String, ◌≡◌, ◌≢◌, ◌↔◌, refl, false≢true, ap, Bool, true, false, Option, none, some, List, [], ◌∷◌,
  ◌++◌, map, ◌==◌, string_eq, if◌then◌else◌, eq_iff,
}
use bay.Prelude.Assoc.{Assoc, lookup, All, keep}
use bay.Prelude.Int.{pos}
use bay.Prelude.Result.{ok}
use bay.Json.{Value, Items, Fields, nil, cons, end, field, text, bool, int, arr, obj, null, items}
use bay.Receipt.Files.{
  Stored, stamp_main, env_matches, Disk, works, fails, Faults, Paths, write_receipt, returned,
}
use bay.Receipt.Atomic.{WholeRun, smooth, write_receipt-WholeRun}
use bay.Receipt.Build.{Receipt, build_receipt, mappings, result_name}
use bay.Receipt.Rows.{Marked, Succeeded, row_name, entry_name, build_receipt-Marked}
use bay.Receipt.Tally.{is_removal}
use bay.Model.{ActionResult, recreate, remove, done, failed, is_failed}
use bay.Receipt.{entry}
use bay.Receipt.Restamp.{SafeRun, stamp_main-SafeRun}
use bay.Receipt.Reported.{report_json, pass_code, Told, build_receipt-Told}
use bay.Samples.{web}
use bay.Tests.Planning.{interpreter}

abbrev prod : Paths
prod = record {
  path = "prod.json";
  previous = "prod.prev.json";
  tmp_previous = ".prod.prev.json.tmp";
  tmp = ".prod.json.tmp";
}

-- the rename of the receipt fails, and so does the removal of its temporary file
abbrev broken : Faults
broken = record {
  mkdir = works;
  read = works;
  backup = smooth;
  receipt = record smooth { replace = fails; unlink = fails };
}

abbrev deployed_once : Disk
deployed_once name = if name == "prod.json" then some "old" else none

differ : (a b : String) → (a == b) ≡ false → a ≢ b
differ a b f e = cc (f, (eq_iff a b).1 e)

write_receipt-WholeRun_example :
    WholeRun prod "new" deployed_once (write_receipt broken prod "new" deployed_once)
    × (broken ≡ record { mkdir = works; read = works; backup = smooth; receipt = smooth }
        → (write_receipt broken prod "new" deployed_once).ending ≡ returned)
write_receipt-WholeRun_example =
    write_receipt-WholeRun prod "new" deployed_once broken (differ _ _ refl) (differ _ _ refl)
      (differ _ _ refl) (differ _ _ refl) (differ _ _ refl)

-- a pass that removed `job` and failed to recreate `web`
abbrev meta : Assoc Value
meta = ("reconcile_rc", int (pos 1)) ∷ ("env", text "prod") ∷ ("box", text "eu-1") ∷ []

abbrev entries : Items
entries = cons (obj (field "name" (text "web") (field "image" (text "repo/web:1") end))) nil

abbrev bundle : Assoc Value
bundle = ("containers", arr entries) ∷ []

abbrev result : String → String → String → Value
result name kind status =
    obj (field "name" (text name) (field "kind" (text kind) (field "status" (text status) end)))

abbrev results : Items
results = cons (result "web" "Recreate" "failed") (cons (result "job" "Remove" "done") nil)

abbrev report : Option (Assoc Value)
report = some (("ok", bool false) ∷ ("results", arr results) ∷ [])

abbrev row : String → Value → String → Bool → Assoc Value
row name image action marked =
    ("name", text name)
    ∷ ("image", image)
    ∷ ("image_ref", image)
    ∷ ("commit", null)
    ∷ ("commit_source", null)
    ∷ ("commit_tags", null)
    ∷ ("config_hash", null)
    ∷ ("action", text action)
    ∷ ("failed", bool marked)
    ∷ ("healthy", null)
    ∷ []

abbrev receipt : Receipt
receipt = record {
  env = "prod";
  box = "eu-1";
  deployed_at = "2026-01-01T00:00:00Z";
  framework_version = null;
  framework_commit = null;
  fleet_commit = null;
  fleet_dirty = null;
  result = "failed";
  containers = row "web" (text "repo/web:1") "recreate" true ∷ row "job" null "remove" false ∷ [];
  code_moves = none;
  routes = none;
}

abbrev no_routes : String → Value
no_routes stack_dir = arr nil

built : build_receipt interpreter no_routes "2026-01-01T00:00:00Z" meta bundle report ≡ ok receipt
unfolding build_receipt bay.Json.str bay.Receipt.commit_or_none bay.Receipt.source_or_none
    bay.Receipt.tags_or_none bay.Prelude.Assoc.insert bay.Receipt.Build.removed_row
built = refl

build_receipt-Marked_example :
    (map (row_name interpreter) receipt.containers
      ≡ map (entry_name interpreter) (mappings (items entries))
        ++ map
            (λ n. some (text n))
            (map
              (result_name interpreter)
              (keep (is_removal interpreter) (mappings (items results)))))
    × All (Marked interpreter (mappings (items results))) receipt.containers
    × ((receipt.result ≡ "ok") ↔ Succeeded interpreter meta report)
unfolding lookup
build_receipt-Marked_example =
    build_receipt-Marked interpreter no_routes "2026-01-01T00:00:00Z" meta bundle report results
      entries receipt refl refl built

-- The pattern of an env name ends in `$`, which also matches in front of a last line break.
env_with_break : env_matches "prod\n" ≡ true
unfolding env_matches
env_with_break = refl

env_climbs : env_matches "../prod" ≡ false
unfolding env_matches
env_climbs = refl

abbrev outcomes : List ActionResult
outcomes =
    record { action = recreate web "changed"; status = failed; detail = "" }
    ∷ record { action = remove "job" "orphan"; status = done; detail = "" }
    ∷ []

rebuilt :
    build_receipt interpreter no_routes "2026-01-01T00:00:00Z" meta bundle
      (some (report_json end (obj end) outcomes))
    ≡ ok receipt
unfolding build_receipt report_json bay.Json.str bay.Model.action_target bay.Model.kind
    bay.Receipt.Build.removed_row bay.Receipt.commit_or_none bay.Receipt.source_or_none
    bay.Receipt.tags_or_none bay.Prelude.Assoc.insert
rebuilt = refl

code_of_pass : lookup "reconcile_rc" meta ≡ some (int (pos (pass_code outcomes)))
unfolding lookup bay.Model.report_ok
code_of_pass = refl

build_receipt-Told_example :
    ((receipt.result ≡ "ok") ↔ All (λ r. is_failed r ≡ false) outcomes)
    × All (Told outcomes) receipt.containers
unfolding lookup
build_receipt-Told_example =
    build_receipt-Told interpreter no_routes "2026-01-01T00:00:00Z" meta bundle end (obj end)
      outcomes entries receipt code_of_pass refl rebuilt

-- a stored receipt with one row
abbrev stored : Stored
stored = record { head = []; rows = entry (("name", text "web") ∷ []) ∷ [] }

abbrev reads : String → Option Stored
reads s = some stored

abbrev prints : Stored → String
prints r = "stamped"

stamp_main-SafeRun_example :
    SafeRun reads prints smooth ".prod.json.tmp" "prod.json" "prod.prev.json" "web"
      (some "0123456789ab")
      "repo/web:2"
      deployed_once
      (stamp_main reads prints smooth ".prod.json.tmp" "prod.json" "web"
        (some "0123456789ab")
        "repo/web:2"
        deployed_once)
stamp_main-SafeRun_example =
    stamp_main-SafeRun reads prints smooth ".prod.json.tmp" "prod.json" "prod.prev.json" "web"
      (some "0123456789ab") "repo/web:2" deployed_once (differ _ _ refl) (differ _ _ refl)
      (differ _ _ refl)

-- the stamp of a row that is there writes the receipt
stamped_web :
    (stamp_main reads prints smooth ".prod.json.tmp" "prod.json" "web" none "repo/web:2"
        deployed_once).0.disk
      "prod.json"
    ≡ some "stamped"
unfolding stamp_main bay.Receipt.has_row bay.Receipt.is_row_of
stamped_web = refl
