-- ===== src/Receipt/Main.antt =====
-- `_load_report` and `main` of receipt.py. The arguments are split already; JSON, the clock, the route file
-- and the names of temporary files are parameters.
use bay.Prelude.{String, Option, none, some, [], ◌∷◌, if◌then◌else◌}
use bay.Prelude.Assoc.{Assoc, lookup}
use bay.Prelude.Result.{Result, ok, ◌>>=◌}
use bay.Prelude.Text.{concat, is_empty, strip}
use bay.Json.{Value, Python, obj, fields}
use bay.Receipt.Build.{Receipt, build_receipt, required}
use bay.Receipt.Files.{Disk, Faults, Run, receipt_path, write_receipt}

-- `data if isinstance(data, Mapping) else None`
abbrev pub mapping_of : Option Value → Option (Assoc Value)
mapping_of (some (obj m)) = some (fields m)
mapping_of v = none

-- `_load_report`; `parse` is `json.loads`, and `none` where it raises a ValueError
unfoldable pub load_report : (String → Option Value) → String → Option (Assoc Value)
unfolding fields
load_report parse s = if is_empty (strip s) then none else mapping_of (parse s)

-- `previous_path` of the path that `receipt_path` returns
abbrev pub previous_path : String → String → String
previous_path env directory = concat (directory ∷ "/" ∷ env ∷ ".prev.json" ∷ [])

-- the bundle that was read, or `{}`; `none` where it cannot be read or is no JSON
abbrev pub bundle_or_empty : Option (Assoc Value) → Assoc Value
bundle_or_empty none = []
bundle_or_empty (some b) = b

-- What `main` relies on: `str` and `repr`, `json.loads`, `json.dumps` with its last line break, the
-- route file, and the names of the two temporary files.
pub record Tools : Type 0 where
  pub py : Python
  pub repr : String → String
  pub loads : String → Option Value
  pub dumps : Receipt → String
  pub rendered_routes : String → Value
  pub tmp : String
  pub tmp_previous : String

-- `main` for a receipt: the run of `write_receipt`, or the exception in front of it
unfoldable pub main :
    Tools
    → Faults
    → String
    → Assoc Value
    → Option (Assoc Value)
    → String
    → String
    → Disk
    → Result Run
unfolding load_report
main t f now meta bundle report directory d =
    build_receipt t.py t.rendered_routes now meta (bundle_or_empty bundle)
      (load_report t.loads report)
    >>= λ receipt. required t.py "env" (lookup "env" meta) >>= λ env.
        receipt_path t.repr env directory >>= λ path. ok (
          write_receipt f
            (record {
              path = path;
              previous = previous_path env directory;
              tmp_previous = t.tmp_previous;
              tmp = t.tmp;
            })
            (t.dumps receipt) d)
