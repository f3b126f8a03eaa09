-- ===== src/Receipt/Rows.antt =====
-- The rows of a new receipt, and its result.
use mathlib.Core.Option.{some-injective}
use mathlib.Core.Path.{ap₂}
use mathlib.Core.List.{map-append}
use bay.Prelude.{
  String, Bool, true, false, ◌≡◌, ◌↔◌, refl, false≢true, Option, none, some, List, [], ◌∷◌, ◌++◌,
  map, if◌then◌else◌, ◌==◌, string_eq, sym, ap, ◌∙◌, arith,
}
use bay.Prelude.Assoc.{Assoc, lookup, contains, All, All-append, keep}
use bay.Prelude.Result.{Result, ok, err, ◌>>=◌}
use bay.Json.{Value, Items, bool, text, arr, Python, items}
use bay.Receipt.Build.{
  mapping_or_empty, Tally, Receipt, mappings, result_name, tally, container_row, container_rows,
  removed_row, build_receipt, succeeded, no_results, text_or_empty, health_of, iterated, is_zero,
  says_true, or_no_report, required,
}
use bay.Receipt.Tally.{Fails, is_removal, tally-contains, tally-removed}

ok_inj : {A : Type 0} {a b : A} → ok a ≡ ok b → a ≡ b
ok_inj h = cc

-- a bind that is `ok`
bound :
    {A B : Type 0} (m : Result A) (f : A → Result B) (b : B)
    → (m >>= f) ≡ ok b
    → (a : A) × (m ≡ ok a) × (f a ≡ ok b)
bound (err x) f b e = cc
bound (ok a) f b e = (a, refl, e)

module _ (py : Python) where
  -- A row has a name, and is marked as failed exactly if the results report a failed action on it.
  abbrev pub Marked : List (Assoc Value) → Assoc Value → Type 0
  Marked results row =
      (name : String) × (lookup "name" row ≡ some (text name))
      × ((b : Bool) × (lookup "failed" row ≡ some (bool b)) × ((b ≡ true) ↔ Fails py results name))

  abbrev pub row_name : Assoc Value → Option Value
  row_name row = lookup "name" row

  abbrev pub entry_name : Assoc Value → Option Value
  entry_name entry = some (text (text_or_empty py (lookup "name" entry)))

  removed-Marked :
      (l : List (Assoc Value)) (names : List String)
      → (map row_name (map (removed_row (tally py no_results l).failed) names)
          ≡ map (λ n. some (text n)) names)
        × All (Marked l) (map (removed_row (tally py no_results l).failed) names)
  unfolding removed_row lookup
  removed-Marked l [] = (refl, tt)
  removed-Marked l (n ∷ names) =
      let (same, marked) = removed-Marked l names in
      (ap (◌∷◌ (some (text n))) same, ((n, refl, (_, refl, tally-contains py l n)), marked))

  name_row :
      (t : Tally) (state entry row : Assoc Value)
      → container_row py t state entry ≡ ok row
      → (lookup "name" row ≡ entry_name entry)
        × (lookup "failed" row
            ≡ some (bool (contains t.failed (text_or_empty py (lookup "name" entry)))))
  unfolding container_row
  name_row t state entry row e =
      let (health, seen, built) =
        bound (health_of py (lookup (text_or_empty py (lookup "name" entry)) state)) _ row e in
      let same = ok_inj built in
      (ap (λ r. lookup "name" r) (sym same), ap (λ r. lookup "failed" r) (sym same))

  rows-Marked :
      (l : List (Assoc Value)) (state : Assoc Value) (entries rows : List (Assoc Value))
      → container_rows py (tally py no_results l) state entries ≡ ok rows
      → (map row_name rows ≡ map entry_name entries) × All (Marked l) rows
  unfolding container_rows
  rows-Marked l state [] rows e = rw (sym (ok_inj e)) (refl, tt)
  rows-Marked l state (entry ∷ entries) rows e =
      let (row, here, rest) =
        bound (container_row py (tally py no_results l) state entry) _ rows e in
      let (more, there, end) =
        bound (container_rows py (tally py no_results l) state entries) _ rows rest in
      let (same, marked) = rows-Marked l state entries more there in
      let (name, flag) = name_row (tally py no_results l) state entry row here in
      rw (sym (ok_inj end)) (
        ap₂ ◌∷◌ name same,
        ((text_or_empty py (lookup "name" entry), name, (_, flag, tally-contains py l _)), marked),
      )

  -- The reconciler exited with 0, and its report says `ok`.
  abbrev pub Succeeded : Assoc Value → Option (Assoc Value) → Type 0
  Succeeded meta report =
      (r : Assoc Value) × (report ≡ some r)
      × (is_zero py (lookup "reconcile_rc" meta) ≡ true)
      × (says_true py (lookup "ok" r) ≡ true)

  succeeded_iff :
      (meta : Assoc Value) (report : Option (Assoc Value))
      → (succeeded py meta report ≡ true) ↔ Succeeded meta report
  unfolding succeeded
  succeeded_iff meta none = (λ e. cc, λ h. cc h.1)
  succeeded_iff meta (some r) = (
    λ e. (r, refl, ground arith, ground arith),
    λ (s, same, zero, says). rw (some-injective _ _ same, zero, says) refl,
  )

  abbrev word : Bool → String
  word b = if b then "ok" else "failed"

  outcome_iff : (b : Bool) → (word b ≡ "ok") ↔ (b ≡ true)
  outcome_iff true = (λ e. refl, λ e. refl)
  outcome_iff false = (λ e. absurd (false≢true (ap (λ s. s == "ok") e)), λ e. cc)

  outcome_lem :
      (meta : Assoc Value) (report : Option (Assoc Value))
      → (word (succeeded py meta report) ≡ "ok") ↔ Succeeded meta report
  outcome_lem meta report =
      let one = outcome_iff (succeeded py meta report) in
      let two = succeeded_iff meta report in (λ e. two.0 (one.0 e), λ h. one.1 (two.1 h))

  -- A receipt that is built from a bundle with a list of containers, and from the report of a pass
  -- with a list of results, has first one row for each container of the bundle and then one
  -- for each removal among the results, in their orders and under their names. A row is marked as
  -- failed exactly if the results report a failed action on its name, and the result of the receipt
  -- is `ok` exactly if the reconciler exited with 0 and its report says `ok`.
  pub build_receipt-Marked :
      (rendered_routes : String → Value) (now : String) (meta bundle : Assoc Value)
      (report : Option (Assoc Value)) (results entries : Items) (receipt : Receipt)
      → lookup "results" (or_no_report py report) ≡ some (arr results)
      → lookup "containers" bundle ≡ some (arr entries)
      → build_receipt py rendered_routes now meta bundle report ≡ ok receipt
      → (map row_name receipt.containers
          ≡ map entry_name (mappings (items entries))
            ++ map
                (λ n. some (text n))
                (map (result_name py) (keep (is_removal py) (mappings (items results)))))
        × All (Marked (mappings (items results))) receipt.containers
        × ((receipt.result ≡ "ok") ↔ Succeeded meta report)
  unfolding build_receipt iterated
  build_receipt-Marked rendered_routes now meta bundle report results entries receipt listed wanted
        built =
      let l = mappings (items results) in
      let built1 = rw (listed, wanted) at built in
      let (rows, made, built2) =
        bound
          (container_rows py (tally py no_results l)
            (mapping_or_empty (lookup "state" (or_no_report py report))) (mappings (items entries)))
          _ receipt built1 in
      let (env, read_env, built3) =
        bound (required py "env" (lookup "env" meta)) _ receipt built2 in
      let (box, read_box, built4) =
        bound (required py "box" (lookup "box" meta)) _ receipt built3 in
      let same = ok_inj built4 in
      let contents = ap (λ (r : Receipt). r.containers) same in
      let outcome = ap (λ (r : Receipt). r.result) same in
      let (names, marked) = rows-Marked l _ (mappings (items entries)) rows made in
      let (gone, marked_too) = removed-Marked l (tally py no_results l).removed in
      rw (sym contents, sym outcome)
        (
          rw map-append (
              ap₂ ◌++◌ names
                (gone ∙ ap (map (λ n. some (text n))) (tally-removed py l no_results))),
          All-append (Marked l) rows _ marked marked_too,
          outcome_lem meta report,
        )
