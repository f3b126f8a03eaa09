-- ===== src/Receipt/Restamp.antt =====
-- `stamp_main` of receipt.py: what a reader finds while a receipt is stamped.
use mathlib.Core.Path.{subst}
use bay.Prelude.{ℕ, String, ◌≡◌, ◌≢◌, ◌⊎◌, inl, inr, refl, Option, none, some, List, sym}
use bay.Prelude.Assoc.{All, All-of_In, All-In}
use bay.Receipt.{Row, stamp_receipt}
use bay.Receipt.Files.{
  Disk, WriteFaults, returned, Run, ends, atomic_write, Stored, write_stamped, stamp_parsed,
  stamp_read, stamp_main,
}
use bay.Receipt.Atomic.{Before, After, Ended, atomic_write-Atomic}

module _ (parse : String → Option Stored) (dumps : Stored → String) (f : WriteFaults)
    (tmp path previous name : String) (commit : Option String) (image : String) (d : Disk) where
  -- The content is the stamped receipt that the disk held.
  abbrev pub Stamped : Option String → Type 0
  Stamped content =
      (old : String) × (r : Stored) × (rows : List Row) × (d path ≡ some old)
      × (parse old ≡ some r)
      × (stamp_receipt r.rows name commit image ≡ some rows)
      × (content ≡ some (dumps (record { head = r.head; rows = rows })))

  -- A reader finds the receipt before this one as it was, and the old receipt or the stamped one.
  abbrev pub Safe : Disk → Type 0
  Safe e = (e previous ≡ d previous) × ((e path ≡ d path) ⊎ Stamped (e path))

  abbrev pub SafeRun : Run × ℕ → Type 0
  SafeRun x =
      All Safe x.0.seen
      × (x.0.ending ≡ returned
          → ((x.1 ≡ 1) × (x.0.disk ≡ d)) ⊎ ((x.1 ≡ 0) × Stamped (x.0.disk path)))

  nothing : SafeRun (ends returned d, 1)
  nothing = (((refl, inl refl), tt), λ e. inl (refl, refl))

  module _ (a : tmp ≢ path) (b : previous ≢ tmp) (c : previous ≢ path) where
    writes :
        (old : String) (r : Stored) (rows : List Row)
        → d path ≡ some old
        → parse old ≡ some r
        → stamp_receipt r.rows name commit image ≡ some rows
        → SafeRun (atomic_write f tmp path (dumps (record { head = r.head; rows = rows })) d, 0)
    writes old r rows here read hit =
        let text = dumps (record { head = r.head; rows = rows }) in
        let (seen, end) = atomic_write-Atomic tmp path text d f a in
        let run = atomic_write f tmp path text d in
        (
          All-of_In Safe run.seen (λ e m. step e (All-In _ run.seen e seen m)),
          λ back.
              let (new, rest) = subst (λ x. Ended tmp path text d x run.disk) back end in
              inr (refl, (old, r, rows, here, read, hit, new)),
        )
      where
        step :
            (e : Disk)
            → Before tmp path (dumps (record { head = r.head; rows = rows })) d e
              ⊎ After tmp path (dumps (record { head = r.head; rows = rows })) d e
            → Safe e
        step e (inl x) = (x previous b, inl (x path (λ q. a (sym q))))
        step e (inr (new, rest)) = (rest previous b c, inr (old, r, rows, here, read, hit, new))

    by_rows :
        (old : String) (r : Stored) (o : Option (List Row))
        → d path ≡ some old
        → parse old ≡ some r
        → stamp_receipt r.rows name commit image ≡ o
        → SafeRun (write_stamped parse dumps f tmp path r.head o d)
    by_rows old r none here read hit = nothing
    by_rows old r (some rows) here read hit = writes old r rows here read hit

    by_receipt :
        (old : String) (o : Option Stored)
        → d path ≡ some old
        → parse old ≡ o
        → SafeRun (stamp_parsed parse dumps f tmp path name commit image o d)
    by_receipt old none here read = nothing
    by_receipt old (some r) here read = by_rows old r _ here read refl

    by_content :
        (o : Option String)
        → d path ≡ o
        → SafeRun (stamp_read parse dumps f tmp path name commit image o d)
    by_content none here = nothing
    by_content (some old) here = by_receipt old (parse old) here refl

    -- Let the receipt, the one before it and the temporary file be different files. Wherever a stamp
    -- fails or is killed, a reader finds the receipt before this one as it was, and the old
    -- receipt or the stamped one whole. If the stamp returns, either its code is 1 and no file has
    -- changed, or its code is 0 and the stamped receipt is in place.
    pub stamp_main-SafeRun : SafeRun (stamp_main parse dumps f tmp path name commit image d)
    unfolding stamp_main
    stamp_main-SafeRun = by_content (d path) refl
