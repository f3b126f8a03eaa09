-- ===== src/Receipt/Atomic.antt =====
-- What a reader finds while a receipt is written, wherever the writer fails or is killed.
use mathlib.Core.Path.{subst}
use bay.Prelude.{
  String, ◌≡◌, ◌≢◌, ◌⊎◌, inl, inr, refl, Option, none, some, List, sym, ◌∙◌, arith, eq_iff,
}
use bay.Prelude.Assoc.{All, All-append, All-of_In, All-In}
use bay.Receipt.Files.{
  Disk, put, Answer, works, fails, dies, WriteFaults, Ending, returned, raised, killed, Run, ends,
  cleanup, replaced, chmodded, written, opened, atomic_write, next, Faults, proceed, Paths, back_up,
  write_receipt,
}

module _ (tmp path content : String) (d : Disk) where
  -- only the temporary file differs
  abbrev pub Before : Disk → Type 0
  Before e = (n : String) → n ≢ tmp → e n ≡ d n

  -- the new content is there, and no other file differs
  abbrev pub After : Disk → Type 0
  After e = (e path ≡ some content) × ((n : String) → n ≢ tmp → n ≢ path → e n ≡ d n)

  abbrev pub Ended : Ending → Disk → Type 0
  Ended returned e = After e
  Ended raised e = Before e
  Ended killed e = Before e

  abbrev pub Atomic : Run → Type 0
  Atomic r = All (λ e. Before e ⊎ After e) r.seen × Ended r.ending r.disk

  put-Before : (c : Option String) (e : Disk) → Before e → Before (put tmp c e)
  put-Before c e b n ne = ground (arith, eq_iff n tmp, b n ne)

  cleanup-Atomic : (a : Answer) (e : Disk) → Before e → Atomic (cleanup a tmp e)
  cleanup-Atomic works e b = ((inl (put-Before none e b), tt), put-Before none e b)
  cleanup-Atomic fails e b = ((inl b, tt), b)
  cleanup-Atomic dies e b = ((inl b, tt), b)

  module _ (f : WriteFaults) (apart : tmp ≢ path) where
    replaced-After :
        (e : Disk) → Before e → e tmp ≡ some content → After (put tmp none (put path (e tmp) e))
    replaced-After e b h = (
      ground (arith, eq_iff path tmp, eq_iff path path, apart),
      λ n ne np. ground (arith, eq_iff n tmp, eq_iff n path, b n ne),
    )

    replaced-Atomic :
        (a : Answer) (e : Disk)
        → Before e
        → e tmp ≡ some content
        → Atomic (replaced f tmp path content a e)
    replaced-Atomic works e b h = ((inr (replaced-After e b h), tt), replaced-After e b h)
    replaced-Atomic fails e b h = cleanup-Atomic f.unlink e b
    replaced-Atomic dies e b h = ((inl b, tt), b)

    chmodded-Atomic :
        (a : Answer) (e : Disk)
        → Before e
        → e tmp ≡ some content
        → Atomic (chmodded f tmp path content a e)
    chmodded-Atomic works e b h =
        let (seen, end) = replaced-Atomic f.replace e b h in ((inl b, seen), end)
    chmodded-Atomic fails e b h = cleanup-Atomic f.unlink e b
    chmodded-Atomic dies e b h = ((inl b, tt), b)

    written-Atomic : (a : Answer) (e : Disk) → Before e → Atomic (written f tmp path content a e)
    written-Atomic works e b =
        let c = put-Before (some content) e b in
        let (seen, end) =
          chmodded-Atomic f.chmod (put tmp (some content) e) c (ground (arith, eq_iff tmp tmp)) in
        ((inl c, seen), end)
    written-Atomic fails e b =
        let c = put-Before (some f.torn) e b in
        let (seen, end) = cleanup-Atomic f.unlink (put tmp (some f.torn) e) c in
        ((inl c, seen), end)
    written-Atomic dies e b = let c = put-Before (some f.torn) e b in ((inl c, tt), c)

    -- Wherever it fails or is killed, a write to another file than its temporary one leaves the old
    -- content or the new one, and touches no third file; it has the new content in place exactly
    -- if it returns.
    pub atomic_write-Atomic : Atomic (atomic_write f tmp path content d)
    unfolding atomic_write
    atomic_write-Atomic = from f.mkstemp
      where
        from : (a : Answer) → Atomic (opened f tmp path content a d)
        from works =
            let c = put-Before (some "") d (λ n ne. refl) in
            let (seen, end) = written-Atomic f.write (put tmp (some "") d) c in ((inl c, seen), end)
        from fails = ((inl (λ n ne. refl), tt), λ n ne. refl)
        from dies = ((inl (λ n ne. refl), tt), λ n ne. refl)

-- what `previous` holds behind a write: the receipt that was there, if there was one
abbrev pub kept : Option String → Option String → Option String
kept none previous = previous
kept (some old) previous = some old

-- A reader meets the old receipt, or the new one with the old one kept.
abbrev pub Whole : Paths → String → Disk → Disk → Type 0
Whole p payload d e =
    ((e p.path ≡ d p.path)
      × ((e p.previous ≡ d p.previous) ⊎ (e p.previous ≡ kept (d p.path) (d p.previous))))
    ⊎ ((e p.path ≡ some payload) × (e p.previous ≡ kept (d p.path) (d p.previous)))

abbrev pub WholeRun : Paths → String → Disk → Run → Type 0
WholeRun p payload d r =
    All (Whole p payload d) r.seen
    × (r.ending ≡ returned
        → (r.disk p.path ≡ some payload) × (r.disk p.previous ≡ kept (d p.path) (d p.previous)))

mono : {A : Type 0} (P Q : A → Type 0) (l : List A) → ((x : A) → P x → Q x) → All P l → All Q l
mono P Q l f h = All-of_In Q l (λ x m. f x (All-In P l x h m))

-- no call fails
abbrev pub smooth : WriteFaults
smooth = record {
  mkstemp = works;
  write = works;
  torn = "";
  chmod = works;
  replace = works;
  unlink = works;
}

module _ (p : Paths) (payload : String) (d : Disk) (f : Faults) (a : p.tmp ≢ p.path)
    (b : p.tmp ≢ p.previous) (c : p.tmp_previous ≢ p.previous) (g : p.tmp_previous ≢ p.path)
    (h : p.previous ≢ p.path) where
  last_write :
      (e : Disk)
      → e p.path ≡ d p.path
      → e p.previous ≡ kept (d p.path) (d p.previous)
      → WholeRun p payload d (atomic_write f.receipt p.tmp p.path payload e)
  last_write e same old =
      let (seen, end) = atomic_write-Atomic p.tmp p.path payload e f.receipt a in
      (
        mono _ _ _ step seen,
        λ back.
            let (new, rest) =
              subst
                (λ x.
                  Ended p.tmp p.path payload e x
                    ((atomic_write f.receipt p.tmp p.path payload e).disk))
                back end in
            (new, rest p.previous (λ q. b (sym q)) h ∙ old),
      )
    where
      step :
          (i : Disk)
          → Before p.tmp p.path payload e i ⊎ After p.tmp p.path payload e i
          → Whole p payload d i
      step i (inl x) =
          inl (x p.path (λ q. a (sym q)) ∙ same, inr (x p.previous (λ q. b (sym q)) ∙ old))
      step i (inr (new, rest)) = inr (new, rest p.previous (λ q. b (sym q)) h ∙ old)

  backup_step :
      (content : String)
      → d p.path ≡ some content
      → (i : Disk)
      → Before p.tmp_previous p.previous content d i ⊎ After p.tmp_previous p.previous content d i
      → Whole p payload d i
  backup_step content here i (inl x) =
      inl (x p.path (λ q. g (sym q)), inl (x p.previous (λ q. c (sym q))))
  backup_step content here i (inr (new, rest)) =
      inl (rest p.path (λ q. g (sym q)) (λ q. h (sym q)), inr (rw here new))

  then_write :
      (content : String)
      → d p.path ≡ some content
      → (r : Run) → Atomic p.tmp_previous p.previous content d r
      → WholeRun p payload d (next r.ending r (atomic_write f.receipt p.tmp p.path payload))
  then_write content here r (seen, end) =
      let old = mono _ _ r.seen (backup_step content here) seen in ending r.ending refl end old
    where
      ending :
          (x : Ending)
          → r.ending ≡ x
          → Ended p.tmp_previous p.previous content d x r.disk
          → All (Whole p payload d) r.seen
          → WholeRun p payload d (next x r (atomic_write f.receipt p.tmp p.path payload))
      ending returned q (new, rest) old =
          let (more, last) =
            last_write r.disk (rest p.path (λ q. g (sym q)) (λ q. h (sym q))) (rw here new) in
          (All-append _ r.seen _ old more, last)
      ending raised q e old = (old, λ k. cc (q, k))
      ending killed q e old = (old, λ k. cc (q, k))

  stays : (x : Ending) → x ≢ returned → WholeRun p payload d (ends x d)
  stays x ne = ((inl (refl, inl refl), tt), λ e. absurd (ne e))

  backed_up :
      (o : Option String)
      → d p.path ≡ o
      → WholeRun p payload d (back_up f p payload o d (atomic_write f.receipt p.tmp p.path payload))
  backed_up none here = last_write d refl (rw here refl)
  backed_up (some content) here = reading f.read
    where
      reading :
          (x : Answer)
          → WholeRun p payload d (
              proceed x d (λ e.
                let r = atomic_write f.backup p.tmp_previous p.previous content e in
                next r.ending r (atomic_write f.receipt p.tmp p.path payload)))
      reading works =
          then_write content here _
            (atomic_write-Atomic p.tmp_previous p.previous content d f.backup c)
      reading fails = stays raised (λ q. cc q)
      reading dies = stays killed (λ q. cc q)

  whole_run : WholeRun p payload d (write_receipt f p payload d)
  unfolding write_receipt
  whole_run = made f.mkdir
    where
      made :
          (x : Answer)
          → WholeRun p payload d (
              proceed x d (λ e.
                back_up f p payload (e p.path) e (atomic_write f.receipt p.tmp p.path payload)))
      made works = backed_up (d p.path) refl
      made fails = stays raised (λ q. cc q)
      made dies = stays killed (λ q. cc q)

  returns :
      f ≡ record { mkdir = works; read = works; backup = smooth; receipt = smooth }
      → (o : Option String) → d p.path ≡ o
      → (write_receipt f p payload d).ending ≡ returned
  unfolding write_receipt atomic_write
  returns e none here = rw (e, here) refl
  returns e (some old) here = rw (e, here) refl

  -- Let the two paths and the two temporary files be different files, where the temporary file of
  -- the copy may be that of the receipt. Wherever `write_receipt` fails or is killed, a reader meets at
  -- every moment the old receipt whole, or the new one whole with the old one kept as the previous
  -- one. The previous receipt is the one from before or the old one; if the function returns, the
  -- new receipt is in place and the old one, if there was one, is kept; and it returns if no call
  -- fails.
  pub write_receipt-WholeRun :
      WholeRun p payload d (write_receipt f p payload d)
      × (f ≡ record { mkdir = works; read = works; backup = smooth; receipt = smooth }
          → (write_receipt f p payload d).ending ≡ returned)
  write_receipt-WholeRun = (whole_run, λ e. returns e (d p.path) refl)
