-- ===== src/Receipt/Files.antt =====
-- `_atomic_write`, `write_receipt` and `stamp_main` of receipt.py. The disk maps a path to what a reader
-- finds there. Every call may fail or be the last one before the process is killed; a run keeps
-- all the disks that a reader can meet on the way. JSON texts are parsed and printed by parameters.
use bay.Prelude.{
  Bool, false, ◌&&◌, ◌||◌, leb, nat_eq, ℕ, String, Option, none, some, List, [], ◌∷◌, ◌++◌,
  if◌then◌else◌, ◌==◌, string_eq,
}
use Prim.Native.Char.{Char, code}
use bay.Prelude.Text.{concat, every}
use bay.Prelude.Result.{Result, ok, value_error}
use bay.Prelude.Assoc.{Assoc}
use bay.Json.{Value}
use bay.Receipt.{Row, stamp_receipt}

abbrev pub between : ℕ → ℕ → Char → Bool
between low high c = leb low (code c) && leb (code c) high

-- `[A-Za-z0-9_]`
abbrev pub is_name_start : Char → Bool
is_name_start c = between 65 90 c || between 97 122 c || between 48 57 c || code c == 95

-- `[A-Za-z0-9_.-]`
abbrev pub is_name_char : Char → Bool
is_name_char c = is_name_start c || code c == 46 || code c == 45

-- the text in front of the end that `$` finds, which may be a last line break
unfoldable pub before_end : String → String
before_end String.[] = ""
before_end (String.◌∷◌ c String.[]) = if code c == 10 then "" else String.◌∷◌ c ""
before_end (String.◌∷◌ c (String.◌∷◌ d s)) = String.◌∷◌ c (before_end (String.◌∷◌ d s))

abbrev matches_parts : String → Bool
matches_parts String.[] = false
matches_parts (String.◌∷◌ c s) = is_name_start c && every is_name_char s

-- `_ENV_RE.match(env)`
unfoldable pub env_matches : String → Bool
unfolding before_end every
env_matches env = matches_parts (before_end env)

-- `receipt_path`
unfoldable pub receipt_path : (String → String) → String → String → Result String
unfolding env_matches concat
receipt_path repr env directory =
    if env_matches env
    then ok (concat (directory ∷ "/" ∷ env ∷ ".json" ∷ []))
    else value_error (concat ("invalid env name for a receipt: " ∷ repr env ∷ []))

abbrev pub Disk : Type 0
Disk = String → Option String

abbrev pub put : String → Option String → Disk → Disk
put path content d name = if name == path then content else d name

-- What becomes of a call.
pub data Answer : Type 0 where
  works fails dies : Answer

-- The calls of one `_atomic_write`, and what a write that does not come to its end leaves.
pub record WriteFaults : Type 0 where
  pub mkstemp : Answer
  pub write : Answer
  pub torn : String
  pub chmod : Answer
  pub replace : Answer
  pub unlink : Answer

pub data Ending : Type 0 where
  returned raised killed : Ending

pub record Run : Type 0 where
  -- the disks on the way, the last one included
  pub seen : List Disk
  pub disk : Disk
  pub ending : Ending

abbrev pub ends : Ending → Disk → Run
ends e d = record { seen = d ∷ []; disk = d; ending = e }

abbrev pub passing : Disk → Run → Run
passing d r = record r { seen = d ∷ r.seen }

-- the `except` block
abbrev pub cleanup : Answer → String → Disk → Run
cleanup works tmp d = ends raised (put tmp none d)
cleanup fails tmp d = ends raised d
cleanup dies tmp d = ends killed d

module _ (f : WriteFaults) (tmp path content : String) where
  -- `os.replace(tmp, path)`
  abbrev pub replaced : Answer → Disk → Run
  replaced works d = ends returned (put tmp none (put path (d tmp) d))
  replaced fails d = cleanup f.unlink tmp d
  replaced dies d = ends killed d

  -- `os.chmod(tmp, 0o644)`
  abbrev pub chmodded : Answer → Disk → Run
  chmodded works d = passing d (replaced f.replace d)
  chmodded fails d = cleanup f.unlink tmp d
  chmodded dies d = ends killed d

  -- `handle.write(data)`, with its flush and its sync
  abbrev pub written : Answer → Disk → Run
  written works d = passing (put tmp (some content) d) (chmodded f.chmod (put tmp (some content) d))
  written fails d =
      passing (put tmp (some f.torn) d) (cleanup f.unlink tmp (put tmp (some f.torn) d))
  written dies d = ends killed (put tmp (some f.torn) d)

  -- `tempfile.mkstemp`
  abbrev pub opened : Answer → Disk → Run
  opened works d = passing (put tmp (some "") d) (written f.write (put tmp (some "") d))
  opened fails d = ends raised d
  opened dies d = ends killed d

  -- `_atomic_write`
  unfoldable pub atomic_write : Disk → Run
  atomic_write d = opened f.mkstemp d

-- what follows a call that returns
abbrev pub next : Ending → Run → (Disk → Run) → Run
next returned r k = record (k r.disk) { seen = r.seen ++ (k r.disk).seen }
next raised r k = r
next killed r k = r

pub record Faults : Type 0 where
  pub mkdir : Answer
  pub read : Answer
  pub backup : WriteFaults
  pub receipt : WriteFaults

abbrev pub proceed : Answer → Disk → (Disk → Run) → Run
proceed works d k = k d
proceed fails d k = ends raised d
proceed dies d k = ends killed d

-- the paths of a receipt, of the one before it, and of the two temporary files
pub record Paths : Type 0 where
  pub path : String
  pub previous : String
  pub tmp_previous : String
  pub tmp : String

module _ (f : Faults) (p : Paths) (payload : String) where
  -- the copy of the receipt that is there
  abbrev pub back_up : Option String → Disk → (Disk → Run) → Run
  back_up none d k = k d
  back_up (some old) d k =
      proceed f.read d
        (λ e. let r = atomic_write f.backup p.tmp_previous p.previous old e in next r.ending r k)

  -- `write_receipt`, for the text of the receipt
  unfoldable pub write_receipt : Disk → Run
  unfolding atomic_write
  write_receipt d =
      proceed f.mkdir d
        (λ e. back_up (e p.path) e (λ g. atomic_write f.receipt p.tmp p.path payload g))

-- A receipt: its other keys, and the rows of its containers.
pub record Stored : Type 0 where
  pub head : Assoc Value
  pub rows : List Row

module _ (parse : String → Option Stored) (dumps : Stored → String) where
  -- `stamp_main` behind its arguments: exit code 1 where nothing is written
  abbrev pub write_stamped :
      WriteFaults → String → String → Assoc Value → Option (List Row) → Disk → Run × ℕ
  write_stamped f tmp path head none d = (ends returned d, 1)
  write_stamped f tmp path head (some rows) d =
      (atomic_write f tmp path (dumps (record { head = head; rows = rows })) d, 0)

  abbrev pub stamp_parsed :
      WriteFaults
      → String
      → String
      → String
      → Option String
      → String
      → Option Stored
      → Disk
      → Run × ℕ
  stamp_parsed f tmp path name commit image none d = (ends returned d, 1)
  stamp_parsed f tmp path name commit image (some r) d =
      write_stamped f tmp path r.head (stamp_receipt r.rows name commit image) d

  abbrev pub stamp_read :
      WriteFaults
      → String
      → String
      → String
      → Option String
      → String
      → Option String
      → Disk
      → Run × ℕ
  stamp_read f tmp path name commit image none d = (ends returned d, 1)
  stamp_read f tmp path name commit image (some content) d =
      stamp_parsed f tmp path name commit image (parse content) d

  unfoldable pub stamp_main :
      WriteFaults → String → String → String → Option String → String → Disk → Run × ℕ
  unfolding atomic_write stamp_receipt
  stamp_main f tmp path name commit image d = stamp_read f tmp path name commit image (d path) d
