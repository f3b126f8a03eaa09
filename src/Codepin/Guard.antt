-- ===== src/Codepin/Guard.antt =====
-- `_Guarded` and `pin_code` of codepin.py: `:latest` and `:previous` move under the build lock.
use bay.Prelude.{
  String, Bool, true, false, not, ◌&&◌, ◌||◌, Option, none, some, List, [], ◌∷◌, map, ◌==◌,
  string_eq, option_eq, if◌then◌else◌,
}
use bay.Prelude.Assoc.{Assoc, contains}
use bay.Prelude.Text.{concat, is_empty}
use bay.Prelude.Result.{Exn, Result, ok, err}
use bay.Images.{split_ref}
use bay.Codepin.{Images, Move, Status, retag, skipped, Failed, Target, PrevRow, St, ref_of}
use bay.Codepin.Plan.{plan_moves}
use bay.Codepin.Lock.{Lock, LockState, held}

-- The fields of `_Guarded`, with the state of the lock and of the daemon.
pub record Guard (W : Type 0) : Type 0 where
  pub daemon : W
  pub lock : LockState
  pub refuse : Bool
  pub refused : List String
  pub unavailable : String

abbrev pub replan : Exn
replan = record { class_name = "_Replan"; message = "" }

abbrev pub build_running : Exn
build_running = record { class_name = "_BuildRunning"; message = "" }

-- `tag in _MOVING_TAGS`
abbrev pub is_moving : Option String → Bool
is_moving none = false
is_moving (some tag) = tag == "latest" || tag == "previous"

-- Whether a lock is given, and what it does.
module _ (I : Images) (given : Bool) (lock : Lock I.State) where
  abbrev pub Guarded : Type 0
  Guarded = Guard I.State

  abbrev pub with_daemon : {A : Type 0} → Guarded → A × I.State → A × Guarded
  with_daemon g (a, s) = (a, record g { daemon = s })

  -- `self._images.tag(source, target)`
  abbrev pub passed : Guarded → String → String → Result (Unit {0}) × Guarded
  passed g source target = with_daemon g (I.tag g.daemon source target)

  -- what follows the try for the lock
  abbrev pub behind_try :
      Guarded → String → String → Result Bool × (LockState × I.State) → Result (Unit {0}) × Guarded
  behind_try g source target (ok true, (l, s)) = (err replan, record g { daemon = s; lock = l })
  behind_try g source target (ok false, (l, s)) =
      (err build_running, record g { daemon = s; lock = l })
  behind_try g source target (err e, (l, s)) =
      passed
        (record g {
          daemon = s;
          lock = l;
          unavailable = concat ("not taken (" ∷ e.message ∷ ")" ∷ []);
        })
        source target

  -- a move that needs the lock: `refuse` and whether the lock was found unavailable before
  abbrev pub under_lock :
      (refuse free : Bool) → Guarded → String → String → Result (Unit {0}) × Guarded
  under_lock true free g source target =
      (ok tt, record g { refused = ref_of ((split_ref target).0) "latest" ∷ g.refused })
  under_lock false true g source target = behind_try g source target (lock.acquire g.lock g.daemon)
  under_lock false false g source target = passed g source target

  -- `_Guarded.tag`
  unfoldable pub guarded_tag : Guarded → String → String → Result (Unit {0}) × Guarded
  guarded_tag g source target =
      if is_moving ((split_ref target).1) && given && not (held g.lock)
      then under_lock g.refuse (is_empty g.unavailable) g source target
      else passed g source target

  -- `_Guarded`: every other call passes through
  abbrev pub guarded : Images
  guarded = record {
    State = Guarded;
    image_id = λ g ref. I.image_id g.daemon ref;
    pull = λ g ref. with_daemon g (I.pull g.daemon ref);
    tag = guarded_tag;
    commit_tags = λ g repo. I.commit_tags g.daemon repo;
    container_image = λ g name. I.container_image g.daemon name;
    image_meta = λ g ref. I.image_meta g.daemon ref;
    labelled = λ g repo. I.labelled g.daemon repo;
  }

  abbrev pub Planned : Type 0
  Planned = Result (List Move) × St guarded

  -- the detail of a move that the wait held back
  abbrev pub hold_back : String → List String → Move → Move
  hold_back detail refused m =
      if is_retag m.status && targets m.target
      then record m { status = skipped; detail = detail }
      else m
    where
      is_retag : Status → Bool
      is_retag retag = true
      is_retag _ = false

      targets : Option String → Bool
      targets none = false
      targets (some target) = contains refused target

  abbrev pub lock_state : Guarded → String
  lock_state g =
      if is_empty g.unavailable
      then (if given && held g.lock then "held" else "not needed")
      else g.unavailable

  abbrev pub settled : Planned → Result (List Move × String) × St guarded
  settled (err e, st) = (err e, st)
  settled (ok moves, st) = (ok (moves, lock_state st.images), st)

  abbrev pub timed_out : String → Planned → Result (List Move × String) × St guarded
  timed_out detail (err e, st) = (err e, st)
  timed_out detail (ok moves, st) =
      (ok (map (hold_back detail st.images.refused) moves, "timeout"), st)

  -- the handlers of the first plan, with `plan` for another one
  abbrev pub handled :
      String → (St guarded → Planned) → Planned → Result (List Move × String) × St guarded
  handled detail plan (ok moves, st) = settled (ok moves, st)
  handled detail plan (err e, st) =
      if e.class_name == "_Replan"
      then settled (plan st)
      else if e.class_name == "_BuildRunning"
      then timed_out detail (plan (record st { images = record st.images { refuse = true } }))
      else (err e, st)

  -- `pin_code`; `path` is the lock's path and `wait` the seconds in the format `:g`
  unfoldable pub pin_code :
      String
      → String
      → List PrevRow
      → Assoc Failed
      → List Target
      → I.State
      → Result (List Move × String) × St guarded
  unfolding concat
  pin_code path wait prev failed rows daemon =
      let detail = concat (
        "build running: a build held "
        ∷ (if given then path else "the build lock")
        ∷ " for "
        ∷ wait
        ∷ "s, so :latest was not moved; run bay up again when it is done"
        ∷ []) in
      let start : St guarded = record {
        images = record {
          daemon = daemon;
          lock = none;
          refuse = false;
          refused = [];
          unavailable = "";
        };
        found = [];
      } in
      handled detail (plan_moves guarded prev failed rows)
        (plan_moves guarded prev failed rows start)
