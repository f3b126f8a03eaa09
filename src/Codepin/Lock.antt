-- ===== src/Codepin/Lock.antt =====
-- `BuildLock` of codepin.py. What the daemon and the clock do between two tries is a world `W`, and
-- the file's `flock`, the clock and the sleep are an `Os`.
use bay.Prelude.{
  ℕ, zero, suc, ◌≤◌, ◌<◌, Bool, true, false, ◌≡◌, refl, Option, none, some, inl, inr, Bool-cases,
  arith, sym, ap, ◌∙◌, if◌then◌else◌,
}
use bay.Prelude.Result.{Exn, Result, ok, err}

-- `self._fd`
abbrev pub LockState : Type 0
LockState = Option ℕ

abbrev pub held : LockState → Bool
held none = false
held (some fd) = true

-- A lock as `_Guarded` uses it. An exception comes from opening the file, before any wait.
pub record Lock (W : Type 0) : Type 0 where
  pub acquire : LockState → W → Result Bool × (LockState × W)
  pub taken : (l m : LockState) (w v : W) → acquire l w ≡ (ok true, (m, v)) → held m ≡ true
  pub unopened :
      (l m : LockState) (w v : W) (e : Exn)
      → held l ≡ false
      → acquire l w ≡ (err e, (m, v))
      → (m ≡ none) × (v ≡ w)

pub record Os (W : Type 0) : Type 1 where
  -- `_open()`
  pub open_file : W → Result ℕ
  -- `flock(fd, LOCK_EX | LOCK_NB)`; `false` is BlockingIOError
  pub flock : W → Bool × W
  pub Moment : Type 0
  -- `self._clock()`
  pub clock : W → Moment
  -- `start + wait - self._clock() > 0`
  pub has_left : Moment → W → Bool
  -- `self._sleep(min(self._poll, left))`
  pub sleep : Moment → W → W

module _ {W : Type 0} (os : Os W) where
  -- The loop of `acquire`, for a number of tries.
  unfoldable pub wait_lock : (tries : ℕ) → os.Moment → ℕ → W → Option (Bool × (LockState × W))
  wait_lock zero start fd w = none
  wait_lock (suc tries) start fd w =
      let (got, v) = os.flock w in
      if got
      then some (true, (some fd, v))
      else if os.has_left start v
      then wait_lock tries start fd (os.sleep start v)
      else some (false, (none, v))

  -- Time passes: while some of a wait is left, a sleep brings its end nearer, and a try does not
  -- move it away. The rank is that of the wait with the given start.
  pub record Passes (rank : os.Moment → W → ℕ) : Type 0 where
    pub sleeping :
        (start : os.Moment) (w : W)
        → os.has_left start w ≡ true
        → rank start (os.sleep start w) < rank start w
    pub trying : (start : os.Moment) (w : W) → rank start ((os.flock w).1) ≤ rank start w

  -- How a wait ends: with the file of a try that got the lock, or without one, after a try that did
  -- not, when no time is left.
  abbrev pub Ended : os.Moment → ℕ → Bool × (LockState × W) → Type 0
  Ended start fd (true, (l, w)) = (l ≡ some fd) × ((v : W) × (os.flock v ≡ (true, w)))
  Ended start fd (false, (l, w)) =
      (l ≡ none) × ((v : W) × (os.flock v ≡ (false, w))) × (os.has_left start w ≡ false)

  module _ (rank : os.Moment → W → ℕ) (time : Passes rank) where
    -- Where a sleep of a wait with time left lowers a rank of the wait, and a try does not raise it, the
    -- wait for the lock ends within more tries than the rank at its start. It says yes with the file
    -- open, after a last try that got the lock, or no with the file closed, after a last try that did
    -- not and behind which no time is left.
    pub wait_lock_total :
        (tries : ℕ) (start : os.Moment) (fd : ℕ) (w : W)
        → rank start w < tries
        → (out : Bool × (LockState × W)) × (wait_lock tries start fd w ≡ some out)
          × Ended start fd out
    unfolding wait_lock
    wait_lock_total zero start fd w h = absurd (omega arith)
    wait_lock_total (suc tries) start fd w h = elim (Bool-cases ((os.flock w).0)) [
      | inl e ↦ (
        (true, (some fd, (os.flock w).1)),
        rw e refl,
        (refl, (w, ap (λ b. (b, (os.flock w).1)) e)),
      )
      | inr e ↦ elim (Bool-cases (os.has_left start ((os.flock w).1))) [
        | inl left ↦
            let slept = time.sleeping start ((os.flock w).1) left in
            let tried = time.trying start w in
            let (out, eq, ended) =
              wait_lock_total tries start fd (os.sleep start ((os.flock w).1)) (omega arith) in
            (out, rw (e, left) eq, ended)
        | inr over ↦ (
          (false, (none, (os.flock w).1)),
          rw (e, over) refl,
          (refl, (w, ap (λ b. (b, (os.flock w).1)) e), over),
        )
      ]
    ]

    -- `acquire` behind `_open`
    abbrev pub behind_open : os.Moment → W → Result ℕ → Result Bool × (LockState × W)
    behind_open start w (err e) = (err e, (none, w))
    behind_open start w (ok fd) =
        let (out, found, ended) = wait_lock_total (suc (rank start w)) start fd w (omega arith) in
        (ok (out.0), out.1)

    -- `acquire`
    abbrev pub acquire : LockState → W → Result Bool × (LockState × W)
    acquire (some fd) w = (ok true, (some fd, w))
    acquire none w = behind_open (os.clock w) w (os.open_file w)

    taken_open :
        (start : os.Moment) (fd : ℕ) (out : Bool × (LockState × W)) (m : LockState)
        → Ended start fd out
        → ok (out.0) ≡ ok true
        → out.1.0 ≡ m
        → held m ≡ true
    taken_open start fd (true, (l, w)) m e h k = ap held (sym k) ∙ ap held (e.0)
    taken_open start fd (false, (l, w)) m e h k = cc

    behind_open-taken :
        (start : os.Moment) (w v : W) (r : Result ℕ) (m : LockState)
        → behind_open start w r ≡ (ok true, (m, v))
        → held m ≡ true
    behind_open-taken start w v (err e) m h = cc
    behind_open-taken start w v (ok fd) m h =
        let waited = wait_lock_total (suc (rank start w)) start fd w (omega arith) in
        taken_open start fd (waited.0) m (waited.2) (ap (λ p. p.0) h) (ap (λ p. p.1.0) h)

    pub acquire-taken :
        (l m : LockState) (w v : W) → acquire l w ≡ (ok true, (m, v)) → held m ≡ true
    acquire-taken (some fd) m w v h = ap (λ p. held (p.1.0)) (sym h)
    acquire-taken none m w v h = behind_open-taken (os.clock w) w v (os.open_file w) m h

    behind_open-unopened :
        (start : os.Moment) (w v : W) (r : Result ℕ) (m : LockState) (e : Exn)
        → behind_open start w r ≡ (err e, (m, v))
        → (m ≡ none) × (v ≡ w)
    behind_open-unopened start w v (err x) m e h =
        (ap (λ p. p.1.0) (sym h), ap (λ p. p.1.1) (sym h))
    behind_open-unopened start w v (ok fd) m e h = cc

    pub acquire-unopened :
        (l m : LockState) (w v : W) (e : Exn)
        → held l ≡ false
        → acquire l w ≡ (err e, (m, v))
        → (m ≡ none) × (v ≡ w)
    acquire-unopened (some fd) m w v e f h = cc
    acquire-unopened none m w v e f h = behind_open-unopened (os.clock w) w v (os.open_file w) m e h

    -- `BuildLock` is such a lock.
    abbrev pub build_lock : Lock W
    build_lock = record { acquire = acquire; taken = acquire-taken; unopened = acquire-unopened }
