-- ===== src/Executor/Pool.antt =====
-- The thread pool of `_run_batch`: one thread for each action, in the order of submission, and a
-- bound on how many are at work. A step is one call of one thread that has a worker; so a run of
-- the relation is one interleaving.
use mathlib.Core.Path.{subst}
use bay.Prelude.{
  ap, inl, inr, ℕ, suc, String, Bool, true, false, ◌≡◌, refl, List, [], ◌∷◌, map, sym, ◌∙◌, Option,
  none, some,
}
use bay.Prelude.Assoc.{In}
use bay.Prelude.Result.{Result}
use bay.Prelude.Text.{concat}
use bay.Model.{Action, ActionResult, ReconcilerConfig, done, failed}
use bay.Executor.Calls.{Call, Reply, Prog, ret, throw, call}
use bay.Executor.Hoare.{Wp, Wp-env}
use bay.Executor.Fleet.{Fleet, FleetStep, fleet, OnOk, Own, Achieved}
use bay.Executor.Outcome.{apply-Achieved}
use bay.Executor.{Clock, apply}

abbrev pub Thread : Type 0
Thread = Action × Prog String

abbrev pub action_of : Thread → Action
action_of t = t.0

abbrev pub finished : Prog String → Bool
finished (ret detail) = true
finished (throw e) = true
finished (call c k) = false

-- One call of one thread, with `workers` free for it and those behind it.
pub data Advance : ℕ → List Thread → Fleet → List Thread → Fleet → Type 0 where
  answered :
      {workers : ℕ} {a : Action} {c : Call} {k : Result (Reply c) → Prog String} {l : List Thread}
      {h i : Fleet} (r : Result (Reply c))
      → FleetStep h c r i
      → Advance (suc workers) ((a, call c k) ∷ l) h ((a, k r) ∷ l) i
  past_finished :
      {workers : ℕ} {t : Thread} {l m : List Thread} {h i : Fleet}
      → finished t.1 ≡ true
      → Advance workers l h m i
      → Advance workers (t ∷ l) h (t ∷ m) i
  past_busy :
      {workers : ℕ} {t : Thread} {l m : List Thread} {h i : Fleet}
      → finished t.1 ≡ false
      → Advance workers l h m i
      → Advance (suc workers) (t ∷ l) h (t ∷ m) i

pub data Interleaving (workers : ℕ) (l : List Thread) (h : Fleet)
    : List Thread → Fleet → Type 0 where
  start : Interleaving workers l h l h
  step :
      {m n : List Thread} {i j : Fleet}
      → Interleaving workers l h m i
      → Advance workers m i n j
      → Interleaving workers l h n j

-- `future.result()` of a finished thread, recorded
unfoldable pub record_result : Thread → Option ActionResult
unfolding concat
record_result (a, ret detail) = some (record { action = a; status = done; detail = detail })
record_result (a, throw e) =
    some (record {
      action = a;
      status = failed;
      detail = concat (e.class_name ∷ ": " ∷ e.message ∷ []);
    })
record_result (a, call c k) = none

module _ (clock : Clock) (cfg : ReconcilerConfig) where
  -- `pool.submit(_apply, a, client, cfg)` for each action
  unfoldable pub submit : List Action → List Thread
  submit [] = []
  submit (a ∷ l) = (a, apply clock cfg a) ∷ submit l

  abbrev pub Disjoint : Action → Action → Type 0
  Disjoint a b = (n : String) → Own clock cfg a n → Own clock cfg b n → ⊥

  abbrev pub DisjointAll : Action → List Action → Type 0
  DisjointAll a [] = Unit
  DisjointAll a (b ∷ l) = Disjoint a b × DisjointAll a l

  -- The actions are about different names.
  abbrev pub Apart : List Action → Type 0
  Apart [] = Unit
  Apart (a ∷ l) = DisjointAll a l × Apart l

  -- what a thread still has to do achieves the aim of its action
  abbrev OnTrack : Thread → Fleet → Type 0
  OnTrack t h = Wp (fleet (Own clock cfg t.0)) t.1 (OnOk (Achieved clock cfg t.0)) h

  abbrev AllOnTrack : List Thread → Fleet → Type 0
  AllOnTrack [] h = Unit
  AllOnTrack (t ∷ l) h = OnTrack t h × AllOnTrack l h

  submit-OnTrack : (l : List Action) (h : Fleet) → AllOnTrack (submit l) h
  unfolding submit
  submit-OnTrack [] h = tt
  submit-OnTrack (a ∷ l) h = (apply-Achieved clock cfg a h, submit-OnTrack l h)

  actions-submit : (l : List Action) → map action_of (submit l) ≡ l
  unfolding submit
  actions-submit [] = refl
  actions-submit (a ∷ l) = ap (◌∷◌ a) (actions-submit l)

  actions-Advance :
      {workers : ℕ} {l m : List Thread} {h i : Fleet}
      → Advance workers l h m i
      → map action_of m ≡ map action_of l
  actions-Advance (answered r st) = refl
  actions-Advance (past_finished {t = t} f s) = ap (◌∷◌ t.0) (actions-Advance s)
  actions-Advance (past_busy {t = t} f s) = ap (◌∷◌ t.0) (actions-Advance s)

  -- A step belongs to one of the actions, and changes nothing outside its names.
  mover :
      {workers : ℕ} {l m : List Thread} {h i : Fleet}
      → Advance workers l h m i
      → AllOnTrack l h
      → (a : Action) × In a (map action_of l) × ((n : String) → ¬ Own clock cfg a n → h n ≡ i n)
  mover (answered {a = a} {h = h} r st) (w, ws) =
      let (safe, rest) = w.runs h (λ n o. refl) in
      (a, inl refl, λ n foreign. st.0 n (λ touched. foreign (safe n touched)))
  mover (past_finished f s) (w, ws) = let (a, m, e) = mover s ws in (a, inr m, e)
  mover (past_busy f s) (w, ws) = let (a, m, e) = mover s ws in (a, inr m, e)

  Disjoint-In : (a b : Action) (l : List Action) → DisjointAll a l → In b l → Disjoint a b
  Disjoint-In a b [] d m = elim m [ ]
  Disjoint-In a b (x ∷ l) (d, ds) (inl e) = subst (Disjoint a) (sym e) d
  Disjoint-In a b (x ∷ l) (d, ds) (inr m) = Disjoint-In a b l ds m

  -- a step of a thread behind it leaves a thread on its track
  undisturbed :
      (t : Thread) {workers : ℕ} {l m : List Thread} {h i : Fleet}
      → Advance workers l h m i
      → AllOnTrack l h
      → DisjointAll t.0 (map action_of l)
      → OnTrack t h
      → OnTrack t i
  undisturbed t {l = l} {i = i} s ws d w =
      let (a, member, same) = mover s ws in
      Wp-env _ i w
        (λ n own. same n (λ foreign. Disjoint-In t.0 a (map action_of l) d member n own foreign))

  others :
      (a : Action) (h i : Fleet)
      → ((n : String) → ¬ Own clock cfg a n → h n ≡ i n)
      → (l : List Thread) → DisjointAll a (map action_of l)
      → AllOnTrack l h
      → AllOnTrack l i
  others a h i same [] d w = tt
  others a h i same (t ∷ l) (d, ds) (w, ws) =
      (Wp-env _ i w (λ n own. same n (λ foreign. d n foreign own)), others a h i same l ds ws)

  Advance-OnTrack :
      {workers : ℕ} {l m : List Thread} {h i : Fleet}
      → Advance workers l h m i
      → Apart (map action_of l)
      → AllOnTrack l h
      → AllOnTrack m i
  Advance-OnTrack (answered {a = a} {l = l} {h = h} {i = i} r st) (d, ds) (w, ws) =
      let (safe, rest) = w.runs h (λ n o. refl) in
      (
        record { runs = rest r i st },
        others a h i (λ n foreign. st.0 n (λ touched. foreign (safe n touched))) l d ws,
      )
  Advance-OnTrack (past_finished {t = t} f s) (d, ds) (w, ws) =
      (undisturbed t s ws d w, Advance-OnTrack s ds ws)
  Advance-OnTrack (past_busy {t = t} f s) (d, ds) (w, ws) =
      (undisturbed t s ws d w, Advance-OnTrack s ds ws)

  Interleaving-OnTrack :
      {workers : ℕ} {l : List Thread} {h : Fleet} {m : List Thread} {i : Fleet}
      → Interleaving workers l h m i
      → Apart (map action_of l)
      → AllOnTrack l h
      → AllOnTrack m i × (map action_of m ≡ map action_of l)
  Interleaving-OnTrack start d w = (w, refl)
  Interleaving-OnTrack (step s a) d w =
      let (ws, same) = Interleaving-OnTrack s d w in
      (Advance-OnTrack a (subst Apart (sym same) d) ws, actions-Advance a ∙ same)

  -- a name of none of the actions is left alone
  pub Interleaving-foreign :
      {workers : ℕ} {l : List Thread} {h : Fleet} {m : List Thread} {i : Fleet} (n : String)
      → Interleaving workers l h m i
      → Apart (map action_of l)
      → AllOnTrack l h
      → ((a : Action) → In a (map action_of l) → ¬ Own clock cfg a n)
      → h n ≡ i n
  Interleaving-foreign n start d w foreign = refl
  Interleaving-foreign n (step s adv) d w foreign =
      let (ws, same) = Interleaving-OnTrack s d w in
      let (a, member, e) = mover adv ws in
      Interleaving-foreign n s d w foreign ∙ e n (foreign a (subst (In a) same member))

  pub pool-foreign :
      {workers : ℕ} (batch : List Action) {h i : Fleet} {l : List Thread} (n : String)
      → Apart batch
      → Interleaving workers (submit batch) h l i
      → ((a : Action) → In a batch → ¬ Own clock cfg a n)
      → h n ≡ i n
  pool-foreign batch {h = h} n apart run foreign =
      let same = actions-submit batch in
      Interleaving-foreign n run (subst Apart (sym same) apart) (submit-OnTrack batch h)
        (λ a member. foreign a (subst (In a) same member))

  -- The aims of the threads whose result is `done` are met.
  abbrev pub Reported : List Thread → Fleet → Type 0
  Reported [] h = Unit
  Reported ((a, ret detail) ∷ l) h = Achieved clock cfg a h × Reported l h
  Reported ((a, throw e) ∷ l) h = Reported l h
  Reported ((a, call c k) ∷ l) h = Reported l h

  on_track-Reported : (l : List Thread) (h : Fleet) → AllOnTrack l h → Reported l h
  on_track-Reported [] h w = tt
  on_track-Reported ((a, ret detail) ∷ l) h (w, ws) =
      (w.runs h (λ n o. refl), on_track-Reported l h ws)
  on_track-Reported ((a, throw e) ∷ l) h (w, ws) = on_track-Reported l h ws
  on_track-Reported ((a, call c k) ∷ l) h (w, ws) = on_track-Reported l h ws

  -- Actions about different names that a pool runs at the same time, in any interleaving of their
  -- calls and with any answers of the daemon: at every moment the threads are those that were
  -- submitted, in that order, and each that has returned has achieved the aim of its action.
  pub pool-Reported :
      (workers : ℕ) (batch : List Action) (h i : Fleet) (l : List Thread)
      → Apart batch
      → Interleaving workers (submit batch) h l i
      → (map action_of l ≡ batch) × Reported l i
  pool-Reported workers batch h i l apart run =
      let same = actions-submit batch in
      let (ws, kept) =
        Interleaving-OnTrack run (subst Apart (sym same) apart) (submit-OnTrack batch h) in
      (kept ∙ same, on_track-Reported l i ws)
