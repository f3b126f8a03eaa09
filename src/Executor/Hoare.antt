-- ===== src/Executor/Hoare.antt =====
-- What a program does against every behaviour of the daemon that a setting allows: at each call
-- `Safe` holds, and at the end the postcondition. Between two calls the other threads may change
-- the state as `Env` allows.
use mathlib.Core.Path.{subst}
use bay.Prelude.{◌≡◌, refl, ◌∙◌, Bool, true, false}
use bay.Prelude.Result.{Exn, Result, ok, err}
use bay.Executor.Calls.{
  Call, Reply, Prog, ret, throw, call, from_result, perform, try, choose, ◌>>=◌,
}

pub record Setting : Type 1 where
  pub State : Type 0
  pub Env : State → State → Type 0
  pub env_refl : (h : State) → Env h h
  pub env_trans : (h i j : State) → Env h i → Env i j → Env h j
  -- the answer `r` and the state behind it, for a call in a state
  pub Step : State → (c : Call) → Result (Reply c) → State → Type 0
  pub Safe : State → Call → Type 0

module _ (s : Setting) where
  open s use {State, Env, env_refl, env_trans, Step, Safe}

  abbrev pub Runs : {A : Type 0} → Prog A → (Result A → State → Type 0) → State → Type 0
  Runs (ret a) Q h = (h' : State) → Env h h' → Q (ok a) h'
  Runs (throw e) Q h = (h' : State) → Env h h' → Q (err e) h'
  Runs (call c k) Q h =
      (h' : State)
      → Env h h'
      → Safe h' c × ((r : Result (Reply c)) (i : State) → Step h' c r i → Runs (k r) Q i)

  -- a record, so that a rule finds its program in the goal
  pub record Wp {A : Type 0} (m : Prog A) (Q : Result A → State → Type 0) (h : State) : Type 0 where
    pub runs : Runs m Q h

  pub Wp-env :
      {A : Type 0} {m : Prog A} {Q : Result A → State → Type 0} {h : State} (i : State)
      → Wp m Q h
      → Env h i
      → Wp m Q i
  Wp-env {A = A} {m = m} {Q = Q} {h = h} i w e = record { runs = go m w.runs }
    where
      go : (m : Prog A) → Runs m Q h → Runs m Q i
      go (ret a) w = λ j f. w j (env_trans h i j e f)
      go (throw x) w = λ j f. w j (env_trans h i j e f)
      go (call c k) w = λ j f. w j (env_trans h i j e f)

  module _ {A : Type 0} (P Q : Result A → State → Type 0) where
    mono :
        (m : Prog A) (h : State)
        → ((r : Result A) (i : State) → P r i → Q r i)
        → Runs m P h
        → Runs m Q h
    mono (ret a) h f w = λ i e. f _ i (w i e)
    mono (throw x) h f w = λ i e. f _ i (w i e)
    mono (call c k) h f w = λ i e. ((w i e).0, λ r j st. mono (k r) j f ((w i e).1 r j st))

    catch :
        (m : Prog A) (f : Exn → Prog A) (h : State)
        → Runs m P h
        → ((a : A) (i : State) → P (ok a) i → Q (ok a) i)
        → ((e : Exn) (i : State) → P (err e) i → Wp (f e) Q i)
        → Runs (try m f) Q h
    unfolding try
    catch (ret a) f h w good bad = λ i v. good a i (w i v)
    catch (throw e) f h w good bad = (bad e h (w h (env_refl h))).runs
    catch (call c k) f h w good bad =
        λ i v. ((w i v).0, λ r j st. catch (k r) f j ((w i v).1 r j st) good bad)

  module _ {A : Type 0} {P Q : Result A → State → Type 0} where
    pub Wp-mono :
        {m : Prog A} {h : State}
        → ((r : Result A) (i : State) → P r i → Q r i)
        → Wp m P h
        → Wp m Q h
    Wp-mono {m = m} {h = h} f w = record { runs = mono P Q m h f w.runs }

    pub Wp-try :
        {m : Prog A} {f : Exn → Prog A} {h : State}
        → Wp m P h
        → ((a : A) (i : State) → P (ok a) i → Q (ok a) i)
        → ((e : Exn) (i : State) → P (err e) i → Wp (f e) Q i)
        → Wp (try m f) Q h
    Wp-try {m = m} {f = f} {h = h} w good bad = record { runs = catch P Q m f h w.runs good bad }

  module _ {A B : Type 0} (P : Result A → State → Type 0) (Q : Result B → State → Type 0) where
    bind :
        (m : Prog A) (f : A → Prog B) (h : State)
        → Runs m P h
        → ((a : A) (i : State) → P (ok a) i → Wp (f a) Q i)
        → ((e : Exn) (i : State) → P (err e) i → Q (err e) i)
        → Runs (m >>= f) Q h
    unfolding ◌>>=◌
    bind (ret a) f h w good bad = (good a h (w h (env_refl h))).runs
    bind (throw e) f h w good bad = λ i v. bad e i (w i v)
    bind (call c k) f h w good bad =
        λ i v. ((w i v).0, λ r j st. bind (k r) f j ((w i v).1 r j st) good bad)

  module _ {A B : Type 0} {P : Result A → State → Type 0} {Q : Result B → State → Type 0} where
    pub Wp-bind :
        {m : Prog A} {f : A → Prog B} {h : State}
        → Wp m P h
        → ((a : A) (i : State) → P (ok a) i → Wp (f a) Q i)
        → ((e : Exn) (i : State) → P (err e) i → Q (err e) i)
        → Wp (m >>= f) Q h
    Wp-bind {m = m} {f = f} {h = h} w good bad = record { runs = bind P Q m f h w.runs good bad }

  pub Wp-ret :
      {A : Type 0} (a : A) {Q : Result A → State → Type 0} {h : State}
      → ((i : State) → Env h i → Q (ok a) i)
      → Wp (ret a) Q h
  Wp-ret a f = record { runs = f }

  pub Wp-throw :
      {A : Type 0} (e : Exn) {Q : Result A → State → Type 0} {h : State}
      → ((i : State) → Env h i → Q (err e) i)
      → Wp (throw e) Q h
  Wp-throw e f = record { runs = f }

  from_result-Runs :
      {A : Type 0} (r : Result A) (Q : Result A → State → Type 0) (h : State)
      → ((i : State) → Env h i → Q r i)
      → Runs (from_result r) Q h
  from_result-Runs (ok a) Q h f = f
  from_result-Runs (err e) Q h f = f

  pub Wp-perform :
      (c : Call) {Q : Result (Reply c) → State → Type 0} {h : State}
      → ((i : State) → Env h i → Safe i c)
      → ((i : State)
          → Env h i
          → (r : Result (Reply c)) (j : State) → Step i c r j
          → (k : State) → Env j k
          → Q r k)
      → Wp (perform c) Q h
  unfolding perform
  Wp-perform c {Q = Q} safe post = record {
    runs = λ i v. (safe i v, λ r j st. from_result-Runs r Q j (post i v r j st));
  }

  pub Wp-choose :
      {A : Type 0} {b : Bool} {m n : Prog A} {Q : Result A → State → Type 0} {h : State}
      → (b ≡ true → Wp m Q h)
      → (b ≡ false → Wp n Q h)
      → Wp (choose b m n) Q h
  unfolding choose
  Wp-choose {b = true} f g = f refl
  Wp-choose {b = false} f g = g refl

-- A setting that only reads the calls of one program with their answers: its state is moved by
-- `next`, and no other thread touches it.
abbrev pub monitor :
    (State : Type 0)
    → (State → (c : Call) → Result (Reply c) → State)
    → (State → Call → Type 0)
    → Setting
monitor State next Safe = record {
  State = State;
  Env = ◌≡◌;
  env_refl = λ h. refl;
  env_trans = λ h i j p q. p ∙ q;
  Step = λ h c r i. next h c r ≡ i;
  Safe = Safe;
}

module _ {State : Type 0} (next : State → (c : Call) → Result (Reply c) → State)
    (Safe : State → Call → Type 0) where
  pub Wp-watch :
      (c : Call) (Q : Result (Reply c) → State → Type 0) (h : State)
      → Safe h c
      → ((r : Result (Reply c)) → Q r (next h c r))
      → Wp (monitor State next Safe) (perform c) Q h
  Wp-watch c Q h safe post =
      Wp-perform _ c (λ i e. subst (λ j. Safe j c) e safe)
        (λ i e r j st k f. subst (Q r) (st ∙ f) (subst (λ x. Q r (next x c r)) e (post r)))

  pub Wp-end :
      {A : Type 0} (a : A) (Q : Result A → State → Type 0) (h : State)
      → Q (ok a) h
      → Wp (monitor State next Safe) (ret a) Q h
  Wp-end a Q h q = Wp-ret _ a (λ i e. subst (Q (ok a)) e q)

  pub Wp-raise :
      {A : Type 0} (x : Exn) (Q : Result A → State → Type 0) (h : State)
      → Q (err x) h
      → Wp (monitor State next Safe) (throw x) Q h
  Wp-raise x Q h q = Wp-throw _ x (λ i e. subst (Q (err x)) e q)
