-- ===== src/Executor/Fleet.antt =====
-- What an action that returns has made of the fleet, for every daemon that keeps the contract of
-- docker_client.py and whatever the other threads do to containers of other names.
-- The fleet maps a container's name to the spec that it was created from. A call that raises may
-- have left anything behind under the names that it is about, and nothing under other names.
use mathlib.Core.Path.{subst}
use bay.Prelude.{
  ℕ, zero, suc, String, ◌≡◌, ◌≢◌, ◌⊎◌, refl, Option, none, some, [], ◌∷◌, string_eq, sym, ◌∙◌,
}
use bay.Prelude.Text.{concat}
use bay.Prelude.Result.{Result, ok, err}
use bay.Model.{
  ContainerSpec, Action, no_op, create, recreate, canary_swap, remove, ReconcilerConfig,
}
use bay.Executor.Calls.{Call, Reply, Prog, ret, perform, ◌>>=◌}
use bay.Executor.Hoare.{Setting, Wp, Wp-bind, Wp-choose, Wp-perform, Wp-ret, Wp-throw}
use bay.Executor.{
  Clock, release, stop_then_remove, pull_unless_build, poll_health, sleep_unless_last, canary_name,
}

abbrev pub Fleet : Type 0
Fleet = String → Option ContainerSpec

-- `<name>-release`
unfoldable pub release_name : ContainerSpec → String
unfolding concat
release_name spec = concat (spec.name ∷ "-release" ∷ [])

-- the names that a call is about
abbrev pub Touches : Call → String → Type 0
Touches (Call.create spec none) n = n ≡ spec.name
Touches (Call.create spec (some name)) n = n ≡ name
Touches (Call.stop name timeout) n = n ≡ name
Touches (Call.remove name) n = n ≡ name
Touches (Call.rename old new) n = (n ≡ old) ⊎ (n ≡ new)
Touches (Call.run_release spec timeout) n = n ≡ release_name spec
Touches _ n = ⊥

-- the contract of a call that returns
abbrev pub Effect : Fleet → Call → Fleet → Type 0
Effect h (Call.create spec none) i = i spec.name ≡ some spec
Effect h (Call.create spec (some name)) i = i name ≡ some spec
Effect h (Call.stop name timeout) i = h name ≡ i name
Effect h (Call.remove name) i = i name ≡ none
Effect h (Call.rename old new) i =
    (spec : ContainerSpec) × (h old ≡ some spec) × (i new ≡ some spec) × (old ≢ new → i old ≡ none)
Effect h _ i = Unit

abbrev pub OnOk : {A S : Type 0} → (S → Type 0) → Result A → S → Type 0
OnOk P (ok a) h = P h
OnOk P (err e) h = Unit

abbrev pub FleetStep : Fleet → (c : Call) → Result (Reply c) → Fleet → Type 0
FleetStep h c r i = ((n : String) → ¬ Touches c n → h n ≡ i n) × OnOk (Effect h c) r i

-- A thread that may touch the names of `Own`; the others leave these alone.
abbrev pub fleet : (String → Type 0) → Setting
fleet Own = record {
  State = Fleet;
  Env = λ h i. (n : String) → Own n → h n ≡ i n;
  env_refl = λ h n o. refl;
  env_trans = λ h i j p q n o. p n o ∙ q n o;
  Step = FleetStep;
  Safe = λ h c. (n : String) → Touches c n → Own n;
}

module _ (clock : Clock) (cfg : ReconcilerConfig) where
  -- the names of an action's own containers
  abbrev pub Own : Action → String → Type 0
  Own (no_op name) n = ⊥
  Own (create spec) n = (n ≡ spec.name) ⊎ (n ≡ release_name spec)
  Own (recreate spec reason) n = (n ≡ spec.name) ⊎ (n ≡ release_name spec)
  Own (canary_swap spec reason) n =
      (n ≡ spec.name) ⊎ (n ≡ release_name spec) ⊎ (n ≡ canary_name clock cfg spec)
  Own (remove name reason) n = n ≡ name

  -- what an action is for
  abbrev pub Achieved : Action → Fleet → Type 0
  Achieved (no_op name) h = Unit
  Achieved (create spec) h = h spec.name ≡ some spec
  Achieved (recreate spec reason) h = h spec.name ≡ some spec
  Achieved (canary_swap spec reason) h =
      (h spec.name ≡ some spec)
      × (canary_name clock cfg spec ≢ spec.name → h (canary_name clock cfg spec) ≡ none)
  Achieved (remove name reason) h = h name ≡ none

module _ (Mine : String → Type 0) where
  abbrev pub Same : Fleet → Fleet → Type 0
  Same h i = (n : String) → Mine n → h n ≡ i n

  -- one call, from what holds before it to what holds behind it
  pub do_call :
      (c : Call) (P : Fleet → Type 0) (h : Fleet)
      → ((n : String) → Touches c n → Mine n)
      → ((i j : Fleet) → Same i j → P i → P j)
      → ((i j : Fleet) → Same h i → ((n : String) → ¬ Touches c n → i n ≡ j n) → Effect i c j → P j)
      → Wp (fleet Mine) (perform c) (OnOk P) h
  do_call c P h safe stable post = Wp-perform (fleet Mine) c (λ i e. safe) after
    where
      after :
          (i : Fleet)
          → Same h i
          → (r : Result (Reply c)) (j : Fleet) → FleetStep i c r j
          → (k : Fleet) → Same j k
          → OnOk P r k
      after i e (ok a) j st k f = stable j k f (post i j e st.0 st.1)
      after i e (err x) j st k f = tt

  pub seq :
      {A B : Type 0} {P Q : Fleet → Type 0} {m : Prog A} {f : A → Prog B} {h : Fleet}
      → Wp (fleet Mine) m (OnOk P) h
      → ((a : A) (i : Fleet) → P i → Wp (fleet Mine) (f a) (OnOk Q) i)
      → Wp (fleet Mine) (m >>= f) (OnOk Q) h
  seq w f = Wp-bind (fleet Mine) w f (λ e i q. tt)

  abbrev pub Stable : (Fleet → Type 0) → Type 0
  Stable P = (i j : Fleet) → Same i j → P i → P j

  -- `P` is about other names than `name`
  abbrev pub Apart : String → (Fleet → Type 0) → Type 0
  Apart name P = (i j : Fleet) → ((n : String) → n ≢ name → i n ≡ j n) → P i → P j

  -- a call that touches no name
  idle :
      (c : Call) (P : Fleet → Type 0) (h : Fleet)
      → ((n : String) → ¬ Touches c n)
      → Stable P
      → P h
      → Wp (fleet Mine) (perform c) (OnOk P) h
  idle c P h none_touched stable p =
      do_call c P h (λ n t. absurd (none_touched n t)) stable
        (λ i j e st _. stable i j (λ n m. st n (none_touched n)) (stable h i e p))

  pub at_name : (n : String) (v : Option ContainerSpec) → Mine n → Stable (λ h. h n ≡ v)
  at_name n v mine i j e p = sym (e n mine) ∙ p

  module _ (clock : Clock) (cfg : ReconcilerConfig) where
    pub stop_then_remove-none :
        (name : String) (P : Fleet → Type 0) (h : Fleet)
        → Mine name
        → Stable P
        → Apart name P
        → P h
        → Wp (fleet Mine) (stop_then_remove clock cfg name) (OnOk (λ i. P i × (i name ≡ none))) h
    unfolding stop_then_remove
    stop_then_remove-none name P h mine stable apart p = seq {P = P} stop (λ _ i q.
        do_call (Call.remove name) (λ i. P i × (i name ≡ none)) i (λ n t. subst Mine (sym t) mine)
          (λ a b e pa. (stable a b e pa.0, at_name name none mine a b e pa.1))
          (λ a b e st gone. (apart a b (λ n ne. st n ne) (stable i a e q), gone)))
      where
        stop : Wp (fleet Mine) (perform (Call.stop name cfg.stop_timeout)) (OnOk P) h
        stop =
            do_call (Call.stop name cfg.stop_timeout) P h (λ n t. subst Mine (sym t) mine) stable
              (λ a b e st same. apart a b (λ n ne. st n ne) (stable h a e p))

    pub poll_health-keeps :
        (P : Fleet → Type 0)
        → Stable P
        → (left : ℕ) (name : String) (h : Fleet) → P h
        → Wp (fleet Mine) (poll_health clock cfg left name) (OnOk P) h
    unfolding poll_health
    poll_health-keeps P stable zero name h p = Wp-ret _ _ (λ i e. stable h i e p)
    poll_health-keeps P stable (suc left) name h p =
        seq {P = P} (idle (Call.inspect name) P h (λ n t. t) stable p) (λ state i q.
          Wp-choose _ (λ _. Wp-ret _ _ (λ j e. stable i j e q))
            (λ _.
              Wp-choose _ (λ _. Wp-ret _ _ (λ j e. stable i j e q))
                (λ _.
                  seq {P = P} (pause left i q)
                    (λ _ j q'. poll_health-keeps P stable left name j q'))))
      where
        pause :
            (n : ℕ) (i : Fleet) → P i → Wp (fleet Mine) (sleep_unless_last clock cfg n) (OnOk P) i
        pause zero i q = unfold sleep_unless_last in Wp-ret _ tt (λ j e. stable i j e q)
        pause (suc n) i q =
            unfold sleep_unless_last in
            idle (Call.sleep cfg.healthcheck_poll) P i (λ n t. t) stable q

    -- the pull and the release leave the names of the containers to the rest
    pub prepared :
        {m : Prog String} (spec : ContainerSpec) (Q : Fleet → Type 0) (h : Fleet)
        → Mine (release_name spec)
        → ((i : Fleet) → Wp (fleet Mine) m (OnOk Q) i)
        → Wp
            (fleet Mine)
            (pull_unless_build clock cfg spec >>= λ _. (release clock cfg spec >>= λ _. m))
            (OnOk Q)
            h
    prepared spec Q h mine rest =
        seq {P = λ i. Unit} pull (λ _ i _. seq {P = λ i. Unit} (run i) (λ _ j _. rest j))
      where
        pull : Wp (fleet Mine) (pull_unless_build clock cfg spec) (OnOk (λ i. Unit)) h
        pull =
            unfold pull_unless_build in
            Wp-choose _ (λ _. Wp-ret _ tt (λ i e. tt))
              (λ _. idle (Call.pull spec.image) _ h (λ n t. t) (λ i j e q. tt) tt)

        run : (i : Fleet) → Wp (fleet Mine) (release clock cfg spec) (OnOk (λ i. Unit)) i
        run i =
            unfold release in
            Wp-choose _ (λ _. Wp-ret _ tt (λ i e. tt))
              (λ _.
                seq {P = λ i. Unit}
                  (do_call (Call.run_release spec cfg.release_timeout) _ i
                    (λ n t. subst Mine (sym t) mine) (λ i j e q. tt) (λ i j e st eff. tt))
                  (λ x j _.
                    Wp-choose _ (λ _. Wp-ret _ tt (λ i e. tt)) (λ _. Wp-throw _ _ (λ i e. tt))))

    pub install :
        (spec : ContainerSpec) (P : Fleet → Type 0) (text : String) (h : Fleet)
        → Mine spec.name
        → Stable P
        → Apart spec.name P
        → P h
        → Wp
            (fleet Mine)
            (perform (Call.create spec none) >>= λ _. ret text)
            (OnOk (λ i. (i spec.name ≡ some spec) × P i))
            h
    install spec P text h mine stable apart p =
        seq {P = λ i. (i spec.name ≡ some spec) × P i}
          (do_call (Call.create spec none) _ h (λ n t. subst Mine (sym t) mine) both
            (λ a b e st eff. (eff, apart a b (λ n ne. st n ne) (stable h a e p))))
          (λ _ i q. Wp-ret _ _ (λ j e. both i j e q))
      where
        both : Stable (λ i. (i spec.name ≡ some spec) × P i)
        both a b e q = (at_name spec.name (some spec) mine a b e q.0, stable a b e q.1)
