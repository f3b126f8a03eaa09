-- ===== src/Executor/Gates.antt =====
-- The order of the calls that one action makes, for every answer of the daemon. A monitor reads
-- the calls with their answers, and says before each call whether it may be made.
use bay.Prelude.{
  ℕ, zero, suc, String, Bool, true, false, ◌≡◌, refl, Option, none, some, ◌==◌, string_eq,
  option_eq, arith, ap, ◌∙◌, false≢true,
}
use bay.Prelude.Int.{ℤ, pos, int_eq}
use bay.Prelude.Result.{Exn, Result, ok, err}
use bay.Model.{
  ContainerSpec, Action, no_op, create, recreate, canary_swap, remove, ReconcilerConfig,
}
use bay.Executor.Calls.{Call, Reply, Prog, perform, ◌>>=◌}
use bay.Executor.Hoare.{
  Setting, Wp, Wp-bind, Wp-try, Wp-choose, Wp-mono, monitor, Wp-watch, Wp-end, Wp-raise,
}
use bay.Executor.{
  Clock, has_release, release, stop_then_remove, pull_unless_build, poll_health, wait_healthy,
  sleep_unless_last, canary_name, promote, rescue, run_canary_swap, apply,
}

-- Whether a release one-shot has exited with 0.
abbrev pub released : Bool → (c : Call) → Result (Reply c) → Bool
released h (Call.run_release spec timeout) (ok (code, tail)) = code == some (pos 0)
released h c r = h

-- A call that makes, stops, removes or renames a container of the fleet.
abbrev pub Mutates : Call → Type 0
Mutates (Call.create spec name) = Unit
Mutates (Call.stop name timeout) = Unit
Mutates (Call.remove name) = Unit
Mutates (Call.rename old new) = Unit
Mutates _ = ⊥

abbrev pub needs_release : Action → Bool
needs_release (create spec) = has_release spec.release
needs_release (recreate spec reason) = has_release spec.release
needs_release (canary_swap spec reason) = has_release spec.release
needs_release _ = false

-- With `wanted`, nothing is mutated before the release.
abbrev pub gate : Bool → Setting
gate wanted = monitor Bool released (λ h c. Mutates c → wanted ≡ true → h ≡ true)

-- The gate is open, or not wanted.
abbrev pub Open : Bool → {A : Type 0} → Result A → Bool → Type 0
Open wanted r h = wanted ≡ true → h ≡ true

-- The gate is open after a return.
abbrev Passed : Bool → {A : Type 0} → Result A → Bool → Type 0
Passed wanted (ok a) h = wanted ≡ true → h ≡ true
Passed wanted (err e) h = Unit

abbrev pub Any : {A S : Type 0} → Result A → S → Type 0
Any r h = Unit

ok_inj {ℓ} : {A : Type ℓ} {a b : A} → ok a ≡ ok b → a ≡ b
ok_inj h = cc

released-ok :
    (i : Bool) (spec : ContainerSpec) (timeout : String) (r : Result (Option ℤ × String))
    (x : Option ℤ × String)
    → r ≡ ok x
    → released i (Call.run_release spec timeout) r ≡ (x.0 == some (pos 0))
released-ok i spec timeout (ok (code, tail)) x e =
    ap (λ (y : Option ℤ × String). y.0 == some (pos 0)) (ok_inj e)
released-ok i spec timeout (err e) x h = cc

module _ (clock : Clock) (cfg : ReconcilerConfig) (wanted : Bool) where
  abbrev Holds : {A : Type 0} → Prog A → Bool → Type 0
  Holds m h = Wp (gate wanted) m (Open wanted) h

  watch :
      (c : Call) (h : Bool)
      → (Mutates c → wanted ≡ true → h ≡ true)
      → ((r : Result (Reply c)) → Open wanted r (released h c r))
      → Holds (perform c) h
  watch c h safe post = Wp-watch released _ c (Open wanted) h safe post

  seq :
      {A B : Type 0} {m : Prog A} {f : A → Prog B} {h : Bool}
      → Holds m h
      → ((a : A) (i : Bool) → (wanted ≡ true → i ≡ true) → Holds (f a) i)
      → Holds (m >>= f) h
  seq w f = Wp-bind _ w f (λ e i q. q)

  stop_then_remove-gate :
      (name : String) (h : Bool)
      → (wanted ≡ true → h ≡ true)
      → Holds (stop_then_remove clock cfg name) h
  unfolding stop_then_remove
  stop_then_remove-gate name h p =
      seq (watch (Call.stop name cfg.stop_timeout) h (λ _. p) (λ r. p))
        (λ a i q. watch (Call.remove name) i (λ _. q) (λ r. q))

  poll_health-gate :
      (left : ℕ) (name : String) (h : Bool)
      → (wanted ≡ true → h ≡ true)
      → Holds (poll_health clock cfg left name) h
  unfolding poll_health
  poll_health-gate zero name h p = Wp-end released _ false _ h p
  poll_health-gate (suc left) name h p =
      seq (watch (Call.inspect name) h (λ m. elim m [ ]) (λ r. p)) (λ state i q.
        Wp-choose _ (λ _. Wp-end released _ false _ i q)
          (λ _.
            Wp-choose _ (λ _. Wp-end released _ true _ i q)
              (λ _. seq (pause left i q) (λ a j q'. poll_health-gate left name j q'))))
    where
      pause :
          (n : ℕ) (i : Bool) → (wanted ≡ true → i ≡ true) → Holds (sleep_unless_last clock cfg n) i
      pause zero i q = unfold sleep_unless_last in Wp-end released _ tt _ i q
      pause (suc n) i q =
          unfold sleep_unless_last in
          watch (Call.sleep cfg.healthcheck_poll) i (λ m. elim m [ ]) (λ r. q)

  mutate-gate :
      (c : Call) (h : Bool)
      → ((r : Result (Reply c)) → released h c r ≡ h)
      → (wanted ≡ true → h ≡ true)
      → Holds (perform c) h
  mutate-gate c h same p = watch c h (λ _. p) (λ r w. same r ∙ p w)

  promote-gate :
      (spec : ContainerSpec) (h : Bool)
      → (wanted ≡ true → h ≡ true)
      → Holds (promote clock cfg spec) h
  unfolding promote wait_healthy
  promote-gate spec h p = seq (poll_health-gate _ (canary_name clock cfg spec) h p) (λ healthy i q.
      Wp-choose _ (λ _. Wp-raise released _ _ _ i q)
        (λ _. seq (stop_then_remove-gate spec.name i q) (λ _ j q1.
          seq (mutate-gate (Call.rename (canary_name clock cfg spec) spec.name) j (λ r. refl) q1)
            (λ _ k q2. Wp-end released _ _ _ k q2))))

  rescue-gate :
      (spec : ContainerSpec) (e : Exn) (h : Bool)
      → (wanted ≡ true → h ≡ true)
      → Holds (rescue clock cfg spec e) h
  unfolding rescue
  rescue-gate spec e h p = seq (stop_then_remove-gate (canary_name clock cfg spec) h p) (λ _ i q1.
      seq (stop_then_remove-gate spec.name i q1) (λ _ j q2.
        seq (mutate-gate (Call.create spec none) j (λ r. refl) q2)
          (λ _ k q3. Wp-end released _ _ _ k q3)))

  -- the rest of an action, behind its pull and its release
  gated :
      {m : Prog String} (spec : ContainerSpec)
      → wanted ≡ has_release spec.release
      → ((h : Bool) → (wanted ≡ true → h ≡ true) → Wp (gate wanted) m Any h)
      → Wp
          (gate wanted)
          (pull_unless_build clock cfg spec >>= λ _. (release clock cfg spec >>= λ _. m))
          Any
          false
  gated spec e rest =
      Wp-bind _ {P = λ r h. h ≡ false} pull
        (λ _ i f. Wp-bind _ {P = Passed wanted} (unlock i) (λ _ j q. rest j q) (λ x j q. tt))
        (λ x i q. tt)
    where
      pull : Wp (gate wanted) (pull_unless_build clock cfg spec) (λ r h. h ≡ false) false
      pull =
          unfold pull_unless_build in
          Wp-choose _ (λ _. Wp-end released _ _ _ false refl)
            (λ _. Wp-watch released _ (Call.pull spec.image) _ false (λ m. elim m [ ]) (λ r. refl))

      unlock : (i : Bool) → Wp (gate wanted) (release clock cfg spec) (Passed wanted) i
      unlock i =
          unfold release in
          Wp-choose _ (λ n. Wp-end released _ tt _ i (λ w. ground arith))
            (λ n.
              Wp-bind _ {P = λ r j. (x : Option ℤ × String) → r ≡ ok x → j ≡ (x.0 == some (pos 0))}
                (Wp-watch released _ (Call.run_release spec cfg.release_timeout) _ i
                  (λ m. elim m [ ]) (released-ok i spec cfg.release_timeout))
                (λ x j f.
                  Wp-choose _ (λ z. Wp-end released _ tt _ j (λ w. f x refl ∙ z))
                    (λ z. Wp-raise released _ _ _ j tt))
                (λ x j f. tt))

-- Whatever the daemon answers, an action for a spec with a release command creates, stops, removes
-- and renames no container before a release one-shot of it has exited with 0; so a release that
-- fails leaves the old container as it is.
pub apply-gate :
    (clock : Clock) (cfg : ReconcilerConfig) (a : Action)
    → Wp (gate (needs_release a)) (apply clock cfg a) Any false
unfolding apply run_canary_swap
apply-gate clock cfg (no_op name) = Wp-end released _ _ Any false tt
apply-gate clock cfg (create spec) = gated clock cfg _ spec refl (λ h p.
    Wp-mono _ (λ r i q. tt)
      (seq clock cfg _ (mutate-gate clock cfg _ (Call.create spec none) h (λ r. refl) p)
        (λ _ i q. Wp-end released _ _ _ i q)))
apply-gate clock cfg (recreate spec reason) = gated clock cfg _ spec refl (λ h p.
    Wp-mono _ (λ r i q. tt)
      (seq clock cfg _ (stop_then_remove-gate clock cfg _ spec.name h p) (λ _ i q.
        seq clock cfg _ (mutate-gate clock cfg _ (Call.create spec none) i (λ r. refl) q)
          (λ _ j q'. Wp-end released _ _ _ j q'))))
apply-gate clock cfg (canary_swap spec reason) = gated clock cfg _ spec refl (λ h p.
    Wp-mono _ (λ r i q. tt)
      (seq clock cfg _
        (mutate-gate clock cfg _ (Call.create spec (some (canary_name clock cfg spec))) h
          (λ r. refl) p)
        (λ _ i q.
          Wp-try _ (promote-gate clock cfg _ spec i q) (λ a j q'. q')
            (λ e j q'. rescue-gate clock cfg _ spec e j q'))))
apply-gate clock cfg (remove name reason) =
    Wp-mono _ (λ r i q. tt)
      (seq clock cfg false
        (stop_then_remove-gate clock cfg false name false (λ w. absurd (false≢true w)))
        (λ _ i q. Wp-end released _ _ _ i q))
