-- ===== src/Executor/Outcome.antt =====
-- Every action that returns has done what it is for.
use mathlib.Core.Path.{subst}
use bay.Prelude.{String, ◌≡◌, ◌≢◌, ◌⊎◌, inl, inr, refl, none, some, string_eq, sym, ◌∙◌}
use bay.Prelude.Result.{Exn, Result, ok, err}
use bay.Model.{
  ContainerSpec, Action, no_op, create, recreate, canary_swap, remove, ReconcilerConfig,
}
use bay.Executor.Calls.{Call}
use bay.Executor.Hoare.{Wp, Wp-try, Wp-choose, Wp-mono, Wp-ret, Wp-throw}
use bay.Executor.Fleet.{
  Fleet, fleet, OnOk, Own, Achieved, Stable, Apart, do_call, seq, at_name, stop_then_remove-none,
  poll_health-keeps, prepared, install,
}
use bay.Executor.{Clock, wait_healthy, canary_name, promote, rescue, run_canary_swap, apply}

module _ (clock : Clock) (cfg : ReconcilerConfig) (spec : ContainerSpec) (reason : String) where
  abbrev canary : String
  canary = canary_name clock cfg spec

  abbrev Mine : String → Type 0
  Mine = Own clock cfg (canary_swap spec reason)

  abbrev Done : Fleet → Type 0
  Done = Achieved clock cfg (canary_swap spec reason)

  Done-stable : Stable Mine Done
  Done-stable i j e p =
      (sym (e spec.name (inl refl)) ∙ p.0, λ ne. sym (e canary (inr (inr refl))) ∙ p.1 ne)

  -- the canary is up, if it has a name of its own
  abbrev Up : Fleet → Type 0
  Up h = canary ≢ spec.name → h canary ≡ some spec

  Up-stable : Stable Mine Up
  Up-stable i j e p ne = sym (e canary (inr (inr refl))) ∙ p ne

  Up-apart : Apart Mine spec.name Up
  Up-apart i j e p ne = sym (e canary ne) ∙ p ne

  -- with the old container gone, the rename puts the canary in its place
  renamed :
      (i : Fleet) (other : ContainerSpec)
      → Up i
      → i spec.name ≡ none
      → i canary ≡ some other
      → (canary ≢ spec.name) × (other ≡ spec)
  renamed i other up gone found =
      let ne : canary ≢ spec.name = λ e. cc (subst (λ n. i n ≡ some other) e found, gone) in
      (ne, cc (up ne, found))

  promote-Done :
      (h : Fleet) → h canary ≡ some spec → Wp (fleet Mine) (promote clock cfg spec) (OnOk Done) h
  unfolding promote wait_healthy
  promote-Done h p =
      seq Mine {P = Up} (poll_health-keeps Mine clock cfg Up Up-stable _ canary h (λ ne. p))
        (λ healthy i q.
          Wp-choose _ (λ _. Wp-throw _ _ (λ j e. tt))
            (λ _.
              seq Mine
                (stop_then_remove-none Mine clock cfg spec.name Up i (inl refl) Up-stable Up-apart
                  q)
                (λ _ j up.
                  seq Mine {P = Done}
                    (do_call Mine (Call.rename canary spec.name) Done j own Done-stable
                      (λ a b e st eff.
                        let (ne, same) =
                          renamed a eff.0 (Up-stable j a e up.0)
                            (at_name Mine spec.name none (inl refl) j a e up.1) eff.1 in
                        (eff.2 ∙ cc same, eff.3)))
                    (λ _ k d. Wp-ret _ _ (λ l e. Done-stable k l e d)))))
    where
      own : (n : String) → (n ≡ canary) ⊎ (n ≡ spec.name) → Mine n
      own n (inl e) = inr (inr e)
      own n (inr e) = inl e

  rescue-Done : (x : Exn) (h : Fleet) → Wp (fleet Mine) (rescue clock cfg spec x) (OnOk Done) h
  unfolding rescue
  rescue-Done x h =
      let Gone = λ (i : Fleet). canary ≢ spec.name → i canary ≡ none in
      seq Mine
        (stop_then_remove-none Mine clock cfg canary (λ i. Unit) h (inr (inr refl)) (λ i j e q. tt)
          (λ i j e q. tt) tt)
        (λ _ i gone.
          seq Mine
            (stop_then_remove-none Mine clock cfg spec.name Gone i (inl refl)
              (λ a b e g ne. sym (e canary (inr (inr refl))) ∙ g ne)
              (λ a b e g ne. sym (e canary ne) ∙ g ne) (λ ne. gone.1))
            (λ _ j g.
              install Mine clock cfg spec Gone _ j (inl refl)
                (λ a b e g ne. sym (e canary (inr (inr refl))) ∙ g ne)
                (λ a b e g ne. sym (e canary ne) ∙ g ne) g.0))

  pub swap-Done : (h : Fleet) → Wp (fleet Mine) (run_canary_swap clock cfg spec) (OnOk Done) h
  unfolding run_canary_swap
  swap-Done h = prepared Mine clock cfg spec Done h (inr (inl refl)) (λ i.
      seq Mine {P = λ a. a canary ≡ some spec}
        (do_call Mine (Call.create spec (some canary)) _ i (λ n t. inr (inr t))
          (at_name Mine canary (some spec) (inr (inr refl))) (λ a b e st eff. eff))
        (λ _ j up. Wp-try _ (promote-Done j up) (λ a k d. d) (λ x k _. rescue-Done x k)))

only_first :
    {A : Type 0} (P : Fleet → Type 0) (r : Result A) (i : Fleet)
    → OnOk (λ j. P j × Unit {0}) r i
    → OnOk P r i
only_first P (ok a) i q = q.0
only_first P (err e) i q = tt

-- An action that returns has achieved its aim, whatever the daemon answered on the way and whatever
-- other threads did to containers of other names: after a create, a recreate or a swap the name
-- holds a container of the wanted spec, after a swap the canary's own name is free (also when the
-- swap fell back to a recreate), and after a remove the name is free. On the way it touches only
-- its own names.
pub apply-Achieved :
    (clock : Clock) (cfg : ReconcilerConfig) (a : Action) (h : Fleet)
    → Wp (fleet (Own clock cfg a)) (apply clock cfg a) (OnOk (Achieved clock cfg a)) h
unfolding apply
apply-Achieved clock cfg (no_op name) h = Wp-ret _ _ (λ i e. tt)
apply-Achieved clock cfg (create spec) h =
    let Mine = Own clock cfg (create spec) in
    prepared Mine clock cfg spec _ h (inr refl) (λ i.
      Wp-mono _ (only_first (λ j. j spec.name ≡ some spec))
        (install Mine clock cfg spec (λ j. Unit) _ i (inl refl) (λ a b e q. tt) (λ a b e q. tt) tt))
apply-Achieved clock cfg (recreate spec reason) h =
    let Mine = Own clock cfg (recreate spec reason) in
    prepared Mine clock cfg spec _ h (inr refl) (λ i.
      seq Mine
        (stop_then_remove-none Mine clock cfg spec.name (λ j. Unit) i (inl refl) (λ a b e q. tt)
          (λ a b e q. tt) tt)
        (λ _ j q. Wp-mono _ (only_first (λ j. j spec.name ≡ some spec)) (
          install Mine clock cfg spec (λ j. Unit) _ j (inl refl) (λ a b e q. tt) (λ a b e q. tt)
            tt)))
apply-Achieved clock cfg (canary_swap spec reason) h = swap-Done clock cfg spec reason h
apply-Achieved clock cfg (remove name reason) h =
    let Mine = Own clock cfg (remove name reason) in
    seq Mine
      (stop_then_remove-none Mine clock cfg name (λ j. Unit) h refl (λ a b e q. tt) (λ a b e q. tt)
        tt)
      (λ _ i q. Wp-ret _ _ (λ j e. at_name Mine name none refl i j e q.1))
