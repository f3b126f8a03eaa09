-- ===== src/Reconcile/Owners.antt =====
-- The actions that a container's name belongs to, and what they leave under it.
use mathlib.Core.Path.{subst}
use mathlib.Core.Option.{some-injective}
use bay.Prelude.{
  String, ◌≡◌, ◌⊎◌, inl, inr, refl, some, List, [], ◌∷◌, map, sym, ◌∙◌, Bool-cases, eq_iff, ◌==◌,
  string_eq,
}
use bay.Prelude.Assoc.{In, In-map}
use bay.Model.{
  ContainerSpec, Action, ReconcilerConfig, no_op, create, recreate, canary_swap, remove,
}
use bay.Executor.{Clock, canary_name}
use bay.Executor.Fleet.{Fleet, Own, Achieved, release_name}
use bay.Planner.{spec_name}
use bay.Reconcile.Observed.{Released, spec_of}

module _ (clock : Clock) (cfg : ReconcilerConfig) where
  pub same_name : {A : Type 0} (n m : String) → (n ≡ m → A) → ((n ≡ m → ⊥) → A) → A
  same_name n m f g = elim (Bool-cases (n == m)) [
    | inl e ↦ f ((eq_iff n m).0 e)
    | inr e ↦ g (λ d. cc (e, (eq_iff n m).1 d))
  ]

  pub Own-cases : (a : Action) (n : String) → Own clock cfg a n ⊎ (Own clock cfg a n → ⊥)
  Own-cases (no_op name) n = inr (λ h. h)
  Own-cases (create spec) n =
      same_name n spec.name (λ e. inl (inl e))
        (λ f.
          same_name n (release_name spec) (λ e. inl (inr e))
            (λ g. inr (λ h. elim h [ inl x ↦ f x | inr x ↦ g x ])))
  Own-cases (recreate spec reason) n =
      same_name n spec.name (λ e. inl (inl e))
        (λ f.
          same_name n (release_name spec) (λ e. inl (inr e))
            (λ g. inr (λ h. elim h [ inl x ↦ f x | inr x ↦ g x ])))
  Own-cases (canary_swap spec reason) n =
      same_name n spec.name (λ e. inl (inl e))
        (λ f.
          same_name n (release_name spec) (λ e. inl (inr (inl e)))
            (λ g.
              same_name n (canary_name clock cfg spec) (λ e. inl (inr (inr e)))
                (λ k.
                  inr
                    (λ h. elim h [ inl x ↦ f x | inr y ↦ elim y [ inl x ↦ g x | inr x ↦ k x ] ]))))
  Own-cases (remove name reason) n = same_name n name inl inr

  pub owner :
      (n : String) (l : List Action)
      → ((a : Action) × In a l × Own clock cfg a n)
        ⊎ ((a : Action) → In a l → Own clock cfg a n → ⊥)
  owner n [] = inr (λ a m o. m)
  owner n (x ∷ l) = elim (Own-cases x n) [
    | inl o ↦ inl (x, inl refl, o)
    | inr f ↦ elim (owner n l) [
      | inl (a, m, o) ↦ inl (a, inr m, o)
      | inr g ↦
          inr
            (λ a h. elim h [ inl e ↦ λ o. f (subst (λ c. Own clock cfg c n) e o) | inr m ↦ g a m ])
    ]
  ]

  pub decided-Achieved :
      (a : Action) (spec : ContainerSpec) (j : Fleet)
      → spec_of a ≡ some spec
      → Achieved clock cfg a j
      → j spec.name ≡ some spec
  decided-Achieved (no_op name) spec j e q = cc
  decided-Achieved (create s) spec j e q =
      let same : s ≡ spec = some-injective _ _ e in
      subst (λ (c : ContainerSpec). j c.name ≡ some c) same q
  decided-Achieved (recreate s reason) spec j e q =
      let same : s ≡ spec = some-injective _ _ e in
      subst (λ (c : ContainerSpec). j c.name ≡ some c) same q
  decided-Achieved (canary_swap s reason) spec j e (q, r) =
      let same : s ≡ spec = some-injective _ _ e in
      subst (λ (c : ContainerSpec). j c.name ≡ some c) same q
  decided-Achieved (remove name reason) spec j e q = cc

  -- the name of a wanted container, or that of its release container
  pub standing :
      (desired : List ContainerSpec) (spec : ContainerSpec) (n : String) (j : Fleet)
      (s : ContainerSpec)
      → (n ≡ spec.name) ⊎ (n ≡ release_name spec)
      → In spec desired
      → Released desired j
      → j n ≡ some s
      → ¬ In n (map spec_name desired)
      → ⊥
  standing desired spec n j s (inl e) m gone there out =
      out (subst (λ c. In c (map spec_name desired)) (sym e) (In-map spec_name spec desired m))
  standing desired spec n j s (inr e) m gone there out =
      cc (gone spec m (λ k. out (subst (λ c. In c (map spec_name desired)) (sym e) k)), e, there)

  -- A name that an action of the pass was about holds no container that is not wanted.
  pub claimed :
      (desired : List ContainerSpec) (a : Action) (n : String) (j : Fleet) (s : ContainerSpec)
      → Own clock cfg a n
      → Achieved clock cfg a j
      → ((spec : ContainerSpec) → spec_of a ≡ some spec → In spec desired)
      → Released desired j
      → j n ≡ some s
      → ¬ In n (map spec_name desired)
      → ⊥
  claimed desired (no_op name) n j s o q wanted gone there out = o
  claimed desired (create spec) n j s o q wanted gone there out =
      standing desired spec n j s o (wanted spec refl) gone there out
  claimed desired (recreate spec reason) n j s o q wanted gone there out =
      standing desired spec n j s o (wanted spec refl) gone there out
  claimed desired (canary_swap spec reason) n j s (inl e) q wanted gone there out =
      standing desired spec n j s (inl e) (wanted spec refl) gone there out
  claimed desired (canary_swap spec reason) n j s (inr (inl e)) q wanted gone there out =
      standing desired spec n j s (inr e) (wanted spec refl) gone there out
  claimed desired (canary_swap spec reason) n j s (inr (inr e)) (q, free) wanted gone there out =
      cc (
        free (λ d. out (
            subst (λ c. In c (map spec_name desired)) (sym (e ∙ d))
              (In-map spec_name spec desired (wanted spec refl)))),
        e,
        there,
      )
  claimed desired (remove name reason) n j s o q wanted gone there out = cc
