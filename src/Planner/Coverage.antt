-- ===== src/Planner/Coverage.antt =====
-- A plan covers every container once, and is empty of changes exactly when all is in place.
use bay.Prelude.{
  String, Bool, true, false, not, ◌&&◌, ◌≡◌, ◌↔◌, inl, inr, refl, Option, none, some, List, [], ◌∷◌,
  ◌++◌, map, arith, Bool-cases, false≢true, sym, ◌∙◌, ap, and_iff,
}
use mathlib.Core.Path.{subst}
use mathlib.Core.List.{append-nil}
use bay.Prelude.Assoc.{Assoc, lookup, contains, contains-In, In, In-contains, All, keep}
use bay.Model.{
  ContainerSpec, ContainerState, Action, remove, action_target, changes, is_noop, is_no_op,
}
use bay.Planner.Changes.{UpToDate, up_to_date_iff, change_lem}
use bay.Planner.{up_to_date, decide, spec_name, desired_actions, orphan_actions, plan}

pub decide-target :
    (spec : ContainerSpec) (o : Option ContainerState) → action_target (decide spec o) ≡ spec.name
unfolding decide action_target
decide-target spec none = refl
decide-target spec (some state) = ground (arith, change_lem spec state)

desired-targets :
    (desired : List ContainerSpec) (observed : Assoc ContainerState)
    → map action_target (desired_actions desired observed) ≡ map spec_name desired
unfolding desired_actions
desired-targets [] observed = refl
desired-targets (spec ∷ l) observed =
    rw (decide-target spec (lookup spec.name observed), desired-targets l observed)

-- With orphan removal off, a plan has one action for each desired container, in the order of the
-- specs, and no other action.
pub plan-targets :
    (desired : List ContainerSpec) (observed : Assoc ContainerState)
    → map action_target (plan desired observed false) ≡ map spec_name desired
unfolding plan
plan-targets desired observed = rw append-nil (desired-targets desired observed)

pub In-orphans :
    (names : List String) (observed : Assoc ContainerState) (name : String) (state : ContainerState)
    → In (name, state) observed
    → state.managed ≡ true
    → contains names name ≡ false
    → In (remove name "orphaned — not in desired set") (orphan_actions names observed)
unfolding orphan_actions
In-orphans names [] name state i m c = elim i [ ]
In-orphans names ((n, s) ∷ l) name state (inl e) m c =
    let same : name ≡ n = ap (λ x. x.0) e in
    let managed : s.managed ≡ true = sym (ap (λ x. x.1.managed) e) ∙ m in
    let unwanted : contains names n ≡ false = ap (contains names) (sym same) ∙ c in
    rw (managed, unwanted) (inl (ap (λ x. remove x "orphaned — not in desired set") same))
In-orphans names ((n, s) ∷ l) name state (inr i) m c =
    elim (Bool-cases (s.managed && not (contains names n))) [
      | inl e ↦ rw e (inr (In-orphans names l name state i m c))
      | inr e ↦ rw e (In-orphans names l name state i m c)
    ]

-- The container is there and up to date.
abbrev pub InPlace : Assoc ContainerState → ContainerSpec → Type 0
InPlace observed spec =
    (state : ContainerState) × (lookup spec.name observed ≡ some state)
    × (state.exists ≡ true)
    × UpToDate spec state

-- No managed container has a name that is not wanted.
abbrev pub NoOrphan : List String → Assoc ContainerState → Type 0
NoOrphan names observed = All (λ x. x.1.managed ≡ true → In x.0 names) observed

decide-is_no_op :
    (spec : ContainerSpec) (state : ContainerState)
    → is_no_op (decide spec (some state)) ≡ (state.exists && up_to_date spec state)
unfolding decide
decide-is_no_op spec state = ground (arith, change_lem spec state)

some_inj {ℓ} : {A : Type ℓ} {a b : A} → some a ≡ some b → a ≡ b
some_inj h = cc

pub decide-InPlace :
    (observed : Assoc ContainerState) (spec : ContainerSpec) (o : Option ContainerState)
    → lookup spec.name observed ≡ o
    → (is_no_op (decide spec o) ≡ true) ↔ InPlace observed spec
unfolding decide
decide-InPlace observed spec none e = (λ h. cc, λ h. cc (e, h.1))
decide-InPlace observed spec (some state) e =
    let test = decide-is_no_op spec state in
    let fresh = up_to_date_iff spec state in
    (
      λ h. (state, e, ground (arith, test), fresh.0 (ground (arith, test))),
      λ (s, es, there, u).
          let same : s ≡ state = some_inj (sym es ∙ e) in
          test
          ∙ cc (
            ap (λ (x : ContainerState). x.exists) same,
            there,
            fresh.1 (subst (UpToDate spec) same u),
          ),
    )

is_noop-cons : (a : Action) (p : List Action) → is_noop (a ∷ p) ≡ (is_no_op a && is_noop p)
unfolding is_noop changes keep
is_noop-cons a p = ground arith

is_noop-append : (p q : List Action) → is_noop (p ++ q) ≡ (is_noop p && is_noop q)
is_noop-append [] q = unfold is_noop changes keep in refl
is_noop-append (a ∷ p) q =
    ground (arith, is_noop-cons a (p ++ q), is_noop-cons a p, is_noop-append p q)

desired-InPlace :
    (desired : List ContainerSpec) (observed : Assoc ContainerState)
    → (is_noop (desired_actions desired observed) ≡ true) ↔ All (InPlace observed) desired
unfolding desired_actions
desired-InPlace [] observed = unfold is_noop changes keep in ground arith
desired-InPlace (spec ∷ l) observed = rw is_noop-cons (
    and_iff _ _ (decide-InPlace observed spec (lookup spec.name observed) refl)
      (desired-InPlace l observed))

orphan-is_noop :
    (names : List String) (n : String) (s : ContainerState)
    → (not (s.managed && not (contains names n)) ≡ true) ↔ (s.managed ≡ true → In n names)
orphan-is_noop names n s = (
  λ h m. contains-In names n (ground arith),
  λ h. elim (Bool-cases s.managed) [
    | inl m ↦ ground (arith, In-contains names n (h m))
    | inr m ↦ ground arith
  ],
)

orphan_actions-cons :
    (names : List String) (n : String) (s : ContainerState) (l : Assoc ContainerState)
    → is_noop (orphan_actions names ((n, s) ∷ l))
      ≡ (not (s.managed && not (contains names n)) && is_noop (orphan_actions names l))
unfolding orphan_actions
orphan_actions-cons names n s l =
    ground (arith, is_noop-cons (remove n "orphaned — not in desired set") (orphan_actions names l))

orphans-NoOrphan :
    (names : List String) (observed : Assoc ContainerState)
    → (is_noop (orphan_actions names observed) ≡ true) ↔ NoOrphan names observed
orphans-NoOrphan names [] = unfold is_noop orphan_actions changes keep in ground arith
orphans-NoOrphan names ((n, s) ∷ l) =
    rw (orphan_actions-cons names n s l)
      (and_iff _ _ (orphan-is_noop names n s) (orphans-NoOrphan names l))

-- A plan changes nothing exactly when every wanted container is there and up to date and, with
-- orphan removal on, every managed container is wanted.
pub plan-is_noop :
    (desired : List ContainerSpec) (observed : Assoc ContainerState) (orphans : Bool)
    → (is_noop (plan desired observed orphans) ≡ true) ↔ (
        All (InPlace observed) desired
        × (orphans ≡ true → NoOrphan (map spec_name desired) observed))
unfolding plan
plan-is_noop desired observed true =
    let there = desired-InPlace desired observed in
    let wanted = orphans-NoOrphan (map spec_name desired) observed in
    rw is_noop-append (and_iff _ _ there (λ h _. wanted.0 h, λ f. wanted.1 (f refl)))
plan-is_noop desired observed false =
    let there = desired-InPlace desired observed in
    rw append-nil (λ h. (there.0 h, λ e. absurd (false≢true e)), λ h. there.1 h.0)
