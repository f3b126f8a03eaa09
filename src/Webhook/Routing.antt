-- ===== src/Webhook/Routing.antt =====
-- Where a push goes: the regions that write its trigger, and the services that share its hook.
use mathlib.Core.Path.{subst}
use bay.Prelude.{
  String, Bool, true, false, not, ◌&&◌, ◌≡◌, inl, inr, refl, ◌∙◌, List, [], ◌∷◌, ◌==◌, string_eq,
  Bool-cases, eq_iff, arith, eqb_refl,
}
use bay.Prelude.Assoc.{Assoc, keep, contains, distinct, In, In-keep}
use bay.Prelude.Text.{is_empty}
use bay.Webhook.{or_local, is_target, compute_routing, siblings_from, push_siblings}

target_region :
    (here r url : String) (regions : List String)
    → is_target here (or_local here regions) (r, url) ≡ true
    → contains (or_local r regions) r ≡ true
unfolding contains
target_region here r url [] h = ground (arith, eq_iff here r, eq_iff r here)
target_region here r url (q ∷ regions) h = ground arith

-- A box sends a push on to a peer only if that peer's region, given the same regions of the service,
-- writes the trigger itself and sends the forwarded push to nobody, whatever its own peers are.
pub forwarded_once :
    (here r url : String) (regions : List String) (peers others : Assoc String)
    → is_empty r ≡ false
    → In (r, url) ((compute_routing here regions peers false).1)
    → compute_routing r regions others true ≡ (true, [])
unfolding compute_routing
forwarded_once here r url regions peers others named m = elim (Bool-cases (is_empty here)) [
  | inl e ↦ absurd (rw e at m)
  | inr e ↦
      let sent : In (r, url) (keep (is_target here (or_local here regions)) peers) = rw e at m in
      let test = ((In-keep (is_target here (or_local here regions)) (r, url) peers).0 sent).1 in
      rw (named, target_region here r url regions test) refl
]

module _ (known : String → Bool) (service : String) where
  -- the siblings are the known names that are not in `out` and are not the service
  siblings_from_lem :
      (names out : List String) (x : String)
      → contains (siblings_from known service out names) x
        ≡ (contains names x && not (contains out x) && known x && not (x == service))
  unfolding siblings_from contains
  siblings_from_lem [] out x = refl
  siblings_from_lem (name ∷ l) out x =
      elim (Bool-cases (known name && not (name == service) && not (contains out name))) [
        | inl new ↦ elim (Bool-cases (name == x)) [
          | inl e ↦
              let same : name ≡ x = (eq_iff name x).0 e in
              rw (new, e)
                (subst (λ y. true ≡ (not (contains out y) && known y && not (y == service))) same
                  (ground arith))
          | inr e ↦ rw (new, e) (siblings_from_lem l (name ∷ out) x ∙ rw e refl)
        ]
        | inr old ↦ elim (Bool-cases (name == x)) [
          | inl e ↦
              let same : name ≡ x = (eq_iff name x).0 e in
              rw (old, e)
                (siblings_from_lem l out x
                  ∙ subst
                      (λ y.
                        (contains l y && not (contains out y) && known y && not (y == service))
                        ≡ (not (contains out y) && known y && not (y == service)))
                      same (ground arith))
          | inr e ↦ rw (old, e) (siblings_from_lem l out x)
        ]
      ]

  distinct_siblings :
      (names out : List String) → distinct (siblings_from known service out names) ≡ true
  unfolding siblings_from contains distinct
  distinct_siblings [] out = refl
  distinct_siblings (name ∷ l) out =
      elim (Bool-cases (known name && not (name == service) && not (contains out name))) [
        | inl new ↦
            let rest = distinct_siblings l (name ∷ out) in
            let once : contains (siblings_from known service (name ∷ out) l) name ≡ false =
              siblings_from_lem l (name ∷ out) name ∙ ground (arith, eqb_refl name) in
            rw (new, once) rest
        | inr old ↦ rw old (distinct_siblings l out)
      ]

  -- The siblings of a service have no name twice, and they are exactly the listed names that the
  -- receiver has an entry for, other than the service itself.
  pub push_siblings_lem :
      (names : List String) (x : String)
      → (distinct (push_siblings known service names) ≡ true)
        × (contains (push_siblings known service names) x
            ≡ (contains names x && known x && not (x == service)))
  unfolding push_siblings contains
  push_siblings_lem names x =
      (distinct_siblings names [], siblings_from_lem names [] x ∙ ground arith)
