-- ===== src/Codepin/Guarded.antt =====
-- The guard of the build lock keeps docker's rules of tags, so what is proved of `plan_moves` holds
-- behind it.
use mathlib.Core.Path.{subst}
use bay.Prelude.{
  String, Bool, true, false, not, ◌&&◌, ◌≡◌, ◌⊎◌, inl, inr, refl, Bool-cases, sym, ap, ◌∙◌, arith,
}
use bay.Prelude.Text.{is_empty}
use bay.Prelude.Result.{Result, ok, err}
use bay.Images.{split_ref}
use bay.Codepin.{Images, ref_of}
use bay.Codepin.Lawful.{Lawful}
use bay.Codepin.Lock.{Lock, LockState, held}
use bay.Codepin.Guard.{
  Guard, is_moving, passed, with_daemon, behind_try, under_lock, guarded_tag, guarded,
}

module _ (I : Images) (law : Lawful I) (given : Bool) (lock : Lock I.State) where
  -- A call that returned has tagged the daemon's image, or has left the daemon.
  abbrev Tagged : I.State → I.State → String → String → Type 0
  Tagged s t source target = (t ≡ s) ⊎ (I.tag s source target ≡ (ok tt, t))

  daemon-Tagged :
      (g g' : Guard I.State) (source target : String) (r : Result (Unit {0}) × I.State)
      → I.tag g.daemon source target ≡ r
      → with_daemon I given lock g r ≡ (ok tt, g')
      → Tagged g.daemon g'.daemon source target
  daemon-Tagged g g' source target (err e, s) i h = cc
  daemon-Tagged g g' source target (ok u, s) i h =
      let same : s ≡ g'.daemon = ap (λ p. p.1.daemon) h in inr (i ∙ ap (λ x. (ok tt, x)) same)

  passed-Tagged :
      (g g' : Guard I.State) (source target : String)
      → passed I given lock g source target ≡ (ok tt, g')
      → Tagged g.daemon g'.daemon source target
  passed-Tagged g g' source target h = daemon-Tagged g g' source target _ refl h

  try-Tagged :
      (g g' : Guard I.State) (source target : String) (r : Result Bool × (LockState × I.State))
      → held g.lock ≡ false
      → lock.acquire g.lock g.daemon ≡ r
      → behind_try I given lock g source target r ≡ (ok tt, g')
      → Tagged g.daemon g'.daemon source target
  try-Tagged g g' source target (ok true, (l, s)) f e h = cc
  try-Tagged g g' source target (ok false, (l, s)) f e h = cc
  try-Tagged g g' source target (err x, (l, s)) f e h =
      let (free, same) = lock.unopened g.lock l g.daemon s x f e in
      subst (λ d. Tagged d g'.daemon source target) same (passed-Tagged _ g' source target h)

  under_lock-Tagged :
      (refuse free : Bool) (g g' : Guard I.State) (source target : String)
      → held g.lock ≡ false
      → under_lock I given lock refuse free g source target ≡ (ok tt, g')
      → Tagged g.daemon g'.daemon source target
  under_lock-Tagged true free g g' source target f h = inl (ap (λ p. p.1.daemon) (sym h))
  under_lock-Tagged false true g g' source target f h =
      try-Tagged g g' source target (lock.acquire g.lock g.daemon) f refl h
  under_lock-Tagged false false g g' source target f h = passed-Tagged g g' source target h

  guarded_tag-Tagged :
      (g g' : Guard I.State) (source target : String)
      → guarded_tag I given lock g source target ≡ (ok tt, g')
      → Tagged g.daemon g'.daemon source target
  unfolding guarded_tag
  guarded_tag-Tagged g g' source target h =
      elim (Bool-cases (is_moving ((split_ref target).1) && given && not (held g.lock))) [
        | inr e ↦ passed-Tagged g g' source target (rw e at h)
        | inl e ↦
            under_lock-Tagged g.refuse (is_empty g.unavailable) g g' source target (ground arith)
              (rw e at h)
      ]

  -- If a daemon keeps docker's rules of tags, the guarded daemon keeps them, whether its calls pass,
  -- wait for the lock or are refused.
  pub guarded-Lawful : Lawful (guarded I given lock)
  guarded-Lawful = record {
    set = λ g g' source target h. elim (guarded_tag-Tagged g g' source target h) [
      | inl same ↦ inr (ap (λ s. I.image_id s target) same)
      | inr e ↦ law.set g.daemon g'.daemon source target e
    ];
    others = λ g g' source repo a b r h ne w.
        elim (guarded_tag-Tagged g g' source (ref_of repo b) h) [
          | inl same ↦ ap (λ s. I.image_id s r) same
          | inr e ↦ law.others g.daemon g'.daemon source repo a b r e ne w
        ];
    ids = λ g g' source target id h i. elim (guarded_tag-Tagged g g' source target h) [
      | inl same ↦ ap (λ s. I.image_id s id) same ∙ i
      | inr e ↦ law.ids g.daemon g'.daemon source target id e i
    ];
    pulls = λ g repo a b r ne w. law.pulls g.daemon repo a b r ne w;
    named = λ g r id h. law.named g.daemon r id h;
    contained = λ g name id h. law.contained g.daemon name id h;
    nonempty = λ g r h. law.nonempty g.daemon r h;
  }
