-- ===== src/Codepin/Excluded.antt =====
-- `:latest` and `:previous` move under the build lock: what `_Guarded.tag` of codepin.py excludes.
use bay.Prelude.{String, Bool, true, false, ◌≡◌, ◌⊎◌, inl, inr, refl, Bool-cases, sym, ap, ◌∷◌}
use bay.Prelude.Text.{is_empty}
use bay.Prelude.Result.{Exn, Result, ok, err}
use bay.Images.{split_ref}
use bay.Codepin.{Images, ref_of}
use bay.Codepin.Lock.{Lock, LockState, held}
use bay.Codepin.Guard.{Guard, is_moving, behind_try, under_lock, guarded_tag}

module _ (I : Images) (given : Bool) (lock : Lock I.State) where
  -- Why a call that moves a tag may write: the lock was held, or it could not be tried, in this call or
  -- before.
  abbrev pub MayWrite : Guard I.State → Type 0
  MayWrite g =
      (held g.lock ≡ true)
      ⊎ (is_empty g.unavailable ≡ false)
      ⊎ ((e : Exn) × (l : LockState) × (s : I.State) × (lock.acquire g.lock g.daemon
            ≡ (err e, (l, s))))

  -- The call was passed on, or was refused: then the daemon is as it was and the target is noted.
  abbrev pub Excluded : Guard I.State → Guard I.State → String → Type 0
  Excluded g g' target =
      MayWrite g
      ⊎ ((g.refuse ≡ true)
          × (g'.daemon ≡ g.daemon)
          × (g'.refused ≡ ref_of ((split_ref target).0) "latest" ∷ g.refused))

  try-MayWrite :
      (g g' : Guard I.State) (source target : String) (r : Result Bool × (LockState × I.State))
      → lock.acquire g.lock g.daemon ≡ r
      → behind_try I given lock g source target r ≡ (ok tt, g')
      → MayWrite g
  try-MayWrite g g' source target (ok true, (l, s)) e h = cc
  try-MayWrite g g' source target (ok false, (l, s)) e h = cc
  try-MayWrite g g' source target (err x, (l, s)) e h = inr (inr (x, l, s, e))

  under_lock-Excluded :
      (refuse free : Bool) (g g' : Guard I.State) (source target : String)
      → g.refuse ≡ refuse
      → is_empty g.unavailable ≡ free
      → under_lock I given lock refuse free g source target ≡ (ok tt, g')
      → Excluded g g' target
  under_lock-Excluded true free g g' source target r f h =
      inr (r, ap (λ p. p.1.daemon) (sym h), ap (λ p. p.1.refused) (sym h))
  under_lock-Excluded false true g g' source target r f h =
      inl (try-MayWrite g g' source target (lock.acquire g.lock g.daemon) refl h)
  under_lock-Excluded false false g g' source target r f h = inl (inr (inl f))

  -- Behind a given lock, a call that moves `:latest` or `:previous` and returns had the lock, or the
  -- lock could not be tried, now or before; or the guard refuses to move tags, and then the daemon
  -- is as it was and the target is noted as refused.
  pub guarded_tag-Excluded :
      (g g' : Guard I.State) (source target : String)
      → given ≡ true
      → is_moving ((split_ref target).1) ≡ true
      → guarded_tag I given lock g source target ≡ (ok tt, g')
      → Excluded g g' target
  unfolding guarded_tag
  guarded_tag-Excluded g g' source target on moving h = elim (Bool-cases (held g.lock)) [
    | inl free ↦ inl (inl free)
    | inr taken ↦
        under_lock-Excluded g.refuse (is_empty g.unavailable) g g' source target refl refl
          (rw (moving, on, taken) at h)
  ]
