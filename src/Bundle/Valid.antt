-- ===== src/Bundle/Valid.antt =====
-- A configuration that loads has valid settings only.
use mathlib.Core.Path.{subst}
use bay.Prelude.{
  String, Bool, true, false, not, ◌&&◌, ◌≡◌, ◌⊎◌, inl, inr, refl, Option, none, some, List, [], ◌∷◌,
  if◌then◌else◌,
}
use bay.Prelude.Assoc.{Assoc}
use bay.Prelude.Int.{ℤ, is_positive}
use bay.Prelude.Result.{Result, ok, err, ◌>>=◌}
use bay.Json.{Value, null, bool, int, float, text, arr, obj, Python}
use bay.Model.{ReconcilerConfig}
use bay.Bundle.Settings.{
  default_config, Setting, whole, timeout, poll, release, setting_of, set_float, refused, set_value,
  set_all, without_unknown, config,
}

-- A float setting is the default, a positive finite float, or the float of a positive int.
abbrev pub ValidFloat : Python → String → String → Type 0
ValidFloat py default x =
    (x ≡ default)
    ⊎ (((py.positive x ≡ true) × (py.infinite x ≡ false))
        ⊎ ((n : ℤ) × (is_positive n ≡ true) × (py.to_float n ≡ ok x)))

pub record ValidConfig (py : Python) (cfg : ReconcilerConfig) : Type 0 where
  pub suffix : cfg.canary_suffix ≡ "-new"
  pub stop : is_positive cfg.stop_timeout ≡ true
  pub health : ValidFloat py "120.0" cfg.healthcheck_timeout
  pub between : ValidFloat py "1.0" cfg.healthcheck_poll
  pub oneshot : ValidFloat py "600.0" cfg.release_timeout

module _ (py : Python) where
  -- a positive finite float, or the float of a positive int
  abbrev Given : String → Type 0
  Given x =
      ((py.positive x ≡ true) × (py.infinite x ≡ false))
      ⊎ ((n : ℤ) × (is_positive n ≡ true) × (py.to_float n ≡ ok x))

  set_float-ValidConfig :
      (s : Setting) (x : String) (cfg : ReconcilerConfig)
      → Given x
      → ValidConfig py cfg
      → ValidConfig py (set_float s x cfg)
  set_float-ValidConfig whole x cfg g v = v
  set_float-ValidConfig timeout x cfg g v = record {
    suffix = v.suffix;
    stop = v.stop;
    health = inr g;
    between = v.between;
    oneshot = v.oneshot;
  }
  set_float-ValidConfig poll x cfg g v = record {
    suffix = v.suffix;
    stop = v.stop;
    health = v.health;
    between = inr g;
    oneshot = v.oneshot;
  }
  set_float-ValidConfig release x cfg g v = record {
    suffix = v.suffix;
    stop = v.stop;
    health = v.health;
    between = v.between;
    oneshot = inr g;
  }

  never_refused :
      (kind key : String) (v : Value) (out : ReconcilerConfig) → ¬ (refused py kind key v ≡ ok out)
  unfolding refused
  never_refused kind key v out h = cc

  from_int :
      (s : Setting) (n : ℤ) (r : Result String) (cfg out : ReconcilerConfig)
      → is_positive n ≡ true
      → py.to_float n ≡ r
      → ValidConfig py cfg
      → (r >>= λ x. ok (set_float s x cfg)) ≡ ok out
      → ValidConfig py out
  from_int s n (err x) cfg out p e v h = cc
  from_int s n (ok x) cfg out p e v h =
      let same : set_float s x cfg ≡ out = cc in
      subst (ValidConfig py) same (set_float-ValidConfig s x cfg (inr (n, p, e)) v)

  from_float :
      (s : Setting) (key x : String) (b c : Bool) (cfg out : ReconcilerConfig)
      → py.positive x ≡ b
      → py.infinite x ≡ c
      → ValidConfig py cfg
      → (if b && not c then ok (set_float s x cfg) else refused py "number" key (float x)) ≡ ok out
      → ValidConfig py out
  from_float s key x true false cfg out p i v h =
      let same : set_float s x cfg ≡ out = cc in
      subst (ValidConfig py) same (set_float-ValidConfig s x cfg (inl (p, i)) v)
  from_float s key x true true cfg out p i v h = absurd (never_refused _ _ _ out h)
  from_float s key x false c cfg out p i v h = absurd (never_refused _ _ _ out h)

  from_positive :
      (s : Setting) (key : String) (n : ℤ) (b : Bool) (cfg out : ReconcilerConfig)
      → is_positive n ≡ b
      → ValidConfig py cfg
      → (if b
          then (py.to_float n >>= λ x. ok (set_float s x cfg))
          else refused py "number" key (int n))
        ≡ ok out
      → ValidConfig py out
  from_positive s key n true cfg out p v h = from_int s n _ cfg out p refl v h
  from_positive s key n false cfg out p v h = absurd (never_refused _ _ _ out h)

  from_whole :
      (key : String) (n : ℤ) (b : Bool) (cfg out : ReconcilerConfig)
      → is_positive n ≡ b
      → ValidConfig py cfg
      → (if b then ok (record cfg { stop_timeout = n }) else refused py "number" key (int n))
        ≡ ok out
      → ValidConfig py out
  from_whole key n true cfg out p v h =
      let same : record cfg { stop_timeout = n } ≡ out = cc in
      subst (ValidConfig py) same (record {
        suffix = v.suffix;
        stop = p;
        health = v.health;
        between = v.between;
        oneshot = v.oneshot;
      })
  from_whole key n false cfg out p v h = absurd (never_refused _ _ _ out h)

  set_value-ValidConfig :
      (s : Setting) (key : String) (value : Value) (cfg out : ReconcilerConfig)
      → ValidConfig py cfg
      → set_value py s key value cfg ≡ ok out
      → ValidConfig py out
  unfolding set_value
  set_value-ValidConfig whole key (int n) cfg out v h = from_whole key n _ cfg out refl v h
  set_value-ValidConfig timeout key (int n) cfg out v h =
      from_positive timeout key n _ cfg out refl v h
  set_value-ValidConfig poll key (int n) cfg out v h = from_positive poll key n _ cfg out refl v h
  set_value-ValidConfig release key (int n) cfg out v h =
      from_positive release key n _ cfg out refl v h
  set_value-ValidConfig whole key (float x) cfg out v h = absurd (never_refused _ _ _ out h)
  set_value-ValidConfig timeout key (float x) cfg out v h =
      from_float timeout key x _ _ cfg out refl refl v h
  set_value-ValidConfig poll key (float x) cfg out v h =
      from_float poll key x _ _ cfg out refl refl v h
  set_value-ValidConfig release key (float x) cfg out v h =
      from_float release key x _ _ cfg out refl refl v h
  set_value-ValidConfig s key value cfg out v h = absurd (never_refused _ _ _ out h)

  default_config-ValidConfig : ValidConfig py default_config
  default_config-ValidConfig = record {
    suffix = refl;
    stop = refl;
    health = inl refl;
    between = inl refl;
    oneshot = inl refl;
  }

  set_all-ValidConfig :
      (l : Assoc Value) (cfg out : ReconcilerConfig)
      → ValidConfig py cfg
      → set_all py l cfg ≡ ok out
      → ValidConfig py out
  unfolding set_all
  set_all-ValidConfig [] cfg out v h = let same : cfg ≡ out = cc in subst (ValidConfig py) same v
  set_all-ValidConfig ((key, value) ∷ l) cfg out v h =
      of_key (setting_of key) (λ next. set_all-ValidConfig l next out) h
    where
      through :
          (s : Setting) (r : Result ReconcilerConfig)
          → ((next : ReconcilerConfig)
              → ValidConfig py next
              → set_all py l next ≡ ok out
              → ValidConfig py out)
          → set_value py s key value cfg ≡ r
          → (r >>= set_all py l) ≡ ok out
          → ValidConfig py out
      through s (err x) ih e h = cc
      through s (ok next) ih e h = ih next (set_value-ValidConfig s key value cfg next v e) h

      of_key :
          (o : Option Setting)
          → ((next : ReconcilerConfig)
              → ValidConfig py next
              → set_all py l next ≡ ok out
              → ValidConfig py out)
          → elim o [
            | none ↦ err (record { class_name = "KeyError"; message = py.repr (text key) })
            | some s ↦ set_value py s key value cfg >>= set_all py l
          ]
            ≡ ok out
          → ValidConfig py out
      of_key none ih h = cc
      of_key (some s) ih h = through s _ ih refl h

  kept-ValidConfig :
      (unknown : List String) (raw : Assoc Value) (out : ReconcilerConfig)
      → without_unknown py unknown raw ≡ ok out
      → ValidConfig py out
  kept-ValidConfig [] raw out h =
      set_all-ValidConfig raw default_config out default_config-ValidConfig h
  kept-ValidConfig (key ∷ rest) raw out h = cc

  -- Every setting of a configuration that loads is its default or a positive number of the bundle: the
  -- stop timeout is a positive int, and each of the other three is its default, a positive
  -- finite float, or the float of a positive int.
  pub config-ValidConfig :
      (raw : Option Value) (cfg : ReconcilerConfig) → config py raw ≡ ok cfg → ValidConfig py cfg
  unfolding config
  config-ValidConfig none cfg h =
      let same : default_config ≡ cfg = cc in subst (ValidConfig py) same default_config-ValidConfig
  config-ValidConfig (some null) cfg h =
      let same : default_config ≡ cfg = cc in subst (ValidConfig py) same default_config-ValidConfig
  config-ValidConfig (some (obj l)) cfg h = kept-ValidConfig _ _ cfg h
  config-ValidConfig (some (text s)) cfg h = cc
  config-ValidConfig (some (bool b)) cfg h = cc
  config-ValidConfig (some (int n)) cfg h = cc
  config-ValidConfig (some (float x)) cfg h = cc
  config-ValidConfig (some (arr l)) cfg h = cc
