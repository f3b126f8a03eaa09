-- ===== src/Model/Settled.antt =====
-- A healthcheck that is converted already passes `healthcheck_to_sdk` unchanged.
use mathlib.Core.Path.{subst}
use bay.Prelude.{
  String, false, ◌≡◌, inl, inr, refl, Option, none, some, [], ◌∷◌, sym, ap, ◌∙◌, arith, eqb_refl,
  Bool-cases, ◌==◌, string_eq,
}
use bay.Prelude.Assoc.{Assoc, lookup, insert, lookup-insert}
use bay.Prelude.Int.{ℤ}
use bay.Prelude.Result.{Result, ok, err, ◌>>=◌}
use bay.Json.{Value, null, bool, int, float, text, arr, obj, Python}
use bay.Model.Durations.{
  convert, convert_duration, convert_retries, duration_ns, named_error, to_int, healthcheck_to_sdk,
}

insert-same : (k : String) (v : Value) (d : Assoc Value) → lookup k d ≡ some v → insert k v d ≡ d
unfolding lookup insert
insert-same k v [] h = cc
insert-same k v ((j, w) ∷ d) h = elim (Bool-cases (j == k)) [
  | inl e ↦ ground (arith, e, h)
  | inr e ↦ rw e (ap (◌∷◌ (j, w)) (insert-same k v d (rw e at h)))
]

-- The value of a key is missing, null or an int.
pub data Plain : Option Value → Type 0 where
  missing : Plain none
  nothing : Plain (some null)
  number : (n : ℤ) → Plain (some (int n))

module _ (key : String) (f : Value → Result ℤ) (keeps : (n : ℤ) → f (int n) ≡ ok n) where
  convert_unchanged :
      (o : Option Value) (hc : Assoc Value)
      → lookup key hc ≡ o
      → Plain o
      → convert key f o hc ≡ ok hc
  unfolding convert
  convert_unchanged none hc e missing = refl
  convert_unchanged (some null) hc e nothing = refl
  convert_unchanged (some (int n)) hc e (number m) =
      rw (keeps n) (ap ok (insert-same key (int n) hc e))
  convert_unchanged (some (text x)) hc e p = elim p [ ]
  convert_unchanged (some (bool x)) hc e p = elim p [ ]
  convert_unchanged (some (float x)) hc e p = elim p [ ]
  convert_unchanged (some (obj x)) hc e p = elim p [ ]
  convert_unchanged (some (arr x)) hc e p = elim p [ ]

  converted :
      (v : Value) (r : Result ℤ) (hc out : Assoc Value)
      → (r >>= λ n. ok (insert key (int n) hc)) ≡ ok out
      → Plain (lookup key out)
  converted v (err x) hc out h = cc
  converted v (ok n) hc out h =
      let same : insert key (int n) hc ≡ out = cc in
      subst (λ d. Plain (lookup key d)) same
        (rw (lookup-insert key key (int n) hc, eqb_refl key) (number n))

  convert-Plain :
      (o : Option Value) (hc out : Assoc Value)
      → lookup key hc ≡ o
      → convert key f o hc ≡ ok out
      → Plain (lookup key out)
  unfolding convert
  convert-Plain none hc out e h =
      let same : hc ≡ out = cc in subst (λ d. Plain (lookup key d)) same (rw e missing)
  convert-Plain (some null) hc out e h =
      let same : hc ≡ out = cc in subst (λ d. Plain (lookup key d)) same (rw e nothing)
  convert-Plain (some (text s)) hc out e h = converted (text s) (f (text s)) hc out h
  convert-Plain (some (bool b)) hc out e h = converted (bool b) (f (bool b)) hc out h
  convert-Plain (some (int n)) hc out e h = converted (int n) (f (int n)) hc out h
  convert-Plain (some (float x)) hc out e h = converted (float x) (f (float x)) hc out h
  convert-Plain (some (obj l)) hc out e h = converted (obj l) (f (obj l)) hc out h
  convert-Plain (some (arr l)) hc out e h = converted (arr l) (f (arr l)) hc out h

  -- the other keys keep their values
  inserted_other :
      (other : String) (r : Result ℤ) (hc out : Assoc Value)
      → (key == other) ≡ false
      → (r >>= λ n. ok (insert key (int n) hc)) ≡ ok out
      → lookup other out ≡ lookup other hc
  inserted_other other (err x) hc out ne h = cc
  inserted_other other (ok n) hc out ne h =
      let same : insert key (int n) hc ≡ out = cc in
      ap (lookup other) (sym same) ∙ lookup-insert key other (int n) hc ∙ rw ne refl

  convert_other :
      (other : String) (o : Option Value) (hc out : Assoc Value)
      → (key == other) ≡ false
      → convert key f o hc ≡ ok out
      → lookup other out ≡ lookup other hc
  unfolding convert
  convert_other other none hc out ne h = let same : hc ≡ out = cc in ap (lookup other) (sym same)
  convert_other other (some null) hc out ne h =
      let same : hc ≡ out = cc in ap (lookup other) (sym same)
  convert_other other (some (text s)) hc out ne h = inserted_other other (f (text s)) hc out ne h
  convert_other other (some (bool b)) hc out ne h = inserted_other other (f (bool b)) hc out ne h
  convert_other other (some (int n)) hc out ne h = inserted_other other (f (int n)) hc out ne h
  convert_other other (some (float x)) hc out ne h = inserted_other other (f (float x)) hc out ne h
  convert_other other (some (obj l)) hc out ne h = inserted_other other (f (obj l)) hc out ne h
  convert_other other (some (arr l)) hc out ne h = inserted_other other (f (arr l)) hc out ne h

  other-Plain :
      (other : String) (o : Option Value) (hc out : Assoc Value)
      → (key == other) ≡ false
      → convert key f o hc ≡ ok out
      → Plain (lookup other hc)
      → Plain (lookup other out)
  other-Plain other o hc out ne h p = subst Plain (sym (convert_other other o hc out ne h)) p

-- What a conversion leaves: the three durations and `retries` are missing, null or ints.
pub record Converted (hc : Assoc Value) : Type 0 where
  pub interval : Plain (lookup "interval" hc)
  pub timeout : Plain (lookup "timeout" hc)
  pub start_period : Plain (lookup "start_period" hc)
  pub retries : Plain (lookup "retries" hc)

module _ (py : Python) where
  abbrev duration : String → Value → Result ℤ
  duration key v = named_error key (duration_ns py v)

  duration-int : (key : String) (n : ℤ) → duration key (int n) ≡ ok n
  unfolding named_error duration_ns
  duration-int key n = refl

  to_int-int : (n : ℤ) → to_int py (int n) ≡ ok n
  unfolding to_int
  to_int-int n = refl

  convert_all-Converted :
      (hc a b c out : Assoc Value)
      → convert "interval" (duration "interval") (lookup "interval" hc) hc ≡ ok a
      → convert "timeout" (duration "timeout") (lookup "timeout" a) a ≡ ok b
      → convert "start_period" (duration "start_period") (lookup "start_period" b) b ≡ ok c
      → convert "retries" (to_int py) (lookup "retries" c) c ≡ ok out
      → Converted out
  convert_all-Converted hc a b c out i t s r = record {
    interval = other-Plain "retries" (to_int py) to_int-int "interval" _ c out refl r (
        other-Plain "start_period" (duration "start_period") (duration-int "start_period")
          "interval" _ b c refl s
          (other-Plain "timeout" (duration "timeout") (duration-int "timeout") "interval" _ a b refl
            t
            (convert-Plain "interval" (duration "interval") (duration-int "interval") _ hc a refl
              i)));
    timeout = other-Plain "retries" (to_int py) to_int-int "timeout" _ c out refl r (
        other-Plain "start_period" (duration "start_period") (duration-int "start_period") "timeout"
          _ b c refl s
          (convert-Plain "timeout" (duration "timeout") (duration-int "timeout") _ a b refl t));
    start_period = other-Plain "retries" (to_int py) to_int-int "start_period" _ c out refl r (
        convert-Plain "start_period" (duration "start_period") (duration-int "start_period") _ b c
          refl s);
    retries = convert-Plain "retries" (to_int py) to_int-int _ c out refl r;
  }

  healthcheck-Converted : (hc out : Assoc Value) → healthcheck_to_sdk py hc ≡ ok out → Converted out
  unfolding healthcheck_to_sdk convert_duration convert_retries
  healthcheck-Converted hc out h =
      through (convert "interval" (duration "interval") (lookup "interval" hc) hc) refl h
    where
      third :
          (a b : Assoc Value) (r : Result (Assoc Value))
          → convert "interval" (duration "interval") (lookup "interval" hc) hc ≡ ok a
          → convert "timeout" (duration "timeout") (lookup "timeout" a) a ≡ ok b
          → convert "start_period" (duration "start_period") (lookup "start_period" b) b ≡ r
          → (r >>= convert_retries py) ≡ ok out
          → Converted out
      third a b (err x) i t s h = cc
      third a b (ok c) i t s h = convert_all-Converted hc a b c out i t s h

      second :
          (a : Assoc Value) (r : Result (Assoc Value))
          → convert "interval" (duration "interval") (lookup "interval" hc) hc ≡ ok a
          → convert "timeout" (duration "timeout") (lookup "timeout" a) a ≡ r
          → (r >>= λ b. convert_duration py "start_period" b >>= convert_retries py) ≡ ok out
          → Converted out
      second a (err x) i t h = cc
      second a (ok b) i t h = third a b _ i t refl h

      through :
          (r : Result (Assoc Value))
          → convert "interval" (duration "interval") (lookup "interval" hc) hc ≡ r
          → (r >>= λ a. convert_duration py "timeout" a >>= λ b.
              convert_duration py "start_period" b >>= convert_retries py)
            ≡ ok out
          → Converted out
      through (err x) i h = cc
      through (ok a) i h = second a _ i refl h

  pub Converted-healthcheck : (hc : Assoc Value) → Converted hc → healthcheck_to_sdk py hc ≡ ok hc
  unfolding healthcheck_to_sdk convert_duration convert_retries
  Converted-healthcheck hc c =
      rw
        (
          convert_unchanged "interval" (duration "interval") (duration-int "interval") _ hc refl
              c.interval,
          convert_unchanged "timeout" (duration "timeout") (duration-int "timeout") _ hc refl
              c.timeout,
          convert_unchanged "start_period" (duration "start_period") (duration-int "start_period") _
              hc refl c.start_period,
        )
        (convert_unchanged "retries" (to_int py) to_int-int _ hc refl c.retries)

  -- A healthcheck that has been converted is converted again without an error and without a change.
  pub healthcheck_again :
      (hc out : Assoc Value)
      → healthcheck_to_sdk py hc ≡ ok out
      → healthcheck_to_sdk py out ≡ ok out
  healthcheck_again hc out h = Converted-healthcheck out (healthcheck-Converted hc out h)
