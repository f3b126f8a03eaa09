-- ===== src/Bundle/Given.antt =====
-- How the fields of a spec come from those of its entry, with their defaults and checks.
use mathlib.Core.Path.{subst}
use mathlib.Core.Option.{some-injective}
use bay.Prelude.{
  String, Bool, false, not_true, ◌≡◌, ◌≢◌, ◌⊎◌, ◌∙◌, ap, inl, inr, refl, Option, none, some, List,
  [], ◌∷◌, Bool-cases, ◌==◌, string_eq,
}
use bay.Prelude.Assoc.{Assoc, lookup}
use bay.Prelude.Text.{strip, is_empty, is_empty_iff}
use bay.Prelude.Result.{Result, ok, err}
use bay.Json.{
  Value, Items, nil, cons, Fields, null, bool, int, float, text, arr, obj, Python, fields, truthy,
}
use bay.Model.{Command, line, argv}
use bay.Model.Durations.{healthcheck_to_sdk}
use bay.Observe.{or_nil, or_text, or_empty}
use bay.Model.Settled.{missing, Converted-healthcheck, healthcheck_again}
use bay.Bundle.{
  Entry, all_texts, bad_release, entry_error, checked_release, checked_change, checked_healthcheck,
  release_vector, named,
}

-- A command that runs something: a text that is not blank, or a vector whose first word is not.
abbrev pub Runnable : Command → Type 0
Runnable (line s) = is_empty (strip s) ≡ false
Runnable (argv []) = ⊥
Runnable (argv (s ∷ l)) = is_empty (strip s) ≡ false

abbrev texts : List String → Items
texts [] = nil
texts (s ∷ l) = cons (text s) (texts l)

-- A missing key or a null.
abbrev Absent : Option Value → Type 0
Absent raw = (raw ≡ none) ⊎ (raw ≡ some null)

-- The release command and its value in the entry: no command only where there is no value.
abbrev pub ReleaseOf : Option Value → Option Command → Type 0
ReleaseOf raw none = Absent raw
ReleaseOf raw (some (line s)) = (raw ≡ some (text s)) × Runnable (line s)
ReleaseOf raw (some (argv l)) = (raw ≡ some (arr (texts l))) × Runnable (argv l)

abbrev pub ChangeOf : Option Value → Option (Assoc Value) → Type 0
ChangeOf raw none = Absent raw
ChangeOf raw (some change) = (l : Fields) × (raw ≡ some (obj l)) × (change ≡ fields l)

-- The healthcheck is the converted one of the entry, and converts again to itself.
abbrev pub HealthcheckOf : Python → Option (Assoc Value) → Option (Assoc Value) → Type 0
HealthcheckOf py raw none = raw ≡ none
HealthcheckOf py raw (some hc) =
    ((l : Assoc Value) × (raw ≡ some l) × (healthcheck_to_sdk py l ≡ ok hc))
    × (healthcheck_to_sdk py hc ≡ ok hc)

-- A list or a map of the entry, empty where the entry has none.
abbrev pub Listed : {A : Type 0} → Option (List A) → List A → Type 0
Listed none l = l ≡ []
Listed (some given) l = l ≡ given

abbrev pub PolicyOf : Option String → String → Type 0
PolicyOf none policy = policy ≡ "unless-stopped"
PolicyOf (some s) policy = ((s ≡ "") → policy ≡ "unless-stopped") × ((s ≢ "") → policy ≡ s)

abbrev pub FlagOf : Python → Option Value → Bool → Type 0
FlagOf py none b = b ≡ false
FlagOf py (some v) b = b ≡ truthy py v

pub or_nil-Listed : {A : Type 0} (o : Option (List A)) → Listed o (or_nil o)
or_nil-Listed none = refl
or_nil-Listed (some l) = refl

pub or_text-PolicyOf : (o : Option String) → PolicyOf o (or_text (or_empty o) "unless-stopped")
or_text-PolicyOf none = refl
or_text-PolicyOf (some s) = (
  λ e. rw ((is_empty_iff s).1 e) refl,
  λ ne. rw (not_true (is_empty s) (λ e. ne ((is_empty_iff s).0 e))) refl,
)

all_texts-texts : (l : Items) (words : List String) → all_texts l ≡ some words → l ≡ texts words
unfolding all_texts
all_texts-texts nil words h = let same : [] ≡ words = some-injective _ _ h in ap texts same
all_texts-texts (cons (text s) l) words h = by (all_texts l) (all_texts-texts l) refl h
  where
    by :
        (o : Option (List String))
        → ((rest : List String) → all_texts l ≡ some rest → l ≡ texts rest)
        → all_texts l ≡ o
        → elim o [ none ↦ none | some rest ↦ some (s ∷ rest) ] ≡ some words
        → cons (text s) l ≡ texts words
    by none ih e h = cc
    by (some rest) ih e h = ap (cons (text s)) (ih rest e) ∙ ap texts (some-injective _ _ h)
all_texts-texts (cons null l) words h = cc
all_texts-texts (cons (bool b) l) words h = cc
all_texts-texts (cons (int n) l) words h = cc
all_texts-texts (cons (float x) l) words h = cc
all_texts-texts (cons (arr x) l) words h = cc
all_texts-texts (cons (obj x) l) words h = cc

module _ (py : Python) where
  no_release : (d : Entry) (c : Option Command) → ¬ (bad_release py d ≡ ok c)
  unfolding bad_release entry_error
  no_release d c h = cc

  vector-ReleaseOf :
      (d : Entry) (l : Items) (o : Option (List String)) (c : Option Command)
      → all_texts l ≡ o
      → release_vector py d o ≡ ok c
      → ReleaseOf (some (arr l)) c
  vector-ReleaseOf d l none c t h = absurd (no_release d c h)
  vector-ReleaseOf d l (some []) c t h = absurd (no_release d c h)
  vector-ReleaseOf d l (some (s ∷ rest)) c t h = elim (Bool-cases (is_empty (strip s))) [
    | inl e ↦ absurd (no_release d c (rw e at h))
    | inr e ↦
        let bare : ok (some (argv (s ∷ rest))) ≡ ok c = rw e at h in
        let same : some (argv (s ∷ rest)) ≡ c = cc in
        subst (ReleaseOf (some (arr l))) same
          (ap (λ x. some (arr x)) (all_texts-texts l (s ∷ rest) t), e)
  ]

  pub release-ReleaseOf :
      (d : Entry) (raw : Option Value) (c : Option Command)
      → checked_release py d raw ≡ ok c
      → ReleaseOf raw c
  unfolding checked_release
  release-ReleaseOf d none c h = let same : none ≡ c = cc in subst (ReleaseOf none) same (inl refl)
  release-ReleaseOf d (some null) c h =
      let same : none ≡ c = cc in subst (ReleaseOf (some null)) same (inr refl)
  release-ReleaseOf d (some (text s)) c h = elim (Bool-cases (is_empty (strip s))) [
    | inl e ↦ absurd (no_release d c (rw e at h))
    | inr e ↦
        let bare : ok (some (line s)) ≡ ok c = rw e at h in
        let same : some (line s) ≡ c = cc in subst (ReleaseOf (some (text s))) same (refl, e)
  ]
  release-ReleaseOf d (some (arr l)) c h = vector-ReleaseOf d l (all_texts l) c refl h
  release-ReleaseOf d (some (bool b)) c h = absurd (no_release d c h)
  release-ReleaseOf d (some (int n)) c h = absurd (no_release d c h)
  release-ReleaseOf d (some (float x)) c h = absurd (no_release d c h)
  release-ReleaseOf d (some (obj l)) c h = absurd (no_release d c h)

  pub change-ChangeOf :
      (d : Entry) (raw : Option Value) (c : Option (Assoc Value))
      → checked_change py d raw ≡ ok c
      → ChangeOf raw c
  unfolding checked_change entry_error
  change-ChangeOf d none c h = let same : none ≡ c = cc in subst (ChangeOf none) same (inl refl)
  change-ChangeOf d (some null) c h =
      let same : none ≡ c = cc in subst (ChangeOf (some null)) same (inr refl)
  change-ChangeOf d (some (obj l)) c h =
      let same : some (fields l) ≡ c = cc in subst (ChangeOf (some (obj l))) same (l, refl, refl)
  change-ChangeOf d (some (text s)) c h = cc
  change-ChangeOf d (some (arr l)) c h = cc
  change-ChangeOf d (some (bool b)) c h = cc
  change-ChangeOf d (some (int n)) c h = cc
  change-ChangeOf d (some (float x)) c h = cc

  nothing_to_convert : healthcheck_to_sdk py [] ≡ ok []
  unfolding lookup
  nothing_to_convert =
      Converted-healthcheck py [] (record {
        interval = missing;
        timeout = missing;
        start_period = missing;
        retries = missing;
      })

  named-HealthcheckOf :
      (d : Entry) (raw : Assoc Value) (r : Result (Assoc Value)) (hc : Option (Assoc Value))
      → healthcheck_to_sdk py raw ≡ r
      → named py d r ≡ ok hc
      → HealthcheckOf py (some raw) hc
  unfolding entry_error
  named-HealthcheckOf d raw (ok out) hc e h =
      let same : some out ≡ hc = cc in
      subst (HealthcheckOf py (some raw)) same ((raw, refl, e), healthcheck_again py raw out e)
  named-HealthcheckOf d raw (err x) hc e h = elim (Bool-cases (x.class_name == "ValueError")) [
    | inl v ↦ let bad = rw v at h in cc
    | inr v ↦ let bad = rw v at h in cc
  ]

  pub checked-HealthcheckOf :
      (d : Entry) (raw : Option (Assoc Value)) (hc : Option (Assoc Value))
      → checked_healthcheck py d raw ≡ ok hc
      → HealthcheckOf py raw hc
  unfolding checked_healthcheck
  checked-HealthcheckOf d none hc h =
      let same : none ≡ hc = cc in subst (HealthcheckOf py none) same refl
  checked-HealthcheckOf d (some []) hc h =
      let same : some [] ≡ hc = cc in
      subst (HealthcheckOf py (some [])) same (([], refl, nothing_to_convert), nothing_to_convert)
  checked-HealthcheckOf d (some (p ∷ l)) hc h = named-HealthcheckOf d (p ∷ l) _ hc refl h
