-- ===== src/PushInputs/Rules.antt =====
-- What a list of rules says of a file.
use bay.Prelude.{
  String, Bool, true, false, ◌≡◌, ◌↔◌, ◌⊎◌, inl, inr, refl, List, [], ◌∷◌, if◌then◌else◌,
  Bool-cases, false≢true,
}
use bay.Prelude.Assoc.{All}
use bay.PushInputs.Inputs.{Rule, decide_by, spec_match, searched}

abbrev pub Silent : String → Rule → Type 0
Silent path r = r.0 path ≡ false

-- The last rule that matches the path includes it.
pub data LastIncludes (path : String) : List Rule → Type 0 where
  here :
      {r : Rule} {rules : List Rule}
      → r.0 path ≡ true
      → r.1 ≡ true
      → All (Silent path) rules
      → LastIncludes path (r ∷ rules)
  later : {r : Rule} {rules : List Rule} → LastIncludes path rules → LastIncludes path (r ∷ rules)

module _ (path : String) where
  decide_by-Silent :
      (rules : List Rule) (hit : Bool) → All (Silent path) rules → decide_by rules path hit ≡ hit
  unfolding decide_by
  decide_by-Silent [] hit s = refl
  decide_by-Silent ((finds, include) ∷ rules) hit (s, ss) = rw (s, decide_by-Silent rules hit ss)

  decide_by-LastIncludes :
      (rules : List Rule) (hit : Bool) → LastIncludes path rules → decide_by rules path hit ≡ true
  unfolding decide_by
  decide_by-LastIncludes [] hit l = elim l [ ]
  decide_by-LastIncludes ((finds, include) ∷ rules) hit (here m i s) =
      rw (m, i) (decide_by-Silent rules true s)
  decide_by-LastIncludes (r ∷ rules) hit (later l) = decide_by-LastIncludes rules _ l

  decided :
      (rules : List Rule) (hit : Bool)
      → decide_by rules path hit ≡ true
      → LastIncludes path rules ⊎ ((hit ≡ true) × All (Silent path) rules)
  unfolding decide_by
  decided [] hit h = inr (h, tt)
  decided ((finds, include) ∷ rules) hit h =
      elim (decided rules (if finds path then include else hit) h) [
        | inl l ↦ inl (later l)
        | inr (e, s) ↦ elim (Bool-cases (finds path)) [
          | inl m ↦ inl (here m (rw m at e) s)
          | inr m ↦ inr (rw m at e, (m, s))
        ]
      ]

  decide_by_iff :
      (rules : List Rule) → (decide_by rules path false ≡ true) ↔ LastIncludes path rules
  decide_by_iff rules = (
    λ h. elim (decided rules false h) [ inl l ↦ l | inr (e, s) ↦ absurd (false≢true e) ],
    decide_by-LastIncludes rules false,
  )

-- A spec matches a file exactly if some rule of it matches the file's path, without its leading
-- slashes and `./`, and the last rule that does is not a `!` rule.
pub spec_match_iff :
    (rules : List Rule) (path : String)
    → (spec_match rules path ≡ true) ↔ LastIncludes (searched path) rules
unfolding spec_match
spec_match_iff rules path = decide_by_iff (searched path) rules
