-- ===== src/Receipt/Tally.antt =====
-- What the loop of `build_receipt` over the results collects.
use mathlib.Core.List.{append-nil, append_assoc}
use bay.Prelude.{
  String, Bool, true, false, not, ◌&&◌, ◌≡◌, ◌↔◌, ◌⊎◌, inl, inr, refl, Option, none, some, List, [],
  ◌∷◌, ◌++◌, map, ◌==◌, string_eq, sym, ap, ◌∙◌, Bool-cases, eq_iff,
}
use bay.Prelude.Assoc.{Assoc, lookup, contains, contains-In, In-contains, In, keep}
use bay.Prelude.Text.{is_empty}
use bay.Json.{Value, Python}
use bay.Receipt.{equals}
use bay.Receipt.Build.{
  Tally, result_name, result_kind, receipt_action, count, tally, receipt_actions, no_results,
}

module _ (py : Python) where
  -- The results report a failed action on the name, of a kind that a receipt knows.
  abbrev pub Fails : List (Assoc Value) → String → Type 0
  Fails results name =
      (r : Assoc Value) × In r results
      × (result_name py r ≡ name)
      × ((a : String) × (receipt_action py r ≡ some a))
      × (equals (lookup "status" r) "failed" ≡ true)

  Fails-cons :
      (r : Assoc Value) (l : List (Assoc Value)) (name : String) → Fails l name → Fails (r ∷ l) name
  Fails-cons r l name (x, m, e, k, f) = (x, inr m, e, k, f)

  -- one more result
  count-failed :
      (r : Assoc Value) (o : Option String) (t : Tally) (name : String)
      → receipt_action py r ≡ o
      → In name (count py r o t).failed ↔ (In name t.failed ⊎ Fails (r ∷ []) name)
  unfolding count
  count-failed r none t name e = (
    λ h. inl h,
    λ h. elim h [
      | inl x ↦ x
      | inr (x, m, q, (a, k), f) ↦ elim m [
        | inl d ↦ cc (ap (receipt_action py) d, e, k)
        | inr d ↦ absurd d
      ]
    ],
  )
  count-failed r (some a) t name e = elim (Bool-cases (equals (lookup "status" r) "failed")) [
    | inl f ↦ rw f (
      λ h. elim h [ inl d ↦ inr (r, inl refl, sym d, (a, e), f) | inr m ↦ inl m ],
      λ h. elim h [
        | inl m ↦ inr m
        | inr (x, m, q, k, g) ↦ elim m [
          | inl d ↦ inl (sym q ∙ ap (result_name py) d)
          | inr d ↦ absurd d
        ]
      ],
    )
    | inr f ↦ rw f (
      λ h. inl h,
      λ h. elim h [
        | inl m ↦ m
        | inr (x, m, q, k, g) ↦ elim m [
          | inl d ↦ cc (ap (λ v. equals (lookup "status" v) "failed") d, f, g)
          | inr d ↦ absurd d
        ]
      ],
    )
  ]

  tally-failed :
      (l : List (Assoc Value)) (t : Tally) (name : String)
      → In name (tally py t l).failed ↔ (In name t.failed ⊎ Fails l name)
  unfolding tally
  tally-failed [] t name = (λ h. inl h, λ h. elim h [ inl m ↦ m | inr (x, m, q, k, g) ↦ absurd m ])
  tally-failed (r ∷ l) t name =
      let one = count-failed r (receipt_action py r) t name refl in
      let ih = tally-failed l (count py r (receipt_action py r) t) name in
      (
        λ h. elim (ih.0 h) [
          | inl m ↦ elim (one.0 m) [
            | inl k ↦ inl k
            | inr (x, k, q, a, g) ↦ elim k [ inl d ↦ inr (x, inl d, q, a, g) | inr d ↦ absurd d ]
          ]
          | inr f ↦ inr (Fails-cons r l name f)
        ],
        λ h. ih.1 (elim h [
          | inl m ↦ inl (one.1 (inl m))
          | inr (x, k, q, a, g) ↦ elim k [
            | inl d ↦ inl (one.1 (inr (x, inl d, q, a, g)))
            | inr m ↦ inr (x, m, q, a, g)
          ]
        ]),
      )

  -- a result about a removal
  abbrev pub is_removal : Assoc Value → Bool
  is_removal r = not (is_empty (result_name py r)) && (result_kind py r == "Remove")

  other_kind :
      (r : Assoc Value) (o : Option String) (t : Tally)
      → (result_kind py r == "Remove") ≡ false
      → (count py r o t).removed ≡ t.removed
  unfolding count
  other_kind r none t e = refl
  other_kind r (some a) t e = rw e refl

  removal_kind : (kind : String) → kind ≡ "Remove" → lookup kind receipt_actions ≡ some "remove"
  unfolding lookup
  removal_kind kind e = rw e refl

  count-removed :
      (r : Assoc Value) (t : Tally)
      → (count py r (receipt_action py r) t).removed
        ≡ t.removed ++ map (result_name py) (keep is_removal (r ∷ []))
  unfolding keep receipt_action
  count-removed r t = elim (Bool-cases (is_empty (result_name py r))) [
    | inl e ↦ rw e (unfold count in sym (append-nil t.removed))
    | inr e ↦ elim (Bool-cases (result_kind py r == "Remove")) [
      | inl k ↦
          rw (e, k, removal_kind (result_kind py r) ((eq_iff (result_kind py r) "Remove").0 k))
            (unfold count in rw k refl)
      | inr k ↦ rw (e, k) (other_kind r _ t k ∙ sym (append-nil t.removed))
    ]
  ]

  pub tally-removed :
      (l : List (Assoc Value)) (t : Tally)
      → (tally py t l).removed ≡ t.removed ++ map (result_name py) (keep is_removal l)
  unfolding tally keep
  tally-removed [] t = sym (append-nil t.removed)
  tally-removed (r ∷ l) t =
      tally-removed l (count py r (receipt_action py r) t)
      ∙ (ap (λ x. x ++ map (result_name py) (keep is_removal l)) (count-removed r t)
          ∙ elim (Bool-cases (is_removal r)) [
            | inl e ↦ rw e (append_assoc t.removed (result_name py r ∷ []) _)
            | inr e ↦ rw e (append_assoc t.removed [] _)
          ])

  pub tally-contains :
      (l : List (Assoc Value)) (name : String)
      → (contains (tally py no_results l).failed name ≡ true) ↔ Fails l name
  tally-contains l name =
      let found = tally-failed l no_results name in
      (
        λ e. elim (found.0 (contains-In _ name e)) [ inl m ↦ absurd m | inr f ↦ f ],
        λ f. In-contains _ name (found.1 (inr f)),
      )
