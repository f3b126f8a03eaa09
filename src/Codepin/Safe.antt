-- ===== src/Codepin/Safe.antt =====
-- What `plan_moves` does to `:latest`, for the commit that a target asks for.
use bay.Prelude.{
  String, Bool, true, false, not, ◌||◌, ◌≡◌, ◌⊎◌, inl, inr, refl, Option, none, some, List, [], ◌∷◌,
  sym, ap, ◌∙◌, arith, Bool-cases, ◌==◌, string_eq, option_eq,
}
use bay.Prelude.Assoc.{contains}
use bay.Prelude.Text.{is_empty}
use bay.Prelude.Result.{Result, ok}
use bay.Images.{split_ref, is_hex, is_commit, short}
use bay.Codepin.{
  Images, Move, Failed, Target, PrevRow, St, id_of, prev_commit, tag_commit, row_commit,
}
use bay.Codepin.Plan.{
  plan_move, at_commit, from_receipt, from_target, not_latest, no_previous, names_none, by_source,
  no_move,
}
use bay.Codepin.Commits.{no_commit}
use bay.Codepin.Lawful.{Lawful}
use bay.Codepin.Good.{have-NewIsGood}

-- The commit that a target asks for: that of the previous receipt, or its own.
abbrev pub Asks : List PrevRow → Target → String → Type 0
Asks prev t commit =
    ((t.from_prev ≡ true) × (prev_commit prev t.name ≡ some commit))
    ⊎ ((t.from_prev ≡ false)
        × ((value : String) × (t.commit ≡ some value)
            × (is_commit value ≡ true)
            × (commit ≡ short value)))

abbrev IsShort : String → Type 0
IsShort commit = (value : String) × (is_commit value ≡ true) × (commit ≡ short value)

tag_commit-IsShort : (tag : Option String) (c : String) → tag_commit tag ≡ some c → IsShort c
tag_commit-IsShort none c h = cc
tag_commit-IsShort (some tag) c h = elim (Bool-cases (is_commit tag)) [
  | inl e ↦ (tag, e, let x : some (short tag) ≡ some c = rw e at h in cc)
  | inr e ↦ let x : none ≡ some c = rw e at h in cc
]

row_commit-IsShort :
    (value : Option String) (image c : String) → row_commit value image ≡ some c → IsShort c
row_commit-IsShort none image c h = tag_commit-IsShort _ c h
row_commit-IsShort (some value) image c h = elim (Bool-cases (is_commit value)) [
  | inl e ↦ (value, e, let x : some (short value) ≡ some c = rw e at h in cc)
  | inr e ↦ tag_commit-IsShort _ c (rw e at h)
]

prev_commit-IsShort :
    (prev : List PrevRow) (name c : String) → prev_commit prev name ≡ some c → IsShort c
unfolding prev_commit
prev_commit-IsShort [] name c h = cc
prev_commit-IsShort (row ∷ l) name c h = elim (Bool-cases (row.name == name)) [
  | inl e ↦ row_commit-IsShort row.commit row.image c (rw e at h)
  | inr e ↦ prev_commit-IsShort l name c (rw e at h)
]

module _ (I : Images) (law : Lawful I) (prev : List PrevRow) (t : Target) (bad : Failed) where
  -- The image was that of `:latest` before, or it has not failed, and the target asks for a commit
  -- that has not failed.
  abbrev pub Good : St I → String → Type 0
  Good st id =
      (id_of I st t.image ≡ some id)
      ⊎ ((commit : String) × Asks prev t commit
          × (contains bad.images id ≡ false)
          × (contains bad.commits commit ≡ false))

  abbrev OnlyGood : St I → St I → Type 0
  OnlyGood st out = (id : String) → id_of I out t.image ≡ some id → Good st id

  same :
      (st out : St I) (m : Move) (r : Result Move × St I)
      → r ≡ (ok m, out)
      → id_of I (r.1) t.image ≡ id_of I st t.image
      → OnlyGood st out
  same st out m r h e id i = inl (sym e ∙ (ap (λ p. id_of I (p.1) t.image) h ∙ i))

  at_commit-OnlyGood :
      (st out : St I) (m : Move) (repo commit : String)
      → split_ref t.image ≡ (repo, some "latest")
      → Asks prev t commit
      → IsShort commit
      → at_commit I st t bad repo commit ≡ (ok m, out)
      → OnlyGood st out
  unfolding is_hex
  at_commit-OnlyGood st out m repo commit latest asks (value, is, e) h id i =
      elim (have-NewIsGood I law t repo commit bad latest
        (λ q. no_commit value "previous" is refl (sym e ∙ q))
        (λ q. no_commit value "latest" is refl (sym e ∙ sym q)) st out m _ refl h id i) [
          | inl kept ↦ inl kept
          | inr (good, clean) ↦ inr (commit, asks, good, clean)
        ]

  receipt-OnlyGood :
      (st out : St I) (m : Move) (repo : String) (o : Option String)
      → split_ref t.image ≡ (repo, some "latest")
      → t.from_prev ≡ true
      → prev_commit prev t.name ≡ o
      → from_receipt I st t bad repo o ≡ (ok m, out)
      → OnlyGood st out
  unfolding no_previous
  receipt-OnlyGood st out m repo none latest p e h = same st out m _ h refl
  receipt-OnlyGood st out m repo (some commit) latest p e h =
      at_commit-OnlyGood st out m repo commit latest (inl (p, e))
        (prev_commit-IsShort prev t.name commit e) h

  target-OnlyGood :
      (st out : St I) (m : Move) (repo : String) (o : Option String)
      → split_ref t.image ≡ (repo, some "latest")
      → t.from_prev ≡ false
      → t.commit ≡ o
      → from_target I st t bad repo o ≡ (ok m, out)
      → OnlyGood st out
  unfolding names_none
  target-OnlyGood st out m repo none latest p e h = same st out m _ h refl
  target-OnlyGood st out m repo (some value) latest p e h = elim (Bool-cases (is_commit value)) [
    | inl is ↦
        at_commit-OnlyGood st out m repo (short value) latest (inr (p, (value, e, is, refl)))
          (value, is, refl) (rw is at h)
    | inr isn't ↦
        let x : (ok (no_move I t "the target names no commit"), st) ≡ (ok m, out) = rw isn't at h in
        same st out m _ x refl
  ]

  by_source-OnlyGood :
      (st out : St I) (m : Move) (repo : String) (b : Bool)
      → split_ref t.image ≡ (repo, some "latest")
      → t.from_prev ≡ b
      → by_source I b prev st t bad repo ≡ (ok m, out)
      → OnlyGood st out
  by_source-OnlyGood st out m repo true latest p h =
      receipt-OnlyGood st out m repo _ latest p refl h
  by_source-OnlyGood st out m repo false latest p h =
      target-OnlyGood st out m repo _ latest p refl h

  -- Let the daemon keep docker's rules of tags. When `plan_moves` returns a move for a target, then
  -- `:latest` names the image it named before, or an image that is not recorded as failed on this
  -- box, and then the target asks for a commit that is not recorded as failed either.
  pub plan_move-Good :
      (st out : St I) (m : Move) (id : String)
      → plan_move I prev st t bad ≡ (ok m, out)
      → id_of I out t.image ≡ some id
      → Good st id
  unfolding plan_move not_latest
  plan_move-Good st out m id h i =
      elim (Bool-cases
        (is_empty t.name || is_empty t.image || not ((split_ref t.image).1 == some "latest"))) [
          | inl e ↦ same st out m (not_latest I st t) (rw e at h) refl id i
          | inr e ↦
              let tag : (split_ref t.image).1 ≡ some "latest" =
                (option_eq.test_iff ((split_ref t.image).1) (some "latest")).0 (ground arith) in
              let latest : split_ref t.image ≡ ((split_ref t.image).0, some "latest") =
                ap (λ x. ((split_ref t.image).0, x)) tag in
              by_source-OnlyGood st out m ((split_ref t.image).0) t.from_prev latest refl
                (rw e at h) id i
        ]
