-- ===== src/Images/Tags.antt =====
-- `commit_from_tags` answers only when the answer is unique, and with a tag that is really there.
use mathlib.Core.Path.{subst}
use bay.Prelude.{
  String, true, false, ◌≡◌, ◌↔◌, inl, inr, refl, Option, none, some, List, [], ◌∷◌, arith, eq_iff,
  sym, ◌∙◌, ap, Bool-cases, Option-cases, string_eq, option_eq, and_iff,
}
use bay.Prelude.Assoc.{In, In-keep}
use bay.Prelude.Order.{In-sort, In-dedup}
use bay.Prelude.Sort.{sort, dedup}
use bay.Prelude.Text.{is_empty}
use bay.Images.{
  split_ref, is_commit_tag, repo_key, own_tag, own_tags, add_tag, want_of, own_commit_tags, naming,
  head_or, commit_from_own, commit_from_tags,
}

-- A reference of the repository `want` with the commit tag `t`.
pub record Names (want t ref : String) : Type 0 where
  pub tagged : (split_ref ref).1 ≡ some t
  pub is_commit : is_commit_tag t ≡ true
  pub own : repo_key ((split_ref ref).0) ≡ want

own_tag-Names : (want t ref : String) → own_tag want ref ≡ some t → Names want t ref
unfolding own_tag
own_tag-Names want t ref h = elim (Option-cases ((split_ref ref).1)) [
  | inl e ↦ ground arith
  | inr (s, e) ↦ record {
    tagged = ground (arith, e);
    is_commit = ground (arith, e);
    own = ground (arith, e, eq_iff (repo_key ((split_ref ref).0)) want);
  }
]

Names-own_tag : (want t ref : String) → Names want t ref → own_tag want ref ≡ some t
unfolding own_tag
Names-own_tag want t ref n =
    ground (arith, n.tagged, n.is_commit, n.own, eq_iff (repo_key ((split_ref ref).0)) want)

own_tags-Names :
    (want t : String) (refs : List String)
    → In t (own_tags want refs)
    → (ref : String) × In ref refs × Names want t ref
unfolding own_tags
own_tags-Names want t [] m = elim m [ ]
own_tags-Names want t (ref ∷ l) m = found (own_tag want ref) refl m (own_tags-Names want t l)
  where
    deeper : (r : String) × In r l × Names want t r → (r : String) × In r (ref ∷ l) × Names want t r
    deeper (r, m, n) = (r, inr m, n)

    found :
        (o : Option String)
        → own_tag want ref ≡ o
        → In t (add_tag o (own_tags want l))
        → (In t (own_tags want l) → (r : String) × In r l × Names want t r)
        → (r : String) × In r (ref ∷ l) × Names want t r
    found none e m ih = deeper (ih m)
    found (some s) e (inl h) ih = (ref, inl refl, own_tag-Names want t ref (e ∙ ap some (sym h)))
    found (some s) e (inr m) ih = deeper (ih m)

Names-own_tags :
    (want t ref : String) (refs : List String)
    → In ref refs
    → Names want t ref
    → In t (own_tags want refs)
unfolding own_tags
Names-own_tags want t ref [] m n = elim m [ ]
Names-own_tags want t ref (x ∷ l) (inl e) n =
    rw (ap (own_tag want) (sym e) ∙ Names-own_tag want t ref n) (inl refl)
Names-own_tags want t ref (x ∷ l) (inr m) n =
    behind (own_tag want x) (Names-own_tags want t ref l m n)
  where
    behind : (o : Option String) → In t (own_tags want l) → In t (add_tag o (own_tags want l))
    behind none i = i
    behind (some s) i = inr i

naming_iff :
    (commit want ref : String) (refs : List String)
    → In ref (naming commit want refs)
      ↔ (In ref refs × (((split_ref ref).1 ≡ some commit) × (repo_key ((split_ref ref).0) ≡ want)))
unfolding naming
naming_iff commit want ref refs =
    let kept = In-keep _ ref refs in
    let test =
      and_iff _ _ (option_eq.test_iff (split_ref ref).1 (some commit))
        (eq_iff (repo_key ((split_ref ref).0)) want) in
    (λ h. ((kept.0 h).0, test.0 (kept.0 h).1), λ h. kept.1 (h.0, test.1 h.1))

head_or-In : (d : String) (l : List String) (x : String) → In x l → In (head_or d l) l
head_or-In d [] x m = elim m [ ]
head_or-In d (y ∷ l) x m = inl refl

-- What the answer says: its reference is one of those given and names the commit in the image's own
-- repository, and every reference of that repository with a commit tag has this very tag.
abbrev pub Unique : List String → String → String → String → Type 0
Unique refs image commit ref =
    In ref refs
    × Names (want_of image) commit ref
    × ((other tag : String) → In other refs → Names (want_of image) tag other → tag ≡ commit)

module _ (refs : List String) (image : String) where
  abbrev tags : List String
  tags = sort (dedup (own_tags (want_of image) refs))

  In-tags : (t : String) → In t tags ↔ In t (own_tags (want_of image) refs)
  In-tags t =
      let outer = In-sort t (dedup (own_tags (want_of image) refs)) in
      let inner = In-dedup t (own_tags (want_of image) refs) in
      (λ h. inner.0 (outer.0 h), λ h. outer.1 (inner.1 h))

  only : (t other : String) (l : List String) → In other l → l ≡ t ∷ [] → other ≡ t
  only t other l m e = one (subst (In other) e m)
    where
      one : In other (t ∷ []) → other ≡ t
      one (inl h) = h
      one (inr h) = absurd h

  unique :
      (l : List String) (commit ref : String)
      → tags ≡ l
      → commit_from_own l refs image ≡ some (commit, ref)
      → Unique refs image commit ref
  unfolding commit_from_own
  unique [] commit ref e c = cc
  unique (t ∷ []) commit ref e c =
      let same : t ≡ commit = cc in
      let chosen : head_or "" (sort (naming t (want_of image) refs)) ≡ ref = cc in
      let (first, member, names) =
        own_tags-Names (want_of image) t refs ((In-tags t).0 (subst (In t) (sym e) (inl refl))) in
      let found = (naming_iff t (want_of image) first refs).1 (member, (names.tagged, names.own)) in
      let sorted = naming t (want_of image) refs in
      let picked =
        (In-sort _ sorted).0 (head_or-In "" (sort sorted) first ((In-sort first sorted).1 found)) in
      let (there, (tagged, own)) =
        (naming_iff t (want_of image) ref refs).0
          (subst (λ r. In r (naming t (want_of image) refs)) chosen picked) in
      (
        there,
        record {
          tagged = tagged ∙ ap some same;
          is_commit = ap is_commit_tag (sym same) ∙ names.is_commit;
          own = own;
        },
        λ other tag m n.
            only t tag tags ((In-tags tag).1 (Names-own_tags (want_of image) tag other refs m n)) e
            ∙ same,
      )
  unique (t ∷ u ∷ l) commit ref e c = cc

  own_commit_tags-empty : is_empty image ≡ true → own_commit_tags refs (some image) ≡ []
  unfolding own_commit_tags
  own_commit_tags-empty e = rw e refl

  own_commit_tags-tags : is_empty image ≡ false → own_commit_tags refs (some image) ≡ tags
  unfolding own_commit_tags
  own_commit_tags-tags e = rw e refl

  nothing_own : (commit ref : String) → ¬ (commit_from_own [] refs image ≡ some (commit, ref))
  unfolding commit_from_own
  nothing_own commit ref h = cc

  -- If `commit_from_tags` answers, the answer is unique and really there: its reference is one of
  -- those given and names the commit in the image's own repository, and every reference of that
  -- repository with a commit tag has this very tag.
  pub commit_from_tags-Unique :
      (commit ref : String)
      → commit_from_tags refs (some image) ≡ some (commit, ref)
      → Unique refs image commit ref
  unfolding commit_from_tags
  commit_from_tags-Unique commit ref h = elim (Bool-cases (is_empty image)) [
    | inl e ↦ absurd (nothing_own commit ref (rw (own_commit_tags-empty e) at h))
    | inr e ↦ unique tags commit ref refl (rw (own_commit_tags-tags e) at h)
  ]
