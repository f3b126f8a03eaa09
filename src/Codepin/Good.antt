-- ===== src/Codepin/Good.antt =====
-- `plan_moves` never moves `:latest` to an image that failed its health check on the box.
use bay.Prelude.{
  String, Bool, true, false, not, ◌&&◌, ◌≡◌, ◌≢◌, ◌⊎◌, inl, inr, refl, Option, none, some, sym, ap,
  ◌∙◌, Bool-cases, ◌==◌, string_eq, option_eq, false≢true, differ,
}
use bay.Prelude.Assoc.{insert, contains}
use mathlib.Core.Option.{some-injective}
use bay.Prelude.Text.{is_empty}
use bay.Prelude.Result.{Result, ok, err}
use bay.Images.{split_ref}
use bay.Codepin.{
  Images, Move, Failed, Target, St, ref_of, id_of, or_else, tag_result, tagging, keep_previous,
  registry_ref, runs_commit, checked_running, names_it,
}
use bay.Codepin.Plan.{
  settle, settle_or_missing, retag_latest, refusal, source, pull_missing, pulled, with_hit,
  with_found, found_text, keep_move, keep_running, unless_failed, without_tag, with_have,
}
use bay.Codepin.Lawful.{Lawful, Writes}

or_else-some :
    (a b : Option String) (id : String) → or_else a b ≡ some id → (a ≡ some id) ⊎ (b ≡ some id)
or_else-some none b id h = inr h
or_else-some (some String.[]) b id h = inr h
or_else-some (some (String.◌∷◌ c x)) b id h = inl h

module _ (I : Images) (law : Lawful I) where
  tagged :
      (next : St I → Result Move × St I) (st out : St I) (m : Move)
      (r : Result (Unit {0}) × I.State)
      → tag_result I next st r ≡ (ok m, out)
      → (s : I.State) × (r ≡ (ok tt, s)) × (next (record st { images = s }) ≡ (ok m, out))
  tagged next st out m (err e, s) h = cc
  tagged next st out m (ok u, s) h = (s, refl, h)

  -- What tagging `repo:previous` leaves: the other tags of the repository, and the images.
  record Kept (repo : String) (st st' : St I) : Type 0 where
    tags : (tag r : String) → tag ≢ "previous" → Writes repo tag r → id_of I st' r ≡ id_of I st r
    images : (id : String) → id_of I st id ≡ some id → id_of I st' id ≡ some id

  previous-Kept :
      (repo image : String) (next : St I → Result Move × St I) (st out : St I) (m : Move)
      (latest : Option String)
      → keep_previous I st latest repo image next ≡ (ok m, out)
      → (st' : St I) × Kept repo st st' × (next st' ≡ (ok m, out))
  previous-Kept repo image next st out m none h =
      (st, record { tags = λ t r ne w. refl; images = λ id e. e }, h)
  previous-Kept repo image next st out m (some latest) h =
      let (s, e, rest) = tagged next st out m (I.tag st.images image (ref_of repo "previous")) h in
      (
        record st { images = s },
        record {
          tags = λ t r ne w. law.others st.images s image repo t "previous" r e ne w;
          images = λ id i. law.ids st.images s image (ref_of repo "previous") id e i;
        },
        rest,
      )

  module _ (t : Target) (repo commit : String) (bad : Failed) where
    -- An image that `:latest` names now, and did not name before, has not failed, and neither has
    -- the commit.
    abbrev pub NewIsGood : St I → St I → Type 0
    NewIsGood st out =
        (id : String)
        → id_of I out t.image ≡ some id
        → (id_of I st t.image ≡ some id)
          ⊎ ((contains bad.images id ≡ false) × (contains bad.commits commit ≡ false))

    unchanged : (st out : St I) → id_of I out t.image ≡ id_of I st t.image → NewIsGood st out
    unchanged st out e id h = inl (sym e ∙ h)

    module _ (latest : split_ref t.image ≡ (repo, some "latest")) (hex : commit ≢ "previous")
        (other : "latest" ≢ commit) where
      -- `:latest` is tagged with `from`, which names images that have not failed
      tagged_good :
          (st out : St I) (m m' : Move) (from have : String)
          → ((st' : St I)
              → Kept repo st st'
              → (id : String) → id_of I st' from ≡ some id
              → id ≡ have)
          → contains bad.images have ≡ false
          → contains bad.commits commit ≡ false
          → keep_previous I st
              (id_of I st t.image)
              repo
              t.image
              (λ st₁. tagging I st₁ from t.image (λ st₂. (ok m', st₂)))
            ≡ (ok m, out)
          → NewIsGood st out
      tagged_good st out m m' from have is good clean h id e =
          let next : St I → Result Move × St I =
            λ st₁. tagging I st₁ from t.image (λ st₂. (ok m', st₂)) in
          let (st₁, k, rest) = previous-Kept repo t.image next st out m (id_of I st t.image) h in
          let (s, set, last) =
            tagged (λ st₂. (ok m', st₂)) st₁ out m (I.tag st₁.images from t.image) rest in
          let same : I.image_id s t.image ≡ some id = ap (λ p. id_of I (p.1) t.image) last ∙ e in
          elim (law.set st₁.images s from t.image set) [
            | inl moved ↦
                inr (ap (contains bad.images) (is st₁ k id (sym moved ∙ same)) ∙ good, clean)
            | inr stays ↦ inl (
                sym (
                  k.tags "latest" t.image (λ q. absurd (differ "latest" "previous" refl q))
                    (inr latest))
                ∙ sym stays
                ∙ same)
          ]

      retag-NewIsGood :
          (st out : St I) (m : Move) (labelled have : String)
          → ((id : String) → id_of I st (source I t repo commit bad) ≡ some id → id ≡ have)
          → contains bad.images have ≡ false
          → contains bad.commits commit ≡ false
          → retag_latest I t repo commit bad st labelled ≡ (ok m, out)
          → NewIsGood st out
      unfolding retag_latest
      retag-NewIsGood st out m labelled have is good clean h =
          tagged_good st out m _ (source I t repo commit bad) have
            (λ st' k id e. is id (sym (k.tags commit _ hex (inl refl)) ∙ e)) good clean h

      settle-NewIsGood :
          (st out : St I) (m : Move) (have labelled : String)
          → (contains bad.commits commit ≡ false
              → (id : String) → id_of I st (source I t repo commit bad) ≡ some id
              → id ≡ have)
          → settle I t repo commit bad st have labelled ≡ (ok m, out)
          → NewIsGood st out
      unfolding settle
      settle-NewIsGood st out m have labelled is h =
          elim (Bool-cases (not (is_empty have) && id_of I st t.image == some have)) [
            | inl noop ↦ unchanged st out (ap (λ p. id_of I (p.1) t.image) (sym (rw noop at h)))
            | inr go ↦ elim (Bool-cases (contains bad.commits commit)) [
              | inl failed ↦
                  unchanged st out (ap (λ p. id_of I (p.1) t.image) (sym (rw (go, failed) at h)))
              | inr clean ↦ elim (Bool-cases (contains bad.images have)) [
                | inl failed ↦
                    unchanged st out
                      (ap (λ p. id_of I (p.1) t.image) (sym (rw (go, clean, failed) at h)))
                | inr good ↦
                    retag-NewIsGood st out m labelled have (is clean) good clean
                      (rw (go, clean, good) at h)
              ]
            ]
          ]

      shift :
          (st st' out : St I)
          → id_of I st' t.image ≡ id_of I st t.image
          → NewIsGood st' out
          → NewIsGood st out
      shift st st' out e g id h = elim (g id h) [ inl same ↦ inl (sym e ∙ same) | inr x ↦ inr x ]

      refusal-NewIsGood :
          (st out : St I) (m : Move) (detail : String)
          → refusal I t repo commit bad st detail ≡ (ok m, out)
          → NewIsGood st out
      refusal-NewIsGood st out m detail h =
          unchanged st out (ap (λ p. id_of I (p.1) t.image) (sym h))

      -- `have` is what the source resolves to
      known-NewIsGood :
          (st out : St I) (m : Move) (have : Option String) (labelled : String)
          → id_of I st (source I t repo commit bad) ≡ have
          → settle_or_missing I t repo commit bad st have labelled ≡ (ok m, out)
          → NewIsGood st out
      known-NewIsGood st out m none labelled e h = refusal-NewIsGood st out m _ h
      known-NewIsGood st out m (some have) labelled e h =
          settle-NewIsGood st out m have labelled (λ clean id i. some-injective _ _ (sym i ∙ e)) h

      pulled-NewIsGood :
          (st out : St I) (m : Move) (labelled : String) (p : Bool × I.State)
          → I.image_id (p.1) t.image ≡ I.image_id st.images t.image
          → pulled I t repo commit bad st labelled p ≡ (ok m, out)
          → NewIsGood st out
      pulled-NewIsGood st out m labelled (true, s) e h =
          shift st (record st { images = s }) out e
            (known-NewIsGood (record st { images = s }) out m _ labelled refl h)
      pulled-NewIsGood st out m labelled (false, s) e h =
          shift st (record st { images = s }) out e
            (refusal-NewIsGood (record st { images = s }) out m _ h)

      pull-NewIsGood :
          (st out : St I) (m : Move) (labelled : String)
          → pull_missing I t repo commit bad st labelled ≡ (ok m, out)
          → NewIsGood st out
      unfolding pull_missing
      pull-NewIsGood st out m labelled h = elim (Bool-cases (registry_ref repo)) [
        | inl e ↦
            pulled-NewIsGood st out m labelled (I.pull st.images (source I t repo commit bad))
              (law.pulls st.images repo "latest" commit t.image other (inr latest)) (rw e at h)
        | inr e ↦ refusal-NewIsGood st out m _ (rw e at h)
      ]

      -- behind the tag of an image found by its label
      hit-NewIsGood :
          (st out : St I) (m : Move) (hit labelled : String) (o : Option String)
          → id_of I st (source I t repo commit bad) ≡ o
          → settle_or_missing I t repo commit bad st (or_else o (some hit)) labelled ≡ (ok m, out)
          → NewIsGood st out
      hit-NewIsGood st out m hit labelled none e h =
          settle-NewIsGood st out m hit labelled
            (λ clean id i. let x : none ≡ some id = sym e ∙ i in cc) h
      hit-NewIsGood st out m hit labelled (some String.[]) e h =
          absurd (law.nonempty st.images (source I t repo commit bad) e)
      hit-NewIsGood st out m hit labelled (some (String.◌∷◌ c x)) e h =
          known-NewIsGood st out m (some (String.◌∷◌ c x)) labelled e h

      labelled-NewIsGood :
          (st out : St I) (m : Move) (hit : Option String)
          → with_hit I t repo commit bad st hit ≡ (ok m, out)
          → NewIsGood st out
      labelled-NewIsGood st out m none h = pull-NewIsGood st out m _ h
      labelled-NewIsGood st out m (some hit) h =
          let ref = source I t repo commit bad in
          let (s, set, rest) =
            tagged (with_found I t repo commit bad hit) st out m (I.tag st.images hit ref) h in
          let st₂ : St I = record { images = s; found = insert ref hit st.found } in
          shift st st₂ out
            (law.others st.images s hit repo "latest" commit t.image set other (inr latest))
            (hit-NewIsGood st₂ out m hit (found_text I t repo commit bad) _ refl rest)

      running-NewIsGood :
          (st out : St I) (m : Move) (running : String)
          → id_of I st running ≡ some running
          → contains bad.images running ≡ false
          → contains bad.commits commit ≡ false
          → keep_running I t repo commit bad st running ≡ (ok m, out)
          → NewIsGood st out
      unfolding keep_running
      running-NewIsGood st out m running named good clean h =
          elim (Bool-cases (id_of I st t.image == some running)) [
            | inl noop ↦ unchanged st out (ap (λ p. id_of I (p.1) t.image) (sym (rw noop at h)))
            | inr go ↦
                tagged_good st out m (keep_move I t repo commit bad running) running running
                  (λ st' k id e. some-injective _ _ (sym e ∙ k.images running named)) good clean
                  (rw go at h)
          ]

      checked :
          (st : St I) (image id : String) (o : Option String)
          → checked_running I st image commit o ≡ some id
          → o ≡ some id
      checked st image id none h = cc
      checked st image id (some running) h = elim (Bool-cases (is_empty running)) [
        | inl e ↦ let x : none ≡ some id = rw e at h in cc
        | inr e ↦ elim (Bool-cases (names_it I image commit (I.image_meta st.images running))) [
          | inl n ↦ rw (e, n) at h
          | inr n ↦ let x : none ≡ some id = rw (e, n) at h in cc
        ]
      ]

      runs_commit-named :
          (st : St I) (id : String)
          → runs_commit I st t.name t.image commit ≡ some id
          → id_of I st id ≡ some id
      unfolding runs_commit
      runs_commit-named st id h =
          let found : or_else (I.container_image st.images t.name) (id_of I st t.image) ≡ some id =
            checked st t.image id _ h in
          elim (or_else-some _ _ id found) [
            | inl c ↦ law.contained st.images t.name id c
            | inr l ↦ law.named st.images t.image id l
          ]

      without_tag-NewIsGood :
          (st out : St I) (m : Move) (running : Option String)
          → ((id : String) → running ≡ some id → id_of I st id ≡ some id)
          → contains bad.commits commit ≡ false
          → without_tag I t repo commit bad st (unless_failed I t repo commit bad running)
            ≡ (ok m, out)
          → NewIsGood st out
      without_tag-NewIsGood st out m none named clean h = labelled-NewIsGood st out m _ h
      without_tag-NewIsGood st out m (some id) named clean h =
          elim (Bool-cases (contains bad.images id)) [
            | inl failed ↦ labelled-NewIsGood st out m _ (rw failed at h)
            | inr good ↦ running-NewIsGood st out m id (named id refl) good clean (rw good at h)
          ]

      pub have-NewIsGood :
          (st out : St I) (m : Move) (have : Option String)
          → id_of I st (source I t repo commit bad) ≡ have
          → with_have I t repo commit bad st have ≡ (ok m, out)
          → NewIsGood st out
      unfolding with_have
      have-NewIsGood st out m (some have) e h =
          settle-NewIsGood st out m have _ (λ clean id i. some-injective _ _ (sym i ∙ e)) h
      have-NewIsGood st out m none e h = elim (Bool-cases (contains bad.commits commit)) [
        | inl failed ↦
            settle-NewIsGood st out m "" _ (λ clean id i. absurd (false≢true (sym clean ∙ failed)))
              (rw failed at h)
        | inr clean ↦ without_tag-NewIsGood st out m _ (runs_commit-named st) clean (rw clean at h)
      ]
