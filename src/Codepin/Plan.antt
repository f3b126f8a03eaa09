-- ===== src/Codepin/Plan.antt =====
-- `plan_moves` of codepin.py: the move of `:latest` for each target of a deploy.
use bay.Prelude.{
  String, Bool, true, false, not, ◌&&◌, ◌||◌, Option, none, some, List, [], ◌∷◌, ◌==◌, string_eq,
  option_eq, if◌then◌else◌,
}
use bay.Prelude.Assoc.{Assoc, lookup, insert, contains}
use bay.Prelude.Text.{concat, is_empty}
use bay.Prelude.Result.{Result, ok, err}
use bay.Images.{split_ref, is_commit, short}
use bay.Codepin.{
  prev_commit, registry_ref, or_else, ref_of, Out, id_of, runs_commit, by_label, tagging,
  keep_previous, Images, Status, retag, noop, skipped, missing, Move, PrevRow, Failed, Target, St,
}

module _ (I : Images) where
  -- What a target asks for, and what is known about it.
  module _ (t : Target) (repo commit : String) (bad : Failed) where
    abbrev pub source : String
    source = ref_of repo commit

    abbrev pub move : Status → String → String → List String → Move
    move status source detail available = record {
      name = t.name;
      status = status;
      source = some source;
      target = some t.image;
      detail = detail;
      strict = t.strict;
      available = available;
    }

    abbrev pub refusal : St I → String → Out I
    refusal st detail = (
      ok (
          move (if t.strict then missing else skipped) source detail
            (I.commit_tags st.images repo)),
      st,
    )

    abbrev pub found_text : String
    found_text = concat ("found by its commit label, tagged " ∷ source ∷ [])

    -- the move of `:latest` at the end of the loop's body
    unfoldable pub retag_latest : St I → String → Out I
    retag_latest st labelled =
        keep_previous I st (id_of I st t.image) repo t.image
          λ st₁. tagging I st₁ source t.image λ st₂. (ok (move retag source labelled []), st₂)

    -- an image of the commit is known: `have`, which is empty for one that was untagged
    unfoldable pub settle : St I → String → String → Out I
    unfolding concat
    settle st have labelled =
        if not (is_empty have) && id_of I st t.image == some have
        then (ok (move noop source labelled []), st)
        else if contains bad.commits commit || contains bad.images have
        then refusal st (
            concat (
              source
              ∷ " failed its health check on this box, so it is never deployed again; push a fix"
              ∷ []))
        else retag_latest st labelled

    abbrev pub settle_or_missing : St I → Option String → String → Out I
    settle_or_missing st none labelled = refusal st (concat (source ∷ " is not on this box" ∷ []))
    settle_or_missing st (some have) labelled = settle st have labelled

    -- `labelled` before the loop's body looks for a label
    abbrev pub label_text : Option String → String
    label_text none = ""
    label_text (some id) = found_text

    abbrev pub pulled : St I → String → Bool × I.State → Out I
    pulled st labelled (true, s) =
        settle_or_missing (record st { images = s }) (I.image_id s source) labelled
    pulled st labelled (false, s) = settle_or_missing (record st { images = s }) none labelled

    -- `if have is None and _registry_ref(repo) and images.pull(source)`
    unfoldable pub pull_missing : St I → String → Out I
    pull_missing st labelled =
        if registry_ref repo
        then pulled st labelled (I.pull st.images source)
        else settle_or_missing st none labelled

    -- behind the tag of the image `hit` that the label names
    abbrev pub with_found : String → St I → Out I
    with_found hit st =
        let st₁ : St I = record st { found = insert source hit st.found } in
        settle_or_missing st₁ (or_else (id_of I st₁ source) (some hit)) found_text

    -- `hit` of the search by label
    abbrev pub with_hit : St I → Option String → Out I
    with_hit st none = pull_missing st (label_text (lookup source st.found))
    with_hit st (some hit) = tagging I st hit source (with_found hit)

    -- the move for a container that runs the commit already, with the image `running`
    unfoldable pub keep_move : String → Move
    unfolding concat
    keep_move running =
        move retag running
          (concat ("already running " ∷ commit ∷ "; " ∷ t.image ∷ " points at it again" ∷ [])) []

    unfoldable pub keep_running : St I → String → Out I
    unfolding concat
    keep_running st running =
        if id_of I st t.image == some running
        then (ok (move noop source (concat ("already running " ∷ commit ∷ [])) []), st)
        else keep_previous I st (id_of I st t.image) repo t.image
            λ st₁. tagging I st₁ running t.image λ st₂. (ok (keep_move running), st₂)

    -- `running` where it is known and has not failed
    abbrev pub unless_failed : Option String → Option String
    unless_failed none = none
    unless_failed (some running) = if contains bad.images running then none else some running

    abbrev pub without_tag : St I → Option String → Out I
    without_tag st (some running) = keep_running st running
    without_tag st none = with_hit st (by_label I st t.name t.image commit bad.images)

    -- the body behind `have = images.image_id(source)`
    unfoldable pub with_have : St I → Option String → Out I
    with_have st (some have) = settle st have (label_text (lookup source st.found))
    with_have st none =
        if contains bad.commits commit
        then settle st "" (label_text (lookup source st.found))
        else without_tag st (unless_failed (runs_commit I st t.name t.image commit))

  abbrev pub no_move : Target → String → Move
  no_move t detail = record {
    name = t.name;
    status = skipped;
    source = none;
    target = none;
    detail = detail;
    strict = false;
    available = [];
  }

  unfoldable pub no_previous : St I → Target → String → Out I
  no_previous st t repo = (
    ok (record {
      name = t.name;
      status = if t.strict then missing else skipped;
      source = none;
      target = some t.image;
      detail = "the previous receipt names no commit for this container";
      strict = t.strict;
      available = I.commit_tags st.images repo;
    }),
    st,
  )

  abbrev pub at_commit : St I → Target → Failed → String → String → Out I
  at_commit st t bad repo commit = with_have t repo commit bad st (id_of I st (ref_of repo commit))

  abbrev pub from_receipt : St I → Target → Failed → String → Option String → Out I
  from_receipt st t bad repo none = no_previous st t repo
  from_receipt st t bad repo (some commit) = at_commit st t bad repo commit

  unfoldable pub names_none : St I → Target → Out I
  names_none st t = (ok (no_move t "the target names no commit"), st)

  abbrev pub from_target : St I → Target → Failed → String → Option String → Out I
  from_target st t bad repo none = names_none st t
  from_target st t bad repo (some commit) =
      if is_commit commit then at_commit st t bad repo (short commit) else names_none st t

  -- `t.get("source") == "prev"`
  abbrev pub by_source : (from_prev : Bool) → List PrevRow → St I → Target → Failed → String → Out I
  by_source true prev st t bad repo = from_receipt st t bad repo (prev_commit prev t.name)
  by_source false prev st t bad repo = from_target st t bad repo t.commit

  unfoldable pub not_latest : St I → Target → Out I
  unfolding concat
  not_latest st t = (
    ok (
        no_move t (
          concat (
            "image "
            ∷ (if is_empty t.image then "?" else t.image)
            ∷ " is not a :latest tag"
            ∷ []))),
    st,
  )

  -- the body of the loop of `plan_moves`
  unfoldable pub plan_move : List PrevRow → St I → Target → Failed → Out I
  plan_move prev st t bad =
      let (repo, tag) = split_ref t.image in
      if is_empty t.name || is_empty t.image || not (tag == some "latest")
      then not_latest st t
      else by_source t.from_prev prev st t bad repo

  -- `(failed or {}).get(name) or Failed()`
  unfoldable pub failed_of : Assoc Failed → String → Failed
  failed_of failed name = elim (lookup name failed) [
    | none ↦ record { commits = []; images = [] }
    | some bad ↦ bad
  ]

  -- `out.append(…)` in front of the moves that follow
  abbrev pub add_move :
      Result Move × St I → (St I → Result (List Move) × St I) → Result (List Move) × St I
  add_move (err e, st) next = (err e, st)
  add_move (ok m, st) next = in_front m (next st)
    where
      in_front : Move → Result (List Move) × St I → Result (List Move) × St I
      in_front m (err e, st) = (err e, st)
      in_front m (ok l, st) = (ok (m ∷ l), st)

  -- `plan_moves`
  unfoldable pub plan_moves :
      List PrevRow → Assoc Failed → List Target → St I → Result (List Move) × St I
  plan_moves prev failed [] st = (ok [], st)
  plan_moves prev failed (t ∷ l) st =
      add_move (plan_move prev st t (failed_of failed t.name)) (plan_moves prev failed l)
