-- ===== src/Tests/Pinning.antt =====
-- codepin.py against a daemon with two images of one repository, whose `:latest` tag moves.
use Prim.Native.String.{String}
use text.Mathlib.TextLemmas.{append_cancel_left, append_cancel_right}
use mathlib.Core.Path.{subst}
use mathlib.Core.Option.{some-injective}
use bay.Prelude.{
  ℕ, ◌+◌, ◌-◌, if◌then◌else◌, ltb, Bool, true, false, ◌||◌, ◌≡◌, ◌≢◌, ◌⊎◌, inl, inr, refl, sym, ap,
  ◌∙◌, Option, none, some, [], ◌∷◌, arith, eq_iff, differ, false≢true, ◌==◌, string_eq,
}
use bay.Prelude.Assoc.{lookup, contains}
use bay.Prelude.Text.{concat}
use bay.Prelude.Result.{Exn, Result, ok, err}
use bay.Images.{split_ref, is_commit, short}
use bay.Codepin.{Images, Target, Failed, St, Move, ref_of, retag}
use bay.Codepin.Plan.{plan_move, with_have, settle, retag_latest}
use bay.Codepin.Lawful.{Lawful, Writes}
use bay.Codepin.Safe.{Good, plan_move-Good}
use bay.Codepin.Lock.{Os, Lock, Passes, Ended, wait_lock, wait_lock_total, build_lock}
use bay.Codepin.Guard.{Guard, guarded_tag}
use bay.Codepin.Excluded.{Excluded, guarded_tag-Excluded}

abbrev latest : String
latest = "shop:latest"

-- The images are the new one (`true`) and the old one. The state is the image that `:latest` names.
abbrev image_of : Bool → String
image_of true = "sha256:new"
image_of false = "sha256:old"

abbrev which_by : (is_latest is_new is_old : Bool) → Bool → Option Bool
which_by true is_new is_old s = some s
which_by false true is_old s = some true
which_by false false true s = some false
which_by false false false s = none

-- An image answers to its id, and the new one to the tag of its commit.
abbrev which : Bool → String → Option Bool
which s r =
    which_by (r == latest) (r == "sha256:new" || r == "shop:0123456789ab") (r == "sha256:old") s

abbrev id_of_image : Option Bool → Option String
id_of_image none = none
id_of_image (some b) = some (image_of b)

abbrev refused : Exn
refused = record { class_name = "APIError"; message = "" }

-- `:latest` may be tagged with an image; `:previous` is accepted and forgotten
abbrev set_tag : (is_latest is_previous : Bool) → Bool → Option Bool → Result (Unit {0}) × Bool
set_tag true is_previous s none = (err refused, s)
set_tag true is_previous s (some b) = (ok tt, b)
set_tag false true s o = (ok tt, s)
set_tag false false s o = (err refused, s)

abbrev shop : Images
shop = record {
  State = Bool;
  image_id = λ s r. id_of_image (which s r);
  pull = λ s r. (false, s);
  tag =
      λ s source target. set_tag (target == latest) (target == "shop:previous") s (which s source);
  commit_tags = λ s repo. "0123456789ab" ∷ [];
  container_image = λ s name. none;
  image_meta = λ s r. ([], []);
  labelled = λ s repo. [];
}

tagged_by :
    (b c n o s t : Bool) (source : Option Bool)
    → set_tag b c s source ≡ (ok tt, t)
    → (which_by b n o t ≡ source) ⊎ (which_by b n o t ≡ which_by b n o s)
tagged_by true c n o s t none h = cc
tagged_by true c n o s t (some x) h = inl (sym (ap (λ p. some (p.1)) h))
tagged_by false true n o s t source h = inr (ap (λ p. which_by false n o (p.1)) (sym h))
tagged_by false false n o s t source h = cc

-- another name than `:latest` keeps its image
kept_by :
    (b c d n o s t : Bool) (source : Option Bool)
    → set_tag b c s source ≡ (ok tt, t)
    → ((b ≡ true) → (d ≡ true) → ⊥)
    → which_by d n o t ≡ which_by d n o s
kept_by true c true n o s t source h no_both = absurd (no_both refl refl)
kept_by false true true n o s t source h no_both = ap (λ p. some (p.1)) (sym h)
kept_by false false true n o s t source h no_both = cc
kept_by b c false true o s t source h no_both = refl
kept_by b c false false true s t source h no_both = refl
kept_by b c false false false s t source h no_both = refl

same_tag : (repo a b : String) → ref_of repo a ≡ ref_of repo b → a ≡ b
unfolding ref_of concat
same_tag repo a b h =
    append_cancel_right a b "" (append_cancel_left ":" _ _ (append_cancel_left repo _ _ h))

latest_parts : split_ref latest ≡ ("shop", some "latest")
unfolding split_ref
latest_parts = refl

shop_latest : ref_of "shop" "latest" ≡ latest
unfolding ref_of concat
shop_latest = refl

one_latest : (repo a b r : String) → a ≢ b → Writes repo a r → ref_of repo b ≡ latest → r ≢ latest
one_latest repo a b r ne (inl w) e l = ne (same_tag repo a b (sym w ∙ (l ∙ sym e)))
one_latest repo a b r ne (inr w) e l =
    let parts : split_ref latest ≡ (repo, some a) = ap split_ref (sym l) ∙ w in
    let repo_is : "shop" ≡ repo = ap (λ p. p.0) (sym latest_parts ∙ parts) in
    let tag_is : "latest" ≡ a = some-injective _ _ (ap (λ p. p.1) (sym latest_parts ∙ parts)) in
    ne (
      sym tag_is
      ∙ same_tag "shop" "latest" b (shop_latest ∙ sym (ap (λ x. ref_of x b) repo_is ∙ e)))

own_id : (s b : Bool) → id_of_image (which s (image_of b)) ≡ some (image_of b)
own_id s true = refl
own_id s false = refl

is_own :
    (s : Bool) (o : Option Bool) (id : String)
    → id_of_image o ≡ some id
    → (b : Bool) × (id ≡ image_of b)
is_own s none id h = cc
is_own s (some b) id h = (b, some-injective _ _ (sym h))

not_empty : (s : Bool) (o : Option Bool) → id_of_image o ≢ some ""
not_empty s none h = cc
not_empty s (some true) h = differ _ _ refl (some-injective "sha256:new" "" h)
not_empty s (some false) h = differ _ _ refl (some-injective "sha256:old" "" h)

no_container : {A : Type 0} {id : String} → none ≡ some id → A
no_container h = cc

shop-Lawful : Lawful shop
shop-Lawful = record {
  set = λ s t source target h. elim (tagged_by _ _ _ _ s t (which s source) h) [
    | inl e ↦ inl (ap id_of_image e)
    | inr e ↦ inr (ap id_of_image e)
  ];
  others = λ s t source repo a b r h ne w. ap id_of_image (
      kept_by _ _ _ _ _ s t (which s source) h
        λ e l. one_latest repo a b r ne w ((eq_iff _ _).0 e) ((eq_iff _ _).0 l));
  ids = λ s t source target id h i.
      let (b, e) = is_own s (which s id) id i in
      subst (λ x. id_of_image (which t x) ≡ some x) (sym e) (own_id t b);
  pulls = λ s repo a b r ne w. refl;
  named = λ s r id h.
      let (b, e) = is_own s (which s r) id h in
      subst (λ x. id_of_image (which s x) ≡ some x) (sym e) (own_id s b);
  contained = λ s name id h. no_container h;
  nonempty = λ s r h. not_empty s (which s r) h;
}

abbrev web : Target
web = record {
  name = "web";
  image = latest;
  strict = true;
  from_prev = false;
  commit = some "0123456789ab";
}

abbrev nothing_failed : Failed
nothing_failed = record { commits = []; images = [] }

abbrev old_state : St shop
old_state = record { images = false; found = [] }

abbrev new_state : St shop
new_state = record { images = true; found = [] }

abbrev web_move : Move
web_move = record {
  name = "web";
  status = retag;
  source = some "shop:0123456789ab";
  target = some latest;
  detail = "";
  strict = true;
  available = [];
}

web_moves : plan_move shop [] old_state web nothing_failed ≡ (ok web_move, new_state)
unfolding plan_move split_ref is_commit with_have ref_of short settle contains retag_latest lookup
web_moves = refl

plan_move-Good_example : Good shop shop-Lawful [] web nothing_failed old_state "sha256:new"
plan_move-Good_example =
    plan_move-Good shop shop-Lawful [] web nothing_failed old_state new_state web_move "sha256:new"
      web_moves refl

-- A box whose lock is never free, with its clock in seconds: a wait of 300 seconds, with a try every
-- two of them.
abbrev left_of : ℕ → ℕ → ℕ
left_of start w = start + 300 - w

abbrev busy : Os ℕ
busy = record {
  open_file = λ w. ok 9;
  flock = λ w. (false, w);
  Moment = ℕ;
  clock = λ w. w;
  has_left = λ start w. ltb 0 (left_of start w);
  sleep = λ start w. if ltb 2 (left_of start w) then w + 2 else w + left_of start w;
}

busy-Passes : Passes busy left_of
busy-Passes = record { sleeping = λ start w h. ground arith; trying = λ start w. omega arith }

-- a wait that starts now has time left
fresh_wait : busy.has_left 1000 1000 ≡ true
fresh_wait = refl

wait_lock_total_example :
    (out : Bool × (Option ℕ × ℕ)) × (wait_lock busy 301 1000 9 1000 ≡ some out)
    × Ended busy 1000 9 out
wait_lock_total_example = wait_lock_total busy left_of busy-Passes 301 1000 9 1000 (omega arith)

-- a lock whose file cannot be opened, on the box of the two images
abbrev unopened : Os Bool
unopened = record {
  open_file = λ w. err refused;
  flock = λ w. (true, w);
  Moment = Unit;
  clock = λ w. tt;
  has_left = λ start w. false;
  sleep = λ start w. w;
}

unopened-Passes : Passes unopened (λ start w. 0)
unopened-Passes = record {
  sleeping = λ start w h. absurd (false≢true h);
  trying = λ start w. omega arith;
}

abbrev no_lock : Lock Bool
no_lock = build_lock unopened (λ start w. 0) unopened-Passes

abbrev before_move : Guard Bool
before_move = record { daemon = false; lock = none; refuse = false; refused = []; unavailable = "" }

abbrev behind_move : Guard Bool
behind_move = record before_move { daemon = true; unavailable = "not taken ()" }

moves_latest :
    guarded_tag shop true no_lock before_move "shop:0123456789ab" latest ≡ (ok tt, behind_move)
unfolding guarded_tag split_ref concat
moves_latest = refl

guarded_tag-Excluded_example : Excluded shop true no_lock before_move behind_move latest
unfolding split_ref
guarded_tag-Excluded_example =
    guarded_tag-Excluded shop true no_lock before_move behind_move "shop:0123456789ab" latest refl
      refl moves_latest
