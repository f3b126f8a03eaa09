-- ===== src/Webhook/Push.antt =====
-- `_push_target` of the receiver and the part of `do_POST` that runs it for a service and its
-- siblings. The state is the trigger files of the box and the replay cache; the disk, the other
-- regions' receivers and fresh correlation ids are parameters. The alerts are left out, but not the
-- lookups in the payload that are made for them, which may raise. A region's name has no quotes.
use bay.Prelude.{
  ℕ, String, Bool, true, false, not, ◌&&◌, ◌||◌, Option, none, some, List, [], ◌∷◌, map, ◌==◌,
  string_eq, if◌then◌else◌, leb,
}
use bay.Prelude.Assoc.{Assoc, keep, any, length}
use bay.Prelude.Text.{concat}
use bay.Prelude.Result.{Exn, Result, ok, err}
use bay.Json.{Value, Python}
use bay.Webhook.Written.{Triggers, Fault, write_trigger}
use bay.Webhook.Lookups.{noted}
use bay.Webhook.{or_local, compute_routing, push_siblings}
use bay.Webhook.Deliveries.{delivery_is_duplicate}
use bay.Webhook.Filter.{Commit, extract_changed_files, ServiceConfig, Pathspec, push_filter}

-- What the receiver reads of a push payload.
pub record Payload : Type 0 where
  pub deleted : Bool
  pub ref : String
  pub forced : Bool
  pub commits : List Commit
  pub head_commit : Option Value
  pub pusher : Option Value
  pub repository : Option Value

-- The entry of a service; the filter's keys are `none` for an empty entry.
pub record Entry : Type 0 where
  pub branch : Option String
  pub filter : Option ServiceConfig
  pub regions : List String
  pub peer_urls : Assoc String
  pub siblings : List String

pub record Done : Type 0 where
  pub status : String
  pub corr_id : String
  pub files_changed : ℕ
  pub is_local : Bool
  pub forwarded : List String
  pub forward_failures : List String
  pub tag_only : Bool
  pub reason : String

-- The response for a target. `failed` is that of `_target_error`, with the text of the exception.
pub data Reply : Type 0 where
  skipped : Reply
  ignored : (reason : String) → Reply
  duplicate : Reply
  failed : (reason : String) → Reply
  done : Done → Reply

abbrev pub branch_of : Entry → String
branch_of entry = elim entry.branch [ none ↦ "main" | some branch ↦ branch ]

-- the reason to rebuild whatever changed
unfoldable pub force_reason : Payload → Option String
force_reason payload =
    if payload.forced
    then some "force push detected, rebuilding regardless of path filters"
    else if leb 20 (length payload.commits)
    then some "large push (20+ commits), rebuilding to be safe — file list may be incomplete"
    else none

-- The box: whether it is the build server, its region, what the disk raises for a service's
-- trigger, whether a peer answers, and its Python.
pub record Box : Type 0 where
  pub is_build_server : Bool
  pub region : String
  pub broken : String → Option Fault
  pub answers : String × String → Bool
  pub python : Python

-- `IS_BUILD_SERVER`, or the routing
unfoldable pub route : Box → Entry → Bool → Bool × List (String × String)
route box entry is_forwarded =
    if box.is_build_server
    then (true, [])
    else compute_routing box.region (or_local box.region entry.regions) entry.peer_urls is_forwarded

abbrev pub status_of : (is_local : Bool) → List String → String
status_of true forwarded = "triggered"
status_of false [] = "forward_failed"
status_of false (r ∷ l) = "forwarded"

-- What a push is: tag only or not, with the reason, and how many files it changes.
abbrev pub Kind : Type 0
Kind = Bool × String × ℕ

module _ (pathspec : Pathspec) (box : Box) where
  unfoldable pub kind_by : Option String → Entry → List String → Kind
  kind_by (some reason) entry files = (false, reason, length files)
  kind_by none entry files =
      let (rebuild, reason) = push_filter pathspec files entry.filter in
      (not rebuild, reason, length files)

  abbrev pub region_of : String × String → String
  region_of (region, url) = region

  -- the response behind the triggers, with the peers that answered
  unfoldable pub finish : Kind → String → Bool → List (String × String) → Reply
  finish (tag_only, reason, files) corr is_local targets =
      let forwarded = map region_of (keep box.answers targets) in
      done (record {
        status = status_of is_local forwarded;
        corr_id = corr;
        files_changed = files;
        is_local = is_local;
        forwarded = forwarded;
        forward_failures = map region_of (keep (λ t. not (box.answers t)) targets);
        tag_only = tag_only;
        reason = if tag_only then reason else "";
      })

  abbrev pub behind_write :
      Kind
      → String
      → List (String × String)
      → Result (Unit {0}) × Triggers
      → Result Reply × Triggers
  behind_write kind corr targets (err e, triggers) = (err e, triggers)
  behind_write kind corr targets (ok u, triggers) = (ok (finish kind corr true targets), triggers)

  -- the local trigger, behind the lookups
  abbrev pub write_local :
      Kind
      → String
      → String
      → Triggers
      → List (String × String)
      → Result (Unit {0})
      → Result Reply × Triggers
  write_local kind service corr triggers targets (err e) = (err e, triggers)
  write_local kind service corr triggers targets (ok u) =
      behind_write kind corr targets
        (write_trigger (kind.0) (box.broken service) service corr triggers)

  -- the forwards alone, behind the lookups
  abbrev pub send_on :
      Kind
      → String
      → Triggers
      → List (String × String)
      → Result (Unit {0})
      → Result Reply × Triggers
  send_on kind corr triggers targets (err e) = (err e, triggers)
  send_on kind corr triggers targets (ok u) = (ok (finish kind corr false targets), triggers)

  -- the local trigger and the forwards, by the routing
  abbrev pub by_route :
      Kind
      → String
      → String
      → Triggers
      → Result (Unit {0})
      → Bool × List (String × String)
      → Result Reply × Triggers
  by_route kind service corr triggers notes (true, targets) =
      write_local kind service corr triggers targets notes
  by_route kind service corr triggers notes (false, []) = (
    ok (ignored (concat ("service not in region '" ∷ box.region ∷ "' and no peer URL" ∷ []))),
    triggers,
  )
  by_route kind service corr triggers notes (false, t ∷ targets) =
      send_on kind corr triggers (t ∷ targets) notes

  -- what the lookups for the alerts raise
  abbrev pub notes : Payload → Result (Unit {0})
  notes payload = noted box.python payload.head_commit payload.pusher payload.repository

  -- `_push_target`
  unfoldable pub push_target :
      String → Entry → Payload → Bool → String → Triggers → Result Reply × Triggers
  push_target service entry payload is_forwarded corr triggers =
      if payload.deleted
      then (ok skipped, triggers)
      else if payload.ref == concat ("refs/heads/" ∷ branch_of entry ∷ [])
      then by_route (kind_by (force_reason payload) entry (extract_changed_files payload.commits))
          service corr triggers (notes payload) (route box entry is_forwarded)
      else (
        ok (ignored (concat ("push to " ∷ payload.ref ∷ ", tracking " ∷ branch_of entry ∷ []))),
        triggers,
      )

  -- `_target_error` for a target that raised
  unfoldable pub target_error : Exn → Reply
  target_error e = failed (concat (e.class_name ∷ ": " ∷ e.message ∷ []))

  abbrev pub or_error : Result Reply × Triggers → Reply × Triggers
  or_error (ok reply, triggers) = (reply, triggers)
  or_error (err e, triggers) = (target_error e, triggers)

  -- The replay cache and the triggers.
  abbrev pub Local : Type 0
  Local = List String × Triggers

  -- The configured entry of a service, a fresh correlation id for a sibling, and the delivery id.
  module _ (config : String → Entry) (fresh : String → String) (delivery : String) where
    abbrev pub with_triggers : List String → Reply × Triggers → Reply × Local
    with_triggers seen (reply, triggers) = (reply, (seen, triggers))

    abbrev pub unless_duplicate : Payload → String → Triggers → Bool × List String → Reply × Local
    unless_duplicate payload name triggers (true, seen) = (duplicate, (seen, triggers))
    unless_duplicate payload name triggers (false, seen) =
        with_triggers seen
          (or_error (push_target name (config name) payload false (fresh name) triggers))

    -- one sibling of the loop
    unfoldable pub push_sibling : Payload → String → Local → Reply × Local
    push_sibling payload name (seen, triggers) =
        unless_duplicate payload name triggers (delivery_is_duplicate (delivery, name) seen)

    unfoldable pub push_all : Payload → List String → Local → Assoc Reply × Local
    push_all payload [] s = ([], s)
    push_all payload (name ∷ l) s =
        let (reply, s₁) = push_sibling payload name s in
        let (replies, s₂) = push_all payload l s₁ in ((name, reply) ∷ replies, s₂)

    -- `url_failed` for the service of the hook
    abbrev pub is_error : Result Reply → Bool
    is_error (ok reply) = false
    is_error (err e) = true

    abbrev pub is_accepted : String × Reply → Bool
    is_accepted (name, done d) = d.status == "triggered" || d.status == "forwarded"
    is_accepted (name, reply) = false

    -- The answer of a push: the code, the reply for the service, and those for its siblings.
    abbrev pub Answer : Type 0
    Answer = ℕ × Reply × Assoc Reply

    abbrev pub alone : Result Reply × Triggers → List String → Result Answer × Local
    alone (err e, triggers) seen = (err e, (seen, triggers))
    alone (ok reply, triggers) seen = (ok (200, reply, []), (seen, triggers))

    abbrev pub with_siblings :
        Payload → List String → Result Reply × Triggers → List String → Result Answer × Local
    with_siblings payload names (r, triggers) seen =
        let (reply, _) = or_error (r, triggers) in
        let (replies, s) = push_all payload names (seen, triggers) in
        (ok ((if is_error r && not (any is_accepted replies) then 500 else 200), reply, replies), s)

    -- the siblings of a push that is not forwarded
    abbrev pub siblings_of : (is_forwarded : Bool) → (String → Bool) → String → List String
    siblings_of true known service = []
    siblings_of false known service = push_siblings known service (config service).siblings

    abbrev pub by_siblings :
        Payload → List String → Result Reply × Triggers → List String → Result Answer × Local
    by_siblings payload [] first seen = alone first seen
    by_siblings payload (n ∷ names) first seen = with_siblings payload (n ∷ names) first seen

    -- `do_POST` behind the payload of a verified push
    unfoldable pub push :
        (String → Bool) → String → Payload → Bool → String → Local → Result Answer × Local
    push known service payload is_forwarded corr (seen, triggers) =
        by_siblings payload (siblings_of is_forwarded known service)
          (push_target service (config service) payload is_forwarded corr triggers) seen
