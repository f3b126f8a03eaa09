-- ===== src/Tests/Receiving.antt =====
-- The push receiver on deliveries, pushes and regions of a small stack.
use bay.Prelude.{
  if◌then◌else◌, ◌==◌, none, string_eq, ◌<◌, sym, ◌∙◌, String, true, false, ◌≡◌, ◌≢◌, refl, some,
  List, [], ◌∷◌, string_eq, ◌↔◌, inl, inr, differ, arith,
}
use bay.Prelude.Assoc.{keep, Assoc, length, In, distinct, contains}
use bay.Prelude.Result.{Exn, ok, err}
use bay.Tests.Pushing.{engine, under_docs}
use bay.PushInputs.{translate}
use bay.PushInputs.Inputs.{Rule, spec, spec_match}
use bay.PushInputs.Chosen.{Matches-iff}
use bay.Webhook.{compute_routing}
use bay.Prelude.Int.{pos}
use bay.Tests.Planning.{interpreter}
use bay.Json.{null}
use bay.Webhook.Written.{at_write}
use bay.Webhook.Push.{Payload, Entry, Box, push}
use bay.Webhook.Front.{Request, Guarded, read_verified_body, read_verified_body-Guarded}
use bay.Webhook.Deliveries.{
  is_duplicate, trim, cache_size, Delivery, delivery_key, delivery_is_duplicate, deliver,
}
use bay.Webhook.Replay.{replay_refused}
use bay.Webhook.Cache.{WellFormed, delivery_is_duplicate-WellFormed}
use bay.Webhook.Filter.{no_config, ServiceConfig, Pathspec, push_filter}
use bay.Webhook.Patterns.{Reads}
use bay.Webhook.Passing.{Passes, push_filter_iff}
use bay.Webhook.Unreadable.{push_filter_unreadable}
use bay.Webhook.Routing.{forwarded_once}

abbrev push_one : Delivery
push_one = ("guid-1", "web")

abbrev push_two : Delivery
push_two = ("guid-1", "worker")

few : length (push_two ∷ []) < cache_size
unfolding length
few = omega arith

replay_refused_example :
    (delivery_is_duplicate push_one
      (deliver (push_two ∷ []) ((delivery_is_duplicate push_one []).1))).0
    ≡ true
replay_refused_example = replay_refused push_one (push_two ∷ []) [] refl few

again : (delivery_is_duplicate push_one (deliver (push_two ∷ push_one ∷ []) [])).0 ≡ true
unfolding delivery_is_duplicate is_duplicate contains deliver trim length delivery_key
again = refl

one_key : WellFormed ("guid-0:web" ∷ [])
unfolding length distinct contains
one_key = (omega arith, refl)

delivery_is_duplicate-WellFormed_example :
    WellFormed ((delivery_is_duplicate push_one ("guid-0:web" ∷ [])).1)
delivery_is_duplicate-WellFormed_example =
    delivery_is_duplicate-WellFormed push_one ("guid-0:web" ∷ []) one_key

-- a library that reads no pattern
abbrev no_library : Pathspec
no_library = record {
  from_lines = λ lines. err (record { class_name = "ValueError"; message = "bad" });
}

-- a library that reads every list as the one rule of the test
abbrev docs_rule : List Rule
docs_rule = (under_docs, true) ∷ []

abbrev library : Pathspec
library = record { from_lines = λ lines. ok (spec_match docs_rule) }

docs_spec : spec engine ("docs/" ∷ []) ≡ ok docs_rule
unfolding spec translate
docs_spec = refl

library-Reads : Reads engine library ("docs/" ∷ [])
library-Reads =
    (spec_match docs_rule, refl, λ f. Matches-iff engine f ("docs/" ∷ []) docs_rule docs_spec)

-- A service with a shared repository that ignores its docs.
abbrev shop_config : ServiceConfig
shop_config = record no_config {
  bay_toml_path = some "shop/bay.toml";
  shared_toml_paths = "blog/bay.toml" ∷ [];
  paths = some (record { include = []; exclude = "docs/" ∷ [] });
}

abbrev changed : List String
changed = "blog/bay.toml" ∷ "docs/a.md" ∷ []

named_files : (g : String) → In g changed → g ≢ ""
named_files g (inl e) z = differ "blog/bay.toml" "" refl (sym e ∙ z)
named_files g (inr (inl e)) z = differ "docs/a.md" "" refl (sym e ∙ z)
named_files g (inr (inr m)) z = elim m [ ]

push_filter_iff_example :
    ((push_filter library changed (some shop_config)).0 ≡ true)
    ↔ Passes engine library shop_config changed
push_filter_iff_example =
    push_filter_iff engine library shop_config tt library-Reads "blog/bay.toml" ("docs/a.md" ∷ [])
      named_files

abbrev watched : ServiceConfig
watched = record no_config { paths = some (record { include = "[" ∷ []; exclude = [] }) }

push_filter_unreadable_example : (push_filter no_library ("README" ∷ []) (some watched)).0 ≡ true
push_filter_unreadable_example =
    push_filter_unreadable no_library "[" [] (record { class_name = "ValueError"; message = "bad" })
      "README" [] watched refl refl

abbrev peers : Assoc String
peers = ("eu", "https://eu.example") ∷ ("us", "https://us.example") ∷ []

sent : In ("us", "https://us.example") ((compute_routing "eu" ("eu" ∷ "us" ∷ []) peers false).1)
unfolding compute_routing keep contains
sent = inl refl

forwarded_once_example : compute_routing "us" ("eu" ∷ "us" ∷ []) peers true ≡ (true, [])
forwarded_once_example =
    forwarded_once "eu" "us" "https://us.example" ("eu" ∷ "us" ∷ []) peers peers refl sent

-- a box outside the service's region whose disk refuses the trigger of one service
abbrev full_disk : Exn
full_disk = record { class_name = "OSError"; message = "No space left on device" }

abbrev box : Box
box = record {
  is_build_server = true;
  region = "eu";
  broken = λ name. if name == "worker" then some (at_write full_disk 3) else none;
  answers = λ peer. true;
  python = interpreter;
}

abbrev entry : Entry
entry = record {
  branch = none;
  filter = none;
  regions = [];
  peer_urls = [];
  siblings = "worker" ∷ [];
}

abbrev to_main : Payload
to_main = record {
  deleted = false;
  ref = "refs/heads/main";
  forced = false;
  commits = [];
  head_commit = none;
  pusher = none;
  repository = none;
}

-- a request with a body of two bytes, signed with a digest that is the body itself
abbrev signed : Request
signed = record {
  content_length = "2";
  signature = some "sha256={}";
  delivery = "guid-1";
  read = λ n. "{}";
}

read_verified_body-Guarded_example :
    Guarded
      (λ s. some (pos 2))
      (λ body. body)
      signed
      []
      (read_verified_body (λ s. some (pos 2)) (λ body. body) signed "web" [])
read_verified_body-Guarded_example =
    read_verified_body-Guarded (λ s. some (pos 2)) (λ body. body) signed "web" []

-- a push whose head commit is null, to a service whose trigger waits: the lookups raise, and the
-- trigger is as it was
null_head :
    (push library box
      (λ n. record entry { siblings = [] })
      (λ n. n)
      "guid-1"
      (λ n. true)
      "web"
      (record to_main { head_commit = some null })
      false
      "id-1"
      ([], ("web", "id-0\n") ∷ [])).1
    ≡ ([], ("web", "id-0\n") ∷ [])
unfolding push bay.Webhook.push_siblings bay.Webhook.siblings_from bay.Webhook.Push.push_target
    bay.Prelude.Text.concat bay.Webhook.Push.route bay.Webhook.Lookups.noted
null_head = refl
