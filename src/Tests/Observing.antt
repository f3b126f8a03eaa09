-- ===== src/Tests/Observing.antt =====
-- observe.py on small payloads: port specs in two orders, and labels in both spellings.
use bay.Prelude.{
  String, ◌≡◌, ◌≢◌, refl, true, false, false≢true, sym, ◌∙◌, ◌==◌, string_eq, none, some, List, [],
  ◌∷◌,
}
use bay.Prelude.Assoc.{Assoc}
use bay.Prelude.Int.{pos}
use bay.Observe.{
  desired_port_tuples, port_spec_tuple, hash_label, managed_label, stack_label, legacy_hash_label,
  legacy_managed_label, Attrs, parse_state,
}
use bay.Observe.Labels.{stamped, parse_state-stamped}
use bay.Samples.{web}

abbrev http_first : List String
http_first = "80:80" ∷ "127.0.0.1:9000:9000/udp" ∷ []

abbrev http_last : List String
http_last = "127.0.0.1:9000:9000/udp" ∷ "80:80" ∷ []

bound_addresses : desired_port_tuples http_first ≡ "0.0.0.0:80" ∷ "127.0.0.1:9000" ∷ []
unfolding desired_port_tuples port_spec_tuple
bound_addresses = refl

abbrev with_labels : Assoc String → Attrs
with_labels labels = record {
  name = some "/web";
  config = some (record { image = some "repo/web:1"; labels = some labels; env = some [] });
  state = some (record { status = some "running"; health = none });
  host_config = none;
  restart_count = some (pos 0);
  image = some "sha256:1";
}

abbrev created : Attrs
created = with_labels (stamped managed_label stack_label "shop" web)

abbrev before_one : Attrs
before_one = with_labels ((legacy_hash_label, "old") ∷ (legacy_managed_label, "true") ∷ [])

differs : (a b : String) → (a == b) ≡ false → a ≢ b
differs a b e h = false≢true (sym e ∙ (string_eq.test_iff a b).1 h)

parse_state-stamped_example :
    ((parse_state managed_label hash_label none created).config_hash ≡ some "abc")
    × ((parse_state managed_label hash_label none created).managed ≡ true)
parse_state-stamped_example =
    parse_state-stamped managed_label stack_label "shop" web none created (differs _ _ refl)
      (differs _ _ refl) refl
