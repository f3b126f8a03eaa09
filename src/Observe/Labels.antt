-- ===== src/Observe/Labels.antt =====
-- Labels that a container was created with, read back by `parse_state`, in both spellings.
use bay.Prelude.{String, true, ◌≡◌, ◌≢◌, Option, none, some, string_eq, arith, eq_iff}
use bay.Prelude.Assoc.{Assoc, lookup, insert, lookup-insert}
use bay.Model.{ContainerSpec}
use bay.Observe.{
  hash_label, legacy_hash_label, legacy_managed_label, Attrs, or_config, or_nil, get_or, has_key,
  parse_state,
}

-- The labels that `SdkDockerClient.create` puts on a container (sdk_client.py).
unfoldable pub stamped : String → String → String → ContainerSpec → Assoc String
unfolding insert
stamped managed stack_key stack spec =
    insert stack_key stack (insert managed "true" (insert hash_label spec.config_hash spec.labels))

-- the labels of docker's attributes
abbrev pub labels_of : Attrs → Assoc String
labels_of attrs = or_nil (or_config attrs.config).labels

module _ (managed stack_key stack : String) (spec : ContainerSpec) where
  abbrev with_hash : Assoc String
  with_hash = insert hash_label spec.config_hash spec.labels

  abbrev with_flag : Assoc String
  with_flag = insert managed "true" with_hash

  stamped-hash :
      managed ≢ hash_label
      → stack_key ≢ hash_label
      → lookup hash_label (stamped managed stack_key stack spec) ≡ some spec.config_hash
  unfolding stamped
  stamped-hash nm ns = ground (
    arith,
    eq_iff stack_key hash_label,
    eq_iff managed hash_label,
    eq_iff hash_label hash_label,
    lookup-insert stack_key hash_label stack with_flag,
    lookup-insert managed hash_label "true" with_hash,
    lookup-insert hash_label hash_label spec.config_hash spec.labels,
  )

  stamped-flag : has_key managed (stamped managed stack_key stack spec) ≡ true
  unfolding stamped
  stamped-flag = ground (
    arith,
    eq_iff managed managed,
    lookup-insert stack_key managed stack with_flag,
    lookup-insert managed managed "true" with_hash,
  )

-- A container that was created for a spec is read back with the spec's config hash and as managed,
-- as long as the managed and the stack label are other labels than the hash label.
pub parse_state-stamped :
    (managed stack_key stack : String) (spec : ContainerSpec) (local_id : Option String)
    (attrs : Attrs)
    → managed ≢ hash_label
    → stack_key ≢ hash_label
    → labels_of attrs ≡ stamped managed stack_key stack spec
    → ((parse_state managed hash_label local_id attrs).config_hash ≡ some spec.config_hash)
      × ((parse_state managed hash_label local_id attrs).managed ≡ true)
unfolding parse_state
parse_state-stamped managed stack_key stack spec local_id attrs nm ns e = (
  rw (e, stamped-hash managed stack_key stack spec nm ns, get_or),
  rw (e, stamped-flag managed stack_key stack spec),
)

-- A container that carries only the labels from before 1.0 is read like one with the new labels:
-- its hash and the managed flag come from the old keys.
pub parse_state-legacy :
    (managed : String) (local_id : Option String) (attrs : Attrs) (hash flag : String)
    → lookup hash_label (labels_of attrs) ≡ none
    → lookup managed (labels_of attrs) ≡ none
    → lookup legacy_hash_label (labels_of attrs) ≡ some hash
    → lookup legacy_managed_label (labels_of attrs) ≡ some flag
    → ((parse_state managed hash_label local_id attrs).config_hash ≡ some hash)
      × ((parse_state managed hash_label local_id attrs).managed ≡ true)
unfolding parse_state
parse_state-legacy managed local_id attrs hash flag h m lh lm =
    (rw (h, lh, get_or), rw (m, lm, has_key))
