-- ===== src/Statics/RoundTrip.antt =====
-- What is recorded about a topic is what is read back.
use rosbag2_storage_rrd.Statics.{
  definition_component, metadata_component, utf8_columns, struct_field, struct_bytes, struct_string,
  with_definition, with_metadata, column, struct_row, topic_info, metadata_path,
  read_metadata_property, update_entry, collect, TopicStatics, TopicRecord,
}
use rosbag2_storage_rrd.Base.{
  ok, ℕ, none, arith, ◌≡◌, str_eq, Option, List, Bool, String, false, some, refl, [],
}
use mathlib.Core.List.{◌∷◌}
use rosbag2_storage_rrd.Arrow.{Arrays, Chunk, lookup}
use text.Mathlib.TextEquality.{eq_iff}

-- The record as it is found.
abbrev pub recorded : TopicRecord → TopicStatics
recorded r = record {
  topic = some r.topic;
  type_name = some r.type_name;
  schema_encoding = some r.schema_encoding;
  schema_text = some r.schema_text;
  qos_profiles = some r.qos_profiles;
  type_hash = some r.type_hash;
}

module _ (before : String → String → Bool) where
  -- The entry of the key is changed, and no other.
  pub lookup-update_entry_ne :
      (k j : String) (f : TopicStatics → TopicStatics) (l : List (String × TopicStatics))
      → str_eq k j ≡ false
      → lookup j (update_entry before k f l) ≡ lookup j l
  unfolding lookup update_entry
  lookup-update_entry_ne k j f [] h = rw h refl
  lookup-update_entry_ne k j f ((i, s) ∷ l) h =
      ground (arith, eq_iff i k, eq_iff i j, eq_iff k j, lookup-update_entry_ne k j f l h)

  pub lookup-update_entry :
      (k : String) (v : TopicStatics) (l : List (String × TopicStatics))
      → lookup k (update_entry before k (λ _. v) l) ≡ some v
  unfolding lookup update_entry
  lookup-update_entry k v [] = rw ((eq_iff k k).1 refl) refl
  lookup-update_entry k v ((i, s) ∷ l) =
      ground (arith, eq_iff i k, eq_iff k k, lookup-update_entry k v l)

  read_metadata_property-topic_info :
      (entity : String) (r : TopicRecord)
      → str_eq entity metadata_path ≡ false
      → read_metadata_property (topic_info entity r) ≡ ok none
  unfolding read_metadata_property topic_info
  read_metadata_property-topic_info entity r h = rw h refl

  collect-described :
      (chunk : Chunk) (metadata definition : Arrays × ℕ) (found : List (String × TopicStatics))
      (yaml : Option String)
      → read_metadata_property chunk ≡ ok none
      → struct_row chunk metadata_component ≡ some metadata
      → struct_row chunk definition_component ≡ some definition
      → collect before chunk (found, yaml)
        ≡ ok (
          update_entry before chunk.entity_path
              (λ s. with_definition (some definition) (with_metadata (some metadata) s))
              found,
          yaml,
        )
  unfolding collect
  collect-described chunk metadata definition found yaml p m d = ground arith

  pub collect-topic_info :
      (entity : String) (r : TopicRecord) (found : List (String × TopicStatics))
      (yaml : Option String)
      → str_eq entity metadata_path ≡ false
      → collect before (topic_info entity r) (found, yaml)
        ≡ ok (update_entry before entity (λ _. recorded r) found, yaml)
  unfolding topic_info struct_row column with_metadata with_definition struct_string struct_bytes
      struct_field utf8_columns lookup
  collect-topic_info entity r found yaml h =
      collect-described (topic_info entity r) _ _ found yaml
        (read_metadata_property-topic_info entity r h) refl refl
