-- ===== src/Reader/Setup/Recorded.antt =====
-- From statics.rs to reader.rs: the topic that a recording is opened with is the one that was
-- declared when it was written.
use rosbag2_storage_rrd.Base.{
  ◌≡◌, str_eq, Option, List, Bool, Result, String, false, some, none, refl, ok,
}
use rosbag2_storage_rrd.Arrow.{lookup}
use rosbag2_storage_rrd.Statics
use rosbag2_storage_rrd.Statics.{TopicRecord, TopicStatics, collect, metadata_path, update_entry}
use rosbag2_storage_rrd.Statics.RoundTrip.{
  collect-topic_info, lookup-update_entry, lookup-update_entry_ne, recorded,
}
use rosbag2_storage_rrd.Reader.{TopicInfo}
use rosbag2_storage_rrd.Reader.Setup.{topic_info}
use rosbag2_storage_rrd.Columns.{for_type}

-- The topic that the reader is to show for a record.
abbrev pub described_by : (String → Result String) → TopicRecord → TopicInfo
described_by archetype r = record {
  name = r.topic;
  type_name = r.type_name;
  schema_encoding = r.schema_encoding;
  schema_text = r.schema_text;
  qos_profiles = r.qos_profiles;
  type_hash = r.type_hash;
  message_count = 0;
  columns = for_type archetype r.type_name;
  plan = none;
}

module _ (archetype : String → Result String) (before : String → String → Bool) where
  -- The chunk that `statics::topic_info` makes of a record, on an entity that is not the metadata's,
  -- is collected without failing, as exactly that record: the entity's entry is a topic with the same
  -- name, type, schema, profiles and hash, whatever was found before. The bag metadata and the entry
  -- of any other entity stay as they were.
  pub topic_info-recorded :
      (entity other : String) (r : TopicRecord) (found : List (String × TopicStatics))
      (yaml : Option String)
      → str_eq entity metadata_path ≡ false
      → str_eq entity other ≡ false
      → (after : List (String × TopicStatics) × Option String) × (collect before
            (Statics.topic_info entity r)
            (found, yaml)
          ≡ ok after)
        × ((s : TopicStatics) × (lookup entity after.0 ≡ some s)
            × (topic_info archetype s ≡ some (described_by archetype r)))
        × (lookup other after.0 ≡ lookup other found)
        × (after.1 ≡ yaml)
  unfolding topic_info
  topic_info-recorded entity other r found yaml data_entity distinct = (
    (update_entry before entity (λ _. recorded r) found, yaml),
    collect-topic_info before entity r found yaml data_entity,
    (recorded r, lookup-update_entry before entity (recorded r) found, refl),
    lookup-update_entry_ne before entity other (λ _. recorded r) found distinct,
    refl,
  )
