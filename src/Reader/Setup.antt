-- ===== src/Reader/Setup.antt =====
-- `Reader::open` of reader.rs: learning a file's topics, counts and times without its messages. What
-- `ArchetypeName::try_new` makes of a name, UTF-8, the `.msg` parser with the decode plan, and the
-- order of a map's keys are parameters.
pub mod Topics
pub mod Opened
pub mod Indexed
pub mod Recorded
use rosbag2_storage_rrd.Config.{is_blank}
use rosbag2_storage_rrd.Schema.{MessageDecodePlan}
use rosbag2_storage_rrd.Columns.{for_type, holds_structs, holds_messages}
use rosbag2_storage_rrd.Statics.{collect, TopicStatics}
use rosbag2_storage_rrd.Arrow.{Chunk, lookup, Bytes}
use rosbag2_storage_rrd.Reader.{
  load, chunk_of, ChunkIndex, RrdFile, other_msg, arrow_msg, TopicInfo, LogMsg,
}
use rosbag2_storage_rrd.Reader.Scan.{scan_chunk, ScannedChunk}
use rosbag2_storage_rrd.Base.{
  ◌||◌, set, ◌>>=◌, length, get_elem?, get_or, if◌then◌else◌, ◌++◌, max, ◌∷◌, ◌+◌, Result, Bool,
  min, ℕ, String, Option, List, true, false, some, none, ok, err, [],
}

module _ (archetype : String → Result String) where
  abbrev pub or_empty : Option String → String
  or_empty none = ""
  or_empty (some text) = text

  abbrev pub or_no_bytes : Option Bytes → Bytes
  or_no_bytes none = []
  or_no_bytes (some bytes) = bytes

  -- What was found on an entity as a topic, if it is one.
  unfoldable pub topic_info : TopicStatics → Option TopicInfo
  unfolding for_type
  topic_info statics = elim statics.topic [
    | none ↦ none
    | some name ↦ some (record {
      name = name;
      type_name = or_empty statics.type_name;
      schema_encoding = or_empty statics.schema_encoding;
      schema_text = or_no_bytes statics.schema_text;
      qos_profiles = or_empty statics.qos_profiles;
      type_hash = or_empty statics.type_hash;
      message_count = 0;
      columns = for_type archetype (or_empty statics.type_name);
      plan = none;
    })
  ]

  -- The topics, in the order of their entities, and the place of each.
  unfoldable pub add_topics :
      List (String × TopicStatics)
      → List TopicInfo
      → List (String × ℕ)
      → List TopicInfo × List (String × ℕ)
  unfolding topic_info
  add_topics [] topics topic_index = (topics, topic_index)
  add_topics ((entity, statics) ∷ rest) topics topic_index = elim (topic_info statics) [
    | none ↦ add_topics rest topics topic_index
    | some info ↦
        add_topics rest (topics ++ info ∷ []) (topic_index ++ (entity, length topics) ∷ [])
  ]

-- The messages counted on each topic, and whether some are structs.
pub record Counts : Type 0 where
  pub counts : List ℕ
  pub re_encodes : List Bool

-- The topic on an entity. A place behind the topics would be a panic; `Topics` shows there is none.
unfoldable pub topic_on : List TopicInfo → List (String × ℕ) → String → Option (ℕ × TopicInfo)
unfolding lookup
topic_on topics topic_index entity = elim (lookup entity topic_index) [
  | none ↦ none
  | some topic ↦ elim (get_elem? topics topic) [ none ↦ none | some info ↦ some (topic, info) ]
]

unfoldable pub count_on : List String → ℕ → Counts → Option (ℕ × TopicInfo) → Bool × Counts
unfolding holds_messages holds_structs
count_on components rows c none = (false, c)
count_on components rows c (some (topic, info)) =
    if holds_messages info.columns components
    then (
      true,
      record {
        counts = set c.counts topic (get_or c.counts topic 0 + rows);
        re_encodes =
            set c.re_encodes topic
              (get_or c.re_encodes topic false || holds_structs info.columns components);
      },
    )
    else (false, c)

-- Counts the rows of a chunk that holds messages of a topic, and says whether it does.
unfoldable pub count_chunk :
    List TopicInfo → List (String × ℕ) → String → List String → ℕ → Counts → Bool × Counts
unfolding topic_on count_on
count_chunk topics topic_index entity components rows c =
    count_on components rows c (topic_on topics topic_index entity)

abbrev pub joined : Option (ℕ × ℕ) → Option (ℕ × ℕ) → Option (ℕ × ℕ)
joined range none = range
joined none (some (start, end)) = some (start, end)
joined (some (s, e)) (some (start, end)) = some (min s start, max e end)

-- What the loop over the scanned chunks has found.
pub record Tally : Type 0 where
  pub counts : Counts
  pub message_count : ℕ
  pub time_range : Option (ℕ × ℕ)

abbrev pub counted : ScannedChunk → Tally → Bool × Counts → Tally
counted chunk t (false, c) = record t { counts = c }
counted chunk t (true, c) = record {
  counts = c;
  message_count = t.message_count + chunk.num_rows;
  time_range = joined t.time_range chunk.time_range;
}

unfoldable pub count_scanned :
    List TopicInfo → List (String × ℕ) → List ScannedChunk → Tally → Tally
unfolding count_chunk
count_scanned topics topic_index [] t = t
count_scanned topics topic_index (chunk ∷ rest) t = count_scanned topics topic_index rest (
    counted chunk t
      (count_chunk topics topic_index chunk.entity chunk.components chunk.num_rows t.counts))

module _ (from_utf8 : Bytes → Result String)
    (parse_plan : String → String → Result MessageDecodePlan) where
  -- How to re-encode a topic's struct rows, or none if the definition cannot be reflected.
  unfoldable pub decode_plan : String → Bytes → Option MessageDecodePlan
  unfolding is_blank
  decode_plan type_name schema_text = elim (from_utf8 schema_text) [
    | err e ↦ none
    | ok text ↦
        if is_blank text
        then none
        else (elim (parse_plan type_name text) [ err e ↦ none | ok plan ↦ some plan ])
  ]

  abbrev pub counted_topic : Counts → ℕ → TopicInfo → TopicInfo
  counted_topic c topic info = record info {
    message_count = get_or c.counts topic 0;
    plan =
        if get_or c.re_encodes topic false
        then decode_plan info.type_name info.schema_text
        else info.plan;
  }

  -- The topics with their counts, and the plans of those with struct rows.
  unfoldable pub count_topics : Counts → ℕ → List TopicInfo → List TopicInfo
  unfolding decode_plan
  count_topics c topic [] = []
  count_topics c topic (info ∷ rest) = counted_topic c topic info ∷ count_topics c (topic + 1) rest

-- What reading the static chunks, or the whole file, has found.
pub record Found : Type 0 where
  pub statics : List (String × TopicStatics)
  pub metadata_yaml : Option String
  pub scanned : List ScannedChunk
  pub recording_id : Option String

abbrev pub msg_id : LogMsg → String
msg_id (arrow_msg id chunk) = id
msg_id (other_msg id) = id

-- `get_or_insert_with`
abbrev pub first_id : Option String → String → Option String
first_id none id = some id
first_id (some old) id = some old

module _ (before : String → String → Bool) where
  unfoldable pub collect_all :
      List Chunk
      → List (String × TopicStatics) × Option String
      → Result (List (String × TopicStatics) × Option String)
  unfolding collect
  collect_all [] found = ok found
  collect_all (chunk ∷ rest) found = collect before chunk found >>= collect_all rest

  abbrev with_chunk : Option Chunk → Found → Result Found
  with_chunk none f = ok f
  with_chunk (some chunk) f =
      if chunk.is_static
      then (collect before chunk (f.statics, f.metadata_yaml) >>= λ after.
          ok (record f { statics = after.0; metadata_yaml = after.1 }))
      else ok (record f { scanned = f.scanned ++ scan_chunk chunk ∷ [] })

  -- The loop over the messages of a file without a footer.
  unfoldable pub scan_messages : List LogMsg → Found → Result Found
  unfolding collect scan_chunk
  scan_messages [] f = ok f
  scan_messages (msg ∷ rest) f =
      with_chunk (chunk_of msg) (record f { recording_id = first_id f.recording_id (msg_id msg) })
      >>= scan_messages rest

  module _ (file : RrdFile) where
    abbrev nothing_found : Found
    nothing_found = record { statics = []; metadata_yaml = none; scanned = []; recording_id = none }

    -- With a footer only the static chunks are read, without one the whole file.
    unfoldable pub find : Option ChunkIndex → Result Found
    unfolding collect_all scan_messages
    find (some ix) = do
      chunks ← load file ix.statics
      after ← collect_all chunks ([], none)
      ok (record {
        statics = after.0;
        metadata_yaml = after.1;
        scanned = [];
        recording_id = some ix.recording_id;
      })
    find none = do opened ← file.opened; msgs ← file.decoded; scan_messages msgs nothing_found
