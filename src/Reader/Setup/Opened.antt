-- ===== src/Reader/Setup/Opened.antt =====
-- `Reader::open`: the reader made of what was found, and what an opened reader is.
use rosbag2_storage_rrd.Reader.Pass.{restart}
use rosbag2_storage_rrd.Index.Build.{FooterAnswers, open_index}
use rosbag2_storage_rrd.Schema.{MessageDecodePlan}
use rosbag2_storage_rrd.Reader.Setup.{
  Found, find, count_topics, add_topics, count_chunk, count_scanned, Counts,
}
use rosbag2_storage_rrd.Reader.Scan.{suffix_minima, ScannedChunk}
use rosbag2_storage_rrd.Reader.{RrdFile, Reader}
use rosbag2_storage_rrd.Reader.Windows.{TopicInfo}
use rosbag2_storage_rrd.Arrow.{i64_min, Bytes}
use rosbag2_storage_rrd.Index.{ChunkRef, time_range, message_count, ChunkIndex, retain}
use rosbag2_storage_rrd.Base.{
  not, ◌||◌, ◌>>=◌, length, replicate, ltb, ℕ, no_recording, undescribed_data, Bool, Result, List,
  Option, String, true, false, some, none, ok, err, [],
}

-- The shape of a recording: what its topics are, and what its chunks hold.
pub record Shape : Type 0 where
  pub index : Option ChunkIndex
  pub topics : List TopicInfo
  pub topic_index : List (String × ℕ)
  pub counts : Counts
  pub message_count : ℕ
  pub time_range : Option (ℕ × ℕ)
  pub earliest_remaining : List ℕ

abbrev pub no_counts : List TopicInfo → Counts
no_counts topics = record {
  counts = replicate (length topics) 0;
  re_encodes = replicate (length topics) false;
}

-- The closure that `retain` is given.
abbrev pub keeps_chunk : List TopicInfo → List (String × ℕ) → ChunkRef → Counts → Bool × Counts
keeps_chunk topics topic_index chunk c =
    count_chunk topics topic_index chunk.entity chunk.components chunk.num_rows c

unfoldable pub shape_of :
    Option ChunkIndex → List ScannedChunk → List TopicInfo → List (String × ℕ) → Shape
unfolding retain message_count time_range count_scanned suffix_minima count_chunk
shape_of (some ix) scanned topics topic_index =
    let kept = retain (keeps_chunk topics topic_index) ix (no_counts topics) in
    record {
      index = some kept.0;
      topics = topics;
      topic_index = topic_index;
      counts = kept.1;
      message_count = message_count kept.0;
      time_range = time_range kept.0;
      earliest_remaining = [];
    }
shape_of none scanned topics topic_index =
    let tally =
      count_scanned topics topic_index scanned
        (record { counts = no_counts topics; message_count = 0; time_range = none }) in
    record {
      index = none;
      topics = topics;
      topic_index = topic_index;
      counts = tally.counts;
      message_count = tally.message_count;
      time_range = tally.time_range;
      earliest_remaining = suffix_minima scanned;
    }

-- Whether there is data on any timeline.
unfoldable pub holds_data : Option ChunkIndex → List ScannedChunk → Bool
holds_data none scanned = ltb 0 (length scanned)
holds_data (some ix) scanned = ltb 0 ix.temporal_chunks

-- The reader before its first `restart`.
unfoldable pub reader_over : Shape → List TopicInfo → Option String → String → Reader
reader_over shape topics metadata_yaml recording_id = record {
  index = shape.index;
  at_chunk = 0;
  source = none;
  topics = topics;
  topic_index = shape.topic_index;
  window = [];
  position = i64_min;
  filter = [];
  cursor = none;
  metadata_yaml = metadata_yaml;
  recording_id = recording_id;
  message_count = shape.message_count;
  time_range = shape.time_range;
  earliest_remaining = shape.earliest_remaining;
  next_chunk = 0;
  is_reverse = false;
  last_message = none;
}

abbrev pub required : Option String → Result String
required none = err no_recording
required (some id) = ok id

abbrev pub described : Bool → Result (Unit {0})
described true = ok tt
described false = err undescribed_data

abbrev pub started : Result (Unit {0}) × Reader → Result Reader
started (ok x, r) = ok r
started (err e, r) = err e

module _ (archetype : String → Result String) (before : String → String → Bool)
    (from_utf8 : Bytes → Result String) (parse_plan : String → String → Result MessageDecodePlan)
    (file : RrdFile) where
  -- The reader over what was found.
  unfoldable pub open_found : Option ChunkIndex → Found → Result Reader
  unfolding holds_data add_topics shape_of count_topics reader_over restart
  open_found index f = do
    recording_id ← required f.recording_id
    checked ← described (ltb 0 (length f.statics) || not (holds_data index f.scanned))
    let topics = add_topics archetype f.statics [] []
    let shape = shape_of index f.scanned topics.0 topics.1
    started (
        restart file (
          reader_over shape (count_topics from_utf8 parse_plan shape.counts 0 shape.topics)
            f.metadata_yaml recording_id))

  unfoldable pub open_reader : FooterAnswers → Result Reader
  unfolding open_index find open_found
  open_reader answers = do
    index ← open_index answers
    found ← find before file index
    open_found index found
