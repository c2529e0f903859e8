-- ===== src/Writer/Open.antt =====
-- `Writer::open` of writer.rs and `Topic::new` of record.rs: the streams of a recording, and what a
-- topic is made of. What the SDK does for the streams is the parameter `sdk`, which lenses the
-- crate re_lenses has is `all_lenses`.
use rosbag2_storage_rrd.Arrow.{i64_zero}
use rosbag2_storage_rrd.Base.{
  stream_failed, open_failed, List, ◌>>=◌, Error, Result, String, ℕ, Bool, Option, true, false,
  some, none, ok, err, [],
}
use rosbag2_storage_rrd.Arrow.{Bytes, Chunk}
use rosbag2_storage_rrd.Config.{RecordingConfig}
use rosbag2_storage_rrd.Pipeline.{CdrDecoder, LensSet, lenses_for}
use rosbag2_storage_rrd.Pipeline.Flow
use rosbag2_storage_rrd.Pipeline.Flow.{
  Applied, MessageChunk, Pipeline, Reflection, flush_rows, len, push,
}
use rosbag2_storage_rrd.Statics.{TopicRecord, topic_info}
use rosbag2_storage_rrd.Writer.{Buffer, Recording, SinkState, Writer, connect, create_topic}

-- What both streams of a recording are built with: the batcher's tick, in nanoseconds, and the id.
pub record StreamSettings : Type 0 where
  pub flush_tick : ℕ
  pub recording_id : String

-- The SDK: a random id, whether a file and a sink can be opened with the settings, and the statuses
-- that a server's sink answers, each with the time since the first.
pub record Sdk : Type 0 where
  pub random_id : String
  pub save : StreamSettings → String → Bool
  pub statuses : String → List (SinkState × ℕ)
  pub set_sinks : StreamSettings → String → Bool

abbrev pub ensure : Bool → Error → Result (Unit {0})
ensure true e = ok tt
ensure false e = err e

module _ (sdk : Sdk) where
  -- The id is chosen here, so that both streams share it.
  unfoldable pub stream_settings : RecordingConfig → StreamSettings
  stream_settings config = record {
    flush_tick = elim config.flush.max_latency [ none ↦ 200000000 | some latency ↦ latency ];
    recording_id = elim config.recording_id [ none ↦ sdk.random_id | some id ↦ id ];
  }

  unfoldable pub open_live :
      {C : Type 0} → StreamSettings → Option String → Result (Option (List C))
  unfolding connect
  open_live settings none = ok none
  open_live settings (some uri) = do
    connected ← connect (sdk.statuses uri)
    streaming ← ensure (sdk.set_sinks settings uri) stream_failed
    ok (some [])

  -- The file's stream, and the server's if the configuration names one.
  unfoldable pub open_recording : {C : Type 0} → String → RecordingConfig → Result (Recording C)
  unfolding stream_settings open_live
  open_recording path config = do
    saved ← ensure (sdk.save (stream_settings config) path) open_failed
    live ← open_live (stream_settings config) config.server_uri
    ok (record { file = []; live = live })

  unfoldable pub open_writer :
      {C : Type 0} (buffer : Buffer C)
      → Result (List String)
      → String
      → RecordingConfig
      → ℕ
      → Result (Writer buffer)
  unfolding open_recording lenses_for
  open_writer buffer all_lenses path config now = do
    set_ ← lenses_for all_lenses config.representations config.unmatched
    rec ← open_recording path config
    ok (record {
      rec = rec;
      config = config;
      lenses = set_;
      topics = [];
      topic_ids = [];
      next_sequence = i64_zero;
      last_sweep = now;
      metadata_yaml = none;
    })

module _ (cdr : CdrDecoder) {C : Type 0} (build : MessageChunk cdr.Value → Result C)
    (lenses_apply : LensSet → C → List (Applied C)) where
  -- A topic's buffer is its pipeline.
  abbrev pub pipelines : Buffer C
  pipelines = record {
    State = Pipeline cdr;
    len = len cdr;
    bytes = λ p. p.bytes;
    push = push cdr;
    flush = flush_rows cdr C build lenses_apply;
  }

  module _ (entity_path : String → String)
      (reflect : String → String → Bytes → Result (Reflection cdr))
      (build_static : Chunk → Option C) where
    -- `create_topic` with the topic as `Topic::new` makes it. `entity_path` is the entity of a topic's
    -- name; a static chunk that cannot be built is logged.
    unfoldable pub declare_topic : TopicRecord → ℕ → Writer pipelines → ℕ × Writer pipelines
    unfolding create_topic topic_info
    declare_topic r now w =
        create_topic pipelines r.topic (entity_path r.topic)
          (Flow.new cdr (entity_path r.topic) w.config.representations
            (reflect r.type_name r.schema_encoding r.schema_text) w.lenses)
          (build_static (topic_info (entity_path r.topic) r)) now w
