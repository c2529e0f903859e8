-- ===== src/Entry/Writing.antt =====
-- The writer's entry points of lib.rs. A handle is its writer, none if it is null; what an
-- operation reads off the clock is the argument `now`.
use rosbag2_storage_rrd.Base.{Bool, String, Option, ℕ, ◌>>=◌, List, Result, some, none, ok, err}
use rosbag2_storage_rrd.Arrow.{Bytes, Chunk}
use rosbag2_storage_rrd.Config.{ConfigFile, resolve}
use rosbag2_storage_rrd.Entry.{
  Answer, Host, Outcome, Text, answer, bytes, on_handle, plain, text, with_out,
}
use rosbag2_storage_rrd.Ffi.{Slot, failure, set_last_error}
use rosbag2_storage_rrd.Pipeline.{CdrDecoder, LensSet}
use rosbag2_storage_rrd.Pipeline.Flow.{Applied, MessageChunk, Reflection}
use rosbag2_storage_rrd.Statics.{TopicRecord}
use rosbag2_storage_rrd.Writer.{Recording, Writer, close, remove_topic, set_metadata, write}
use rosbag2_storage_rrd.Writer.Open.{Sdk, declare_topic, open_writer, pipelines}

-- What `create_topic` is passed.
pub record TopicArguments : Type 0 where
  pub topic : Text
  pub type_name : Text
  pub schema_encoding : Text
  pub schema_text : Text
  pub qos_profiles : Text
  pub type_hash : Text

module _ (host : Host) where
  unfoldable pub topic_record : TopicArguments → Result TopicRecord
  unfolding text bytes
  topic_record arguments = do
    topic ← text host arguments.topic
    type_name ← text host arguments.type_name
    schema_encoding ← text host arguments.schema_encoding
    let schema_text = bytes arguments.schema_text.ptr arguments.schema_text.len
    qos_profiles ← text host arguments.qos_profiles
    type_hash ← text host arguments.type_hash
    ok (record {
      topic = topic;
      type_name = type_name;
      schema_encoding = schema_encoding;
      schema_text = schema_text;
      qos_profiles = qos_profiles;
      type_hash = type_hash;
    })

  module _ (cdr : CdrDecoder) {C : Type 0} (build : MessageChunk cdr.Value → Result C)
      (lenses_apply : LensSet → C → List (Applied C)) where
    abbrev pub Handle : Type 0
    Handle = Writer (pipelines cdr build lenses_apply)

    module _ (parse_uri : String → Result String) (parse_yaml : String → Result ConfigFile)
        (sdk : Sdk) (all_lenses : Result (List String)) where
      abbrev opened : Result Handle → Outcome Handle × Option Handle
      opened (ok w) = (ok (some w), none)
      opened (err e) = (err e, none)

      -- The opened writer is what is written through the out pointer.
      unfoldable pub rrd_writer_open : ℕ → Bool → Text → Text → Text → Slot → Answer Handle Handle
      unfolding answer text resolve open_writer
      rrd_writer_open now out path profile config_yaml slot = answer host "rrd_writer_open" slot (
          with_out "null out_writer" out none (
            opened (do
              path_text ← text host path
              profile_text ← text host profile
              yaml ← text host config_yaml
              config ← resolve parse_uri parse_yaml profile_text yaml
              open_writer sdk (pipelines cdr build lenses_apply) all_lenses path_text config now)))

    module _ (entity_path : String → String)
        (reflect : String → String → Bytes → Result (Reflection cdr))
        (build_static : Chunk → Option C) where
      abbrev created : ℕ → Handle → Result TopicRecord → Outcome ℕ × Handle
      created now w (err e) = (err e, w)
      created now w (ok r) =
          let (id, w') =
            declare_topic cdr build lenses_apply entity_path reflect build_static r now w in
          (ok (some id), w')

      -- The texts are read only behind a handle that is not null.
      unfoldable pub rrd_writer_create_topic :
          ℕ → Bool → TopicArguments → Slot → Option Handle → Answer Handle ℕ
      unfolding answer topic_record declare_topic on_handle
      rrd_writer_create_topic now out arguments slot handle =
          answer host "rrd_writer_create_topic" slot (
            with_out "null out_topic" out handle
              (on_handle "null writer handle" (λ w. created now w (topic_record arguments)) handle))

    unfoldable pub rrd_writer_write :
        ℕ → ℕ → Text → ℕ → ℕ → Slot → Option Handle → Answer Handle (Unit {0})
    unfolding answer bytes write on_handle
    rrd_writer_write now topic message recv_timestamp_ns send_timestamp_ns slot handle =
        answer host "rrd_writer_write" slot (
          on_handle "null writer handle"
            (λ w. plain (
              write (pipelines cdr build lenses_apply) now topic (bytes message.ptr message.len)
                recv_timestamp_ns send_timestamp_ns w))
            handle)

    -- An operation of the writer on a text.
    abbrev on_text :
        (String → Handle → Result (Unit {0}) × Handle)
        → Result String
        → Handle
        → Outcome (Unit {0}) × Handle
    on_text f (err e) w = (err e, w)
    on_text f (ok t) w = plain (f t w)

    unfoldable pub rrd_writer_remove_topic :
        ℕ → Text → Slot → Option Handle → Answer Handle (Unit {0})
    unfolding answer text remove_topic on_handle
    rrd_writer_remove_topic now topic slot handle = answer host "rrd_writer_remove_topic" slot (
        on_handle "null writer handle"
          (on_text (remove_topic (pipelines cdr build lenses_apply) now) (text host topic)) handle)

    unfoldable pub rrd_writer_set_metadata : Text → Slot → Option Handle → Answer Handle (Unit {0})
    unfolding answer text set_metadata on_handle
    rrd_writer_set_metadata yaml slot handle = answer host "rrd_writer_set_metadata" slot (
        on_handle "null writer handle"
          (on_text (λ t w. (ok tt, set_metadata (pipelines cdr build lenses_apply) t w))
            (text host yaml))
          handle)

    abbrev closed : Result (Unit {0}) × Recording C → Outcome (Unit {0}) × Option (Recording C)
    closed (ok x, rec) = (ok none, some rec)
    closed (err e, rec) = (err e, some rec)

    -- The handle is consumed; what is left is the recording, if there was one.
    unfoldable pub rrd_writer_close :
        (String → Option C × Option C)
        → Result (Unit {0})
        → ℕ
        → Slot
        → Option Handle
        → Answer (Recording C) (Unit {0})
    unfolding answer close on_handle set_last_error
    rrd_writer_close property file_flush now slot none = record {
      status = failure;
      slot = set_last_error (host.to_utf8 "rrd_writer_close called with a null writer handle") slot;
      handle = none;
      written = none;
    }
    rrd_writer_close property file_flush now slot (some w) =
        answer host "rrd_writer_close" slot
          (closed (close (pipelines cdr build lenses_apply) property file_flush now w))
