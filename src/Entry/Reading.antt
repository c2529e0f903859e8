-- ===== src/Entry/Reading.antt =====
-- The reader's entry points of lib.rs. The file system's answers for a path are `file_at` and
-- `footer_at`; of an open reader's file, `file`. A handle is its reader, none if it is null.
use rosbag2_storage_rrd.Base.{
  no_topic, ◌==◌, get_elem?, length, not, Option, ℕ, Bool, Result, String, some, none, ok, err,
}
use rosbag2_storage_rrd.Arrow.{Bytes, i64_zero}
use rosbag2_storage_rrd.Entry.{
  Answer, Host, Outcome, Text, answer, on_handle, plain, text, with_argument, with_out,
}
use rosbag2_storage_rrd.Entry.Names.{topic_names}
use rosbag2_storage_rrd.Ffi.{Slot, Status, failure, success}
use rosbag2_storage_rrd.Index.Build.{FooterAnswers}
use rosbag2_storage_rrd.Reader.{Message, Reader, RrdFile}
use rosbag2_storage_rrd.Reader.Windows.{TopicInfo}
use rosbag2_storage_rrd.Reader.Pass.{set_reverse}
use rosbag2_storage_rrd.Reader.Seek.{read_next_borrowed, seek, set_filter}
use rosbag2_storage_rrd.Reader.Setup.Opened.{open_reader}
use rosbag2_storage_rrd.Replay.{CdrWriter}
use rosbag2_storage_rrd.Schema.{MessageDecodePlan}

-- A borrowed string is its text, `EMPTY` the empty one; a pointer to bytes is the bytes.
pub record RrdTopic : Type 0 where
  pub name : String
  pub type_name : String
  pub schema_encoding : String
  pub schema_text : Bytes
  pub qos_profiles : String
  pub type_hash : String
  pub message_count : ℕ

pub record RrdMessage : Type 0 where
  pub topic : String
  pub bytes : Bytes
  pub recv_timestamp_ns : ℕ
  pub send_timestamp_ns : ℕ

-- The first and last receive time, and the number of messages.
pub record RrdRange : Type 0 where
  pub start_ns : ℕ
  pub end_ns : ℕ
  pub message_count : ℕ

unfoldable pub shown_topic : TopicInfo → RrdTopic
shown_topic info = record {
  name = info.name;
  type_name = info.type_name;
  schema_encoding = info.schema_encoding;
  schema_text = info.schema_text;
  qos_profiles = info.qos_profiles;
  type_hash = info.type_hash;
  message_count = info.message_count;
}

unfoldable pub shown_message : Message → RrdMessage
shown_message m = record {
  topic = m.topic_name;
  bytes = m.bytes;
  recv_timestamp_ns = m.recv_timestamp;
  send_timestamp_ns = m.send_timestamp;
}

unfoldable pub shown_range : Reader → RrdRange
shown_range r = record {
  start_ns = elim r.time_range [ none ↦ i64_zero | some range ↦ range.0 ];
  end_ns = elim r.time_range [ none ↦ i64_zero | some range ↦ range.1 ];
  message_count = r.message_count;
}

-- A call that looks at the reader and leaves it as it is.
abbrev pub look : {O : Type 0} → (Reader → Outcome O) → Reader → Outcome O × Reader
look f r = (f r, r)

-- 1 for a message, 0 at the end of the recording, -1 on failure.
pub data NextStatus : Type 0 where
  one zero minus_one : NextStatus

abbrev pub next_status : {O : Type 0} → Status → Option O → NextStatus
next_status failure written = minus_one
next_status success none = zero
next_status success (some message) = one

-- The message behind a read that found one.
abbrev pub shown : Result (Option Message) × Reader → Outcome RrdMessage × Reader
shown (err e, r) = (err e, r)
shown (ok none, r) = (ok none, r)
shown (ok (some m), r) = (ok (some (shown_message m)), r)

module _ (host : Host) where
  module _ (archetype : String → Result String) (before : String → String → Bool)
      (parse_plan : String → String → Result MessageDecodePlan) (file_at : String → RrdFile)
      (footer_at : String → FooterAnswers) where
    -- The opened reader is what is written through the out pointer.
    unfoldable pub rrd_reader_open : Bool → Text → Slot → Answer Reader Reader
    unfolding answer text open_reader
    rrd_reader_open out path slot = answer host "rrd_reader_open" slot (
        with_out "null out_reader" out none (
          with_argument none (text host path) λ p.
            with_argument none
              (open_reader archetype before host.from_utf8 parse_plan (file_at p) (footer_at p))
              λ r. (ok (some r), none)))

  unfoldable pub rrd_reader_topic_count : Option Reader → ℕ
  rrd_reader_topic_count none = 0
  rrd_reader_topic_count (some r) = length r.topics

  unfoldable pub topic_shown : ℕ → Reader → Outcome RrdTopic
  unfolding shown_topic
  topic_shown index r = elim (get_elem? r.topics index) [
    | none ↦ err (no_topic index)
    | some info ↦ ok (some (shown_topic info))
  ]

  unfoldable pub rrd_reader_topic : Bool → ℕ → Slot → Option Reader → Answer Reader RrdTopic
  unfolding answer on_handle topic_shown
  rrd_reader_topic out index slot handle = answer host "rrd_reader_topic" slot (
      with_out "null out_topic" out handle
        (on_handle "null reader handle" (look (topic_shown index)) handle))

  unfoldable pub rrd_reader_metadata : Bool → Slot → Option Reader → Answer Reader String
  unfolding answer on_handle
  rrd_reader_metadata out slot handle = answer host "rrd_reader_metadata" slot (
      with_out "null out_yaml" out handle (
        on_handle "null reader handle"
          (look (λ r. ok (some (elim r.metadata_yaml [ none ↦ "" | some yaml ↦ yaml ])))) handle))

  unfoldable pub rrd_reader_recording_id : Bool → Slot → Option Reader → Answer Reader String
  unfolding answer on_handle
  rrd_reader_recording_id out slot handle = answer host "rrd_reader_recording_id" slot (
      with_out "null out_id" out handle
        (on_handle "null reader handle" (look (λ r. ok (some r.recording_id))) handle))

  -- `out` says that none of the three pointers is null.
  unfoldable pub rrd_reader_time_range : Bool → Slot → Option Reader → Answer Reader RrdRange
  unfolding answer on_handle shown_range
  rrd_reader_time_range out slot handle = answer host "rrd_reader_time_range" slot (
      with_out "null out pointer" out handle
        (on_handle "null reader handle" (look (λ r. ok (some (shown_range r)))) handle))

  module _ (file : RrdFile) where
    unfoldable pub rrd_reader_set_filter :
        ℕ → Text → Slot → Option Reader → Answer Reader (Unit {0})
    unfolding answer on_handle text topic_names set_filter
    rrd_reader_set_filter fuel topics slot handle = answer host "rrd_reader_set_filter" slot (
        with_argument handle (text host topics) λ names.
          on_handle "null reader handle" (λ r. plain (set_filter file fuel (topic_names names) r))
            handle)

    -- `reverse` is the bit pattern of an `i32`.
    unfoldable pub rrd_reader_set_reverse : ℕ → Slot → Option Reader → Answer Reader (Unit {0})
    unfolding answer on_handle set_reverse
    rrd_reader_set_reverse reverse slot handle = answer host "rrd_reader_set_reverse" slot (
        on_handle "null reader handle" (λ r. plain (set_reverse file (not (reverse == 0)) r))
          handle)

    unfoldable pub rrd_reader_seek : ℕ → ℕ → Slot → Option Reader → Answer Reader (Unit {0})
    unfolding answer on_handle seek
    rrd_reader_seek fuel timestamp slot handle =
        answer host "rrd_reader_seek" slot
          (on_handle "null reader handle" (λ r. plain (seek file fuel timestamp r)) handle)

    module _ (cdr : CdrWriter) where
      unfoldable pub rrd_reader_next :
          ℕ → Bool → Slot → Option Reader → NextStatus × Answer Reader RrdMessage
      unfolding answer on_handle read_next_borrowed shown_message
      rrd_reader_next fuel out slot handle =
          let a = answer host "rrd_reader_next" slot (
            with_out "null out_message" out handle (
              on_handle "null reader handle" (λ r. shown (read_next_borrowed file cdr fuel r))
                handle)) in
          (next_status a.status a.written, a)
