-- ===== src/Reader/Windows.antt =====
-- `TopicInfo`, `Window` and `load_window` of reader.rs: one chunk in the merge, with a cursor over
-- the rows still to be emitted.
use rosbag2_storage_rrd.Base.{
  ℕ, ◌-◌, String, List, [], reverse, Option, none, some, Bool, true, false, Result, ok, err, ◌>>=◌,
  if◌then◌else◌, get_elem?, get_or, length, not_a_struct,
}
use rosbag2_storage_rrd.Arrow.{Bytes, Array, ListArray, Chunk, struct, lookup, i64_zero}
use rosbag2_storage_rrd.Schema.{MessageDecodePlan}
use rosbag2_storage_rrd.Statics.{column}
use rosbag2_storage_rrd.Columns.{Columns}

pub record TopicInfo : Type 0 where
  pub name : String
  pub type_name : String
  pub schema_encoding : String
  pub schema_text : Bytes
  pub qos_profiles : String
  pub type_hash : String
  pub message_count : ℕ
  pub columns : Columns
  pub plan : Option MessageDecodePlan

pub record ChunkData : Type 0 where
  pub blobs : Option ListArray
  pub messages : Option Array

-- Receive time, then write order.
abbrev pub SortKey : Type 0
SortKey = ℕ × ℕ

pub record Window : Type 0 where
  pub topic : ℕ
  pub recv_timestamps : List ℕ
  pub send_timestamps : List ℕ
  pub sequence_numbers : List ℕ
  pub chunk : ChunkData
  pub next : ℕ
  pub rows_reversed : Bool

unfoldable pub sequence_number : Window → ℕ → ℕ
sequence_number w row = get_or w.sequence_numbers row i64_zero

-- The receive and send time of the next row.
unfoldable pub head : Window → Option (ℕ × ℕ)
head w = elim (get_elem? w.recv_timestamps w.next) [
  | none ↦ none
  | some recv ↦ some (recv, get_or w.send_timestamps w.next recv)
]

-- The sort key of the next row.
unfoldable pub key : Window → Option SortKey
unfolding sequence_number
key w = elim (get_elem? w.recv_timestamps w.next) [
  | none ↦ none
  | some recv ↦ some (recv, sequence_number w w.next)
]

-- Rows are held in file order; reverse playback walks them from the end.
unfoldable pub reversed : Window → Window
reversed w = record w {
  recv_timestamps = reverse w.recv_timestamps;
  send_timestamps = reverse w.send_timestamps;
  sequence_numbers = reverse w.sequence_numbers;
  rows_reversed = true;
}

-- The row of the chunk's data for a position of the cursor.
unfoldable pub data_row : Window → ℕ → ℕ
data_row w row = if w.rows_reversed then length w.recv_timestamps - 1 - row else row

unfoldable pub times : Chunk → String → Option (List ℕ)
unfolding lookup
times chunk name = lookup name chunk.timelines

abbrev pub or_default {ℓ} : {A : Type ℓ} → A → Option A → A
or_default d none = d
or_default d (some a) = a

-- The struct array under the rows of a list array.
abbrev as_structs : ListArray → Result Array
as_structs l = elim l.values [
  | struct rows columns ↦ ok (struct rows columns)
  | _ ↦ err not_a_struct
]

-- The struct column of a chunk, if the topic has one and the chunk carries it.
unfoldable pub struct_column : Chunk → Columns → Result (Option Array)
unfolding column
struct_column chunk columns = elim columns.reflected [
  | none ↦ ok none
  | some reflected ↦ elim (column chunk reflected) [
    | none ↦ ok none
    | some l ↦ do structs ← as_structs l; ok (some structs)
  ]
]

-- A window over the rows of a chunk whose message columns are given.
unfoldable pub window_over : Chunk → ℕ → ChunkData → Window
unfolding times
window_over chunk topic columns =
    let recv = or_default [] (times chunk "recv_timestamp") in
    record {
      topic = topic;
      recv_timestamps = recv;
      send_timestamps = or_default recv (times chunk "send_timestamp");
      sequence_numbers = or_default [] (times chunk "sequence_number");
      chunk = columns;
      next = 0;
      rows_reversed = false;
    }

-- Neither column: lens output, which holds no messages.
abbrev pub holds_nothing : ChunkData → Bool
holds_nothing d = elim d.blobs [
  | some l ↦ false
  | none ↦ elim d.messages [ none ↦ true | some a ↦ false ]
]

unfoldable pub load_window : Chunk → ℕ → TopicInfo → Result (Option Window)
unfolding struct_column window_over
load_window chunk topic info = do
  messages ← struct_column chunk info.columns
  let columns : ChunkData = record { blobs = column chunk info.columns.raw; messages = messages }
  ok (if holds_nothing columns then none else some (window_over chunk topic columns))
