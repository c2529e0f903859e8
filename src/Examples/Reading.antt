-- ===== src/Examples/Reading.antt =====
-- A recording of one topic in two chunks of raw messages, whose times interleave: the first holds
-- the messages at 10 and 30, the second the one at 20.
use rosbag2_storage_rrd.Reader.Scan.{suffix_minima-le, scan_chunk, suffix_minima}
use rosbag2_storage_rrd.Index.Range.{IsSpan, time_range-IsSpan}
use rosbag2_storage_rrd.Index.Build.{from_manifest}
use rosbag2_storage_rrd.Statics.{TopicRecord, topic_info, blob_at}
use rosbag2_storage_rrd.Index.Ordered.{from_manifest-IsOrdered, retain-IsOrdered}
use rosbag2_storage_rrd.Reader.Steps.{load_oriented, load_first, payload, message_at}
use rosbag2_storage_rrd.Reader.Pass.{load_ref, read_next, fill}
use rosbag2_storage_rrd.Index.Bounds.{ends-le-prefix_max, IsOrdered}
use rosbag2_storage_rrd.Reader.Windows.{
  times, window_over, struct_column, load_window, data_row, sequence_number, Window,
}
use rosbag2_storage_rrd.Reader.Merge.Delivery.{read_next-Delivers, Delivers}
use rosbag2_storage_rrd.Reader.Merge.{
  Loads, IsLive, row_at, rows_from, rows_of, settings, rows_unread, rows,
}
use rosbag2_storage_rrd.Reader.Merge.Fill.{fill-Filled, IsReady, Filled}
use rosbag2_storage_rrd.Reader.Merge.Drain.{drain-Drained, Drained, drain}
use rosbag2_storage_rrd.Columns.{raw_component}
use rosbag2_storage_rrd.Replay.{CdrWriter}
use rosbag2_storage_rrd.Reader.{wanted, Reader, RrdFile}
use rosbag2_storage_rrd.Index.{time_range, Manifest, ChunkRef, retain, running_max, ChunkIndex}
use rosbag2_storage_rrd.Base.{
  ◌⊎◌, true, ◌≡◌, reverse, drop, ◌-◌, ◌+◌, get_or, ◌≤◌, All, refl, inl, inr, arith, length, ◌==◌,
  if◌then◌else◌, ℕ, ◌∷◌, Bool, List, false, some, none, ok, [],
}
use rosbag2_storage_rrd.Arrow.{i64_max, lookup, numbers, list, ListArray, Chunk, NumberType}

abbrev blobs_of : List ℕ → ListArray
blobs_of bytes = record {
  rows = some (0, 1) ∷ some (1, 1) ∷ [];
  values = list ((0, 1) ∷ (1, 1) ∷ []) (numbers NumberType.uint8 bytes);
}

abbrev chunk_with : List ℕ → List ℕ → List ℕ → Chunk
chunk_with recv sequence bytes = record {
  entity_path = "/a";
  is_static = false;
  num_rows = length recv;
  timelines = ("recv_timestamp", recv) ∷ ("sequence_number", sequence) ∷ [];
  components = (raw_component, blobs_of bytes) ∷ [];
}

abbrev pub topic_a : TopicRecord
topic_a = record {
  topic = "/a";
  type_name = "t";
  schema_encoding = "ros2msg";
  schema_text = [];
  qos_profiles = "";
  type_hash = "";
}

abbrev pub two_chunks : RrdFile
two_chunks = record {
  opened = ok tt;
  decoded = ok [];
  read_chunks = λ ids. elim ids [
    | [] ↦ ok []
    | id ∷ rest ↦
        if id == 1
        then ok (chunk_with (10 ∷ 30 ∷ []) (0 ∷ 2 ∷ []) (7 ∷ 9 ∷ []) ∷ [])
        else if id == 2
        then ok (chunk_with (20 ∷ []) (1 ∷ []) (8 ∷ []) ∷ [])
        else ok (topic_info "/a" topic_a ∷ [])
  ];
}

abbrev pub index_of_two : ChunkIndex
index_of_two = record {
  recording_id = "bag";
  chunks =
      record {
        id = 1;
        entity = "/a";
        num_rows = 2;
        start = 10;
        end = 30;
        components = raw_component ∷ [];
      }
      ∷ record {
        id = 2;
        entity = "/a";
        num_rows = 1;
        start = 20;
        end = 20;
        components = raw_component ∷ [];
      }
      ∷ [];
  temporal_chunks = 2;
  max_end_through = 30 ∷ 30 ∷ [];
  statics = 3 ∷ [];
}

abbrev pub no_cdr : CdrWriter
no_cdr = record {
  write_number = λ t n out. out;
  write_string = λ s out. out;
  write_sequence_length = λ n out. out;
}

abbrev pub reader_of : Bool → Reader
reader_of b = record {
  index = some index_of_two;
  at_chunk = 0;
  source = none;
  topics =
      record {
        name = "/a";
        type_name = "t";
        schema_encoding = "ros2msg";
        schema_text = [];
        qos_profiles = "";
        type_hash = "";
        message_count = 3;
        columns = record { raw = raw_component; reflected = some "t:message" };
        plan = none;
      }
      ∷ [];
  topic_index = ("/a", 0) ∷ [];
  window = [];
  position = 0;
  filter = [];
  cursor = none;
  metadata_yaml = none;
  recording_id = "bag";
  message_count = 3;
  time_range = some (10, 30);
  earliest_remaining = [];
  next_chunk = 0;
  is_reverse = b;
  last_message = none;
}

abbrev first_window : Window
first_window = record {
  topic = 0;
  recv_timestamps = 10 ∷ 30 ∷ [];
  send_timestamps = 10 ∷ 30 ∷ [];
  sequence_numbers = 0 ∷ 2 ∷ [];
  chunk = record { blobs = some (blobs_of (7 ∷ 9 ∷ [])); messages = none };
  next = 0;
  rows_reversed = false;
}

abbrev second_window : Window
second_window = record {
  topic = 0;
  recv_timestamps = 20 ∷ [];
  send_timestamps = 20 ∷ [];
  sequence_numbers = 1 ∷ [];
  chunk = record { blobs = some (blobs_of (8 ∷ [])); messages = none };
  next = 0;
  rows_reversed = false;
}

abbrev pub s : Reader
s = settings (reader_of false)

first_window-IsLive : IsLive no_cdr s first_window
unfolding rows rows_from row_at sequence_number message_at payload data_row blob_at wanted
first_window-IsLive = record {
  room = omega arith;
  merged = ((inl (omega arith), tt), (tt, tt));
  timed = ((omega arith, omega arith), ((omega arith, omega arith), tt));
  readable = ((_, refl), ((_, refl), tt));
  info = _;
  topic = refl;
  wanted = refl;
}

second_window-IsLive : IsLive no_cdr s second_window
unfolding rows rows_from row_at sequence_number message_at payload data_row blob_at wanted
second_window-IsLive = record {
  room = omega arith;
  merged = (tt, tt);
  timed = ((omega arith, omega arith), tt);
  readable = ((_, refl), tt);
  info = _;
  topic = refl;
  wanted = refl;
}

pub first_chunk-Loads : Loads two_chunks no_cdr s (record {
  id = 1;
  entity = "/a";
  num_rows = 2;
  start = 10;
  end = 30;
  components = raw_component ∷ [];
})
unfolding rows rows_from row_at sequence_number load_ref lookup wanted load_first load_oriented
    load_window struct_column window_over times
first_chunk-Loads = inr (
  first_window,
  refl,
  first_window-IsLive,
  ((omega arith, omega arith), ((omega arith, omega arith), tt)),
)

pub second_chunk-Loads : Loads two_chunks no_cdr s (record {
  id = 2;
  entity = "/a";
  num_rows = 1;
  start = 20;
  end = 20;
  components = raw_component ∷ [];
})
unfolding rows rows_from row_at sequence_number load_ref lookup wanted load_first load_oriented
    load_window struct_column window_over times
second_chunk-Loads =
    inr (second_window, refl, second_window-IsLive, ((omega arith, omega arith), tt))

pub index_of_two-IsOrdered : IsOrdered index_of_two
unfolding running_max
index_of_two-IsOrdered = record { by_start = ((omega arith, tt), (tt, tt)); prefix_maxima = refl }

pub reader_of-IsReady : IsReady two_chunks no_cdr s index_of_two (reader_of false)
reader_of-IsReady = record {
  indexed = record { same_settings = refl; indexed = refl };
  live = tt;
  loads = (first_chunk-Loads, (second_chunk-Loads, tt));
}

drain-Drained_example :
    Drained two_chunks no_cdr s index_of_two
      (reader_of false)
      (drain two_chunks no_cdr 4 (reader_of false))
unfolding rows_unread rows_of rows rows_from row_at load_ref lookup wanted load_first load_oriented
    load_window struct_column window_over times
drain-Drained_example =
    drain-Drained two_chunks no_cdr s index_of_two 4 (reader_of false) index_of_two-IsOrdered
      reader_of-IsReady (omega arith)

read_next-Delivers_example :
    Delivers two_chunks no_cdr s index_of_two
      (reader_of false)
      (read_next two_chunks no_cdr 1 (reader_of false))
read_next-Delivers_example =
    read_next-Delivers two_chunks no_cdr s index_of_two index_of_two-IsOrdered 0 (reader_of false)
      reader_of-IsReady

fill-Filled_example :
    Filled two_chunks no_cdr s index_of_two (reader_of false) (fill two_chunks (reader_of false))
fill-Filled_example =
    fill-Filled two_chunks no_cdr s index_of_two index_of_two-IsOrdered (reader_of false)
      reader_of-IsReady

ends-le-prefix_max_example :
    All
      (λ c. c.end ≤ get_or index_of_two.max_end_through (length index_of_two.chunks - 1 - 1) 0)
      (drop 1 (reverse index_of_two.chunks))
ends-le-prefix_max_example =
    ends-le-prefix_max index_of_two 1 0 index_of_two-IsOrdered (omega arith)

retain-IsOrdered_example :
    IsOrdered (retain (λ (c : ChunkRef) (n : ℕ). (n == 0, n + 1)) index_of_two 0).0
retain-IsOrdered_example =
    retain-IsOrdered (λ (c : ChunkRef) (n : ℕ). (n == 0, n + 1)) index_of_two 0
      index_of_two-IsOrdered

abbrev pub manifest_of_two : Manifest
manifest_of_two = record {
  chunk_ids = 2 ∷ 1 ∷ 3 ∷ [];
  entities = "/a" ∷ "/a" ∷ "/a" ∷ [];
  num_rows = 1 ∷ 2 ∷ 1 ∷ [];
  is_static = false ∷ false ∷ true ∷ [];
  temporal_map =
      ((
        "recv_timestamp",
        (
          raw_component,
          record { id = 1; first = 10; last = 30 } ∷ record { id = 2; first = 20; last = 20 } ∷ [],
        )
            ∷ [],
      )
        ∷ [])
      ∷ [];
}

from_manifest-IsOrdered_example : IsOrdered (from_manifest "bag" manifest_of_two)
from_manifest-IsOrdered_example = from_manifest-IsOrdered "bag" manifest_of_two

suffix_minima-le_example :
    (length (suffix_minima (scan_chunk (chunk_with (20 ∷ []) (1 ∷ []) (8 ∷ [])) ∷ [])) ≡ 2)
    × All
        (λ c.
          get_or
            (suffix_minima (scan_chunk (chunk_with (20 ∷ []) (1 ∷ []) (8 ∷ [])) ∷ []))
            0
            i64_max
          ≤ c.earliest)
        (scan_chunk (chunk_with (20 ∷ []) (1 ∷ []) (8 ∷ [])) ∷ [])
suffix_minima-le_example =
    suffix_minima-le (scan_chunk (chunk_with (20 ∷ []) (1 ∷ []) (8 ∷ [])) ∷ []) 0

time_range-IsSpan_example :
    ((time_range index_of_two ≡ none) × (index_of_two.chunks ≡ []))
    ⊎ ((range : ℕ × ℕ) × (time_range index_of_two ≡ some range) × IsSpan index_of_two.chunks range)
time_range-IsSpan_example = time_range-IsSpan index_of_two index_of_two-IsOrdered
