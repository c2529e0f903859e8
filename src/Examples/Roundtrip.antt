-- ===== src/Examples/Roundtrip.antt =====
-- Three messages recorded as two chunks whose times interleave, and read back newest first.
use rosbag2_storage_rrd.Reader.Pass.{set_reverse}
use rosbag2_storage_rrd.Reader.Merge.Drain.{drain}
use rosbag2_storage_rrd.Recorded.Rows.{in_direction}
use rosbag2_storage_rrd.Recorded.Loads.{Replays}
use rosbag2_storage_rrd.Statics.{column}
use rosbag2_storage_rrd.Reader.Windows.{times}
use rosbag2_storage_rrd.Recorded.Taken.{Shows}
use rosbag2_storage_rrd.Reader.Merge.{settings}
use rosbag2_storage_rrd.Recorded.Pushes.{push_entries}
use rosbag2_storage_rrd.Pipeline.{time_columns, no_rows}
use rosbag2_storage_rrd.Index.{ChunkRef}
use rosbag2_storage_rrd.Arrow.{ListArray, Bytes, Chunk, lookup}
use rosbag2_storage_rrd.Reader.{wanted, Reader, RrdFile}
use rosbag2_storage_rrd.Pipeline.Flow.{take_chunk, MessageChunk, Pipeline}
use rosbag2_storage_rrd.Base.{
  ok_inj, subst, ◌≡◌, some, map, ◌==◌, String, Result, ◌+◌, if◌then◌else◌, Option, ℕ, List, true,
  false, none, ok, refl, inl, arith, [], ◌∷◌,
}
use rosbag2_storage_rrd.Examples.Reading.{index_of_two-IsOrdered, index_of_two, no_cdr, reader_of}
use rosbag2_storage_rrd.Examples.Writing.{nonempty_decoder}
use rosbag2_storage_rrd.Recorded.{Entry}
use rosbag2_storage_rrd.Recorded.Taken.{blob_list}
use rosbag2_storage_rrd.Reader.Windows.{struct_column}
use rosbag2_storage_rrd.Recorded.Turned.{set_reverse-GivesBack}
use rosbag2_storage_rrd.Recorded.Replayed.{
  drain-GivesBack, take_chunk-Replays, GivesBack, Batch, Showing,
}
use rosbag2_storage_rrd.Columns.{raw_component}
use rosbag2_storage_rrd.Pipeline.Column.{blob_array}

abbrev components_of : Option (List (Option Bytes)) → List (String × ListArray)
components_of none = []
components_of (some blobs) = (raw_component, blob_array blobs) ∷ []

-- A chunk with the timelines and the blobs that it is built of.
abbrev chunk_of : MessageChunk ℕ → Chunk
chunk_of made = record {
  entity_path = made.entity;
  is_static = false;
  num_rows = 0;
  timelines = made.timelines;
  components = components_of made.blob;
}

abbrev build : MessageChunk ℕ → Result Chunk
build made = ok (chunk_of made)

build-Showing : Showing build
build-Showing made chunk e = subst (Shows made) (ok_inj e) (shows made.blob)
  where
    column_of :
        (o : Option (List (Option Bytes)))
        → column (chunk_of (record made { blob = o })) raw_component ≡ blob_list o
    column_of none = unfold column lookup in refl
    column_of (some blobs) = unfold column lookup in refl

    shows :
        (o : Option (List (Option Bytes)))
        → Shows (record made { blob = o }) (chunk_of (record made { blob = o }))
    shows o = record {
      entity = refl;
      timelines = λ name. unfold times in refl;
      blobs = column_of o;
    }

abbrev entry : ℕ → ℕ → ℕ → Entry
entry time number byte = record {
  message = byte ∷ [];
  recv = time;
  send = time + 1;
  sequence = number;
}

abbrev first_entries : List Entry
first_entries = entry 10 0 7 ∷ entry 30 2 9 ∷ []

abbrev second_entries : List Entry
second_entries = entry 20 1 8 ∷ []

abbrev empty_pipeline : Pipeline nonempty_decoder
empty_pipeline = record {
  entity = "/a";
  keep_raw = true;
  reflection = none;
  rows = no_rows;
  lenses = none;
  stored_as = record { has_raw = true; has_reflected = false; has_lenses = false };
  bytes = 0;
}

abbrev recorded_chunk : List Entry → Chunk
recorded_chunk entries = chunk_of (record {
  entity = "/a";
  timelines =
      ("recv_timestamp", map (λ (e : Entry). e.recv) entries)
      ∷ ("send_timestamp", map (λ (e : Entry). e.send) entries)
      ∷ ("sequence_number", map (λ (e : Entry). e.sequence) entries)
      ∷ [];
  blob = some (map (λ (e : Entry). some e.message) entries);
  structs = none;
})

abbrev recorded_file : RrdFile
recorded_file = record {
  opened = ok tt;
  decoded = ok [];
  read_chunks = λ ids. elim ids [
    | [] ↦ ok []
    | id ∷ rest ↦
        if id == 1
        then ok (recorded_chunk first_entries ∷ [])
        else ok (recorded_chunk second_entries ∷ [])
  ];
}

abbrev newest_first : Reader
newest_first = settings (reader_of true)

abbrev first_ref : ChunkRef
first_ref = record {
  id = 1;
  entity = "/a";
  num_rows = 2;
  start = 10;
  end = 30;
  components = raw_component ∷ [];
}

abbrev second_ref : ChunkRef
second_ref = record {
  id = 2;
  entity = "/a";
  num_rows = 1;
  start = 20;
  end = 20;
  components = raw_component ∷ [];
}

first_taken :
    (take_chunk nonempty_decoder Chunk build
      (push_entries nonempty_decoder first_entries empty_pipeline)).0
    ≡ ok (some (recorded_chunk first_entries))
unfolding take_chunk push_entries time_columns
first_taken = refl

second_taken :
    (take_chunk nonempty_decoder Chunk build
      (push_entries nonempty_decoder second_entries empty_pipeline)).0
    ≡ ok (some (recorded_chunk second_entries))
unfolding take_chunk push_entries time_columns
second_taken = refl

abbrev first_batch : Batch nonempty_decoder build recorded_file no_cdr newest_first first_ref
unfolding lookup wanted struct_column column
first_batch = record {
  entries = first_entries;
  pipeline = empty_pipeline;
  keeps = refl;
  empty = refl;
  chunk = recorded_chunk first_entries;
  taken = first_taken;
  listed = refl;
  stands = record {
    topic = 0;
    info = _;
    found = refl;
    at = refl;
    replayed = refl;
    rest = [];
    read = refl;
    structs = none;
    decodes = refl;
  };
  column = refl;
  filled = omega arith;
  chronological = ((inl (omega arith), tt), (tt, tt));
  within = (
    (omega arith, omega arith, omega arith, omega arith),
    ((omega arith, omega arith, omega arith, omega arith), tt),
  );
}

abbrev second_batch : Batch nonempty_decoder build recorded_file no_cdr newest_first second_ref
unfolding lookup wanted struct_column column
second_batch = record {
  entries = second_entries;
  pipeline = empty_pipeline;
  keeps = refl;
  empty = refl;
  chunk = recorded_chunk second_entries;
  taken = second_taken;
  listed = refl;
  stands = record {
    topic = 0;
    info = _;
    found = refl;
    at = refl;
    replayed = refl;
    rest = [];
    read = refl;
    structs = none;
    decodes = refl;
  };
  column = refl;
  filled = omega arith;
  chronological = (tt, tt);
  within = ((omega arith, omega arith, omega arith, omega arith), tt);
}

take_chunk-Replays_example :
    Replays recorded_file no_cdr newest_first first_ref "/a" (in_direction true first_entries)
unfolding first_batch
take_chunk-Replays_example =
    take_chunk-Replays nonempty_decoder build recorded_file no_cdr newest_first first_ref
      first_batch build-Showing

drain-GivesBack_example :
    GivesBack nonempty_decoder build recorded_file no_cdr newest_first index_of_two
      (second_batch, (first_batch, tt))
      (drain recorded_file no_cdr 4 newest_first)
unfolding first_batch second_batch
drain-GivesBack_example =
    drain-GivesBack nonempty_decoder build recorded_file no_cdr newest_first index_of_two 4
      newest_first (second_batch, (first_batch, tt)) build-Showing index_of_two-IsOrdered
      (record { same_settings = refl; indexed = refl }) refl refl (omega arith)

-- Forward playback, turned around before it has ended.
abbrev midway : Reader
midway = record (reader_of false) { at_chunk = 1; position = 10; cursor = some (10, 0) }

set_reverse-GivesBack_example :
    ((set_reverse recorded_file true midway).0 ≡ ok tt)
    × GivesBack nonempty_decoder build recorded_file no_cdr newest_first index_of_two
        (second_batch, (first_batch, tt))
        (drain recorded_file no_cdr 4 (set_reverse recorded_file true midway).1)
unfolding first_batch second_batch
set_reverse-GivesBack_example =
    set_reverse-GivesBack nonempty_decoder build recorded_file no_cdr index_of_two true 4 midway
      (second_batch, (first_batch, tt)) refl refl build-Showing index_of_two-IsOrdered (omega arith)
