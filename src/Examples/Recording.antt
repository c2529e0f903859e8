-- ===== src/Examples/Recording.antt =====
-- A recording with a live server: opened, written and taken out of its buffer.
use rosbag2_storage_rrd.Arrow.{i64_zero}
use rosbag2_storage_rrd.Base.{
  ◌↔◌, Result, ◌≡◌, String, out_of_fuel, ◌≢◌, ◌∷◌, List, ℕ, true, false, some, none, ok, err, refl,
  arith, [],
}
use rosbag2_storage_rrd.Config.{RecordingConfig}
use rosbag2_storage_rrd.Examples.Writing.{
  layer_config, nonempty_decoder, plain_buffer, struct_pipeline,
}
use rosbag2_storage_rrd.Pipeline.{Rows, drop_unmatched}
use rosbag2_storage_rrd.Pipeline.Flow.{MessageChunk, Pipeline}
use rosbag2_storage_rrd.Writer.{
  SinkState, Writer, connect, connected, connecting, create_topic, write,
}
use rosbag2_storage_rrd.Writer.Connect.{Connects, connect-Connects}
use rosbag2_storage_rrd.Writer.Open.{Sdk}

-- The server answers after a while.
abbrev answers : List (SinkState × ℕ)
answers = (connecting, 0) ∷ (connected, 50000000) ∷ (connected, 5000000000) ∷ []

connect-Connects_example :
    (connect answers ≢ err out_of_fuel) × ((connect answers ≡ ok tt) ↔ Connects answers)
connect-Connects_example = connect-Connects answers 2 connected 5000000000 refl (omega arith)

abbrev pub sdk : Sdk
sdk = record {
  random_id = "random";
  save = λ settings path. true;
  statuses = λ uri. answers;
  set_sinks = λ settings uri. true;
}

abbrev pub live_config : RecordingConfig
live_config = record layer_config { server_uri = some "rerun+http://localhost" }

abbrev opened_writer : Writer plain_buffer
opened_writer = record {
  rec = record { file = []; live = some [] };
  config = live_config;
  lenses = some (record { mode = drop_unmatched; inputs = []; keeps_unmatched = false });
  topics = [];
  topic_ids = [];
  next_sequence = i64_zero;
  last_sweep = 0;
  metadata_yaml = none;
}

abbrev declared : Writer plain_buffer
declared = (create_topic plain_buffer "/a" "/a" [] (some (5 ∷ [])) 0 opened_writer).1

abbrev written_once : Writer plain_buffer
written_once = (write plain_buffer 1 0 (7 ∷ []) 10 10 declared).1

-- One decoded message is buffered.
abbrev one_decoded : Rows
one_decoded = record {
  times = record { recv = 10 ∷ []; send = 10 ∷ []; sequence = 0 ∷ [] };
  blobs = none ∷ [];
  blob_rows = 0;
  decoded = true ∷ [];
}

abbrev one_buffered : Pipeline nonempty_decoder
one_buffered = record struct_pipeline {
  rows = one_decoded;
  reflection = some (record { decoder = 7 ∷ []; component = "t:message" });
  bytes = 1;
}

abbrev build : MessageChunk ℕ → Result String
build chunk = ok chunk.entity
