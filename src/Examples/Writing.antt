-- ===== src/Examples/Writing.antt =====
-- Small inputs to the write path.
use rosbag2_storage_rrd.Pipeline.Stored.{stored_lem}
use rosbag2_storage_rrd.Ffi.{rrd_last_error-fits, rrd_last_error}
use rosbag2_storage_rrd.Config.Valid.{resolve-IsValid, IsValid}
use rosbag2_storage_rrd.Pipeline.Buffer.{push-IsAligned, IsAligned}
use rosbag2_storage_rrd.Pipeline.Scatter.{scatter-weave, unweave}
use rosbag2_storage_rrd.Writer.Streams.{write-Mirrors, Mirrors}
use rosbag2_storage_rrd.Arrow.{Bytes}
use rosbag2_storage_rrd.Pipeline.{
  forward_unmatched, stored, LensSet, matches, decoded, unrecoverable, CdrDecoder, scatter, no_rows,
}
use rosbag2_storage_rrd.Writer.Topics.{create_topic-once, Declares}
use rosbag2_storage_rrd.Base.{take, ◌++◌}
use rosbag2_storage_rrd.Base.{
  ◌≤◌, ◌+◌, Option, map, ◌++◌, length, ℕ, List, ◌≡◌, ◌∷◌, true, false, some, none, ok, refl, arith,
  [],
}
use rosbag2_storage_rrd.Config.{
  iter, reflected, latency, set_server_uri, set_recording_id, contains, is_consistent,
  check_unmatched, set_representations, apply, is_whitespace, is_blank, insert_into, collect_set,
  profile_flush, from_profile, raw, lenses, discard, resolve,
}
use rosbag2_storage_rrd.Config.{ConfigFile, RecordingConfig}
use rosbag2_storage_rrd.Pipeline.Flow.{push, Pipeline}
use rosbag2_storage_rrd.Writer.{create_topic, write, Writer, Buffer}

-- `representations: [raw, lenses]`, `unmatched: drop`, `max_latency_ms: 0`
abbrev layer_file : ConfigFile
layer_file = record {
  representations = some (raw ∷ lenses ∷ []);
  unmatched = some discard;
  recording_id = some "bag";
  server_uri = none;
  max_rows = none;
  max_bytes = none;
  max_latency_ms = some 0;
}

abbrev pub layer_config : RecordingConfig
layer_config = record {
  flush = record { max_rows = 64; max_bytes = 8388608; max_latency = none };
  representations = record { has_raw = true; has_reflected = false; has_lenses = true };
  unmatched = discard;
  recording_id = some "bag";
  server_uri = none;
}

resolve-IsValid_example : IsValid layer_config
unfolding resolve from_profile profile_flush collect_set insert_into is_blank is_whitespace apply
    set_representations check_unmatched is_consistent contains set_recording_id set_server_uri
    latency
resolve-IsValid_example =
    resolve-IsValid (λ text. ok text) (λ text. ok layer_file) "" "x" layer_config refl

scatter-weave_example :
    (scatter {V = ℕ} (some 7 ∷ some 9 ∷ []) (true ∷ false ∷ true ∷ [])
      ≡ ok (some 7 ∷ none ∷ some 9 ∷ []))
    × (length {A = Option ℕ} (some 7 ∷ none ∷ some 9 ∷ []) ≡ length (true ∷ false ∷ true ∷ []))
    × (unweave {V = ℕ} (true ∷ false ∷ true ∷ []) (some 7 ∷ none ∷ some 9 ∷ [])
        ≡ some 7 ∷ some 9 ∷ [])
scatter-weave_example = scatter-weave {V = ℕ} (some 7 ∷ some 9 ∷ []) (true ∷ false ∷ true ∷ []) refl

-- A decoder that fails on the empty message.
abbrev pub nonempty_decoder : CdrDecoder
nonempty_decoder = record {
  State = List ℕ;
  Value = ℕ;
  decode_message = λ state message. elim message [
    | [] ↦ (unrecoverable, state)
    | b ∷ bs ↦ (decoded, state ++ b ∷ [])
  ];
  finish = λ state. (map (λ v. some v) state, []);
  timestamp_nanos = λ values. none;
}

abbrev pub struct_pipeline : Pipeline nonempty_decoder
struct_pipeline = record {
  entity = "/a";
  keep_raw = false;
  reflection = some (record { decoder = []; component = "t:message" });
  rows = no_rows;
  lenses = none;
  stored_as = record { has_raw = false; has_reflected = true; has_lenses = false };
  bytes = 0;
}

push-IsAligned_example :
    ((push nonempty_decoder (7 ∷ []) 10 10 0 struct_pipeline).keep_raw ≡ false)
    × IsAligned false (push nonempty_decoder (7 ∷ []) 10 10 0 struct_pipeline).rows
push-IsAligned_example = push-IsAligned nonempty_decoder (7 ∷ []) 10 10 0 struct_pipeline (record {
  sends = refl;
  sequences = refl;
  blobs = refl;
  marks = refl;
  counted = refl;
  forms = refl;
  kept = λ t. refl;
})

-- A buffer that hands its messages out, one chunk each.
abbrev pub plain_buffer : Buffer Bytes
plain_buffer = record {
  State = List Bytes;
  len = λ state. length state;
  bytes = λ state. 0;
  push = λ message recv send sequence state. state ++ message ∷ [];
  flush = λ state. (ok state, []);
}

abbrev one_topic : Writer plain_buffer
one_topic = record {
  rec = record { file = []; live = some [] };
  config = layer_config;
  lenses = none;
  topics =
      record {
        entity = "/a";
        pipeline = (1 ∷ []) ∷ [];
        policy = record { max_rows = 2; max_bytes = 0; max_latency = none };
        last_flush = 0;
        retired = false;
      }
      ∷ [];
  topic_ids = ("/a", 0) ∷ [];
  next_sequence = 1;
  last_sweep = 0;
  metadata_yaml = none;
}

create_topic-once_example :
    Declares plain_buffer "/b" (create_topic plain_buffer "/b" "/b" [] none 0 one_topic)
    × (create_topic plain_buffer "/b" "/b" [] none 5
          (create_topic plain_buffer "/b" "/b" [] none 0 one_topic).1
        ≡ create_topic plain_buffer "/b" "/b" [] none 0 one_topic)
create_topic-once_example =
    create_topic-once plain_buffer "/b" "/b" [] none 0 one_topic (omega arith, tt) [] none 5

write-Mirrors_example :
    Mirrors true (write plain_buffer 0 0 (2 ∷ []) 10 10 one_topic).1.rec
    × ((write plain_buffer 0 0 (2 ∷ []) 10 10 one_topic).1.next_sequence ≡ 2)
write-Mirrors_example = write-Mirrors plain_buffer true 0 0 (2 ∷ []) 10 10 one_topic refl

rrd_last_error-fits_example :
    ((rrd_last_error (some 2) (5 ∷ 6 ∷ 7 ∷ [])).1.0
      ≡ take (rrd_last_error (some 2) (5 ∷ 6 ∷ 7 ∷ [])).0 (5 ∷ 6 ∷ 7 ∷ []) ++ 0 ∷ [])
    × (length (rrd_last_error (some 2) (5 ∷ 6 ∷ 7 ∷ [])).1.0
        ≡ (rrd_last_error (some 2) (5 ∷ 6 ∷ 7 ∷ [])).0 + 1)
    × ((rrd_last_error (some 2) (5 ∷ 6 ∷ 7 ∷ [])).0 + 1 ≤ 2)
    × ((rrd_last_error (some 2) (5 ∷ 6 ∷ 7 ∷ [])).0 ≤ length {A = ℕ} (5 ∷ 6 ∷ 7 ∷ []))
    × ((rrd_last_error (some 2) (rrd_last_error (some 2) (5 ∷ 6 ∷ 7 ∷ [])).1.1).0 ≡ 0)
rrd_last_error-fits_example = rrd_last_error-fits 2 (5 ∷ 6 ∷ 7 ∷ []) (omega arith)

-- Lenses that take no message of the topic, under `keep`.
abbrev other_lenses : LensSet
other_lenses = record {
  mode = forward_unmatched;
  inputs = "u:message" ∷ [];
  keeps_unmatched = true;
}

stored_lem_example :
    (contains (stored layer_config.representations (some "t:message") (some other_lenses)) raw
      ≡ true)
    × (contains
          (stored layer_config.representations (some "t:message") (some other_lenses))
          reflected
        ≡ true)
    × (contains (stored layer_config.representations (some "t:message") (some other_lenses)) lenses
        ≡ false)
    × (iter (stored layer_config.representations none (some other_lenses)) ≡ raw ∷ [])
unfolding contains matches
stored_lem_example = stored_lem layer_config.representations (some other_lenses) "t:message"
