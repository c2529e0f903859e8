-- ===== src/Examples/Conserving.antt =====
-- A topic that keeps raw bytes beside the struct: a message is accepted, buffered, and handed out when
-- the writer is closed.
use rosbag2_storage_rrd.Writer.Conserved.{here, created, wrote, session-conserves}
use rosbag2_storage_rrd.Writer.Grown.{total}
use rosbag2_storage_rrd.Examples.Recording.{sdk, live_config}
use rosbag2_storage_rrd.Config.{contains}
use rosbag2_storage_rrd.Recorded.Pipelines.{pipelines_keep}
use rosbag2_storage_rrd.Writer.Contents.{contents, count, Keeping}
use rosbag2_storage_rrd.Writer.Open.{pipelines, open_writer}
use rosbag2_storage_rrd.Writer.{Topic, write_topic, close, write, Writer, create_topic, Buffer}
use rosbag2_storage_rrd.Pipeline.Buffer.{IsAligned-no_rows}
use mathlib.Core.List.{append-nil}
use rosbag2_storage_rrd.Pipeline.Flow.{push, applied, Applied, flush_rows, Pipeline, MessageChunk}
use rosbag2_storage_rrd.Arrow.{i64_zero}
use rosbag2_storage_rrd.Base.{
  false, none, length-append, length-map, ◌+◌, length, ◌≡◌, Result, ℕ, List, true, some, ok, refl,
  [], ◌∷◌,
}
use rosbag2_storage_rrd.Examples.Writing.{nonempty_decoder, struct_pipeline}
use rosbag2_storage_rrd.Arrow.{lookup, Bytes}
use rosbag2_storage_rrd.Recorded.{Entry}
use rosbag2_storage_rrd.Writer.Due.{IsWithin, write_topic-IsWithin}
use rosbag2_storage_rrd.Pipeline.Emptied.{flush_rows-no_rows}
use rosbag2_storage_rrd.Statics.{blob_at}
use rosbag2_storage_rrd.Pipeline.Column.{blob_array}
use rosbag2_storage_rrd.Recorded.Blobs.{blob_at-blob_array}
use rosbag2_storage_rrd.Recorded.Buffered.{
  push-IsFilled, Builds, HandsOut, IsFilled, flush_rows-HandsOut,
}
use rosbag2_storage_rrd.Recorded.Decoding.{Decodes}
use rosbag2_storage_rrd.Recorded.Entries.{entries_of, made_entries}
use rosbag2_storage_rrd.Pipeline.{drop_unmatched, LensSet, decoded, cancelled}

decodes :
    (state : List ℕ) (message : Bytes)
    → (nonempty_decoder.decode_message state message).0 ≡ decoded
    → length (nonempty_decoder.decode_message state message).1 ≡ length state + 1
decodes state [] e = cc
decodes state (b ∷ bs) e = length-append state (b ∷ [])

cancels :
    (state : List ℕ) (message : Bytes)
    → (nonempty_decoder.decode_message state message).0 ≡ cancelled
    → length (nonempty_decoder.decode_message state message).1 ≡ length state
cancels state [] e = cc
cancels state (b ∷ bs) e = cc

abbrev nonempty_laws : Decodes nonempty_decoder
nonempty_laws = record {
  pending = λ (state : List ℕ). length state;
  decodes = decodes;
  cancels = cancels;
  finishes = λ state. length-map (λ (v : ℕ). some v) state;
  finished = λ state. refl;
  stamps = λ messages. tt;
}

-- A chunk is what it is made of, and a lens forwards it.
abbrev build : MessageChunk ℕ → Result (MessageChunk ℕ)
build made = ok made

abbrev forward : LensSet → MessageChunk ℕ → List (Applied (MessageChunk ℕ))
forward lens_set chunk = applied chunk ∷ []

builds : Builds nonempty_decoder nonempty_laws build forward (λ chunk. made_entries chunk)
builds = record {
  builds = λ n made whole. (made, refl, refl);
  forwards = λ lens_set chunk keeping. append-nil (made_entries chunk);
}

abbrev both_pipeline : Pipeline nonempty_decoder
both_pipeline = record struct_pipeline { keep_raw = true }

both_pipeline-IsFilled : IsFilled nonempty_decoder nonempty_laws both_pipeline
both_pipeline-IsFilled = record {
  raw = refl;
  forwarding = tt;
  entries = [];
  rows = record { recv = refl; send = refl; sequence = refl; blobs = refl };
  aligned = IsAligned-no_rows true;
  pending = refl;
}

-- One message in both forms, and one that the decoder cannot take.
abbrev second_pushed : Pipeline nonempty_decoder
second_pushed =
    push nonempty_decoder [] 20 21 (i64_zero + 1)
      (push nonempty_decoder (7 ∷ []) 10 11 i64_zero both_pipeline)

second_pushed-IsFilled : IsFilled nonempty_decoder nonempty_laws second_pushed
second_pushed-IsFilled =
    let first =
      push-IsFilled nonempty_decoder nonempty_laws build forward (λ chunk. made_entries chunk)
        (record { message = 7 ∷ []; recv = 10; send = 11; sequence = i64_zero }) both_pipeline
        both_pipeline-IsFilled in
    let second =
      push-IsFilled nonempty_decoder nonempty_laws build forward (λ chunk. made_entries chunk)
        (record { message = []; recv = 20; send = 21; sequence = i64_zero + 1 })
        (push nonempty_decoder (7 ∷ []) 10 11 i64_zero both_pipeline) first.0 in
    second.0

flush_rows-HandsOut_example :
    HandsOut nonempty_decoder nonempty_laws build forward
      (λ chunk. made_entries chunk)
      second_pushed
      (flush_rows nonempty_decoder (MessageChunk ℕ) build forward second_pushed)
flush_rows-HandsOut_example =
    flush_rows-HandsOut nonempty_decoder nonempty_laws build forward (λ chunk. made_entries chunk)
      builds second_pushed second_pushed-IsFilled

abbrev chunks_of : Buffer (MessageChunk ℕ)
chunks_of = pipelines nonempty_decoder build forward

abbrev opened_writer : Writer chunks_of
opened_writer = record {
  rec = record { file = []; live = some [] };
  config = live_config;
  lenses = some (record { mode = drop_unmatched; inputs = []; keeps_unmatched = false });
  topics = [];
  topic_ids = [];
  next_sequence = i64_zero;
  last_sweep = 0;
  metadata_yaml = none;
}

abbrev declared : Writer chunks_of
declared = (create_topic chunks_of "/a" "/a" both_pipeline none 0 opened_writer).1

abbrev written_once : Writer chunks_of
written_once = (write chunks_of 1 0 (7 ∷ []) 10 11 declared).1

opens : open_writer sdk chunks_of (ok []) "bag.rrd" live_config 0 ≡ ok opened_writer
unfolding open_writer contains
opens = refl

abbrev keeping : Keeping chunks_of (λ chunk. made_entries chunk)
keeping =
    pipelines_keep nonempty_decoder nonempty_laws build forward (λ chunk. made_entries chunk) builds

abbrev first_entry : Entry
first_entry = record { message = 7 ∷ []; recv = 10; send = 11; sequence = i64_zero }

session-conserves_example :
    (total chunks_of (λ chunk. made_entries chunk) keeping (λ e. true) written_once ≡ 1)
    × (count
          (λ e. true)
          (contents
            (λ chunk. made_entries chunk)
            (close chunks_of (λ yaml. (none, none)) (ok tt) 2 written_once).1.file)
        ≡ 1)
unfolding create_topic entries_of lookup
session-conserves_example =
    session-conserves chunks_of (λ chunk. made_entries chunk) keeping sdk (ok []) "bag.rrd"
      live_config 0 2 opened_writer written_once (first_entry ∷ []) (λ yaml. (none, none)) (ok tt)
      (λ e. true) opens
      (wrote 1 0 (7 ∷ []) 10 11
        (created "/a" "/a" both_pipeline none 0 here both_pipeline-IsFilled refl (λ chunk e. cc)))
      (λ yaml chunk e. cc)

abbrev two_rows : Topic chunks_of
two_rows = record {
  entity = "/a";
  pipeline = both_pipeline;
  policy = record { max_rows = 2; max_bytes = 0; max_latency = some 1000 };
  last_flush = 0;
  retired = false;
}

write_topic-IsWithin_example :
    IsWithin chunks_of 5
      (write_topic chunks_of 5 (7 ∷ []) 10 11 0 two_rows (record { file = []; live = none })).1.0
write_topic-IsWithin_example =
    write_topic-IsWithin chunks_of 5 (7 ∷ []) 10 11 0 two_rows (record { file = []; live = none })
      (λ p. flush_rows-no_rows nonempty_decoder build forward p) refl

blob_at-blob_array_example :
    blob_at (blob_array (some (7 ∷ 8 ∷ []) ∷ none ∷ some (9 ∷ []) ∷ [])) 2 ≡ some (9 ∷ [])
blob_at-blob_array_example =
    blob_at-blob_array (some (7 ∷ 8 ∷ []) ∷ none ∷ some (9 ∷ []) ∷ []) 2 (9 ∷ []) refl
