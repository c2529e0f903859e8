-- ===== src/Recorded/Replayed.antt =====
-- A recording that was written through pipeline.rs and is read back through reader.rs.
use rosbag2_storage_rrd.Reader.Merge.Fill.{IsReady, remaining}
use rosbag2_storage_rrd.Reader.Pass.{load_ref}
use rosbag2_storage_rrd.Columns.{raw_component}
use mathlib.Core.List.{Permᴰ, append-nil}
use rosbag2_storage_rrd.Index.Bounds.{IsOrdered}
use rosbag2_storage_rrd.Reader.Merge.{
  IsLive, rows_of, IsMerged, loaded_rows, IsIndexed, Row, Loads, playback, rows_unread,
}
use rosbag2_storage_rrd.Index.{ChunkIndex, ChunkRef}
use rosbag2_storage_rrd.Replay.{CdrWriter}
use rosbag2_storage_rrd.Reader.{Message, Reader, RrdFile}
use rosbag2_storage_rrd.Arrow.{Chunk, lookup}
use rosbag2_storage_rrd.Pipeline.{no_rows, CdrDecoder}
use rosbag2_storage_rrd.Pipeline.Flow.{take_chunk, Pipeline, MessageChunk}
use rosbag2_storage_rrd.Base.{
  drop, ap, ◌∙◌, ◌<◌, length, ◌++◌, map, sym, All, ℕ, subst, List, ◌≡◌, Result, true, some, ok,
  refl, arith, [], ◌∷◌,
}
use rosbag2_storage_rrd.Recorded.{Entry}
use rosbag2_storage_rrd.Recorded.Pushes.{push_entries}
use rosbag2_storage_rrd.Recorded.Taken.{Shows, take_chunk-Carries}
use rosbag2_storage_rrd.Recorded.Loads.{Carries-Replays, IsChronological, IsWithin, Replays, Stands}
use rosbag2_storage_rrd.Recorded.Rows.{in_direction, replayed_row}
use rosbag2_storage_rrd.Recorded.Windows.{Carries}
use rosbag2_storage_rrd.Reader.Merge.Drain.{drain, drain-Drained, payloads, successes}

-- `build` makes a Rerun chunk of columns: one that shows them.
abbrev pub Showing : {V : Type 0} → (MessageChunk V → Result Chunk) → Type 0
Showing {V} build =
    (made : MessageChunk V) (chunk : Chunk) → build made ≡ ok chunk → Shows made chunk

module _ (decoder : CdrDecoder) (build : MessageChunk decoder.Value → Result Chunk) (file : RrdFile)
    (cdr : CdrWriter) (s : Reader) where
  -- The messages that a topic's pipeline, which keeps raw bytes and had none buffered, took out as one
  -- chunk: in the order of their keys, and in the file where the index says, under the chunk's own
  -- entity. The entity of the pipeline is that of a topic that the reader knows and replays.
  pub record Batch (c : ChunkRef) : Type 0 where
    pub entries : List Entry
    pub pipeline : Pipeline decoder
    pub keeps : pipeline.keep_raw ≡ true
    pub empty : pipeline.rows ≡ no_rows
    pub chunk : Chunk
    pub taken :
        (take_chunk decoder Chunk build (push_entries decoder entries pipeline)).0 ≡ ok (some chunk)
    pub listed : c.entity ≡ chunk.entity_path
    pub stands : Stands file cdr s pipeline.entity c chunk
    pub column : stands.info.columns.raw ≡ raw_component
    pub filled : 0 < length entries
    pub chronological : IsChronological entries
    pub within : All (IsWithin c) entries

  -- The chunk that a pipeline with raw bytes made of the messages pushed into it, in the order of their
  -- keys and at times within those of the index, is loaded by the reader as one of the topic that it has
  -- for the pipeline's entity, with one row per message: its receive time, its number, its send time and
  -- its bytes, whatever the decoder answered, in the direction of the playback.
  pub take_chunk-Replays :
      (c : ChunkRef) (b : Batch c)
      → Showing build
      → Replays file cdr s c b.stands.info.name (in_direction s.is_reverse b.entries)
  take_chunk-Replays c b showing =
      let (carried, on_entity) =
        take_chunk-Carries decoder build b.entries b.pipeline b.chunk b.filled b.keeps b.empty
          (λ made. showing made b.chunk) b.taken in
      let stands : Stands file cdr s c.entity c b.chunk = record {
        topic = b.stands.topic;
        info = b.stands.info;
        found = ap (λ entity. lookup entity s.topic_index) (b.listed ∙ on_entity) ∙ b.stands.found;
        at = b.stands.at;
        replayed = b.stands.replayed;
        rest = b.stands.rest;
        read = b.stands.read;
        structs = b.stands.structs;
        decodes = b.stands.decodes;
      } in
      Carries-Replays file cdr s c b.chunk b.entries stands
        (subst (λ name. Carries b.chunk name b.entries) (sym b.column) carried) b.filled
        b.chronological b.within

  -- What was recorded, as it is replayed.
  abbrev pub recorded_rows : (cs : List ChunkRef) → All Batch cs → List Row
  recorded_rows [] bs = []
  recorded_rows (c ∷ cs) bs =
      map (replayed_row bs.0.stands.info.name) (in_direction s.is_reverse bs.0.entries)
      ++ recorded_rows cs bs.1

  recorded_rows-rows_unread :
      (cs : List ChunkRef) (bs : All Batch cs)
      → Showing build
      → (rows_unread file cdr s cs ≡ recorded_rows cs bs) × All (Loads file cdr s) cs
  unfolding rows_unread
  recorded_rows-rows_unread [] bs showing = (refl, tt)
  recorded_rows-rows_unread (c ∷ cs) bs showing =
      let first = take_chunk-Replays c bs.0 showing in
      let (others, loads) = recorded_rows-rows_unread cs bs.1 showing in
      let shown = sym (append-nil (loaded_rows file cdr s (load_ref file s c))) ∙ first.shown in
      (
        ap (λ x. x ++ rows_unread file cdr s cs) shown
            ∙ ap
                (λ x.
                  map (replayed_row bs.0.stands.info.name) (in_direction s.is_reverse bs.0.entries)
                  ++ x)
                others,
        (first.loads, loads),
      )

  -- Reading gives back what was recorded.
  pub record GivesBack (ix : ChunkIndex) (batches : All Batch (playback s ix))
      (result : Result (List Message)) : Type 0 where
    pub order : List Row
    pub messages : List Message
    pub done : result ≡ ok messages
    pub payload : payloads order ≡ successes messages
    pub perm : Permᴰ (recorded_rows (playback s ix) batches) order
    pub merged : IsMerged s.is_reverse order

  -- Recording and reading back: if a chunk is on the entity and has the columns that it is built of, and
  -- every chunk of an ordered index, listed under its own entity, was made by a pipeline with raw bytes,
  -- on an entity of a topic that the reader knows and replays, of messages in the order of their keys
  -- and at times within those of the index, then a reader that starts over its file, in either direction
  -- and with more rounds than messages were recorded, succeeds, and hands out each recorded message
  -- exactly once, under the name of the topic that the reader has for the entity it was recorded on, with
  -- the times and bytes it was recorded with, in the order of the receive times and the numbers.
  pub drain-GivesBack :
      (ix : ChunkIndex) (fuel : ℕ) (r : Reader) (batches : All Batch (playback s ix))
      → Showing build
      → IsOrdered ix
      → IsIndexed s ix r
      → r.window ≡ []
      → r.at_chunk ≡ 0
      → length (recorded_rows (playback s ix) batches) < fuel
      → GivesBack ix batches (drain file cdr fuel r)
  unfolding rows_of
  drain-GivesBack ix fuel r batches showing ordered indexed fresh first enough =
      let (same, loads) = recorded_rows-rows_unread (playback s ix) batches showing in
      let left : remaining file cdr s ix r ≡ recorded_rows (playback s ix) batches =
        ap (λ ws. rows_of cdr s ws ++ rows_unread file cdr s (drop r.at_chunk (playback s ix)))
          fresh
        ∙ ap (λ n. rows_unread file cdr s (drop n (playback s ix))) first
        ∙ same in
      let ready : IsReady file cdr s ix r = record {
        indexed = indexed;
        live = subst (All (IsLive cdr s)) (sym fresh) tt;
        loads = subst (λ n. All (Loads file cdr s) (drop n (playback s ix))) (sym first) loads;
      } in
      let d =
        drain-Drained file cdr s ix fuel r ordered ready (omega (arith, enough, ap length left)) in
      record {
        order = d.order;
        messages = d.messages;
        done = d.done;
        payload = d.payload;
        perm = subst (λ rows. Permᴰ rows d.order) left d.perm;
        merged = d.merged;
      }
