-- ===== src/Recorded/Turned.antt =====
-- Turning the playback around in the middle of a pass.
use rosbag2_storage_rrd.Reader.Merge.Seeking.{restart-indexed}
use rosbag2_storage_rrd.Index.Bounds.{IsOrdered}
use rosbag2_storage_rrd.Index.{ChunkIndex}
use rosbag2_storage_rrd.Replay.{CdrWriter}
use rosbag2_storage_rrd.Arrow.{Chunk}
use rosbag2_storage_rrd.Pipeline.Flow.{MessageChunk}
use rosbag2_storage_rrd.Reader.{RrdFile, Reader}
use rosbag2_storage_rrd.Pipeline.{CdrDecoder}
use rosbag2_storage_rrd.Base.{
  ◌∙◌, if◌then◌else◌, sym, subst, ap, ◌<◌, length, All, ◌≡◌, ℕ, Result, Bool, false, some, ok, refl,
}
use rosbag2_storage_rrd.Recorded.Replayed.{
  Batch, GivesBack, Showing, drain-GivesBack, recorded_rows,
}
use rosbag2_storage_rrd.Reader.Pass.{restart, same, set_reverse}
use rosbag2_storage_rrd.Reader.Merge.Drain.{drain}
use rosbag2_storage_rrd.Reader.Merge.{playback, restarted, settings}

-- The reader that goes the other way.
abbrev pub turned : Bool → Reader → Reader
turned b r = restarted (record r { is_reverse = b })

module _ (decoder : CdrDecoder) (build : MessageChunk decoder.Value → Result Chunk) (file : RrdFile)
    (cdr : CdrWriter) (ix : ChunkIndex) where
  set_reverse-turned :
      (b : Bool) (r : Reader)
      → r.index ≡ some ix
      → same b r.is_reverse ≡ false
      → set_reverse file b r ≡ (ok tt, turned b r)
  unfolding set_reverse restart
  set_reverse-turned b r indexed other =
      let r' : Reader = record r { is_reverse = b } in
      ap (λ c. if c then (ok tt, r) else restart file r') other
      ∙ restart-indexed file cdr (settings (turned b r)) ix r' indexed

  -- On a reader over an ordered index, wherever it stands in its pass, if a chunk is on the entity and
  -- has the columns that it is built of, and every chunk, listed under its own entity, was made by a
  -- pipeline with raw bytes, on an entity of a topic that the reader knows and replays under its filter,
  -- of messages in the order of their keys and at times within those of the index: setting the other
  -- direction succeeds, and reading to the end from there, with more rounds than messages were recorded,
  -- hands out all recorded messages, each once, in that direction.
  pub set_reverse-GivesBack :
      (b : Bool) (fuel : ℕ) (r : Reader)
      (batches : All
        (Batch decoder build file cdr (settings (turned b r)))
        (playback (settings (turned b r)) ix))
      → r.index ≡ some ix
      → same b r.is_reverse ≡ false
      → Showing build
      → IsOrdered ix
      → length (
          recorded_rows decoder build file cdr
            (settings (turned b r))
            (playback (settings (turned b r)) ix)
            batches)
        < fuel
      → ((set_reverse file b r).0 ≡ ok tt)
        × GivesBack decoder build file cdr
            (settings (turned b r))
            ix
            batches
            (drain file cdr fuel (set_reverse file b r).1)
  set_reverse-GivesBack b fuel r batches indexed other showing ordered enough =
      let s = settings (turned b r) in
      let moved = set_reverse-turned b r indexed other in
      let given =
        drain-GivesBack decoder build file cdr s ix fuel (turned b r) batches showing ordered
          (record { same_settings = refl; indexed = indexed }) refl refl enough in
      (
        ap (λ x. x.0) moved,
        subst (λ x. GivesBack decoder build file cdr s ix batches (drain file cdr fuel x.1))
            (sym moved) given,
      )
