-- ===== src/Pipeline/Emptied.antt =====
-- A flush of pipeline.rs leaves nothing buffered, whatever fails.
use rosbag2_storage_rrd.Pipeline.{LensSet, rows_len, CdrDecoder}
use rosbag2_storage_rrd.Base.{
  if◌then◌else◌, ◌==◌, Bool, Option, ◌≡◌, List, Result, true, false, some, none, ok, err, refl,
  arith,
}
use rosbag2_storage_rrd.Pipeline.Take.{taken_by}
use rosbag2_storage_rrd.Pipeline.Flow.{
  Reflection, Applied, Pipeline, MessageChunk, flush_rows, flushed, len, take_chunk,
}

module _ (cdr : CdrDecoder) {C : Type 0} (build : MessageChunk cdr.Value → Result C) where
  taken_by-no_rows :
      (o : Option (Reflection cdr)) (p : Pipeline cdr)
      → rows_len (taken_by cdr build o p).1.rows ≡ 0
  unfolding taken_by rows_len
  taken_by-no_rows none p = refl
  taken_by-no_rows (some r) p = refl

  take_chunk-no_rows : (p : Pipeline cdr) → rows_len (take_chunk cdr C build p).1.rows ≡ 0
  unfolding take_chunk taken_by
  take_chunk-no_rows p = from (rows_len p.rows == 0) refl
    where
      from :
          (b : Bool)
          → (rows_len p.rows == 0) ≡ b
          → rows_len (if b then (ok none, p) else taken_by cdr build p.reflection p).1.rows ≡ 0
      from true e = ground arith
      from false e = taken_by-no_rows p.reflection p

  pub flush_rows-no_rows :
      (lenses_apply : LensSet → C → List (Applied C)) (p : Pipeline cdr)
      → len cdr (flush_rows cdr C build lenses_apply p).1 ≡ 0
  unfolding flush_rows len
  flush_rows-no_rows lenses_apply p = from (take_chunk cdr C build p) (take_chunk-no_rows p)
    where
      from :
          (x : Result (Option C) × Pipeline cdr)
          → rows_len x.1.rows ≡ 0
          → rows_len (flushed cdr C build lenses_apply x).1.rows ≡ 0
      from (err e, q) h = h
      from (ok none, q) h = h
      from (ok (some chunk), q) h = h
