-- ===== src/Recorded/Pipelines.antt =====
-- The pipelines of pipeline.rs fill the interface of record.rs: they keep what is pushed into them.
use rosbag2_storage_rrd.Pipeline.Buffer.{IsAligned-no_rows}
use rosbag2_storage_rrd.Recorded.Buffered.{Forwards}
use rosbag2_storage_rrd.Pipeline.Flow.{Reflection, new, Applied, MessageChunk}
use rosbag2_storage_rrd.Pipeline.{LensSet, CdrDecoder}
use rosbag2_storage_rrd.Base.{
  ◌||◌, if◌then◌else◌, Bool, ◌≡◌, Option, String, List, Result, true, false, some, none, ok, err,
  refl, [],
}
use rosbag2_storage_rrd.Recorded.{Entry}
use rosbag2_storage_rrd.Recorded.Buffered.{Builds, IsFilled, flush_rows-HandsOut, push-IsFilled}
use rosbag2_storage_rrd.Recorded.Decoding.{Decodes, Pending}
use rosbag2_storage_rrd.Recorded.Entries.{entries_of, row_entries}
use rosbag2_storage_rrd.Writer.Contents.{Keeping}
use rosbag2_storage_rrd.Writer.Open.{pipelines}
use rosbag2_storage_rrd.Config.{raw, Representations, contains, reflected, lenses}

module _ (cdr : CdrDecoder) (laws : Decodes cdr) {C : Type 0}
    (build : MessageChunk cdr.Value → Result C) (lenses_apply : LensSet → C → List (Applied C))
    (content : C → List Entry) where
  -- The pipelines keep what is pushed into them.
  abbrev pub pipelines_keep :
      Builds cdr laws build lenses_apply content
      → Keeping (pipelines cdr build lenses_apply) content
  pipelines_keep builds = record {
    IsValid = λ p. IsFilled cdr laws p;
    held = λ p. entries_of p.rows;
    pushed = λ e p v. push-IsFilled cdr laws build lenses_apply content e p v;
    flushes = λ p v.
        let h = flush_rows-HandsOut cdr laws build lenses_apply content builds p v in
        (h.chunks, h.done, h.all, h.left, h.emptied);
  }

  -- The pipeline of a topic that keeps raw bytes, without lenses in `drop` mode, starts out with nothing
  -- buffered.
  pub new-IsFilled :
      (entity : String) (asked : Representations) (reflect : Result (Reflection cdr))
      (lens_set : Option LensSet)
      → contains asked raw ≡ true
      → Forwards lens_set
      → ((r : Reflection cdr) → reflect ≡ ok r → laws.pending r.decoder ≡ 0)
      → IsFilled cdr laws (new cdr entity asked reflect lens_set)
        × (entries_of (new cdr entity asked reflect lens_set).rows ≡ [])
  unfolding new
  new-IsFilled entity asked reflect lens_set keeps forwarding fresh = (
    record {
      raw = keeps;
      forwarding = forwarding;
      entries = [];
      rows = record { recv = refl; send = refl; sequence = refl; blobs = refl };
      aligned = IsAligned-no_rows (contains asked raw);
      pending = chosen (contains asked reflected || contains asked lenses) reflect fresh;
    },
    unfold entries_of row_entries in refl,
  )
    where
      made : Bool → Result (Reflection cdr) → Option (Reflection cdr)
      made b answer = if b then (elim answer [ ok r ↦ some r | err e ↦ none ]) else none

      chosen :
          (b : Bool) (answer : Result (Reflection cdr))
          → ((r : Reflection cdr) → answer ≡ ok r → laws.pending r.decoder ≡ 0)
          → Pending cdr laws (made b answer) []
      chosen true (ok r) h = h r refl
      chosen true (err e) h = tt
      chosen false answer h = tt
