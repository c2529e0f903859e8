-- ===== src/Recorded/Taken.antt =====
-- The chunk that a pipeline of pipeline.rs makes of buffered messages carries them.
use rosbag2_storage_rrd.Recorded.Windows.{Carries}
use mathlib.Core.List.{append-nil}
use rosbag2_storage_rrd.Statics.{column}
use rosbag2_storage_rrd.Reader.Windows.{times}
use rosbag2_storage_rrd.Pipeline.Take.{with_stamps-append, taken_by}
use rosbag2_storage_rrd.Arrow.{lookup, ListArray, Chunk}
use rosbag2_storage_rrd.Pipeline.{
  sequence_number, send_timestamp, recv_timestamp, no_rows, all_true, scatter, rows_len,
  time_columns, Rows, CdrDecoder,
}
use rosbag2_storage_rrd.Pipeline.Flow.{
  blob_column, Reflection, take_chunk, Pipeline, struct_column, MessageChunk,
}
use rosbag2_storage_rrd.Base.{
  ltb, true, length, if◌then◌else◌, map, ◌<◌, Bool, false, suc, arith, >>=-eq-ok, ◌==◌, ok_inj, ◌∙◌,
  some_inj, sym, ◌++◌, subst, ap, ℕ, ◌≡◌, String, ◌>>=◌, Result, List, Option, err, some, none, ok,
  refl, [], ◌∷◌,
}
use rosbag2_storage_rrd.Recorded.{Bytes, Entry}
use rosbag2_storage_rrd.Recorded.Pushes.{push_entries-HasBuffered, IsRaw, push_entries, push_entry}
use rosbag2_storage_rrd.Columns.{raw_component}
use rosbag2_storage_rrd.Pipeline.Column.{blob_array}
use rosbag2_storage_rrd.Pipeline.Buffer.{IsAligned-no_rows, count_some, IsAligned, push-IsAligned}

abbrev pub blob_list : Option (List (Option Bytes)) → Option ListArray
blob_list none = none
blob_list (some blobs) = some (blob_array blobs)

-- A Rerun chunk made of the columns of `made`: on its entity, with its timelines by name and its blobs
-- under their component.
pub record Shows {V : Type 0} (made : MessageChunk V) (chunk : Chunk) : Type 0 where
  pub entity : chunk.entity_path ≡ made.entity
  pub timelines : (name : String) → times chunk name ≡ lookup name made.timelines
  pub blobs : column chunk raw_component ≡ blob_list made.blob

module _ (cdr : CdrDecoder) where
  pub push_entries-IsAligned :
      (entries : List Entry) (p : Pipeline cdr)
      → IsAligned p.keep_raw p.rows
      → ((push_entries cdr entries p).keep_raw ≡ p.keep_raw)
        × IsAligned p.keep_raw (push_entries cdr entries p).rows
  unfolding push_entries push_entry
  push_entries-IsAligned [] p v = (refl, v)
  push_entries-IsAligned (e ∷ entries) p v =
      let q = push_entry cdr e p in
      let (same, w) = push-IsAligned cdr e.message e.recv e.send e.sequence p v in
      let (same', w') =
        push_entries-IsAligned entries q (subst (λ k. IsAligned k q.rows) (sym same) w) in
      (same' ∙ same, subst (λ k. IsAligned k (push_entries cdr entries q).rows) same w')

  struct_column-append :
      (rows : Rows) (times : List (String × List ℕ)) (component : String)
      (messages : List (Option cdr.Value))
      {columns : List (String × List ℕ) × Option (String × List (Option cdr.Value))}
      → struct_column cdr rows times component messages ≡ ok columns
      → (extra : List (String × List ℕ)) × (columns.0 ≡ times ++ extra)
  unfolding struct_column
  struct_column-append rows times component [] e =
      ([], sym (ap (λ c. c.0) (ok_inj e)) ∙ sym (append-nil times))
  struct_column-append rows times component (m ∷ ms) e =
      let (column, scattered, same) = >>=-eq-ok (scatter (m ∷ ms) rows.decoded) _ e in
      let (extra, more) =
        with_stamps-append cdr times (all_true rows.decoded) (cdr.timestamp_nanos (m ∷ ms)) in
      (extra, sym (ap (λ c. c.0) (ok_inj same)) ∙ more)

  module _ {C : Type 0} (build : MessageChunk cdr.Value → Result C) where
    counted-entries :
        (entries : List Entry)
        → count_some (map (λ (e : Entry). some e.message) entries) ≡ length entries
    counted-entries [] = refl
    counted-entries (e ∷ entries) = ap suc (counted-entries entries)

    -- The blob column is there, and holds the messages.
    pub blob_column-IsRaw :
        (rows : Rows) (k : Bool) (entries : List Entry)
        → IsAligned k rows
        → IsRaw entries rows
        → 0 < length entries
        → blob_column cdr C build rows ≡ some (map (λ (e : Entry). some e.message) entries)
    blob_column-IsRaw rows k entries v raw many =
        let count : rows.blob_rows ≡ length entries =
          v.counted ∙ ap count_some raw.blobs ∙ counted-entries entries in
        let positive : ltb 0 rows.blob_rows ≡ true = ground arith in
        ap (λ b. if b then some rows.blobs else none) positive ∙ ap some raw.blobs

  module _ (build : MessageChunk cdr.Value → Result Chunk) where
    -- A chunk that was taken is built of columns that show the buffered rows.
    pub record Built (p : Pipeline cdr) (chunk : Chunk) : Type 0 where
      pub made : MessageChunk cdr.Value
      pub built : build made ≡ ok chunk
      pub on_entity : made.entity ≡ p.entity
      pub extra : List (String × List ℕ)
      pub timed : made.timelines ≡ time_columns p.rows.times ++ extra
      pub raw : made.blob ≡ blob_column cdr Chunk build p.rows

    some_of :
        (o : Result Chunk) {chunk : Chunk}
        → (o >>= λ c. ok (some c)) ≡ ok (some chunk)
        → o ≡ ok chunk
    some_of (ok c) e = ap ok (some_inj (ok_inj e))
    some_of (err x) e = cc

    taken_by-Built :
        (o : Option (Reflection cdr)) (p : Pipeline cdr) (chunk : Chunk)
        → (taken_by cdr build o p).0 ≡ ok (some chunk)
        → Built p chunk
    unfolding taken_by
    taken_by-Built none p chunk e =
        let made : MessageChunk cdr.Value = record {
          entity = p.entity;
          timelines = time_columns p.rows.times;
          blob = blob_column cdr Chunk build p.rows;
          structs = none;
        } in
        record {
          made = made;
          built = some_of (build made) e;
          on_entity = refl;
          extra = [];
          timed = sym (append-nil (time_columns p.rows.times));
          raw = refl;
        }
    taken_by-Built (some r) p chunk e =
        let (columns, same, rest) =
          >>=-eq-ok
            (struct_column cdr p.rows (time_columns p.rows.times) r.component
              (cdr.finish r.decoder).0)
            _ e in
        let made : MessageChunk cdr.Value = record {
          entity = p.entity;
          timelines = columns.0;
          blob = blob_column cdr Chunk build p.rows;
          structs = columns.1;
        } in
        let (extra, more) =
          struct_column-append p.rows (time_columns p.rows.times) r.component
            (cdr.finish r.decoder).0 same in
        record {
          made = made;
          built = some_of (build made) rest;
          on_entity = refl;
          extra = extra;
          timed = more;
          raw = refl;
        }

    pub take_chunk-Built :
        (p : Pipeline cdr) (chunk : Chunk)
        → (take_chunk cdr Chunk build p).0 ≡ ok (some chunk)
        → Built p chunk
    unfolding take_chunk taken_by
    take_chunk-Built p chunk e = from (rows_len p.rows == 0) e
      where
        from :
            (b : Bool)
            → (if b then (ok none, p) else taken_by cdr build p.reflection p).0 ≡ ok (some chunk)
            → Built p chunk
        from true t = let same : none ≡ some chunk = ok_inj t in cc
        from false t = taken_by-Built p.reflection p chunk t

    carries :
        (entries : List Entry) (chunk : Chunk) (rows : Rows) (made : MessageChunk cdr.Value)
        (extra : List (String × List ℕ))
        → IsRaw entries rows
        → Shows made chunk
        → made.timelines ≡ time_columns rows.times ++ extra
        → made.blob ≡ some (map (λ (e : Entry). some e.message) entries)
        → Carries chunk raw_component entries
    unfolding time_columns lookup
    carries entries chunk rows made extra raw shown timed blob = record {
      recv = shown.timelines recv_timestamp ∙ ap (lookup recv_timestamp) timed ∙ ap some raw.recv;
      send = shown.timelines send_timestamp ∙ ap (lookup send_timestamp) timed ∙ ap some raw.send;
      sequence =
          shown.timelines sequence_number
          ∙ ap (lookup sequence_number) timed
          ∙ ap some raw.sequence;
      blobs = shown.blobs ∙ ap blob_list blob;
    }

    -- The chunk of messages that were all buffered carries them, on the entity of their topic.
    pub take_chunk-Carries :
        (entries : List Entry) (p : Pipeline cdr) (chunk : Chunk)
        → 0 < length entries
        → p.keep_raw ≡ true
        → p.rows ≡ no_rows
        → ((made : MessageChunk cdr.Value) → build made ≡ ok chunk → Shows made chunk)
        → (take_chunk cdr Chunk build (push_entries cdr entries p)).0 ≡ ok (some chunk)
        → Carries chunk raw_component entries × (chunk.entity_path ≡ p.entity)
    take_chunk-Carries entries p chunk many keeps empty shows taken =
        let q = push_entries cdr entries p in
        let start : IsRaw [] p.rows = record {
          recv = ap (λ (r : Rows). r.times.recv) empty;
          send = ap (λ (r : Rows). r.times.send) empty;
          sequence = ap (λ (r : Rows). r.times.sequence) empty;
          blobs = ap (λ (r : Rows). r.blobs) empty;
        } in
        let buffered =
          push_entries-HasBuffered cdr [] entries p p
            (record { raw = keeps; rows = start; entity = refl; lenses = refl }) in
        let raw = buffered.rows in
        let aligned =
          (push_entries-IsAligned entries p
            (subst (IsAligned p.keep_raw) (sym empty) (IsAligned-no_rows p.keep_raw))).1 in
        let built = take_chunk-Built q chunk taken in
        let shown = shows built.made built.built in
        (
          carries entries chunk q.rows built.made built.extra raw shown built.timed
              (built.raw ∙ blob_column-IsRaw build q.rows p.keep_raw entries aligned raw many),
          shown.entity ∙ built.on_entity ∙ buffered.entity,
        )
