-- ===== src/Recorded/Buffered.antt =====
-- The pipeline of pipeline.rs as a buffer of messages, as record.rs uses it.
use rosbag2_storage_rrd.Recorded.Taken.{blob_column-IsRaw}
use rosbag2_storage_rrd.Pipeline.{keeps}
use mathlib.Core.List.{append-nil}
use rosbag2_storage_rrd.Pipeline.Buffer.{IsAligned-no_rows, push-IsAligned, IsAligned}
use rosbag2_storage_rrd.Arrow.{lookup}
use rosbag2_storage_rrd.Pipeline.{
  time_columns, rows_len, no_rows, sequence_number, send_timestamp, recv_timestamp, LensSet, Rows,
  CdrDecoder,
}
use rosbag2_storage_rrd.Pipeline.Flow.{
  take_chunk, flush_rows, push, Reflection, flushed, apply_lenses, outputs, Pipeline, Applied,
  MessageChunk,
}
use rosbag2_storage_rrd.Base.{
  ◌>>=◌, if◌then◌else◌, Bool, Bool-cases, ◌<◌, length-map, length, ◌==◌, String, false, inl, inr,
  arith, some_inj, ok_inj, subst, err, sym, ◌++◌, ap, ◌∙◌, ℕ, ◌≡◌, Result, List, Option, true, some,
  none, ok, refl, [], ◌∷◌,
}
use rosbag2_storage_rrd.Recorded.{Entry}
use rosbag2_storage_rrd.Recorded.Decoding.{Pending-Holds, Decodes, Pending, push_entry-Pending}
use rosbag2_storage_rrd.Recorded.Entries.{
  entries_of, entries_of-IsRaw, made_entries, or_nil, row_entries,
}
use rosbag2_storage_rrd.Recorded.Pushes.{IsRaw, push_entry, push_entry-HasBuffered}
use rosbag2_storage_rrd.Writer.Contents.{contents}
use rosbag2_storage_rrd.Pipeline.Take.{take_chunk-IsTaken, taken_by, IsRectangular}

-- Lenses, if there are any, in a mode other than `drop`.
abbrev pub Forwards : Option LensSet → Type 0
Forwards none = Unit
Forwards (some lens_set) = keeps lens_set.mode ≡ true

module _ (cdr : CdrDecoder) (laws : Decodes cdr) where
  -- A pipeline that keeps raw bytes and has no lenses in `drop` mode, with the messages that it has buffered.
  pub record IsFilled (p : Pipeline cdr) : Type 0 where
    pub raw : p.keep_raw ≡ true
    pub forwarding : Forwards p.lenses
    pub entries : List Entry
    pub rows : IsRaw entries p.rows
    pub aligned : IsAligned p.keep_raw p.rows
    pub pending : Pending cdr laws p.reflection p.rows.decoded

module _ (cdr : CdrDecoder) (laws : Decodes cdr) {C : Type 0}
    (build : MessageChunk cdr.Value → Result C) (lenses_apply : LensSet → C → List (Applied C))
    (content : C → List Entry) where
  -- Columns that cover the same rows make a chunk, which carries their messages; the lenses forward the
  -- blob column in every mode but `drop`.
  pub record Builds : Type 0 where
    pub builds :
        (n : ℕ) (made : MessageChunk cdr.Value)
        → IsRectangular n made
        → (chunk : C) × (build made ≡ ok chunk) × (content chunk ≡ made_entries made)
    pub forwards :
        (lens_set : LensSet) (chunk : C)
        → keeps lens_set.mode ≡ true
        → contents content (outputs cdr C build (lenses_apply lens_set chunk)) ≡ content chunk

  push_entry-IsFilled :
      (e : Entry) (p : Pipeline cdr)
      → IsFilled cdr laws p
      → IsFilled cdr laws (push_entry cdr e p)
        × (entries_of (push_entry cdr e p).rows ≡ entries_of p.rows ++ e ∷ [])
  push_entry-IsFilled e p v =
      let b =
        push_entry-HasBuffered cdr v.entries e p p
          (record { raw = v.raw; rows = v.rows; entity = refl; lenses = refl }) in
      let (same, aligned) = push-IsAligned cdr e.message e.recv e.send e.sequence p v.aligned in
      (
        record {
          raw = b.raw;
          forwarding = subst Forwards (sym b.lenses) v.forwarding;
          entries = v.entries ++ e ∷ [];
          rows = b.rows;
          aligned =
              unfold push_entry in
              subst (λ k. IsAligned k (push cdr e.message e.recv e.send e.sequence p).rows)
                (sym same) aligned;
          pending = push_entry-Pending cdr laws e p v.raw v.pending;
        },
        entries_of-IsRaw (v.entries ++ e ∷ []) (push_entry cdr e p).rows b.rows
            ∙ ap (λ l. l ++ e ∷ []) (sym (entries_of-IsRaw v.entries p.rows v.rows)),
      )

  -- What taking the rows leaves of a pipeline.
  record Left (p q : Pipeline cdr) : Type 0 where
    raw : q.keep_raw ≡ p.keep_raw
    lenses : q.lenses ≡ p.lenses
    pending : Pending cdr laws q.reflection []

  taken_by-Left :
      (o : Option (Reflection cdr)) (p : Pipeline cdr)
      → p.reflection ≡ o
      → Left p (taken_by cdr build o p).1
  unfolding taken_by
  taken_by-Left none p e = record {
    raw = refl;
    lenses = refl;
    pending = subst (λ o. Pending cdr laws o []) (sym e) tt;
  }
  taken_by-Left (some r) p e = record {
    raw = refl;
    lenses = refl;
    pending = laws.finished r.decoder;
  }

  -- A flush hands out what was buffered.
  pub record HandsOut (p : Pipeline cdr) (x : Result (List C) × Pipeline cdr) : Type 0 where
    pub chunks : List C
    pub done : x.0 ≡ ok chunks
    pub all : contents content chunks ≡ entries_of p.rows
    pub left : IsFilled cdr laws x.1
    pub emptied : entries_of x.1.rows ≡ []

  apply_lenses-contents :
      (builds : Builds) (p : Pipeline cdr) (chunk : C)
      → Forwards p.lenses
      → contents content (apply_lenses cdr C build lenses_apply p chunk) ≡ content chunk
  unfolding apply_lenses
  apply_lenses-contents builds p chunk forwarding = from p.lenses forwarding
    where
      from :
          (o : Option LensSet)
          → Forwards o
          → contents content (elim o as (λ x. List C) [
            | none ↦ chunk ∷ []
            | some set_ ↦ outputs cdr C build (lenses_apply set_ chunk)
          ])
            ≡ content chunk
      from none h = append-nil (content chunk)
      from (some lens_set) h = builds.forwards lens_set chunk h

  flush_rows-some :
      (builds : Builds) (p q : Pipeline cdr) (made : Result (Option C)) (chunk : C)
      → made ≡ ok (some chunk)
      → content chunk ≡ entries_of p.rows
      → q.rows ≡ no_rows
      → Left p q
      → IsFilled cdr laws p
      → HandsOut p (flushed cdr C build lenses_apply (made, q))
  flush_rows-some builds p q (err e) chunk same all emptied left v = cc
  flush_rows-some builds p q (ok none) chunk same all emptied left v =
      let no : none ≡ some chunk = ok_inj same in cc
  flush_rows-some builds p q (ok (some c)) chunk same all emptied left v =
      let here : c ≡ chunk = some_inj (ok_inj same) in
      let forwarding = subst Forwards (sym left.lenses) v.forwarding in
      record {
        chunks = apply_lenses cdr C build lenses_apply q c;
        done = refl;
        all = apply_lenses-contents builds q c forwarding ∙ ap content here ∙ all;
        left = record {
          raw = left.raw ∙ v.raw;
          forwarding = forwarding;
          entries = [];
          rows = record {
            recv = ap (λ (r : Rows). r.times.recv) emptied;
            send = ap (λ (r : Rows). r.times.send) emptied;
            sequence = ap (λ (r : Rows). r.times.sequence) emptied;
            blobs = ap (λ (r : Rows). r.blobs) emptied;
          };
          aligned = subst (IsAligned q.keep_raw) (sym emptied) (IsAligned-no_rows q.keep_raw);
          pending =
              subst (λ (r : Rows). Pending cdr laws q.reflection r.decoded) (sym emptied)
                left.pending;
        };
        emptied = ap entries_of emptied ∙ (unfold entries_of row_entries in refl);
      }

  nothing_left :
      (p : Pipeline cdr)
      → (rows_len p.rows == 0) ≡ true
      → IsFilled cdr laws p
      → entries_of p.rows ≡ []
  unfolding rows_len
  nothing_left p t v =
      let none_left : length p.rows.times.recv ≡ 0 = ground arith in
      let none_held : length v.entries ≡ 0 =
        sym (length-map (λ (e : Entry). e.recv) v.entries)
        ∙ sym (ap length v.rows.recv)
        ∙ none_left in
      entries_of-IsRaw v.entries p.rows v.rows ∙ from v.entries none_held
    where
      from : (es : List Entry) → length es ≡ 0 → es ≡ []
      from [] e = refl
      from (x ∷ es) e = absurd (omega arith)

  made_entries-taken :
      (made : MessageChunk cdr.Value) (rows : Rows) (extra : List (String × List ℕ))
      → made.timelines ≡ time_columns rows.times ++ extra
      → made.blob ≡ some rows.blobs
      → made_entries made ≡ entries_of rows
  unfolding made_entries entries_of time_columns lookup
  made_entries-taken made rows extra timed blob = λ i.
      row_entries (or_nil (lookup recv_timestamp (timed i)))
        (or_nil (lookup send_timestamp (timed i))) (or_nil (lookup sequence_number (timed i)))
        (or_nil (blob i))

  take_chunk-taken_by :
      (p : Pipeline cdr) (b : Bool)
      → (rows_len p.rows == 0) ≡ b
      → take_chunk cdr C build p ≡ (if b then (ok none, p) else taken_by cdr build p.reflection p)
  unfolding take_chunk taken_by
  take_chunk-taken_by p b e =
      ap (λ (c : Bool). if c then (ok none, p) else taken_by cdr build p.reflection p) e

  flush_rows-none :
      (p : Pipeline cdr)
      → (rows_len p.rows == 0) ≡ true
      → IsFilled cdr laws p
      → HandsOut p (flush_rows cdr C build lenses_apply p)
  unfolding flush_rows
  flush_rows-none p t v =
      let nothing = nothing_left p t v in
      subst (λ x. HandsOut p (flushed cdr C build lenses_apply x))
        (sym (take_chunk-taken_by p true t))
        (record { chunks = []; done = refl; all = sym nothing; left = v; emptied = nothing })

  flush_rows-rows :
      (builds : Builds) (p : Pipeline cdr)
      → (rows_len p.rows == 0) ≡ false
      → IsFilled cdr laws p
      → HandsOut p (flush_rows cdr C build lenses_apply p)
  unfolding flush_rows
  flush_rows-rows builds p f v =
      let some_rows : 0 < rows_len p.rows = ground arith in
      let long : rows_len p.rows ≡ length v.entries =
        unfold rows_len in ap length v.rows.recv ∙ length-map (λ (e : Entry). e.recv) v.entries in
      let many : 0 < length v.entries = omega (arith, some_rows, long) in
      let holds = Pending-Holds cdr laws p.reflection p.rows.decoded v.pending in
      let taken = take_chunk-IsTaken cdr build p some_rows v.aligned holds laws.stamps in
      let (chunk, built, same) = builds.builds (rows_len p.rows) taken.chunk taken.whole in
      let blobs = blob_column-IsRaw cdr build p.rows p.keep_raw v.entries v.aligned v.rows many in
      let blob : taken.chunk.blob ≡ some p.rows.blobs =
        taken.raw ∙ blobs ∙ ap some (sym v.rows.blobs) in
      let left : Left p (take_chunk cdr C build p).1 =
        subst (λ x. Left p x.1) (sym (take_chunk-taken_by p false f))
          (taken_by-Left p.reflection p refl) in
      flush_rows-some builds p (take_chunk cdr C build p).1 (take_chunk cdr C build p).0 chunk
        (taken.built ∙ ap (λ (x : Result C). x >>= λ c. ok (some c)) built)
        (same ∙ made_entries-taken taken.chunk p.rows taken.extra taken.timed blob) taken.emptied
        left v

  -- On a pipeline that keeps raw bytes, has no lenses in `drop` mode, and has buffered messages beside a
  -- decoder that holds one per decoded row, where columns of the same rows always make a chunk that
  -- carries their messages, and lenses in any other mode forward the raw bytes: a flush succeeds, hands out chunks that carry exactly the buffered
  -- messages, in their order, and leaves the pipeline without any.
  pub flush_rows-HandsOut :
      (builds : Builds) (p : Pipeline cdr)
      → IsFilled cdr laws p
      → HandsOut p (flush_rows cdr C build lenses_apply p)
  flush_rows-HandsOut builds p v = elim (Bool-cases (rows_len p.rows == 0)) [
    | inl t ↦ flush_rows-none p t v
    | inr f ↦ flush_rows-rows builds p f v
  ]

  pub push-IsFilled :
      (e : Entry) (p : Pipeline cdr)
      → IsFilled cdr laws p
      → IsFilled cdr laws (push cdr e.message e.recv e.send e.sequence p)
        × (entries_of (push cdr e.message e.recv e.send e.sequence p).rows
            ≡ entries_of p.rows ++ e ∷ [])
  unfolding push_entry
  push-IsFilled e p v = push_entry-IsFilled e p v
