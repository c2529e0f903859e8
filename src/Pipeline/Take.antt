-- ===== src/Pipeline/Take.antt =====
-- `Pipeline::take` and `flush` of pipeline.rs: the buffered rows leave as one chunk.
use mathlib.Core.List.{append-nil}
use rosbag2_storage_rrd.Pipeline.Buffer.{IsAligned}
use rosbag2_storage_rrd.Base.{
  ◌++◌, sym, ◌==◌, ltb, if◌then◌else◌, ◌<◌, arith, ◌∙◌, subst, ◌>>=◌, Result, ap, All-append, ◌∷◌,
  ◌≡◌, Bool, String, All, length, List, Option, ℕ, true, false, suc, some, none, ok, refl, [],
}
use rosbag2_storage_rrd.Pipeline.{
  no_rows, rows_len, time_columns, CdrDecoder, Rows, all_true, header_stamp,
}
use rosbag2_storage_rrd.Pipeline.Flow.{
  take_chunk, blob_column, Pipeline, MessageChunk, Reflection, struct_column, with_stamps,
}
use rosbag2_storage_rrd.Pipeline.Scatter.{count_true, scatter-weave, weave}

-- A column that covers `n` rows, if there is one.
abbrev pub Covers {ℓ} : {A : Type ℓ} → ℕ → Option (List A) → Type 0
Covers n none = Unit
Covers n (some column) = length column ≡ n

abbrev pub struct_values {ℓ} : {A : Type ℓ} → Option (String × List A) → Option (List A)
struct_values none = none
struct_values (some (component, column)) = some column

-- Every column of a chunk covers the same rows.
pub record IsRectangular {V : Type 0} (n : ℕ) (c : MessageChunk V) : Type 0 where
  pub times : All (λ t. length t.1 ≡ n) c.timelines
  pub blob : Covers n c.blob
  pub structs : Covers n (struct_values c.structs)

module _ (cdr : CdrDecoder) where
  -- What the decoder promises: it hands out one message per row that it has decoded,
  abbrev pub Holds : Option (Reflection cdr) → List Bool → Type 0
  Holds none marks = Unit
  Holds (some r) marks = length (cdr.finish r.decoder).0 ≡ count_true marks

  -- and a stamp per message, where there are stamps.
  abbrev pub Stamps : List (Option cdr.Value) → Type 0
  Stamps messages = Covers (length messages) (cdr.timestamp_nanos messages)

  -- The decoded messages as a column: each at its row's place, and null at the rows that were not
  -- decoded; none where there is no message.
  abbrev pub woven :
      String → List Bool → List (Option cdr.Value) → Option (String × List (Option cdr.Value))
  woven component marks [] = none
  woven component marks (m ∷ ms) = some (component, weave marks (m ∷ ms))

  abbrev pub struct_of :
      Option (Reflection cdr) → List Bool → Option (String × List (Option cdr.Value))
  struct_of none marks = none
  struct_of (some r) marks = woven r.component marks (cdr.finish r.decoder).0

  count_true-all_true : (bs : List Bool) → all_true bs ≡ true → count_true bs ≡ length bs
  count_true-all_true [] t = refl
  count_true-all_true (true ∷ bs) t = ap suc (count_true-all_true bs t)
  count_true-all_true (false ∷ bs) t = cc

  with_stamps-Covers :
      (n : ℕ) (times : List (String × List ℕ)) (complete : Bool) (stamps : Option (List ℕ))
      → All (λ t. length t.1 ≡ n) times
      → (complete ≡ true → Covers n stamps)
      → All (λ t. length t.1 ≡ n) (with_stamps cdr times complete stamps)
  with_stamps-Covers n times true (some stamps) h s =
      All-append (λ t. length t.1 ≡ n) times ((header_stamp, stamps) ∷ []) h (s refl, tt)
  with_stamps-Covers n times true none h s = h
  with_stamps-Covers n times false stamps h s = h

  pub with_stamps-append :
      (times : List (String × List ℕ)) (complete : Bool) (stamps : Option (List ℕ))
      → (extra : List (String × List ℕ)) × (with_stamps cdr times complete stamps ≡ times ++ extra)
  with_stamps-append times true (some stamps) = ((header_stamp, stamps) ∷ [], refl)
  with_stamps-append times true none = ([], sym (append-nil times))
  with_stamps-append times false stamps = ([], sym (append-nil times))

  -- The struct column covers the rows.
  struct_column-Covers :
      (n : ℕ) (rows : Rows) (times : List (String × List ℕ)) (component : String)
      (messages : List (Option cdr.Value))
      → length rows.decoded ≡ n
      → length messages ≡ count_true rows.decoded
      → Stamps messages
      → All (λ t. length t.1 ≡ n) times
      → (columns : List (String × List ℕ) × Option (String × List (Option cdr.Value)))
        × (struct_column cdr rows times component messages ≡ ok columns)
        × All (λ t. length t.1 ≡ n) columns.0
        × Covers n (struct_values columns.1)
        × (columns.1 ≡ woven component rows.decoded messages)
        × ((extra : List (String × List ℕ)) × (columns.0 ≡ times ++ extra))
  unfolding struct_column
  struct_column-Covers n rows times component [] marks same stamps h =
      ((times, none), refl, h, tt, refl, ([], sym (append-nil times)))
  struct_column-Covers n rows times component (m ∷ ms) marks same stamps h =
      let (scattered, covers, back) = scatter-weave (m ∷ ms) rows.decoded same in
      (
        (
          with_stamps cdr times (all_true rows.decoded) (cdr.timestamp_nanos (m ∷ ms)),
          some (component, weave rows.decoded (m ∷ ms)),
        ),
        ap
            (λ (x : Result (List (Option cdr.Value))). x >>= λ column. ok (
              with_stamps cdr times (all_true rows.decoded) (cdr.timestamp_nanos (m ∷ ms)),
              some (component, column),
            ))
            scattered,
        with_stamps-Covers n times (all_true rows.decoded) (cdr.timestamp_nanos (m ∷ ms)) h (λ t.
            subst (λ k. Covers k (cdr.timestamp_nanos (m ∷ ms)))
              (same ∙ count_true-all_true rows.decoded t ∙ marks) stamps),
        covers ∙ marks,
        refl,
        with_stamps-append times (all_true rows.decoded) (cdr.timestamp_nanos (m ∷ ms)),
      )

  time_columns-Covers :
      (k : Bool) (rows : Rows)
      → IsAligned k rows
      → All (λ t. length t.1 ≡ rows_len rows) (time_columns rows.times)
  unfolding time_columns rows_len
  time_columns-Covers k rows v = (refl, (v.sends, (v.sequences, tt)))

  module _ {C : Type 0} (build : MessageChunk cdr.Value → Result C) where
    blob_column-Covers :
        (k : Bool) (rows : Rows)
        → IsAligned k rows
        → Covers (rows_len rows) (blob_column cdr C build rows)
    unfolding rows_len
    blob_column-Covers k rows v = from (ltb 0 rows.blob_rows)
      where
        from : (b : Bool) → Covers (length rows.times.recv) (if b then some rows.blobs else none)
        from true = v.blobs
        from false = tt

    -- What is left of a pipeline whose rows are taken.
    pub record IsTaken (p : Pipeline cdr) (result : Result (Option C) × Pipeline cdr) : Type 0 where
      pub chunk : MessageChunk cdr.Value
      pub whole : IsRectangular (rows_len p.rows) chunk
      pub on_entity : chunk.entity ≡ p.entity
      pub extra : List (String × List ℕ)
      pub timed : chunk.timelines ≡ time_columns p.rows.times ++ extra
      pub placed : chunk.structs ≡ struct_of p.reflection p.rows.decoded
      pub raw : chunk.blob ≡ blob_column cdr C build p.rows
      pub built : result.0 ≡ (build chunk >>= λ c. ok (some c))
      pub emptied : result.1.rows ≡ no_rows
      pub counted : result.1.bytes ≡ 0

    unfoldable pub taken_by :
        Option (Reflection cdr) → Pipeline cdr → Result (Option C) × Pipeline cdr
    taken_by o p = elim o [
      | none ↦ (
        build (record {
          entity = p.entity;
          timelines = time_columns p.rows.times;
          blob = blob_column cdr C build p.rows;
          structs = none;
        })
            >>= λ chunk. ok (some chunk),
        record p { rows = no_rows; bytes = 0 },
      )
      | some r ↦ (
        struct_column cdr p.rows (time_columns p.rows.times) r.component (cdr.finish r.decoder).0
            >>= (λ columns.
                build (record {
                  entity = p.entity;
                  timelines = columns.0;
                  blob = blob_column cdr C build p.rows;
                  structs = columns.1;
                })
                >>= λ chunk. ok (some chunk)),
        record p {
          rows = no_rows;
          bytes = 0;
          reflection = some (record r { decoder = (cdr.finish r.decoder).1 });
        },
      )
    ]

    taken_by-IsTaken :
        (o : Option (Reflection cdr)) (p : Pipeline cdr)
        → p.reflection ≡ o
        → IsAligned p.keep_raw p.rows
        → Holds o p.rows.decoded
        → ((messages : List (Option cdr.Value)) → Stamps messages)
        → IsTaken p (taken_by o p)
    unfolding taken_by
    taken_by-IsTaken none p same v holds stamps = record {
      chunk = record {
        entity = p.entity;
        timelines = time_columns p.rows.times;
        blob = blob_column cdr C build p.rows;
        structs = none;
      };
      whole = record {
        times = time_columns-Covers p.keep_raw p.rows v;
        blob = blob_column-Covers p.keep_raw p.rows v;
        structs = tt;
      };
      on_entity = refl;
      extra = [];
      timed = sym (append-nil (time_columns p.rows.times));
      placed = ap (λ (o : Option (Reflection cdr)). struct_of o p.rows.decoded) (sym same);
      raw = refl;
      built = refl;
      emptied = refl;
      counted = refl;
    }
    taken_by-IsTaken (some r) p same v holds stamps =
        let (columns, made, times, structs, put, more) =
          struct_column-Covers (rows_len p.rows) p.rows (time_columns p.rows.times) r.component
            (cdr.finish r.decoder).0 (unfold rows_len in v.marks) holds
            (stamps (cdr.finish r.decoder).0) (time_columns-Covers p.keep_raw p.rows v) in
        record {
          chunk = record {
            entity = p.entity;
            timelines = columns.0;
            blob = blob_column cdr C build p.rows;
            structs = columns.1;
          };
          whole = record {
            times = times;
            blob = blob_column-Covers p.keep_raw p.rows v;
            structs = structs;
          };
          on_entity = refl;
          extra = more.0;
          timed = more.1;
          placed =
              put ∙ ap (λ (o : Option (Reflection cdr)). struct_of o p.rows.decoded) (sym same);
          raw = refl;
          built =
              ap
                (λ (x : Result
                    (List (String × List ℕ) × Option (String × List (Option cdr.Value)))).
                  x >>= λ columns.
                  build (record {
                    entity = p.entity;
                    timelines = columns.0;
                    blob = blob_column cdr C build p.rows;
                    structs = columns.1;
                  })
                  >>= λ chunk. ok (some chunk))
                made;
          emptied = refl;
          counted = refl;
        }

    pub take_chunk-IsTaken :
        (p : Pipeline cdr)
        → 0 < rows_len p.rows
        → IsAligned p.keep_raw p.rows
        → Holds p.reflection p.rows.decoded
        → ((messages : List (Option cdr.Value)) → Stamps messages)
        → IsTaken p (take_chunk cdr C build p)
    unfolding take_chunk rows_len taken_by
    take_chunk-IsTaken p some_rows v holds stamps =
        let other : (rows_len p.rows == 0) ≡ false = ground arith in
        subst (λ (b : Bool). IsTaken p (if b then (ok none, p) else taken_by p.reflection p))
          (sym other) (taken_by-IsTaken p.reflection p refl v holds stamps)
