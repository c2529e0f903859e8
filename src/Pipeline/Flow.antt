-- ===== src/Pipeline/Flow.antt =====
-- `Pipeline` of pipeline.rs: one topic's messages in, chunks out.
use rosbag2_storage_rrd.Config.{contains, raw, reflected, lenses}
use rosbag2_storage_rrd.Base.{
  length, ◌+◌, ◌>>=◌, ◌==◌, not, ◌++◌, ltb, if◌then◌else◌, ◌||◌, ◌∷◌, ℕ, Result, List, Bool, Option,
  String, true, false, some, none, ok, err, [],
}
use rosbag2_storage_rrd.Pipeline.{
  all_true, header_stamp, no_rows, Representations, time_columns, LensSet, Decoded, stored, Rows,
  Bytes, contains, rows_len, scatter, push_row, CdrDecoder, decoded, cancelled, unrecoverable,
}

-- A chunk as `take` puts it together: the columns that it has.
pub record MessageChunk (V : Type 0) : Type 0 where
  pub entity : String
  pub timelines : List (String × List ℕ)
  pub blob : Option (List (Option Bytes))
  pub structs : Option (String × List (Option V))

-- What `lenses.apply` yields: a chunk, or a failure with the chunk it could still make.
pub data Applied (C : Type 0) : Type 0 where
  applied : C → Applied C
  partial : Option C → Applied C

module _ (cdr : CdrDecoder) where
  pub record Reflection : Type 0 where
    pub decoder : cdr.State
    pub component : String

  pub record Pipeline : Type 0 where
    pub entity : String
    pub keep_raw : Bool
    pub reflection : Option Reflection
    pub rows : Rows
    pub lenses : Option LensSet
    pub stored_as : Representations
    pub bytes : ℕ

  abbrev pub component_of : Option Reflection → Option String
  component_of none = none
  component_of (some made) = some made.component

  -- A topic's pipeline; `reflect` is what `Reflection::new` makes of its type.
  unfoldable pub new : String → Representations → Result Reflection → Option LensSet → Pipeline
  unfolding contains stored
  new entity asked reflect set_ =
      let reflection : Option Reflection =
        if contains asked reflected || contains asked lenses
        then (elim reflect [ ok made ↦ some made | err e ↦ none ])
        else none in
      record {
        entity = entity;
        keep_raw = contains asked raw;
        reflection = reflection;
        rows = no_rows;
        lenses = set_;
        stored_as = stored asked (component_of reflection) set_;
        bytes = 0;
      }

  unfoldable pub len : Pipeline → ℕ
  unfolding rows_len
  len p = rows_len p.rows

  -- What becomes of the pipeline when the decoder has answered: after an error that it cannot
  -- recover from, the reflection goes, and without raw copies the buffered rows with it.
  abbrev pub decided : Pipeline → Reflection → Decoded × cdr.State → Bool × Pipeline
  decided p r (decoded, state) =
      (true, record p { reflection = some (record r { decoder = state }) })
  decided p r (cancelled, state) =
      (false, record p { reflection = some (record r { decoder = state }) })
  decided p r (unrecoverable, state) =
      if p.keep_raw
      then (false, record p { reflection = none })
      else (false, record p { reflection = none; bytes = 0; rows = no_rows })

  -- What the decoder makes of a message, and the pipeline it leaves.
  unfoldable pub decode : Bytes → Pipeline → Bool × Pipeline
  decode message p = elim p.reflection [
    | none ↦ (false, p)
    | some r ↦ decided p r (cdr.decode_message r.decoder message)
  ]

  abbrev pub blob_of : Bool → Bytes → Option Bytes
  blob_of true message = some message
  blob_of false message = none

  -- Appends the row of a message that the decoder has seen.
  unfoldable pub append : Bytes → ℕ → ℕ → ℕ → Bool × Pipeline → Pipeline
  unfolding push_row
  append message recv send sequence (is_decoded, p) = record p {
    rows =
        push_row (blob_of (p.keep_raw || not is_decoded) message) is_decoded recv send sequence
          p.rows;
    bytes = p.bytes + length message;
  }

  -- Buffers one message as one row, in every form the recording keeps of it.
  unfoldable pub push : Bytes → ℕ → ℕ → ℕ → Pipeline → Pipeline
  unfolding decode append
  push message recv send sequence p = append message recv send sequence (decode message p)

  -- The header stamps are a timeline only if every row was decoded.
  abbrev pub with_stamps : List (String × List ℕ) → Bool → Option (List ℕ) → List (String × List ℕ)
  with_stamps times true (some stamps) = times ++ (header_stamp, stamps) ∷ []
  with_stamps times true none = times
  with_stamps times false stamps = times

  -- The struct column, with the timelines it adds to.
  unfoldable pub struct_column :
      Rows
      → List (String × List ℕ)
      → String
      → List (Option cdr.Value)
      → Result (List (String × List ℕ) × Option (String × List (Option cdr.Value)))
  unfolding scatter
  struct_column rows times component [] = ok (times, none)
  struct_column rows times component (m ∷ ms) = scatter (m ∷ ms) rows.decoded >>= λ column. ok (
    with_stamps times (all_true rows.decoded) (cdr.timestamp_nanos (m ∷ ms)),
    some (component, column),
  )

  module _ (C : Type 0) (build : MessageChunk cdr.Value → Result C) where
    abbrev pub blob_column : Rows → Option (List (Option Bytes))
    blob_column rows = if ltb 0 rows.blob_rows then some rows.blobs else none

    -- Takes the buffered rows out as one chunk; rows and decoder are emptied together.
    unfoldable pub take_chunk : Pipeline → Result (Option C) × Pipeline
    unfolding rows_len time_columns struct_column
    take_chunk p = if rows_len p.rows == 0 then (ok none, p) else (elim p.reflection [
      | none ↦ (
        build (record {
          entity = p.entity;
          timelines = time_columns p.rows.times;
          blob = blob_column p.rows;
          structs = none;
        })
            >>= λ chunk. ok (some chunk),
        record p { rows = no_rows; bytes = 0 },
      )
      | some r ↦ (
        struct_column p.rows (time_columns p.rows.times) r.component (cdr.finish r.decoder).0
            >>= (λ columns.
                build (record {
                  entity = p.entity;
                  timelines = columns.0;
                  blob = blob_column p.rows;
                  structs = columns.1;
                })
                >>= λ chunk. ok (some chunk)),
        record p {
          rows = no_rows;
          bytes = 0;
          reflection = some (record r { decoder = (cdr.finish r.decoder).1 });
        },
      )
    ])

    abbrev pub outputs : List (Applied C) → List C
    outputs [] = []
    outputs (applied chunk ∷ rest) = chunk ∷ outputs rest
    outputs (partial (some chunk) ∷ rest) = chunk ∷ outputs rest
    outputs (partial none ∷ rest) = outputs rest

    module _ (lenses_apply : LensSet → C → List (Applied C)) where
      unfoldable pub apply_lenses : Pipeline → C → List C
      apply_lenses p chunk = elim p.lenses [
        | none ↦ chunk ∷ []
        | some set_ ↦ outputs (lenses_apply set_ chunk)
      ]

      abbrev pub flushed : Result (Option C) × Pipeline → Result (List C) × Pipeline
      flushed (err e, p) = (err e, p)
      flushed (ok none, p) = (ok [], p)
      flushed (ok (some chunk), p) = (ok (apply_lenses p chunk), p)

      -- The chunk of the buffered messages, with what the lenses derive from it.
      unfoldable pub flush_rows : Pipeline → Result (List C) × Pipeline
      unfolding take_chunk apply_lenses
      flush_rows p = flushed (take_chunk p)
