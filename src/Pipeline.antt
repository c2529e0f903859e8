-- ===== src/Pipeline.antt =====
-- pipeline.rs: from messages to the chunks a recording asked for. The CDR decoder, the lenses, and
-- the making of a chunk are parameters: what the crates re_ros_msg, re_lenses and re_chunk do.
pub mod Scatter
pub mod Buffer
pub mod Flow
pub mod Reflect
pub mod Stored
pub mod Take
pub mod Column
pub mod Emptied
use rosbag2_storage_rrd.Config.{raw, reflected, lenses, keep, discard}
use rosbag2_storage_rrd.Config.{
  reflected, lenses, raw, no_representations_set, Unmatched, Representations, insert_into, contains,
}
use rosbag2_storage_rrd.Arrow.{Bytes}
use rosbag2_storage_rrd.Base.{
  scatter_failed, get_elem?, ◌>>=◌, ◌&&◌, str_eq, ◌||◌, not, Result, if◌then◌else◌, length, ◌+◌,
  ◌++◌, ◌∷◌, Bool, String, Option, List, ℕ, true, false, some, none, ok, err, [],
}

-- Time columns buffered alongside the message columns.
pub record Times : Type 0 where
  pub recv : List ℕ
  pub send : List ℕ
  pub sequence : List ℕ

unfoldable pub push_times : ℕ → ℕ → ℕ → Times → Times
push_times recv send sequence times = record {
  recv = times.recv ++ recv ∷ [];
  send = times.send ++ send ∷ [];
  sequence = times.sequence ++ sequence ∷ [];
}

abbrev pub recv_timestamp : String
recv_timestamp = "recv_timestamp"

abbrev pub send_timestamp : String
send_timestamp = "send_timestamp"

abbrev pub sequence_number : String
sequence_number = "sequence_number"

abbrev pub header_stamp : String
header_stamp = "header_stamp"

abbrev pub reflectable_encoding : String
reflectable_encoding = "ros2msg"

-- The three timelines every row carries.
unfoldable pub time_columns : Times → List (String × List ℕ)
time_columns times =
    (recv_timestamp, times.recv)
    ∷ (send_timestamp, times.send)
    ∷ (sequence_number, times.sequence)
    ∷ []

-- The rows buffered since the last flush: a null blob is `none`.
pub record Rows : Type 0 where
  pub times : Times
  pub blobs : List (Option Bytes)
  pub blob_rows : ℕ
  pub decoded : List Bool

abbrev pub no_rows : Rows
no_rows = record {
  times = record { recv = []; send = []; sequence = [] };
  blobs = [];
  blob_rows = 0;
  decoded = [];
}

unfoldable pub rows_len : Rows → ℕ
rows_len rows = length rows.times.recv

abbrev pub added : Option Bytes → ℕ → ℕ
added none n = n
added (some cdr) n = n + 1

unfoldable pub push_row : Option Bytes → Bool → ℕ → ℕ → ℕ → Rows → Rows
unfolding push_times
push_row blob decoded recv send sequence rows = record {
  times = push_times recv send sequence rows.times;
  decoded = rows.decoded ++ decoded ∷ [];
  blobs = rows.blobs ++ blob ∷ [];
  blob_rows = added blob rows.blob_rows;
}

abbrev pub all_true : List Bool → Bool
all_true [] = true
all_true (b ∷ bs) = b && all_true bs

-- The index into the decoded rows that each row takes, null for a row the decoder dropped.
unfoldable pub indices : ℕ → List Bool → List (Option ℕ)
indices next [] = []
indices next (true ∷ bs) = some next ∷ indices (next + 1) bs
indices next (false ∷ bs) = none ∷ indices next bs

module _ {V : Type 0} where
  -- `arrow::compute::take`: a null index gives a null, one out of range fails.
  unfoldable pub take_indices : List (Option V) → List (Option ℕ) → Result (List (Option V))
  take_indices values [] = ok []
  take_indices values (none ∷ is) = take_indices values is >>= λ vs. ok (none ∷ vs)
  take_indices values (some i ∷ is) = elim (get_elem? values i) [
    | none ↦ err scatter_failed
    | some v ↦ take_indices values is >>= λ vs. ok (v ∷ vs)
  ]

  -- Puts the rows the decoder dropped back as nulls.
  unfoldable pub scatter : List (Option V) → List Bool → Result (List (Option V))
  unfolding indices take_indices
  scatter dense decoded =
      if all_true decoded then ok dense else take_indices dense (indices 0 decoded)

-- What `decode_message` answers.
pub data Decoded : Type 0 where
  decoded cancelled unrecoverable : Decoded

-- `CdrArrowDecoder` and the plan it follows: a row that fails is cancelled, and `finish` hands out
-- the rows decoded since the last one.
pub record CdrDecoder : Type 1 where
  pub State : Type 0
  pub Value : Type 0
  pub decode_message : State → Bytes → Decoded × State
  pub finish : State → List (Option Value) × State
  pub timestamp_nanos : List (Option Value) → Option (List ℕ)

-- What a `LensSet` is known by: the components its lenses consume, and whether the struct of a topic
-- no lens matched is forwarded.
pub data OutputMode : Type 0 where
  forward_all forward_unmatched drop_unmatched : OutputMode

pub record LensSet : Type 0 where
  pub mode : OutputMode
  pub inputs : List String
  pub keeps_unmatched : Bool

unfoldable pub matches : List String → String → Bool
matches [] component = false
matches (input ∷ inputs) component = str_eq input component || matches inputs component

-- The lenses a recording applies; `all` is the inputs of the built-in ones, if they can be built.
unfoldable pub output_mode : Representations → Unmatched → OutputMode
unfolding contains
output_mode representations unmatched =
    if contains representations reflected
    then forward_all
    else elim unmatched [ keep ↦ forward_unmatched | discard ↦ drop_unmatched ]

abbrev pub keeps : OutputMode → Bool
keeps drop_unmatched = false
keeps _ = true

unfoldable pub lenses_for :
    Result (List String) → Representations → Unmatched → Result (Option LensSet)
unfolding output_mode contains
lenses_for all representations unmatched =
    if contains representations lenses
    then (all >>= λ inputs. ok (
        some (record {
          mode = output_mode representations unmatched;
          inputs = inputs;
          keeps_unmatched = keeps (output_mode representations unmatched);
        })))
    else ok none

abbrev stored_lens : Option LensSet → String → Representations → Representations
stored_lens none component kept = kept
stored_lens (some set_) component kept =
    if matches set_.inputs component
    then insert_into kept lenses
    else if set_.keeps_unmatched
    then insert_into kept reflected
    else kept

-- What a topic will actually hold; its descriptor if it could be reflected.
unfoldable pub stored : Representations → Option String → Option LensSet → Representations
unfolding insert_into contains matches
stored asked none set_ = insert_into no_representations_set raw
stored asked (some component) set_ =
    let kept_raw =
      if contains asked raw
      then insert_into no_representations_set raw
      else no_representations_set in
    let kept = if contains asked reflected then insert_into kept_raw reflected else kept_raw in
    stored_lens set_ component kept

unfoldable pub is_replayable : Representations → Bool
unfolding contains
is_replayable kept = contains kept raw || contains kept reflected

unfoldable pub records_nothing : Representations → Bool
records_nothing kept = not (kept.has_raw || kept.has_reflected || kept.has_lenses)
