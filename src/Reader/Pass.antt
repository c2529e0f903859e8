-- ===== src/Reader/Pass.antt =====
-- reader.rs: the pass over the file. The loops that the source leaves to run until something
-- happens take a number of rounds; too few of them is the error `out_of_fuel`.
use rosbag2_storage_rrd.Reader.Steps.{
  is_none, push, message_at, pull_scanned, load_first, is_settled, advance, playback_position,
  supply, choose,
}
use rosbag2_storage_rrd.Base.{
  ℕ, zero, suc, ◌+◌, ◌-◌, [], ◌∷◌, Option, none, some, Bool, true, false, not, ◌&&◌, Result, ok,
  err, ◌>>=◌, leb, if◌then◌else◌, get_elem?, get_or, length, panicked, out_of_fuel,
}
use rosbag2_storage_rrd.Arrow.{lookup, i64_min, i64_zero}
use rosbag2_storage_rrd.Replay.{CdrWriter}
use rosbag2_storage_rrd.Index.{ChunkRef, ChunkIndex}
use rosbag2_storage_rrd.Reader.Windows.{Window, sequence_number}
use rosbag2_storage_rrd.Reader.{load, RrdFile, Message, Reader, Method, and_then, topic_at, wanted}

abbrev pub same : Bool → Bool → Bool
same true b = b
same false b = not b

-- What follows a pull: the end of the file, or the loop with one more window.
abbrev pub after_pull :
    (Reader → Result (Unit {0}) × Reader)
    → Result (Option Window) × Reader
    → Result (Unit {0}) × Reader
after_pull loop (err e, r) = (err e, r)
after_pull loop (ok none, r) = (ok tt, r)
after_pull loop (ok (some w), r) = loop (push w r)

module _ (file : RrdFile) where
  -- Drops the merge state and starts the forward pass again from the beginning.
  unfoldable pub restart : Method (Unit {0})
  restart r =
      let r' : Reader = record r {
        window = [];
        next_chunk = 0;
        position = i64_min;
        cursor = none;
      } in
      elim r.index [
        | some ix ↦ (ok tt, record r' { at_chunk = 0 })
        | none ↦ elim file.opened [
          | err e ↦ (err e, r')
          | ok _ ↦ elim file.decoded [
            | err e ↦ (err e, r')
            | ok msgs ↦ (ok tt, record r' { source = some msgs })
          ]
        ]
      ]

  unfoldable pub set_reverse : Bool → Method (Unit {0})
  unfolding restart
  set_reverse b r =
      if same b r.is_reverse then (ok tt, r) else restart (record r { is_reverse = b })

  -- The window of a chunk that the index names; none where the loop goes on to the next one.
  unfoldable pub load_ref : Reader → ChunkRef → Result (Option Window)
  load_ref r ref = elim (lookup ref.entity r.topic_index) [
    | none ↦ ok none
    | some topic ↦ do
      info ← topic_at r topic
      if wanted r info then load file (ref.id ∷ []) >>= load_first r topic info else ok none
  ]

  -- Each round takes the next chunk; the index has at most `fuel` left.
  unfoldable pub pull_indexed : ℕ → ChunkIndex → Method (Option Window)
  pull_indexed zero ix r = (ok none, r)
  pull_indexed (suc fuel) ix r =
      let r' : Reader = record r { at_chunk = r.at_chunk + 1 } in
      let rest = pull_indexed fuel ix r' in
      if leb (length ix.chunks) r.at_chunk
      then (ok none, r)
      else elim (get_elem? ix.chunks (playback_position ix r)) [
        | none ↦ (err panicked, r')
        | some ref ↦ elim (load_ref r' ref) [
          | err e ↦ (err e, r')
          | ok none ↦ rest
          | ok (some w) ↦ (ok (some w), r')
        ]
      ]

  -- Pulls the next chunk out of the file and turns it into a window.
  unfoldable pub pull : Method (Option Window)
  pull r = elim r.index [
    | some ix ↦ pull_indexed (length ix.chunks - r.at_chunk) ix r
    | none ↦ elim r.source [ none ↦ (ok none, r) | some msgs ↦ pull_scanned msgs r ]
  ]

  -- Every window at once: reverse playback without an index.
  unfoldable pub fill_all : ℕ → Method (Unit {0})
  fill_all zero r = (err out_of_fuel, r)
  fill_all (suc fuel) r =
      and_then (pull r)
        λ pulled r'. elim pulled [ none ↦ (ok tt, r') | some w ↦ fill_all fuel (push w r') ]

  unfoldable pub fill_loop : ℕ → Method (Unit {0})
  fill_loop zero r = (err out_of_fuel, r)
  fill_loop (suc fuel) r =
      let rest = after_pull (fill_loop fuel) (pull r) in if is_settled r then (ok tt, r) else rest

  -- Reads ahead until every chunk that could hold the next message is in the window.
  unfoldable pub fill : Method (Unit {0})
  fill r =
      if r.is_reverse && is_none r.index
      then fill_all (suc (supply r)) r
      else fill_loop (suc (supply r)) r

  unfoldable pub next_row : Method (Option (ℕ × ℕ))
  next_row r = and_then (fill r) λ _ r'. (ok (choose r'), r')

  module _ (cdr : CdrWriter) where
    -- What `take_row` does with the row that `next_row` chose.
    unfoldable pub take_chosen : Option (ℕ × ℕ) → Method (Option Message)
    take_chosen none r = (ok none, r)
    take_chosen (some (i, row)) r = elim (get_elem? r.window i) [
      | none ↦ (err panicked, r)
      | some w ↦ elim (topic_at r w.topic >>= λ info. message_at cdr info w row) [
        | err e ↦ (err e, r)
        | ok m ↦ (
          ok (some m),
          record (advance i r) {
            cursor = some (get_or w.recv_timestamps row i64_zero, sequence_number w row);
          },
        )
      ]
    ]

    -- Consumes the next message in receive-time order.
    unfoldable pub take_row : Method (Option Message)
    unfolding take_chosen
    take_row r = and_then (next_row r) take_chosen

    -- What `read_next` does with it: `again` goes on behind a row that the filter drops.
    unfoldable pub read_chosen : Method (Option Message) → Option (ℕ × ℕ) → Method (Option Message)
    unfolding take_row
    read_chosen again none r = (ok none, r)
    read_chosen again (some (i, row)) r = elim (get_elem? r.window i) [
      | none ↦ (err panicked, r)
      | some w ↦ elim (topic_at r w.topic) [
        | err e ↦ (err e, r)
        | ok info ↦ let passed = again (advance i r) in if wanted r info then take_row r else passed
      ]
    ]

    -- Reads the next message that passes the filter; each round passes over one row.
    unfoldable pub read_next : ℕ → Method (Option Message)
    unfolding read_chosen
    read_next zero r = (err out_of_fuel, r)
    read_next (suc fuel) r = and_then (next_row r) (read_chosen (read_next fuel))
