-- ===== src/Reader/Seek.antt =====
-- reader.rs: moving the read head and changing the filter. A wind takes a number of rounds, one for
-- each row that it passes over; too few of them is the error `out_of_fuel`.
use rosbag2_storage_rrd.Replay.{CdrWriter}
use rosbag2_storage_rrd.Reader.Steps.{is_none, advance}
use rosbag2_storage_rrd.Reader.Pass.{next_row, read_next, restart}
use rosbag2_storage_rrd.Reader.Windows.{key}
use rosbag2_storage_rrd.Base.{
  panicked, get_elem?, ◌∷◌, str_eq, out_of_fuel, ◌&&◌, ◌==◌, leb, if◌then◌else◌, ◌||◌, ltb, ℕ,
  Option, String, Bool, List, true, false, zero, suc, some, none, ok, err, [],
}
use rosbag2_storage_rrd.Reader.{i64_min, and_then, Message, Method, SortKey, RrdFile, skip_index_to}

-- `topics == self.filter`
unfoldable pub same_topics : List String → List String → Bool
same_topics [] [] = true
same_topics (x ∷ xs) (y ∷ ys) = str_eq x y && same_topics xs ys
same_topics xs ys = false

abbrev ltb_key : SortKey → SortKey → Bool
ltb_key a b = ltb a.0 b.0 || (a.0 == b.0 && ltb a.1 b.1)

-- Whether `seek` has reached its time.
unfoldable pub reached : Bool → ℕ → SortKey → Bool
reached is_reverse timestamp k = if is_reverse then leb k.0 timestamp else leb timestamp k.0

-- Whether `resume` has passed the cursor, or without one the position.
unfoldable pub passed : Bool → Option SortKey → ℕ → SortKey → Bool
passed is_reverse none position k = if is_reverse then leb k.0 position else leb position k.0
passed is_reverse (some cursor) position k =
    if is_reverse then ltb_key k cursor else ltb_key cursor k

-- What a wind does with the row that `next_row` chose: `again` goes on behind a row whose key does
-- not pass the test.
unfoldable pub wind_chosen :
    (SortKey → Bool) → Method (Unit {0}) → Option (ℕ × ℕ) → Method (Unit {0})
unfolding advance key
wind_chosen test again none r = (ok tt, r)
wind_chosen test again (some (i, row)) r = elim (get_elem? r.window i) [
  | none ↦ (err panicked, r)
  | some w ↦ elim (key w) [
    | none ↦ (ok tt, r)
    | some k ↦ let rest = again (advance i r) in if test k then (ok tt, r) else rest
  ]
]

module _ (file : RrdFile) where
  -- Consumes rows until the key of the next one passes the test.
  unfoldable pub wind : (SortKey → Bool) → ℕ → Method (Unit {0})
  unfolding wind_chosen
  wind test zero r = (err out_of_fuel, r)
  wind test (suc fuel) r = and_then (next_row file r) (wind_chosen test (wind test fuel))

  -- Moves the read head to the first message at or after `timestamp`.
  unfoldable pub seek : ℕ → ℕ → Method (Unit {0})
  unfolding restart skip_index_to wind reached
  seek fuel timestamp r = and_then (restart file r) λ _ r1.
      and_then (wind (reached r1.is_reverse timestamp) fuel (skip_index_to timestamp r1))
        λ _ r2. (ok tt, record r2 { position = timestamp; cursor = none })

  -- Rebuilds the pass and winds it back to just after the last row handed out.
  unfoldable pub resume : ℕ → Method (Unit {0})
  unfolding restart skip_index_to wind passed
  resume fuel r =
      if is_none r.cursor && r.position == i64_min
      then restart file r
      else and_then (restart file r) λ _ r1.
        and_then
          (wind (passed r1.is_reverse r.cursor r.position) fuel
            (skip_index_to r.position (record r1 { position = r.position })))
          λ _ r2. (ok tt, record r2 { position = r.position; cursor = r.cursor })

  unfoldable pub set_filter : ℕ → List String → Method (Unit {0})
  unfolding same_topics resume
  set_filter fuel topics r =
      if same_topics topics r.filter
      then (ok tt, r)
      else if is_none r.index
      then (ok tt, record r { filter = topics })
      else resume fuel (record r { filter = topics })

  module _ (cdr : CdrWriter) where
    -- `read_next`, with the message kept until the next read.
    unfoldable pub read_next_borrowed : ℕ → Method (Option Message)
    unfolding read_next
    read_next_borrowed fuel r =
        and_then (read_next file cdr fuel r)
          λ message r'. (ok message, record r' { last_message = message })
