-- ===== src/Reader/Merge/Head.antt =====
-- The row at a window's cursor: what `key` and `head` show of it, and what moving the cursor leaves.

use rosbag2_storage_rrd.Reader.Steps.{re_encode, payload, message_at}
use rosbag2_storage_rrd.Arrow.{i64_zero}
use rosbag2_storage_rrd.Reader.Merge.{Row, row_at, rows, rows_from}
use rosbag2_storage_rrd.Reader.Windows.{data_row, head, Window, key}
use rosbag2_storage_rrd.Replay.{CdrWriter}
use rosbag2_storage_rrd.Reader.{Reader}
use rosbag2_storage_rrd.Base.{
  get_or-get_elem?, sym, get_or, get_elem?-lt, ◌∷◌, ◌-◌, get_elem?-length, ap, ◌≡◌, ℕ, ◌≤◌, length,
  ◌<◌, ◌+◌, zero, suc, some, none, refl, arith, [],
}

module _ (cdr : CdrWriter) (s : Reader) where
  abbrev pub moved : Window → Window
  moved w = record w { next = w.next + 1 }

  -- The row at the cursor.
  abbrev pub first : Window → Row
  first w = row_at cdr s w w.next

  rows_from-moved : (w : Window) (i n : ℕ) → rows_from cdr s (moved w) i n ≡ rows_from cdr s w i n
  unfolding rows_from data_row message_at payload re_encode
  rows_from-moved w i zero = refl
  rows_from-moved w i (suc n) = ap (◌∷◌ (row_at cdr s w i)) (rows_from-moved w (i + 1) n)

  pub rows-moved :
      (w : Window)
      → w.next < length w.recv_timestamps
      → rows cdr s w ≡ first w ∷ rows cdr s (moved w)
  unfolding rows
  rows-moved w h =
      let left : length w.recv_timestamps - w.next ≡ suc (length w.recv_timestamps - (w.next + 1)) =
        omega arith in
      rw left (
        ap (◌∷◌ (first w))
          (sym (rows_from-moved w (w.next + 1) (length w.recv_timestamps - (w.next + 1)))))

  pub rows-drained : (w : Window) → length w.recv_timestamps ≤ w.next → rows cdr s w ≡ []
  unfolding rows
  rows-drained w h = let left : length w.recv_timestamps - w.next ≡ 0 = omega arith in rw left refl

  pub key_lem : (w : Window) → w.next < length w.recv_timestamps → key w ≡ some (first w).0
  unfolding key row_at
  key_lem w h =
      let (recv, e) = get_elem?-lt w.recv_timestamps w.next h in
      rw (e, key) (ground (arith, get_or-get_elem? w.recv_timestamps w.next i64_zero e))

  pub head_lem :
      (w : Window)
      → w.next < length w.recv_timestamps
      → (send : ℕ) × (head w ≡ some ((first w).0.0, send))
  unfolding head row_at
  head_lem w h =
      let (recv, e) = get_elem?-lt w.recv_timestamps w.next h in
      (
        get_or w.send_timestamps w.next recv,
        rw (e, head) (ground (arith, get_or-get_elem? w.recv_timestamps w.next i64_zero e)),
      )

  pub head-drained : (w : Window) → length w.recv_timestamps ≤ w.next → head w ≡ none
  unfolding head
  head-drained w h = rw (get_elem?-length w.recv_timestamps w.next h, head)
