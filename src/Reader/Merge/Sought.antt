-- ===== src/Reader/Merge/Sought.antt =====
-- Where `seek` and `set_filter` of reader.rs put the read head, in terms of times and cursors.
use rosbag2_storage_rrd.Reader.Steps.{is_none}
use rosbag2_storage_rrd.Reader.Merge.Fill.{IsReady, remaining}
use rosbag2_storage_rrd.Reader.Merge.Wind.{Wound}
use rosbag2_storage_rrd.Reader.Merge.{settings, Row, IsIndexed, playback, Loads}
use rosbag2_storage_rrd.Reader.Merge.Rewind.{all_rows}
use rosbag2_storage_rrd.Reader.Seek.{same_topics, set_filter, seek, reached, passed}
use rosbag2_storage_rrd.Index.Bounds.{IsOrdered}
use rosbag2_storage_rrd.Replay.{CdrWriter}
use rosbag2_storage_rrd.Reader.{SortKey, i64_min, ChunkIndex, Reader, RrdFile}
use rosbag2_storage_rrd.Base.{
  All-imp, ◌⊎◌, ◌↔◌, ◌≤◌, String, ◌==◌, ◌&&◌, ◌++◌, Result, ◌<◌, length, List, All, ◌≡◌, Option, ℕ,
  Bool, true, false, some, none, ok, arith,
}
use mathlib.Core.List.{Permᴰ}
use rosbag2_storage_rrd.Reader.Merge.Seeking.{seek-Wound, set_filter-Wound}
use rosbag2_storage_rrd.Reader.Merge.Fill.{IsReady}

-- At or after a time; at or before it, in reverse.
abbrev pub FromTime : Bool → ℕ → SortKey → Type 0
FromTime false t k = t ≤ k.0
FromTime true t k = k.0 ≤ t

-- Behind a cursor in the direction of playback, or without one from the position on.
abbrev pub Behind : Bool → Option SortKey → ℕ → SortKey → Type 0
Behind b none position k = FromTime b position k
Behind false (some cursor) position k = (cursor.0 < k.0) ⊎ ((cursor.0 ≡ k.0) × (cursor.1 < k.1))
Behind true (some cursor) position k = (k.0 < cursor.0) ⊎ ((k.0 ≡ cursor.0) × (k.1 < cursor.1))

reached-FromTime : (b : Bool) (t : ℕ) (k : SortKey) → (reached b t k ≡ true) ↔ FromTime b t k
unfolding reached
reached-FromTime false t k = ((λ e. ground arith), (λ h. ground arith))
reached-FromTime true t k = ((λ e. ground arith), (λ h. ground arith))

passed-Behind :
    (b : Bool) (cursor : Option SortKey) (t : ℕ) (k : SortKey)
    → (passed b cursor t k ≡ true) ↔ Behind b cursor t k
unfolding passed
passed-Behind false none t k = ((λ e. ground arith), (λ h. ground arith))
passed-Behind true none t k = ((λ e. ground arith), (λ h. ground arith))
passed-Behind false (some u) t k = ((λ e. ground arith), (λ h. ground arith))
passed-Behind true (some u) t k = ((λ e. ground arith), (λ h. ground arith))

module _ (file : RrdFile) (cdr : CdrWriter) (s : Reader) (ix : ChunkIndex) where
  -- A call that moves the read head: of the rows `left`, exactly those that `P` holds of are still to
  -- be read; the time and the cursor are where they belong.
  pub record Sought (P : SortKey → Type 0) (t : ℕ) (cursor : Option SortKey) (left : List Row)
      (result : Result (Unit {0}) × Reader) : Type 0 where
    pub after : Reader
    pub done : result ≡ (ok tt, after)
    pub ready : IsReady file cdr s ix after
    pub consumed : List Row
    pub perm : Permᴰ left (consumed ++ remaining file cdr s ix after)
    pub skipped : All (λ x. ¬ P x.0) consumed
    pub kept : All (λ x. P x.0) (remaining file cdr s ix after)
    pub position : after.position ≡ t
    pub cursor_is : after.cursor ≡ cursor

  Sought-of_Wound :
      (P : SortKey → Type 0) (test : SortKey → Bool) (t : ℕ) (cursor : Option SortKey)
      (left : List Row) (result : Result (Unit {0}) × Reader)
      → ((k : SortKey) → (test k ≡ true) ↔ P k)
      → (w : Wound file cdr s ix test left result) × (w.after.position ≡ t)
        × (w.after.cursor ≡ cursor)
      → Sought P t cursor left result
  Sought-of_Wound P test t cursor left result same (w, at, cursor_at) = record {
    after = w.after;
    done = w.done;
    ready = w.ready;
    consumed = w.consumed;
    perm = w.perm;
    skipped =
        All-imp (λ (x : Row). test x.0 ≡ false) (λ x. ¬ P x.0) w.consumed
          (λ x e h. cc (e, (same x.0).1 h)) w.failed;
    kept =
        All-imp (λ (x : Row). test x.0 ≡ true) (λ x. P x.0) (remaining file cdr s ix w.after)
          (λ x e. (same x.0).0 e) w.passing;
    position = at;
    cursor_is = cursor_at;
  }

  module _ (ordered : IsOrdered ix) (loads : All (Loads file cdr s) (playback s ix)) where
    -- Over an ordered index whose chunks hold what the footer promises, with more rounds than rows
    -- are recorded: `seek` succeeds wherever the read head stood. What is left to read are exactly
    -- the rows at or after the time, or in reverse at or before it, and the cursor is forgotten.
    pub seek-Sought :
        (fuel t : ℕ) (r : Reader)
        → IsIndexed s ix r
        → length (all_rows file cdr s ix) < fuel
        → Sought (FromTime s.is_reverse t) t none (all_rows file cdr s ix) (seek file fuel t r)
    seek-Sought fuel t r v enough =
        Sought-of_Wound (FromTime s.is_reverse t) (reached s.is_reverse t) t none
          (all_rows file cdr s ix) (seek file fuel t r) (reached-FromTime s.is_reverse t)
          (seek-Wound file cdr s ix ordered loads fuel t r v enough)

-- Over an ordered index, on a reader whose cursor, if it has one, stands at its position, and which
-- has read or sought something, and for a filter that differs from the old one, where the chunks of
-- the newly replayed topics hold what the footer promises, with more rounds than rows are recorded
-- on them: `set_filter` succeeds. What is left to read are exactly the rows that the new filter
-- replays behind the cursor, or without one from the position on; cursor and position stay.
pub set_filter-Sought :
    (file : RrdFile) (cdr : CdrWriter) (ix : ChunkIndex) (fuel : ℕ) (topics : List String)
    (r : Reader)
    → IsOrdered ix
    → r.index ≡ some ix
    → ((k : SortKey) → r.cursor ≡ some k → k.0 ≡ r.position)
    → (is_none r.cursor && r.position == i64_min) ≡ false
    → same_topics topics r.filter ≡ false
    → All
        (Loads file cdr (settings (record r { filter = topics })))
        (playback (settings (record r { filter = topics })) ix)
    → length (all_rows file cdr (settings (record r { filter = topics })) ix) < fuel
    → Sought file cdr
        (settings (record r { filter = topics }))
        ix
        (Behind r.is_reverse r.cursor r.position)
        r.position
        r.cursor
        (all_rows file cdr (settings (record r { filter = topics })) ix)
        (set_filter file fuel topics r)
set_filter-Sought file cdr ix fuel topics r ordered indexed same begun differs loads enough =
    Sought-of_Wound file cdr (settings (record r { filter = topics })) ix
      (Behind r.is_reverse r.cursor r.position) (passed r.is_reverse r.cursor r.position) r.position
      r.cursor (all_rows file cdr (settings (record r { filter = topics })) ix)
      (set_filter file fuel topics r) (passed-Behind r.is_reverse r.cursor r.position)
      (set_filter-Wound file cdr ix fuel topics r ordered indexed same begun differs loads enough)
