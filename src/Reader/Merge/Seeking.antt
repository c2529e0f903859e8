-- ===== src/Reader/Merge/Seeking.antt =====
-- `seek`, `resume` and `set_filter` through the index: what is left to read behind them.
use rosbag2_storage_rrd.Reader.Steps.{is_none}
use rosbag2_storage_rrd.Reader.Merge.Fill.{remaining}
use rosbag2_storage_rrd.Reader.Merge.Wind.{wind-Wound, Wound, IsMonotone}
use rosbag2_storage_rrd.Reader.Merge.{restarted, settings, Row, IsIndexed, playback, Loads}
use rosbag2_storage_rrd.Reader.Merge.Rewind.{
  passed_mono, reached_mono, skipped_lem, all_rows, Drops,
}
use rosbag2_storage_rrd.Reader.Seek.{same_topics, set_filter, resume, seek, wind, reached, passed}
use rosbag2_storage_rrd.Reader.Pass.{restart}
use rosbag2_storage_rrd.Index.Bounds.{IsOrdered}
use rosbag2_storage_rrd.Replay.{CdrWriter}
use rosbag2_storage_rrd.Reader.{
  Method, and_then, position_of, SortKey, skip_index_to, i64_min, ChunkIndex, ChunkRef, Reader,
  RrdFile,
}
use rosbag2_storage_rrd.Base.{
  String, ◌==◌, ◌&&◌, All-append, sym, subst, ◌++◌, length-append, ap, ◌∙◌, Result, ◌<◌, length,
  Bool-cases, List, All, ◌≡◌, Option, leb, ℕ, Bool, true, false, some, none, ok, refl, inl, inr,
  arith, [],
}
use mathlib.Core.List.{append_assoc, Permᴰ}
use mathlib.Core.List.Permᴰ

-- The last step of `seek` and `resume`.
abbrev place : ℕ → Option SortKey → Unit {0} → Method (Unit {0})
place t cursor _ r = (ok tt, record r { position = t; cursor = cursor })

-- The chunks that `skip_index_to` stops at.
abbrev may_hold : Bool → ℕ → ChunkRef → Bool
may_hold false t c = leb t c.end
may_hold true t c = leb c.start t

module _ (file : RrdFile) (cdr : CdrWriter) (s : Reader) (ix : ChunkIndex) where
  may_hold-reached : (b : Bool) (t : ℕ) → Drops file cdr s ix (may_hold b t) (reached b t)
  unfolding reached
  may_hold-reached false t c k f h = ground arith
  may_hold-reached true t c k f h = ground arith

  may_hold-passed :
      (b : Bool) (cursor : Option SortKey) (t : ℕ)
      → ((k : SortKey) → cursor ≡ some k → k.0 ≡ t)
      → Drops file cdr s ix (may_hold b t) (passed b cursor t)
  unfolding passed
  may_hold-passed false none t same c k f h = ground arith
  may_hold-passed true none t same c k f h = ground arith
  may_hold-passed false (some u) t same c k f h = ground (arith, same u refl)
  may_hold-passed true (some u) t same c k f h = ground (arith, same u refl)

  skip-indexed :
      (t : ℕ) (r : Reader)
      → r.index ≡ some ix
      → r.is_reverse ≡ s.is_reverse
      → skip_index_to t r
        ≡ record r { at_chunk = position_of (may_hold s.is_reverse t) (playback s ix) }
  unfolding skip_index_to
  skip-indexed t r e d = elim (Bool-cases s.is_reverse) [
    | inl b ↦ rw (e, d, b) refl
    | inr b ↦ rw (e, d, b) refl
  ]

  pub restart-indexed : (r : Reader) → r.index ≡ some ix → restart file r ≡ (ok tt, restarted r)
  unfolding restart
  restart-indexed r e = rw e refl

  module _ (ordered : IsOrdered ix) (loads : All (Loads file cdr s) (playback s ix)) where
    rewind-Wound :
        (p : ChunkRef → Bool) (test : SortKey → Bool) (fuel : ℕ) (r : Reader)
        → Drops file cdr s ix p test
        → IsMonotone file cdr s ix test
        → IsIndexed s ix r
        → r.window ≡ []
        → r.at_chunk ≡ position_of p (playback s ix)
        → length (all_rows file cdr s ix) < fuel
        → Wound file cdr s ix test (all_rows file cdr s ix) (wind file test fuel r)
    rewind-Wound p test fuel r drops mono v empty at enough =
        let (skipped, whole, failed, ready) =
          skipped_lem file cdr s ix p test r drops loads v empty at in
        let rest = remaining file cdr s ix r in
        let w =
          wind-Wound file cdr s ix ordered test mono fuel r ready
            (omega (arith, ap length whole, length-append skipped rest)) in
        record {
          after = w.after;
          done = w.done;
          ready = w.ready;
          consumed = skipped ++ w.consumed;
          perm =
              subst (λ xs. Permᴰ xs ((skipped ++ w.consumed) ++ remaining file cdr s ix w.after))
                (sym whole)
                (subst (Permᴰ (skipped ++ rest))
                  (sym (append_assoc skipped w.consumed (remaining file cdr s ix w.after)))
                  (Permᴰ.append_left skipped w.perm));
          failed = All-append (λ x. test x.0 ≡ false) skipped w.consumed failed w.failed;
          passing = w.passing;
        }

    -- What stands behind a wind: the read head is put where it belongs.
    placed :
        (test : SortKey → Bool) (fuel : ℕ) (r r' : Reader) (t : ℕ) (cursor : Option SortKey)
        (left : List Row)
        → Wound file cdr s ix test left (wind file test fuel r')
        → (result : Result (Unit {0}) × Reader)
        → result ≡ and_then (wind file test fuel r') (place t cursor)
        → (w : Wound file cdr s ix test left result) × (w.after.position ≡ t)
          × (w.after.cursor ≡ cursor)
    placed test fuel r r' t cursor left w result e = (
      record {
        after = record w.after { position = t; cursor = cursor };
        done = e ∙ ap (λ x. and_then x (place t cursor)) w.done;
        ready = record {
          indexed = record {
            same_settings = w.ready.indexed.same_settings;
            indexed = w.ready.indexed.indexed;
          };
          live = w.ready.live;
          loads = w.ready.loads;
        };
        consumed = w.consumed;
        perm = w.perm;
        failed = w.failed;
        passing = w.passing;
      },
      refl,
      refl,
    )

    -- `seek` finds the rows that its test passes.
    pub seek-Wound :
        (fuel t : ℕ) (r : Reader)
        → IsIndexed s ix r
        → length (all_rows file cdr s ix) < fuel
        → (w : Wound file cdr s ix
            (reached s.is_reverse t)
            (all_rows file cdr s ix)
            (seek file fuel t r))
          × (w.after.position ≡ t)
          × (w.after.cursor ≡ none)
    unfolding seek
    seek-Wound fuel t r v enough =
        let d : r.is_reverse ≡ s.is_reverse = ap (λ (q : Reader). q.is_reverse) v.same_settings in
        let r2 : Reader = record (restarted r) {
          at_chunk = position_of (may_hold s.is_reverse t) (playback s ix);
        } in
        let w =
          rewind-Wound (may_hold s.is_reverse t) (reached s.is_reverse t) fuel r2
            (may_hold-reached s.is_reverse t) (reached_mono s.is_reverse t)
            (record { same_settings = v.same_settings; indexed = v.indexed }) refl refl enough in
        placed (reached s.is_reverse t) fuel r r2 t none (all_rows file cdr s ix) w
          (seek file fuel t r)
          (ap
              (λ x. and_then x (λ _ r1.
                and_then (wind file (reached r1.is_reverse t) fuel (skip_index_to t r1))
                  (place t none)))
              (restart-indexed r v.indexed)
            ∙ ap (λ q. and_then (wind file (reached r.is_reverse t) fuel q) (place t none))
                (skip-indexed t (restarted r) v.indexed d)
            ∙ ap (λ b. and_then (wind file (reached b t) fuel r2) (place t none)) d)

    -- `resume` finds the rows behind the cursor, or without one those from the position on.
    pub resume-Wound :
        (fuel : ℕ) (r : Reader)
        → IsIndexed s ix r
        → ((k : SortKey) → r.cursor ≡ some k → k.0 ≡ r.position)
        → (is_none r.cursor && r.position == i64_min) ≡ false
        → length (all_rows file cdr s ix) < fuel
        → (w : Wound file cdr s ix
            (passed s.is_reverse r.cursor r.position)
            (all_rows file cdr s ix)
            (resume file fuel r))
          × (w.after.position ≡ r.position)
          × (w.after.cursor ≡ r.cursor)
    unfolding resume
    resume-Wound fuel r v same begun enough =
        let t = r.position in
        let d : r.is_reverse ≡ s.is_reverse = ap (λ (q : Reader). q.is_reverse) v.same_settings in
        let r1 : Reader = record (restarted r) { position = t } in
        let r2 : Reader = record r1 {
          at_chunk = position_of (may_hold s.is_reverse t) (playback s ix);
        } in
        let w =
          rewind-Wound (may_hold s.is_reverse t) (passed s.is_reverse r.cursor t) fuel r2
            (may_hold-passed s.is_reverse r.cursor t same) (passed_mono s.is_reverse r.cursor t)
            (record { same_settings = v.same_settings; indexed = v.indexed }) refl refl enough in
        placed (passed s.is_reverse r.cursor t) fuel r r2 t r.cursor (all_rows file cdr s ix) w
          (resume file fuel r)
          (rw begun (
              ap
                (λ x. and_then x (λ _ q.
                  and_then
                    (wind file (passed q.is_reverse r.cursor t) fuel
                      (skip_index_to t (record q { position = t })))
                    (place t r.cursor)))
                (restart-indexed r v.indexed))
            ∙ ap
                (λ q.
                  and_then (wind file (passed r.is_reverse r.cursor t) fuel q) (place t r.cursor))
                (skip-indexed t r1 v.indexed d)
            ∙ ap (λ b. and_then (wind file (passed b r.cursor t) fuel r2) (place t r.cursor)) d)

-- `set_filter` finds the rows of the new filter behind the cursor.
pub set_filter-Wound :
    (file : RrdFile) (cdr : CdrWriter) (ix : ChunkIndex) (fuel : ℕ) (topics : List String)
    (r : Reader)
    → IsOrdered ix
    → r.index ≡ some ix
    → ((k : SortKey) → r.cursor ≡ some k → k.0 ≡ r.position)
    → (is_none r.cursor && r.position == i64_min) ≡ false
    → same_topics topics r.filter ≡ false
    → All
        (Loads file cdr (settings (record r { filter = topics })))
        (playback (settings (record r { filter = topics })) ix)
    → length (all_rows file cdr (settings (record r { filter = topics })) ix) < fuel
    → (w : Wound file cdr
        (settings (record r { filter = topics }))
        ix
        (passed r.is_reverse r.cursor r.position)
        (all_rows file cdr (settings (record r { filter = topics })) ix)
        (set_filter file fuel topics r))
      × (w.after.position ≡ r.position)
      × (w.after.cursor ≡ r.cursor)
unfolding set_filter
set_filter-Wound file cdr ix fuel topics r ordered indexed same begun differs loads enough =
    rw (differs, ap is_none indexed)
      (resume-Wound file cdr (settings (record r { filter = topics })) ix ordered loads fuel
        (record r { filter = topics }) (record { same_settings = refl; indexed = indexed }) same
        begun enough)
