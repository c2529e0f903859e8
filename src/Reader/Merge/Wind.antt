-- ===== src/Reader/Merge/Wind.antt =====
-- Winding a pass forward to the first row whose key passes a test.
use rosbag2_storage_rrd.Reader.Merge.Drain.{length-Permᴰ}
use rosbag2_storage_rrd.Reader.Merge.Horizon.{Beyond}
use rosbag2_storage_rrd.Reader.Merge.Advance.{advance-Advanced}
use rosbag2_storage_rrd.Reader.Merge.Head.{key_lem, first}
use rosbag2_storage_rrd.Reader.Merge.Pick.{TimeDue, picked, none_left, pick}
use rosbag2_storage_rrd.Reader.Merge.Delivery.{Due-of_Beyond, direction, next_row-filled}
use rosbag2_storage_rrd.Reader.Steps.{advance, choose}
use rosbag2_storage_rrd.Reader.Merge.Fill.{fill-Filled, remaining, IsReady}
use rosbag2_storage_rrd.Reader.Pass.{fill}
use rosbag2_storage_rrd.Reader.Merge.{playback, rows_unread, rows_of, IsLive, Row, Due}
use rosbag2_storage_rrd.Index.Bounds.{IsOrdered}
use rosbag2_storage_rrd.Reader.Seek.{wind_chosen, wind}
use rosbag2_storage_rrd.Replay.{CdrWriter}
use rosbag2_storage_rrd.Reader.{and_then, key, Window, SortKey, ChunkIndex, Reader, RrdFile}
use rosbag2_storage_rrd.Base.{
  All-imp, Bool-cases, sym, All-append, drop, subst, inl, inr, [], Option, ◌∙◌, if◌then◌else◌, All,
  ◌<◌, ap, get_elem?, ◌++◌, length, ◌∷◌, ◌≡◌, Result, List, ℕ, Bool, true, false, zero, suc, some,
  none, ok, refl, arith,
}
use mathlib.Core.List.{Permᴰ}
use mathlib.Core.List.Permᴰ

module _ (file : RrdFile) (cdr : CdrWriter) (s : Reader) (ix : ChunkIndex) where
  -- What passes stays passed by every row due later.
  abbrev pub IsMonotone : (SortKey → Bool) → Type 0
  IsMonotone test = (k l : SortKey) → Due s.is_reverse k l → test k ≡ true → test l ≡ true

  -- A wind that succeeds: the rows that were left are those it consumed, whose keys do not pass, and
  -- those still left, whose keys pass.
  pub record Wound (test : SortKey → Bool) (left : List Row) (result : Result (Unit {0}) × Reader)
      : Type 0 where
    pub after : Reader
    pub done : result ≡ (ok tt, after)
    pub ready : IsReady file cdr s ix after
    pub consumed : List Row
    pub perm : Permᴰ left (consumed ++ remaining file cdr s ix after)
    pub failed : All (λ x. test x.0 ≡ false) consumed
    pub passing : All (λ x. test x.0 ≡ true) (remaining file cdr s ix after)

  Wound-step :
      (test : SortKey → Bool) (x : Row) (rest left : List Row) {result : Result (Unit {0}) × Reader}
      → test x.0 ≡ false
      → Permᴰ left (x ∷ rest)
      → Wound test rest result
      → Wound test left result
  Wound-step test x rest left f perm w = record {
    after = w.after;
    done = w.done;
    ready = w.ready;
    consumed = x ∷ w.consumed;
    perm = Permᴰ.trans perm (Permᴰ.cons refl w.perm);
    failed = (f, w.failed);
    passing = w.passing;
  }

  wind-nothing :
      (test : SortKey → Bool) (fuel : ℕ) (r q : Reader)
      → fill file r ≡ (ok tt, q)
      → choose q ≡ none
      → wind file test (suc fuel) r ≡ (ok tt, q)
  unfolding wind wind_chosen
  wind-nothing test fuel r q e nothing =
      ap (λ x. and_then x (wind_chosen test (wind file test fuel)))
        (next_row-filled file cdr s ix r q e ∙ ap (λ (x : Option (ℕ × ℕ)). (ok x, q)) nothing)

  wind-chosen :
      (test : SortKey → Bool) (fuel i : ℕ) (r q : Reader) (w : Window) (k : SortKey)
      → fill file r ≡ (ok tt, q)
      → choose q ≡ some (i, w.next)
      → get_elem? q.window i ≡ some w
      → key w ≡ some k
      → wind file test (suc fuel) r
        ≡ (if test k then (ok tt, q) else wind file test fuel (advance i q))
  unfolding wind wind_chosen
  wind-chosen test fuel i r q w k e chosen at known =
      ap (λ x. and_then x (wind_chosen test (wind file test fuel)))
        (next_row-filled file cdr s ix r q e ∙ ap (λ (x : Option (ℕ × ℕ)). (ok x, q)) chosen)
      ∙ rw (at, known, wind_chosen) refl

  -- Passing over the picked row takes it out of the rows that are left.
  advance-left :
      (q : Reader) (i : ℕ) (w : Window)
      → IsReady file cdr s ix q
      → get_elem? q.window i ≡ some w
      → IsLive cdr s w
      → Permᴰ (remaining file cdr s ix q) (first cdr s w ∷ remaining file cdr s ix (advance i q))
        × IsReady file cdr s ix (advance i q)
  advance-left q i w v at live =
      let a = advance-Advanced cdr s q i w at live v.live in
      let unread = rows_unread file cdr s (drop q.at_chunk (playback s ix)) in
      let q' : Reader = record q { window = a.windows; position = a.position } in
      let moved : Permᴰ (remaining file cdr s ix q) (first cdr s w ∷ remaining file cdr s ix q')
          × IsReady file cdr s ix q' =
        (
          Permᴰ.append_right unread a.perm,
          record {
            indexed = record {
              same_settings = v.indexed.same_settings;
              indexed = v.indexed.indexed;
            };
            live = a.live;
            loads = v.loads;
          },
        ) in
      subst
        (λ (p : Reader).
          Permᴰ (remaining file cdr s ix q) (first cdr s w ∷ remaining file cdr s ix p)
          × IsReady file cdr s ix p)
        (sym a.moves) moved

  -- Every row that is left is due after the picked one.
  picked-Due :
      (q : Reader) (w : Window) (c : ℕ × ℕ)
      → All (λ x. Due s.is_reverse (first cdr s w).0 x.0) (rows_of cdr s q.window)
      → TimeDue s.is_reverse (first cdr s w).0.0 c.0
      → Beyond s.is_reverse c.0 (rows_unread file cdr s (drop q.at_chunk (playback s ix)))
      → All (λ x. Due s.is_reverse (first cdr s w).0 x.0) (remaining file cdr s ix q)
  picked-Due q w c due time beyond =
      let unread = rows_unread file cdr s (drop q.at_chunk (playback s ix)) in
      All-append (λ x. Due s.is_reverse (first cdr s w).0 x.0) (rows_of cdr s q.window) unread due
        (Due-of_Beyond file cdr s ix s.is_reverse (first cdr s w).0 c.0 unread time beyond)

  module _ (ordered : IsOrdered ix) (test : SortKey → Bool) (monotone : IsMonotone test) where
    -- With more rounds than rows are left, a wind succeeds.
    pub wind-Wound :
        (fuel : ℕ) (r : Reader)
        → IsReady file cdr s ix r
        → length (remaining file cdr s ix r) < fuel
        → Wound test (remaining file cdr s ix r) (wind file test fuel r)
    wind-Wound zero r v enough = absurd (omega arith)
    wind-Wound (suc fuel) r v enough =
        let f = fill-Filled file cdr s ix ordered r v in
        let q : Reader = record r { at_chunk = f.at; window = f.windows } in
        let start : Permᴰ (remaining file cdr s ix r) (remaining file cdr s ix q) =
          subst (λ xs. Permᴰ xs (remaining file cdr s ix q)) f.kept
            (Permᴰ.refl (remaining file cdr s ix q)) in
        elim (pick cdr s q (direction file cdr s ix q f.ready) f.ready.live) [
          | none_left empty nothing ↦ record {
            after = q;
            done = wind-nothing test fuel r q f.done nothing;
            ready = f.ready;
            consumed = [];
            perm = start;
            failed = tt;
            passing = rw (f.kept ∙ f.exhausted empty) tt;
          }
          | picked i w chosen at live due c cand time ↦
              let k = (first cdr s w).0 in
              let step =
                wind-chosen test fuel i r q w k f.done chosen at (key_lem cdr s w live.room) in
              elim (Bool-cases (test k)) [
                | inl t ↦ record {
                  after = q;
                  done = step ∙ rw t refl;
                  ready = f.ready;
                  consumed = [];
                  perm = start;
                  failed = tt;
                  passing =
                      All-imp _ _ (remaining file cdr s ix q) (λ x d. monotone k x.0 d t)
                        (picked-Due q w c due time (f.beyond c cand));
                }
                | inr t ↦
                    let (perm, ready) = advance-left q i w f.ready at live in
                    subst (Wound test (remaining file cdr s ix r)) (sym (step ∙ rw t refl)) (
                      Wound-step test (first cdr s w) (remaining file cdr s ix (advance i q))
                        (remaining file cdr s ix r) t (Permᴰ.trans start perm)
                        (wind-Wound fuel (advance i q) ready
                          (omega (arith, length-Permᴰ (Permᴰ.trans start perm)))))
              ]
        ]
