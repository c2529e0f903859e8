-- ===== src/Reader/Merge/Fill.antt =====
-- `fill` through the index: it ends, with the windows that the next row can be chosen from.

use rosbag2_storage_rrd.Reader.Merge.Advance.{rows_of-push}
use rosbag2_storage_rrd.Reader.Merge.Unread.{length-playback, window, nothing, pull-Pulled}
use rosbag2_storage_rrd.Reader.Steps.{supply, is_settled}
use rosbag2_storage_rrd.Reader.Pass.{fill, pull, fill_loop}
use mathlib.Core.List.{append_assoc}
use rosbag2_storage_rrd.Reader.Merge.Choice.{candidate}
use rosbag2_storage_rrd.Reader.Merge.Horizon.{settled-Beyond, Beyond}
use rosbag2_storage_rrd.Reader.Merge.{
  rows, playback, rows_unread, Loads, IsLive, Row, rows_of, IsIndexed,
}
use rosbag2_storage_rrd.Index.Bounds.{IsOrdered}
use rosbag2_storage_rrd.Replay.{CdrWriter}
use rosbag2_storage_rrd.Reader.{max_pair, min_pair, heads, Window, ChunkIndex, Reader, RrdFile}
use rosbag2_storage_rrd.Base.{
  length-drop, subst, ◌-◌, All-append, ◌≢◌, ◌∙◌, ap, none, Bool-cases, sym, ◌<◌, drop, ◌∷◌, length,
  ◌≡◌, ◌++◌, ℕ, All, Bool, List, Result, true, false, zero, suc, some, ok, refl, inl, inr, arith,
  [],
}

module _ (file : RrdFile) (cdr : CdrWriter) (s : Reader) (ix : ChunkIndex) where
  -- The rows that a reader has still to emit.
  abbrev pub remaining : Reader → List Row
  remaining r = rows_of cdr s r.window ++ rows_unread file cdr s (drop r.at_chunk (playback s ix))

  -- A reader in the middle of a pass.
  pub record IsReady (r : Reader) : Type 0 where
    pub indexed : IsIndexed s ix r
    pub live : All (IsLive cdr s) r.window
    pub loads : All (Loads file cdr s) (drop r.at_chunk (playback s ix))

  -- What a successful read-ahead leaves: nothing of the pass is lost, no window means no row, and
  -- every unread row comes after the earliest head.
  pub record Filled (r : Reader) (result : Result (Unit {0}) × Reader) : Type 0 where
    pub at : ℕ
    pub windows : List Window
    pub done : result ≡ (ok tt, record r { at_chunk = at; window = windows })
    pub ready : IsReady (record r { at_chunk = at; window = windows })
    pub kept : remaining (record r { at_chunk = at; window = windows }) ≡ remaining r
    pub exhausted : windows ≡ [] → remaining r ≡ []
    pub beyond :
        (c : ℕ × ℕ)
        → candidate s.is_reverse (heads windows) ≡ some c
        → Beyond s.is_reverse c.0 (rows_unread file cdr s (drop at (playback s ix)))

  Beyond-nil : (b : Bool) (t : ℕ) → Beyond b t []
  Beyond-nil false t = tt
  Beyond-nil true t = tt

  settled-ne-nil : (b : Bool) (r : Reader) → r.is_reverse ≡ b → r.window ≡ [] → is_settled r ≢ true
  unfolding is_settled heads min_pair max_pair
  settled-ne-nil false r d e = ground arith
  settled-ne-nil true r d e = ground arith

  -- A loop that goes on with the window it pulled.
  Filled-step :
      {r : Reader} {result : Result (Unit {0}) × Reader} (n : ℕ) (ws : List Window)
      → Filled (record r { at_chunk = n; window = ws }) result
      → remaining (record r { at_chunk = n; window = ws }) ≡ remaining r
      → Filled r result
  Filled-step n ws f k = record {
    at = f.at;
    windows = f.windows;
    done = f.done;
    ready = f.ready;
    kept = f.kept ∙ k;
    exhausted = λ x. sym k ∙ f.exhausted x;
    beyond = f.beyond;
  }

  module _ (ordered : IsOrdered ix) where
    fill_loop-settled :
        (fuel : ℕ) (r : Reader)
        → IsReady r
        → is_settled r ≡ true
        → Filled r (fill_loop file (suc fuel) r)
    fill_loop-settled fuel r v t = record {
      at = r.at_chunk;
      windows = r.window;
      done = unfold fill_loop in rw t refl;
      ready = v;
      kept = refl;
      exhausted = λ e. absurd (settled-ne-nil r.is_reverse r refl e t);
      beyond = λ c e. settled-Beyond file cdr s ix ordered r c v.indexed v.loads t e;
    }

    fill_loop-nothing :
        (fuel n : ℕ) (r : Reader)
        → IsReady r
        → is_settled r ≡ false
        → pull file r ≡ (ok none, record r { at_chunk = n })
        → drop n (playback s ix) ≡ []
        → rows_unread file cdr s (drop r.at_chunk (playback s ix)) ≡ []
        → Filled r (fill_loop file (suc fuel) r)
    unfolding rows_of rows_unread
    fill_loop-nothing fuel n r v t same_result done none_left = record {
      at = n;
      windows = r.window;
      done = unfold fill_loop in rw (t, same_result) refl;
      ready = record {
        indexed = record { same_settings = v.indexed.same_settings; indexed = v.indexed.indexed };
        live = v.live;
        loads = rw done tt;
      };
      kept = rw (done, none_left) refl;
      exhausted = λ e.
          ap
            (λ (ws : List Window).
              rows_of cdr s ws ++ rows_unread file cdr s (drop r.at_chunk (playback s ix)))
            e
          ∙ none_left;
      beyond = λ c e. rw done (Beyond-nil s.is_reverse c.0);
    }

    fill_loop-Filled :
        (fuel : ℕ) (r : Reader)
        → IsReady r
        → length (drop r.at_chunk (playback s ix)) < fuel
        → Filled r (fill_loop file fuel r)
    fill_loop-Filled zero r v short = absurd (omega arith)
    fill_loop-Filled (suc fuel) r v short = elim (Bool-cases (is_settled r)) [
      | inl t ↦ fill_loop-settled fuel r v t
      | inr t ↦ elim (pull-Pulled file cdr s ix r v.indexed v.loads) [
        | nothing n same_result done none_left ↦
            fill_loop-nothing fuel n r v t same_result done none_left
        | window n w same_result split live loads shorter ↦
            let q : Reader = record r { at_chunk = n; window = r.window ++ w ∷ [] } in
            let next : fill_loop file (suc fuel) r ≡ fill_loop file fuel q =
              unfold fill_loop in rw (t, same_result) refl in
            rw next (
              Filled-step n (r.window ++ w ∷ [])
                (fill_loop-Filled fuel q
                  (record {
                    indexed = record {
                      same_settings = v.indexed.same_settings;
                      indexed = v.indexed.indexed;
                    };
                    live = All-append (IsLive cdr s) r.window (w ∷ []) v.live (live, tt);
                    loads = loads;
                  })
                  (omega arith))
                (rw (rows_of-push cdr s r.window w, split)
                  (append_assoc (rows_of cdr s r.window) (rows cdr s w)
                    (rows_unread file cdr s (drop n (playback s ix))))))
      ]
    ]

    fill-indexed :
        (r : Reader) → r.index ≡ some ix → fill file r ≡ fill_loop file (suc (supply r)) r
    unfolding fill
    fill-indexed r e = ground arith

    -- On a reader in the middle of a pass over an ordered index, whose chunks hold what the footer
    -- promises: `fill` succeeds within its rounds. No row that was left is lost or added, there is no
    -- window only if no row is left, and every unread row comes after the earliest head.
    pub fill-Filled : (r : Reader) → IsReady r → Filled r (fill file r)
    fill-Filled r v =
        let left : supply r ≡ length ix.chunks - r.at_chunk = ground (arith, v.indexed.indexed) in
        subst (Filled r) (sym (fill-indexed r v.indexed.indexed)) (
          fill_loop-Filled (suc (supply r)) r v (
            omega
              (arith, left, length-drop r.at_chunk (playback s ix), length-playback file cdr s ix)))
