-- ===== src/Reader/Merge/Rewind.antt =====
-- Moving the read head: `seek` and `resume` start the pass again, skip the chunks that cannot hold a
-- row they look for, and wind over the rows before it.
use rosbag2_storage_rrd.Reader.Merge.Fill.{IsReady, remaining}
use rosbag2_storage_rrd.Reader.Merge.{
  IsLive, rows, load_ref, IsIndexed, playback, loaded_rows, Loads, Row, rows_of, rows_unread, Due,
}
use rosbag2_storage_rrd.Replay.{CdrWriter}
use rosbag2_storage_rrd.Reader.{ChunkRef, position_of, SortKey, ChunkIndex, Reader, RrdFile}
use rosbag2_storage_rrd.Reader.Seek.{reached, passed}
use rosbag2_storage_rrd.Base.{
  All-drop, subst, ◌∙◌, All-append, All-imp, sym, ap, Bool-cases, ◌≤◌, ◌∷◌, drop, ◌++◌, take, All,
  ◌≡◌, List, Option, ℕ, Bool, true, false, zero, suc, some, none, refl, inl, inr, arith, [],
}
use mathlib.Core.List.{append_assoc}

pub reached_mono :
    (b : Bool) (t : ℕ) (k l : SortKey) → Due b k l → reached b t k ≡ true → reached b t l ≡ true
unfolding reached
reached_mono false t k l d h = ground arith
reached_mono true t k l d h = ground arith

pub passed_mono :
    (b : Bool) (cursor : Option SortKey) (t : ℕ) (k l : SortKey)
    → Due b k l
    → passed b cursor t k ≡ true
    → passed b cursor t l ≡ true
unfolding passed
passed_mono false none t k l d h = ground arith
passed_mono true none t k l d h = ground arith
passed_mono false (some (u, v)) t k l d h = ground arith
passed_mono true (some (u, v)) t k l d h = ground arith

module _ (file : RrdFile) (cdr : CdrWriter) (s : Reader) (ix : ChunkIndex) where
  pub rows_unread-append :
      (cs ds : List ChunkRef)
      → rows_unread file cdr s (cs ++ ds) ≡ rows_unread file cdr s cs ++ rows_unread file cdr s ds
  unfolding rows_unread
  rows_unread-append [] ds = refl
  rows_unread-append (c ∷ cs) ds = rw (rows_unread-append cs ds) (
      sym (
        append_assoc (loaded_rows file cdr s (load_ref file s c)) (rows_unread file cdr s cs)
          (rows_unread file cdr s ds)))

  -- A chunk that `p` drops holds no row that passes.
  abbrev pub Drops : (ChunkRef → Bool) → (SortKey → Bool) → Type 0
  Drops p test =
      (c : ChunkRef) (k : SortKey) → p c ≡ false → (c.start ≤ k.0) × (k.0 ≤ c.end) → test k ≡ false

  loaded-failed :
      (p : ChunkRef → Bool) (test : SortKey → Bool) (c : ChunkRef)
      → Drops p test
      → Loads file cdr s c
      → p c ≡ false
      → All (λ x. test x.0 ≡ false) (loaded_rows file cdr s (load_ref file s c))
  loaded-failed p test c drops (inl e) f = rw e tt
  loaded-failed p test c drops (inr (w, e, live, within)) f =
      rw e (All-imp _ _ (rows cdr s w) (λ x h. drops c x.0 f h) within)

  -- The chunks in front of the first that `p` keeps hold no row that passes.
  skipped-failed :
      (p : ChunkRef → Bool) (test : SortKey → Bool) (cs : List ChunkRef)
      → Drops p test
      → All (Loads file cdr s) cs
      → All (λ x. test x.0 ≡ false) (rows_unread file cdr s (take (position_of p cs) cs))
  unfolding position_of rows_unread
  skipped-failed p test [] drops loads = tt
  skipped-failed p test (c ∷ cs) drops loads = elim (Bool-cases (p c)) [
    | inl t ↦ rw t tt
    | inr t ↦ rw t (
        All-append (λ x. test x.0 ≡ false) (loaded_rows file cdr s (load_ref file s c))
          (rows_unread file cdr s (take (position_of p cs) cs))
          (loaded-failed p test c drops loads.0 t) (skipped-failed p test cs drops loads.1))
  ]

  take-drop : (n : ℕ) (cs : List ChunkRef) → take n cs ++ drop n cs ≡ cs
  take-drop zero cs = refl
  take-drop (suc n) [] = refl
  take-drop (suc n) (c ∷ cs) = ap (◌∷◌ c) (take-drop n cs)

  -- The rows of the whole recording that the settings `s` replay.
  abbrev pub all_rows : List Row
  all_rows = rows_unread file cdr s (playback s ix)

  -- The pass from the chunk that `position_of` finds.
  pub skipped_lem :
      (p : ChunkRef → Bool) (test : SortKey → Bool) (r : Reader)
      → Drops p test
      → All (Loads file cdr s) (playback s ix)
      → IsIndexed s ix r
      → r.window ≡ []
      → r.at_chunk ≡ position_of p (playback s ix)
      → (skipped : List Row) × (all_rows ≡ skipped ++ remaining file cdr s ix r)
        × All (λ x. test x.0 ≡ false) skipped
        × IsReady file cdr s ix r
  unfolding rows_of
  skipped_lem p test r drops loads v empty at =
      let n = position_of p (playback s ix) in
      let left : remaining file cdr s ix r ≡ rows_unread file cdr s (drop n (playback s ix)) =
        ap (λ ws. rows_of cdr s ws ++ rows_unread file cdr s (drop r.at_chunk (playback s ix)))
          empty
        ∙ ap (λ m. rows_unread file cdr s (drop m (playback s ix))) at in
      let whole : all_rows
          ≡ rows_unread file cdr s (take n (playback s ix))
            ++ rows_unread file cdr s (drop n (playback s ix)) =
        ap (rows_unread file cdr s) (sym (take-drop n (playback s ix)))
        ∙ rows_unread-append (take n (playback s ix)) (drop n (playback s ix)) in
      (
        rows_unread file cdr s (take n (playback s ix)),
        whole ∙ ap (λ xs. rows_unread file cdr s (take n (playback s ix)) ++ xs) (sym left),
        skipped-failed p test (playback s ix) drops loads,
        record {
          indexed = v;
          live = subst (All (IsLive cdr s)) (sym empty) tt;
          loads =
              subst (λ m. All (Loads file cdr s) (drop m (playback s ix))) (sym at)
                (All-drop (Loads file cdr s) (playback s ix) n loads);
        },
      )
