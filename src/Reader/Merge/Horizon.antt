-- ===== src/Reader/Merge/Horizon.antt =====
-- `earliest_unread` bounds every row that is still to be read.
use rosbag2_storage_rrd.Reader.Merge.Choice.{candidate}
use rosbag2_storage_rrd.Reader.Steps.{is_settled}
use rosbag2_storage_rrd.Index.Bounds.{ends-le-prefix_max, IsByStart-drop, IsByStart, IsOrdered}
use rosbag2_storage_rrd.Reader.Merge.{
  playback, IsIndexed, rows, IsLive, load_ref, Loads, Row, rows_unread,
}
use rosbag2_storage_rrd.Replay.{CdrWriter}
use rosbag2_storage_rrd.Reader.{
  heads, earliest_unread, ChunkIndex, i64_max, i64_min, Window, ChunkRef, Reader, RrdFile,
}
use rosbag2_storage_rrd.Base.{
  ◌-◌, ◌==◌, ap, get_or, ◌||◌, ltb, length-reverse, if◌then◌else◌, reverse, refl, All-imp, subst,
  leb, lt-length_of_get_elem?, length, get_elem?_of_drop-cons, drop, All-append, arith, ◌∷◌,
  All-of_get_elem?, ◌≡◌, ◌≤◌, ◌<◌, All, List, ℕ, Bool, true, false, some, ok, inl, inr, [],
}

-- Forward, no row is before the time; in reverse, none is after it.
abbrev pub Within : Bool → ℕ → List Row → Type 0
Within false t = All (λ x. t ≤ x.0.0)
Within true t = All (λ x. x.0.0 ≤ t)

-- Forward, every row is after the time; in reverse, every row is before it.
abbrev pub Beyond : Bool → ℕ → List Row → Type 0
Beyond false t = All (λ x. t < x.0.0)
Beyond true t = All (λ x. x.0.0 < t)

module _ (file : RrdFile) (cdr : CdrWriter) (s : Reader) where
  -- What holds of the rows of every window that the chunks load holds of every unread row.
  pub rows_unread-All {κ} :
      (P : Row → Type κ) (cs : List ChunkRef)
      → All (Loads file cdr s) cs
      → All
          (λ c.
            (w : Window)
            → load_ref file s c ≡ ok (some w)
            → IsLive cdr s w
            → All (λ x. (c.start ≤ x.0.0) × (x.0.0 ≤ c.end)) (rows cdr s w)
            → All P (rows cdr s w))
          cs
      → All P (rows_unread file cdr s cs)
  unfolding rows_unread
  rows_unread-All P [] loads f = tt
  rows_unread-All P (c ∷ cs) (inl skip, loads) f = rw skip (rows_unread-All P cs loads f.1)
  rows_unread-All P (c ∷ cs) (inr (w, load, live, within), loads) f = rw load (
      All-append P (rows cdr s w) (rows_unread file cdr s cs) (f.0 w load live within)
        (rows_unread-All P cs loads f.1))

  pub rows_unread-timed :
      (cs : List ChunkRef)
      → All (Loads file cdr s) cs
      → All (λ x. (i64_min < x.0.0) × (x.0.0 < i64_max)) (rows_unread file cdr s cs)
  rows_unread-timed cs loads =
      rows_unread-All _ cs loads (All-of_get_elem? _ cs λ i c e w load live within. live.timed)

  module _ (ix : ChunkIndex) (ordered : IsOrdered ix) where
    forward_horizon :
        (r : Reader) (c : ChunkRef) (cs : List ChunkRef)
        → s.is_reverse ≡ false
        → r.index ≡ some ix
        → r.is_reverse ≡ false
        → drop r.at_chunk ix.chunks ≡ c ∷ cs
        → All (Loads file cdr s) (c ∷ cs)
        → All (λ x. earliest_unread r ≤ x.0.0) (rows_unread file cdr s (c ∷ cs))
    unfolding earliest_unread
    forward_horizon r c cs t e t' at loads =
        let (found, rest) = get_elem?_of_drop-cons ix.chunks r.at_chunk c cs at in
        let inside : r.at_chunk < length ix.chunks =
          lt-length_of_get_elem? ix.chunks r.at_chunk found in
        let test : leb (length ix.chunks) r.at_chunk ≡ false = ground arith in
        let start : earliest_unread r ≡ c.start = ground (arith, e, t', test, found) in
        let sorted = subst IsByStart at (IsByStart-drop ix.chunks r.at_chunk ordered.by_start) in
        rw start (
          rows_unread-All _ (c ∷ cs) loads (
            All-imp (λ d. c.start ≤ d.start) _ (c ∷ cs)
              (λ d le w load live within. All-imp _ _ (rows cdr s w) (λ x p. omega arith) within)
              (omega arith, sorted.0)))

    reverse_horizon :
        (r : Reader) (c : ChunkRef) (cs : List ChunkRef)
        → r.index ≡ some ix
        → r.is_reverse ≡ true
        → drop r.at_chunk (reverse ix.chunks) ≡ c ∷ cs
        → All (Loads file cdr s) (c ∷ cs)
        → All (λ x. x.0.0 ≤ earliest_unread r) (rows_unread file cdr s (c ∷ cs))
    unfolding earliest_unread
    reverse_horizon r c cs e t at loads =
        let (found, rest) = get_elem?_of_drop-cons (reverse ix.chunks) r.at_chunk c cs at in
        let inside : r.at_chunk < length ix.chunks = omega (
          arith,
          lt-length_of_get_elem? (reverse ix.chunks) r.at_chunk found,
          length-reverse ix.chunks,
        ) in
        let test : leb (length ix.chunks) r.at_chunk ≡ false = ground arith in
        let bound = get_or ix.max_end_through (length ix.chunks - 1 - r.at_chunk) i64_min in
        let latest : earliest_unread r ≡ bound = ground (arith, e, t, test) in
        let ends =
          subst (All λ d. d.end ≤ bound) at
            (ends-le-prefix_max ix r.at_chunk i64_min ordered inside) in
        rw latest (
          rows_unread-All _ (c ∷ cs) loads (
            All-imp (λ d. d.end ≤ bound) _ (c ∷ cs)
              (λ d le w load live within. All-imp _ _ (rows cdr s w) (λ x p. omega arith) within)
              ends))

    horizon_at :
        (b : Bool) (r : Reader) (cs : List ChunkRef)
        → s.is_reverse ≡ b
        → r.index ≡ some ix
        → r.is_reverse ≡ b
        → drop r.at_chunk (if b then reverse ix.chunks else ix.chunks) ≡ cs
        → All (Loads file cdr s) cs
        → Within b (earliest_unread r) (rows_unread file cdr s cs)
    unfolding rows_unread
    horizon_at false r [] sb e t at loads = tt
    horizon_at true r [] sb e t at loads = tt
    horizon_at false r (c ∷ cs) sb e t at loads = forward_horizon r c cs sb e t at loads
    horizon_at true r (c ∷ cs) sb e t at loads = reverse_horizon r c cs e t at loads

    -- No unread row lies before what `earliest_unread` returns; none after it, in reverse.
    pub horizon :
        (r : Reader)
        → IsIndexed s ix r
        → All (Loads file cdr s) (drop r.at_chunk (playback s ix))
        → Within s.is_reverse
            (earliest_unread r)
            (rows_unread file cdr s (drop r.at_chunk (playback s ix)))
    horizon r v loads =
        horizon_at s.is_reverse r (drop r.at_chunk (playback s ix)) refl v.indexed
          (ap (λ (q : Reader). q.is_reverse) v.same_settings) refl loads

    Beyond-of_Within :
        (b : Bool) (unread t : ℕ) (xs : List Row)
        → Within b unread xs
        → All (λ x. (i64_min < x.0.0) × (x.0.0 < i64_max)) xs
        → (if b then ltb unread t || unread == i64_min else ltb t unread || unread == i64_max)
          ≡ true
        → Beyond b t xs
    Beyond-of_Within false unread t [] w timed h = tt
    Beyond-of_Within true unread t [] w timed h = tt
    Beyond-of_Within false unread t (x ∷ xs) w timed h =
        (ground (arith, w.0, timed.0.1), Beyond-of_Within false unread t xs w.1 timed.1 h)
    Beyond-of_Within true unread t (x ∷ xs) w timed h =
        (ground (arith, w.0, timed.0.0), Beyond-of_Within true unread t xs w.1 timed.1 h)

    settled_test :
        (b : Bool) (r : Reader) (c : ℕ × ℕ)
        → r.is_reverse ≡ b
        → candidate b (heads r.window) ≡ some c
        → is_settled r ≡ true
        → (if b
            then ltb (earliest_unread r) c.0 || earliest_unread r == i64_min
            else ltb c.0 (earliest_unread r) || earliest_unread r == i64_max)
          ≡ true
    unfolding is_settled
    settled_test false r c d e h = ground arith
    settled_test true r c d e h = ground arith

    -- Once `fill` counts its candidate as settled, every unread row comes after it.
    pub settled-Beyond :
        (r : Reader) (c : ℕ × ℕ)
        → IsIndexed s ix r
        → All (Loads file cdr s) (drop r.at_chunk (playback s ix))
        → is_settled r ≡ true
        → candidate s.is_reverse (heads r.window) ≡ some c
        → Beyond s.is_reverse c.0 (rows_unread file cdr s (drop r.at_chunk (playback s ix)))
    settled-Beyond r c v loads h e =
        Beyond-of_Within s.is_reverse (earliest_unread r) c.0 _ (horizon r v loads)
          (rows_unread-timed _ loads)
          (settled_test s.is_reverse r c (ap (λ (q : Reader). q.is_reverse) v.same_settings) e h)
