-- ===== src/Index/Bounds.antt =====
-- The order of the index's chunks, and what its prefix maxima bound.
use rosbag2_storage_rrd.Base.{
  get_elem?-reverse, length-reverse, lt-length_of_get_elem?, ◌∙◌, get_elem?-drop, sym, ◌+◌,
  All-of_get_elem?, reverse, ◌-◌, max, get_or, length, get_elem?, ◌<◌, drop, ℕ, zero, suc, some,
  ◌≤◌, ◌≡◌, inl, inr, List, [], ◌∷◌, true, false, arith, All, All-imp, Bool-cases,
}
use rosbag2_storage_rrd.Index.{
  i64_min, running_max, ChunkIndex, ChunkRef, precedes, insert, sort_by_key,
}

abbrev pub StartsAfter : ChunkRef → ChunkRef → Type 0
StartsAfter c d = c.start ≤ d.start

-- Ascending by start, as the forward pass relies on.
abbrev pub IsByStart : List ChunkRef → Type 0
IsByStart [] = Unit
IsByStart (c ∷ cs) = All (StartsAfter c) cs × IsByStart cs

All-insert {κ} :
    (P : ChunkRef → Type κ) (c : ChunkRef) (ds : List ChunkRef)
    → P c
    → All P ds
    → All P (insert c ds)
unfolding insert
All-insert P c [] p h = (p, tt)
All-insert P c (d ∷ ds) p h = elim (Bool-cases (precedes c d)) [
  | inl e ↦ rw e (p, (h.0, h.1))
  | inr e ↦ rw e (h.0, All-insert P c ds p h.1)
]

precedes-le : (c d : ChunkRef) → precedes c d ≡ true → c.start ≤ d.start
unfolding precedes
precedes-le c d h = ground arith

not-precedes-le : (c d : ChunkRef) → precedes c d ≡ false → d.start ≤ c.start
unfolding precedes
not-precedes-le c d h = ground arith

insert-IsByStart : (c : ChunkRef) (ds : List ChunkRef) → IsByStart ds → IsByStart (insert c ds)
unfolding insert
insert-IsByStart c [] h = (tt, tt)
insert-IsByStart c (d ∷ ds) h = elim (Bool-cases (precedes c d)) [
  | inl e ↦
      let le : c.start ≤ d.start = precedes-le c d e in
      rw e ((le, All-imp (StartsAfter d) (StartsAfter c) ds (λ x p. omega arith) h.0), (h.0, h.1))
  | inr e ↦
      rw e (All-insert (StartsAfter d) c ds (not-precedes-le c d e) h.0, insert-IsByStart c ds h.1)
]

-- The chunks that `sort_by_key` returns ascend by start.
pub sort_by_key-IsByStart : (cs : List ChunkRef) → IsByStart (sort_by_key cs)
unfolding sort_by_key
sort_by_key-IsByStart [] = tt
sort_by_key-IsByStart (c ∷ cs) = insert-IsByStart c (sort_by_key cs) (sort_by_key-IsByStart cs)

pub IsByStart-drop : (cs : List ChunkRef) (n : ℕ) → IsByStart cs → IsByStart (drop n cs)
IsByStart-drop cs zero h = h
IsByStart-drop [] (suc n) h = h
IsByStart-drop (c ∷ cs) (suc n) h = IsByStart-drop cs n h.1

-- The index as the reader relies on it.
pub record IsOrdered (ix : ChunkIndex) : Type 0 where
  pub by_start : IsByStart ix.chunks
  pub prefix_maxima : ix.max_end_through ≡ running_max i64_min ix.chunks

running_max-ge :
    (m : ℕ) (cs : List ChunkRef) (j d : ℕ) → j < length cs → m ≤ get_or (running_max m cs) j d
unfolding running_max
running_max-ge m [] j d h = absurd (omega arith)
running_max-ge m (c ∷ cs) zero d h = omega arith
running_max-ge m (c ∷ cs) (suc j) d h =
    omega (arith, running_max-ge (max m c.end) cs j d (omega arith))

-- The prefix maximum at `j` bounds the end of every chunk up to `j`.
pub end-le-running_max :
    (m : ℕ) (cs : List ChunkRef) (i j d : ℕ) {c : ChunkRef}
    → get_elem? cs i ≡ some c
    → i ≤ j
    → j < length cs
    → c.end ≤ get_or (running_max m cs) j d
unfolding running_max
end-le-running_max m [] i j d e le h = cc
end-le-running_max m (c ∷ cs) zero zero d {c = c'} e le h =
    let same : c ≡ c' = cc in rw (← same) (omega arith)
end-le-running_max m (c ∷ cs) zero (suc j) d {c = c'} e le h =
    let same : c ≡ c' = cc in
    rw (← same) (omega (arith, running_max-ge (max m c.end) cs j d (omega arith)))
end-le-running_max m (c ∷ cs) (suc i) zero d e le h = absurd (omega arith)
end-le-running_max m (c ∷ cs) (suc i) (suc j) d e le h =
    end-le-running_max (max m c.end) cs i j d e (omega arith) (omega arith)

-- On an ordered index walked backwards, with a chunk left at the cursor: the prefix maximum there is
-- at least the end of every chunk still unread.
pub ends-le-prefix_max :
    (ix : ChunkIndex) (at d : ℕ)
    → IsOrdered ix
    → at < length ix.chunks
    → All
        (λ c. c.end ≤ get_or ix.max_end_through (length ix.chunks - 1 - at) d)
        (drop at (reverse ix.chunks))
ends-le-prefix_max ix at d v h = rw v.prefix_maxima (
    All-of_get_elem? _ (drop at (reverse ix.chunks)) λ k c e.
      let found : get_elem? (reverse ix.chunks) (at + k) ≡ some c =
        sym (get_elem?-drop (reverse ix.chunks) at k) ∙ e in
      let inside : at + k < length ix.chunks = omega (
        arith,
        lt-length_of_get_elem? (reverse ix.chunks) (at + k) found,
        length-reverse ix.chunks,
      ) in
      end-le-running_max i64_min ix.chunks (length ix.chunks - 1 - (at + k))
        (length ix.chunks - 1 - at) d (sym (get_elem?-reverse ix.chunks (at + k) inside) ∙ found)
        (omega arith) (omega arith))
