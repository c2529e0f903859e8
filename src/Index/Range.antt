-- ===== src/Index/Range.antt =====
-- What index.rs says of a whole recording, against its chunks.
use rosbag2_storage_rrd.Index.Bounds.{IsByStart, IsOrdered}
use native.Mathlib.Decide.{dec_lt}
use rosbag2_storage_rrd.Base.{
  some_inj, sym, ◌⊎◌, subst, All-imp, max, Option, suc, none, refl, inl, inr, arith, get_elem?, ◌≤◌,
  ◌≡◌, All, ℕ, List, some, [], ◌∷◌,
}
use rosbag2_storage_rrd.Index.{ChunkIndex, time_range, ChunkRef, max_end}

-- The latest end: no chunk ends later, and one ends then.
record IsLatest (cs : List ChunkRef) (e : ℕ) : Type 0 where
  none_later : All (λ c. c.end ≤ e) cs
  i : ℕ
  c : ChunkRef
  at : get_elem? cs i ≡ some c
  same : c.end ≡ e

max_end-nil : (cs : List ChunkRef) → max_end cs ≡ none → cs ≡ []
unfolding max_end
max_end-nil [] h = refl
max_end-nil (c ∷ cs) h = from (max_end cs) h
  where
    from :
        (o : Option ℕ)
        → (elim o as (λ x. Option ℕ) [ none ↦ some c.end | some e ↦ some (max c.end e) ]) ≡ none
        → c ∷ cs ≡ []
    from none e = cc
    from (some m) e = cc

max_end-IsLatest : (cs : List ChunkRef) {e : ℕ} → max_end cs ≡ some e → IsLatest cs e
unfolding max_end
max_end-IsLatest [] h = cc
max_end-IsLatest (c ∷ cs) h = from (max_end cs) refl (λ m x. max_end-IsLatest cs x) h
  where
    later : (m e : ℕ) → IsLatest cs m → max c.end m ≡ e → IsLatest (c ∷ cs) e
    later m e l same = elim (dec_lt c.end m) [
      | yes p ↦ record {
        none_later = (
          omega arith,
          All-imp (λ d. d.end ≤ m) (λ d. d.end ≤ e) cs (λ d x. omega arith) l.none_later,
        );
        i = suc l.i;
        c = l.c;
        at = l.at;
        same = omega (arith, l.same);
      }
      | no p ↦ record {
        none_later = (
          omega arith,
          All-imp (λ d. d.end ≤ m) (λ d. d.end ≤ e) cs (λ d x. omega arith) l.none_later,
        );
        i = 0;
        c = c;
        at = refl;
        same = omega arith;
      }
    ]

    alone : (e : ℕ) → cs ≡ [] → c.end ≡ e → IsLatest (c ∷ cs) e
    alone e none_left same = record {
      none_later = (omega arith, subst (All (λ d. d.end ≤ e)) (sym none_left) tt);
      i = 0;
      c = c;
      at = refl;
      same = same;
    }

    from :
        {e : ℕ} (o : Option ℕ)
        → max_end cs ≡ o
        → ((m : ℕ) → max_end cs ≡ some m → IsLatest cs m)
        → (elim o as (λ x. Option ℕ) [ none ↦ some c.end | some e ↦ some (max c.end e) ]) ≡ some e
        → IsLatest (c ∷ cs) e
    from {e} none k rec x = alone e (max_end-nil cs k) (some_inj x)
    from {e} (some m) k rec x = later m e (rec m k) (some_inj x)

-- The chunks lie between the two times, and reach both.
pub record IsSpan (cs : List ChunkRef) (range : ℕ × ℕ) : Type 0 where
  pub inside : All (λ c. (range.0 ≤ c.start) × (c.end ≤ range.1)) cs
  pub first : ChunkRef
  pub last : ChunkRef
  pub i : ℕ
  pub starts : (get_elem? cs 0 ≡ some first) × (first.start ≡ range.0)
  pub ends : (get_elem? cs i ≡ some last) × (last.end ≡ range.1)

All-and :
    (P Q : ChunkRef → Type 0) (cs : List ChunkRef) → All P cs → All Q cs → All (λ c. P c × Q c) cs
All-and P Q [] h k = tt
All-and P Q (c ∷ cs) h k = ((h.0, k.0), All-and P Q cs h.1 k.1)

-- If the index is ordered, then it has no time range exactly when it has no chunks; otherwise the range
-- goes from the earliest start, that of the first chunk, to the latest end of any chunk.
pub time_range-IsSpan :
    (ix : ChunkIndex)
    → IsOrdered ix
    → ((time_range ix ≡ none) × (ix.chunks ≡ []))
      ⊎ ((range : ℕ × ℕ) × (time_range ix ≡ some range) × IsSpan ix.chunks range)
unfolding time_range
time_range-IsSpan ix v = from ix.chunks v.by_start (max_end ix.chunks) refl
  where
    shown : List ChunkRef → Option ℕ → Option (ℕ × ℕ)
    shown cs o = elim cs [
      | [] ↦ none
      | c ∷ rest ↦ elim o [ none ↦ none | some e ↦ some (c.start, e) ]
    ]

    from :
        (cs : List ChunkRef)
        → IsByStart cs
        → (o : Option ℕ) → max_end cs ≡ o
        → ((shown cs o ≡ none) × (cs ≡ []))
          ⊎ ((range : ℕ × ℕ) × (shown cs o ≡ some range) × IsSpan cs range)
    from [] h o e = inl (refl, refl)
    from (c ∷ cs) h none e = let no = max_end-nil (c ∷ cs) e in cc
    from (c ∷ cs) h (some e) k =
        let l = max_end-IsLatest (c ∷ cs) k in
        inr (
          (c.start, e),
          refl,
          record {
            inside =
                All-and (λ d. c.start ≤ d.start) (λ d. d.end ≤ e) (c ∷ cs) (omega arith, h.0)
                  l.none_later;
            first = c;
            last = l.c;
            i = l.i;
            starts = (refl, refl);
            ends = (l.at, l.same);
          },
        )
