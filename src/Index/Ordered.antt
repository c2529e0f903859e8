-- ===== src/Index/Ordered.antt =====
-- The index that the reader walks is ordered: as it is built from the footer, and after `retain`.

use rosbag2_storage_rrd.Index.Bounds.{sort_by_key-IsByStart, IsOrdered, StartsAfter, IsByStart}
use rosbag2_storage_rrd.Index.Build.{from_manifest}
use rosbag2_storage_rrd.Index.{
  summarize, gather, Manifest, ChunkIndex, recompute_max_end_through, retain, retain_chunks,
  ChunkRef,
}
use rosbag2_storage_rrd.Base.{String, refl, if◌then◌else◌, ◌∷◌, All, List, Bool, true, false, []}

module _ {ℓ} {S : Type ℓ} (keep : ChunkRef → S → Bool × S) where
  retain_chunks-All {κ} :
      (P : ChunkRef → Type κ) (cs : List ChunkRef) (s : S)
      → All P cs
      → All P (retain_chunks keep cs s).0
  unfolding retain_chunks
  retain_chunks-All P [] s h = tt
  retain_chunks-All P (c ∷ cs) s h =
      kept_All (keep c s).0 c (retain_chunks keep cs (keep c s).1).0 h.0
        (retain_chunks-All P cs (keep c s).1 h.1)
    where
      kept_All :
          (b : Bool) (d : ChunkRef) (ds : List ChunkRef)
          → P d
          → All P ds
          → All P (if b then d ∷ ds else ds)
      kept_All true d ds p all = (p, all)
      kept_All false d ds p all = all

  retain_chunks-IsByStart :
      (cs : List ChunkRef) (s : S) → IsByStart cs → IsByStart (retain_chunks keep cs s).0
  unfolding retain_chunks
  retain_chunks-IsByStart [] s h = tt
  retain_chunks-IsByStart (c ∷ cs) s h =
      kept_IsByStart (keep c s).0 c (retain_chunks keep cs (keep c s).1).0
        (retain_chunks-All (StartsAfter c) cs (keep c s).1 h.0)
        (retain_chunks-IsByStart cs (keep c s).1 h.1)
    where
      kept_IsByStart :
          (b : Bool) (d : ChunkRef) (ds : List ChunkRef)
          → All (StartsAfter d) ds
          → IsByStart ds
          → IsByStart (if b then d ∷ ds else ds)
      kept_IsByStart true d ds all h' = (all, h')
      kept_IsByStart false d ds all h' = h'

  -- Whichever chunks the closure drops from an ordered index, what is left is an ordered index.
  pub retain-IsOrdered : (ix : ChunkIndex) (s : S) → IsOrdered ix → IsOrdered (retain keep ix s).0
  unfolding retain recompute_max_end_through
  retain-IsOrdered ix s v = record {
    by_start = retain_chunks-IsByStart ix.chunks s v.by_start;
    prefix_maxima = refl;
  }

-- The index built from any manifest ascends by start, and its prefix maxima are those of its ends.
pub from_manifest-IsOrdered :
    (recording_id : String) (m : Manifest) → IsOrdered (from_manifest recording_id m)
unfolding from_manifest recompute_max_end_through
from_manifest-IsOrdered recording_id m = record {
  by_start =
      sort_by_key-IsByStart
        (gather m 0 m.chunk_ids (record {
          chunks = [];
          statics = [];
          temporal_chunks = 0;
          summaries = summarize m;
        })).chunks;
  prefix_maxima = refl;
}
