-- ===== src/Reader/Scan.antt =====
-- reader.rs: what a scan keeps of each chunk of a file without a footer, and the suffix minima that
-- tell the forward pass what a later chunk can hold.

use rosbag2_storage_rrd.Arrow.{Chunk, i64_max}
use rosbag2_storage_rrd.Reader.Windows.{times}
use rosbag2_storage_rrd.Base.{
  drop, All-imp, ◌+◌, ◌≤◌, get_or, ◌≡◌, max, length, All, ◌∷◌, min, String, List, Option, ℕ, zero,
  suc, some, none, refl, arith, [],
}

pub record ScannedChunk : Type 0 where
  pub entity : String
  pub components : List String
  pub num_rows : ℕ
  pub earliest : ℕ
  pub time_range : Option (ℕ × ℕ)

abbrev widened : ℕ → Option (ℕ × ℕ) → ℕ × ℕ
widened time none = (time, time)
widened time (some (start, end)) = (min start time, max end time)

-- The loop over the times of a chunk.
unfoldable pub scan_times : List ℕ → ℕ → Option (ℕ × ℕ) → ℕ × Option (ℕ × ℕ)
scan_times [] earliest range = (earliest, range)
scan_times (time ∷ rest) earliest range =
    scan_times rest (min earliest time) (some (widened time range))

abbrev times_of : Option (List ℕ) → List ℕ
times_of none = []
times_of (some ts) = ts

abbrev names : {A : Type 0} → List (String × A) → List String
names [] = []
names ((name, a) ∷ rest) = name ∷ names rest

unfoldable pub scan_chunk : Chunk → ScannedChunk
unfolding scan_times times
scan_chunk chunk =
    let scanned = scan_times (times_of (times chunk "recv_timestamp")) i64_max none in
    record {
      entity = chunk.entity_path;
      components = names chunk.components;
      num_rows = chunk.num_rows;
      earliest = scanned.0;
      time_range = scanned.1;
    }

-- For each chunk the earliest time in it and behind it, and one more for the end.
unfoldable pub suffix_minima : List ScannedChunk → List ℕ
suffix_minima [] = i64_max ∷ []
suffix_minima (c ∷ cs) = min c.earliest (get_or (suffix_minima cs) 0 i64_max) ∷ suffix_minima cs

head-le : (cs : List ScannedChunk) → All (λ c. get_or (suffix_minima cs) 0 i64_max ≤ c.earliest) cs
unfolding suffix_minima
head-le [] = tt
head-le (c ∷ cs) = (omega arith, All-imp _ _ cs (λ d h. omega (arith, h)) (head-le cs))

-- There is one bound more than chunks, and at every position the bound is at most the earliest time
-- of each chunk from there on.
pub suffix_minima-le :
    (cs : List ScannedChunk) (i : ℕ)
    → (length (suffix_minima cs) ≡ length cs + 1)
      × All (λ c. get_or (suffix_minima cs) i i64_max ≤ c.earliest) (drop i cs)
unfolding suffix_minima
suffix_minima-le [] zero = (refl, tt)
suffix_minima-le [] (suc i) = (refl, tt)
suffix_minima-le (c ∷ cs) zero =
    let rest = suffix_minima-le cs 0 in (omega (arith, rest.0), head-le (c ∷ cs))
suffix_minima-le (c ∷ cs) (suc i) =
    let rest = suffix_minima-le cs i in (omega (arith, rest.0), rest.1)
