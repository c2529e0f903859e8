-- ===== src/Pipeline/Column.antt =====
-- The blob column of pipeline.rs as the array that its builder makes: a list array with one blob per
-- row, null where a row has none, over the bytes of all blobs.
use rosbag2_storage_rrd.Base.{◌∷◌, ◌++◌, length, ◌+◌, Option, ℕ, List, some, none, []}
use rosbag2_storage_rrd.Arrow.{Bytes, ListArray, NumberType, list, numbers}

-- The outer rows: the builder's position advances at null rows too.
unfoldable pub blob_rows : ℕ → List (Option Bytes) → List (Option (ℕ × ℕ))
blob_rows i [] = []
blob_rows i (none ∷ blobs) = none ∷ blob_rows (i + 1) blobs
blob_rows i (some bytes ∷ blobs) = some (i, 1) ∷ blob_rows (i + 1) blobs

-- The inner slices: a null one is empty.
unfoldable pub blob_slices : ℕ → List (Option Bytes) → List (ℕ × ℕ)
blob_slices from [] = []
blob_slices from (none ∷ blobs) = (from, 0) ∷ blob_slices from blobs
blob_slices from (some bytes ∷ blobs) =
    (from, length bytes) ∷ blob_slices (from + length bytes) blobs

unfoldable pub blob_bytes : List (Option Bytes) → Bytes
blob_bytes [] = []
blob_bytes (none ∷ blobs) = blob_bytes blobs
blob_bytes (some bytes ∷ blobs) = bytes ++ blob_bytes blobs

-- `blobs.finish().into()`
unfoldable pub blob_array : List (Option Bytes) → ListArray
unfolding blob_rows blob_slices blob_bytes
blob_array blobs = record {
  rows = blob_rows 0 blobs;
  values = list (blob_slices 0 blobs) (numbers NumberType.uint8 (blob_bytes blobs));
}
