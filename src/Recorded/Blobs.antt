-- ===== src/Recorded/Blobs.antt =====
-- A blob column holds the bytes it was built from, row by row.
use rosbag2_storage_rrd.Base.{
  length-append, sym, some_inj, ◌∙◌, ap, ◌+◌, ◌≡◌, ◌++◌, get_elem?, drop, ℕ, length, Option, List,
  take, zero, suc, some, none, refl, arith, [],
}
use rosbag2_storage_rrd.Arrow.{Bytes, list, numbers, NumberType}
use rosbag2_storage_rrd.Pipeline.Column.{blob_array, blob_bytes, blob_rows, blob_slices}
use rosbag2_storage_rrd.Statics.{blob_at}
use mathlib.Core.List.{append_assoc, ◌∷◌}

blob_rows-some :
    (blobs : List (Option Bytes)) (k i : ℕ) (bytes : Bytes)
    → get_elem? blobs i ≡ some (some bytes)
    → get_elem? (blob_rows k blobs) i ≡ some (some (k + i, 1))
unfolding blob_rows
blob_rows-some [] k i bytes e = cc
blob_rows-some (none ∷ blobs) k zero bytes e = cc
blob_rows-some (some b ∷ blobs) k zero bytes e = ap (λ (n : ℕ). some (some (n, 1))) (omega arith)
blob_rows-some (none ∷ blobs) k (suc i) bytes e =
    blob_rows-some blobs (k + 1) i bytes e ∙ ap (λ (n : ℕ). some (some (n, 1))) (omega arith)
blob_rows-some (some b ∷ blobs) k (suc i) bytes e =
    blob_rows-some blobs (k + 1) i bytes e ∙ ap (λ (n : ℕ). some (some (n, 1))) (omega arith)

-- Where the bytes of a row stand among those of all rows.
record Placed (blobs : List (Option Bytes)) (from i : ℕ) (bytes : Bytes) : Type 0 where
  before : Bytes
  behind : Bytes
  all : blob_bytes blobs ≡ before ++ (bytes ++ behind)
  slice : get_elem? (blob_slices from blobs) i ≡ some (from + length before, length bytes)

blob_slices-Placed :
    (blobs : List (Option Bytes)) (from i : ℕ) (bytes : Bytes)
    → get_elem? blobs i ≡ some (some bytes)
    → Placed blobs from i bytes
unfolding blob_slices blob_bytes
blob_slices-Placed [] from i bytes e = cc
blob_slices-Placed (none ∷ blobs) from zero bytes e = cc
blob_slices-Placed (some b ∷ blobs) from zero bytes e =
    let same : b ≡ bytes = some_inj (some_inj e) in
    record {
      before = [];
      behind = blob_bytes blobs;
      all = ap (λ (x : Bytes). x ++ blob_bytes blobs) same;
      slice = ground arith;
    }
blob_slices-Placed (none ∷ blobs) from (suc i) bytes e =
    let p = blob_slices-Placed blobs from i bytes e in
    record { before = p.before; behind = p.behind; all = p.all; slice = p.slice }
blob_slices-Placed (some b ∷ blobs) from (suc i) bytes e =
    let p = blob_slices-Placed blobs (from + length b) i bytes e in
    record {
      before = b ++ p.before;
      behind = p.behind;
      all = ap (λ (x : Bytes). b ++ x) p.all ∙ sym (append_assoc b p.before (bytes ++ p.behind));
      slice =
          p.slice
          ∙ ap (λ (n : ℕ). some (n, length bytes)) (omega (arith, length-append b p.before));
    }

take-drop-middle :
    (before bytes behind : Bytes)
    → take (length bytes) (drop (length before) (before ++ (bytes ++ behind))) ≡ bytes
take-drop-middle [] [] behind = refl
take-drop-middle [] (x ∷ bytes) behind = ap (◌∷◌ x) (take-drop-middle [] bytes behind)
take-drop-middle (y ∷ before) bytes behind = take-drop-middle before bytes behind

blob_at-slices :
    (rows : List (Option (ℕ × ℕ))) (slices : List (ℕ × ℕ)) (bytes : Bytes) (i from n : ℕ)
    → get_elem? rows i ≡ some (some (i, 1))
    → get_elem? slices i ≡ some (from, n)
    → blob_at (record { rows = rows; values = list slices (numbers NumberType.uint8 bytes) }) i
      ≡ some (take n (drop from bytes))
unfolding blob_at
blob_at-slices rows slices bytes i from n outer inner = ground arith

-- If there are bytes for a row, then reading that row of the column that is built of the rows, some of
-- them without bytes, gives those bytes.
pub blob_at-blob_array :
    (blobs : List (Option Bytes)) (i : ℕ) (bytes : Bytes)
    → get_elem? blobs i ≡ some (some bytes)
    → blob_at (blob_array blobs) i ≡ some bytes
unfolding blob_array
blob_at-blob_array blobs i bytes e =
    let p = blob_slices-Placed blobs 0 i bytes e in
    let outer : get_elem? (blob_rows 0 blobs) i ≡ some (some (i, 1)) =
      blob_rows-some blobs 0 i bytes e ∙ ap (λ (n : ℕ). some (some (n, 1))) (omega arith) in
    let inner : get_elem? (blob_slices 0 blobs) i ≡ some (length p.before, length bytes) =
      p.slice ∙ ap (λ (n : ℕ). some (n, length bytes)) (omega arith) in
    let middle : take (length bytes) (drop (length p.before) (blob_bytes blobs)) ≡ bytes =
      ap (λ (x : Bytes). take (length bytes) (drop (length p.before) x)) p.all
      ∙ take-drop-middle p.before bytes p.behind in
    blob_at-slices (blob_rows 0 blobs) (blob_slices 0 blobs) (blob_bytes blobs) i (length p.before)
      (length bytes) outer inner
    ∙ ap some middle
