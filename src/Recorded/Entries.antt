-- ===== src/Recorded/Entries.antt =====
-- The messages in the rows and the chunks of pipeline.rs.
use rosbag2_storage_rrd.Arrow.{lookup}
use rosbag2_storage_rrd.Pipeline.{sequence_number, send_timestamp, recv_timestamp, Rows}
use rosbag2_storage_rrd.Pipeline.Flow.{MessageChunk}
use rosbag2_storage_rrd.Base.{ap, ◌∙◌, ℕ, ◌≡◌, map, List, Option, some, none, refl, [], ◌∷◌}
use rosbag2_storage_rrd.Recorded.{Bytes, Entry}
use rosbag2_storage_rrd.Recorded.Pushes.{IsRaw}

-- The messages of rows: their times, and their raw bytes.
unfoldable pub row_entries : List ℕ → List ℕ → List ℕ → List (Option Bytes) → List Entry
row_entries (recv ∷ recvs) (send ∷ sends) (number ∷ numbers) (some bytes ∷ blobs) =
    record { message = bytes; recv = recv; send = send; sequence = number }
    ∷ row_entries recvs sends numbers blobs
row_entries recvs sends numbers blobs = []

unfoldable pub entries_of : Rows → List Entry
unfolding row_entries
entries_of rows = row_entries rows.times.recv rows.times.send rows.times.sequence rows.blobs

entries_of-map :
    (es : List Entry)
    → row_entries
        (map (λ (e : Entry). e.recv) es)
        (map (λ (e : Entry). e.send) es)
        (map (λ (e : Entry). e.sequence) es)
        (map (λ (e : Entry). some e.message) es)
      ≡ es
unfolding row_entries
entries_of-map [] = refl
entries_of-map (e ∷ es) = ap (◌∷◌ e) (entries_of-map es)

pub entries_of-IsRaw : (es : List Entry) (rows : Rows) → IsRaw es rows → entries_of rows ≡ es
unfolding entries_of
entries_of-IsRaw es rows same =
    let rewritten : row_entries rows.times.recv rows.times.send rows.times.sequence rows.blobs
        ≡ row_entries (map (λ (e : Entry). e.recv) es) (map (λ (e : Entry). e.send) es)
            (map (λ (e : Entry). e.sequence) es) (map (λ (e : Entry). some e.message) es) =
      λ i. row_entries (same.recv i) (same.send i) (same.sequence i) (same.blobs i) in
    rewritten ∙ entries_of-map es

abbrev pub or_nil {ℓ} : {A : Type ℓ} → Option (List A) → List A
or_nil none = []
or_nil (some xs) = xs

-- The messages that a chunk is made of.
unfoldable pub made_entries : {V : Type 0} → MessageChunk V → List Entry
unfolding row_entries
made_entries made =
    row_entries (or_nil (lookup recv_timestamp made.timelines))
      (or_nil (lookup send_timestamp made.timelines))
      (or_nil (lookup sequence_number made.timelines)) (or_nil made.blob)
