-- ===== src/Recorded/Windows.antt =====
-- The windows of reader.rs over a chunk of recorded messages: forward as loaded, and reversed.
use rosbag2_storage_rrd.Recorded.Blobs.{blob_at-blob_array}
use rosbag2_storage_rrd.Statics.{blob_at, column}
use rosbag2_storage_rrd.Reader.Steps.{re_encode, payload}
use rosbag2_storage_rrd.Reader.{oriented, Reader}
use rosbag2_storage_rrd.Reader.Windows.{
  or_default, times, Window, reversed, data_row, window_over, TopicInfo,
}
use rosbag2_storage_rrd.Replay.{CdrWriter}
use rosbag2_storage_rrd.Arrow.{Bytes, Array, ListArray, Chunk}
use rosbag2_storage_rrd.Base.{
  get_elem?-reverse, get_elem?, length-map, lt-length_of_get_elem?, ◌<◌, length-reverse, Bool, sym,
  ◌∙◌, if◌then◌else◌, ◌-◌, map, ap, some, length, reverse, ◌≡◌, Option, ℕ, List, String, true, ok,
  arith, false, refl, [],
}
use rosbag2_storage_rrd.Recorded.{Entry}
use rosbag2_storage_rrd.Recorded.Rows.{get_elem?-map, in_direction, Describes, map-reverse}
use rosbag2_storage_rrd.Pipeline.Column.{blob_array}

-- The columns of a chunk are those of the entries.
pub record Carries (chunk : Chunk) (raw : String) (entries : List Entry) : Type 0 where
  pub recv : times chunk "recv_timestamp" ≡ some (map (λ (e : Entry). e.recv) entries)
  pub send : times chunk "send_timestamp" ≡ some (map (λ (e : Entry). e.send) entries)
  pub sequence : times chunk "sequence_number" ≡ some (map (λ (e : Entry). e.sequence) entries)
  pub blobs : column chunk raw ≡ some (blob_array (map (λ (e : Entry). some e.message) entries))

module _ (cdr : CdrWriter) (info : TopicInfo) where
  payload-blob_at :
      (w : Window) (l : ListArray) (row : ℕ) (bytes : Bytes)
      → w.chunk.blobs ≡ some l
      → blob_at l row ≡ some bytes
      → payload cdr info w row ≡ ok bytes
  unfolding payload
  payload-blob_at w l row bytes blobs at = ground arith

  pub window_over-Describes :
      (chunk : Chunk) (topic : ℕ) (raw : String) (messages : Option Array) (entries : List Entry)
      → Carries chunk raw entries
      → Describes cdr info
          (window_over chunk topic (record { blobs = column chunk raw; messages = messages }))
          entries
  unfolding window_over data_row
  window_over-Describes chunk topic raw messages entries c =
      let w = window_over chunk topic (record { blobs = column chunk raw; messages = messages }) in
      let blobs = map (λ (e : Entry). some e.message) entries in
      record {
        recv = ap (or_default []) c.recv;
        send = ap (or_default (or_default [] (times chunk "recv_timestamp"))) c.send;
        sequence = ap (or_default []) c.sequence;
        fresh = refl;
        bytes = λ i e at. payload-blob_at w (blob_array blobs) i e.message c.blobs (
            blob_at-blob_array blobs i e.message
              (get_elem?-map (λ (x : Entry). some x.message) entries i at));
      }

  data_row-forward : (w : Window) (i : ℕ) → w.rows_reversed ≡ false → data_row w i ≡ i
  unfolding data_row
  data_row-forward w i e = ap (λ b. if b then length w.recv_timestamps - 1 - i else i) e

  payload-reversed :
      (w : Window) (row : ℕ) → payload cdr info (reversed w) row ≡ payload cdr info w row
  unfolding reversed payload re_encode
  payload-reversed w row = refl

  data_row-reversed :
      (w : Window) (i : ℕ) → data_row (reversed w) i ≡ length w.recv_timestamps - 1 - i
  unfolding reversed data_row
  data_row-reversed w i = ap (λ n. n - 1 - i) (length-reverse w.recv_timestamps)

  pub reversed-Describes :
      (w : Window) (entries : List Entry)
      → w.rows_reversed ≡ false
      → Describes cdr info w entries
      → Describes cdr info (reversed w) (reverse entries)
  unfolding reversed
  reversed-Describes w entries forward d = record {
    recv = ap reverse d.recv ∙ sym (map-reverse (λ (e : Entry). e.recv) entries);
    send = ap reverse d.send ∙ sym (map-reverse (λ (e : Entry). e.send) entries);
    sequence = ap reverse d.sequence ∙ sym (map-reverse (λ (e : Entry). e.sequence) entries);
    fresh = d.fresh;
    bytes = λ i e at.
        let inside : i < length entries =
          omega (arith, lt-length_of_get_elem? (reverse entries) i at, length-reverse entries) in
        let long : length w.recv_timestamps ≡ length entries =
          ap length d.recv ∙ length-map (λ (x : Entry). x.recv) entries in
        let at' : get_elem? entries (length entries - 1 - i) ≡ some e =
          sym (get_elem?-reverse entries i inside) ∙ at in
        let row : data_row (reversed w) i ≡ data_row w (length entries - 1 - i) =
          data_row-reversed w i
          ∙ ap (λ n. n - 1 - i) long
          ∙ sym (data_row-forward w (length entries - 1 - i) forward) in
        payload-reversed w (data_row (reversed w) i)
        ∙ ap (payload cdr info w) row
        ∙ d.bytes (length entries - 1 - i) e at';
  }

  -- The window in the direction of a reader describes the entries in that direction.
  pub oriented-Describes :
      (r : Reader) (w : Window) (entries : List Entry)
      → w.rows_reversed ≡ false
      → Describes cdr info w entries
      → Describes cdr info (oriented r w) (in_direction r.is_reverse entries)
  oriented-Describes r w entries forward d = from r.is_reverse
    where
      from : (b : Bool) → Describes cdr info (if b then reversed w else w) (in_direction b entries)
      from true = reversed-Describes w entries forward d
      from false = d
