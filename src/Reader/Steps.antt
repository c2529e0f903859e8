-- ===== src/Reader/Steps.antt =====
-- reader.rs: the parts of the pass that read nothing from the file.
use rosbag2_storage_rrd.Arrow.{i64_max, i64_zero, i64_min, lookup}
use rosbag2_storage_rrd.Statics.{blob_at}
use rosbag2_storage_rrd.Index.{ChunkIndex}
use rosbag2_storage_rrd.Replay.{CdrWriter, encode}
use rosbag2_storage_rrd.Reader.Windows.{data_row, load_window, Window}
use rosbag2_storage_rrd.Reader.{
  oriented, head, topic_at, temporal_chunk_of, earliest_unread, Bytes, Message, Method, max_pair,
  max_by_key, Chunk, min_pair, LogMsg, TopicInfo, min_by_key, keyed, heads, Reader, swap_remove,
}
use rosbag2_storage_rrd.Base.{
  true, ◌>>=◌, ◌==◌, ◌||◌, ltb, get_or, no_plan, Bool, set, no_payload, ◌-◌, ◌+◌, Option, ◌∷◌,
  Result, length, get_elem?, if◌then◌else◌, ℕ, ◌++◌, List, false, some, none, ok, err, [],
}

-- The window of a chunk that was read, if it holds messages.
unfoldable pub load_oriented : Reader → ℕ → TopicInfo → Chunk → Result (Option Window)
unfolding load_window
load_oriented r topic info chunk = do
  loaded ← load_window chunk topic info
  ok (elim loaded [ none ↦ none | some w ↦ some (oriented r w) ])

-- `loaded.into_iter().next()`
unfoldable pub load_first : Reader → ℕ → TopicInfo → List Chunk → Result (Option Window)
unfolding load_oriented
load_first r topic info [] = ok none
load_first r topic info (chunk ∷ _) = load_oriented r topic info chunk

-- The position in `index.chunks` of the chunk that is next in playback order.
abbrev pub playback_position : ChunkIndex → Reader → ℕ
playback_position ix r = if r.is_reverse then length ix.chunks - 1 - r.at_chunk else r.at_chunk

-- The forward pass, over the messages still to be decoded.
unfoldable pub pull_scanned : List LogMsg → Method (Option Window)
unfolding load_oriented
pull_scanned [] r = (ok none, record r { source = none })
pull_scanned (msg ∷ rest) r =
    let skipped = pull_scanned rest r in
    let r' : Reader = record r { next_chunk = r.next_chunk + 1 } in
    let lensed = pull_scanned rest r' in
    elim (temporal_chunk_of msg) [
      | none ↦ skipped
      | some chunk ↦ elim (lookup chunk.entity_path r.topic_index) [
        | none ↦ skipped
        | some topic ↦ elim (topic_at r topic >>= λ info. load_oriented r topic info chunk) [
          | ok (some w) ↦ (ok (some w), record r' { source = some rest })
          | ok none ↦ lensed
          | err e ↦ (err e, record r' { source = some rest })
        ]
      ]
    ]

-- How many more windows the file can give.
abbrev pub supply : Reader → ℕ
supply r = elim r.index [
  | some ix ↦ length ix.chunks - r.at_chunk
  | none ↦ elim r.source [ none ↦ 0 | some msgs ↦ length msgs ]
]

abbrev pub is_none {ℓ} : {A : Type ℓ} → Option A → Bool
is_none none = true
is_none (some _) = false

abbrev pub push : Window → Reader → Reader
push w r = record r { window = r.window ++ w ∷ [] }

-- The candidate is known, and nothing unread can come before it.
unfoldable pub is_settled : Reader → Bool
is_settled r =
    elim (if r.is_reverse then max_pair (heads r.window) else min_pair (heads r.window)) [
      | none ↦ false
      | some candidate ↦
          let unread = earliest_unread r in
          if r.is_reverse
          then ltb unread candidate.0 || unread == i64_min
          else ltb candidate.0 unread || unread == i64_max
    ]

-- The position of the window holding the next message, and the row within it.
unfoldable pub choose : Reader → Option (ℕ × ℕ)
choose r =
    elim (if r.is_reverse then max_by_key (keyed 0 r.window) else min_by_key (keyed 0 r.window)) [
      | none ↦ none
      | some (i, k) ↦ elim (get_elem? r.window i) [ none ↦ none | some w ↦ some (i, w.next) ]
    ]

-- Advances past the row of a window, dropping the window once it is drained.
unfoldable pub advance : ℕ → Reader → Reader
advance i r = elim (get_elem? r.window i) [
  | none ↦ r
  | some w ↦
      let w' : Window = record w { next = w.next + 1 } in
      let r' : Reader = record r {
        window = set r.window i w';
        position = get_or w.recv_timestamps w.next r.position;
      } in
      elim (head w') [ none ↦ record r' { window = swap_remove r'.window i } | some h ↦ r' ]
]

module _ (cdr : CdrWriter) where
  -- The struct of a row, re-encoded.
  unfoldable pub re_encode : TopicInfo → Window → ℕ → Result Bytes
  re_encode info w row = elim w.chunk.messages [
    | none ↦ err (no_payload row)
    | some messages ↦ elim info.plan [
      | none ↦ err (no_plan row)
      | some plan ↦ encode cdr plan messages row
    ]
  ]

  -- The raw bytes where they were kept, otherwise the struct, re-encoded.
  unfoldable pub payload : TopicInfo → Window → ℕ → Result Bytes
  payload info w row = elim w.chunk.blobs [
    | none ↦ re_encode info w row
    | some l ↦ elim (blob_at l row) [ none ↦ re_encode info w row | some bytes ↦ ok bytes ]
  ]

  -- The message at a row of a window; `take` and the end of `read_next` build it.
  unfoldable pub message_at : TopicInfo → Window → ℕ → Result Message
  message_at info w row = do
    bytes ← payload info w (data_row w row)
    let recv = get_or w.recv_timestamps row i64_zero
    ok (record {
      topic_name = info.name;
      recv_timestamp = recv;
      send_timestamp = get_or w.send_timestamps row recv;
      bytes = bytes;
    })
