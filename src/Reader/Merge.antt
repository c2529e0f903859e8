-- ===== src/Reader/Merge.antt =====
-- The merge of reader.rs as a specification: the rows that a reader has still to emit, and the
-- order in which they are due. `s` is a reader of which only the settings matter: the index, the
-- topics, the filter and the direction.
pub mod Choice
pub mod Head
pub mod Horizon
pub mod Unread
pub mod Delivery
pub mod Advance
pub mod Pick
pub mod Fill
pub mod Drain
pub mod Wind
pub mod Rewind
pub mod Seeking
pub mod Sought
use rosbag2_storage_rrd.Reader.Steps.{message_at}
use rosbag2_storage_rrd.Arrow.{i64_zero, i64_max, i64_min}
use rosbag2_storage_rrd.Reader.Pass.{load_ref}
use rosbag2_storage_rrd.Index.{ChunkIndex, ChunkRef}
use rosbag2_storage_rrd.Replay.{CdrWriter}
use rosbag2_storage_rrd.Base.{
  reverse, if◌then◌else◌, ◌+◌, false, zero, suc, true, ◌>>=◌, some, ◌≤◌, ◌-◌, ok, get_or, ℕ, All,
  ◌++◌, ◌≡◌, length, Option, ◌⊎◌, [], ◌∷◌, ◌<◌, none, Result, List, Bool,
}
use rosbag2_storage_rrd.Reader.Windows.{TopicInfo, sequence_number, Window, SortKey}
use rosbag2_storage_rrd.Reader.{wanted, topic_at, Message, Reader, RrdFile}

-- Receive time, then write order.
abbrev pub KeyLe : SortKey → SortKey → Type 0
KeyLe k l = (k.0 < l.0) ⊎ ((k.0 ≡ l.0) × (k.1 ≤ l.1))

-- `k` is due before `l`, or they tie: newest first in reverse.
abbrev pub Due : Bool → SortKey → SortKey → Type 0
Due false k l = KeyLe k l
Due true k l = KeyLe l k

-- A row: its key, and the message that it is replayed as.
abbrev pub Row : Type 0
Row = SortKey × Result Message

abbrev pub DueRow : Bool → Row → Row → Type 0
DueRow b x y = Due b x.0 y.0

abbrev pub IsMerged : Bool → List Row → Type 0
IsMerged b [] = Unit
IsMerged b (x ∷ xs) = All (DueRow b x) xs × IsMerged b xs

-- The settings of a reader, with the state of the pass forgotten.
abbrev pub settings : Reader → Reader
settings r = record r {
  at_chunk = 0;
  source = none;
  window = [];
  position = 0;
  cursor = none;
  next_chunk = 0;
  last_message = none;
}

-- The reader that `restart` leaves.
abbrev pub restarted : Reader → Reader
restarted r = record r {
  window = [];
  next_chunk = 0;
  position = i64_min;
  cursor = none;
  at_chunk = 0;
}

module _ (s : Reader) (ix : ChunkIndex) where
  -- The chunks in playback order.
  abbrev pub playback : List ChunkRef
  playback = if s.is_reverse then reverse ix.chunks else ix.chunks

  -- A reader over the index with the settings `s`, its chunks read up to `at_chunk`.
  pub record IsIndexed (r : Reader) : Type 0 where
    pub same_settings : settings r ≡ s
    pub indexed : r.index ≡ some ix

module _ (cdr : CdrWriter) (s : Reader) where
  unfoldable pub row_at : Window → ℕ → Row
  unfolding sequence_number
  row_at w i = (
    (get_or w.recv_timestamps i i64_zero, sequence_number w i),
    topic_at s w.topic >>= λ info. message_at cdr info w i,
  )

  unfoldable pub rows_from : Window → ℕ → ℕ → List Row
  unfolding row_at
  rows_from w i zero = []
  rows_from w i (suc n) = row_at w i ∷ rows_from w (i + 1) n

  -- The rows of a window from its cursor on.
  unfoldable pub rows : Window → List Row
  unfolding rows_from
  rows w = rows_from w w.next (length w.recv_timestamps - w.next)

  unfoldable pub rows_of : List Window → List Row
  unfolding rows
  rows_of [] = []
  rows_of (w ∷ ws) = rows w ++ rows_of ws

  -- A window in the merge: a row is left, the rows come in their order, at times between the two
  -- that stand for no time, on a topic that is replayed, and each can be replayed.
  pub record IsLive (w : Window) : Type 0 where
    pub room : w.next < length w.recv_timestamps
    pub merged : IsMerged s.is_reverse (rows w)
    pub timed : All (λ x. (i64_min < x.0.0) × (x.0.0 < i64_max)) (rows w)
    pub readable : All (λ x. (m : Message) × (x.1 ≡ ok m)) (rows w)
    pub info : TopicInfo
    pub topic : topic_at s w.topic ≡ ok info
    pub wanted : wanted s info ≡ true

module _ (file : RrdFile) (cdr : CdrWriter) (s : Reader) where
  abbrev pub loaded_rows : Result (Option Window) → List Row
  loaded_rows (ok (some w)) = rows cdr s w
  loaded_rows _ = []

  -- The rows of the chunks that are still to be read.
  unfoldable pub rows_unread : List ChunkRef → List Row
  unfolding rows
  rows_unread [] = []
  rows_unread (c ∷ cs) = loaded_rows (load_ref file s c) ++ rows_unread cs

  -- What the footer promises of a chunk: it holds no messages, or it loads, and its rows lie within
  -- the times that the index has for it.
  abbrev pub Loads : ChunkRef → Type 0
  Loads c =
      (load_ref file s c ≡ ok none)
      ⊎ ((w : Window) × (load_ref file s c ≡ ok (some w))
          × IsLive cdr s w
          × All (λ x. (c.start ≤ x.0.0) × (x.0.0 ≤ c.end)) (rows cdr s w))
