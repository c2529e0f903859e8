-- ===== src/Reader.antt =====
-- reader.rs: the state of one `.rrd` opened for reading, and the pass over it. A method returns its
-- result and the state that it leaves, also beside an error. What the file system, the footer and
-- the decoder answer is the parameter `file`, what `re_cdr` writes the parameter `cdr`.
pub mod Windows
pub mod Steps
pub mod Pass
pub mod Scan
pub mod Setup
pub mod Seek
pub mod Merge
use rosbag2_storage_rrd.Reader.Windows.{key, head}
use rosbag2_storage_rrd.Base.{
  ◌-◌, length, ◌&&◌, set, ◌==◌, ◌+◌, reverse, drop_last, ltb, get_last?, get_or, leb, ℕ, suc,
  String, List, [], ◌∷◌, Option, none, some, Bool, true, false, ◌||◌, Result, ok, err, str_eq,
  if◌then◌else◌, get_elem?, panicked,
}
use rosbag2_storage_rrd.Arrow.{i64_min, i64_max, Bytes, Chunk}
use rosbag2_storage_rrd.Replay
use rosbag2_storage_rrd.Index.{ChunkRef, ChunkIndex}
use Windows.{SortKey, Window, reversed, TopicInfo}

-- A message names the recording it belongs to; `Arrow` messages carry a chunk, if it decodes.
pub data LogMsg : Type 0 where
  arrow_msg : String → Result Chunk → LogMsg
  other_msg : String → LogMsg

-- What the file at the reader's path answers.
pub record RrdFile : Type 0 where
  pub opened : Result (Unit {0})
  pub decoded : Result (List LogMsg)
  pub read_chunks : List ℕ → Result (List Chunk)

-- `ChunkIndex::load`: no chunk at all is read without the file.
abbrev pub load : RrdFile → List ℕ → Result (List Chunk)
load file [] = ok []
load file (id ∷ ids) = file.read_chunks (id ∷ ids)

pub record Message : Type 0 where
  pub topic_name : String
  pub recv_timestamp : ℕ
  pub send_timestamp : ℕ
  pub bytes : Bytes

pub record Reader : Type 0 where
  pub index : Option ChunkIndex
  pub at_chunk : ℕ
  pub source : Option (List LogMsg)
  pub topics : List TopicInfo
  pub topic_index : List (String × ℕ)
  pub window : List Window
  pub position : ℕ
  pub filter : List String
  pub cursor : Option SortKey
  pub metadata_yaml : Option String
  pub recording_id : String
  pub message_count : ℕ
  pub time_range : Option (ℕ × ℕ)
  pub earliest_remaining : List ℕ
  pub next_chunk : ℕ
  pub is_reverse : Bool
  pub last_message : Option Message

-- A method on the reader.
abbrev pub Method : Type 0 → Type 0
Method A = Reader → Result A × Reader

-- `?` behind a call of a method, and what follows it.
abbrev pub and_then : {A B : Type 0} → Result A × Reader → (A → Method B) → Result B × Reader
and_then (ok a, r) f = f a r
and_then (err e, r) f = (err e, r)

-- The chunk a log message carries, if it carries one.
abbrev pub chunk_of : LogMsg → Option Chunk
chunk_of (arrow_msg id (ok chunk)) = some chunk
chunk_of (arrow_msg id (err e)) = none
chunk_of (other_msg id) = none

-- `chunk_of(&msg).filter(|chunk| !chunk.is_static())`
abbrev pub temporal_chunk_of : LogMsg → Option Chunk
temporal_chunk_of msg = elim (chunk_of msg) [
  | none ↦ none
  | some chunk ↦ if chunk.is_static then none else some chunk
]

unfoldable pub contains : List String → String → Bool
contains [] a = false
contains (x ∷ xs) a = str_eq x a || contains xs a

-- `self.topics[topic]`
abbrev pub topic_at : Reader → ℕ → Result TopicInfo
topic_at r topic = elim (get_elem? r.topics topic) [ none ↦ err panicked | some t ↦ ok t ]

-- Whether a topic is being replayed at all.
unfoldable pub wanted : Reader → TopicInfo → Bool
unfolding contains
wanted r info = elim r.filter [ [] ↦ true | f ∷ fs ↦ contains (f ∷ fs) info.name ]

-- Reverse playback walks a window from its end.
abbrev pub oriented : Reader → Window → Window
oriented r w = if r.is_reverse then reversed w else w

-- `swap_remove`: the last element takes the place of the removed one.
unfoldable pub swap_remove {ℓ} : {A : Type ℓ} → List A → ℕ → List A
swap_remove xs i = elim (get_last? xs) [ none ↦ [] | some l ↦ drop_last (set xs i l) ]

-- `enumerate`, `filter_map` with the key: the windows that have one, with their positions.
unfoldable pub keyed : ℕ → List Window → List (ℕ × SortKey)
keyed i [] = []
keyed i (w ∷ ws) = elim (key w) [ none ↦ keyed (i + 1) ws | some k ↦ (i, k) ∷ keyed (i + 1) ws ]

-- The derived order of a pair.
abbrev pub leb_pair : ℕ × ℕ → ℕ × ℕ → Bool
leb_pair a b = ltb a.0 b.0 || a.0 == b.0 && leb a.1 b.1

-- `min_by_key` returns the first of equal minima, `max_by_key` the last of equal maxima.
unfoldable pub min_by_key : List (ℕ × SortKey) → Option (ℕ × SortKey)
min_by_key [] = none
min_by_key (x ∷ xs) = elim (min_by_key xs) [
  | none ↦ some x
  | some y ↦ if leb_pair x.1 y.1 then some x else some y
]

unfoldable pub max_by_key : List (ℕ × SortKey) → Option (ℕ × SortKey)
max_by_key [] = none
max_by_key (x ∷ xs) = elim (max_by_key xs) [
  | none ↦ some x
  | some y ↦ if leb_pair x.1 y.1 then some y else some x
]

unfoldable pub heads : List Window → List (ℕ × ℕ)
heads [] = []
heads (w ∷ ws) = elim (head w) [ none ↦ heads ws | some h ↦ h ∷ heads ws ]

unfoldable pub min_pair : List (ℕ × ℕ) → Option (ℕ × ℕ)
min_pair [] = none
min_pair (x ∷ xs) = elim (min_pair xs) [
  | none ↦ some x
  | some y ↦ if leb_pair x y then some x else some y
]

unfoldable pub max_pair : List (ℕ × ℕ) → Option (ℕ × ℕ)
max_pair [] = none
max_pair (x ∷ xs) = elim (max_pair xs) [
  | none ↦ some x
  | some y ↦ if leb_pair x y then some y else some x
]

-- The earliest message time that no pulled chunk holds; the latest, in reverse.
unfoldable pub earliest_unread : Reader → ℕ
earliest_unread r = elim r.index [
  | none ↦ get_or r.earliest_remaining r.next_chunk i64_max
  | some ix ↦
      if leb (length ix.chunks) r.at_chunk
      then if r.is_reverse then i64_min else i64_max
      else if r.is_reverse
      then get_or ix.max_end_through (length ix.chunks - 1 - r.at_chunk) i64_min
      else elim (get_elem? ix.chunks r.at_chunk) [ none ↦ i64_max | some c ↦ c.start ]
]

-- `position` over the chunks in playback order, with the number of chunks where there is none.
unfoldable pub position_of : (ChunkRef → Bool) → List ChunkRef → ℕ
position_of p [] = 0
position_of p (c ∷ cs) = if p c then 0 else suc (position_of p cs)

-- Advances the index cursor past chunks that cannot contain the time.
unfoldable pub skip_index_to : ℕ → Reader → Reader
unfolding position_of
skip_index_to timestamp r = elim r.index [
  | none ↦ r
  | some ix ↦ record r {
    at_chunk =
        if r.is_reverse
        then position_of (λ c. leb c.start timestamp) (reverse ix.chunks)
        else position_of (λ c. leb timestamp c.end) ix.chunks;
  }
]
