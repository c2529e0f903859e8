-- ===== src/Recorded/Loads.antt =====
-- A recorded chunk in the merge of reader.rs: it loads, and its rows are the messages.
use rosbag2_storage_rrd.Statics.{column}
use rosbag2_storage_rrd.Reader.Steps.{load_oriented, load_first}
use mathlib.Core.List.{append-nil, reverse-cons}
use rosbag2_storage_rrd.Reader.Pass.{load_ref}
use rosbag2_storage_rrd.Reader.Windows.{
  reversed, holds_nothing, ChunkData, struct_column, TopicInfo, window_over, Window, load_window,
}
use rosbag2_storage_rrd.Arrow.{ListArray, Array, lookup, i64_max, Chunk, i64_min}
use rosbag2_storage_rrd.Replay.{CdrWriter}
use rosbag2_storage_rrd.Reader.{Message, wanted, topic_at, oriented, Reader, RrdFile}
use rosbag2_storage_rrd.Index.{ChunkRef}
use rosbag2_storage_rrd.Base.{
  All-imp, length-map, length-reverse, refl, arith, ◌∙◌, ap, if◌then◌else◌, ◌>>=◌, length, Result,
  none, inr, Option, All-append, ℕ, ◌≤◌, ◌≡◌, ◌++◌, ◌<◌, map, reverse, All, Bool, String, List,
  true, false, some, ok, [], ◌∷◌,
}
use rosbag2_storage_rrd.Recorded.{Entry}
use rosbag2_storage_rrd.Recorded.Rows.{
  Describes, rows-replayed_row, in_direction, map-append, replayed_row,
}
use rosbag2_storage_rrd.Recorded.Windows.{window_over-Describes, oriented-Describes, Carries}
use rosbag2_storage_rrd.Reader.Merge.{
  loaded_rows, rows, Loads, rows_unread, DueRow, IsMerged, KeyLe,
}

-- The keys never decrease.
abbrev pub IsChronological : List Entry → Type 0
IsChronological [] = Unit
IsChronological (e ∷ entries) =
    All (λ f. KeyLe (e.recv, e.sequence) (f.recv, f.sequence)) entries × IsChronological entries

-- A time that stands for itself, within the times that the index has for the chunk.
abbrev pub IsWithin : ChunkRef → Entry → Type 0
IsWithin c e = (i64_min < e.recv) × (e.recv < i64_max) × (c.start ≤ e.recv) × (e.recv ≤ c.end)

All-reverse {ℓ κ} : {A : Type ℓ} (P : A → Type κ) (xs : List A) → All P xs → All P (reverse xs)
All-reverse P [] h = tt
All-reverse P (x ∷ xs) h =
    rw (reverse-cons x xs) (All-append P (reverse xs) (x ∷ []) (All-reverse P xs h.1) (h.0, tt))

All-map {ℓ κ μ} :
    {A : Type ℓ} {B : Type κ} (f : A → B) (P : B → Type μ) (xs : List A)
    → All (λ x. P (f x)) xs
    → All P (map f xs)
All-map f P [] h = tt
All-map f P (x ∷ xs) h = (h.0, All-map f P xs h.1)

All-in_direction {κ} :
    (P : Entry → Type κ) (b : Bool) (entries : List Entry)
    → All P entries
    → All P (in_direction b entries)
All-in_direction P true entries h = All-reverse P entries h
All-in_direction P false entries h = h

-- Oldest first: each entry comes after the ones behind it.
IsMerged-snoc :
    (name : String) (entries : List Entry) (e : Entry)
    → IsMerged true (map (replayed_row name) entries)
    → All (λ f. KeyLe (e.recv, e.sequence) (f.recv, f.sequence)) entries
    → IsMerged true (map (replayed_row name) (entries ++ e ∷ []))
IsMerged-snoc name [] e m h = (tt, tt)
IsMerged-snoc name (f ∷ entries) e m h = (
  rw (map-append (replayed_row name) entries (e ∷ [])) (
      All-append (DueRow true (replayed_row name f)) (map (replayed_row name) entries)
        (replayed_row name e ∷ []) m.0 (h.0, tt)),
  IsMerged-snoc name entries e m.1 h.1,
)

IsMerged-IsChronological :
    (name : String) (b : Bool) (entries : List Entry)
    → IsChronological entries
    → IsMerged b (map (replayed_row name) (in_direction b entries))
IsMerged-IsChronological name false [] h = tt
IsMerged-IsChronological name false (e ∷ entries) h = (
  All-map (replayed_row name) (DueRow false (replayed_row name e)) entries h.0,
  IsMerged-IsChronological name false entries h.1,
)
IsMerged-IsChronological name true [] h = tt
IsMerged-IsChronological name true (e ∷ entries) h = rw (reverse-cons e entries) (
    IsMerged-snoc name (reverse entries) e (IsMerged-IsChronological name true entries h.1)
      (All-reverse (λ f. KeyLe (e.recv, e.sequence) (f.recv, f.sequence)) entries h.0))

module _ (file : RrdFile) (cdr : CdrWriter) (s : Reader) where
  -- An entity is of a topic that is replayed, and the chunk is in the file where the index says.
  pub record Stands (entity : String) (c : ChunkRef) (chunk : Chunk) : Type 0 where
    pub topic : ℕ
    pub info : TopicInfo
    pub found : lookup entity s.topic_index ≡ some topic
    pub at : topic_at s topic ≡ ok info
    pub replayed : wanted s info ≡ true
    pub rest : List Chunk
    pub read : file.read_chunks (c.id ∷ []) ≡ ok (chunk ∷ rest)
    pub structs : Option Array
    pub decodes : struct_column chunk info.columns ≡ ok structs

  -- The window that the chunk is loaded as.
  abbrev pub loaded : (c : ChunkRef) (chunk : Chunk) → Stands c.entity c chunk → Window
  loaded c chunk v =
      window_over chunk v.topic
        (record { blobs = column chunk v.info.columns.raw; messages = v.structs })

  load_window-Carries :
      (c : ChunkRef) (chunk : Chunk) (entries : List Entry) (v : Stands c.entity c chunk)
      → Carries chunk v.info.columns.raw entries
      → load_window chunk v.topic v.info ≡ ok (some (loaded c chunk v))
  unfolding load_window
  load_window-Carries c chunk entries v m = ap bound v.decodes ∙ ap carried m.blobs
    where
      made : Option Array → ChunkData
      made structs = record { blobs = column chunk v.info.columns.raw; messages = structs }

      bound : Result (Option Array) → Result (Option Window)
      bound x = x >>= λ structs. ok (
          if holds_nothing (made structs)
          then none
          else some (window_over chunk v.topic (made structs)))

      carried : Option ListArray → Result (Option Window)
      carried blobs = ok (
          if holds_nothing (record { blobs = blobs; messages = v.structs })
          then none
          else some (loaded c chunk v))

  pub load_ref-Carries :
      (c : ChunkRef) (chunk : Chunk) (entries : List Entry) (v : Stands c.entity c chunk)
      → Carries chunk v.info.columns.raw entries
      → load_ref file s c ≡ ok (some (oriented s (loaded c chunk v)))
  unfolding load_ref load_first load_oriented
  load_ref-Carries c chunk entries v m =
      ap located v.found
      ∙ ap (λ (x : Result TopicInfo). x >>= described v.topic) v.at
      ∙ ap
          (λ b. if b then file.read_chunks (c.id ∷ []) >>= load_first s v.topic v.info else ok none)
          v.replayed
      ∙ ap (λ (x : Result (List Chunk)). x >>= load_first s v.topic v.info) v.read
      ∙ ap (λ (x : Result (Option Window)). x >>= turned) (load_window-Carries c chunk entries v m)
    where
      described : ℕ → TopicInfo → Result (Option Window)
      described topic info =
          if wanted s info
          then file.read_chunks (c.id ∷ []) >>= load_first s topic info
          else ok none

      located : Option ℕ → Result (Option Window)
      located o = elim o [ none ↦ ok none | some topic ↦ topic_at s topic >>= described topic ]

      turned : Option Window → Result (Option Window)
      turned o = ok (elim o [ none ↦ none | some w ↦ some (oriented s w) ])

  -- The chunk loads, and its rows are the entries as they are replayed.
  pub record Replays (c : ChunkRef) (name : String) (entries : List Entry) : Type 0 where
    pub shown : rows_unread file cdr s (c ∷ []) ≡ map (replayed_row name) entries
    pub loads : Loads file cdr s c

  Describes-Replays :
      (c : ChunkRef) (info : TopicInfo) (w : Window) (entries : List Entry)
      → Describes cdr info w entries
      → topic_at s w.topic ≡ ok info
      → wanted s info ≡ true
      → load_ref file s c ≡ ok (some w)
      → 0 < length entries
      → IsMerged s.is_reverse (map (replayed_row info.name) entries)
      → All (IsWithin c) entries
      → Replays c info.name entries
  Describes-Replays c info w entries d at replayed load many merged within =
      let row = replayed_row info.name in
      let same : rows cdr s w ≡ map row entries = rows-replayed_row cdr s info w entries d at in
      let long : length w.recv_timestamps ≡ length entries =
        ap length d.recv ∙ length-map (λ (x : Entry). x.recv) entries in
      record {
        shown =
            unfold rows_unread in
            ap (λ x. loaded_rows file cdr s x ++ []) load ∙ append-nil (rows cdr s w) ∙ same;
        loads = inr (
          w,
          load,
          record {
            room = omega (arith, d.fresh, long, many);
            merged = rw same merged;
            timed = rw same (
                All-map row (λ x. (i64_min < x.0.0) × (x.0.0 < i64_max)) entries
                  (All-imp (IsWithin c) (λ e. (i64_min < e.recv) × (e.recv < i64_max)) entries
                    (λ e h. (h.0, h.1)) within));
            readable = rw same (
                All-map row (λ x. (m : Message) × (x.1 ≡ ok m)) entries
                  (All-imp (IsWithin c) (λ e. (m : Message) × ((row e).1 ≡ ok m)) entries
                    (λ e h. (_, refl)) within));
            info = info;
            topic = at;
            wanted = replayed;
          },
          rw same (
              All-map row (λ x. (c.start ≤ x.0.0) × (x.0.0 ≤ c.end)) entries
                (All-imp (IsWithin c) (λ e. (c.start ≤ e.recv) × (e.recv ≤ c.end)) entries
                  (λ e h. (h.2, h.3)) within)),
        );
      }

  topic-oriented : (w : Window) → (oriented s w).topic ≡ w.topic
  topic-oriented w = from s.is_reverse
    where
      from : (b : Bool) → (if b then reversed w else w).topic ≡ w.topic
      from true = unfold reversed in refl
      from false = refl

  length-in_direction :
      (b : Bool) (entries : List Entry) → length (in_direction b entries) ≡ length entries
  length-in_direction true entries = length-reverse entries
  length-in_direction false entries = refl

  -- A chunk that carries messages in the order of their keys, at times within those of the index.
  pub Carries-Replays :
      (c : ChunkRef) (chunk : Chunk) (entries : List Entry) (v : Stands c.entity c chunk)
      → Carries chunk v.info.columns.raw entries
      → 0 < length entries
      → IsChronological entries
      → All (IsWithin c) entries
      → Replays c v.info.name (in_direction s.is_reverse entries)
  Carries-Replays c chunk entries v m many chronological within =
      let w = loaded c chunk v in
      let forward : w.rows_reversed ≡ false = unfold window_over in refl in
      let same : w.topic ≡ v.topic = unfold window_over in refl in
      Describes-Replays c v.info (oriented s w) (in_direction s.is_reverse entries)
        (oriented-Describes cdr v.info s w entries forward
          (window_over-Describes cdr v.info chunk v.topic v.info.columns.raw v.structs entries m))
        (ap (topic_at s) (topic-oriented w ∙ same) ∙ v.at) v.replayed
        (load_ref-Carries c chunk entries v m)
        (omega (arith, length-in_direction s.is_reverse entries, many))
        (IsMerged-IsChronological v.info.name s.is_reverse entries chronological)
        (All-in_direction (IsWithin c) s.is_reverse entries within)
