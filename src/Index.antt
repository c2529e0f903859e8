-- ===== src/Index.antt =====
-- index.rs: the chunk index read out of an `.rrd` footer. The manifest's columns are lists, its
-- maps are lists of entries in any order; reading the footer is a parameter.
pub mod Ordered
pub mod Build
pub mod Bounds
pub mod Range
use rosbag2_storage_rrd.Base.{
  ℕ, ◌+◌, ◌%◌, ◌^◌, max, min, String, List, [], ◌∷◌, ◌++◌, Option, none, some, Bool, false, ◌&&◌,
  ◌||◌, ltb, leb, ◌==◌, str_eq, if◌then◌else◌, get_elem?, get_or,
}
use rosbag2_storage_rrd.Arrow.{i64_min}

pub record ChunkRef : Type 0 where
  pub id : ℕ
  pub entity : String
  pub num_rows : ℕ
  pub start : ℕ
  pub end : ℕ
  pub components : List String

pub record ChunkIndex : Type 0 where
  pub recording_id : String
  pub chunks : List ChunkRef
  pub temporal_chunks : ℕ
  pub max_end_through : List ℕ
  pub statics : List ℕ

pub record ChunkSummary : Type 0 where
  pub start : ℕ
  pub end : ℕ
  pub components : List String

-- One entry of the temporal map: the chunk's id, and its earliest and latest time.
pub record Entry : Type 0 where
  pub id : ℕ
  pub first : ℕ
  pub last : ℕ

-- `RrdManifest`: for each entity its timelines, for each timeline its components' entries.
pub record Manifest : Type 0 where
  pub chunk_ids : List ℕ
  pub entities : List String
  pub is_static : List Bool
  pub num_rows : List ℕ
  pub temporal_map : List (List (String × List (String × List Entry)))

-- `entry(id).or_insert(…)`, then the minimum, the maximum and the component
abbrev widen : Entry → String → ChunkSummary → ChunkSummary
widen e component s = record {
  start = min s.start e.first;
  end = max s.end e.last;
  components = s.components ++ component ∷ [];
}

unfoldable pub upsert : Entry → String → List (ℕ × ChunkSummary) → List (ℕ × ChunkSummary)
upsert e component [] =
    (e.id, widen e component (record { start = e.first; end = e.last; components = [] })) ∷ []
upsert e component ((i, s) ∷ l) =
    if i == e.id then (i, widen e component s) ∷ l else (i, s) ∷ upsert e component l

unfoldable pub add_entries : String → List Entry → List (ℕ × ChunkSummary) → List (ℕ × ChunkSummary)
add_entries component [] acc = acc
add_entries component (e ∷ es) acc = add_entries component es (upsert e component acc)

unfoldable pub add_components :
    List (String × List Entry) → List (ℕ × ChunkSummary) → List (ℕ × ChunkSummary)
add_components [] acc = acc
add_components ((component, es) ∷ cs) acc = add_components cs (add_entries component es acc)

unfoldable pub add_timelines :
    List (String × List (String × List Entry)) → List (ℕ × ChunkSummary) → List (ℕ × ChunkSummary)
add_timelines [] acc = acc
add_timelines ((name, cs) ∷ ts) acc =
    add_timelines ts (if str_eq name "recv_timestamp" then add_components cs acc else acc)

unfoldable pub summarize_from :
    List (List (String × List (String × List Entry)))
    → List (ℕ × ChunkSummary)
    → List (ℕ × ChunkSummary)
summarize_from [] acc = acc
summarize_from (ts ∷ es) acc = summarize_from es (add_timelines ts acc)

unfoldable pub summarize : Manifest → List (ℕ × ChunkSummary)
unfolding summarize_from
summarize m = summarize_from m.temporal_map []

-- `HashMap::remove`
unfoldable pub remove : ℕ → List (ℕ × ChunkSummary) → Option ChunkSummary × List (ℕ × ChunkSummary)
remove k [] = (none, [])
remove k ((i, s) ∷ l) =
    let (found, rest) = remove k l in if i == k then (some s, l) else (found, (i, s) ∷ rest)

-- What the loop over the manifest's chunks gathers.
pub record Gathered : Type 0 where
  pub chunks : List ChunkRef
  pub statics : List ℕ
  pub temporal_chunks : ℕ
  pub summaries : List (ℕ × ChunkSummary)

abbrev ref_of : ℕ → String → ℕ → ChunkSummary → ChunkRef
ref_of id entity rows s = record {
  id = id;
  entity = entity;
  num_rows = rows;
  start = s.start;
  end = s.end;
  components = s.components;
}

-- One round of the loop: the chunk `id` at position `i`.
unfoldable pub gather_one : Manifest → ℕ → ℕ → Gathered → Gathered
unfolding remove
gather_one m i id g =
    if get_or m.is_static i false
    then record g { statics = g.statics ++ id ∷ [] }
    else (let (summary, rest) = remove id g.summaries in
        let g' : Gathered = record g {
          temporal_chunks = g.temporal_chunks + 1;
          summaries = rest;
        } in
        elim summary [
          | none ↦ g'
          | some s ↦ elim (get_elem? m.entities i) [
            | none ↦ g'
            | some entity ↦ record g' {
              chunks = g.chunks ++ ref_of id entity (get_or m.num_rows i 0) s ∷ [];
            }
          ]
        ])

unfoldable pub gather : Manifest → ℕ → List ℕ → Gathered → Gathered
unfolding gather_one
gather m i [] g = g
gather m i (id ∷ ids) g = gather m (i + 1) ids (gather_one m i id g)

-- `(a.start, a.end) ≤ (b.start, b.end)`
unfoldable pub precedes : ChunkRef → ChunkRef → Bool
precedes a b = ltb a.start b.start || a.start == b.start && leb a.end b.end

-- `sort_by_key`, the standard library's stable sort, by insertion.
unfoldable pub insert : ChunkRef → List ChunkRef → List ChunkRef
insert c [] = c ∷ []
insert c (d ∷ ds) = if precedes c d then c ∷ d ∷ ds else d ∷ insert c ds

unfoldable pub sort_by_key : List ChunkRef → List ChunkRef
unfolding insert precedes
sort_by_key [] = []
sort_by_key (c ∷ cs) = insert c (sort_by_key cs)

-- The running maximum of the ends.
unfoldable pub running_max : ℕ → List ChunkRef → List ℕ
running_max max_end [] = []
running_max max_end (c ∷ cs) = max max_end c.end ∷ running_max (max max_end c.end) cs

unfoldable pub recompute_max_end_through : ChunkIndex → ChunkIndex
unfolding running_max
recompute_max_end_through ix = record ix { max_end_through = running_max i64_min ix.chunks }

-- `Vec::retain` with a closure that keeps state.
unfoldable pub retain_chunks {ℓ} :
    {S : Type ℓ} → (ChunkRef → S → Bool × S) → List ChunkRef → S → List ChunkRef × S
retain_chunks keep [] s = ([], s)
retain_chunks keep (c ∷ cs) s =
    let (kept, s') = keep c s in
    let (rest, s'') = retain_chunks keep cs s' in (if kept then c ∷ rest else rest, s'')

unfoldable pub retain {ℓ} :
    {S : Type ℓ} → (ChunkRef → S → Bool × S) → ChunkIndex → S → ChunkIndex × S
unfolding retain_chunks recompute_max_end_through
retain keep ix s =
    let (kept, s') = retain_chunks keep ix.chunks s in
    (recompute_max_end_through (record ix { chunks = kept }), s')

-- The sum of the row counts, a `u64`; a `usize` holds it.
unfoldable pub message_count_of : List ChunkRef → ℕ
message_count_of [] = 0
message_count_of (c ∷ cs) = (c.num_rows + message_count_of cs) % 2 ^ 64

unfoldable pub message_count : ChunkIndex → ℕ
unfolding message_count_of
message_count ix = message_count_of ix.chunks

-- `iter().map(|chunk| chunk.end).max()`
unfoldable pub max_end : List ChunkRef → Option ℕ
max_end [] = none
max_end (c ∷ cs) = elim (max_end cs) [ none ↦ some c.end | some e ↦ some (max c.end e) ]

unfoldable pub time_range : ChunkIndex → Option (ℕ × ℕ)
unfolding max_end
time_range ix = elim ix.chunks [
  | [] ↦ none
  | c ∷ cs ↦ elim (max_end ix.chunks) [ none ↦ none | some e ↦ some (c.start, e) ]
]
