-- ===== src/Statics.antt =====
-- statics.rs: what a topic is, recorded as static data on its entity. A map from entities is a list
-- of entries in the order of its keys.
pub mod RoundTrip
use rosbag2_storage_rrd.Base.{
  ℕ, String, List, [], ◌∷◌, Option, none, some, Bool, true, false, ◌&&◌, ◌==◌, str_eq,
  if◌then◌else◌, get_elem?, drop, take, Result, ok, err, panicked, ◌>>=◌,
}
use rosbag2_storage_rrd.Arrow.{
  Bytes, Array, Arrays, ListArray, Chunk, numbers, strings, binaries, list, struct, nil, cons,
  lookup, NumberType,
}

abbrev pub metadata_component : String
metadata_component = "rosbag2.TopicMetadata:metadata"

abbrev pub definition_component : String
definition_component = "rosbag2.MessageDefinition:definition"

abbrev pub metadata_path : String
metadata_path = "/__properties/rosbag2"

-- What `create_topic` says a topic is.
pub record TopicRecord : Type 0 where
  pub topic : String
  pub type_name : String
  pub schema_encoding : String
  pub schema_text : Bytes
  pub qos_profiles : String
  pub type_hash : String

-- One row of a struct column.
abbrev one_row : Arrays → ListArray
one_row columns = record { rows = some (0, 1) ∷ []; values = struct 1 columns }

unfoldable pub utf8_columns : List (String × String) → Arrays
utf8_columns [] = nil
utf8_columns ((name, value) ∷ rest) = cons name (strings (some value ∷ [])) (utf8_columns rest)

-- The static chunk that says what a topic is.
unfoldable pub topic_info : String → TopicRecord → Chunk
unfolding utf8_columns
topic_info entity r = record {
  entity_path = entity;
  is_static = true;
  num_rows = 1;
  timelines = [];
  components =
      (
        metadata_component,
        one_row (
            utf8_columns (
              ("name", r.topic)
              ∷ ("type", r.type_name)
              ∷ ("serialization_format", "cdr")
              ∷ ("offered_qos_profiles", r.qos_profiles)
              ∷ ("type_description_hash", r.type_hash)
              ∷ [])),
      )
      ∷ (
        definition_component,
        one_row (
            cons "encoding" (strings (some r.schema_encoding ∷ []))
              (cons "encoded_message_definition" (binaries (some r.schema_text ∷ [])) nil)),
      )
      ∷ [];
}

pub record TopicStatics : Type 0 where
  pub topic : Option String
  pub type_name : Option String
  pub schema_encoding : Option String
  pub schema_text : Option Bytes
  pub qos_profiles : Option String
  pub type_hash : Option String

abbrev pub no_statics : TopicStatics
no_statics = record {
  topic = none;
  type_name = none;
  schema_encoding = none;
  schema_text = none;
  qos_profiles = none;
  type_hash = none;
}

unfoldable pub column : Chunk → String → Option ListArray
unfolding lookup
column chunk component = lookup component chunk.components

-- The bytes of the first blob of a slice of a list array of `uint8`.
abbrev blob_of : Array → ℕ → Option Bytes
blob_of (list slices (numbers NumberType.uint8 bytes)) start = elim (get_elem? slices start) [
  | none ↦ none
  | some (from, n) ↦ some (take n (drop from bytes))
]
blob_of _ start = none

-- A row of a list array: `None` out of range or null, otherwise the slice that `value(row)` is.
abbrev pub row_of : ListArray → ℕ → Option (ℕ × ℕ)
row_of l row = elim (get_elem? l.rows row) [ none ↦ none | some r ↦ r ]

unfoldable pub blob_at : ListArray → ℕ → Option Bytes
blob_at l row = elim (row_of l row) [
  | none ↦ none
  | some (start, n) ↦ if n == 0 then none else blob_of l.values start
]

-- A struct row: the columns, and the position of the first struct of the slice.
abbrev struct_at : Array → ℕ → ℕ → Option (Arrays × ℕ)
struct_at (struct rows columns) start n = if n == 0 then none else some (columns, start)
struct_at _ start n = none

unfoldable pub struct_row : Chunk → String → Option (Arrays × ℕ)
unfolding column
struct_row chunk component = elim (column chunk component) [
  | none ↦ none
  | some l ↦ elim (row_of l 0) [ none ↦ none | some (start, n) ↦ struct_at l.values start n ]
]

unfoldable pub struct_field : Arrays → String → Option Array
struct_field nil name = none
struct_field (cons j a rest) name = if str_eq j name then some a else struct_field rest name

abbrev string_at : Array → ℕ → Option String
string_at (strings vs) row = elim (get_elem? vs row) [ none ↦ none | some v ↦ v ]
string_at _ row = none

abbrev bytes_at : Array → ℕ → Option Bytes
bytes_at (binaries vs) row = elim (get_elem? vs row) [ none ↦ none | some v ↦ v ]
bytes_at _ row = none

unfoldable pub struct_string : Arrays × ℕ → String → Option String
unfolding struct_field
struct_string (columns, row) name = elim (struct_field columns name) [
  | none ↦ none
  | some a ↦ string_at a row
]

unfoldable pub struct_bytes : Arrays × ℕ → String → Option Bytes
unfolding struct_field
struct_bytes (columns, row) name = elim (struct_field columns name) [
  | none ↦ none
  | some a ↦ bytes_at a row
]

-- `strings.value(start)`, if the values are strings. What stands beneath a null is taken for the empty
-- text.
abbrev property_text : Array → ℕ → Option String
property_text (strings vs) start = elim (get_elem? vs start) [
  | none ↦ none
  | some none ↦ some ""
  | some (some text) ↦ some text
]
property_text _ start = none

-- The bag metadata, if the chunk is the `rosbag2` recording property. `list.value(0)` panics on a list
-- without rows, and is taken for empty where the row is null.
unfoldable pub read_metadata_property : Chunk → Result (Option String)
unfolding lookup
read_metadata_property chunk =
    if str_eq chunk.entity_path metadata_path
    then (elim (lookup "TextDocument:text" chunk.components) [
      | none ↦ ok none
      | some l ↦ elim (get_elem? l.rows 0) [
        | none ↦ err panicked
        | some none ↦ ok none
        | some (some (start, n)) ↦ ok (if n == 0 then none else property_text l.values start)
      ]
    ])
    else ok none

-- What the two structs of a static chunk write into the entry of its entity.
unfoldable pub with_metadata : Option (Arrays × ℕ) → TopicStatics → TopicStatics
unfolding struct_string
with_metadata none s = s
with_metadata (some m) s = record s {
  topic = struct_string m "name";
  type_name = struct_string m "type";
  qos_profiles = struct_string m "offered_qos_profiles";
  type_hash = struct_string m "type_description_hash";
}

unfoldable pub with_definition : Option (Arrays × ℕ) → TopicStatics → TopicStatics
unfolding struct_string struct_bytes
with_definition none s = s
with_definition (some d) s = record s {
  schema_encoding = struct_string d "encoding";
  schema_text = struct_bytes d "encoded_message_definition";
}

-- `statics.entry(key).or_default()`, then the change. The place of a new key among the keys is
-- the map's; it is the parameter `before`.
module _ (before : String → String → Bool) where
  unfoldable pub update_entry :
      String
      → (TopicStatics → TopicStatics)
      → List (String × TopicStatics)
      → List (String × TopicStatics)
  update_entry k f [] = (k, f no_statics) ∷ []
  update_entry k f ((j, s) ∷ l) =
      if str_eq j k
      then (j, f s) ∷ l
      else if before k j
      then (k, f no_statics) ∷ (j, s) ∷ l
      else (j, s) ∷ update_entry k f l

  abbrev is_absent {ℓ} : {A : Type ℓ} → Option A → Bool
  is_absent none = true
  is_absent (some _) = false

  -- What a static chunk has beside the bag metadata: a topic's record.
  abbrev collected :
      Chunk
      → List (String × TopicStatics) × Option String
      → Option String
      → List (String × TopicStatics) × Option String
  unfolding update_entry with_metadata with_definition struct_row
  collected chunk (found, yaml) (some text) = (found, some text)
  collected chunk (found, yaml) none =
      let metadata = struct_row chunk metadata_component in
      let definition = struct_row chunk definition_component in
      if is_absent metadata && is_absent definition then (found, yaml) else (
        update_entry chunk.entity_path (λ s. with_definition definition (with_metadata metadata s))
            found,
        yaml,
      )

  -- A static chunk's record, or the bag metadata.
  unfoldable pub collect :
      Chunk
      → List (String × TopicStatics) × Option String
      → Result (List (String × TopicStatics) × Option String)
  unfolding read_metadata_property collected
  collect chunk found = read_metadata_property chunk >>= λ text. ok (collected chunk found text)
