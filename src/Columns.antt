-- ===== src/Columns.antt =====
-- `Columns` and the two descriptors of pipeline.rs: the components a topic's messages are stored
-- under. What `ArchetypeName::try_new` makes of a name is the parameter `archetype`.
use Prim.Native.Char.{code}
use Prim.Native.String.{◌++◌ as str_append}
use rosbag2_storage_rrd.Base.{
  String, List, [], ◌∷◌, Option, none, some, Bool, false, Result, ok, err, ◌||◌, ◌==◌, str_eq,
  if◌then◌else◌, bad_archetype_name,
}

-- `type_name.replace('/', ".")`
unfoldable pub dotted : String → String
dotted String.[] = ""
dotted (String.◌∷◌ c rest) =
    if code c == b'/' then String.◌∷◌ "." (dotted rest) else String.◌∷◌ c (dotted rest)

abbrev pub raw_component : String
raw_component = "rosbag2.SerializedBagMessage:serialized_data"

pub record Columns : Type 0 where
  pub raw : String
  pub reflected : Option String

module _ (archetype : String → Result String) where
  -- The component of `reflected_descriptor`.
  unfoldable pub reflected_component : String → Result String
  unfolding dotted
  reflected_component type_name = elim (archetype (dotted type_name)) [
    | ok name ↦ ok (str_append name ":message")
    | err e ↦ err bad_archetype_name
  ]

  abbrev to_option {ℓ} : {A : Type ℓ} → Result A → Option A
  to_option (ok a) = some a
  to_option (err e) = none

  unfoldable pub for_type : String → Columns
  unfolding reflected_component
  for_type type_name = record {
    raw = raw_component;
    reflected = to_option (reflected_component type_name);
  }

-- `Some(*component) == self.reflected`
abbrev pub is_reflected : Columns → String → Bool
is_reflected columns component = elim columns.reflected [
  | none ↦ false
  | some reflected ↦ str_eq component reflected
]

-- The chunk carries the blob column, the struct column, or both.
unfoldable pub holds_messages : Columns → List String → Bool
holds_messages columns [] = false
holds_messages columns (component ∷ rest) =
    str_eq component columns.raw || is_reflected columns component || holds_messages columns rest

unfoldable pub holds_structs : Columns → List String → Bool
holds_structs columns [] = false
holds_structs columns (component ∷ rest) =
    is_reflected columns component || holds_structs columns rest
