-- ===== src/Logging.antt =====
-- logging.rs: the line that is made of an event, and which callback gets it. How a value is printed
-- by `Debug` is part of its field; of a text, `quoted` prints it.
use rosbag2_storage_rrd.Base.{
  ◌&&◌, ◌==◌, ◌∷◌, str_eq, Bool, if◌then◌else◌, List, String, Option, ℕ, true, false, some, none,
  [],
}
use rosbag2_storage_rrd.Entry.Names.{str_append}
use Prim.Native.Char.{code}
pub mod Line
pub mod Installed

-- The levels, and the numbers that the C side sees.
pub data Level : Type 0 where
  trace debug info warn error : Level

unfoldable pub level_code : Level → ℕ
level_code trace = 0
level_code debug = 1
level_code info = 2
level_code warn = 3
level_code error = 4

-- A field's value as it is visited: a text, or anything else as `Debug` prints it.
pub data FieldValue : Type 0 where
  text : String → FieldValue
  printed : String → FieldValue

pub record Field : Type 0 where
  pub name : String
  pub value : FieldValue

-- `name.starts_with(prefix)`
unfoldable pub starts_with : String → String → Bool
starts_with String.[] name = true
starts_with (String.◌∷◌ c prefix) String.[] = false
starts_with (String.◌∷◌ c prefix) (String.◌∷◌ d name) = code c == code d && starts_with prefix name

unfoldable pub record_debug : String → String → String → String
unfolding starts_with
record_debug name value line =
    if starts_with "log." name
    then line
    else str_append line (
        if str_eq name "message"
        then value
        else str_append " " (str_append name (str_append "=" value)))

unfoldable pub record_str : (String → String) → String → String → String → String
unfolding record_debug
record_str quoted name value line =
    if str_eq name "message" then str_append line value else record_debug name (quoted value) line

module _ (quoted : String → String) where
  unfoldable pub record_field : Field → String → String
  unfolding record_debug record_str
  record_field field line = elim field.value [
    | text value ↦ record_str quoted field.name value line
    | printed value ↦ record_debug field.name value line
  ]

  -- `event.record(&mut Message(&mut message))`: the fields in their order.
  unfoldable pub record_fields : List Field → String → String
  unfolding record_field
  record_fields [] line = line
  record_fields (field ∷ fields) line = record_fields fields (record_field field line)

-- What an event says where it comes from; the bridge's own is used unless `log` has another.
pub record Metadata : Type 0 where
  pub target : String
  pub level : Level

pub record Event : Type 0 where
  pub metadata : Metadata
  pub normalized : Option Metadata
  pub fields : List Field

-- What a callback is called with.
pub record Forwarded : Type 0 where
  pub level : ℕ
  pub target : String
  pub message : String

abbrev origin : Event → Metadata
origin event = elim event.normalized [ none ↦ event.metadata | some metadata ↦ metadata ]

unfoldable pub on_event : (String → String) → Event → Forwarded
unfolding level_code record_fields
on_event quoted event = record {
  level = level_code (origin event).level;
  target = (origin event).target;
  message = record_fields quoted event.fields "";
}
