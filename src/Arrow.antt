-- ===== src/Arrow.antt =====
-- The Arrow arrays and Rerun chunks that the sources build and take apart: what their accessors
-- give. replay.rs and statics.rs downcast arrays; reader.rs, index.rs and statics.rs read chunks.
--
-- An `i64` time t is the number t + 2 ^ 63, so that the order of times is the order of numbers:
-- `i64::MIN` is 0, the time 0 is 2 ^ 63, and `i64::MAX` is 2 ^ 64 - 1.
use rosbag2_storage_rrd.Base.{
  ℕ, ◌-◌, ◌^◌, String, List, [], ◌∷◌, Option, none, some, Bool, str_eq, if◌then◌else◌,
}

abbrev pub i64_min : ℕ
i64_min = 0

abbrev pub i64_zero : ℕ
i64_zero = 2 ^ 63

abbrev pub i64_max : ℕ
i64_max = 2 ^ 64 - 1

abbrev pub Bytes : Type 0
Bytes = List ℕ

-- The element types of the arrays of fixed-width values; a value is its bit pattern.
pub data NumberType : Type 0 where
  boolean uint8 int8 int16 uint16 int32 uint32 int64 uint64 float32 float64 : NumberType

mutual
  -- A list array has for each row the start and the length of its slice of the values.
  pub data Array : Type 0 where
    numbers : NumberType → List ℕ → Array
    strings : List (Option String) → Array
    binaries : List (Option Bytes) → Array
    list : List (ℕ × ℕ) → Array → Array
    struct : ℕ → Arrays → Array

  -- The named columns of a struct array.
  pub data Arrays : Type 0 where
    nil : Arrays
    cons : String → Array → Arrays → Arrays

-- A chunk's column: the list array of the rows, null where a row has no value.
pub record ListArray : Type 0 where
  pub rows : List (Option (ℕ × ℕ))
  pub values : Array

-- A chunk, as `entity_path`, `is_static`, `num_rows`, `timelines` and `components` show it.
pub record Chunk : Type 0 where
  pub entity_path : String
  pub is_static : Bool
  pub num_rows : ℕ
  pub timelines : List (String × List ℕ)
  pub components : List (String × ListArray)

-- A map lookup by name, for the ordered and hashed maps of the sources.
unfoldable pub lookup {ℓ} : {A : Type ℓ} → String → List (String × A) → Option A
lookup k [] = none
lookup k ((j, v) ∷ l) = if str_eq j k then some v else lookup k l
