-- ===== src/Schema.antt =====
-- The decode plan of a reflected message (`MessageDecodePlan`, `ValueLayout`, `ArraySize` and
-- `BuiltInType` of the crate `re_ros_msg`), as replay.rs matches on it.
use rosbag2_storage_rrd.Base.{ℕ, String, List, Option}

pub data BuiltInType : Type 0 where
  bool byte char uint8 int8 int16 uint16 int32 uint32 int64 uint64 float32 float64 : BuiltInType
  string wstring : Option ℕ → BuiltInType

pub data ArraySize : Type 0 where
  fixed : ℕ → ArraySize
  bounded : ℕ → ArraySize
  unbounded : ArraySize

pub data ValueLayout : Type 0 where
  built_in : BuiltInType → ValueLayout
  message : ℕ → ValueLayout
  array : ValueLayout → ArraySize → ValueLayout

pub record FieldLayout : Type 0 where
  pub name : String
  pub value : ValueLayout

pub record MessageDecodePlan : Type 0 where
  pub schema_name : String
  pub messages : List (List FieldLayout)
