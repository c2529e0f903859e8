-- ===== src/Replay.antt =====
-- replay.rs: decoded Arrow rows back out as CDR. The body written so far is passed along; what
-- `re_cdr` appends to it is the parameter `cdr`.
pub mod Bulk
use rosbag2_storage_rrd.Base.{
  ℕ, zero, suc, ◌+◌, String, List, map, Option, [], ◌∷◌, ◌++◌, none, some, Result, ok, err, ◌==◌,
  if◌then◌else◌, get_elem?, length, ◌>>=◌, encode_failed, panicked,
}
use rosbag2_storage_rrd.Arrow.{
  Bytes, Array, Arrays, NumberType, numbers, strings, list, struct, nil, cons,
}
use rosbag2_storage_rrd.Schema.{
  BuiltInType, ArraySize, ValueLayout, FieldLayout, MessageDecodePlan, built_in, message, array,
  fixed, bounded, unbounded, string, wstring,
}

-- `CdrWriter<LittleEndian>`: each write takes the body so far, since alignment is measured from its
-- start.
pub record CdrWriter : Type 0 where
  pub write_number : NumberType → ℕ → Bytes → Bytes
  pub write_string : String → Bytes → Bytes
  pub write_sequence_length : ℕ → Bytes → Bytes

abbrev tag : NumberType → ℕ
tag NumberType.boolean = 0
tag NumberType.uint8 = 1
tag NumberType.int8 = 2
tag NumberType.int16 = 3
tag NumberType.uint16 = 4
tag NumberType.int32 = 5
tag NumberType.uint32 = 6
tag NumberType.int64 = 7
tag NumberType.uint64 = 8
tag NumberType.float32 = 9
tag NumberType.float64 = 10

-- `downcast::<PrimitiveArray>`: the values, if the array has that element type.
unfoldable pub downcast_numbers : NumberType → Array → Result (List ℕ)
downcast_numbers t (numbers u vs) = if tag t == tag u then ok vs else err encode_failed
downcast_numbers t _ = err encode_failed

-- A null slot of a string array reads as the empty text.
abbrev slot : Option String → String
slot none = ""
slot (some s) = s

unfoldable pub downcast_strings : Array → Result (List String)
downcast_strings (strings vs) = ok (map slot vs)
downcast_strings _ = err encode_failed

-- `values.value(row)`, which panics out of range.
abbrev pub value {ℓ} : {A : Type ℓ} → List A → ℕ → Result A
value vs row = elim (get_elem? vs row) [ none ↦ err panicked | some v ↦ ok v ]

-- What a match on a built-in type chooses: the array's element type, or strings, or nothing. There are
-- two of them: `form` is that of `encode_builtin_array`, `scalar_form` that of `encode_builtin`.
pub data Form : Type 0 where
  number : NumberType → Form
  text : Form
  unsupported : Form

unfoldable pub form : BuiltInType → Form
form BuiltInType.byte = number NumberType.uint8
form BuiltInType.char = number NumberType.uint8
form BuiltInType.uint8 = number NumberType.uint8
form BuiltInType.int8 = number NumberType.int8
form BuiltInType.int16 = number NumberType.int16
form BuiltInType.uint16 = number NumberType.uint16
form BuiltInType.int32 = number NumberType.int32
form BuiltInType.uint32 = number NumberType.uint32
form BuiltInType.int64 = number NumberType.int64
form BuiltInType.uint64 = number NumberType.uint64
form BuiltInType.float32 = number NumberType.float32
form BuiltInType.float64 = number NumberType.float64
form BuiltInType.bool = number NumberType.boolean
form (string _) = text
form (wstring _) = unsupported

unfoldable pub scalar_form : BuiltInType → Form
scalar_form BuiltInType.bool = number NumberType.boolean
scalar_form BuiltInType.byte = number NumberType.uint8
scalar_form BuiltInType.char = number NumberType.uint8
scalar_form BuiltInType.uint8 = number NumberType.uint8
scalar_form BuiltInType.int8 = number NumberType.int8
scalar_form BuiltInType.int16 = number NumberType.int16
scalar_form BuiltInType.uint16 = number NumberType.uint16
scalar_form BuiltInType.int32 = number NumberType.int32
scalar_form BuiltInType.uint32 = number NumberType.uint32
scalar_form BuiltInType.int64 = number NumberType.int64
scalar_form BuiltInType.uint64 = number NumberType.uint64
scalar_form BuiltInType.float32 = number NumberType.float32
scalar_form BuiltInType.float64 = number NumberType.float64
scalar_form (string _) = text
scalar_form (wstring _) = unsupported

-- `layout` of a message id; `plan.message` panics on an unknown one.
unfoldable pub plan_message : MessageDecodePlan → ℕ → Result (List FieldLayout)
plan_message plan id = value plan.messages id

unfoldable pub num_columns : Arrays → ℕ
num_columns nil = 0
num_columns (cons name a as') = suc (num_columns as')

module _ (cdr : CdrWriter) where
  -- One built-in scalar.
  unfoldable pub encode_builtin : BuiltInType → Array → ℕ → Bytes → Result Bytes
  unfolding scalar_form downcast_numbers downcast_strings
  encode_builtin ty a row body = elim (scalar_form ty) [
    | number t ↦ do vs ← downcast_numbers t a; v ← value vs row; ok (cdr.write_number t v body)
    | text ↦ do vs ← downcast_strings a; v ← value vs row; ok (cdr.write_string v body)
    | unsupported ↦ err encode_failed
  ]

  -- `write_each!`: the elements `start`, `start + 1`, … of the downcast array, `n` of them.
  unfoldable pub write_each {ℓ} :
      {A : Type ℓ} → (A → Bytes → Bytes) → List A → ℕ → ℕ → Bytes → Result Bytes
  write_each write vs start zero body = ok body
  write_each write vs start (suc n) body = do
    v ← value vs start
    write_each write vs (start + 1) n (write v body)

  -- A whole array of built-ins, the slice of `n` elements from `start`: downcast once.
  unfoldable pub encode_builtin_array : BuiltInType → Array → ℕ → ℕ → Bytes → Result Bytes
  unfolding form downcast_numbers downcast_strings write_each
  encode_builtin_array ty a start n body = elim (form ty) [
    | number t ↦ do vs ← downcast_numbers t a; write_each (cdr.write_number t) vs start n body
    | text ↦ do vs ← downcast_strings a; write_each cdr.write_string vs start n body
    | unsupported ↦ err encode_failed
  ]

  -- `for index in 0..len { encode(index)? }`, over the slice from `start`.
  unfoldable pub for_each : (ℕ → Bytes → Result Bytes) → ℕ → ℕ → Bytes → Result Bytes
  for_each encode start zero body = ok body
  for_each encode start (suc n) body = do
    body' ← encode start body
    for_each encode (start + 1) n body'

  -- A fixed-size array carries no length on the wire, and must hold what it declares.
  unfoldable pub write_length : ArraySize → ℕ → Bytes → Result Bytes
  write_length (fixed expected) n body = if n == expected then ok body else err encode_failed
  write_length (bounded _) n body = ok (cdr.write_sequence_length n body)
  write_length unbounded n body = ok (cdr.write_sequence_length n body)

  -- The elements of an array value: built-ins in bulk, anything else one by one.
  unfoldable pub encode_elements :
      ValueLayout → Array → (ℕ → Bytes → Result Bytes) → ℕ → ℕ → Bytes → Result Bytes
  unfolding encode_builtin_array for_each
  encode_elements (built_in ty) values one start n body =
      encode_builtin_array ty values start n body
  encode_elements _ values one start n body = for_each one start n body

  unfoldable mutual
    pub encode_value : MessageDecodePlan → Array → ValueLayout → ℕ → Bytes → Result Bytes
    encode_value plan a (built_in ty) row body = encode_builtin ty a row body
    encode_value plan (struct rows columns) (message id) row body = do
      fields ← plan_message plan id
      (if length fields == num_columns columns
          then encode_fields plan columns fields row body
          else err encode_failed)
    encode_value plan (list offsets values) (array element size) row body = do
      slice ← value offsets row
      body' ← write_length size slice.1 body
      encode_elements element values (encode_value plan values element) slice.0 slice.1 body'
    encode_value plan _ _ row body = err encode_failed

    pub encode_fields : MessageDecodePlan → Arrays → List FieldLayout → ℕ → Bytes → Result Bytes
    encode_fields plan (cons name column columns) (field ∷ fields) row body = do
      body' ← encode_value plan column field.value row body
      encode_fields plan columns fields row body'
    encode_fields plan _ _ row body = ok body

  -- `ENCAPSULATION`
  abbrev encapsulation : Bytes
  encapsulation = 0 ∷ 1 ∷ 0 ∷ 0 ∷ []

  -- One row of a message column, the root message of the plan, behind the encapsulation header.
  unfoldable pub encode : MessageDecodePlan → Array → ℕ → Result Bytes
  unfolding encode_value encode_fields
  encode plan root row = do
    body ← encode_value plan root (message 0) row []
    ok (encapsulation ++ body)
