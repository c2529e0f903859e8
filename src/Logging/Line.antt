-- ===== src/Logging/Line.antt =====
-- The line of an event, from logging.rs, against the line that it is meant to be.
use rosbag2_storage_rrd.Base.{
  refl, Bool, ap, ◌∙◌, Bool-cases, sym, inl, inr, arith, if◌then◌else◌, ◌∷◌, All, ◌≡◌, List, str_eq,
  String, false, [],
}
use rosbag2_storage_rrd.Entry.Names.{str_append_assoc, str_append, str_append-empty}
use rosbag2_storage_rrd.Logging.{record_field, Field, FieldValue, record_fields, starts_with}

-- A value as it stands behind its key.
abbrev shown_value : (String → String) → FieldValue → String
shown_value quoted (FieldValue.text value) = quoted value
shown_value quoted (FieldValue.printed value) = value

-- The ` key=value` pairs, without those that the bridge adds.
abbrev pub pairs : (String → String) → List Field → String
pairs quoted [] = ""
pairs quoted (field ∷ fields) =
    if starts_with "log." field.name
    then pairs quoted fields
    else str_append
        (str_append " " (str_append field.name (str_append "=" (shown_value quoted field.value))))
        (pairs quoted fields)

-- A field other than the message.
abbrev pub IsPair : Field → Type 0
IsPair field = str_eq field.name "message" ≡ false

module _ (quoted : String → String) where
  abbrev pair : String → FieldValue → String
  pair name value = str_append " " (str_append name (str_append "=" (shown_value quoted value)))

  record_field-pair :
      (name : String) (value : FieldValue) (line : String)
      → str_eq name "message" ≡ false
      → record_field quoted (record { name = name; value = value }) line
        ≡ (if starts_with "log." name then line else str_append line (pair name value))
  unfolding record_field
  record_field-pair name (FieldValue.text value) line h = ground arith
  record_field-pair name (FieldValue.printed value) line h = ground arith

  record_fields-cons :
      (field : Field) (fields : List Field) (line : String)
      → record_fields quoted (field ∷ fields) line
        ≡ record_fields quoted fields (record_field quoted field line)
  unfolding record_fields
  record_fields-cons field fields line = refl

  record_fields-append :
      (fields : List Field) (line : String)
      → All IsPair fields
      → record_fields quoted fields line ≡ str_append line (pairs quoted fields)
  record_fields-append [] line h = unfold record_fields in sym (str_append-empty line)
  record_fields-append (field ∷ fields) line h =
      let whole : String = str_append line (pair field.name field.value) in
      let one = record_field-pair field.name field.value line h.0 in
      elim (Bool-cases (starts_with "log." field.name)) [
        | inl hidden ↦
            let same = one ∙ ap (λ (b : Bool). if b then line else whole) hidden in
            rw hidden (
              record_fields-cons field fields line
              ∙ ap (record_fields quoted fields) same
              ∙ record_fields-append fields line h.1)
        | inr shown ↦
            let same = one ∙ ap (λ (b : Bool). if b then line else whole) shown in
            rw shown (
              record_fields-cons field fields line
              ∙ ap (record_fields quoted fields) same
              ∙ record_fields-append fields whole h.1
              ∙ str_append_assoc line (pair field.name field.value) (pairs quoted fields))
      ]

  -- What a message says: a text stands as it is, and so does what `Debug` prints of another value (the
  -- arguments that the macros of `log` and `tracing` format).
  abbrev pub said : FieldValue → String
  said (FieldValue.text message) = message
  said (FieldValue.printed message) = message

  -- An event whose first field is its message, a text or a value that `Debug` prints (as the macros of
  -- `log` and `tracing` pass it), and whose other fields are not messages: its line is the message as
  -- it stands, then ` key=value` for each other field in its order but those whose names start with
  -- `log.`.
  pub record_fields-pairs :
      (message : FieldValue) (fields : List Field)
      → All IsPair fields
      → record_fields quoted (record { name = "message"; value = message } ∷ fields) ""
        ≡ str_append (said message) (pairs quoted fields)
  record_fields-pairs (FieldValue.text message) fields h =
      unfold record_fields record_field in record_fields-append fields message h
  record_fields-pairs (FieldValue.printed message) fields h =
      unfold record_fields record_field in record_fields-append fields message h
