-- ===== src/Pipeline/Reflect.antt =====
-- `Reflection::new` of pipeline.rs: which definitions a topic can be reflected from. UTF-8, the
-- `.msg` parser and the decode plan are parameters; a plan `P` stands for the decoder made from it.
use rosbag2_storage_rrd.Columns.{reflected_component}
use rosbag2_storage_rrd.Config.{is_whitespace, is_blank}
use rosbag2_storage_rrd.Base.{
  bad_encoding, delimited_definition, empty_definition, ◌>>=◌, str_eq, ◌==◌, Option, if◌then◌else◌,
  Bool, String, Result, false, some, none, ok, err,
}
use rosbag2_storage_rrd.Pipeline.{Bytes, reflectable_encoding}
use Prim.Native.Char.{code}

module _ {P : Type 0} (from_utf8 : Bytes → Result String) (is_schema_separator : String → Bool)
    (archetype : String → Result String) (parse : String → String → Result P) where
  -- The text up to the first line feed, and the text behind it.
  unfoldable pub first_line : String → String
  first_line String.[] = ""
  first_line (String.◌∷◌ c rest) = if code c == 10 then "" else String.◌∷◌ c (first_line rest)

  unfoldable pub other_lines : String → String
  other_lines String.[] = ""
  other_lines (String.◌∷◌ c rest) = if code c == 10 then rest else other_lines rest

  -- `lines().find(|line| !line.trim().is_empty())`: the line of the first character that is not
  -- white space. `start` is the rest of the text from the start of its line.
  unfoldable pub first_content : String → String → Option String
  unfolding is_whitespace first_line
  first_content start String.[] = none
  first_content start (String.◌∷◌ c rest) =
      if code c == 10
      then first_content rest rest
      else if is_whitespace (code c)
      then first_content start rest
      else some (first_line start)

  unfoldable pub is_delimited : String → Bool
  unfolding first_content
  is_delimited text = elim (first_content text text) [
    | none ↦ false
    | some line ↦ is_schema_separator line
  ]

  -- A reflection: the plan, and the component the struct column is stored under.
  unfoldable pub reflect : String → String → Bytes → Result (P × String)
  unfolding is_blank is_delimited reflected_component
  reflect type_name schema_encoding schema_text =
      if str_eq schema_encoding reflectable_encoding
      then (from_utf8 schema_text >>= λ text.
          if is_blank text
          then err empty_definition
          else if is_delimited text
          then err delimited_definition
          else (parse type_name text >>= λ plan.
              reflected_component archetype type_name >>= λ component. ok (plan, component)))
      else err bad_encoding
