-- ===== src/Examples/Values.antt =====
-- Values on their way out: an array that is written as CDR, and an event that is logged.
use rosbag2_storage_rrd.Base.{
  Bool, true, false, null_pointer, ℕ, ◌≡◌, String, ◌++◌, Option, ◌∷◌, List, some, none, refl, arith,
  [],
}
use rosbag2_storage_rrd.Arrow.{Array, NumberType, numbers}
use rosbag2_storage_rrd.Entry.Names.{str_append}
use rosbag2_storage_rrd.Entry.Reports.{Reports}
use rosbag2_storage_rrd.Examples.Opening.{host}
use rosbag2_storage_rrd.Ffi.{success}
use rosbag2_storage_rrd.Logging.{Field, FieldValue, record_fields}
use rosbag2_storage_rrd.Logging.Installed.{
  nothing_installed, first_callback, first_bridged, install, install-first_callback,
  rrd_set_log_callback,
}
use rosbag2_storage_rrd.Logging.Line.{pairs, record_fields-pairs, said}
use rosbag2_storage_rrd.Replay.{CdrWriter, encode_builtin, encode_builtin_array, for_each}
use rosbag2_storage_rrd.Replay.Bulk.{encode_builtin_array-for_each}
use rosbag2_storage_rrd.Schema.{BuiltInType}

-- Numbers are single bytes, and lengths too.
abbrev byte_cdr : CdrWriter
byte_cdr = record {
  write_number = λ t n out. out ++ n ∷ [];
  write_string = λ s out. out;
  write_sequence_length = λ n out. out ++ n ∷ [];
}

abbrev two_bytes : Array
two_bytes = numbers NumberType.uint8 (7 ∷ 8 ∷ [])

encode_builtin_array-for_each_example :
    encode_builtin_array byte_cdr BuiltInType.uint8 two_bytes 0 2 []
    ≡ for_each byte_cdr (encode_builtin byte_cdr BuiltInType.uint8 two_bytes) 0 2 []
encode_builtin_array-for_each_example =
    encode_builtin_array-for_each byte_cdr BuiltInType.uint8 two_bytes 0 2 [] (omega arith)

-- What is logged beside the message, one field of it by the bridge.
abbrev beside : List Field
beside =
    record { name = "topic"; value = FieldValue.text "/x" }
    ∷ record { name = "log.line"; value = FieldValue.printed "7" }
    ∷ []

-- A stand-in for how `Debug` prints a text.
abbrev quoted : String → String
quoted value = str_append "'" (str_append value "'")

record_fields-pairs_example :
    record_fields quoted
      (record { name = "message"; value = FieldValue.printed "kept raw" } ∷ beside)
      ""
    ≡ str_append (said quoted (FieldValue.printed "kept raw")) (pairs quoted beside)
record_fields-pairs_example =
    record_fields-pairs quoted (FieldValue.printed "kept raw") beside (refl, (refl, tt))

-- One call without a callback, and two with one, where another component has the logger at first.
abbrev calls : List (Bool × Bool × Option ℕ)
calls = (true, false, none) ∷ (true, false, some 3) ∷ (false, false, some 4) ∷ []

install-first_callback_example :
    ((install host calls nothing_installed).callback ≡ first_callback host calls)
    × ((install host calls nothing_installed).is_bridged ≡ first_bridged host calls)
    × ((rrd_set_log_callback {F = ℕ} host true true (some 5) [] nothing_installed).status ≡ success)
    × Reports host "rrd_set_log_callback"
        (null_pointer "null log callback")
        (some nothing_installed)
        (rrd_set_log_callback {F = ℕ} host true true none [] nothing_installed)
install-first_callback_example = install-first_callback host calls true true 5 [] nothing_installed
