-- ===== src/Examples/Opening.antt =====
-- The recording of `Reading`, opened through its footer, and played and sought on.
use rosbag2_storage_rrd.Entry.Playback.{play, Played}
use rosbag2_storage_rrd.Ffi.{success}
use rosbag2_storage_rrd.Reader.Steps.{load_oriented, load_first}
use rosbag2_storage_rrd.Reader.Pass.{load_ref}
use rosbag2_storage_rrd.Reader.Setup.Recorded.{topic_info-recorded, described_by}
use rosbag2_storage_rrd.Reader.Merge.{IsMerged, settings, row_at, rows_from, rows, rows_unread}
use rosbag2_storage_rrd.Reader.{wanted, Reader}
use rosbag2_storage_rrd.Reader.Seek.{seek, set_filter, same_topics}
use rosbag2_storage_rrd.Reader.Merge.Rewind.{all_rows}
use rosbag2_storage_rrd.Entry.{Host, Text}
use rosbag2_storage_rrd.Base.{
  Option, List, arith, none, Bool, bad_definition, Result, String, ◌∷◌, ◌≡◌, false, some, ok, err,
  refl, [],
}
use rosbag2_storage_rrd.Examples.Reading.{
  second_chunk-Loads, index_of_two-IsOrdered, first_chunk-Loads, s, no_cdr, topic_a, index_of_two,
  manifest_of_two, reader_of, two_chunks,
}
use rosbag2_storage_rrd.Arrow.{Bytes}
use rosbag2_storage_rrd.Index.Build.{FooterAnswers}
use rosbag2_storage_rrd.Reader.Setup.Opened.{open_reader}
use rosbag2_storage_rrd.Reader.Setup.Indexed.{IsOpened, open_reader-IsOpened}
use rosbag2_storage_rrd.Index.{add_timelines, add_components, add_entries, upsert}
use mathlib.Core.List.{Permᴰ}
use rosbag2_storage_rrd.Arrow.{lookup}
use rosbag2_storage_rrd.Statics
use rosbag2_storage_rrd.Statics.{topic_info, collect, TopicStatics}
use rosbag2_storage_rrd.Reader.Setup
use rosbag2_storage_rrd.Entry.{Host, Text, text}
use rosbag2_storage_rrd.Entry.Session.{open_call, open-Played}
use rosbag2_storage_rrd.Reader.Windows.{times, struct_column, load_window, window_over}
use rosbag2_storage_rrd.Reader.Merge.Sought.{
  Behind, FromTime, Sought, seek-Sought, set_filter-Sought,
}
use rosbag2_storage_rrd.Schema.{MessageDecodePlan}

abbrev footer_of_two : FooterAnswers
footer_of_two = record { opened = ok tt; footer = ok (some (("bag", ok manifest_of_two) ∷ [])) }

abbrev any_name : String → Result String
any_name name = ok name

abbrev keys_before : String → String → Bool
keys_before k j = false

-- Every text is the name of the topic.
abbrev read_text : Bytes → Result String
read_text bytes = ok "/a"

abbrev no_plan : String → String → Result MessageDecodePlan
no_plan type_name text = err bad_definition

opened :
    open_reader any_name keys_before read_text no_plan two_chunks footer_of_two
    ≡ ok (reader_of false)
unfolding open_reader add_timelines add_components add_entries upsert topic_info
opened = refl

open_reader-IsOpened_example : IsOpened index_of_two (reader_of false)
open_reader-IsOpened_example =
    open_reader-IsOpened any_name keys_before read_text no_plan two_chunks footer_of_two
      (reader_of false) index_of_two opened refl

abbrev pub host : Host
host = record {
  from_utf8 = read_text;
  to_utf8 = λ t. [];
  print = λ what reason. reason;
  print_error = λ e. 33 ∷ [];
  panic_reason = 63 ∷ [];
}

abbrev path : Text
path = record { ptr = some (47 ∷ 97 ∷ []); len = 2 }

named : text host path ≡ ok "/a"
unfolding text
named = refl

open-Played_example :
    ((open_call host any_name keys_before no_plan
        (λ p. two_chunks)
        (λ p. footer_of_two)
        path
        []).status
      ≡ success)
    × ((d : Played host two_chunks no_cdr s index_of_two (reader_of false) (
          play host two_chunks no_cdr 4
            (open_call host any_name keys_before no_plan
              (λ p. two_chunks)
              (λ p. footer_of_two)
              path
              []).slot
            (open_call host any_name keys_before no_plan
              (λ p. two_chunks)
              (λ p. footer_of_two)
              path
              []).written))
        × Permᴰ (rows_unread two_chunks no_cdr s index_of_two.chunks) d.order
        × IsMerged false d.order)
unfolding rows_unread rows rows_from row_at load_ref lookup wanted load_first load_oriented
    load_window struct_column window_over times
open-Played_example =
    open-Played host any_name keys_before no_plan (λ p. two_chunks) (λ p. footer_of_two) no_cdr path
      [] "/a" (reader_of false) index_of_two 4 named opened refl
      (first_chunk-Loads, (second_chunk-Loads, tt)) (omega arith)

seek-Sought_example :
    Sought two_chunks no_cdr s index_of_two
      (FromTime false 15)
      15
      none
      (all_rows two_chunks no_cdr s index_of_two)
      (seek two_chunks 4 15 (reader_of false))
unfolding rows_unread rows rows_from row_at load_ref lookup wanted load_first load_oriented
    load_window struct_column window_over times
seek-Sought_example =
    seek-Sought two_chunks no_cdr s index_of_two index_of_two-IsOrdered
      (first_chunk-Loads, (second_chunk-Loads, tt)) 4 15 (reader_of false)
      (record { same_settings = refl; indexed = refl }) (omega arith)

-- Sought to 15, with a filter that keeps nothing.
abbrev filtered : Reader
filtered = record (reader_of false) { filter = "/b" ∷ []; position = 15 }

set_filter-Sought_example :
    Sought two_chunks no_cdr
      (settings (record filtered { filter = [] }))
      index_of_two
      (Behind filtered.is_reverse filtered.cursor filtered.position)
      15
      none
      (all_rows two_chunks no_cdr (settings (record filtered { filter = [] })) index_of_two)
      (set_filter two_chunks 4 [] filtered)
unfolding same_topics rows_unread rows rows_from row_at load_ref lookup wanted load_first
    load_oriented load_window struct_column window_over times
set_filter-Sought_example =
    set_filter-Sought two_chunks no_cdr index_of_two 4 [] filtered index_of_two-IsOrdered refl
      (λ k e. cc) refl refl (first_chunk-Loads, (second_chunk-Loads, tt)) (omega arith)

topic_info-recorded_example :
    (after : List (String × TopicStatics) × Option String) × (collect keys_before
        (Statics.topic_info "/a" topic_a)
        ([], none)
      ≡ ok after)
    × ((found : TopicStatics) × (lookup "/a" after.0 ≡ some found)
        × (Setup.topic_info any_name found ≡ some (described_by any_name topic_a)))
    × (lookup "/b" after.0 ≡ lookup "/b" [])
    × (after.1 ≡ none)
topic_info-recorded_example =
    topic_info-recorded any_name keys_before "/a" "/b" topic_a [] none refl refl
