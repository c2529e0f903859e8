-- ===== src/Examples/Calls.antt =====
-- Calls of the entry points on the recording of `Reading`.
use rosbag2_storage_rrd.Reader.Windows.{TopicInfo}
use rosbag2_storage_rrd.Base.{
  ◌≤◌, get_elem?, Option, no_topic, ◌++◌, ◌⊎◌, ◌∷◌, length, ◌<◌, ℕ, String, read_failed, ◌≡◌, List,
  true, false, some, ok, err, refl, arith, [],
}
use rosbag2_storage_rrd.Entry.{answer}
use rosbag2_storage_rrd.Entry.Names.{join_names, topic_names, topic_names-join_names}
use rosbag2_storage_rrd.Entry.Reading.{rrd_reader_topic, rrd_reader_topic_count}
use rosbag2_storage_rrd.Entry.Reports.{Reports, answer-explained, reason, topic-counted}
use rosbag2_storage_rrd.Examples.Opening.{host}
use rosbag2_storage_rrd.Examples.Reading.{reader_of}
use rosbag2_storage_rrd.Ffi.{rrd_last_error, success}

abbrev two_names : List String
two_names = "/a" ∷ "/b" ∷ []

topic_names-join_names_example : topic_names (join_names "" two_names) ≡ two_names
topic_names-join_names_example =
    topic_names-join_names two_names
      ((refl, (omega arith, (omega arith, tt))), ((refl, (omega arith, (omega arith, tt))), tt))

abbrev third : Option ℕ
third = some 3

abbrev seventh : Option ℕ
seventh = some 7

answer-explained_example :
    Reports host "rrd_reader_seek" read_failed seventh
      (answer {O = ℕ} host "rrd_reader_seek" [] (err read_failed, seventh))
    × (rrd_last_error
          (some 16)
          (answer {O = ℕ} host "rrd_reader_seek" [] (err read_failed, seventh)).slot
        ≡ (
          length (reason host "rrd_reader_seek" read_failed),
          (reason host "rrd_reader_seek" read_failed ++ 0 ∷ [], []),
        ))
    × (answer host "rrd_reader_seek" [] (ok third, seventh)
        ≡ record { status = success; slot = []; handle = seventh; written = third })
answer-explained_example =
    answer-explained host "rrd_reader_seek" [] read_failed third seventh 16 (omega arith)

topic-counted_example :
    ((0 < rrd_reader_topic_count host (some (reader_of false)))
      × ((info : TopicInfo) × (get_elem? (reader_of false).topics 0 ≡ some info)
          × (rrd_reader_topic host true 0 [] (some (reader_of false)) ≡ record {
            status = success;
            slot = [];
            handle = some (reader_of false);
            written = some (record {
              name = info.name;
              type_name = info.type_name;
              schema_encoding = info.schema_encoding;
              schema_text = info.schema_text;
              qos_profiles = info.qos_profiles;
              type_hash = info.type_hash;
              message_count = info.message_count;
            });
          })))
    ⊎ ((rrd_reader_topic_count host (some (reader_of false)) ≤ 0)
        × Reports host "rrd_reader_topic"
            (no_topic 0)
            (some (reader_of false))
            (rrd_reader_topic host true 0 [] (some (reader_of false))))
topic-counted_example = topic-counted host 0 [] (reader_of false)
