-- ===== src/Examples/Sweeping.antt =====
-- A writer with a quiet topic that has a row buffered, and one that is written.
use rosbag2_storage_rrd.Arrow.{lookup}
use rosbag2_storage_rrd.Base.{false, some, none, refl, inl, inr, arith, [], ◌∷◌}
use rosbag2_storage_rrd.Examples.Recording.{live_config}
use rosbag2_storage_rrd.Examples.Writing.{plain_buffer}
use rosbag2_storage_rrd.Writer.{Topic, Writer, remove_topic, write}
use rosbag2_storage_rrd.Writer.Fresh.{IsSwept, write-IsSwept}
use rosbag2_storage_rrd.Writer.Retired.{IsRetired, remove_topic-IsRetired}
use rosbag2_storage_rrd.Config.{FlushPolicy}

abbrev latency_only : FlushPolicy
latency_only = record { max_rows = 0; max_bytes = 0; max_latency = some 1000 }

abbrev quiet : Topic plain_buffer
quiet = record {
  entity = "/a";
  pipeline = (7 ∷ []) ∷ [];
  policy = latency_only;
  last_flush = 0;
  retired = false;
}

abbrev two_topics : Writer plain_buffer
two_topics = record {
  rec = record { file = []; live = some [] };
  config = record live_config { flush = latency_only };
  lenses = none;
  topics = quiet ∷ record quiet { entity = "/b"; pipeline = [] } ∷ [];
  topic_ids = ("/b", 1) ∷ ("/a", 0) ∷ [];
  next_sequence = 1;
  last_sweep = 500;
  metadata_yaml = none;
}

write-IsSwept_example :
    IsSwept plain_buffer 1000
      (λ state. refl)
      1500
      (write plain_buffer 1500 1 (8 ∷ []) 20 20 two_topics).1
unfolding write
write-IsSwept_example =
    write-IsSwept plain_buffer 1000 (λ state. refl) 1500 1 (8 ∷ []) 20 20 two_topics
      (record {
        latency = refl;
        recent = (
          record { policy = refl; flushed_at = inr (omega arith) },
          (record { policy = refl; flushed_at = inl refl }, tt),
        );
      })
      (omega arith) refl

remove_topic-IsRetired_example :
    IsRetired plain_buffer "/a" 0 (remove_topic plain_buffer 600 "/a" two_topics).1
unfolding remove_topic lookup
remove_topic-IsRetired_example =
    remove_topic-IsRetired plain_buffer 600 "/a" 0 two_topics (omega arith, (omega arith, tt)) refl
      refl
