-- ===== src/Writer.antt =====
-- writer.rs and record.rs: the recording a bag is written into, and its topics. A chunk is a `C`;
-- an instant is a number of nanoseconds, and what each operation reads off the clock is its
-- argument. A topic's buffer is a parameter, which `Pipeline` of pipeline.rs fills.
pub mod Topics
pub mod Streams
pub mod Open
pub mod Slots
pub mod Sessions
pub mod Connect
pub mod Contents
pub mod Kept
pub mod Grown
pub mod Conserved
pub mod Due
pub mod Retired
pub mod Recent
pub mod Fresh
use rosbag2_storage_rrd.Pipeline.{LensSet}
use rosbag2_storage_rrd.Arrow.{lookup, Bytes}
use rosbag2_storage_rrd.Config.{FlushPolicy, RecordingConfig}
use rosbag2_storage_rrd.Base.{
  connect_timeout, ◌-◌, ◌||◌, no_topic, not, ltb, connect_failed, leb, ◌==◌, ◌+◌, length, str_eq,
  ◌&&◌, get_elem?, out_of_fuel, set, Bool, ◌∷◌, if◌then◌else◌, String, Result, Option, List, ℕ,
  ◌++◌, true, false, some, none, ok, err, [],
}

-- What a topic needs of its pipeline.
pub record Buffer (C : Type 0) : Type 1 where
  pub State : Type 0
  pub len : State → ℕ
  pub bytes : State → ℕ
  pub push : Bytes → ℕ → ℕ → ℕ → State → State
  pub flush : State → Result (List C) × State

-- The file and, if there is one, the live stream: the chunks sent to each.
pub record Recording (C : Type 0) : Type 0 where
  pub file : List C
  pub live : Option (List C)

abbrev pub sent {ℓ} : {C : Type ℓ} → C → Option (List C) → Option (List C)
sent chunk none = none
sent chunk (some chunks) = some (chunks ++ chunk ∷ [])

-- What a sink's `status()` answers.
pub data SinkState : Type 0 where
  connected disconnected connecting : SinkState

-- The statuses that a sink answers, each with the time since the first; five seconds are allowed.
unfoldable pub connect : List (SinkState × ℕ) → Result (Unit {0})
connect [] = err out_of_fuel
connect ((connected, elapsed) ∷ rest) = ok tt
connect ((disconnected, elapsed) ∷ rest) = err connect_failed
connect ((connecting, elapsed) ∷ rest) =
    let waited = connect rest in if ltb elapsed 5000000000 then waited else err connect_timeout

abbrev pub elapsed_past : ℕ → ℕ → Option ℕ → Bool
elapsed_past now since none = false
elapsed_past now since (some limit) = leb limit (now - since)

module _ {C : Type 0} where
  -- Both streams get every chunk.
  unfoldable pub send_chunk : C → Recording C → Recording C
  send_chunk chunk rec = record { file = rec.file ++ chunk ∷ []; live = sent chunk rec.live }

  unfoldable pub send_chunks : List C → Recording C → Recording C
  unfolding send_chunk
  send_chunks [] rec = rec
  send_chunks (chunk ∷ rest) rec = send_chunks rest (send_chunk chunk rec)

abbrev pub taken : {C : Type 0} → Option C → List C
taken none = []
taken (some chunk) = chunk ∷ []

-- A recording property goes to each stream on its own, as the chunk that the stream takes of it, none
-- where sending fails: what the server fails to take is only logged.
unfoldable pub send_property : {C : Type 0} → Option C × Option C → Recording C → Recording C
send_property (for_file, for_live) rec = record {
  file = rec.file ++ taken for_file;
  live = elim rec.live [ none ↦ none | some chunks ↦ some (chunks ++ taken for_live) ];
}

module _ {C : Type 0} (buffer : Buffer C) where
  pub record Topic : Type 0 where
    pub entity : String
    pub pipeline : buffer.State
    pub policy : FlushPolicy
    pub last_flush : ℕ
    pub retired : Bool

  unfoldable pub retire : Topic → Topic
  retire topic = record topic { retired = true }

  abbrev pub flushed :
      Topic
      → Recording C
      → Result (List C) × buffer.State
      → Result (Unit {0}) × (Topic × Recording C)
  flushed topic rec (ok chunks, state) =
      (ok tt, (record topic { pipeline = state }, send_chunks chunks rec))
  flushed topic rec (err e, state) = (err e, (record topic { pipeline = state }, rec))

  -- Hands every buffered row to the recording; the clock is reset even when there is nothing.
  unfoldable pub flush : ℕ → Topic → Recording C → Result (Unit {0}) × (Topic × Recording C)
  unfolding send_chunks
  flush now topic rec =
      flushed (record topic { last_flush = now }) rec (buffer.flush topic.pipeline)

  unfoldable pub should_flush : ℕ → Topic → Bool
  should_flush now topic =
      if buffer.len topic.pipeline == 0
      then false
      else (ltb 0 topic.policy.max_rows && leb topic.policy.max_rows (buffer.len topic.pipeline))
        || (ltb 0 topic.policy.max_bytes
            && leb topic.policy.max_bytes (buffer.bytes topic.pipeline))
        || elapsed_past now topic.last_flush topic.policy.max_latency

  -- Buffers one message, and flushes if the policy says so.
  unfoldable pub write_topic :
      ℕ → Bytes → ℕ → ℕ → ℕ → Topic → Recording C → Result (Unit {0}) × (Topic × Recording C)
  unfolding should_flush flush
  write_topic now message recv send sequence topic rec =
      let pushed : Topic = record topic {
        pipeline = buffer.push message recv send sequence topic.pipeline;
      } in
      if topic.retired
      then (ok tt, (topic, rec))
      else if should_flush now pushed
      then flush now pushed rec
      else (ok tt, (pushed, rec))

  unfoldable pub flush_if_stale :
      ℕ → Topic → Recording C → Result (Unit {0}) × (Topic × Recording C)
  unfolding flush
  flush_if_stale now topic rec =
      if elapsed_past now topic.last_flush topic.policy.max_latency
        && not (buffer.len topic.pipeline == 0)
      then flush now topic rec
      else (ok tt, (topic, rec))

  pub record Writer : Type 0 where
    pub rec : Recording C
    pub config : RecordingConfig
    pub lenses : Option LensSet
    pub topics : List Topic
    pub topic_ids : List (String × ℕ)
    pub next_sequence : ℕ
    pub last_sweep : ℕ
    pub metadata_yaml : Option String

  -- Declares a topic, on its entity: `state` is the pipeline of the topic as `Topic::new` makes it,
  -- `info` the static chunk that says what it is, unless that failed.
  unfoldable pub create_topic : String → String → buffer.State → Option C → ℕ → Writer → ℕ × Writer
  unfolding send_chunk
  create_topic topic entity state info now w = elim (lookup topic w.topic_ids) [
    | some id ↦ (id, w)
    | none ↦ (
      length w.topics,
      record w {
        rec = elim info [ none ↦ w.rec | some chunk ↦ send_chunk chunk w.rec ];
        topic_ids = (topic, length w.topics) ∷ w.topic_ids;
        topics =
            w.topics
            ++ record {
              entity = entity;
              pipeline = state;
              policy = w.config.flush;
              last_flush = now;
              retired = false;
            }
              ∷ [];
      },
    )
  ]

  -- `?` behind a topic's operation: the topics behind it are reached only if it succeeds.
  abbrev pub swept :
      (Recording C → Result (Unit {0}) × (List Topic × Recording C))
      → List Topic
      → Result (Unit {0}) × (Topic × Recording C)
      → Result (Unit {0}) × (List Topic × Recording C)
  swept rest ts (err e, (t, rec)) = (err e, (t ∷ ts, rec))
  swept rest ts (ok x, (t, rec)) = ((rest rec).0, (t ∷ (rest rec).1.0, (rest rec).1.1))

  unfoldable pub sweep_topics :
      ℕ → List Topic → Recording C → Result (Unit {0}) × (List Topic × Recording C)
  unfolding flush_if_stale
  sweep_topics now [] rec = (ok tt, ([], rec))
  sweep_topics now (t ∷ ts) rec =
      swept (λ rec'. sweep_topics now ts rec') ts (flush_if_stale now t rec)

  abbrev pub with_topics :
      Writer → Result (Unit {0}) × (List Topic × Recording C) → Result (Unit {0}) × Writer
  with_topics w (result, (topics, rec)) = (result, record w { topics = topics; rec = rec })

  -- Flushes rows stranded on quiet topics, at most once per latency window.
  unfoldable pub sweep_stale_topics : ℕ → Writer → Result (Unit {0}) × Writer
  unfolding sweep_topics
  sweep_stale_topics now w = elim w.config.flush.max_latency [
    | none ↦ (ok tt, w)
    | some max_latency ↦
        if ltb (now - w.last_sweep) max_latency
        then (ok tt, w)
        else with_topics (record w { last_sweep = now }) (sweep_topics now w.topics w.rec)
  ]

  abbrev pub written :
      ℕ → ℕ → Writer → Result (Unit {0}) × (Topic × Recording C) → Result (Unit {0}) × Writer
  written now i w (err e, (t, rec)) = (err e, record w { topics = set w.topics i t; rec = rec })
  written now i w (ok x, (t, rec)) =
      sweep_stale_topics now (record w { topics = set w.topics i t; rec = rec })

  -- Records one serialized message; its sequence number is spent even if there is no such topic.
  unfoldable pub write : ℕ → ℕ → Bytes → ℕ → ℕ → Writer → Result (Unit {0}) × Writer
  unfolding write_topic sweep_stale_topics
  write now topic message recv send w =
      let w' : Writer = record w { next_sequence = w.next_sequence + 1 } in
      elim (get_elem? w.topics topic) [
        | none ↦ (err (no_topic topic), w')
        | some t ↦ written now topic w' (write_topic now message recv send w.next_sequence t w.rec)
      ]

  -- The map without a key.
  unfoldable pub remove_key : String → List (String × ℕ) → List (String × ℕ)
  remove_key k [] = []
  remove_key k ((j, v) ∷ l) =
      let rest = remove_key k l in if str_eq j k then rest else (j, v) ∷ rest

  abbrev pub removed :
      ℕ → Writer → Result (Unit {0}) × (Topic × Recording C) → Result (Unit {0}) × Writer
  removed i w (err e, (t, rec)) = (err e, record w { topics = set w.topics i t; rec = rec })
  removed i w (ok x, (t, rec)) = (ok tt, record w { topics = set w.topics i (retire t); rec = rec })

  -- Flushes a topic and stops recording it; its slot is kept.
  unfoldable pub remove_topic : ℕ → String → Writer → Result (Unit {0}) × Writer
  unfolding flush remove_key retire
  remove_topic now topic w = elim (lookup topic w.topic_ids) [
    | none ↦ (ok tt, w)
    | some id ↦
        let w' : Writer = record w { topic_ids = remove_key topic w.topic_ids } in
        elim (get_elem? w.topics id) [
          | none ↦ (ok tt, w')
          | some t ↦ removed id w' (flush now t w.rec)
        ]
  ]

  unfoldable pub set_metadata : String → Writer → Writer
  set_metadata yaml w = record w { metadata_yaml = some yaml }

  -- Every topic is flushed; one that fails is logged, and the rest go on.
  unfoldable pub flush_all : ℕ → List Topic → Recording C → Recording C
  unfolding flush
  flush_all now [] rec = rec
  flush_all now (t ∷ ts) rec = flush_all now ts (flush now t rec).1.1

  -- Flushes every topic and writes the metadata, of which `property` says what the file and the live
  -- stream take; the result is that of flushing the file, as a server that does not flush is only
  -- logged.
  unfoldable pub close :
      (String → Option C × Option C)
      → Result (Unit {0})
      → ℕ
      → Writer
      → Result (Unit {0}) × Recording C
  unfolding flush_all send_property
  close property file_flush now w =
      let rec = flush_all now w.topics w.rec in
      (
        file_flush,
        elim w.metadata_yaml [ none ↦ rec | some yaml ↦ send_property (property yaml) rec ],
      )
