-- ===== src/Writer/Slots.antt =====
-- The slots of a writer's topics: no operation takes one away.
use rosbag2_storage_rrd.Base.{
  ◌-◌, str_eq, ◌∷◌, ltb, ap, get_elem?, ◌≡◌, no_topic, if◌then◌else◌, ◌∙◌, set, length, ◌+◌, All,
  Option, ℕ, Result, String, List, zero, suc, some, none, ok, err, refl, [],
}
use rosbag2_storage_rrd.Writer.{
  Buffer, Recording, Topic, Writer, flush_if_stale, remove_key, sweep_stale_topics, sweep_topics,
  swept, with_topics, write, write_topic, written,
}
use rosbag2_storage_rrd.Writer.Streams.{if-Mirrors}
use rosbag2_storage_rrd.Arrow.{Bytes}

pub length-set : {A : Type 0} (xs : List A) (i : ℕ) (v : A) → length (set xs i v) ≡ length xs
length-set [] i v = refl
length-set (x ∷ xs) zero v = refl
length-set (x ∷ xs) (suc i) v = ap suc (length-set xs i v)

module _ {C : Type 0} (buffer : Buffer C) where
  pub remove_key-All :
      (P : String × ℕ → Type 0) (k : String) (l : List (String × ℕ))
      → All P l
      → All P (remove_key buffer k l)
  unfolding remove_key
  remove_key-All P k [] h = tt
  remove_key-All P k ((j, v) ∷ l) h =
      let rest = remove_key-All P k l h.1 in if-Mirrors buffer (All P) (str_eq j k) rest (h.0, rest)

  swept-length :
      (rest : Recording C → Result (Unit {0}) × (List (Topic buffer) × Recording C))
      (ts : List (Topic buffer)) (answer : Result (Unit {0}) × (Topic buffer × Recording C))
      → ((rec : Recording C) → length (rest rec).1.0 ≡ length ts)
      → length (swept buffer rest ts answer).1.0 ≡ suc (length ts)
  swept-length rest ts (err e, (t, rec)) h = refl
  swept-length rest ts (ok x, (t, rec)) h = ap suc (h rec)

  sweep_topics-length :
      (now : ℕ) (topics : List (Topic buffer)) (rec : Recording C)
      → length (sweep_topics buffer now topics rec).1.0 ≡ length topics
  unfolding sweep_topics
  sweep_topics-length now [] rec = refl
  sweep_topics-length now (t ∷ ts) rec =
      swept-length (λ rec'. sweep_topics buffer now ts rec') ts (flush_if_stale buffer now t rec)
        (λ rec'. sweep_topics-length now ts rec')

  -- The slots and their numbers are those of `w`.
  abbrev pub SameSlots : Writer buffer → Result (Unit {0}) × Writer buffer → Type 0
  SameSlots w x = (length x.1.topics ≡ length w.topics) × (x.1.topic_ids ≡ w.topic_ids)

  sweep_stale_topics-SameSlots :
      (now : ℕ) (w : Writer buffer) → SameSlots w (sweep_stale_topics buffer now w)
  unfolding sweep_stale_topics
  sweep_stale_topics-SameSlots now w = from w.config.flush.max_latency
    where
      from :
          (limit : Option ℕ)
          → SameSlots w (elim limit [
            | none ↦ (ok tt, w)
            | some max_latency ↦
                if ltb (now - w.last_sweep) max_latency
                then (ok tt, w)
                else with_topics buffer
                    (record w { last_sweep = now })
                    (sweep_topics buffer now w.topics w.rec)
          ])
      from none = (refl, refl)
      from (some limit) =
          if-Mirrors buffer (SameSlots w) (ltb (now - w.last_sweep) limit) (refl, refl)
            (sweep_topics-length now w.topics w.rec, refl)

  written-SameSlots :
      (now i : ℕ) (w : Writer buffer) (answer : Result (Unit {0}) × (Topic buffer × Recording C))
      → SameSlots w (written buffer now i w answer)
  written-SameSlots now i w (err e, (t, rec)) = (length-set w.topics i t, refl)
  written-SameSlots now i w (ok x, (t, rec)) =
      let (same, ids) =
        sweep_stale_topics-SameSlots now (record w { topics = set w.topics i t; rec = rec }) in
      (same ∙ length-set w.topics i t, ids)

  pub write-SameSlots :
      (now topic : ℕ) (message : Bytes) (recv send : ℕ) (w : Writer buffer)
      → SameSlots w (write buffer now topic message recv send w)
  unfolding write
  write-SameSlots now topic message recv send w = from (get_elem? w.topics topic)
    where
      w' : Writer buffer
      w' = record w { next_sequence = w.next_sequence + 1 }

      from :
          (found : Option (Topic buffer))
          → SameSlots w (elim found [
            | none ↦ (err (no_topic topic), w')
            | some t ↦
                written buffer now topic w'
                  (write_topic buffer now message recv send w.next_sequence t w.rec)
          ])
      from none = (refl, refl)
      from (some t) =
          written-SameSlots now topic w'
            (write_topic buffer now message recv send w.next_sequence t w.rec)
