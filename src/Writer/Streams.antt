-- ===== src/Writer/Streams.antt =====
-- What was watched live is what is on disk.
use rosbag2_storage_rrd.Writer.{
  with_topics, written, should_flush, swept, Writer, flushed, Bytes, Topic, sent, flush_if_stale,
  sweep_topics, write, write_topic, flush, sweep_stale_topics, Recording, send_chunk, send_chunks,
  Buffer,
}
use rosbag2_storage_rrd.Base.{
  get_elem?, no_topic, set, ◌-◌, ltb, ◌+◌, Option, if◌then◌else◌, ℕ, ◌∷◌, ap, Bool, Result, List,
  ◌≡◌, true, false, some, none, ok, err, refl, [],
}

-- What a live stream is to hold, if it is there.
abbrev streams : {C : Type 0} → Bool → List C → Option (List C)
streams true file = some file
streams false file = none

-- There is a live stream exactly where it was asked for, and it holds what the file holds.
abbrev pub Mirrors : {C : Type 0} → Bool → Recording C → Type 0
Mirrors watched rec = rec.live ≡ streams watched rec.file

pub send_chunk-Mirrors :
    {C : Type 0} (b : Bool) (chunk : C) (rec : Recording C)
    → Mirrors b rec
    → Mirrors b (send_chunk chunk rec)
unfolding send_chunk
send_chunk-Mirrors true chunk rec e = ap (sent chunk) e
send_chunk-Mirrors false chunk rec e = ap (sent chunk) e

send_chunks-Mirrors :
    {C : Type 0} (b : Bool) (chunks : List C) (rec : Recording C)
    → Mirrors b rec
    → Mirrors b (send_chunks chunks rec)
unfolding send_chunks
send_chunks-Mirrors b [] rec m = m
send_chunks-Mirrors b (chunk ∷ rest) rec m =
    send_chunks-Mirrors b rest (send_chunk chunk rec) (send_chunk-Mirrors b chunk rec m)

module _ {C : Type 0} (buffer : Buffer C) where
  -- What holds of the recording that a topic's operation leaves.
  abbrev pub Out : Bool → Result (Unit {0}) × (Topic buffer × Recording C) → Type 0
  Out b x = Mirrors b x.1.1

  pub flush-Mirrors :
      (b : Bool) (now : ℕ) (topic : Topic buffer) (rec : Recording C)
      → Mirrors b rec
      → Out b (flush buffer now topic rec)
  unfolding flush
  flush-Mirrors b now topic rec m = from (buffer.flush topic.pipeline)
    where
      from :
          (answer : Result (List C) × buffer.State)
          → Out b (flushed buffer (record topic { last_flush = now }) rec answer)
      from (ok chunks, state) = send_chunks-Mirrors b chunks rec m
      from (err e, state) = m

  pub if-Mirrors :
      {A : Type 0} (P : A → Type 0) (b : Bool) {x y : A} → P x → P y → P (if b then x else y)
  if-Mirrors P true p q = p
  if-Mirrors P false p q = q

  write_topic-Mirrors :
      (b : Bool) (now : ℕ) (message : Bytes) (recv send sequence : ℕ) (topic : Topic buffer)
      (rec : Recording C)
      → Mirrors b rec
      → Out b (write_topic buffer now message recv send sequence topic rec)
  unfolding write_topic
  write_topic-Mirrors b now message recv send sequence topic rec m =
      let pushed : Topic buffer = record topic {
        pipeline = buffer.push message recv send sequence topic.pipeline;
      } in
      if-Mirrors (Out b) topic.retired m
        (if-Mirrors (Out b) (should_flush buffer now pushed) (flush-Mirrors b now pushed rec m) m)

  flush_if_stale-Mirrors :
      (b : Bool) (now : ℕ) (topic : Topic buffer) (rec : Recording C)
      → Mirrors b rec
      → Out b (flush_if_stale buffer now topic rec)
  unfolding flush_if_stale
  flush_if_stale-Mirrors b now topic rec m =
      if-Mirrors (Out b) _ (flush-Mirrors b now topic rec m) m

  swept-Mirrors :
      (b : Bool) (rest : Recording C → Result (Unit {0}) × (List (Topic buffer) × Recording C))
      (ts : List (Topic buffer)) (answer : Result (Unit {0}) × (Topic buffer × Recording C))
      → ((rec : Recording C) → Mirrors b rec → Mirrors b (rest rec).1.1)
      → Out b answer
      → Mirrors b (swept buffer rest ts answer).1.1
  swept-Mirrors b rest ts (err e, (t, rec)) h n = n
  swept-Mirrors b rest ts (ok x, (t, rec)) h n = h rec n

  sweep_topics-Mirrors :
      (b : Bool) (now : ℕ) (topics : List (Topic buffer)) (rec : Recording C)
      → Mirrors b rec
      → Mirrors b (sweep_topics buffer now topics rec).1.1
  unfolding sweep_topics
  sweep_topics-Mirrors b now [] rec m = m
  sweep_topics-Mirrors b now (t ∷ ts) rec m =
      swept-Mirrors b (λ rec'. sweep_topics buffer now ts rec') ts (flush_if_stale buffer now t rec)
        (λ rec' n. sweep_topics-Mirrors b now ts rec' n) (flush_if_stale-Mirrors b now t rec m)

  sweep_stale_topics-Mirrors :
      (b : Bool) (now : ℕ) (w : Writer buffer)
      → Mirrors b w.rec
      → (Mirrors b (sweep_stale_topics buffer now w).1.rec)
        × ((sweep_stale_topics buffer now w).1.next_sequence ≡ w.next_sequence)
  unfolding sweep_stale_topics
  sweep_stale_topics-Mirrors b now w m = from w.config.flush.max_latency
    where
      Good : Result (Unit {0}) × Writer buffer → Type 0
      Good x = Mirrors b x.1.rec × (x.1.next_sequence ≡ w.next_sequence)

      from :
          (limit : Option ℕ)
          → Good (elim limit [
            | none ↦ (ok tt, w)
            | some max_latency ↦
                if ltb (now - w.last_sweep) max_latency
                then (ok tt, w)
                else with_topics buffer
                    (record w { last_sweep = now })
                    (sweep_topics buffer now w.topics w.rec)
          ])
      from none = (m, refl)
      from (some limit) =
          if-Mirrors Good (ltb (now - w.last_sweep) limit) (m, refl)
            (sweep_topics-Mirrors b now w.topics w.rec m, refl)

  -- While there is a live stream, exactly where one was asked for, and it holds what the file holds:
  -- after a write, whatever it answers, the same is the case, and exactly one sequence number is spent.
  pub write-Mirrors :
      (b : Bool) (now topic : ℕ) (message : Bytes) (recv send : ℕ) (w : Writer buffer)
      → Mirrors b w.rec
      → (Mirrors b (write buffer now topic message recv send w).1.rec)
        × ((write buffer now topic message recv send w).1.next_sequence ≡ w.next_sequence + 1)
  unfolding write
  write-Mirrors b now topic message recv send w m = from (get_elem? w.topics topic)
    where
      w' : Writer buffer
      w' = record w { next_sequence = w.next_sequence + 1 }

      Good : Result (Unit {0}) × Writer buffer → Type 0
      Good x = Mirrors b x.1.rec × (x.1.next_sequence ≡ w.next_sequence + 1)

      after :
          (answer : Result (Unit {0}) × (Topic buffer × Recording C))
          → Out b answer
          → Good (written buffer now topic w' answer)
      after (err e, (t, rec)) n = (n, refl)
      after (ok x, (t, rec)) n =
          sweep_stale_topics-Mirrors b now (record w' { topics = set w'.topics topic t; rec = rec })
            n

      from :
          (found : Option (Topic buffer))
          → Good (elim found [
            | none ↦ (err (no_topic topic), w')
            | some t ↦
                written buffer now topic w'
                  (write_topic buffer now message recv send w.next_sequence t w.rec)
          ])
      from none = (m, refl)
      from (some t) =
          after (write_topic buffer now message recv send w.next_sequence t w.rec)
            (write_topic-Mirrors b now message recv send w.next_sequence t w.rec m)
