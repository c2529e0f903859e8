-- ===== src/Writer/Grown.antt =====
-- The operations of writer.rs on the messages that a writer holds in its file and its buffers.
use rosbag2_storage_rrd.Base.{
  ap, All-append, length, false, ◌∷◌, All-set, All-get_elem?, ◌-◌, ◌++◌, no_topic, ltb, set,
  if◌then◌else◌, ◌+◌, ◌≡◌, All, Result, Option, String, Bool, get_elem?, List, ℕ, some, none, ok,
  err, refl, arith, [],
}
use rosbag2_storage_rrd.Recorded.{Entry}
use rosbag2_storage_rrd.Writer.{
  lookup, removed, send_chunk, remove_key, retire, sweep_topics, Bytes, Buffer, Recording, Topic,
  Writer, create_topic, flush, remove_topic, sweep_stale_topics, write, write_topic, with_topics,
  written,
}
use rosbag2_storage_rrd.Writer.Contents.{
  on_file-send_chunk, in_topics-append, IsKept, Keeping, count, in_topics-set, in_writer,
}
use rosbag2_storage_rrd.Writer.Kept.{
  flush-Adds, Adds, accepted, sweep_topics-AllAdd, write_topic-Adds,
}
use rosbag2_storage_rrd.Writer.Streams.{if-Mirrors}

module _ {C : Type 0} (buffer : Buffer C) where
  abbrev pub entry_of : Writer buffer → Bytes → ℕ → ℕ → Entry
  entry_of w message recv send = record {
    message = message;
    recv = recv;
    send = send;
    sequence = w.next_sequence;
  }

  -- What a writer takes of a message: nothing if there is no such topic.
  abbrev pub accepts : Writer buffer → ℕ → Entry → List Entry
  accepts w topic e = elim (get_elem? w.topics topic) [ none ↦ [] | some t ↦ accepted t e ]

module _ {C : Type 0} (buffer : Buffer C) (content : C → List Entry)
    (keeping : Keeping buffer content) where
  module _ (P : Entry → Bool) where
    abbrev pub Kept : Topic buffer → Type 0
    Kept t = IsKept buffer content keeping P t

    abbrev pub total : Writer buffer → ℕ
    total w = in_writer buffer content keeping P w

    -- A writer after an operation that adds `more` messages to the `before` of them.
    pub record Grows (before more : ℕ) (w : Writer buffer) : Type 0 where
      pub kept : All Kept w.topics
      pub counted : total w ≡ before + more

    sweep_stale_topics-Grows :
        (now : ℕ) (w : Writer buffer)
        → All Kept w.topics
        → Grows (total w) 0 (sweep_stale_topics buffer now w).1
    unfolding sweep_stale_topics
    sweep_stale_topics-Grows now w v = from w.config.flush.max_latency
      where
        same : Grows (total w) 0 w
        same = record { kept = v; counted = omega arith }

        Good : Result (Unit {0}) × Writer buffer → Type 0
        Good x = Grows (total w) 0 x.1

        from :
            (limit : Option ℕ)
            → Good (elim limit [
              | none ↦ (ok tt, w)
              | some max_latency ↦
                  if ltb (now - w.last_sweep) max_latency
                  then (ok tt, w)
                  else with_topics buffer
                      (record w { last_sweep = now })
                      (sweep_topics buffer now w.topics w.rec)
            ])
        from none = same
        from (some limit) =
            let a = sweep_topics-AllAdd buffer content keeping P now w.topics w.rec v in
            if-Mirrors buffer Good (ltb (now - w.last_sweep) limit) same
              (record { kept = a.kept; counted = omega (arith, a.total) })

    -- The slot of a topic takes what its operation leaves.
    set-Grows :
        (w : Writer buffer) (i more : ℕ) (t t' : Topic buffer) (rec : Recording C)
        → All Kept w.topics
        → get_elem? w.topics i ≡ some t
        → Adds buffer content keeping P more t w.rec (ok tt, (t', rec))
        → Grows (total w) more (record w { topics = set w.topics i t'; rec = rec })
    set-Grows w i more t t' rec v at a = record {
      kept = All-set Kept w.topics i t' v a.kept;
      counted = omega (arith, a.total, in_topics-set buffer content keeping P w.topics i t t' at);
    }

    written-Grows :
        (now i more : ℕ) (w : Writer buffer) (t : Topic buffer)
        (answer : Result (Unit {0}) × (Topic buffer × Recording C))
        → All Kept w.topics
        → get_elem? w.topics i ≡ some t
        → Adds buffer content keeping P more t w.rec answer
        → Grows (total w) more (written buffer now i w answer).1
    written-Grows now i more w t (err e, (t', rec)) v at a = let no = a.done in cc
    written-Grows now i more w t (ok x, (t', rec)) v at a =
        let g = set-Grows w i more t t' rec v at a in
        let swept =
          sweep_stale_topics-Grows now (record w { topics = set w.topics i t'; rec = rec })
            g.kept in
        record { kept = swept.kept; counted = omega (arith, swept.counted, g.counted) }

    pub write-Grows :
        (now topic : ℕ) (message : Bytes) (recv send : ℕ) (w : Writer buffer)
        → All Kept w.topics
        → Grows
            (total w)
            (count P (accepts buffer w topic (entry_of buffer w message recv send)))
            (write buffer now topic message recv send w).1
    unfolding write
    write-Grows now topic message recv send w v = from (get_elem? w.topics topic) refl
      where
        w' : Writer buffer
        w' = record w { next_sequence = w.next_sequence + 1 }

        Good : List Entry → Result (Unit {0}) × Writer buffer → Type 0
        Good es x = Grows (total w) (count P es) x.1

        takes : Option (Topic buffer) → List Entry
        takes found = elim found [
          | none ↦ []
          | some t ↦ accepted t (entry_of buffer w message recv send)
        ]

        from :
            (found : Option (Topic buffer))
            → get_elem? w.topics topic ≡ found
            → Good (takes found) (elim found [
              | none ↦ (err (no_topic topic), w')
              | some t ↦
                  written buffer now topic w'
                    (write_topic buffer now message recv send w.next_sequence t w.rec)
            ])
        from none at = record { kept = v; counted = omega arith }
        from (some t) at =
            written-Grows now topic (count P (accepted t (entry_of buffer w message recv send))) w'
              t (write_topic buffer now message recv send w.next_sequence t w.rec) v at
              (write_topic-Adds buffer content keeping P now (entry_of buffer w message recv send) t
                w.rec (All-get_elem? Kept w.topics topic v at))

    pub create_topic-Grows :
        (topic entity : String) (state : buffer.State) (info : Option C) (now : ℕ)
        (w : Writer buffer)
        → All Kept w.topics
        → keeping.IsValid state
        → keeping.held state ≡ []
        → ((chunk : C) → info ≡ some chunk → content chunk ≡ [])
        → Grows (total w) 0 (create_topic buffer topic entity state info now w).1
    unfolding create_topic
    create_topic-Grows topic entity state info now w v valid fresh silent =
        from (lookup topic w.topic_ids) info silent
      where
        made : Topic buffer
        made = record {
          entity = entity;
          pipeline = state;
          policy = w.config.flush;
          last_flush = now;
          retired = false;
        }

        step : Option ℕ → Option C → ℕ × Writer buffer
        step o i = elim o [
          | some id ↦ (id, w)
          | none ↦ (
            length w.topics,
            record w {
              rec = elim i [ none ↦ w.rec | some chunk ↦ send_chunk chunk w.rec ];
              topic_ids = (topic, length w.topics) ∷ w.topic_ids;
              topics = w.topics ++ made ∷ [];
            },
          )
        ]

        valid_all : All Kept (w.topics ++ made ∷ [])
        valid_all = All-append Kept w.topics (made ∷ []) v (valid, tt)

        from :
            (o : Option ℕ) (i : Option C)
            → ((chunk : C) → i ≡ some chunk → content chunk ≡ [])
            → Grows (total w) 0 (step o i).1
        from (some id) i h = record { kept = v; counted = omega arith }
        from none none h = record {
          kept = valid_all;
          counted =
              omega (
                arith,
                in_topics-append buffer content keeping P w.topics made,
                ap (count P) fresh,
              );
        }
        from none (some chunk) h = record {
          kept = valid_all;
          counted = omega (
            arith,
            in_topics-append buffer content keeping P w.topics made,
            ap (count P) fresh,
            on_file-send_chunk content P chunk w.rec,
            ap (count P) (h chunk refl),
          );
        }

    removed-Grows :
        (i : ℕ) (w : Writer buffer) (t : Topic buffer)
        (answer : Result (Unit {0}) × (Topic buffer × Recording C))
        → All Kept w.topics
        → get_elem? w.topics i ≡ some t
        → Adds buffer content keeping P 0 t w.rec answer
        → Grows (total w) 0 (removed buffer i w answer).1
    unfolding retire
    removed-Grows i w t (err e, (t', rec)) v at a = let no = a.done in cc
    removed-Grows i w t (ok x, (t', rec)) v at a =
        set-Grows w i 0 t (retire buffer t') rec v at
          (record { done = refl; kept = a.kept; total = a.total })

    pub remove_topic-Grows :
        (now : ℕ) (topic : String) (w : Writer buffer)
        → All Kept w.topics
        → Grows (total w) 0 (remove_topic buffer now topic w).1
    remove_topic-Grows now topic w v = unfold remove_topic in from (lookup topic w.topic_ids)
      where
        w' : Writer buffer
        w' = record w { topic_ids = remove_key buffer topic w.topic_ids }

        Good : Result (Unit {0}) × Writer buffer → Type 0
        Good x = Grows (total w) 0 x.1

        same : Grows (total w) 0 w'
        same = record { kept = v; counted = omega arith }

        slot : ℕ → Option (Topic buffer) → Result (Unit {0}) × Writer buffer
        slot id t = elim t [
          | none ↦ (ok tt, w')
          | some t ↦ removed buffer id w' (flush buffer now t w.rec)
        ]

        at : (id : ℕ) (t : Option (Topic buffer)) → get_elem? w.topics id ≡ t → Good (slot id t)
        at id none e = same
        at id (some t) e =
            removed-Grows id w' t (flush buffer now t w.rec) v e
              (flush-Adds buffer content keeping P now t w.rec (All-get_elem? Kept w.topics id v e))

        taken : Option ℕ → Result (Unit {0}) × Writer buffer
        taken o = elim o [ none ↦ (ok tt, w) | some id ↦ slot id (get_elem? w.topics id) ]

        from : (o : Option ℕ) → Good (taken o)
        from none = record { kept = v; counted = omega arith }
        from (some id) = at id (get_elem? w.topics id) refl
