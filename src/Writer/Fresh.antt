-- ===== src/Writer/Fresh.antt =====
-- The sweep of quiet topics in writer.rs: no row stays buffered for more than two latency windows.
use rosbag2_storage_rrd.Base.{
  All-get_elem?, some_inj, no_topic, get_elem?, if◌then◌else◌, ltb, Option, ◌*◌, All-set, set, List,
  Bool, All-imp, ◌+◌, ◌<◌, ◌⊎◌, Result, All, ◌≤◌, ◌-◌, ◌≡◌, ℕ, true, false, some, none, ok, err,
  refl, inl, inr, arith,
}
use rosbag2_storage_rrd.Writer.{
  Bytes, Buffer, Recording, Topic, Writer, sweep_stale_topics, sweep_topics, with_topics, write,
  write_topic, written,
}
use rosbag2_storage_rrd.Writer.Recent.{IsRecent, sweep_topics-IsRecent, write_topic-IsRecent}

module _ {C : Type 0} (buffer : Buffer C) (window : ℕ)
    (empties : (state : buffer.State) → buffer.len (buffer.flush state).1 ≡ 0) where
  abbrev Recent : ℕ → Topic buffer → Type 0
  Recent since t = IsRecent buffer window empties since t

  abbrev Answer : Type 0
  Answer = Result (Unit {0}) × (Topic buffer × Recording C)

  -- The topics were all recent at the last sweep.
  pub record IsFresh (w : Writer buffer) : Type 0 where
    pub latency : w.config.flush.max_latency ≡ some window
    pub recent : All (Recent w.last_sweep) w.topics

  -- What is buffered has been for less than two windows.
  abbrev pub IsBounded : ℕ → Topic buffer → Type 0
  IsBounded now t = (buffer.len t.pipeline ≡ 0) ⊎ (now - t.last_flush < 2 * window)

  -- What a write that succeeds at `now` leaves.
  pub record IsSwept (now : ℕ) (w : Writer buffer) : Type 0 where
    pub fresh : IsFresh w
    pub since : w.last_sweep ≤ now
    pub bounded : All (IsBounded now) w.topics

  IsBounded-IsRecent :
      (now since : ℕ) (t : Topic buffer) → now - since ≤ window → Recent since t → IsBounded now t
  IsBounded-IsRecent now since t near r = from r.flushed_at
    where
      from : (buffer.len t.pipeline ≡ 0) ⊎ (since - t.last_flush < window) → IsBounded now t
      from (inl e) = inl e
      from (inr h) = inr (omega (arith, h, near))

  IsSwept-IsFresh :
      (now : ℕ) (w : Writer buffer)
      → IsFresh w
      → w.last_sweep ≤ now
      → now - w.last_sweep ≤ window
      → IsSwept now w
  IsSwept-IsFresh now w v since near = record {
    fresh = v;
    since = since;
    bounded =
        All-imp (Recent w.last_sweep) (IsBounded now) w.topics
          (λ t r. IsBounded-IsRecent now w.last_sweep t near r) v.recent;
  }

  with_topics-IsSwept :
      (now : ℕ) (w : Writer buffer)
      (answer : Result (Unit {0}) × (List (Topic buffer) × Recording C))
      → w.config.flush.max_latency ≡ some window
      → (answer.0 ≡ ok tt → All (Recent now) answer.1.0)
      → (with_topics buffer (record w { last_sweep = now }) answer).0 ≡ ok tt
      → IsSwept now (with_topics buffer (record w { last_sweep = now }) answer).1
  with_topics-IsSwept now w (result, (topics, rec)) l h done =
      IsSwept-IsFresh now (record w { last_sweep = now; topics = topics; rec = rec })
        (record { latency = l; recent = h done }) (omega arith) (omega arith)

  sweep_stale_topics-IsSwept :
      (now : ℕ) (w : Writer buffer)
      → IsFresh w
      → w.last_sweep ≤ now
      → (sweep_stale_topics buffer now w).0 ≡ ok tt
      → IsSwept now (sweep_stale_topics buffer now w).1
  unfolding sweep_stale_topics
  sweep_stale_topics-IsSwept now w v since = from w.config.flush.max_latency v.latency
    where
      Good : Result (Unit {0}) × Writer buffer → Type 0
      Good x = x.0 ≡ ok tt → IsSwept now x.1

      sweep : Result (Unit {0}) × Writer buffer
      sweep =
          with_topics buffer (record w { last_sweep = now })
            (sweep_topics buffer now w.topics w.rec)

      swept_now : Good sweep
      swept_now =
          with_topics-IsSwept now w (sweep_topics buffer now w.topics w.rec) v.latency
            (sweep_topics-IsRecent buffer window empties now w.last_sweep w.topics w.rec v.recent)

      by :
          (l : ℕ) (b : Bool)
          → ltb (now - w.last_sweep) l ≡ b
          → l ≡ window
          → Good (if b then (ok tt, w) else sweep)
      by l true e same = λ done. IsSwept-IsFresh now w v since (ground arith)
      by l false e same = swept_now

      from :
          (limit : Option ℕ)
          → limit ≡ some window
          → Good (elim limit [
            | none ↦ (ok tt, w)
            | some max_latency ↦ if ltb (now - w.last_sweep) max_latency then (ok tt, w) else sweep
          ])
      from none e = cc
      from (some l) e = by l (ltb (now - w.last_sweep) l) refl (some_inj e)

  written-IsSwept :
      (now i : ℕ) (w : Writer buffer) (answer : Answer)
      → IsFresh w
      → w.last_sweep ≤ now
      → Recent w.last_sweep answer.1.0
      → (written buffer now i w answer).0 ≡ ok tt
      → IsSwept now (written buffer now i w answer).1
  written-IsSwept now i w (err e, (t, rec)) v since r done = cc
  written-IsSwept now i w (ok x, (t, rec)) v since r done =
      sweep_stale_topics-IsSwept now (record w { topics = set w.topics i t; rec = rec })
        (record {
          latency = v.latency;
          recent = All-set (Recent w.last_sweep) w.topics i t v.recent r;
        })
        since done

  -- With a latency in the configuration, and if a flush leaves nothing buffered, also where it fails: on
  -- a writer whose topics were all recent at its last sweep, after a write that succeeds, at a time not
  -- before that sweep, no topic has had rows buffered for two latency windows or more since its last
  -- flush, and the topics were again all recent at the last sweep.
  pub write-IsSwept :
      (now topic : ℕ) (message : Bytes) (recv send : ℕ) (w : Writer buffer)
      → IsFresh w
      → w.last_sweep ≤ now
      → (write buffer now topic message recv send w).0 ≡ ok tt
      → IsSwept now (write buffer now topic message recv send w).1
  unfolding write
  write-IsSwept now topic message recv send w v since = from (get_elem? w.topics topic) refl
    where
      w' : Writer buffer
      w' = record w { next_sequence = w.next_sequence + 1 }

      Good : Result (Unit {0}) × Writer buffer → Type 0
      Good x = x.0 ≡ ok tt → IsSwept now x.1

      from :
          (found : Option (Topic buffer))
          → get_elem? w.topics topic ≡ found
          → Good (elim found [
            | none ↦ (err (no_topic topic), w')
            | some t ↦
                written buffer now topic w'
                  (write_topic buffer now message recv send w.next_sequence t w.rec)
          ])
      from none at = λ done. cc
      from (some t) at =
          written-IsSwept now topic w'
            (write_topic buffer now message recv send w.next_sequence t w.rec)
            (record { latency = v.latency; recent = v.recent }) since
            (write_topic-IsRecent buffer window empties now w.last_sweep message recv send
              w.next_sequence t w.rec since
              (All-get_elem? (Recent w.last_sweep) w.topics topic v.recent at))
