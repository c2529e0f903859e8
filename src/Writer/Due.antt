-- ===== src/Writer/Due.antt =====
-- When a topic of record.rs is flushed: a write never leaves one that the policy would flush.
use rosbag2_storage_rrd.Base.{
  sym, subst, List, Result, if◌then◌else◌, leb, ◌&&◌, ◌||◌, ltb, Bool, true, ok, err, refl, ◌==◌,
  ◌-◌, ◌<◌, ◌≡◌, Option, ℕ, false, some, none, arith,
}
use rosbag2_storage_rrd.Writer.{
  flushed, Recording, Bytes, flush, write_topic, elapsed_past, Buffer, Topic, should_flush,
}

module _ {C : Type 0} (buffer : Buffer C) where
  -- The limits of the policy, where it has them.
  abbrev pub Below : ℕ → Option ℕ → Type 0
  Below n none = Unit
  Below n (some limit) = n < limit

  -- Nothing is buffered, or less than what the policy flushes.
  pub data IsWithin (now : ℕ) (t : Topic buffer) : Type 0 where
    nothing : buffer.len t.pipeline ≡ 0 → IsWithin now t
    below :
        (0 < t.policy.max_rows → buffer.len t.pipeline < t.policy.max_rows)
        → (0 < t.policy.max_bytes → buffer.bytes t.pipeline < t.policy.max_bytes)
        → Below (now - t.last_flush) t.policy.max_latency
        → IsWithin now t

  elapsed_past-Below :
      (now since : ℕ) (limit : Option ℕ)
      → elapsed_past now since limit ≡ false
      → Below (now - since) limit
  elapsed_past-Below now since none e = tt
  elapsed_past-Below now since (some limit) e = ground arith

  all_false : (a b c : Bool) → (a || b || c) ≡ false → (a ≡ false) × (b ≡ false) × (c ≡ false)
  all_false false false false e = (refl, refl, refl)
  all_false true b c e = cc
  all_false false true c e = cc
  all_false false false true e = cc

  below_limit : (n limit : ℕ) → (ltb 0 limit && leb limit n) ≡ false → 0 < limit → n < limit
  below_limit n limit e positive = ground arith

  should_flush-IsWithin :
      (now : ℕ) (t : Topic buffer) → should_flush buffer now t ≡ false → IsWithin now t
  unfolding should_flush
  should_flush-IsWithin now t e = from (buffer.len t.pipeline == 0) refl e
    where
      rows : Bool
      rows = ltb 0 t.policy.max_rows && leb t.policy.max_rows (buffer.len t.pipeline)

      bytes : Bool
      bytes = ltb 0 t.policy.max_bytes && leb t.policy.max_bytes (buffer.bytes t.pipeline)

      from :
          (b : Bool)
          → (buffer.len t.pipeline == 0) ≡ b
          → (if b
              then false
              else rows || bytes || elapsed_past now t.last_flush t.policy.max_latency)
            ≡ false
          → IsWithin now t
      from true z k = nothing (ground arith)
      from false z k =
          let (f, g, h) =
            all_false rows bytes (elapsed_past now t.last_flush t.policy.max_latency) k in
          below (below_limit (buffer.len t.pipeline) t.policy.max_rows f)
            (below_limit (buffer.bytes t.pipeline) t.policy.max_bytes g)
            (elapsed_past-Below now t.last_flush t.policy.max_latency h)

  -- If a flush leaves nothing buffered, also where it fails: after a write to a topic that is still
  -- recorded, whatever it answers, nothing is buffered, or fewer rows and bytes than the policy's limits,
  -- where it has them, since less than its latency.
  pub write_topic-IsWithin :
      (now : ℕ) (message : Bytes) (recv send sequence : ℕ) (t : Topic buffer) (rec : Recording C)
      → ((state : buffer.State) → buffer.len (buffer.flush state).1 ≡ 0)
      → t.retired ≡ false
      → IsWithin now (write_topic buffer now message recv send sequence t rec).1.0
  unfolding write_topic flush
  write_topic-IsWithin now message recv send sequence t rec empties live =
      subst (λ b. IsWithin now (left b).1.0) (sym live) (from (should_flush buffer now pushed) refl)
    where
      pushed : Topic buffer
      pushed = record t { pipeline = buffer.push message recv send sequence t.pipeline }

      step : Bool → Result (Unit {0}) × (Topic buffer × Recording C)
      step b = if b then flush buffer now pushed rec else (ok tt, (pushed, rec))

      left : Bool → Result (Unit {0}) × (Topic buffer × Recording C)
      left b = if b then (ok tt, (t, rec)) else step (should_flush buffer now pushed)

      emptied :
          (answer : Result (List C) × buffer.State)
          → buffer.len answer.1 ≡ 0
          → IsWithin now (flushed buffer (record pushed { last_flush = now }) rec answer).1.0
      emptied (ok chunks, state) e = nothing e
      emptied (err x, state) e = nothing e

      from : (b : Bool) → should_flush buffer now pushed ≡ b → IsWithin now (step b).1.0
      from true e = emptied (buffer.flush pushed.pipeline) (empties pushed.pipeline)
      from false e = should_flush-IsWithin now pushed e
