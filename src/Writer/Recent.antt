-- ===== src/Writer/Recent.antt =====
-- Topics of record.rs that were flushed within the latency window, or have nothing buffered.
use rosbag2_storage_rrd.Writer.Streams.{if-Mirrors}
use rosbag2_storage_rrd.Writer.Retired.{write_topic-retired}
use rosbag2_storage_rrd.Writer.Due.{write_topic-IsWithin, Below, below, nothing, IsWithin}
use native.Mathlib.Decide.{dec_lt}
use rosbag2_storage_rrd.Base.{
  ◌∙◌, ap, sym, subst, Bool-cases, some_inj, if◌then◌else◌, ◌==◌, not, ◌<◌, All, ◌-◌, ◌&&◌, ◌≤◌,
  Result, ◌⊎◌, List, Option, Bool, ◌≡◌, ℕ, true, false, some, none, ok, err, refl, inl, inr, arith,
  [], ◌∷◌,
}
use rosbag2_storage_rrd.Writer.{
  FlushPolicy, should_flush, write_topic, Bytes, Buffer, Recording, Topic, elapsed_past, flush,
  flush_if_stale, flushed, sweep_topics, swept,
}

module _ {C : Type 0} (buffer : Buffer C) (window : ℕ)
    (empties : (state : buffer.State) → buffer.len (buffer.flush state).1 ≡ 0) where
  -- Nothing is buffered, or the last flush was within the window before `since`.
  pub record IsRecent (since : ℕ) (t : Topic buffer) : Type 0 where
    pub policy : t.policy.max_latency ≡ some window
    pub flushed_at : (buffer.len t.pipeline ≡ 0) ⊎ (since - t.last_flush < window)

  abbrev pub TopicOut : Type 0
  TopicOut = Result (Unit {0}) × (Topic buffer × Recording C)

  flush-IsRecent :
      (now since : ℕ) (t : Topic buffer) (rec : Recording C)
      → t.policy.max_latency ≡ some window
      → IsRecent since (flush buffer now t rec).1.0
  unfolding flush
  flush-IsRecent now since t rec p = from (buffer.flush t.pipeline) (empties t.pipeline)
    where
      from :
          (answer : Result (List C) × buffer.State)
          → buffer.len answer.1 ≡ 0
          → IsRecent since (flushed buffer (record t { last_flush = now }) rec answer).1.0
      from (ok chunks, state) e = record { policy = p; flushed_at = inl e }
      from (err x, state) e = record { policy = p; flushed_at = inl e }

  not_stale :
      (now last n : ℕ) (limit : Option ℕ)
      → limit ≡ some window
      → (elapsed_past now last limit && not (n == 0)) ≡ false
      → (n ≡ 0) ⊎ (now - last < window)
  not_stale now last n none p e = cc
  not_stale now last n (some l) p e =
      let same : l ≡ window = some_inj p in
      elim (dec_lt (now - last) l) [
        | yes h ↦ inr (omega (arith, h, same))
        | no h ↦ inl (ground arith)
      ]

  flush_if_stale-IsRecent :
      (now : ℕ) (t : Topic buffer) (rec : Recording C)
      → t.policy.max_latency ≡ some window
      → IsRecent now (flush_if_stale buffer now t rec).1.0
  unfolding flush_if_stale
  flush_if_stale-IsRecent now t rec p = from stale refl
    where
      stale : Bool
      stale = elapsed_past now t.last_flush t.policy.max_latency && not (buffer.len t.pipeline == 0)

      from :
          (b : Bool)
          → stale ≡ b
          → IsRecent now (if b then flush buffer now t rec else (ok tt, (t, rec))).1.0
      from true e = flush-IsRecent now now t rec p
      from false e = record {
        policy = p;
        flushed_at = not_stale now t.last_flush (buffer.len t.pipeline) t.policy.max_latency p e;
      }

  swept-IsRecent :
      (now : ℕ) (rest : Recording C → Result (Unit {0}) × (List (Topic buffer) × Recording C))
      (ts : List (Topic buffer)) (answer : TopicOut)
      → ((rec : Recording C) → (rest rec).0 ≡ ok tt → All (IsRecent now) (rest rec).1.0)
      → IsRecent now answer.1.0
      → (swept buffer rest ts answer).0 ≡ ok tt
      → All (IsRecent now) (swept buffer rest ts answer).1.0
  swept-IsRecent now rest ts (err e, (t, rec)) h r done = cc
  swept-IsRecent now rest ts (ok x, (t, rec)) h r done = (r, h rec done)

  pub sweep_topics-IsRecent :
      (now since : ℕ) (ts : List (Topic buffer)) (rec : Recording C)
      → All (IsRecent since) ts
      → (sweep_topics buffer now ts rec).0 ≡ ok tt
      → All (IsRecent now) (sweep_topics buffer now ts rec).1.0
  unfolding sweep_topics
  sweep_topics-IsRecent now since [] rec v done = tt
  sweep_topics-IsRecent now since (t ∷ ts) rec v done =
      swept-IsRecent now (λ rec'. sweep_topics buffer now ts rec') ts
        (flush_if_stale buffer now t rec) (λ rec' d. sweep_topics-IsRecent now since ts rec' v.1 d)
        (flush_if_stale-IsRecent now t rec v.0.policy) done

  flush-policy :
      (now : ℕ) (t : Topic buffer) (rec : Recording C)
      → (flush buffer now t rec).1.0.policy ≡ t.policy
  unfolding flush
  flush-policy now t rec = from (buffer.flush t.pipeline)
    where
      from :
          (answer : Result (List C) × buffer.State)
          → (flushed buffer (record t { last_flush = now }) rec answer).1.0.policy ≡ t.policy
      from (ok chunks, state) = refl
      from (err e, state) = refl

  write_topic-policy :
      (now : ℕ) (message : Bytes) (recv send sequence : ℕ) (t : Topic buffer) (rec : Recording C)
      → (write_topic buffer now message recv send sequence t rec).1.0.policy ≡ t.policy
  unfolding write_topic
  write_topic-policy now message recv send sequence t rec =
      let pushed : Topic buffer = record t {
        pipeline = buffer.push message recv send sequence t.pipeline;
      } in
      let same : TopicOut → Type 0 = λ x. x.1.0.policy ≡ t.policy in
      if-Mirrors buffer same t.retired refl
        (if-Mirrors buffer same (should_flush buffer now pushed) (flush-policy now pushed rec) refl)

  IsWithin-IsRecent :
      (now since : ℕ) (t : Topic buffer)
      → since ≤ now
      → t.policy.max_latency ≡ some window
      → IsWithin buffer now t
      → IsRecent since t
  IsWithin-IsRecent now since t before p (nothing e) = record { policy = p; flushed_at = inl e }
  IsWithin-IsRecent now since t before p (below r b l) =
      let h : now - t.last_flush < window = subst (Below buffer (now - t.last_flush)) p l in
      record { policy = p; flushed_at = inr (omega (arith, h, before)) }

  pub write_topic-IsRecent :
      (now since : ℕ) (message : Bytes) (recv send sequence : ℕ) (t : Topic buffer)
      (rec : Recording C)
      → since ≤ now
      → IsRecent since t
      → IsRecent since (write_topic buffer now message recv send sequence t rec).1.0
  write_topic-IsRecent now since message recv send sequence t rec before v =
      elim (Bool-cases t.retired) [
        | inl e ↦
            subst (λ x. IsRecent since x.1.0)
              (sym (write_topic-retired buffer now message recv send sequence t rec e)) v
        | inr e ↦
            IsWithin-IsRecent now since
              (write_topic buffer now message recv send sequence t rec).1.0 before
              (ap (λ (p : FlushPolicy). p.max_latency)
                  (write_topic-policy now message recv send sequence t rec)
                ∙ v.policy)
              (write_topic-IsWithin buffer now message recv send sequence t rec empties e)
      ]
