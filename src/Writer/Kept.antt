-- ===== src/Writer/Kept.antt =====
-- The operations of writer.rs and record.rs against the messages of the recording: each message that
-- an operation accepts is added, and none is lost or doubled.
use rosbag2_storage_rrd.Writer.Streams.{if-Mirrors}
use rosbag2_storage_rrd.Base.{
  ◌∙◌, ok_inj, All, true, false, err, refl, arith, ◌+◌, ◌≡◌, Result, ap, ℕ, Bool, if◌then◌else◌,
  List, ok, [], ◌∷◌,
}
use rosbag2_storage_rrd.Recorded.{Entry}
use rosbag2_storage_rrd.Writer.{
  swept, should_flush, flush_if_stale, write_topic, sweep_topics, Buffer, Recording, Topic, flush,
  flushed,
}
use rosbag2_storage_rrd.Writer.Contents.{
  on_file-send_chunks, count-append, contents, count, in_topics, IsKept, Keeping, in_topic, on_file,
}

-- What a topic takes of a message: a retired one ignores it.
abbrev pub accepted : {C : Type 0} {buffer : Buffer C} → Topic buffer → Entry → List Entry
accepted t e = if t.retired then [] else e ∷ []

module _ {C : Type 0} (buffer : Buffer C) (content : C → List Entry)
    (keeping : Keeping buffer content) (P : Entry → Bool) where
  abbrev Kept : Topic buffer → Type 0
  Kept t = IsKept buffer content keeping P t

  -- A topic's operation that adds `more` messages to what the topic and the file hold, and succeeds.
  pub record Adds (more : ℕ) (t : Topic buffer) (rec : Recording C)
      (x : Result (Unit {0}) × (Topic buffer × Recording C)) : Type 0 where
    pub done : x.0 ≡ ok tt
    pub kept : Kept x.1.0
    pub total :
        on_file content P x.1.1 + in_topic buffer content keeping P x.1.0
        ≡ on_file content P rec + in_topic buffer content keeping P t + more

  flushed-Adds :
      (now : ℕ) (t : Topic buffer) (rec : Recording C) (chunks : List C)
      (answer : Result (List C) × buffer.State)
      → answer.0 ≡ ok chunks
      → contents content chunks ≡ keeping.held t.pipeline
      → keeping.IsValid answer.1
      → keeping.held answer.1 ≡ []
      → Adds 0 t rec (flushed buffer (record t { last_flush = now }) rec answer)
  flushed-Adds now t rec chunks (err e, state) handed same valid emptied = cc
  flushed-Adds now t rec chunks (ok cs, state) handed same valid emptied =
      let all : contents content cs ≡ keeping.held t.pipeline =
        ap (contents content) (ok_inj handed) ∙ same in
      record {
        done = refl;
        kept = valid;
        total =
            omega
              (arith, on_file-send_chunks content P cs rec, ap (count P) all, ap (count P) emptied);
      }

  pub flush-Adds :
      (now : ℕ) (t : Topic buffer) (rec : Recording C)
      → Kept t
      → Adds 0 t rec (flush buffer now t rec)
  unfolding flush
  flush-Adds now t rec v =
      let (chunks, handed, same, valid, emptied) = keeping.flushes t.pipeline v in
      flushed-Adds now t rec chunks (buffer.flush t.pipeline) handed same valid emptied

  -- A topic that was flushed holds no message.
  pub flush-nil :
      (now : ℕ) (t : Topic buffer) (rec : Recording C)
      → Kept t
      → in_topic buffer content keeping P (flush buffer now t rec).1.0 ≡ 0
  unfolding flush
  flush-nil now t rec v = from (buffer.flush t.pipeline) (keeping.flushes t.pipeline v).4
    where
      from :
          (answer : Result (List C) × buffer.State)
          → keeping.held answer.1 ≡ []
          → in_topic buffer content keeping P
              (flushed buffer (record t { last_flush = now }) rec answer).1.0
            ≡ 0
      from (ok chunks, state) e = ap (count P) e
      from (err x, state) e = ap (count P) e

  -- An operation on a topic that has taken a message, counted from before it took it.
  Adds-pushed :
      (e : Entry) (t : Topic buffer) (rec : Recording C)
      {x : Result (Unit {0}) × (Topic buffer × Recording C)}
      → Kept t
      → Adds 0
          (record t { pipeline = buffer.push e.message e.recv e.send e.sequence t.pipeline })
          rec
          x
      → Adds (count P (e ∷ [])) t rec x
  Adds-pushed e t rec v a =
      let (valid, more) = keeping.pushed e t.pipeline v in
      record {
        done = a.done;
        kept = a.kept;
        total =
            omega (
              arith,
              a.total,
              ap (count P) more,
              count-append P (keeping.held t.pipeline) (e ∷ []),
            );
      }

  Adds-nothing : (t : Topic buffer) (rec : Recording C) → Kept t → Adds 0 t rec (ok tt, (t, rec))
  Adds-nothing t rec v = record { done = refl; kept = v; total = omega arith }

  pub write_topic-Adds :
      (now : ℕ) (e : Entry) (t : Topic buffer) (rec : Recording C)
      → Kept t
      → Adds
          (count P (accepted t e))
          t
          rec
          (write_topic buffer now e.message e.recv e.send e.sequence t rec)
  unfolding write_topic
  write_topic-Adds now e t rec v = from t.retired
    where
      pushed : Topic buffer
      pushed = record t { pipeline = buffer.push e.message e.recv e.send e.sequence t.pipeline }

      taken : Adds 0 pushed rec (
          if should_flush buffer now pushed
          then flush buffer now pushed rec
          else (ok tt, (pushed, rec)))
      taken =
          let (valid, more) = keeping.pushed e t.pipeline v in
          if-Mirrors buffer (Adds 0 pushed rec) (should_flush buffer now pushed)
            (flush-Adds now pushed rec valid) (Adds-nothing pushed rec valid)

      from :
          (b : Bool)
          → Adds (count P (if b then [] else e ∷ [])) t rec (
              if b
              then (ok tt, (t, rec))
              else if should_flush buffer now pushed
              then flush buffer now pushed rec
              else (ok tt, (pushed, rec)))
      from true = Adds-nothing t rec v
      from false = Adds-pushed e t rec v taken

  flush_if_stale-Adds :
      (now : ℕ) (t : Topic buffer) (rec : Recording C)
      → Kept t
      → Adds 0 t rec (flush_if_stale buffer now t rec)
  unfolding flush_if_stale
  flush_if_stale-Adds now t rec v =
      if-Mirrors buffer (Adds 0 t rec) _ (flush-Adds now t rec v) (Adds-nothing t rec v)

  -- The topics and the recording after an operation that adds `more` messages.
  pub record AllAdd (more before : ℕ) (x : Result (Unit {0}) × (List (Topic buffer) × Recording C))
      : Type 0 where
    pub done : x.0 ≡ ok tt
    pub kept : All Kept x.1.0
    pub total : on_file content P x.1.1 + in_topics buffer content keeping P x.1.0 ≡ before + more

  swept-AllAdd :
      (rest : Recording C → Result (Unit {0}) × (List (Topic buffer) × Recording C))
      (t : Topic buffer) (ts : List (Topic buffer)) (rec : Recording C)
      (answer : Result (Unit {0}) × (Topic buffer × Recording C))
      → ((rec' : Recording C)
          → AllAdd 0 (on_file content P rec' + in_topics buffer content keeping P ts) (rest rec'))
      → Adds 0 t rec answer
      → AllAdd 0
          (on_file content P rec + in_topics buffer content keeping P (t ∷ ts))
          (swept buffer rest ts answer)
  swept-AllAdd rest t ts rec (err e, (u, rec')) h a = let no = a.done in cc
  swept-AllAdd rest t ts rec (ok x, (u, rec')) h a =
      let r = h rec' in
      record { done = r.done; kept = (a.kept, r.kept); total = omega (arith, r.total, a.total) }

  pub sweep_topics-AllAdd :
      (now : ℕ) (ts : List (Topic buffer)) (rec : Recording C)
      → All Kept ts
      → AllAdd 0
          (on_file content P rec + in_topics buffer content keeping P ts)
          (sweep_topics buffer now ts rec)
  unfolding sweep_topics
  sweep_topics-AllAdd now [] rec v = record { done = refl; kept = tt; total = omega arith }
  sweep_topics-AllAdd now (t ∷ ts) rec v =
      swept-AllAdd (λ rec'. sweep_topics buffer now ts rec') t ts rec
        (flush_if_stale buffer now t rec) (λ rec'. sweep_topics-AllAdd now ts rec' v.1)
        (flush_if_stale-Adds now t rec v.0)
