-- ===== src/Writer/Retired.antt =====
-- `remove_topic` of writer.rs: the index of a removed topic stays that of its slot, which records
-- nothing more; the name is free again.
use rosbag2_storage_rrd.Base.{
  sym, subst, get_elem?-set_self, ◌∙◌, if◌then◌else◌, ap, str_eq, get_elem?-lt, length, get_elem?,
  Bool, ◌<◌, ◌≡◌, Result, List, Option, ℕ, String, true, some, none, ok, err, refl, arith, [], ◌∷◌,
}
use rosbag2_storage_rrd.Base.{false}
use rosbag2_storage_rrd.Arrow.{lookup}
use rosbag2_storage_rrd.Arrow.{Bytes}
use rosbag2_storage_rrd.Base.{set, some_inj, zero, suc, no_topic, ◌+◌}
use rosbag2_storage_rrd.Writer.{sweep_stale_topics, write, write_topic, written}
use rosbag2_storage_rrd.Writer.{
  Buffer, Recording, Topic, Writer, create_topic, flush, remove_key, remove_topic, removed, retire,
}
use rosbag2_storage_rrd.Writer.Slots.{length-set}
use rosbag2_storage_rrd.Writer.Topics.{IsNumbered, lookup-All}

set-get_elem? :
    {A : Type 0} (xs : List A) (i : ℕ) (x : A) → get_elem? xs i ≡ some x → set xs i x ≡ xs
set-get_elem? [] i x e = refl
set-get_elem? (y ∷ xs) zero x e = ap (λ z. z ∷ xs) (sym (some_inj e))
set-get_elem? (y ∷ xs) (suc i) x e = ap (λ l. y ∷ l) (set-get_elem? xs i x e)

module _ {C : Type 0} (buffer : Buffer C) where
  lookup-remove_key : (k : String) (l : List (String × ℕ)) → lookup k (remove_key buffer k l) ≡ none
  unfolding remove_key lookup
  lookup-remove_key k [] = refl
  lookup-remove_key k ((j, v) ∷ l) = from (str_eq j k) refl (lookup-remove_key k l)
    where
      from :
          (b : Bool)
          → str_eq j k ≡ b
          → lookup k (remove_key buffer k l) ≡ none
          → lookup k (if b then remove_key buffer k l else (j, v) ∷ remove_key buffer k l) ≡ none
      from true e h = h
      from false e h =
          ap (λ (c : Bool). if c then some v else lookup k (remove_key buffer k l)) e ∙ h

  -- The name is not declared, writing to its slot is sweeping with one sequence number more spent, and
  -- declared again it gets a new slot.
  pub record IsRetired (topic : String) (id : ℕ) (w : Writer buffer) : Type 0 where
    pub forgotten : lookup topic w.topic_ids ≡ none
    pub in_range : id < length w.topics
    pub ignores :
        (now : ℕ) (message : Bytes) (recv send : ℕ)
        → write buffer now id message recv send w
          ≡ sweep_stale_topics buffer now (record w { next_sequence = w.next_sequence + 1 })
    pub renewed :
        (entity : String) (state : buffer.State) (info : Option C) (now : ℕ)
        → (create_topic buffer topic entity state info now w).0 ≡ length w.topics

  create_topic-new :
      (topic entity : String) (state : buffer.State) (info : Option C) (now : ℕ) (w : Writer buffer)
      → lookup topic w.topic_ids ≡ none
      → (create_topic buffer topic entity state info now w).0 ≡ length w.topics
  unfolding create_topic
  create_topic-new topic entity state info now w e = rw (e, create_topic) refl

  pub write_topic-retired :
      (now : ℕ) (message : Bytes) (recv send sequence : ℕ) (t : Topic buffer) (rec : Recording C)
      → t.retired ≡ true
      → write_topic buffer now message recv send sequence t rec ≡ (ok tt, (t, rec))
  unfolding write_topic
  write_topic-retired now message recv send sequence t rec e = rw e refl

  -- To a retired topic of a writer, a message leaves only its sequence number spent.
  write-retired :
      (now id : ℕ) (message : Bytes) (recv send : ℕ) (w : Writer buffer) (t : Topic buffer)
      → get_elem? w.topics id ≡ some t
      → t.retired ≡ true
      → write buffer now id message recv send w
        ≡ sweep_stale_topics buffer now (record w { next_sequence = w.next_sequence + 1 })
  unfolding write
  write-retired now id message recv send w t at retired =
      ap chosen at
      ∙ ap (written buffer now id w')
          (write_topic-retired now message recv send w.next_sequence t w.rec retired)
      ∙ ap (λ (ts : List (Topic buffer)). sweep_stale_topics buffer now (record w' { topics = ts }))
          (set-get_elem? w.topics id t at)
    where
      w' : Writer buffer
      w' = record w { next_sequence = w.next_sequence + 1 }

      chosen : Option (Topic buffer) → Result (Unit {0}) × Writer buffer
      chosen o = elim o [
        | none ↦ (err (no_topic id), w')
        | some t ↦
            written buffer now id w'
              (write_topic buffer now message recv send w.next_sequence t w.rec)
      ]

  removed-IsRetired :
      (topic : String) (i : ℕ) (w : Writer buffer)
      (answer : Result (Unit {0}) × (Topic buffer × Recording C))
      → lookup topic w.topic_ids ≡ none
      → i < length w.topics
      → (removed buffer i w answer).0 ≡ ok tt
      → IsRetired topic i (removed buffer i w answer).1
  removed-IsRetired topic i w (err e, (t, rec)) gone inside done = cc
  removed-IsRetired topic i w (ok x, (t, rec)) gone inside done = record {
    forgotten = gone;
    in_range = omega (arith, inside, length-set w.topics i (retire buffer t));
    ignores = λ now message recv send.
        write-retired now i message recv send
          (record w { topics = set w.topics i (retire buffer t); rec = rec }) (retire buffer t)
          (get_elem?-set_self w.topics i (retire buffer t) inside) (unfold retire in refl);
    renewed = λ entity state info now. create_topic-new topic entity state info now _ gone;
  }

  -- On a writer whose indices are in range: if removing a declared topic succeeds, then its name is not
  -- declared any more; its index stays in range, but writing a message to it only spends a sequence
  -- number and sweeps the stale topics, so that nothing is buffered or recorded of the message; and
  -- declared again, the name gets a new index behind all others.
  pub remove_topic-IsRetired :
      (now : ℕ) (topic : String) (id : ℕ) (w : Writer buffer)
      → IsNumbered buffer w
      → lookup topic w.topic_ids ≡ some id
      → (remove_topic buffer now topic w).0 ≡ ok tt
      → IsRetired topic id (remove_topic buffer now topic w).1
  unfolding remove_topic
  remove_topic-IsRetired now topic id w numbered known done =
      let inside = lookup-All (length w.topics) topic w.topic_ids id numbered known in
      let (t, at) = get_elem?-lt w.topics id inside in
      let moved : remove_topic buffer now topic w
          ≡ removed buffer id w' (flush buffer now t w.rec) =
        ap taken known ∙ ap (slot id) at in
      subst (λ x. IsRetired topic id x.1) (sym moved)
        (removed-IsRetired topic id w' (flush buffer now t w.rec)
          (lookup-remove_key topic w.topic_ids) inside (ap (λ x. x.0) (sym moved) ∙ done))
    where
      w' : Writer buffer
      w' = record w { topic_ids = remove_key buffer topic w.topic_ids }

      slot : ℕ → Option (Topic buffer) → Result (Unit {0}) × Writer buffer
      slot id t = elim t [
        | none ↦ (ok tt, w')
        | some t ↦ removed buffer id w' (flush buffer now t w.rec)
      ]

      taken : Option ℕ → Result (Unit {0}) × Writer buffer
      taken o = elim o [ none ↦ (ok tt, w) | some id ↦ slot id (get_elem? w.topics id) ]
