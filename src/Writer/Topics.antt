-- ===== src/Writer/Topics.antt =====
-- `create_topic` hands out the index of the topic's slot, once per name.
use rosbag2_storage_rrd.Base.{
  All-imp, length-append, ◌+◌, ◌++◌, eq_iff, false, none, if◌then◌else◌, subst, some_inj, str_eq,
  Bool-cases, ◌≡◌, ◌∷◌, length, Option, List, ◌<◌, All, ℕ, String, some, refl, inl, inr, arith, [],
}
use rosbag2_storage_rrd.Writer.{send_chunk, Topic, create_topic, Writer, Buffer}
use rosbag2_storage_rrd.Arrow.{lookup}

lookup-cons :
    {A : Type 0} (topic : String) (v : A) (ids : List (String × A))
    → lookup topic ((topic, v) ∷ ids) ≡ some v
unfolding lookup
lookup-cons topic v ids = rw ((eq_iff topic topic).1 refl) refl

pub lookup-All :
    (n : ℕ) (topic : String) (ids : List (String × ℕ)) (id : ℕ)
    → All (λ entry. entry.1 < n) ids
    → lookup topic ids ≡ some id
    → id < n
unfolding lookup
lookup-All n topic [] id all e = cc
lookup-All n topic ((j, v) ∷ ids) id all e = elim (Bool-cases (str_eq j topic)) [
  | inl t ↦
      let same : v ≡ id =
        some_inj (subst (λ b. (if b then some v else lookup topic ids) ≡ some id) t e) in
      omega (arith, same, all.0)
  | inr t ↦
      lookup-All n topic ids id all.1
        (subst (λ b. (if b then some v else lookup topic ids) ≡ some id) t e)
]

module _ {C : Type 0} (buffer : Buffer C) where
  -- Every index that is handed out is one of a slot.
  abbrev pub IsNumbered : Writer buffer → Type 0
  IsNumbered w = All (λ entry. entry.1 < length w.topics) w.topic_ids

  -- The index of a topic that was declared: in range, and the one it is found under.
  abbrev pub Declares : String → ℕ × Writer buffer → Type 0
  Declares topic x =
      (x.0 < length x.1.topics) × (lookup topic x.1.topic_ids ≡ some x.0) × IsNumbered x.1

  create_topic-known :
      (topic entity : String) (state : buffer.State) (info : Option C) (now id : ℕ)
      (w : Writer buffer)
      → lookup topic w.topic_ids ≡ some id
      → create_topic buffer topic entity state info now w ≡ (id, w)
  unfolding create_topic
  create_topic-known topic entity state info now id w e = rw (e, create_topic) refl

  pub create_topic-Declares :
      (topic entity : String) (state : buffer.State) (info : Option C) (now : ℕ) (w : Writer buffer)
      → IsNumbered w
      → Declares topic (create_topic buffer topic entity state info now w)
  unfolding create_topic
  create_topic-Declares topic entity state info now w v = from (lookup topic w.topic_ids) refl
    where
      made : Topic buffer
      made = record {
        entity = entity;
        pipeline = state;
        policy = w.config.flush;
        last_flush = now;
        retired = false;
      }

      step : Option ℕ → ℕ × Writer buffer
      step o = elim o [
        | some id ↦ (id, w)
        | none ↦ (
          length w.topics,
          record w {
            rec = elim info [ none ↦ w.rec | some chunk ↦ send_chunk chunk w.rec ];
            topic_ids = (topic, length w.topics) ∷ w.topic_ids;
            topics = w.topics ++ made ∷ [];
          },
        )
      ]

      from : (o : Option ℕ) → lookup topic w.topic_ids ≡ o → Declares topic (step o)
      from (some id) e = (lookup-All (length w.topics) topic w.topic_ids id v e, e, v)
      from none e =
          let grown : length (w.topics ++ made ∷ []) ≡ length w.topics + 1 =
            length-append w.topics (made ∷ []) in
          let room : length w.topics < length (w.topics ++ made ∷ []) = omega (arith, grown) in
          (
            room,
            lookup-cons topic (length w.topics) w.topic_ids,
            (room, All-imp _ _ w.topic_ids (λ entry h. omega (arith, h, grown)) v),
          )

  -- On a writer whose indices are in range: `create_topic` returns an index in range, under which the
  -- topic is found from then on, and no index leaves the range; declared again, the topic has the same
  -- index and nothing changes.
  pub create_topic-once :
      (topic entity : String) (state : buffer.State) (info : Option C) (now : ℕ) (w : Writer buffer)
      → IsNumbered w
      → (state' : buffer.State) (info' : Option C) (now' : ℕ)
      → Declares topic (create_topic buffer topic entity state info now w)
        × (create_topic buffer topic entity state' info' now'
              (create_topic buffer topic entity state info now w).1
            ≡ create_topic buffer topic entity state info now w)
  create_topic-once topic entity state info now w v state' info' now' =
      let declared = create_topic-Declares topic entity state info now w v in
      (
        declared,
        create_topic-known topic entity state' info' now'
            (create_topic buffer topic entity state info now w).0
            (create_topic buffer topic entity state info now w).1 declared.1,
      )
