-- ===== src/Reader/Setup/Topics.antt =====
-- The topics that an opened reader has, and the chunks that it keeps.

use rosbag2_storage_rrd.Index.{retain_chunks, ChunkRef}
use rosbag2_storage_rrd.Reader.Setup.{
  lookup, counted_topic, count_topics, MessageDecodePlan, topic_on, count_on, Bytes, topic_info,
  holds_messages, TopicStatics, Counts, add_topics, TopicInfo, count_chunk,
}
use rosbag2_storage_rrd.Base.{
  Bool-cases, some_inj, ◌∙◌, ap, sym, Option, zero, suc, none, All-imp, All-append, length-append,
  ◌+◌, ◌++◌, Option-cases, if◌then◌else◌, length, ◌<◌, get_elem?, ◌∷◌, All, ◌≡◌, ℕ, Result, Bool,
  String, List, true, false, some, refl, inl, inr, arith, [],
}

module _ (archetype : String → Result String) where
  -- The place of a topic is one of the list of topics.
  abbrev pub InRange : List TopicInfo → List (String × ℕ) → Type 0
  InRange topics topic_index = All (λ entry. entry.1 < length topics) topic_index

  pub add_topics-InRange :
      (statics : List (String × TopicStatics)) (topics : List TopicInfo)
      (topic_index : List (String × ℕ))
      → InRange topics topic_index
      → InRange
          (add_topics archetype statics topics topic_index).0
          (add_topics archetype statics topics topic_index).1
  unfolding add_topics
  add_topics-InRange [] topics topic_index v = v
  add_topics-InRange ((entity, statics) ∷ rest) topics topic_index v =
      elim (Option-cases (topic_info archetype statics)) [
        | inl e ↦ rw (e, add_topics) (add_topics-InRange rest topics topic_index v)
        | inr (info, e) ↦
            let grown : length (topics ++ info ∷ []) ≡ length topics + 1 =
              length-append topics (info ∷ []) in
            rw (e, add_topics)
              (add_topics-InRange rest (topics ++ info ∷ [])
                (topic_index ++ (entity, length topics) ∷ [])
                (All-append (λ entry. entry.1 < length (topics ++ info ∷ [])) topic_index
                  ((entity, length topics) ∷ [])
                  (All-imp _ _ topic_index (λ entry h. omega (arith, h, grown)) v)
                  (omega (arith, grown), tt)))
      ]

topic_on_intro :
    (topics : List TopicInfo) (topic_index : List (String × ℕ)) (entity : String) (topic : ℕ)
    (info : TopicInfo)
    → lookup entity topic_index ≡ some topic
    → get_elem? topics topic ≡ some info
    → topic_on topics topic_index entity ≡ some (topic, info)
unfolding topic_on
topic_on_intro topics topic_index entity topic info found at =
    rw (found, topic_on) (rw (at, topic_on) refl)

topic_on_elim :
    (topics : List TopicInfo) (topic_index : List (String × ℕ)) (entity : String) (topic : ℕ)
    (info : TopicInfo)
    → topic_on topics topic_index entity ≡ some (topic, info)
    → (lookup entity topic_index ≡ some topic) × (get_elem? topics topic ≡ some info)
unfolding topic_on
topic_on_elim topics topic_index entity topic info e = (ground arith, ground arith)

-- The chunk stands on the entity of a topic, and carries a column of its messages.
pub record IsOfTopic (topics : List TopicInfo) (topic_index : List (String × ℕ)) (c : ChunkRef)
    : Type 0 where
  pub topic : ℕ
  pub info : TopicInfo
  pub found : topic_on topics topic_index c.entity ≡ some (topic, info)
  pub holds : holds_messages info.columns c.components ≡ true

pub count_chunk-IsOfTopic :
    (topics : List TopicInfo) (topic_index : List (String × ℕ)) (c : ChunkRef) (n : Counts)
    → (count_chunk topics topic_index c.entity c.components c.num_rows n).0 ≡ true
    → IsOfTopic topics topic_index c
unfolding count_chunk count_on
count_chunk-IsOfTopic topics topic_index c n e =
    elim (Option-cases (topic_on topics topic_index c.entity)) [
      | inl none_found ↦ absurd_by none_found
      | inr ((topic, info), found) ↦ record {
        topic = topic;
        info = info;
        found = found;
        holds = counts_on topic info found;
      }
    ]
  where
    counted_by : Option (ℕ × TopicInfo) → Bool
    counted_by o = (count_on c.components c.num_rows n o).0

    absurd_by : topic_on topics topic_index c.entity ≡ none → IsOfTopic topics topic_index c
    absurd_by none_found = cc (sym (ap counted_by none_found) ∙ e)

    counts_on :
        (topic : ℕ) (info : TopicInfo)
        → topic_on topics topic_index c.entity ≡ some (topic, info)
        → holds_messages info.columns c.components ≡ true
    counts_on topic info found =
        let counted : counted_by (some (topic, info)) ≡ true = sym (ap counted_by found) ∙ e in
        elim (Bool-cases (holds_messages info.columns c.components)) [
          | inl t ↦ t
          | inr f ↦ ground arith
        ]

module _ {S : Type 0} (keep : ChunkRef → S → Bool × S) where
  -- What the closure asks of the chunks that it keeps holds of those that are left.
  pub retain_chunks-kept :
      (P : ChunkRef → Type 0) (cs : List ChunkRef) (s : S)
      → ((c : ChunkRef) (t : S) → (keep c t).0 ≡ true → P c)
      → All P (retain_chunks keep cs s).0
  unfolding retain_chunks
  retain_chunks-kept P [] s h = tt
  retain_chunks-kept P (c ∷ cs) s h =
      kept_All (keep c s).0 (retain_chunks keep cs (keep c s).1).0 (h c s)
        (retain_chunks-kept P cs (keep c s).1 h)
    where
      kept_All :
          (b : Bool) (ds : List ChunkRef)
          → (b ≡ true → P c)
          → All P ds
          → All P (if b then c ∷ ds else ds)
      kept_All true ds p all = (p refl, all)
      kept_All false ds p all = all

module _ (from_utf8 : Bytes → Result String)
    (parse_plan : String → String → Result MessageDecodePlan) where
  pub length-count_topics :
      (c : Counts) (n : ℕ) (topics : List TopicInfo)
      → length (count_topics from_utf8 parse_plan c n topics) ≡ length topics
  unfolding count_topics
  length-count_topics c n [] = refl
  length-count_topics c n (info ∷ rest) = ap suc (length-count_topics c (n + 1) rest)

  get_elem?-count_topics :
      (c : Counts) (n : ℕ) (topics : List TopicInfo) (i : ℕ) {info : TopicInfo}
      → get_elem? topics i ≡ some info
      → get_elem? (count_topics from_utf8 parse_plan c n topics) i
        ≡ some (counted_topic from_utf8 parse_plan c (n + i) info)
  unfolding count_topics
  get_elem?-count_topics c n [] i e = cc
  get_elem?-count_topics c n (info ∷ rest) zero {info = info'} e =
      let zero_more : n + 0 ≡ n = omega arith in
      let same : info ≡ info' = some_inj e in
      rw zero_more (ap (λ x. some (counted_topic from_utf8 parse_plan c n x)) same)
  get_elem?-count_topics c n (info ∷ rest) (suc i) {info = info'} e =
      let one_more : (n + 1) + i ≡ n + suc i = omega arith in
      get_elem?-count_topics c (n + 1) rest i e
      ∙ ap (λ m. some (counted_topic from_utf8 parse_plan c m info')) one_more

  -- Counting keeps the topic of a chunk.
  pub count_topics-IsOfTopic :
      (n : Counts) (topics : List TopicInfo) (topic_index : List (String × ℕ)) (c : ChunkRef)
      → IsOfTopic topics topic_index c
      → IsOfTopic (count_topics from_utf8 parse_plan n 0 topics) topic_index c
  count_topics-IsOfTopic n topics topic_index c v =
      let (found, at) = topic_on_elim topics topic_index c.entity v.topic v.info v.found in
      record {
        topic = v.topic;
        info = counted_topic from_utf8 parse_plan n (0 + v.topic) v.info;
        found =
            topic_on_intro (count_topics from_utf8 parse_plan n 0 topics) topic_index c.entity
              v.topic (counted_topic from_utf8 parse_plan n (0 + v.topic) v.info) found
              (get_elem?-count_topics n 0 topics v.topic at);
        holds = v.holds;
      }
