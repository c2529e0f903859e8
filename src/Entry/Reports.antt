-- ===== src/Entry/Reports.antt =====
-- How the entry points of lib.rs report failures, and how the reason is fetched.
use rosbag2_storage_rrd.Reader.{Reader}
use rosbag2_storage_rrd.Reader.Windows.{TopicInfo}
use rosbag2_storage_rrd.Entry.Reading.{
  RrdTopic, shown_topic, rrd_reader_topic_count, rrd_reader_topic,
}
use rosbag2_storage_rrd.Arrow.{Bytes}
use rosbag2_storage_rrd.Base.{
  no_topic, ◌≤◌, get_elem?, ◌⊎◌, List, inl, inr, ◌∙◌, min, ◌++◌, ap, ◌<◌, ◌∷◌, length, ℕ, take,
  true, zero, suc, some, ok, arith, [], ◌≡◌, Option, Error, String, none, err, refl, panicked,
}
use rosbag2_storage_rrd.Entry.{Answer, Host, answer}
use rosbag2_storage_rrd.Ffi.{success, set_last_error, rrd_last_error, Slot, failure}

-- The reason that is recorded for an error or a panic.
abbrev pub reason : Host → String → Error → Bytes
reason host what panicked = host.print (host.to_utf8 what) host.panic_reason
reason host what e = host.print (host.to_utf8 what) (host.print_error e)

-- An answer that reports an error: nothing is written, and the object is the given one.
abbrev pub Reports : {H O : Type 0} → Host → String → Error → Option H → Answer H O → Type 0
Reports host what e handle a =
    (a.status ≡ failure) × (a.slot ≡ reason host what e) × (a.handle ≡ handle) × (a.written ≡ none)

take-length : (xs : Bytes) → take (length xs) xs ≡ xs
take-length [] = refl
take-length (x ∷ xs) = ap (◌∷◌ x) (take-length xs)

fetched :
    (message : Bytes) (n : ℕ)
    → length message < n
    → rrd_last_error (some n) message ≡ (length message, (message ++ 0 ∷ [], []))
unfolding rrd_last_error
fetched message zero h = absurd (omega arith)
fetched message (suc room) h =
    let all : min (length message) room ≡ length message = omega arith in
    rw (all, take-length message) refl

in_range :
    {A : Type 0} (xs : List A) (i : ℕ)
    → ((a : A) × (get_elem? xs i ≡ some a) × (i < length xs))
      ⊎ ((get_elem? xs i ≡ none) × (length xs ≤ i))
in_range [] i = inr (refl, omega arith)
in_range (x ∷ xs) zero = inl (x, refl, omega arith)
in_range (x ∷ xs) (suc i) = elim (in_range xs i) [
  | inl (a, at, room) ↦ inl (a, at, omega arith)
  | inr (at, behind) ↦ inr (at, omega arith)
]

module _ (host : Host) where
  answer-Reports :
      {H O : Type 0} (what : String) (slot : Slot) (e : Error) (handle : Option H)
      → Reports host what e handle (answer {O = O} host what slot (err e, handle))
  unfolding answer set_last_error
  answer-Reports what slot panicked handle = (refl, refl, refl, refl)
  answer-Reports what slot e handle = (refl, refl, refl, refl)

  -- Whatever error or panic ends an entry point's closure: the entry point fails and writes nothing,
  -- and a call of `rrd_last_error` with a buffer longer than the reason copies the whole reason with
  -- its terminator and leaves none behind. If the closure succeeds, the entry point does, and the last
  -- error stays.
  pub answer-explained :
      {H O : Type 0} (what : String) (slot : Slot) (e : Error) (written : Option O)
      (handle : Option H) (buf_len : ℕ)
      → length (reason host what e) < buf_len
      → Reports host what e handle (answer {O = O} host what slot (err e, handle))
        × (rrd_last_error (some buf_len) (answer {O = O} host what slot (err e, handle)).slot
            ≡ (length (reason host what e), (reason host what e ++ 0 ∷ [], [])))
        × (answer host what slot (ok written, handle)
            ≡ record { status = success; slot = slot; handle = handle; written = written })
  unfolding answer
  answer-explained {O = O} what slot e written handle buf_len fits =
      let reported = answer-Reports {O = O} what slot e handle in
      (
        reported,
        ap (rrd_last_error (some buf_len)) reported.1 ∙ fetched (reason host what e) buf_len fits,
        refl,
      )

  topic-answer :
      (index : ℕ) (slot : Slot) (r : Reader) (o : Option TopicInfo)
      → get_elem? r.topics index ≡ o
      → rrd_reader_topic host true index slot (some r)
        ≡ answer host "rrd_reader_topic" slot (
          elim o [ none ↦ err (no_topic index) | some info ↦ ok (some (shown_topic info)) ],
          some r,
        )
  unfolding rrd_reader_topic
  topic-answer index slot r o at =
      ap
        (λ (x : Option TopicInfo). answer {O = RrdTopic} host "rrd_reader_topic" slot (
          elim x [ none ↦ err (no_topic index) | some info ↦ ok (some (shown_topic info)) ],
          some r,
        ))
        at

  -- If the index is below the count of topics, then the call succeeds and describes the topic at the
  -- index: each field that is written is that of the topic. Otherwise it fails with the reason that there
  -- is no topic at the index, and writes nothing. The reader is as it was, and so is the last error after
  -- a success.
  pub topic-counted :
      (index : ℕ) (slot : Slot) (r : Reader)
      → ((index < rrd_reader_topic_count host (some r))
          × ((info : TopicInfo) × (get_elem? r.topics index ≡ some info)
              × (rrd_reader_topic host true index slot (some r) ≡ record {
                status = success;
                slot = slot;
                handle = some r;
                written = some (record {
                  name = info.name;
                  type_name = info.type_name;
                  schema_encoding = info.schema_encoding;
                  schema_text = info.schema_text;
                  qos_profiles = info.qos_profiles;
                  type_hash = info.type_hash;
                  message_count = info.message_count;
                });
              })))
        ⊎ ((rrd_reader_topic_count host (some r) ≤ index)
            × Reports host "rrd_reader_topic"
                (no_topic index)
                (some r)
                (rrd_reader_topic host true index slot (some r)))
  unfolding rrd_reader_topic_count answer shown_topic
  topic-counted index slot r = elim (in_range r.topics index) [
    | inl (info, at, room) ↦ inl (room, (info, at, topic-answer index slot r (some info) at))
    | inr (at, behind) ↦
        inr (behind, rw (topic-answer index slot r none at) (refl, refl, refl, refl))
  ]
