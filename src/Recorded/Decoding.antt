-- ===== src/Recorded/Decoding.antt =====
-- The decoder beside the rows of a pipeline of pipeline.rs: it has decoded as many messages as rows
-- are marked so.
use rosbag2_storage_rrd.Pipeline.Flow.{decided, decode, Reflection, Pipeline, append}
use rosbag2_storage_rrd.Base.{
  subst, if◌then◌else◌, sym, ap, length, ◌+◌, ◌∙◌, ◌++◌, ◌≡◌, Option, Bool, ℕ, List, true, false,
  some, none, refl, arith, [], ◌∷◌,
}
use rosbag2_storage_rrd.Recorded.{Bytes, Entry}
use rosbag2_storage_rrd.Recorded.Pushes.{push_entry}
use rosbag2_storage_rrd.Pipeline.Scatter.{count_true}
use rosbag2_storage_rrd.Pipeline.Take.{Holds, Stamps}
use rosbag2_storage_rrd.Pipeline.{
  no_rows, Decoded, push_row, CdrDecoder, decoded, cancelled, unrecoverable,
}

-- What a decoder of re_ros_msg promises: it holds the messages decoded since the last `finish`.
pub record Decodes (cdr : CdrDecoder) : Type 0 where
  pub pending : cdr.State → ℕ
  pub decodes :
      (state : cdr.State) (message : Bytes)
      → (cdr.decode_message state message).0 ≡ decoded
      → pending (cdr.decode_message state message).1 ≡ pending state + 1
  pub cancels :
      (state : cdr.State) (message : Bytes)
      → (cdr.decode_message state message).0 ≡ cancelled
      → pending (cdr.decode_message state message).1 ≡ pending state
  pub finishes : (state : cdr.State) → length (cdr.finish state).0 ≡ pending state
  pub finished : (state : cdr.State) → pending (cdr.finish state).1 ≡ 0
  pub stamps : (messages : List (Option cdr.Value)) → Stamps cdr messages

count_true-append :
    (bs : List Bool) (b : Bool) → count_true (bs ++ b ∷ []) ≡ count_true bs + count_true (b ∷ [])
count_true-append [] b = omega arith
count_true-append (true ∷ bs) b = omega (arith, count_true-append bs b)
count_true-append (false ∷ bs) b = count_true-append bs b

module _ (cdr : CdrDecoder) (laws : Decodes cdr) where
  abbrev pub Pending : Option (Reflection cdr) → List Bool → Type 0
  Pending none marks = Unit
  Pending (some r) marks = laws.pending r.decoder ≡ count_true marks

  pub Pending-Holds :
      (o : Option (Reflection cdr)) (marks : List Bool) → Pending o marks → Holds cdr o marks
  Pending-Holds none marks h = tt
  Pending-Holds (some r) marks h = laws.finishes r.decoder ∙ h

  -- A decoder's answer, on a pipeline that keeps raw bytes.
  decided-Pending :
      (p : Pipeline cdr) (r : Reflection cdr) (message : Bytes) (answer : Decoded × cdr.State)
      → cdr.decode_message r.decoder message ≡ answer
      → p.keep_raw ≡ true
      → laws.pending r.decoder ≡ count_true p.rows.decoded
      → Pending
          (decided cdr p r answer).1.reflection
          ((decided cdr p r answer).1.rows.decoded ++ (decided cdr p r answer).0 ∷ [])
  decided-Pending p r message (decoded, state) e t h =
      let more = laws.decodes r.decoder message (ap (λ x. x.0) e) in
      let here : (cdr.decode_message r.decoder message).1 ≡ state = ap (λ x. x.1) e in
      omega (arith, sym (ap laws.pending here), more, h, count_true-append p.rows.decoded true)
  decided-Pending p r message (cancelled, state) e t h =
      let more = laws.cancels r.decoder message (ap (λ x. x.0) e) in
      let here : (cdr.decode_message r.decoder message).1 ≡ state = ap (λ x. x.1) e in
      omega (arith, sym (ap laws.pending here), more, h, count_true-append p.rows.decoded false)
  decided-Pending p r message (unrecoverable, state) e t h =
      let left : Bool → Bool × Pipeline cdr = λ b.
        if b
        then (false, record p { reflection = none })
        else (false, record p { reflection = none; bytes = 0; rows = no_rows }) in
      subst
        (λ (b : Bool). Pending (left b).1.reflection ((left b).1.rows.decoded ++ (left b).0 ∷ []))
        (sym t) tt

  pub push_entry-Pending :
      (e : Entry) (p : Pipeline cdr)
      → p.keep_raw ≡ true
      → Pending p.reflection p.rows.decoded
      → Pending (push_entry cdr e p).reflection (push_entry cdr e p).rows.decoded
  unfolding push_entry append push_row decode
  push_entry-Pending e p t h = from p.reflection refl h
    where
      step : Option (Reflection cdr) → Bool × Pipeline cdr
      step o = elim o [
        | none ↦ (false, p)
        | some r ↦ decided cdr p r (cdr.decode_message r.decoder e.message)
      ]

      from :
          (o : Option (Reflection cdr))
          → p.reflection ≡ o
          → Pending o p.rows.decoded
          → Pending (step o).1.reflection ((step o).1.rows.decoded ++ (step o).0 ∷ [])
      from none same k = subst (λ r. Pending r (p.rows.decoded ++ false ∷ [])) (sym same) tt
      from (some r) same k =
          decided-Pending p r e.message (cdr.decode_message r.decoder e.message) refl t k
