-- ===== src/Pipeline/Buffer.antt =====
-- The rows that a pipeline buffers: whatever the decoder answers, the columns cover the same rows,
-- and every row has a form.
use rosbag2_storage_rrd.Pipeline.{decoded, cancelled, unrecoverable}
use rosbag2_storage_rrd.Pipeline.Flow.{decided, blob_of, Reflection, Pipeline, decode, append, push}
use rosbag2_storage_rrd.Base.{
  if◌then◌else◌, Bool-cases, ◌∙◌, sym, subst, length-append, ◌+◌, false, inl, inr, not, ◌||◌, ap,
  ◌⊎◌, ◌∷◌, ◌≡◌, ◌++◌, ℕ, Option, length, Bool, List, true, suc, some, none, refl, arith, [],
}
use rosbag2_storage_rrd.Pipeline.{
  Decoded, added, CdrDecoder, Bytes, decoded, Rows, push_row, push_times, no_rows,
}

abbrev pub count_some : List (Option Bytes) → ℕ
count_some [] = 0
count_some (b ∷ bs) = count_head b (count_some bs)
  where
    count_head : Option Bytes → ℕ → ℕ
    count_head none n = n
    count_head (some cdr) n = suc n

-- Every row is decoded or has its raw bytes.
abbrev pub HasForms : List (Option Bytes) → List Bool → Type 0
HasForms (b ∷ bs) (d ∷ ds) = ((d ≡ true) ⊎ ((cdr : Bytes) × (b ≡ some cdr))) × HasForms bs ds
HasForms bs ds = length bs ≡ length ds

HasForms-append :
    (bs : List (Option Bytes)) (ds : List Bool) (b : Option Bytes) (d : Bool)
    → HasForms bs ds
    → (d ≡ true) ⊎ ((cdr : Bytes) × (b ≡ some cdr))
    → HasForms (bs ++ b ∷ []) (ds ++ d ∷ [])
HasForms-append [] [] b d h x = (x, refl)
HasForms-append [] (e ∷ ds) b d h x = absurd (omega arith)
HasForms-append (c ∷ bs) [] b d h x = absurd (omega arith)
HasForms-append (c ∷ bs) (e ∷ ds) b d h x = (h.0, HasForms-append bs ds b d h.1 x)

-- The columns of the buffered rows line up, `blob_rows` counts the blobs, every row has a form, and
-- its raw bytes if they are kept.
pub record IsAligned (keep_raw : Bool) (rows : Rows) : Type 0 where
  pub sends : length rows.times.send ≡ length rows.times.recv
  pub sequences : length rows.times.sequence ≡ length rows.times.recv
  pub blobs : length rows.blobs ≡ length rows.times.recv
  pub marks : length rows.decoded ≡ length rows.times.recv
  pub counted : rows.blob_rows ≡ count_some rows.blobs
  pub forms : HasForms rows.blobs rows.decoded
  pub kept : keep_raw ≡ true → count_some rows.blobs ≡ length rows.blobs

pub IsAligned-no_rows : (k : Bool) → IsAligned k no_rows
IsAligned-no_rows k = record {
  sends = refl;
  sequences = refl;
  blobs = refl;
  marks = refl;
  counted = refl;
  forms = refl;
  kept = λ t. refl;
}

count_some-none : (bs : List (Option Bytes)) → count_some (bs ++ none ∷ []) ≡ count_some bs
count_some-none [] = refl
count_some-none (none ∷ bs) = count_some-none bs
count_some-none (some c ∷ bs) = ap suc (count_some-none bs)

count_some-some :
    (bs : List (Option Bytes)) (c : Bytes) → count_some (bs ++ some c ∷ []) ≡ suc (count_some bs)
count_some-some [] c = refl
count_some-some (none ∷ bs) c = count_some-some bs c
count_some-some (some d ∷ bs) c = ap suc (count_some-some bs c)

push_row-IsAligned :
    (k : Bool) (b : Option Bytes) (d : Bool) (recv send sequence : ℕ) (rows : Rows)
    → IsAligned k rows
    → (d ≡ true) ⊎ ((cdr : Bytes) × (b ≡ some cdr))
    → (k ≡ true → (cdr : Bytes) × (b ≡ some cdr))
    → IsAligned k (push_row b d recv send sequence rows)
unfolding push_row push_times
push_row-IsAligned k b d recv send sequence rows v form raw_kept = record {
  sends = omega (arith, v.sends, length-append rows.times.send (send ∷ []), grown);
  sequences = omega (arith, v.sequences, length-append rows.times.sequence (sequence ∷ []), grown);
  blobs = omega (arith, v.blobs, length-append rows.blobs (b ∷ []), grown);
  marks = omega (arith, v.marks, length-append rows.decoded (d ∷ []), grown);
  counted = counted b;
  forms = HasForms-append rows.blobs rows.decoded b d v.forms form;
  kept = λ t. all_kept b (v.kept t) (raw_kept t);
}
  where
    grown : length (rows.times.recv ++ recv ∷ []) ≡ length rows.times.recv + 1
    grown = length-append rows.times.recv (recv ∷ [])

    counted : (c : Option Bytes) → added c rows.blob_rows ≡ count_some (rows.blobs ++ c ∷ [])
    counted none = v.counted ∙ sym (count_some-none rows.blobs)
    counted (some x) = omega (arith, v.counted, count_some-some rows.blobs x)

    all_kept :
        (c : Option Bytes)
        → count_some rows.blobs ≡ length rows.blobs
        → (cdr : Bytes) × (c ≡ some cdr)
        → count_some (rows.blobs ++ c ∷ []) ≡ length (rows.blobs ++ c ∷ [])
    all_kept none same x = cc
    all_kept (some y) same x =
        omega (arith, same, count_some-some rows.blobs y, length-append rows.blobs (some y ∷ []))

module _ (cdr : CdrDecoder) where
  append-IsAligned :
      (message : Bytes) (recv send sequence : ℕ) (d : Bool) (p : Pipeline cdr)
      → IsAligned p.keep_raw p.rows
      → IsAligned p.keep_raw (append cdr message recv send sequence (d, p)).rows
  unfolding append
  append-IsAligned message recv send sequence d p v =
      push_row-IsAligned p.keep_raw (blob_of cdr (p.keep_raw || not d) message) d recv send sequence
        p.rows v (form p.keep_raw d) (raw_kept p.keep_raw)
    where
      form : (k e : Bool) → (e ≡ true) ⊎ ((c : Bytes) × (blob_of cdr (k || not e) message ≡ some c))
      form k true = inl refl
      form true false = inr (message, refl)
      form false false = inr (message, refl)

      raw_kept : (k : Bool) → k ≡ true → (c : Bytes) × (blob_of cdr (k || not d) message ≡ some c)
      raw_kept true t = (message, refl)
      raw_kept false t = cc

  decided-IsAligned :
      (p : Pipeline cdr) (r : Reflection cdr) (answer : Decoded × cdr.State)
      → IsAligned p.keep_raw p.rows
      → ((decided cdr p r answer).1.keep_raw ≡ p.keep_raw)
        × IsAligned p.keep_raw (decided cdr p r answer).1.rows
  decided-IsAligned p r (decoded, state) v = (refl, v)
  decided-IsAligned p r (cancelled, state) v = (refl, v)
  decided-IsAligned p r (unrecoverable, state) v =
      let kept : Bool × Pipeline cdr = (false, record p { reflection = none }) in
      let lost : Bool × Pipeline cdr =
        (false, record p { reflection = none; bytes = 0; rows = no_rows }) in
      let goal : Bool → Type 0 = λ b.
        ((if b then kept else lost).1.keep_raw ≡ p.keep_raw)
        × IsAligned p.keep_raw (if b then kept else lost).1.rows in
      elim (Bool-cases p.keep_raw) [
        | inl t ↦ subst goal (sym t) (refl, v)
        | inr t ↦ subst goal (sym t) (refl, IsAligned-no_rows p.keep_raw)
      ]

  decode-IsAligned :
      (message : Bytes) (p : Pipeline cdr)
      → IsAligned p.keep_raw p.rows
      → ((decode cdr message p).1.keep_raw ≡ p.keep_raw)
        × IsAligned p.keep_raw (decode cdr message p).1.rows
  unfolding decode
  decode-IsAligned message p v = from p.reflection
    where
      step : Option (Reflection cdr) → Bool × Pipeline cdr
      step o = elim o [
        | none ↦ (false, p)
        | some r ↦ decided cdr p r (cdr.decode_message r.decoder message)
      ]

      from :
          (o : Option (Reflection cdr))
          → ((step o).1.keep_raw ≡ p.keep_raw) × IsAligned p.keep_raw (step o).1.rows
      from none = (refl, v)
      from (some r) = decided-IsAligned p r (cdr.decode_message r.decoder message) v

  -- If the buffered rows are aligned, buffering a message keeps them aligned, whatever the decoder
  -- answers: the columns have the same length, `blob_rows` counts the blobs, every row is decoded or
  -- has its raw bytes, and each has them if raw is kept. Whether raw is kept does not change.
  pub push-IsAligned :
      (message : Bytes) (recv send sequence : ℕ) (p : Pipeline cdr)
      → IsAligned p.keep_raw p.rows
      → ((push cdr message recv send sequence p).keep_raw ≡ p.keep_raw)
        × IsAligned p.keep_raw (push cdr message recv send sequence p).rows
  unfolding push append
  push-IsAligned message recv send sequence p v =
      let (same, w) = decode-IsAligned message p v in
      let (d, q) = decode cdr message p in
      (
        same,
        subst (λ k. IsAligned k (push cdr message recv send sequence p).rows) same
            (append-IsAligned message recv send sequence (decode cdr message p).0
              (decode cdr message p).1
              (subst (λ k. IsAligned k (decode cdr message p).1.rows) (sym same) w)),
      )
