-- ===== src/Recorded/Pushes.antt =====
-- Messages pushed into a pipeline of pipeline.rs that keeps raw bytes are all buffered, whatever the
-- decoder answers.
use rosbag2_storage_rrd.Base.{
  not, ◌||◌, ◌∙◌, if◌then◌else◌, ap, Bool, sym, Option, ◌++◌, map, subst, List, ◌≡◌, true, false,
  some, none, refl, [],
}
use rosbag2_storage_rrd.Pipeline.{no_rows, CdrDecoder, Decoded, Rows, push_row, push_times}
use rosbag2_storage_rrd.Pipeline.{decoded, cancelled, unrecoverable}
use rosbag2_storage_rrd.Pipeline.Flow.{blob_of, Pipeline, Reflection, append, decided, decode, push}
use rosbag2_storage_rrd.Recorded.{Bytes, Entry}
use mathlib.Core.List.{append-nil, ◌∷◌, append_assoc}

-- The buffered rows are the entries with their raw bytes.
pub record IsRaw (entries : List Entry) (rows : Rows) : Type 0 where
  pub recv : rows.times.recv ≡ map (λ (e : Entry). e.recv) entries
  pub send : rows.times.send ≡ map (λ (e : Entry). e.send) entries
  pub sequence : rows.times.sequence ≡ map (λ (e : Entry). e.sequence) entries
  pub blobs : rows.blobs ≡ map (λ (e : Entry). some e.message) entries

map-snoc :
    {A : Type 0} (f : Entry → A) (entries : List Entry) (e : Entry) (xs : List A)
    → xs ≡ map f entries
    → xs ++ f e ∷ [] ≡ map f (entries ++ e ∷ [])
map-snoc f [] e xs h = ap (λ l. l ++ f e ∷ []) h
map-snoc f (x ∷ entries) e xs h =
    ap (λ l. l ++ f e ∷ []) h ∙ ap (◌∷◌ (f x)) (map-snoc f entries e (map f entries) refl)

module _ (cdr : CdrDecoder) where
  -- What a decoder's answer leaves of a pipeline that keeps raw bytes.
  pub record Keeps (p q : Pipeline cdr) : Type 0 where
    pub raw : q.keep_raw ≡ true
    pub rows : q.rows ≡ p.rows
    pub entity : q.entity ≡ p.entity
    pub lenses : q.lenses ≡ p.lenses

  decided-Keeps :
      (p : Pipeline cdr) (r : Reflection cdr) (answer : Decoded × cdr.State)
      → p.keep_raw ≡ true
      → Keeps p (decided cdr p r answer).1
  decided-Keeps p r (decoded, state) t = record {
    raw = t;
    rows = refl;
    entity = refl;
    lenses = refl;
  }
  decided-Keeps p r (cancelled, state) t = record {
    raw = t;
    rows = refl;
    entity = refl;
    lenses = refl;
  }
  decided-Keeps p r (unrecoverable, state) t =
      let left : Bool → Bool × Pipeline cdr = λ b.
        if b
        then (false, record p { reflection = none })
        else (false, record p { reflection = none; bytes = 0; rows = no_rows }) in
      subst (λ (b : Bool). Keeps p (left b).1) (sym t)
        (record { raw = t; rows = refl; entity = refl; lenses = refl })

  decode-Keeps :
      (message : Bytes) (p : Pipeline cdr) → p.keep_raw ≡ true → Keeps p (decode cdr message p).1
  unfolding decode
  decode-Keeps message p t = from p.reflection
    where
      step : Option (Reflection cdr) → Bool × Pipeline cdr
      step o = elim o [
        | none ↦ (false, p)
        | some r ↦ decided cdr p r (cdr.decode_message r.decoder message)
      ]

      from : (o : Option (Reflection cdr)) → Keeps p (step o).1
      from none = record { raw = t; rows = refl; entity = refl; lenses = refl }
      from (some r) = decided-Keeps p r (cdr.decode_message r.decoder message) t

  unfoldable pub push_entry : Entry → Pipeline cdr → Pipeline cdr
  unfolding push
  push_entry e p = push cdr e.message e.recv e.send e.sequence p

  unfoldable pub push_entries : List Entry → Pipeline cdr → Pipeline cdr
  unfolding push_entry
  push_entries [] p = p
  push_entries (e ∷ entries) p = push_entries entries (push_entry e p)

  -- A pipeline that keeps raw bytes and has buffered the entries.
  pub record HasBuffered (entries : List Entry) (p q : Pipeline cdr) : Type 0 where
    pub raw : q.keep_raw ≡ true
    pub rows : IsRaw entries q.rows
    pub entity : q.entity ≡ p.entity
    pub lenses : q.lenses ≡ p.lenses

  pub push_entry-HasBuffered :
      (before : List Entry) (e : Entry) (p q : Pipeline cdr)
      → HasBuffered before p q
      → HasBuffered (before ++ e ∷ []) p (push_entry e q)
  unfolding push_entry append push_row push_times
  push_entry-HasBuffered before e p q v =
      let (d, after) = decode cdr e.message q in
      let k = decode-Keeps e.message q v.raw in
      let blob : blob_of cdr (after.keep_raw || not d) e.message ≡ some e.message =
        ap (λ (b : Bool). blob_of cdr (b || not d) e.message) k.raw in
      record {
        raw = k.raw;
        rows = record {
          recv =
              ap (λ (r : Rows). r.times.recv ++ e.recv ∷ []) k.rows
              ∙ map-snoc (λ (x : Entry). x.recv) before e q.rows.times.recv v.rows.recv;
          send =
              ap (λ (r : Rows). r.times.send ++ e.send ∷ []) k.rows
              ∙ map-snoc (λ (x : Entry). x.send) before e q.rows.times.send v.rows.send;
          sequence =
              ap (λ (r : Rows). r.times.sequence ++ e.sequence ∷ []) k.rows
              ∙ map-snoc (λ (x : Entry). x.sequence) before e q.rows.times.sequence v.rows.sequence;
          blobs =
              ap (λ (b : Option Bytes). after.rows.blobs ++ b ∷ []) blob
              ∙ ap (λ (r : Rows). r.blobs ++ some e.message ∷ []) k.rows
              ∙ map-snoc (λ (x : Entry). some x.message) before e q.rows.blobs v.rows.blobs;
        };
        entity = k.entity ∙ v.entity;
        lenses = k.lenses ∙ v.lenses;
      }

  pub push_entries-HasBuffered :
      (before entries : List Entry) (p q : Pipeline cdr)
      → HasBuffered before p q
      → HasBuffered (before ++ entries) p (push_entries entries q)
  unfolding push_entries
  push_entries-HasBuffered before [] p q v =
      subst (λ es. HasBuffered es p q) (sym (append-nil before)) v
  push_entries-HasBuffered before (e ∷ entries) p q v =
      subst (λ es. HasBuffered es p (push_entries entries (push_entry e q)))
        (append_assoc before (e ∷ []) entries)
        (push_entries-HasBuffered (before ++ e ∷ []) entries p (push_entry e q)
          (push_entry-HasBuffered before e p q v))
