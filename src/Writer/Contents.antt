-- ===== src/Writer/Contents.antt =====
-- Where the messages of a recording are: in the chunks of its file, or buffered by a topic.
use mathlib.Core.List.{append_assoc, append-nil}
use rosbag2_storage_rrd.Base.{
  some_inj, sym, set, ◌∙◌, ap, get_elem?, if◌then◌else◌, ◌+◌, ◌++◌, ℕ, ◌≡◌, Bool, List, zero, suc,
  some, ok, refl, arith, [], ◌∷◌,
}
use rosbag2_storage_rrd.Recorded.{Entry}
use rosbag2_storage_rrd.Writer.{Buffer, Recording, Topic, Writer, send_chunk, send_chunks}

abbrev pub contents : {C : Type 0} → (C → List Entry) → List C → List Entry
contents content [] = []
contents content (c ∷ cs) = content c ++ contents content cs

-- What a buffer of messages promises, given which messages a chunk carries: it holds what was pushed
-- into it until a flush hands that out.
pub record Keeping {C : Type 0} (buffer : Buffer C) (content : C → List Entry) : Type 1 where
  pub IsValid : buffer.State → Type 0
  pub held : buffer.State → List Entry
  pub pushed :
      (e : Entry) (state : buffer.State)
      → IsValid state
      → IsValid (buffer.push e.message e.recv e.send e.sequence state)
        × (held (buffer.push e.message e.recv e.send e.sequence state) ≡ held state ++ e ∷ [])
  pub flushes :
      (state : buffer.State)
      → IsValid state
      → (chunks : List C) × ((buffer.flush state).0 ≡ ok chunks)
        × (contents content chunks ≡ held state)
        × IsValid (buffer.flush state).1
        × (held (buffer.flush state).1 ≡ [])

-- How often a message that passes the test occurs.
abbrev pub count : (Entry → Bool) → List Entry → ℕ
count P [] = 0
count P (e ∷ es) = (if P e then 1 else 0) + count P es

pub count-append :
    (P : Entry → Bool) (xs ys : List Entry) → count P (xs ++ ys) ≡ count P xs + count P ys
count-append P [] ys = omega arith
count-append P (x ∷ xs) ys = omega (arith, count-append P xs ys)

module _ {C : Type 0} (content : C → List Entry) (P : Entry → Bool) where
  -- The messages of the file's chunks.
  abbrev pub on_file : Recording C → ℕ
  on_file rec = count P (contents content rec.file)

  pub contents-append :
      (xs ys : List C) → contents content (xs ++ ys) ≡ contents content xs ++ contents content ys
  contents-append [] ys = refl
  contents-append (x ∷ xs) ys =
      ap (λ l. content x ++ l) (contents-append xs ys)
      ∙ sym (append_assoc (content x) (contents content xs) (contents content ys))

  pub on_file-send_chunk :
      (chunk : C) (rec : Recording C)
      → on_file (send_chunk chunk rec) ≡ on_file rec + count P (content chunk)
  unfolding send_chunk
  on_file-send_chunk chunk rec =
      ap (count P) (contents-append rec.file (chunk ∷ []))
      ∙ count-append P (contents content rec.file) (content chunk ++ [])
      ∙ ap (λ l. on_file rec + count P l) (append-nil (content chunk))

  pub on_file-send_chunks :
      (chunks : List C) (rec : Recording C)
      → on_file (send_chunks chunks rec) ≡ on_file rec + count P (contents content chunks)
  unfolding send_chunks
  on_file-send_chunks [] rec = omega arith
  on_file-send_chunks (chunk ∷ rest) rec = omega (
    arith,
    on_file-send_chunks rest (send_chunk chunk rec),
    on_file-send_chunk chunk rec,
    count-append P (content chunk) (contents content rest),
  )

module _ {C : Type 0} (buffer : Buffer C) (content : C → List Entry)
    (keeping : Keeping buffer content) (P : Entry → Bool) where
  abbrev pub in_topic : Topic buffer → ℕ
  in_topic t = count P (keeping.held t.pipeline)

  abbrev pub in_topics : List (Topic buffer) → ℕ
  in_topics [] = 0
  in_topics (t ∷ ts) = in_topic t + in_topics ts

  abbrev pub IsKept : Topic buffer → Type 0
  IsKept t = keeping.IsValid t.pipeline

  -- The messages of the recording.
  abbrev pub in_writer : Writer buffer → ℕ
  in_writer w = on_file content P w.rec + in_topics w.topics

  pub in_topics-set :
      (ts : List (Topic buffer)) (i : ℕ) (t t' : Topic buffer)
      → get_elem? ts i ≡ some t
      → in_topics (set ts i t') + in_topic t ≡ in_topics ts + in_topic t'
  in_topics-set [] i t t' e = cc
  in_topics-set (u ∷ ts) zero t t' e =
      let same : in_topic u ≡ in_topic t = ap in_topic (some_inj e) in omega (arith, same)
  in_topics-set (u ∷ ts) (suc i) t t' e = omega (arith, in_topics-set ts i t t' e)

  pub in_topics-append :
      (ts : List (Topic buffer)) (t : Topic buffer)
      → in_topics (ts ++ t ∷ []) ≡ in_topics ts + in_topic t
  in_topics-append [] t = omega arith
  in_topics-append (u ∷ ts) t = omega (arith, in_topics-append ts t)
