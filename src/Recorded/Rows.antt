-- ===== src/Recorded/Rows.antt =====
-- The rows that the reader of reader.rs has for a chunk of recorded messages, in either direction.
use rosbag2_storage_rrd.Arrow.{i64_zero}
use mathlib.Core.List.{reverse-cons}
use rosbag2_storage_rrd.Reader.Steps.{message_at, payload}
use rosbag2_storage_rrd.Reader.Merge.{rows, rows_from, row_at, Row}
use rosbag2_storage_rrd.Reader.{Message, topic_at, Reader}
use rosbag2_storage_rrd.Reader.Windows.{data_row, sequence_number, Window, TopicInfo}
use rosbag2_storage_rrd.Replay.{CdrWriter}
use rosbag2_storage_rrd.Base.{
  ◌-◌, ◌+◌, length-map, get_elem?_of_drop-cons, length, drop, ◌>>=◌, arith, get_or-get_elem?,
  get_or, Result, sym, ◌∙◌, ap, ◌≡◌, reverse, get_elem?, ◌++◌, if◌then◌else◌, map, ℕ, Bool, List,
  String, zero, suc, some, ok, refl, [], ◌∷◌,
}
use rosbag2_storage_rrd.Recorded.{Bytes, Entry}

-- The row a message is replayed as, on the topic of that name.
abbrev pub replayed_row : String → Entry → Row
replayed_row name e = (
  (e.recv, e.sequence),
  ok (record {
    topic_name = name;
    recv_timestamp = e.recv;
    send_timestamp = e.send;
    bytes = e.message;
  }),
)

-- Reverse playback goes from the last message to the first.
abbrev pub in_direction : Bool → List Entry → List Entry
in_direction b entries = if b then reverse entries else entries

pub map-append {ℓ κ} :
    {A : Type ℓ} {B : Type κ} (f : A → B) (xs ys : List A) → map f (xs ++ ys) ≡ map f xs ++ map f ys
map-append f [] ys = refl
map-append f (x ∷ xs) ys = ap (◌∷◌ (f x)) (map-append f xs ys)

pub map-reverse {ℓ κ} :
    {A : Type ℓ} {B : Type κ} (f : A → B) (xs : List A) → map f (reverse xs) ≡ reverse (map f xs)
map-reverse f [] = refl
map-reverse f (x ∷ xs) =
    ap (map f) (reverse-cons x xs)
    ∙ map-append f (reverse xs) (x ∷ [])
    ∙ ap (λ l. l ++ f x ∷ []) (map-reverse f xs)
    ∙ sym (reverse-cons (f x) (map f xs))

pub get_elem?-map {ℓ κ} :
    {A : Type ℓ} {B : Type κ} (f : A → B) (xs : List A) (i : ℕ) {x : A}
    → get_elem? xs i ≡ some x
    → get_elem? (map f xs) i ≡ some (f x)
get_elem?-map f [] i e = cc
get_elem?-map f (x ∷ xs) zero e = cc
get_elem?-map f (x ∷ xs) (suc i) e = get_elem?-map f xs i e

module _ (cdr : CdrWriter) where
  -- A window whose rows are the entries, none of them emitted yet.
  pub record Describes (info : TopicInfo) (w : Window) (entries : List Entry) : Type 0 where
    pub recv : w.recv_timestamps ≡ map (λ (e : Entry). e.recv) entries
    pub send : w.send_timestamps ≡ map (λ (e : Entry). e.send) entries
    pub sequence : w.sequence_numbers ≡ map (λ (e : Entry). e.sequence) entries
    pub fresh : w.next ≡ 0
    pub bytes :
        (i : ℕ) (e : Entry)
        → get_elem? entries i ≡ some e
        → payload cdr info w (data_row w i) ≡ ok e.message

  module _ (s : Reader) (info : TopicInfo) (w : Window) where
    row_at-replayed_row :
        (entries : List Entry) (i : ℕ) (e : Entry)
        → Describes info w entries
        → topic_at s w.topic ≡ ok info
        → get_elem? entries i ≡ some e
        → row_at cdr s w i ≡ replayed_row info.name e
    unfolding row_at sequence_number message_at
    row_at-replayed_row entries i e d topic at =
        let recv : (z : ℕ) → get_or w.recv_timestamps i z ≡ e.recv = λ z.
          ap (λ l. get_or l i z) d.recv
          ∙ get_or-get_elem? (map (λ (x : Entry). x.recv) entries) i z
              (get_elem?-map (λ (x : Entry). x.recv) entries i at) in
        let send : (z : ℕ) → get_or w.send_timestamps i z ≡ e.send = λ z.
          ap (λ l. get_or l i z) d.send
          ∙ get_or-get_elem? (map (λ (x : Entry). x.send) entries) i z
              (get_elem?-map (λ (x : Entry). x.send) entries i at) in
        let sequence : get_or w.sequence_numbers i i64_zero ≡ e.sequence =
          ap (λ l. get_or l i i64_zero) d.sequence
          ∙ get_or-get_elem? (map (λ (x : Entry). x.sequence) entries) i i64_zero
              (get_elem?-map (λ (x : Entry). x.sequence) entries i at) in
        let found : (topic_at s w.topic >>= λ t. message_at cdr t w i) ≡ message_at cdr info w i =
          ap (λ (f : Result TopicInfo). f >>= λ t. message_at cdr t w i) topic in
        let paid : message_at cdr info w i
            ≡ ok (
                made e.message (get_or w.recv_timestamps i i64_zero)
                  (get_or w.send_timestamps i (get_or w.recv_timestamps i i64_zero))) =
          ap (finish (get_or w.recv_timestamps i i64_zero)) (d.bytes i e at) in
        row_of (recv i64_zero) (send (get_or w.recv_timestamps i i64_zero)) sequence (found ∙ paid)
      where
        made : Bytes → ℕ → ℕ → Message
        made bytes recv send = record {
          topic_name = info.name;
          recv_timestamp = recv;
          send_timestamp = send;
          bytes = bytes;
        }

        finish : ℕ → Result Bytes → Result Message
        finish recv bytes = bytes >>= λ b. ok (made b recv (get_or w.send_timestamps i recv))

        row_of :
            {a b c : ℕ} {m : Result Message}
            → a ≡ e.recv
            → b ≡ e.send
            → c ≡ e.sequence
            → m ≡ ok (made e.message a b)
            → ((a, c), m) ≡ replayed_row info.name e
        row_of ea eb ec em = cc

    rows_from-replayed_row :
        (entries : List Entry) (i : ℕ) (rest : List Entry)
        → Describes info w entries
        → topic_at s w.topic ≡ ok info
        → drop i entries ≡ rest
        → rows_from cdr s w i (length rest) ≡ map (replayed_row info.name) rest
    unfolding rows_from
    rows_from-replayed_row entries i [] d topic left = refl
    rows_from-replayed_row entries i (e ∷ rest) d topic left =
        let (at, left') = get_elem?_of_drop-cons entries i e rest left in
        let one : i + 1 ≡ suc i = omega arith in
        let first = row_at-replayed_row entries i e d topic at in
        let others = rows_from-replayed_row entries (i + 1) rest d topic (rw one left') in
        ap (λ x. x ∷ rows_from cdr s w (i + 1) (length rest)) first
        ∙ ap (◌∷◌ (replayed_row info.name e)) others

    -- The rows of such a window are the entries as they are replayed.
    pub rows-replayed_row :
        (entries : List Entry)
        → Describes info w entries
        → topic_at s w.topic ≡ ok info
        → rows cdr s w ≡ map (replayed_row info.name) entries
    unfolding rows
    rows-replayed_row entries d topic =
        let long : length w.recv_timestamps ≡ length entries =
          ap length d.recv ∙ length-map (λ (x : Entry). x.recv) entries in
        let many : length w.recv_timestamps - w.next ≡ length entries =
          omega (arith, long, d.fresh) in
        ap (λ n. rows_from cdr s w n (length w.recv_timestamps - w.next)) d.fresh
        ∙ ap (rows_from cdr s w 0) many
        ∙ rows_from-replayed_row entries 0 entries d topic refl
