-- ===== src/Reader/Merge/Delivery.antt =====
-- Each read hands out the row that is due before every other row that is left.

use rosbag2_storage_rrd.Index.Bounds.{IsOrdered}
use rosbag2_storage_rrd.Reader.Pass.{read_chosen, take_chosen, fill, read_next, take_row, next_row}
use rosbag2_storage_rrd.Reader.Merge.Advance.{advance-Advanced}
use rosbag2_storage_rrd.Reader.Steps.{choose, advance}
use rosbag2_storage_rrd.Reader.Merge.Head.{rows-moved, first}
use rosbag2_storage_rrd.Reader.Merge.Horizon.{Beyond}
use mathlib.Core.List.{Permᴰ}
use mathlib.Core.List.Permᴰ
use rosbag2_storage_rrd.Reader.Merge.Pick.{picked, none_left, pick, TimeDue}
use rosbag2_storage_rrd.Reader.Merge.{
  row_at, message_at, playback, rows_unread, rows_of, Due, IsLive, Row,
}
use rosbag2_storage_rrd.Reader.Merge.Fill.{fill-Filled, remaining, IsReady}
use rosbag2_storage_rrd.Replay.{CdrWriter}
use rosbag2_storage_rrd.Reader.{
  and_then, Message, TopicInfo, topic_at, SortKey, Window, wanted, ChunkIndex, Reader, RrdFile,
}
use rosbag2_storage_rrd.Base.{
  ◌>>=◌, ◌∙◌, sym, suc, All-append, subst, ◌++◌, drop, ◌∷◌, All, get_elem?, ap, List, Option, ◌≡◌,
  Result, Bool, ℕ, true, false, some, none, ok, refl, inl, arith, [],
}

-- What holds of every row of a list holds of every row of a permutation of it.
pub All-Permᴰ : (P : Row → Type 0) {xs ys : List Row} → Permᴰ xs ys → All P xs → All P ys
All-Permᴰ P Permᴰ.nil all = tt
All-Permᴰ P (Permᴰ.cons e d) all = (subst P e all.0, All-Permᴰ P d all.1)
All-Permᴰ P (Permᴰ.swap e f) all = (subst P f all.1.0, (subst P e all.0, all.1.1))
All-Permᴰ P (Permᴰ.trans d e) all = All-Permᴰ P e (All-Permᴰ P d all)

module _ (file : RrdFile) (cdr : CdrWriter) (s : Reader) (ix : ChunkIndex) where
  -- The end of the recording, with nothing left; or a message, taken out of what was left, due
  -- before everything that still is, and remembered as the cursor.
  pub data Delivers (r : Reader) (result : Result (Option Message) × Reader) : Type 0 where
    ended :
        (q : Reader) → result ≡ (ok none, q) → remaining file cdr s ix r ≡ [] → Delivers r result
    delivered :
        (k : SortKey) (m : Message) (q : Reader)
        → result ≡ (ok (some m), q)
        → Permᴰ (remaining file cdr s ix r) ((k, ok m) ∷ remaining file cdr s ix q)
        → All (λ x. Due s.is_reverse k x.0) (remaining file cdr s ix q)
        → IsReady file cdr s ix q
        → q.cursor ≡ some k
        → q.position ≡ k.0
        → Delivers r result

  -- Beyond the earliest head, a row is due after whatever is due before that head.
  pub Due-of_Beyond :
      (b : Bool) (k : SortKey) (c : ℕ) (xs : List Row)
      → TimeDue b k.0 c
      → Beyond b c xs
      → All (λ x. Due b k x.0) xs
  Due-of_Beyond false k c [] t h = tt
  Due-of_Beyond true k c [] t h = tt
  Due-of_Beyond false k c (x ∷ xs) t h = (inl (omega arith), Due-of_Beyond false k c xs t h.1)
  Due-of_Beyond true k c (x ∷ xs) t h = (inl (omega arith), Due-of_Beyond true k c xs t h.1)

  pub direction : (r : Reader) → IsReady file cdr s ix r → r.is_reverse ≡ s.is_reverse
  direction r v = ap (λ (q : Reader). q.is_reverse) v.indexed.same_settings

  topic_at-settings : (r : Reader) (t : ℕ) → IsReady file cdr s ix r → topic_at r t ≡ topic_at s t
  topic_at-settings r t v = ap (λ (q : Reader). topic_at q t) v.indexed.same_settings

  wanted-settings :
      (r : Reader) (info : TopicInfo) → IsReady file cdr s ix r → wanted r info ≡ wanted s info
  unfolding wanted
  wanted-settings r info v = ap (λ (q : Reader). wanted q info) v.indexed.same_settings

  -- Taking the picked row.
  take-picked :
      (q : Reader) (i : ℕ) (w : Window) (c : ℕ × ℕ)
      → IsReady file cdr s ix q
      → get_elem? q.window i ≡ some w
      → IsLive cdr s w
      → All (λ x. Due s.is_reverse (first cdr s w).0 x.0) (rows_of cdr s q.window)
      → TimeDue s.is_reverse (first cdr s w).0.0 c.0
      → Beyond s.is_reverse c.0 (rows_unread file cdr s (drop q.at_chunk (playback s ix)))
      → (m : Message) → (first cdr s w).1 ≡ ok m
      → Delivers q (ok (some m), record (advance i q) { cursor = some (first cdr s w).0 })
  take-picked q i w c v at live due time beyond m payload =
      let a = advance-Advanced cdr s q i w at live v.live in
      let unread = rows_unread file cdr s (drop q.at_chunk (playback s ix)) in
      let q' : Reader = record q {
        window = a.windows;
        position = a.position;
        cursor = some (first cdr s w).0;
      } in
      let moves : Path (Result (Option Message) × Reader)
          (ok (some m), record (advance i q) { cursor = some (first cdr s w).0 })
          (ok (some m), q') =
        ap (λ (p : Reader). (ok (some m), record p { cursor = some (first cdr s w).0 })) a.moves in
      let perm : Permᴰ (remaining file cdr s ix q)
          (((first cdr s w).0, ok m) ∷ rows_of cdr s a.windows ++ unread) =
        subst
          (λ (p : Result Message).
            Permᴰ (remaining file cdr s ix q)
              (((first cdr s w).0, p) ∷ rows_of cdr s a.windows ++ unread))
          payload (Permᴰ.append_right unread a.perm) in
      delivered (first cdr s w).0 m q' moves perm
        (All-append (λ x. Due s.is_reverse (first cdr s w).0 x.0) (rows_of cdr s a.windows) unread
          (All-Permᴰ (λ x. Due s.is_reverse (first cdr s w).0 x.0) a.perm due).1
          (Due-of_Beyond s.is_reverse (first cdr s w).0 c.0 unread time beyond))
        (record {
          indexed = record { same_settings = v.indexed.same_settings; indexed = v.indexed.indexed };
          live = a.live;
          loads = v.loads;
        })
        refl a.placed

  -- The payload of the row at a live window's cursor.
  readable-first : (w : Window) → IsLive cdr s w → (m : Message) × ((first cdr s w).1 ≡ ok m)
  readable-first w live =
      (subst (All λ x. (m : Message) × (x.1 ≡ ok m)) (rows-moved cdr s w live.room) live.readable).0

  Delivers-kept :
      (q r : Reader) {result : Result (Option Message) × Reader}
      → remaining file cdr s ix q ≡ remaining file cdr s ix r
      → Delivers q result
      → Delivers r result
  Delivers-kept q r e (ended p same empty) = ended p same (sym e ∙ empty)
  Delivers-kept q r e (delivered k m p same perm due ready cursor placed) =
      delivered k m p same (subst (λ xs. Permᴰ xs ((k, ok m) ∷ remaining file cdr s ix p)) e perm)
        due ready cursor placed

  pub next_row-filled :
      (r q : Reader) → fill file r ≡ (ok tt, q) → next_row file r ≡ (ok (choose q), q)
  unfolding next_row
  next_row-filled r q e = rw e refl

  take_row-chosen :
      (r q : Reader) (i : ℕ) (w : Window) (m : Message)
      → IsReady file cdr s ix q
      → fill file r ≡ (ok tt, q)
      → choose q ≡ some (i, w.next)
      → get_elem? q.window i ≡ some w
      → (first cdr s w).1 ≡ ok m
      → take_row file cdr r
        ≡ (ok (some m), record (advance i q) { cursor = some (first cdr s w).0 })
  unfolding take_row row_at take_chosen
  take_row-chosen r q i w m v e chosen at payload =
      let read : Path (Result Message) (topic_at q w.topic >>= λ info. message_at cdr info w w.next)
          (ok m) =
        ap (λ t. t >>= λ info. message_at cdr info w w.next) (topic_at-settings q w.topic v)
        ∙ payload in
      ap (λ x. and_then x (take_chosen file cdr))
        (next_row-filled r q e ∙ ap (λ (x : Option (ℕ × ℕ)). (ok x, q)) chosen)
      ∙ rw (at, read, take_chosen) refl

  read_next-chosen :
      (n i : ℕ) (r q : Reader) (w : Window) (info : TopicInfo)
      → fill file r ≡ (ok tt, q)
      → choose q ≡ some (i, w.next)
      → get_elem? q.window i ≡ some w
      → topic_at q w.topic ≡ ok info
      → wanted q info ≡ true
      → read_next file cdr (suc n) r ≡ take_row file cdr q
  unfolding read_next read_chosen
  read_next-chosen n i r q w info e chosen at topic passes =
      ap (λ x. and_then x (read_chosen file cdr (read_next file cdr n)))
        (next_row-filled r q e ∙ ap (λ (x : Option (ℕ × ℕ)). (ok x, q)) chosen)
      ∙ rw (at, topic, passes, read_chosen) refl

  read_next-nothing :
      (n : ℕ) (r q : Reader)
      → fill file r ≡ (ok tt, q)
      → choose q ≡ none
      → read_next file cdr (suc n) r ≡ (ok none, q)
  unfolding read_next read_chosen
  read_next-nothing n r q e nothing =
      ap (λ x. and_then x (read_chosen file cdr (read_next file cdr n)))
        (next_row-filled r q e ∙ ap (λ (x : Option (ℕ × ℕ)). (ok x, q)) nothing)

  module _ (ordered : IsOrdered ix) where
    -- On a reader in the middle of a pass over an ordered index, whose chunks hold what the footer
    -- promises: `take_row` succeeds. It answers the end only if no row is left; otherwise it takes one
    -- row out of those left, due before every other, and leaves its key as the cursor.
    pub take_row-Delivers :
        (r : Reader) → IsReady file cdr s ix r → Delivers r (take_row file cdr r)
    unfolding take_row
    take_row-Delivers r v =
        let f = fill-Filled file cdr s ix ordered r v in
        let q : Reader = record r { at_chunk = f.at; window = f.windows } in
        elim (pick cdr s q (direction q f.ready) f.ready.live) [
          | none_left empty nothing ↦
              ended q (rw (next_row-filled r q f.done, nothing) refl) (f.exhausted empty)
          | picked i w chosen at live due c cand time ↦
              let (m, payload) = readable-first w live in
              rw (take_row-chosen r q i w m f.ready f.done chosen at payload) (
                Delivers-kept q r f.kept
                  (take-picked q i w c f.ready at live due time (f.beyond c cand) m payload))
        ]

    -- On a reader in the middle of a pass over an ordered index, whose chunks hold what the footer
    -- promises: `read_next` succeeds. It answers the end only if no row is left; otherwise it takes one
    -- row out of those left, due before every other, and leaves its key as the cursor.
    pub read_next-Delivers :
        (n : ℕ) (r : Reader) → IsReady file cdr s ix r → Delivers r (read_next file cdr (suc n) r)
    read_next-Delivers n r v =
        let f = fill-Filled file cdr s ix ordered r v in
        let q : Reader = record r { at_chunk = f.at; window = f.windows } in
        elim (pick cdr s q (direction q f.ready) f.ready.live) [
          | none_left empty nothing ↦
              ended q (read_next-nothing n r q f.done nothing) (f.exhausted empty)
          | picked i w chosen at live due c cand time ↦
              let topic = topic_at-settings q w.topic f.ready ∙ live.topic in
              let passes = wanted-settings q live.info f.ready ∙ live.wanted in
              subst (Delivers r)
                (sym (read_next-chosen n i r q w live.info f.done chosen at topic passes))
                (Delivers-kept q r f.kept (take_row-Delivers q f.ready))
        ]
