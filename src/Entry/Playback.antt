-- ===== src/Entry/Playback.antt =====
-- Playback through `rrd_reader_next` of lib.rs: what the C++ plugin reads from the handle.
use rosbag2_storage_rrd.Reader.Merge.Delivery.{All-Permᴰ, delivered, ended, read_next-Delivers}
use rosbag2_storage_rrd.Reader.Merge.Drain.{length-Permᴰ, successes, payloads}
use rosbag2_storage_rrd.Reader.Merge.{Due, IsMerged, Row}
use rosbag2_storage_rrd.Reader.Windows.{SortKey}
use rosbag2_storage_rrd.Index.Bounds.{IsOrdered}
use rosbag2_storage_rrd.Base.{
  ◌∙◌, All, ◌<◌, map, length, ap, Result, refl, arith, ◌∷◌, List, ◌≡◌, Option, ℕ, true, zero, suc,
  some, none, ok, [],
}
use rosbag2_storage_rrd.Entry.{on_handle, answer, Answer, Host}
use rosbag2_storage_rrd.Entry.Reading.{
  next_status, shown, NextStatus, RrdMessage, minus_one, one, rrd_reader_next, shown_message,
}
use rosbag2_storage_rrd.Ffi.{success, Slot}
use rosbag2_storage_rrd.Index.{ChunkIndex}
use rosbag2_storage_rrd.Reader.{and_then, Message, Reader, RrdFile}
use rosbag2_storage_rrd.Reader.Merge.Fill.{remaining, IsReady}
use rosbag2_storage_rrd.Reader.Pass.{read_next}
use rosbag2_storage_rrd.Replay.{CdrWriter}
use mathlib.Core.List.{Permᴰ}

module _ (host : Host) (file : RrdFile) (cdr : CdrWriter) where
  abbrev listed : Option RrdMessage → List RrdMessage → List RrdMessage
  listed none ms = ms
  listed (some m) ms = m ∷ ms

  -- What follows an answer: the next call as long as there was a message.
  abbrev pub after_next :
      (Slot → Option Reader → List RrdMessage × NextStatus)
      → NextStatus × Answer Reader RrdMessage
      → List RrdMessage × NextStatus
  after_next again (one, a) = let (ms, last) = again a.slot a.handle in (listed a.written ms, last)
  after_next again (status, a) = ([], status)

  -- Calls `rrd_reader_next` until it does not return 1: the messages, and what it returned last.
  unfoldable pub play : ℕ → Slot → Option Reader → List RrdMessage × NextStatus
  unfolding rrd_reader_next
  play zero slot handle = ([], minus_one)
  play (suc fuel) slot handle =
      after_next (play fuel) (rrd_reader_next host file cdr (suc fuel) true slot handle)

  abbrev kept : Option Message → Reader → Reader
  kept message q = record q { last_message = message }

  -- The entry point, as a function of what `read_next` answers.
  abbrev finish :
      Slot → Reader → Result (Option Message) × Reader → NextStatus × Answer Reader RrdMessage
  finish slot r x =
      let a = answer host "rrd_reader_next" slot (
        on_handle "null reader handle"
          (λ (q : Reader).
            shown (and_then x λ message r'. (ok message, record r' { last_message = message })))
          (some r)) in
      (next_status a.status a.written, a)

  next-message :
      (fuel : ℕ) (slot : Slot) (r q : Reader) (m : Message)
      → read_next file cdr fuel r ≡ (ok (some m), q)
      → rrd_reader_next host file cdr fuel true slot (some r) ≡ (
        one,
        record {
          status = success;
          slot = slot;
          handle = some (kept (some m) q);
          written = some (shown_message m);
        },
      )
  unfolding rrd_reader_next
  next-message fuel slot r q m e = ap (finish slot r) e

  next-end :
      (fuel : ℕ) (slot : Slot) (r q : Reader)
      → read_next file cdr fuel r ≡ (ok none, q)
      → rrd_reader_next host file cdr fuel true slot (some r) ≡ (
        NextStatus.zero,
        record { status = success; slot = slot; handle = some (kept none q); written = none },
      )
  unfolding rrd_reader_next
  next-end fuel slot r q e = ap (finish slot r) e

  module _ (s : Reader) (ix : ChunkIndex) where
    IsReady-kept :
        (message : Option Message) (q : Reader)
        → IsReady file cdr s ix q
        → IsReady file cdr s ix (kept message q)
    IsReady-kept message q v = record {
      indexed = record { same_settings = v.indexed.same_settings; indexed = v.indexed.indexed };
      live = v.live;
      loads = v.loads;
    }

    remaining-kept :
        (message : Option Message) (q : Reader)
        → remaining file cdr s ix (kept message q) ≡ remaining file cdr s ix q
    remaining-kept message q = refl

    -- The messages played until the end: the rows that were left, each once, in the order due.
    pub record Played (r : Reader) (result : List RrdMessage × NextStatus) : Type 0 where
      pub order : List Row
      pub messages : List Message
      pub done : result ≡ (map shown_message messages, NextStatus.zero)
      pub payload : payloads order ≡ successes messages
      pub perm : Permᴰ (remaining file cdr s ix r) order
      pub merged : IsMerged s.is_reverse order

    Played-cons :
        (fuel : ℕ) (slot : Slot) (r q : Reader) (k : SortKey) (m : Message)
        → read_next file cdr (suc fuel) r ≡ (ok (some m), q)
        → Permᴰ (remaining file cdr s ix r) ((k, ok m) ∷ remaining file cdr s ix q)
        → All (λ x. Due s.is_reverse k x.0) (remaining file cdr s ix q)
        → Played (kept (some m) q) (play fuel slot (some (kept (some m) q)))
        → Played r (play (suc fuel) slot (some r))
    Played-cons fuel slot r q k m same perm due d = record {
      order = (k, ok m) ∷ d.order;
      messages = m ∷ d.messages;
      done =
          unfold play in
          ap (after_next (play fuel)) (next-message (suc fuel) slot r q m same)
          ∙ ap (λ (x : List RrdMessage × NextStatus). (shown_message m ∷ x.0, x.1)) d.done;
      payload = ap (◌∷◌ (ok m)) d.payload;
      perm = Permᴰ.trans perm (Permᴰ.cons refl d.perm);
      merged = (All-Permᴰ (λ x. Due s.is_reverse k x.0) d.perm due, d.merged);
    }

    -- On the handle of a reader in the middle of a pass over an ordered index, whose chunks hold what
    -- the footer promises: called again and again, more often than rows are left, `rrd_reader_next`
    -- returns 1 until it returns 0, never -1, and writes the message of every row that was left exactly
    -- once, in the order in which they are due.
    pub play-Played :
        (fuel : ℕ) (slot : Slot) (r : Reader)
        → IsOrdered ix
        → IsReady file cdr s ix r
        → length (remaining file cdr s ix r) < fuel
        → Played r (play fuel slot (some r))
    play-Played zero slot r ordered v enough = absurd (omega arith)
    play-Played (suc fuel) slot r ordered v enough =
        elim (read_next-Delivers file cdr s ix ordered fuel r v) [
          | ended q same none_left ↦ record {
            order = [];
            messages = [];
            done = unfold play in ap (after_next (play fuel)) (next-end (suc fuel) slot r q same);
            payload = refl;
            perm = rw none_left Permᴰ.nil;
            merged = tt;
          }
          | delivered k m q same perm due ready cursor placed ↦
              Played-cons fuel slot r q k m same perm due (
                play-Played fuel slot (kept (some m) q) ordered (IsReady-kept (some m) q ready)
                  (omega (arith, length-Permᴰ perm)))
        ]
