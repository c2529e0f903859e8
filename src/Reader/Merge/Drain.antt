-- ===== src/Reader/Merge/Drain.antt =====
-- Reading until the end: what the C++ plugin's client does with `read_next`.

use mathlib.Core.List.{Permᴰ}
use rosbag2_storage_rrd.Reader.Merge.Delivery.{delivered, ended, All-Permᴰ, read_next-Delivers}
use rosbag2_storage_rrd.Reader.Pass.{read_next}
use rosbag2_storage_rrd.Reader.Merge.Fill.{IsReady, remaining}
use rosbag2_storage_rrd.Index.Bounds.{IsOrdered}
use rosbag2_storage_rrd.Reader.Merge.{Due, IsMerged, Row}
use rosbag2_storage_rrd.Replay.{CdrWriter}
use rosbag2_storage_rrd.Reader.{SortKey, ChunkIndex, Reader, Message, RrdFile}
use rosbag2_storage_rrd.Base.{
  ◌<◌, All, ◌>>=◌, out_of_fuel, ◌∷◌, ◌∙◌, Option, ap, Result, ◌≡◌, ℕ, length, List, zero, suc, some,
  none, ok, err, refl, arith, [],
}

module _ {A : Type 0} where
  pub length-Permᴰ : {xs ys : List A} → Permᴰ xs ys → length xs ≡ length ys
  length-Permᴰ Permᴰ.nil = refl
  length-Permᴰ (Permᴰ.cons e d) = ap suc (length-Permᴰ d)
  length-Permᴰ (Permᴰ.swap e f) = refl
  length-Permᴰ (Permᴰ.trans d e) = length-Permᴰ d ∙ length-Permᴰ e

abbrev pub payloads : List Row → List (Result Message)
payloads [] = []
payloads (x ∷ xs) = x.1 ∷ payloads xs

abbrev pub successes : List Message → List (Result Message)
successes [] = []
successes (m ∷ ms) = ok m ∷ successes ms

module _ (file : RrdFile) (cdr : CdrWriter) where
  -- What follows a read: the end of the recording, or a message and the messages after it.
  abbrev pub after_read :
      (Reader → Result (List Message)) → Result (Option Message) × Reader → Result (List Message)
  after_read again (err e, r) = err e
  after_read again (ok none, r) = ok []
  after_read again (ok (some m), r) = again r >>= λ ms. ok (m ∷ ms)

  -- Every message that is left, in the order `read_next` hands them out.
  unfoldable pub drain : ℕ → Reader → Result (List Message)
  drain zero r = err out_of_fuel
  drain (suc fuel) r = after_read (drain fuel) (read_next file cdr (suc fuel) r)

module _ (file : RrdFile) (cdr : CdrWriter) (s : Reader) (ix : ChunkIndex) where
  -- The messages read to the end are the rows that were left, each once, in the order due.
  pub record Drained (r : Reader) (result : Result (List Message)) : Type 0 where
    pub order : List Row
    pub messages : List Message
    pub done : result ≡ ok messages
    pub payload : payloads order ≡ successes messages
    pub perm : Permᴰ (remaining file cdr s ix r) order
    pub merged : IsMerged s.is_reverse order

  Drained-cons :
      (fuel : ℕ) (r q : Reader) (k : SortKey) (m : Message)
      → read_next file cdr (suc fuel) r ≡ (ok (some m), q)
      → Permᴰ (remaining file cdr s ix r) ((k, ok m) ∷ remaining file cdr s ix q)
      → All (λ x. Due s.is_reverse k x.0) (remaining file cdr s ix q)
      → Drained q (drain file cdr fuel q)
      → Drained r (drain file cdr (suc fuel) r)
  Drained-cons fuel r q k m same perm due d = record {
    order = (k, ok m) ∷ d.order;
    messages = m ∷ d.messages;
    done =
        unfold drain in
        ap (after_read file cdr (drain file cdr fuel)) same
        ∙ ap (λ (x : Result (List Message)). x >>= λ ms. ok (m ∷ ms)) d.done;
    payload = ap (◌∷◌ (ok m)) d.payload;
    perm = Permᴰ.trans perm (Permᴰ.cons refl d.perm);
    merged = (All-Permᴰ (λ x. Due s.is_reverse k x.0) d.perm due, d.merged);
  }

  -- On a reader in the middle of a pass over an ordered index, whose chunks hold what the footer
  -- promises: reading to the end, in either direction and with more rounds than rows are left,
  -- succeeds, and hands out every row that was left exactly once, in the order in which they are due.
  pub drain-Drained :
      (fuel : ℕ) (r : Reader)
      → IsOrdered ix
      → IsReady file cdr s ix r
      → length (remaining file cdr s ix r) < fuel
      → Drained r (drain file cdr fuel r)
  drain-Drained zero r ordered v enough = absurd (omega arith)
  drain-Drained (suc fuel) r ordered v enough =
      elim (read_next-Delivers file cdr s ix ordered fuel r v) [
        | ended q same none_left ↦ record {
          order = [];
          messages = [];
          done = unfold drain in ap (after_read file cdr (drain file cdr fuel)) same;
          payload = refl;
          perm = rw none_left Permᴰ.nil;
          merged = tt;
        }
        | delivered k m q same perm due ready cursor placed ↦
            Drained-cons fuel r q k m same perm due
              (drain-Drained fuel q ordered ready (omega (arith, length-Permᴰ perm)))
      ]
