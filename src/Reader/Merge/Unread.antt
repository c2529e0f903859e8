-- ===== src/Reader/Merge/Unread.antt =====
-- Pulling chunks through the index: the chunks left in playback order, and what a pull takes.

use rosbag2_storage_rrd.Reader.Steps.{load_oriented, playback_position, load_first, pull_scanned}
use native.Mathlib.Numerals.{add-one}
use rosbag2_storage_rrd.Reader.Windows.{Window}
use rosbag2_storage_rrd.Reader.Merge.{
  playback, IsIndexed, rows, Loads, IsLive, rows_unread, settings,
}
use rosbag2_storage_rrd.Reader.Pass.{pull, pull_indexed, load_ref}
use rosbag2_storage_rrd.Index.{ChunkRef, ChunkIndex}
use rosbag2_storage_rrd.Replay.{CdrWriter}
use rosbag2_storage_rrd.Reader.{wanted, Reader, RrdFile}
use rosbag2_storage_rrd.Base.{
  subst, length-drop, length-le_of_drop-nil, ◌-◌, ◌≤◌, true, zero, leb, lt-length_of_get_elem?,
  get_elem?_of_drop-cons, ap, ◌∷◌, ◌∙◌, ◌+◌, false, suc, err, arith, All, ◌++◌, drop,
  get_elem?-reverse, ℕ, sym, Option, Result, length-reverse, get_elem?, Bool-cases, ◌<◌, ◌≡◌,
  length, List, some, none, ok, refl, inl, inr, [],
}

module _ (file : RrdFile) (cdr : CdrWriter) (s : Reader) (ix : ChunkIndex) where
  -- Loading depends on the settings alone.
  pub load_ref-settings :
      (r : Reader) (c : ChunkRef) → load_ref file (settings r) c ≡ load_ref file r c
  unfolding load_ref load_first load_oriented wanted
  load_ref-settings r c = refl

  playback_lem :
      (r : Reader)
      → r.is_reverse ≡ s.is_reverse
      → r.at_chunk < length ix.chunks
      → get_elem? ix.chunks (playback_position ix r) ≡ get_elem? (playback s ix) r.at_chunk
  playback_lem r e h = elim (Bool-cases s.is_reverse) [
    | inl t ↦ rw (e, t) (sym (get_elem?-reverse ix.chunks r.at_chunk h))
    | inr t ↦ rw (e, t)
  ]

  pub length-playback : length (playback s ix) ≡ length ix.chunks
  length-playback = elim (Bool-cases s.is_reverse) [
    | inl t ↦ rw t (length-reverse ix.chunks)
    | inr t ↦ rw t
  ]

  -- What a pull may return from the chunks `cs` that are left: nothing more, or a window, the
  -- chunks passed over holding no messages.
  pub data Pulled (r : Reader) (cs : List ChunkRef) (result : Result (Option Window) × Reader)
      : Type 0 where
    nothing :
        (n : ℕ)
        → result ≡ (ok none, record r { at_chunk = n })
        → drop n (playback s ix) ≡ []
        → rows_unread file cdr s cs ≡ []
        → Pulled r cs result
    window :
        (n : ℕ) (w : Window)
        → result ≡ (ok (some w), record r { at_chunk = n })
        → rows_unread file cdr s cs
          ≡ rows cdr s w ++ rows_unread file cdr s (drop n (playback s ix))
        → IsLive cdr s w
        → All (Loads file cdr s) (drop n (playback s ix))
        → length (drop n (playback s ix)) < length cs
        → Pulled r cs result

  loads_same :
      (r : Reader) (c : ChunkRef) → IsIndexed s ix r → load_ref file r c ≡ load_ref file s c
  loads_same r c v = sym (load_ref-settings r c) ∙ ap (λ q. load_ref file q c) v.same_settings

  abbrev advanced : Reader → Reader
  advanced r = record r { at_chunk = r.at_chunk + 1 }

  IsIndexed-advanced :
      {r : Reader} → IsIndexed s ix r → IsIndexed s ix (record r { at_chunk = r.at_chunk + 1 })
  IsIndexed-advanced v = record { same_settings = v.same_settings; indexed = v.indexed }

  -- The step of the loop on a chunk that is there.
  pull_indexed-suc :
      (fuel : ℕ) (r : Reader) (c : ChunkRef) (cs : List ChunkRef)
      → IsIndexed s ix r
      → drop r.at_chunk (playback s ix) ≡ c ∷ cs
      → pull_indexed file (suc fuel) ix r ≡ (elim (load_ref file s c) [
        | err e ↦ (err e, advanced r)
        | ok none ↦ pull_indexed file fuel ix (advanced r)
        | ok (some w) ↦ (ok (some w), advanced r)
      ])
  unfolding pull_indexed
  pull_indexed-suc fuel r c cs v e =
      let (at, rest) = get_elem?_of_drop-cons (playback s ix) r.at_chunk c cs e in
      let inside : r.at_chunk < length ix.chunks =
        omega (arith, lt-length_of_get_elem? (playback s ix) r.at_chunk at, length-playback) in
      let test : leb (length ix.chunks) r.at_chunk ≡ false = ground arith in
      let found : get_elem? ix.chunks (playback_position ix r) ≡ some c =
        playback_lem r (ap (λ (q : Reader). q.is_reverse) v.same_settings) inside ∙ at in
      rw (test, found, loads_same (record r { at_chunk = r.at_chunk + 1 }) c (IsIndexed-advanced v))
        refl

  -- What was passed over changes nothing of what a pull takes.
  Pulled-skip :
      {r : Reader} (c : ChunkRef) {cs : List ChunkRef} {result : Result (Option Window) × Reader}
      → load_ref file s c ≡ ok none
      → Pulled (advanced r) cs result
      → Pulled r (c ∷ cs) result
  unfolding rows_unread
  Pulled-skip c e (nothing n same_result done none_left) =
      nothing n same_result done (rw e none_left)
  Pulled-skip c e (window n w same_result split live loads shorter) =
      window n w same_result (rw e split) live loads (omega arith)

  pull_indexed-Pulled :
      (fuel : ℕ) (r : Reader) (cs : List ChunkRef)
      → IsIndexed s ix r
      → drop r.at_chunk (playback s ix) ≡ cs
      → length cs ≤ fuel
      → All (Loads file cdr s) cs
      → Pulled r cs (pull_indexed file fuel ix r)
  unfolding rows_unread
  pull_indexed-Pulled zero r [] v e short loads =
      nothing r.at_chunk (unfold pull_indexed in refl) e refl
  pull_indexed-Pulled zero r (c ∷ cs) v e short loads = absurd (omega arith)
  pull_indexed-Pulled (suc fuel) r [] v e short loads =
      let past : length ix.chunks ≤ r.at_chunk =
        omega (arith, length-le_of_drop-nil (playback s ix) r.at_chunk e, length-playback) in
      let test : leb (length ix.chunks) r.at_chunk ≡ true = ground arith in
      nothing r.at_chunk (unfold pull_indexed in rw test refl) e refl
  pull_indexed-Pulled (suc fuel) r (c ∷ cs) v e short (inl skip, loads) =
      let (at, rest) = get_elem?_of_drop-cons (playback s ix) r.at_chunk c cs e in
      let next : drop (r.at_chunk + 1) (playback s ix) ≡ cs = rw add-one rest in
      rw (pull_indexed-suc fuel r c cs v e) (
        rw skip (
          Pulled-skip c skip (
            pull_indexed-Pulled fuel (record r { at_chunk = r.at_chunk + 1 }) cs
              (IsIndexed-advanced v) next (omega arith) loads)))
  pull_indexed-Pulled (suc fuel) r (c ∷ cs) v e short (inr (w, load, live, within), loads) =
      let (at, rest) = get_elem?_of_drop-cons (playback s ix) r.at_chunk c cs e in
      let next : drop (r.at_chunk + 1) (playback s ix) ≡ cs = rw add-one rest in
      window (r.at_chunk + 1) w (rw (pull_indexed-suc fuel r c cs v e) (rw load refl))
        (rw (load, next) refl) live (rw next loads) (rw next (omega arith))

  pull-indexed :
      (r : Reader)
      → r.index ≡ some ix
      → pull file r ≡ pull_indexed file (length ix.chunks - r.at_chunk) ix r
  unfolding pull
  pull-indexed r e =
      ap
        (λ (o : Option ChunkIndex). elim o as (λ _. Result (Option Window) × Reader) [
          | some ix' ↦ pull_indexed file (length ix'.chunks - r.at_chunk) ix' r
          | none ↦ elim r.source [ none ↦ (ok none, r) | some msgs ↦ pull_scanned msgs r ]
        ])
        e

  -- A pull through the index.
  pub pull-Pulled :
      (r : Reader)
      → IsIndexed s ix r
      → All (Loads file cdr s) (drop r.at_chunk (playback s ix))
      → Pulled r (drop r.at_chunk (playback s ix)) (pull file r)
  pull-Pulled r v loads =
      subst (Pulled r (drop r.at_chunk (playback s ix))) (sym (pull-indexed r v.indexed)) (
        pull_indexed-Pulled (length ix.chunks - r.at_chunk) r (drop r.at_chunk (playback s ix)) v
          refl (omega (arith, length-drop r.at_chunk (playback s ix), length-playback)) loads)
