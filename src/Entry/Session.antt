-- ===== src/Entry/Session.antt =====
-- A recording opened by `rrd_reader_open` of lib.rs and played to its end.
use rosbag2_storage_rrd.Base.{
  ◌∙◌, subst, ap, ◌<◌, length, All, ◌≡◌, ℕ, Bool, Result, String, true, false, some, none, ok, refl,
  arith,
}
use mathlib.Core.List.{Permᴰ}
use rosbag2_storage_rrd.Entry.{with_argument, answer, Answer, Host, Text, text}
use rosbag2_storage_rrd.Entry.Playback.{Played, play, play-Played}
use rosbag2_storage_rrd.Entry.Reading.{rrd_reader_open}
use rosbag2_storage_rrd.Ffi.{Slot, success}
use rosbag2_storage_rrd.Index.{ChunkIndex}
use rosbag2_storage_rrd.Index.Build.{FooterAnswers}
use rosbag2_storage_rrd.Reader.{Reader, RrdFile}
use rosbag2_storage_rrd.Reader.Merge.{IsMerged, Loads, rows_unread, settings}
use rosbag2_storage_rrd.Reader.Setup.Indexed.{open_reader-IsOpened, open_reader-IsReady}
use rosbag2_storage_rrd.Reader.Setup.Opened.{open_reader}
use rosbag2_storage_rrd.Replay.{CdrWriter}
use rosbag2_storage_rrd.Schema.{MessageDecodePlan}

module _ (host : Host) (archetype : String → Result String) (before : String → String → Bool)
    (parse_plan : String → String → Result MessageDecodePlan) (file_at : String → RrdFile)
    (footer_at : String → FooterAnswers) where
  abbrev pub open_call : Text → Slot → Answer Reader Reader
  open_call path slot =
      rrd_reader_open host archetype before parse_plan file_at footer_at true path slot

  -- The entry point, as a function of what opening the reader answers.
  abbrev handed_out : Slot → Result Reader → Answer Reader Reader
  handed_out slot x =
      answer {H = Reader} host "rrd_reader_open" slot
        (with_argument none x (λ (r : Reader). (ok (some r), none)))

  open_call-opened :
      (path : Text) (slot : Slot) (p : String) (r : Reader)
      → text host path ≡ ok p
      → open_reader archetype before host.from_utf8 parse_plan (file_at p) (footer_at p) ≡ ok r
      → open_call path slot
        ≡ record { status = success; slot = slot; handle = none; written = some r }
  unfolding rrd_reader_open
  open_call-opened path slot p r named opened =
      ap
        (λ (t : Result String). answer {H = Reader} {O = Reader} host "rrd_reader_open" slot (
          with_argument none t λ q.
            with_argument none
              (open_reader archetype before host.from_utf8 parse_plan (file_at q) (footer_at q))
              λ (r : Reader). (ok (some r), none)))
        named
      ∙ ap (handed_out slot) opened

  -- If the path is text, the file there has a footer and each chunk of its index holds what the footer
  -- promises, and the reader opens: `rrd_reader_open` returns 0 and hands out a handle, and calling
  -- `rrd_reader_next` on it more often than there are rows returns 1 until it returns 0. Every row of
  -- the index's chunks is written exactly once, in the order of the receive times, and of writing where
  -- they are equal.
  pub open-Played :
      (cdr : CdrWriter) (path : Text) (slot : Slot) (p : String) (r : Reader) (ix : ChunkIndex)
      (fuel : ℕ)
      → text host path ≡ ok p
      → open_reader archetype before host.from_utf8 parse_plan (file_at p) (footer_at p) ≡ ok r
      → r.index ≡ some ix
      → All (Loads (file_at p) cdr (settings r)) ix.chunks
      → length (rows_unread (file_at p) cdr (settings r) ix.chunks) < fuel
      → ((open_call path slot).status ≡ success)
        × ((d : Played host (file_at p) cdr (settings r) ix r (
              play host
                (file_at p)
                cdr
                fuel
                (open_call path slot).slot
                (open_call path slot).written))
            × Permᴰ (rows_unread (file_at p) cdr (settings r) ix.chunks) d.order
            × IsMerged false d.order)
  open-Played cdr path slot p r ix fuel named opened has loads enough =
      let o =
        open_reader-IsOpened archetype before host.from_utf8 parse_plan (file_at p) (footer_at p) r
          ix opened has in
      let (ready, left) =
        open_reader-IsReady archetype before host.from_utf8 parse_plan (file_at p) cdr (footer_at p)
          r ix opened has loads in
      let d =
        play-Played host (file_at p) cdr (settings r) ix fuel slot r o.ordered ready
          (omega (arith, ap length left)) in
      rw (open_call-opened path slot p r named opened) (
        refl,
        (
          d,
          subst (λ xs. Permᴰ xs d.order) left d.perm,
          subst (λ b. IsMerged b d.order) o.forward d.merged,
        ),
      )
