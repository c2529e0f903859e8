-- ===== src/Reader/Setup/Indexed.antt =====
-- What `Reader::open` makes of a file with a footer.
use rosbag2_storage_rrd.Index.Ordered.{from_manifest-IsOrdered, retain-IsOrdered}
use rosbag2_storage_rrd.Reader.Merge.Fill.{IsReady, remaining}
use rosbag2_storage_rrd.Reader.Merge.{
  IsLive, playback, rows_of, restarted, rows_unread, settings, Loads,
}
use rosbag2_storage_rrd.Replay.{CdrWriter}
use rosbag2_storage_rrd.Reader.Setup.{find, count_topics, add_topics, Found}
use rosbag2_storage_rrd.Reader.Setup.Topics.{
  count_chunk-IsOfTopic, retain_chunks-kept, count_topics-IsOfTopic, add_topics-InRange,
  length-count_topics, IsOfTopic,
}
use rosbag2_storage_rrd.Schema.{MessageDecodePlan}
use rosbag2_storage_rrd.Reader.Setup.Opened.{
  no_counts, keeps_chunk, open_reader, holds_data, described, required, Shape, reader_over,
  shape_of, open_found, started,
}
use rosbag2_storage_rrd.Index.Bounds.{IsOrdered}
use rosbag2_storage_rrd.Reader.Pass.{restart}
use rosbag2_storage_rrd.Reader.{TopicInfo, Bytes, i64_min, Reader, RrdFile}
use rosbag2_storage_rrd.Index.Build.{
  with_bad_manifest, readable_footer, FooterAnswers, open_index, first_manifest,
}
use rosbag2_storage_rrd.Index.{
  recompute_max_end_through, retain, time_range, message_count, Manifest, ChunkIndex,
}
use rosbag2_storage_rrd.Base.{
  ◌∷◌, ◌++◌, drop, some_inj, All-imp, subst, ok_inj, ap, ◌∙◌, sym, refl, not, ◌||◌, ltb, ℕ, length,
  ◌<◌, >>=-eq-ok, All, Bool, List, ◌≡◌, Option, Result, String, false, some, none, ok, arith, [],
}

-- An opened reader over the index `ix`: nothing is read yet, the topics' places are in range, the
-- index is ordered, each of its chunks holds messages of a topic, and the totals are the index's.
pub record IsOpened (ix : ChunkIndex) (r : Reader) : Type 0 where
  pub indexed : r.index ≡ some ix
  pub no_window : r.window ≡ []
  pub at_start : r.at_chunk ≡ 0
  pub unread : r.cursor ≡ none
  pub unsought : r.position ≡ i64_min
  pub unfiltered : r.filter ≡ []
  pub forward : r.is_reverse ≡ false
  pub in_range : All (λ entry. entry.1 < length r.topics) r.topic_index
  pub ordered : IsOrdered ix
  pub of_topics : All (IsOfTopic r.topics r.topic_index) ix.chunks
  pub total : r.message_count ≡ message_count ix
  pub range : r.time_range ≡ time_range ix

first_manifest-IsOrdered :
    (footer : Option (List (String × Result Manifest))) (ix : ChunkIndex)
    → first_manifest footer ≡ ok (some ix)
    → IsOrdered ix
unfolding first_manifest
first_manifest-IsOrdered none ix e = cc
first_manifest-IsOrdered (some []) ix e = cc
first_manifest-IsOrdered (some ((id, raw) ∷ rest)) ix e =
    let (m, read, same) = >>=-eq-ok (with_bad_manifest raw) _ e in
    subst IsOrdered (some_inj (ok_inj same)) (from_manifest-IsOrdered id m)

open_index-IsOrdered :
    (answers : FooterAnswers) (ix : ChunkIndex) → open_index answers ≡ ok (some ix) → IsOrdered ix
unfolding open_index
open_index-IsOrdered answers ix e =
    let (opened, read, rest) = >>=-eq-ok answers.opened _ e in
    first_manifest-IsOrdered (readable_footer answers.footer) ix rest

module _ (file : RrdFile) where
  restart-none : (q r : Reader) → q.index ≡ none → started (restart file q) ≡ ok r → r.index ≡ none
  unfolding restart
  restart-none q r e h = ground arith

module _ (archetype : String → Result String) (before : String → String → Bool)
    (from_utf8 : Bytes → Result String) (parse_plan : String → String → Result MessageDecodePlan)
    (file : RrdFile) where
  open_found-IsOpened :
      (index : Option ChunkIndex) (f : Found) (r : Reader) (ix : ChunkIndex)
      → ((ix0 : ChunkIndex) → index ≡ some ix0 → IsOrdered ix0)
      → open_found archetype before from_utf8 parse_plan file index f ≡ ok r
      → r.index ≡ some ix
      → IsOpened ix r
  unfolding open_found shape_of reader_over retain recompute_max_end_through
  open_found-IsOpened index f r ix ordered e has =
      let (id, named, rest) = >>=-eq-ok (required f.recording_id) _ e in
      let (checked, told, start) =
        >>=-eq-ok (described (ltb 0 (length f.statics) || not (holds_data index f.scanned))) _
          rest in
      from index ordered id start
    where
      topics : List TopicInfo × List (String × ℕ)
      topics = add_topics archetype f.statics [] []

      over : Shape → String → Reader
      over shape id =
          reader_over shape (count_topics from_utf8 parse_plan shape.counts 0 shape.topics)
            f.metadata_yaml id

      from :
          (i : Option ChunkIndex)
          → ((ix0 : ChunkIndex) → i ≡ some ix0 → IsOrdered ix0)
          → (id : String)
          → started (restart file (over (shape_of i f.scanned topics.0 topics.1) id)) ≡ ok r
          → IsOpened ix r
      from none o id start = cc (
          sym (restart-none file (over (shape_of none f.scanned topics.0 topics.1) id) r refl start)
          ∙ has)
      from (some ix0) o id start =
          let kept = retain (keeps_chunk topics.0 topics.1) ix0 (no_counts topics.0) in
          let q : Reader = over (shape_of (some ix0) f.scanned topics.0 topics.1) id in
          let same : restarted q ≡ r = ok_inj (unfold restart in start) in
          let opened : IsOpened kept.0 (restarted q) = record {
            indexed = refl;
            no_window = refl;
            at_start = refl;
            unread = refl;
            unsought = refl;
            unfiltered = refl;
            forward = refl;
            in_range =
                subst (λ n. All (λ entry. entry.1 < n) topics.1)
                  (sym (length-count_topics from_utf8 parse_plan kept.1 0 topics.0))
                  (add_topics-InRange archetype f.statics [] [] tt);
            ordered =
                retain-IsOrdered (keeps_chunk topics.0 topics.1) ix0 (no_counts topics.0)
                  (o ix0 refl);
            of_topics =
                All-imp (IsOfTopic topics.0 topics.1) _ kept.0.chunks
                  (λ c v. count_topics-IsOfTopic from_utf8 parse_plan kept.1 topics.0 topics.1 c v)
                  (retain_chunks-kept (keeps_chunk topics.0 topics.1) (IsOfTopic topics.0 topics.1)
                    ix0.chunks (no_counts topics.0)
                    (λ c t h. count_chunk-IsOfTopic topics.0 topics.1 c t h));
            total = refl;
            range = refl;
          } in
          let index_is : kept.0 ≡ ix = some_inj (ap (λ (p : Reader). p.index) same ∙ has) in
          subst (λ x. IsOpened x r) index_is (subst (IsOpened kept.0) same opened)

  -- Opening a file with a footer, where it succeeds: nothing is read yet, the places of the topics
  -- are in range, the index is ordered, each of its chunks holds messages of a topic, and the count
  -- and the time range are those of the index.
  pub open_reader-IsOpened :
      (answers : FooterAnswers) (r : Reader) (ix : ChunkIndex)
      → open_reader archetype before from_utf8 parse_plan file answers ≡ ok r
      → r.index ≡ some ix
      → IsOpened ix r
  unfolding open_reader
  open_reader-IsOpened answers r ix e has =
      let (index, read, rest) = >>=-eq-ok (open_index answers) _ e in
      let (found, searched, start) = >>=-eq-ok (find before file index) _ rest in
      open_found-IsOpened index found r ix
        (λ ix0 same. open_index-IsOrdered answers ix0 (read ∙ ap ok same)) start has

  -- An opened reader is at the start of a pass over all chunks.
  pub open_reader-IsReady :
      (cdr : CdrWriter) (answers : FooterAnswers) (r : Reader) (ix : ChunkIndex)
      → open_reader archetype before from_utf8 parse_plan file answers ≡ ok r
      → r.index ≡ some ix
      → All (Loads file cdr (settings r)) ix.chunks
      → IsReady file cdr (settings r) ix r
        × (remaining file cdr (settings r) ix r ≡ rows_unread file cdr (settings r) ix.chunks)
  unfolding rows_of
  open_reader-IsReady cdr answers r ix e has loads =
      let o = open_reader-IsOpened answers r ix e has in
      let chunks : playback (settings r) ix ≡ ix.chunks = rw o.forward refl in
      (
        record {
          indexed = record { same_settings = refl; indexed = has };
          live = subst (All (IsLive cdr (settings r))) (sym o.no_window) tt;
          loads =
              subst (λ n. All (Loads file cdr (settings r)) (drop n (playback (settings r) ix)))
                (sym o.at_start) (subst (All (Loads file cdr (settings r))) (sym chunks) loads);
        },
        ap
              (λ ws.
                rows_of cdr (settings r) ws
                ++ rows_unread file cdr (settings r) (drop r.at_chunk (playback (settings r) ix)))
              o.no_window
            ∙ ap (λ n. rows_unread file cdr (settings r) (drop n (playback (settings r) ix)))
                o.at_start
            ∙ ap (rows_unread file cdr (settings r)) chunks,
      )
