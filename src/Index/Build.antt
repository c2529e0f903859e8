-- ===== src/Index/Build.antt =====
-- `ChunkIndex::open` of index.rs. Opening the file, reading its footer and interpreting a manifest
-- are what the file system and the Rerun SDK answered; the rest is the crate's.
use rosbag2_storage_rrd.Base.{
  String, List, [], ◌∷◌, Option, none, some, Result, ok, err, bad_manifest, ◌>>=◌,
}
use rosbag2_storage_rrd.Index.{
  ChunkIndex, Manifest, Gathered, gather, summarize, sort_by_key, recompute_max_end_through,
}

-- The answers for one path: the footer holds the manifests with their recordings' ids.
pub record FooterAnswers : Type 0 where
  pub opened : Result (Unit {0})
  pub footer : Result (Option (List (String × Result Manifest)))

unfoldable pub from_manifest : String → Manifest → ChunkIndex
unfolding gather summarize sort_by_key recompute_max_end_through
from_manifest recording_id m = recompute_max_end_through (record {
  recording_id = recording_id;
  chunks = sort_by_key g.chunks;
  temporal_chunks = g.temporal_chunks;
  max_end_through = [];
  statics = g.statics;
})
  where
    g : Gathered
    g =
        gather m 0 m.chunk_ids
          (record { chunks = []; statics = []; temporal_chunks = 0; summaries = summarize m })

-- the context that replaces the reason of a failed `try_new`
abbrev pub with_bad_manifest {ℓ} : {A : Type ℓ} → Result A → Result A
with_bad_manifest (ok a) = ok a
with_bad_manifest (err e) = err bad_manifest

-- A footer that cannot be read is treated like one that is absent.
abbrev pub readable_footer :
    Result (Option (List (String × Result Manifest))) → Option (List (String × Result Manifest))
readable_footer (ok footer) = footer
readable_footer (err e) = none

unfoldable pub first_manifest :
    Option (List (String × Result Manifest)) → Result (Option ChunkIndex)
unfolding from_manifest
first_manifest none = ok none
first_manifest (some []) = ok none
first_manifest (some ((id, raw) ∷ _)) = do
  manifest ← with_bad_manifest raw
  ok (some (from_manifest id manifest))

unfoldable pub open_index : FooterAnswers → Result (Option ChunkIndex)
unfolding first_manifest
open_index answers = do opened ← answers.opened; first_manifest (readable_footer answers.footer)
