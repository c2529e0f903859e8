-- ===== src/Writer/Conserved.antt =====
-- The sessions of writer.rs against the messages they accept: an abstract recording is the list of
-- those, and the file and the buffers hold each of them as often as it was accepted.
use mathlib.Core.List.{append-nil}
use rosbag2_storage_rrd.Pipeline.{lenses_for}
use rosbag2_storage_rrd.Writer.Kept.{flush-nil, flush-Adds}
use rosbag2_storage_rrd.Writer.Open.{
  open_live, stream_settings, ensure, open_recording, Sdk, open_writer,
}
use rosbag2_storage_rrd.Base.{
  sym, ok_inj, subst, open_failed, ap, ◌∙◌, >>=-eq-ok, Result, none, ok, refl, ◌++◌, ◌+◌, ◌≡◌, All,
  ℕ, Option, String, Bool, List, some, arith, [], ◌∷◌,
}
use rosbag2_storage_rrd.Recorded.{Entry}
use rosbag2_storage_rrd.Writer.{
  send_property, taken, flush, RecordingConfig, close, Bytes, Buffer, Recording, Topic, Writer,
  create_topic, flush_all, remove_topic, set_metadata, write,
}
use rosbag2_storage_rrd.Writer.Contents.{
  contents-append, contents, Keeping, count, count-append, in_topics, on_file,
}
use rosbag2_storage_rrd.Writer.Grown.{
  total, Grows, Kept, accepts, create_topic-Grows, entry_of, remove_topic-Grows, write-Grows,
}

module _ {C : Type 0} (buffer : Buffer C) (content : C → List Entry)
    (keeping : Keeping buffer content) where
  -- The operations on a writer that was opened, with the messages it has accepted so far: a topic
  -- starts with an empty buffer, and its static chunk carries no message.
  pub data Records (opened : Writer buffer) : List Entry → Writer buffer → Type 0 where
    here : Records opened [] opened
    created :
        {es : List Entry} {w : Writer buffer} (topic entity : String) (state : buffer.State)
        (info : Option C) (now : ℕ)
        → Records opened es w
        → keeping.IsValid state
        → keeping.held state ≡ []
        → ((chunk : C) → info ≡ some chunk → content chunk ≡ [])
        → Records opened es (create_topic buffer topic entity state info now w).1
    wrote :
        {es : List Entry} {w : Writer buffer} (now topic : ℕ) (message : Bytes) (recv send : ℕ)
        → Records opened es w
        → Records opened
            (es ++ accepts buffer w topic (entry_of buffer w message recv send))
            (write buffer now topic message recv send w).1
    dropped :
        {es : List Entry} {w : Writer buffer} (now : ℕ) (topic : String)
        → Records opened es w
        → Records opened es (remove_topic buffer now topic w).1
    described :
        {es : List Entry} {w : Writer buffer} (yaml : String)
        → Records opened es w
        → Records opened es (set_metadata buffer yaml w)

  module _ (P : Entry → Bool) where
    abbrev Grown : ℕ → Writer buffer → Type 0
    Grown n w = Grows buffer content keeping P 0 n w

    set_metadata-Grows :
        {n : ℕ} (yaml : String) (w : Writer buffer)
        → Grown n w
        → Grown n (set_metadata buffer yaml w)
    unfolding set_metadata
    set_metadata-Grows yaml w g = record { kept = g.kept; counted = g.counted }

    Records-Grows :
        {opened w : Writer buffer} {es : List Entry}
        → Records opened es w
        → Grown 0 opened
        → Grown (count P es) w
    Records-Grows here g = g
    Records-Grows (created {w = u} topic entity state info now r valid fresh silent) g =
        let h = Records-Grows r g in
        let k =
          create_topic-Grows buffer content keeping P topic entity state info now u h.kept valid
            fresh silent in
        record { kept = k.kept; counted = omega (arith, k.counted, h.counted) }
    Records-Grows (wrote {es = es} {w = u} now topic message recv send r) g =
        let h = Records-Grows r g in
        let k = write-Grows buffer content keeping P now topic message recv send u h.kept in
        record {
          kept = k.kept;
          counted = omega (
            arith,
            k.counted,
            h.counted,
            count-append P es (accepts buffer u topic (entry_of buffer u message recv send)),
          );
        }
    Records-Grows (dropped {w = u} now topic r) g =
        let h = Records-Grows r g in
        let k = remove_topic-Grows buffer content keeping P now topic u h.kept in
        record { kept = k.kept; counted = omega (arith, k.counted, h.counted) }
    Records-Grows (described {w = u} yaml r) g = set_metadata-Grows yaml u (Records-Grows r g)

    flush_all-on_file :
        (now : ℕ) (topics : List (Topic buffer)) (rec : Recording C)
        → All (Kept buffer content keeping P) topics
        → on_file content P (flush_all buffer now topics rec)
          ≡ on_file content P rec + in_topics buffer content keeping P topics
    unfolding flush_all
    flush_all-on_file now [] rec v = omega arith
    flush_all-on_file now (t ∷ ts) rec v =
        let a = flush-Adds buffer content keeping P now t rec v.0 in
        let emptied = flush-nil buffer content keeping P now t rec v.0 in
        omega (arith, flush_all-on_file now ts (flush buffer now t rec).1.1 v.1, a.total, emptied)

    -- Closing a writer hands out all that it holds.
    close-on_file :
        (property : String → Option C × Option C) (file_flush : Result (Unit {0})) (now : ℕ)
        (w : Writer buffer)
        → All (Kept buffer content keeping P) w.topics
        → ((yaml : String) (chunk : C) → (property yaml).0 ≡ some chunk → content chunk ≡ [])
        → on_file content P (close buffer property file_flush now w).1
          ≡ total buffer content keeping P w
    close-on_file property file_flush now w v silent = unfold close in from w.metadata_yaml
      where
        rec : Recording C
        rec = flush_all buffer now w.topics w.rec

        flushed : on_file content P rec ≡ total buffer content keeping P w
        flushed = flush_all-on_file now w.topics w.rec v

        on_file-taken :
            (o : Option C)
            → ((chunk : C) → o ≡ some chunk → content chunk ≡ [])
            → contents content (taken o) ≡ []
        on_file-taken none h = refl
        on_file-taken (some chunk) h = append-nil (content chunk) ∙ h chunk refl

        sent :
            (p : Option C × Option C)
            → ((chunk : C) → p.0 ≡ some chunk → content chunk ≡ [])
            → on_file content P (send_property p rec) ≡ total buffer content keeping P w
        sent p h =
            unfold send_property in
            (ap (count P) (contents-append content P rec.file (taken p.0))
              ∙ ap (λ l. count P (contents content rec.file ++ l)) (on_file-taken p.0 h)
              ∙ ap (count P) (append-nil (contents content rec.file))
              ∙ flushed)

        with_yaml : Option String → Recording C
        with_yaml o = elim o [ none ↦ rec | some yaml ↦ send_property (property yaml) rec ]

        from :
            (o : Option String) → on_file content P (with_yaml o) ≡ total buffer content keeping P w
        from none = flushed
        from (some yaml) = sent (property yaml) (silent yaml)

    open_writer-Grows :
        (sdk : Sdk) (all_lenses : Result (List String)) (path : String) (config : RecordingConfig)
        (now : ℕ) (w : Writer buffer)
        → open_writer sdk buffer all_lenses path config now ≡ ok w
        → Grown 0 w
    unfolding open_writer open_recording
    open_writer-Grows sdk all_lenses path config now w e =
        let (lens_set, built, rest) =
          >>=-eq-ok (lenses_for all_lenses config.representations config.unmatched) _ e in
        let (rec, opened, last) = >>=-eq-ok (open_recording sdk path config) _ rest in
        let (x, saved, streams) =
          >>=-eq-ok (ensure (sdk.save (stream_settings sdk config) path) open_failed) _ opened in
        let (live, listening, made) =
          >>=-eq-ok (open_live sdk (stream_settings sdk config) config.server_uri) _ streams in
        subst (Grown 0) (ok_inj last) (record {
          kept = tt;
          counted = ap (λ (r : Recording C). on_file content P r + 0) (sym (ok_inj made));
        })

  -- For a buffer that keeps what is pushed into it until a flush, which does not fail, hands it out, and
  -- where static chunks and the closing property carry no message: after any operations on a writer that
  -- was opened, in any order, the chunks of the file and the buffers of the topics together hold each
  -- message as often as it was accepted, neither lost nor doubled, and so do the chunks of the file alone
  -- when the writer is closed.
  pub session-conserves :
      (sdk : Sdk) (all_lenses : Result (List String)) (path : String) (config : RecordingConfig)
      (now later : ℕ) (opened w : Writer buffer) (es : List Entry)
      (property : String → Option C × Option C) (file_flush : Result (Unit {0})) (P : Entry → Bool)
      → open_writer sdk buffer all_lenses path config now ≡ ok opened
      → Records opened es w
      → ((yaml : String) (chunk : C) → (property yaml).0 ≡ some chunk → content chunk ≡ [])
      → (total buffer content keeping P w ≡ count P es)
        × (count P (contents content (close buffer property file_flush later w).1.file)
            ≡ count P es)
  session-conserves sdk all_lenses path config now later opened w es property file_flush P e r
        silent =
      let start = open_writer-Grows P sdk all_lenses path config now opened e in
      let g = Records-Grows P r start in
      let counted : total buffer content keeping P w ≡ count P es = omega (arith, g.counted) in
      (counted, close-on_file P property file_flush later w g.kept silent ∙ counted)
