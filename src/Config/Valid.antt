-- ===== src/Config/Valid.antt =====
-- A configuration that `resolve` returns is valid.
use rosbag2_storage_rrd.Config.{
  Representations, contains, Unmatched, raw, reflected, lenses, keep, discard,
}
use rosbag2_storage_rrd.Config.{
  Representation, resolve, get_set, is_blank, ConfigFile, is_consistent, insert_into, FlushPolicy,
  apply, set_recording_id, set_server_uri, check_unmatched, profile_flush, collect_set, latency,
  iter, set_representations, RecordingConfig, from_profile,
}
use rosbag2_storage_rrd.Base.{
  >>=-eq-ok, ok_inj, empty_recording_id, config_parse, ◌∙◌, if◌then◌else◌, sym, ap, Bool, ◌∷◌,
  bad_server_uri, Bool-cases, some_inj, ℕ, subst, List, String, ◌≢◌, Result, Option, err, refl, inl,
  inr, ◌≡◌, true, false, zero, suc, some, none, ok, arith, [],
}

-- An id, if there is one, is more than white space.
abbrev pub IsNamed : Option String → Type 0
IsNamed none = Unit
IsNamed (some id) = is_blank id ≡ false

-- Messages that no lens takes may be dropped only if lenses are applied, and the struct is not kept.
abbrev pub IsLayered : Unmatched → Representations → Type 0
IsLayered keep asked = Unit
IsLayered discard asked = (asked.has_lenses ≡ true) × (asked.has_reflected ≡ false)

is_consistent-IsLayered :
    (unmatched : Unmatched) (asked : Representations)
    → is_consistent unmatched asked ≡ true
    → IsLayered unmatched asked
unfolding is_consistent contains
is_consistent-IsLayered keep asked e = tt
is_consistent-IsLayered discard asked e = (ground arith, ground arith)

-- Something is kept, `drop` stands only with lenses and without the reflected form, a recording id
-- that is set is not blank, and no time limit is 0.
pub record IsValid (config : RecordingConfig) : Type 0 where
  pub nonempty : iter config.representations ≢ []
  pub consistent : IsLayered config.unmatched config.representations
  pub identified : IsNamed config.recording_id
  pub timed : config.flush.max_latency ≢ some 0

collect_set-nonempty :
    (x : Representation) (xs : List Representation) → iter (collect_set (x ∷ xs)) ≢ []
unfolding iter collect_set insert_into
collect_set-nonempty raw xs = λ e. ground arith
collect_set-nonempty reflected xs = λ e. ground arith
collect_set-nonempty lenses xs = λ e. ground arith

latency-timed : (ms old : Option ℕ) → old ≢ some 0 → latency ms old ≢ some 0
unfolding latency
latency-timed none old h = h
latency-timed (some zero) old h = λ e. cc
latency-timed (some (suc ms)) old h = λ e. ground (arith, some_inj e)

profile_flush-timed :
    (profile : String) (f : FlushPolicy) → profile_flush profile ≡ ok f → f.max_latency ≢ some 0
unfolding profile_flush
profile_flush-timed profile f e = λ z. ground arith

from_profile-IsValid :
    (profile : String) (c : RecordingConfig) → from_profile profile ≡ ok c → IsValid c
unfolding from_profile collect_set insert_into iter is_consistent
from_profile-IsValid profile c e =
    let (f, made, same) = >>=-eq-ok (profile_flush profile) _ e in
    subst IsValid (ok_inj same) (record {
      nonempty = λ x. cc;
      consistent = tt;
      identified = tt;
      timed = profile_flush-timed profile f made;
    })

set_representations-nonempty :
    (xs : Option (List Representation)) (c d : RecordingConfig)
    → set_representations xs c ≡ ok d
    → iter c.representations ≢ []
    → iter d.representations ≢ []
unfolding set_representations
set_representations-nonempty none c d e h =
    subst (λ (x : RecordingConfig). iter x.representations ≢ []) (ok_inj e) h
set_representations-nonempty (some []) c d e h = cc
set_representations-nonempty (some (x ∷ xs)) c d e h =
    subst (λ (y : RecordingConfig). iter y.representations ≢ []) (ok_inj e)
      (collect_set-nonempty x xs)

set_representations-flush :
    (xs : Option (List Representation)) (c d : RecordingConfig)
    → set_representations xs c ≡ ok d
    → (d.flush ≡ c.flush) × (d.recording_id ≡ c.recording_id)
unfolding set_representations
set_representations-flush none c d e = (
  ap (λ (y : RecordingConfig). y.flush) (sym (ok_inj e)),
  ap (λ (y : RecordingConfig). y.recording_id) (sym (ok_inj e)),
)
set_representations-flush (some []) c d e = cc
set_representations-flush (some (x ∷ xs)) c d e = (
  ap (λ (y : RecordingConfig). y.flush) (sym (ok_inj e)),
  ap (λ (y : RecordingConfig). y.recording_id) (sym (ok_inj e)),
)

check_unmatched-consistent :
    (c d : RecordingConfig)
    → check_unmatched c ≡ ok d
    → (c ≡ d) × IsLayered c.unmatched c.representations
unfolding check_unmatched
check_unmatched-consistent c d e = elim (Bool-cases (is_consistent c.unmatched c.representations)) [
  | inl t ↦ (
    ok_inj (sym (unfold check_unmatched in rw t refl) ∙ e),
    is_consistent-IsLayered c.unmatched c.representations t,
  )
  | inr t ↦ ground arith
]

set_recording_id-IsValid :
    (id : Option String) (c d : RecordingConfig)
    → set_recording_id id c ≡ ok d
    → IsValid c
    → IsValid d
unfolding set_recording_id
set_recording_id-IsValid none c d e v = subst IsValid (ok_inj e) v
set_recording_id-IsValid (some id) c d e v = elim (Bool-cases (is_blank id)) [
  | inl t ↦ ground arith
  | inr t ↦
      let same : ok (record c { recording_id = some id }) ≡ ok d =
        subst
          (λ b.
            (if b then err empty_recording_id else ok (record c { recording_id = some id })) ≡ ok d)
          t e in
      subst IsValid (ok_inj same) (record {
        nonempty = v.nonempty;
        consistent = v.consistent;
        identified = t;
        timed = v.timed;
      })
]

set_server_uri-IsValid :
    (parse_uri : String → Result String) (text : Option String) (c d : RecordingConfig)
    → set_server_uri parse_uri text c ≡ ok d
    → IsValid c
    → IsValid d
unfolding set_server_uri
set_server_uri-IsValid parse_uri none c d e v = subst IsValid (ok_inj e) v
set_server_uri-IsValid parse_uri (some text) c d e v = from (parse_uri text) e
  where
    from :
        (parsed : Result String)
        → elim parsed [
          | ok uri ↦ ok (record c { server_uri = some uri })
          | err x ↦ err bad_server_uri
        ]
          ≡ ok d
        → IsValid d
    from (ok uri) e' = subst IsValid (ok_inj e') (record {
      nonempty = v.nonempty;
      consistent = v.consistent;
      identified = v.identified;
      timed = v.timed;
    })
    from (err x) e' = cc

module _ (parse_uri : String → Result String) where
  -- A config file that is applied to a valid configuration leaves a valid one.
  pub apply-IsValid :
      (file : ConfigFile) (c d : RecordingConfig)
      → apply parse_uri file c ≡ ok d
      → IsValid c
      → IsValid d
  unfolding apply
  apply-IsValid file c d e v =
      let (c1, e1, r1) = >>=-eq-ok (set_representations file.representations c) _ e in
      let asked : RecordingConfig = record c1 { unmatched = get_set file.unmatched c1.unmatched } in
      let (c2, e2, r2) = >>=-eq-ok (check_unmatched asked) _ r1 in
      let (c3, e3, r3) = >>=-eq-ok (set_recording_id file.recording_id c2) _ r2 in
      let (c4, e4, r4) = >>=-eq-ok (set_server_uri parse_uri file.server_uri c3) _ r3 in
      let kept = set_representations-flush file.representations c c1 e1 in
      let (same, consistent) = check_unmatched-consistent asked c2 e2 in
      let v2 : IsValid c2 = subst IsValid same (record {
        nonempty = set_representations-nonempty file.representations c c1 e1 v.nonempty;
        consistent = consistent;
        identified = subst IsNamed (sym kept.1) v.identified;
        timed = λ x. v.timed (sym (ap (λ (f : FlushPolicy). f.max_latency) kept.0) ∙ x);
      }) in
      let v4 =
        set_server_uri-IsValid parse_uri file.server_uri c3 c4 e4
          (set_recording_id-IsValid file.recording_id c2 c3 e3 v2) in
      subst IsValid (ok_inj r4) (record {
        nonempty = v4.nonempty;
        consistent = v4.consistent;
        identified = v4.identified;
        timed = latency-timed file.max_latency_ms c4.flush.max_latency v4.timed;
      })

  module _ (parse_yaml : String → Result ConfigFile) where
    -- Whatever the profile and the config file say, a configuration that `resolve` returns keeps at
    -- least one representation, asks for `drop` only with lenses and without the reflected form, has no
    -- blank recording id, and has no time limit of 0.
    pub resolve-IsValid :
        (profile config_yaml : String) (d : RecordingConfig)
        → resolve parse_uri parse_yaml profile config_yaml ≡ ok d
        → IsValid d
    unfolding resolve
    resolve-IsValid profile config_yaml d e =
        let (c, made, rest) = >>=-eq-ok (from_profile profile) _ e in
        let v = from_profile-IsValid profile c made in
        from c v (is_blank config_yaml) (parse_yaml config_yaml) rest
      where
        from :
            (c : RecordingConfig)
            → IsValid c
            → (b : Bool) (parsed : Result ConfigFile)
            → (if b
                then ok c
                else (elim parsed [ err x ↦ err config_parse | ok file ↦ apply parse_uri file c ]))
              ≡ ok d
            → IsValid d
        from c v true parsed e' = subst IsValid (ok_inj e') v
        from c v false (ok file) e' = apply-IsValid file c d e' v
        from c v false (err x) e' = cc
