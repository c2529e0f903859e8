-- ===== src/Config.antt =====
-- config.rs: the profiles, the storage config file on top of them, and what a valid configuration
-- is. The YAML parser and the parser of server URLs are parameters. A duration is in nanoseconds.
pub mod Valid
use rosbag2_storage_rrd.Base.{
  config_parse, unknown_profile, ◌==◌, ◌/◌, empty_recording_id, str_eq, not, ◌++◌, drop_contradicts,
  ◌||◌, leb, ◌*◌, ◌∷◌, ◌&&◌, ◌>>=◌, bad_server_uri, no_representations, if◌then◌else◌, List, Option,
  String, ℕ, Result, Bool, true, false, zero, suc, some, none, ok, err, [],
}
use Prim.Native.Char.{code}
use Prim.Native.String.{◌++◌ as str_append}

pub data Representation : Type 0 where
  raw reflected lenses : Representation

-- The name used in configuration files.
unfoldable pub name : Representation → String
name raw = "raw"
name reflected = "reflected"
name lenses = "lenses"

pub data Unmatched : Type 0 where
  keep discard : Unmatched

-- A `BTreeSet<Representation>`: for each of the three, whether it is in the set.
pub record Representations : Type 0 where
  pub has_raw : Bool
  pub has_reflected : Bool
  pub has_lenses : Bool

abbrev pub no_representations_set : Representations
no_representations_set = record { has_raw = false; has_reflected = false; has_lenses = false }

unfoldable pub contains : Representations → Representation → Bool
contains set_ raw = set_.has_raw
contains set_ reflected = set_.has_reflected
contains set_ lenses = set_.has_lenses

unfoldable pub insert_into : Representations → Representation → Representations
insert_into set_ raw = record set_ { has_raw = true }
insert_into set_ reflected = record set_ { has_reflected = true }
insert_into set_ lenses = record set_ { has_lenses = true }

-- `into_iter().collect()`
unfoldable pub collect_set : List Representation → Representations
unfolding insert_into
collect_set [] = no_representations_set
collect_set (x ∷ xs) = insert_into (collect_set xs) x

-- In the order of the set: raw, reflected, lenses.
unfoldable pub iter : Representations → List Representation
iter set_ =
    (if set_.has_raw then raw ∷ [] else [])
    ++ (if set_.has_reflected then reflected ∷ [] else [])
    ++ (if set_.has_lenses then lenses ∷ [] else [])

unfoldable pub join : List Representation → String
unfolding name
join [] = ""
join (x ∷ []) = name x
join (x ∷ y ∷ xs) = str_append (name x) (str_append "," (join (y ∷ xs)))

unfoldable pub format_representations : Representations → String
unfolding iter join
format_representations set_ = join (iter set_)

pub record FlushPolicy : Type 0 where
  pub max_rows : ℕ
  pub max_bytes : ℕ
  pub max_latency : Option ℕ

pub record RecordingConfig : Type 0 where
  pub flush : FlushPolicy
  pub representations : Representations
  pub unmatched : Unmatched
  pub recording_id : Option String
  pub server_uri : Option String

-- The flush policy of each profile.
unfoldable pub profile_flush : String → Result FlushPolicy
profile_flush profile =
    if str_eq profile "" || str_eq profile "none"
    then ok (record { max_rows = 64; max_bytes = 8 * (1024 * 1024); max_latency = some 200000000 })
    else if str_eq profile "low_latency"
    then ok (record {
      max_rows = 0;
      max_bytes = 8 * (1024 * 1024);
      max_latency = some (1000000000 / 30);
    })
    else if str_eq profile "ultra_low_latency"
    then ok (record {
      max_rows = 0;
      max_bytes = 8 * (1024 * 1024);
      max_latency = some (1000000000 / 60);
    })
    else if str_eq profile "high_throughput"
    then ok (record { max_rows = 1024; max_bytes = 8 * (1024 * 1024); max_latency = none })
    else err (unknown_profile profile)

unfoldable pub from_profile : String → Result RecordingConfig
unfolding profile_flush collect_set
from_profile profile = do
  flush ← profile_flush profile
  ok (record {
    flush = flush;
    representations = collect_set (reflected ∷ []);
    unmatched = keep;
    recording_id = none;
    server_uri = none;
  })

pub record ConfigFile : Type 0 where
  pub representations : Option (List Representation)
  pub unmatched : Option Unmatched
  pub recording_id : Option String
  pub server_uri : Option String
  pub max_rows : Option ℕ
  pub max_bytes : Option ℕ
  pub max_latency_ms : Option ℕ

-- The code points that `str::trim` takes off.
unfoldable pub is_whitespace : ℕ → Bool
is_whitespace c =
    (leb 9 c && leb c 13)
    || c == 32
    || c == 133
    || c == 160
    || c == 5760
    || (leb 8192 c && leb c 8202)
    || c == 8232
    || c == 8233
    || c == 8239
    || c == 8287
    || c == 12288

-- `trim().is_empty()`
unfoldable pub is_blank : String → Bool
unfolding is_whitespace
is_blank String.[] = true
is_blank (String.◌∷◌ c rest) = is_whitespace (code c) && is_blank rest

abbrev pub get_set {ℓ} : {A : Type ℓ} → Option A → A → A
get_set none old = old
get_set (some new) old = new

-- `drop` keeps only what the lenses derive.
unfoldable pub is_consistent : Unmatched → Representations → Bool
unfolding contains
is_consistent keep set_ = true
is_consistent discard set_ = contains set_ lenses && not (contains set_ reflected)

unfoldable pub set_representations :
    Option (List Representation) → RecordingConfig → Result RecordingConfig
unfolding collect_set
set_representations none config = ok config
set_representations (some []) config = err no_representations
set_representations (some (x ∷ xs)) config =
    ok (record config { representations = collect_set (x ∷ xs) })

unfoldable pub check_unmatched : RecordingConfig → Result RecordingConfig
unfolding is_consistent
check_unmatched config =
    if is_consistent config.unmatched config.representations
    then ok config
    else err drop_contradicts

unfoldable pub set_recording_id : Option String → RecordingConfig → Result RecordingConfig
unfolding is_blank
set_recording_id none config = ok config
set_recording_id (some id) config =
    if is_blank id then err empty_recording_id else ok (record config { recording_id = some id })

-- `(ms > 0).then(|| Duration::from_millis(ms))`
unfoldable pub latency : Option ℕ → Option ℕ → Option ℕ
latency none old = old
latency (some zero) old = none
latency (some (suc ms)) old = some (suc ms * 1000000)

module _ (parse_uri : String → Result String) where
  unfoldable pub set_server_uri : Option String → RecordingConfig → Result RecordingConfig
  set_server_uri none config = ok config
  set_server_uri (some text) config = elim (parse_uri text) [
    | ok uri ↦ ok (record config { server_uri = some uri })
    | err e ↦ err bad_server_uri
  ]

  -- `ConfigFile::apply`: each key that is set overrides the profile's value.
  unfoldable pub apply : ConfigFile → RecordingConfig → Result RecordingConfig
  unfolding set_representations check_unmatched set_recording_id set_server_uri latency
  apply file config = do
    config1 ← set_representations file.representations config
    config2 ←
        check_unmatched (record config1 { unmatched = get_set file.unmatched config1.unmatched })
    config3 ← set_recording_id file.recording_id config2
    config4 ← set_server_uri file.server_uri config3
    ok (record config4 {
      flush = record {
        max_rows = get_set file.max_rows config4.flush.max_rows;
        max_bytes = get_set file.max_bytes config4.flush.max_bytes;
        max_latency = latency file.max_latency_ms config4.flush.max_latency;
      };
    })

  module _ (parse_yaml : String → Result ConfigFile) where
    -- A profile, with the config file on top of it if there is one.
    unfoldable pub resolve : String → String → Result RecordingConfig
    unfolding from_profile is_blank apply
    resolve profile config_yaml = do
      config ← from_profile profile
      if is_blank config_yaml then ok config else (elim (parse_yaml config_yaml) [
        | err e ↦ err config_parse
        | ok file ↦ apply file config
      ])
