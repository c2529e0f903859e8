-- ===== src/Base/Results.antt =====
-- Fallible code: each place where the source makes an `anyhow` error is a constructor of `Error`.
use Prim.Native.Nat.{ℕ}
use Prim.Native.String.{String}
use mathlib.Core.Path.{◌≡◌, refl}

pub data Error : Type 0 where
  -- config.rs
  unknown_profile : String → Error
  config_parse no_representations drop_contradicts empty_recording_id bad_server_uri : Error
  -- writer.rs
  open_failed stream_failed connect_failed connect_timeout flush_failed : Error
  no_topic : ℕ → Error
  -- pipeline.rs
  bad_encoding not_utf8 empty_definition delimited_definition bad_definition bad_plan : Error
  bad_archetype_name chunk_failed scatter_failed lenses_failed : Error
  -- index.rs and reader.rs
  bad_manifest read_failed unreadable no_recording undescribed_data not_a_struct : Error
  no_payload no_plan : ℕ → Error
  -- replay.rs
  encode_failed : Error
  -- lib.rs
  null_pointer null_handle : String → Error
  -- a panic: an index out of range, an `expect` that fails
  panicked : Error
  -- the model's own: a loop was given fewer rounds than it takes
  out_of_fuel : Error
  -- any error of code outside the crate
  foreign : String → Error

pub data Result {ℓ} (A : Type ℓ) : Type ℓ where
  ok : A → Result A
  err : Error → Result A

infixl 5 ◌>>=◌ ◌>>◌
abbrev pub ◌>>=◌ {ℓ κ} : {A : Type ℓ} {B : Type κ} → Result A → (A → Result B) → Result B
ok a >>= f = f a
err e >>= f = err e

abbrev pub ◌>>◌ {ℓ κ} : {A : Type ℓ} {B : Type κ} → Result A → Result B → Result B
m >> k = m >>= λ _. k

pub ok_inj {ℓ} : {A : Type ℓ} {a b : A} → ok a ≡ ok b → a ≡ b
ok_inj e = cc

-- A successful bind, taken apart.
pub >>=-eq-ok {ℓ κ} :
    {A : Type ℓ} {B : Type κ} (m : Result A) (f : A → Result B) {b : B}
    → m >>= f ≡ ok b
    → (a : A) × (m ≡ ok a) × (f a ≡ ok b)
>>=-eq-ok (ok a) f e = (a, refl, e)
>>=-eq-ok (err x) f e = cc
