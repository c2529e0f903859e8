-- ===== src/Replay/Bulk.antt =====
-- `encode_builtin_array` of replay.rs against the loop over its elements.
use rosbag2_storage_rrd.Base.{
  sym, ap, ◌∙◌, encode_failed, ◌<◌, arith, ◌+◌, ◌≡◌, ◌>>=◌, ℕ, List, Result, zero, suc, ok, err,
  refl,
}
use rosbag2_storage_rrd.Arrow.{Array, Bytes}
use rosbag2_storage_rrd.Replay.{
  scalar_form, downcast_strings, downcast_numbers, form, Form, encode_builtin, encode_builtin_array,
  BuiltInType, CdrWriter, for_each, value, write_each,
}

-- One element of the array that a downcast gave.
abbrev element {ℓ} : {A : Type ℓ} → (A → Bytes → Bytes) → Result (List A) → ℕ → Bytes → Result Bytes
element write vs row body = vs >>= λ xs. value xs row >>= λ v. ok (write v body)

-- A value is written, and what follows is the same.
bind-write {ℓ} :
    {A : Type ℓ} (r : Result A) (write : A → Bytes) (k l : Bytes → Result Bytes)
    → ((body : Bytes) → k body ≡ l body)
    → (r >>= λ v. k (write v)) ≡ ((r >>= λ v. ok (write v)) >>= l)
bind-write (ok v) write k l h = h (write v)
bind-write (err e) write k l h = refl

module _ (cdr : CdrWriter) where
  write_each-for_each {ℓ} :
      {A : Type ℓ} (write : A → Bytes → Bytes) (vs : List A) (start n : ℕ) (body : Bytes)
      → write_each cdr write vs start n body ≡ for_each cdr (element write (ok vs)) start n body
  unfolding write_each for_each
  write_each-for_each write vs start zero body = refl
  write_each-for_each write vs start (suc n) body =
      bind-write (value vs start) (λ v. write v body) (write_each cdr write vs (start + 1) n)
        (for_each cdr (element write (ok vs)) (start + 1) n)
        (write_each-for_each write vs (start + 1) n)

  downcast_once {ℓ} :
      {A : Type ℓ} (write : A → Bytes → Bytes) (r : Result (List A)) (start n : ℕ) (body : Bytes)
      → (r >>= λ vs. write_each cdr write vs start (suc n) body)
        ≡ for_each cdr (element write r) start (suc n) body
  downcast_once write (ok vs) start n body = write_each-for_each write vs start (suc n) body
  downcast_once write (err e) start n body = unfold for_each in refl

  -- The two ways for each form of a built-in type.
  abbrev bulk_as : Array → ℕ → ℕ → Bytes → Form → Result Bytes
  bulk_as a start n body f = elim f [
    | Form.number t ↦
        downcast_numbers t a >>= λ vs. write_each cdr (cdr.write_number t) vs start n body
    | Form.text ↦ downcast_strings a >>= λ vs. write_each cdr cdr.write_string vs start n body
    | Form.unsupported ↦ err encode_failed
  ]

  abbrev one_as : Array → Form → ℕ → Bytes → Result Bytes
  one_as a f row body = elim f [
    | Form.number t ↦ element (cdr.write_number t) (downcast_numbers t a) row body
    | Form.text ↦ element cdr.write_string (downcast_strings a) row body
    | Form.unsupported ↦ err encode_failed
  ]

  bulk_as-one_as :
      (a : Array) (start n : ℕ) (body : Bytes) (f : Form)
      → bulk_as a start (suc n) body f ≡ for_each cdr (one_as a f) start (suc n) body
  bulk_as-one_as a start n body (Form.number t) =
      downcast_once (cdr.write_number t) (downcast_numbers t a) start n body
  bulk_as-one_as a start n body Form.text =
      downcast_once cdr.write_string (downcast_strings a) start n body
  bulk_as-one_as a start n body Form.unsupported = unfold for_each in refl

  -- The two tables agree.
  scalar_form-form : (ty : BuiltInType) → scalar_form ty ≡ form ty
  unfolding scalar_form form
  scalar_form-form BuiltInType.bool = refl
  scalar_form-form BuiltInType.byte = refl
  scalar_form-form BuiltInType.char = refl
  scalar_form-form BuiltInType.uint8 = refl
  scalar_form-form BuiltInType.int8 = refl
  scalar_form-form BuiltInType.int16 = refl
  scalar_form-form BuiltInType.uint16 = refl
  scalar_form-form BuiltInType.int32 = refl
  scalar_form-form BuiltInType.uint32 = refl
  scalar_form-form BuiltInType.int64 = refl
  scalar_form-form BuiltInType.uint64 = refl
  scalar_form-form BuiltInType.float32 = refl
  scalar_form-form BuiltInType.float64 = refl
  scalar_form-form (BuiltInType.string n) = refl
  scalar_form-form (BuiltInType.wstring n) = refl

  -- Writing a slice of at least one built-in with a single downcast is writing its elements one by one:
  -- the same bytes, or the same error, for every type, array and slice, also where the downcast fails
  -- or the slice leaves the array.
  pub encode_builtin_array-for_each :
      (ty : BuiltInType) (a : Array) (start n : ℕ) (body : Bytes)
      → 0 < n
      → encode_builtin_array cdr ty a start n body
        ≡ for_each cdr (encode_builtin cdr ty a) start n body
  encode_builtin_array-for_each ty a start zero body some_elements = absurd (omega arith)
  encode_builtin_array-for_each ty a start (suc n) body some_elements =
      unfold encode_builtin_array encode_builtin in
      (bulk_as-one_as a start n body (form ty)
        ∙ ap (λ (f : Form). for_each cdr (one_as a f) start (suc n) body)
            (sym (scalar_form-form ty)))
