-- ===== src/Ffi.antt =====
-- error.rs: how an entry point answers across the boundary to C++. The text of a message is bytes; how
-- an error is printed is the parameter `print`. A call is what its closure does: it returns, fails,
-- or panics.
use rosbag2_storage_rrd.Arrow.{Bytes}
use rosbag2_storage_rrd.Base.{
  ◌∙◌, ap, length-append, ◌++◌, ◌+◌, ◌∷◌, take, ◌≡◌, length, ◌≤◌, ◌<◌, min, ℕ, Option, Error, zero,
  suc, some, none, refl, arith, [],
}

pub data Call : Type 0 where
  returned : Call
  failed : Error → Call
  panics : Bytes → Call

-- What an entry point returns: 0, or -1.
pub data Status : Type 0 where
  success failure : Status

-- The thread's slot for the last error.
abbrev pub Slot : Type 0
Slot = Bytes

unfoldable pub set_last_error : Bytes → Slot → Slot
set_last_error message slot = message

module _ (print : Bytes → Bytes → Bytes) (print_error : Error → Bytes) where
  -- Errors and panics are both turned into a failure and its reason: `print` puts what failed and the
  -- reason together.
  unfoldable pub guard : Bytes → Call → Slot → Status × Slot
  unfolding set_last_error
  guard what returned slot = (success, slot)
  guard what (failed e) slot = (failure, set_last_error (print what (print_error e)) slot)
  guard what (panics reason) slot = (failure, set_last_error (print what reason) slot)

-- Copies the last error into a buffer of `buf_len` bytes, none for a null pointer, and clears it:
-- the returned length, the buffer's bytes that are written, and the slot.
unfoldable pub rrd_last_error : Option ℕ → Slot → ℕ × (Bytes × Slot)
rrd_last_error none slot = (0, ([], slot))
rrd_last_error (some zero) slot = (0, ([], slot))
rrd_last_error (some (suc room)) slot =
    (min (length slot) room, (take (min (length slot) room) slot ++ 0 ∷ [], []))

length-take : (n : ℕ) (xs : Bytes) → n ≤ length xs → length (take n xs) ≡ n
length-take zero xs h = refl
length-take (suc n) [] h = absurd (omega arith)
length-take (suc n) (x ∷ xs) h = ap suc (length-take n xs (omega arith))

-- With a buffer of at least one byte: what `rrd_last_error` writes is as many bytes of the message, from
-- its start, as the returned length says, and the terminator 0 right behind them; it fits the buffer,
-- the length is at most the message's, and asking again gives an empty message.
pub rrd_last_error-fits :
    (buf_len : ℕ) (slot : Slot)
    → 0 < buf_len
    → ((rrd_last_error (some buf_len) slot).1.0
        ≡ take (rrd_last_error (some buf_len) slot).0 slot ++ 0 ∷ [])
      × (length (rrd_last_error (some buf_len) slot).1.0
          ≡ (rrd_last_error (some buf_len) slot).0 + 1)
      × ((rrd_last_error (some buf_len) slot).0 + 1 ≤ buf_len)
      × ((rrd_last_error (some buf_len) slot).0 ≤ length slot)
      × ((rrd_last_error (some buf_len) (rrd_last_error (some buf_len) slot).1.1).0 ≡ 0)
unfolding rrd_last_error
rrd_last_error-fits zero slot h = absurd (omega arith)
rrd_last_error-fits (suc room) slot h =
    let taken : length (take (min (length slot) room) slot) ≡ min (length slot) room =
      length-take (min (length slot) room) slot (omega arith) in
    (
      refl,
      length-append (take (min (length slot) room) slot) (0 ∷ []) ∙ ap (λ n. n + 1) taken,
      omega arith,
      omega arith,
      omega arith,
    )
