-- ===== src/Entry.antt =====
-- lib.rs: what the entry points share. A pointer is an option, null is `none`: a pointer to text is
-- the memory behind it, a handle is the object it stands for, and of an out pointer only counts
-- whether it is null. What an entry point writes through its out pointer is part of its answer.
pub mod Names
pub mod Reading
pub mod Writing
pub mod Reports
pub mod Playback
pub mod Session
use rosbag2_storage_rrd.Base.{
  take, ◌==◌, if◌then◌else◌, null_handle, null_pointer, ℕ, Error, Option, Bool, String, Result,
  true, false, some, none, ok, err, [],
}
use rosbag2_storage_rrd.Base.{panicked}
use rosbag2_storage_rrd.Arrow.{Bytes}
use rosbag2_storage_rrd.Ffi.{Call, Slot, Status, failed, guard, panics, returned}

-- What the entry points take from the standard library: UTF-8, how a failure and its reason are put
-- together, how an error is printed, and the text of a panic.
pub record Host : Type 0 where
  pub from_utf8 : Bytes → Result String
  pub to_utf8 : String → Bytes
  pub print : Bytes → Bytes → Bytes
  pub print_error : Error → Bytes
  pub panic_reason : Bytes

-- Borrows a pointer and a length as bytes; the memory is at least as long.
unfoldable pub bytes : Option Bytes → ℕ → Bytes
bytes none len = []
bytes (some memory) len = if len == 0 then [] else take len memory

-- Text that a caller passes.
pub record Text : Type 0 where
  pub ptr : Option Bytes
  pub len : ℕ

unfoldable pub text : Host → Text → Result String
unfolding bytes
text host t = host.from_utf8 (bytes t.ptr t.len)

-- How a closure ends: an error or a panic, or what it has written through the out pointer.
abbrev pub Outcome : Type 0 → Type 0
Outcome O = Result (Option O)

abbrev pub called {ℓ} : {A : Type ℓ} → Host → Result A → Call
called host (ok x) = returned
called host (err panicked) = panics host.panic_reason
called host (err e) = failed e

-- An entry point's status, the thread's last error, the handle's object, and what was written.
pub record Answer (H O : Type 0) : Type 0 where
  pub status : Status
  pub slot : Slot
  pub handle : Option H
  pub written : Option O

abbrev pub written_by : {O : Type 0} → Outcome O → Option O
written_by (ok w) = w
written_by (err e) = none

-- `guard(what, closure)`.
unfoldable pub answer : {H O : Type 0} → Host → String → Slot → Outcome O × Option H → Answer H O
unfolding guard
answer host what slot (outcome, handle) =
    let (status, slot') =
      guard host.print host.print_error (host.to_utf8 what) (called host outcome) slot in
    record { status = status; slot = slot'; handle = handle; written = written_by outcome }

-- A call behind the test of an out pointer, which comes first; `what` is the reason for a null one.
abbrev pub with_out :
    {H O : Type 0} → String → Bool → Option H → Outcome O × Option H → Outcome O × Option H
with_out what true handle call = call
with_out what false handle call = (err (null_pointer what), handle)

-- `reader(handle)?` and `writer(handle)?`: a call of the object behind a handle.
unfoldable pub on_handle :
    {H O : Type 0} → String → (H → Outcome O × H) → Option H → Outcome O × Option H
on_handle what f none = (err (null_handle what), none)
on_handle what f (some h) = let (outcome, h') = f h in (outcome, some h')

-- An argument that is checked before the call.
abbrev pub with_argument :
    {A H O : Type 0} → Option H → Result A → (A → Outcome O × Option H) → Outcome O × Option H
with_argument handle (err e) call = (err e, handle)
with_argument handle (ok a) call = call a

-- A call that writes nothing.
abbrev pub plain : {H O : Type 0} → Result (Unit {0}) × H → Outcome O × H
plain (ok x, h) = (ok none, h)
plain (err e, h) = (err e, h)
