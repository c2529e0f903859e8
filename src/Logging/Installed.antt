-- ===== src/Logging/Installed.antt =====
-- `rrd_set_log_callback` of logging.rs: which callback gets the messages. A callback is an `F`.
use rosbag2_storage_rrd.Entry.Reports.{Reports}
use rosbag2_storage_rrd.Base.{not}
use rosbag2_storage_rrd.Base.{
  ◌≡◌, ◌∷◌, List, refl, [], null_pointer, Option, some, none, ok, err, Bool, true, false,
  if◌then◌else◌,
}
use rosbag2_storage_rrd.Entry.{Answer, Host, answer}
use rosbag2_storage_rrd.Ffi.{success, Slot}

-- What a process has installed: whether `Once` has run, whether the messages of `log` are bridged to
-- `tracing`, and the callback of the subscriber, if the subscriber is the global default.
pub record Installed (F : Type 0) : Type 0 where
  pub is_done : Bool
  pub is_bridged : Bool
  pub callback : Option F

abbrev pub nothing_installed : {F : Type 0} → Installed F
nothing_installed = record { is_done = false; is_bridged = false; callback = none }

-- What `set_global_default(subscriber).ok()` leaves: where another component's subscriber is `taken`
-- for the default, it fails, and that is ignored.
abbrev pub set_global_default : {F : Type 0} → Bool → F → Option F
set_global_default taken callback = if taken then none else some callback

-- What `LogTracer::init().ok()` leaves, which fails the same way where another component has the logger.
abbrev pub init_bridge : Bool → Bool
init_bridge taken = not taken

-- `call_once`: what the first call does is all that is ever done.
abbrev pub installed_by : {F : Type 0} → Bool → Bool → F → Installed F → Installed F
installed_by logger default callback installed = if installed.is_done then installed else record {
  is_done = true;
  is_bridged = init_bridge logger;
  callback = set_global_default default callback;
}

module _ {F : Type 0} (host : Host) where
  -- `logger` and `default` say that another component has the logger of `log`, or the global default
  -- subscriber of `tracing`.
  unfoldable pub rrd_set_log_callback :
      Bool → Bool → Option F → Slot → Installed F → Answer (Installed F) (Unit {0})
  unfolding answer
  rrd_set_log_callback logger default none slot installed =
      answer host "rrd_set_log_callback" slot
        (err (null_pointer "null log callback"), some installed)
  rrd_set_log_callback logger default (some callback) slot installed =
      answer host "rrd_set_log_callback" slot
        (ok none, some (installed_by logger default callback installed))

  abbrev after : Option (Installed F) → Installed F → Installed F
  after none installed = installed
  after (some left) installed = left

  -- Calls one after another, each with what other components have by then.
  unfoldable pub install : List (Bool × Bool × Option F) → Installed F → Installed F
  unfolding rrd_set_log_callback
  install [] installed = installed
  install ((logger, default, callback) ∷ calls) installed =
      install calls
        (after (rrd_set_log_callback logger default callback [] installed).handle installed)

  -- The callback of the first call that has one, if the default is free by then.
  abbrev pub first_callback : List (Bool × Bool × Option F) → Option F
  first_callback [] = none
  first_callback ((logger, default, none) ∷ calls) = first_callback calls
  first_callback ((logger, true, some callback) ∷ calls) = none
  first_callback ((logger, false, some callback) ∷ calls) = some callback

  -- Whether the logger is free by the first call that has a callback.
  abbrev pub first_bridged : List (Bool × Bool × Option F) → Bool
  first_bridged [] = false
  first_bridged ((logger, default, none) ∷ calls) = first_bridged calls
  first_bridged ((true, default, some callback) ∷ calls) = false
  first_bridged ((false, default, some callback) ∷ calls) = true

  install-done :
      (calls : List (Bool × Bool × Option F)) (bridged : Bool) (callback : Option F)
      → install calls (record { is_done = true; is_bridged = bridged; callback = callback })
        ≡ record { is_done = true; is_bridged = bridged; callback = callback }
  unfolding install
  install-done [] bridged callback = refl
  install-done ((logger, default, none) ∷ calls) bridged callback =
      install-done calls bridged callback
  install-done ((logger, default, some f) ∷ calls) bridged callback =
      install-done calls bridged callback

  abbrev IsFirst : List (Bool × Bool × Option F) → Installed F → Type 0
  IsFirst calls left =
      (left.callback ≡ first_callback calls) × (left.is_bridged ≡ first_bridged calls)

  install-IsFirst :
      (calls : List (Bool × Bool × Option F)) → IsFirst calls (install calls nothing_installed)
  unfolding install
  install-IsFirst [] = (refl, refl)
  install-IsFirst ((logger, default, none) ∷ calls) = install-IsFirst calls
  install-IsFirst ((true, true, some f) ∷ calls) = rw (install-done calls false none) (refl, refl)
  install-IsFirst ((false, true, some f) ∷ calls) = rw (install-done calls true none) (refl, refl)
  install-IsFirst ((true, false, some f) ∷ calls) =
      rw (install-done calls false (some f)) (refl, refl)
  install-IsFirst ((false, false, some f) ∷ calls) =
      rw (install-done calls true (some f)) (refl, refl)

  -- Of any calls of a process that has nothing installed, only the first that passes a callback counts:
  -- the subscriber forwards to that callback, or to none ever if another component's is the global
  -- default by then, and the messages of `log` are bridged exactly if no other component has the logger
  -- by then. A call with a callback succeeds in each of these cases; one without fails with that reason
  -- and installs nothing.
  pub install-first_callback :
      (calls : List (Bool × Bool × Option F)) (logger default : Bool) (callback : F) (slot : Slot)
      (installed : Installed F)
      → ((install calls nothing_installed).callback ≡ first_callback calls)
        × ((install calls nothing_installed).is_bridged ≡ first_bridged calls)
        × ((rrd_set_log_callback logger default (some callback) slot installed).status ≡ success)
        × Reports host "rrd_set_log_callback"
            (null_pointer "null log callback")
            (some installed)
            (rrd_set_log_callback logger default none slot installed)
  unfolding rrd_set_log_callback
  install-first_callback calls logger default callback slot installed =
      let first = install-IsFirst calls in (first.0, first.1, refl, (refl, refl, refl, refl))
