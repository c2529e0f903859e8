-- ===== src/Writer/Sessions.antt =====
-- Sessions of writer.rs: an open writer and whatever operations follow, until it is closed.
use rosbag2_storage_rrd.Base.{Bool, true, ◌≤◌, Option, String, length, ℕ, false, some, none}
use rosbag2_storage_rrd.Arrow.{Bytes}
use rosbag2_storage_rrd.Writer.{Buffer, Writer, create_topic, remove_topic, set_metadata, write}
use rosbag2_storage_rrd.Writer.Streams.{Mirrors}
use rosbag2_storage_rrd.Writer.Topics.{IsNumbered}

-- A server that is named is one that is sent to.
abbrev pub is_watched : Option String → Bool
is_watched none = false
is_watched (some uri) = true

module _ {C : Type 0} (buffer : Buffer C) where
  -- One operation of a writer, whatever it answers.
  pub data Step : Writer buffer → Writer buffer → Type 0 where
    created :
        (topic entity : String) (state : buffer.State) (info : Option C) (now : ℕ)
        (w : Writer buffer)
        → Step w (create_topic buffer topic entity state info now w).1
    wrote :
        (now topic : ℕ) (message : Bytes) (recv send : ℕ) (w : Writer buffer)
        → Step w (write buffer now topic message recv send w).1
    dropped :
        (now : ℕ) (topic : String) (w : Writer buffer) → Step w (remove_topic buffer now topic w).1
    described : (yaml : String) (w : Writer buffer) → Step w (set_metadata buffer yaml w)

  pub data Reach (w : Writer buffer) : Writer buffer → Type 0 where
    here : Reach w w
    next : {v u : Writer buffer} → Reach w v → Step v u → Reach w u

  -- The live stream holds what the file holds, and the index of a topic is that of a slot.
  pub record IsSound (b : Bool) (w : Writer buffer) : Type 0 where
    pub mirrored : Mirrors b w.rec
    pub numbered : IsNumbered buffer w

  -- What an operation leaves of `w`: a sound writer that has lost no slot.
  abbrev pub Keeps : Bool → Writer buffer → Writer buffer → Type 0
  Keeps b w u = IsSound b u × (length w.topics ≤ length u.topics)
