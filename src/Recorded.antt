-- ===== src/Recorded.antt =====
-- What is recorded is what is replayed: the write path of pipeline.rs and writer.rs against the read
-- path of reader.rs. A message as it is handed to the writer, with the number it gets.
use rosbag2_storage_rrd.Base.{ℕ}
use rosbag2_storage_rrd.Arrow.{Bytes}
pub mod Blobs
pub mod Pushes
pub mod Rows
pub mod Windows
pub mod Taken
pub mod Loads
pub mod Replayed
pub mod Turned
pub mod Decoding
pub mod Entries
pub mod Buffered
pub mod Pipelines

pub record Entry : Type 0 where
  pub message : Bytes
  pub recv : ℕ
  pub send : ℕ
  pub sequence : ℕ
