-- ===== src/Examples.antt =====
-- Small recordings to run the model on.
pub mod Reading
pub mod Opening
pub mod Calls
pub mod Recording
pub mod Values
pub mod Writing
pub mod Roundtrip
pub mod Conserving
pub mod Sweeping
