-- ===== src/Tracker.antt =====
-- src/core/connection_tracker.cpp and include/neta/connection_tracker.hpp.
pub mod State
pub mod Keys
pub mod Index
pub mod Lifecycle
pub mod Socket
pub mod Snapshot
pub mod Invariant
pub mod Stored
pub mod Rekey
pub mod Sound
pub mod Keeps
pub mod Sampled
pub mod Rounds
pub mod Reach
pub mod Unique
pub mod Elsewhere
pub mod Silence
pub mod Closing
pub mod Refused
pub mod Repeat
