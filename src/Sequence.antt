-- ===== src/Sequence.antt =====
-- The NAP message sequence of src/core/nap_sequence.cpp: the durable counter whose numbers no two
-- messages may share.
pub mod Record
pub mod RoundTrip
pub mod Slots
pub mod Torn
pub mod Store
pub mod Crash
pub mod Issue
pub mod Posix
