-- ===== src/Dispatch.antt =====
-- The dispatcher that sends the queued messages to the coordinator:
-- src/core/outbound_dispatcher.cpp, and its use in src/core/reliable_fleet_client.cpp.
pub mod Wording
pub mod Retry
pub mod Drain
pub mod Count
pub mod Delay
pub mod Prepare
pub mod Reach
pub mod Confirmed
pub mod Numbers
pub mod Submit
