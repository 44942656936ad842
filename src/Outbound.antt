-- ===== src/Outbound.antt =====
-- The durable outbound queue of the agent: src/core/outbound_queue.cpp,
-- include/neta/outbound_queue.hpp and include/neta/outbound_message.hpp.
pub mod Message
pub mod Queue
pub mod Evict
pub mod Enqueue
pub mod Budget
pub mod Attempt
pub mod Identity
pub mod Keeps
pub mod Pending
pub mod Reach
pub mod Ready
pub mod Ack
