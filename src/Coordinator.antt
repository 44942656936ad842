-- ===== src/Coordinator.antt =====
-- What the agent reads of a coordinator's answer: src/core/coordinator_ack.cpp.
pub mod Reader
pub mod Quoted
pub mod Members
pub mod Answer
