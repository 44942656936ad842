-- ===== src/Context.antt =====
-- The rules on connections: src/core/context_rule_engine.cpp and include/neta/rules/rule_exclusion.hpp.
pub mod Exclusion
pub mod Facts
pub mod Rules
pub mod Causes
pub mod Identity
pub mod Fires
pub mod Applies
