-- ===== src/Findings.antt =====
-- The finding engine of src/core/process_graph.cpp, with include/neta/process_findings.hpp and
-- include/neta/rules/rule_definition.hpp. An exception is `none`.
pub mod Types
pub mod Names
pub mod Config
pub mod Static
pub mod Window
pub mod Engine
pub mod Recent
pub mod Fanout
pub mod Justified
