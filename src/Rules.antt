-- ===== src/Rules.antt =====
-- The rule sets: the JSON reader of include/neta/rules/json_parser.hpp.
pub mod Lexer
pub mod Json
pub mod Consumes
pub mod Loops
pub mod Ends
pub mod Escapes
