-- ===== src/History.antt =====
-- The tables of src/core/history_store.cpp and include/neta/history_store.hpp that observation writes,
-- and `promote_connection_direction` of src/core/history_reconciliation.cpp. SQLite is not modelled:
-- a statement is its effect on rows, an INTEGER PRIMARY KEY is one more than the largest of its
-- table, and a failing database (an exception) ends the program. Numbers of 64 bits are kept as they
-- are; SQLite stores them as signed ones with the same bits.
pub mod Tables
pub mod Processes
pub mod Connections
