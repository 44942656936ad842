-- ===== src/Lib.antt =====
-- neta-agent observes the TCP connections and processes of an endpoint and reports what it finds.
--
-- The parts, the files that model them, and the code they model:
--
-- Model (Model/Kinds, Model/Records, Model/Lifecycle, Model/Names): the enumerations and records of
-- include/neta/model.hpp and include/neta/lifecycle.hpp, and the conversions between enumerations
-- and their stored texts in src/core/model.cpp, src/core/connection_direction.cpp,
-- src/core/route_semantics.cpp and src/core/tcp_state.cpp.
--
-- Admission: `matches_filter` of src/core/connection_filter.cpp. Admission/Policy: `permits`,
-- `evaluate`, `evaluate_new_socket` and `evaluate_reconciliation_socket` of
-- src/core/connection_admission_policy.cpp, which decide which events and sockets become tracked
-- connections. Admission/Filter, Admission/Lifecycle and Admission/Direction hold the proofs.
--
-- Scheduler: `EvidenceScheduler` of src/core/evidence_scheduler.cpp, which admission and closing of
-- connections drive. A clock reading is a number of nanoseconds; an unordered set is a list without
-- repetition. Scheduler/Timing and Scheduler/Routes hold the proofs.
--
-- ProcessGraph (ProcessGraph/Types, ProcessGraph/Store, ProcessGraph/Observe): `ProcessGraph` of
-- src/core/process_graph.cpp with its four containers, which are lists. ProcessGraph/Index,
-- ProcessGraph/Capacity and ProcessGraph/Links hold the proofs. The eviction loop is a recursion on
-- the eviction queue, of which each round removes the first entry.
--
-- Crypto: `sha256_hex` of src/core/crypto.cpp. The digest is a parameter, a record with the length
-- and the range of its bytes as laws; no theorem assumes that it is free of collisions.
--
-- Sequence/Record and Sequence/Slots: the message counter of src/core/nap_sequence.cpp on Windows,
-- `make_record`, `parse_record`, `read_slot`, `read_legacy`, `write_slot`, `next_windows_sequence`,
-- `initialize_windows_sequence` and `inspect_windows_sequence`. The state is the contents of the three
-- files. A machine may die in any write, of which only some bytes then reach the disk: how many writes
-- are completed and how many bytes of the next one are written is an input of each allocation.
-- Sequence/Posix: the branch for POSIX systems, with its one file and its proof. Sequence/RoundTrip,
-- Sequence/Torn, Sequence/Store, Sequence/Crash and Sequence/Issue hold the
-- proofs.
--
-- Outbound/Message and Outbound/Queue: `OutboundQueue` of src/core/outbound_queue.cpp. The two tables
-- are a record with a list of rows; each SQL statement is an operation on the list; an exception,
-- which rolls the transaction back, is `none`. What is used of SQLite itself (`length` and `CAST`) is
-- a parameter with its documented laws. The loop that drops rows has the number of rows as fuel, which
-- is enough since each round removes a row and fails on an empty table. Outbound/Evict,
-- Outbound/Enqueue, Outbound/Budget, Outbound/Attempt, Outbound/Identity, Outbound/Keeps,
-- Outbound/Reach, Outbound/Ready and Outbound/Pending hold the proofs. Outbound/Ack:
-- `validate_coordinator_ack` of src/core/coordinator_ack.cpp, with its proof.
--
-- Coordinator/Reader: `parse_coordinator_ack` of src/core/coordinator_ack.cpp, on the text from the
-- current position on. Coordinator/Quoted, Coordinator/Members and Coordinator/Answer say how the
-- coordinator writes an answer, and hold the proofs.
--
-- Dispatch (Dispatch/Wording, Dispatch/Retry, Dispatch/Drain): `OutboundDispatcher` of
-- src/core/outbound_dispatcher.cpp, and `submit_evidence_summary` of
-- src/core/reliable_fleet_client.cpp. What a round of the loop reads and receives (the clock, the
-- identity, the random bytes, the response of the coordinator, the text of an exception) is an input
-- of the round. The dispatcher stands on the operations of the outbound queue and on an interface to
-- the message sequence, `Allocator`, which Dispatch/Numbers fills with the sequence on Windows and the
-- one on POSIX systems. The loop counts down the messages that it may still attempt. Dispatch/Prepare,
-- Dispatch/Count, Dispatch/Delay, Dispatch/Reach, Dispatch/Confirmed, Dispatch/Submit and
-- Dispatch/Numbers hold the proofs.
--
-- Resolution: `correlate_name_resolution` and what it uses in src/core/name_resolution.cpp. The loop
-- over the observations carries the count and the first candidate. Resolution/Names: the names of its
-- enumerations. Resolution/Hashes: the hashes of evidence. Resolution/Candidates, Resolution/Matching
-- and the last two hold the proofs.
--
-- TlsSession: `correlate_tls_session` and what it uses in src/core/tls_session.cpp, over the records of
-- the module Verdict. TlsSession/Names and TlsSession/Hashes: the names of its enumerations, and the
-- identity keys and hashes. TlsSession/Fits, TlsSession/Kinds and TlsSession/Matching hold the proofs.
-- Crypto/SetHash: the hash of a set of evidence, which both correlations compute.
--
-- Rules/Lexer and Rules/Json: `JsonParser` of include/neta/rules/json_parser.hpp, on the text from the
-- current position on. `std::strtod` is a parameter. The fuel is one more than the length of the text:
-- the parser of a value is given the parser of the parts, with one less, and each loop its own count
-- of rounds. Rules/Consumes, Rules/Loops, Rules/Ends and Rules/Escapes hold the proofs.
--
-- Verdict: the trust part of `evaluate` and `evaluate_inbound`, `inbound_trust_context` and
-- `aggregate_metrics` of src/core/verdict.cpp. Verdict/Inbound and Verdict/Outbound hold the proofs.
--
-- Prelude: lists measured by native numbers, Boolean tests, texts as lists of bytes, searching and
-- sorting of texts, and `std::to_string` and `std::from_chars` on 64-bit numbers. Examples: the
-- theorems at concrete inputs.
--
-- Bounds: counters, times and sizes are natural numbers. Where the code compares with the largest
-- 64-bit number the model does so too, and the numbers that are read are shown to be below 2 ^ 64.
--
-- History (History/Tables, History/Processes, History/Connections): the tables of
-- src/core/history_store.cpp that observation writes, `upsert_process`, `begin_connection`,
-- `touch_connection`, `update_socket_cookie`, `add_tcp_sample` and `add_lifecycle_event`, and
-- `promote_connection_direction` of src/core/history_reconciliation.cpp. A statement is its effect on
-- lists of rows.
--
-- Tracker (Tracker/State, Tracker/Keys, Tracker/Index, Tracker/Lifecycle, Tracker/Socket,
-- Tracker/Snapshot): `ConnectionTracker` of src/core/connection_tracker.cpp with its map of connections
-- and its two correlation indexes, over the store. The calls `observe_lifecycle`, `observe_socket`,
-- `begin_snapshot`, `end_snapshot` and `finish_observation` return the tracker after them; the process
-- resolver and the clock are arguments. The branches of `observe_socket` for Linux and for Windows are
-- one definition, which takes its key and its process by the platform. Tracker/Invariant to
-- Tracker/Reach prove the invariant; Tracker/Unique, Tracker/Elsewhere, Tracker/Silence,
-- Tracker/Closing, Tracker/Refused and Tracker/Repeat hold the other proofs.
--
-- Findings (Findings/Types, Findings/Names, Findings/Config, Findings/Static, Findings/Window,
-- Findings/Engine): `ProcessFindingEngine` of src/core/process_graph.cpp, the rules on one process and
-- the windows of starts and exits, over the nodes of the process graph. An exception is the result
-- none, and the engine that it leaves is there. Findings/Recent, Findings/Fanout and Findings/Justified
-- hold the proofs.
--
-- Context (Context/Exclusion, Context/Facts, Context/Rules): the rules on connections of
-- src/core/context_rule_engine.cpp with the exclusions of include/neta/rules/rule_exclusion.hpp. The
-- comparison of the ratio of bytes in floating point is a parameter. Context/Causes and
-- Context/Identity write out what each engine reports, Context/Fires puts them together, and
-- Context/Applies holds the proof for a set of rules.
--
-- Not modelled: locks, logs, HTTP, the platform observers, the command line, the rest of the
-- SQLite history, and arithmetic on doubles. The loop of an observation session, the statistics
-- of behaviour, upgrades, and the loading and the hashes of rule sets are not modelled.
pub mod Prelude
pub mod Model
pub mod Crypto
pub mod Sequence
pub mod Admission
pub mod Scheduler
pub mod ProcessGraph
pub mod Outbound
pub mod History
pub mod Tracker
pub mod Findings
pub mod Context
pub mod Resolution
pub mod Verdict
mod Examples
pub mod Coordinator
pub mod Dispatch
pub mod TlsSession
pub mod Rules
