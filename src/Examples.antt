-- ===== src/Examples.antt =====
-- Tests of the definitions, and the theorems at concrete inputs.
mod Sequences
mod Queues
mod Dispatches
mod Graphs
mod Connections
mod Trust
mod Sessions
mod Json
mod Trackers
mod Findings
mod Contexts
