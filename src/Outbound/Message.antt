-- ===== src/Outbound/Message.antt =====
-- The tables of src/core/outbound_queue.cpp: a row of `outbound_messages` (nullable columns are
-- `Option`), the counters of `outbound_metadata`, and what is used of SQLite.
use neta_agent.Prelude.{
  ℕ, ◌≤◌, ◌≡◌, Bool, true, false, Option, List, Text, length, bytes, ◌==◌, text_eq, if◌then◌else◌,
}
use neta_agent.Prelude.Decimal.{to_string}

pub data OutboundState : Type 0 where
  pending in_flight acknowledged dead_letter : OutboundState

abbrev pub is_pending : OutboundState → Bool
is_pending OutboundState.pending = true
is_pending _ = false

abbrev pub is_acked : OutboundState → Bool
is_acked OutboundState.acknowledged = true
is_acked _ = false

-- `state IN ('PENDING','IN_FLIGHT')`
abbrev pub is_open : OutboundState → Bool
is_open OutboundState.pending = true
is_open OutboundState.in_flight = true
is_open _ = false

unfoldable pub outbound_state_text : OutboundState → Text
outbound_state_text OutboundState.pending = bytes "PENDING"
outbound_state_text OutboundState.in_flight = bytes "IN_FLIGHT"
outbound_state_text OutboundState.acknowledged = bytes "ACKED"
outbound_state_text OutboundState.dead_letter = bytes "DEAD_LETTER"

unfoldable pub state_from_string : Text → OutboundState
state_from_string t =
    if t == bytes "PENDING"
    then OutboundState.pending
    else if t == bytes "IN_FLIGHT"
    then OutboundState.in_flight
    else if t == bytes "ACKED"
    then OutboundState.acknowledged
    else OutboundState.dead_letter

pub record Row : Type 0 where
  pub event_id : Text
  pub event_counter : ℕ
  pub producer_key : Text
  pub message_type : Text
  pub finding_type : Text
  pub finding_key : Text
  pub priority : ℕ
  pub payload_json : Text
  pub payload_hash : Text
  pub created_at_ns : ℕ
  pub state : OutboundState
  pub attempt_message_id : Option Text
  pub attempt_sequence : Option ℕ
  pub attempt_envelope_json : Option Text
  pub attempt_expires_at_ns : Option ℕ
  pub attempt_count : ℕ
  pub next_attempt_at_ns : ℕ
  pub last_attempt_at_ns : Option ℕ
  pub last_error : Option Text
  pub ack_status : Option Text
  pub ack_received_at_ns : Option ℕ
  pub server_received_at : Option Text

-- The arguments of `enqueue`.
pub record Submission : Type 0 where
  pub producer_key : Text
  pub message_type : Text
  pub finding_type : Text
  pub finding_key : Text
  pub priority : ℕ
  pub payload_json : Text
  pub payload_hash : Text

-- What `next_ready` reads from a row.
pub record OutboundMessage : Type 0 where
  pub event_id : Text
  pub event_counter : ℕ
  pub producer_key : Text
  pub message_type : Text
  pub finding_type : Text
  pub finding_key : Text
  pub priority : ℕ
  pub payload_json : Text
  pub payload_hash : Text
  pub state : OutboundState
  pub attempt_message_id : Text
  pub attempt_sequence : ℕ
  pub attempt_envelope_json : Text
  pub attempt_expires_at_ns : ℕ
  pub attempt_count : ℕ

pub record OutboundQueue : Type 0 where
  pub agent_id : Text
  pub max_bytes : ℕ
  pub messages : List Row
  pub next_event_counter : ℕ
  pub dropped_low_priority : ℕ
  pub reported_dropped_low_priority : ℕ
  pub coalesced : ℕ
  pub last_ack_ns : ℕ

-- `length(text)` counts characters, which are no more than the bytes, and `CAST(text AS INTEGER)`
-- reads back a printed number.
pub record Sqlite : Type 0 where
  pub sql_length : Text → ℕ
  pub sql_length-le : (t : Text) → sql_length t ≤ length t
  pub cast_integer : Text → ℕ
  pub cast_integer-to_string : (n : ℕ) → cast_integer (to_string n) ≡ n
