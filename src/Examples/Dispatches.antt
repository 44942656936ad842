-- ===== src/Examples/Dispatches.antt =====
-- The dispatcher and the answers of the coordinator at concrete inputs, on the counter for POSIX
-- systems.
use neta_agent.Prelude.{
  ℕ, ◌+◌, ◌*◌, ◌≤◌, ◌<◌, ◌≡◌, ◌≢◌, ◌⊎◌, inl, inr, refl, Bool, true, false, Option, none, some, List,
  [], ◌∷◌, ◌++◌, Text, bytes, In, arith, leb, pos,
}
use neta_agent.Outbound.Message.{OutboundQueue, OutboundMessage, Row, OutboundState}
use neta_agent.Outbound.Queue.{
  enqueue, next_ready, is_ready, is_acknowledged, to_message, mark_retry, update, new_row,
}
use neta_agent.Outbound.Reach.{Reachable}
use neta_agent.Outbound.Ack.{CoordinatorAck}
use neta_agent.Coordinator.Reader.{parse_coordinator_ack}
use neta_agent.Coordinator.Quoted.{Value, str, num, write_object}
use neta_agent.Coordinator.Answer.{Tells, parse_coordinator_ack-write_object}
use neta_agent.Dispatch.Wording.{Calendar, FleetIdentity}
use neta_agent.Dispatch.Retry.{
  Response, answered, unreachable, is_permanent_rejection, attempt_refresh_margin_ns,
  nanoseconds_per_second, retry_delay_ns,
}
use neta_agent.Dispatch.Drain.{
  Round, Agent, drain, submit_evidence_summary, summary_submission, with_queue,
  OutboundDispatchResult, prepare_attempt, note_failure, note_retry,
}
use neta_agent.Dispatch.Count.{drain-result}
use neta_agent.Dispatch.Delay.{note_failure-ready}
use neta_agent.Dispatch.Reach.{drain-Reachable}
use neta_agent.Dispatch.Confirmed.{ConfirmedIn, drain-Confirmed}
use neta_agent.Dispatch.Submit.{submit-Confirmed}
use neta_agent.Dispatch.Numbers.{posix_allocator, NewAttempt, prepare_attempt-numbers}
use neta_agent.Sequence.Posix.{Behind, current_value, next_posix_sequence}
use neta_agent.Sequence.Record.{parse_decimal, pop_back}
use neta_agent.Prelude.Decimal.{to_string, from_chars, all_digits, value}
use neta_agent.Examples.Sequences.{sha}
use neta_agent.Crypto.{sha256_hex}
use neta_agent.Examples.Queues.{empty, sql, one_row, urgent, one_Reachable}

abbrev calendar : Calendar
calendar = record { put_time = λ seconds. bytes "2026-01-01T00:00:00" }

abbrev reply : CoordinatorAck
reply = record {
  protocol = bytes "neta-agent/1";
  schema_version = pos 1;
  message_type = bytes "Ack";
  version = pos 1;
  message_id = bytes "00000000-0000-4000-8000-000000000000";
  sequence = 42;
  idempotency_key = bytes "a:1";
  payload_hash = bytes "sha256:0";
  status = bytes "ACCEPTED";
  received_at = bytes "2026-01-01T00:00:01Z";
}

abbrev answer_members : List (Text × Value)
answer_members =
    (bytes "status", str reply.status)
    ∷ (bytes "protocol", str reply.protocol)
    ∷ (bytes "schemaVersion", num 1)
    ∷ (bytes "note", str (bytes "sequence a"))
    ∷ (bytes "messageType", str reply.message_type)
    ∷ (bytes "ackVersion", num 1)
    ∷ (bytes "messageId", str reply.message_id)
    ∷ (bytes "sequence", num 42)
    ∷ (bytes "idempotencyKey", str reply.idempotency_key)
    ∷ (bytes "payloadHash", str reply.payload_hash)
    ∷ (bytes "receivedAt", str reply.received_at)
    ∷ []

told : Tells answer_members reply 1 1
told = record {
  protocol = refl;
  schema_version = refl;
  same_schema = refl;
  message_type = refl;
  ack_version = refl;
  same_version = refl;
  message_id = refl;
  sequence = refl;
  idempotency_key = refl;
  payload_hash = refl;
  status = refl;
  received_at = refl;
}

parse_coordinator_ack-write_object_example :
    parse_coordinator_ack (write_object answer_members) ≡ some reply
parse_coordinator_ack-write_object_example =
    parse_coordinator_ack-write_object answer_members reply 1 1
      (refl, (refl, (refl, (refl, (refl, (refl, (refl, (refl, (refl, (refl, (refl, tt)))))))))))
      told (omega arith) (omega arith) (omega arith)

abbrev agent : Agent sql sha calendar posix_allocator
agent = record { queue = one_row; numbers = some (bytes "41") }

abbrev identity : FleetIdentity
identity = record {
  coordinator = bytes "c";
  fleet_id = bytes "f";
  agent_id = bytes "a";
  certificate_sha256 = bytes "00";
}

abbrev round_at : Response → Round
round_at response = record {
  now_ns = 1000000;
  ended_ns = 2000000;
  identity = some identity;
  random = some (0 ∷ 0 ∷ 0 ∷ 0 ∷ 0 ∷ 0 ∷ 0 ∷ 0 ∷ 0 ∷ 0 ∷ 0 ∷ 0 ∷ 0 ∷ 0 ∷ 0 ∷ 0 ∷ []);
  response = response;
  what = bytes "failed";
}

abbrev script : ℕ → Round
script n = round_at (answered (write_object answer_members))

abbrev after : OutboundDispatchResult × Agent sql sha calendar posix_allocator
after = drain sql sha calendar posix_allocator 32 1000000 script agent

drain-result_example :
    (after.0.attempted ≤ 32)
    × (after.0.attempted ≡ after.0.acknowledged + after.0.failed)
    × (after.0.failed ≤ 1)
    × ((after.0.attempted ≡ 32)
        ⊎ ((after.0.failed ≡ 1) ⊎ (next_ready 1000000 after.1.queue ≡ none)))
drain-result_example = drain-result sql sha calendar posix_allocator 32 1000000 script agent

drain-Reachable_example : Reachable sql sha after.1.queue
drain-Reachable_example =
    drain-Reachable sql sha calendar posix_allocator 32 1000000 script agent one_Reachable

not_yet : is_acknowledged (bytes "a:1") one_row ≡ false
unfolding is_acknowledged new_row to_string
not_yet = refl

drain-Confirmed_example :
    (is_acknowledged (bytes "a:1") after.1.queue ≡ false)
    ⊎ ConfirmedIn sql sha calendar posix_allocator (bytes "a:1") 32 1000000 script agent
drain-Confirmed_example =
    drain-Confirmed sql sha calendar posix_allocator (bytes "a:1") 32 1000000 script agent not_yet

holds_41 : Behind 41 (some (bytes "41"))
unfolding Behind current_value parse_decimal pop_back from_chars all_digits value
holds_41 = inr (41, refl, omega arith)

abbrev prepared : Option OutboundMessage × Agent sql sha calendar posix_allocator
prepared =
    prepare_attempt sql sha calendar posix_allocator (round_at unreachable) (to_message urgent)
      agent

prepare_attempt-numbers_example :
    ((prepared.0 ≡ none)
      × (prepared.1.queue ≡ one_row)
      × (n : ℕ) × (41 ≤ n)
      × Behind n prepared.1.numbers)
    ⊎ ((prepared.0 ≡ some (to_message urgent))
        × (prepared.1 ≡ agent)
        × ((to_message urgent).attempt_envelope_json ≢ [])
        × (1000000 + attempt_refresh_margin_ns < (to_message urgent).attempt_expires_at_ns))
    ⊎ NewAttempt sql sha calendar posix_allocator 41
        (round_at unreachable)
        (to_message urgent)
        agent
        prepared
prepare_attempt-numbers_example =
    prepare_attempt-numbers sql sha calendar posix_allocator 41 (round_at unreachable)
      (to_message urgent) agent holds_41

abbrev failed_row : Row
failed_row = record urgent {
  state = OutboundState.pending;
  next_attempt_at_ns = 1000000 + 6000000000;
  last_error = some (bytes "failed");
}

failed_inside :
    In failed_row (note_failure (round_at unreachable) (to_message urgent) one_row).messages
unfolding to_string note_failure note_retry mark_retry update to_message new_row
    is_permanent_rejection retry_delay_ns
failed_inside = inl refl

named : failed_row.event_id ≡ (to_message urgent).event_id
unfolding to_message
named = refl

note_failure-ready_example :
    ((is_permanent_rejection unreachable ≡ true)
      × (failed_row.state ≡ OutboundState.dead_letter)
      × ((t : ℕ) → is_ready t failed_row ≡ false))
    ⊎ ((is_permanent_rejection unreachable ≡ false)
        × (d : ℕ) × (5 * nanoseconds_per_second ≤ d)
        × (d ≤ 304 * nanoseconds_per_second)
        × ((t : ℕ) → is_ready t failed_row ≡ leb (1000000 + d) t))
note_failure-ready_example =
    note_failure-ready (round_at unreachable) (to_message urgent) one_row failed_row failed_inside
      named

abbrev summary_reply : List (Text × Value)
summary_reply =
    (bytes "protocol", str reply.protocol)
    ∷ (bytes "schemaVersion", num 1)
    ∷ (bytes "messageType", str reply.message_type)
    ∷ (bytes "ackVersion", num 1)
    ∷ (bytes "messageId", str reply.message_id)
    ∷ (bytes "sequence", num 42)
    ∷ (bytes "idempotencyKey", str reply.idempotency_key)
    ∷ (bytes "payloadHash", str (bytes "sha256:" ++ sha256_hex sha (bytes "{}")))
    ∷ (bytes "status", str reply.status)
    ∷ (bytes "receivedAt", str reply.received_at)
    ∷ []

abbrev idle : Agent sql sha calendar posix_allocator
idle = record { queue = empty; numbers = some (bytes "41") }

abbrev summary_script : ℕ → Round
summary_script n = round_at (answered (write_object summary_reply))

abbrev submission : Option (Bool × Agent sql sha calendar posix_allocator)
submission =
    submit_evidence_summary sql sha calendar posix_allocator (bytes "k") (bytes "{}") 5 1000000
      summary_script idle

abbrev left_by :
    Option (Bool × Agent sql sha calendar posix_allocator) → Agent sql sha calendar posix_allocator
left_by none = idle
left_by (some (known, b)) = b

it_is_known : submission ≡ some (true, left_by submission)
unfolding submit_evidence_summary next_posix_sequence pop_back from_chars to_string sha256_hex
it_is_known = refl

submit-Confirmed_example :
    (id : Text) × (q : OutboundQueue) × (enqueue sql
        (summary_submission sql sha calendar posix_allocator (bytes "k") (bytes "{}"))
        5
        empty
      ≡ some (id, q))
    × ((is_acknowledged id q ≡ true)
        ⊎ ConfirmedIn sql sha calendar posix_allocator id 32 1000000 summary_script
            (with_queue sql sha calendar posix_allocator q idle))
submit-Confirmed_example =
    submit-Confirmed sql sha calendar posix_allocator (bytes "k") (bytes "{}") 5 1000000
      summary_script idle (left_by submission) it_is_known
