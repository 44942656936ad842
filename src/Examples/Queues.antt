-- ===== src/Examples/Queues.antt =====
-- The outbound queue at concrete inputs, where a character is a byte.
use neta_agent.Prelude.{
  ◌↔◌, ℕ, ◌≤◌, ◌≡◌, ◌⊎◌, inl, inr, refl, true, false, none, some, [], ◌∷◌, ◌++◌, Text, bytes,
  length, All, In, arith, pos,
}
use neta_agent.Prelude.Decimal.{to_string, value, value-to_string}
use neta_agent.Outbound.Message.{Sqlite, Submission, OutboundQueue, Row}
use neta_agent.Outbound.Queue.{over, new, new_row, enqueue, used, next_ready, to_message, is_ready}
use neta_agent.Outbound.Enqueue.{stored}
use neta_agent.Outbound.Identity.{idents, Issued, enqueue-again}
use neta_agent.Outbound.Keeps.{enqueue-keeps, enqueue-fresh}
use neta_agent.Outbound.Reach.{Reachable, submitted, start, Reachable-queue}
use neta_agent.Outbound.Ready.{Waits, next_ready-urgent}
use neta_agent.Outbound.Ack.{CoordinatorAck, validate_coordinator_ack, Acknowledges, validate_iff}
use neta_agent.Examples.Sequences.{sha}

abbrev pub sql : Sqlite
sql = record {
  sql_length = λ t. length t;
  sql_length-le = λ t. omega arith;
  cast_integer = λ t. value 0 t;
  cast_integer-to_string = value-to_string;
}

abbrev pub empty : OutboundQueue
empty = record {
  agent_id = bytes "a";
  max_bytes = 4096;
  messages = [];
  next_event_counter = 1;
  dropped_low_priority = 0;
  reported_dropped_low_priority = 0;
  coalesced = 0;
  last_ack_ns = 0;
}

abbrev pub finding : Text → ℕ → Submission
finding key priority = record {
  producer_key = key;
  message_type = bytes "Finding";
  finding_type = bytes "F";
  finding_key = key;
  priority = priority;
  payload_json = bytes "{}";
  payload_hash = bytes "sha256:0";
}

abbrev pub urgent : Row
urgent = new_row empty (finding (bytes "k1") 3) 10

abbrev pub one_row : OutboundQueue
one_row = stored urgent empty

abbrev two_rows : OutboundQueue
two_rows = stored (new_row one_row (finding (bytes "k2") 1) 20) one_row

empty_Issued : Issued (bytes "a") 1 (idents [])
unfolding Issued
empty_Issued = tt

first_fits : over sql 514 empty ≡ false
unfolding over used
first_fits = refl

second_fits : over sql 514 one_row ≡ false
unfolding over used new_row
second_fits = refl

pub one_Reachable : Reachable sql sha one_row
unfolding new
one_Reachable =
    submitted (finding (bytes "k1") 3) 10 (start (bytes "a") 4096)
      (enqueue-fresh sql (finding (bytes "k1") 3) 10 empty empty_Issued refl (inr first_fits))

Reachable-queue_example :
    Issued (bytes "a") 2 (idents one_row.messages)
    × ((empty.max_bytes ≡ 0) ⊎ (used sql one_row.messages ≤ 4096))
Reachable-queue_example = Reachable-queue sql sha one_row one_Reachable

enqueue-again_example :
    enqueue sql (finding (bytes "k1") 1) 30 one_row
    ≡ some (bytes "a" ++ b':' ∷ to_string 1, record one_row { coalesced = 1 })
enqueue-again_example =
    enqueue-again sql (finding (bytes "k1") 3) (finding (bytes "k1") 1) 10 30 empty one_row
      (bytes "a" ++ b':' ∷ to_string 1) refl
      (enqueue-fresh sql (finding (bytes "k1") 3) 10 empty empty_Issued refl (inr first_fits))

k2_new :
    enqueue sql (finding (bytes "k2") 1) 20 one_row
    ≡ some (bytes "a" ++ b':' ∷ to_string 2, two_rows)
unfolding new_row
k2_new =
    enqueue-fresh sql (finding (bytes "k2") 1) 20 one_row
      (Reachable-queue sql sha one_row one_Reachable).0 refl (inr second_fits)

enqueue-keeps_example : In urgent two_rows.messages
unfolding new_row
enqueue-keeps_example =
    enqueue-keeps sql (finding (bytes "k2") 1) 20 one_row two_rows (bytes "a" ++ b':' ∷ to_string 2)
      urgent (Reachable-queue sql sha one_row one_Reachable).0 (inl refl) refl refl k2_new

next_ready-urgent_example :
    ((next_ready 15 two_rows ≡ none) × All (λ s. is_ready 15 s ≡ false) two_rows.messages)
    ⊎ ((r : Row) × (next_ready 15 two_rows ≡ some (to_message r))
        × In r two_rows.messages
        × (is_ready 15 r ≡ true)
        × All (Waits 15 r) two_rows.messages)
next_ready-urgent_example = next_ready-urgent 15 two_rows

abbrev ack : CoordinatorAck
ack = record {
  protocol = bytes "neta-agent/1";
  schema_version = pos 1;
  message_type = bytes "Ack";
  version = pos 1;
  message_id = bytes "m";
  sequence = 8;
  idempotency_key = bytes "a:1";
  payload_hash = bytes "h";
  status = bytes "ACCEPTED";
  received_at = bytes "now";
}

validate_iff_example :
    (validate_coordinator_ack ack (bytes "m") 8 (bytes "a:1") (bytes "h") ≡ true)
    ↔ Acknowledges ack (bytes "m") 8 (bytes "a:1") (bytes "h")
validate_iff_example = validate_iff ack (bytes "m") 8 (bytes "a:1") (bytes "h")
