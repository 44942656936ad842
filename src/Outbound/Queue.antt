-- ===== src/Outbound/Queue.antt =====
-- The operations of `OutboundQueue` in src/core/outbound_queue.cpp. An exception, whose transaction
-- is rolled back, is `none`: the queue stays as it was. Among rows that its `ORDER BY` leaves tied,
-- a query takes the first one of the table. Priorities are not negative, and no text holds a NUL.
use neta_agent.Prelude.{
  ℕ, zero, suc, ◌+◌, ◌-◌, max, Bool, true, false, ◌&&◌, ◌||◌, not, Option, none, some, List, [],
  ◌∷◌, ◌++◌, Text, bytes, ◌==◌, text_eq, nat_eq, ltb, leb, length, is_empty, any, keep, find, take,
  value_or, if◌then◌else◌,
}
use neta_agent.Prelude.Decimal.{to_string}
use neta_agent.Crypto.{Sha256, sha256_hex}
use neta_agent.Outbound.Message.{
  OutboundState, is_pending, is_acked, is_open, Row, Submission, OutboundMessage, OutboundQueue,
  Sqlite, state_from_string, outbound_state_text,
}

unfoldable pub new : Text → ℕ → OutboundQueue
new agent_id max_bytes = record {
  agent_id = agent_id;
  max_bytes = max_bytes;
  messages = [];
  next_event_counter = 1;
  dropped_low_priority = 0;
  reported_dropped_low_priority = 0;
  coalesced = 0;
  last_ack_ns = 0;
}

-- `SELECT ... WHERE p ORDER BY before LIMIT 1`
unfoldable pub pick : (Row → Bool) → (Row → Row → Bool) → List Row → Option Row
pick p before [] = none
pick p before (r ∷ rs) =
    let rest = pick p before rs in
    if p r
    then elim rest [ none ↦ some r | some s ↦ if before s r then some s else some r ]
    else rest

-- `UPDATE ... WHERE event_id = id`
unfoldable pub update : (Row → Row) → Text → List Row → List Row
update f id [] = []
update f id (r ∷ rs) = (if r.event_id == id then f r else r) ∷ update f id rs

-- `DELETE ... WHERE event_id = id`
unfoldable pub remove : Text → List Row → List Row
remove id rows = keep (λ r. not (r.event_id == id)) rows

unfoldable pub with_id : Text → List Row → List Row
with_id id rows = keep (λ r. r.event_id == id) rows

abbrev pub is_low : Row → Bool
is_low r = is_pending r.state && r.attempt_count == 0 && leb r.priority 1

abbrev pub drops_before : Row → Row → Bool
drops_before s r =
    ltb s.priority r.priority || s.priority == r.priority && ltb s.created_at_ns r.created_at_ns

abbrev pub is_ready : ℕ → Row → Bool
is_ready now_ns r = is_open r.state && leb r.next_attempt_at_ns now_ns

abbrev pub ready_before : Row → Row → Bool
ready_before s r =
    ltb r.priority s.priority || s.priority == r.priority && ltb s.created_at_ns r.created_at_ns

-- SQLite sorts NULL first.
abbrev pub acked_before : Row → Row → Bool
acked_before s r = elim r.ack_received_at_ns [
  | none ↦ false
  | some b ↦ elim s.ack_received_at_ns [ none ↦ true | some a ↦ ltb a b ]
]

unfoldable pub remove_acked : ℕ → List Row → List Row
unfolding remove pick
remove_acked zero rows = rows
remove_acked (suc n) rows = elim (pick (λ r. is_acked r.state) acked_before rows) [
  | none ↦ rows
  | some r ↦ remove_acked n (remove r.event_id rows)
]

-- The row that goes when the queue is full.
unfoldable pub drop_low : OutboundQueue → Option OutboundQueue
unfolding remove pick
drop_low q = elim (pick is_low drops_before q.messages) [
  | none ↦ none
  | some r ↦ some (record q {
    messages = remove r.event_id q.messages;
    dropped_low_priority = q.dropped_low_priority + 1;
  })
]

unfoldable pub prune_acknowledged : ℕ → OutboundQueue → OutboundQueue
prune_acknowledged older_than_ns q = record q {
  messages =
      keep
        (λ r. not (
          is_acked r.state
          && elim r.ack_received_at_ns [ none ↦ false | some t ↦ ltb t older_than_ns ]))
        q.messages;
}

unfoldable pub mark_retry : Text → ℕ → Text → OutboundQueue → OutboundQueue
unfolding update
mark_retry id next_attempt_ns error q = record q {
  messages =
      update
        (λ r. record r {
          state = OutboundState.pending;
          next_attempt_at_ns = next_attempt_ns;
          last_error = some (take 1024 error);
        })
        id q.messages;
}

unfoldable pub mark_dead_letter : Text → Text → OutboundQueue → OutboundQueue
unfolding update
mark_dead_letter id error q = record q {
  messages =
      update
        (λ r. record r { state = OutboundState.dead_letter; last_error = some (take 1024 error) })
        id q.messages;
}

unfoldable pub is_acknowledged : Text → OutboundQueue → Bool
is_acknowledged id q = any (λ r. r.event_id == id && is_acked r.state) q.messages

unfoldable pub to_message : Row → OutboundMessage
unfolding state_from_string outbound_state_text
to_message r = record {
  event_id = r.event_id;
  event_counter = r.event_counter;
  producer_key = r.producer_key;
  message_type = r.message_type;
  finding_type = r.finding_type;
  finding_key = r.finding_key;
  priority = r.priority;
  payload_json = r.payload_json;
  payload_hash = r.payload_hash;
  state = state_from_string (outbound_state_text r.state);
  attempt_message_id = value_or r.attempt_message_id [];
  attempt_sequence = value_or r.attempt_sequence 0;
  attempt_envelope_json = value_or r.attempt_envelope_json [];
  attempt_expires_at_ns = value_or r.attempt_expires_at_ns 0;
  attempt_count = r.attempt_count;
}

unfoldable pub next_ready : ℕ → OutboundQueue → Option OutboundMessage
unfolding pick to_message
next_ready now_ns q = elim (pick (is_ready now_ns) ready_before q.messages) [
  | none ↦ none
  | some r ↦ some (to_message r)
]

unfoldable pub new_row : OutboundQueue → Submission → ℕ → Row
new_row q s now_ns = record {
  event_id = q.agent_id ++ b':' ∷ to_string q.next_event_counter;
  event_counter = q.next_event_counter;
  producer_key = s.producer_key;
  message_type = s.message_type;
  finding_type = s.finding_type;
  finding_key = s.finding_key;
  priority = s.priority;
  payload_json = s.payload_json;
  payload_hash = s.payload_hash;
  created_at_ns = now_ns;
  state = OutboundState.pending;
  attempt_message_id = none;
  attempt_sequence = none;
  attempt_envelope_json = none;
  attempt_expires_at_ns = none;
  attempt_count = 0;
  next_attempt_at_ns = now_ns;
  last_attempt_at_ns = none;
  last_error = none;
  ack_status = none;
  ack_received_at_ns = none;
  server_received_at = none;
}

-- The key or a unique column is taken already.
abbrev pub conflicts : Row → Row → Bool
conflicts r s =
    r.event_id == s.event_id
    || r.event_counter == s.event_counter
    || r.producer_key == s.producer_key

unfoldable pub insert : Row → OutboundQueue → Option OutboundQueue
insert r q =
    if any (λ s. conflicts r s) q.messages
    then none
    else some (record q {
      messages = q.messages ++ r ∷ [];
      next_event_counter = q.next_event_counter + 1;
    })

abbrev pub existing_event : Text → List Row → Text
existing_event key rows = elim (find (λ r. r.producer_key == key) rows) [
  | none ↦ []
  | some r ↦ r.event_id
]

abbrev pub reserve : Row → Row
reserve r = record r { state = OutboundState.in_flight }

unfoldable pub gap_marker : Sha256 → ℕ → Submission
gap_marker sha dropped =
    let body =
      bytes "{\"telemetry_gap\":{\"reason\":\"outbox_capacity\",\"dropped_low_priority\":"
      ++ to_string dropped
      ++ bytes "}}" in
    record {
      producer_key = bytes "EvidenceSummary:TelemetryGap:" ++ to_string dropped;
      message_type = bytes "EvidenceSummary";
      finding_type = bytes "TELEMETRY_GAP";
      finding_key = to_string dropped;
      priority = 4;
      payload_json = body;
      payload_hash = bytes "sha256:" ++ sha256_hex sha body;
    }

module _ (sql : Sqlite) where
  abbrev pub row_bytes : Row → ℕ
  row_bytes r =
      sql.sql_length r.payload_json
      + elim r.attempt_envelope_json [ none ↦ 0 | some t ↦ sql.sql_length t ]
      + 512

  unfoldable pub used : List Row → ℕ
  used [] = 0
  used (r ∷ rs) = let rest = used rs in if is_acked r.state then rest else row_bytes r + rest

  unfoldable pub over : ℕ → OutboundQueue → Bool
  unfolding used
  over required q = ltb q.max_bytes required || ltb (q.max_bytes - required) (used q.messages)

  -- The loop that drops rows; the fuel is the number of rows.
  unfoldable pub shed : ℕ → ℕ → OutboundQueue → Option OutboundQueue
  unfolding over drop_low
  shed zero required q = if over required q then none else some q
  shed (suc n) required q =
      if over required q
      then elim (drop_low q) [ none ↦ none | some smaller ↦ shed n required smaller ]
      else some q

  unfoldable pub enforce_budget : ℕ → OutboundQueue → Option OutboundQueue
  unfolding over shed remove_acked
  enforce_budget required q =
      if q.max_bytes == 0
      then some q
      else if not (over required q)
      then some q
      else let rows = remove_acked 256 q.messages in
        shed (length rows) required (record q { messages = rows })

  unfoldable pub enqueue : Submission → ℕ → OutboundQueue → Option (Text × OutboundQueue)
  unfolding enforce_budget insert new_row
  enqueue s now_ns q =
      let event = existing_event s.producer_key q.messages in
      if not (is_empty event)
      then some (event, record q { coalesced = q.coalesced + 1 })
      else elim (enforce_budget (length s.payload_json + 512) q) [
        | none ↦ none
        | some room ↦
            let row = new_row room s now_ns in
            elim (insert row room) [ none ↦ none | some stored ↦ some (row.event_id, stored) ]
      ]

  abbrev pub envelope_bytes : List Row → ℕ
  envelope_bytes [] = 0
  envelope_bytes (r ∷ rs) = sql.sql_length (value_or r.attempt_envelope_json [])

  abbrev pub attempted : OutboundMessage → ℕ → Row → Row
  attempted m now_ns r = record r {
    state = OutboundState.in_flight;
    attempt_message_id = some m.attempt_message_id;
    attempt_sequence = some m.attempt_sequence;
    attempt_envelope_json = some m.attempt_envelope_json;
    attempt_expires_at_ns = some m.attempt_expires_at_ns;
    attempt_count = r.attempt_count + 1;
    last_attempt_at_ns = some now_ns;
    last_error = none;
  }

  unfoldable pub store_attempt : OutboundMessage → ℕ → OutboundQueue → Option OutboundQueue
  unfolding enforce_budget update with_id
  store_attempt m now_ns q =
      let reserved = record q { messages = update reserve m.event_id q.messages } in
      let existing = envelope_bytes (with_id m.event_id q.messages) in
      let room =
        if ltb existing (length m.attempt_envelope_json)
        then enforce_budget (length m.attempt_envelope_json - existing) reserved
        else some reserved in
      if not (length (with_id m.event_id q.messages) == 1) then none else elim room [
        | none ↦ none
        | some r ↦ some (record r { messages = update (attempted m now_ns) m.event_id r.messages })
      ]

  -- The number of drops that the acknowledged marker reported.
  abbrev pub gap_of : Text → List Row → Option ℕ
  gap_of id rows =
      elim (find (λ r. r.event_id == id && r.finding_type == bytes "TELEMETRY_GAP") rows) [
        | none ↦ none
        | some r ↦ some (sql.cast_integer r.finding_key)
      ]

  unfoldable pub mark_acknowledged : Text → Text → Text → ℕ → OutboundQueue → OutboundQueue
  unfolding update
  mark_acknowledged id status received_at now_ns q = record q {
    messages =
        update
          (λ r. record r {
            state = OutboundState.acknowledged;
            ack_status = some status;
            ack_received_at_ns = some now_ns;
            server_received_at = some received_at;
            last_error = none;
          })
          id q.messages;
    reported_dropped_low_priority =
        max q.reported_dropped_low_priority
          (value_or (gap_of id q.messages) q.reported_dropped_low_priority);
    last_ack_ns = now_ns;
  }

  unfoldable pub enqueue_gap_marker : Sha256 → ℕ → OutboundQueue → Option OutboundQueue
  unfolding enqueue gap_marker
  enqueue_gap_marker sha now_ns q =
      let marked = enqueue (gap_marker sha q.dropped_low_priority) now_ns q in
      if leb q.dropped_low_priority q.reported_dropped_low_priority
      then some q
      else if any (λ r. r.finding_type == bytes "TELEMETRY_GAP" && is_open r.state) q.messages
      then some q
      else elim marked [ none ↦ none | some (id, r) ↦ some r ]
