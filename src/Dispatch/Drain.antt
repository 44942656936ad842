-- ===== src/Dispatch/Drain.antt =====
-- `OutboundDispatcher::prepare_attempt` and `OutboundDispatcher::drain` of
-- src/core/outbound_dispatcher.cpp, over the queue and the message sequence.
use neta_agent.Prelude.{
  ℕ, zero, suc, ◌+◌, ◌-◌, ◌*◌, ◌<◌, ◌≡◌, ◌⊎◌, Bool, true, false, ◌&&◌, not, Option, none, some,
  List, [], ◌++◌, Text, bytes, ltb, is_empty, value_or, if◌then◌else◌,
}
use neta_agent.Crypto.{Sha256, sha256_hex}
use neta_agent.Outbound.Message.{OutboundMessage, OutboundQueue, Sqlite, Submission}
use neta_agent.Outbound.Queue.{
  next_ready, store_attempt, mark_acknowledged, mark_dead_letter, mark_retry, prune_acknowledged,
  enqueue_gap_marker, enqueue, is_acknowledged,
}
use neta_agent.Outbound.Ack.{CoordinatorAck, validate_coordinator_ack}
use neta_agent.Coordinator.Reader.{parse_coordinator_ack}
use neta_agent.Dispatch.Wording.{random_uuid, Calendar, FleetIdentity, envelope}
use neta_agent.Dispatch.Retry.{
  nanoseconds_per_second, attempt_lifetime_ns, attempt_refresh_margin_ns, retry_delay_ns, Response,
  answered, refused, unreachable, is_permanent_rejection,
}

-- What the dispatcher asks of the message sequence: numbers, none of which it gives twice.
pub record Allocator : Type 1 where
  pub State : Type 0
  pub next_nap_sequence : State → Option ℕ × State
  -- No number up to this one is handed out any more.
  pub Spent : ℕ → State → Type 0
  pub next-Spent :
      (last : ℕ) (s : State)
      → Spent last s
      → (((next_nap_sequence s).0 ≡ none) × Spent last (next_nap_sequence s).1)
        ⊎ ((n : ℕ) × ((next_nap_sequence s).0 ≡ some n)
            × (last < n)
            × Spent n (next_nap_sequence s).1)

-- What one round of the loop reads and receives: the clock before and after, the identity and the
-- random bytes (`none` where reading them throws), the coordinator's response, and the text of the
-- exception, if one is caught.
pub record Round : Type 0 where
  pub now_ns : ℕ
  pub ended_ns : ℕ
  pub identity : Option FleetIdentity
  pub random : Option (List ℕ)
  pub response : Response
  pub what : Text

pub record OutboundDispatchResult : Type 0 where
  pub attempted : ℕ
  pub acknowledged : ℕ
  pub failed : ℕ

unfoldable pub zero_result : OutboundDispatchResult
zero_result = record { attempted = 0; acknowledged = 0; failed = 0 }

unfoldable pub with_success : OutboundDispatchResult → OutboundDispatchResult
with_success r = record r { attempted = r.attempted + 1; acknowledged = r.acknowledged + 1 }

unfoldable pub with_failure : OutboundDispatchResult → OutboundDispatchResult
with_failure r = record r { attempted = r.attempted + 1; failed = r.failed + 1 }

unfoldable pub is_fresh : ℕ → OutboundMessage → Bool
is_fresh now_ns m =
    not (is_empty m.attempt_envelope_json)
    && ltb (now_ns + attempt_refresh_margin_ns) m.attempt_expires_at_ns

unfoldable pub new_attempt :
    Calendar → ℕ → FleetIdentity → List ℕ → ℕ → OutboundMessage → OutboundMessage
unfolding envelope random_uuid
new_attempt calendar now_ns identity random sequence m =
    let numbered = record m {
      attempt_message_id = random_uuid random;
      attempt_sequence = sequence;
      attempt_expires_at_ns = now_ns + attempt_lifetime_ns;
    } in
    record numbered { attempt_envelope_json = envelope calendar identity now_ns numbered }

-- The acknowledgement in the response, if it is one of this attempt.
unfoldable pub accepted_ack : Response → OutboundMessage → Option CoordinatorAck
unfolding parse_coordinator_ack validate_coordinator_ack
accepted_ack (answered text) m = elim (parse_coordinator_ack text) [
  | none ↦ none
  | some ack ↦
      if validate_coordinator_ack ack m.attempt_message_id m.attempt_sequence m.event_id
        m.payload_hash
      then some ack
      else none
]
accepted_ack (refused status body) m = none
accepted_ack unreachable m = none

unfoldable pub note_retry : Round → OutboundMessage → OutboundQueue → OutboundQueue
unfolding mark_retry retry_delay_ns
note_retry k ready q = mark_retry ready.event_id (k.now_ns + retry_delay_ns ready) k.what q

-- The two `catch` blocks.
unfoldable pub note_failure : Round → OutboundMessage → OutboundQueue → OutboundQueue
unfolding mark_dead_letter note_retry is_permanent_rejection
note_failure k ready q =
    if is_permanent_rejection k.response
    then mark_dead_letter ready.event_id k.what q
    else note_retry k ready q

abbrev pub acknowledged_retention_ns : ℕ
acknowledged_retention_ns = 24 * 60 * 60 * nanoseconds_per_second

module _ (sql : Sqlite) (sha : Sha256) (calendar : Calendar) (sequence : Allocator) where
  -- The queue, and the state of the message sequence.
  pub record Agent : Type 0 where
    pub queue : OutboundQueue
    pub numbers : sequence.State

  unfoldable pub renew : Round → OutboundMessage → Agent → Option OutboundMessage × Agent
  unfolding store_attempt new_attempt
  renew k m a = elim k.identity [
    | none ↦ (none, a)
    | some identity ↦ elim k.random [
      | none ↦ (none, a)
      | some random ↦
          let (number, numbers) = sequence.next_nap_sequence a.numbers in
          let counted : Agent = record { queue = a.queue; numbers = numbers } in
          elim number [
            | none ↦ (none, counted)
            | some n ↦
                let made = new_attempt calendar k.now_ns identity random n m in
                elim (store_attempt sql made k.now_ns a.queue) [
                  | none ↦ (none, counted)
                  | some q ↦ (some made, record { queue = q; numbers = numbers })
                ]
          ]
    ]
  ]

  unfoldable pub prepare_attempt : Round → OutboundMessage → Agent → Option OutboundMessage × Agent
  unfolding renew is_fresh
  prepare_attempt k m a =
      let renewed = renew k m a in if is_fresh k.now_ns m then (some m, a) else renewed

  abbrev pub with_queue : OutboundQueue → Agent → Agent
  with_queue q a = record a { queue = q }

  -- The body of the loop, and whether the message was acknowledged.
  unfoldable pub dispatch : Round → OutboundMessage → Agent → Bool × Agent
  unfolding prepare_attempt accepted_ack note_retry note_failure mark_acknowledged
  dispatch k ready a =
      let (prepared, b) = prepare_attempt k ready a in
      elim prepared [
        | none ↦ (false, with_queue (note_retry k ready b.queue) b)
        | some m ↦ elim (accepted_ack k.response m) [
          | none ↦ (false, with_queue (note_failure k ready b.queue) b)
          | some ack ↦ (
            true,
            with_queue
                (mark_acknowledged sql m.event_id ack.status ack.received_at k.ended_ns b.queue) b,
          )
        ]
      ]

  -- The loop, for as many rounds as may still be attempted.
  unfoldable pub rounds :
      ℕ → (ℕ → Round) → OutboundDispatchResult → Agent → OutboundDispatchResult × Agent
  unfolding dispatch next_ready with_success with_failure
  rounds zero script r a = (r, a)
  rounds (suc n) script r a = elim (next_ready (script r.attempted).now_ns a.queue) [
    | none ↦ (r, a)
    | some ready ↦
        let (done, b) = dispatch (script r.attempted) ready a in
        elim done [ true ↦ rounds n script (with_success r) b | false ↦ (with_failure r, b) ]
  ]

  -- The subtraction stops at zero.
  unfoldable pub make_ready : ℕ → OutboundQueue → OutboundQueue
  unfolding prune_acknowledged enqueue_gap_marker
  make_ready initial_now_ns q =
      let pruned = prune_acknowledged (initial_now_ns - acknowledged_retention_ns) q in
      value_or (enqueue_gap_marker sql sha initial_now_ns pruned) pruned

  unfoldable pub drain : ℕ → ℕ → (ℕ → Round) → Agent → OutboundDispatchResult × Agent
  unfolding make_ready rounds zero_result
  drain maximum_messages initial_now_ns script a =
      rounds maximum_messages script zero_result (with_queue (make_ready initial_now_ns a.queue) a)

  abbrev pub summary_submission : Text → Text → Submission
  summary_submission producer_key summary_json = record {
    producer_key = bytes "EvidenceSummary:" ++ producer_key;
    message_type = bytes "EvidenceSummary";
    finding_type = bytes "EVIDENCE_SUMMARY";
    finding_key = [];
    priority = 2;
    payload_json = summary_json;
    payload_hash = bytes "sha256:" ++ sha256_hex sha summary_json;
  }

  -- `ReliableFleetClient::submit_evidence_summary`: whether the coordinator has the summary.
  unfoldable pub submit_evidence_summary :
      Text → Text → ℕ → ℕ → (ℕ → Round) → Agent → Option (Bool × Agent)
  unfolding enqueue drain is_acknowledged
  submit_evidence_summary producer_key summary_json now_ns initial_now_ns script a =
      if is_empty summary_json
      then none
      else elim (enqueue sql (summary_submission producer_key summary_json) now_ns a.queue) [
        | none ↦ none
        | some (event_id, q) ↦
            let (result, b) = drain 32 initial_now_ns script (with_queue q a) in
            some (is_acknowledged event_id b.queue, b)
      ]
