-- ===== src/Dispatch/Confirmed.antt =====
-- A message is acknowledged only where the coordinator acknowledged it.
use neta_agent.Prelude.{
  ℕ, zero, suc, ◌<◌, ◌+◌, ◌-◌, ◌≡◌, ◌⊎◌, inl, inr, refl, subst, true, false, none, some, List, [],
  ◌∷◌, take, Text, arith, Bool-cases, Option-cases, ◌==◌, text_eq, text_beq_iff,
}
use neta_agent.Crypto.{Sha256}
use neta_agent.Outbound.Message.{OutboundMessage, OutboundQueue, Sqlite, Row, OutboundState}
use neta_agent.Outbound.Queue.{
  next_ready, is_acknowledged, mark_acknowledged, mark_retry, mark_dead_letter, enqueue_gap_marker,
  prune_acknowledged, update, gap_marker,
}
use neta_agent.Outbound.Ack.{CoordinatorAck, validate_coordinator_ack, Acknowledges, validate_iff}
use neta_agent.Outbound.Reach.{gap_marker_cases}
use neta_agent.Outbound.Pending.{
  Unacked, Unacked-keep, Unacked-update, store_attempt-Unacked, enqueue-Unacked,
}
use neta_agent.Coordinator.Reader.{parse_coordinator_ack}
use neta_agent.Dispatch.Wording.{Calendar}
use neta_agent.Dispatch.Retry.{
  Response, answered, refused, unreachable, is_permanent_rejection, retry_delay_ns,
}
use neta_agent.Dispatch.Drain.{
  Allocator, Round, OutboundDispatchResult, with_success, with_failure, zero_result, Agent,
  accepted_ack, note_retry, note_failure, prepare_attempt, dispatch, rounds, make_ready, drain,
  with_queue, acknowledged_retention_ns,
}
use neta_agent.Dispatch.Count.{rounds-Counted}
use neta_agent.Dispatch.Prepare.{prepare_attempt-cases}

-- The response is an acknowledgement of this attempt.
pub record Answers (response : Response) (attempt : OutboundMessage) : Type 0 where
  pub text : Text
  pub ack : CoordinatorAck
  pub answer : response ≡ answered text
  pub read : parse_coordinator_ack text ≡ some ack
  pub of_attempt :
      Acknowledges ack attempt.attempt_message_id attempt.attempt_sequence attempt.event_id
        attempt.payload_hash

accepted_ack-Answers :
    (response : Response) (m : OutboundMessage) (ack : CoordinatorAck)
    → accepted_ack response m ≡ some ack
    → Answers response m
unfolding accepted_ack
accepted_ack-Answers (refused status body) m ack h = cc
accepted_ack-Answers unreachable m ack h = cc
accepted_ack-Answers (answered text) m ack h = elim (Option-cases (parse_coordinator_ack text)) [
  | inl bad ↦ absurd (ground (arith, bad, h))
  | inr (got, read) ↦
      let valid =
        validate_coordinator_ack got m.attempt_message_id m.attempt_sequence m.event_id
          m.payload_hash in
      elim (Bool-cases valid) [
        | inr invalid ↦ absurd (ground (arith, read, invalid, h))
        | inl good ↦ record {
          text = text;
          ack = got;
          answer = refl;
          read = read;
          of_attempt =
              (validate_iff got m.attempt_message_id m.attempt_sequence m.event_id m.payload_hash).0
                good;
        }
      ]
]

-- An update of the rows of another id.
Unacked-other :
    (f : Row → Row) (id other : Text) (rows : List Row)
    → ((r : Row) → (f r).event_id ≡ r.event_id)
    → (other == id) ≡ false
    → Unacked id rows
    → Unacked id (update f other rows)
unfolding update
Unacked-other f id other [] same apart h = refl
Unacked-other f id other (r ∷ rows) same apart h = elim (Bool-cases (r.event_id == other)) [
  | inl hit ↦
      let at = (text_beq_iff r.event_id other).0 hit in
      let miss : (r.event_id == id) ≡ false = rw at apart in
      rw hit (ground (arith, same r, miss, h, Unacked-other f id other rows same apart))
  | inr miss ↦ rw miss (ground (arith, h, Unacked-other f id other rows same apart))
]

module _ (sql : Sqlite) (sha : Sha256) (calendar : Calendar) (sequence : Allocator) where
  note_failure-Unacked :
      (id : Text) (k : Round) (m : OutboundMessage) (q : OutboundQueue)
      → Unacked id q.messages
      → Unacked id (note_retry k m q).messages × Unacked id (note_failure k m q).messages
  unfolding note_failure note_retry mark_retry mark_dead_letter
  note_failure-Unacked id k m q h =
      let retried =
        Unacked-update
          (λ r. record r {
            state = OutboundState.pending;
            next_attempt_at_ns = k.now_ns + retry_delay_ns m;
            last_error = some (take 1024 k.what);
          })
          id m.event_id q.messages (λ r. refl) (λ r. refl) h in
      let buried =
        Unacked-update
          (λ r. record r {
            state = OutboundState.dead_letter;
            last_error = some (take 1024 k.what);
          })
          id m.event_id q.messages (λ r. refl) (λ r. refl) h in
      (
        retried,
        elim (Bool-cases (is_permanent_rejection k.response)) [
          | inl permanent ↦ rw permanent buried
          | inr passing ↦ rw passing retried
        ],
      )

  prepare_attempt-Unacked :
      (id : Text) (k : Round) (m : OutboundMessage) (a : Agent sql sha calendar sequence)
      → Unacked id a.queue.messages
      → Unacked id (prepare_attempt sql sha calendar sequence k m a).1.queue.messages
  prepare_attempt-Unacked id k m a h =
      elim (prepare_attempt-cases sql sha calendar sequence k m a) [
        | inl thrown ↦ rw thrown.same_queue h
        | inr (inl reused) ↦ rw reused.unchanged h
        | inr (inr renewed) ↦
            store_attempt-Unacked sql id renewed.made k.now_ns a.queue _ h renewed.stored
      ]

  -- A round that begins with this agent takes a ready message, prepares it, and gets an
  -- acknowledgement of the attempt it prepared, which is one of the message of this id.
  pub record Confirms (id : Text) (k : Round) (a : Agent sql sha calendar sequence) : Type 0 where
    pub ready : OutboundMessage
    pub attempt : OutboundMessage
    pub next : next_ready k.now_ns a.queue ≡ some ready
    pub prepared : (prepare_attempt sql sha calendar sequence k ready a).0 ≡ some attempt
    pub same_id : attempt.event_id ≡ id
    pub answers : Answers k.response attempt

  acknowledged-Unacked :
      (id : Text) (k : Round) (m : OutboundMessage) (ack : CoordinatorAck) (q : OutboundQueue)
      → Unacked id q.messages
      → Unacked id
          (mark_acknowledged sql m.event_id ack.status ack.received_at k.ended_ns q).messages
        ⊎ (m.event_id ≡ id)
  unfolding mark_acknowledged
  acknowledged-Unacked id k m ack q h = elim (Bool-cases (m.event_id == id)) [
    | inl same ↦ inr ((text_beq_iff m.event_id id).0 same)
    | inr other ↦ inl (
        Unacked-other
          (λ r. record r {
            state = OutboundState.acknowledged;
            ack_status = some ack.status;
            ack_received_at_ns = some k.ended_ns;
            server_received_at = some ack.received_at;
            last_error = none;
          })
          id m.event_id q.messages (λ r. refl) other h)
  ]

  dispatch-Confirms :
      (id : Text) (k : Round) (m : OutboundMessage) (a : Agent sql sha calendar sequence)
      → next_ready k.now_ns a.queue ≡ some m
      → Unacked id a.queue.messages
      → Unacked id (dispatch sql sha calendar sequence k m a).1.queue.messages ⊎ Confirms id k a
  unfolding dispatch
  dispatch-Confirms id k m a next h =
      let e = prepare_attempt sql sha calendar sequence k m a in
      let u = prepare_attempt-Unacked id k m a h in
      elim (Option-cases e.0) [
        | inl thrown ↦ inl (rw (thrown, dispatch) (note_failure-Unacked id k m e.1.queue u).0)
        | inr (made, prepared) ↦ elim (Option-cases (accepted_ack k.response made)) [
          | inl not_acked ↦ inl (
              rw (prepared, dispatch)
                (rw (not_acked, dispatch) (note_failure-Unacked id k m e.1.queue u).1))
          | inr (ack, valid) ↦ elim (acknowledged-Unacked id k made ack e.1.queue u) [
            | inl still ↦ inl (rw (prepared, dispatch) (rw (valid, dispatch) still))
            | inr same ↦ inr (record {
              ready = m;
              attempt = made;
              next = next;
              prepared = prepared;
              same_id = same;
              answers = accepted_ack-Answers k.response made ack valid;
            })
          ]
        ]
      ]

  -- The agent after so many rounds, where none of them fails.
  abbrev after_rounds :
      ℕ
      → (ℕ → Round)
      → OutboundDispatchResult
      → Agent sql sha calendar sequence
      → Agent sql sha calendar sequence
  after_rounds n script r a = (rounds sql sha calendar sequence n script r a).1

  rounds-suc :
      (i : ℕ) (script : ℕ → Round) (r : OutboundDispatchResult)
      → (a : Agent sql sha calendar sequence) (ready : OutboundMessage)
      → next_ready (script r.attempted).now_ns a.queue ≡ some ready
      → (dispatch sql sha calendar sequence (script r.attempted) ready a).0 ≡ true
      → (rounds sql sha calendar sequence (suc i) script r a).1
        ≡ (rounds sql sha calendar sequence i script
            (with_success r)
            (dispatch sql sha calendar sequence (script r.attempted) ready a).1).1
  unfolding rounds
  rounds-suc i script r a ready found done = rw (found, rounds) (rw (done, rounds) refl)

  rounds-Confirms :
      (id : Text) (n : ℕ) (script : ℕ → Round) (r : OutboundDispatchResult)
      → (a : Agent sql sha calendar sequence) → Unacked id a.queue.messages
      → let e = rounds sql sha calendar sequence n script r a in
        Unacked id e.1.queue.messages
        ⊎ ((i : ℕ) × (r.attempted + i < e.0.attempted)
            × Confirms id (script (r.attempted + i)) (after_rounds i script r a))
  unfolding rounds with_success with_failure
  rounds-Confirms id zero script r a h = inl h
  rounds-Confirms id (suc n) script r a h =
      let k = script r.attempted in
      elim (Option-cases (next_ready k.now_ns a.queue)) [
        | inl empty ↦ inl (rw (empty, rounds) h)
        | inr (ready, found) ↦
            let d = dispatch sql sha calendar sequence k ready a in
            let first : r.attempted + 0 ≡ r.attempted = omega arith in
            elim (Bool-cases d.0) [
              | inl done ↦
                  let s = with_success r in
                  let later = rounds-Counted sql sha calendar sequence n script s d.1 in
                  rw (found, rounds)
                    (rw (done, rounds)
                      (elim (dispatch-Confirms id k ready a found h) [
                        | inr now ↦ inr (0, omega (arith, later.grown), rw first now)
                        | inl still ↦ elim (rounds-Confirms id n script s d.1 still) [
                          | inl still_open ↦ inl still_open
                          | inr (i, inside, later_on) ↦
                              let agent = rounds-suc i script r a ready found done in
                              let shift : r.attempted + suc i ≡ r.attempted + 1 + i = omega arith in
                              inr (suc i, omega (arith, inside), rw shift (rw agent later_on))
                        ]
                      ]))
              | inr fails ↦
                  rw (found, rounds)
                    (rw (fails, rounds)
                      (elim (dispatch-Confirms id k ready a found h) [
                        | inl still ↦ inl still
                        | inr now ↦ inr (0, omega arith, rw first now)
                      ]))
            ]
      ]

  make_ready-Unacked :
      (id : Text) (initial_now_ns : ℕ) (q : OutboundQueue)
      → Unacked id q.messages
      → Unacked id (make_ready sql sha calendar sequence initial_now_ns q).messages
  unfolding make_ready prune_acknowledged
  make_ready-Unacked id initial_now_ns q h =
      let p = prune_acknowledged (initial_now_ns - acknowledged_retention_ns) q in
      let before : Unacked id p.messages = Unacked-keep _ id q.messages h in
      elim (Option-cases (enqueue_gap_marker sql sha initial_now_ns p)) [
        | inl full ↦ rw (full, make_ready) before
        | inr (t, made) ↦
            rw (made, make_ready)
              (elim (gap_marker_cases sql sha initial_now_ns p t made) [
                | inl same ↦ rw same before
                | inr (event, stored) ↦
                    enqueue-Unacked sql id (gap_marker sha p.dropped_low_priority) initial_now_ns p
                      t event before stored
              ])
      ]

  -- A round that the drain attempted confirms the message. It began with the agent that a drain of
  -- as many messages as there were rounds before it leaves.
  abbrev pub ConfirmedIn : Text → ℕ → ℕ → (ℕ → Round) → Agent sql sha calendar sequence → Type 0
  ConfirmedIn id maximum initial_now_ns script a =
      (i : ℕ) × (i < (drain sql sha calendar sequence maximum initial_now_ns script a).0.attempted)
      × Confirms id (script i) (drain sql sha calendar sequence i initial_now_ns script a).1

  -- A message that is not acknowledged is not acknowledged after a drain either, or, in a round that
  -- the drain attempted, the response was an acknowledgement of the attempt that this round had
  -- prepared for the ready message, which is an attempt of this message: of its message id, sequence,
  -- event and payload.
  pub drain-Confirmed :
      (id : Text) (maximum initial_now_ns : ℕ) (script : ℕ → Round)
      → (a : Agent sql sha calendar sequence) → is_acknowledged id a.queue ≡ false
      → (is_acknowledged id
            (drain sql sha calendar sequence maximum initial_now_ns script a).1.queue
          ≡ false)
        ⊎ ConfirmedIn id maximum initial_now_ns script a
  unfolding drain is_acknowledged zero_result
  drain-Confirmed id maximum initial_now_ns script a h =
      let ready =
        with_queue sql sha calendar sequence
          (make_ready sql sha calendar sequence initial_now_ns a.queue) a in
      elim (rounds-Confirms id maximum script zero_result ready
        (make_ready-Unacked id initial_now_ns a.queue h)) [
          | inl still ↦ inl still
          | inr (i, inside, confirms) ↦
              let same : 0 + i ≡ i = omega arith in
              inr (
                i,
                omega (arith, inside),
                subst (λ j. Confirms id (script j) (after_rounds i script zero_result ready)) same
                    confirms,
              )
        ]
