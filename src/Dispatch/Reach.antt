-- ===== src/Dispatch/Reach.antt =====
-- A drain performs steps of the queue.
use neta_agent.Prelude.{
  ℕ, zero, suc, ◌+◌, ◌-◌, ◌≡◌, inl, inr, refl, sym, subst, ap, ◌∙◌, Option, some, List, Bool-cases,
  Option-cases,
}
use neta_agent.Crypto.{Sha256}
use neta_agent.Outbound.Message.{OutboundMessage, OutboundQueue, Sqlite}
use neta_agent.Outbound.Queue.{next_ready, is_acknowledged, enqueue_gap_marker, prune_acknowledged}
use neta_agent.Outbound.Reach.{
  Reachable, tried, retried, buried, acked, marked, pruned, Reachable-Sound,
}
use neta_agent.Outbound.Pending.{Unacked, ready-Unacked, store_attempt-Unacked}
use neta_agent.Dispatch.Wording.{Calendar, FleetIdentity}
use neta_agent.Dispatch.Retry.{is_permanent_rejection, retry_delay_ns}
use neta_agent.Dispatch.Drain.{
  Allocator, Round, OutboundDispatchResult, with_success, zero_result, Agent, new_attempt,
  accepted_ack, note_retry, note_failure, prepare_attempt, dispatch, rounds, make_ready, drain,
  acknowledged_retention_ns,
}
use neta_agent.Dispatch.Prepare.{prepare_attempt-cases}

-- A new attempt is one of the same message.
pub new_attempt-id :
    (calendar : Calendar) (now_ns : ℕ) (identity : FleetIdentity) (random : List ℕ) (n : ℕ)
    → (m : OutboundMessage)
    → (new_attempt calendar now_ns identity random n m).event_id ≡ m.event_id
unfolding new_attempt
new_attempt-id calendar now_ns identity random n m = refl

module _ (sql : Sqlite) (sha : Sha256) (calendar : Calendar) (sequence : Allocator) where
  -- After the preparation the queue is one that the operations reach, in which the message is not
  -- acknowledged.
  record Prepared (m : OutboundMessage)
      (e : Option OutboundMessage × Agent sql sha calendar sequence) : Type 0 where
    reached : Reachable sql sha e.1.queue
    unacked : Unacked m.event_id e.1.queue.messages

  prepare_attempt-Prepared :
      (k : Round) (m : OutboundMessage) (a : Agent sql sha calendar sequence)
      → Reachable sql sha a.queue
      → Unacked m.event_id a.queue.messages
      → Prepared m (prepare_attempt sql sha calendar sequence k m a)
  unfolding is_acknowledged
  prepare_attempt-Prepared k m a h u =
      let e = prepare_attempt sql sha calendar sequence k m a in
      elim (prepare_attempt-cases sql sha calendar sequence k m a) [
        | inl thrown ↦ record { reached = rw thrown.same_queue h; unacked = rw thrown.same_queue u }
        | inr (inl reused) ↦ record {
          reached = rw reused.unchanged h;
          unacked = rw reused.unchanged u;
        }
        | inr (inr renewed) ↦
            let same_id : renewed.made.event_id ≡ m.event_id =
              ap (λ x. x.event_id) renewed.new
              ∙ new_attempt-id calendar k.now_ns renewed.identity renewed.random renewed.number m in
            let open_made : Unacked renewed.made.event_id a.queue.messages =
              subst (λ id. Unacked id a.queue.messages) (sym same_id) u in
            record {
              reached = tried renewed.made k.now_ns h open_made renewed.stored;
              unacked =
                  store_attempt-Unacked sql m.event_id renewed.made k.now_ns a.queue e.1.queue u
                    renewed.stored;
            }
      ]

  retry-Reachable :
      (k : Round) (m : OutboundMessage) (q : OutboundQueue)
      → Reachable sql sha q
      → Unacked m.event_id q.messages
      → Reachable sql sha (note_retry k m q)
  unfolding note_retry is_acknowledged
  retry-Reachable k m q h u = retried m.event_id (k.now_ns + retry_delay_ns m) k.what h u

  failure-Reachable :
      (k : Round) (m : OutboundMessage) (q : OutboundQueue)
      → Reachable sql sha q
      → Unacked m.event_id q.messages
      → Reachable sql sha (note_failure k m q)
  unfolding note_failure is_acknowledged
  failure-Reachable k m q h u = elim (Bool-cases (is_permanent_rejection k.response)) [
    | inl permanent ↦ rw (permanent, note_failure) (buried m.event_id k.what h u)
    | inr passing ↦ rw (passing, note_failure) (retry-Reachable k m q h u)
  ]

  dispatch-Reachable :
      (k : Round) (m : OutboundMessage) (a : Agent sql sha calendar sequence)
      → Reachable sql sha a.queue
      → next_ready k.now_ns a.queue ≡ some m
      → Reachable sql sha (dispatch sql sha calendar sequence k m a).1.queue
  unfolding dispatch
  dispatch-Reachable k m a h found =
      let e = prepare_attempt sql sha calendar sequence k m a in
      let ids = (Reachable-Sound sql sha a.queue h).identified in
      let p = prepare_attempt-Prepared k m a h (ready-Unacked k.now_ns a.queue m ids found) in
      elim (Option-cases e.0) [
        | inl thrown ↦ rw (thrown, dispatch) (retry-Reachable k m e.1.queue p.reached p.unacked)
        | inr (made, prepared) ↦ elim (Option-cases (accepted_ack k.response made)) [
          | inl not_acked ↦
              rw (prepared, dispatch)
                (rw (not_acked, dispatch) (failure-Reachable k m e.1.queue p.reached p.unacked))
          | inr (ack, valid) ↦
              rw (prepared, dispatch)
                (rw (valid, dispatch)
                  (acked made.event_id ack.status ack.received_at k.ended_ns p.reached))
        ]
      ]

  rounds-Reachable :
      (n : ℕ) (script : ℕ → Round) (r : OutboundDispatchResult)
      → (a : Agent sql sha calendar sequence) → Reachable sql sha a.queue
      → Reachable sql sha (rounds sql sha calendar sequence n script r a).1.queue
  unfolding rounds
  rounds-Reachable zero script r a h = h
  rounds-Reachable (suc n) script r a h =
      let k = script r.attempted in
      elim (Option-cases (next_ready k.now_ns a.queue)) [
        | inl empty ↦ rw (empty, rounds) h
        | inr (ready, found) ↦
            let d = dispatch sql sha calendar sequence k ready a in
            let after = dispatch-Reachable k ready a h found in
            elim (Bool-cases d.0) [
              | inl done ↦
                  rw (found, rounds)
                    (rw (done, rounds) (rounds-Reachable n script (with_success r) d.1 after))
              | inr fails ↦ rw (found, rounds) (rw (fails, rounds) after)
            ]
      ]

  make_ready-Reachable :
      (initial_now_ns : ℕ) (q : OutboundQueue)
      → Reachable sql sha q
      → Reachable sql sha (make_ready sql sha calendar sequence initial_now_ns q)
  unfolding make_ready
  make_ready-Reachable initial_now_ns q h =
      let p = prune_acknowledged (initial_now_ns - acknowledged_retention_ns) q in
      let before = pruned (initial_now_ns - acknowledged_retention_ns) h in
      elim (Option-cases (enqueue_gap_marker sql sha initial_now_ns p)) [
        | inl full ↦ rw (full, make_ready) before
        | inr (t, made) ↦ rw (made, make_ready) (marked initial_now_ns before made)
      ]

  -- From a queue that the operations reach, a drain gives a queue that they reach, whatever the
  -- clock, the identity, the message sequence and the coordinator answer in each round.
  pub drain-Reachable :
      (maximum initial_now_ns : ℕ) (script : ℕ → Round) (a : Agent sql sha calendar sequence)
      → Reachable sql sha a.queue
      → Reachable sql sha (drain sql sha calendar sequence maximum initial_now_ns script a).1.queue
  unfolding drain
  drain-Reachable maximum initial_now_ns script a h =
      rounds-Reachable maximum script zero_result _ (make_ready-Reachable initial_now_ns a.queue h)
