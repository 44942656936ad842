-- ===== src/Dispatch/Delay.antt =====
-- When a message that failed is ready again.
use native.Mathlib.Nat.{pow-le-pow_right}
use neta_agent.Prelude.{
  ℕ, ◌+◌, ◌*◌, ◌^◌, min, ◌≤◌, ◌≡◌, ◌⊎◌, inl, inr, refl, true, false, some, arith, Bool-cases, leb,
  List, [], ◌∷◌, text_eq, text_beq_iff, nat_eq, In, ap, sym, subst, take, if◌then◌else◌, ◌∙◌, Text,
  ◌==◌,
}
use neta_agent.Outbound.Message.{OutboundMessage, OutboundQueue, Row, OutboundState}
use neta_agent.Outbound.Queue.{is_ready, mark_retry, mark_dead_letter, update}
use neta_agent.Dispatch.Retry.{nanoseconds_per_second, retry_delay_ns, is_permanent_rejection}
use neta_agent.Dispatch.Drain.{Round, note_failure, note_retry}

power : (n : ℕ) → n ≤ 6 → (1 ≤ 2 ^ n) × (2 ^ n ≤ 64)
power n h = (
  pow-le-pow_right {n = 2} (omega arith) {i = 0} {j = n} (omega arith),
  pow-le-pow_right {n = 2} (omega arith) {i = n} {j = 6} h,
)

-- The delay before the next attempt is from 5 to 304 seconds.
delay-bounds :
    (m : OutboundMessage)
    → (5 * nanoseconds_per_second ≤ retry_delay_ns m)
      × (retry_delay_ns m ≤ 304 * nanoseconds_per_second)
unfolding retry_delay_ns
delay-bounds m =
    let (low, high) = power (min m.attempt_count 6) (omega arith) in
    (omega (arith, low), omega (arith, high))

-- A message that was attempted more often waits at least as long.
delay-monotone :
    (m n : OutboundMessage)
    → m.event_counter ≡ n.event_counter
    → m.attempt_count ≤ n.attempt_count
    → retry_delay_ns m ≤ retry_delay_ns n
unfolding retry_delay_ns
delay-monotone m n same more =
    let exponents : min m.attempt_count 6 ≤ min n.attempt_count 6 = omega arith in
    let powers = pow-le-pow_right {n = 2} (omega arith) exponents in rw same (omega (arith, powers))

-- A row of the id after an update is an updated row.
In-update :
    (f : Row → Row) (id : Text) (rows : List Row) (r : Row)
    → ((x : Row) → (f x).event_id ≡ x.event_id)
    → In r (update f id rows)
    → r.event_id ≡ id
    → (x : Row) × (f x ≡ r)
unfolding update
In-update f id [] r same m e = elim m [ ]
In-update f id (x ∷ rows) r same m e = elim m [
  | inr there ↦ In-update f id rows r same there e
  | inl here ↦ elim (Bool-cases (x.event_id == id)) [
    | inl hit ↦ (x, ground (arith, hit, here))
    | inr miss ↦
        let same_row : x ≡ r = ground (arith, miss, here) in
        let at : x.event_id ≡ id = ap (λ y. y.event_id) same_row ∙ e in
        absurd (cc ((text_beq_iff x.event_id id).1 at, miss))
  ]
]

abbrev buried : Text → Row → Row
buried error r = record r { state = OutboundState.dead_letter; last_error = some (take 1024 error) }

abbrev delayed : ℕ → Text → Row → Row
delayed next_attempt_ns error r = record r {
  state = OutboundState.pending;
  next_attempt_at_ns = next_attempt_ns;
  last_error = some (take 1024 error);
}

-- After a failure the message's row is a dead letter, which is ready at no time, if the rejection is
-- permanent; otherwise it is ready from the failed round's time on and a delay, of 5 to 304 seconds,
-- and not before.
pub note_failure-ready :
    (k : Round) (ready : OutboundMessage) (q : OutboundQueue) (r : Row)
    → In r (note_failure k ready q).messages
    → r.event_id ≡ ready.event_id
    → ((is_permanent_rejection k.response ≡ true)
        × (r.state ≡ OutboundState.dead_letter)
        × ((t : ℕ) → is_ready t r ≡ false))
      ⊎ ((is_permanent_rejection k.response ≡ false)
          × (d : ℕ) × (5 * nanoseconds_per_second ≤ d)
          × (d ≤ 304 * nanoseconds_per_second)
          × ((t : ℕ) → is_ready t r ≡ leb (k.now_ns + d) t))
unfolding note_failure note_retry mark_retry mark_dead_letter
note_failure-ready k ready q r m e = elim (Bool-cases (is_permanent_rejection k.response)) [
  | inl permanent ↦
      let inside : In r (mark_dead_letter ready.event_id k.what q).messages =
        subst
          (λ b.
            In r
              (if b
                then mark_dead_letter ready.event_id k.what q
                else note_retry k ready q).messages)
          permanent m in
      let (x, made) = In-update (buried k.what) ready.event_id q.messages r (λ y. refl) inside e in
      inl (permanent, sym (ap (λ y. y.state) made), λ t. rw (sym made) refl)
  | inr passing ↦
      let inside : In r (note_retry k ready q).messages =
        subst
          (λ b.
            In r
              (if b
                then mark_dead_letter ready.event_id k.what q
                else note_retry k ready q).messages)
          passing m in
      let (x, made) =
        In-update (delayed (k.now_ns + retry_delay_ns ready) k.what) ready.event_id q.messages r
          (λ y. refl) inside e in
      let (low, high) = delay-bounds ready in
      inr (passing, retry_delay_ns ready, low, high, λ t. rw (sym made) refl)
]
