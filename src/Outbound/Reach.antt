-- ===== src/Outbound/Reach.antt =====
-- The queues that the operations reach, and what holds of all of them.
use neta_agent.Prelude.{
  ℕ, ◌≤◌, ◌≡◌, ◌≢◌, ◌⊎◌, inl, inr, refl, ◌∙◌, subst, Bool, true, false, ◌&&◌, not, none, some, List,
  [], ◌∷◌, Text, ◌==◌, nat_eq, text_eq, ltb, leb, arith, Bool-cases, Option-cases, any, bytes,
}
use neta_agent.Crypto.{Sha256}
use neta_agent.Outbound.Message.{
  Row, OutboundQueue, Sqlite, Submission, OutboundMessage, OutboundState, is_acked, is_open,
}
use neta_agent.Outbound.Queue.{
  new, update, used, row_bytes, enqueue, store_attempt, reserve, attempted, mark_retry,
  mark_dead_letter, mark_acknowledged, is_acknowledged, enqueue_gap_marker, gap_marker,
  prune_acknowledged,
}
use neta_agent.Outbound.Budget.{enqueue-within, used-keep}
use neta_agent.Outbound.Attempt.{store_attempt-Room, store_attempt-within}
use neta_agent.Outbound.Identity.{
  Issued-Stable, enqueue-max_bytes, ident, idents, Issued, Issued-keep, Identified, idents-update,
  enqueue-Identified,
}

abbrev stays : ℕ → Row → Bool
stays older_than_ns r =
    not (
      is_acked r.state && elim r.ack_received_at_ns [ none ↦ false | some t ↦ ltb t older_than_ns ])

module _ (sql : Sqlite) (sha : Sha256) where
  -- The steps of the queue. An operation that throws is no step, since it is rolled back; an attempt
  -- is stored, and a failure noted, only for a message that is not acknowledged.
  pub data Reachable : OutboundQueue → Type 0 where
    start : (agent : Text) (max_bytes : ℕ) → Reachable (new agent max_bytes)
    submitted :
        {q t : OutboundQueue} (s : Submission) (now_ns : ℕ) {id : Text}
        → Reachable q
        → enqueue sql s now_ns q ≡ some (id, t)
        → Reachable t
    tried :
        {q t : OutboundQueue} (m : OutboundMessage) (now_ns : ℕ)
        → Reachable q
        → is_acknowledged m.event_id q ≡ false
        → store_attempt sql m now_ns q ≡ some t
        → Reachable t
    retried :
        {q : OutboundQueue} (id : Text) (next_attempt_ns : ℕ) (error : Text)
        → Reachable q
        → is_acknowledged id q ≡ false
        → Reachable (mark_retry id next_attempt_ns error q)
    buried :
        {q : OutboundQueue} (id : Text) (error : Text)
        → Reachable q
        → is_acknowledged id q ≡ false
        → Reachable (mark_dead_letter id error q)
    acked :
        {q : OutboundQueue} (id status received_at : Text) (now_ns : ℕ)
        → Reachable q
        → Reachable (mark_acknowledged sql id status received_at now_ns q)
    marked :
        {q t : OutboundQueue} (now_ns : ℕ)
        → Reachable q
        → enqueue_gap_marker sql sha now_ns q ≡ some t
        → Reachable t
    pruned :
        {q : OutboundQueue} (older_than_ns : ℕ)
        → Reachable q
        → Reachable (prune_acknowledged older_than_ns q)

  used-noted :
      (f : Row → Row) (id : Text) (rows : List Row)
      → ((r : Row) → row_bytes sql (f r) ≡ row_bytes sql r)
      → any (λ r. r.event_id == id && is_acked r.state) rows ≡ false
      → used sql (update f id rows) ≤ used sql rows
  unfolding used update
  used-noted f id [] same h = omega arith
  used-noted f id (r ∷ rows) same h = elim (Bool-cases (r.event_id == id)) [
    | inl hit ↦ rw hit (ground (arith, hit, same r, used-noted f id rows same))
    | inr miss ↦ rw miss (ground (arith, miss, used-noted f id rows same))
  ]

  used-acked :
      (f : Row → Row) (id : Text) (rows : List Row)
      → ((r : Row) → is_acked (f r).state ≡ true)
      → used sql (update f id rows) ≤ used sql rows
  unfolding used update
  used-acked f id [] acks = omega arith
  used-acked f id (r ∷ rows) acks = elim (Bool-cases (r.event_id == id)) [
    | inl hit ↦ rw hit (ground (arith, acks r, used-acked f id rows acks))
    | inr miss ↦ rw miss (ground (arith, miss, used-acked f id rows acks))
  ]

  -- The rows are identified, and within the limit where one is set.
  pub record Sound (q : OutboundQueue) : Type 0 where
    pub identified : Identified q
    pub within : q.max_bytes ≢ 0 → used sql q.messages ≤ q.max_bytes

  idents-kept :
      (f : Row → Row) (id : Text) (q : OutboundQueue)
      → ((r : Row) → ident (f r) ≡ ident r)
      → Identified q
      → Issued q.agent_id q.next_event_counter (idents (update f id q.messages))
  idents-kept f id q same h = rw (idents-update f id q.messages same) h

  enqueue-Sound :
      (s : Submission) (now_ns : ℕ) (q t : OutboundQueue) (id : Text)
      → Sound q
      → enqueue sql s now_ns q ≡ some (id, t)
      → Sound t
  enqueue-Sound s now_ns q t id h done = record {
    identified = enqueue-Identified sql s now_ns q t id h.identified done;
    within = λ set.
        let same = enqueue-max_bytes sql s now_ns q t id done in
        let was : q.max_bytes ≢ 0 = λ e. set (same ∙ e) in
        (enqueue-within sql s now_ns q t id was (h.within was) done).0;
  }

  tried-Sound :
      (m : OutboundMessage) (now_ns : ℕ) (q t : OutboundQueue)
      → Sound q
      → is_acknowledged m.event_id q ≡ false
      → store_attempt sql m now_ns q ≡ some t
      → Sound t
  tried-Sound m now_ns q t h unacked done =
      let (r, room, same) =
        store_attempt-Room sql (λ rows. Issued q.agent_id q.next_event_counter (idents rows))
          (Issued-Stable q.agent_id q.next_event_counter) m now_ns q t
          (idents-kept reserve m.event_id q (λ x. refl) h.identified) done in
      let before : Identified r = rw room.same_agent (rw room.same_next room.holds) in
      let kept = idents-kept (attempted sql m now_ns) m.event_id r (λ x. refl) before in
      rw same (record {
        identified = kept;
        within = λ set.
            let was : q.max_bytes ≢ 0 = λ e. set (room.same_max ∙ e) in
            subst (λ u. used sql u.messages ≤ u.max_bytes) same
              (store_attempt-within sql m now_ns q t was (h.within was) unacked done).0;
      })

  noted-Sound :
      (f : Row → Row) (id : Text) (q : OutboundQueue)
      → ((r : Row) → ident (f r) ≡ ident r)
      → ((r : Row) → row_bytes sql (f r) ≡ row_bytes sql r)
      → is_acknowledged id q ≡ false
      → Sound q
      → Sound (record q { messages = update f id q.messages })
  unfolding is_acknowledged
  noted-Sound f id q same bytes unacked h = record {
    identified = idents-kept f id q same h.identified;
    within = λ set. omega (arith, used-noted f id q.messages bytes unacked, h.within set);
  }

  pub gap_marker_cases :
      (now_ns : ℕ) (q t : OutboundQueue)
      → enqueue_gap_marker sql sha now_ns q ≡ some t
      → (t ≡ q)
        ⊎ ((id : Text) × (enqueue sql (gap_marker sha q.dropped_low_priority) now_ns q
              ≡ some (id, t)))
  unfolding enqueue_gap_marker
  gap_marker_cases now_ns q t done =
      elim (Bool-cases (leb q.dropped_low_priority q.reported_dropped_low_priority)) [
        | inl reported ↦ inl (ground (arith, reported, done))
        | inr unreported ↦
            elim (Bool-cases
              (any (λ r. r.finding_type == bytes "TELEMETRY_GAP" && is_open r.state) q.messages)) [
                | inl waiting ↦ inl (ground (arith, unreported, waiting, done))
                | inr absent ↦
                    elim (Option-cases
                      (enqueue sql (gap_marker sha q.dropped_low_priority) now_ns q)) [
                        | inl fails ↦ absurd (ground (arith, unreported, absent, fails, done))
                        | inr (p, made) ↦ inr (p.0, ground (arith, unreported, absent, made, done))
                      ]
              ]
      ]

  pub Reachable-Sound : (q : OutboundQueue) → Reachable q → Sound q
  unfolding mark_retry mark_dead_letter mark_acknowledged prune_acknowledged new Issued used
  Reachable-Sound q (start agent max_bytes) = record {
    identified = tt;
    within = λ set. omega arith;
  }
  Reachable-Sound q (submitted s now_ns h done) =
      enqueue-Sound s now_ns _ q _ (Reachable-Sound _ h) done
  Reachable-Sound q (tried m now_ns h unacked done) =
      tried-Sound m now_ns _ q (Reachable-Sound _ h) unacked done
  Reachable-Sound q (retried id next_attempt_ns error h unacked) =
      noted-Sound _ id _ (λ r. refl) (λ r. refl) unacked (Reachable-Sound _ h)
  Reachable-Sound q (buried id error h unacked) =
      noted-Sound _ id _ (λ r. refl) (λ r. refl) unacked (Reachable-Sound _ h)
  Reachable-Sound q (acked {q = p} id status received_at now_ns h) =
      let f : Row → Row = λ r. record r {
        state = OutboundState.acknowledged;
        ack_status = some status;
        ack_received_at_ns = some now_ns;
        server_received_at = some received_at;
        last_error = none;
      } in
      let before = Reachable-Sound p h in
      record {
        identified = idents-kept f id p (λ r. refl) before.identified;
        within = λ set. omega (arith, used-acked f id p.messages (λ r. refl), before.within set);
      }
  Reachable-Sound q (marked {q = p} now_ns h done) = elim (gap_marker_cases now_ns p q done) [
    | inl same ↦ rw same (Reachable-Sound _ h)
    | inr (id, made) ↦ enqueue-Sound _ now_ns _ q id (Reachable-Sound _ h) made
  ]
  Reachable-Sound q (pruned {q = p} older_than_ns h) =
      let before = Reachable-Sound p h in
      record {
        identified = Issued-keep p.agent_id p.next_event_counter _ p.messages before.identified;
        within =
            λ set. omega (arith, used-keep sql (stays older_than_ns) p.messages, before.within set);
      }

  -- In every queue that the operations reach, no two rows share an event counter or a producer key,
  -- the event id of each row is the agent's id and its counter, which is below the next counter, and
  -- no limit is set or the rows that are not acknowledged are within it, in the sizes that SQLite
  -- gives the code.
  pub Reachable-queue :
      (q : OutboundQueue)
      → Reachable q
      → Issued q.agent_id q.next_event_counter (idents q.messages)
        × ((q.max_bytes ≡ 0) ⊎ (used sql q.messages ≤ q.max_bytes))
  Reachable-queue q h =
      let sound = Reachable-Sound q h in
      (
        sound.identified,
        elim (Bool-cases (q.max_bytes == 0)) [
          | inl off ↦ inl (ground (arith, off))
          | inr on ↦ inr (sound.within (ground (arith, on)))
        ],
      )
