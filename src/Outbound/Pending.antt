-- ===== src/Outbound/Pending.antt =====
-- A message that is not acknowledged: which operations leave it so.
use neta_agent.Prelude.{
  ℕ, ◌≡◌, inl, inr, refl, sym, ◌∙◌, subst, Bool, true, false, ◌&&◌, some, List, [], ◌∷◌, ◌++◌, Text,
  ◌==◌, nat_eq, text_eq, text_beq_iff, arith, Bool-cases, Option-cases, any, any-In, any-append, In,
  keep,
}
use neta_agent.Outbound.Message.{
  Row, OutboundQueue, Sqlite, Submission, OutboundMessage, OutboundState, is_acked, is_open,
}
use neta_agent.Outbound.Queue.{
  update, remove, pick, is_ready, next_ready, ready_before, new_row, to_message, store_attempt,
  reserve, attempted, enqueue,
}
use neta_agent.Outbound.Evict.{Stable, pick-In}
use neta_agent.Outbound.Attempt.{store_attempt-Room}
use neta_agent.Outbound.Enqueue.{enqueue_cases, coalesced, stored}
use neta_agent.Outbound.Identity.{Identified}
use neta_agent.Outbound.Keeps.{event_id-counter, Issued-id, same_row}

-- No row of the id is acknowledged.
abbrev pub Unacked : Text → List Row → Type 0
Unacked id rows = any (λ r. r.event_id == id && is_acked r.state) rows ≡ false

pub Unacked-keep :
    (p : Row → Bool) (id : Text) (rows : List Row) → Unacked id rows → Unacked id (keep p rows)
Unacked-keep p id [] h = refl
Unacked-keep p id (r ∷ rows) h = ground (arith, h, Unacked-keep p id rows)

pub Unacked-Stable : (id : Text) → Stable (Unacked id)
unfolding remove
Unacked-Stable id r rows inside may h = Unacked-keep _ id rows h

-- A change that acknowledges no row.
pub Unacked-update :
    (f : Row → Row) (id other : Text) (rows : List Row)
    → ((r : Row) → (f r).event_id ≡ r.event_id)
    → ((r : Row) → is_acked (f r).state ≡ false)
    → Unacked id rows
    → Unacked id (update f other rows)
unfolding update
Unacked-update f id other [] same pending h = refl
Unacked-update f id other (r ∷ rows) same pending h = elim (Bool-cases (r.event_id == other)) [
  | inl hit ↦ rw hit (ground (arith, h, pending r, Unacked-update f id other rows same pending))
  | inr miss ↦ rw miss (ground (arith, h, Unacked-update f id other rows same pending))
]

open-unacked : (s : OutboundState) → is_open s ≡ true → is_acked s ≡ false
open-unacked s h = ground arith

one_id :
    (q : OutboundQueue) (r s : Row)
    → Identified q
    → In r q.messages
    → In s q.messages
    → r.event_id ≡ s.event_id
    → r ≡ s
one_id q r s ids m n e =
    let (rid, _) = Issued-id q.agent_id q.next_event_counter q.messages r ids m in
    let (sid, _) = Issued-id q.agent_id q.next_event_counter q.messages s ids n in
    same_row q.agent_id q.next_event_counter q.messages r s ids m n
      (event_id-counter q.agent_id r.event_counter s.event_counter (sym rid ∙ e ∙ sid))

-- A message that is sent next is not acknowledged.
pub ready-Unacked :
    (now_ns : ℕ) (q : OutboundQueue) (m : OutboundMessage)
    → Identified q
    → next_ready now_ns q ≡ some m
    → Unacked m.event_id q.messages
unfolding next_ready to_message
ready-Unacked now_ns q m ids found =
    elim (Option-cases (pick (is_ready now_ns) ready_before q.messages)) [
      | inl empty ↦ absurd (ground (arith, empty, found))
      | inr (r, picked) ↦
          let (inside, ready) = pick-In (is_ready now_ns) ready_before q.messages r picked in
          let named : r.event_id ≡ m.event_id = ground (arith, picked, found) in
          elim (Bool-cases (any (λ s. s.event_id == m.event_id && is_acked s.state) q.messages)) [
            | inr unacked ↦ unacked
            | inl acked ↦
                let (s, there, both) = any-In _ q.messages acked in
                let same_id : s.event_id ≡ m.event_id =
                  (text_beq_iff s.event_id m.event_id).0 (ground (arith, both)) in
                let same = one_id q r s ids inside there (named ∙ sym same_id) in
                let open_row = open-unacked r.state (ground (arith, ready)) in
                let closed : is_acked s.state ≡ true = ground (arith, both) in
                absurd (cc (subst (λ x. is_acked x.state ≡ false) same open_row, closed))
          ]
    ]

module _ (sql : Sqlite) where
  pub store_attempt-Unacked :
      (id : Text) (m : OutboundMessage) (now_ns : ℕ) (q t : OutboundQueue)
      → Unacked id q.messages
      → store_attempt sql m now_ns q ≡ some t
      → Unacked id t.messages
  store_attempt-Unacked id m now_ns q t h done =
      let reserved = Unacked-update reserve id m.event_id q.messages (λ r. refl) (λ r. refl) h in
      let (r, room, same) =
        store_attempt-Room sql (Unacked id) (Unacked-Stable id) m now_ns q t reserved done in
      rw same (
        Unacked-update (attempted sql m now_ns) id m.event_id r.messages (λ x. refl) (λ x. refl)
          room.holds)

  Unacked-append :
      (id : Text) (rows : List Row) (r : Row)
      → is_acked r.state ≡ false
      → Unacked id rows
      → Unacked id (rows ++ r ∷ [])
  Unacked-append id rows r pending h = any-append _ rows (r ∷ []) h (ground (arith, pending))

  pub enqueue-Unacked :
      (id : Text) (s : Submission) (now_ns : ℕ) (q t : OutboundQueue) (event : Text)
      → Unacked id q.messages
      → enqueue sql s now_ns q ≡ some (event, t)
      → Unacked id t.messages
  unfolding new_row
  enqueue-Unacked id s now_ns q t event h done =
      elim (enqueue_cases sql (Unacked id) (Unacked-Stable id) s now_ns q h) [
        | inl fails ↦ absurd (cc (fails, done))
        | inr (inl known) ↦
            let same : t ≡ coalesced q = ground (arith, known.result, done) in rw same h
        | inr (inr (room, added)) ↦
            let same : t ≡ stored (new_row room s now_ns) room =
              ground (arith, added.result, done) in
            rw same (Unacked-append id room.messages (new_row room s now_ns) refl added.room.holds)
      ]
