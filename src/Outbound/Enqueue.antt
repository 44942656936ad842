-- ===== src/Outbound/Enqueue.antt =====
-- The three ways an `enqueue` ends.
use neta_agent.Prelude.{
  ℕ, ◌+◌, ◌≡◌, ◌⊎◌, inl, inr, refl, true, false, none, some, List, [], ◌∷◌, ◌++◌, text_eq, nat_eq,
  length, is_empty, any, Bool-cases,
}
use neta_agent.Outbound.Message.{Row, OutboundQueue, Sqlite, Submission}
use neta_agent.Outbound.Queue.{over, enqueue, insert, conflicts, new_row, existing_event}
use neta_agent.Outbound.Evict.{Stable, Room, enforce_budget-Room}

abbrev pub stored : Row → OutboundQueue → OutboundQueue
stored r q = record q {
  messages = q.messages ++ r ∷ [];
  next_event_counter = q.next_event_counter + 1;
}

abbrev pub coalesced : OutboundQueue → OutboundQueue
coalesced q = record q { coalesced = q.coalesced + 1 }

pub insert_cases :
    (r : Row) (q : OutboundQueue)
    → (any (λ s. conflicts r s) q.messages ≡ true) × (insert r q ≡ none)
      ⊎ (any (λ s. conflicts r s) q.messages ≡ false) × (insert r q ≡ some (stored r q))
unfolding insert
insert_cases r q = elim (Bool-cases (any (λ s. conflicts r s) q.messages)) [
  | inl taken ↦ inl (taken, rw (taken, insert) refl)
  | inr free ↦ inr (free, rw (free, insert) refl)
]

module _ (sql : Sqlite) where
  -- The key is known.
  pub record Known (s : Submission) (now_ns : ℕ) (q : OutboundQueue) : Type 0 where
    pub known : is_empty (existing_event s.producer_key q.messages) ≡ false
    pub result :
        enqueue sql s now_ns q ≡ some (existing_event s.producer_key q.messages, coalesced q)

  -- The key is new, and a row was stored in the room made in `t`.
  pub record Added (P : List Row → Type 0) (s : Submission) (now_ns : ℕ) (q t : OutboundQueue)
      : Type 0 where
    pub fresh : is_empty (existing_event s.producer_key q.messages) ≡ true
    pub fits : (q.max_bytes ≡ 0) ⊎ (over sql (length s.payload_json + 512) t ≡ false)
    pub room : Room P q t
    pub free : any (λ r. conflicts (new_row t s now_ns) r) t.messages ≡ false
    pub result :
        enqueue sql s now_ns q ≡ some ((new_row t s now_ns).event_id, stored (new_row t s now_ns) t)

  pub enqueue_cases :
      (P : List Row → Type 0)
      → Stable P
      → (s : Submission) (now_ns : ℕ) (q : OutboundQueue) → P q.messages
      → (enqueue sql s now_ns q ≡ none)
        ⊎ (Known s now_ns q ⊎ ((t : OutboundQueue) × Added P s now_ns q t))
  unfolding enqueue
  enqueue_cases P stable s now_ns q h =
      elim (Bool-cases (is_empty (existing_event s.producer_key q.messages))) [
        | inr known ↦ inr (inl (record { known = known; result = rw (known, enqueue) refl }))
        | inl fresh ↦ elim (enforce_budget-Room sql P stable (length s.payload_json + 512) q h) [
          | inl fails ↦ inl (rw (fresh, enqueue) (rw fails refl))
          | inr (t, made, fits, room) ↦ elim (insert_cases (new_row t s now_ns) t) [
            | inl (taken, bad) ↦ inl (rw (fresh, enqueue) (rw made (rw bad refl)))
            | inr (free, good) ↦ inr (
                inr (
                  t,
                  record {
                    fresh = fresh;
                    fits = fits;
                    room = room;
                    free = free;
                    result = rw (fresh, enqueue) (rw made (rw good refl));
                  },
                ))
          ]
        ]
      ]
