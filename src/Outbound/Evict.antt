-- ===== src/Outbound/Evict.antt =====
-- What a query picks, and what making room can take from the queue.
use neta_agent.Prelude.{
  ℕ, zero, suc, ◌+◌, ◌≡◌, ◌⊎◌, inl, inr, refl, Bool, true, false, none, some, List, [], ◌∷◌, ◌==◌,
  nat_eq, text_eq, length, In, arith, Bool-cases, Option-cases,
}
use neta_agent.Outbound.Message.{is_acked, Row, OutboundQueue, Sqlite}
use neta_agent.Outbound.Queue.{
  pick, remove, is_low, drops_before, acked_before, remove_acked, drop_low, over, shed,
  enforce_budget,
}

pub pick-In :
    (p : Row → Bool) (b : Row → Row → Bool) (rows : List Row) (r : Row)
    → pick p b rows ≡ some r
    → In r rows × (p r ≡ true)
unfolding pick
pick-In p b [] r h = cc
pick-In p b (x ∷ xs) r h = elim (Option-cases (pick p b xs)) [
  | inl empty ↦ ground (arith, empty)
  | inr (s, found) ↦ ground (arith, found, pick-In p b xs s found)
]

-- What removing a row that may go keeps.
abbrev pub Stable : (List Row → Type 0) → Type 0
Stable P =
    (r : Row) (rows : List Row)
    → In r rows
    → (is_low r ≡ true) ⊎ (is_acked r.state ≡ true)
    → P rows
    → P (remove r.event_id rows)

remove_acked-stable :
    (P : List Row → Type 0)
    → Stable P
    → (n : ℕ) (rows : List Row) → P rows
    → P (remove_acked n rows)
unfolding remove_acked
remove_acked-stable P stable zero rows h = h
remove_acked-stable P stable (suc n) rows h =
    elim (Option-cases (pick (λ r. is_acked r.state) acked_before rows)) [
      | inl empty ↦ rw (empty, remove_acked) h
      | inr (r, found) ↦
          let (inside, acked) = pick-In (λ r. is_acked r.state) acked_before rows r found in
          rw (found, remove_acked)
            (remove_acked-stable P stable n (remove r.event_id rows)
              (stable r rows inside (inr acked) h))
    ]

-- The queue `t` is `q` with some rows gone, and what was known of the rows still holds.
pub record Room (P : List Row → Type 0) (q t : OutboundQueue) : Type 0 where
  pub holds : P t.messages
  pub same_max : t.max_bytes ≡ q.max_bytes
  pub same_agent : t.agent_id ≡ q.agent_id
  pub same_next : t.next_event_counter ≡ q.next_event_counter

abbrev dropped : Row → OutboundQueue → OutboundQueue
dropped r q = record q {
  messages = remove r.event_id q.messages;
  dropped_low_priority = q.dropped_low_priority + 1;
}

drop_low_cases :
    (q : OutboundQueue)
    → (drop_low q ≡ none)
      ⊎ ((r : Row) × In r q.messages × (is_low r ≡ true) × (drop_low q ≡ some (dropped r q)))
unfolding drop_low
drop_low_cases q = elim (Option-cases (pick is_low drops_before q.messages)) [
  | inl empty ↦ inl (rw (empty, drop_low) refl)
  | inr (r, found) ↦
      let (inside, low) = pick-In is_low drops_before q.messages r found in
      inr (r, inside, low, rw (found, drop_low) refl)
]

Room-after :
    (P : List Row → Type 0) (r : Row) (q t : OutboundQueue) → Room P (dropped r q) t → Room P q t
Room-after P r q t m = record {
  holds = m.holds;
  same_max = m.same_max;
  same_agent = m.same_agent;
  same_next = m.same_next;
}

module _ (sql : Sqlite) where
  shed-Room :
      (P : List Row → Type 0)
      → Stable P
      → (n required : ℕ) (q : OutboundQueue) → P q.messages
      → (shed sql n required q ≡ none)
        ⊎ ((t : OutboundQueue) × (shed sql n required q ≡ some t)
            × (over sql required t ≡ false)
            × Room P q t)
  unfolding shed
  shed-Room P stable zero required q h = elim (Bool-cases (over sql required q)) [
    | inl full ↦ inl (rw full refl)
    | inr fits ↦ inr (
      q,
      rw fits refl,
      fits,
      record { holds = h; same_max = refl; same_agent = refl; same_next = refl },
    )
  ]
  shed-Room P stable (suc n) required q h = elim (Bool-cases (over sql required q)) [
    | inl full ↦ elim (drop_low_cases q) [
      | inl empty ↦ inl (rw full (rw empty refl))
      | inr (r, inside, low, gone) ↦ rw full (
          rw gone
            (elim (shed-Room P stable n required (dropped r q)
              (stable r q.messages inside (inl low) h)) [
                | inl fails ↦ inl fails
                | inr (t, made, fits, room) ↦ inr (t, made, fits, Room-after P r q t room)
              ]))
    ]
    | inr fits ↦ inr (
      q,
      rw fits refl,
      fits,
      record { holds = h; same_max = refl; same_agent = refl; same_next = refl },
    )
  ]

  -- Making room fails, or gives a queue in which the required bytes fit.
  pub enforce_budget-Room :
      (P : List Row → Type 0)
      → Stable P
      → (required : ℕ) (q : OutboundQueue) → P q.messages
      → (enforce_budget sql required q ≡ none)
        ⊎ ((t : OutboundQueue) × (enforce_budget sql required q ≡ some t)
            × ((q.max_bytes ≡ 0) ⊎ (over sql required t ≡ false))
            × Room P q t)
  unfolding enforce_budget
  enforce_budget-Room P stable required q h = elim (Bool-cases (q.max_bytes == 0)) [
    | inl off ↦ inr (
      q,
      rw off refl,
      inl (ground (arith, off)),
      record { holds = h; same_max = refl; same_agent = refl; same_next = refl },
    )
    | inr on ↦ elim (Bool-cases (over sql required q)) [
      | inr fits ↦ inr (
        q,
        rw on (rw fits refl),
        inr fits,
        record { holds = h; same_max = refl; same_agent = refl; same_next = refl },
      )
      | inl full ↦
          let rows = remove_acked 256 q.messages in
          rw on (
            rw full
              (elim (shed-Room P stable (length rows) required (record q { messages = rows })
                (remove_acked-stable P stable 256 q.messages h)) [
                  | inl fails ↦ inl fails
                  | inr (t, made, fits, room) ↦ inr (
                    t,
                    made,
                    inr fits,
                    record {
                      holds = room.holds;
                      same_max = room.same_max;
                      same_agent = room.same_agent;
                      same_next = room.same_next;
                    },
                  )
                ]))
    ]
  ]
