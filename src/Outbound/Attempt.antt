-- ===== src/Outbound/Attempt.antt =====
-- Storing an attempt keeps the byte budget.
use neta_agent.Prelude.{
  subst, ℕ, ◌+◌, ◌-◌, ◌≤◌, ◌≡◌, ◌≢◌, inl, inr, refl, ap, ◌∙◌, true, false, ◌&&◌, none, some, List,
  [], ◌∷◌, Text, ◌==◌, nat_eq, text_eq, text_beq_iff, ltb, length, In, In-keep_of, arith,
  Bool-cases, any, keep, value_or,
}
use neta_agent.Outbound.Message.{is_acked, Row, OutboundQueue, Sqlite, OutboundMessage}
use neta_agent.Outbound.Queue.{
  reserve, remove, is_low, used, row_bytes, store_attempt, update, with_id, attempted,
  envelope_bytes, is_acknowledged,
}
use neta_agent.Outbound.Evict.{Stable, Room, enforce_budget-Room}
use neta_agent.Outbound.Budget.{Within-Stable, over-fits}

with_id-update-none :
    (f : Row → Row) (id : Text) (rows : List Row)
    → with_id id rows ≡ []
    → with_id id (update f id rows) ≡ []
unfolding with_id update
with_id-update-none f id [] h = refl
with_id-update-none f id (r ∷ rows) h = ground (arith, with_id-update-none f id rows)

with_id-update :
    (f : Row → Row) (id : Text) (rows : List Row) (x : Row)
    → ((r : Row) → (f r).event_id ≡ r.event_id)
    → with_id id rows ≡ x ∷ []
    → with_id id (update f id rows) ≡ f x ∷ []
unfolding with_id update
with_id-update f id [] x same h = ground arith
with_id-update f id (r ∷ rows) x same h =
    ground (arith, same r, with_id-update f id rows x same, with_id-update-none f id rows)

with_id-event : (id : Text) (rows : List Row) (x : Row) → with_id id rows ≡ x ∷ [] → x.event_id ≡ id
unfolding with_id
with_id-event id [] x h = ground arith
with_id-event id (r ∷ rows) x h =
    ground (arith, with_id-event id rows x, text_beq_iff r.event_id id)

with_id-not_acked :
    (id : Text) (q : OutboundQueue) (x : Row)
    → with_id id q.messages ≡ x ∷ []
    → is_acknowledged id q ≡ false
    → is_acked x.state ≡ false
unfolding with_id is_acknowledged
with_id-not_acked id q x = go q.messages
  where
    go :
        (rows : List Row)
        → keep (λ r. r.event_id == id) rows ≡ x ∷ []
        → any (λ r. r.event_id == id && is_acked r.state) rows ≡ false
        → is_acked x.state ≡ false
    go [] h n = ground arith
    go (r ∷ rows) h n = ground (arith, go rows)

with_id-one :
    (id : Text) (rows : List Row)
    → (length (with_id id rows) == 1) ≡ true
    → (x : Row) × (with_id id rows ≡ x ∷ [])
with_id-one id rows = go (with_id id rows)
  where
    go : (xs : List Row) → (length xs == 1) ≡ true → (x : Row) × (xs ≡ x ∷ [])
    go [] h = absurd (ground arith)
    go (x ∷ []) h = (x, refl)
    go (x ∷ y ∷ ys) h = absurd (ground arith)

with_id-remove :
    (id other : Text) (rows : List Row)
    → (other == id) ≡ false
    → with_id id (remove other rows) ≡ with_id id rows
unfolding with_id remove
with_id-remove id other [] h = refl
with_id-remove id other (r ∷ rows) h = ground (
  arith,
  with_id-remove id other rows,
  text_beq_iff r.event_id id,
  text_beq_iff r.event_id other,
  text_beq_iff other id,
)

-- Nothing that may go has the id of a row that may not.
with_id-Stable :
    (id : Text) (x : Row)
    → is_low x ≡ false
    → is_acked x.state ≡ false
    → Stable (λ rows. with_id id rows ≡ x ∷ [])
unfolding with_id remove
with_id-Stable id x high unacked r rows inside may h = elim (Bool-cases (r.event_id == id)) [
  | inl hit ↦
      let found : In r (x ∷ []) =
        subst (λ xs. In r xs) h (In-keep_of (λ s. s.event_id == id) r rows inside hit) in
      absurd (ground (arith, found))
  | inr miss ↦ with_id-remove id r.event_id rows miss ∙ h
]

module _ (sql : Sqlite) where
  update-none :
      (f : Row → Row) (id : Text) (rows : List Row)
      → with_id id rows ≡ []
      → used sql (update f id rows) ≡ used sql rows
  unfolding with_id update used
  update-none f id [] h = refl
  update-none f id (r ∷ rows) h = elim (Bool-cases (r.event_id == id)) [
    | inl hit ↦ absurd (ground (arith, hit))
    | inr miss ↦ rw (miss, used) (ground (arith, miss, update-none f id rows))
  ]

  update-one :
      (f : Row → Row) (id : Text) (rows : List Row) (x : Row)
      → with_id id rows ≡ x ∷ []
      → is_acked x.state ≡ false
      → is_acked (f x).state ≡ false
      → used sql (update f id rows) + row_bytes sql x ≡ used sql rows + row_bytes sql (f x)
  unfolding with_id update used
  update-one f id [] x h n m = absurd (ground arith)
  update-one f id (r ∷ rows) x h n m = elim (Bool-cases (r.event_id == id)) [
    | inl hit ↦
        let same : r ≡ x = ground (arith, hit) in
        let others : with_id id rows ≡ [] = ground (arith, hit) in
        rw (hit, used) (rw (update-none f id rows others) (rw same (ground (arith))))
    | inr miss ↦ rw (miss, used) (ground (arith, miss, update-one f id rows x))
  ]

  abbrev Held : Text → Row → ℕ → List Row → Type 0
  Held id x n rows = (with_id id rows ≡ x ∷ []) × (used sql rows ≤ n)

  Held-Stable :
      (id : Text) (x : Row) (n : ℕ)
      → is_low x ≡ false
      → is_acked x.state ≡ false
      → Stable (Held id x n)
  Held-Stable id x n high unacked r rows inside may (h, w) = (
    with_id-Stable id x high unacked r rows inside may h,
    Within-Stable sql n r rows inside may w,
  )

  -- The last step: the row is in flight, and its envelope is replaced.
  replaced :
      (m : OutboundMessage) (now_ns n : ℕ) (rows : List Row) (x : Row)
      → with_id m.event_id rows ≡ x ∷ []
      → is_acked x.state ≡ false
      → used sql rows + length m.attempt_envelope_json
        ≤ n + sql.sql_length (value_or x.attempt_envelope_json [])
      → used sql (update (attempted sql m now_ns) m.event_id rows) ≤ n
  replaced m now_ns n rows x single unacked fits =
      let bytes = update-one (attempted sql m now_ns) m.event_id rows x single unacked refl in
      ground (arith, bytes, fits, sql.sql_length-le m.attempt_envelope_json, sql.sql_length-le [])

  -- Where a limit is set, the rows that are not acknowledged are within it, and the message's row
  -- is not acknowledged, they are within it after a `store_attempt` that succeeds.
  pub store_attempt-within :
      (m : OutboundMessage) (now_ns : ℕ) (q t : OutboundQueue)
      → q.max_bytes ≢ 0
      → used sql q.messages ≤ q.max_bytes
      → is_acknowledged m.event_id q ≡ false
      → store_attempt sql m now_ns q ≡ some t
      → (used sql t.messages ≤ t.max_bytes) × (t.max_bytes ≡ q.max_bytes)
  unfolding store_attempt
  store_attempt-within m now_ns q t set within unacked done =
      elim (Bool-cases (length (with_id m.event_id q.messages) == 1)) [
        | inr none_or_many ↦ absurd (ground (arith, none_or_many, done))
        | inl one ↦
            let (x, single) = with_id-one m.event_id q.messages one in
            let reserved = record q { messages = update reserve m.event_id q.messages } in
            let open_row = with_id-not_acked m.event_id q x single unacked in
            let one_y = with_id-update reserve m.event_id q.messages x (λ r. refl) single in
            let same_bytes = update-one reserve m.event_id q.messages x single open_row refl in
            let env = ap (envelope_bytes sql) single in
            let len = length m.attempt_envelope_json in
            let existing = envelope_bytes sql (with_id m.event_id q.messages) in
            elim (Bool-cases (ltb existing len)) [
              | inr small ↦
                  let made : store_attempt sql m now_ns q
                      ≡ some (record q {
                        messages = update (attempted sql m now_ns) m.event_id reserved.messages;
                      }) =
                    rw (one, store_attempt) (rw small refl) in
                  let same : t ≡ record q {
                    messages = update (attempted sql m now_ns) m.event_id reserved.messages;
                  } =
                    cc (made, done) in
                  rw same (
                    replaced m now_ns q.max_bytes reserved.messages (reserve x) one_y refl
                        (ground (arith, same_bytes, env, small, within)),
                    refl,
                  )
              | inl large ↦
                  elim (enforce_budget-Room sql (Held m.event_id (reserve x) q.max_bytes)
                    (Held-Stable m.event_id (reserve x) q.max_bytes refl refl) (len - existing)
                    reserved (one_y, ground (arith, same_bytes, within))) [
                      | inl fails ↦
                          let bad : store_attempt sql m now_ns q ≡ none =
                            rw (one, store_attempt) (rw large (rw fails refl)) in
                          absurd (ground (arith, bad, done))
                      | inr (r, made, fits, room) ↦
                          let result : store_attempt sql m now_ns q
                              ≡ some (record r {
                                messages = update (attempted sql m now_ns) m.event_id r.messages;
                              }) =
                            rw (one, store_attempt) (rw large (rw made refl)) in
                          let same : t ≡ record r {
                            messages = update (attempted sql m now_ns) m.event_id r.messages;
                          } =
                            cc (result, done) in
                          let below = over-fits sql (len - existing) r in
                          rw same (
                            replaced m now_ns r.max_bytes r.messages (reserve x) room.holds.0 refl
                                (ground (arith, env, large, fits, set, below, room.same_max)),
                            room.same_max,
                          )
                    ]
            ]
      ]

  -- A stored attempt: room was made with the row reserved, and then the row was replaced.
  pub store_attempt-Room :
      (P : List Row → Type 0)
      → Stable P
      → (m : OutboundMessage) (now_ns : ℕ) (q t : OutboundQueue)
      → P (update reserve m.event_id q.messages)
      → store_attempt sql m now_ns q ≡ some t
      → (r : OutboundQueue) × Room P
          (record q { messages = update reserve m.event_id q.messages })
          r
        × (t ≡ record r { messages = update (attempted sql m now_ns) m.event_id r.messages })
  unfolding store_attempt
  store_attempt-Room P stable m now_ns q t h done =
      let reserved = record q { messages = update reserve m.event_id q.messages } in
      let len = length m.attempt_envelope_json in
      let existing = envelope_bytes sql (with_id m.event_id q.messages) in
      elim (Bool-cases (length (with_id m.event_id q.messages) == 1)) [
        | inr none_or_many ↦ absurd (ground (arith, none_or_many, done))
        | inl one ↦ elim (Bool-cases (ltb existing len)) [
          | inr small ↦
              let made : store_attempt sql m now_ns q
                  ≡ some (record q {
                    messages = update (attempted sql m now_ns) m.event_id reserved.messages;
                  }) =
                rw (one, store_attempt) (rw small refl) in
              (
                reserved,
                record { holds = h; same_max = refl; same_agent = refl; same_next = refl },
                cc (made, done),
              )
          | inl large ↦ elim (enforce_budget-Room sql P stable (len - existing) reserved h) [
            | inl fails ↦
                let bad : store_attempt sql m now_ns q ≡ none =
                  rw (one, store_attempt) (rw large (rw fails refl)) in
                absurd (ground (arith, bad, done))
            | inr (r, made, fits, room) ↦
                let result : store_attempt sql m now_ns q
                    ≡ some (record r {
                      messages = update (attempted sql m now_ns) m.event_id r.messages;
                    }) =
                  rw (one, store_attempt) (rw large (rw made refl)) in
                (r, room, cc (result, done))
          ]
        ]
      ]
