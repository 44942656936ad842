-- ===== src/Outbound/Ready.antt =====
-- The message that is sent next.
use neta_agent.Prelude.{
  Bool-cases, All, ℕ, ◌≤◌, ◌<◌, ◌≡◌, ◌⊎◌, inl, inr, refl, Bool, true, false, none, some, List, [],
  ◌∷◌, nat_eq, text_eq, In, arith, Option-cases,
}
use neta_agent.Outbound.Message.{Row, OutboundQueue}
use neta_agent.Outbound.Queue.{pick, next_ready, to_message, is_ready, ready_before}
use neta_agent.Outbound.Evict.{pick-In}

pick-none :
    (p : Row → Bool) (b : Row → Row → Bool) (rows : List Row) (s : Row)
    → pick p b rows ≡ none
    → In s rows
    → p s ≡ false
unfolding pick
pick-none p b [] s h m = elim m [ ]
pick-none p b (x ∷ xs) s h m = elim (Option-cases (pick p b xs)) [
  | inl empty ↦ ground (arith, empty, pick-none p b xs s)
  | inr (r, found) ↦ ground (arith, found)
]

-- Of the rows that are ready, none is more urgent, and none as urgent is older.
pick-first :
    (now_ns : ℕ) (rows : List Row) (r s : Row)
    → pick (is_ready now_ns) ready_before rows ≡ some r
    → In s rows
    → is_ready now_ns s ≡ true
    → ready_before s r ≡ false
unfolding pick
pick-first now_ns [] r s h m ok = elim m [ ]
pick-first now_ns (x ∷ xs) r s h m ok =
    elim (Option-cases (pick (is_ready now_ns) ready_before xs)) [
      | inl empty ↦ elim m [
        | inl here ↦ ground (arith, empty, here)
        | inr there ↦
            absurd (ground (arith, pick-none (is_ready now_ns) ready_before xs s empty there))
      ]
      | inr (t, found) ↦ elim m [
        | inl here ↦ ground (arith, found, here)
        | inr there ↦ ground (arith, found, pick-first now_ns xs t s found there)
      ]
    ]

All-of : (P : Row → Type 0) (rows : List Row) → ((s : Row) → In s rows → P s) → All P rows
All-of P [] h = tt
All-of P (r ∷ rows) h = (h r (inl refl), All-of P rows (λ s m. h s (inr m)))

-- The row is not ready, or comes no earlier than the other one.
abbrev pub Waits : ℕ → Row → Row → Type 0
Waits now_ns r s =
    (is_ready now_ns s ≡ false)
    ⊎ ((s.priority < r.priority)
        ⊎ ((s.priority ≡ r.priority) × (r.created_at_ns ≤ s.created_at_ns)))

-- `next_ready` gives a row of the queue that is pending or in flight and whose time has come, and
-- no other such row has a higher priority, or the same priority and an earlier creation; where it
-- gives nothing, there is no such row.
pub next_ready-urgent :
    (now_ns : ℕ) (q : OutboundQueue)
    → ((next_ready now_ns q ≡ none) × All (λ s. is_ready now_ns s ≡ false) q.messages)
      ⊎ ((r : Row) × (next_ready now_ns q ≡ some (to_message r))
          × In r q.messages
          × (is_ready now_ns r ≡ true)
          × All (Waits now_ns r) q.messages)
unfolding next_ready
next_ready-urgent now_ns q = elim (Option-cases (pick (is_ready now_ns) ready_before q.messages)) [
  | inl empty ↦ inl (
    rw (empty, next_ready) refl,
    All-of _ q.messages (λ s m. pick-none (is_ready now_ns) ready_before q.messages s empty m),
  )
  | inr (r, found) ↦
      let (inside, ready) = pick-In (is_ready now_ns) ready_before q.messages r found in
      inr (
        r,
        rw (found, next_ready) refl,
        inside,
        ready,
        All-of (Waits now_ns r) q.messages (λ s m. elim (Bool-cases (is_ready now_ns s)) [
          | inl due ↦ inr (ground (arith, pick-first now_ns q.messages r s found m due))
          | inr early ↦ inl early
        ]),
      )
]
