-- ===== src/Outbound/Budget.antt =====
-- The byte budget of the outbound queue.
use neta_agent.Prelude.{
  ℕ, ◌+◌, ◌≤◌, ◌≡◌, ◌≢◌, inl, inr, refl, Bool, false, not, some, List, [], ◌∷◌, ◌++◌, Text, ◌==◌,
  nat_eq, text_eq, length, arith, keep,
}
use neta_agent.Outbound.Message.{Row, OutboundQueue, Sqlite, Submission}
use neta_agent.Outbound.Queue.{remove, over, used, enqueue, new_row}
use neta_agent.Outbound.Enqueue.{enqueue_cases, stored, coalesced}
use neta_agent.Outbound.Evict.{Stable}

module _ (sql : Sqlite) where
  pub used-append : (xs ys : List Row) → used sql (xs ++ ys) ≡ used sql xs + used sql ys
  unfolding used
  used-append [] ys = omega arith
  used-append (x ∷ xs) ys = ground (arith, used-append xs ys)

  pub used-keep : (p : Row → Bool) (xs : List Row) → used sql (keep p xs) ≤ used sql xs
  unfolding used
  used-keep p [] = omega arith
  used-keep p (x ∷ xs) = ground (arith, used-keep p xs)

  -- The rows take at most so many bytes.
  abbrev pub Within : ℕ → List Row → Type 0
  Within n rows = used sql rows ≤ n

  pub Within-Stable : (n : ℕ) → Stable (Within n)
  unfolding remove
  Within-Stable n r rows inside may h =
      omega (arith, used-keep (λ s. not (s.event_id == r.event_id)) rows, h)

  pub over-fits :
      (n : ℕ) (q : OutboundQueue) → over sql n q ≡ false → used sql q.messages + n ≤ q.max_bytes
  unfolding over
  over-fits n q h = ground (arith, h)

  new_row-bytes :
      (q : OutboundQueue) (s : Submission) (now_ns : ℕ)
      → used sql (new_row q s now_ns ∷ []) ≤ length s.payload_json + 512
  unfolding new_row used
  new_row-bytes q s now_ns = omega (arith, sql.sql_length-le s.payload_json)

  -- Where a limit is set, and the rows that are not acknowledged are within it, they are so after
  -- an `enqueue` that returns an id.
  pub enqueue-within :
      (s : Submission) (now_ns : ℕ) (q t : OutboundQueue) (id : Text)
      → q.max_bytes ≢ 0
      → used sql q.messages ≤ q.max_bytes
      → enqueue sql s now_ns q ≡ some (id, t)
      → (used sql t.messages ≤ t.max_bytes) × (t.max_bytes ≡ q.max_bytes)
  enqueue-within s now_ns q t id set within done =
      elim (enqueue_cases sql (Within q.max_bytes) (Within-Stable q.max_bytes) s now_ns q within) [
        | inl fails ↦ absurd (ground (arith, fails, done))
        | inr (inl k) ↦ let same : t ≡ coalesced q = cc (k.result, done) in rw same (within, refl)
        | inr (inr (r, a)) ↦
            let row = new_row r s now_ns in
            let same : t ≡ stored row r = cc (a.result, done) in
            let fits = over-fits (length s.payload_json + 512) r in
            rw same (
              ground (
                arith,
                a.fits,
                fits,
                set,
                a.room.same_max,
                used-append r.messages (row ∷ []),
                new_row-bytes r s now_ns,
              ),
              a.room.same_max,
            )
      ]
