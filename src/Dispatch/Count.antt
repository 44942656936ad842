-- ===== src/Dispatch/Count.antt =====
-- What a drain counts, and why it ends.
use neta_agent.Prelude.{
  ℕ, zero, suc, ◌+◌, ◌≤◌, ◌≡◌, ◌⊎◌, inl, inr, none, arith, Bool-cases, Option-cases,
}
use neta_agent.Crypto.{Sha256}
use neta_agent.Outbound.Message.{Sqlite}
use neta_agent.Outbound.Queue.{next_ready}
use neta_agent.Dispatch.Wording.{Calendar}
use neta_agent.Dispatch.Drain.{
  Allocator, Round, OutboundDispatchResult, zero_result, with_success, with_failure, Agent,
  dispatch, rounds, drain, make_ready, with_queue,
}

module _ (sql : Sqlite) (sha : Sha256) (calendar : Calendar) (sequence : Allocator) where
  -- From `r`, with `n` rounds left.
  pub record Counted (n : ℕ) (script : ℕ → Round) (r : OutboundDispatchResult)
      (e : OutboundDispatchResult × Agent sql sha calendar sequence) : Type 0 where
    bounded : e.0.attempted ≤ r.attempted + n
    pub grown : r.attempted ≤ e.0.attempted
    balanced :
        e.0.attempted + (r.acknowledged + r.failed) ≡ e.0.acknowledged + e.0.failed + r.attempted
    once : e.0.failed ≤ r.failed + 1
    ended :
        (e.0.attempted ≡ r.attempted + n)
        ⊎ ((e.0.failed ≡ r.failed + 1)
            ⊎ (next_ready (script e.0.attempted).now_ns e.1.queue ≡ none))

  pub rounds-Counted :
      (n : ℕ) (script : ℕ → Round) (r : OutboundDispatchResult)
      → (a : Agent sql sha calendar sequence)
      → Counted n script r (rounds sql sha calendar sequence n script r a)
  unfolding rounds with_success with_failure
  rounds-Counted zero script r a = record {
    bounded = omega arith;
    grown = omega arith;
    balanced = omega arith;
    once = omega arith;
    ended = inl (omega arith);
  }
  rounds-Counted (suc n) script r a =
      elim (Option-cases (next_ready (script r.attempted).now_ns a.queue)) [
        | inl empty ↦
            rw (empty, rounds)
              (record {
                bounded = omega arith;
                grown = omega arith;
                balanced = omega arith;
                once = omega arith;
                ended = inr (inr empty);
              })
        | inr (ready, found) ↦
            let d = dispatch sql sha calendar sequence (script r.attempted) ready a in
            elim (Bool-cases d.0) [
              | inl done ↦
                  let c = rounds-Counted n script (with_success r) d.1 in
                  rw (found, rounds)
                    (rw (done, rounds)
                      (record {
                        bounded = omega (arith, c.bounded);
                        grown = omega (arith, c.grown);
                        balanced = omega (arith, c.balanced);
                        once = omega (arith, c.once);
                        ended = elim c.ended [
                          | inl all ↦ inl (omega (arith, all))
                          | inr why ↦ inr why
                        ];
                      }))
              | inr fails ↦
                  rw (found, rounds)
                    (rw (fails, rounds)
                      (record {
                        bounded = omega arith;
                        grown = omega arith;
                        balanced = omega arith;
                        once = omega arith;
                        ended = inr (inl (omega arith));
                      }))
            ]
      ]

  -- A drain attempts no more messages than it may, counts each one attempted as acknowledged or as
  -- failed, and at most one as failed; and it ends after as many as it may attempt, after a failure,
  -- or where no message is ready.
  pub drain-result :
      (maximum initial_now_ns : ℕ) (script : ℕ → Round) (a : Agent sql sha calendar sequence)
      → let e = drain sql sha calendar sequence maximum initial_now_ns script a in
        (e.0.attempted ≤ maximum)
        × (e.0.attempted ≡ e.0.acknowledged + e.0.failed)
        × (e.0.failed ≤ 1)
        × ((e.0.attempted ≡ maximum)
            ⊎ ((e.0.failed ≡ 1) ⊎ (next_ready (script e.0.attempted).now_ns e.1.queue ≡ none)))
  unfolding drain zero_result
  drain-result maximum initial_now_ns script a =
      let c = rounds-Counted maximum script zero_result (
        with_queue sql sha calendar sequence
          (make_ready sql sha calendar sequence initial_now_ns a.queue) a) in
      (
        omega (arith, c.bounded),
        omega (arith, c.balanced),
        c.once,
        elim c.ended [ inl all ↦ inl (omega (arith, all)) | inr why ↦ inr why ],
      )
