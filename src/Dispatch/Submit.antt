-- ===== src/Dispatch/Submit.antt =====
-- What a submission that reports success means.
use neta_agent.Prelude.{
  ℕ, ◌≡◌, ◌⊎◌, inl, inr, refl, ap, sym, ◌∙◌, Bool, true, false, Option, none, some, Text, arith,
  Bool-cases, Option-cases, is_empty,
}
use neta_agent.Crypto.{Sha256}
use neta_agent.Outbound.Message.{OutboundQueue, Sqlite}
use neta_agent.Outbound.Queue.{enqueue, is_acknowledged}
use neta_agent.Dispatch.Wording.{Calendar}
use neta_agent.Dispatch.Drain.{
  Allocator, Round, Agent, drain, with_queue, summary_submission, submit_evidence_summary,
}
use neta_agent.Dispatch.Confirmed.{ConfirmedIn, drain-Confirmed}

module _ (sql : Sqlite) (sha : Sha256) (calendar : Calendar) (sequence : Allocator) where
  abbrev submitted :
      Text
      → ℕ
      → (ℕ → Round)
      → Agent sql sha calendar sequence
      → OutboundQueue
      → Bool × Agent sql sha calendar sequence
  submitted id initial_now_ns script a q =
      let (result, b) =
        drain sql sha calendar sequence 32 initial_now_ns script
          (with_queue sql sha calendar sequence q a) in
      (is_acknowledged id b.queue, b)

  abbrev reported : Option (Bool × Agent sql sha calendar sequence) → Bool
  reported none = false
  reported (some (known, b)) = known

  -- Where the submission of a summary reports that the coordinator has it, the submission was stored
  -- or found under an event id, and the event was acknowledged already when it was submitted, or, in a
  -- round that the drain attempted, the response was an acknowledgement of the attempt that this round
  -- had prepared for the ready message, which is an attempt of this event: of its message id,
  -- sequence, event and payload.
  pub submit-Confirmed :
      (producer_key summary_json : Text) (now_ns initial_now_ns : ℕ) (script : ℕ → Round)
      → (a b : Agent sql sha calendar sequence)
      → submit_evidence_summary sql sha calendar sequence producer_key summary_json now_ns
          initial_now_ns script a
        ≡ some (true, b)
      → (id : Text) × (q : OutboundQueue) × (enqueue sql
            (summary_submission sql sha calendar sequence producer_key summary_json)
            now_ns
            a.queue
          ≡ some (id, q))
        × ((is_acknowledged id q ≡ true)
            ⊎ ConfirmedIn sql sha calendar sequence id 32 initial_now_ns script
                (with_queue sql sha calendar sequence q a))
  unfolding submit_evidence_summary
  submit-Confirmed producer_key summary_json now_ns initial_now_ns script a b done =
      let s = summary_submission sql sha calendar sequence producer_key summary_json in
      elim (Bool-cases (is_empty summary_json)) [
        | inl missing ↦ absurd (ground (arith, missing, done))
        | inr given ↦ elim (Option-cases (enqueue sql s now_ns a.queue)) [
          | inl full ↦ absurd (ground (arith, given, full, done))
          | inr ((id, q), stored) ↦
              let made : submit_evidence_summary sql sha calendar sequence producer_key summary_json
                    now_ns initial_now_ns script a
                  ≡ some (submitted id initial_now_ns script a q) =
                rw (given, submit_evidence_summary) (rw (stored, submit_evidence_summary) refl) in
              let known : (submitted id initial_now_ns script a q).0 ≡ true =
                ap reported (sym made ∙ done) in
              (
                id,
                q,
                stored,
                elim (Bool-cases (is_acknowledged id q)) [
                  | inl before ↦ inl before
                  | inr open_before ↦
                      elim (drain-Confirmed sql sha calendar sequence id 32 initial_now_ns script
                        (with_queue sql sha calendar sequence q a) open_before) [
                          | inl still ↦ absurd (cc (known, still))
                          | inr confirmed ↦ inr confirmed
                        ]
                ],
              )
        ]
      ]
