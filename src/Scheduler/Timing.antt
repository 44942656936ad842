-- ===== src/Scheduler/Timing.antt =====
-- When the next transport sample is due.
use neta_agent.Prelude.{ℕ, ◌+◌, ◌*◌, ◌≤◌, ◌<◌, ◌≡◌, ◌↔◌, true, false, ℤ, arith}
use neta_agent.Scheduler.{
  EvidenceScheduler, ns_per_ms, connection_admitted, transport_due, wait_time, transport_sampled,
  insert,
}

-- After an admission a sample is due at once. The sample after that is due exactly from the short
-- follow-up time on, and every later one exactly from the full interval on, as long as no
-- connection is admitted or closed in between.
pub admission_schedule :
    (s : EvidenceScheduler) (id : ℤ) (t1 t2 t3 now : ℕ)
    → let a = connection_admitted s id in
      let b = transport_sampled a t1 in
      let c = transport_sampled b t2 in
      let d = transport_sampled c t3 in
      (transport_due a now false ≡ true)
      × (wait_time a now ≡ 0)
      × ((transport_due b now false ≡ true) ↔ (t1 + s.early_transport_followup * ns_per_ms ≤ now))
      × ((transport_due c now false ≡ true) ↔ (t2 + s.transport_interval * ns_per_ms ≤ now))
      × ((transport_due d now false ≡ true) ↔ (t3 + s.transport_interval * ns_per_ms ≤ now))
unfolding connection_admitted transport_due wait_time transport_sampled insert
admission_schedule s id t1 t2 t3 now =
    (ground arith, ground arith, ground arith, ground arith, ground arith)

-- While the sample after the first is not due, the time to wait for it is what is left, in whole
-- milliseconds.
pub admission_wait :
    (s : EvidenceScheduler) (id : ℤ) (t1 now : ℕ)
    → let b = transport_sampled (connection_admitted s id) t1 in
      let due = t1 + s.early_transport_followup * ns_per_ms in
      now < due
      → (wait_time b now * ns_per_ms + now ≤ due) × (due < (wait_time b now + 1) * ns_per_ms + now)
unfolding connection_admitted transport_due wait_time transport_sampled insert
admission_wait s id t1 now early = ground arith
