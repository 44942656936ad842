-- ===== src/Dispatch/Numbers.antt =====
-- The two message sequences that the dispatcher can stand on, and the numbers of its attempts.
use neta_agent.Prelude.{
  ℕ, ◌+◌, ◌≤◌, ◌<◌, ◌≡◌, ◌≢◌, ◌⊎◌, inl, inr, sym, ap, Option, none, some, [], Text, arith,
}
use neta_agent.Crypto.{Sha256}
use neta_agent.Sequence.Slots.{Files, Mirror, next_windows_sequence}
use neta_agent.Sequence.Store.{Safe}
use neta_agent.Sequence.Crash.{next-Outcome}
use neta_agent.Sequence.Posix.{next_posix_sequence, Behind, next_posix-Behind}
use neta_agent.Outbound.Message.{OutboundMessage, Sqlite}
use neta_agent.Outbound.Queue.{store_attempt}
use neta_agent.Dispatch.Wording.{Calendar}
use neta_agent.Dispatch.Retry.{attempt_lifetime_ns, attempt_refresh_margin_ns}
use neta_agent.Dispatch.Drain.{Allocator, Round, Agent, is_fresh, new_attempt, prepare_attempt}
use neta_agent.Dispatch.Prepare.{prepare_attempt-cases}

-- The files on Windows, and how the writes of the compatibility mirror will end.
pub record Windows : Type 0 where
  pub files : Files
  pub mirrors : ℕ → Mirror
  pub used : ℕ

unfoldable pub next_windows : Sha256 → Windows → Option ℕ × Windows
unfolding next_windows_sequence
next_windows sha w =
    let r =
      next_windows_sequence sha (w.mirrors w.used) (record { files = w.files; dies = none }) in
    (r.0, record { files = r.1.files; mirrors = w.mirrors; used = w.used + 1 })

pub next_windows-Safe :
    (sha : Sha256) (last : ℕ) (w : Windows)
    → Safe sha last w.files
    → (((next_windows sha w).0 ≡ none) × Safe sha last (next_windows sha w).1.files)
      ⊎ ((n : ℕ) × ((next_windows sha w).0 ≡ some n)
          × (last < n)
          × Safe sha n (next_windows sha w).1.files)
unfolding next_windows
next_windows-Safe sha last w safe =
    next-Outcome sha last (w.mirrors w.used) (record { files = w.files; dies = none }) safe

windows_allocator : Sha256 → Allocator
windows_allocator sha = record {
  State = Windows;
  next_nap_sequence = next_windows sha;
  Spent = λ last w. Safe sha last w.files;
  next-Spent = λ last w safe. next_windows-Safe sha last w safe;
}

abbrev pub posix_allocator : Allocator
posix_allocator = record {
  State = Option Text;
  next_nap_sequence = next_posix_sequence none;
  Spent = Behind;
  next-Spent = next_posix-Behind;
}

module _ (sql : Sqlite) (sha : Sha256) (calendar : Calendar) (sequence : Allocator) where
  -- A new attempt of the message, whose number is above the used ones.
  pub record NewAttempt (last : ℕ) (k : Round) (m : OutboundMessage)
      (a : Agent sql sha calendar sequence)
      (e : Option OutboundMessage × Agent sql sha calendar sequence) : Type 0 where
    pub made : OutboundMessage
    pub gives : e.0 ≡ some made
    pub same_event : made.event_id ≡ m.event_id
    pub same_payload : made.payload_hash ≡ m.payload_hash
    pub above : last < made.attempt_sequence
    pub spent : sequence.Spent made.attempt_sequence e.1.numbers
    pub expires : made.attempt_expires_at_ns ≡ k.now_ns + attempt_lifetime_ns
    pub stored : store_attempt sql made k.now_ns a.queue ≡ some e.1.queue

  -- A number was taken or not, and those up to `last` are used still.
  still-Spent :
      (last : ℕ) (s t : sequence.State)
      → sequence.Spent last s
      → (t ≡ s) ⊎ (t ≡ (sequence.next_nap_sequence s).1)
      → (n : ℕ) × (last ≤ n) × sequence.Spent n t
  still-Spent last s t spent counted = elim counted [
    | inl same ↦ (last, omega arith, rw same spent)
    | inr taken ↦ elim (sequence.next-Spent last s spent) [
      | inl (nothing, kept) ↦ (last, omega arith, rw taken kept)
      | inr (n, got, above, used) ↦ (n, omega (arith, above), rw taken used)
    ]
  ]

  -- Where the numbers up to `last` are used: a preparation that throws leaves the queue, and the
  -- numbers used; one that returns gives the stored attempt, which is valid for more than five
  -- seconds, and changes nothing, or gives a new attempt of the same message, stored in the queue,
  -- valid for 300 seconds, with a number above `last` that is used then.
  pub prepare_attempt-numbers :
      (last : ℕ) (k : Round) (m : OutboundMessage) (a : Agent sql sha calendar sequence)
      → sequence.Spent last a.numbers
      → let e = prepare_attempt sql sha calendar sequence k m a in
        ((e.0 ≡ none) × (e.1.queue ≡ a.queue) × (n : ℕ) × (last ≤ n) × sequence.Spent n e.1.numbers)
        ⊎ ((e.0 ≡ some m)
            × (e.1 ≡ a)
            × (m.attempt_envelope_json ≢ [])
            × (k.now_ns + attempt_refresh_margin_ns < m.attempt_expires_at_ns))
        ⊎ NewAttempt last k m a e
  unfolding is_fresh new_attempt
  prepare_attempt-numbers last k m a spent =
      elim (prepare_attempt-cases sql sha calendar sequence k m a) [
        | inl thrown ↦
            let (n, above, used) = still-Spent last a.numbers _ spent thrown.counted in
            inl (thrown.nothing, thrown.same_queue, n, above, used)
        | inr (inl reused) ↦ inr (
            inl (
              reused.stored,
              reused.unchanged,
              λ empty. ground (arith, reused.fresh, empty),
              ground (arith, reused.fresh),
            ))
        | inr (inr renewed) ↦ elim (sequence.next-Spent last a.numbers spent) [
          | inl (nothing, kept) ↦ absurd (cc (nothing, renewed.taken))
          | inr (n, got, above, used) ↦
              let same : n ≡ renewed.number = ground (arith, got, renewed.taken) in
              inr (
                inr (record {
                  made = renewed.made;
                  gives = renewed.gives;
                  same_event = ap (λ x. x.event_id) renewed.new;
                  same_payload = ap (λ x. x.payload_hash) renewed.new;
                  above = rw renewed.new (omega (arith, same, above));
                  spent = rw renewed.new (rw renewed.counted (rw (sym same) used));
                  expires = ap (λ x. x.attempt_expires_at_ns) renewed.new;
                  stored = renewed.stored;
                }))
        ]
      ]
