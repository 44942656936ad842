-- ===== src/Dispatch/Prepare.antt =====
-- The ways in which the preparation of an attempt ends.
use neta_agent.Prelude.{
  ℕ, ◌≡◌, ◌⊎◌, inl, inr, refl, true, Option, none, some, List, Bool-cases, Option-cases,
}
use neta_agent.Crypto.{Sha256}
use neta_agent.Outbound.Message.{OutboundMessage, Sqlite}
use neta_agent.Outbound.Queue.{store_attempt}
use neta_agent.Dispatch.Wording.{Calendar, FleetIdentity}
use neta_agent.Dispatch.Drain.{
  Allocator, Round, Agent, is_fresh, new_attempt, renew, prepare_attempt,
}

module _ (sql : Sqlite) (sha : Sha256) (calendar : Calendar) (sequence : Allocator) where
  -- An exception: the queue is as it was, and a number may have been used.
  pub record Thrown (a : Agent sql sha calendar sequence)
      (e : Option OutboundMessage × Agent sql sha calendar sequence) : Type 0 where
    pub nothing : e.0 ≡ none
    pub same_queue : e.1.queue ≡ a.queue
    pub counted :
        (e.1.numbers ≡ a.numbers) ⊎ (e.1.numbers ≡ (sequence.next_nap_sequence a.numbers).1)

  -- The stored attempt is sent again, and nothing changes.
  pub record Reused (k : Round) (m : OutboundMessage) (a : Agent sql sha calendar sequence)
      (e : Option OutboundMessage × Agent sql sha calendar sequence) : Type 0 where
    pub stored : e.0 ≡ some m
    pub unchanged : e.1 ≡ a
    pub fresh : is_fresh k.now_ns m ≡ true

  -- A new attempt, which has the next number, is stored.
  pub record Renewed (k : Round) (m : OutboundMessage) (a : Agent sql sha calendar sequence)
      (e : Option OutboundMessage × Agent sql sha calendar sequence) : Type 0 where
    pub made : OutboundMessage
    pub number : ℕ
    pub identity : FleetIdentity
    pub random : List ℕ
    pub gives : e.0 ≡ some made
    pub new : made ≡ new_attempt calendar k.now_ns identity random number m
    pub taken : (sequence.next_nap_sequence a.numbers).0 ≡ some number
    pub counted : e.1.numbers ≡ (sequence.next_nap_sequence a.numbers).1
    pub stored : store_attempt sql made k.now_ns a.queue ≡ some e.1.queue

  renew-cases :
      (k : Round) (m : OutboundMessage) (a : Agent sql sha calendar sequence)
      → Thrown a (renew sql sha calendar sequence k m a)
        ⊎ Renewed k m a (renew sql sha calendar sequence k m a)
  unfolding renew
  renew-cases k m a = elim (Option-cases k.identity) [
    | inl unknown ↦
        inl (rw (unknown, renew) (record { nothing = refl; same_queue = refl; counted = inl refl }))
    | inr (identity, known) ↦ elim (Option-cases k.random) [
      | inl unlucky ↦ inl (
          rw (known, renew)
            (rw (unlucky, renew)
              (record { nothing = refl; same_queue = refl; counted = inl refl })))
      | inr (random, drawn) ↦ elim (Option-cases ((sequence.next_nap_sequence a.numbers).0)) [
        | inl spent ↦ inl (
            rw (known, renew)
              (rw (drawn, renew)
                (rw (spent, renew)
                  (record { nothing = refl; same_queue = refl; counted = inr refl }))))
        | inr (n, taken) ↦
            let made = new_attempt calendar k.now_ns identity random n m in
            elim (Option-cases (store_attempt sql made k.now_ns a.queue)) [
              | inl fails ↦ inl (
                  rw (known, renew)
                    (rw (drawn, renew)
                      (rw (taken, renew)
                        (rw (fails, renew)
                          (record { nothing = refl; same_queue = refl; counted = inr refl })))))
              | inr (q, stored) ↦ inr (
                  rw (known, renew)
                    (rw (drawn, renew)
                      (rw (taken, renew)
                        (rw (stored, renew)
                          (record {
                            made = made;
                            number = n;
                            identity = identity;
                            random = random;
                            gives = refl;
                            new = refl;
                            taken = taken;
                            counted = refl;
                            stored = stored;
                          })))))
            ]
      ]
    ]
  ]

  pub prepare_attempt-cases :
      (k : Round) (m : OutboundMessage) (a : Agent sql sha calendar sequence)
      → Thrown a (prepare_attempt sql sha calendar sequence k m a)
        ⊎ (Reused k m a (prepare_attempt sql sha calendar sequence k m a)
            ⊎ Renewed k m a (prepare_attempt sql sha calendar sequence k m a))
  unfolding prepare_attempt
  prepare_attempt-cases k m a = elim (Bool-cases (is_fresh k.now_ns m)) [
    | inl fresh ↦ inr (
        inl
          (rw (fresh, prepare_attempt) (record { stored = refl; unchanged = refl; fresh = fresh })))
    | inr old ↦
        rw (old, prepare_attempt)
          (elim (renew-cases k m a) [ inl thrown ↦ inl thrown | inr renewed ↦ inr (inr renewed) ])
  ]
