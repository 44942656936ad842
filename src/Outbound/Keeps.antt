-- ===== src/Outbound/Keeps.antt =====
-- What an `enqueue` keeps, and when it succeeds.
use neta_agent.Prelude.{
  ℕ, ◌+◌, ◌<◌, ◌≡◌, ◌≢◌, ◌⊎◌, inl, inr, refl, sym, ap, ◌∙◌, subst, false, not, none, some, List, [],
  ◌∷◌, ◌++◌, Text, ◌==◌, nat_eq, text_eq, text_beq_iff, length, In, In-append, In-keep_of, All,
  arith, Bool-cases, any, find,
}
use neta_agent.Prelude.Decimal.{to_string, to_string-injective}
use neta_agent.Outbound.Message.{is_acked, Row, OutboundQueue, Sqlite, Submission}
use neta_agent.Outbound.Queue.{
  remove, is_low, over, enforce_budget, enqueue, insert, conflicts, new_row, existing_event,
}
use neta_agent.Outbound.Evict.{Stable}
use neta_agent.Outbound.Enqueue.{enqueue_cases, stored, coalesced}
use neta_agent.Outbound.Identity.{Ident, Apart, ident, idents, Issued, Issued-Stable, Identified}

append-cancel : (a s t : Text) → a ++ s ≡ a ++ t → s ≡ t
append-cancel [] s t h = h
append-cancel (c ∷ a) s t h = append-cancel a s t (ground arith)

pub event_id-counter :
    (agent : Text) (c d : ℕ) → agent ++ b':' ∷ to_string c ≡ agent ++ b':' ∷ to_string d → c ≡ d
event_id-counter agent c d h =
    let tails = append-cancel agent (b':' ∷ to_string c) (b':' ∷ to_string d) h in
    to_string-injective c d (ground (arith, tails))

pub Issued-id :
    (agent : Text) (next : ℕ) (rows : List Row) (r : Row)
    → Issued agent next (idents rows)
    → In r rows
    → (r.event_id ≡ agent ++ b':' ∷ to_string r.event_counter) × (r.event_counter < next)
unfolding Issued
Issued-id agent next [] r h m = elim m [ ]
Issued-id agent next (x ∷ rows) r (below, id, apart, h) m = elim m [
  | inl here ↦
      subst
        (λ s. (s.event_id ≡ agent ++ b':' ∷ to_string s.event_counter) × (s.event_counter < next))
        here (id, below)
  | inr there ↦ Issued-id agent next rows r h there
]

Apart-In :
    (i : Ident) (rows : List Row) (r : Row)
    → All (Apart i) (idents rows)
    → In r rows
    → i.0 ≢ r.event_counter
Apart-In i [] r h m = elim m [ ]
Apart-In i (x ∷ rows) r (a, h) m = elim m [
  | inl here ↦ λ e. a.0 (e ∙ sym (ap (λ s. s.event_counter) here))
  | inr there ↦ Apart-In i rows r h there
]

pub same_row :
    (agent : Text) (next : ℕ) (rows : List Row) (r s : Row)
    → Issued agent next (idents rows)
    → In r rows
    → In s rows
    → r.event_counter ≡ s.event_counter
    → r ≡ s
unfolding Issued
same_row agent next [] r s h m n e = elim m [ ]
same_row agent next (x ∷ rows) r s (below, id, apart, h) m n e = elim m [
  | inl rx ↦ elim n [
    | inl sx ↦ sym rx ∙ sx
    | inr there ↦ absurd (Apart-In (ident x) rows s apart there (ap (λ t. t.event_counter) rx ∙ e))
  ]
  | inr there ↦ elim n [
    | inl sx ↦ absurd (Apart-In (ident x) rows r apart there (ap (λ t. t.event_counter) sx ∙ sym e))
    | inr both ↦ same_row agent next rows r s h there both e
  ]
]

abbrev Keeping : Text → ℕ → Row → List Row → Type 0
Keeping agent next r rows = Issued agent next (idents rows) × In r rows

Keeping-Stable :
    (agent : Text) (next : ℕ) (r : Row)
    → is_low r ≡ false
    → is_acked r.state ≡ false
    → Stable (Keeping agent next r)
unfolding remove
Keeping-Stable agent next r high unacked x rows inside may (h, m) = (
  Issued-Stable agent next x rows inside may h,
  elim (Bool-cases (r.event_id == x.event_id)) [
    | inl hit ↦
        let ids : r.event_id ≡ x.event_id =
          ground (arith, hit, text_beq_iff r.event_id x.event_id) in
        let at_r = (Issued-id agent next rows r h m).0 in
        let at_x = (Issued-id agent next rows x h inside).0 in
        let same =
          same_row agent next rows r x h m inside
            (event_id-counter agent _ _ (sym at_r ∙ ids ∙ at_x)) in
        absurd (ground (arith, same))
    | inr miss ↦ In-keep_of (λ s. not (s.event_id == x.event_id)) r rows m (ground (arith, miss))
  ],
)

module _ (sql : Sqlite) where
  -- Where the rows have the ids that the queue issued, an `enqueue` that returns keeps every row
  -- that is not acknowledged and is urgent (priority above 1), was tried before, or is not pending.
  pub enqueue-keeps :
      (s : Submission) (now_ns : ℕ) (q t : OutboundQueue) (id : Text) (r : Row)
      → Identified q
      → In r q.messages
      → is_acked r.state ≡ false
      → is_low r ≡ false
      → enqueue sql s now_ns q ≡ some (id, t)
      → In r t.messages
  enqueue-keeps s now_ns q t id r h m unacked high done =
      elim (enqueue_cases sql (Keeping q.agent_id q.next_event_counter r)
        (Keeping-Stable q.agent_id q.next_event_counter r high unacked) s now_ns q (h, m)) [
          | inl fails ↦ absurd (ground (arith, fails, done))
          | inr (inl k) ↦ let same : t ≡ coalesced q = cc (k.result, done) in rw same m
          | inr (inr (u, a)) ↦
              let row = new_row u s now_ns in
              let same : t ≡ stored row u = cc (a.result, done) in
              rw same ((In-append r u.messages (row ∷ [])).1 (inl a.room.holds.1))
        ]

  no_conflict :
      (q : OutboundQueue) (s : Submission) (now_ns : ℕ) (rows : List Row)
      → Issued q.agent_id q.next_event_counter (idents rows)
      → find (λ r. r.producer_key == s.producer_key) rows ≡ none
      → any (λ r. conflicts (new_row q s now_ns) r) rows ≡ false
  unfolding Issued new_row
  no_conflict q s now_ns [] h f = refl
  no_conflict q s now_ns (x ∷ rows) (below, id, apart, h) f =
      let fresh : x.event_id ≢ q.agent_id ++ b':' ∷ to_string q.next_event_counter = λ e. omega (
        arith,
        below,
        event_id-counter q.agent_id x.event_counter q.next_event_counter (sym id ∙ e),
      ) in
      ground (
        arith,
        fresh,
        below,
        f,
        no_conflict q s now_ns rows h,
        text_beq_iff (q.agent_id ++ b':' ∷ to_string q.next_event_counter) x.event_id,
        text_beq_iff x.producer_key s.producer_key,
        text_beq_iff s.producer_key x.producer_key,
      )

  room_there :
      (s : Submission) (q : OutboundQueue)
      → (q.max_bytes ≡ 0) ⊎ (over sql (length s.payload_json + 512) q ≡ false)
      → enforce_budget sql (length s.payload_json + 512) q ≡ some q
  unfolding enforce_budget
  room_there s q fits = elim (Bool-cases (q.max_bytes == 0)) [
    | inl off ↦ rw off refl
    | inr on ↦ elim fits [
      | inl unset ↦ absurd (ground (arith, on, unset))
      | inr below ↦ rw on (rw below refl)
    ]
  ]

  -- Where the rows have the ids that the queue issued, no row has the producer key, and no limit is
  -- set or the payload and 512 bytes fit, `enqueue` returns the id of the next counter, and the
  -- queue is as before but for a new row at the end and the counter.
  pub enqueue-fresh :
      (s : Submission) (now_ns : ℕ) (q : OutboundQueue)
      → Identified q
      → find (λ r. r.producer_key == s.producer_key) q.messages ≡ none
      → (q.max_bytes ≡ 0) ⊎ (over sql (length s.payload_json + 512) q ≡ false)
      → enqueue sql s now_ns q
        ≡ some (q.agent_id ++ b':' ∷ to_string q.next_event_counter, stored (new_row q s now_ns) q)
  unfolding enqueue insert new_row
  enqueue-fresh s now_ns q h f fits =
      let event : existing_event s.producer_key q.messages ≡ [] = rw (f, existing_event) refl in
      let room = room_there s q fits in
      let free = no_conflict q s now_ns q.messages h f in
      rw (event, enqueue) (rw room (rw (free, insert) refl))
