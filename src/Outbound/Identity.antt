-- ===== src/Outbound/Identity.antt =====
-- The ids, counters and producer keys of the rows.
use neta_agent.Prelude.{
  ℕ, ◌+◌, ◌<◌, ◌≡◌, ◌≢◌, inl, inr, refl, sym, ap, Bool, false, not, none, some, List, [], ◌∷◌, ◌++◌,
  Text, ◌==◌, nat_eq, text_eq, text_beq_iff, is_empty, All, arith, Bool-cases, any, keep, find,
}
use neta_agent.Prelude.Decimal.{to_string}
use neta_agent.Outbound.Message.{Row, OutboundQueue, Sqlite, Submission}
use neta_agent.Outbound.Queue.{remove, update, enqueue, conflicts, new_row, existing_event}
use neta_agent.Outbound.Evict.{Stable}
use neta_agent.Outbound.Enqueue.{enqueue_cases, stored, coalesced}

abbrev pub Ident : Type 0
Ident = ℕ × Text × Text

abbrev pub ident : Row → Ident
ident r = (r.event_counter, r.event_id, r.producer_key)

abbrev pub idents : List Row → List Ident
idents [] = []
idents (r ∷ rows) = ident r ∷ idents rows

-- Another row, of another counter and another key.
abbrev pub Apart : Ident → Ident → Type 0
Apart (c, _, key) (d, _, other) = (c ≢ d) × (key ≢ other)

-- Every id is the agent's with the counter, below the next counter, and no two rows share a
-- counter or a key.
unfoldable pub Issued : Text → ℕ → List Ident → Type 0
Issued agent next [] = Unit
Issued agent next ((c, id, key) ∷ is) =
    (c < next)
    × (id ≡ agent ++ b':' ∷ to_string c)
    × All (Apart (c, id, key)) is
    × Issued agent next is

All-keep :
    (i : Ident) (p : Row → Bool) (rows : List Row)
    → All (Apart i) (idents rows)
    → All (Apart i) (idents (keep p rows))
All-keep i p [] h = h
All-keep i p (r ∷ rows) (h, hs) = ground (arith, All-keep i p rows hs)

pub Issued-keep :
    (agent : Text) (next : ℕ) (p : Row → Bool) (rows : List Row)
    → Issued agent next (idents rows)
    → Issued agent next (idents (keep p rows))
unfolding Issued
Issued-keep agent next p [] h = h
Issued-keep agent next p (r ∷ rows) (c, id, apart, h) = elim (Bool-cases (p r)) [
  | inl stays ↦ rw stays (c, id, All-keep (ident r) p rows apart, Issued-keep agent next p rows h)
  | inr gone ↦ rw gone (Issued-keep agent next p rows h)
]

pub Issued-Stable : (agent : Text) (next : ℕ) → Stable (λ rows. Issued agent next (idents rows))
unfolding remove
Issued-Stable agent next r rows inside may h =
    Issued-keep agent next (λ s. not (s.event_id == r.event_id)) rows h

pub idents-update :
    (f : Row → Row) (id : Text) (rows : List Row)
    → ((r : Row) → ident (f r) ≡ ident r)
    → idents (update f id rows) ≡ idents rows
unfolding update
idents-update f id [] same = refl
idents-update f id (r ∷ rows) same = elim (Bool-cases (r.event_id == id)) [
  | inl hit ↦ rw hit (rw (idents-update f id rows same) (ap (λ i. i ∷ idents rows) (same r)))
  | inr miss ↦ rw miss (ap (λ is. ident r ∷ is) (idents-update f id rows same))
]

All-append :
    (i : Ident) (rows : List Row) (r : Row)
    → All (Apart i) (idents rows)
    → Apart i (ident r)
    → All (Apart i) (idents (rows ++ r ∷ []))
All-append i [] r h a = (a, tt)
All-append i (x ∷ rows) r (b, h) a = (b, All-append i rows r h a)

-- A row whose counter is the next one, and whose key no row has.
pub Issued-append :
    (agent : Text) (next : ℕ) (rows : List Row) (r : Row)
    → Issued agent next (idents rows)
    → r.event_counter ≡ next
    → r.event_id ≡ agent ++ b':' ∷ to_string next
    → any (λ s. conflicts r s) rows ≡ false
    → Issued agent (next + 1) (idents (rows ++ r ∷ []))
unfolding Issued
Issued-append agent next [] r h c id free = (omega (arith, c), rw c id, tt, tt)
Issued-append agent next (x ∷ rows) r (below, xid, apart, h) c id free = (
  omega (arith, below),
  xid,
  All-append (ident x) rows r apart (
    λ e. omega (arith, below, c, e),
    λ e. ground (arith, free, e, text_beq_iff r.producer_key x.producer_key),
  ),
  Issued-append agent next rows r h c id (ground (arith, free)),
)

-- The queue's rows have the ids that it issued.
abbrev pub Identified : OutboundQueue → Type 0
Identified q = Issued q.agent_id q.next_event_counter (idents q.messages)

conflicts-event :
    (rows : List Row) (r : Row)
    → any (λ s. conflicts r s) rows ≡ false
    → find (λ s. s.producer_key == r.producer_key) rows ≡ none
conflicts-event [] r h = refl
conflicts-event (x ∷ rows) r h = ground (
  arith,
  h,
  conflicts-event rows r,
  text_beq_iff r.producer_key x.producer_key,
  text_beq_iff x.producer_key r.producer_key,
)

find-append :
    (key : Text) (rows : List Row) (r : Row)
    → find (λ s. s.producer_key == key) rows ≡ none
    → r.producer_key ≡ key
    → find (λ s. s.producer_key == key) (rows ++ r ∷ []) ≡ some r
find-append key [] r h e = ground (arith, text_beq_iff r.producer_key key)
find-append key (x ∷ rows) r h e = ground (arith, find-append key rows r)

not_empty : (agent : Text) (c : ℕ) (s : Text) → is_empty (agent ++ c ∷ s) ≡ false
not_empty [] c s = refl
not_empty (a ∷ agent) c s = refl

module _ (sql : Sqlite) where
  -- An `enqueue` that returns keeps the ids of the queue in order.
  pub enqueue-Identified :
      (s : Submission) (now_ns : ℕ) (q t : OutboundQueue) (id : Text)
      → Identified q
      → enqueue sql s now_ns q ≡ some (id, t)
      → Identified t
  unfolding new_row
  enqueue-Identified s now_ns q t id good done =
      elim (enqueue_cases sql (λ rows. Issued q.agent_id q.next_event_counter (idents rows))
        (Issued-Stable q.agent_id q.next_event_counter) s now_ns q good) [
          | inl fails ↦ absurd (ground (arith, fails, done))
          | inr (inl k) ↦ let same : t ≡ coalesced q = cc (k.result, done) in rw same good
          | inr (inr (r, a)) ↦
              let row = new_row r s now_ns in
              let same : t ≡ stored row r = cc (a.result, done) in
              let before : Identified r = rw a.room.same_agent (rw a.room.same_next a.room.holds) in
              rw same (
                Issued-append r.agent_id r.next_event_counter r.messages row before refl refl
                  a.free)
        ]

  pub enqueue-max_bytes :
      (s : Submission) (now_ns : ℕ) (q t : OutboundQueue) (id : Text)
      → enqueue sql s now_ns q ≡ some (id, t)
      → t.max_bytes ≡ q.max_bytes
  enqueue-max_bytes s now_ns q t id done =
      elim (enqueue_cases sql (λ rows. Unit {0}) (λ r rows inside may h. tt) s now_ns q tt) [
        | inl fails ↦ absurd (ground (arith, fails, done))
        | inr (inl k) ↦ let same : t ≡ coalesced q = cc (k.result, done) in rw same refl
        | inr (inr (r, a)) ↦
            let same : t ≡ stored (new_row r s now_ns) r = cc (a.result, done) in
            rw same a.room.same_max
      ]

  found :
      (s : Submission) (now_ns : ℕ) (q : OutboundQueue) (id : Text)
      → existing_event s.producer_key q.messages ≡ id
      → is_empty id ≡ false
      → enqueue sql s now_ns q ≡ some (id, coalesced q)
  unfolding enqueue
  found s now_ns q id e known = rw (e, enqueue) (rw known refl)

  -- A second `enqueue` with the same producer key returns the id of the first, stores no row, and
  -- counts one more coalesced submission, whatever else it holds and whenever it comes.
  pub enqueue-again :
      (s again : Submission) (now_ns later_ns : ℕ) (q t : OutboundQueue) (id : Text)
      → again.producer_key ≡ s.producer_key
      → enqueue sql s now_ns q ≡ some (id, t)
      → enqueue sql again later_ns t ≡ some (id, record t { coalesced = t.coalesced + 1 })
  unfolding new_row
  enqueue-again s again now_ns later_ns q t id key done =
      elim (enqueue_cases sql (λ rows. Unit {0}) (λ r rows inside may h. tt) s now_ns q tt) [
        | inl fails ↦ absurd (ground (arith, fails, done))
        | inr (inl k) ↦
            let same : t ≡ coalesced q = cc (k.result, done) in
            let event : id ≡ existing_event s.producer_key q.messages = cc (k.result, done) in
            rw same (
              rw event (
                found again later_ns (coalesced q) (existing_event s.producer_key q.messages)
                  (rw key refl) k.known))
        | inr (inr (r, a)) ↦
            let row = new_row r s now_ns in
            let same : t ≡ stored row r = cc (a.result, done) in
            let event : id ≡ row.event_id = cc (a.result, done) in
            let alone =
              find-append again.producer_key r.messages row
                (rw key (conflicts-event r.messages row a.free)) (sym key) in
            rw same (
              rw event (
                found again later_ns (stored row r) row.event_id (rw (alone, existing_event) refl)
                  (not_empty r.agent_id b':' (to_string r.next_event_counter))))
      ]
