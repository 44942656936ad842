-- ===== src/Tracker/Closing.antt =====
-- What a CLOSE event ends, and what a refused call leaves.
use neta_agent.Prelude.{
  ℕ, ◌≡◌, ◌≢◌, ◌↔◌, refl, inl, inr, sym, true, false, Option, some, Text, bytes, List, [], ◌∷◌,
  arith, In, text_eq, nat_eq, eq_iff, find, ◌==◌, ◌>>=◌, Bool-cases,
}
use neta_agent.Prelude.Dict.{Dict, Distinct, lookup, erase}
use neta_agent.Model.{ConnectionLifecycleEvent, ConnectionDirection, TransportProtocol}
use neta_agent.History.Tables.{HistoryStore, ConnectionRow}
use neta_agent.History.Connections.{row_ids, update_rows, touch_connection, add_lifecycle_event}
use neta_agent.Tracker.State.{ConnectionTracker, TrackedConnection, ConnectionAdmission}
use neta_agent.Tracker.Keys.{identity_for}
use neta_agent.Tracker.Lifecycle.{
  Observed, existing_for, is_close, canonicalize, close_connection, observe_close,
  observe_lifecycle,
}
use neta_agent.Tracker.Invariant.{IsSound, ids_of}
use neta_agent.Tracker.Rekey.{canonicalize-Canonical}
use neta_agent.Tracker.Sound.{existing_for-IsFound, remove-same}

In-ids_lookup :
    (i : Text) (c : TrackedConnection) (d : Dict Text TrackedConnection)
    → lookup i d ≡ some c
    → In c.connection_id (ids_of d)
In-ids_lookup i c [] found = cc
In-ids_lookup i c ((j, b) ∷ d) found = ground (arith, In-ids_lookup i c d)

-- The ids that stay when a connection is erased.
ids-erase :
    (id : ℕ) (i : Text) (c : TrackedConnection) (d : Dict Text TrackedConnection)
    → Distinct (ids_of d)
    → lookup i d ≡ some c
    → In id (ids_of (erase i d)) ↔ (In id (ids_of d) × (id ≢ c.connection_id))
ids-erase id i c [] h found = cc
ids-erase id i c ((j, b) ∷ d) h found = elim (Bool-cases (j == i)) [
  | inl here ↦ ground (arith, here, found)
  | inr later ↦ ground (arith, later, found, ids-erase id i c d, In-ids_lookup i c d)
]

-- The state that the store shows for a connection.
abbrev pub stored_state : ℕ → HistoryStore → Option Text
stored_state id store = find (λ r. r.id == id) store.connections >>= λ r. some r.lifecycle_state

touched-state :
    (id ns : ℕ) (state : Text) (rows : List ConnectionRow)
    → In id (row_ids rows)
    → (find
          (λ r. r.id == id)
          (update_rows
            (λ r. r.id == id)
            (λ r. record r { last_seen_ns = ns; lifecycle_state = state })
            rows)
        >>= λ r. some r.lifecycle_state)
      ≡ some state
touched-state id ns state [] m = elim m [ ]
touched-state id ns state (r ∷ rows) m =
    ground (arith, eq_iff r.id id, touched-state id ns state rows)

-- The part of a closing that its event and its iterator decide.
module _ (event : ConnectionLifecycleEvent) (i : Text) (c : TrackedConnection)
    (t : ConnectionTracker) (s : IsSound t) (found : lookup i t.connections ≡ some c) where
  close-ids :
      (id : ℕ)
      → In id (ids_of (close_connection event (i, c) t).1.connections)
        ↔ (In id (ids_of t.connections) × (id ≢ c.connection_id))
  unfolding close_connection
  close-ids id =
      rw ((remove-same i _).0) (ids-erase id i c t.connections s.stored.distinct_ids found)

  close-answer :
      (close_connection event (i, c) t).0
      ≡ some (record {
        connection_id = c.connection_id;
        newly_admitted = false;
        closed = true;
        direction_promoted = false;
        direction = ConnectionDirection.unknown;
      })
  unfolding close_connection
  close-answer = refl

  close-state :
      stored_state c.connection_id (close_connection event (i, c) t).1.store ≡ some (bytes "CLOSED")
  unfolding close_connection touch_connection add_lifecycle_event
  close-state = rw ((remove-same i _).1) (
      touched-state c.connection_id event.timestamp_ns (bytes "CLOSED") t.store.connections
        (s.stored.stored c.connection_id (In-ids_lookup i c t.connections found)))

abbrev pub closed_admission : ℕ → ConnectionAdmission
closed_admission id = record {
  connection_id = id;
  newly_admitted = false;
  closed = true;
  direction_promoted = false;
  direction = ConnectionDirection.unknown;
}

-- The connection that an event ends is the one that its look-ups find.
record Closed (c : TrackedConnection) (t : ConnectionTracker) (r : Observed) : Type 0 where
  answer : r.0 ≡ some (closed_admission c.connection_id)
  others :
      (id : ℕ)
      → In id (ids_of r.1.connections) ↔ (In id (ids_of t.connections) × (id ≢ c.connection_id))
  state : stored_state c.connection_id r.1.store ≡ some (bytes "CLOSED")

observe_close-Closed :
    (event : ConnectionLifecycleEvent) (i : Text) (t : ConnectionTracker)
    (e : Text × TrackedConnection)
    → IsSound t
    → existing_for event i t ≡ some e
    → Closed e.1 t (observe_close event i t)
unfolding observe_close
observe_close-Closed event i t e s found =
    let (there, same) = existing_for-IsFound event i t e found in
    let c = canonicalize-Canonical event i e t s there same in
    let u = (canonicalize event i e t).1 in
    let ids : (id : ℕ)
        → In id (ids_of (close_connection event (c.identity, e.1) u).1.connections)
          ↔ (In id (ids_of t.connections) × (id ≢ e.1.connection_id)) =
      λ id. rw (sym c.same_ids) (close-ids event c.identity e.1 u c.sound c.found id) in
    rw (found, observe_close)
      (rw c.there (record {
        answer = close-answer event c.identity e.1 u c.sound c.found;
        others = ids;
        state = close-state event c.identity e.1 u c.sound c.found;
      }))

-- A CLOSE of a TCP connection, in a sound tracker, that finds a connection by its identity, its tuple
-- or its reversed tuple answers with the id of this connection, after which the ids that are tracked
-- are the others, and the store shows the state CLOSED for it.
pub close_outcome :
    (event : ConnectionLifecycleEvent) (direction : ConnectionDirection) (captured : ℕ)
    (t : ConnectionTracker) (i : Text) (e : Text × TrackedConnection)
    → IsSound t
    → event.protocol ≡ TransportProtocol.tcp
    → is_close event ≡ true
    → identity_for event ≡ some i
    → existing_for event i t ≡ some e
    → let r = observe_lifecycle event direction captured t in
      (r.0 ≡ some (closed_admission e.1.connection_id))
      × ((id : ℕ)
          → In id (ids_of r.1.connections)
            ↔ (In id (ids_of t.connections) × (id ≢ e.1.connection_id)))
      × (stored_state e.1.connection_id r.1.store ≡ some (bytes "CLOSED"))
unfolding observe_lifecycle
close_outcome event direction captured t i e s tcp closes named found =
    let c = observe_close-Closed event i t e s found in
    rw tcp (rw (named, observe_lifecycle) (rw closes (c.answer, c.others, c.state)))
