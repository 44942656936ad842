-- ===== src/Tracker/Keeps.antt =====
-- The observations of events, sockets and snapshots keep the invariant of the tracker.
use neta_agent.Prelude.{
  ℕ, ◌≡◌, refl, inl, inr, ◌∙◌, Option, none, some, Text, [], ◌∷◌, ◌++◌, arith, text_eq, nat_eq,
  Option-cases,
}
use neta_agent.Prelude.Dict.{lookup}
use neta_agent.Model.{
  ConnectionLifecycleEvent, ConnectionDirection, ProcessIdentity, SocketObservation,
}
use neta_agent.History.Tables.{HistoryStore, next_rowid}
use neta_agent.History.Connections.{row_ids, begin_connection}
use neta_agent.Tracker.State.{ConnectionTracker}
use neta_agent.Tracker.Keys.{identity_for}
use neta_agent.Tracker.Lifecycle.{
  existing_for, admit_connection, observe_close, observe_open, observe_lifecycle, opening,
  event_socket,
}
use neta_agent.Tracker.Invariant.{IsSound}
use neta_agent.Tracker.Stored.{row_ids-append}
use neta_agent.Tracker.Rekey.{canonicalize-Canonical}
use neta_agent.Tracker.Sound.{
  existing_for-IsFound, event-ids, close-IsSound, enrich-IsSound, admit-IsSound,
}

-- A new connection gets the next id, and its row is the last.
pub begin-rows :
    (s : SocketObservation) (p : Option ProcessIdentity) (host : Text) (ns : ℕ)
    (direction : ConnectionDirection) (captured : ℕ) (store : HistoryStore)
    → let r = begin_connection s p host ns direction captured store in
      (r.0 ≡ next_rowid (row_ids store.connections))
      × (row_ids r.1.connections ≡ row_ids store.connections ++ r.0 ∷ [])
unfolding begin_connection
begin-rows s p host ns direction captured store = (refl, row_ids-append store.connections _)

existing_for-none :
    (event : ConnectionLifecycleEvent) (identity : Text) (t : ConnectionTracker)
    → existing_for event identity t ≡ none
    → lookup identity t.connections ≡ none
unfolding existing_for
existing_for-none event identity t h = elim (Option-cases (lookup identity t.connections)) [
  | inl missing ↦ missing
  | inr (c, found) ↦ cc (rw found at h)
]

admit_connection-IsSound :
    (event : ConnectionLifecycleEvent) (direction : ConnectionDirection) (captured : ℕ)
    (process : ProcessIdentity) (socket : SocketObservation) (identity key : Text)
    (t : ConnectionTracker)
    → IsSound t
    → lookup identity t.connections ≡ none
    → IsSound (admit_connection event direction captured process socket identity key t).1
unfolding admit_connection
admit_connection-IsSound event direction captured process socket identity key t s fresh =
    let begun =
      begin_connection socket (some process) t.target_host event.timestamp_ns direction captured
        t.store in
    let (id, rows) =
      begin-rows socket (some process) t.target_host event.timestamp_ns direction captured
        t.store in
    admit-IsSound identity key _ _ t s fresh id (event-ids begun.0 event begun.1 ∙ rows)

observe_close-IsSound :
    (event : ConnectionLifecycleEvent) (identity : Text) (t : ConnectionTracker)
    → IsSound t
    → IsSound (observe_close event identity t).1
unfolding observe_close
observe_close-IsSound event identity t s = elim (Option-cases (existing_for event identity t)) [
  | inl missing ↦ rw (missing, observe_close) s
  | inr (e, found) ↦
      let (there, same) = existing_for-IsFound event identity t e found in
      let c = canonicalize-Canonical event identity e t s there same in
      rw (found, observe_close)
        (rw c.there (close-IsSound event (c.identity, e.1) _ c.sound c.found))
]

observe_open-IsSound :
    (event : ConnectionLifecycleEvent) (direction : ConnectionDirection) (captured : ℕ)
    (identity : Text) (t : ConnectionTracker)
    → IsSound t
    → IsSound (observe_open event direction captured identity t).1
unfolding observe_open
observe_open-IsSound event direction captured identity t s = elim (Option-cases (opening event)) [
  | inl refused ↦ rw (refused, observe_open) s
  | inr ((local, remote, remote_port, process), opens) ↦
      elim (Option-cases (existing_for event identity t)) [
        | inl missing ↦
            rw (opens, observe_open)
              (rw missing (
                admit_connection-IsSound event direction captured process
                  (event_socket event process local remote remote_port) identity _ t s
                  (existing_for-none event identity t missing)))
        | inr (e, found) ↦
            let (there, same) = existing_for-IsFound event identity t e found in
            let c = canonicalize-Canonical event identity e t s there same in
            rw (opens, observe_open)
              (rw found
                (rw c.there (enrich-IsSound event direction process (c.identity, e.1) _ c.sound)))
      ]
]

pub observe_lifecycle-IsSound :
    (event : ConnectionLifecycleEvent) (direction : ConnectionDirection) (captured : ℕ)
    (t : ConnectionTracker)
    → IsSound t
    → IsSound (observe_lifecycle event direction captured t).1
unfolding observe_lifecycle
observe_lifecycle-IsSound event direction captured t s = elim (Option-cases (identity_for event)) [
  | inl nameless ↦ ground (arith, nameless)
  | inr (i, named) ↦ ground (
    arith,
    named,
    observe_close-IsSound event i t s,
    observe_open-IsSound event direction captured i t s,
  )
]
