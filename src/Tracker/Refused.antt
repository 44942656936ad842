-- ===== src/Tracker/Refused.antt =====
-- What a call that the tracker refuses leaves behind.
use neta_agent.Prelude.{ℕ, ◌≡◌, refl, inl, inr, Bool, none, Text, arith, text_eq, Option-cases}
use neta_agent.Model.{ConnectionLifecycleEvent, ConnectionDirection, SocketObservation}
use neta_agent.Tracker.State.{ConnectionTracker, ConnectionObservationOrigin, ProcessResolver}
use neta_agent.Tracker.Keys.{identity_for, identity_for_socket}
use neta_agent.Tracker.Lifecycle.{
  Observed, existing_for, opening, close_connection, enrich_connection, admit_connection,
  observe_close, observe_open, observe_lifecycle,
}
use neta_agent.Tracker.Socket.{
  SocketLookup, lookup_socket, socket_key, socket_process, sample_connection, admit_socket,
  observe_socket,
}
use neta_agent.Tracker.Invariant.{IsSound}
use neta_agent.Tracker.Rekey.{canonicalize-Canonical}
use neta_agent.Tracker.Sound.{existing_for-IsFound}
use neta_agent.Tracker.Sampled.{Looked, lookup_socket-Looked}

-- An observation that answers nothing changes nothing.
abbrev Unchanged : ConnectionTracker → Observed → Type 0
Unchanged t r = r.0 ≡ none → r.1 ≡ t

observe_close-Unchanged :
    (event : ConnectionLifecycleEvent) (i : Text) (t : ConnectionTracker)
    → IsSound t
    → Unchanged t (observe_close event i t)
unfolding observe_close close_connection
observe_close-Unchanged event i t s = elim (Option-cases (existing_for event i t)) [
  | inl missing ↦ rw (missing, observe_close) (λ h. refl)
  | inr (e, found) ↦
      let (there, same) = existing_for-IsFound event i t e found in
      let c = canonicalize-Canonical event i e t s there same in
      rw (found, observe_close) (rw c.there (λ h. cc))
]

observe_open-Unchanged :
    (event : ConnectionLifecycleEvent) (direction : ConnectionDirection) (captured : ℕ) (i : Text)
    (t : ConnectionTracker)
    → IsSound t
    → Unchanged t (observe_open event direction captured i t)
unfolding observe_open enrich_connection admit_connection
observe_open-Unchanged event direction captured i t s = elim (Option-cases (opening event)) [
  | inl refused ↦ rw (refused, observe_open) (λ h. refl)
  | inr ((local, remote, remote_port, process), opens) ↦
      elim (Option-cases (existing_for event i t)) [
        | inl missing ↦ rw (opens, observe_open) (rw missing (λ h. cc))
        | inr (e, found) ↦
            let (there, same) = existing_for-IsFound event i t e found in
            let c = canonicalize-Canonical event i e t s there same in
            rw (opens, observe_open) (rw found (rw c.there (λ h. cc)))
      ]
]

-- An event that a sound tracker refuses leaves the tracker, its indexes and the store as they were.
pub refused_event_unchanged :
    (event : ConnectionLifecycleEvent) (direction : ConnectionDirection) (captured : ℕ)
    (t : ConnectionTracker)
    → IsSound t
    → (observe_lifecycle event direction captured t).0 ≡ none
    → (observe_lifecycle event direction captured t).1 ≡ t
unfolding observe_lifecycle
refused_event_unchanged event direction captured t s = elim (Option-cases (identity_for event)) [
  | inl nameless ↦ ground (arith, nameless)
  | inr (i, named) ↦ ground (
    arith,
    named,
    observe_close-Unchanged event i t s,
    observe_open-Unchanged event direction captured i t s,
  )
]

observe_looked-Unchanged :
    (resolver : ProcessResolver) (socket : SocketObservation) (direction : ConnectionDirection)
    (allow : Bool) (origin : ConnectionObservationOrigin) (captured : ℕ) (t : ConnectionTracker)
    (l : SocketLookup)
    → lookup_socket socket (socket_key resolver socket) t ≡ l
    → Looked t (identity_for_socket socket) (socket_key resolver socket) l
    → Unchanged t (observe_socket resolver socket direction allow origin captured t)
unfolding observe_socket sample_connection admit_socket
observe_looked-Unchanged resolver socket direction allow origin captured t _ h Looked.conflicts =
    rw (h, observe_socket) (λ e. refl)
observe_looked-Unchanged resolver socket direction allow origin captured t _ h
      (Looked.finds e u v f) =
    rw (h, observe_socket) (λ e. cc)
observe_looked-Unchanged resolver socket direction allow origin captured t _ h
      (Looked.misses f alone) =
    elim (Option-cases (socket_process resolver socket)) [
      | inl nobody ↦ ground (arith, h, nobody)
      | inr (p, owned) ↦ ground (arith, h, owned)
    ]

-- A socket that a sound tracker refuses leaves the tracker, its indexes and the store as they were:
-- also where its cookie could not be given to the connection that its tuple names.
pub refused_socket_unchanged :
    (resolver : ProcessResolver) (socket : SocketObservation) (direction : ConnectionDirection)
    (allow : Bool) (origin : ConnectionObservationOrigin) (captured : ℕ) (t : ConnectionTracker)
    → IsSound t
    → (observe_socket resolver socket direction allow origin captured t).0 ≡ none
    → (observe_socket resolver socket direction allow origin captured t).1 ≡ t
refused_socket_unchanged resolver socket direction allow origin captured t s =
    observe_looked-Unchanged resolver socket direction allow origin captured t _ refl
      (lookup_socket-Looked socket (socket_key resolver socket) t s)
