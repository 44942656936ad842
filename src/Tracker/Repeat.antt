-- ===== src/Tracker/Repeat.antt =====
-- A socket that the tracker has admitted is found again.
use neta_agent.Prelude.{
  ℕ, ◌≡◌, refl, inl, inr, ap, sym, ◌∙◌, Bool, true, false, none, some, Text, List, [], ◌∷◌, ◌++◌,
  arith, text_eq, option_eq, Option-cases, eq_refl, is_empty, if◌then◌else◌,
}
use neta_agent.Prelude.Dict.{Dict, lookup, lookup-none, lookup-middle, emplace}
use neta_agent.ProcessGraph.{only}
use neta_agent.Model.{ConnectionDirection, SocketObservation, ProcessIdentity}
use neta_agent.History.Connections.{begin_connection}
use neta_agent.Tracker.State.{
  ConnectionTracker, TrackedConnection, ConnectionAdmission, ConnectionObservationOrigin,
  ProcessResolver,
}
use neta_agent.Tracker.Keys.{identity_for_socket}
use neta_agent.Tracker.Index.{index_correlation, unique_active_correlation_match}
use neta_agent.Tracker.Socket.{
  SocketLookup, lookup_socket, socket_key, socket_process, sample_connection, admit_socket,
  socket_connection, observe_socket,
}
use neta_agent.Tracker.Invariant.{IsSound}
use neta_agent.Tracker.Unique.{named, match-only}
use neta_agent.Tracker.Sampled.{Looked, lookup_socket-Looked, observe_socket-IsSound}

named-append :
    (key i : Text) (d : Dict Text Text) → named key (d ++ (i, key) ∷ []) ≡ named key d ++ i ∷ []
named-append key i [] = ground (arith, eq_refl key)
named-append key i ((j, k) ∷ d) = ground (arith, named-append key i d)

only-append :
    (is : List Text) (i : Text) → only (is ++ i ∷ []) ≡ (if is_empty is then some i else none)
only-append [] i = refl
only-append (j ∷ []) i = refl
only-append (j ∷ k ∷ is) i = refl

-- A tracker that holds a connection under an identity, and whose index lists its key last.
record Holds (key i : Text) (c : TrackedConnection) (u : ConnectionTracker) : Type 0 where
  sound : IsSound u
  there : lookup i u.connections ≡ some c
  before : Dict Text Text
  listed : u.correlation_by_identity ≡ before ++ (i, key) ∷ []

Holds-lookup :
    (socket : SocketObservation) (key : Text) (c : TrackedConnection) (u : ConnectionTracker)
    → Holds key (identity_for_socket socket) c u
    → lookup_socket socket key u ≡ SocketLookup.found (identity_for_socket socket, c) u
unfolding lookup_socket
Holds-lookup socket key c u h =
    let i = identity_for_socket socket in
    let match : unique_active_correlation_match key u
        ≡ (if is_empty (named key h.before) then some i else none) =
      match-only key u h.sound
      ∙ ap (λ d. only (named key d)) h.listed
      ∙ ap only (named-append key i h.before)
      ∙ only-append (named key h.before) i in
    rw (h.there, lookup_socket) (rw match (ground (arith, eq_refl i)))

admit-Holds :
    (key i : Text) (c : TrackedConnection) (t u : ConnectionTracker)
    → IsSound t
    → lookup i t.connections ≡ none
    → IsSound u
    → u.connections ≡ emplace i c t.connections
    → u.correlation_by_identity ≡ emplace i key t.correlation_by_identity
    → Holds key i c u
admit-Holds key i c t u s fresh v e f =
    let out = (lookup-none i t.connections).0 fresh in
    let gone : lookup i t.correlation_by_identity ≡ none =
      (lookup-none i t.correlation_by_identity).1 (rw s.indexed.same_keys out) in
    record {
      sound = v;
      there = rw e (rw fresh (lookup-middle i c [] t.connections out));
      before = t.correlation_by_identity;
      listed = rw f (rw gone refl);
    }

module _ (resolver : ProcessResolver) (socket : SocketObservation) where
  admitted-cases :
      (direction : ConnectionDirection) (allow : Bool) (origin : ConnectionObservationOrigin)
      (captured : ℕ) (t : ConnectionTracker) (l : SocketLookup) (a : ConnectionAdmission)
      → lookup_socket socket (socket_key resolver socket) t ≡ l
      → Looked t (identity_for_socket socket) (socket_key resolver socket) l
      → (observe_socket resolver socket direction allow origin captured t).0 ≡ some a
      → a.newly_admitted ≡ true
      → (p : ProcessIdentity) × (observe_socket resolver socket direction allow origin captured t
          ≡ admit_socket socket direction origin captured p
              (identity_for_socket socket)
              (socket_key resolver socket)
              t)
        × (lookup (identity_for_socket socket) t.connections ≡ none)
  unfolding observe_socket sample_connection
  admitted-cases direction allow origin captured t _ a h Looked.conflicts e n = ground (arith, h, e)
  admitted-cases direction allow origin captured t _ a h (Looked.finds f u v w) e n =
      ground (arith, h, e, n)
  admitted-cases direction allow origin captured t _ a h (Looked.misses f alone) e n =
      elim (Option-cases (socket_process resolver socket)) [
        | inl nobody ↦ ground (arith, h, nobody, e)
        | inr (p, owned) ↦ (p, ground (arith, h, owned, e), f)
      ]

  again-found :
      (direction : ConnectionDirection) (allow : Bool) (origin : ConnectionObservationOrigin)
      (captured : ℕ) (u : ConnectionTracker) (c : TrackedConnection)
      → Holds (socket_key resolver socket) (identity_for_socket socket) c u
      → (observe_socket resolver socket direction allow origin captured u).0
        ≡ some (record {
          connection_id = c.connection_id;
          newly_admitted = false;
          closed = false;
          direction_promoted = false;
          direction = direction;
        })
  unfolding observe_socket sample_connection
  again-found direction allow origin captured u c h =
      rw (Holds-lookup socket (socket_key resolver socket) c u h, observe_socket) refl

  -- Once a sound tracker has admitted a socket, the next observation of the same socket answers with
  -- the same connection and admits nothing, whatever the two allow and ask for.
  pub socket_again :
      (direction direction' : ConnectionDirection) (allow allow' : Bool)
      (origin origin' : ConnectionObservationOrigin) (captured captured' : ℕ)
      (t : ConnectionTracker) (a : ConnectionAdmission)
      → IsSound t
      → (observe_socket resolver socket direction allow origin captured t).0 ≡ some a
      → a.newly_admitted ≡ true
      → let u = (observe_socket resolver socket direction allow origin captured t).1 in
        (observe_socket resolver socket direction' allow' origin' captured' u).0
        ≡ some (record {
          connection_id = a.connection_id;
          newly_admitted = false;
          closed = false;
          direction_promoted = false;
          direction = direction';
        })
  unfolding admit_socket index_correlation
  socket_again direction direction' allow allow' origin origin' captured captured' t a s answer
        new =
      let key = socket_key resolver socket in
      let (p, admits, fresh) =
        admitted-cases direction allow origin captured t _ a refl
          (lookup_socket-Looked socket key t s) answer new in
      let i = identity_for_socket socket in
      let begun =
        begin_connection socket (some p) t.target_host socket.transport.observed_ns direction
          captured t.store in
      let c = socket_connection socket origin begun.0 p in
      let u = (observe_socket resolver socket direction allow origin captured t).1 in
      let holds : Holds key i c u =
        admit-Holds key i c t u s fresh
          (observe_socket-IsSound resolver socket direction allow origin captured t s)
          (ap (λ r. r.1.connections) admits) (ap (λ r. r.1.correlation_by_identity) admits) in
      let same : begun.0 ≡ a.connection_id = ground (arith, sym (ap (λ r. r.0) admits) ∙ answer) in
      again-found direction' allow' origin' captured' u c holds ∙ rw same refl
