-- ===== src/Tracker/Sampled.antt =====
-- The observations of sockets and the rounds of a snapshot keep the invariant of the tracker.
use neta_agent.Prelude.{
  ℕ, ◌≡◌, ◌⊎◌, refl, inl, inr, ◌∙◌, Bool, true, Option, none, some, Text, bytes, [], ◌∷◌, arith,
  text_eq, nat_eq, option_eq, Bool-cases, Option-cases, ◌&&◌, not, is_some, ◌==◌,
}
use neta_agent.Prelude.Dict.{Dict, lookup, has_key, has_key-some}
use neta_agent.Model.{ConnectionDirection, ProcessIdentity, SocketObservation, TcpSnapshot}
use neta_agent.History.Tables.{HistoryStore}
use neta_agent.History.Connections.{row_ids, begin_connection, add_tcp_sample, touch_connection}
use neta_agent.Tracker.State.{
  ConnectionTracker, ConnectionObservationOrigin, TrackedConnection, ProcessResolver, persist,
}
use neta_agent.Tracker.Keys.{valid_cookie, identity_for_socket}
use neta_agent.Tracker.Index.{
  promote_socket_cookie_identity, unique_active_correlation_match, match_from,
}
use neta_agent.Tracker.Socket.{
  SocketLookup, sampled, seen_in_snapshot, worth_a_row, persist_sample, sample_connection,
  mark_origin, admit_socket, find_as, lookup_match, lookup_socket, socket_key, socket_process,
  observe_socket,
}
use neta_agent.Tracker.Invariant.{IsSound}
use neta_agent.Tracker.Rekey.{IsFound, promote-Renamed}
use neta_agent.Tracker.Sound.{write-IsSound, persist-IsSound, touch-ids, admit-IsSound}
use neta_agent.Tracker.Keeps.{begin-rows}

sample-ids :
    (id : ℕ) (sample : TcpSnapshot) (store : HistoryStore)
    → row_ids (add_tcp_sample id sample store).connections ≡ row_ids store.connections
unfolding add_tcp_sample
sample-ids id sample store = refl

mark-ids :
    (origin : ConnectionObservationOrigin) (id ns : ℕ) (store : HistoryStore)
    → row_ids (mark_origin origin id ns store).connections ≡ row_ids store.connections
mark-ids ConnectionObservationOrigin.lifecycle_exact id ns store = refl
mark-ids ConnectionObservationOrigin.lifecycle_plus_snapshot id ns store = refl
mark-ids ConnectionObservationOrigin.snapshot_preexisting id ns store = touch-ids id ns _ store
mark-ids ConnectionObservationOrigin.snapshot_reconciled_after_lifecycle_loss id ns store =
    touch-ids id ns _ store

persist_sample-IsSound :
    (e : Text × TrackedConnection) (sample : TcpSnapshot) (t : ConnectionTracker)
    → IsSound t
    → IsSound (persist_sample e sample t)
unfolding persist_sample
persist_sample-IsSound e sample t s =
    let id = e.1.connection_id in
    let ns = sample.observed_ns in
    let touch = touch_connection id ns (bytes "ACTIVE") in
    elim (Bool-cases (worth_a_row e.1 sample)) [
      | inl worth ↦ rw worth (
          persist-IsSound touch _ (touch-ids id ns (bytes "ACTIVE")) (
            write-IsSound e.0 (sampled sample) (persist (add_tcp_sample id sample) t) (λ c. refl)
              (persist-IsSound (add_tcp_sample id sample) t (sample-ids id sample) s)))
      | inr plain ↦ rw plain (
          persist-IsSound touch _ (touch-ids id ns (bytes "ACTIVE"))
            (write-IsSound e.0 (sampled sample) t (λ c. refl) s))
    ]

sample_connection-IsSound :
    (socket : SocketObservation) (direction : ConnectionDirection) (e : Text × TrackedConnection)
    (t : ConnectionTracker)
    → IsSound t
    → IsSound (sample_connection socket direction e t).1
unfolding sample_connection
sample_connection-IsSound socket direction e t s =
    write-IsSound e.0 seen_in_snapshot _ (λ c. refl) (persist_sample-IsSound e socket.transport t s)

admit_socket-IsSound :
    (socket : SocketObservation) (direction : ConnectionDirection)
    (origin : ConnectionObservationOrigin) (captured : ℕ) (process : ProcessIdentity)
    (identity key : Text) (t : ConnectionTracker)
    → IsSound t
    → lookup identity t.connections ≡ none
    → IsSound (admit_socket socket direction origin captured process identity key t).1
unfolding admit_socket
admit_socket-IsSound socket direction origin captured process identity key t s fresh =
    let ns = socket.transport.observed_ns in
    let begun =
      begin_connection socket (some process) t.target_host ns direction captured t.store in
    let (id, rows) = begin-rows socket (some process) t.target_host ns direction captured t.store in
    admit-IsSound identity key _ _ t s fresh id (
      mark-ids origin begun.0 ns (add_tcp_sample begun.0 socket.transport begun.1)
      ∙ sample-ids begun.0 socket.transport begun.1
      ∙ rows)

-- What a look-up of a socket may find in a sound tracker, by its own identity and by its key.
pub data Looked (t : ConnectionTracker) (canonical key : Text) : SocketLookup → Type 0 where
  conflicts : Looked t canonical key (SocketLookup.conflict t)
  finds :
      (e : Text × TrackedConnection) (u : ConnectionTracker)
      → IsSound u
      → IsFound u e
      → Looked t canonical key (SocketLookup.found e u)
  misses :
      lookup canonical t.connections ≡ none
      → unique_active_correlation_match key t ≡ none
      → Looked t canonical key (SocketLookup.unknown canonical t)

find_as-Looked :
    (t u : ConnectionTracker) (canonical key i : Text) (c : TrackedConnection)
    → IsSound u
    → lookup i u.connections ≡ some c
    → Looked t canonical key (find_as i u)
find_as-Looked t u canonical key i c s found = rw (found, find_as) (Looked.finds (i, c) u s found)

match_from-active :
    (key : Text) (d : Dict Text TrackedConnection) (m : Option Text) (index : Dict Text Text)
    (i : Text)
    → match_from key d m index ≡ some i
    → (m ≡ some i) ⊎ (has_key i d ≡ true)
unfolding match_from
match_from-active key d m [] i h = inl h
match_from-active key d none ((k, j) ∷ index) i h =
    ground (arith, match_from-active key d (some j) index i, match_from-active key d none index i)
match_from-active key d (some n) ((k, j) ∷ index) i h =
    ground
      (arith, match_from-active key d (some j) index i, match_from-active key d (some n) index i)

-- A unique match is tracked.
pub match-active :
    (key : Text) (t : ConnectionTracker) (i : Text)
    → unique_active_correlation_match key t ≡ some i
    → has_key i t.connections ≡ true
unfolding unique_active_correlation_match
match-active key t i h =
    ground (arith, match_from-active key t.connections none t.correlation_index i h)

lookup_match-Looked :
    (socket : SocketObservation) (canonical key m : Text) (t : ConnectionTracker)
    (c : TrackedConnection)
    → IsSound t
    → lookup canonical t.connections ≡ none
    → lookup m t.connections ≡ some c
    → Looked t canonical key (lookup_match socket canonical m t)
unfolding lookup_match
lookup_match-Looked socket canonical key m t c s fresh found =
    let cookie = socket.socket_cookie in
    elim (Bool-cases (valid_cookie cookie && not (m == canonical))) [
      | inr stays ↦ rw stays (find_as-Looked t t canonical key m c s found)
      | inl moves ↦
          let r = promote-Renamed m canonical cookie t c s found (rw fresh refl) in
          elim (Bool-cases (promote_socket_cookie_identity m canonical cookie t).0) [
            | inl wins ↦
                rw moves
                  (rw wins (find_as-Looked t _ canonical key canonical c r.sound (r.moved wins)))
            | inr fails ↦ rw moves (rw fails (rw (r.unmoved fails) Looked.conflicts))
          ]
    ]

pub lookup_socket-Looked :
    (socket : SocketObservation) (key : Text) (t : ConnectionTracker)
    → IsSound t
    → Looked t (identity_for_socket socket) key (lookup_socket socket key t)
unfolding lookup_socket
lookup_socket-Looked socket key t s =
    let canonical = identity_for_socket socket in
    elim (Option-cases (lookup canonical t.connections)) [
      | inr (c, found) ↦
          elim (Bool-cases (
            is_some (unique_active_correlation_match key t)
            && not (unique_active_correlation_match key t == some canonical))) [
              | inl clash ↦ rw (found, lookup_socket) (rw clash Looked.conflicts)
              | inr fits ↦
                  rw (found, lookup_socket) (rw fits (Looked.finds (canonical, c) t s found))
            ]
      | inl fresh ↦ elim (Option-cases (unique_active_correlation_match key t)) [
        | inl alone ↦ rw (fresh, lookup_socket) (rw alone (Looked.misses fresh alone))
        | inr (m, one) ↦
            let (c, found) = has_key-some m t.connections (match-active key t m one) in
            rw (fresh, lookup_socket)
              (rw one (lookup_match-Looked socket canonical key m t c s fresh found))
      ]
    ]

-- By what the look-up finds.
observe_looked-IsSound :
    (resolver : ProcessResolver) (socket : SocketObservation) (direction : ConnectionDirection)
    (allow : Bool) (origin : ConnectionObservationOrigin) (captured : ℕ) (t : ConnectionTracker)
    (l : SocketLookup)
    → lookup_socket socket (socket_key resolver socket) t ≡ l
    → Looked t (identity_for_socket socket) (socket_key resolver socket) l
    → IsSound t
    → IsSound (observe_socket resolver socket direction allow origin captured t).1
unfolding observe_socket
observe_looked-IsSound resolver socket direction allow origin captured t _ h Looked.conflicts s =
    rw (h, observe_socket) s
observe_looked-IsSound resolver socket direction allow origin captured t _ h (Looked.finds e u v f)
      s =
    rw (h, observe_socket) (sample_connection-IsSound socket direction e u v)
observe_looked-IsSound resolver socket direction allow origin captured t _ h (Looked.misses f alone)
      s =
    elim (Option-cases (socket_process resolver socket)) [
      | inl nobody ↦ ground (arith, h, nobody)
      | inr (p, owned) ↦ ground (
        arith,
        h,
        owned,
        admit_socket-IsSound socket direction origin captured p (identity_for_socket socket)
            (socket_key resolver socket) t s f,
      )
    ]

pub observe_socket-IsSound :
    (resolver : ProcessResolver) (socket : SocketObservation) (direction : ConnectionDirection)
    (allow : Bool) (origin : ConnectionObservationOrigin) (captured : ℕ) (t : ConnectionTracker)
    → IsSound t
    → IsSound (observe_socket resolver socket direction allow origin captured t).1
observe_socket-IsSound resolver socket direction allow origin captured t s =
    observe_looked-IsSound resolver socket direction allow origin captured t _ refl
      (lookup_socket-Looked socket (socket_key resolver socket) t s) s
