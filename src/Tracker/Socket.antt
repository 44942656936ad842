-- ===== src/Tracker/Socket.antt =====
-- `ConnectionTracker::observe_socket` and `persist_sample` of src/core/connection_tracker.cpp.
use neta_agent.Prelude.{
  ℕ, Bool, true, false, ◌&&◌, ◌||◌, not, Option, none, some, Text, bytes, ◌==◌, text_eq, option_eq,
  if◌then◌else◌, is_some,
}
use neta_agent.Prelude.Dict.{emplace}
use neta_agent.Model.{
  ConnectionDirection, ProcessIdentity, SocketObservation, TcpSnapshot, eligible_connection_seed,
}
use neta_agent.History.Tables.{HistoryStore}
use neta_agent.History.Connections.{begin_connection, touch_connection, add_tcp_sample}
use neta_agent.Tracker.State.{
  ConnectionTracker, TrackedConnection, ConnectionObservationOrigin, ProcessResolver, find_entry,
  persist, write,
}
use neta_agent.Tracker.Keys.{
  valid_cookie, meaningful_change, tuple_for_socket, identity_for_socket, correlation_key,
}
use neta_agent.Tracker.Index.{
  index_correlation, promote_socket_cookie_identity, unique_active_correlation_match,
}
use neta_agent.Tracker.Lifecycle.{Observed}

abbrev pub worth_a_row : TrackedConnection → TcpSnapshot → Bool
worth_a_row tracked sample =
    not tracked.has_transport_sample
    || meaningful_change tracked.last_persisted sample tracked.last_persist_ns

-- The connection after a sample, and the origin of one that events announced.
abbrev pub sampled : TcpSnapshot → TrackedConnection → TrackedConnection
unfolding meaningful_change
sampled sample tracked =
    let kept = worth_a_row tracked sample in
    record tracked {
      has_transport_sample = if kept then true else tracked.has_transport_sample;
      last_persisted = if kept then sample else tracked.last_persisted;
      last_persist_ns = if kept then sample.observed_ns else tracked.last_persist_ns;
      last_seen = sample;
      present_in_snapshot = true;
    }

abbrev pub seen_in_snapshot : TrackedConnection → TrackedConnection
seen_in_snapshot tracked = record tracked {
  origin = elim tracked.origin [
    | ConnectionObservationOrigin.lifecycle_exact ↦
        ConnectionObservationOrigin.lifecycle_plus_snapshot
    | other ↦ other
  ];
}

unfoldable pub persist_sample :
    Text × TrackedConnection → TcpSnapshot → ConnectionTracker → ConnectionTracker
unfolding meaningful_change add_tcp_sample touch_connection
persist_sample existing sample t =
    let id = existing.1.connection_id in
    let stored =
      if worth_a_row existing.1 sample then persist (add_tcp_sample id sample) t else t in
    persist (touch_connection id sample.observed_ns (bytes "ACTIVE"))
      (write existing.0 (sampled sample) stored)

-- The branch of both platforms for a connection that is tracked.
unfoldable pub sample_connection :
    SocketObservation
    → ConnectionDirection
    → Text × TrackedConnection
    → ConnectionTracker
    → Observed
unfolding persist_sample
sample_connection socket direction existing t = (
  some (record {
    connection_id = existing.1.connection_id;
    newly_admitted = false;
    closed = false;
    direction_promoted = false;
    direction = direction;
  }),
  write existing.0 seen_in_snapshot (persist_sample existing socket.transport t),
)

abbrev pub mark_origin : ConnectionObservationOrigin → ℕ → ℕ → HistoryStore → HistoryStore
mark_origin ConnectionObservationOrigin.snapshot_preexisting id ns store =
    touch_connection id ns (bytes "PREEXISTING") store
mark_origin ConnectionObservationOrigin.snapshot_reconciled_after_lifecycle_loss id ns store =
    touch_connection id ns (bytes "RECONCILED_AFTER_LIFECYCLE_LOSS") store
mark_origin ConnectionObservationOrigin.lifecycle_exact id ns store = store
mark_origin ConnectionObservationOrigin.lifecycle_plus_snapshot id ns store = store

-- `tracked` of a new connection.
abbrev pub socket_connection :
    SocketObservation → ConnectionObservationOrigin → ℕ → ProcessIdentity → TrackedConnection
socket_connection socket origin id process = record {
  connection_id = id;
  last_seen = socket.transport;
  last_persisted = socket.transport;
  last_persist_ns = socket.transport.observed_ns;
  has_transport_sample = true;
  present_in_snapshot = true;
  consecutive_snapshot_misses = 0;
  process_pid = some process.pid;
  process_start_ticks = process.start_ticks;
  origin = origin;
}

-- The branch of both platforms for a new connection; `captured_ns` is the system clock.
unfoldable pub admit_socket :
    SocketObservation
    → ConnectionDirection
    → ConnectionObservationOrigin
    → ℕ
    → ProcessIdentity
    → Text
    → Text
    → ConnectionTracker
    → Observed
unfolding begin_connection add_tcp_sample touch_connection index_correlation
admit_socket socket direction origin captured_ns process identity key t =
    let sample = socket.transport in
    let (id, store) =
      begin_connection socket (some process) t.target_host sample.observed_ns direction captured_ns
        t.store in
    (
      some (record {
        connection_id = id;
        newly_admitted = true;
        closed = false;
        direction_promoted = false;
        direction = direction;
      }),
      index_correlation key identity (record t {
        store = mark_origin origin id sample.observed_ns (add_tcp_sample id sample store);
        connections = emplace identity (socket_connection socket origin id process) t.connections;
      }),
    )

-- What the look-ups by identity and by key find, with the tracker: a conflict, a connection, or none
-- and the identity for a new one.
pub data SocketLookup : Type 0 where
  conflict : ConnectionTracker → SocketLookup
  unknown : Text → ConnectionTracker → SocketLookup
  found : Text × TrackedConnection → ConnectionTracker → SocketLookup

abbrev pub find_as : Text → ConnectionTracker → SocketLookup
find_as identity t = elim (find_entry identity t) [
  | none ↦ SocketLookup.unknown identity t
  | some e ↦ SocketLookup.found e t
]

-- `existing == end` and `match` is there: the connection that the key names, under the cookie of the
-- socket where it has one.
unfoldable pub lookup_match : SocketObservation → Text → Text → ConnectionTracker → SocketLookup
unfolding promote_socket_cookie_identity
lookup_match socket canonical match t =
    if valid_cookie socket.socket_cookie && not (match == canonical)
    then (let (promoted, t') =
          promote_socket_cookie_identity match canonical socket.socket_cookie t in
        if promoted then find_as canonical t' else SocketLookup.conflict t')
    else find_as match t

unfoldable pub lookup_socket : SocketObservation → Text → ConnectionTracker → SocketLookup
unfolding lookup_match identity_for_socket unique_active_correlation_match
lookup_socket socket key t =
    let canonical = identity_for_socket socket in
    let match = unique_active_correlation_match key t in
    elim (find_entry canonical t) [
      | some e ↦
          if is_some match && not (match == some canonical)
          then SocketLookup.conflict t
          else SocketLookup.found e t
      | none ↦ elim match [
        | some m ↦ lookup_match socket canonical m t
        | none ↦ SocketLookup.unknown canonical t
      ]
    ]

-- The key by which a socket is found: with the process where the platform names the owner.
unfoldable pub socket_key : ProcessResolver → SocketObservation → Text
unfolding correlation_key tuple_for_socket
socket_key resolver socket =
    if is_some socket.owning_pid
    then correlation_key (tuple_for_socket socket) (resolver.resolve_socket socket) true
    else tuple_for_socket socket

-- The process of a socket that is to be admitted.
abbrev pub socket_process : ProcessResolver → SocketObservation → Option ProcessIdentity
socket_process resolver socket =
    if is_some socket.owning_pid
    then resolver.resolve_socket socket
    else resolver.resolve_inode socket.socket_inode

-- Both platforms: they differ in the key and in the look-up of the process.
unfoldable pub observe_socket :
    ProcessResolver
    → SocketObservation
    → ConnectionDirection
    → Bool
    → ConnectionObservationOrigin
    → ℕ
    → ConnectionTracker
    → Observed
unfolding lookup_socket sample_connection admit_socket socket_key
observe_socket resolver socket direction allow_new_connection origin captured_ns t =
    let key = socket_key resolver socket in
    elim (lookup_socket socket key t) [
      | SocketLookup.conflict t' ↦ (none, t')
      | SocketLookup.found e t' ↦ sample_connection socket direction e t'
      | SocketLookup.unknown identity t' ↦
          if allow_new_connection && eligible_connection_seed socket.endpoint_kind
          then elim (socket_process resolver socket) [
            | none ↦ (none, t')
            | some process ↦
                admit_socket socket direction origin captured_ns process identity key t'
          ]
          else (none, t')
    ]
