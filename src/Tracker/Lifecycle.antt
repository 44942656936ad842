-- ===== src/Tracker/Lifecycle.antt =====
-- `ConnectionTracker::observe_lifecycle` of src/core/connection_tracker.cpp.
use neta_agent.Prelude.{
  ℕ, Bool, true, false, ◌||◌, not, Option, none, some, Text, bytes, ◌==◌, text_eq, if◌then◌else◌,
  is_some, value_or, ◌>>=◌,
}
use neta_agent.Prelude.Dict.{emplace, erase}
use neta_agent.Model.{
  ConnectionDirection, ProcessIdentity, SocketObservation, TcpEndpointKind,
  ConnectionLifecycleEvent, ConnectionLifecycleEventType, event_type_eq, TransportProtocol,
  NetworkEndpoint, eligible_connection_seed,
}
use neta_agent.History.Connections.{
  begin_connection, touch_connection, promote_connection_direction, add_lifecycle_event,
}
use neta_agent.Tracker.State.{
  ConnectionTracker, ConnectionAdmission, TrackedConnection, ConnectionObservationOrigin,
  find_entry, persist, write, empty_snapshot,
}
use neta_agent.Tracker.Keys.{tuple_for, process_from, identity_for, correlation_key, usable_cookie}
use neta_agent.Tracker.Index.{
  index_correlation, remove_correlation_identity, rekey_identity, promote_socket_cookie_identity,
  unique_active_correlation_match,
}

-- What an operation returns, and the tracker after it.
abbrev pub Observed : Type 0
Observed = Option ConnectionAdmission × ConnectionTracker

abbrev pub is_close : ConnectionLifecycleEvent → Bool
is_close event = event.type == ConnectionLifecycleEventType.close

abbrev pub snapshot_owned : TrackedConnection → Bool
snapshot_owned tracked = elim tracked.origin [
  | ConnectionObservationOrigin.snapshot_preexisting ↦ true
  | ConnectionObservationOrigin.snapshot_reconciled_after_lifecycle_loss ↦ true
  | _ ↦ false
]

abbrev pub event_key : ConnectionLifecycleEvent → NetworkEndpoint → NetworkEndpoint → Text
event_key event local remote =
    correlation_key (tuple_for local remote event.network_namespace_inode) (process_from event)
      (is_some event.platform_connection_id)

-- The connection that the tuple of the event names, for a CLOSE or where a snapshot found it.
unfoldable pub forward_match :
    ConnectionLifecycleEvent
    → NetworkEndpoint
    → NetworkEndpoint
    → ConnectionTracker
    → Option (Text × TrackedConnection)
unfolding unique_active_correlation_match
forward_match event local remote t =
    unique_active_correlation_match (event_key event local remote) t >>= λ correlated.
    find_entry correlated t >>= λ candidate.
    if is_close event || snapshot_owned candidate.1 then some candidate else none

-- The connection that the reversed tuple of a CLOSE names.
unfoldable pub reverse_match :
    ConnectionLifecycleEvent
    → NetworkEndpoint
    → NetworkEndpoint
    → ConnectionTracker
    → Option (Text × TrackedConnection)
unfolding unique_active_correlation_match
reverse_match event local remote t =
    if is_close event
    then (unique_active_correlation_match (event_key event remote local) t >>= λ correlated.
        find_entry correlated t)
    else none

abbrev pub or_else {ℓ} : {A : Type ℓ} → Option A → Option A → Option A
or_else none other = other
or_else (some a) other = some a

-- `existing` after the look-ups by identity, by tuple and by the reversed tuple.
unfoldable pub existing_for :
    ConnectionLifecycleEvent → Text → ConnectionTracker → Option (Text × TrackedConnection)
unfolding forward_match reverse_match
existing_for event identity t = or_else (find_entry identity t) (
    event.local >>= λ local. event.remote >>= λ remote.
    or_else (forward_match event local remote t) (reverse_match event local remote t))

-- `promoted`
unfoldable pub promote_to :
    ConnectionLifecycleEvent → Text → Text → ConnectionTracker → Bool × ConnectionTracker
unfolding promote_socket_cookie_identity rekey_identity
promote_to event previous identity t = elim (usable_cookie event) [
  | some cookie ↦ promote_socket_cookie_identity previous identity cookie t
  | none ↦ rekey_identity previous identity t
]

-- `existing` under the identity of the event, where it can be given that one.
unfoldable pub canonicalize :
    ConnectionLifecycleEvent
    → Text
    → Text × TrackedConnection
    → ConnectionTracker
    → Option (Text × TrackedConnection) × ConnectionTracker
unfolding promote_to
canonicalize event identity existing t =
    if existing.0 == identity
    then (some existing, t)
    else let (promoted, t') = promote_to event existing.0 identity t in
      if promoted then (find_entry identity t', t') else (some existing, t')

-- The end of a connection.
unfoldable pub close_connection :
    ConnectionLifecycleEvent → Text × TrackedConnection → ConnectionTracker → Observed
unfolding touch_connection add_lifecycle_event remove_correlation_identity
close_connection event existing t =
    let id = existing.1.connection_id in
    let stored =
      persist (add_lifecycle_event id event)
        (persist (touch_connection id event.timestamp_ns (bytes "CLOSED")) t) in
    let unindexed = remove_correlation_identity existing.0 stored in
    (
      some (record {
        connection_id = id;
        newly_admitted = false;
        closed = true;
        direction_promoted = false;
        direction = ConnectionDirection.unknown;
      }),
      record unindexed { connections = erase existing.0 unindexed.connections },
    )

abbrev pub attributed : ProcessIdentity → TrackedConnection → TrackedConnection
attributed process tracked = record tracked {
  process_pid = some process.pid;
  process_start_ticks = process.start_ticks;
  origin =
      if tracked.has_transport_sample
      then ConnectionObservationOrigin.lifecycle_plus_snapshot
      else ConnectionObservationOrigin.lifecycle_exact;
}

-- An event of a connection that is tracked.
unfoldable pub enrich_connection :
    ConnectionLifecycleEvent
    → ConnectionDirection
    → ProcessIdentity
    → Text × TrackedConnection
    → ConnectionTracker
    → Observed
unfolding add_lifecycle_event promote_connection_direction
enrich_connection event direction process existing t =
    let id = existing.1.connection_id in
    let (promoted, store) =
      promote_connection_direction id direction (add_lifecycle_event id event t.store) in
    (
      some (record {
        connection_id = id;
        newly_admitted = false;
        closed = false;
        direction_promoted = promoted;
        direction = direction;
      }),
      write existing.0 (attributed process) (record t { store = store }),
    )

-- `socket` of a new connection; `remote_port` is there.
abbrev pub event_socket :
    ConnectionLifecycleEvent
    → ProcessIdentity
    → NetworkEndpoint
    → NetworkEndpoint
    → ℕ
    → SocketObservation
event_socket event process local remote remote_port = record {
  socket_cookie = value_or event.socket_cookie 0;
  socket_inode = 0;
  network_namespace_inode = event.network_namespace_inode;
  owning_pid = if is_some event.platform_connection_id then some process.pid else none;
  uid = value_or event.process.uid 0;
  local_ip = local.address;
  local_port = value_or local.port 0;
  remote_ip = remote.address;
  remote_port = remote_port;
  endpoint_kind = TcpEndpointKind.unknown;
  transport = record empty_snapshot {
    observed_ns = event.timestamp_ns;
    state = value_or event.tcp_state 0;
  };
}

-- `tracked` of a new connection.
abbrev pub event_connection : SocketObservation → ℕ → ProcessIdentity → TrackedConnection
event_connection socket id process = record {
  connection_id = id;
  last_seen = socket.transport;
  last_persisted = empty_snapshot;
  last_persist_ns = 0;
  has_transport_sample = false;
  present_in_snapshot = false;
  consecutive_snapshot_misses = 0;
  process_pid = some process.pid;
  process_start_ticks = process.start_ticks;
  origin = ConnectionObservationOrigin.lifecycle_exact;
}

-- `captured_ns` is the system clock.
unfoldable pub admit_connection :
    ConnectionLifecycleEvent
    → ConnectionDirection
    → ℕ
    → ProcessIdentity
    → SocketObservation
    → Text
    → Text
    → ConnectionTracker
    → Observed
unfolding begin_connection add_lifecycle_event index_correlation
admit_connection event direction captured_ns process socket identity key t =
    let (id, store) =
      begin_connection socket (some process) t.target_host event.timestamp_ns direction captured_ns
        t.store in
    (
      some (record {
        connection_id = id;
        newly_admitted = true;
        closed = false;
        direction_promoted = false;
        direction = direction;
      }),
      index_correlation key identity (record t {
        store = add_lifecycle_event id event store;
        connections = emplace identity (event_connection socket id process) t.connections;
      }),
    )

unfoldable pub observe_close : ConnectionLifecycleEvent → Text → ConnectionTracker → Observed
unfolding existing_for canonicalize close_connection
observe_close event identity t = elim (existing_for event identity t) [
  | none ↦ (none, t)
  | some found ↦
      let (existing, t') = canonicalize event identity found t in
      elim existing [ none ↦ (none, t') | some e ↦ close_connection event e t' ]
]

-- What a connection that is opened must have: its ends, the port of the remote one, its process.
abbrev pub opening :
    ConnectionLifecycleEvent → Option (NetworkEndpoint × NetworkEndpoint × ℕ × ProcessIdentity)
opening event =
    if eligible_connection_seed event.endpoint_kind
    then (event.local >>= λ local. event.remote >>= λ remote. remote.port >>= λ remote_port.
        process_from event >>= λ process. some (local, remote, remote_port, process))
    else none

unfoldable pub observe_open :
    ConnectionLifecycleEvent → ConnectionDirection → ℕ → Text → ConnectionTracker → Observed
unfolding existing_for canonicalize enrich_connection admit_connection process_from
observe_open event direction captured_ns identity t = elim (opening event) [
  | none ↦ (none, t)
  | some (local, remote, remote_port, process) ↦ elim (existing_for event identity t) [
    | some found ↦
        let (existing, t') = canonicalize event identity found t in
        elim existing [
          | none ↦ (none, t')
          | some e ↦ enrich_connection event direction process e t'
        ]
    | none ↦
        admit_connection event direction captured_ns process
          (event_socket event process local remote remote_port) identity
          (event_key event local remote) t
  ]
]

abbrev is_tcp : TransportProtocol → Bool
is_tcp TransportProtocol.tcp = true
is_tcp TransportProtocol.unknown = false

unfoldable pub observe_lifecycle :
    ConnectionLifecycleEvent → ConnectionDirection → ℕ → ConnectionTracker → Observed
unfolding identity_for observe_close observe_open
observe_lifecycle event direction captured_ns t =
    if not (is_tcp event.protocol) then (none, t) else elim (identity_for event) [
      | none ↦ (none, t)
      | some identity ↦
          if is_close event
          then observe_close event identity t
          else observe_open event direction captured_ns identity t
    ]
