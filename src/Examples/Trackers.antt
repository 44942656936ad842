-- ===== src/Examples/Trackers.antt =====
-- The connection tracker at concrete inputs.
use neta_agent.Prelude.{
  ℕ, ◌≡◌, ◌≢◌, ◌↔◌, refl, true, false, none, some, Text, List, [], ◌∷◌, bytes, In, pos, text_eq,
  if◌then◌else◌, ◌&&◌, leb, ◌+◌, ◌==◌, text_beq_iff,
}
use neta_agent.Prelude.Decimal.{to_string}
use neta_agent.Prelude.Dict.{Distinct, keys, swapped, lookup}
use neta_agent.Model.{
  ConnectionDirection, ConnectionLifecycleEvent, ConnectionLifecycleEventType, SocketObservation,
  ProcessIdentity,
}
use neta_agent.ProcessGraph.{only}
use neta_agent.History.Tables.{HistoryStore}
use neta_agent.History.Connections.{
  row_ids, begin_connection, add_tcp_sample, touch_connection, update_socket_cookie,
}
use neta_agent.Tracker.State.{
  ConnectionTracker, TrackedConnection, ConnectionObservationOrigin, ProcessResolver, new,
}
use neta_agent.Tracker.Keys.{
  valid_cookie, tuple_for, tuple_for_socket, process_from, identity_for, identity_for_socket,
  correlation_key,
}
use neta_agent.Tracker.Index.{
  index_correlation, unique_active_correlation_match, match_from, promote_socket_cookie_identity,
}
use neta_agent.Tracker.Lifecycle.{
  snapshot_owned, event_connection, event_socket, existing_for, forward_match, reverse_match,
  observe_lifecycle, observe_open, admit_connection,
}
use neta_agent.Tracker.Socket.{
  socket_connection, lookup_socket, lookup_match, socket_key, observe_socket, admit_socket,
}
use neta_agent.Tracker.Invariant.{ids_of}
use neta_agent.Tracker.Reach.{Call, run, called, reached-IsSound, reached_invariant}
use neta_agent.Tracker.Unique.{named, match-only}
use neta_agent.Tracker.Silence.{snapshots, Unshown, missing, silence_outcome}
use neta_agent.Tracker.Elsewhere.{Shown}
use neta_agent.Tracker.Snapshot.{begin_snapshot}
use neta_agent.Tracker.Closing.{closed_admission, stored_state, close_outcome}
use neta_agent.Tracker.Refused.{refused_event_unchanged, refused_socket_unchanged}
use neta_agent.Tracker.Repeat.{socket_again}
use neta_agent.Examples.Connections.{connect, socket}

abbrev empty_store : HistoryStore
empty_store = record {
  processes = [];
  connections = [];
  transport_samples = [];
  lifecycle_events = [];
  pending_tls = none;
  tls_links = [];
}

abbrev ssh_process : ProcessIdentity
ssh_process = record {
  pid = pos 7;
  uid = 0;
  start_ticks = some 40;
  comm = bytes "ssh";
  executable_path = [];
}

abbrev resolver : ProcessResolver
resolver = record {
  resolve_inode = λ inode. some ssh_process;
  resolve_socket = λ s. some ssh_process;
}

-- An event of the same process, for the tuple of `socket`.
abbrev connected : ConnectionLifecycleEvent
connected = record connect {
  process = record connect.process {
    agent_visible = record { pid = none; tgid = some (pos 7) };
    start_ticks = some 40;
  };
}

abbrev disconnected : ConnectionLifecycleEvent
disconnected = record connected { type = ConnectionLifecycleEventType.close; timestamp_ns = 9 }

abbrev sees_socket : Call
sees_socket =
    Call.socket resolver socket ConnectionDirection.unknown true
      ConnectionObservationOrigin.snapshot_preexisting 3

abbrev sees_event : Call
sees_event = Call.lifecycle connected ConnectionDirection.outbound 3

abbrev history : List Call
history = sees_event ∷ sees_socket ∷ Call.snapshot_begins ∷ Call.snapshot_ends false false ∷ []

reached_invariant_example :
    let t = run history (new empty_store (bytes "host")) in
    Distinct (keys t.connections)
    × (keys t.correlation_by_identity ≡ keys t.connections)
    × (t.correlation_index ≡ swapped t.correlation_by_identity)
    × Distinct (ids_of t.connections)
    × ((id : ℕ) → In id (ids_of t.connections) → In id (row_ids t.store.connections))
    × Distinct (row_ids t.store.connections)
reached_invariant_example = reached_invariant empty_store (bytes "host") history tt

-- After one observation of `socket`.
abbrev with_socket : ConnectionTracker
unfolding run new
with_socket = run (sees_socket ∷ []) (new empty_store (bytes "host"))

with_socket_found :
    lookup (bytes "c:1") with_socket.connections
    ≡ some (socket_connection socket ConnectionObservationOrigin.snapshot_preexisting 1 ssh_process)
unfolding with_socket run called new observe_socket socket_key lookup_socket identity_for_socket
    valid_cookie unique_active_correlation_match match_from tuple_for_socket admit_socket
    begin_connection index_correlation to_string
with_socket_found = refl

match-only_example :
    let key = bytes "n:0|10.0.0.1:5000->10.0.0.2:22" in
    unique_active_correlation_match key with_socket
    ≡ only (named key with_socket.correlation_by_identity)
unfolding with_socket
match-only_example =
    match-only (bytes "n:0|10.0.0.1:5000->10.0.0.2:22") with_socket
      (reached-IsSound empty_store (bytes "host") (sees_socket ∷ []) tt)

-- Another connection, which the first of three snapshots shows.
abbrev far_socket : Shown
far_socket = record {
  resolver = resolver;
  socket = record socket { socket_cookie = 5; local_port = 5001 };
  direction = ConnectionDirection.unknown;
  allow_new_connection = true;
  origin = ConnectionObservationOrigin.snapshot_preexisting;
  captured_ns = 4;
}

texts_apart : (s t : Text) → (s == t) ≡ false → s ≢ t
texts_apart s t differs e = cc (differs, (text_beq_iff s t).1 e)

other_identity : (identity_for_socket far_socket.socket == bytes "c:1") ≡ false
unfolding identity_for_socket valid_cookie to_string
other_identity = refl

far_unmatched :
    unique_active_correlation_match
      (socket_key resolver far_socket.socket)
      (begin_snapshot with_socket)
    ≡ none
unfolding with_socket begin_snapshot run called new observe_socket socket_key lookup_socket
    identity_for_socket valid_cookie unique_active_correlation_match match_from tuple_for_socket
    admit_socket begin_connection index_correlation to_string
far_unmatched = refl

unshown : Unshown (bytes "c:1") ((far_socket ∷ []) ∷ [] ∷ [] ∷ []) with_socket
unshown = (
  (
    (
      texts_apart (identity_for_socket far_socket.socket) (bytes "c:1") other_identity,
      λ e. cc (far_unmatched, e),
    ),
    tt,
  ),
  (tt, (tt, tt)),
)

silence_outcome_example :
    let c =
      socket_connection socket ConnectionObservationOrigin.snapshot_preexisting 1 ssh_process in
    lookup (bytes "c:1") (snapshots ((far_socket ∷ []) ∷ [] ∷ [] ∷ []) with_socket).connections ≡ (
      if snapshot_owned c && leb 3 (c.consecutive_snapshot_misses + 3)
      then none
      else some (missing 3 c))
unfolding with_socket
silence_outcome_example =
    silence_outcome (far_socket ∷ []) ([] ∷ [] ∷ []) (bytes "c:1")
      (socket_connection socket ConnectionObservationOrigin.snapshot_preexisting 1 ssh_process)
      with_socket (reached-IsSound empty_store (bytes "host") (sees_socket ∷ []) tt) unshown
      with_socket_found

-- Another socket on the same tuple.
abbrev other_socket : SocketObservation
other_socket = record socket { socket_cookie = 5 }

other_refused :
    (observe_socket resolver other_socket ConnectionDirection.unknown true
      ConnectionObservationOrigin.snapshot_preexisting 4 with_socket).0
    ≡ none
unfolding with_socket run called new observe_socket socket_key lookup_socket lookup_match
    identity_for_socket valid_cookie unique_active_correlation_match match_from tuple_for_socket
    admit_socket begin_connection index_correlation to_string promote_socket_cookie_identity
    update_socket_cookie add_tcp_sample touch_connection
other_refused = refl

refused_socket_unchanged_example :
    (observe_socket resolver other_socket ConnectionDirection.unknown true
      ConnectionObservationOrigin.snapshot_preexisting 4 with_socket).1
    ≡ with_socket
unfolding with_socket
refused_socket_unchanged_example =
    refused_socket_unchanged resolver other_socket ConnectionDirection.unknown true
      ConnectionObservationOrigin.snapshot_preexisting 4 with_socket
      (reached-IsSound empty_store (bytes "host") (sees_socket ∷ []) tt) other_refused

connect_refused : (observe_lifecycle connect ConnectionDirection.outbound 4 with_socket).0 ≡ none
unfolding observe_lifecycle identity_for observe_open process_from
connect_refused = refl

refused_event_unchanged_example :
    (observe_lifecycle connect ConnectionDirection.outbound 4 with_socket).1 ≡ with_socket
unfolding with_socket
refused_event_unchanged_example =
    refused_event_unchanged connect ConnectionDirection.outbound 4 with_socket
      (reached-IsSound empty_store (bytes "host") (sees_socket ∷ []) tt) connect_refused

abbrev fresh_tracker : ConnectionTracker
unfolding run new
fresh_tracker = run [] (new empty_store (bytes "host"))

socket_admitted :
    (observe_socket resolver socket ConnectionDirection.unknown true
      ConnectionObservationOrigin.snapshot_preexisting 3 fresh_tracker).0
    ≡ some (record {
      connection_id = 1;
      newly_admitted = true;
      closed = false;
      direction_promoted = false;
      direction = ConnectionDirection.unknown;
    })
unfolding fresh_tracker run called new observe_socket socket_key lookup_socket identity_for_socket
    valid_cookie unique_active_correlation_match match_from tuple_for_socket admit_socket
    begin_connection index_correlation to_string
socket_admitted = refl

socket_again_example :
    let u =
      (observe_socket resolver socket ConnectionDirection.unknown true
        ConnectionObservationOrigin.snapshot_preexisting 3 fresh_tracker).1 in
    (observe_socket resolver socket ConnectionDirection.outbound false
      ConnectionObservationOrigin.lifecycle_exact 4 u).0
    ≡ some (record {
      connection_id = 1;
      newly_admitted = false;
      closed = false;
      direction_promoted = false;
      direction = ConnectionDirection.outbound;
    })
unfolding fresh_tracker
socket_again_example =
    socket_again resolver socket ConnectionDirection.unknown ConnectionDirection.outbound true false
      ConnectionObservationOrigin.snapshot_preexisting ConnectionObservationOrigin.lifecycle_exact 3
      4 fresh_tracker
      (record {
        connection_id = 1;
        newly_admitted = true;
        closed = false;
        direction_promoted = false;
        direction = ConnectionDirection.unknown;
      })
      (reached-IsSound empty_store (bytes "host") [] tt) socket_admitted refl

-- After the event that opens the connection.
abbrev with_event : ConnectionTracker
unfolding run new
with_event = run (sees_event ∷ []) (new empty_store (bytes "host"))

abbrev closing_identity : Text
closing_identity = bytes "f:0|7|n:0|10.0.0.1:5000->10.0.0.2:22|9"

-- The connection that `disconnected` finds, by its tuple.
abbrev opened_entry : Text × TrackedConnection
opened_entry = (
  bytes "f:0|7|n:0|10.0.0.1:5000->10.0.0.2:22|1",
  event_connection
      (event_socket connected ssh_process (record { address = bytes "10.0.0.1"; port = some 5000 })
        (record { address = bytes "10.0.0.2"; port = some 22 }) 22)
      1 ssh_process,
)

disconnected_finds : existing_for disconnected closing_identity with_event ≡ some opened_entry
unfolding with_event run called new existing_for forward_match unique_active_correlation_match
    match_from tuple_for correlation_key process_from observe_lifecycle identity_for valid_cookie
    observe_open reverse_match admit_connection begin_connection index_correlation to_string
disconnected_finds = refl

disconnected_named : identity_for disconnected ≡ some closing_identity
unfolding identity_for valid_cookie tuple_for to_string
disconnected_named = refl

close_outcome_example :
    let r = observe_lifecycle disconnected ConnectionDirection.unknown 10 with_event in
    (r.0 ≡ some (closed_admission 1))
    × ((id : ℕ)
        → In id (ids_of r.1.connections) ↔ (In id (ids_of with_event.connections) × (id ≢ 1)))
    × (stored_state 1 r.1.store ≡ some (bytes "CLOSED"))
unfolding with_event
close_outcome_example =
    close_outcome disconnected ConnectionDirection.unknown 10 with_event closing_identity
      opened_entry (reached-IsSound empty_store (bytes "host") (sees_event ∷ []) tt) refl refl
      disconnected_named disconnected_finds
