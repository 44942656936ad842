-- ===== src/Tracker/Keys.antt =====
-- Identities, tuples and correlation keys of src/core/connection_tracker.cpp, and when a sample is
-- worth a row.
use neta_agent.Prelude.{
  ℕ, ◌+◌, ◌-◌, ◌*◌, ◌%◌, ◌^◌, negsuc, int_to_string, Bool, ◌&&◌, ◌||◌, not, Option, none, some,
  Text, bytes, [], ◌++◌, ◌==◌, nat_eq, if◌then◌else◌, ltb, leb, value_or, ◌>>=◌,
}
use neta_agent.Prelude.Decimal.{to_string, max_u64}
use neta_agent.Model.{
  TcpSnapshot, ProcessIdentity, SocketObservation, ConnectionLifecycleEvent, NetworkEndpoint,
}

unfoldable pub valid_cookie : ℕ → Bool
valid_cookie cookie = not (cookie == 0) && not (cookie == max_u64)

-- `|a - b| / a >= percent / 100` and `|a - b| >= least`, for the ratios 0.25 and 0.50: the quotient of
-- two 32-bit numbers is either at least the ratio or farther below it than a double rounds.
unfoldable pub is_material : ℕ → ℕ → ℕ → ℕ → Bool
is_material a b percent least =
    let difference = if ltb b a then a - b else b - a in
    leb least difference && ((a == 0) || leb (percent * a) (100 * difference))

unfoldable pub meaningful_change : TcpSnapshot → TcpSnapshot → ℕ → Bool
unfolding is_material
meaningful_change previous current last_persist_ns =
    not (current.total_retrans == previous.total_retrans)
    || not (current.lost == previous.lost)
    || not (current.state == previous.state)
    || is_material previous.rtt_us current.rtt_us 25 2000
    || is_material previous.rtt_variance_us current.rtt_variance_us 50 2000
    || leb 1000000000 ((current.observed_ns + 2 ^ 64 - last_persist_ns) % 2 ^ 64)

abbrev namespace_text : Option ℕ → Text
namespace_text inode = bytes "n:" ++ to_string (value_or inode 0) ++ bytes "|"

-- `tuple_for(local, remote, network_namespace_inode)`
unfoldable pub tuple_for : NetworkEndpoint → NetworkEndpoint → Option ℕ → Text
tuple_for local remote network_namespace_inode =
    namespace_text network_namespace_inode
    ++ local.address
    ++ bytes ":"
    ++ to_string (value_or local.port 0)
    ++ bytes "->"
    ++ remote.address
    ++ bytes ":"
    ++ to_string (value_or remote.port 0)

-- `tuple_for(socket)`
unfoldable pub tuple_for_socket : SocketObservation → Text
tuple_for_socket socket =
    namespace_text socket.network_namespace_inode
    ++ socket.local_ip
    ++ bytes ":"
    ++ to_string socket.local_port
    ++ bytes "->"
    ++ socket.remote_ip
    ++ bytes ":"
    ++ to_string socket.remote_port

unfoldable pub process_from : ConnectionLifecycleEvent → Option ProcessIdentity
process_from event = event.process.agent_visible.tgid >>= λ tgid. some (record {
  pid = tgid;
  uid = value_or event.process.uid 0;
  start_ticks = event.process.start_ticks >>= λ start. if start == 0 then none else some start;
  comm = value_or event.process.comm [];
  executable_path = [];
})

-- `event.socket_cookie && valid_cookie(*event.socket_cookie)`
abbrev pub usable_cookie : ConnectionLifecycleEvent → Option ℕ
usable_cookie event =
    event.socket_cookie >>= λ cookie. if valid_cookie cookie then some cookie else none

abbrev pub cookie_identity : ℕ → Text
cookie_identity cookie = bytes "c:" ++ to_string cookie

abbrev process_text : ConnectionLifecycleEvent → Text
process_text event = int_to_string (value_or event.process.agent_visible.tgid (negsuc 0))

abbrev platform_identity : ConnectionLifecycleEvent → ℕ → Text
platform_identity event id =
    bytes "p:"
    ++ process_text event
    ++ bytes "|"
    ++ to_string (value_or event.process.start_ticks 0)
    ++ bytes "|"
    ++ to_string id

abbrev flow_identity : ConnectionLifecycleEvent → NetworkEndpoint → NetworkEndpoint → Text
flow_identity event local remote =
    bytes "f:"
    ++ to_string (value_or event.network_namespace_inode 0)
    ++ bytes "|"
    ++ process_text event
    ++ bytes "|"
    ++ tuple_for local remote event.network_namespace_inode
    ++ bytes "|"
    ++ to_string event.timestamp_ns

-- `identity_for(event)`
unfoldable pub identity_for : ConnectionLifecycleEvent → Option Text
unfolding valid_cookie tuple_for
identity_for event = elim (usable_cookie event) [
  | some cookie ↦ some (cookie_identity cookie)
  | none ↦ elim event.platform_connection_id [
    | some id ↦ some (platform_identity event id)
    | none ↦
        event.local >>= λ local. event.remote >>= λ remote. some (flow_identity event local remote)
  ]
]

-- `identity_for(socket)`
unfoldable pub identity_for_socket : SocketObservation → Text
unfolding valid_cookie tuple_for_socket
identity_for_socket socket =
    if valid_cookie socket.socket_cookie
    then cookie_identity socket.socket_cookie
    else bytes "i:" ++ to_string socket.socket_inode ++ bytes "|" ++ tuple_for_socket socket

unfoldable pub correlation_key : Text → Option ProcessIdentity → Bool → Text
correlation_key tuple none require_process_start = tuple
correlation_key tuple (some process) require_process_start =
    if require_process_start
    then tuple
      ++ bytes "|pid:"
      ++ int_to_string process.pid
      ++ bytes "|start:"
      ++ to_string (value_or process.start_ticks 0)
    else tuple
