-- ===== src/Admission/Policy.antt =====
-- src/core/connection_admission_policy.cpp.
use neta_agent.Prelude.{
  ℕ, Bool, true, false, ◌&&◌, ◌||◌, not, Option, none, some, List, Text, ◌==◌, nat_eq, option_eq,
  if◌then◌else◌, is_empty,
}
use neta_agent.Model.{
  ConnectionDirection, direction_eq, ConnectionLifecycleEventType, ConnectionLifecycleEvent,
  NetworkEndpoint, SocketObservation, eligible_connection_seed,
}
use neta_agent.Admission.{ConnectionFilter, matches_filter, contains}

pub data ObservationMode : Type 0 where
  target outbound inbound all : ObservationMode

pub record AdmissionPolicyConfig : Type 0 where
  pub mode : ObservationMode
  pub filter : ConnectionFilter
  pub target_addresses : List Text
  pub target_port : ℕ

pub record AdmissionDecision : Type 0 where
  pub admit : Bool
  pub direction : ConnectionDirection

abbrev pub refused : AdmissionDecision
refused = record { admit = false; direction = ConnectionDirection.unknown }

abbrev pub admitted : ConnectionDirection → AdmissionDecision
admitted d = record { admit = true; direction = d }

unfoldable pub permits : ObservationMode → ConnectionDirection → Bool
permits ObservationMode.target d = d == ConnectionDirection.outbound
permits ObservationMode.outbound d = d == ConnectionDirection.outbound
permits ObservationMode.inbound d = d == ConnectionDirection.inbound
permits ObservationMode.all d =
    d == ConnectionDirection.outbound || d == ConnectionDirection.inbound

unfoldable pub direction_of : ConnectionLifecycleEventType → ConnectionDirection
direction_of ConnectionLifecycleEventType.connect = ConnectionDirection.outbound
direction_of ConnectionLifecycleEventType.accept = ConnectionDirection.inbound
direction_of ConnectionLifecycleEventType.close = ConnectionDirection.unknown

abbrev is_target : ObservationMode → Bool
is_target ObservationMode.target = true
is_target _ = false

abbrev is_all : ObservationMode → Bool
is_all ObservationMode.all = true
is_all _ = false

-- `!port || *port != target_port || !target_addresses.contains(address)`
unfoldable pub off_target : AdmissionPolicyConfig → Option ℕ → Text → Bool
off_target config port address =
    not (port == some config.target_port) || not (contains config.target_addresses address)

-- `evaluate` from its second test on, where the event has both endpoints.
unfoldable pub evaluate_endpoints :
    AdmissionPolicyConfig
    → ConnectionLifecycleEvent
    → NetworkEndpoint
    → NetworkEndpoint
    → AdmissionDecision
unfolding permits direction_of off_target
evaluate_endpoints config event local remote =
    let direction = direction_of event.type in
    if not (permits config.mode direction)
    then refused
    else if is_target config.mode && off_target config remote.port remote.address
    then refused
    else if not (matches_filter config.filter local.port remote.port event.process.comm)
    then refused
    else admitted direction

unfoldable pub with_endpoints :
    AdmissionPolicyConfig
    → ConnectionLifecycleEvent
    → Option NetworkEndpoint
    → Option NetworkEndpoint
    → AdmissionDecision
unfolding evaluate_endpoints
with_endpoints config event none remote = refused
with_endpoints config event (some local) none = refused
with_endpoints config event (some local) (some remote) =
    evaluate_endpoints config event local remote

abbrev is_close : ConnectionLifecycleEventType → Bool
is_close ConnectionLifecycleEventType.close = true
is_close _ = false

unfoldable pub evaluate : AdmissionPolicyConfig → ConnectionLifecycleEvent → AdmissionDecision
unfolding with_endpoints
evaluate config event =
    if is_close event.type
    then admitted ConnectionDirection.unknown
    else if not (eligible_connection_seed event.endpoint_kind)
    then refused
    else with_endpoints config event event.local event.remote

unfoldable pub evaluate_new_socket :
    AdmissionPolicyConfig → SocketObservation → Option Text → AdmissionDecision
unfolding off_target
evaluate_new_socket config socket process_name =
    if not (eligible_connection_seed socket.endpoint_kind)
    then refused
    else if not (is_target config.mode)
        || off_target config (some socket.remote_port) socket.remote_ip
        || not (
            matches_filter config.filter (some socket.local_port) (some socket.remote_port)
              process_name)
    then refused
    else admitted ConnectionDirection.unknown

unfoldable pub evaluate_reconciliation_socket :
    AdmissionPolicyConfig → SocketObservation → Option Text → AdmissionDecision
unfolding off_target
evaluate_reconciliation_socket config socket process_name =
    if not (eligible_connection_seed socket.endpoint_kind)
    then refused
    else if not (
        matches_filter config.filter (some socket.local_port) (some socket.remote_port)
          process_name)
    then refused
    else if is_target config.mode
    then (if off_target config (some socket.remote_port) socket.remote_ip
        then refused
        else admitted ConnectionDirection.unknown)
    else if is_all config.mode
    then admitted ConnectionDirection.unknown
    else refused

unfoldable pub has_process_filters : AdmissionPolicyConfig → Bool
has_process_filters config =
    not (is_empty config.filter.include_processes) || not (is_empty config.filter.exclude_processes)
