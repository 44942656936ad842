-- ===== src/Examples/Connections.antt =====
-- Admission, scheduling and the names of enumerations at concrete inputs.
use neta_agent.Prelude.{
  ℕ, ◌≡◌, ◌≢◌, ◌↔◌, inl, refl, none, some, List, [], ◌∷◌, bytes, In, arith, pos, ap, int_beq_iff,
  int_eq,
}
use neta_agent.Model.{
  ConnectionDirection, TcpEndpointKind, EvidenceFidelity, ConnectionLifecycleEvent,
  ConnectionLifecycleEventType, LifecycleProvenance, NetworkAddressFamily, TransportProtocol,
  SocketObservation,
}
use neta_agent.Admission.{ConnectionFilter}
use neta_agent.Admission.Policy.{ObservationMode, AdmissionPolicyConfig, admitted, evaluate}
use neta_agent.Admission.Lifecycle.{Admissible, evaluate_iff}
use neta_agent.Scheduler.{
  insert, EvidenceScheduler, new, connection_admitted, connection_closed, transport_sampled,
  take_route_observations_due,
}
use neta_agent.Scheduler.Routes.{step, Op, run, reported, routes_once, routes_of_admitted}

abbrev ssh_only : ConnectionFilter
ssh_only = record {
  local_port = none;
  remote_port = some 22;
  include_processes = bytes "ssh" ∷ [];
  exclude_processes = [];
}

abbrev outbound_ssh : AdmissionPolicyConfig
outbound_ssh = record {
  mode = ObservationMode.outbound;
  filter = ssh_only;
  target_addresses = [];
  target_port = 0;
}

abbrev pub connect : ConnectionLifecycleEvent
connect = record {
  type = ConnectionLifecycleEventType.connect;
  timestamp_ns = 1;
  provenance = LifecycleProvenance.deterministic_test;
  process = record {
    agent_visible = record { pid = none; tgid = none };
    kernel = record { pid = none; tgid = none };
    agent_pid_namespace = none;
    uid = none;
    start_ticks = none;
    comm = some (bytes "ssh");
  };
  network_namespace_inode = none;
  address_family = NetworkAddressFamily.ipv4;
  protocol = TransportProtocol.tcp;
  endpoint_kind = TcpEndpointKind.connection;
  local = some (record { address = bytes "10.0.0.1"; port = some 5000 });
  remote = some (record { address = bytes "10.0.0.2"; port = some 22 });
  socket_cookie = none;
  platform_connection_id = none;
  tcp_state = none;
}

abbrev opens : ConnectionLifecycleEventType → ℕ
opens ConnectionLifecycleEventType.close = 0
opens _ = 1

connect_opens : ConnectionLifecycleEventType.connect ≢ ConnectionLifecycleEventType.close
connect_opens e = omega (arith, ap opens e)

evaluate_iff_example :
    (evaluate outbound_ssh connect ≡ admitted ConnectionDirection.outbound)
    ↔ Admissible outbound_ssh connect connect.local connect.remote ConnectionDirection.outbound
evaluate_iff_example = evaluate_iff outbound_ssh connect ConnectionDirection.outbound connect_opens

abbrev pub socket : SocketObservation
socket = record {
  socket_cookie = 1;
  socket_inode = 2;
  network_namespace_inode = none;
  owning_pid = none;
  uid = 0;
  local_ip = bytes "10.0.0.1";
  local_port = 5000;
  remote_ip = bytes "10.0.0.2";
  remote_port = 22;
  endpoint_kind = TcpEndpointKind.connection;
  transport = record {
    observed_ns = 0;
    state = 1;
    rtt_us = 0;
    rtt_variance_us = 0;
    total_retrans = 0;
    lost = 0;
    unacked = 0;
    snd_cwnd = 0;
    snd_ssthresh = 0;
    snd_mss = 0;
    rcv_mss = 0;
    send_queue_bytes = 0;
    recv_queue_bytes = 0;
    bytes_sent = none;
    bytes_received = none;
    transfer_source = [];
    transfer_fidelity = EvidenceFidelity.contextual;
  };
}

abbrev started : EvidenceScheduler
started = new 1000 50

abbrev begun : List Op
begun = Op.admit (pos 7) ∷ Op.sample 5 ∷ []

seven_due : In (pos 7) (take_route_observations_due (run (new 1000 50) begun)).0
unfolding take_route_observations_due run step connection_admitted transport_sampled insert new
seven_due = inl refl

routes_once_example :
    let s = run (new 1000 50) begun in
    In (pos 7) s.active
    × ¬ (In (pos 7) (reported (take_route_observations_due s).1 (Op.sample 6 ∷ Op.take ∷ [])))
routes_once_example =
    routes_once 1000 50 begun (Op.sample 6 ∷ Op.take ∷ []) (pos 7) seven_due (λ m. m)

abbrev between : List Op
between = Op.admit (pos 8) ∷ Op.close (pos 9) ∷ []

abbrev since : List Op
since = Op.sample 9 ∷ Op.take ∷ Op.admit (pos 8) ∷ []

routes_of_admitted_example :
    In
      (pos 7)
      (take_route_observations_due
        (transport_sampled (run (connection_admitted started (pos 7)) between) 9)).0
    × ¬ (
        In (pos 7) (
          reported
            (connection_closed (run (connection_admitted started (pos 7)) since) (pos 7))
            (Op.sample 10 ∷ Op.take ∷ [])))
routes_of_admitted_example =
    routes_of_admitted started between since (Op.sample 10 ∷ Op.take ∷ []) (pos 7) 9
      (λ e. ground (arith, int_beq_iff (pos 9) (pos 7), e), tt) (λ m. m)
