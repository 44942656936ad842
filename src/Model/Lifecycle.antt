-- ===== src/Model/Lifecycle.antt =====
-- The events of include/neta/lifecycle.hpp, and `eligible_connection_seed` of src/core/tcp_state.cpp.
use neta_agent.Prelude.{ℕ, ℤ, Bool, true, false, Option, Text, ◌≡◌, ◌↔◌, arith, nat_beq, EqTest}
use neta_agent.Model.Kinds.{TcpEndpointKind}

pub data ConnectionLifecycleEventType : Type 0 where
  connect accept close : ConnectionLifecycleEventType

abbrev pub event_type_index : ConnectionLifecycleEventType → ℕ
event_type_index ConnectionLifecycleEventType.connect = 0
event_type_index ConnectionLifecycleEventType.accept = 1
event_type_index ConnectionLifecycleEventType.close = 2

abbrev pub event_type_beq : ConnectionLifecycleEventType → ConnectionLifecycleEventType → Bool
event_type_beq a b = nat_beq (event_type_index a) (event_type_index b)

pub event_type_beq_iff :
    (a b : ConnectionLifecycleEventType) → (event_type_beq a b ≡ true) ↔ (a ≡ b)
event_type_beq_iff a b = ground arith

instance abbrev pub event_type_eq : EqTest ConnectionLifecycleEventType
event_type_eq = record { test = event_type_beq; test_iff = event_type_beq_iff }

pub data NetworkAddressFamily : Type 0 where
  unknown ipv4 ipv6 : NetworkAddressFamily

pub data TransportProtocol : Type 0 where
  unknown tcp : TransportProtocol

pub data LifecycleProvenance : Type 0 where
  ebpf_core windows_etw deterministic_test : LifecycleProvenance

pub record NetworkEndpoint : Type 0 where
  pub address : Text
  pub port : Option ℕ

pub record LifecycleProcessIds : Type 0 where
  pub pid : Option ℤ
  pub tgid : Option ℤ

pub record ProcessNamespaceIdentity : Type 0 where
  pub device : ℕ
  pub inode : ℕ

pub record LifecycleProcessContext : Type 0 where
  pub agent_visible : LifecycleProcessIds
  pub kernel : LifecycleProcessIds
  pub agent_pid_namespace : Option ProcessNamespaceIdentity
  pub uid : Option ℕ
  pub start_ticks : Option ℕ
  pub comm : Option Text

pub record ConnectionLifecycleEvent : Type 0 where
  pub type : ConnectionLifecycleEventType
  pub timestamp_ns : ℕ
  pub provenance : LifecycleProvenance
  pub process : LifecycleProcessContext
  pub network_namespace_inode : Option ℕ
  pub address_family : NetworkAddressFamily
  pub protocol : TransportProtocol
  pub endpoint_kind : TcpEndpointKind
  pub local : Option NetworkEndpoint
  pub remote : Option NetworkEndpoint
  pub socket_cookie : Option ℕ
  pub platform_connection_id : Option ℕ
  pub tcp_state : Option ℕ

abbrev pub eligible_connection_seed : TcpEndpointKind → Bool
eligible_connection_seed TcpEndpointKind.connection = true
eligible_connection_seed _ = false
