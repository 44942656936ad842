-- ===== src/Model/Records.antt =====
-- Records of include/neta/model.hpp.
use neta_agent.Prelude.{ℕ, ℤ, Bool, Option, Text}
use neta_agent.Model.Kinds.{
  ConnectionDirection, TcpEndpointKind, EvidenceFidelity, PerformanceState, TrustState,
}

pub record ProcessIdentity : Type 0 where
  pub pid : ℤ
  pub uid : ℕ
  pub start_ticks : Option ℕ
  pub comm : Text
  pub executable_path : Text

pub record TcpSnapshot : Type 0 where
  pub observed_ns : ℕ
  pub state : ℕ
  pub rtt_us : ℕ
  pub rtt_variance_us : ℕ
  pub total_retrans : ℕ
  pub lost : ℕ
  pub unacked : ℕ
  pub snd_cwnd : ℕ
  pub snd_ssthresh : ℕ
  pub snd_mss : ℕ
  pub rcv_mss : ℕ
  pub send_queue_bytes : ℕ
  pub recv_queue_bytes : ℕ
  pub bytes_sent : Option ℕ
  pub bytes_received : Option ℕ
  pub transfer_source : Text
  pub transfer_fidelity : EvidenceFidelity

pub record SocketObservation : Type 0 where
  pub socket_cookie : ℕ
  pub socket_inode : ℕ
  pub network_namespace_inode : Option ℕ
  pub owning_pid : Option ℤ
  pub uid : ℕ
  pub local_ip : Text
  pub local_port : ℕ
  pub remote_ip : Text
  pub remote_port : ℕ
  pub endpoint_kind : TcpEndpointKind
  pub transport : TcpSnapshot

pub record TlsObservation : Type 0 where
  pub target_host : Text
  pub target_port : ℕ
  pub observed_ns : ℕ
  pub tls_version : Text
  pub cipher : Text
  pub alpn : Text
  pub leaf_sha256 : Text
  pub spki_sha256 : Text
  pub subject : Text
  pub issuer : Text
  pub not_before : Text
  pub not_after : Text
  pub chain_valid : Bool
  pub hostname_valid : Bool
  pub sha256 : Text

pub record Baseline : Type 0 where
  pub target_host : Text
  pub target_port : ℕ
  pub rtt_median_us : ℕ
  pub rttvar_median_us : ℕ
  pub accepted_spki_sha256 : Text
  pub accepted_issuer : Text
  pub sample_count : ℕ
  pub created_ns : ℕ
  pub sha256 : Text

pub record AggregateMetrics : Type 0 where
  pub observed_rtt_us : ℕ
  pub observed_rttvar_us : ℕ
  pub retransmission_delta : ℕ

pub record ConnectionSummary : Type 0 where
  pub id : ℤ
  pub first_seen_ns : ℕ
  pub last_seen_ns : ℕ
  pub captured_at_ns : Option ℕ
  pub direction : ConnectionDirection
  pub socket_cookie : ℕ
  pub socket_inode : ℕ
  pub network_namespace_inode : Option ℕ
  pub process : ProcessIdentity
  pub local_ip : Text
  pub local_port : ℕ
  pub remote_ip : Text
  pub remote_port : ℕ
  pub target_host : Text
  pub lifecycle_state : Text
  pub performance : PerformanceState
  pub trust : TrustState
