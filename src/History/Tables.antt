-- ===== src/History/Tables.antt =====
-- Rows and tables of src/core/history_store.cpp, from the schema in `initialize_schema`.
use neta_agent.Prelude.{ℕ, suc, ℤ, Option, Text, List, [], ◌∷◌, max}
use neta_agent.Prelude.Dict.{Dict}
use neta_agent.Model.{
  ConnectionDirection, ConnectionLifecycleEventType, LifecycleProvenance, LifecycleProcessContext,
  NetworkAddressFamily, TransportProtocol, NetworkEndpoint,
}

-- Table `processes`; `start_ticks` is negative where no stable start time is known.
pub record ProcessRow : Type 0 where
  pub id : ℕ
  pub pid : ℤ
  pub uid : ℕ
  pub start_ticks : ℤ
  pub start_ticks_observed : Option ℕ
  pub comm : Text
  pub executable_path : Text

-- Table `connections`; the columns `performance_state` and `trust_state` are written by the verdicts.
pub record ConnectionRow : Type 0 where
  pub id : ℕ
  pub socket_cookie : ℕ
  pub socket_inode : ℕ
  pub process_id : Option ℕ
  pub local_ip : Text
  pub local_port : ℕ
  pub remote_ip : Text
  pub remote_port : ℕ
  pub target_host : Text
  pub lifecycle_state : Text
  pub first_seen_ns : ℕ
  pub last_seen_ns : ℕ
  pub captured_at_ns : ℕ
  pub direction : ConnectionDirection
  pub network_namespace_inode : Option ℕ

-- Table `transport_samples`, less its own id and the column `sha256`, a digest of the others.
pub record TransportSampleRow : Type 0 where
  pub connection_id : ℕ
  pub observed_ns : ℕ
  pub tcp_state : ℕ
  pub rtt_us : ℕ
  pub rttvar_us : ℕ
  pub total_retrans : ℕ
  pub lost : ℕ
  pub unacked : ℕ
  pub snd_cwnd : ℕ
  pub snd_ssthresh : ℕ
  pub snd_mss : ℕ
  pub rcv_mss : ℕ
  pub send_queue_bytes : ℕ
  pub recv_queue_bytes : ℕ

-- Table `lifecycle_events`, less its own id; the columns of the process and of the ends stand together.
pub record LifecycleEventRow : Type 0 where
  pub connection_id : ℕ
  pub event_type : ConnectionLifecycleEventType
  pub observed_ns : ℕ
  pub provenance : LifecycleProvenance
  pub process : LifecycleProcessContext
  pub network_namespace_inode : Option ℕ
  pub address_family : NetworkAddressFamily
  pub protocol : TransportProtocol
  pub local : Option NetworkEndpoint
  pub remote : Option NetworkEndpoint
  pub socket_cookie : Option ℕ
  pub tcp_state : Option ℕ

-- The members `pending_tls_id_`, `pending_tls_host_` and `pending_tls_port_`.
pub record PendingTls : Type 0 where
  pub id : ℕ
  pub host : Text
  pub port : ℕ

-- `tls_links` is the table `connection_tls_observations` by its key `connection_id`.
pub record HistoryStore : Type 0 where
  pub processes : List ProcessRow
  pub connections : List ConnectionRow
  pub transport_samples : List TransportSampleRow
  pub lifecycle_events : List LifecycleEventRow
  pub pending_tls : Option PendingTls
  pub tls_links : Dict ℕ ℕ

-- The largest of some row ids; the ids start at 1.
abbrev pub largest : List ℕ → ℕ
largest [] = 0
largest (i ∷ ids) = max i (largest ids)

-- The id that an insertion gives, `sqlite3_last_insert_rowid`.
abbrev pub next_rowid : List ℕ → ℕ
next_rowid ids = suc (largest ids)
