-- ===== src/Tracker/State.antt =====
-- The state of `ConnectionTracker` and the records of include/neta/connection_tracker.hpp.
use neta_agent.Prelude.{ℕ, ℤ, Bool, Option, none, some, Text, [], text_eq, ◌>>=◌}
use neta_agent.Prelude.Dict.{Dict, lookup, update}
use neta_agent.Model.{
  TcpSnapshot, EvidenceFidelity, ConnectionDirection, ProcessIdentity, SocketObservation,
}
use neta_agent.History.Tables.{HistoryStore}

pub data ConnectionObservationOrigin : Type 0 where
  lifecycle_exact lifecycle_plus_snapshot snapshot_preexisting : ConnectionObservationOrigin
  snapshot_reconciled_after_lifecycle_loss : ConnectionObservationOrigin

pub record ConnectionAdmission : Type 0 where
  pub connection_id : ℕ
  pub newly_admitted : Bool
  pub closed : Bool
  pub direction_promoted : Bool
  pub direction : ConnectionDirection

-- The count of misses does not reach 2 ^ 64.
pub record TrackedConnection : Type 0 where
  pub connection_id : ℕ
  pub last_seen : TcpSnapshot
  pub last_persisted : TcpSnapshot
  pub last_persist_ns : ℕ
  pub has_transport_sample : Bool
  pub present_in_snapshot : Bool
  pub consecutive_snapshot_misses : ℕ
  pub process_pid : Option ℤ
  pub process_start_ticks : Option ℕ
  pub origin : ConnectionObservationOrigin

-- `platform::ProcessResolver`: its two look-ups, of an inode and of a socket.
pub record ProcessResolver : Type 0 where
  pub resolve_inode : ℕ → Option ProcessIdentity
  pub resolve_socket : SocketObservation → Option ProcessIdentity

-- The tracker alone writes to the store that it refers to. The maps list their entries in the order of
-- insertion, which the code leaves open.
pub record ConnectionTracker : Type 0 where
  pub store : HistoryStore
  pub target_host : Text
  pub connections : Dict Text TrackedConnection
  pub correlation_index : Dict Text Text
  pub correlation_by_identity : Dict Text Text

unfoldable pub new : HistoryStore → Text → ConnectionTracker
new store target_host = record {
  store = store;
  target_host = target_host;
  connections = [];
  correlation_index = [];
  correlation_by_identity = [];
}

-- A write to the store.
abbrev pub persist : (HistoryStore → HistoryStore) → ConnectionTracker → ConnectionTracker
persist f t = record t { store = f t.store }

-- A write through an iterator of `connections_`.
abbrev pub write :
    Text → (TrackedConnection → TrackedConnection) → ConnectionTracker → ConnectionTracker
write identity f t = record t { connections = update identity f t.connections }

-- `TcpSnapshot{}`
abbrev pub empty_snapshot : TcpSnapshot
empty_snapshot = record {
  observed_ns = 0;
  state = 0;
  rtt_us = 0;
  rtt_variance_us = 0;
  total_retrans = 0;
  lost = 0;
  unacked = 0;
  snd_cwnd = 0;
  snd_ssthresh = 0;
  snd_mss = 0;
  rcv_mss = 0;
  send_queue_bytes = 0;
  recv_queue_bytes = 0;
  bytes_sent = none;
  bytes_received = none;
  transfer_source = [];
  transfer_fidelity = EvidenceFidelity.contextual;
}

-- `connections_.find`; an iterator is its identity and the connection.
abbrev pub find_entry : Text → ConnectionTracker → Option (Text × TrackedConnection)
find_entry identity t = lookup identity t.connections >>= λ tracked. some (identity, tracked)
