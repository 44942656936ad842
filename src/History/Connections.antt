-- ===== src/History/Connections.antt =====
-- What src/core/history_store.cpp and src/core/history_reconciliation.cpp do to the rows of
-- connections, samples and events.
use neta_agent.Prelude.{
  ℕ, Bool, false, ◌&&◌, Option, none, some, Text, bytes, List, [], ◌∷◌, ◌++◌, ◌==◌, nat_eq, text_eq,
  any, if◌then◌else◌, length, keep,
}
use neta_agent.Prelude.Dict.{Dict, erase}
use neta_agent.Model.{
  ConnectionDirection, direction_eq, ProcessIdentity, SocketObservation, TcpSnapshot,
  ConnectionLifecycleEvent, event_type_eq,
}
use neta_agent.History.Tables.{
  HistoryStore, ProcessRow, ConnectionRow, LifecycleEventRow, PendingTls, next_rowid,
}
use neta_agent.History.Processes.{upsert_process}

abbrev pub row_ids : List ConnectionRow → List ℕ
row_ids [] = []
row_ids (r ∷ rows) = r.id ∷ row_ids rows

-- An UPDATE: every row that fits is written.
abbrev pub update_rows :
    (ConnectionRow → Bool)
    → (ConnectionRow → ConnectionRow)
    → List ConnectionRow
    → List ConnectionRow
update_rows fits f [] = []
update_rows fits f (r ∷ rows) = (if fits r then f r else r) ∷ update_rows fits f rows

-- `INSERT OR REPLACE` of the observation that is pending for this host and port.
unfoldable pub link_pending_tls : Option PendingTls → ℕ → Text → ℕ → Dict ℕ ℕ → Dict ℕ ℕ
link_pending_tls none id host port links = links
link_pending_tls (some tls) id host port links =
    if (tls.host == host) && (tls.port == port) then (id, tls.id) ∷ erase id links else links

abbrev pub process_of_connection :
    Option ProcessIdentity → List ProcessRow → Option ℕ × List ProcessRow
process_of_connection none rows = (none, rows)
process_of_connection (some p) rows = let (id, rows') = upsert_process p rows in (some id, rows')

-- `captured_ns` is the system clock.
unfoldable pub begin_connection :
    SocketObservation
    → Option ProcessIdentity
    → Text
    → ℕ
    → ConnectionDirection
    → ℕ
    → HistoryStore
    → ℕ × HistoryStore
unfolding upsert_process link_pending_tls
begin_connection s process target_host first_seen_ns direction captured_ns store =
    let (process_id, processes) = process_of_connection process store.processes in
    let id = next_rowid (row_ids store.connections) in
    (
      id,
      record store {
        processes = processes;
        connections =
            store.connections
            ++ record {
              id = id;
              socket_cookie = s.socket_cookie;
              socket_inode = s.socket_inode;
              process_id = process_id;
              local_ip = s.local_ip;
              local_port = s.local_port;
              remote_ip = s.remote_ip;
              remote_port = s.remote_port;
              target_host = target_host;
              lifecycle_state = bytes "ACTIVE";
              first_seen_ns = first_seen_ns;
              last_seen_ns = first_seen_ns;
              captured_at_ns = captured_ns;
              direction = direction;
              network_namespace_inode = s.network_namespace_inode;
            }
              ∷ [];
        tls_links = link_pending_tls store.pending_tls id target_host s.remote_port store.tls_links;
      },
    )

unfoldable pub touch_connection : ℕ → ℕ → Text → HistoryStore → HistoryStore
touch_connection id last_seen_ns lifecycle_state store = record store {
  connections =
      update_rows (λ r. r.id == id)
        (λ r. record r { last_seen_ns = last_seen_ns; lifecycle_state = lifecycle_state })
        store.connections;
}

-- The number of rows that an UPDATE changed, `sqlite3_changes`.
abbrev pub changes : (ConnectionRow → Bool) → List ConnectionRow → ℕ
changes fits rows = length (keep fits rows)

abbrev pub without_cookie : ℕ → ConnectionRow → Bool
without_cookie id r = (r.id == id) && (r.socket_cookie == 0)

unfoldable pub update_socket_cookie : ℕ → ℕ → HistoryStore → Bool × HistoryStore
update_socket_cookie id socket_cookie store = (
  changes (without_cookie id) store.connections == 1,
  record store {
    connections =
        update_rows (without_cookie id) (λ r. record r { socket_cookie = socket_cookie })
          store.connections;
  },
)

abbrev pub without_direction : ℕ → ConnectionRow → Bool
without_direction id r = (r.id == id) && (r.direction == ConnectionDirection.unknown)

unfoldable pub promote_connection_direction :
    ℕ → ConnectionDirection → HistoryStore → Bool × HistoryStore
promote_connection_direction id direction store =
    if direction == ConnectionDirection.unknown then (false, store) else (
      changes (without_direction id) store.connections == 1,
      record store {
        connections =
            update_rows (without_direction id) (λ r. record r { direction = direction })
              store.connections;
      },
    )

unfoldable pub add_tcp_sample : ℕ → TcpSnapshot → HistoryStore → HistoryStore
add_tcp_sample id s store = record store {
  transport_samples =
      store.transport_samples
      ++ record {
        connection_id = id;
        observed_ns = s.observed_ns;
        tcp_state = s.state;
        rtt_us = s.rtt_us;
        rttvar_us = s.rtt_variance_us;
        total_retrans = s.total_retrans;
        lost = s.lost;
        unacked = s.unacked;
        snd_cwnd = s.snd_cwnd;
        snd_ssthresh = s.snd_ssthresh;
        snd_mss = s.snd_mss;
        rcv_mss = s.rcv_mss;
        send_queue_bytes = s.send_queue_bytes;
        recv_queue_bytes = s.recv_queue_bytes;
      }
        ∷ [];
}

-- UNIQUE(connection_id,event_type,observed_ns)
abbrev pub same_stored_event : ℕ → ConnectionLifecycleEvent → LifecycleEventRow → Bool
same_stored_event id event r =
    (r.connection_id == id) && (r.event_type == event.type) && (r.observed_ns == event.timestamp_ns)

-- `INSERT OR IGNORE`
unfoldable pub add_lifecycle_event : ℕ → ConnectionLifecycleEvent → HistoryStore → HistoryStore
add_lifecycle_event id event store = record store {
  lifecycle_events =
      if any (same_stored_event id event) store.lifecycle_events
      then store.lifecycle_events
      else store.lifecycle_events
        ++ record {
          connection_id = id;
          event_type = event.type;
          observed_ns = event.timestamp_ns;
          provenance = event.provenance;
          process = event.process;
          network_namespace_inode = event.network_namespace_inode;
          address_family = event.address_family;
          protocol = event.protocol;
          local = event.local;
          remote = event.remote;
          socket_cookie = event.socket_cookie;
          tcp_state = event.tcp_state;
        }
          ∷ [];
}
