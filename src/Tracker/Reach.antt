-- ===== src/Tracker/Reach.antt =====
-- Any history of calls on a tracker, and what holds after it.
use neta_agent.Prelude.{ℕ, ◌≡◌, refl, ap, sym, ◌∙◌, Bool, Text, List, [], ◌∷◌, In, text_eq}
use neta_agent.Prelude.Dict.{Dict, Distinct, keys, swapped}
use neta_agent.Model.{ConnectionLifecycleEvent, ConnectionDirection, SocketObservation}
use neta_agent.History.Tables.{HistoryStore}
use neta_agent.History.Connections.{row_ids}
use neta_agent.Tracker.State.{
  ConnectionTracker, TrackedConnection, ConnectionObservationOrigin, ProcessResolver, new,
}
use neta_agent.Tracker.Lifecycle.{observe_lifecycle}
use neta_agent.Tracker.Socket.{observe_socket}
use neta_agent.Tracker.Snapshot.{
  begin_snapshot, all_absent, end_snapshot, finish_observation, finish_store, finished_state,
}
use neta_agent.Tracker.Invariant.{IsSound, ids_of}
use neta_agent.Tracker.Stored.{same-IsStored}
use neta_agent.Tracker.Sound.{touch-ids, persist-IsSound}
use neta_agent.Tracker.Keeps.{observe_lifecycle-IsSound}
use neta_agent.Tracker.Sampled.{observe_socket-IsSound}
use neta_agent.Tracker.Rounds.{end_snapshot-Ended}

-- The calls that change a tracker; the last number of two of them is the system clock.
pub data Call : Type 0 where
  lifecycle : ConnectionLifecycleEvent → ConnectionDirection → ℕ → Call
  socket :
      ProcessResolver
      → SocketObservation
      → ConnectionDirection
      → Bool
      → ConnectionObservationOrigin
      → ℕ
      → Call
  snapshot_begins : Call
  snapshot_ends : Bool → Bool → Call
  observation_ends : Bool → Call

unfoldable pub called : Call → ConnectionTracker → ConnectionTracker
called (Call.lifecycle event direction captured) t =
    (observe_lifecycle event direction captured t).1
called (Call.socket resolver s direction allow origin captured) t =
    (observe_socket resolver s direction allow origin captured t).1
called Call.snapshot_begins t = begin_snapshot t
called (Call.snapshot_ends polling incomplete) t = (end_snapshot polling incomplete t).1
called (Call.observation_ends polling) t = finish_observation polling t

unfoldable pub run : List Call → ConnectionTracker → ConnectionTracker
run [] t = t
run (c ∷ calls) t = run calls (called c t)

keys-all_absent : (d : Dict Text TrackedConnection) → keys (all_absent d) ≡ keys d
keys-all_absent [] = refl
keys-all_absent ((i, c) ∷ d) = ap (λ ks. i ∷ ks) (keys-all_absent d)

ids-all_absent : (d : Dict Text TrackedConnection) → ids_of (all_absent d) ≡ ids_of d
ids-all_absent [] = refl
ids-all_absent ((i, c) ∷ d) = ap (λ ids. c.connection_id ∷ ids) (ids-all_absent d)

begin_snapshot-IsSound : (t : ConnectionTracker) → IsSound t → IsSound (begin_snapshot t)
unfolding begin_snapshot
begin_snapshot-IsSound t s = record {
  indexed = record {
    distinct = rw (keys-all_absent t.connections) s.indexed.distinct;
    same_keys = s.indexed.same_keys ∙ sym (keys-all_absent t.connections);
    inverted = s.indexed.inverted;
  };
  stored =
      same-IsStored t.store t.store t.connections _ (ids-all_absent t.connections) refl s.stored;
}

finish-ids :
    (polling : Bool) (d : Dict Text TrackedConnection) (store : HistoryStore)
    → row_ids (finish_store polling d store).connections ≡ row_ids store.connections
unfolding finish_store
finish-ids polling [] store = refl
finish-ids polling ((i, c) ∷ d) store =
    finish-ids polling d _
    ∙ touch-ids c.connection_id c.last_seen.observed_ns (finished_state polling c) store

pub called-IsSound : (c : Call) (t : ConnectionTracker) → IsSound t → IsSound (called c t)
unfolding called finish_observation
called-IsSound (Call.lifecycle event direction captured) t s =
    observe_lifecycle-IsSound event direction captured t s
called-IsSound (Call.socket resolver observed direction allow origin captured) t s =
    observe_socket-IsSound resolver observed direction allow origin captured t s
called-IsSound Call.snapshot_begins t s = begin_snapshot-IsSound t s
called-IsSound (Call.snapshot_ends polling incomplete) t s =
    (end_snapshot-Ended polling incomplete t s).sound
called-IsSound (Call.observation_ends polling) t s =
    persist-IsSound (finish_store polling t.connections) t (finish-ids polling t.connections) s

new-IsSound :
    (store : HistoryStore) (host : Text)
    → Distinct (row_ids store.connections)
    → IsSound (new store host)
unfolding new
new-IsSound store host d = record {
  indexed = record { distinct = tt; same_keys = refl; inverted = refl };
  stored = record { distinct_rows = d; distinct_ids = tt; stored = λ id m. elim m [ ] };
}

run-IsSound : (calls : List Call) (t : ConnectionTracker) → IsSound t → IsSound (run calls t)
unfolding run
run-IsSound [] t s = s
run-IsSound (c ∷ calls) t s = run-IsSound calls (called c t) (called-IsSound c t s)

-- A tracker made over a store whose row ids are distinct is sound after any history of calls.
pub reached-IsSound :
    (store : HistoryStore) (host : Text) (calls : List Call)
    → Distinct (row_ids store.connections)
    → IsSound (run calls (new store host))
reached-IsSound store host calls d = run-IsSound calls (new store host) (new-IsSound store host d)

-- A tracker made over a store whose row ids are distinct has, after any history of calls, each
-- identity once; its inverse index has exactly the identities that are tracked, and its index exactly
-- the inverse entries; no two connections share an id, each has a row of the store with its id, and
-- no two rows share one.
pub reached_invariant :
    (store : HistoryStore) (host : Text) (calls : List Call)
    → Distinct (row_ids store.connections)
    → let t = run calls (new store host) in
      Distinct (keys t.connections)
      × (keys t.correlation_by_identity ≡ keys t.connections)
      × (t.correlation_index ≡ swapped t.correlation_by_identity)
      × Distinct (ids_of t.connections)
      × ((id : ℕ) → In id (ids_of t.connections) → In id (row_ids t.store.connections))
      × Distinct (row_ids t.store.connections)
reached_invariant store host calls d =
    let s = reached-IsSound store host calls d in
    (
      s.indexed.distinct, s.indexed.same_keys, s.indexed.inverted, s.stored.distinct_ids,
      s.stored.stored, s.stored.distinct_rows,
    )
