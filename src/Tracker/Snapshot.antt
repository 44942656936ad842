-- ===== src/Tracker/Snapshot.antt =====
-- `begin_snapshot`, `end_snapshot` and `finish_observation` of src/core/connection_tracker.cpp.
use neta_agent.Prelude.{
  ℕ, suc, Bool, false, ◌&&◌, ◌||◌, not, Text, bytes, List, [], ◌∷◌, ◌++◌, text_eq, leb,
  if◌then◌else◌,
}
use neta_agent.Prelude.Dict.{Dict, erase}
use neta_agent.History.Tables.{HistoryStore}
use neta_agent.History.Connections.{touch_connection}
use neta_agent.Tracker.State.{ConnectionTracker, TrackedConnection, persist, write}
use neta_agent.Tracker.Index.{remove_correlation_identity}
use neta_agent.Tracker.Lifecycle.{snapshot_owned}

abbrev pub reconciliation_miss_limit : ℕ
reconciliation_miss_limit = 3

abbrev pub all_absent : Dict Text TrackedConnection → Dict Text TrackedConnection
all_absent [] = []
all_absent ((i, tracked) ∷ d) = (i, record tracked { present_in_snapshot = false }) ∷ all_absent d

unfoldable pub begin_snapshot : ConnectionTracker → ConnectionTracker
begin_snapshot t = record t { connections = all_absent t.connections }

abbrev pub missed : TrackedConnection → TrackedConnection
missed tracked = record tracked {
  consecutive_snapshot_misses = suc tracked.consecutive_snapshot_misses;
}

module _ (polling_controls_lifecycle lifecycle_evidence_incomplete : Bool) where
  -- `reconcile_absent`, of a connection whose miss is counted
  abbrev pub reconcile_absent : TrackedConnection → Bool
  reconcile_absent tracked =
      polling_controls_lifecycle
      || ((snapshot_owned tracked || lifecycle_evidence_incomplete)
          && leb reconciliation_miss_limit tracked.consecutive_snapshot_misses)

  abbrev pub absent_state : Text
  absent_state =
      if polling_controls_lifecycle
      then bytes "DISAPPEARED"
      else if lifecycle_evidence_incomplete
      then bytes "RECONCILED_ABSENT_AFTER_LIFECYCLE_LOSS"
      else bytes "PREEXISTING_DISAPPEARED"

  unfoldable pub drop_connection : Text → TrackedConnection → ConnectionTracker → ConnectionTracker
  unfolding touch_connection remove_correlation_identity
  drop_connection identity tracked t =
      let touch =
        touch_connection tracked.connection_id tracked.last_seen.observed_ns absent_state in
      let unindexed = remove_correlation_identity identity (persist touch t) in
      record unindexed { connections = erase identity unindexed.connections }

  -- One round of the loop: the ids that it adds to `inactive`, and the tracker.
  unfoldable pub end_entry :
      Text → TrackedConnection → ConnectionTracker → List ℕ × ConnectionTracker
  unfolding drop_connection
  end_entry identity tracked t =
      if tracked.present_in_snapshot
      then ([], write identity (λ c. record c { consecutive_snapshot_misses = 0 }) t)
      else if reconcile_absent (missed tracked)
      then (tracked.connection_id ∷ [], drop_connection identity tracked t)
      else ([], write identity missed t)

  -- The loop, on the entries from the iterator on; no round touches the entries after it.
  unfoldable pub end_from :
      Dict Text TrackedConnection → ConnectionTracker → List ℕ × ConnectionTracker
  unfolding end_entry
  end_from [] t = ([], t)
  end_from ((identity, tracked) ∷ rest) t =
      let (ids, t') = end_entry identity tracked t in
      let (inactive, t'') = end_from rest t' in (ids ++ inactive, t'')

  unfoldable pub end_snapshot : ConnectionTracker → List ℕ × ConnectionTracker
  unfolding end_from
  end_snapshot t = end_from t.connections t

abbrev pub finished_state : Bool → TrackedConnection → Text
finished_state polling_controls_lifecycle tracked =
    if polling_controls_lifecycle && not tracked.present_in_snapshot
    then bytes "DISAPPEARED"
    else bytes "OBSERVATION_ENDED"

unfoldable pub finish_store : Bool → Dict Text TrackedConnection → HistoryStore → HistoryStore
unfolding touch_connection
finish_store polling [] store = store
finish_store polling ((i, tracked) ∷ d) store = finish_store polling d (
    touch_connection tracked.connection_id tracked.last_seen.observed_ns
      (finished_state polling tracked) store)

unfoldable pub finish_observation : Bool → ConnectionTracker → ConnectionTracker
unfolding finish_store
finish_observation polling_controls_lifecycle t =
    persist (finish_store polling_controls_lifecycle t.connections) t
