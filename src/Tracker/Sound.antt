-- ===== src/Tracker/Sound.antt =====
-- Every operation of the tracker keeps its invariant.
use neta_agent.Prelude.{
  ℕ, ◌≡◌, ◌⊎◌, refl, inl, inr, ap, sym, ◌∙◌, false, Option, none, some, Text, bytes, [], ◌∷◌, ◌++◌,
  arith, text_eq, nat_eq, Bool-cases, Option-cases, bind-cases, ◌>>=◌, ◌||◌, if◌then◌else◌,
}
use neta_agent.Prelude.Dict.{lookup, has_key, erase, keys-update, emplace}
use neta_agent.Model.{
  ConnectionLifecycleEvent, ConnectionDirection, NetworkEndpoint, ProcessIdentity,
}
use neta_agent.History.Tables.{HistoryStore, next_rowid}
use neta_agent.History.Connections.{
  row_ids, touch_connection, promote_connection_direction, without_direction, add_lifecycle_event,
}
use neta_agent.Tracker.State.{ConnectionTracker, TrackedConnection, find_entry, write, persist}
use neta_agent.Tracker.Index.{
  unique_active_correlation_match, index_correlation, remove_correlation_identity,
}
use neta_agent.Tracker.Lifecycle.{
  existing_for, forward_match, reverse_match, or_else, is_close, close_connection,
  enrich_connection, attributed, event_key, snapshot_owned,
}
use neta_agent.Tracker.Invariant.{IsSound, remove-IsIndexed, emplace-IsIndexed, ids_of}
use neta_agent.Tracker.Stored.{
  row_ids-update, ids-update, same-IsStored, erase-IsStored, emplace-IsStored,
}
use neta_agent.Tracker.Rekey.{IsFound, find_entry-IsFound}

or_else-cases :
    {A : Type 0} (a b : Option A) (e : A)
    → or_else a b ≡ some e
    → (a ≡ some e) ⊎ ((a ≡ none) × (b ≡ some e))
or_else-cases none b e h = inr (refl, h)
or_else-cases (some c) b e h = inl h

forward_match-IsFound :
    (event : ConnectionLifecycleEvent) (local remote : NetworkEndpoint) (t : ConnectionTracker)
    (e : Text × TrackedConnection)
    → forward_match event local remote t ≡ some e
    → IsFound t e
unfolding forward_match
forward_match-IsFound event local remote t e h =
    let (i, unique, rest) =
      bind-cases (unique_active_correlation_match (event_key event local remote) t)
        (λ correlated. find_entry correlated t >>= λ candidate.
          if is_close event || snapshot_owned candidate.1 then some candidate else none)
        e h in
    let (candidate, entry, test) =
      bind-cases (find_entry i t)
        (λ candidate. if is_close event || snapshot_owned candidate.1 then some candidate else none)
        e rest in
    let same : candidate ≡ e = ground (arith, test) in
    find_entry-IsFound i t e (entry ∙ ap some same)

reverse_match-IsFound :
    (event : ConnectionLifecycleEvent) (local remote : NetworkEndpoint) (t : ConnectionTracker)
    (e : Text × TrackedConnection)
    → reverse_match event local remote t ≡ some e
    → IsFound t e
unfolding reverse_match
reverse_match-IsFound event local remote t e h = elim (Bool-cases (is_close event)) [
  | inr open_event ↦ cc
  | inl closes ↦
      let (i, unique, entry) =
        bind-cases (unique_active_correlation_match (event_key event remote local) t)
          (λ correlated. find_entry correlated t) e (rw closes at h) in
      find_entry-IsFound i t e entry
]

pub existing_for-IsFound :
    (event : ConnectionLifecycleEvent) (identity : Text) (t : ConnectionTracker)
    (e : Text × TrackedConnection)
    → existing_for event identity t ≡ some e
    → IsFound t e × ((e.0 ≡ identity) ⊎ (has_key identity t.connections ≡ false))
unfolding existing_for
existing_for-IsFound event identity t e h = elim (Option-cases (lookup identity t.connections)) [
  | inr (c, found) ↦ let same : e ≡ (identity, c) = cc (rw found at h) in rw same (found, inl refl)
  | inl missing ↦
      let (local, here, rest) = bind-cases event.local _ e (rw missing at h) in
      let (remote, there, either) = bind-cases event.remote _ e rest in
      let found : IsFound t e =
        elim (or_else-cases (forward_match event local remote t) _ e either) [
          | inl forward ↦ forward_match-IsFound event local remote t e forward
          | inr (_, reverse) ↦ reverse_match-IsFound event local remote t e reverse
        ] in
      (found, inr (rw missing refl))
]

pub write-IsSound :
    (i : Text) (f : TrackedConnection → TrackedConnection) (t : ConnectionTracker)
    → ((c : TrackedConnection) → (f c).connection_id ≡ c.connection_id)
    → IsSound t
    → IsSound (write i f t)
write-IsSound i f t same s = record {
  indexed = record {
    distinct = rw (keys-update i f t.connections) s.indexed.distinct;
    same_keys = s.indexed.same_keys ∙ sym (keys-update i f t.connections);
    inverted = s.indexed.inverted;
  };
  stored =
      same-IsStored t.store t.store t.connections _ (ids-update i f same t.connections) refl
        s.stored;
}

pub persist-IsSound :
    (f : HistoryStore → HistoryStore) (t : ConnectionTracker)
    → ((h : HistoryStore) → row_ids (f h).connections ≡ row_ids h.connections)
    → IsSound t
    → IsSound (persist f t)
persist-IsSound f t same s = record {
  indexed = s.indexed;
  stored = same-IsStored t.store _ t.connections t.connections refl (same t.store) s.stored;
}

pub touch-ids :
    (id ns : ℕ) (state : Text) (store : HistoryStore)
    → row_ids (touch_connection id ns state store).connections ≡ row_ids store.connections
unfolding touch_connection
touch-ids id ns state store = row_ids-update _ _ (λ r. refl) store.connections

pub event-ids :
    (id : ℕ) (event : ConnectionLifecycleEvent) (store : HistoryStore)
    → row_ids (add_lifecycle_event id event store).connections ≡ row_ids store.connections
unfolding add_lifecycle_event
event-ids id event store = refl

promote-ids :
    (id : ℕ) (direction : ConnectionDirection) (store : HistoryStore)
    → row_ids (promote_connection_direction id direction store).1.connections
      ≡ row_ids store.connections
unfolding promote_connection_direction
promote-ids id direction store = ground (
  arith,
  row_ids-update (without_direction id) (λ r. record r { direction = direction }) (λ r. refl)
      store.connections,
)

pub remove-same :
    (i : Text) (t : ConnectionTracker)
    → ((remove_correlation_identity i t).connections ≡ t.connections)
      × ((remove_correlation_identity i t).store ≡ t.store)
unfolding remove_correlation_identity
remove-same i t = (ground arith, ground arith)

-- A connection that goes, and its entry in the index.
pub drop-IsSound :
    (i : Text) (c : TrackedConnection) (t : ConnectionTracker)
    → IsSound t
    → lookup i t.connections ≡ some c
    → let u = remove_correlation_identity i t in
      IsSound (record u { connections = erase i u.connections })
drop-IsSound i c t s found =
    let (same, stays) = remove-same i t in
    record {
      indexed = rw same (remove-IsIndexed i t s.indexed (rw found refl));
      stored =
          same-IsStored t.store _ (erase i t.connections) _ (ap (λ d. ids_of (erase i d)) same)
            (ap (λ h. row_ids h.connections) stays)
            (erase-IsStored t.store i t.connections s.stored);
    }

pub close-IsSound :
    (event : ConnectionLifecycleEvent) (e : Text × TrackedConnection) (t : ConnectionTracker)
    → IsSound t
    → IsFound t e
    → IsSound (close_connection event e t).1
unfolding close_connection
close-IsSound event e t s found =
    let id = e.1.connection_id in
    let touch = touch_connection id event.timestamp_ns (bytes "CLOSED") in
    drop-IsSound e.0 e.1 _
      (persist-IsSound (add_lifecycle_event id event) (persist touch t) (event-ids id event) (
        persist-IsSound (touch_connection id event.timestamp_ns (bytes "CLOSED")) t
          (touch-ids id event.timestamp_ns (bytes "CLOSED")) s))
      found

pub enrich-IsSound :
    (event : ConnectionLifecycleEvent) (direction : ConnectionDirection) (process : ProcessIdentity)
    (e : Text × TrackedConnection) (t : ConnectionTracker)
    → IsSound t
    → IsSound (enrich_connection event direction process e t).1
unfolding enrich_connection
enrich-IsSound event direction process e t s =
    let id = e.1.connection_id in
    write-IsSound e.0 (attributed process) _ (λ c. refl)
      (persist-IsSound
        (λ h. (promote_connection_direction id direction (add_lifecycle_event id event h)).1) t
        (λ h. promote-ids id direction (add_lifecycle_event id event h) ∙ event-ids id event h) s)

-- A connection with a new row, and its entry in the index.
pub admit-IsSound :
    (i key : Text) (c : TrackedConnection) (store : HistoryStore) (t : ConnectionTracker)
    → IsSound t
    → lookup i t.connections ≡ none
    → c.connection_id ≡ next_rowid (row_ids t.store.connections)
    → row_ids store.connections ≡ row_ids t.store.connections ++ c.connection_id ∷ []
    → IsSound (
        index_correlation key i
          (record t { store = store; connections = emplace i c t.connections }))
unfolding index_correlation
admit-IsSound i key c store t s fresh id rows = record {
  indexed = emplace-IsIndexed i key c t.connections _ _ s.indexed fresh;
  stored = emplace-IsStored t.store store i c t.connections fresh id rows s.stored;
}
