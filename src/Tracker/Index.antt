-- ===== src/Tracker/Index.antt =====
-- The correlation index of src/core/connection_tracker.cpp: entries, identities, unique matches.
use neta_agent.Prelude.{
  ℕ, Bool, true, false, ◌&&◌, ◌||◌, not, Option, none, some, Text, [], ◌∷◌, ◌++◌, ◌==◌, text_eq,
  if◌then◌else◌,
}
use neta_agent.Prelude.Dict.{Dict, lookup, has_key, emplace, erase, rekey}
use neta_agent.History.Connections.{update_socket_cookie}
use neta_agent.Tracker.State.{ConnectionTracker, TrackedConnection}

unfoldable pub index_correlation : Text → Text → ConnectionTracker → ConnectionTracker
index_correlation key identity t = record t {
  correlation_index = t.correlation_index ++ (key, identity) ∷ [];
  correlation_by_identity = emplace identity key t.correlation_by_identity;
}

-- The entries of this key and this identity go.
abbrev pub erase_entries : Text → Text → Dict Text Text → Dict Text Text
erase_entries key identity [] = []
erase_entries key identity ((k, i) ∷ index) =
    let rest = erase_entries key identity index in
    if (k == key) && (i == identity) then rest else (k, i) ∷ rest

-- The entries of this key and this identity get another identity.
abbrev pub rename_entries : Text → Text → Text → Dict Text Text → Dict Text Text
rename_entries key previous canonical [] = []
rename_entries key previous canonical ((k, i) ∷ index) =
    let rest = rename_entries key previous canonical index in
    if (k == key) && (i == previous) then (k, canonical) ∷ rest else (k, i) ∷ rest

unfoldable pub remove_correlation_identity : Text → ConnectionTracker → ConnectionTracker
remove_correlation_identity identity t = elim (lookup identity t.correlation_by_identity) [
  | none ↦ t
  | some key ↦ record t {
    correlation_index = erase_entries key identity t.correlation_index;
    correlation_by_identity = erase identity t.correlation_by_identity;
  }
]

-- The part of `rekey_identity` on the correlation index.
unfoldable pub rekey_correlation : Text → Text → ConnectionTracker → ConnectionTracker
rekey_correlation previous canonical t = elim (lookup previous t.correlation_by_identity) [
  | none ↦ t
  | some key ↦ record t {
    correlation_index = rename_entries key previous canonical t.correlation_index;
    correlation_by_identity = rekey previous canonical t.correlation_by_identity;
  }
]

unfoldable pub rekey_identity : Text → Text → ConnectionTracker → Bool × ConnectionTracker
unfolding rekey_correlation
rekey_identity previous canonical t =
    if previous == canonical
    then (true, t)
    else if has_key canonical t.connections || not (has_key previous t.connections)
    then (false, t)
    else (
      true,
      rekey_correlation previous canonical
          (record t { connections = rekey previous canonical t.connections }),
    )

unfoldable pub promote_socket_cookie_identity :
    Text → Text → ℕ → ConnectionTracker → Bool × ConnectionTracker
unfolding rekey_identity update_socket_cookie
promote_socket_cookie_identity previous canonical socket_cookie t =
    elim (lookup previous t.connections) [
      | none ↦ (false, t)
      | some tracked ↦
          let (updated, store) = update_socket_cookie tracked.connection_id socket_cookie t.store in
          if updated
          then rekey_identity previous canonical (record t { store = store })
          else (false, record t { store = store })
    ]

-- The loop of `unique_active_correlation_match` with the match so far; entries of other keys and of
-- identities that are not tracked are passed over.
unfoldable pub match_from :
    Text → Dict Text TrackedConnection → Option Text → Dict Text Text → Option Text
match_from key connections match [] = match
match_from key connections match ((k, i) ∷ index) =
    let with_this = match_from key connections (some i) index in
    let without = match_from key connections match index in
    if (k == key) && has_key i connections
    then elim match [ none ↦ with_this | some m ↦ if m == i then with_this else none ]
    else without

unfoldable pub unique_active_correlation_match : Text → ConnectionTracker → Option Text
unfolding match_from
unique_active_correlation_match key t = match_from key t.connections none t.correlation_index
