-- ===== src/Tracker/Invariant.antt =====
-- The invariant of the tracker: one entry of the index for each connection, and distinct stored ids.
use neta_agent.Prelude.{
  ℕ, ◌≡◌, refl, inl, inr, ap, sym, ◌∙◌, true, none, some, Text, List, [], ◌∷◌, ◌++◌, arith, text_eq,
  nat_eq, eq_iff, In, Option-cases,
}
use neta_agent.Prelude.Dict.{
  Dict, Distinct, Distinct-append, keys, keys-append, swapped, swapped-append, lookup, has_key,
  emplace, erase, rekey, lookup-none, has_key-In, erase-Distinct, rekey-Distinct, keys-erase,
  keys-rekey,
}
use neta_agent.History.Tables.{HistoryStore}
use neta_agent.History.Connections.{row_ids}
use neta_agent.Tracker.State.{ConnectionTracker, TrackedConnection}
use neta_agent.Tracker.Index.{
  erase_entries, rename_entries, remove_correlation_identity, rekey_correlation,
}

abbrev pub ids_of : Dict Text TrackedConnection → List ℕ
ids_of [] = []
ids_of ((i, tracked) ∷ d) = tracked.connection_id ∷ ids_of d

-- Every tracked connection has its own row, and no two rows have one id.
pub record IsStored (store : HistoryStore) (d : Dict Text TrackedConnection) : Type 0 where
  pub distinct_rows : Distinct (row_ids store.connections)
  pub distinct_ids : Distinct (ids_of d)
  pub stored : (id : ℕ) → In id (ids_of d) → In id (row_ids store.connections)

-- No identity occurs twice, and the index and its inverse list the same connections.
pub record IsIndexed (d : Dict Text TrackedConnection) (index inverse : Dict Text Text)
    : Type 0 where
  pub distinct : Distinct (keys d)
  pub same_keys : keys inverse ≡ keys d
  pub inverted : index ≡ swapped inverse

pub record IsSound (t : ConnectionTracker) : Type 0 where
  pub indexed : IsIndexed t.connections t.correlation_index t.correlation_by_identity
  pub stored : IsStored t.store t.connections

erase_entries-swapped_absent :
    (key identity : Text) (d : Dict Text Text)
    → ¬ (In identity (keys d))
    → erase_entries key identity (swapped d) ≡ swapped d
erase_entries-swapped_absent key identity [] out = refl
erase_entries-swapped_absent key identity ((i, k) ∷ d) out =
    ground (arith, eq_iff i identity, eq_iff k key, erase_entries-swapped_absent key identity d)

erase_entries-swapped :
    (key identity : Text) (d : Dict Text Text)
    → Distinct (keys d)
    → lookup identity d ≡ some key
    → erase_entries key identity (swapped d) ≡ swapped (erase identity d)
erase_entries-swapped key identity [] h e = cc
erase_entries-swapped key identity ((i, k) ∷ d) h e = ground (
  arith,
  eq_iff i identity,
  eq_iff k key,
  erase_entries-swapped key identity d,
  erase_entries-swapped_absent key identity d,
)

rename_entries-swapped_absent :
    (key identity canonical : Text) (d : Dict Text Text)
    → ¬ (In identity (keys d))
    → rename_entries key identity canonical (swapped d) ≡ swapped d
rename_entries-swapped_absent key identity canonical [] out = refl
rename_entries-swapped_absent key identity canonical ((i, k) ∷ d) out =
    ground (
      arith,
      eq_iff i identity,
      eq_iff k key,
      rename_entries-swapped_absent key identity canonical d,
    )

rename_entries-swapped :
    (key identity canonical : Text) (d : Dict Text Text)
    → Distinct (keys d)
    → lookup identity d ≡ some key
    → rename_entries key identity canonical (swapped d) ≡ swapped (rekey identity canonical d)
rename_entries-swapped key identity canonical [] h e = cc
rename_entries-swapped key identity canonical ((i, k) ∷ d) h e = ground (
  arith,
  eq_iff i identity,
  eq_iff k key,
  rename_entries-swapped key identity canonical d,
  rename_entries-swapped_absent key identity canonical d,
)

-- With the index and its inverse in step, an identity that is tracked has an entry.
has_correlation :
    (identity : Text) (d : Dict Text TrackedConnection) (index inverse : Dict Text Text)
    → IsIndexed d index inverse
    → has_key identity d ≡ true
    → (key : Text) × (lookup identity inverse ≡ some key)
has_correlation identity d index inverse i h = elim (Option-cases (lookup identity inverse)) [
  | inr found ↦ found
  | inl missing ↦
      absurd
        ((lookup-none identity inverse).0 missing (rw (i.same_keys) ((has_key-In identity d).0 h)))
]

-- The entry of a connection that is erased goes with it.
pub remove-IsIndexed :
    (identity : Text) (t : ConnectionTracker)
    → IsIndexed t.connections t.correlation_index t.correlation_by_identity
    → has_key identity t.connections ≡ true
    → let u = remove_correlation_identity identity t in
      IsIndexed (erase identity t.connections) u.correlation_index u.correlation_by_identity
unfolding remove_correlation_identity
remove-IsIndexed identity t i h =
    let (key, found) = has_correlation identity _ _ _ i h in
    rw (found, remove_correlation_identity)
      (record {
        distinct = erase-Distinct identity t.connections i.distinct;
        same_keys =
            keys-erase identity t.correlation_by_identity
            ∙ rw i.same_keys (sym (keys-erase identity t.connections));
        inverted = rw i.inverted (
            erase_entries-swapped key identity t.correlation_by_identity (rw i.same_keys i.distinct)
              found);
      })

-- A connection under a new identity takes its entry along.
pub rekey-IsIndexed :
    (identity canonical : Text) (t : ConnectionTracker)
    → IsIndexed t.connections t.correlation_index t.correlation_by_identity
    → has_key identity t.connections ≡ true
    → ¬ (In canonical (keys t.connections))
    → let u =
        rekey_correlation identity canonical
          (record t { connections = rekey identity canonical t.connections }) in
      IsIndexed u.connections u.correlation_index u.correlation_by_identity
unfolding rekey_correlation
rekey-IsIndexed identity canonical t i h out =
    let (key, found) = has_correlation identity _ _ _ i h in
    rw (found, rekey_correlation)
      (record {
        distinct = rekey-Distinct identity canonical t.connections i.distinct out;
        same_keys =
            keys-rekey identity canonical t.correlation_by_identity
            ∙ rw i.same_keys (sym (keys-rekey identity canonical t.connections));
        inverted = rw i.inverted (
            rename_entries-swapped key identity canonical t.correlation_by_identity
              (rw i.same_keys i.distinct) found);
      })

-- A new connection and its entry.
pub emplace-IsIndexed :
    (identity key : Text) (tracked : TrackedConnection) (d : Dict Text TrackedConnection)
    (index inverse : Dict Text Text)
    → IsIndexed d index inverse
    → lookup identity d ≡ none
    → IsIndexed
        (emplace identity tracked d)
        (index ++ (key, identity) ∷ [])
        (emplace identity key inverse)
emplace-IsIndexed identity key tracked d index inverse i fresh =
    let out = (lookup-none identity d).0 fresh in
    let gone : lookup identity inverse ≡ none =
      (lookup-none identity inverse).1 (rw i.same_keys out) in
    rw fresh (
      rw gone (record {
        distinct =
            rw (keys-append d identity tracked) (Distinct-append (keys d) identity i.distinct out);
        same_keys =
            keys-append inverse identity key
            ∙ ap (λ ks. ks ++ identity ∷ []) i.same_keys
            ∙ sym (keys-append d identity tracked);
        inverted = rw i.inverted (sym (swapped-append inverse identity key));
      }))
