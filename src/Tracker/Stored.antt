-- ===== src/Tracker/Stored.antt =====
-- Every tracked connection has its own row of the store: the ids under each operation.
use neta_agent.Prelude.{
  ℕ, ◌≤◌, ◌≡◌, refl, inl, inr, ap, sym, Bool, true, false, none, Text, List, [], ◌∷◌, ◌++◌, arith,
  text_eq, In, In-append, keep, length, ◌==◌, nat_eq,
}
use neta_agent.Prelude.Dict.{Dict, Distinct, Distinct-append, lookup, emplace, erase, update, rekey}
use neta_agent.History.Tables.{HistoryStore, ConnectionRow, next_rowid, largest}
use neta_agent.History.Connections.{row_ids, update_rows}
use neta_agent.Tracker.State.{TrackedConnection}
use neta_agent.Tracker.Invariant.{ids_of, IsStored}

le-largest : (i : ℕ) (ids : List ℕ) → In i ids → i ≤ largest ids
le-largest i [] m = elim m [ ]
le-largest i (j ∷ ids) m = ground (arith, le-largest i ids)

-- The id of a new row is new.
pub next_rowid-fresh : (ids : List ℕ) → ¬ (In (next_rowid ids) ids)
next_rowid-fresh ids m = omega (arith, le-largest (next_rowid ids) ids m)

pub row_ids-append :
    (rows : List ConnectionRow) (r : ConnectionRow)
    → row_ids (rows ++ r ∷ []) ≡ row_ids rows ++ r.id ∷ []
row_ids-append [] r = refl
row_ids-append (s ∷ rows) r = ap (λ t. s.id ∷ t) (row_ids-append rows r)

pub row_ids-update :
    (fits : ConnectionRow → Bool) (f : ConnectionRow → ConnectionRow)
    → ((r : ConnectionRow) → (f r).id ≡ r.id)
    → (rows : List ConnectionRow) → row_ids (update_rows fits f rows) ≡ row_ids rows
row_ids-update fits f same [] = refl
row_ids-update fits f same (r ∷ rows) = ground (arith, same r, row_ids-update fits f same rows)

pub ids-update :
    (k : Text) (f : TrackedConnection → TrackedConnection)
    → ((c : TrackedConnection) → (f c).connection_id ≡ c.connection_id)
    → (d : Dict Text TrackedConnection) → ids_of (update k f d) ≡ ids_of d
ids-update k f same [] = refl
ids-update k f same ((i, c) ∷ d) = ground (arith, same c, ids-update k f same d)

pub ids-rekey : (k k' : Text) (d : Dict Text TrackedConnection) → ids_of (rekey k k' d) ≡ ids_of d
ids-rekey k k' [] = refl
ids-rekey k k' ((i, c) ∷ d) = ground (arith, ids-rekey k k' d)

ids-append :
    (d : Dict Text TrackedConnection) (i : Text) (c : TrackedConnection)
    → ids_of (d ++ (i, c) ∷ []) ≡ ids_of d ++ c.connection_id ∷ []
ids-append [] i c = refl
ids-append ((j, b) ∷ d) i c = ap (λ t. b.connection_id ∷ t) (ids-append d i c)

pub In-ids_erase :
    (id : ℕ) (k : Text) (d : Dict Text TrackedConnection)
    → In id (ids_of (erase k d))
    → In id (ids_of d)
In-ids_erase id k [] m = m
In-ids_erase id k ((i, c) ∷ d) m = ground (arith, In-ids_erase id k d)

ids_erase-Distinct :
    (k : Text) (d : Dict Text TrackedConnection)
    → Distinct (ids_of d)
    → Distinct (ids_of (erase k d))
ids_erase-Distinct k [] h = tt
ids_erase-Distinct k ((i, c) ∷ d) h =
    ground (arith, ids_erase-Distinct k d, In-ids_erase c.connection_id k d)

pub erase-IsStored :
    (store : HistoryStore) (k : Text) (d : Dict Text TrackedConnection)
    → IsStored store d
    → IsStored store (erase k d)
erase-IsStored store k d s = record {
  distinct_rows = s.distinct_rows;
  distinct_ids = ids_erase-Distinct k d s.distinct_ids;
  stored = λ id m. s.stored id (In-ids_erase id k d m);
}

-- What keeps the ids on both sides keeps the connections stored.
pub same-IsStored :
    (store store' : HistoryStore) (d d' : Dict Text TrackedConnection)
    → ids_of d' ≡ ids_of d
    → row_ids store'.connections ≡ row_ids store.connections
    → IsStored store d
    → IsStored store' d'
same-IsStored store store' d d' e r s = record {
  distinct_rows = rw r s.distinct_rows;
  distinct_ids = rw e s.distinct_ids;
  stored = λ id m. rw r (s.stored id (rw e at m));
}

-- A connection with a new row.
pub emplace-IsStored :
    (store store' : HistoryStore) (i : Text) (c : TrackedConnection)
    (d : Dict Text TrackedConnection)
    → lookup i d ≡ none
    → c.connection_id ≡ next_rowid (row_ids store.connections)
    → row_ids store'.connections ≡ row_ids store.connections ++ c.connection_id ∷ []
    → IsStored store d
    → IsStored store' (emplace i c d)
emplace-IsStored store store' i c d fresh e r s = rw fresh (record {
  distinct_rows =
      rw (r, e)
        (Distinct-append _ _ s.distinct_rows (next_rowid-fresh (row_ids store.connections)));
  distinct_ids = rw (ids-append d i c) (
      Distinct-append (ids_of d) c.connection_id s.distinct_ids
        (λ m. next_rowid-fresh (row_ids store.connections) (rw (sym e) (s.stored _ m))));
  stored = λ id m. rw r (
      (In-append id (row_ids store.connections) (c.connection_id ∷ [])).1
        (elim ((In-append id (ids_of d) (c.connection_id ∷ [])).0 (rw (ids-append d i c) at m)) [
          | inl old ↦ inl (s.stored id old)
          | inr one ↦ inr one
        ]));
})

-- With distinct ids, an UPDATE of one id that does not report one row has changed none.
module _ (id : ℕ) (fits : ConnectionRow → Bool) (f : ConnectionRow → ConnectionRow)
    (only_id : (r : ConnectionRow) → fits r ≡ true → r.id ≡ id) where
  keep-absent : (rows : List ConnectionRow) → ¬ (In id (row_ids rows)) → keep fits rows ≡ []
  keep-absent [] out = refl
  keep-absent (r ∷ rows) out = ground (arith, only_id r, keep-absent rows)

  changes-one : (rows : List ConnectionRow) → Distinct (row_ids rows) → length (keep fits rows) ≤ 1
  changes-one [] d = omega arith
  changes-one (r ∷ rows) d = ground (arith, only_id r, changes-one rows, keep-absent rows)

  update-none :
      (rows : List ConnectionRow) → length (keep fits rows) ≡ 0 → update_rows fits f rows ≡ rows
  update-none [] e = refl
  update-none (r ∷ rows) e = ground (arith, update-none rows)

  pub update-unreported :
      (rows : List ConnectionRow)
      → Distinct (row_ids rows)
      → (length (keep fits rows) == 1) ≡ false
      → update_rows fits f rows ≡ rows
  update-unreported rows d e = update-none rows (ground (arith, changes-one rows d))
