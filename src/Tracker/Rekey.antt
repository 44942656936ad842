-- ===== src/Tracker/Rekey.antt =====
-- A connection under a new identity: what `rekey_identity`, `promote_socket_cookie_identity` and
-- `canonicalize` guarantee.
use neta_agent.Prelude.{
  ℕ, ◌≡◌, refl, inl, inr, ap, ◌∙◌, Bool, true, false, Option, some, Text, arith, text_eq, nat_eq,
  eq_iff, Bool-cases, Option-cases, In, ◌==◌, ◌⊎◌,
}
use neta_agent.Prelude.Dict.{lookup, has_key, keys, has_key-In, lookup-rekey, rekey}
use neta_agent.Model.{ConnectionLifecycleEvent}
use neta_agent.History.Connections.{row_ids, update_socket_cookie, without_cookie, changes}
use neta_agent.Tracker.State.{ConnectionTracker, TrackedConnection, find_entry}
use neta_agent.Tracker.Keys.{usable_cookie}
use neta_agent.Tracker.Index.{rekey_identity, rekey_correlation, promote_socket_cookie_identity}
use neta_agent.Tracker.Lifecycle.{canonicalize, promote_to}
use neta_agent.Tracker.Invariant.{IsSound, rekey-IsIndexed, ids_of}
use neta_agent.Tracker.Stored.{ids-rekey, same-IsStored, row_ids-update, update-unreported}

-- An iterator of the map.
abbrev pub IsFound : ConnectionTracker → Text × TrackedConnection → Type 0
IsFound t e = lookup e.0 t.connections ≡ some e.1

pub find_entry-IsFound :
    (i : Text) (t : ConnectionTracker) (e : Text × TrackedConnection)
    → find_entry i t ≡ some e
    → IsFound t e
find_entry-IsFound i t e h = elim (Option-cases (lookup i t.connections)) [
  | inl missing ↦ cc
  | inr (c, found) ↦ ground (arith, found)
]

-- A renaming that succeeds has moved the connection, and one that fails has changed nothing.
pub record Renamed (previous canonical : Text) (t : ConnectionTracker) (c : TrackedConnection)
    (r : Bool × ConnectionTracker) : Type 0 where
  pub sound : IsSound r.1
  pub moved : r.0 ≡ true → lookup canonical r.1.connections ≡ some c
  pub unmoved : r.0 ≡ false → r.1 ≡ t
  pub same_ids : ids_of r.1.connections ≡ ids_of t.connections

rekey_correlation-same :
    (previous canonical : Text) (t : ConnectionTracker)
    → ((rekey_correlation previous canonical t).connections ≡ t.connections)
      × ((rekey_correlation previous canonical t).store ≡ t.store)
unfolding rekey_correlation
rekey_correlation-same previous canonical t = (ground arith, ground arith)

module _ (previous canonical : Text) (t : ConnectionTracker) (c : TrackedConnection) (s : IsSound t)
    (found : lookup previous t.connections ≡ some c)
    (fresh : has_key canonical t.connections ≡ false) where
  absent_key : ¬ (In canonical (keys t.connections))
  absent_key m = cc ((has_key-In canonical t.connections).1 m, fresh)

  differs : (previous == canonical) ≡ false
  differs = elim (Bool-cases (previous == canonical)) [
    | inl same ↦
        let e : previous ≡ canonical = (eq_iff previous canonical).0 same in
        cc (ap (λ i. lookup i t.connections) e, found, fresh)
    | inr other ↦ other
  ]

  pub rekey_identity-Renamed : Renamed previous canonical t c (rekey_identity previous canonical t)
  unfolding rekey_identity
  rekey_identity-Renamed =
      let known : has_key previous t.connections ≡ true = rw found refl in
      let (same, stays) =
        rekey_correlation-same previous canonical
          (record t { connections = rekey previous canonical t.connections }) in
      rw differs (
        rw fresh (
          rw found (record {
            sound = record {
              indexed = rekey-IsIndexed previous canonical t s.indexed known absent_key;
              stored =
                  same-IsStored t.store _ t.connections _
                    (ap ids_of same ∙ ids-rekey previous canonical t.connections)
                    (ap (λ h. row_ids h.connections) stays) s.stored;
            };
            moved = λ b. rw same (lookup-rekey previous canonical c t.connections found absent_key);
            unmoved = λ b. cc;
            same_ids = ap ids_of same ∙ ids-rekey previous canonical t.connections;
          })))

  rekey_identity-succeeds : (rekey_identity previous canonical t).0 ≡ true
  unfolding rekey_identity
  rekey_identity-succeeds = rw differs (rw fresh (rw found refl))

module _ (previous canonical : Text) (cookie : ℕ) (t : ConnectionTracker) (c : TrackedConnection)
    (s : IsSound t) (found : lookup previous t.connections ≡ some c)
    (fresh : has_key canonical t.connections ≡ false) where
  abbrev with_cookie : ConnectionTracker
  unfolding update_socket_cookie
  with_cookie = record t { store = (update_socket_cookie c.connection_id cookie t.store).1 }

  with_cookie-IsSound : IsSound with_cookie
  unfolding with_cookie update_socket_cookie
  with_cookie-IsSound = record {
    indexed = s.indexed;
    stored =
        same-IsStored t.store _ t.connections t.connections refl
          (row_ids-update (without_cookie c.connection_id)
            (λ r. record r { socket_cookie = cookie }) (λ r. refl) t.store.connections)
          s.stored;
  }

  pub promote-Renamed :
      Renamed previous canonical t c (promote_socket_cookie_identity previous canonical cookie t)
  unfolding promote_socket_cookie_identity update_socket_cookie with_cookie
  promote-Renamed =
      elim (Bool-cases (changes (without_cookie c.connection_id) t.store.connections == 1)) [
        | inl updated ↦
            let m =
              rekey_identity-Renamed previous canonical with_cookie c with_cookie-IsSound found
                fresh in
            let wins =
              rekey_identity-succeeds previous canonical with_cookie c with_cookie-IsSound found
                fresh in
            rw (found, promote_socket_cookie_identity)
              (rw updated (record {
                sound = m.sound;
                moved = m.moved;
                unmoved = λ b. cc;
                same_ids = m.same_ids;
              }))
        | inr kept ↦
            let same =
              update-unreported c.connection_id (without_cookie c.connection_id)
                (λ r. record r { socket_cookie = cookie }) (λ r h. ground arith) t.store.connections
                s.stored.distinct_rows kept in
            rw (found, promote_socket_cookie_identity)
              (rw kept (
                rw same
                  (record { sound = s; moved = λ b. cc; unmoved = λ b. refl; same_ids = refl })))
      ]

-- The iterator after `canonicalize`.
pub record Canonical (t : ConnectionTracker) (c : TrackedConnection)
    (r : Option (Text × TrackedConnection) × ConnectionTracker) : Type 0 where
  pub sound : IsSound r.1
  pub identity : Text
  pub there : r.0 ≡ some (identity, c)
  pub found : lookup identity r.1.connections ≡ some c
  pub same_ids : ids_of r.1.connections ≡ ids_of t.connections

promote_to-Renamed :
    (event : ConnectionLifecycleEvent) (previous canonical : Text) (t : ConnectionTracker)
    (c : TrackedConnection)
    → IsSound t
    → lookup previous t.connections ≡ some c
    → has_key canonical t.connections ≡ false
    → Renamed previous canonical t c (promote_to event previous canonical t)
unfolding promote_to
promote_to-Renamed event previous canonical t c s found fresh =
    elim (Option-cases (usable_cookie event)) [
      | inl none_given ↦
          rw (none_given, promote_to) (rekey_identity-Renamed previous canonical t c s found fresh)
      | inr (cookie, given) ↦
          rw (given, promote_to) (promote-Renamed previous canonical cookie t c s found fresh)
    ]

pub canonicalize-Canonical :
    (event : ConnectionLifecycleEvent) (identity : Text) (e : Text × TrackedConnection)
    (t : ConnectionTracker)
    → IsSound t
    → IsFound t e
    → (e.0 ≡ identity) ⊎ (has_key identity t.connections ≡ false)
    → Canonical t e.1 (canonicalize event identity e t)
unfolding canonicalize
canonicalize-Canonical event identity e t s found other = elim (Bool-cases (e.0 == identity)) [
  | inl same ↦
      rw same (record { sound = s; identity = e.0; there = refl; found = found; same_ids = refl })
  | inr moves ↦
      let fresh : has_key identity t.connections ≡ false = ground (arith, eq_iff e.0 identity) in
      let m = promote_to-Renamed event e.0 identity t e.1 s found fresh in
      elim (Bool-cases (promote_to event e.0 identity t).0) [
        | inl wins ↦ rw moves (
            rw wins (record {
              sound = m.sound;
              identity = identity;
              there = rw (m.moved wins) refl;
              found = m.moved wins;
              same_ids = m.same_ids;
            }))
        | inr fails ↦ rw moves (
            rw fails (record {
              sound = m.sound;
              identity = e.0;
              there = refl;
              found = rw (m.unmoved fails) found;
              same_ids = m.same_ids;
            }))
      ]
]
