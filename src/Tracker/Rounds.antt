-- ===== src/Tracker/Rounds.antt =====
-- What the end of a snapshot does to each tracked connection.
use neta_agent.Prelude.{
  ℕ, ◌≡◌, refl, inl, inr, ap, sym, ◌∙◌, Bool, true, false, some, Text, List, [], ◌∷◌, ◌++◌, arith,
  text_eq, nat_eq, Bool-cases, ◌||◌, not, if◌then◌else◌, In,
}
use neta_agent.Prelude.Dict.{
  Dict, lookup, keys, absent-before, lookup-middle, update-middle, erase-middle, append-middle,
}
use neta_agent.History.Connections.{touch_connection}
use neta_agent.Tracker.State.{ConnectionTracker, TrackedConnection, write, persist}
use neta_agent.Tracker.Snapshot.{
  reconcile_absent, absent_state, missed, drop_connection, end_entry, end_from, end_snapshot,
}
use neta_agent.Tracker.Invariant.{IsSound}
use neta_agent.Tracker.Sound.{write-IsSound, persist-IsSound, touch-ids, drop-IsSound, remove-same}

module _ (polling incomplete : Bool) where
  -- A connection that a snapshot leaves tracked.
  abbrev pub survives : TrackedConnection → Bool
  survives c = c.present_in_snapshot || not (reconcile_absent polling incomplete (missed c))

  -- Such a connection afterwards.
  abbrev pub aged : TrackedConnection → TrackedConnection
  aged c = if c.present_in_snapshot then record c { consecutive_snapshot_misses = 0 } else missed c

  abbrev pub remaining : Dict Text TrackedConnection → Dict Text TrackedConnection
  remaining [] = []
  remaining ((i, c) ∷ d) = let rest = remaining d in if survives c then (i, aged c) ∷ rest else rest

  abbrev pub departed : Dict Text TrackedConnection → List ℕ
  departed [] = []
  departed ((i, c) ∷ d) =
      let rest = departed d in if survives c then rest else c.connection_id ∷ rest

  pub record Ended (before pending : Dict Text TrackedConnection) (r : List ℕ × ConnectionTracker)
      : Type 0 where
    pub sound : IsSound r.1
    pub kept : r.1.connections ≡ before ++ remaining pending
    pub reported : r.0 ≡ departed pending

  -- One round, for the entry after those of `before`.
  module _ (i : Text) (c : TrackedConnection) (before rest : Dict Text TrackedConnection)
      (t : ConnectionTracker) (s : IsSound t) (here : t.connections ≡ before ++ (i, c) ∷ rest) where
    outside : ¬ (In i (keys before))
    outside = absent-before i c rest before (rw here at s.indexed.distinct)

    there : lookup i t.connections ≡ some c
    there = rw here (lookup-middle i c rest before outside)

    drop_connection-Ended :
        let u = drop_connection polling incomplete i c t in
        IsSound u × (u.connections ≡ before ++ rest)
    unfolding drop_connection
    drop_connection-Ended =
        let touch =
          touch_connection c.connection_id c.last_seen.observed_ns
            (absent_state polling incomplete) in
        let v = persist touch t in
        (
          drop-IsSound i c v
              (persist-IsSound touch t
                (touch-ids c.connection_id c.last_seen.observed_ns
                  (absent_state polling incomplete))
                s)
              there,
          rw ((remove-same i v).0) (rw here (erase-middle i c rest before outside)),
        )

    write-Ended :
        (f : TrackedConnection → TrackedConnection)
        → ((b : TrackedConnection) → (f b).connection_id ≡ b.connection_id)
        → IsSound (write i f t) × ((write i f t).connections ≡ (before ++ (i, f c) ∷ []) ++ rest)
    write-Ended f same = (
      write-IsSound i f t same s,
      rw here (update-middle i c rest f before outside) ∙ append-middle before (i, f c) rest,
    )

  -- One round, by what the connection is.
  module _ (i : Text) (c : TrackedConnection) (t : ConnectionTracker) where
    entry-present :
        c.present_in_snapshot ≡ true
        → end_entry polling incomplete i c t
          ≡ ([], write i (λ b. record b { consecutive_snapshot_misses = 0 }) t)
    unfolding end_entry
    entry-present h = ground (arith, h)

    entry-gone :
        c.present_in_snapshot ≡ false
        → reconcile_absent polling incomplete (missed c) ≡ true
        → end_entry polling incomplete i c t
          ≡ (c.connection_id ∷ [], drop_connection polling incomplete i c t)
    unfolding end_entry
    entry-gone h a = ground (arith, h, a)

    entry-waits :
        c.present_in_snapshot ≡ false
        → reconcile_absent polling incomplete (missed c) ≡ false
        → end_entry polling incomplete i c t ≡ ([], write i missed t)
    unfolding end_entry
    entry-waits h a = ground (arith, h, a)

  -- A round that writes, and the rounds after it.
  write-round :
      (i : Text) (c c' : TrackedConnection) (before rest : Dict Text TrackedConnection)
      (t u : ConnectionTracker)
      → end_entry polling incomplete i c t ≡ ([], u)
      → survives c ≡ true
      → aged c ≡ c'
      → Ended (before ++ (i, c') ∷ []) rest (end_from polling incomplete rest u)
      → Ended before ((i, c) ∷ rest) (end_from polling incomplete ((i, c) ∷ rest) t)
  unfolding end_from
  write-round i c c' before rest t u entry stays ages r =
      rw (entry, end_from)
        (record {
          sound = r.sound;
          kept =
              r.kept
              ∙ sym (append-middle before (i, c') (remaining rest))
              ∙ ground (arith, stays, ages);
          reported = r.reported ∙ ground (arith, stays);
        })

  drop-round :
      (i : Text) (c : TrackedConnection) (before rest : Dict Text TrackedConnection)
      (t u : ConnectionTracker)
      → end_entry polling incomplete i c t ≡ (c.connection_id ∷ [], u)
      → survives c ≡ false
      → Ended before rest (end_from polling incomplete rest u)
      → Ended before ((i, c) ∷ rest) (end_from polling incomplete ((i, c) ∷ rest) t)
  unfolding end_from
  drop-round i c before rest t u entry goes r =
      rw (entry, end_from)
        (record {
          sound = r.sound;
          kept = r.kept ∙ ground (arith, goes);
          reported = ap (λ ids. c.connection_id ∷ ids) r.reported ∙ ground (arith, goes);
        })

  pub end_from-Ended :
      (pending before : Dict Text TrackedConnection) (t : ConnectionTracker)
      → IsSound t
      → t.connections ≡ before ++ pending
      → Ended before pending (end_from polling incomplete pending t)
  unfolding end_from
  end_from-Ended [] before t s here = record { sound = s; kept = here; reported = refl }
  end_from-Ended ((i, c) ∷ rest) before t s here = elim (Bool-cases c.present_in_snapshot) [
    | inl present ↦
        let f : TrackedConnection → TrackedConnection =
          λ b. record b { consecutive_snapshot_misses = 0 } in
        let (sound, next) = write-Ended i c before rest t s here f (λ b. refl) in
        write-round i c (f c) before rest t (write i f t) (entry-present i c t present)
          (ground (arith, present)) (ground (arith, present))
          (end_from-Ended rest (before ++ (i, f c) ∷ []) (write i f t) sound next)
    | inr gone ↦ elim (Bool-cases (reconcile_absent polling incomplete (missed c))) [
      | inl absent ↦
          let u = drop_connection polling incomplete i c t in
          let (sound, next) = drop_connection-Ended i c before rest t s here in
          drop-round i c before rest t u (entry-gone i c t gone absent)
            (ground (arith, gone, absent)) (end_from-Ended rest before u sound next)
      | inr waits ↦
          let (sound, next) = write-Ended i c before rest t s here missed (λ b. refl) in
          write-round i c (missed c) before rest t (write i missed t) (entry-waits i c t gone waits)
            (ground (arith, gone, waits)) (ground (arith, gone))
            (end_from-Ended rest (before ++ (i, missed c) ∷ []) (write i missed t) sound next)
    ]
  ]

  pub end_snapshot-Ended :
      (t : ConnectionTracker)
      → IsSound t
      → Ended [] t.connections (end_snapshot polling incomplete t)
  unfolding end_snapshot
  end_snapshot-Ended t s = end_from-Ended t.connections [] t s refl
