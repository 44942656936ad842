-- ===== src/Tracker/Silence.antt =====
-- How long a connection that the snapshots no longer show stays tracked.
use neta_agent.Prelude.{
  ℕ, suc, ◌+◌, ◌≡◌, inl, inr, refl, ap, ◌∙◌, false, ◌&&◌, Option, none, some, Text, List, [], ◌∷◌,
  arith, In, text_eq, eq_iff, leb, if◌then◌else◌, ◌>>=◌, Bool-cases, Option-cases, length,
}
use neta_agent.Prelude.Dict.{Dict, Distinct, keys, lookup}
use neta_agent.Tracker.State.{ConnectionTracker, TrackedConnection}
use neta_agent.Tracker.Lifecycle.{snapshot_owned}
use neta_agent.Tracker.Snapshot.{
  begin_snapshot, end_snapshot, all_absent, reconciliation_miss_limit,
}
use neta_agent.Tracker.Sampled.{observe_socket-IsSound}
use neta_agent.Tracker.Elsewhere.{Shown, see, Elsewhere, see-lookup}
use neta_agent.Tracker.Invariant.{IsSound}
use neta_agent.Tracker.Rounds.{remaining, survives, aged, end_snapshot-Ended}
use neta_agent.Tracker.Reach.{Call, called, called-IsSound}

-- A snapshot, while events control the lifecycle and none were lost: the sockets it shows, between
-- `begin_snapshot` and `end_snapshot`.
abbrev pub see_all : List Shown → ConnectionTracker → ConnectionTracker
see_all [] t = t
see_all (x ∷ xs) t = see_all xs (see x t)

unfoldable pub snapshot : List Shown → ConnectionTracker → ConnectionTracker
snapshot xs t = (end_snapshot false false (see_all xs (begin_snapshot t))).1

unfoldable pub snapshots : List (List Shown) → ConnectionTracker → ConnectionTracker
unfolding snapshot
snapshots [] t = t
snapshots (xs ∷ rest) t = snapshots rest (snapshot xs t)

-- No socket is taken for the connection, by its identity or by its key, when it is observed.
abbrev pub AllElsewhere : Text → List Shown → ConnectionTracker → Type 0
AllElsewhere i [] t = Unit
AllElsewhere i (x ∷ xs) t = Elsewhere i x t × AllElsewhere i xs (see x t)

abbrev pub Unshown : Text → List (List Shown) → ConnectionTracker → Type 0
Unshown i [] t = Unit
Unshown i (xs ∷ rest) t = AllElsewhere i xs (begin_snapshot t) × Unshown i rest (snapshot xs t)

-- A connection after so many misses.
abbrev pub missing : ℕ → TrackedConnection → TrackedConnection
missing n c = record c {
  present_in_snapshot = false;
  consecutive_snapshot_misses = c.consecutive_snapshot_misses + n;
}

-- What one such snapshot leaves of a connection.
abbrev pub after_silence : TrackedConnection → Option TrackedConnection
after_silence c =
    if snapshot_owned c && leb reconciliation_miss_limit (suc c.consecutive_snapshot_misses)
    then none
    else some (missing 1 c)

see-IsSound : (x : Shown) (t : ConnectionTracker) → IsSound t → IsSound (see x t)
unfolding see
see-IsSound x t s =
    observe_socket-IsSound x.resolver x.socket x.direction x.allow_new_connection x.origin
      x.captured_ns t s

see_all-IsSound : (xs : List Shown) (t : ConnectionTracker) → IsSound t → IsSound (see_all xs t)
see_all-IsSound [] t s = s
see_all-IsSound (x ∷ xs) t s = see_all-IsSound xs (see x t) (see-IsSound x t s)

shown-IsSound :
    (xs : List Shown) (t : ConnectionTracker) → IsSound t → IsSound (see_all xs (begin_snapshot t))
unfolding called
shown-IsSound xs t s =
    see_all-IsSound xs (begin_snapshot t) (called-IsSound Call.snapshot_begins t s)

snapshot-IsSound : (xs : List Shown) (t : ConnectionTracker) → IsSound t → IsSound (snapshot xs t)
unfolding snapshot
snapshot-IsSound xs t s = (end_snapshot-Ended false false _ (shown-IsSound xs t s)).sound

module _ (i : Text) where
  see_all-lookup :
      (xs : List Shown) (t : ConnectionTracker)
      → AllElsewhere i xs t
      → lookup i (see_all xs t).connections ≡ lookup i t.connections
  see_all-lookup [] t away = refl
  see_all-lookup (x ∷ xs) t (here, later) =
      see_all-lookup xs (see x t) later ∙ see-lookup i x t here

  lookup-all_absent :
      (d : Dict Text TrackedConnection)
      → lookup i (all_absent d)
        ≡ (lookup i d >>= λ c. some (record c { present_in_snapshot = false }))
  lookup-all_absent [] = refl
  lookup-all_absent ((j, c) ∷ d) = ground (arith, lookup-all_absent d)

  -- What the end of a snapshot leaves of a connection.
  abbrev left : TrackedConnection → Option TrackedConnection
  left c = if survives false false c then some (aged false false c) else none

  remaining-absent :
      (d : Dict Text TrackedConnection)
      → ¬ (In i (keys d))
      → lookup i (remaining false false d) ≡ none
  remaining-absent [] out = refl
  remaining-absent ((j, c) ∷ d) out = ground (arith, eq_iff j i, remaining-absent d)

  lookup-remaining :
      (d : Dict Text TrackedConnection)
      → Distinct (keys d)
      → lookup i (remaining false false d) ≡ (lookup i d >>= left)
  lookup-remaining [] h = refl
  lookup-remaining ((j, c) ∷ d) h =
      ground (arith, eq_iff j i, remaining-absent d, lookup-remaining d)

  lookup-snapshot :
      (xs : List Shown) (t : ConnectionTracker)
      → IsSound t
      → AllElsewhere i xs (begin_snapshot t)
      → lookup i (snapshot xs t).connections ≡ (lookup i t.connections >>= after_silence)
  unfolding snapshot begin_snapshot
  lookup-snapshot xs t s away =
      let u = see_all xs (begin_snapshot t) in
      let sound = shown-IsSound xs t s in
      let e = end_snapshot-Ended false false u sound in
      let same : lookup i u.connections
          ≡ (lookup i t.connections >>= λ c. some (record c { present_in_snapshot = false })) =
        see_all-lookup xs (begin_snapshot t) away ∙ lookup-all_absent t.connections in
      ap (lookup i) e.kept
      ∙ lookup-remaining u.connections sound.indexed.distinct
      ∙ elim (Option-cases (lookup i t.connections)) [
        | inl missing ↦ ground (arith, same, missing)
        | inr (c, found) ↦ ground (arith, same, found)
      ]

  snapshots-gone :
      (all : List (List Shown)) (t : ConnectionTracker)
      → IsSound t
      → Unshown i all t
      → lookup i t.connections ≡ none
      → lookup i (snapshots all t).connections ≡ none
  unfolding snapshots
  snapshots-gone [] t s away gone = gone
  snapshots-gone (xs ∷ rest) t s (here, later) gone =
      snapshots-gone rest (snapshot xs t) (snapshot-IsSound xs t s) later
        (lookup-snapshot xs t s here ∙ ap (λ o. o >>= after_silence) gone)

misses-suc :
    (c : TrackedConnection) (n : ℕ)
    → c.consecutive_snapshot_misses + 1 + suc n ≡ c.consecutive_snapshot_misses + suc (suc n)
misses-suc c n = omega arith

-- In a sound tracker, take one or more snapshots in a row, none of whose sockets is taken for a
-- connection, by its identity or by its key, while events control the lifecycle, none were lost, and
-- none comes in between. The connection goes exactly where no event has announced it and its misses
-- reach three; else it stays, absent, with as many misses more.
pub silence_outcome :
    (xs : List Shown) (rest : List (List Shown)) (i : Text) (c : TrackedConnection)
    (t : ConnectionTracker)
    → IsSound t
    → Unshown i (xs ∷ rest) t
    → lookup i t.connections ≡ some c
    → lookup i (snapshots (xs ∷ rest) t).connections ≡ (
        if snapshot_owned c && leb 3 (c.consecutive_snapshot_misses + suc (length rest))
        then none
        else some (missing (suc (length rest)) c))
unfolding snapshots
silence_outcome xs [] i c t s away found =
    lookup-snapshot i xs t s away.0
    ∙ ap (λ o. o >>= after_silence) found
    ∙ ap (λ m. if snapshot_owned c && leb 3 m then none else some (missing 1 c)) (omega arith)
silence_outcome xs (ys ∷ rest) i c t s away found =
    let u = snapshot xs t in
    let n = length rest in
    let sound = snapshot-IsSound xs t s in
    let once : lookup i u.connections ≡ after_silence c =
      lookup-snapshot i xs t s away.0 ∙ ap (λ o. o >>= after_silence) found in
    elim (Bool-cases (snapshot_owned c && leb 3 (suc c.consecutive_snapshot_misses))) [
      | inl gone ↦
          snapshots-gone i (ys ∷ rest) u sound away.1 (once ∙ ground (arith, gone))
          ∙ ground (arith, gone)
      | inr stays ↦
          silence_outcome ys rest i (missing 1 c) u sound away.1 (once ∙ ground (arith, stays))
          ∙ ap
              (λ m.
                if snapshot_owned c && leb 3 m
                then none
                else some
                    (record c { present_in_snapshot = false; consecutive_snapshot_misses = m }))
              (misses-suc c n)
    ]
