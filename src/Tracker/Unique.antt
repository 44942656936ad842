-- ===== src/Tracker/Unique.antt =====
-- When a correlation key names a connection.
use neta_agent.Prelude.{
  ◌≡◌, refl, inl, inr, true, none, some, Text, List, [], ◌∷◌, arith, In, text_eq, eq_iff, ◌==◌,
  if◌then◌else◌, is_empty,
}
use neta_agent.Prelude.Dict.{Dict, Distinct, keys, swapped, has_key, has_key-In}
use neta_agent.ProcessGraph.{only}
use neta_agent.Tracker.State.{ConnectionTracker, TrackedConnection}
use neta_agent.Tracker.Index.{match_from, unique_active_correlation_match}
use neta_agent.Tracker.Invariant.{IsSound}

-- The identities that are listed with a key.
abbrev pub named : Text → Dict Text Text → List Text
named key [] = []
named key ((i, k) ∷ inverse) = let rest = named key inverse in if k == key then i ∷ rest else rest

only-cons : (i : Text) (is : List Text) → only (i ∷ is) ≡ (if is_empty is then some i else none)
only-cons i [] = refl
only-cons i (j ∷ is) = refl

module _ (key : Text) (d : Dict Text TrackedConnection) where
  match_from-taken :
      (m : Text) (inverse : Dict Text Text)
      → ((i : Text) → In i (keys inverse) → has_key i d ≡ true)
      → ¬ (In m (keys inverse))
      → match_from key d (some m) (swapped inverse)
        ≡ (if is_empty (named key inverse) then some m else none)
  unfolding match_from
  match_from-taken m [] active out = refl
  match_from-taken m ((i, k) ∷ inverse) active out =
      ground (
        arith,
        eq_iff m i,
        active i (inl refl),
        match_from-taken m inverse (λ j n. active j (inr n)),
      )

  match_from-only :
      (inverse : Dict Text Text)
      → ((i : Text) → In i (keys inverse) → has_key i d ≡ true)
      → Distinct (keys inverse)
      → match_from key d none (swapped inverse) ≡ only (named key inverse)
  unfolding match_from
  match_from-only [] active h = refl
  match_from-only ((i, k) ∷ inverse) active h = ground (
    arith,
    active i (inl refl),
    match_from-taken i inverse (λ j n. active j (inr n)),
    match_from-only inverse (λ j n. active j (inr n)),
    only-cons i (named key inverse),
  )

-- In a sound tracker, a key finds the one identity that is listed with it, and nothing where several
-- are or none.
pub match-only :
    (key : Text) (t : ConnectionTracker)
    → IsSound t
    → unique_active_correlation_match key t ≡ only (named key t.correlation_by_identity)
unfolding unique_active_correlation_match
match-only key t s = rw s.indexed.inverted (
    match_from-only key t.connections t.correlation_by_identity
      (λ i m. (has_key-In i t.connections).1 (rw s.indexed.same_keys at m))
      (rw s.indexed.same_keys s.indexed.distinct))
