-- ===== src/Resolution/Matching.antt =====
-- The result of a correlation, by its candidates.
use neta_agent.Prelude.{
  ℕ, ◌+◌, ◌≡◌, inl, inr, refl, ◌∙◌, not, Option, none, some, List, [], ◌∷◌, ◌==◌, nat_eq, keep,
  length, arith, Bool-cases, if◌then◌else◌,
}
use neta_agent.Model.{ConnectionSummary}
use neta_agent.Resolution.{
  NameResolutionObservation, NameResolutionCorrelationPolicy, NameResolutionCorrelationResult,
  NameResolutionCorrelationStatus, is_candidate, scan, matched_result, unmatched,
  correlate_name_resolution,
}

module _ (c : ConnectionSummary) (policy : NameResolutionCorrelationPolicy) where
  abbrev pub candidates : List NameResolutionObservation → List NameResolutionObservation
  candidates observations = keep (λ o. is_candidate c o policy) observations

  abbrev first_of :
      Option NameResolutionObservation
      → List NameResolutionObservation
      → Option NameResolutionObservation
  first_of none [] = none
  first_of none (o ∷ rest) = some o
  first_of (some o) rest = some o

  scan-candidates :
      (observations : List NameResolutionObservation) (n : ℕ) (o : Option NameResolutionObservation)
      → scan c policy observations (n, o)
        ≡ (n + length (candidates observations), first_of o (candidates observations))
  unfolding scan
  scan-candidates [] n none = ground arith
  scan-candidates [] n (some o) = ground arith
  scan-candidates (x ∷ xs) n none = elim (Bool-cases (is_candidate c x policy)) [
    | inl hit ↦ rw (hit, scan) (scan-candidates xs (n + 1) (some x) ∙ ground arith)
    | inr miss ↦ rw (miss, scan) (scan-candidates xs n none)
  ]
  scan-candidates (x ∷ xs) n (some o) = elim (Bool-cases (is_candidate c x policy)) [
    | inl hit ↦ rw (hit, scan) (scan-candidates xs (n + 1) (some o) ∙ ground arith)
    | inr miss ↦ rw (miss, scan) (scan-candidates xs n (some o))
  ]

  -- Nothing, one, or several candidates.
  abbrev pub decide : List NameResolutionObservation → NameResolutionCorrelationResult
  decide [] = unmatched NameResolutionCorrelationStatus.no_match 0
  decide (o ∷ []) = matched_result c (some o)
  decide (o ∷ p ∷ rest) =
      unmatched NameResolutionCorrelationStatus.ambiguous (length (o ∷ p ∷ rest))

  -- A connection is matched exactly with the one candidate where there is exactly one; with none it
  -- is not matched, and with several it is ambiguous and has no evidence.
  pub correlate-decide :
      (observations : List NameResolutionObservation)
      → correlate_name_resolution c observations policy ≡ decide (candidates observations)
  unfolding correlate_name_resolution
  correlate-decide observations =
      rw (scan-candidates observations 0 none) (go (candidates observations))
    where
      go :
          (found : List NameResolutionObservation)
          → (if 0 + length found == 0
              then unmatched NameResolutionCorrelationStatus.no_match 0
              else if not (0 + length found == 1)
              then unmatched NameResolutionCorrelationStatus.ambiguous (0 + length found)
              else matched_result c (first_of none found))
            ≡ decide found
      go [] = refl
      go (o ∷ []) = refl
      go (o ∷ p ∷ rest) = ground arith
