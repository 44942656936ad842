-- ===== src/TlsSession/Matching.antt =====
-- The result of a correlation, by the connections that may have carried the session.
use neta_agent.Prelude.{
  ℕ, zero, suc, ◌+◌, ◌≡◌, inl, inr, refl, ap, ◌∙◌, Bool, true, false, Option, none, some, List, [],
  ◌∷◌, nat_eq, keep, length, arith, Option-cases,
}
use neta_agent.Model.{ConnectionSummary}
use neta_agent.Verdict.{TlsSessionObservation}
use neta_agent.TlsSession.{
  CandidateKind, TlsSessionCorrelationPolicy, TlsSessionCorrelationStatus,
  TlsSessionCorrelationResult, Tally, candidate_kind, count_kind, tally, without_evidence, conclude,
  matched_session, correlate_tls_session,
}

abbrev pub is_match : CandidateKind → Bool
is_match CandidateKind.exact = true
is_match CandidateKind.tuple = true
is_match _ = false

abbrev pub is_awaiting : CandidateKind → Bool
is_awaiting CandidateKind.awaiting = true
is_awaiting _ = false

abbrev pub is_exact : CandidateKind → Bool
is_exact CandidateKind.exact = true
is_exact _ = false

module _ (o : TlsSessionObservation) (policy : TlsSessionCorrelationPolicy) where
  abbrev pub matches : List ConnectionSummary → List ConnectionSummary
  matches cs = keep (λ c. is_match (candidate_kind o c policy)) cs

  abbrev pub awaiting : List ConnectionSummary → List ConnectionSummary
  awaiting cs = keep (λ c. is_awaiting (candidate_kind o c policy)) cs

  abbrev first_of :
      Option (ConnectionSummary × Bool) → List ConnectionSummary → Option (ConnectionSummary × Bool)
  first_of none [] = none
  first_of none (c ∷ rest) = some (c, is_exact (candidate_kind o c policy))
  first_of (some m) rest = some m

  abbrev counted : List ConnectionSummary → Tally → Tally
  counted cs t = record {
    candidate_count = t.candidate_count + length (matches cs);
    match = first_of t.match (matches cs);
    awaiting_identity_count = t.awaiting_identity_count + length (awaiting cs);
  }

  one-counted :
      (k : CandidateKind) (c : ConnectionSummary) (cs : List ConnectionSummary) (t : Tally)
      → candidate_kind o c policy ≡ k
      → counted cs (count_kind c k t) ≡ counted (c ∷ cs) t
  unfolding count_kind
  one-counted CandidateKind.nothing c cs t h = rw h refl
  one-counted CandidateKind.awaiting c cs t h = rw h (ground arith)
  one-counted CandidateKind.exact c cs t h = elim (Option-cases t.match) [
    | inl empty ↦ rw (h, empty) (ground (arith, h))
    | inr (m, held) ↦ rw (h, held) (ground arith)
  ]
  one-counted CandidateKind.tuple c cs t h = elim (Option-cases t.match) [
    | inl empty ↦ rw (h, empty) (ground (arith, h))
    | inr (m, held) ↦ rw (h, held) (ground arith)
  ]

  tally-counted : (cs : List ConnectionSummary) (t : Tally) → tally o policy cs t ≡ counted cs t
  unfolding tally
  tally-counted [] t = elim (Option-cases t.match) [
    | inl empty ↦ ground (arith, empty)
    | inr (m, held) ↦ ground (arith, held)
  ]
  tally-counted (c ∷ cs) t =
      tally-counted cs (count_kind c (candidate_kind o c policy) t) ∙ one-counted _ c cs t refl

  -- The result, from the connections that match and the number of those that await their identity.
  abbrev pub decide : List ConnectionSummary → ℕ → TlsSessionCorrelationResult
  decide [] zero = without_evidence TlsSessionCorrelationStatus.no_match 0
  decide [] (suc zero) = without_evidence TlsSessionCorrelationStatus.awaiting_identity 1
  decide [] (suc (suc n)) = without_evidence TlsSessionCorrelationStatus.ambiguous (suc (suc n))
  decide (c ∷ []) n = matched_session o c (is_exact (candidate_kind o c policy))
  decide (c ∷ d ∷ rest) n =
      without_evidence TlsSessionCorrelationStatus.ambiguous (length (c ∷ d ∷ rest))

  conclude-decide :
      (found : List ConnectionSummary) (n : ℕ)
      → conclude o (record {
        candidate_count = 0 + length found;
        match = first_of none found;
        awaiting_identity_count = 0 + n;
      })
        ≡ decide found n
  unfolding conclude
  conclude-decide [] zero = refl
  conclude-decide [] (suc zero) = refl
  conclude-decide [] (suc (suc n)) = ground arith
  conclude-decide (c ∷ []) n = ground arith
  conclude-decide (c ∷ d ∷ rest) n = ground arith

  -- With one match the session is matched with it, by its cookie where that is how it matched; with
  -- several it is ambiguous; with none it is unmatched, awaits the identity of the one connection
  -- that awaits it, or is ambiguous between several such.
  pub correlate_tls-decide :
      (cs : List ConnectionSummary)
      → correlate_tls_session o cs policy ≡ decide (matches cs) (length (awaiting cs))
  unfolding correlate_tls_session
  correlate_tls-decide cs =
      ap (conclude o) (
        tally-counted cs
          (record { candidate_count = 0; match = none; awaiting_identity_count = 0 }))
      ∙ conclude-decide (matches cs) (length (awaiting cs))
