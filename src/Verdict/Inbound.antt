-- ===== src/Verdict/Inbound.antt =====
-- When an inbound client is trusted under the default rules.
use neta_agent.Prelude.{
  ◌≡◌, ◌≢◌, ◌⊎◌, ◌↔◌, refl, true, false, Option, none, some, List, [], ◌∷◌, text_eq, text_beq_iff,
  int_eq, pos, is_empty, keep, arith,
}
use neta_agent.Model.{TrustState, Baseline}
use neta_agent.Verdict.{
  TlsSessionEvidence, default_rules, is_exact_evidence, is_relevant, context_of,
  inbound_trust_context, inbound_identity, evaluate_inbound,
}

-- An exact session of an authenticated client with a subject, whose verification did not fail.
pub record Authenticated (item : TlsSessionEvidence) : Type 0 where
  pub certificate : item.observation.peer_certificate_present ≡ true
  pub verified :
      (item.observation.peer_verification_required ≡ false)
      ⊎ ((item.observation.verify_result ≡ none) ⊎ (item.observation.verify_result ≡ some (pos 0)))
  pub authenticated : item.observation.peer_authenticated ≡ true
  pub principal : item.observation.subject ≢ []

-- The client has the accepted key, and the accepted issuer where one is given.
pub record SameIdentity (item : TlsSessionEvidence) (accepted : Baseline) : Type 0 where
  pub key : item.observation.spki_sha256 ≡ accepted.accepted_spki_sha256
  pub issuer :
      (accepted.accepted_issuer ≡ []) ⊎ (item.observation.issuer ≡ accepted.accepted_issuer)

relevant-kept :
    (evidence : List TlsSessionEvidence) (item : TlsSessionEvidence)
    → keep is_exact_evidence evidence ≡ item ∷ []
    → is_empty (keep is_relevant evidence) ≡ false
relevant-kept [] item h = ground arith
relevant-kept (x ∷ xs) item h = ground (arith, relevant-kept xs item)

-- The trust by the one exact session.
single :
    (item : TlsSessionEvidence) (b : Baseline)
    → ((evaluate_inbound (some b) (context_of (item ∷ []) true) default_rules).trust
        ≡ TrustState.stable)
      ↔ (Authenticated item × (b.accepted_spki_sha256 ≢ []) × SameIdentity item b)
unfolding evaluate_inbound context_of inbound_identity
single item b =
    let key = text_beq_iff item.observation.spki_sha256 b.accepted_spki_sha256 in
    let issuer = text_beq_iff item.observation.issuer b.accepted_issuer in
    (
      λ h. (
        record {
          certificate = ground (arith, h);
          verified = ground (arith, h);
          authenticated = ground (arith, h);
          principal = λ e. ground (arith, h, e);
        },
        λ e. ground (arith, h, e),
        record { key = ground (arith, h, key); issuer = ground (arith, h, issuer) },
      ),
      λ (a, set, same). ground (
        arith, a.certificate, a.verified, a.authenticated, a.principal, set, same.key, same.issuer,
        key, issuer,
      ),
    )

-- The trust by the list of exact sessions.
by_exact :
    (evidence exact : List TlsSessionEvidence) (b : Baseline)
    → keep is_exact_evidence evidence ≡ exact
    → (evaluate_inbound (some b) (inbound_trust_context evidence) default_rules).trust
      ≡ TrustState.stable
    → (item : TlsSessionEvidence) × (exact ≡ item ∷ [])
      × ((evaluate_inbound (some b) (context_of (item ∷ []) true) default_rules).trust
          ≡ TrustState.stable)
unfolding evaluate_inbound inbound_trust_context context_of
by_exact evidence [] b e h = absurd (ground (arith, e, h))
by_exact evidence (item ∷ []) b e h =
    (item, refl, ground (arith, e, h, relevant-kept evidence item e))
by_exact evidence (item ∷ other ∷ rest) b e h = absurd (ground (arith, e, h))

no_identity :
    (evidence : List TlsSessionEvidence)
    → (evaluate_inbound none (inbound_trust_context evidence) default_rules).trust
      ≢ TrustState.stable
unfolding evaluate_inbound inbound_identity
no_identity evidence h = ground (arith, h)

-- Under the default rules an inbound connection is STABLE exactly where there is one exact session,
-- its client is authenticated and has a subject, its verification did not fail or was not required,
-- and it has the key of an accepted identity with a key, and the issuer where one is given.
pub inbound_stable_iff :
    (evidence : List TlsSessionEvidence) (accepted : Option Baseline)
    → ((evaluate_inbound accepted (inbound_trust_context evidence) default_rules).trust
        ≡ TrustState.stable)
      ↔ ((item : TlsSessionEvidence) × (b : Baseline) × (keep is_exact_evidence evidence
            ≡ item ∷ [])
          × (accepted ≡ some b)
          × Authenticated item
          × (b.accepted_spki_sha256 ≢ [])
          × SameIdentity item b)
unfolding inbound_trust_context
inbound_stable_iff evidence none = (
  λ h. absurd (no_identity evidence h),
  λ (item, b, one, given, a, set, same). absurd (ground (arith, given)),
)
inbound_stable_iff evidence (some b) = (
  λ h.
      let (item, one, trusted) = by_exact evidence (keep is_exact_evidence evidence) b refl h in
      let (a, set, same) = (single item b).0 trusted in (item, b, one, refl, a, set, same),
  λ (item, c, one, given, a, set, same).
      let this : b ≡ c = ground (arith, given) in
      let trusted = (single item c).1 (a, set, same) in
      rw one (rw (relevant-kept evidence item one) (rw this trusted)),
)
