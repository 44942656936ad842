-- ===== src/Verdict.antt =====
-- Trust decisions and aggregated metrics of src/core/verdict.cpp, with the records of
-- include/neta/verdict.hpp, include/neta/tls_session.hpp and include/neta/rules/rule_set.hpp that
-- they read. The performance score, which works on doubles, and the hashes are left out.
use neta_agent.Prelude.{
  ℕ, ◌-◌, max, Bool, true, false, ◌&&◌, ◌||◌, not, Option, none, some, List, [], ◌∷◌, Text, bytes,
  ◌==◌, nat_eq, text_eq, int_eq, ℤ, pos, leb, if◌then◌else◌, keep, is_empty,
}
use neta_agent.Model.{
  TrustState, EvidenceFidelity, ProcessIdentity, TcpSnapshot, TlsObservation, Baseline,
  AggregateMetrics,
}
pub mod Inbound
pub mod Outbound

pub data TlsSessionRole : Type 0 where
  unknown client server : TlsSessionRole

pub data TlsSessionRelation : Type 0 where
  unknown outbound_tls_session outbound_server_identity inbound_tls_session
        inbound_client_identity :
      TlsSessionRelation

pub record TlsSessionEndpoint : Type 0 where
  pub address : Text
  pub port : ℕ

pub record TlsSessionObservation : Type 0 where
  pub observed_ns : ℕ
  pub local_role : TlsSessionRole
  pub process : ProcessIdentity
  pub network_namespace_inode : Option ℕ
  pub socket_cookie : Option ℕ
  pub local : TlsSessionEndpoint
  pub remote : TlsSessionEndpoint
  pub tls_version : Text
  pub cipher : Text
  pub alpn : Text
  pub sni : Text
  pub expected_peer_name : Option Text
  pub matched_peer_name : Option Text
  pub peer_certificate_present : Bool
  pub peer_verification_required : Bool
  pub verify_result : Option ℤ
  pub peer_authenticated : Bool
  pub leaf_sha256 : Text
  pub spki_sha256 : Text
  pub subject : Text
  pub issuer : Text
  pub not_before : Text
  pub not_after : Text
  pub fidelity : EvidenceFidelity
  pub source : Text

pub record TlsSessionEvidence : Type 0 where
  pub observation : TlsSessionObservation
  pub relation : TlsSessionRelation
  pub correlation_fidelity : EvidenceFidelity

-- The switches that the trust decisions read.
pub record RuleSet : Type 0 where
  pub outbound_tls_identity : Bool
  pub outbound_require_chain_valid : Bool
  pub outbound_require_hostname_valid : Bool
  pub outbound_compare_spki : Bool
  pub inbound_authenticated_identity : Bool
  pub inbound_require_exact_evidence : Bool
  pub inbound_require_peer_certificate : Bool
  pub inbound_require_peer_authentication : Bool
  pub inbound_verification_failure_suspicious : Bool
  pub inbound_compare_spki : Bool
  pub inbound_compare_issuer : Bool

abbrev pub default_rules : RuleSet
default_rules = record {
  outbound_tls_identity = true;
  outbound_require_chain_valid = true;
  outbound_require_hostname_valid = true;
  outbound_compare_spki = true;
  inbound_authenticated_identity = true;
  inbound_require_exact_evidence = true;
  inbound_require_peer_certificate = true;
  inbound_require_peer_authentication = true;
  inbound_verification_failure_suspicious = true;
  inbound_compare_spki = true;
  inbound_compare_issuer = true;
}

pub record InboundTrustContext : Type 0 where
  pub tls_session_observed : Bool
  pub exact_evidence : Bool
  pub ambiguous : Bool
  pub peer_certificate_present : Bool
  pub peer_verification_required : Bool
  pub verify_result : Option ℤ
  pub peer_authenticated : Bool
  pub spki_sha256 : Text
  pub subject : Text
  pub issuer : Text

-- The trust part of an `AssuranceVerdict`.
pub record Trust : Type 0 where
  pub trust : TrustState
  pub trust_hypothesis : Text

abbrev pub because : TrustState → Text → Trust
because trust hypothesis = record { trust = trust; trust_hypothesis = hypothesis }

abbrev pub is_server : TlsSessionRole → Bool
is_server TlsSessionRole.server = true
is_server _ = false

abbrev pub inbound_relation : TlsSessionRelation → Bool
inbound_relation TlsSessionRelation.inbound_tls_session = true
inbound_relation TlsSessionRelation.inbound_client_identity = true
inbound_relation _ = false

abbrev pub is_exact : EvidenceFidelity → Bool
is_exact EvidenceFidelity.exact = true
is_exact _ = false

abbrev pub is_relevant : TlsSessionEvidence → Bool
is_relevant item = is_server item.observation.local_role && inbound_relation item.relation

abbrev pub is_exact_evidence : TlsSessionEvidence → Bool
is_exact_evidence item =
    is_relevant item && (is_exact item.observation.fidelity && is_exact item.correlation_fidelity)

abbrev pub context_without_identity : Bool → Bool → InboundTrustContext
context_without_identity observed ambiguous = record {
  tls_session_observed = observed;
  exact_evidence = false;
  ambiguous = ambiguous;
  peer_certificate_present = false;
  peer_verification_required = false;
  verify_result = none;
  peer_authenticated = false;
  spki_sha256 = [];
  subject = [];
  issuer = [];
}

-- By the exact evidence, and whether there is relevant evidence.
unfoldable pub context_of : List TlsSessionEvidence → Bool → InboundTrustContext
context_of [] observed = context_without_identity observed false
context_of (item ∷ []) observed = record {
  tls_session_observed = observed;
  exact_evidence = true;
  ambiguous = false;
  peer_certificate_present = item.observation.peer_certificate_present;
  peer_verification_required = item.observation.peer_verification_required;
  verify_result = item.observation.verify_result;
  peer_authenticated = item.observation.peer_authenticated;
  spki_sha256 = item.observation.spki_sha256;
  subject = item.observation.subject;
  issuer = item.observation.issuer;
}
context_of (first ∷ second ∷ rest) observed = context_without_identity observed true

unfoldable pub inbound_trust_context : List TlsSessionEvidence → InboundTrustContext
unfolding context_of
inbound_trust_context evidence =
    context_of (keep is_exact_evidence evidence) (not (is_empty (keep is_relevant evidence)))

-- `verify_result && *verify_result != 0`
abbrev pub verification_failed : Option ℤ → Bool
verification_failed none = false
verification_failed (some result) = not (result == pos 0)

-- `evaluate_inbound` from its test of the accepted identity on.
unfoldable pub inbound_identity : Option Baseline → InboundTrustContext → RuleSet → Trust
inbound_identity none context rules =
    because TrustState.unverified (bytes "INBOUND_CLIENT_IDENTITY_NOT_ACCEPTED")
inbound_identity (some accepted) context rules =
    if is_empty accepted.accepted_spki_sha256
    then because TrustState.unverified (bytes "INBOUND_CLIENT_IDENTITY_NOT_ACCEPTED")
    else if rules.inbound_compare_spki && not (context.spki_sha256 == accepted.accepted_spki_sha256)
        || rules.inbound_compare_issuer
          && not (is_empty accepted.accepted_issuer)
          && not (context.issuer == accepted.accepted_issuer)
    then because TrustState.changed (bytes "INBOUND_CLIENT_IDENTITY_CHANGE")
    else because TrustState.stable []

unfoldable pub evaluate_inbound : Option Baseline → InboundTrustContext → RuleSet → Trust
unfolding inbound_identity
evaluate_inbound accepted_identity context rules =
    if not rules.inbound_authenticated_identity
    then because TrustState.unverified (bytes "INBOUND_TRUST_POLICY_UNAVAILABLE")
    else if context.ambiguous
    then because TrustState.unverified (bytes "INBOUND_CLIENT_IDENTITY_AMBIGUOUS")
    else if not context.tls_session_observed
    then because TrustState.unverified (bytes "INBOUND_TLS_EVIDENCE_UNAVAILABLE")
    else if rules.inbound_require_exact_evidence && not context.exact_evidence
    then because TrustState.unverified (bytes "INBOUND_TLS_EVIDENCE_NOT_EXACT")
    else if rules.inbound_require_peer_certificate && not context.peer_certificate_present
    then because TrustState.unverified (bytes "INBOUND_CLIENT_CERTIFICATE_ABSENT")
    else if rules.inbound_verification_failure_suspicious
        && context.peer_verification_required
        && verification_failed context.verify_result
    then because TrustState.suspicious (bytes "INBOUND_CLIENT_CERTIFICATE_VERIFICATION_FAILURE")
    else if rules.inbound_require_peer_authentication && not context.peer_authenticated
    then because TrustState.unverified (bytes "INBOUND_CLIENT_CERTIFICATE_NOT_AUTHENTICATED")
    else if is_empty context.subject
    then because TrustState.unverified (bytes "INBOUND_CLIENT_PRINCIPAL_UNAVAILABLE")
    else inbound_identity accepted_identity context rules

-- The trust part of `evaluate`.
unfoldable pub evaluate_outbound : Baseline → Option TlsObservation → RuleSet → Trust
evaluate_outbound baseline none rules =
    if not rules.outbound_tls_identity
    then because TrustState.unverified (bytes "OUTBOUND_TRUST_POLICY_DISABLED")
    else because TrustState.unverified []
evaluate_outbound baseline (some tls) rules =
    if not rules.outbound_tls_identity
    then because TrustState.unverified (bytes "OUTBOUND_TRUST_POLICY_DISABLED")
    else if is_empty baseline.accepted_spki_sha256
    then because TrustState.unverified []
    else if rules.outbound_require_chain_valid && not tls.chain_valid
        || rules.outbound_require_hostname_valid && not tls.hostname_valid
    then because TrustState.suspicious (bytes "TLS_VALIDATION_FAILURE")
    else if rules.outbound_compare_spki && not (tls.spki_sha256 == baseline.accepted_spki_sha256)
    then because TrustState.changed (bytes "TLS_IDENTITY_CHANGE")
    else because TrustState.stable []

-- The loop over the samples.
unfoldable pub observe_samples : List TcpSnapshot → AggregateMetrics → AggregateMetrics
observe_samples [] m = m
observe_samples (sample ∷ samples) m = observe_samples samples (
    if not (sample.rtt_us == 0)
    then record m {
      observed_rtt_us = max m.observed_rtt_us sample.rtt_us;
      observed_rttvar_us = max m.observed_rttvar_us sample.rtt_variance_us;
    }
    else m)

abbrev pub last_retrans : ℕ → List TcpSnapshot → ℕ
last_retrans n [] = n
last_retrans n (sample ∷ samples) = last_retrans sample.total_retrans samples

unfoldable pub aggregate_metrics : List TcpSnapshot → AggregateMetrics
unfolding observe_samples
aggregate_metrics [] = record {
  observed_rtt_us = 0;
  observed_rttvar_us = 0;
  retransmission_delta = 0;
}
aggregate_metrics (front ∷ samples) =
    let none_yet : AggregateMetrics = record {
      observed_rtt_us = 0;
      observed_rttvar_us = 0;
      retransmission_delta = 0;
    } in
    let first = front.total_retrans in
    let last = last_retrans first samples in
    record (observe_samples (front ∷ samples) none_yet) {
      retransmission_delta = if leb first last then last - first else 0;
    }
