-- ===== src/Examples/Trust.antt =====
-- Correlation with name resolutions and trust decisions at concrete inputs.
use neta_agent.Prelude.{
  ◌≡◌, ◌≢◌, ◌⊎◌, ◌↔◌, refl, true, false, none, some, [], ◌∷◌, bytes, pos, keep, length, arith, ap,
}
use neta_agent.Model.{
  ConnectionDirection, EvidenceFidelity, PerformanceState, TrustState, NetworkAddressFamily,
  ConnectionSummary, TlsObservation, Baseline,
}
use neta_agent.Resolution.{
  NameResolutionQueryKind, NameResolutionMechanism, NameResolutionObservation,
  NameResolutionCorrelationPolicy, agent_process_id, contains_remote_address, is_candidate,
  correlate_name_resolution,
}
use neta_agent.Resolution.Candidates.{IsCandidate, is_candidate_iff}
use neta_agent.Resolution.Matching.{candidates, decide, correlate-decide}
use neta_agent.Verdict.{
  TlsSessionRole, TlsSessionRelation, TlsSessionEvidence, default_rules, context_of,
  inbound_identity, is_exact_evidence, inbound_trust_context, evaluate_inbound, evaluate_outbound,
}
use neta_agent.Verdict.Inbound.{Authenticated, SameIdentity, inbound_stable_iff}
use neta_agent.Verdict.Outbound.{outbound_trust_iff}

abbrev pub connection : ConnectionSummary
connection = record {
  id = pos 1;
  first_seen_ns = 2000;
  last_seen_ns = 2000;
  captured_at_ns = none;
  direction = ConnectionDirection.outbound;
  socket_cookie = 0;
  socket_inode = 0;
  network_namespace_inode = none;
  process = record {
    pid = pos 7;
    uid = 0;
    start_ticks = some 50;
    comm = bytes "curl";
    executable_path = [];
  };
  local_ip = bytes "10.0.0.1";
  local_port = 5000;
  remote_ip = bytes "10.0.0.2";
  remote_port = 443;
  target_host = [];
  lifecycle_state = [];
  performance = PerformanceState.insufficient_evidence;
  trust = TrustState.unverified;
}

abbrev pub resolution : NameResolutionObservation
resolution = record {
  started_ns = 900;
  completed_ns = 1000;
  query_kind = NameResolutionQueryKind.forward;
  mechanism = NameResolutionMechanism.application_resolver_api;
  process = record {
    agent_visible = record { pid = none; tgid = some (pos 7) };
    kernel = record { pid = none; tgid = none };
    agent_pid_namespace = none;
    uid = none;
    start_ticks = some 50;
    comm = none;
  };
  network_namespace_inode = none;
  query_name = bytes "example.org";
  canonical_name = none;
  addresses = record { family = NetworkAddressFamily.ipv4; address = bytes "10.0.0.2" } ∷ [];
  result_code = some (pos 0);
  fidelity = EvidenceFidelity.exact;
  source = [];
}

abbrev policy : NameResolutionCorrelationPolicy
policy = record { max_age_ns = 5000 }

is_candidate_iff_example :
    (is_candidate connection resolution policy ≡ true) ↔ IsCandidate connection resolution policy
is_candidate_iff_example = is_candidate_iff connection resolution policy

correlate-decide_example :
    correlate_name_resolution connection (resolution ∷ resolution ∷ []) policy
    ≡ decide connection policy (candidates connection policy (resolution ∷ resolution ∷ []))
correlate-decide_example = correlate-decide connection policy (resolution ∷ resolution ∷ [])

-- Two candidates, though they agree, are ambiguous.
two_candidates : length (candidates connection policy (resolution ∷ resolution ∷ [])) ≡ 2
unfolding is_candidate agent_process_id contains_remote_address
two_candidates = refl

abbrev accepted : Baseline
accepted = record {
  target_host = bytes "host";
  target_port = 443;
  rtt_median_us = 0;
  rttvar_median_us = 0;
  accepted_spki_sha256 = bytes "k1";
  accepted_issuer = bytes "ca";
  sample_count = 0;
  created_ns = 0;
  sha256 = [];
}

abbrev pub session : TlsSessionEvidence
session = record {
  observation = record {
    observed_ns = 1;
    local_role = TlsSessionRole.server;
    process = connection.process;
    network_namespace_inode = none;
    socket_cookie = some 9;
    local = record { address = bytes "10.0.0.1"; port = 443 };
    remote = record { address = bytes "10.0.0.2"; port = 5000 };
    tls_version = [];
    cipher = [];
    alpn = [];
    sni = [];
    expected_peer_name = none;
    matched_peer_name = none;
    peer_certificate_present = true;
    peer_verification_required = true;
    verify_result = some (pos 0);
    peer_authenticated = true;
    leaf_sha256 = [];
    spki_sha256 = bytes "k1";
    subject = bytes "CN=client";
    issuer = bytes "ca";
    not_before = [];
    not_after = [];
    fidelity = EvidenceFidelity.exact;
    source = [];
  };
  relation = TlsSessionRelation.inbound_client_identity;
  correlation_fidelity = EvidenceFidelity.exact;
}

inbound_stable_iff_example :
    ((evaluate_inbound (some accepted) (inbound_trust_context (session ∷ [])) default_rules).trust
      ≡ TrustState.stable)
    ↔ ((item : TlsSessionEvidence) × (b : Baseline) × (keep is_exact_evidence (session ∷ [])
          ≡ item ∷ [])
        × (some accepted ≡ some b)
        × Authenticated item
        × (b.accepted_spki_sha256 ≢ [])
        × SameIdentity item b)
inbound_stable_iff_example = inbound_stable_iff (session ∷ []) (some accepted)

session_stable :
    (evaluate_inbound (some accepted) (inbound_trust_context (session ∷ [])) default_rules).trust
    ≡ TrustState.stable
unfolding evaluate_inbound inbound_trust_context context_of inbound_identity
session_stable = refl

abbrev probe : TlsObservation
probe = record {
  target_host = bytes "host";
  target_port = 443;
  observed_ns = 1;
  tls_version = [];
  cipher = [];
  alpn = [];
  leaf_sha256 = [];
  spki_sha256 = bytes "k2";
  subject = [];
  issuer = [];
  not_before = [];
  not_after = [];
  chain_valid = true;
  hostname_valid = true;
  sha256 = [];
}

key_given : accepted.accepted_spki_sha256 ≢ []
key_given e = omega (arith, ap (λ t. length t) e)

outbound_trust_iff_example :
    let trust = (evaluate_outbound accepted (some probe) default_rules).trust in
    let valid = (probe.chain_valid ≡ true) × (probe.hostname_valid ≡ true) in
    ((trust ≡ TrustState.suspicious)
      ↔ ((probe.chain_valid ≡ false) ⊎ (probe.hostname_valid ≡ false)))
    × ((trust ≡ TrustState.changed) ↔ (valid × (probe.spki_sha256 ≢ accepted.accepted_spki_sha256)))
    × ((trust ≡ TrustState.stable) ↔ (valid × (probe.spki_sha256 ≡ accepted.accepted_spki_sha256)))
outbound_trust_iff_example = outbound_trust_iff accepted probe key_given
