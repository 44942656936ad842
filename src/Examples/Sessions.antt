-- ===== src/Examples/Sessions.antt =====
-- Correlation with TLS sessions, and the hashes of evidence, at concrete inputs.
use mathlib.Core.List.{Permᴰ}
use neta_agent.Prelude.{◌≡◌, ◌↔◌, refl, true, false, none, some, [], ◌∷◌, bytes, length}
use neta_agent.Model.{EvidenceFidelity, NetworkAddressFamily, ConnectionSummary}
use neta_agent.Verdict.{TlsSessionRole, TlsSessionObservation}
use neta_agent.TlsSession.{
  TlsSessionCorrelationPolicy, CandidateKind, candidate_kind, valid_cookie, correlate_tls_session,
}
use neta_agent.TlsSession.Fits.{Fits, Alive, SameEnds, Recent}
use neta_agent.TlsSession.Kinds.{candidate_kind_iff}
use neta_agent.TlsSession.Matching.{matches, awaiting, decide, correlate_tls-decide}
use neta_agent.Resolution.{NameResolutionAddress, NameResolutionEvidence, NameResolutionRelation}
use neta_agent.Resolution.Hashes.{
  name_resolution_evidence_hash, name_resolution_evidence_set_hash, with_list, resolution_hash-Perm,
}
use neta_agent.Examples.Sequences.{sha}
use neta_agent.Examples.Trust.{connection, resolution, session}

abbrev policy : TlsSessionCorrelationPolicy
policy = record { tuple_max_age_ns = 30000000000 }

abbrev linked : ConnectionSummary
linked = record connection { socket_cookie = 77 }

abbrev observed : TlsSessionObservation
observed = record (session.observation) {
  observed_ns = 3000;
  local_role = TlsSessionRole.client;
  process = connection.process;
  network_namespace_inode = none;
  socket_cookie = some 77;
  local = record { address = bytes "10.0.0.1"; port = 5000 };
  remote = record { address = bytes "10.0.0.2"; port = 443 };
}

candidate_kind_iff_example :
    ((candidate_kind observed linked policy ≡ CandidateKind.exact) ↔ (
      Fits observed linked
      × (valid_cookie (some 77) ≡ true)
      × (observed.socket_cookie ≡ some linked.socket_cookie)
      × Alive observed linked))
    × ((candidate_kind observed linked policy ≡ CandidateKind.awaiting) ↔ (
        Fits observed linked
        × (valid_cookie (some 77) ≡ true)
        × (linked.socket_cookie ≡ 0)
        × SameEnds observed linked
        × Alive observed linked
        × Recent observed linked policy))
    × ((candidate_kind observed linked policy ≡ CandidateKind.tuple) ↔ (
        Fits observed linked
        × (valid_cookie (some 77) ≡ false)
        × SameEnds observed linked
        × Alive observed linked
        × Recent observed linked policy))
candidate_kind_iff_example = candidate_kind_iff observed linked policy

is_exact : candidate_kind observed linked policy ≡ CandidateKind.exact
unfolding candidate_kind
is_exact = refl

waits : candidate_kind observed connection policy ≡ CandidateKind.awaiting
unfolding candidate_kind
waits = refl

correlate_tls-decide_example :
    correlate_tls_session observed (linked ∷ connection ∷ []) policy
    ≡ decide observed policy
        (matches observed policy (linked ∷ connection ∷ []))
        (length (awaiting observed policy (linked ∷ connection ∷ [])))
correlate_tls-decide_example = correlate_tls-decide observed policy (linked ∷ connection ∷ [])

abbrev resolved : NameResolutionEvidence
resolved = record {
  observation = resolution;
  relation = NameResolutionRelation.resolved_address_for_outbound_connection;
  correlation_fidelity = EvidenceFidelity.strongly_correlated;
}

abbrev first_address : NameResolutionAddress
first_address = record { family = NetworkAddressFamily.ipv4; address = bytes "10.0.0.2" }

abbrev second_address : NameResolutionAddress
second_address = record { family = NetworkAddressFamily.ipv6; address = bytes "fe80::1" }

resolution_hash-Perm_example :
    (name_resolution_evidence_hash sha (with_list (first_address ∷ second_address ∷ []) resolved)
      ≡ name_resolution_evidence_hash sha
          (with_list (second_address ∷ first_address ∷ []) resolved))
    × (name_resolution_evidence_set_hash sha (resolved ∷ [])
        ≡ name_resolution_evidence_set_hash sha (resolved ∷ []))
resolution_hash-Perm_example =
    resolution_hash-Perm sha resolved (first_address ∷ second_address ∷ [])
      (second_address ∷ first_address ∷ []) (resolved ∷ []) (resolved ∷ [])
      ∣ Permᴰ.swap refl refl ∣₁ ∣ Permᴰ.cons refl Permᴰ.nil ∣₁
