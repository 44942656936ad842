-- ===== src/Verdict/Outbound.antt =====
-- When an outbound connection is trusted under the default rules.
use neta_agent.Prelude.{◌≡◌, ◌≢◌, ◌⊎◌, ◌↔◌, true, false, some, [], text_eq, text_beq_iff, arith}
use neta_agent.Model.{TrustState, Baseline, TlsObservation}
use neta_agent.Verdict.{default_rules, evaluate_outbound}

-- Under the default rules, where a baseline has an accepted key and a probe was made: the trust is
-- SUSPICIOUS exactly where the chain or the host name is not valid, CHANGED exactly where both are
-- valid and the key is another one, STABLE exactly where both are valid and the key is the same.
pub outbound_trust_iff :
    (baseline : Baseline) (tls : TlsObservation)
    → baseline.accepted_spki_sha256 ≢ []
    → let trust = (evaluate_outbound baseline (some tls) default_rules).trust in
      let valid = (tls.chain_valid ≡ true) × (tls.hostname_valid ≡ true) in
      ((trust ≡ TrustState.suspicious) ↔ ((tls.chain_valid ≡ false) ⊎ (tls.hostname_valid ≡ false)))
      × ((trust ≡ TrustState.changed) ↔ (valid × (tls.spki_sha256 ≢ baseline.accepted_spki_sha256)))
      × ((trust ≡ TrustState.stable) ↔ (valid × (tls.spki_sha256 ≡ baseline.accepted_spki_sha256)))
unfolding evaluate_outbound
outbound_trust_iff baseline tls key =
    let same = text_beq_iff tls.spki_sha256 baseline.accepted_spki_sha256 in
    (ground (arith, same, key), ground (arith, same, key), ground (arith, same, key))
