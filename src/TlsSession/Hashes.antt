-- ===== src/TlsSession/Hashes.antt =====
-- The hashes of sessions and of sets of them, in src/core/tls_session.cpp.
use neta_agent.Prelude.{
  ℕ, ◌≡◌, if◌then◌else◌, Bool, true, false, Option, none, some, List, [], ◌++◌, Text, bytes,
  value_or, int_to_string, ℤ,
}
use mathlib.Core.List.{Perm}
use neta_agent.Prelude.Decimal.{to_string}
use neta_agent.Crypto.{Sha256, sha256_hex}
use neta_agent.Crypto.SetHash.{set_hash, set_hash-Perm}
use neta_agent.Model.Names.{fidelity_to_string}
use neta_agent.TlsSession.Names.{role_to_string, session_relation_to_string}
use neta_agent.Verdict.{TlsSessionObservation, TlsSessionEvidence}

abbrev pub optional_number : Option ℕ → Text
optional_number none = []
optional_number (some n) = to_string n

abbrev pub optional_int : Option ℤ → Text
optional_int none = []
optional_int (some n) = int_to_string n

abbrev pub bool_to_string : Bool → Text
bool_to_string true = bytes "1"
bool_to_string false = bytes "0"

abbrev bar : Text
bar = bytes "|"

unfoldable pub canonical_observation : TlsSessionObservation → Bool → Text
unfolding role_to_string to_string
canonical_observation o include_observed_ns =
    (if include_observed_ns then to_string o.observed_ns else [])
    ++ bar
    ++ role_to_string o.local_role
    ++ bar
    ++ int_to_string o.process.pid
    ++ bar
    ++ to_string o.process.uid
    ++ bar
    ++ optional_number o.process.start_ticks
    ++ bar
    ++ o.process.comm
    ++ bar
    ++ optional_number o.network_namespace_inode
    ++ bar
    ++ optional_number o.socket_cookie
    ++ bar
    ++ o.local.address
    ++ bytes ":"
    ++ to_string o.local.port
    ++ bytes "->"
    ++ o.remote.address
    ++ bytes ":"
    ++ to_string o.remote.port
    ++ bar
    ++ o.tls_version
    ++ bar
    ++ o.cipher
    ++ bar
    ++ o.alpn
    ++ bar
    ++ o.sni
    ++ bar
    ++ value_or o.expected_peer_name []
    ++ bar
    ++ value_or o.matched_peer_name []
    ++ bar
    ++ bool_to_string o.peer_certificate_present
    ++ bar
    ++ bool_to_string o.peer_verification_required
    ++ bar
    ++ optional_int o.verify_result
    ++ bar
    ++ bool_to_string o.peer_authenticated
    ++ bar
    ++ o.leaf_sha256
    ++ bar
    ++ o.spki_sha256
    ++ bar
    ++ o.subject
    ++ bar
    ++ o.issuer
    ++ bar
    ++ o.not_before
    ++ bar
    ++ o.not_after
    ++ bar
    ++ fidelity_to_string o.fidelity
    ++ bar
    ++ o.source

module _ (sha : Sha256) where
  unfoldable pub tls_session_identity_key : TlsSessionObservation → Text
  unfolding canonical_observation
  tls_session_identity_key o = sha256_hex sha (canonical_observation o false)

  unfoldable pub tls_session_evidence_hash : TlsSessionEvidence → Text
  unfolding canonical_observation session_relation_to_string
  tls_session_evidence_hash e = sha256_hex sha (
      canonical_observation e.observation true
      ++ bar
      ++ session_relation_to_string e.relation
      ++ bar
      ++ fidelity_to_string e.correlation_fidelity)

  unfoldable pub tls_session_evidence_set_hash : List TlsSessionEvidence → Text
  unfolding set_hash tls_session_evidence_hash
  tls_session_evidence_set_hash es = set_hash sha tls_session_evidence_hash es

  -- The hash of a set of sessions does not depend on the order in which they come.
  pub tls_session_set-Perm :
      (xs ys : List TlsSessionEvidence)
      → Perm xs ys
      → tls_session_evidence_set_hash xs ≡ tls_session_evidence_set_hash ys
  unfolding tls_session_evidence_set_hash
  tls_session_set-Perm xs ys d = set_hash-Perm sha tls_session_evidence_hash xs ys d
