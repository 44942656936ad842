-- ===== src/TlsSession.antt =====
-- The correlation of an observed TLS session with a connection: src/core/tls_session.cpp and
-- include/neta/tls_session.hpp. The records of the header are those of the module Verdict.
use neta_agent.Prelude.{
  ℕ, ◌+◌, ◌-◌, Bool, true, false, ◌&&◌, ◌||◌, not, Option, none, some, List, [], ◌∷◌, Text, bytes,
  ◌==◌, nat_eq, text_eq, int_eq, ℤ, is_negative, ltb, if◌then◌else◌, is_some,
}
use neta_agent.Prelude.Decimal.{max_u64}
use neta_agent.Model.{ConnectionDirection, direction_eq, EvidenceFidelity, ConnectionSummary}
use neta_agent.Verdict.{
  TlsSessionRole, TlsSessionRelation, TlsSessionObservation, TlsSessionEvidence,
}
use neta_agent.Resolution.{both_differ, is_contextual, is_supporting}
pub mod Names
pub mod Fits
pub mod Kinds
pub mod Matching
pub mod Hashes

pub data TlsSessionCorrelationStatus : Type 0 where
  no_match awaiting_identity matched ambiguous : TlsSessionCorrelationStatus

pub record TlsSessionCorrelationPolicy : Type 0 where
  pub tuple_max_age_ns : ℕ

pub record TlsSessionCorrelationResult : Type 0 where
  pub status : TlsSessionCorrelationStatus
  pub connection_id : Option ℤ
  pub evidence : Option TlsSessionEvidence
  pub candidate_count : ℕ

unfoldable pub valid_cookie : Option ℕ → Bool
valid_cookie none = false
valid_cookie (some cookie) = not (cookie == 0) && not (cookie == max_u64)

unfoldable pub direction_for : TlsSessionRole → ConnectionDirection
direction_for TlsSessionRole.client = ConnectionDirection.outbound
direction_for TlsSessionRole.server = ConnectionDirection.inbound
direction_for TlsSessionRole.unknown = ConnectionDirection.unknown

unfoldable pub same_process : TlsSessionObservation → ConnectionSummary → Bool
same_process observation connection =
    if is_negative observation.process.pid
      || is_negative connection.process.pid
      || not (observation.process.pid == connection.process.pid)
    then false
    else if both_differ observation.process.start_ticks connection.process.start_ticks
    then false
    else true

unfoldable pub same_namespace : TlsSessionObservation → ConnectionSummary → Bool
same_namespace observation connection =
    not (both_differ observation.network_namespace_inode connection.network_namespace_inode)

unfoldable pub same_tuple : TlsSessionObservation → ConnectionSummary → Bool
same_tuple observation connection =
    observation.local.address == connection.local_ip
    && observation.local.port == connection.local_port
    && observation.remote.address == connection.remote_ip
    && observation.remote.port == connection.remote_port

unfoldable pub within_connection_time :
    TlsSessionObservation → ConnectionSummary → TlsSessionCorrelationPolicy → Bool → Bool
within_connection_time observation connection policy cookie_match =
    if observation.observed_ns == 0
      || connection.first_seen_ns == 0
      || ltb observation.observed_ns connection.first_seen_ns
    then false
    else if connection.lifecycle_state == bytes "CLOSED"
        && not (connection.last_seen_ns == 0)
        && ltb connection.last_seen_ns observation.observed_ns
    then false
    else if not cookie_match
        && ltb policy.tuple_max_age_ns (observation.observed_ns - connection.first_seen_ns)
    then false
    else true

pub data CandidateKind : Type 0 where
  nothing awaiting exact tuple : CandidateKind

abbrev pub cookie_is : Option ℕ → ℕ → Bool
cookie_is none cookie = false
cookie_is (some a) cookie = a == cookie

unfoldable pub candidate_kind :
    TlsSessionObservation → ConnectionSummary → TlsSessionCorrelationPolicy → CandidateKind
unfolding direction_for same_process same_namespace valid_cookie same_tuple within_connection_time
candidate_kind observation connection policy =
    let direction = direction_for observation.local_role in
    if direction == ConnectionDirection.unknown || not (connection.direction == direction)
    then CandidateKind.nothing
    else if not (same_process observation connection) || not (same_namespace observation connection)
    then CandidateKind.nothing
    else if valid_cookie observation.socket_cookie
    then if not (connection.socket_cookie == 0)
      then if not (cookie_is observation.socket_cookie connection.socket_cookie)
        then CandidateKind.nothing
        else if within_connection_time observation connection policy true
        then CandidateKind.exact
        else CandidateKind.nothing
      else if not (same_tuple observation connection)
      then CandidateKind.nothing
      else if within_connection_time observation connection policy false
      then CandidateKind.awaiting
      else CandidateKind.nothing
    else if not (same_tuple observation connection)
    then CandidateKind.nothing
    else if within_connection_time observation connection policy false
    then CandidateKind.tuple
    else CandidateKind.nothing

unfoldable pub relation_for : TlsSessionObservation → TlsSessionRelation
relation_for observation = elim observation.local_role [
  | TlsSessionRole.client ↦
      if observation.peer_certificate_present
      then TlsSessionRelation.outbound_server_identity
      else TlsSessionRelation.outbound_tls_session
  | TlsSessionRole.server ↦
      if observation.peer_certificate_present
      then TlsSessionRelation.inbound_client_identity
      else TlsSessionRelation.inbound_tls_session
  | TlsSessionRole.unknown ↦ TlsSessionRelation.unknown
]

unfoldable pub tls_fidelity : TlsSessionObservation → Bool → EvidenceFidelity
tls_fidelity observation cookie_match =
    if is_contextual observation.fidelity
    then EvidenceFidelity.contextual
    else if is_supporting observation.fidelity
    then EvidenceFidelity.supporting
    else if cookie_match
    then EvidenceFidelity.exact
    else EvidenceFidelity.strongly_correlated

-- What the loop has found: how many candidates, the first of them and whether its cookie matched,
-- and how many connections await their identity.
pub record Tally : Type 0 where
  pub candidate_count : ℕ
  pub match : Option (ConnectionSummary × Bool)
  pub awaiting_identity_count : ℕ

abbrev pub add_candidate : ConnectionSummary → Bool → Tally → Tally
add_candidate connection by_cookie tally = record tally {
  candidate_count = tally.candidate_count + 1;
  match = if is_some tally.match then tally.match else some (connection, by_cookie);
}

unfoldable pub count_kind : ConnectionSummary → CandidateKind → Tally → Tally
count_kind connection CandidateKind.awaiting tally = record tally {
  awaiting_identity_count = tally.awaiting_identity_count + 1;
}
count_kind connection CandidateKind.nothing tally = tally
count_kind connection CandidateKind.exact tally = add_candidate connection true tally
count_kind connection CandidateKind.tuple tally = add_candidate connection false tally

unfoldable pub tally :
    TlsSessionObservation → TlsSessionCorrelationPolicy → List ConnectionSummary → Tally → Tally
unfolding candidate_kind count_kind
tally observation policy [] t = t
tally observation policy (connection ∷ connections) t =
    tally observation policy connections
      (count_kind connection (candidate_kind observation connection policy) t)

abbrev pub without_evidence : TlsSessionCorrelationStatus → ℕ → TlsSessionCorrelationResult
without_evidence status count = record {
  status = status;
  connection_id = none;
  evidence = none;
  candidate_count = count;
}

unfoldable pub matched_session :
    TlsSessionObservation → ConnectionSummary → Bool → TlsSessionCorrelationResult
unfolding relation_for tls_fidelity
matched_session observation connection by_cookie = record {
  status = TlsSessionCorrelationStatus.matched;
  connection_id = some connection.id;
  evidence = some (record {
    observation = observation;
    relation = relation_for observation;
    correlation_fidelity = tls_fidelity observation by_cookie;
  });
  candidate_count = 1;
}

-- The result, once the loop is over.
unfoldable pub conclude : TlsSessionObservation → Tally → TlsSessionCorrelationResult
unfolding matched_session
conclude observation found =
    if found.candidate_count == 0 && not (found.awaiting_identity_count == 0)
    then without_evidence
        (if found.awaiting_identity_count == 1
          then TlsSessionCorrelationStatus.awaiting_identity
          else TlsSessionCorrelationStatus.ambiguous)
        found.awaiting_identity_count
    else if found.candidate_count == 0
    then without_evidence TlsSessionCorrelationStatus.no_match 0
    else if not (found.candidate_count == 1)
    then without_evidence TlsSessionCorrelationStatus.ambiguous found.candidate_count
    else elim found.match [
      | none ↦ without_evidence TlsSessionCorrelationStatus.ambiguous found.candidate_count
      | some match ↦ matched_session observation match.0 match.1
    ]

unfoldable pub correlate_tls_session :
    TlsSessionObservation
    → List ConnectionSummary
    → TlsSessionCorrelationPolicy
    → TlsSessionCorrelationResult
unfolding tally conclude
correlate_tls_session observation connections policy = conclude observation (
    tally observation policy connections
      (record { candidate_count = 0; match = none; awaiting_identity_count = 0 }))
