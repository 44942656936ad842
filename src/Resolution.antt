-- ===== src/Resolution.antt =====
-- The correlation of a connection with the name resolutions that preceded it:
-- src/core/name_resolution.cpp and include/neta/name_resolution.hpp. The names and
-- the hashes are in the child modules.
use neta_agent.Prelude.{
  ℕ, ◌+◌, ◌-◌, Bool, true, false, ◌&&◌, ◌||◌, not, Option, none, some, List, [], ◌∷◌, Text, bytes,
  ◌==◌, EqTest, nat_eq, text_eq, option_eq, int_eq, ℤ, pos, is_negative, ltb, if◌then◌else◌, any,
  is_empty, is_some,
}
use neta_agent.Model.{
  ConnectionDirection, direction_eq, EvidenceFidelity, NetworkAddressFamily,
  LifecycleProcessContext, ConnectionSummary,
}
pub mod Candidates
pub mod Matching
pub mod Names
pub mod Hashes

pub data NameResolutionQueryKind : Type 0 where
  unknown forward reverse : NameResolutionQueryKind

pub data NameResolutionMechanism : Type 0 where
  unknown application_resolver_api system_resolver_event application_provided :
      NameResolutionMechanism

pub data NameResolutionRelation : Type 0 where
  unknown resolved_address_for_outbound_connection reverse_lookup_for_inbound_peer :
      NameResolutionRelation

pub record NameResolutionAddress : Type 0 where
  pub family : NetworkAddressFamily
  pub address : Text

pub record NameResolutionObservation : Type 0 where
  pub started_ns : ℕ
  pub completed_ns : ℕ
  pub query_kind : NameResolutionQueryKind
  pub mechanism : NameResolutionMechanism
  pub process : LifecycleProcessContext
  pub network_namespace_inode : Option ℕ
  pub query_name : Text
  pub canonical_name : Option Text
  pub addresses : List NameResolutionAddress
  pub result_code : Option ℤ
  pub fidelity : EvidenceFidelity
  pub source : Text

pub record NameResolutionEvidence : Type 0 where
  pub observation : NameResolutionObservation
  pub relation : NameResolutionRelation
  pub correlation_fidelity : EvidenceFidelity

pub data NameResolutionCorrelationStatus : Type 0 where
  no_match matched ambiguous : NameResolutionCorrelationStatus

pub record NameResolutionCorrelationPolicy : Type 0 where
  pub max_age_ns : ℕ

pub record NameResolutionCorrelationResult : Type 0 where
  pub status : NameResolutionCorrelationStatus
  pub evidence : Option NameResolutionEvidence
  pub candidate_count : ℕ

unfoldable pub agent_process_id : LifecycleProcessContext → Option ℤ
agent_process_id process =
    if is_some process.agent_visible.tgid
    then process.agent_visible.tgid
    else process.agent_visible.pid

unfoldable pub contains_remote_address : NameResolutionObservation → Text → Bool
contains_remote_address observation remote_ip =
    any (λ address. address.address == remote_ip) observation.addresses

abbrev pub is_forward : NameResolutionQueryKind → Bool
is_forward NameResolutionQueryKind.forward = true
is_forward _ = false

-- `a && *a != value`
abbrev pub is_other {ℓ} : {A : Type ℓ} ⦃e : EqTest A⦄ → Option A → A → Bool
is_other none value = false
is_other (some a) value = not (a == value)

-- `a && b && *a != *b`
abbrev pub both_differ : Option ℕ → Option ℕ → Bool
both_differ none b = false
both_differ (some a) none = false
both_differ (some a) (some b) = not (a == b)

-- `a && b && *a == *b`
abbrev pub both_same : Option ℕ → Option ℕ → Bool
both_same none b = false
both_same (some a) none = false
both_same (some a) (some b) = a == b

unfoldable pub is_candidate :
    ConnectionSummary → NameResolutionObservation → NameResolutionCorrelationPolicy → Bool
unfolding agent_process_id contains_remote_address
is_candidate connection observation policy =
    if not (connection.direction == ConnectionDirection.outbound)
    then false
    else if not (is_forward observation.query_kind)
    then false
    else if is_other observation.result_code (pos 0)
    then false
    else if connection.first_seen_ns == 0 || observation.completed_ns == 0
    then false
    else if not (observation.started_ns == 0) && ltb observation.completed_ns observation.started_ns
    then false
    else if ltb connection.first_seen_ns observation.completed_ns
    then false
    else if ltb policy.max_age_ns (connection.first_seen_ns - observation.completed_ns)
    then false
    else if is_empty observation.query_name
        || not (contains_remote_address observation connection.remote_ip)
    then false
    else if not (is_some (agent_process_id observation.process))
        || is_negative connection.process.pid
        || is_other (agent_process_id observation.process) connection.process.pid
    then false
    else if both_differ observation.process.start_ticks connection.process.start_ticks
    then false
    else if both_differ observation.network_namespace_inode connection.network_namespace_inode
    then false
    else true

abbrev pub is_contextual : EvidenceFidelity → Bool
is_contextual EvidenceFidelity.contextual = true
is_contextual _ = false

abbrev pub is_supporting : EvidenceFidelity → Bool
is_supporting EvidenceFidelity.supporting = true
is_supporting _ = false

unfoldable pub correlation_fidelity :
    ConnectionSummary → NameResolutionObservation → EvidenceFidelity
correlation_fidelity connection observation =
    let durable_process =
      both_same observation.process.start_ticks connection.process.start_ticks in
    let same_network_namespace =
      not (is_some observation.network_namespace_inode)
        && not (is_some connection.network_namespace_inode)
      || both_same observation.network_namespace_inode connection.network_namespace_inode in
    if is_contextual observation.fidelity
    then EvidenceFidelity.contextual
    else if is_supporting observation.fidelity
    then EvidenceFidelity.supporting
    else if durable_process && same_network_namespace
    then EvidenceFidelity.strongly_correlated
    else EvidenceFidelity.supporting

-- The loop: how many candidates there are from here on, and the first of them.
unfoldable pub scan :
    ConnectionSummary
    → NameResolutionCorrelationPolicy
    → List NameResolutionObservation
    → ℕ × Option NameResolutionObservation
    → ℕ × Option NameResolutionObservation
scan connection policy [] (count, match) = (count, match)
scan connection policy (observation ∷ observations) (count, match) =
    scan connection policy observations (
      if not (is_candidate connection observation policy)
      then (count, match)
      else (count + 1, if is_some match then match else some observation))

abbrev pub matched_result :
    ConnectionSummary → Option NameResolutionObservation → NameResolutionCorrelationResult
matched_result connection none = record {
  status = NameResolutionCorrelationStatus.matched;
  evidence = none;
  candidate_count = 1;
}
matched_result connection (some match) = record {
  status = NameResolutionCorrelationStatus.matched;
  evidence = some (record {
    observation = match;
    relation = NameResolutionRelation.resolved_address_for_outbound_connection;
    correlation_fidelity = correlation_fidelity connection match;
  });
  candidate_count = 1;
}

abbrev pub unmatched : NameResolutionCorrelationStatus → ℕ → NameResolutionCorrelationResult
unmatched status count = record { status = status; evidence = none; candidate_count = count }

unfoldable pub correlate_name_resolution :
    ConnectionSummary
    → List NameResolutionObservation
    → NameResolutionCorrelationPolicy
    → NameResolutionCorrelationResult
unfolding scan
correlate_name_resolution connection observations policy =
    let (count, match) = scan connection policy observations (0, none) in
    if count == 0
    then unmatched NameResolutionCorrelationStatus.no_match 0
    else if not (count == 1)
    then unmatched NameResolutionCorrelationStatus.ambiguous count
    else matched_result connection match
