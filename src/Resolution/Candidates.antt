-- ===== src/Resolution/Candidates.antt =====
-- Which observations are candidates, and how faithful a correlation is.
use neta_agent.Prelude.{
  ℕ, ◌+◌, ◌≤◌, ◌≡◌, ◌≢◌, ◌⊎◌, ◌↔◌, true, false, Option, none, some, List, [], ◌∷◌, Text, ◌==◌,
  text_eq, text_beq_iff, int_eq, pos, is_negative, In, any, arith,
}
use neta_agent.Model.{ConnectionDirection, EvidenceFidelity, ConnectionSummary}
use neta_agent.Resolution.{
  NameResolutionObservation, NameResolutionQueryKind, NameResolutionCorrelationPolicy,
  NameResolutionAddress, agent_process_id, contains_remote_address, is_candidate,
  correlation_fidelity, both_differ, both_same,
}

-- The two are not known to be different.
abbrev pub Compatible : Option ℕ → Option ℕ → Type 0
Compatible (some a) (some b) = a ≡ b
Compatible _ _ = Unit

abbrev pub addresses_of : List NameResolutionAddress → List Text
addresses_of [] = []
addresses_of (a ∷ rest) = a.address ∷ addresses_of rest

-- A successful forward resolution of a name to the remote address, by the process of the outbound
-- connection, that was completed before the connection was seen and not too long before.
pub record IsCandidate (c : ConnectionSummary) (o : NameResolutionObservation)
    (policy : NameResolutionCorrelationPolicy) : Type 0 where
  pub outbound : c.direction ≡ ConnectionDirection.outbound
  pub forward : o.query_kind ≡ NameResolutionQueryKind.forward
  pub success : (o.result_code ≡ none) ⊎ (o.result_code ≡ some (pos 0))
  pub timed : (c.first_seen_ns ≢ 0) × (o.completed_ns ≢ 0)
  pub ordered : (o.started_ns ≡ 0) ⊎ (o.started_ns ≤ o.completed_ns)
  pub before : o.completed_ns ≤ c.first_seen_ns
  pub recent : c.first_seen_ns ≤ o.completed_ns + policy.max_age_ns
  pub named : o.query_name ≢ []
  pub resolved : In c.remote_ip (addresses_of o.addresses)
  pub same_process : agent_process_id o.process ≡ some c.process.pid
  pub real_process : is_negative c.process.pid ≡ false
  pub same_instance : Compatible o.process.start_ticks c.process.start_ticks
  pub same_namespace : Compatible o.network_namespace_inode c.network_namespace_inode

address-In :
    (ip : Text) (found : List NameResolutionAddress)
    → (any (λ a. a.address == ip) found ≡ true) ↔ In ip (addresses_of found)
address-In ip [] = ground arith
address-In ip (a ∷ rest) = ground (arith, text_beq_iff a.address ip, address-In ip rest)

differ-Compatible : (a b : Option ℕ) → (both_differ a b ≡ false) ↔ Compatible a b
differ-Compatible none b = ground arith
differ-Compatible (some a) none = ground arith
differ-Compatible (some a) (some b) = ground arith

-- An observation is a candidate for a connection exactly when the connection is outbound and the
-- observation is a successful forward resolution of a non-empty name to its remote address, by its
-- process and not known to be by another instance or in another network namespace, completed before
-- the connection was first seen and at most the maximal age before, with all times known and
-- in order.
pub is_candidate_iff :
    (c : ConnectionSummary) (o : NameResolutionObservation)
    (policy : NameResolutionCorrelationPolicy)
    → (is_candidate c o policy ≡ true) ↔ IsCandidate c o policy
unfolding is_candidate contains_remote_address
is_candidate_iff c o policy =
    let remote = address-In c.remote_ip o.addresses in
    let instance_known = differ-Compatible o.process.start_ticks c.process.start_ticks in
    let namespace_known = differ-Compatible o.network_namespace_inode c.network_namespace_inode in
    (
      λ h. record {
        outbound = ground (arith, h);
        forward = ground (arith, h);
        success = ground (arith, h);
        timed = (λ e. ground (arith, h, e), λ e. ground (arith, h, e));
        ordered = ground (arith, h);
        before = ground (arith, h);
        recent = ground (arith, h);
        named = λ e. ground (arith, h, e);
        resolved = ground (arith, h, remote);
        same_process = ground (arith, h);
        real_process = ground (arith, h);
        same_instance = instance_known.0 (ground (arith, h));
        same_namespace = namespace_known.0 (ground (arith, h));
      },
      λ k. ground (
        arith,
        k.outbound,
        k.forward,
        k.success,
        k.timed,
        k.ordered,
        k.before,
        k.recent,
        k.named,
        remote.1 k.resolved,
        k.same_process,
        k.real_process,
        instance_known.1 k.same_instance,
        namespace_known.1 k.same_namespace,
      ),
    )

-- A correlation is never EXACT; it is STRONGLY_CORRELATED only where the observation is better than
-- SUPPORTING and both know the same start of the process.
pub fidelity_bounded :
    (c : ConnectionSummary) (o : NameResolutionObservation)
    → (correlation_fidelity c o ≢ EvidenceFidelity.exact)
      × ((correlation_fidelity c o ≢ EvidenceFidelity.strongly_correlated)
          ⊎ ((o.fidelity ≢ EvidenceFidelity.supporting)
              × (o.fidelity ≢ EvidenceFidelity.contextual)
              × (both_same o.process.start_ticks c.process.start_ticks ≡ true)))
unfolding correlation_fidelity
fidelity_bounded c o = (λ e. ground (arith, e), ground arith)
