-- ===== src/Context/Rules.antt =====
-- `evaluate_one` and `ContextRuleEngine::evaluate` of src/core/context_rule_engine.cpp; `none` is an
-- exception.
use neta_agent.Prelude.{
  ℕ, Bool, false, ◌&&◌, ◌||◌, not, Option, none, some, Text, bytes, List, [], ◌∷◌, ◌++◌, text_eq,
  int_eq, nat_eq, option_eq, ◌==◌, if◌then◌else◌, ltb, leb, max, any, is_empty, value_or, pos,
  ◌>>=◌, is_some,
}
use neta_agent.Prelude.Dict.{Dict, lookup}
use neta_agent.Model.{ConnectionDirection, direction_eq}
use neta_agent.Findings.Types.{RuleDefinition, numeric, boolean, string_list}
use neta_agent.Context.Exclusion.{excludes_connection}
use neta_agent.Context.Facts.{
  ConnectionRuleContext, correlated_domains, port_allowed, exact_outbound_tls, failed_dns_count,
  dns_contains_remote, distinct_dns_answers,
}

pub record ContextRuleMatch : Type 0 where
  pub rule_id : Text
  pub engine_rule_id : Text
  pub category : Text
  pub severity : Text
  pub semantic_type : Text

abbrev pub semantic_types : Dict Text Text
semantic_types =
    (bytes "NET-002", bytes "TCP_RETRANSMISSION_SPIKE")
    ∷ (bytes "NET-003", bytes "UNUSUAL_OUTBOUND_DESTINATION_PORT")
    ∷ (bytes "NET-004", bytes "RARE_OUTBOUND_DESTINATION")
    ∷ (bytes "NET-005", bytes "HIGH_OUTBOUND_ASYMMETRY")
    ∷ (bytes "DNS-001", bytes "REPEATED_DNS_FAILURES")
    ∷ (bytes "DNS-002", bytes "DNS_CONNECTION_MISMATCH")
    ∷ (bytes "DNS-003", bytes "DNS_ANSWER_CHURN")
    ∷ (bytes "TLS-001", bytes "TLS_VALIDATION_FAILURE")
    ∷ (bytes "TLS-002", bytes "TLS_IDENTITY_CHANGE")
    ∷ (bytes "ROUTE-001", bytes "UNEXPECTED_ROUTE")
    ∷ []

-- The summary and the interpretation, which are fixed texts of each engine, are left out.
unfoldable pub match_of : RuleDefinition → ContextRuleMatch
match_of rule = record {
  rule_id = rule.id;
  engine_rule_id = rule.engine_rule_id;
  category = rule.category;
  severity = rule.severity;
  semantic_type = value_or (lookup rule.engine_rule_id semantic_types) rule.engine_rule_id;
}

abbrev is_outbound : ConnectionRuleContext → Bool
is_outbound context = context.connection.direction == ConnectionDirection.outbound

-- Each test of an engine: whether the rule matches, or an exception.
unfoldable pub retransmissions : RuleDefinition → ConnectionRuleContext → Option Bool
retransmissions rule context = numeric rule (bytes "retransmission_threshold") >>= λ threshold.
    some (leb threshold context.metrics.retransmission_delta)

unfoldable pub unusual_port : RuleDefinition → ConnectionRuleContext → Option Bool
unfolding port_allowed
unusual_port rule context =
    if not (is_outbound context) || (context.connection.remote_port == 0)
    then some false
    else (port_allowed rule context.connection.remote_port >>= λ allowed. some (not allowed))

unfoldable pub rare_destination : RuleDefinition → ConnectionRuleContext → Option Bool
rare_destination rule context = elim context.destination_prevalence [
  | none ↦ some false
  | some prevalence ↦
      if is_outbound context
      then (numeric rule (bytes "maximum_prevalence") >>= λ maximum. some (leb prevalence maximum))
      else some false
]

unfoldable pub dns_failures : RuleDefinition → ConnectionRuleContext → Option Bool
unfolding failed_dns_count
dns_failures rule context = numeric rule (bytes "minimum_failures") >>= λ minimum.
    some (leb minimum (failed_dns_count context.name_resolution))

unfoldable pub dns_mismatch : RuleDefinition → ConnectionRuleContext → Option Bool
unfolding dns_contains_remote
dns_mismatch rule context =
    if not (is_outbound context) || is_empty context.name_resolution
    then some false
    else (boolean rule (bytes "require_remote_ip_match") >>= λ required.
        some (required && not (dns_contains_remote context)))

unfoldable pub dns_churn : RuleDefinition → ConnectionRuleContext → Option Bool
unfolding distinct_dns_answers
dns_churn rule context = numeric rule (bytes "maximum_distinct_answers") >>= λ maximum.
    some (ltb maximum (distinct_dns_answers context.name_resolution))

unfoldable pub tls_validation : RuleDefinition → ConnectionRuleContext → Option Bool
unfolding exact_outbound_tls
tls_validation rule context = elim (exact_outbound_tls context.tls_sessions) [
  | none ↦ some false
  | some tls ↦ boolean rule (bytes "require_peer_authentication") >>= λ required.
      boolean rule (bytes "verification_failure_match") >>= λ matches. some (
        required && not tls.observation.peer_authenticated
        || matches
          && is_some tls.observation.verify_result
          && not (tls.observation.verify_result == some (pos 0)))
]

abbrev pub identity_changed : Bool → Text → Text → Bool
identity_changed compared accepted observed =
    compared && not (is_empty accepted) && not (accepted == observed)

unfoldable pub tls_identity : RuleDefinition → ConnectionRuleContext → Option Bool
unfolding exact_outbound_tls
tls_identity rule context = elim (exact_outbound_tls context.tls_sessions) [
  | none ↦ some false
  | some tls ↦ elim context.baseline [
    | none ↦ some false
    | some baseline ↦ boolean rule (bytes "compare_spki") >>= λ spki.
        boolean rule (bytes "compare_issuer") >>= λ issuer. some (
          identity_changed spki baseline.accepted_spki_sha256 tls.observation.spki_sha256
          || identity_changed issuer baseline.accepted_issuer tls.observation.issuer)
  ]
]

abbrev pub outside : List Text → Text → Bool
outside allowed value = not (is_empty allowed) && not (any (λ a. a == value) allowed)

unfoldable pub unexpected_route : RuleDefinition → ConnectionRuleContext → Option Bool
unexpected_route rule context = elim context.route [
  | none ↦ some false
  | some route ↦ string_list rule (bytes "allowed_gateways") >>= λ gateways.
      string_list rule (bytes "allowed_interfaces") >>= λ interfaces.
      some (outside gateways route.gateway || outside interfaces route.interface_name)
]

-- The comparison of a ratio of bytes with the parameter `minimum_sent_to_received_ratio`, in floating
-- point, is a parameter; reading it may throw.
module _ (minimum_ratio : RuleDefinition → Option (ℕ → ℕ → Bool)) where
  unfoldable pub asymmetric : RuleDefinition → ConnectionRuleContext → Option Bool
  asymmetric rule context = elim context.bytes_sent [
    | none ↦ some false
    | some sent ↦ elim context.bytes_received [
      | none ↦ some false
      | some received ↦
          if is_outbound context
          then (numeric rule (bytes "minimum_bytes_sent") >>= λ minimum_sent.
              minimum_ratio rule >>= λ reaches.
              numeric rule (bytes "received_bytes_floor") >>= λ received_floor.
              some (leb minimum_sent sent && reaches sent (max received received_floor)))
          else some false
    ]
  ]

  unfoldable pub engine_test : RuleDefinition → ConnectionRuleContext → Option Bool
  unfolding retransmissions unusual_port rare_destination asymmetric dns_failures dns_mismatch
      dns_churn tls_validation tls_identity unexpected_route
  engine_test rule context =
      let engine = rule.engine_rule_id in
      if engine == bytes "NET-002"
      then retransmissions rule context
      else if engine == bytes "NET-003"
      then unusual_port rule context
      else if engine == bytes "NET-004"
      then rare_destination rule context
      else if engine == bytes "NET-005"
      then asymmetric rule context
      else if engine == bytes "DNS-001"
      then dns_failures rule context
      else if engine == bytes "DNS-002"
      then dns_mismatch rule context
      else if engine == bytes "DNS-003"
      then dns_churn rule context
      else if engine == bytes "TLS-001"
      then tls_validation rule context
      else if engine == bytes "TLS-002"
      then tls_identity rule context
      else if engine == bytes "ROUTE-001"
      then unexpected_route rule context
      else some false

  -- Whether a rule is looked at for a connection.
  abbrev pub applies : RuleDefinition → ConnectionRuleContext → Bool
  applies rule context =
      rule.enabled
      && not (
          excludes_connection rule.exclude context.connection
            (correlated_domains context.name_resolution) none)

  unfoldable pub evaluate_one :
      RuleDefinition → ConnectionRuleContext → Option (List ContextRuleMatch)
  unfolding engine_test match_of excludes_connection correlated_domains
  evaluate_one rule context =
      if applies rule context
      then (engine_test rule context >>= λ matches.
          some (if matches then match_of rule ∷ [] else []))
      else some []

  unfoldable pub evaluate_rules :
      List RuleDefinition → ConnectionRuleContext → Option (List ContextRuleMatch)
  unfolding evaluate_one
  evaluate_rules [] context = some []
  evaluate_rules (rule ∷ definitions) context =
      let rest = evaluate_rules definitions context in
      evaluate_one rule context >>= λ found. rest >>= λ later. some (found ++ later)
