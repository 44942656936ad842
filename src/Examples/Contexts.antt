-- ===== src/Examples/Contexts.antt =====
-- The rules on connections at a concrete connection.
use neta_agent.Prelude.{
  ℕ, ◌≡◌, ◌↔◌, refl, Bool, true, Option, none, some, [], ◌∷◌, bytes, In, leb, ◌*◌,
}
use neta_agent.Prelude.Decimal.{to_string}
use neta_agent.Prelude.Search.{starts_with}
use neta_agent.Findings.Types.{RuleDefinition, RuleExclusion}
use neta_agent.Findings.Names.{lower_normalized}
use neta_agent.Context.Exclusion.{
  excludes_connection, exclusion_contains, exclusion_prefix, process_basename,
}
use neta_agent.Context.Facts.{ConnectionRuleContext, correlated_domains}
use neta_agent.Context.Rules.{match_of, evaluate_rules, evaluate_one, engine_test, retransmissions}
use neta_agent.Context.Applies.{Reports, evaluate_rules-In}
use neta_agent.Examples.Trust.{connection}

abbrev no_exclusion : RuleExclusion
no_exclusion = record {
  process_names = [];
  executable_paths = [];
  process_path_prefixes = [];
  parent_process_names = [];
  users = [];
  remote_hosts = [];
  remote_ips = [];
  remote_ports = [];
  local_ports = [];
  domains = [];
  directions = [];
}

abbrev losses : RuleDefinition
losses = record {
  id = bytes "NET-002";
  engine_rule_id = bytes "NET-002";
  category = bytes "network";
  severity = bytes "low";
  enabled = true;
  exclude = no_exclusion;
  numeric_parameters = (bytes "retransmission_threshold", 2) ∷ [];
  boolean_parameters = [];
  string_list_parameters = [];
}

-- The same rule, which excludes every direction.
abbrev excluding : RuleDefinition
excluding = record losses {
  exclude = record no_exclusion {
    directions = bytes "OUTBOUND" ∷ bytes "inbound" ∷ bytes "Unknown" ∷ [];
  };
}

abbrev context : ConnectionRuleContext
context = record {
  connection = connection;
  metrics = record { observed_rtt_us = 0; observed_rttvar_us = 0; retransmission_delta = 3 };
  baseline = none;
  name_resolution = [];
  tls_sessions = [];
  route = none;
  bytes_sent = none;
  bytes_received = none;
  destination_prevalence = none;
}

abbrev at_least_double : RuleDefinition → Option (ℕ → ℕ → Bool)
at_least_double rule = some (λ sent received. leb (2 * received) sent)

losses_reported :
    evaluate_rules at_least_double (losses ∷ excluding ∷ []) context ≡ some (match_of losses ∷ [])
unfolding evaluate_rules evaluate_one engine_test retransmissions excludes_connection
    exclusion_contains exclusion_prefix process_basename lower_normalized starts_with
    correlated_domains to_string
losses_reported = refl

evaluate_rules-In_example : In (match_of losses) (match_of losses ∷ []) ↔ (
    (rule : RuleDefinition) × In rule (losses ∷ excluding ∷ [])
    × Reports at_least_double context rule (match_of losses))
evaluate_rules-In_example =
    evaluate_rules-In at_least_double context (losses ∷ excluding ∷ []) (match_of losses ∷ [])
      (match_of losses) losses_reported
