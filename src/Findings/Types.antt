-- ===== src/Findings/Types.antt =====
-- Records of include/neta/process_findings.hpp and include/neta/rules/rule_definition.hpp.
use neta_agent.Prelude.{ℕ, Bool, Option, Text, List, text_eq, ◌==◌, find}
use neta_agent.Prelude.Dict.{Dict, lookup}
use neta_agent.ProcessGraph.{ProcessInstanceKey}

pub data ProcessFindingSeverity : Type 0 where
  low medium high : ProcessFindingSeverity

pub data ProcessFindingKind : Type 0 where
  exec_from_transient_path shell_from_unexpected_parent unexpected_elevation : ProcessFindingKind
  rapid_child_fanout short_lived_process_burst : ProcessFindingKind

pub record ProcessFinding : Type 0 where
  pub kind : ProcessFindingKind
  pub severity : ProcessFindingSeverity
  pub rule_id : Text
  pub ruleset_version : Text
  pub observed_at_ns : ℕ
  pub process : ProcessInstanceKey
  pub parent : Option ProcessInstanceKey
  pub process_image : Text
  pub parent_image : Text
  pub command_line : Text
  pub summary : Text
  pub interpretation : Text

-- The exclusions, which the engine does not read, are left out.
pub record ProcessFindingConfig : Type 0 where
  pub ruleset_version : Text
  pub transient_path_enabled : Bool
  pub transient_path_severity : Text
  pub transient_path_prefixes : List Text
  pub transient_path_substrings : List Text
  pub unexpected_shell_enabled : Bool
  pub unexpected_shell_severity : Text
  pub shell_names : List Text
  pub expected_shell_parent_names : List Text
  pub unexpected_elevation_enabled : Bool
  pub unexpected_elevation_severity : Text
  pub expected_elevation_parent_names : List Text
  pub fanout_enabled : Bool
  pub fanout_severity : Text
  pub fanout_count : ℕ
  pub fanout_window_ns : ℕ
  pub short_lived_enabled : Bool
  pub short_lived_severity : Text
  pub short_lived_count : ℕ
  pub short_lived_max_ns : ℕ
  pub short_lived_window_ns : ℕ

-- include/neta/rules/rule_exclusion.hpp
pub record RuleExclusion : Type 0 where
  pub process_names : List Text
  pub executable_paths : List Text
  pub process_path_prefixes : List Text
  pub parent_process_names : List Text
  pub users : List Text
  pub remote_hosts : List Text
  pub remote_ips : List Text
  pub remote_ports : List Text
  pub local_ports : List Text
  pub domains : List Text
  pub directions : List Text

-- What the engines read of a rule. A numeric parameter is a double, of which the engine takes the
-- integral part, here a number of 64 bits.
pub record RuleDefinition : Type 0 where
  pub id : Text
  pub engine_rule_id : Text
  pub category : Text
  pub severity : Text
  pub enabled : Bool
  pub exclude : RuleExclusion
  pub numeric_parameters : Dict Text ℕ
  pub boolean_parameters : Dict Text Bool
  pub string_list_parameters : Dict Text (List Text)

-- A parameter that is missing throws.
abbrev pub numeric : RuleDefinition → Text → Option ℕ
numeric rule parameter_name = lookup parameter_name rule.numeric_parameters

abbrev pub boolean : RuleDefinition → Text → Option Bool
boolean rule parameter_name = lookup parameter_name rule.boolean_parameters

abbrev pub string_list : RuleDefinition → Text → Option (List Text)
string_list rule parameter_name = lookup parameter_name rule.string_list_parameters

-- `RuleSet::rule`, of an id that starts with neither NETA- nor CUS-.
abbrev pub find_rule : Text → List RuleDefinition → Option RuleDefinition
find_rule rule_id definitions = find (λ definition. definition.id == rule_id) definitions
