-- ===== src/Examples/Findings.antt =====
-- The finding engine at concrete processes.
use neta_agent.Prelude.{
  ℕ, ◌≡◌, refl, true, false, none, some, List, [], ◌∷◌, bytes, pos, All, length, ◌==◌, nat_eq,
  if◌then◌else◌, arith,
}
use neta_agent.Prelude.Dict.{lookup}
use neta_agent.Prelude.Search.{starts_with, contains}
use neta_agent.ProcessGraph.{
  ProcessInstanceKey, key_eq, ProcessNode, ProcessExecEvent, ProcessExecEventType, find_node,
}
use neta_agent.Findings.Types.{
  ProcessFinding, ProcessFindingConfig, ProcessFindingSeverity, RuleDefinition,
}
use neta_agent.Findings.Names.{
  severity_from_string, lower_normalized, is_transient_path, path_matches, contains_name, leaf_name,
  normalized_values,
}
use neta_agent.Findings.Static.{
  evaluate_node, transient_finding, shell_finding, elevation_finding, custom_findings,
  custom_finding, odd_shell, odd_elevation, found_if, transient_of, custom_shell,
}
use neta_agent.Findings.Window.{recorded, trim_before}
use neta_agent.Findings.Engine.{ProcessFindingEngine, fanout}
use neta_agent.Findings.Recent.{windowed, recent}
use neta_agent.Findings.Fanout.{subjects, fanout_outcome}
use neta_agent.Findings.Justified.{IsJustified, evaluate_node-IsJustified}
use neta_agent.Examples.Graphs.{event}

abbrev config : ProcessFindingConfig
config = record {
  ruleset_version = bytes "6";
  transient_path_enabled = true;
  transient_path_severity = bytes "Medium";
  transient_path_prefixes = bytes "/tmp/" ∷ [];
  transient_path_substrings = [];
  unexpected_shell_enabled = true;
  unexpected_shell_severity = bytes "medium";
  shell_names = bytes "sh" ∷ [];
  expected_shell_parent_names = bytes "sshd" ∷ [];
  unexpected_elevation_enabled = false;
  unexpected_elevation_severity = bytes "medium";
  expected_elevation_parent_names = [];
  fanout_enabled = true;
  fanout_severity = bytes "high";
  fanout_count = 2;
  fanout_window_ns = 10;
  short_lived_enabled = false;
  short_lived_severity = [];
  short_lived_count = 0;
  short_lived_max_ns = 0;
  short_lived_window_ns = 0;
}

abbrev shell_key : ProcessInstanceKey
shell_key = record { pid = pos 7; start_time_ns = some 50; platform_key = none }

abbrev shell : ProcessNode
shell = record {
  key = shell_key;
  parent = none;
  parent_pid = none;
  uid = none;
  gid = none;
  session_id = none;
  user_identity = [];
  integrity_level = [];
  elevated = none;
  comm = bytes "sh";
  executable_path = bytes "/TMP/sh";
  command_line = [];
  working_directory = [];
  started_at_ns = 50;
  exited_at_ns = none;
  exit_code = none;
}

-- A process of the shell, of which one other started before.
abbrev engine : ProcessFindingEngine
engine = record {
  config = config;
  custom_process_rules = [];
  starts = [];
  child_starts = (shell_key, 90 ∷ 100 ∷ []) ∷ [];
  short_exits = [];
  custom_child_starts = [];
  custom_short_exits = [];
}

abbrev spawned : ProcessExecEvent
spawned = event ProcessExecEventType.start 105 8 (some 105)

-- The test of the severity, and the look-up of the parent.
high_known : severity_from_string (bytes "high") ≡ some ProcessFindingSeverity.high
unfolding severity_from_string lower_normalized
high_known = refl

shell_known : find_node shell_key (shell ∷ []) ≡ some shell
unfolding find_node
shell_known = refl

window_kept : 90 ∷ 100 ∷ [] ≡ windowed 10 (90 ∷ 100 ∷ []) []
unfolding windowed recorded trim_before
window_kept = refl

fanout_outcome_example :
    let starts : List ℕ = 90 ∷ 100 ∷ 105 ∷ [] in
    (subjects (fanout spawned (shell ∷ []) shell_key engine).0
      ≡ some (if length (recent 105 10 starts) == 2 then shell_key ∷ [] else []))
    × (lookup shell_key (fanout spawned (shell ∷ []) shell_key engine).1.child_starts
        ≡ some (windowed 10 starts []))
fanout_outcome_example =
    fanout_outcome spawned (shell ∷ []) shell_key engine (90 ∷ 100 ∷ []) ProcessFindingSeverity.high
      shell refl high_known shell_known window_kept (omega arith)

-- A custom rule for shells.
abbrev custom_rule : RuleDefinition
custom_rule = record {
  id = bytes "CST-1";
  engine_rule_id = bytes "PROC-002";
  category = bytes "process";
  severity = bytes "low";
  enabled = true;
  exclude = record {
    process_names = [];
    executable_paths = [];
    process_path_prefixes = [];
    parent_process_names = [];
    users = [];
    remote_hosts = [];
    remote_ips = [];
    remote_ports = [];
    local_ports = [];
    domains = [];
    directions = [];
  };
  numeric_parameters = [];
  boolean_parameters = [];
  string_list_parameters = (bytes "shell_names", []) ∷ (bytes "expected_parent_names", []) ∷ [];
}

abbrev shell_findings : List ProcessFinding
shell_findings = transient_of (bytes "6") shell none ProcessFindingSeverity.medium ∷ []

shell_evaluated : evaluate_node config (custom_rule ∷ []) shell (shell ∷ []) ≡ some shell_findings
unfolding evaluate_node transient_finding shell_finding elevation_finding custom_findings
    custom_finding custom_shell odd_shell odd_elevation found_if severity_from_string
    lower_normalized is_transient_path path_matches starts_with contains contains_name leaf_name
    normalized_values
shell_evaluated = refl

evaluate_node-IsJustified_example : All (IsJustified config (custom_rule ∷ []) shell) shell_findings
evaluate_node-IsJustified_example =
    evaluate_node-IsJustified config (custom_rule ∷ []) shell (shell ∷ []) shell_findings
      shell_evaluated
