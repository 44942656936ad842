-- ===== src/Findings/Config.antt =====
-- `config_from_rules` of src/core/process_graph.cpp.
use neta_agent.Prelude.{ℕ, ◌*◌, ◌%◌, ◌^◌, Option, some, Text, bytes, List, ◌>>=◌}
use neta_agent.Findings.Types.{
  ProcessFindingConfig, RuleDefinition, numeric, string_list, find_rule,
}
use neta_agent.Findings.Names.{normalized_values}

abbrev pub ns_of_ms : ℕ → ℕ
ns_of_ms ms = ms * 1000000 % 2 ^ 64

unfoldable pub config_from_rules : Text → List RuleDefinition → Option ProcessFindingConfig
unfolding normalized_values
config_from_rules version definitions = do
  transient ← find_rule (bytes "PROC-001") definitions
  prefixes ← string_list transient (bytes "path_prefixes")
  substrings ← string_list transient (bytes "path_substrings")
  shell ← find_rule (bytes "PROC-002") definitions
  shell_names ← string_list shell (bytes "shell_names")
  shell_parents ← string_list shell (bytes "expected_parent_names")
  elevation ← find_rule (bytes "PROC-003") definitions
  elevation_parents ← string_list elevation (bytes "expected_parent_names")
  fanout ← find_rule (bytes "PROC-004") definitions
  fanout_count ← numeric fanout (bytes "child_count")
  fanout_window ← numeric fanout (bytes "window_ms")
  short_lived ← find_rule (bytes "PROC-005") definitions
  short_lived_count ← numeric short_lived (bytes "child_count")
  short_lived_max ← numeric short_lived (bytes "max_lifetime_ms")
  short_lived_window ← numeric short_lived (bytes "window_ms")
  some (record {
    ruleset_version = version;
    transient_path_enabled = transient.enabled;
    transient_path_severity = transient.severity;
    transient_path_prefixes = normalized_values prefixes;
    transient_path_substrings = normalized_values substrings;
    unexpected_shell_enabled = shell.enabled;
    unexpected_shell_severity = shell.severity;
    shell_names = normalized_values shell_names;
    expected_shell_parent_names = normalized_values shell_parents;
    unexpected_elevation_enabled = elevation.enabled;
    unexpected_elevation_severity = elevation.severity;
    expected_elevation_parent_names = normalized_values elevation_parents;
    fanout_enabled = fanout.enabled;
    fanout_severity = fanout.severity;
    fanout_count = fanout_count;
    fanout_window_ns = ns_of_ms fanout_window;
    short_lived_enabled = short_lived.enabled;
    short_lived_severity = short_lived.severity;
    short_lived_count = short_lived_count;
    short_lived_max_ns = ns_of_ms short_lived_max;
    short_lived_window_ns = ns_of_ms short_lived_window;
  })
