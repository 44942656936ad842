-- ===== src/Findings/Static.antt =====
-- `make_finding`, `evaluate_node` and `evaluate_snapshot` of src/core/process_graph.cpp.
use neta_agent.Prelude.{
  Bool, false, ◌&&◌, not, Option, none, some, Text, bytes, List, [], ◌∷◌, ◌++◌, text_eq, option_eq,
  ◌==◌, if◌then◌else◌, ◌>>=◌,
}
use neta_agent.ProcessGraph.{ProcessNode, find_node}
use neta_agent.Findings.Types.{
  ProcessFinding, ProcessFindingKind, ProcessFindingSeverity, ProcessFindingConfig, RuleDefinition,
  string_list,
}
use neta_agent.Findings.Names.{
  normalized_values, contains_name, path_matches, is_transient_path, severity_from_string,
}

abbrev image_of : Option ProcessNode → Text
image_of none = []
image_of (some node) = node.executable_path

abbrev pub make_finding :
    ProcessFindingKind
    → Text
    → ProcessFindingSeverity
    → Text
    → ProcessNode
    → Option ProcessNode
    → Text
    → Text
    → ProcessFinding
make_finding kind rule_id severity version node parent summary interpretation = record {
  kind = kind;
  severity = severity;
  rule_id = rule_id;
  ruleset_version = version;
  observed_at_ns = node.started_at_ns;
  process = node.key;
  parent = node.parent;
  process_image = node.executable_path;
  parent_image = image_of parent;
  command_line = node.command_line;
  summary = summary;
  interpretation = interpretation;
}

-- The parent of a node, where the graph has it.
abbrev pub parent_node : ProcessNode → List ProcessNode → Option ProcessNode
parent_node node nodes = node.parent >>= λ key. find_node key nodes

abbrev pub is_elevated : Option Bool → Bool
is_elevated none = false
is_elevated (some b) = b

abbrev pub is_plain : Option Bool → Bool
is_plain none = false
is_plain (some b) = not b

-- A shell whose parent is none of those expected.
unfoldable pub odd_shell : List Text → List Text → ProcessNode → Option ProcessNode → Bool
unfolding contains_name
odd_shell shells parents node none = false
odd_shell shells parents node (some parent) =
    contains_name shells node && not (contains_name parents parent)

-- An elevated process of a parent that is not, and none of those expected.
unfoldable pub odd_elevation : List Text → ProcessNode → Option ProcessNode → Bool
unfolding contains_name
odd_elevation expected node none = false
odd_elevation expected node (some parent) =
    is_elevated node.elevated && is_plain parent.elevated && not (contains_name expected parent)

-- One finding where the test holds; its severity may throw.
unfoldable pub found_if :
    Bool → Text → (ProcessFindingSeverity → ProcessFinding) → Option (List ProcessFinding)
unfolding severity_from_string
found_if test severity finding =
    if test then (severity_from_string severity >>= λ s. some (finding s ∷ [])) else some []

module _ (version : Text) (node : ProcessNode) (parent : Option ProcessNode) where
  abbrev pub finding_of :
      ProcessFindingKind → Text → Text → Text → ProcessFindingSeverity → ProcessFinding
  finding_of kind rule_id summary interpretation severity =
      make_finding kind rule_id severity version node parent summary interpretation

  -- The findings of each rule.
  abbrev pub transient_of : ProcessFindingSeverity → ProcessFinding
  transient_of =
      finding_of ProcessFindingKind.exec_from_transient_path (bytes "PROC-001")
        (bytes "Executable started from a transient filesystem location.")
        (bytes
          "Execution from a transient location is compatible with staged or temporary tooling; malicious intent is not established.")

  abbrev pub shell_of : ProcessFindingSeverity → ProcessFinding
  shell_of =
      finding_of ProcessFindingKind.shell_from_unexpected_parent (bytes "PROC-002")
        (bytes
          "A shell was spawned by a process not classified as an expected interactive shell parent.")
        (bytes
          "This parent-child relationship resembles shell-spawn behavior worth investigation; exploitation is not established.")

  abbrev pub elevation_of : ProcessFindingSeverity → ProcessFinding
  elevation_of =
      finding_of ProcessFindingKind.unexpected_elevation (bytes "PROC-003")
        (bytes "A child process is elevated while its observed parent is not elevated.")
        (bytes
          "A privilege-boundary transition was observed. It may be legitimate administrative activity; malicious intent is not established.")

  abbrev pub custom_transient_of : RuleDefinition → ProcessFindingSeverity → ProcessFinding
  custom_transient_of rule =
      finding_of ProcessFindingKind.exec_from_transient_path rule.id
        (bytes "Executable matched a custom transient-path rule.")
        (bytes "A centrally managed custom transient-path detection matched this process.")

  abbrev pub custom_shell_of : RuleDefinition → ProcessFindingSeverity → ProcessFinding
  custom_shell_of rule =
      finding_of ProcessFindingKind.shell_from_unexpected_parent rule.id
        (bytes "A shell matched a custom unexpected-parent rule.")
        (bytes "A centrally managed custom shell parent-child detection matched this process.")

  abbrev pub custom_elevation_of : RuleDefinition → ProcessFindingSeverity → ProcessFinding
  custom_elevation_of rule =
      finding_of ProcessFindingKind.unexpected_elevation rule.id
        (bytes "A privilege transition matched a custom elevation rule.")
        (bytes "A centrally managed custom privilege-boundary detection matched this process.")

  unfoldable pub transient_finding : ProcessFindingConfig → Option (List ProcessFinding)
  unfolding is_transient_path found_if
  transient_finding config =
      found_if (config.transient_path_enabled && is_transient_path node.executable_path config)
        config.transient_path_severity transient_of

  unfoldable pub shell_finding : ProcessFindingConfig → Option (List ProcessFinding)
  unfolding odd_shell found_if
  shell_finding config =
      found_if
        (config.unexpected_shell_enabled
          && odd_shell config.shell_names config.expected_shell_parent_names node parent)
        config.unexpected_shell_severity shell_of

  unfoldable pub elevation_finding : ProcessFindingConfig → Option (List ProcessFinding)
  unfolding odd_elevation found_if
  elevation_finding config =
      found_if
        (config.unexpected_elevation_enabled
          && odd_elevation config.expected_elevation_parent_names node parent)
        config.unexpected_elevation_severity elevation_of

  unfoldable pub custom_transient : RuleDefinition → Option (List ProcessFinding)
  unfolding path_matches normalized_values found_if
  custom_transient rule = string_list rule (bytes "path_prefixes") >>= λ prefixes.
      string_list rule (bytes "path_substrings") >>= λ substrings.
      found_if
        (path_matches node.executable_path (normalized_values prefixes)
          (normalized_values substrings))
        rule.severity (custom_transient_of rule)

  unfoldable pub custom_shell : RuleDefinition → Option (List ProcessFinding)
  unfolding odd_shell normalized_values found_if
  custom_shell rule = string_list rule (bytes "shell_names") >>= λ shells.
      string_list rule (bytes "expected_parent_names") >>= λ parents.
      found_if (odd_shell (normalized_values shells) (normalized_values parents) node parent)
        rule.severity (custom_shell_of rule)

  unfoldable pub custom_elevation : RuleDefinition → Option (List ProcessFinding)
  unfolding odd_elevation normalized_values found_if
  custom_elevation rule = string_list rule (bytes "expected_parent_names") >>= λ expected.
      found_if (odd_elevation (normalized_values expected) node parent) rule.severity
        (custom_elevation_of rule)

  -- The findings of one custom rule that is enabled.
  unfoldable pub custom_finding : RuleDefinition → Option (List ProcessFinding)
  unfolding custom_transient custom_shell custom_elevation
  custom_finding rule =
      if rule.engine_rule_id == bytes "PROC-001"
      then custom_transient rule
      else if rule.engine_rule_id == bytes "PROC-002"
      then custom_shell rule
      else if rule.engine_rule_id == bytes "PROC-003"
      then custom_elevation rule
      else some []

  unfoldable pub custom_findings : List RuleDefinition → Option (List ProcessFinding)
  unfolding custom_finding
  custom_findings [] = some []
  custom_findings (rule ∷ rules) =
      let rest = custom_findings rules in
      if rule.enabled
      then (custom_finding rule >>= λ found. rest >>= λ later. some (found ++ later))
      else rest

unfoldable pub evaluate_node :
    ProcessFindingConfig
    → List RuleDefinition
    → ProcessNode
    → List ProcessNode
    → Option (List ProcessFinding)
unfolding transient_finding shell_finding elevation_finding custom_findings
evaluate_node config custom node nodes =
    let parent = parent_node node nodes in
    let version = config.ruleset_version in
    transient_finding version node parent config >>= λ transient.
    shell_finding version node parent config >>= λ shell.
    elevation_finding version node parent config >>= λ elevation.
    custom_findings version node parent custom >>= λ customs.
    some (transient ++ shell ++ elevation ++ customs)

-- The loop of `evaluate_snapshot` over the nodes of the graph.
unfoldable pub evaluate_nodes :
    ProcessFindingConfig
    → List RuleDefinition
    → List ProcessNode
    → List ProcessNode
    → Option (List ProcessFinding)
unfolding evaluate_node
evaluate_nodes config custom nodes [] = some []
evaluate_nodes config custom nodes (node ∷ rest) =
    let later = evaluate_nodes config custom nodes rest in
    evaluate_node config custom node nodes >>= λ current.
    later >>= λ others. some (current ++ others)
