-- ===== src/Findings/Engine.antt =====
-- `ProcessFindingEngine` of src/core/process_graph.cpp: its state and `observe`. A process has one node
-- of the graph, so that the order in which the graph lists its nodes only orders findings.
use neta_agent.Prelude.{
  ℕ, ◌-◌, ℤ, pos, Bool, true, false, ◌&&◌, ◌||◌, not, Option, none, some, Text, bytes, List, [],
  ◌∷◌, ◌++◌, text_eq, int_eq, nat_eq, option_eq, ◌==◌, if◌then◌else◌, ◌>>=◌, keep, any, find,
  length, leb, is_some, is_nonpositive, value_or,
}
use neta_agent.Prelude.Dict.{Dict, lookup, assign, erase}
use neta_agent.ProcessGraph.{
  ProcessInstanceKey, key_eq, ProcessNode, ProcessExecEvent, ProcessExecEventType, find_node,
}
use neta_agent.Findings.Types.{
  ProcessFinding, ProcessFindingKind, ProcessFindingConfig, RuleDefinition, numeric,
}
use neta_agent.Findings.Names.{severity_from_string}
use neta_agent.Findings.Config.{ns_of_ms}
use neta_agent.Findings.Static.{make_finding, parent_node, evaluate_node}
use neta_agent.Findings.Window.{ProcessWindowMap, record_time}

pub record ProcessFindingEngine : Type 0 where
  pub config : ProcessFindingConfig
  pub custom_process_rules : List RuleDefinition
  pub starts : Dict ProcessInstanceKey ℕ
  pub child_starts : ProcessWindowMap
  pub short_exits : ProcessWindowMap
  pub custom_child_starts : Dict Text ProcessWindowMap
  pub custom_short_exits : Dict Text ProcessWindowMap

-- The constructors: of a configuration and the custom rules for processes among some definitions.
unfoldable pub new : ProcessFindingConfig → List RuleDefinition → ProcessFindingEngine
new config definitions = record {
  config = config;
  custom_process_rules =
      keep (λ d. not (d.id == d.engine_rule_id) && (d.category == bytes "process")) definitions;
  starts = [];
  child_starts = [];
  short_exits = [];
  custom_child_starts = [];
  custom_short_exits = [];
}

-- What a step throws or returns, and the engine after it, a throw included.
abbrev pub Step : Type 0
Step = Option (List ProcessFinding) × ProcessFindingEngine

-- The findings of a step after some others.
abbrev pub after : List ProcessFinding → Step → Step
after findings step = (step.0 >>= λ later. some (findings ++ later), step.1)

-- A step after one that may have thrown.
abbrev pub then_step : Step → (ProcessFindingEngine → Step) → Step
then_step step next = elim step.0 [
  | none ↦ (none, step.1)
  | some findings ↦ after findings (next step.1)
]

abbrev is_exit : ProcessExecEventType → Bool
is_exit ProcessExecEventType.exit = true
is_exit ProcessExecEventType.start = false

abbrev is_node_of : ProcessExecEvent → ℤ → ProcessNode → Bool
is_node_of event pid node =
    (node.key.pid == pid)
    && ((is_some event.platform_process_key
          && (node.key.platform_key == event.platform_process_key))
        || (is_some event.process_start_time_ns
            && (node.key.start_time_ns == event.process_start_time_ns))
        || (is_exit event.type && (node.exited_at_ns == some event.timestamp_ns)))

unfoldable pub node_for_event : ProcessExecEvent → List ProcessNode → Option ProcessNode
node_for_event event nodes =
    let pid = value_or event.tgid (value_or event.pid (pos 0)) in
    if is_nonpositive pid then none else find (is_node_of event pid) nodes

abbrev is_engine : Text → RuleDefinition → Bool
is_engine engine rule = rule.enabled && (rule.engine_rule_id == engine)

unfoldable pub has_custom_short_lived : List RuleDefinition → Bool
has_custom_short_lived rules = any (is_engine (bytes "PROC-005")) rules

-- The finding on a parent whose window has reached its count, where the graph has the parent.
unfoldable pub burst :
    ProcessFindingKind
    → Text
    → Text
    → Text
    → ProcessInstanceKey
    → List ProcessNode
    → ℕ
    → ℕ
    → List ℕ
    → Text
    → Text
    → Option (List ProcessFinding)
unfolding severity_from_string find_node
burst kind rule_id severity version key nodes now count times summary interpretation =
    if length times == count
    then elim (find_node key nodes) [
      | none ↦ some []
      | some parent ↦ severity_from_string severity >>= λ s. some (
          record (make_finding kind rule_id s version parent (parent_node parent nodes) summary
            interpretation) { observed_at_ns = now }
          ∷ [])
    ]
    else some []

abbrev pub fanout_summary : Text
fanout_summary = bytes "A process spawned many child processes within a short window."

abbrev pub fanout_interpretation : Text
fanout_interpretation =
    bytes
      "Rapid child-process fan-out can resemble scripted or automated execution; malicious intent is not established."

module _ (event : ProcessExecEvent) (nodes : List ProcessNode) (parent : ProcessInstanceKey) where
  unfoldable pub fanout : ProcessFindingEngine → Step
  unfolding record_time burst
  fanout e =
      if e.config.fanout_enabled
      then (let (times, windows) =
            record_time parent event.timestamp_ns e.config.fanout_window_ns e.child_starts in
          (
            burst ProcessFindingKind.rapid_child_fanout (bytes "PROC-004") e.config.fanout_severity
                e.config.ruleset_version parent nodes event.timestamp_ns e.config.fanout_count times
                fanout_summary fanout_interpretation,
            record e { child_starts = windows },
          ))
      else (some [], e)

  unfoldable pub custom_fanout : RuleDefinition → ProcessFindingEngine → Step
  unfolding record_time burst
  custom_fanout rule e = elim (numeric rule (bytes "window_ms")) [
    | none ↦ (none, e)
    | some window ↦ elim (numeric rule (bytes "child_count")) [
      | none ↦ (none, e)
      | some count ↦
          let (times, windows) =
            record_time parent event.timestamp_ns (ns_of_ms window)
              (value_or (lookup rule.id e.custom_child_starts) []) in
          (
            burst ProcessFindingKind.rapid_child_fanout rule.id rule.severity
                e.config.ruleset_version parent nodes event.timestamp_ns count times
                (bytes "A process matched a custom rapid child fan-out rule.")
                (bytes "A centrally managed custom fan-out detection matched this process."),
            record e { custom_child_starts = assign rule.id windows e.custom_child_starts },
          )
    ]
  ]

  unfoldable pub custom_fanouts : List RuleDefinition → ProcessFindingEngine → Step
  unfolding custom_fanout
  custom_fanouts [] e = (some [], e)
  custom_fanouts (rule ∷ rules) e =
      if is_engine (bytes "PROC-004") rule
      then then_step (custom_fanout rule e) (custom_fanouts rules)
      else custom_fanouts rules e

  unfoldable pub short_lived : ℕ → ProcessFindingEngine → Step
  unfolding record_time burst
  short_lived duration e =
      if e.config.short_lived_enabled && leb duration e.config.short_lived_max_ns
      then (let (times, windows) =
            record_time parent event.timestamp_ns e.config.short_lived_window_ns e.short_exits in
          (
            burst ProcessFindingKind.short_lived_process_burst (bytes "PROC-005")
                e.config.short_lived_severity e.config.ruleset_version parent nodes
                event.timestamp_ns e.config.short_lived_count times
                (bytes "A process produced a burst of short-lived child processes.")
                (bytes
                  "A short-lived process burst can resemble scripted execution or repeated helper invocation; malicious intent is not established."),
            record e { short_exits = windows },
          ))
      else (some [], e)

  unfoldable pub custom_short_lived : RuleDefinition → ℕ → ProcessFindingEngine → Step
  unfolding record_time burst
  custom_short_lived rule duration e = elim (numeric rule (bytes "max_lifetime_ms")) [
    | none ↦ (none, e)
    | some lifetime ↦
        if leb duration (ns_of_ms lifetime)
        then elim (numeric rule (bytes "window_ms")) [
          | none ↦ (none, e)
          | some window ↦ elim (numeric rule (bytes "child_count")) [
            | none ↦ (none, e)
            | some count ↦
                let (times, windows) =
                  record_time parent event.timestamp_ns (ns_of_ms window)
                    (value_or (lookup rule.id e.custom_short_exits) []) in
                (
                  burst ProcessFindingKind.short_lived_process_burst rule.id rule.severity
                      e.config.ruleset_version parent nodes event.timestamp_ns count times
                      (bytes "A process matched a custom short-lived child burst rule.")
                      (bytes
                        "A centrally managed custom short-lived-process detection matched this process."),
                  record e { custom_short_exits = assign rule.id windows e.custom_short_exits },
                )
          ]
        ]
        else (some [], e)
  ]

  unfoldable pub custom_short_lives : List RuleDefinition → ℕ → ProcessFindingEngine → Step
  unfolding custom_short_lived
  custom_short_lives [] duration e = (some [], e)
  custom_short_lives (rule ∷ rules) duration e =
      if is_engine (bytes "PROC-005") rule
      then then_step (custom_short_lived rule duration e) (custom_short_lives rules duration)
      else custom_short_lives rules duration e

-- The part of `observe` on a start.
unfoldable pub event_started :
    ProcessExecEvent → List ProcessNode → ProcessNode → ProcessFindingEngine → Step
unfolding evaluate_node fanout custom_fanouts has_custom_short_lived
event_started event nodes node e =
    let e1 = record e {
      starts =
          if e.config.short_lived_enabled || has_custom_short_lived e.custom_process_rules
          then assign node.key event.timestamp_ns e.starts
          else e.starts;
    } in
    then_step (evaluate_node e.config e.custom_process_rules node nodes, e1)
      (λ e2. elim node.parent [
        | none ↦ (some [], e2)
        | some parent ↦
            then_step (fanout event nodes parent e2)
              (custom_fanouts event nodes parent e.custom_process_rules)
      ])

abbrev pub lifetime : ℕ → ℕ → ℕ
lifetime now started = if leb started now then now - started else 0

-- The part of `observe` on an exit.
unfoldable pub event_exited :
    ProcessExecEvent → List ProcessNode → ProcessNode → ProcessFindingEngine → Step
unfolding short_lived custom_short_lives
event_exited event nodes node e = elim (lookup node.key e.starts) [
  | none ↦ (some [], e)
  | some started ↦
      let duration = lifetime event.timestamp_ns started in
      let e1 = record e { starts = erase node.key e.starts } in
      elim node.parent [
        | none ↦ (some [], e1)
        | some parent ↦
            then_step (short_lived event nodes parent duration e1)
              (custom_short_lives event nodes parent e.custom_process_rules duration)
      ]
]

-- `nodes` is the snapshot of the graph.
unfoldable pub observe_event : ProcessExecEvent → List ProcessNode → ProcessFindingEngine → Step
unfolding node_for_event event_started event_exited
observe_event event nodes e = elim (node_for_event event nodes) [
  | none ↦ (some [], e)
  | some node ↦
      if is_exit event.type
      then event_exited event nodes node e
      else event_started event nodes node e
]
