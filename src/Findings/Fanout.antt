-- ===== src/Findings/Fanout.antt =====
-- When the finding engine reports a process that starts many others.
use neta_agent.Prelude.{
  ℕ, ◌≡◌, refl, ap, sym, ◌∙◌, true, Option, some, Text, bytes, List, [], ◌∷◌, ◌++◌, length, ◌==◌,
  nat_eq, if◌then◌else◌, ◌>>=◌, map, value_or, Bool-cases, inl, inr,
}
use neta_agent.Prelude.Dict.{lookup, lookup-assign}
use neta_agent.ProcessGraph.{ProcessInstanceKey, key_eq, ProcessNode, ProcessExecEvent, find_node}
use neta_agent.Findings.Types.{ProcessFinding, ProcessFindingKind, ProcessFindingSeverity}
use neta_agent.Findings.Names.{severity_from_string}
use neta_agent.Findings.Window.{record_time, recorded}
use neta_agent.Findings.Engine.{
  ProcessFindingEngine, burst, fanout, fanout_summary, fanout_interpretation,
}
use neta_agent.Findings.Recent.{windowed, windowed-recent, IsRising, latest-append, recent}

windowed-append :
    (window t : ℕ) (times values : List ℕ)
    → windowed window (times ++ t ∷ []) values ≡ recorded (windowed window times values) t window
unfolding windowed
windowed-append window t [] values = refl
windowed-append window t (s ∷ times) values =
    windowed-append window t times (recorded values s window)

-- The processes that some findings are about.
abbrev pub subjects : Option (List ProcessFinding) → Option (List ProcessInstanceKey)
subjects found = found >>= λ findings. some (map (λ f. f.process) findings)

burst-subjects :
    (kind : ProcessFindingKind) (rule_id severity version : Text) (key : ProcessInstanceKey)
    (nodes : List ProcessNode) (now count : ℕ) (times : List ℕ) (summary interpretation : Text)
    (s : ProcessFindingSeverity) (parent : ProcessNode)
    → severity_from_string severity ≡ some s
    → find_node key nodes ≡ some parent
    → subjects
        (burst kind rule_id severity version key nodes now count times summary interpretation)
      ≡ some (if length times == count then parent.key ∷ [] else [])
unfolding burst
burst-subjects kind rule_id severity version key nodes now count times summary interpretation s
      parent valid known =
    elim (Bool-cases (length times == count)) [
      | inl full ↦ rw (full, burst) (rw known (rw valid refl))
      | inr other ↦ rw (other, burst) refl
    ]

-- Where the engine's rule on fan-out is enabled with a known severity, the window of a parent that the
-- graph has comes from recording the times of earlier starts, and neither they nor the time of this
-- start decrease, the rule reports the parent exactly where as many of all these starts as it counts
-- are at most its window before this one; the new window comes from recording this start too.
pub fanout_outcome :
    (event : ProcessExecEvent) (nodes : List ProcessNode) (key : ProcessInstanceKey)
    (e : ProcessFindingEngine) (times : List ℕ) (severity : ProcessFindingSeverity)
    (parent : ProcessNode)
    → e.config.fanout_enabled ≡ true
    → severity_from_string e.config.fanout_severity ≡ some severity
    → find_node key nodes ≡ some parent
    → value_or (lookup key e.child_starts) [] ≡ windowed e.config.fanout_window_ns times []
    → IsRising 0 (times ++ event.timestamp_ns ∷ [])
    → let now = event.timestamp_ns in
      let window = e.config.fanout_window_ns in
      let starts = times ++ now ∷ [] in
      (subjects (fanout event nodes key e).0
        ≡ some (
            if length (recent now window starts) == e.config.fanout_count
            then parent.key ∷ []
            else []))
      × (lookup key (fanout event nodes key e).1.child_starts ≡ some (windowed window starts []))
unfolding fanout record_time
fanout_outcome event nodes key e times severity parent enabled valid known kept rising =
    let now = event.timestamp_ns in
    let window = e.config.fanout_window_ns in
    let starts = times ++ now ∷ [] in
    let next : recorded (value_or (lookup key e.child_starts) []) now window
        ≡ windowed window starts [] =
      ap (λ values. recorded values now window) kept ∙ sym (windowed-append window now times []) in
    let exact : recorded (value_or (lookup key e.child_starts) []) now window
        ≡ recent now window starts =
      next
      ∙ windowed-recent window starts rising
      ∙ ap (λ l. recent l window starts) (latest-append 0 now times) in
    rw (enabled, fanout)
      (
        burst-subjects ProcessFindingKind.rapid_child_fanout (bytes "PROC-004")
              e.config.fanout_severity e.config.ruleset_version key nodes now e.config.fanout_count
              (record_time key now window e.child_starts).0 fanout_summary fanout_interpretation
              severity parent valid known
            ∙ ap (λ ts. some (if length ts == e.config.fanout_count then parent.key ∷ [] else []))
                exact,
        lookup-assign key _ e.child_starts ∙ ap some next,
      )
