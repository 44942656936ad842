-- ===== src/Examples/Graphs.antt =====
-- The process graph at concrete events.
use neta_agent.Prelude.{ℕ, ◌≤◌, ◌≡◌, refl, true, Option, none, some, [], ◌∷◌, bytes, length, pos}
use neta_agent.ProcessGraph.{
  ProcessInstanceKey, ProcessGraph, ProcessGraphHealth, ProcessExecEvent, ProcessExecEventType,
}
use neta_agent.ProcessGraph.{new, find_node, put_node, matching, active_count, evict_if_needed}
use neta_agent.ProcessGraph.{
  key_from, observe, observe_start, resolve_key, insert_node, link_parent, new_node,
}
use neta_agent.ProcessGraph.Index.{keys_of, active_keys, Distinct}
use neta_agent.ProcessGraph.Capacity.{
  IsSound, new-IsSound, observe_all, observe_all-IsSound, graph_sound,
}
use neta_agent.ProcessGraph.Links.{exit_node, exit_by_pid}

abbrev no_health : ProcessGraphHealth
no_health = record {
  rejected_without_stable_identity = 0;
  ambiguous_parent_links = 0;
  rejected_invalid_parent_links = 0;
  ambiguous_exit_events = 0;
  evicted_nodes = 0;
}

abbrev empty : ProcessGraph
empty = record {
  max_nodes = 2;
  nodes = [];
  active_by_pid = [];
  insertion_order = [];
  health = no_health;
}

abbrev pub event : ProcessExecEventType → ℕ → ℕ → Option ℕ → ProcessExecEvent
event type at pid start = record {
  type = type;
  timestamp_ns = at;
  pid = some (pos pid);
  tgid = some (pos pid);
  parent_pid = none;
  parent_tgid = none;
  uid = none;
  gid = none;
  process_start_time_ns = start;
  platform_process_key = none;
  parent_process_start_time_ns = none;
  parent_platform_process_key = none;
  session_id = none;
  user_identity = [];
  integrity_level = [];
  elevated = none;
  exit_code = none;
  cgroup_id = none;
  comm = bytes "sh";
  executable_path = bytes "/bin/sh";
  command_line = [];
  working_directory = [];
}

abbrev first : ProcessExecEvent
first = event ProcessExecEventType.start 100 7 (some 50)

abbrev ended : ProcessExecEvent
ended = event ProcessExecEventType.exit 200 7 none

new-empty : new 2 ≡ some empty
unfolding new
new-empty = refl

graph_sound_example :
    let h = observe_all (first ∷ ended ∷ []) empty in
    (length h.nodes ≤ 2)
    × Distinct (keys_of h.nodes)
    × (h.insertion_order ≡ keys_of h.nodes)
    × (h.active_by_pid ≡ active_keys h.nodes)
    × (length h.active_by_pid ≡ active_count h)
graph_sound_example = graph_sound 2 empty (first ∷ ended ∷ []) new-empty

abbrev seven : ProcessInstanceKey
seven = record { pid = pos 7; start_time_ns = some 50; platform_key = none }

seven_absent : find_node seven empty.nodes ≡ none
unfolding find_node
seven_absent = refl

abbrev running : ProcessGraph
running = observe_all (first ∷ []) empty

running_IsSound : IsSound 2 running
running_IsSound = observe_all-IsSound (first ∷ []) 2 empty (new-IsSound 2 empty new-empty)

ended_unnamed : key_from ended ≡ none
unfolding key_from
ended_unnamed = refl

one_running : matching (pos 7) (active_keys running.nodes) ≡ seven ∷ []
unfolding observe_all observe observe_start matching key_from resolve_key find_node insert_node
    link_parent evict_if_needed new_node
one_running = refl

exit_by_pid_example :
    ((observe ended running).0.nodes ≡ put_node seven (exit_node ended) running.nodes)
    × ((observe ended running).1 ≡ true)
exit_by_pid_example =
    exit_by_pid ended 2 running (pos 7) running_IsSound refl ended_unnamed refl refl seven
      one_running
