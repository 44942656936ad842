-- ===== src/ProcessGraph/Observe.antt =====
-- `ProcessGraph::observe`.
use neta_agent.Prelude.{
  ℕ, ℤ, ◌+◌, Bool, true, false, not, Option, none, some, [], ◌∷◌, ◌++◌, ◌==◌, nat_eq, ltb, is_some,
  is_empty, is_nonpositive, if◌then◌else◌,
}
use neta_agent.ProcessGraph.Types.{
  ProcessInstanceKey, ProcessNode, ProcessGraph, ProcessExecEvent, ProcessExecEventType, durable,
}
use neta_agent.ProcessGraph.Store.{
  find_node, put_node, matching, unique_active_key_for_pid, index_active, unindex_active,
  evict_if_needed,
}

abbrev first_of_two {ℓ} : {A : Type ℓ} → Option A → Option A → Option A
first_of_two none b = b
first_of_two (some a) b = some a

-- The start time is part of a key only where there is no platform key.
abbrev pub start_unless : Option ℕ → Option ℕ → Option ℕ
start_unless none start = start
start_unless (some platform) start = none

abbrev pub when_durable : ProcessInstanceKey → Option ProcessInstanceKey
when_durable key = if durable key then some key else none

unfoldable pub key_from : ProcessExecEvent → Option ProcessInstanceKey
key_from event = elim event.tgid [
  | none ↦ none
  | some tgid ↦
      if is_nonpositive tgid
      then none
      else when_durable (record {
        pid = tgid;
        platform_key = event.platform_process_key;
        start_time_ns = start_unless event.platform_process_key event.process_start_time_ns;
      })
]

pub data KeyLookup : Type 0 where
  found : ProcessInstanceKey → KeyLookup
  ambiguous_exit : KeyLookup
  unstable : KeyLookup

-- The key of the event, or for an exit with no stable identity the one active process of its pid.
unfoldable pub resolve_key : ProcessGraph → ProcessExecEvent → KeyLookup
unfolding key_from
resolve_key g event = elim (key_from event) [
  | some key ↦ found key
  | none ↦ elim event.type [
    | ProcessExecEventType.start ↦ unstable
    | ProcessExecEventType.exit ↦ elim event.tgid [
      | none ↦ unstable
      | some tgid ↦
          if is_nonpositive tgid then unstable else elim (unique_active_key_for_pid g tgid) [
            | none ↦ ambiguous_exit
            | some key ↦ found key
          ]
    ]
  ]
]

unfoldable pub observe_exit :
    ProcessInstanceKey → ProcessExecEvent → ProcessGraph → ProcessGraph × Bool
observe_exit key event g =
    if is_some (find_node key g.nodes)
    then (
      record g {
        nodes =
            put_node key
              (λ n. record n {
                exited_at_ns = some event.timestamp_ns;
                exit_code = event.exit_code;
              })
              g.nodes;
        active_by_pid = unindex_active key g.active_by_pid;
      },
      true,
    )
    else (g, false)

-- A repeated start refreshes what the event says of the process.
unfoldable pub refresh : ProcessExecEvent → ProcessNode → ProcessNode
refresh event node = record node {
  uid = event.uid;
  gid = event.gid;
  session_id = event.session_id;
  user_identity = event.user_identity;
  integrity_level = event.integrity_level;
  elevated = event.elevated;
  comm = event.comm;
  executable_path = event.executable_path;
  command_line = event.command_line;
  working_directory = event.working_directory;
}

unfoldable pub new_node : ProcessInstanceKey → ProcessExecEvent → ProcessNode
new_node key event = record {
  key = key;
  parent = none;
  parent_pid = first_of_two event.parent_tgid event.parent_pid;
  uid = event.uid;
  gid = event.gid;
  session_id = event.session_id;
  user_identity = event.user_identity;
  integrity_level = event.integrity_level;
  elevated = event.elevated;
  comm = event.comm;
  executable_path = event.executable_path;
  command_line = event.command_line;
  working_directory = event.working_directory;
  started_at_ns = event.timestamp_ns;
  exited_at_ns = none;
  exit_code = none;
}

unfoldable pub parent_key : ℤ → ProcessExecEvent → ProcessInstanceKey
parent_key parent_tgid event = record {
  pid = parent_tgid;
  platform_key = event.parent_platform_process_key;
  start_time_ns = start_unless event.parent_platform_process_key event.parent_process_start_time_ns;
}

-- The parent, and whether the link counts as ambiguous.
unfoldable pub resolve_parent :
    ProcessGraph → ℤ → ProcessExecEvent → Option ProcessInstanceKey × Bool
unfolding parent_key
resolve_parent g parent_tgid event =
    if durable (parent_key parent_tgid event)
    then (some (parent_key parent_tgid event), false)
    else elim (unique_active_key_for_pid g parent_tgid) [
      | some key ↦ (some key, false)
      | none ↦ (none, not (is_empty (matching parent_tgid g.active_by_pid)))
    ]

unfoldable pub parent_start : ProcessGraph → ProcessInstanceKey → ProcessExecEvent → Option ℕ
parent_start g parent event = elim event.parent_process_start_time_ns [
  | some start ↦ some start
  | none ↦ elim (find_node parent g.nodes) [
    | none ↦ none
    | some node ↦ if node.started_at_ns == 0 then none else some node.started_at_ns
  ]
]

unfoldable pub child_start : ProcessExecEvent → Option ℕ
child_start event = elim event.process_start_time_ns [
  | some start ↦ some start
  | none ↦ if event.timestamp_ns == 0 then none else some event.timestamp_ns
]

-- `child_start && parent_start && *parent_start > *child_start`
abbrev pub starts_later : Option ℕ → Option ℕ → Bool
starts_later none child = false
starts_later (some parent) none = false
starts_later (some parent) (some child) = ltb child parent

-- The link of a new node to its parent, with the counters that it changes.
unfoldable pub link_parent :
    ProcessGraph → ProcessExecEvent → ProcessNode → ProcessGraph × ProcessNode
unfolding resolve_parent parent_start child_start
link_parent g event node = elim event.parent_tgid [
  | none ↦ (g, node)
  | some parent_tgid ↦
      if is_nonpositive parent_tgid
      then (g, node)
      else let (resolved, ambiguous) = resolve_parent g parent_tgid event in
        let counted =
          if ambiguous
          then record g {
            health = record g.health {
              ambiguous_parent_links = g.health.ambiguous_parent_links + 1;
            };
          }
          else g in
        elim resolved [
          | none ↦ (counted, node)
          | some parent ↦
              if starts_later (parent_start g parent event) (child_start event)
              then (
                record counted {
                  health = record counted.health {
                    rejected_invalid_parent_links =
                        counted.health.rejected_invalid_parent_links + 1;
                  };
                },
                node,
              )
              else (counted, record node { parent = some parent })
        ]
]

unfoldable pub insert_node : ProcessGraph → ProcessNode → ProcessGraph
insert_node g node = record g {
  nodes = g.nodes ++ node ∷ [];
  insertion_order = g.insertion_order ++ node.key ∷ [];
  active_by_pid = index_active node.key g.active_by_pid;
}

unfoldable pub observe_start :
    ProcessInstanceKey → ProcessExecEvent → ProcessGraph → ProcessGraph × Bool
observe_start key event g =
    if is_some (find_node key g.nodes)
    then (record g { nodes = put_node key (refresh event) g.nodes }, true)
    else let (linked, node) = link_parent (evict_if_needed g) event (new_node key event) in
      (insert_node linked node, true)

unfoldable pub observe : ProcessExecEvent → ProcessGraph → ProcessGraph × Bool
observe event g = elim (resolve_key g event) [
  | found key ↦ elim event.type [
    | ProcessExecEventType.exit ↦ observe_exit key event g
    | ProcessExecEventType.start ↦ observe_start key event g
  ]
  | ambiguous_exit ↦ (
    record g {
      health = record g.health { ambiguous_exit_events = g.health.ambiguous_exit_events + 1 };
    },
    false,
  )
  | unstable ↦ (
    record g {
      health = record g.health {
        rejected_without_stable_identity = g.health.rejected_without_stable_identity + 1;
      };
    },
    false,
  )
]
