-- ===== src/ProcessGraph/Links.antt =====
-- Which process an exit without a stable identity ends, and what a start records.
use neta_agent.Prelude.{
  ℕ, ℤ, ◌+◌, ◌≤◌, ◌≡◌, ◌≢◌, refl, inl, true, false, Option, none, some, List, [], ◌∷◌, ◌++◌, arith,
  length, is_some, In, is_nonpositive, In-keep, ◌==◌, int_eq,
}
use neta_agent.ProcessGraph.{
  ProcessInstanceKey, ProcessNode, ProcessGraph, ProcessExecEvent, ProcessExecEventType, key_eq,
  key_beq_iff, find_node, put_node, matching, unique_active_key_for_pid, key_from, resolve_key,
  observe, observe_exit, observe_start, new_node, link_parent, parent_start, child_start,
  insert_node, evict_if_needed, KeyLookup, only,
}
use neta_agent.ProcessGraph.Index.{keys_of, active_keys, find-none}
use neta_agent.ProcessGraph.Capacity.{IsSound, link_parent-Linked, evict-Evicted}

abbrev pub exit_node : ProcessExecEvent → ProcessNode → ProcessNode
exit_node e n = record n { exited_at_ns = some e.timestamp_ns; exit_code = e.exit_code }

active-found :
    (k : ProcessInstanceKey) (nodes : List ProcessNode)
    → In k (active_keys nodes)
    → is_some (find_node k nodes) ≡ true
unfolding find_node
active-found k [] m = elim m [ ]
active-found k (n ∷ nodes) m = ground (arith, key_beq_iff n.key k, active-found k nodes)

only-none : (keys : List ProcessInstanceKey) → length keys ≢ 1 → only keys ≡ none
only-none [] h = refl
only-none (k ∷ []) h = absurd (h refl)
only-none (k ∷ l ∷ keys) h = refl

In-matching :
    (k : ProcessInstanceKey) (pid : ℤ) (keys : List ProcessInstanceKey)
    → In k (matching pid keys)
    → In k keys
unfolding matching
In-matching k pid keys m = (In-keep (λ x. x.pid == pid) k keys m).0

module _ (e : ProcessExecEvent) (max : ℕ) (g : ProcessGraph) (pid : ℤ) (sound : IsSound max g)
    (exits : e.type ≡ ProcessExecEventType.exit) (unnamed : key_from e ≡ none)
    (tgid : e.tgid ≡ some pid) (positive : is_nonpositive pid ≡ false) where
  resolve_unnamed :
      (o : Option ProcessInstanceKey)
      → only (matching pid (active_keys g.nodes)) ≡ o
      → resolve_key g e ≡ elim o [ none ↦ KeyLookup.ambiguous_exit | some k ↦ KeyLookup.found k ]
  unfolding resolve_key unique_active_key_for_pid
  resolve_unnamed o h =
      let index = sound.indexed.active in
      rw (unnamed, resolve_key) (rw exits (rw tgid (rw positive (rw index (rw h)))))

  -- An exit event that names only a positive pid, in a graph whose index is exact, ends the one running
  -- process with this pid where there is exactly one: its node gets the exit time and code, and no
  -- other node changes.
  pub exit_by_pid :
      (k : ProcessInstanceKey)
      → matching pid (active_keys g.nodes) ≡ k ∷ []
      → ((observe e g).0.nodes ≡ put_node k (exit_node e) g.nodes) × ((observe e g).1 ≡ true)
  unfolding observe observe_exit
  exit_by_pid k one =
      let member : In k (active_keys g.nodes) =
        In-matching k pid (active_keys g.nodes) (rw one (inl refl)) in
      ground (arith, resolve_unnamed (some k) (rw one), active-found k g.nodes member)

  -- An exit event that names only a positive pid, in a graph whose index is exact, changes no node, is
  -- refused and is counted as ambiguous where no running process or several have this pid.
  pub exit_ambiguous :
      length (matching pid (active_keys g.nodes)) ≢ 1
      → ((observe e g).0.nodes ≡ g.nodes)
        × ((observe e g).1 ≡ false)
        × ((observe e g).0.health.ambiguous_exit_events ≡ g.health.ambiguous_exit_events + 1)
  unfolding observe observe_exit
  exit_ambiguous many = ground (arith, resolve_unnamed none (only-none _ many))

module _ (key : ProcessInstanceKey) where
  find-append :
      (nodes : List ProcessNode) (n : ProcessNode)
      → find_node key nodes ≡ none
      → n.key ≡ key
      → find_node key (nodes ++ n ∷ []) ≡ some n
  unfolding find_node
  find-append [] n fresh same = ground (arith, key_beq_iff n.key key)
  find-append (m ∷ nodes) n fresh same = ground (arith, find-append nodes n)

  find-none_of :
      (nodes : List ProcessNode) → ¬ (In key (keys_of nodes)) → find_node key nodes ≡ none
  unfolding find_node
  find-none_of [] out = refl
  find-none_of (n ∷ nodes) out = ground (arith, key_beq_iff n.key key, find-none_of nodes)

abbrev pub NotLater : Option ℕ → Option ℕ → Type 0
NotLater (some parent) (some child) = parent ≤ child
NotLater _ _ = Unit

-- The parent, if there is one, did not start after the child.
abbrev pub ParentFirst : ProcessGraph → ProcessExecEvent → Option ProcessInstanceKey → Type 0
ParentFirst g e none = Unit
ParentFirst g e (some p) = NotLater (parent_start g p e) (child_start e)

-- What the graph holds of a process after its first start event.
pub record StartedBy (g : ProcessGraph) (key : ProcessInstanceKey) (e : ProcessExecEvent)
    (n : ProcessNode) : Type 0 where
  pub same_key : n.key ≡ key
  pub image : n.executable_path ≡ e.executable_path
  pub command : n.command_line ≡ e.command_line
  pub started : n.started_at_ns ≡ e.timestamp_ns
  pub running : n.exited_at_ns ≡ none
  pub parent_first : ParentFirst g e n.parent

link_parent-StartedBy :
    (g : ProcessGraph) (key : ProcessInstanceKey) (e : ProcessExecEvent)
    → StartedBy g key e (link_parent g e (new_node key e)).1
unfolding link_parent new_node
link_parent-StartedBy g key e = record {
  same_key = ground arith;
  image = ground arith;
  command = ground arith;
  started = ground arith;
  running = ground arith;
  parent_first = ground arith;
}

-- The first start event of a process stores a running node under its key, with the image, the
-- command line and the time of the event; if the node is linked to a parent and the start times of
-- both are known after the eviction that makes room for it, the parent did not start later.
pub start_recorded :
    (key : ProcessInstanceKey) (e : ProcessExecEvent) (max : ℕ) (g : ProcessGraph)
    → IsSound max g
    → find_node key g.nodes ≡ none
    → (n : ProcessNode) × (find_node key (observe_start key e g).0.nodes ≡ some n)
      × StartedBy (evict_if_needed g) key e n
unfolding observe_start insert_node
start_recorded key e max g sound fresh =
    let v = evict-Evicted max g sound in
    let l = link_parent-Linked (evict_if_needed g) e (new_node key e) in
    let s = link_parent-StartedBy (evict_if_needed g) key e in
    let out =
      find-none_of key (evict_if_needed g).nodes
        (λ m. find-none key g.nodes fresh (v.kept key m)) in
    (
      (link_parent (evict_if_needed g) e (new_node key e)).1,
      rw fresh (find-append key _ _ (rw l.same_nodes out) s.same_key),
      s,
    )
