-- ===== src/ProcessGraph/Store.antt =====
-- The containers of `ProcessGraph`: look-up, the index of active processes, eviction.
use neta_agent.Prelude.{
  ℕ, ℤ, ◌+◌, Bool, not, Option, none, some, List, [], ◌∷◌, ◌++◌, ◌==◌, int_eq, nat_eq, find, keep,
  length, leb, is_some, if◌then◌else◌,
}
use neta_agent.ProcessGraph.Types.{ProcessInstanceKey, ProcessNode, ProcessGraph, key_eq}

unfoldable pub new : ℕ → Option ProcessGraph
new max_nodes =
    if max_nodes == 0
    then none
    else some (record {
      max_nodes = max_nodes;
      nodes = [];
      active_by_pid = [];
      insertion_order = [];
      health = record {
        rejected_without_stable_identity = 0;
        ambiguous_parent_links = 0;
        rejected_invalid_parent_links = 0;
        ambiguous_exit_events = 0;
        evicted_nodes = 0;
      };
    })

unfoldable pub find_node : ProcessInstanceKey → List ProcessNode → Option ProcessNode
find_node key nodes = find (λ n. n.key == key) nodes

-- `nodes_.erase`
unfoldable pub remove_node : ProcessInstanceKey → List ProcessNode → List ProcessNode
remove_node key [] = []
remove_node key (n ∷ nodes) = if n.key == key then nodes else n ∷ remove_node key nodes

-- A write through the iterator that `find` returned.
unfoldable pub put_node :
    ProcessInstanceKey → (ProcessNode → ProcessNode) → List ProcessNode → List ProcessNode
put_node key f [] = []
put_node key f (n ∷ nodes) = if n.key == key then f n ∷ nodes else n ∷ put_node key f nodes

-- `active_by_pid_.equal_range(pid)`
unfoldable pub matching : ℤ → List ProcessInstanceKey → List ProcessInstanceKey
matching pid keys = keep (λ k. k.pid == pid) keys

abbrev pub only {ℓ} : {A : Type ℓ} → List A → Option A
only [] = none
only (k ∷ []) = some k
only (k ∷ l ∷ keys) = none

unfoldable pub unique_active_key_for_pid : ProcessGraph → ℤ → Option ProcessInstanceKey
unique_active_key_for_pid g pid = only (matching pid g.active_by_pid)

unfoldable pub index_active : ProcessInstanceKey → List ProcessInstanceKey → List ProcessInstanceKey
index_active key keys = keys ++ key ∷ []

-- The first entry with this key is erased.
unfoldable pub unindex_active :
    ProcessInstanceKey → List ProcessInstanceKey → List ProcessInstanceKey
unindex_active key [] = []
unindex_active key (k ∷ keys) = if k == key then keys else k ∷ unindex_active key keys

abbrev pub is_active : ProcessNode → Bool
is_active n = not (is_some n.exited_at_ns)

-- One round of the eviction loop for the key at the front of the queue; `none` is `continue`.
unfoldable pub drop_oldest : ProcessInstanceKey → Option ProcessNode → ProcessGraph → ProcessGraph
drop_oldest oldest none g = g
drop_oldest oldest (some found) g = record g {
  active_by_pid =
      if is_active found then unindex_active found.key g.active_by_pid else g.active_by_pid;
  nodes = remove_node oldest g.nodes;
  health = record g.health { evicted_nodes = g.health.evicted_nodes + 1 };
}

unfoldable pub evict_from : List ProcessInstanceKey → ProcessGraph → ProcessGraph
unfolding drop_oldest find_node
evict_from [] g = record g { insertion_order = [] }
evict_from (oldest ∷ order) g =
    let rest = evict_from order (drop_oldest oldest (find_node oldest g.nodes) g) in
    if leb g.max_nodes (length g.nodes) then rest else record g { insertion_order = oldest ∷ order }

unfoldable pub evict_if_needed : ProcessGraph → ProcessGraph
unfolding evict_from
evict_if_needed g = evict_from g.insertion_order g

unfoldable pub active_count : ProcessGraph → ℕ
active_count g = length (keep is_active g.nodes)
