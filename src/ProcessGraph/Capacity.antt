-- ===== src/ProcessGraph/Capacity.antt =====
-- Whatever events arrive, the graph stays within its capacity and its index stays exact.
use neta_agent.Prelude.{
  ℕ, ◌≤◌, ◌<◌, ◌≡◌, ◌⊎◌, refl, inl, inr, ap, sym, ◌∙◌, true, some, List, [], ◌∷◌, arith, length,
  length-append, is_some, Bool-cases, Option-cases, In, keep,
}
use neta_agent.ProcessGraph.{
  ProcessInstanceKey, ProcessNode, ProcessGraph, ProcessExecEvent, ProcessExecEventType, KeyLookup,
  new, find_node, put_node, evict_if_needed, observe, observe_exit, observe_start, refresh,
  new_node, link_parent, insert_node, index_active, is_active, active_count, resolve_key,
}
use neta_agent.ProcessGraph.Index.{
  keys_of, active_keys, Distinct, IsIndexed, Evicted, find-none, keys-put, active-put, active-exit,
  keys-append, active-append, Distinct-append, evict_from-Evicted,
}

pub record IsSound (max : ℕ) (g : ProcessGraph) : Type 0 where
  pub indexed : IsIndexed g
  pub bounded : length g.nodes ≤ max
  pub capacity : 0 < max
  pub same_max : g.max_nodes ≡ max

length-put :
    (key : ProcessInstanceKey) (f : ProcessNode → ProcessNode) (nodes : List ProcessNode)
    → length (put_node key f nodes) ≡ length nodes
unfolding put_node
length-put key f [] = refl
length-put key f (n ∷ nodes) = ground (arith, length-put key f nodes)

observe_exit-IsSound :
    (key : ProcessInstanceKey) (e : ProcessExecEvent) (max : ℕ) (g : ProcessGraph)
    → IsSound max g
    → IsSound max (observe_exit key e g).0
unfolding observe_exit
observe_exit-IsSound key e max g s = elim (Bool-cases (is_some (find_node key g.nodes))) [
  | inl known ↦ rw known (
      let f : ProcessNode → ProcessNode =
        λ n. record n { exited_at_ns = some e.timestamp_ns; exit_code = e.exit_code } in
      let keys = keys-put key f (λ n. refl) g.nodes in
      record {
        indexed = record {
          order = s.indexed.order ∙ sym keys;
          active =
              rw s.indexed.active (sym (active-exit key f (λ n. refl) g.nodes s.indexed.distinct));
          distinct = rw keys s.indexed.distinct;
        };
        bounded = omega (arith, s.bounded, length-put key f g.nodes);
        capacity = s.capacity;
        same_max = s.same_max;
      })
  | inr unknown ↦ rw unknown s
]

refresh-IsSound :
    (key : ProcessInstanceKey) (e : ProcessExecEvent) (max : ℕ) (g : ProcessGraph)
    → IsSound max g
    → IsSound max (record g { nodes = put_node key (refresh e) g.nodes })
unfolding refresh
refresh-IsSound key e max g s =
    let keys = keys-put key (refresh e) (λ n. refl) g.nodes in
    record {
      indexed = record {
        order = s.indexed.order ∙ sym keys;
        active = s.indexed.active ∙ sym (active-put key (refresh e) (λ n. (refl, refl)) g.nodes);
        distinct = rw keys s.indexed.distinct;
      };
      bounded = omega (arith, s.bounded, length-put key (refresh e) g.nodes);
      capacity = s.capacity;
      same_max = s.same_max;
    }

-- Linking a node to its parent touches only the counters and the link.
pub record Linked (g h : ProcessGraph) (m n : ProcessNode) : Type 0 where
  pub same_nodes : h.nodes ≡ g.nodes
  pub same_active : h.active_by_pid ≡ g.active_by_pid
  pub same_order : h.insertion_order ≡ g.insertion_order
  pub same_max : h.max_nodes ≡ g.max_nodes
  pub same_key : n.key ≡ m.key
  pub same_exit : n.exited_at_ns ≡ m.exited_at_ns

pub link_parent-Linked :
    (g : ProcessGraph) (e : ProcessExecEvent) (n : ProcessNode)
    → Linked g (link_parent g e n).0 n (link_parent g e n).1
unfolding link_parent
link_parent-Linked g e n = ground arith

insert_node-IsSound :
    (max : ℕ) (g : ProcessGraph) (n : ProcessNode)
    → IsIndexed g
    → g.max_nodes ≡ max
    → length g.nodes < max
    → is_active n ≡ true
    → ¬ (In n.key (keys_of g.nodes))
    → IsSound max (insert_node g n)
unfolding insert_node index_active
insert_node-IsSound max g n i m room live fresh = record {
  indexed = record {
    order = rw i.order (sym (keys-append g.nodes n));
    active = rw i.active (sym (active-append g.nodes n live));
    distinct =
        rw (keys-append g.nodes n) (Distinct-append (keys_of g.nodes) n.key i.distinct fresh);
  };
  bounded = omega (arith, length-append g.nodes (n ∷ []), room);
  capacity = omega (arith, room);
  same_max = m;
}

IsIndexed-Linked :
    {g h : ProcessGraph} {m n : ProcessNode} → Linked g h m n → IsIndexed g → IsIndexed h
IsIndexed-Linked l i = record {
  order = l.same_order ∙ i.order ∙ ap keys_of (sym l.same_nodes);
  active = l.same_active ∙ i.active ∙ ap active_keys (sym l.same_nodes);
  distinct = rw l.same_nodes i.distinct;
}

pub evict-Evicted :
    (max : ℕ) (g : ProcessGraph) → IsSound max g → Evicted max g.nodes (evict_if_needed g)
unfolding evict_if_needed
evict-Evicted max g s =
    evict_from-Evicted g.insertion_order g.nodes max g refl s.indexed.order s.indexed.active
      s.indexed.distinct s.same_max s.capacity

observe_start-IsSound :
    (key : ProcessInstanceKey) (e : ProcessExecEvent) (max : ℕ) (g : ProcessGraph)
    → IsSound max g
    → IsSound max (observe_start key e g).0
unfolding observe_start new_node
observe_start-IsSound key e max g s = elim (Option-cases (find_node key g.nodes)) [
  | inr (n, known) ↦ rw known (refresh-IsSound key e max g s)
  | inl unknown ↦ rw unknown (
      let v = evict-Evicted max g s in
      let l = link_parent-Linked (evict_if_needed g) e (new_node key e) in
      insert_node-IsSound max _ _ (IsIndexed-Linked l v.indexed) (l.same_max ∙ v.same_max)
        (omega (arith, ap length l.same_nodes, v.room)) (ground (arith, l.same_exit))
        (λ m. find-none key g.nodes unknown (v.kept key (rw (l.same_key, l.same_nodes) at m))))
]

type-cases :
    (t : ProcessExecEventType) → (t ≡ ProcessExecEventType.start) ⊎ (t ≡ ProcessExecEventType.exit)
type-cases ProcessExecEventType.start = inl refl
type-cases ProcessExecEventType.exit = inr refl

-- By the outcome of the look-up of the event's key.
observe_by-IsSound :
    (e : ProcessExecEvent) (max : ℕ) (g : ProcessGraph) (r : KeyLookup)
    → resolve_key g e ≡ r
    → IsSound max g
    → IsSound max (observe e g).0
unfolding observe
observe_by-IsSound e max g (KeyLookup.found key) h s = elim (type-cases e.type) [
  | inl started ↦ rw (h, observe) (rw started (observe_start-IsSound key e max g s))
  | inr exited ↦ rw (h, observe) (rw exited (observe_exit-IsSound key e max g s))
]
observe_by-IsSound e max g KeyLookup.ambiguous_exit h s = rw (h, observe) (ground arith)
observe_by-IsSound e max g KeyLookup.unstable h s = rw (h, observe) (ground arith)

pub observe-IsSound :
    (e : ProcessExecEvent) (max : ℕ) (g : ProcessGraph)
    → IsSound max g
    → IsSound max (observe e g).0
observe-IsSound e max g s = observe_by-IsSound e max g (resolve_key g e) refl s

-- The graph after a series of events.
unfoldable pub observe_all : List ProcessExecEvent → ProcessGraph → ProcessGraph
observe_all [] g = g
observe_all (e ∷ events) g = observe_all events (observe e g).0

pub observe_all-IsSound :
    (events : List ProcessExecEvent) (max : ℕ) (g : ProcessGraph)
    → IsSound max g
    → IsSound max (observe_all events g)
unfolding observe_all
observe_all-IsSound [] max g s = s
observe_all-IsSound (e ∷ events) max g s =
    observe_all-IsSound events max (observe e g).0 (observe-IsSound e max g s)

pub new-IsSound : (max : ℕ) (g : ProcessGraph) → new max ≡ some g → IsSound max g
unfolding new
new-IsSound max g h = record {
  indexed = ground arith;
  bounded = ground arith;
  capacity = ground arith;
  same_max = ground arith;
}

length-active_keys :
    (nodes : List ProcessNode) → length (active_keys nodes) ≡ length (keep is_active nodes)
length-active_keys [] = refl
length-active_keys (n ∷ nodes) = ground (arith, length-active_keys nodes)

-- A graph made with a capacity holds, after any series of events, at most that many processes, no
-- process twice, its eviction queue lists them from the oldest to the newest, and its index by pid
-- lists exactly those that have not exited, as many as `active_count` says.
pub graph_sound :
    (max : ℕ) (g : ProcessGraph) (events : List ProcessExecEvent)
    → new max ≡ some g
    → let h = observe_all events g in
      (length h.nodes ≤ max)
      × Distinct (keys_of h.nodes)
      × (h.insertion_order ≡ keys_of h.nodes)
      × (h.active_by_pid ≡ active_keys h.nodes)
      × (length h.active_by_pid ≡ active_count h)
unfolding active_count
graph_sound max g events made =
    let h = observe_all events g in
    let s = observe_all-IsSound events max g (new-IsSound max g made) in
    (
      s.bounded,
      s.indexed.distinct,
      s.indexed.order,
      s.indexed.active,
      ap length s.indexed.active ∙ length-active_keys h.nodes,
    )
