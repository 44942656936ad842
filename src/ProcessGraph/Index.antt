-- ===== src/ProcessGraph/Index.antt =====
-- The containers of the process graph describe the same processes.
use neta_agent.Prelude.{
  ℕ, ◌<◌, ◌≡◌, refl, inl, inr, ap, ◌∙◌, true, false, none, List, [], ◌∷◌, ◌++◌, int_eq, arith,
  length, leb, Bool-cases, eq_refl, In, In-append, if◌then◌else◌,
}
use neta_agent.ProcessGraph.Types.{
  ProcessInstanceKey, ProcessNode, ProcessGraph, key_eq, key_beq_iff,
}
use neta_agent.ProcessGraph.Store.{
  find_node, put_node, remove_node, unindex_active, is_active, drop_oldest, evict_from,
}

abbrev pub keys_of : List ProcessNode → List ProcessInstanceKey
keys_of [] = []
keys_of (n ∷ nodes) = n.key ∷ keys_of nodes

abbrev pub active_keys : List ProcessNode → List ProcessInstanceKey
active_keys [] = []
active_keys (n ∷ nodes) = let rest = active_keys nodes in if is_active n then n.key ∷ rest else rest

abbrev pub Distinct : List ProcessInstanceKey → Type 0
Distinct [] = Unit
Distinct (k ∷ keys) = (¬ (In k keys)) × Distinct keys

-- The queue holds the keys of the nodes from the oldest to the newest, the index the keys of those
-- that have not exited, and no key occurs twice.
pub record IsIndexed (g : ProcessGraph) : Type 0 where
  pub order : g.insertion_order ≡ keys_of g.nodes
  pub active : g.active_by_pid ≡ active_keys g.nodes
  pub distinct : Distinct (keys_of g.nodes)

module _ (key : ProcessInstanceKey) where
  pub find-none :
      (nodes : List ProcessNode) → find_node key nodes ≡ none → ¬ (In key (keys_of nodes))
  unfolding find_node
  find-none [] e m = m
  find-none (n ∷ nodes) e m = ground (arith, key_beq_iff n.key key, find-none nodes)

  pub keys-put :
      (f : ProcessNode → ProcessNode)
      → ((n : ProcessNode) → (f n).key ≡ n.key)
      → (nodes : List ProcessNode) → keys_of (put_node key f nodes) ≡ keys_of nodes
  unfolding put_node
  keys-put f same [] = refl
  keys-put f same (n ∷ nodes) = ground (arith, same n, keys-put f same nodes)

  pub active-put :
      (f : ProcessNode → ProcessNode)
      → ((n : ProcessNode) → ((f n).key ≡ n.key) × ((f n).exited_at_ns ≡ n.exited_at_ns))
      → (nodes : List ProcessNode) → active_keys (put_node key f nodes) ≡ active_keys nodes
  unfolding put_node
  active-put f same [] = refl
  active-put f same (n ∷ nodes) = ground (arith, same n, active-put f same nodes)

  unindex-absent :
      (keys : List ProcessInstanceKey) → ¬ (In key keys) → unindex_active key keys ≡ keys
  unfolding unindex_active
  unindex-absent [] out = refl
  unindex-absent (k ∷ keys) out = ground (arith, key_beq_iff k key, unindex-absent keys)

  In-active : (nodes : List ProcessNode) → In key (active_keys nodes) → In key (keys_of nodes)
  In-active [] m = m
  In-active (n ∷ nodes) m = ground (arith, In-active nodes)

  pub active-exit :
      (f : ProcessNode → ProcessNode)
      → ((n : ProcessNode) → is_active (f n) ≡ false)
      → (nodes : List ProcessNode) → Distinct (keys_of nodes)
      → active_keys (put_node key f nodes) ≡ unindex_active key (active_keys nodes)
  unfolding put_node unindex_active
  active-exit f gone [] d = refl
  active-exit f gone (n ∷ nodes) d = ground (
    arith,
    key_beq_iff n.key key,
    gone n,
    active-exit f gone nodes,
    In-active nodes,
    unindex-absent (active_keys nodes),
  )

pub keys-append :
    (nodes : List ProcessNode) (n : ProcessNode)
    → keys_of (nodes ++ n ∷ []) ≡ keys_of nodes ++ n.key ∷ []
keys-append [] n = refl
keys-append (m ∷ nodes) n = ap (λ t. m.key ∷ t) (keys-append nodes n)

pub active-append :
    (nodes : List ProcessNode) (n : ProcessNode)
    → is_active n ≡ true
    → active_keys (nodes ++ n ∷ []) ≡ active_keys nodes ++ n.key ∷ []
active-append [] n a = rw a
active-append (m ∷ nodes) n a = ground (arith, active-append nodes n)

pub Distinct-append :
    (keys : List ProcessInstanceKey) (k : ProcessInstanceKey)
    → Distinct keys
    → ¬ (In k keys)
    → Distinct (keys ++ k ∷ [])
Distinct-append [] k d out = (λ m. m, tt)
Distinct-append (j ∷ keys) k d out =
    ground (arith, Distinct-append keys k, In-append j keys (k ∷ []))

abbrev dropped : ProcessInstanceKey → ProcessGraph → ProcessGraph
dropped k g = drop_oldest k (find_node k g.nodes) g

-- One round of the loop takes the oldest node away.
dropped-head :
    (n : ProcessNode) (nodes : List ProcessNode) (g : ProcessGraph)
    → g.nodes ≡ n ∷ nodes
    → g.active_by_pid ≡ active_keys (n ∷ nodes)
    → ((dropped n.key g).nodes ≡ nodes)
      × ((dropped n.key g).active_by_pid ≡ active_keys nodes)
      × ((dropped n.key g).max_nodes ≡ g.max_nodes)
unfolding drop_oldest find_node remove_node unindex_active
dropped-head n nodes g e a = rw e (rw a (rw (eq_refl n.key) (ground (arith, eq_refl n.key))))

pub record Evicted (max : ℕ) (before : List ProcessNode) (g : ProcessGraph) : Type 0 where
  pub indexed : IsIndexed g
  pub room : length g.nodes < max
  pub same_max : g.max_nodes ≡ max
  pub kept : (x : ProcessInstanceKey) → In x (keys_of g.nodes) → In x (keys_of before)

-- Eviction keeps the containers in step, and leaves room for one more node.
pub evict_from-Evicted :
    (order : List ProcessInstanceKey) (nodes : List ProcessNode) (max : ℕ) (g : ProcessGraph)
    → g.nodes ≡ nodes
    → order ≡ keys_of nodes
    → g.active_by_pid ≡ active_keys nodes
    → Distinct (keys_of nodes)
    → g.max_nodes ≡ max
    → 0 < max
    → Evicted max nodes (evict_from order g)
unfolding evict_from
evict_from-Evicted [] [] max g e o a d s m = record {
  indexed = record { order = rw e; active = rw e a; distinct = rw e tt };
  room = rw e m;
  same_max = s;
  kept = λ x m. rw e at m;
}
evict_from-Evicted [] (n ∷ nodes) max g e o a d s m = cc
evict_from-Evicted (k ∷ order) [] max g e o a d s m = cc
evict_from-Evicted (k ∷ order) (n ∷ nodes) max g e o a d s m =
    let front : n.key ≡ k = cc in
    let (e', a', s') = rw front at (dropped-head n nodes g e a) in
    let rest = evict_from-Evicted order nodes max (dropped k g) e' (cc) a' d.1 (s' ∙ s) m in
    elim (Bool-cases (leb g.max_nodes (length g.nodes))) [
      | inl full ↦ rw full (record {
        indexed = rest.indexed;
        room = rest.room;
        same_max = rest.same_max;
        kept = λ x m. inr (rest.kept x m);
      })
      | inr roomy ↦ rw roomy (record {
        indexed = record { order = o ∙ rw e; active = a ∙ rw e; distinct = rw e d };
        room = ground arith;
        same_max = s;
        kept = λ x m. rw e at m;
      })
    ]
