-- ===== src/ProcessGraph.antt =====
-- `ProcessGraph` of src/core/process_graph.cpp (up to `active_count`), with the records of
-- include/neta/process_graph.hpp and include/neta/process_exec.hpp.
mod Types
mod Store
mod Observe
pub mod Index
pub mod Capacity
pub mod Links
pub use Types.*
unfoldable pub use Store.{
  only, find_node, unique_active_key_for_pid, index_active, unindex_active, drop_oldest, evict_from,
  evict_if_needed, put_node, remove_node, matching, is_active, active_count, new,
}
pub use Observe.{KeyLookup}
unfoldable pub use Observe.{
  key_from, resolve_key, observe, observe_exit, observe_start, refresh, new_node, parent_key,
  resolve_parent, parent_start, child_start, link_parent, insert_node,
}
