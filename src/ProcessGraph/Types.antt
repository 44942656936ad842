-- ===== src/ProcessGraph/Types.antt =====
-- include/neta/process_graph.hpp and include/neta/process_exec.hpp.
use neta_agent.Prelude.{
  ℕ, ℤ, ◌≡◌, ◌↔◌, Bool, true, ◌&&◌, ◌||◌, not, Option, List, Text, EqTest, int_eq, nat_eq,
  option_eq, int_beq, option_beq, arith, is_nonpositive, is_some, int_beq_iff, option_beq_iff,
}

pub record ProcessInstanceKey : Type 0 where
  pub pid : ℤ
  pub start_time_ns : Option ℕ
  pub platform_key : Option ℕ

-- `operator==`
abbrev pub key_beq : ProcessInstanceKey → ProcessInstanceKey → Bool
key_beq a b =
    int_beq a.pid b.pid
    && (option_beq a.start_time_ns b.start_time_ns && option_beq a.platform_key b.platform_key)

pub key_beq_iff : (a b : ProcessInstanceKey) → (key_beq a b ≡ true) ↔ (a ≡ b)
key_beq_iff a b = ground (
  arith,
  int_beq_iff a.pid b.pid,
  option_beq_iff a.start_time_ns b.start_time_ns,
  option_beq_iff a.platform_key b.platform_key,
)

instance abbrev pub key_eq : EqTest ProcessInstanceKey
key_eq = record { test = key_beq; test_iff = key_beq_iff }

abbrev pub durable : ProcessInstanceKey → Bool
durable k = not (is_nonpositive k.pid) && (is_some k.platform_key || is_some k.start_time_ns)

pub record ProcessNode : Type 0 where
  pub key : ProcessInstanceKey
  pub parent : Option ProcessInstanceKey
  pub parent_pid : Option ℤ
  pub uid : Option ℕ
  pub gid : Option ℕ
  pub session_id : Option ℕ
  pub user_identity : Text
  pub integrity_level : Text
  pub elevated : Option Bool
  pub comm : Text
  pub executable_path : Text
  pub command_line : Text
  pub working_directory : Text
  pub started_at_ns : ℕ
  pub exited_at_ns : Option ℕ
  pub exit_code : Option ℤ

pub record ProcessGraphHealth : Type 0 where
  pub rejected_without_stable_identity : ℕ
  pub ambiguous_parent_links : ℕ
  pub rejected_invalid_parent_links : ℕ
  pub ambiguous_exit_events : ℕ
  pub evicted_nodes : ℕ

pub data ProcessExecEventType : Type 0 where
  start exit : ProcessExecEventType

pub record ProcessExecEvent : Type 0 where
  pub type : ProcessExecEventType
  pub timestamp_ns : ℕ
  pub pid : Option ℤ
  pub tgid : Option ℤ
  pub parent_pid : Option ℤ
  pub parent_tgid : Option ℤ
  pub uid : Option ℕ
  pub gid : Option ℕ
  pub process_start_time_ns : Option ℕ
  pub platform_process_key : Option ℕ
  pub parent_process_start_time_ns : Option ℕ
  pub parent_platform_process_key : Option ℕ
  pub session_id : Option ℕ
  pub user_identity : Text
  pub integrity_level : Text
  pub elevated : Option Bool
  pub exit_code : Option ℤ
  pub cgroup_id : Option ℕ
  pub comm : Text
  pub executable_path : Text
  pub command_line : Text
  pub working_directory : Text

-- The hash map `nodes_` is a list of its nodes, each under its own key, and the multimap
-- `active_by_pid_` a list of its keys, each under its own pid; both in order of insertion.
pub record ProcessGraph : Type 0 where
  pub max_nodes : ℕ
  pub nodes : List ProcessNode
  pub active_by_pid : List ProcessInstanceKey
  pub insertion_order : List ProcessInstanceKey
  pub health : ProcessGraphHealth
