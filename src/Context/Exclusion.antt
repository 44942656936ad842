-- ===== src/Context/Exclusion.antt =====
-- `excludes_connection` of include/neta/rules/rule_exclusion.hpp.
use neta_agent.Prelude.{
  Bool, false, ◌&&◌, ◌||◌, not, Option, none, some, Text, bytes, List, [], ◌∷◌, text_eq, nat_eq,
  ◌==◌, if◌then◌else◌, any, is_empty,
}
use neta_agent.Prelude.Decimal.{to_string}
use neta_agent.Prelude.Search.{starts_with}
use neta_agent.Model.{ConnectionDirection, ConnectionSummary, ProcessIdentity}
use neta_agent.Findings.Types.{RuleExclusion}
use neta_agent.Findings.Names.{lower_normalized, after_slash}

abbrev pub empty_exclusion : RuleExclusion → Bool
empty_exclusion x =
    is_empty x.process_names
    && is_empty x.executable_paths
    && is_empty x.process_path_prefixes
    && is_empty x.parent_process_names
    && is_empty x.users
    && is_empty x.remote_hosts
    && is_empty x.remote_ips
    && is_empty x.remote_ports
    && is_empty x.local_ports
    && is_empty x.domains
    && is_empty x.directions

-- `exclusion_normalized` is the same function as `lower_normalized`.
unfoldable pub exclusion_contains : List Text → Text → Bool
unfolding lower_normalized
exclusion_contains values candidate =
    not (is_empty candidate)
    && any (λ value. lower_normalized value == lower_normalized candidate) values

unfoldable pub exclusion_prefix : List Text → Text → Bool
unfolding lower_normalized starts_with
exclusion_prefix values candidate =
    not (is_empty candidate)
    && any
        (λ value.
          not (is_empty (lower_normalized value))
          && starts_with (lower_normalized value) (lower_normalized candidate))
        values

abbrev has_slash : Text → Bool
has_slash [] = false
has_slash (ch ∷ value) = (ch == b'/') || has_slash value

unfoldable pub process_basename : ProcessIdentity → Text
unfolding lower_normalized
process_basename process =
    let normalized = lower_normalized process.executable_path in
    if has_slash normalized
    then after_slash normalized normalized
    else if is_empty process.comm
    then normalized
    else process.comm

abbrev direction_text : ConnectionDirection → Text
direction_text ConnectionDirection.outbound = bytes "outbound"
direction_text ConnectionDirection.inbound = bytes "inbound"
direction_text ConnectionDirection.unknown = bytes "unknown"

abbrev excludes_parent : List Text → Option Text → Bool
excludes_parent names none = false
excludes_parent names (some name) = exclusion_contains names name

unfoldable pub excludes_connection :
    RuleExclusion → ConnectionSummary → List Text → Option Text → Bool
unfolding exclusion_contains exclusion_prefix process_basename
excludes_connection x connection domains parent =
    not (empty_exclusion x)
    && (exclusion_contains x.process_names connection.process.comm
        || exclusion_contains x.process_names (process_basename connection.process)
        || exclusion_contains x.executable_paths connection.process.executable_path
        || exclusion_prefix x.process_path_prefixes connection.process.executable_path
        || exclusion_contains x.users (to_string connection.process.uid)
        || excludes_parent x.parent_process_names parent
        || exclusion_contains x.remote_hosts connection.target_host
        || exclusion_contains x.remote_ips connection.remote_ip
        || exclusion_contains x.remote_ports (to_string connection.remote_port)
        || exclusion_contains x.local_ports (to_string connection.local_port)
        || any (exclusion_contains x.domains) domains
        || exclusion_contains x.directions (direction_text connection.direction))
