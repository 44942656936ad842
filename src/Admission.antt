-- ===== src/Admission.antt =====
-- Which connections the agent tracks: src/core/connection_filter.cpp,
-- src/core/connection_admission_policy.cpp and their headers. A `std::set` is a list, tested for
-- membership only.
pub mod Policy
pub mod Filter
pub mod Lifecycle
pub mod Direction
use neta_agent.Prelude.{
  ℕ, Bool, true, false, ◌&&◌, ◌||◌, not, Option, none, some, List, [], ◌∷◌, Text, ◌==◌, text_eq,
  nat_eq, option_eq, any, is_empty, if◌then◌else◌,
}

pub record ConnectionFilter : Type 0 where
  pub local_port : Option ℕ
  pub remote_port : Option ℕ
  pub include_processes : List Text
  pub exclude_processes : List Text

unfoldable pub contains : List Text → Text → Bool
contains names name = any (λ n. n == name) names

-- `filter.port && port != filter.port`
unfoldable pub port_differs : Option ℕ → Option ℕ → Bool
port_differs none port = false
port_differs (some wanted) port = not (port == some wanted)

-- `!process_name || !names.contains(*process_name)`
unfoldable pub absent : List Text → Option Text → Bool
unfolding contains
absent names none = true
absent names (some name) = not (contains names name)

unfoldable pub is_unnamed : Option Text → Bool
is_unnamed none = true
is_unnamed (some name) = false

unfoldable pub matches_filter : ConnectionFilter → Option ℕ → Option ℕ → Option Text → Bool
unfolding port_differs absent is_unnamed
matches_filter filter local_port remote_port process_name =
    if port_differs filter.local_port local_port
    then false
    else if port_differs filter.remote_port remote_port
    then false
    else if not (is_empty filter.include_processes) && absent filter.include_processes process_name
    then false
    else if not (is_empty filter.exclude_processes) && is_unnamed process_name
    then false
    else absent filter.exclude_processes process_name
