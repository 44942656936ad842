-- ===== src/Findings/Names.antt =====
-- The comparison of names and paths, and severities, in src/core/process_graph.cpp.
use neta_agent.Prelude.{
  ℕ, ◌+◌, Bool, false, ◌&&◌, ◌||◌, Option, none, some, Text, bytes, List, [], ◌∷◌, text_eq, nat_eq,
  ◌==◌, if◌then◌else◌, leb, any, is_empty, map,
}
use neta_agent.Prelude.Search.{starts_with, contains}
use neta_agent.ProcessGraph.{ProcessNode}
use neta_agent.Findings.Types.{ProcessFindingConfig, ProcessFindingSeverity}

-- `std::tolower` in the C locale, and a backslash as a slash.
abbrev pub normalized_char : ℕ → ℕ
normalized_char ch =
    if ch == b'\\' then b'/' else if leb b'A' ch && leb ch b'Z' then ch + 32 else ch

unfoldable pub lower_normalized : Text → Text
lower_normalized [] = []
lower_normalized (ch ∷ value) = normalized_char ch ∷ lower_normalized value

-- What follows the last slash, or the whole text.
abbrev pub after_slash : Text → Text → Text
after_slash best [] = best
after_slash best (ch ∷ value) = after_slash (if ch == b'/' then value else best) value

unfoldable pub leaf_name : ProcessNode → Text
unfolding lower_normalized
leaf_name node =
    let value = lower_normalized (if is_empty node.comm then node.executable_path else node.comm) in
    after_slash value value

unfoldable pub normalized_values : List Text → List Text
unfolding lower_normalized
normalized_values values = map lower_normalized values

unfoldable pub contains_name : List Text → ProcessNode → Bool
unfolding leaf_name
contains_name names node = any (λ name. name == leaf_name node) names

unfoldable pub path_matches : Text → List Text → List Text → Bool
unfolding lower_normalized starts_with contains
path_matches raw prefixes substrings =
    let path = lower_normalized raw in
    if is_empty path
    then false
    else any (λ prefix. starts_with prefix path) prefixes
      || any (λ needle. contains path needle) substrings

unfoldable pub is_transient_path : Text → ProcessFindingConfig → Bool
unfolding path_matches
is_transient_path raw config =
    path_matches raw config.transient_path_prefixes config.transient_path_substrings

-- Another severity throws.
unfoldable pub severity_from_string : Text → Option ProcessFindingSeverity
unfolding lower_normalized
severity_from_string severity =
    let normalized = lower_normalized severity in
    if normalized == bytes "low"
    then some ProcessFindingSeverity.low
    else if normalized == bytes "medium"
    then some ProcessFindingSeverity.medium
    else if normalized == bytes "high"
    then some ProcessFindingSeverity.high
    else none
