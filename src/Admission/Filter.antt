-- ===== src/Admission/Filter.antt =====
-- `matches_filter` against the meaning of each option of the command line.
use neta_agent.Prelude.{
  ◌⊎◌, ℕ, ◌≡◌, ◌↔◌, true, Option, none, some, List, [], ◌∷◌, Text, arith, text_beq_iff, In,
}
use neta_agent.Admission.{ConnectionFilter, matches_filter, contains}

pub contains_iff : (names : List Text) (name : Text) → (contains names name ≡ true) ↔ In name names
unfolding contains
contains_iff [] name = ground arith
contains_iff (n ∷ names) name = ground (arith, text_beq_iff n name, contains_iff names name)

-- A wanted port is met by that port alone; no wish is met by every port.
abbrev pub PortMatches : Option ℕ → Option ℕ → Type 0
PortMatches none port = Unit
PortMatches (some wanted) port = port ≡ some wanted

-- The process is named, and its name is in the list.
abbrev pub NamedIn : List Text → Option Text → Type 0
NamedIn names none = ⊥
NamedIn names (some name) = In name names

-- The process is named, and its name is not in the list.
abbrev pub NamedOutside : List Text → Option Text → Type 0
NamedOutside names none = ⊥
NamedOutside names (some name) = ¬ (In name names)

pub record PassesFilter (f : ConnectionFilter) (local remote : Option ℕ) (name : Option Text)
    : Type 0 where
  pub local_port : PortMatches f.local_port local
  pub remote_port : PortMatches f.remote_port remote
  pub included : (f.include_processes ≡ []) ⊎ NamedIn f.include_processes name
  pub not_excluded : (f.exclude_processes ≡ []) ⊎ NamedOutside f.exclude_processes name

-- A connection passes the filter exactly when it has the local and the remote port that are asked
-- for, its process is named and listed if a list of included processes is given, and its process is
-- named and not listed if a list of excluded processes is given. An unnamed process thus fails
-- both kinds of list.
pub matches_filter_iff :
    (f : ConnectionFilter) (local remote : Option ℕ) (name : Option Text)
    → (matches_filter f local remote name ≡ true) ↔ PassesFilter f local remote name
unfolding matches_filter
matches_filter_iff f local remote none =
    (λ h. ground arith, λ p. ground (arith, p.included, p.not_excluded))
matches_filter_iff f local remote (some name) =
    let inc = contains_iff f.include_processes name in
    let exc = contains_iff f.exclude_processes name in
    (λ h. ground (arith, inc, exc), λ p. ground (arith, inc, exc, p.included, p.not_excluded))
