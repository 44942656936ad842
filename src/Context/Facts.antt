-- ===== src/Context/Facts.antt =====
-- What the rules on connections read of the evidence, in src/core/context_rule_engine.cpp.
use neta_agent.Prelude.{
  ℕ, pos, int_eq, Bool, true, false, ◌&&◌, ◌||◌, not, Option, none, some, Text, bytes, List, [],
  ◌∷◌, ◌++◌, text_eq, ◌==◌, if◌then◌else◌, any, is_empty, length, keep, find, drop, ◌>>=◌,
}
use neta_agent.Prelude.Decimal.{to_string}
use neta_agent.Prelude.Search.{starts_with}
use neta_agent.Model.{
  EvidenceFidelity, fidelity_eq, ConnectionSummary, AggregateMetrics, Baseline, RouteRelation,
}
use neta_agent.Resolution.{NameResolutionEvidence, NameResolutionQueryKind, NameResolutionAddress}
use neta_agent.Verdict.{TlsSessionEvidence, TlsSessionRelation}
use neta_agent.Findings.Types.{RuleDefinition, string_list}

pub record RouteObservation : Type 0 where
  pub destination : Text
  pub source : Text
  pub gateway : Text
  pub interface_name : Text
  pub interface_index : ℕ
  pub table : Option ℕ
  pub metric : Option ℕ
  pub observed_ns : ℕ
  pub sha256 : Text
  pub relation : RouteRelation

pub record ConnectionRuleContext : Type 0 where
  pub connection : ConnectionSummary
  pub metrics : AggregateMetrics
  pub baseline : Option Baseline
  pub name_resolution : List NameResolutionEvidence
  pub tls_sessions : List TlsSessionEvidence
  pub route : Option RouteObservation
  pub bytes_sent : Option ℕ
  pub bytes_received : Option ℕ
  pub destination_prevalence : Option ℕ

abbrev named_text : Option Text → List Text
named_text none = []
named_text (some name) = if is_empty name then [] else name ∷ []

unfoldable pub correlated_domains : List NameResolutionEvidence → List Text
correlated_domains [] = []
correlated_domains (item ∷ evidence) =
    named_text (some item.observation.query_name)
    ++ named_text item.observation.canonical_name
    ++ correlated_domains evidence

-- A missing list throws.
unfoldable pub port_allowed : RuleDefinition → ℕ → Option Bool
port_allowed rule port = string_list rule (bytes "allowed_ports") >>= λ allowed.
    some (any (λ text. text == to_string port) allowed)

abbrev is_outbound_identity : TlsSessionRelation → Bool
is_outbound_identity TlsSessionRelation.outbound_server_identity = true
is_outbound_identity TlsSessionRelation.outbound_tls_session = true
is_outbound_identity _ = false

unfoldable pub exact_outbound_tls : List TlsSessionEvidence → Option TlsSessionEvidence
exact_outbound_tls evidence =
    find
      (λ item.
        (item.correlation_fidelity == EvidenceFidelity.exact) && is_outbound_identity item.relation)
      evidence

abbrev has_failed : NameResolutionEvidence → Bool
has_failed item = elim item.observation.result_code [
  | none ↦ false
  | some code ↦ not (code == pos 0)
]

unfoldable pub failed_dns_count : List NameResolutionEvidence → ℕ
failed_dns_count evidence = length (keep has_failed evidence)

abbrev is_forward : NameResolutionQueryKind → Bool
is_forward NameResolutionQueryKind.forward = true
is_forward _ = false

abbrev is_strong : EvidenceFidelity → Bool
is_strong fidelity =
    (fidelity == EvidenceFidelity.exact) || (fidelity == EvidenceFidelity.strongly_correlated)

abbrev mapped_address : Text → Text → Bool
mapped_address remote address =
    (address == remote) || (starts_with (bytes "::ffff:") remote && (address == drop 7 remote))

abbrev pub addresses_of : List NameResolutionAddress → List Text
addresses_of [] = []
addresses_of (a ∷ addresses) = a.address ∷ addresses_of addresses

-- The answers that count, in order.
abbrev pub strong_answers : List NameResolutionEvidence → List Text
strong_answers [] = []
strong_answers (item ∷ evidence) =
    let rest = strong_answers evidence in
    if is_forward item.observation.query_kind && is_strong item.correlation_fidelity
    then addresses_of item.observation.addresses ++ rest
    else rest

unfoldable pub dns_contains_remote : ConnectionRuleContext → Bool
dns_contains_remote context =
    let remote = context.connection.remote_ip in
    let answers = strong_answers context.name_resolution in
    not (is_empty remote) && (is_empty answers || any (mapped_address remote) answers)

abbrev forward_answers : List NameResolutionEvidence → List Text
forward_answers [] = []
forward_answers (item ∷ evidence) =
    let rest = forward_answers evidence in
    if is_forward item.observation.query_kind
    then addresses_of item.observation.addresses ++ rest
    else rest

-- The size of a `std::set`.
abbrev without_repeats : List Text → List Text
without_repeats [] = []
without_repeats (a ∷ answers) =
    let rest = without_repeats answers in if any (λ b. b == a) rest then rest else a ∷ rest

unfoldable pub distinct_dns_answers : List NameResolutionEvidence → ℕ
distinct_dns_answers evidence = length (without_repeats (forward_answers evidence))
