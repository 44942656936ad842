-- ===== src/Resolution/Names.antt =====
-- The texts of the enumerations of src/core/name_resolution.cpp.
use neta_agent.Prelude.{◌≡◌, refl, Text, bytes, ◌==◌, text_eq, if◌then◌else◌}
use neta_agent.Resolution.{
  NameResolutionQueryKind, NameResolutionMechanism, NameResolutionRelation,
  NameResolutionCorrelationStatus,
}

unfoldable pub query_kind_to_string : NameResolutionQueryKind → Text
query_kind_to_string NameResolutionQueryKind.forward = bytes "FORWARD"
query_kind_to_string NameResolutionQueryKind.reverse = bytes "REVERSE"
query_kind_to_string NameResolutionQueryKind.unknown = bytes "UNKNOWN"

unfoldable pub mechanism_to_string : NameResolutionMechanism → Text
mechanism_to_string NameResolutionMechanism.application_resolver_api =
    bytes "APPLICATION_RESOLVER_API"
mechanism_to_string NameResolutionMechanism.system_resolver_event = bytes "SYSTEM_RESOLVER_EVENT"
mechanism_to_string NameResolutionMechanism.application_provided = bytes "APPLICATION_PROVIDED"
mechanism_to_string NameResolutionMechanism.unknown = bytes "UNKNOWN"

unfoldable pub relation_to_string : NameResolutionRelation → Text
relation_to_string NameResolutionRelation.resolved_address_for_outbound_connection =
    bytes "RESOLVED_ADDRESS_FOR_OUTBOUND_CONNECTION"
relation_to_string NameResolutionRelation.reverse_lookup_for_inbound_peer =
    bytes "REVERSE_LOOKUP_FOR_INBOUND_PEER"
relation_to_string NameResolutionRelation.unknown = bytes "UNKNOWN"

unfoldable pub correlation_status_to_string : NameResolutionCorrelationStatus → Text
correlation_status_to_string NameResolutionCorrelationStatus.no_match = bytes "NO_MATCH"
correlation_status_to_string NameResolutionCorrelationStatus.matched = bytes "MATCHED"
correlation_status_to_string NameResolutionCorrelationStatus.ambiguous = bytes "AMBIGUOUS"

unfoldable pub name_resolution_query_kind_from_string : Text → NameResolutionQueryKind
name_resolution_query_kind_from_string v =
    if v == bytes "FORWARD"
    then NameResolutionQueryKind.forward
    else if v == bytes "REVERSE"
    then NameResolutionQueryKind.reverse
    else NameResolutionQueryKind.unknown

unfoldable pub name_resolution_mechanism_from_string : Text → NameResolutionMechanism
name_resolution_mechanism_from_string v =
    if v == bytes "APPLICATION_RESOLVER_API"
    then NameResolutionMechanism.application_resolver_api
    else if v == bytes "SYSTEM_RESOLVER_EVENT"
    then NameResolutionMechanism.system_resolver_event
    else if v == bytes "APPLICATION_PROVIDED"
    then NameResolutionMechanism.application_provided
    else NameResolutionMechanism.unknown

unfoldable pub name_resolution_relation_from_string : Text → NameResolutionRelation
name_resolution_relation_from_string v =
    if v == bytes "RESOLVED_ADDRESS_FOR_OUTBOUND_CONNECTION"
    then NameResolutionRelation.resolved_address_for_outbound_connection
    else if v == bytes "REVERSE_LOOKUP_FOR_INBOUND_PEER"
    then NameResolutionRelation.reverse_lookup_for_inbound_peer
    else NameResolutionRelation.unknown

-- Query kinds, mechanisms and relations are read back as they were written.
resolution_names_roundtrip :
    ((k : NameResolutionQueryKind)
      → name_resolution_query_kind_from_string (query_kind_to_string k) ≡ k)
    × ((m : NameResolutionMechanism)
        → name_resolution_mechanism_from_string (mechanism_to_string m) ≡ m)
    × ((r : NameResolutionRelation)
        → name_resolution_relation_from_string (relation_to_string r) ≡ r)
unfolding query_kind_to_string mechanism_to_string relation_to_string
    name_resolution_query_kind_from_string name_resolution_mechanism_from_string
    name_resolution_relation_from_string
resolution_names_roundtrip = (
  elim [
    | NameResolutionQueryKind.unknown ↦ refl
    | NameResolutionQueryKind.forward ↦ refl
    | NameResolutionQueryKind.reverse ↦ refl
  ],
  elim [
    | NameResolutionMechanism.unknown ↦ refl
    | NameResolutionMechanism.application_resolver_api ↦ refl
    | NameResolutionMechanism.system_resolver_event ↦ refl
    | NameResolutionMechanism.application_provided ↦ refl
  ],
  elim [
    | NameResolutionRelation.unknown ↦ refl
    | NameResolutionRelation.resolved_address_for_outbound_connection ↦ refl
    | NameResolutionRelation.reverse_lookup_for_inbound_peer ↦ refl
  ],
)
