-- ===== src/Model/Names.antt =====
-- The texts of the enumerations and the readers of these texts: src/core/connection_direction.cpp,
-- route_semantics.cpp, model.cpp, tcp_state.cpp.
use neta_agent.Prelude.{
  ◌⊎◌, ◌≡◌, refl, arith, Text, bytes, ◌==◌, text_eq, text_beq_iff, if◌then◌else◌,
}
use neta_agent.Model.Kinds.{
  ConnectionDirection, TcpEndpointKind, RouteRelation, EvidenceFidelity, PerformanceState,
  TrustState,
}

unfoldable pub connection_direction_to_string : ConnectionDirection → Text
connection_direction_to_string ConnectionDirection.outbound = bytes "OUTBOUND"
connection_direction_to_string ConnectionDirection.inbound = bytes "INBOUND"
connection_direction_to_string ConnectionDirection.unknown = bytes "UNKNOWN"

unfoldable pub connection_direction_from_string : Text → ConnectionDirection
connection_direction_from_string v =
    if v == bytes "OUTBOUND"
    then ConnectionDirection.outbound
    else if v == bytes "INBOUND"
    then ConnectionDirection.inbound
    else ConnectionDirection.unknown

unfoldable pub route_relation_to_string : RouteRelation → Text
route_relation_to_string RouteRelation.outbound_selected_route = bytes "OUTBOUND_SELECTED_ROUTE"
route_relation_to_string RouteRelation.inbound_response_route = bytes "INBOUND_RESPONSE_ROUTE"
route_relation_to_string RouteRelation.unknown = bytes "UNKNOWN"

unfoldable pub route_relation_from_string : Text → RouteRelation
route_relation_from_string v =
    if v == bytes "OUTBOUND_SELECTED_ROUTE"
    then RouteRelation.outbound_selected_route
    else if v == bytes "INBOUND_RESPONSE_ROUTE"
    then RouteRelation.inbound_response_route
    else RouteRelation.unknown

unfoldable pub tcp_endpoint_kind_to_string : TcpEndpointKind → Text
tcp_endpoint_kind_to_string TcpEndpointKind.connection = bytes "CONNECTION"
tcp_endpoint_kind_to_string TcpEndpointKind.listener = bytes "LISTENER"
tcp_endpoint_kind_to_string TcpEndpointKind.lifecycle_tail = bytes "LIFECYCLE_TAIL"
tcp_endpoint_kind_to_string TcpEndpointKind.unknown = bytes "UNKNOWN"

unfoldable pub fidelity_to_string : EvidenceFidelity → Text
fidelity_to_string EvidenceFidelity.exact = bytes "EXACT"
fidelity_to_string EvidenceFidelity.strongly_correlated = bytes "STRONGLY_CORRELATED"
fidelity_to_string EvidenceFidelity.supporting = bytes "SUPPORTING"
fidelity_to_string EvidenceFidelity.contextual = bytes "CONTEXTUAL"

unfoldable pub performance_state_to_string : PerformanceState → Text
performance_state_to_string PerformanceState.normal = bytes "NORMAL"
performance_state_to_string PerformanceState.degraded = bytes "DEGRADED"
performance_state_to_string PerformanceState.failed = bytes "FAILED"
performance_state_to_string PerformanceState.insufficient_evidence = bytes "INSUFFICIENT_EVIDENCE"

unfoldable pub performance_state_from_string : Text → PerformanceState
performance_state_from_string v =
    if v == bytes "NORMAL"
    then PerformanceState.normal
    else if v == bytes "DEGRADED"
    then PerformanceState.degraded
    else if v == bytes "FAILED"
    then PerformanceState.failed
    else PerformanceState.insufficient_evidence

unfoldable pub trust_state_to_string : TrustState → Text
trust_state_to_string TrustState.stable = bytes "STABLE"
trust_state_to_string TrustState.changed = bytes "CHANGED"
trust_state_to_string TrustState.suspicious = bytes "SUSPICIOUS"
trust_state_to_string TrustState.unverified = bytes "UNVERIFIED"

unfoldable pub trust_state_from_string : Text → TrustState
trust_state_from_string v =
    if v == bytes "STABLE"
    then TrustState.stable
    else if v == bytes "CHANGED"
    then TrustState.changed
    else if v == bytes "SUSPICIOUS"
    then TrustState.suspicious
    else TrustState.unverified

-- Every stored enumeration is read back as it was written: directions, route relations, performance
-- states and trust states.
names_roundtrip :
    ((d : ConnectionDirection)
      → connection_direction_from_string (connection_direction_to_string d) ≡ d)
    × ((r : RouteRelation) → route_relation_from_string (route_relation_to_string r) ≡ r)
    × ((p : PerformanceState) → performance_state_from_string (performance_state_to_string p) ≡ p)
    × ((t : TrustState) → trust_state_from_string (trust_state_to_string t) ≡ t)
unfolding connection_direction_from_string connection_direction_to_string route_relation_from_string
    route_relation_to_string performance_state_from_string performance_state_to_string
    trust_state_from_string trust_state_to_string
names_roundtrip = (
  elim [
    | ConnectionDirection.outbound ↦ refl
    | ConnectionDirection.inbound ↦ refl
    | ConnectionDirection.unknown ↦ refl
  ],
  elim [
    | RouteRelation.unknown ↦ refl
    | RouteRelation.outbound_selected_route ↦ refl
    | RouteRelation.inbound_response_route ↦ refl
  ],
  elim [
    | PerformanceState.normal ↦ refl
    | PerformanceState.degraded ↦ refl
    | PerformanceState.failed ↦ refl
    | PerformanceState.insufficient_evidence ↦ refl
  ],
  elim [
    | TrustState.stable ↦ refl
    | TrustState.changed ↦ refl
    | TrustState.suspicious ↦ refl
    | TrustState.unverified ↦ refl
  ],
)

-- A stored text is read as a direction, a performance state or a trust state other than the
-- default (UNKNOWN, INSUFFICIENT_EVIDENCE, UNVERIFIED) only if it is the text of that value.
names_sound :
    (v : Text)
    → ((connection_direction_from_string v ≡ ConnectionDirection.unknown)
        ⊎ (v ≡ connection_direction_to_string (connection_direction_from_string v)))
      × ((performance_state_from_string v ≡ PerformanceState.insufficient_evidence)
          ⊎ (v ≡ performance_state_to_string (performance_state_from_string v)))
      × ((trust_state_from_string v ≡ TrustState.unverified)
          ⊎ (v ≡ trust_state_to_string (trust_state_from_string v)))
unfolding connection_direction_from_string connection_direction_to_string
    performance_state_from_string performance_state_to_string trust_state_from_string
    trust_state_to_string
names_sound v = (
  ground (arith, text_beq_iff v (bytes "OUTBOUND"), text_beq_iff v (bytes "INBOUND")),
  ground (
    arith,
    text_beq_iff v (bytes "NORMAL"),
    text_beq_iff v (bytes "DEGRADED"),
    text_beq_iff v (bytes "FAILED"),
  ),
  ground (
    arith,
    text_beq_iff v (bytes "STABLE"),
    text_beq_iff v (bytes "CHANGED"),
    text_beq_iff v (bytes "SUSPICIOUS"),
  ),
)
