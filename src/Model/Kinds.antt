-- ===== src/Model/Kinds.antt =====
-- Enumerations of include/neta/model.hpp and the headers it includes, with equality of values.
use neta_agent.Prelude.{ℕ, ◌≡◌, ◌↔◌, Bool, true, arith, EqTest, nat_beq}

pub data ConnectionDirection : Type 0 where
  outbound inbound unknown : ConnectionDirection

abbrev pub direction_index : ConnectionDirection → ℕ
direction_index ConnectionDirection.outbound = 0
direction_index ConnectionDirection.inbound = 1
direction_index ConnectionDirection.unknown = 2

abbrev pub direction_beq : ConnectionDirection → ConnectionDirection → Bool
direction_beq a b = nat_beq (direction_index a) (direction_index b)

pub direction_beq_iff : (a b : ConnectionDirection) → (direction_beq a b ≡ true) ↔ (a ≡ b)
direction_beq_iff a b = ground arith

instance abbrev pub direction_eq : EqTest ConnectionDirection
direction_eq = record { test = direction_beq; test_iff = direction_beq_iff }

pub data TcpEndpointKind : Type 0 where
  unknown connection listener lifecycle_tail : TcpEndpointKind

abbrev pub endpoint_kind_index : TcpEndpointKind → ℕ
endpoint_kind_index TcpEndpointKind.unknown = 0
endpoint_kind_index TcpEndpointKind.connection = 1
endpoint_kind_index TcpEndpointKind.listener = 2
endpoint_kind_index TcpEndpointKind.lifecycle_tail = 3

abbrev pub endpoint_kind_beq : TcpEndpointKind → TcpEndpointKind → Bool
endpoint_kind_beq a b = nat_beq (endpoint_kind_index a) (endpoint_kind_index b)

pub endpoint_kind_beq_iff : (a b : TcpEndpointKind) → (endpoint_kind_beq a b ≡ true) ↔ (a ≡ b)
endpoint_kind_beq_iff a b = ground arith

instance abbrev pub endpoint_kind_eq : EqTest TcpEndpointKind
endpoint_kind_eq = record { test = endpoint_kind_beq; test_iff = endpoint_kind_beq_iff }

pub data RouteRelation : Type 0 where
  unknown outbound_selected_route inbound_response_route : RouteRelation

pub data EvidenceFidelity : Type 0 where
  exact strongly_correlated supporting contextual : EvidenceFidelity

abbrev pub fidelity_index : EvidenceFidelity → ℕ
fidelity_index EvidenceFidelity.exact = 0
fidelity_index EvidenceFidelity.strongly_correlated = 1
fidelity_index EvidenceFidelity.supporting = 2
fidelity_index EvidenceFidelity.contextual = 3

abbrev pub fidelity_beq : EvidenceFidelity → EvidenceFidelity → Bool
fidelity_beq a b = nat_beq (fidelity_index a) (fidelity_index b)

pub fidelity_beq_iff : (a b : EvidenceFidelity) → (fidelity_beq a b ≡ true) ↔ (a ≡ b)
fidelity_beq_iff a b = ground arith

instance abbrev pub fidelity_eq : EqTest EvidenceFidelity
fidelity_eq = record { test = fidelity_beq; test_iff = fidelity_beq_iff }

pub data PerformanceState : Type 0 where
  normal degraded failed insufficient_evidence : PerformanceState

pub data TrustState : Type 0 where
  stable changed suspicious unverified : TrustState
