-- ===== src/Admission/Direction.antt =====
-- What an admission decision guarantees about directions and the configured filter.
use neta_agent.Prelude.{false, ◌⊎◌, ◌≡◌, Option, Text, arith, nat_eq, option_eq}
use neta_agent.Model.{ConnectionDirection, SocketObservation}
use neta_agent.Admission.Policy.{
  ObservationMode, AdmissionPolicyConfig, evaluate_new_socket, evaluate_reconciliation_socket,
}

-- A snapshot never decides a direction: whatever the policy, a socket seen in a snapshot is
-- admitted, if at all, with the direction UNKNOWN; a new socket only in the mode TARGET, and a
-- reconciled one only in the modes TARGET and ALL.
pub snapshot_direction_unknown :
    (config : AdmissionPolicyConfig) (socket : SocketObservation) (name : Option Text)
    → ((evaluate_new_socket config socket name).direction ≡ ConnectionDirection.unknown)
      × ((evaluate_reconciliation_socket config socket name).direction
          ≡ ConnectionDirection.unknown)
      × (((evaluate_new_socket config socket name).admit ≡ false)
          ⊎ (config.mode ≡ ObservationMode.target))
      × (((evaluate_reconciliation_socket config socket name).admit ≡ false)
          ⊎ ((config.mode ≡ ObservationMode.target) ⊎ (config.mode ≡ ObservationMode.all)))
unfolding evaluate_new_socket evaluate_reconciliation_socket
snapshot_direction_unknown config socket name =
    (ground arith, ground arith, ground arith, ground arith)
