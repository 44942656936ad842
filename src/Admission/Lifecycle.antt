-- ===== src/Admission/Lifecycle.antt =====
-- `evaluate` against a description of the connections that each observation mode asks for.
use neta_agent.Prelude.{◌≡◌, ◌≢◌, ◌⊎◌, ◌↔◌, Option, none, some, arith, In}
use neta_agent.Model.{
  ConnectionDirection, ConnectionLifecycleEventType, ConnectionLifecycleEvent, NetworkEndpoint,
  TcpEndpointKind,
}
use neta_agent.Admission.Filter.{PassesFilter, contains_iff, matches_filter_iff}
use neta_agent.Admission.Policy.{
  ObservationMode, AdmissionPolicyConfig, admitted, evaluate, evaluate_endpoints, with_endpoints,
}

-- The directions that a mode asks for, by the kind of event that shows them.
abbrev pub Wanted : ObservationMode → ConnectionLifecycleEventType → ConnectionDirection → Type 0
Wanted m ConnectionLifecycleEventType.connect d =
    (d ≡ ConnectionDirection.outbound) × (m ≢ ObservationMode.inbound)
Wanted m ConnectionLifecycleEventType.accept d =
    (d ≡ ConnectionDirection.inbound) × ((m ≡ ObservationMode.inbound) ⊎ (m ≡ ObservationMode.all))
Wanted m ConnectionLifecycleEventType.close d = ⊥

pub record AdmissibleAt (config : AdmissionPolicyConfig) (event : ConnectionLifecycleEvent)
    (local remote : NetworkEndpoint) (d : ConnectionDirection) : Type 0 where
  pub wanted : Wanted config.mode event.type d
  pub on_target_port : config.mode ≡ ObservationMode.target → remote.port ≡ some config.target_port
  pub on_target_address :
      config.mode ≡ ObservationMode.target → In remote.address config.target_addresses
  pub passes : PassesFilter config.filter local.port remote.port event.process.comm

-- The connection is established, both ends are known, and they are wanted.
abbrev pub Admissible :
    AdmissionPolicyConfig
    → ConnectionLifecycleEvent
    → Option NetworkEndpoint
    → Option NetworkEndpoint
    → ConnectionDirection
    → Type 0
Admissible config event none remote d = ⊥
Admissible config event (some local) none d = ⊥
Admissible config event (some local) (some remote) d =
    (event.endpoint_kind ≡ TcpEndpointKind.connection) × AdmissibleAt config event local remote d

module _ (config : AdmissionPolicyConfig) (event : ConnectionLifecycleEvent)
    (l r : NetworkEndpoint) where
  endpoints_sound :
      (d : ConnectionDirection)
      → evaluate_endpoints config event l r ≡ admitted d
      → AdmissibleAt config event l r d
  unfolding evaluate_endpoints
  endpoints_sound d h =
      let filter = matches_filter_iff config.filter l.port r.port event.process.comm in
      let address = contains_iff config.target_addresses r.address in
      record {
        wanted = ground arith;
        on_target_port = λ m. ground arith;
        on_target_address = λ m. ground (arith, address);
        passes = ground (arith, filter);
      }

  endpoints_complete :
      (d : ConnectionDirection)
      → AdmissibleAt config event l r d
      → evaluate_endpoints config event l r ≡ admitted d
  unfolding evaluate_endpoints
  endpoints_complete d h =
      let filter = matches_filter_iff config.filter l.port r.port event.process.comm in
      let address = contains_iff config.target_addresses r.address in
      ground (arith, filter, address, h.on_target_port, h.on_target_address, h.passes)

module _ (config : AdmissionPolicyConfig) (event : ConnectionLifecycleEvent)
    (d : ConnectionDirection) where
  Admissible-kind :
      (l r : Option NetworkEndpoint)
      → Admissible config event l r d
      → event.endpoint_kind ≡ TcpEndpointKind.connection
  Admissible-kind none r h = elim h [ ]
  Admissible-kind (some l) none h = elim h [ ]
  Admissible-kind (some l) (some r) h = h.0

  with_endpoints_iff :
      (l r : Option NetworkEndpoint)
      → event.endpoint_kind ≡ TcpEndpointKind.connection
      → (with_endpoints config event l r ≡ admitted d) ↔ Admissible config event l r d
  unfolding with_endpoints
  with_endpoints_iff none r k = (λ h. ground arith, λ h. elim h [ ])
  with_endpoints_iff (some l) none k = (λ h. ground arith, λ h. elim h [ ])
  with_endpoints_iff (some l) (some r) k = (
    λ h. (k, endpoints_sound config event l r d h),
    λ h. endpoints_complete config event l r d h.1,
  )

-- An event that is not a CLOSE is admitted with direction `d` exactly when its socket is an
-- established connection, both of its ends are known, `d` is the direction that the event shows
-- (CONNECT outbound, ACCEPT inbound) and the mode asks for it, the remote end is the target where
-- the mode is TARGET, and the connection passes the filter.
pub evaluate_iff :
    (config : AdmissionPolicyConfig) (event : ConnectionLifecycleEvent) (d : ConnectionDirection)
    → event.type ≢ ConnectionLifecycleEventType.close
    → (evaluate config event ≡ admitted d) ↔ Admissible config event event.local event.remote d
unfolding evaluate
evaluate_iff config event d opens = (
  λ h. (with_endpoints_iff config event d event.local event.remote (ground arith)).0 (ground arith),
  λ h.
      let kind = Admissible-kind config event d event.local event.remote h in
      let inside = (with_endpoints_iff config event d event.local event.remote kind).1 h in
      ground arith,
)
