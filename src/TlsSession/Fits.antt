-- ===== src/TlsSession/Fits.antt =====
-- The conditions under which a connection may have carried a session, and the tests for them.
use neta_agent.Prelude.{
  ℕ, ◌+◌, ◌≤◌, ◌<◌, ◌≡◌, ◌≢◌, ◌⊎◌, ◌↔◌, inl, inr, Bool, true, false, ◌&&◌, ◌||◌, not, bytes, ◌==◌,
  nat_eq, text_eq, text_beq_iff, int_eq, int_beq_iff, arith, is_negative, if◌then◌else◌,
}
use neta_agent.Model.{ConnectionDirection, direction_eq, ConnectionSummary}
use neta_agent.Verdict.{TlsSessionRole, TlsSessionObservation}
use neta_agent.Resolution.{both_differ}
use neta_agent.TlsSession.{
  CandidateKind, TlsSessionCorrelationPolicy, direction_for, same_process, same_namespace,
  same_tuple, within_connection_time,
}

-- The connection may have carried the session: its direction is that of the role, its process is
-- that of the observation, and their network namespaces do not differ where both are known.
pub record Fits (o : TlsSessionObservation) (c : ConnectionSummary) : Type 0 where
  pub role :
      ((o.local_role ≡ TlsSessionRole.client) × (c.direction ≡ ConnectionDirection.outbound))
      ⊎ ((o.local_role ≡ TlsSessionRole.server) × (c.direction ≡ ConnectionDirection.inbound))
  pub process : o.process.pid ≡ c.process.pid
  pub real : is_negative c.process.pid ≡ false
  pub start : both_differ o.process.start_ticks c.process.start_ticks ≡ false
  pub namespace : both_differ o.network_namespace_inode c.network_namespace_inode ≡ false

-- The session was observed while the connection lived.
pub record Alive (o : TlsSessionObservation) (c : ConnectionSummary) : Type 0 where
  pub observed : 0 < o.observed_ns
  pub seen : 0 < c.first_seen_ns
  pub later : c.first_seen_ns ≤ o.observed_ns
  pub before_close :
      (c.lifecycle_state ≢ bytes "CLOSED")
      ⊎ ((c.last_seen_ns ≡ 0) ⊎ (o.observed_ns ≤ c.last_seen_ns))

pub record SameEnds (o : TlsSessionObservation) (c : ConnectionSummary) : Type 0 where
  pub local_address : o.local.address ≡ c.local_ip
  pub local_port : o.local.port ≡ c.local_port
  pub remote_address : o.remote.address ≡ c.remote_ip
  pub remote_port : o.remote.port ≡ c.remote_port

-- Soon after the connection was first seen.
abbrev pub Recent : TlsSessionObservation → ConnectionSummary → TlsSessionCorrelationPolicy → Type 0
Recent o c policy = o.observed_ns ≤ c.first_seen_ns + policy.tuple_max_age_ns

pub alive :
    (o : TlsSessionObservation) (c : ConnectionSummary) (policy : TlsSessionCorrelationPolicy)
    → (by_cookie : Bool)
    → (within_connection_time o c policy by_cookie ≡ true)
      ↔ (Alive o c × ((by_cookie ≡ true) ⊎ Recent o c policy))
unfolding within_connection_time
alive o c policy by_cookie =
    let closed = text_beq_iff c.lifecycle_state (bytes "CLOSED") in
    (
      λ h. (
        record {
          observed = ground (arith, h);
          seen = ground (arith, h);
          later = ground (arith, h);
          before_close = ground (arith, h, closed);
        },
        ground (arith, h),
      ),
      λ (a, recent). ground (arith, a.observed, a.seen, a.later, a.before_close, closed, recent),
    )

pub ends :
    (o : TlsSessionObservation) (c : ConnectionSummary) → (same_tuple o c ≡ true) ↔ SameEnds o c
unfolding same_tuple
ends o c =
    let here = text_beq_iff o.local.address c.local_ip in
    let there = text_beq_iff o.remote.address c.remote_ip in
    (
      λ h. record {
        local_address = ground (arith, h, here);
        local_port = ground (arith, h);
        remote_address = ground (arith, h, there);
        remote_port = ground (arith, h);
      },
      λ e.
          ground
            (arith, e.local_address, e.local_port, e.remote_address, e.remote_port, here, there),
    )

abbrev pub wrong_direction : TlsSessionObservation → ConnectionSummary → Bool
wrong_direction o c =
    let direction = direction_for o.local_role in
    direction == ConnectionDirection.unknown || not (c.direction == direction)

abbrev pub wrong_place : TlsSessionObservation → ConnectionSummary → Bool
wrong_place o c = not (same_process o c) || not (same_namespace o c)

abbrev pub fits : TlsSessionObservation → ConnectionSummary → Bool
fits o c = not (wrong_direction o c) && not (wrong_place o c)

-- The branches, over the values of the tests.
abbrev pub kind_by : Bool → Bool → Bool → Bool → Bool → Bool → Bool → Bool → CandidateKind
kind_by direction place valid linked cookie tuple lived recent =
    if direction
    then CandidateKind.nothing
    else if place
    then CandidateKind.nothing
    else if valid
    then if linked
      then if not cookie
        then CandidateKind.nothing
        else if lived
        then CandidateKind.exact
        else CandidateKind.nothing
      else if not tuple
      then CandidateKind.nothing
      else if recent
      then CandidateKind.awaiting
      else CandidateKind.nothing
    else if not tuple
    then CandidateKind.nothing
    else if recent
    then CandidateKind.tuple
    else CandidateKind.nothing

pub by_exact :
    (d p v l k s w r : Bool)
    → kind_by d p v l k s w r ≡ CandidateKind.exact
    → ((not d && not p) ≡ true) × (v ≡ true) × (k ≡ true) × (w ≡ true)
by_exact d p v l k s w r h = ground (arith, h)

pub by_awaiting :
    (d p v l k s w r : Bool)
    → kind_by d p v l k s w r ≡ CandidateKind.awaiting
    → ((not d && not p) ≡ true) × (v ≡ true) × (l ≡ false) × (s ≡ true) × (r ≡ true)
by_awaiting d p v l k s w r h = ground (arith, h)

pub by_tuple :
    (d p v l k s w r : Bool)
    → kind_by d p v l k s w r ≡ CandidateKind.tuple
    → ((not d && not p) ≡ true) × (v ≡ false) × (s ≡ true) × (r ≡ true)
by_tuple d p v l k s w r h = ground (arith, h)

pub second : {A : Type 0} → (false ≡ true) ⊎ A → A
second (inl bad) = cc
second (inr a) = a

pub is_zero : (n : ℕ) → not (n == 0) ≡ false → n ≡ 0
is_zero n h = ground arith

pub fits_iff : (o : TlsSessionObservation) (c : ConnectionSummary) → (fits o c ≡ true) ↔ Fits o c
unfolding direction_for same_process same_namespace
fits_iff o c =
    let pid = int_beq_iff o.process.pid c.process.pid in
    (
      λ h. record {
        role = ground (arith, h);
        process = pid.0 (ground (arith, h));
        real = ground (arith, h);
        start = ground (arith, h);
        namespace = ground (arith, h);
      },
      λ f.
          let own : is_negative o.process.pid ≡ false = rw f.process f.real in
          ground (arith, f.role, pid.1 f.process, own, f.real, f.start, f.namespace),
    )
