-- ===== src/Scheduler.antt =====
-- `EvidenceScheduler` of src/core/evidence_scheduler.cpp: when transport samples and route
-- observations are taken. Times are nanoseconds of the steady clock, whose minimum is 0; an
-- unordered set of connection ids is a list without repetition, in order of insertion.
pub mod Timing
pub mod Routes
use neta_agent.Prelude.{
  ℕ, ◌+◌, ◌-◌, ◌*◌, ◌/◌, Bool, true, false, ◌&&◌, ◌||◌, not, List, [], ◌∷◌, ℤ, ◌==◌, int_eq, leb,
  if◌then◌else◌, any, keep, is_empty, length,
}

abbrev pub ns_per_ms : ℕ
ns_per_ms = 1000000

pub record EvidenceScheduler : Type 0 where
  pub transport_interval : ℕ  -- milliseconds
  pub early_transport_followup : ℕ  -- milliseconds
  pub next_transport_sample : ℕ
  pub immediate_transport : Bool
  pub early_transport_followup_pending : Bool
  pub routes_ready : Bool
  pub active : List ℤ
  pub pending_routes : List ℤ

unfoldable pub new : ℕ → ℕ → EvidenceScheduler
new transport_interval early_transport_followup = record {
  transport_interval = transport_interval;
  early_transport_followup = early_transport_followup;
  next_transport_sample = 0;
  immediate_transport = false;
  early_transport_followup_pending = false;
  routes_ready = false;
  active = [];
  pending_routes = [];
}

abbrev pub member : ℤ → List ℤ → Bool
member id ids = any (λ i. i == id) ids

-- `unordered_set::insert` and `erase`.
unfoldable pub insert : ℤ → List ℤ → List ℤ
insert id ids = if member id ids then ids else id ∷ ids

unfoldable pub erase : ℤ → List ℤ → List ℤ
erase id ids = keep (λ i. not (i == id)) ids

unfoldable pub connection_admitted : EvidenceScheduler → ℤ → EvidenceScheduler
connection_admitted s id = record s {
  active = insert id s.active;
  pending_routes = insert id s.pending_routes;
  immediate_transport = true;
  early_transport_followup_pending = true;
}

unfoldable pub connection_closed : EvidenceScheduler → ℤ → EvidenceScheduler
connection_closed s id =
    let t = record s { active = erase id s.active; pending_routes = erase id s.pending_routes } in
    if is_empty (erase id s.active)
    then record t { immediate_transport = false; early_transport_followup_pending = false }
    else t

unfoldable pub transport_due : EvidenceScheduler → ℕ → Bool → Bool
transport_due s now polling_discovery_required =
    polling_discovery_required
    || (not (is_empty s.active) && (s.immediate_transport || leb s.next_transport_sample now))

-- Milliseconds, rounded down.
unfoldable pub wait_time : EvidenceScheduler → ℕ → ℕ
wait_time s now =
    if is_empty s.active
    then s.transport_interval
    else if s.immediate_transport || leb s.next_transport_sample now
    then 0
    else (s.next_transport_sample - now) / ns_per_ms

unfoldable pub transport_sampled : EvidenceScheduler → ℕ → EvidenceScheduler
transport_sampled s now =
    let t =
      if s.immediate_transport
      then record s {
        immediate_transport = false;
        next_transport_sample = now + s.early_transport_followup * ns_per_ms;
      }
      else if s.early_transport_followup_pending
      then record s {
        early_transport_followup_pending = false;
        next_transport_sample = now + s.transport_interval * ns_per_ms;
      }
      else record s { next_transport_sample = now + s.transport_interval * ns_per_ms } in
    record t { routes_ready = not (is_empty s.pending_routes) }

unfoldable pub take_route_observations_due : EvidenceScheduler → List ℤ × EvidenceScheduler
take_route_observations_due s =
    if not s.routes_ready
    then ([], s)
    else (s.pending_routes, record s { pending_routes = []; routes_ready = false })

unfoldable pub active_connections : EvidenceScheduler → ℕ
active_connections s = length s.active
