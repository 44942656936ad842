-- ===== src/Scheduler/Routes.antt =====
-- Route observations are asked for once for each admitted connection that is still open.
use neta_agent.Prelude.{
  ℕ, ◌≡◌, ◌≢◌, ◌↔◌, true, false, [], ℤ, arith, int_beq_iff, int_eq, In, not, ◌==◌, In-keep,
  In-keep_of, is_empty, ◌++◌, In-append, List, ◌∷◌, ◌⊎◌, refl, Bool-cases, inl, inr,
}
use neta_agent.Scheduler.{
  EvidenceScheduler, new, member, connection_admitted, connection_closed, transport_sampled,
  take_route_observations_due, insert, erase,
}

pub In-member : (id : ℤ) (ids : List ℤ) → (member id ids ≡ true) ↔ In id ids
In-member id [] = ground arith
In-member id (i ∷ ids) = ground (arith, int_beq_iff i id, In-member id ids)

pub In-insert : (id x : ℤ) (ids : List ℤ) → In x (insert id ids) ↔ ((id ≡ x) ⊎ In x ids)
unfolding insert
In-insert id x ids = elim (Bool-cases (member id ids)) [
  | inl m ↦ rw m (ground (arith, In-member id ids))
  | inr n ↦ rw n (ground arith)
]

pub In-erase : (id x : ℤ) (ids : List ℤ) → In x (erase id ids) ↔ ((x ≢ id) × In x ids)
unfolding erase
In-erase id x ids = (
  λ h. let (m, t) = In-keep (λ i. not (i == id)) x ids h in (ground (arith, int_beq_iff x id), m),
  λ h. In-keep_of (λ i. not (i == id)) x ids h.1 (ground (arith, int_beq_iff x id)),
)

-- The operations of the observation session on its scheduler.
pub data Op : Type 0 where
  admit close : ℤ → Op
  sample : ℕ → Op
  take : Op

unfoldable pub step : EvidenceScheduler → Op → EvidenceScheduler
step s (admit id) = connection_admitted s id
step s (close id) = connection_closed s id
step s (sample now) = transport_sampled s now
step s take = (take_route_observations_due s).1

-- Routes are pending only for open connections, and nothing is urgent when none is open.
pub record IsConsistent (s : EvidenceScheduler) : Type 0 where
  pub pending_open : (id : ℤ) → In id s.pending_routes → In id s.active
  pub idle :
      s.active ≡ [] → (s.immediate_transport ≡ false) × (s.early_transport_followup_pending ≡ false)

is_empty-nil : (ids : List ℤ) → is_empty ids ≡ true → ids ≡ []
is_empty-nil [] h = refl
is_empty-nil (i ∷ ids) h = cc

insert-ne-nil : (id : ℤ) (ids : List ℤ) → insert id ids ≢ []
insert-ne-nil id ids e =
    let m : In id (insert id ids) = (In-insert id id ids).1 (inl refl) in
    let n : In id [] = rw e at m in absurd n

step-IsConsistent : (s : EvidenceScheduler) (op : Op) → IsConsistent s → IsConsistent (step s op)
unfolding step connection_admitted connection_closed transport_sampled take_route_observations_due
step-IsConsistent s (admit id) c = record {
  pending_open = λ x m.
      ground (arith, In-insert id x s.pending_routes, In-insert id x s.active, c.pending_open x);
  idle = λ e. absurd (insert-ne-nil id s.active e);
}
step-IsConsistent s (close id) c = record {
  pending_open = λ x m.
      ground (arith, In-erase id x s.pending_routes, In-erase id x s.active, c.pending_open x);
  idle = λ e. ground arith;
}
step-IsConsistent s (sample now) c = record {
  pending_open = λ x m. ground (arith, c.pending_open x);
  idle = λ e. ground (arith, c.idle);
}
step-IsConsistent s take c = record {
  pending_open = λ x m. ground (arith, c.pending_open x);
  idle = λ e. ground (arith, c.idle);
}

unfoldable pub run : EvidenceScheduler → List Op → EvidenceScheduler
run s [] = s
run s (op ∷ ops) = run (step s op) ops

run-IsConsistent :
    (s : EvidenceScheduler) (ops : List Op) → IsConsistent s → IsConsistent (run s ops)
unfolding run
run-IsConsistent s [] c = c
run-IsConsistent s (op ∷ ops) c = run-IsConsistent (step s op) ops (step-IsConsistent s op c)

-- All the route observations that a run asks for.
unfoldable pub reported : EvidenceScheduler → List Op → List ℤ
reported s [] = []
reported s (take ∷ ops) =
    (take_route_observations_due s).0 ++ reported (take_route_observations_due s).1 ops
reported s (op ∷ ops) = reported (step s op) ops

abbrev pub Admits : ℤ → List Op → Type 0
Admits id [] = ⊥
Admits id (admit i ∷ ops) = (i ≡ id) ⊎ Admits id ops
Admits id (op ∷ ops) = Admits id ops

reported_pending :
    (s : EvidenceScheduler) (ops : List Op) (id : ℤ)
    → In id (reported s ops)
    → In id s.pending_routes ⊎ Admits id ops
unfolding reported step connection_admitted connection_closed transport_sampled
    take_route_observations_due
reported_pending s [] id m = elim m [ ]
reported_pending s (admit i ∷ ops) id m =
    ground (arith, reported_pending (step s (admit i)) ops id m, In-insert i id s.pending_routes)
reported_pending s (close i ∷ ops) id m =
    ground (arith, reported_pending (step s (close i)) ops id m, In-erase i id s.pending_routes)
reported_pending s (sample now ∷ ops) id m =
    ground (arith, reported_pending (step s (sample now)) ops id m)
reported_pending s (take ∷ ops) id m =
    let (due, t) = take_route_observations_due s in
    elim ((In-append id due (reported t ops)).0 m) [
      | inl now ↦ ground arith
      | inr later ↦ ground (arith, reported_pending t ops id later)
    ]

IsConsistent-new : (a b : ℕ) → IsConsistent (new a b)
unfolding new
IsConsistent-new a b = record { pending_open = λ x m. elim m [ ]; idle = λ e. (refl, refl) }

-- In any run from the start: a connection whose route is asked for is open, and its route is not
-- asked for again in what follows unless the connection is admitted again.
pub routes_once :
    (interval followup : ℕ) (ops later : List Op) (id : ℤ)
    → let s = run (new interval followup) ops in
      In id (take_route_observations_due s).0
      → ¬ (Admits id later)
      → In id s.active × ¬ (In id (reported (take_route_observations_due s).1 later))
unfolding take_route_observations_due
routes_once interval followup ops later id m fresh =
    let s = run (new interval followup) ops in
    let c = run-IsConsistent (new interval followup) ops (IsConsistent-new interval followup) in
    (
      ground (arith, c.pending_open id),
      λ r. ground (arith, reported_pending (take_route_observations_due s).1 later id r),
    )

-- The connection is not closed in these operations, and routes are not collected.
abbrev pub Waits : ℤ → List Op → Type 0
Waits id [] = Unit
Waits id (close i ∷ ops) = (i ≢ id) × Waits id ops
Waits id (take ∷ ops) = ⊥
Waits id (op ∷ ops) = Waits id ops

run-pending :
    (s : EvidenceScheduler) (ops : List Op) (id : ℤ)
    → Waits id ops
    → In id s.pending_routes
    → In id (run s ops).pending_routes
unfolding run step connection_admitted connection_closed transport_sampled
run-pending s [] id w m = m
run-pending s (admit i ∷ ops) id w m =
    run-pending (step s (admit i)) ops id w ((In-insert i id s.pending_routes).1 (inr m))
run-pending s (close i ∷ ops) id w m =
    run-pending (step s (close i)) ops id w.1
      (ground (arith, m, w.0, In-erase i id s.pending_routes))
run-pending s (sample now ∷ ops) id w m =
    run-pending (step s (sample now)) ops id w (ground (arith, m))
run-pending s (take ∷ ops) id w m = elim w [ ]

sampled-due :
    (s : EvidenceScheduler) (now : ℕ) (id : ℤ)
    → In id s.pending_routes
    → In id (take_route_observations_due (transport_sampled s now)).0
unfolding take_route_observations_due transport_sampled
sampled-due s now id m = elim (Bool-cases (is_empty s.pending_routes)) [
  | inl none_left ↦ let n : In id [] = rw (is_empty-nil s.pending_routes none_left) at m in absurd n
  | inr some_left ↦ ground (arith, some_left, m)
]

closed-unreported :
    (s : EvidenceScheduler) (later : List Op) (id : ℤ)
    → ¬ (Admits id later)
    → ¬ (In id (reported (connection_closed s id) later))
unfolding connection_closed
closed-unreported s later id fresh r =
    ground
      (arith, reported_pending (connection_closed s id) later id r, In-erase id id s.pending_routes)

-- Whatever happened before, an admitted connection is asked for at the first collection that follows
-- a transport sample, whatever else is admitted, closed and sampled in between; and once it is
-- closed, whatever happened since its admission, it is not asked for unless it is admitted again.
pub routes_of_admitted :
    (s : EvidenceScheduler) (between since later : List Op) (id : ℤ) (now : ℕ)
    → Waits id between
    → ¬ (Admits id later)
    → In id
        (take_route_observations_due
          (transport_sampled (run (connection_admitted s id) between) now)).0
      × ¬ (In id (reported (connection_closed (run (connection_admitted s id) since) id) later))
unfolding connection_admitted
routes_of_admitted s between since later id now waits fresh = (
  sampled-due (run (connection_admitted s id) between) now id (
      run-pending (connection_admitted s id) between id waits
        ((In-insert id id s.pending_routes).1 (inl refl))),
  closed-unreported (run (connection_admitted s id) since) later id fresh,
)
