-- ===== src/TlsSession/Kinds.antt =====
-- When a connection is a candidate for a session, and of which kind.
use neta_agent.Prelude.{
  ℕ, ◌≡◌, ◌↔◌, inl, inr, refl, true, false, not, Option, none, some, ◌==◌, nat_eq, text_eq, int_eq,
  arith, subst, sym, ◌∙◌,
}
use neta_agent.Model.{direction_eq, ConnectionSummary}
use neta_agent.Verdict.{TlsSessionObservation}
use neta_agent.TlsSession.{
  CandidateKind, TlsSessionCorrelationPolicy, candidate_kind, same_tuple, valid_cookie,
  within_connection_time, cookie_is,
}
use neta_agent.TlsSession.Fits.{
  Fits, Alive, SameEnds, Recent, alive, ends, by_exact, by_awaiting, by_tuple, second, is_zero,
  fits_iff, wrong_direction, wrong_place, fits, kind_by,
}

module _ (o : TlsSessionObservation) (c : ConnectionSummary)
    (policy : TlsSessionCorrelationPolicy) where
  branch :
      candidate_kind o c policy
      ≡ kind_by
          (wrong_direction o c)
          (wrong_place o c)
          (valid_cookie o.socket_cookie)
          (not (c.socket_cookie == 0))
          (cookie_is o.socket_cookie c.socket_cookie)
          (same_tuple o c)
          (within_connection_time o c policy true)
          (within_connection_time o c policy false)
  unfolding candidate_kind
  branch = refl

  if_exact :
      candidate_kind o c policy ≡ CandidateKind.exact
      → (fits o c ≡ true)
        × (valid_cookie o.socket_cookie ≡ true)
        × (cookie_is o.socket_cookie c.socket_cookie ≡ true)
        × (within_connection_time o c policy true ≡ true)
  if_exact h = by_exact _ _ _ _ _ _ _ _ (sym branch ∙ h)

  if_awaiting :
      candidate_kind o c policy ≡ CandidateKind.awaiting
      → (fits o c ≡ true)
        × (valid_cookie o.socket_cookie ≡ true)
        × (c.socket_cookie ≡ 0)
        × (same_tuple o c ≡ true)
        × (within_connection_time o c policy false ≡ true)
  if_awaiting h =
      let (x, v, l, s, t) = by_awaiting _ _ _ _ _ _ _ _ (sym branch ∙ h) in
      (x, v, is_zero c.socket_cookie l, s, t)

  if_tuple :
      candidate_kind o c policy ≡ CandidateKind.tuple
      → (fits o c ≡ true)
        × (valid_cookie o.socket_cookie ≡ false)
        × (same_tuple o c ≡ true)
        × (within_connection_time o c policy false ≡ true)
  if_tuple h = by_tuple _ _ _ _ _ _ _ _ (sym branch ∙ h)

  cookie_lem : (a : Option ℕ) (b : ℕ) → (cookie_is a b ≡ true) ↔ (a ≡ some b)
  cookie_lem none b = ground arith
  cookie_lem (some a) b = ground arith

  exact_of :
      fits o c ≡ true
      → valid_cookie o.socket_cookie ≡ true
      → o.socket_cookie ≡ some c.socket_cookie
      → within_connection_time o c policy true ≡ true
      → candidate_kind o c policy ≡ CandidateKind.exact
  unfolding candidate_kind valid_cookie
  exact_of f v e t =
      let v2 : valid_cookie (some c.socket_cookie) ≡ true =
        subst (λ x. valid_cookie x ≡ true) e v in
      let same = (cookie_lem o.socket_cookie c.socket_cookie).1 e in
      ground (arith, f, v, v2, same, t)

  awaiting_of :
      fits o c ≡ true
      → valid_cookie o.socket_cookie ≡ true
      → c.socket_cookie ≡ 0
      → same_tuple o c ≡ true
      → within_connection_time o c policy false ≡ true
      → candidate_kind o c policy ≡ CandidateKind.awaiting
  unfolding candidate_kind
  awaiting_of f v z e t = ground (arith, f, v, z, e, t)

  tuple_of :
      fits o c ≡ true
      → valid_cookie o.socket_cookie ≡ false
      → same_tuple o c ≡ true
      → within_connection_time o c policy false ≡ true
      → candidate_kind o c policy ≡ CandidateKind.tuple
  unfolding candidate_kind
  tuple_of f v e t = ground (arith, f, v, e, t)

  -- A connection is an exact candidate for a session exactly when it fits, was alive, and has the
  -- valid cookie of the session; it awaits its identity exactly when the session has a valid cookie
  -- and the connection none, but it fits, was alive and recent, and has the same ends; and it is a
  -- candidate by its ends exactly when the session has no valid cookie and the connection fits, was
  -- alive and recent, and has the same ends.
  pub candidate_kind_iff :
      ((candidate_kind o c policy ≡ CandidateKind.exact) ↔ (
        Fits o c
        × (valid_cookie o.socket_cookie ≡ true)
        × (o.socket_cookie ≡ some c.socket_cookie)
        × Alive o c))
      × ((candidate_kind o c policy ≡ CandidateKind.awaiting) ↔ (
          Fits o c
          × (valid_cookie o.socket_cookie ≡ true)
          × (c.socket_cookie ≡ 0)
          × SameEnds o c
          × Alive o c
          × Recent o c policy))
      × ((candidate_kind o c policy ≡ CandidateKind.tuple) ↔ (
          Fits o c
          × (valid_cookie o.socket_cookie ≡ false)
          × SameEnds o c
          × Alive o c
          × Recent o c policy))
  candidate_kind_iff =
      let f = fits_iff o c in
      let e = ends o c in
      let lived = alive o c policy true in
      let recent = alive o c policy false in
      let cookie = cookie_lem o.socket_cookie c.socket_cookie in
      (
        (
          λ h. let (x, v, s, t) = if_exact h in (f.0 x, v, cookie.0 s, (lived.0 t).0),
          λ (x, v, s, l). exact_of (f.1 x) v s (lived.1 (l, inl refl)),
        ),
        (
          λ h.
              let (x, v, z, s, t) = if_awaiting h in
              let (l, r) = recent.0 t in (f.0 x, v, z, e.0 s, l, second r),
          λ (x, v, z, s, l, r). awaiting_of (f.1 x) v z (e.1 s) (recent.1 (l, inr r)),
        ),
        (
          λ h.
              let (x, v, s, t) = if_tuple h in
              let (l, r) = recent.0 t in (f.0 x, v, e.0 s, l, second r),
          λ (x, v, s, l, r). tuple_of (f.1 x) v (e.1 s) (recent.1 (l, inr r)),
        ),
      )
