-- ===== src/Tracker/Elsewhere.antt =====
-- A socket that is not taken for a connection leaves the connection as it was.
use neta_agent.Prelude.{
  ℕ, ◌≡◌, ◌≢◌, refl, inl, inr, ap, ◌∙◌, Bool, ◌&&◌, not, some, Text, arith, text_eq, nat_eq,
  option_eq, ◌==◌, is_some, Bool-cases, Option-cases,
}
use neta_agent.Prelude.Dict.{lookup, lookup-update_other, lookup-rekey_other, lookup-emplace_other}
use neta_agent.Model.{ConnectionDirection, ProcessIdentity, SocketObservation}
use neta_agent.History.Connections.{update_socket_cookie}
use neta_agent.Tracker.State.{
  ConnectionTracker, TrackedConnection, ConnectionObservationOrigin, ProcessResolver,
}
use neta_agent.Tracker.Keys.{valid_cookie, identity_for_socket}
use neta_agent.Tracker.Index.{
  index_correlation, rekey_correlation, rekey_identity, promote_socket_cookie_identity,
  unique_active_correlation_match,
}
use neta_agent.Tracker.Socket.{
  SocketLookup, worth_a_row, sampled, seen_in_snapshot, persist_sample, sample_connection,
  admit_socket, find_as, lookup_match, lookup_socket, socket_key, socket_process, observe_socket,
}

-- An observation of a socket, with what it is observed by.
pub record Shown : Type 0 where
  pub resolver : ProcessResolver
  pub socket : SocketObservation
  pub direction : ConnectionDirection
  pub allow_new_connection : Bool
  pub origin : ConnectionObservationOrigin
  pub captured_ns : ℕ

unfoldable pub see : Shown → ConnectionTracker → ConnectionTracker
see x t =
    (observe_socket x.resolver x.socket x.direction x.allow_new_connection x.origin x.captured_ns
      t).1

module _ (i : Text) where
  -- The socket has another identity, and its key does not find this one.
  abbrev pub Elsewhere : Shown → ConnectionTracker → Type 0
  Elsewhere x t =
      (identity_for_socket x.socket ≢ i)
      × (unique_active_correlation_match (socket_key x.resolver x.socket) t ≢ some i)

  abbrev Same : ConnectionTracker → ConnectionTracker → Type 0
  Same t u = lookup i u.connections ≡ lookup i t.connections

  rekey_identity-Same :
      (previous canonical : Text) (t : ConnectionTracker)
      → previous ≢ i
      → canonical ≢ i
      → Same t (rekey_identity previous canonical t).1
  unfolding rekey_identity rekey_correlation
  rekey_identity-Same previous canonical t p c =
      ground (arith, lookup-rekey_other i previous canonical t.connections p c)

  promote-Same :
      (previous canonical : Text) (cookie : ℕ) (t : ConnectionTracker)
      → previous ≢ i
      → canonical ≢ i
      → Same t (promote_socket_cookie_identity previous canonical cookie t).1
  unfolding promote_socket_cookie_identity
  promote-Same previous canonical cookie t p c =
      elim (Option-cases (lookup previous t.connections)) [
        | inl missing ↦ rw (missing, promote_socket_cookie_identity) refl
        | inr (tracked, found) ↦
            let r = update_socket_cookie tracked.connection_id cookie t.store in
            elim (Bool-cases r.0) [
              | inl updated ↦
                  rw (found, promote_socket_cookie_identity)
                    (rw updated
                      (rekey_identity-Same previous canonical (record t { store = r.1 }) p c))
              | inr clash ↦ rw (found, promote_socket_cookie_identity) (rw clash refl)
            ]
      ]

  -- What the look-up of a socket finds is another connection.
  abbrev Other : ConnectionTracker → SocketLookup → Type 0
  Other t (SocketLookup.conflict u) = Same t u
  Other t (SocketLookup.unknown identity u) = (identity ≢ i) × Same t u
  Other t (SocketLookup.found e u) = (e.0 ≢ i) × Same t u

  find_as-Other :
      (identity : Text) (t u : ConnectionTracker)
      → identity ≢ i
      → Same t u
      → Other t (find_as identity u)
  find_as-Other identity t u n same = elim (Option-cases (lookup identity u.connections)) [
    | inl missing ↦ rw (missing, find_as) (n, same)
    | inr (c, found) ↦ rw (found, find_as) (n, same)
  ]

  lookup_match-Other :
      (socket : SocketObservation) (canonical match : Text) (t : ConnectionTracker)
      → canonical ≢ i
      → match ≢ i
      → Other t (lookup_match socket canonical match t)
  unfolding lookup_match
  lookup_match-Other socket canonical match t c m =
      let cookie = socket.socket_cookie in
      let u = (promote_socket_cookie_identity match canonical cookie t).1 in
      let same = promote-Same match canonical cookie t m c in
      elim (Bool-cases (valid_cookie cookie && not (match == canonical))) [
        | inr stays ↦ rw stays (find_as-Other match t t m refl)
        | inl moves ↦
            elim (Bool-cases (promote_socket_cookie_identity match canonical cookie t).0) [
              | inl wins ↦ rw moves (rw wins (find_as-Other canonical t u c same))
              | inr fails ↦ rw moves (rw fails same)
            ]
      ]

  lookup_socket-Other :
      (x : Shown) (t : ConnectionTracker)
      → Elsewhere x t
      → Other t (lookup_socket x.socket (socket_key x.resolver x.socket) t)
  unfolding lookup_socket
  lookup_socket-Other x t (c, m) =
      let canonical = identity_for_socket x.socket in
      let match = unique_active_correlation_match (socket_key x.resolver x.socket) t in
      elim (Option-cases (lookup canonical t.connections)) [
        | inr (e, found) ↦ elim (Bool-cases (is_some match && not (match == some canonical))) [
          | inl clash ↦ rw (found, lookup_socket) (rw clash refl)
          | inr fits ↦ rw (found, lookup_socket) (rw fits (c, refl))
        ]
        | inl fresh ↦ elim (Option-cases match) [
          | inl alone ↦ rw (fresh, lookup_socket) (rw alone (c, refl))
          | inr (n, one) ↦
              rw (fresh, lookup_socket)
                (rw one (lookup_match-Other x.socket canonical n t c (λ e. m (one ∙ ap some e))))
        ]
      ]

  sample-Same :
      (socket : SocketObservation) (direction : ConnectionDirection) (e : Text × TrackedConnection)
      (t : ConnectionTracker)
      → e.0 ≢ i
      → Same t (sample_connection socket direction e t).1
  unfolding sample_connection persist_sample
  sample-Same socket direction e t n =
      let sample = socket.transport in
      elim (Bool-cases (worth_a_row e.1 sample)) [
        | inl worth ↦ rw worth (
            lookup-update_other i e.0 seen_in_snapshot _ n
            ∙ lookup-update_other i e.0 (sampled sample) t.connections n)
        | inr plain ↦ rw plain (
            lookup-update_other i e.0 seen_in_snapshot _ n
            ∙ lookup-update_other i e.0 (sampled sample) t.connections n)
      ]

  admit-Same :
      (socket : SocketObservation) (direction : ConnectionDirection)
      (origin : ConnectionObservationOrigin) (captured : ℕ) (process : ProcessIdentity)
      (identity key : Text) (t : ConnectionTracker)
      → identity ≢ i
      → Same t (admit_socket socket direction origin captured process identity key t).1
  unfolding admit_socket index_correlation
  admit-Same socket direction origin captured process identity key t n =
      lookup-emplace_other i identity _ t.connections n

  see-looked :
      (x : Shown) (t : ConnectionTracker) (l : SocketLookup)
      → lookup_socket x.socket (socket_key x.resolver x.socket) t ≡ l
      → Other t l
      → Same t (see x t)
  unfolding see observe_socket
  see-looked x t (SocketLookup.conflict u) h same = rw (h, see, observe_socket) same
  see-looked x t (SocketLookup.found e u) h (n, same) =
      rw (h, see, observe_socket) (sample-Same x.socket x.direction e u n ∙ same)
  see-looked x t (SocketLookup.unknown identity u) h (n, same) =
      elim (Option-cases (socket_process x.resolver x.socket)) [
        | inl nobody ↦ ground (arith, h, nobody, same)
        | inr (p, owned) ↦ ground (
          arith,
          h,
          owned,
          same,
          admit-Same x.socket x.direction x.origin x.captured_ns p identity
              (socket_key x.resolver x.socket) u n,
        )
      ]

  pub see-lookup :
      (x : Shown) (t : ConnectionTracker)
      → Elsewhere x t
      → lookup i (see x t).connections ≡ lookup i t.connections
  see-lookup x t away = see-looked x t _ refl (lookup_socket-Other x t away)
