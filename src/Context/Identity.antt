-- ===== src/Context/Identity.antt =====
-- What makes the engines on TLS and on routes report a connection, written out.
use neta_agent.Prelude.{
  ◌≡◌, ◌≢◌, ◌↔◌, ◌⊎◌, inl, inr, ℤ, pos, int_eq, option_eq, Bool, true, false, ◌&&◌, not, some, Text,
  bytes, List, [], In, ◌==◌, text_eq, eq_iff, arith, is_empty, is_some, Option-cases, Bool-cases,
}
use neta_agent.Model.{Baseline}
use neta_agent.Verdict.{TlsSessionEvidence}
use neta_agent.Findings.Types.{RuleDefinition, boolean, string_list}
use neta_agent.Context.Facts.{ConnectionRuleContext, RouteObservation, exact_outbound_tls}
use neta_agent.Context.Rules.{
  tls_validation, tls_identity, unexpected_route, identity_changed, outside,
}
use neta_agent.Context.Causes.{Flag, Texts, In-any}

module _ (rule : RuleDefinition) (context : ConnectionRuleContext) where
  -- The first session that names the server of the connection exactly.
  abbrev pub Session : TlsSessionEvidence → Type 0
  Session tls = exact_outbound_tls context.tls_sessions ≡ some tls

  -- The peer is not authenticated, or its certificate failed verification.
  abbrev pub Unverified : Type 0
  Unverified =
      (tls : TlsSessionEvidence) × (required matches : Bool) × Session tls
      × Flag rule context (bytes "require_peer_authentication") required
      × Flag rule context (bytes "verification_failure_match") matches
      × (((required ≡ true) × (tls.observation.peer_authenticated ≡ false))
          ⊎ ((matches ≡ true)
              × ((result : ℤ) × (tls.observation.verify_result ≡ some result) × (result ≢ pos 0))))

  -- The accepted value is known, and another one is seen.
  abbrev pub Changes : Text → Text → Type 0
  Changes accepted observed = (accepted ≢ []) × (accepted ≢ observed)

  abbrev pub OtherIdentity : Type 0
  OtherIdentity =
      (tls : TlsSessionEvidence) × (baseline : Baseline) × (spki issuer : Bool) × Session tls
      × (context.baseline ≡ some baseline)
      × Flag rule context (bytes "compare_spki") spki
      × Flag rule context (bytes "compare_issuer") issuer
      × (((spki ≡ true) × Changes baseline.accepted_spki_sha256 tls.observation.spki_sha256)
          ⊎ ((issuer ≡ true) × Changes baseline.accepted_issuer tls.observation.issuer))

  -- Values are allowed, and this one is not among them.
  abbrev pub Off : List Text → Text → Type 0
  Off allowed value = (allowed ≢ []) × ¬ (In value allowed)

  abbrev pub OtherRoute : Type 0
  OtherRoute =
      (route : RouteObservation) × (gateways interfaces : List Text) × (context.route ≡ some route)
      × Texts rule context (bytes "allowed_gateways") gateways
      × Texts rule context (bytes "allowed_interfaces") interfaces
      × (Off gateways route.gateway ⊎ Off interfaces route.interface_name)

  is_empty_iff : (xs : List Text) → (is_empty xs ≡ false) ↔ (xs ≢ [])
  is_empty_iff xs = ground arith

  text_empty_iff : (s : Text) → (is_empty s ≡ false) ↔ (s ≢ [])
  text_empty_iff s = ground arith

  identity_changed_iff :
      (compared : Bool) (accepted observed : Text)
      → (identity_changed compared accepted observed ≡ true)
        ↔ ((compared ≡ true) × Changes accepted observed)
  identity_changed_iff compared accepted observed =
      ground (arith, eq_iff accepted observed, text_empty_iff accepted)

  outside_iff :
      (allowed : List Text) (value : Text) → (outside allowed value ≡ true) ↔ Off allowed value
  outside_iff allowed value = ground (arith, In-any value allowed, is_empty_iff allowed)

  pub unexpected_route_iff : (unexpected_route rule context ≡ some true) ↔ OtherRoute
  unfolding unexpected_route
  unexpected_route_iff = (
    λ h. elim (Option-cases context.route) [
      | inl unknown ↦ ground (arith, unknown, h)
      | inr (route, known) ↦ elim (Option-cases (string_list rule (bytes "allowed_gateways"))) [
        | inl missing ↦ ground (arith, known, missing, h)
        | inr (gateways, g) ↦ elim (Option-cases (string_list rule (bytes "allowed_interfaces"))) [
          | inl missing ↦ ground (arith, known, g, missing, h)
          | inr (interfaces, i) ↦ (
            route,
            gateways,
            interfaces,
            known,
            g,
            i,
            ground (
              arith,
              known,
              g,
              i,
              h,
              outside_iff gateways route.gateway,
              outside_iff interfaces route.interface_name,
            ),
          )
        ]
      ]
    ],
    λ c.
        let (route, gateways, interfaces, known, g, i, off) = c in
        ground (
          arith,
          known,
          g,
          i,
          off,
          outside_iff gateways route.gateway,
          outside_iff interfaces route.interface_name,
        ),
  )

  pub tls_identity_iff : (tls_identity rule context ≡ some true) ↔ OtherIdentity
  unfolding tls_identity
  tls_identity_iff = (
    λ h. elim (Option-cases (exact_outbound_tls context.tls_sessions)) [
      | inl unknown ↦ ground (arith, unknown, h)
      | inr (tls, found) ↦ elim (Option-cases context.baseline) [
        | inl unknown ↦ ground (arith, found, unknown, h)
        | inr (baseline, known) ↦ elim (Option-cases (boolean rule (bytes "compare_spki"))) [
          | inl missing ↦ ground (arith, found, known, missing, h)
          | inr (spki, s) ↦ elim (Option-cases (boolean rule (bytes "compare_issuer"))) [
            | inl missing ↦ ground (arith, found, known, s, missing, h)
            | inr (issuer, i) ↦ (
              tls,
              baseline,
              spki,
              issuer,
              found,
              known,
              s,
              i,
              ground (
                arith,
                found,
                known,
                s,
                i,
                h,
                identity_changed_iff spki baseline.accepted_spki_sha256 tls.observation.spki_sha256,
                identity_changed_iff issuer baseline.accepted_issuer tls.observation.issuer,
              ),
            )
          ]
        ]
      ]
    ],
    λ c.
        let (tls, baseline, spki, issuer, found, known, s, i, changed) = c in
        ground (
          arith,
          found,
          known,
          s,
          i,
          changed,
          identity_changed_iff spki baseline.accepted_spki_sha256 tls.observation.spki_sha256,
          identity_changed_iff issuer baseline.accepted_issuer tls.observation.issuer,
        ),
  )

  -- A result other than 0.
  failed_iff :
      (tls : TlsSessionEvidence)
      → ((is_some tls.observation.verify_result
            && not (tls.observation.verify_result == some (pos 0)))
          ≡ true)
        ↔ ((result : ℤ) × (tls.observation.verify_result ≡ some result) × (result ≢ pos 0))
  failed_iff tls = (
    λ h. elim (Option-cases tls.observation.verify_result) [
      | inl unknown ↦ ground (arith, unknown, h)
      | inr (result, known) ↦ (result, known, ground (arith, known, h, eq_iff result (pos 0)))
    ],
    λ c. let (result, known, bad) = c in ground (arith, known, bad, eq_iff result (pos 0)),
  )

  pub tls_validation_iff : (tls_validation rule context ≡ some true) ↔ Unverified
  unfolding tls_validation
  tls_validation_iff = (
    λ h. elim (Option-cases (exact_outbound_tls context.tls_sessions)) [
      | inl unknown ↦ ground (arith, unknown, h)
      | inr (tls, found) ↦
          elim (Option-cases (boolean rule (bytes "require_peer_authentication"))) [
            | inl missing ↦ ground (arith, found, missing, h)
            | inr (required, r) ↦
                elim (Option-cases (boolean rule (bytes "verification_failure_match"))) [
                  | inl missing ↦ ground (arith, found, r, missing, h)
                  | inr (matches, m) ↦ (
                    tls,
                    required,
                    matches,
                    found,
                    r,
                    m,
                    elim (Bool-cases (required && not tls.observation.peer_authenticated)) [
                      | inl alone ↦ inl (ground (arith, alone), ground (arith, alone))
                      | inr fine ↦ inr (
                        ground (arith, found, r, m, fine, h),
                        (failed_iff tls).0 (ground (arith, found, r, m, fine, h)),
                      )
                    ],
                  )
                ]
          ]
    ],
    λ c.
        let (tls, required, matches, found, r, m, why) = c in
        elim why [
          | inl (needed, alone) ↦ ground (arith, found, r, m, needed, alone)
          | inr (counts, failed) ↦ ground (arith, found, r, m, counts, (failed_iff tls).1 failed)
        ],
  )
