-- ===== src/Context/Causes.antt =====
-- What makes the engines on traffic and on names report a connection, written out.
use neta_agent.Prelude.{
  ℕ, ◌≤◌, ◌<◌, ◌≡◌, ◌≢◌, ◌↔◌, inl, inr, ap, ◌∙◌, Bool, true, false, Option, some, Text, bytes, List,
  [], ◌∷◌, In, ◌==◌, text_eq, nat_eq, eq_iff, arith, max, any, leb, ltb, Option-cases, bind-cases,
}
use neta_agent.Prelude.Decimal.{to_string}
use neta_agent.Model.{ConnectionDirection, direction_eq}
use neta_agent.Findings.Types.{RuleDefinition, numeric, boolean, string_list}
use neta_agent.Context.Facts.{
  ConnectionRuleContext, port_allowed, failed_dns_count, dns_contains_remote, distinct_dns_answers,
}
use neta_agent.Context.Rules.{
  retransmissions, unusual_port, rare_destination, asymmetric, dns_failures, dns_mismatch,
  dns_churn,
}

pub In-any : (a : Text) (xs : List Text) → (any (λ b. b == a) xs ≡ true) ↔ In a xs
In-any a [] = (λ h. cc, λ m. elim m [ ])
In-any a (x ∷ xs) = ground (arith, eq_iff x a, In-any a xs)

module _ (rule : RuleDefinition) (context : ConnectionRuleContext) where
  -- The parameter has this value.
  abbrev pub Number : Text → ℕ → Type 0
  Number name n = numeric rule name ≡ some n

  abbrev pub Flag : Text → Bool → Type 0
  Flag name b = boolean rule name ≡ some b

  abbrev pub Texts : Text → List Text → Type 0
  Texts name texts = string_list rule name ≡ some texts

  abbrev pub Outbound : Type 0
  Outbound = context.connection.direction ≡ ConnectionDirection.outbound

  -- Retransmissions reach the threshold.
  abbrev pub Retransmits : Type 0
  Retransmits =
      (threshold : ℕ) × Number (bytes "retransmission_threshold") threshold
      × (threshold ≤ context.metrics.retransmission_delta)

  pub retransmissions_iff : (retransmissions rule context ≡ some true) ↔ Retransmits
  unfolding retransmissions
  retransmissions_iff = (
    λ h.
        let (n, read, fires) =
          bind-cases (numeric rule (bytes "retransmission_threshold"))
            (λ n. some (leb n context.metrics.retransmission_delta)) true h in
        (n, read, ground (arith, fires)),
    λ c. let (n, read, reaches) = c in ground (arith, read, reaches),
  )

  -- The remote port of an outbound connection is not an allowed one.
  abbrev pub UnusualPort : Type 0
  UnusualPort =
      Outbound
      × (context.connection.remote_port ≢ 0)
      × (allowed : List Text) × Texts (bytes "allowed_ports") allowed
      × ¬ (In (to_string context.connection.remote_port) allowed)

  pub unusual_port_iff : (unusual_port rule context ≡ some true) ↔ UnusualPort
  unfolding unusual_port port_allowed
  unusual_port_iff =
      let outbound = eq_iff context.connection.direction ConnectionDirection.outbound in
      (
        λ h. elim (Option-cases (string_list rule (bytes "allowed_ports"))) [
          | inl missing ↦ ground (arith, missing, h)
          | inr (allowed, read) ↦ (
            ground (arith, read, h, outbound),
            ground (arith, read, h),
            allowed,
            read,
            λ m.
                ground
                  (arith, read, h, In-any (to_string context.connection.remote_port) allowed, m),
          )
        ],
        λ c.
            let (out, port, allowed, read, off) = c in
            ground (
              arith,
              outbound,
              out,
              port,
              read,
              In-any (to_string context.connection.remote_port) allowed,
              off,
            ),
      )

  -- The destination of an outbound connection is no more prevalent than the rule allows.
  abbrev pub RareDestination : Type 0
  RareDestination =
      Outbound
      × (prevalence maximum : ℕ) × (context.destination_prevalence ≡ some prevalence)
      × Number (bytes "maximum_prevalence") maximum
      × (prevalence ≤ maximum)

  -- The conditions of `DNS-001` and `DNS-003`.
  abbrev pub NamesFail : Type 0
  NamesFail =
      (minimum : ℕ) × Number (bytes "minimum_failures") minimum
      × (minimum ≤ failed_dns_count context.name_resolution)

  abbrev pub AnswersChurn : Type 0
  AnswersChurn =
      (maximum : ℕ) × Number (bytes "maximum_distinct_answers") maximum
      × (maximum < distinct_dns_answers context.name_resolution)

  pub dns_failures_iff : (dns_failures rule context ≡ some true) ↔ NamesFail
  unfolding dns_failures
  dns_failures_iff = (
    λ h.
        let (n, read, fires) =
          bind-cases (numeric rule (bytes "minimum_failures"))
            (λ n. some (leb n (failed_dns_count context.name_resolution))) true h in
        (n, read, ground (arith, fires)),
    λ c. let (n, read, reaches) = c in ground (arith, read, reaches),
  )

  pub dns_churn_iff : (dns_churn rule context ≡ some true) ↔ AnswersChurn
  unfolding dns_churn
  dns_churn_iff = (
    λ h.
        let (n, read, fires) =
          bind-cases (numeric rule (bytes "maximum_distinct_answers"))
            (λ n. some (ltb n (distinct_dns_answers context.name_resolution))) true h in
        (n, read, ground (arith, fires)),
    λ c. let (n, read, reaches) = c in ground (arith, read, reaches),
  )

  pub rare_destination_iff : (rare_destination rule context ≡ some true) ↔ RareDestination
  unfolding rare_destination
  rare_destination_iff =
      let outbound = eq_iff context.connection.direction ConnectionDirection.outbound in
      (
        λ h. elim (Option-cases context.destination_prevalence) [
          | inl unknown ↦ ground (arith, unknown, h)
          | inr (prevalence, known) ↦
              elim (Option-cases (numeric rule (bytes "maximum_prevalence"))) [
                | inl missing ↦ ground (arith, known, missing, h)
                | inr (maximum, read) ↦ (
                  ground (arith, known, read, h, outbound),
                  prevalence,
                  maximum,
                  known,
                  read,
                  ground (arith, known, read, h),
                )
              ]
        ],
        λ c.
            let (out, prevalence, maximum, known, read, few) = c in
            ground (arith, outbound, out, known, read, few),
      )

  -- An outbound connection has name resolutions, and its remote address is not an answer that counts.
  abbrev pub NamesMismatch : Type 0
  NamesMismatch =
      Outbound
      × (context.name_resolution ≢ [])
      × Flag (bytes "require_remote_ip_match") true
      × (dns_contains_remote context ≡ false)

  pub dns_mismatch_iff : (dns_mismatch rule context ≡ some true) ↔ NamesMismatch
  unfolding dns_mismatch
  dns_mismatch_iff =
      let outbound = eq_iff context.connection.direction ConnectionDirection.outbound in
      (
        λ h. elim (Option-cases (boolean rule (bytes "require_remote_ip_match"))) [
          | inl missing ↦ ground (arith, missing, h)
          | inr (required, read) ↦ (
            ground (arith, read, h, outbound),
            λ e. ground (arith, read, h, e),
            read ∙ ap some (ground (arith, read, h)),
            ground (arith, read, h),
          )
        ],
        λ c.
            let (out, some_names, read, apart) = c in
            ground (arith, outbound, out, some_names, read, apart),
      )

  -- An outbound connection sent enough, and far more than it received or than the floor.
  module _ (minimum_ratio : RuleDefinition → Option (ℕ → ℕ → Bool)) where
    abbrev pub SendsMore : Type 0
    SendsMore =
        Outbound
        × (sent received minimum floor : ℕ) × (reaches : ℕ → ℕ → Bool) × (context.bytes_sent
            ≡ some sent)
        × (context.bytes_received ≡ some received)
        × Number (bytes "minimum_bytes_sent") minimum
        × (minimum_ratio rule ≡ some reaches)
        × Number (bytes "received_bytes_floor") floor
        × (minimum ≤ sent)
        × (reaches sent (max received floor) ≡ true)

    pub asymmetric_iff : (asymmetric minimum_ratio rule context ≡ some true) ↔ SendsMore
    unfolding asymmetric
    asymmetric_iff =
        let outbound = eq_iff context.connection.direction ConnectionDirection.outbound in
        (
          λ h. elim (Option-cases context.bytes_sent) [
            | inl unknown ↦ ground (arith, unknown, h)
            | inr (sent, s) ↦ elim (Option-cases context.bytes_received) [
              | inl unknown ↦ ground (arith, s, unknown, h)
              | inr (received, r) ↦
                  elim (Option-cases (numeric rule (bytes "minimum_bytes_sent"))) [
                    | inl missing ↦ ground (arith, s, r, missing, h)
                    | inr (minimum, m) ↦ elim (Option-cases (minimum_ratio rule)) [
                      | inl missing ↦ ground (arith, s, r, m, missing, h)
                      | inr (reaches, q) ↦
                          elim (Option-cases (numeric rule (bytes "received_bytes_floor"))) [
                            | inl missing ↦ ground (arith, s, r, m, q, missing, h)
                            | inr (floor, f) ↦ (
                              ground (arith, s, r, m, q, f, h, outbound),
                              sent,
                              received,
                              minimum,
                              floor,
                              reaches,
                              s,
                              r,
                              m,
                              q,
                              f,
                              ground (arith, s, r, m, q, f, h),
                              ground (arith, s, r, m, q, f, h),
                            )
                          ]
                    ]
                  ]
            ]
          ],
          λ c.
              let (out, sent, received, minimum, floor, reaches, s, r, m, q, f, large, far) = c in
              ground (arith, outbound, out, s, r, m, q, f, large, far),
        )
