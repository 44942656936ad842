-- ===== src/Context/Fires.antt =====
-- Which engine tests a rule, and what its report means.
use neta_agent.Prelude.{
  ℕ, ◌≡◌, ◌↔◌, ◌⊎◌, refl, inl, inr, ap, sym, ◌∙◌, Bool, true, false, Option, some, Text, bytes,
  ◌==◌, text_eq, eq_iff, if◌then◌else◌, subst, value_or,
}
use neta_agent.Prelude.Dict.{lookup}
use neta_agent.Findings.Types.{RuleDefinition}
use neta_agent.Context.Facts.{ConnectionRuleContext}
use neta_agent.Context.Rules.{
  semantic_types, match_of, retransmissions, unusual_port, rare_destination, asymmetric,
  dns_failures, dns_mismatch, dns_churn, tls_validation, tls_identity, unexpected_route,
  engine_test,
}
use neta_agent.Context.Causes.{
  Retransmits, UnusualPort, RareDestination, SendsMore, NamesFail, NamesMismatch, AnswersChurn,
  retransmissions_iff, unusual_port_iff, rare_destination_iff, asymmetric_iff, dns_failures_iff,
  dns_mismatch_iff, dns_churn_iff,
}
use neta_agent.Context.Identity.{
  Unverified, OtherIdentity, OtherRoute, tls_validation_iff, tls_identity_iff, unexpected_route_iff,
}

if-cases :
    {A : Type 0} (b : Bool) (x y z : A)
    → (if b then x else y) ≡ z
    → ((b ≡ true) × (x ≡ z)) ⊎ (y ≡ z)
if-cases true x y z h = inl (refl, h)
if-cases false x y z h = inr h

module _ (minimum_ratio : RuleDefinition → Option (ℕ → ℕ → Bool)) (rule : RuleDefinition)
    (context : ConnectionRuleContext) where
  -- Why the rule reports the connection, by its engine, with the type of the report.
  pub data Cause (semantic : Text) : Type 0 where
    retransmits :
        rule.engine_rule_id ≡ bytes "NET-002"
        → semantic ≡ bytes "TCP_RETRANSMISSION_SPIKE"
        → Retransmits rule context
        → Cause semantic
    other_port :
        rule.engine_rule_id ≡ bytes "NET-003"
        → semantic ≡ bytes "UNUSUAL_OUTBOUND_DESTINATION_PORT"
        → UnusualPort rule context
        → Cause semantic
    rare :
        rule.engine_rule_id ≡ bytes "NET-004"
        → semantic ≡ bytes "RARE_OUTBOUND_DESTINATION"
        → RareDestination rule context
        → Cause semantic
    sends_more :
        rule.engine_rule_id ≡ bytes "NET-005"
        → semantic ≡ bytes "HIGH_OUTBOUND_ASYMMETRY"
        → SendsMore rule context minimum_ratio
        → Cause semantic
    names_fail :
        rule.engine_rule_id ≡ bytes "DNS-001"
        → semantic ≡ bytes "REPEATED_DNS_FAILURES"
        → NamesFail rule context
        → Cause semantic
    names_mismatch :
        rule.engine_rule_id ≡ bytes "DNS-002"
        → semantic ≡ bytes "DNS_CONNECTION_MISMATCH"
        → NamesMismatch rule context
        → Cause semantic
    answers_churn :
        rule.engine_rule_id ≡ bytes "DNS-003"
        → semantic ≡ bytes "DNS_ANSWER_CHURN"
        → AnswersChurn rule context
        → Cause semantic
    unverified :
        rule.engine_rule_id ≡ bytes "TLS-001"
        → semantic ≡ bytes "TLS_VALIDATION_FAILURE"
        → Unverified rule context
        → Cause semantic
    other_identity :
        rule.engine_rule_id ≡ bytes "TLS-002"
        → semantic ≡ bytes "TLS_IDENTITY_CHANGE"
        → OtherIdentity rule context
        → Cause semantic
    other_route :
        rule.engine_rule_id ≡ bytes "ROUTE-001"
        → semantic ≡ bytes "UNEXPECTED_ROUTE"
        → OtherRoute rule context
        → Cause semantic

  -- The engine's test and the type of its reports, by its name.
  abbrev tests : Text → Option Bool
  tests engine =
      if engine == bytes "NET-002"
      then retransmissions rule context
      else if engine == bytes "NET-003"
      then unusual_port rule context
      else if engine == bytes "NET-004"
      then rare_destination rule context
      else if engine == bytes "NET-005"
      then asymmetric minimum_ratio rule context
      else if engine == bytes "DNS-001"
      then dns_failures rule context
      else if engine == bytes "DNS-002"
      then dns_mismatch rule context
      else if engine == bytes "DNS-003"
      then dns_churn rule context
      else if engine == bytes "TLS-001"
      then tls_validation rule context
      else if engine == bytes "TLS-002"
      then tls_identity rule context
      else if engine == bytes "ROUTE-001"
      then unexpected_route rule context
      else some false

  abbrev type_of : Text → Text
  type_of engine = value_or (lookup engine semantic_types) engine

  engine_test-tests : engine_test minimum_ratio rule context ≡ tests rule.engine_rule_id
  unfolding engine_test
  engine_test-tests = refl

  match_of-type_of : (match_of rule).semantic_type ≡ type_of rule.engine_rule_id
  unfolding match_of
  match_of-type_of = refl

  -- The test of a rule holds where the cause of its engine is there.
  module _ {test : Option Bool} {C : Type 0} (engine : Text) (holds : (test ≡ some true) ↔ C)
      (named : tests engine ≡ test) where
    reports :
        (semantic : Text)
        → type_of engine ≡ semantic
        → rule.engine_rule_id ≡ engine
        → C
        → (tests rule.engine_rule_id ≡ some true) × (type_of rule.engine_rule_id ≡ semantic)
    reports semantic typed e c = (ap tests e ∙ named ∙ holds.1 c, ap type_of e ∙ typed)

  tests-Cause : tests rule.engine_rule_id ≡ some true → Cause (type_of rule.engine_rule_id)
  tests-Cause h =
      let engine = rule.engine_rule_id in
      elim (if-cases (engine == bytes "NET-002") _ _ (some true) h) [
        | inl (hit, holds) ↦
            let e = (eq_iff engine (bytes "NET-002")).0 hit in
            Cause.retransmits e (ap type_of e) ((retransmissions_iff rule context).0 holds)
        | inr h1 ↦ elim (if-cases (engine == bytes "NET-003") _ _ (some true) h1) [
          | inl (hit, holds) ↦
              let e = (eq_iff engine (bytes "NET-003")).0 hit in
              Cause.other_port e (ap type_of e) ((unusual_port_iff rule context).0 holds)
          | inr h2 ↦ elim (if-cases (engine == bytes "NET-004") _ _ (some true) h2) [
            | inl (hit, holds) ↦
                let e = (eq_iff engine (bytes "NET-004")).0 hit in
                Cause.rare e (ap type_of e) ((rare_destination_iff rule context).0 holds)
            | inr h3 ↦ elim (if-cases (engine == bytes "NET-005") _ _ (some true) h3) [
              | inl (hit, holds) ↦
                  let e = (eq_iff engine (bytes "NET-005")).0 hit in
                  Cause.sends_more e (ap type_of e)
                    ((asymmetric_iff rule context minimum_ratio).0 holds)
              | inr h4 ↦ elim (if-cases (engine == bytes "DNS-001") _ _ (some true) h4) [
                | inl (hit, holds) ↦
                    let e = (eq_iff engine (bytes "DNS-001")).0 hit in
                    Cause.names_fail e (ap type_of e) ((dns_failures_iff rule context).0 holds)
                | inr h5 ↦ elim (if-cases (engine == bytes "DNS-002") _ _ (some true) h5) [
                  | inl (hit, holds) ↦
                      let e = (eq_iff engine (bytes "DNS-002")).0 hit in
                      Cause.names_mismatch e (ap type_of e)
                        ((dns_mismatch_iff rule context).0 holds)
                  | inr h6 ↦ elim (if-cases (engine == bytes "DNS-003") _ _ (some true) h6) [
                    | inl (hit, holds) ↦
                        let e = (eq_iff engine (bytes "DNS-003")).0 hit in
                        Cause.answers_churn e (ap type_of e) ((dns_churn_iff rule context).0 holds)
                    | inr h7 ↦ elim (if-cases (engine == bytes "TLS-001") _ _ (some true) h7) [
                      | inl (hit, holds) ↦
                          let e = (eq_iff engine (bytes "TLS-001")).0 hit in
                          Cause.unverified e (ap type_of e)
                            ((tls_validation_iff rule context).0 holds)
                      | inr h8 ↦ elim (if-cases (engine == bytes "TLS-002") _ _ (some true) h8) [
                        | inl (hit, holds) ↦
                            let e = (eq_iff engine (bytes "TLS-002")).0 hit in
                            Cause.other_identity e (ap type_of e)
                              ((tls_identity_iff rule context).0 holds)
                        | inr h9 ↦
                            elim (if-cases (engine == bytes "ROUTE-001") _ _ (some true) h9) [
                              | inl (hit, holds) ↦
                                  let e = (eq_iff engine (bytes "ROUTE-001")).0 hit in
                                  Cause.other_route e (ap type_of e)
                                    ((unexpected_route_iff rule context).0 holds)
                              | inr h10 ↦ cc (h10)
                            ]
                      ]
                    ]
                  ]
                ]
              ]
            ]
          ]
        ]
      ]

  pub engine_test-Cause :
      engine_test minimum_ratio rule context ≡ some true → Cause (match_of rule).semantic_type
  engine_test-Cause h = subst Cause (sym match_of-type_of) (tests-Cause (sym engine_test-tests ∙ h))

  Cause-tests :
      (semantic : Text)
      → Cause semantic
      → (tests rule.engine_rule_id ≡ some true) × (type_of rule.engine_rule_id ≡ semantic)
  Cause-tests semantic (Cause.retransmits e t c) =
      reports (bytes "NET-002") (retransmissions_iff rule context) refl semantic (sym t) e c
  Cause-tests semantic (Cause.other_port e t c) =
      reports (bytes "NET-003") (unusual_port_iff rule context) refl semantic (sym t) e c
  Cause-tests semantic (Cause.rare e t c) =
      reports (bytes "NET-004") (rare_destination_iff rule context) refl semantic (sym t) e c
  Cause-tests semantic (Cause.sends_more e t c) =
      reports (bytes "NET-005") (asymmetric_iff rule context minimum_ratio) refl semantic (sym t) e
        c
  Cause-tests semantic (Cause.names_fail e t c) =
      reports (bytes "DNS-001") (dns_failures_iff rule context) refl semantic (sym t) e c
  Cause-tests semantic (Cause.names_mismatch e t c) =
      reports (bytes "DNS-002") (dns_mismatch_iff rule context) refl semantic (sym t) e c
  Cause-tests semantic (Cause.answers_churn e t c) =
      reports (bytes "DNS-003") (dns_churn_iff rule context) refl semantic (sym t) e c
  Cause-tests semantic (Cause.unverified e t c) =
      reports (bytes "TLS-001") (tls_validation_iff rule context) refl semantic (sym t) e c
  Cause-tests semantic (Cause.other_identity e t c) =
      reports (bytes "TLS-002") (tls_identity_iff rule context) refl semantic (sym t) e c
  Cause-tests semantic (Cause.other_route e t c) =
      reports (bytes "ROUTE-001") (unexpected_route_iff rule context) refl semantic (sym t) e c

  pub Cause-engine_test :
      (semantic : Text)
      → Cause semantic
      → (engine_test minimum_ratio rule context ≡ some true)
        × ((match_of rule).semantic_type ≡ semantic)
  Cause-engine_test semantic c =
      let (holds, typed) = Cause-tests semantic c in
      (engine_test-tests ∙ holds, match_of-type_of ∙ typed)
