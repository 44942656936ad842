-- ===== src/Context/Applies.antt =====
-- Which rules the evaluation of a connection reports.
use neta_agent.Prelude.{
  ℕ, ◌≡◌, ◌↔◌, refl, inl, inr, ap, sym, subst, arith, false, none, ◌∙◌, Bool, true, Option, some,
  List, [], ◌∷◌, ◌++◌, In, In-append, Bool-cases, bind-cases, ◌>>=◌, if◌then◌else◌,
}
use neta_agent.Findings.Types.{RuleDefinition}
use neta_agent.Context.Exclusion.{excludes_connection}
use neta_agent.Context.Facts.{ConnectionRuleContext, correlated_domains}
use neta_agent.Context.Fires.{Cause, engine_test-Cause, Cause-engine_test}
use neta_agent.Context.Rules.{
  ContextRuleMatch, match_of, applies, engine_test, evaluate_one, evaluate_rules,
}

match-ext :
    (a b : ContextRuleMatch)
    → a.rule_id ≡ b.rule_id
    → a.engine_rule_id ≡ b.engine_rule_id
    → a.category ≡ b.category
    → a.severity ≡ b.severity
    → a.semantic_type ≡ b.semantic_type
    → a ≡ b
match-ext a b p q r s t = λ i. record {
  rule_id = p i;
  engine_rule_id = q i;
  category = r i;
  severity = s i;
  semantic_type = t i;
}

module _ (minimum_ratio : RuleDefinition → Option (ℕ → ℕ → Bool))
    (context : ConnectionRuleContext) where
  -- What the evaluation looks at: the rule applies, its test holds, and the match is the rule's.
  abbrev Fires : RuleDefinition → ContextRuleMatch → Type 0
  Fires rule m =
      (applies minimum_ratio rule context ≡ true)
      × (engine_test minimum_ratio rule context ≡ some true)
      × (match_of rule ≡ m)

  -- An enabled rule that does not exclude the connection, whose engine has a cause to report it; the
  -- match names the rule, its engine, category and severity, and the type of report of the engine.
  pub record Reports (rule : RuleDefinition) (m : ContextRuleMatch) : Type 0 where
    pub enabled : rule.enabled ≡ true
    pub not_excluded :
        excludes_connection rule.exclude context.connection
          (correlated_domains context.name_resolution)
          none
        ≡ false
    pub same_id : m.rule_id ≡ rule.id
    pub same_engine : m.engine_rule_id ≡ rule.engine_rule_id
    pub same_category : m.category ≡ rule.category
    pub same_severity : m.severity ≡ rule.severity
    pub cause : Cause minimum_ratio rule context m.semantic_type

  Fires-iff : (rule : RuleDefinition) (m : ContextRuleMatch) → Fires rule m ↔ Reports rule m
  unfolding match_of
  Fires-iff rule m = (
    λ f.
        let (looked, holds, same) = f in
        record {
          enabled = ground (arith, looked);
          not_excluded = ground (arith, looked);
          same_id = ap (λ x. x.rule_id) (sym same);
          same_engine = ap (λ x. x.engine_rule_id) (sym same);
          same_category = ap (λ x. x.category) (sym same);
          same_severity = ap (λ x. x.severity) (sym same);
          cause =
              subst (λ x. Cause minimum_ratio rule context x.semantic_type) same
                (engine_test-Cause minimum_ratio rule context holds);
        },
    λ r.
        let (holds, typed) = Cause-engine_test minimum_ratio rule context m.semantic_type r.cause in
        (
          ground (arith, r.enabled, r.not_excluded),
          holds,
          match-ext (match_of rule) m (sym r.same_id) (sym r.same_engine) (sym r.same_category)
              (sym r.same_severity) typed,
        ),
  )

  evaluate_one-In :
      (rule : RuleDefinition) (found : List ContextRuleMatch) (m : ContextRuleMatch)
      → evaluate_one minimum_ratio rule context ≡ some found
      → In m found ↔ Fires rule m
  unfolding evaluate_one
  evaluate_one-In rule found m h = elim (Bool-cases (applies minimum_ratio rule context)) [
    | inr out ↦
        let e : found ≡ [] = cc (rw (out, evaluate_one) at h) in
        rw e (λ i. elim i [ ], λ r. cc (r.0, out))
    | inl looked ↦
        let (b, test, one) =
          bind-cases (engine_test minimum_ratio rule context)
            (λ b. some (if b then match_of rule ∷ [] else [])) found
            (rw (looked, evaluate_one) at h) in
        elim (Bool-cases b) [
          | inl holds ↦
              let e : found ≡ match_of rule ∷ [] = cc (rw holds at one) in
              rw e (
                λ i. (
                  looked,
                  test ∙ ap some holds,
                  elim i [ inl same ↦ same | inr nothing ↦ elim nothing [ ] ],
                ),
                λ r. inl r.2,
              )
          | inr fails ↦
              let e : found ≡ [] = cc (rw fails at one) in
              rw e (λ i. elim i [ ], λ r. cc (test, r.1, fails))
        ]
  ]

  -- Where the evaluation of the rules of a set on a connection does not throw, its matches are exactly
  -- those of the rules of the set that are enabled, do not exclude the connection, and whose engine
  -- has a cause to report it, which is written out for each of the ten engines; a match names the
  -- rule, its engine, category and severity, and the type of report of the engine.
  pub evaluate_rules-In :
      (definitions : List RuleDefinition) (found : List ContextRuleMatch) (m : ContextRuleMatch)
      → evaluate_rules minimum_ratio definitions context ≡ some found
      → In m found ↔ ((rule : RuleDefinition) × In rule definitions × Reports rule m)
  unfolding evaluate_rules
  evaluate_rules-In [] found m h =
      let e : found ≡ [] = cc in rw e (λ i. elim i [ ], λ r. elim r.1 [ ])
  evaluate_rules-In (rule ∷ definitions) found m h =
      let (first, here, h') =
        bind-cases (evaluate_one minimum_ratio rule context)
          (λ first.
            evaluate_rules minimum_ratio definitions context >>= λ later. some (first ++ later))
          found h in
      let (later, there, h'') =
        bind-cases (evaluate_rules minimum_ratio definitions context)
          (λ later. some (first ++ later)) found h' in
      let e : found ≡ first ++ later = cc in
      let looked = evaluate_one-In rule first m here in
      let fires = Fires-iff rule m in
      let rest = evaluate_rules-In definitions later m there in
      rw e (
        λ i. elim ((In-append m first later).0 i) [
          | inl a ↦ (rule, inl refl, fires.0 (looked.0 a))
          | inr b ↦ let (r, inside, reports) = rest.0 b in (r, inr inside, reports)
        ],
        λ r. (In-append m first later).1 (elim r.1 [
          | inl same ↦ inl (looked.1 (fires.1 (rw same r.2)))
          | inr inside ↦ inr (rest.1 (r.0, inside, r.2))
        ]),
      )
