-- ===== src/Findings/Justified.antt =====
-- Every finding on a single process names that process and a rule that is enabled.
use neta_agent.Prelude.{
  ◌≡◌, ◌⊎◌, refl, inl, inr, Bool, true, false, Option, some, Text, bytes, List, [], ◌∷◌, ◌++◌,
  arith, All, Bool-cases, bind-cases, text_eq, ◌==◌, ◌>>=◌, ◌&&◌,
}
use neta_agent.ProcessGraph.{ProcessNode}
use neta_agent.Findings.Types.{
  ProcessFinding, ProcessFindingSeverity, ProcessFindingConfig, RuleDefinition, string_list,
}
use neta_agent.Findings.Names.{
  severity_from_string, is_transient_path, path_matches, normalized_values,
}
use neta_agent.Findings.Static.{
  found_if, transient_of, shell_of, elevation_of, custom_transient_of, custom_shell_of,
  custom_elevation_of, parent_node, transient_finding, shell_finding, elevation_finding,
  custom_finding, custom_findings, custom_transient, custom_shell, custom_elevation, odd_shell,
  odd_elevation, evaluate_node,
}

-- A rule id that is enabled: one of the engine's own, or of a custom rule.
abbrev pub IsEnabled : ProcessFindingConfig → List RuleDefinition → Text → Type 0
IsEnabled config [] id =
    ((id ≡ bytes "PROC-001") × (config.transient_path_enabled ≡ true))
    ⊎ ((id ≡ bytes "PROC-002") × (config.unexpected_shell_enabled ≡ true))
    ⊎ ((id ≡ bytes "PROC-003") × (config.unexpected_elevation_enabled ≡ true))
IsEnabled config (rule ∷ rules) id =
    ((id ≡ rule.id) × (rule.enabled ≡ true)) ⊎ IsEnabled config rules id

-- The finding is about this process, with the version of the rules, and its rule is enabled.
pub record IsJustified (config : ProcessFindingConfig) (rules : List RuleDefinition)
    (node : ProcessNode) (f : ProcessFinding) : Type 0 where
  pub subject : f.process ≡ node.key
  pub parent : f.parent ≡ node.parent
  pub version : f.ruleset_version ≡ config.ruleset_version
  pub enabled : IsEnabled config rules f.rule_id

module _ (P : ProcessFinding → Type 0) where
  All-append : (xs ys : List ProcessFinding) → All P xs → All P ys → All P (xs ++ ys)
  All-append [] ys p q = q
  All-append (x ∷ xs) ys p q = (p.0, All-append xs ys p.1 q)

  found_if-All :
      (test : Bool) (severity : Text) (finding : ProcessFindingSeverity → ProcessFinding)
      (found : List ProcessFinding)
      → found_if test severity finding ≡ some found
      → ((s : ProcessFindingSeverity) → test ≡ true → P (finding s))
      → All P found
  unfolding found_if
  found_if-All false severity finding found h p = let e : found ≡ [] = cc in rw e tt
  found_if-All true severity finding found h p =
      let (s, valid, one) =
        bind-cases (severity_from_string severity) (λ s. some (finding s ∷ [])) found h in
      let e : found ≡ finding s ∷ [] = cc in rw e (p s refl, tt)

and-left : (a b : Bool) → (a && b) ≡ true → a ≡ true
and-left a b h = ground (arith, h)

module _ (config : ProcessFindingConfig) (node : ProcessNode) (parent : Option ProcessNode) where
  -- A rule of the engine stays enabled beside any custom rules.
  IsEnabled-more :
      (rules : List RuleDefinition) (id : Text) → IsEnabled config [] id → IsEnabled config rules id
  IsEnabled-more [] id h = h
  IsEnabled-more (rule ∷ rules) id h = inr (IsEnabled-more rules id h)

  All-more :
      (rule : RuleDefinition) (rules : List RuleDefinition) (found : List ProcessFinding)
      → All (IsJustified config rules node) found
      → All (IsJustified config (rule ∷ rules) node) found
  All-more rule rules [] p = tt
  All-more rule rules (f ∷ found) p = (
    record {
      subject = p.0.subject;
      parent = p.0.parent;
      version = p.0.version;
      enabled = inr p.0.enabled;
    },
    All-more rule rules found p.1,
  )

  transient-All :
      (rules : List RuleDefinition) (found : List ProcessFinding)
      → transient_finding config.ruleset_version node parent config ≡ some found
      → All (IsJustified config rules node) found
  unfolding transient_finding
  transient-All rules found h =
      found_if-All (IsJustified config rules node)
        (config.transient_path_enabled && is_transient_path node.executable_path config)
        config.transient_path_severity (transient_of config.ruleset_version node parent) found h
        (λ s test. record {
          subject = refl;
          parent = refl;
          version = refl;
          enabled = IsEnabled-more rules _ (inl (refl, and-left _ _ test));
        })

  shell-All :
      (rules : List RuleDefinition) (found : List ProcessFinding)
      → shell_finding config.ruleset_version node parent config ≡ some found
      → All (IsJustified config rules node) found
  unfolding shell_finding
  shell-All rules found h =
      found_if-All (IsJustified config rules node)
        (config.unexpected_shell_enabled
          && odd_shell config.shell_names config.expected_shell_parent_names node parent)
        config.unexpected_shell_severity (shell_of config.ruleset_version node parent) found h
        (λ s test. record {
          subject = refl;
          parent = refl;
          version = refl;
          enabled = IsEnabled-more rules _ (inr (inl (refl, and-left _ _ test)));
        })

  elevation-All :
      (rules : List RuleDefinition) (found : List ProcessFinding)
      → elevation_finding config.ruleset_version node parent config ≡ some found
      → All (IsJustified config rules node) found
  unfolding elevation_finding
  elevation-All rules found h =
      found_if-All (IsJustified config rules node)
        (config.unexpected_elevation_enabled
          && odd_elevation config.expected_elevation_parent_names node parent)
        config.unexpected_elevation_severity (elevation_of config.ruleset_version node parent) found
        h
        (λ s test. record {
          subject = refl;
          parent = refl;
          version = refl;
          enabled = IsEnabled-more rules _ (inr (inr (refl, and-left _ _ test)));
        })

  module _ (rule : RuleDefinition) (rules : List RuleDefinition) (found : List ProcessFinding)
      (enabled : rule.enabled ≡ true) where
    abbrev IsCustom : ProcessFinding → Type 0
    IsCustom = IsJustified config (rule ∷ rules) node

    custom_transient-All :
        custom_transient config.ruleset_version node parent rule ≡ some found → All IsCustom found
    unfolding custom_transient
    custom_transient-All h =
        let (prefixes, given, h') =
          bind-cases (string_list rule (bytes "path_prefixes"))
            (λ prefixes. string_list rule (bytes "path_substrings") >>= λ substrings.
              found_if
                (path_matches node.executable_path (normalized_values prefixes)
                  (normalized_values substrings))
                rule.severity (custom_transient_of config.ruleset_version node parent rule))
            found h in
        let (substrings, given', h'') =
          bind-cases (string_list rule (bytes "path_substrings"))
            (λ substrings.
              found_if
                (path_matches node.executable_path (normalized_values prefixes)
                  (normalized_values substrings))
                rule.severity (custom_transient_of config.ruleset_version node parent rule))
            found h' in
        found_if-All IsCustom
          (path_matches node.executable_path (normalized_values prefixes)
            (normalized_values substrings))
          rule.severity (custom_transient_of config.ruleset_version node parent rule) found h''
          (λ s test. record {
            subject = refl;
            parent = refl;
            version = refl;
            enabled = inl (refl, enabled);
          })

    custom_shell-All :
        custom_shell config.ruleset_version node parent rule ≡ some found → All IsCustom found
    unfolding custom_shell
    custom_shell-All h =
        let (shells, given, h') =
          bind-cases (string_list rule (bytes "shell_names"))
            (λ shells. string_list rule (bytes "expected_parent_names") >>= λ parents.
              found_if
                (odd_shell (normalized_values shells) (normalized_values parents) node parent)
                rule.severity (custom_shell_of config.ruleset_version node parent rule))
            found h in
        let (parents, given', h'') =
          bind-cases (string_list rule (bytes "expected_parent_names"))
            (λ parents.
              found_if
                (odd_shell (normalized_values shells) (normalized_values parents) node parent)
                rule.severity (custom_shell_of config.ruleset_version node parent rule))
            found h' in
        found_if-All IsCustom
          (odd_shell (normalized_values shells) (normalized_values parents) node parent)
          rule.severity (custom_shell_of config.ruleset_version node parent rule) found h''
          (λ s test. record {
            subject = refl;
            parent = refl;
            version = refl;
            enabled = inl (refl, enabled);
          })

    custom_elevation-All :
        custom_elevation config.ruleset_version node parent rule ≡ some found → All IsCustom found
    unfolding custom_elevation
    custom_elevation-All h =
        let (expected, given, h') =
          bind-cases (string_list rule (bytes "expected_parent_names"))
            (λ expected.
              found_if (odd_elevation (normalized_values expected) node parent) rule.severity
                (custom_elevation_of config.ruleset_version node parent rule))
            found h in
        found_if-All IsCustom (odd_elevation (normalized_values expected) node parent) rule.severity
          (custom_elevation_of config.ruleset_version node parent rule) found h'
          (λ s test. record {
            subject = refl;
            parent = refl;
            version = refl;
            enabled = inl (refl, enabled);
          })

    custom_finding-All :
        custom_finding config.ruleset_version node parent rule ≡ some found → All IsCustom found
    unfolding custom_finding
    custom_finding-All h = elim (Bool-cases (rule.engine_rule_id == bytes "PROC-001")) [
      | inl one ↦ custom_transient-All (rw (one, custom_finding) at h)
      | inr not_one ↦ elim (Bool-cases (rule.engine_rule_id == bytes "PROC-002")) [
        | inl two ↦ custom_shell-All (rw (two) at (rw (not_one, custom_finding) at h))
        | inr not_two ↦ elim (Bool-cases (rule.engine_rule_id == bytes "PROC-003")) [
          | inl three ↦
              custom_elevation-All (rw three at (rw not_two at (rw (not_one, custom_finding) at h)))
          | inr not_three ↦
              let e : found ≡ [] =
                cc (rw not_three at (rw not_two at (rw (not_one, custom_finding) at h))) in
              rw e tt
        ]
      ]
    ]

  customs-All :
      (rules : List RuleDefinition) (found : List ProcessFinding)
      → custom_findings config.ruleset_version node parent rules ≡ some found
      → All (IsJustified config rules node) found
  unfolding custom_findings
  customs-All [] found h = let e : found ≡ [] = cc in rw e tt
  customs-All (rule ∷ rules) found h = elim (Bool-cases rule.enabled) [
    | inr disabled ↦
        All-more rule rules found (customs-All rules found (rw (disabled, custom_findings) at h))
    | inl enabled ↦
        let version = config.ruleset_version in
        let (first, here, h') =
          bind-cases (custom_finding version node parent rule)
            (λ first. custom_findings version node parent rules >>= λ later. some (first ++ later))
            found (rw (enabled, custom_findings) at h) in
        let (later, there, h'') =
          bind-cases (custom_findings version node parent rules) (λ later. some (first ++ later))
            found h' in
        let e : found ≡ first ++ later = cc in
        rw e (
          All-append _ first later (custom_finding-All rule rules first enabled here)
            (All-more rule rules later (customs-All rules later there)))
  ]

-- Where the evaluation of a process does not throw, each of its findings is about this process and its
-- parent, has the version of the rules, and names a rule of the engine or a custom one that is
-- enabled.
pub evaluate_node-IsJustified :
    (config : ProcessFindingConfig) (rules : List RuleDefinition) (node : ProcessNode)
    (nodes : List ProcessNode) (found : List ProcessFinding)
    → evaluate_node config rules node nodes ≡ some found
    → All (IsJustified config rules node) found
unfolding evaluate_node
evaluate_node-IsJustified config rules node nodes found h =
    let parent = parent_node node nodes in
    let version = config.ruleset_version in
    let (a, ha, h1) =
      bind-cases (transient_finding version node parent config)
        (λ a. shell_finding version node parent config >>= λ b.
          elevation_finding version node parent config >>= λ c.
          custom_findings version node parent rules >>= λ d. some (a ++ b ++ c ++ d))
        found h in
    let (b, hb, h2) =
      bind-cases (shell_finding version node parent config)
        (λ b. elevation_finding version node parent config >>= λ c.
          custom_findings version node parent rules >>= λ d. some (a ++ b ++ c ++ d))
        found h1 in
    let (c, hc, h3) =
      bind-cases (elevation_finding version node parent config)
        (λ c. custom_findings version node parent rules >>= λ d. some (a ++ b ++ c ++ d)) found
        h2 in
    let (d, hd, h4) =
      bind-cases (custom_findings version node parent rules) (λ d. some (a ++ b ++ c ++ d)) found
        h3 in
    let e : found ≡ a ++ b ++ c ++ d = cc in
    let P = IsJustified config rules node in
    rw e (
      All-append P (a ++ b ++ c) d
        (All-append P (a ++ b) c
          (All-append P a b (transient-All config node parent rules a ha)
            (shell-All config node parent rules b hb))
          (elevation-All config node parent rules c hc))
        (customs-All config node parent rules d hd))
