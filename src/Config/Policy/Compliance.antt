-- ===== src/Config/Policy/Compliance.antt =====
-- `ValidatePolicy` of internal/config/policy.go against the specification in Policy/Spec.
use repositories_settings.Base.{
  ◌≡◌, ◌↔◌, inl, inr, true, false, Option, some, [], arith, is_some, Bool-cases,
}
use repositories_settings.Config.Schema.{Settings, items}
use repositories_settings.Config.Admin.{
  AdminPolicy, PolicyRulesets, PolicyTeams, PolicyEnvironments, is_zero,
}
use repositories_settings.Config.Policy.Inputs.{Runtime}
use repositories_settings.Config.Policy.Report.{section_of}
use repositories_settings.Config.Policy.Repo.{rulesets_policy}
use repositories_settings.Config.Policy.Teams.{teams_policy}
use repositories_settings.Config.Policy.{environments_policy, validate_policy}
use repositories_settings.Config.Policy.Rules.{
  append-eq-nil_iff, on_both-eq-nil, on_policy-eq-nil, repo_level-eq-nil, if-else-eq-nil,
}
use repositories_settings.Config.Policy.Spec.{
  RespectsLocks, RespectsOverrides, KeepsSecurity, RulesetsComply, TeamsComply, EnvironmentsComply,
  ActionsComply, PatternsCompile, Complies,
}
use repositories_settings.Config.Policy.Parts.{
  repo_locks-eq-nil, repo_overrides-eq-nil, min_approvers-eq-nil, max_permission-eq-nil,
  required_teams-eq-nil, permission_by_pattern-eq-nil, security_policy-eq-nil,
  production_reviewers-eq-nil, On-absent, Both-absent,
}

module _ (rt : Runtime) where
  module _ (resolved repo_cfg : Option Settings) where
    rulesets_policy-eq-nil :
        (q : PolicyRulesets)
        → (rulesets_policy rt q resolved repo_cfg ≡ []) ↔ RulesetsComply rt resolved repo_cfg q
    unfolding rulesets_policy
    rulesets_policy-eq-nil q =
        append-eq-nil_iff _ _
          (repo_level-eq-nil q.allow_repo_level (section_of (λ s. s.rulesets) repo_cfg) _ _)
          (on_both-eq-nil _ _ (min_approvers-eq-nil rt) q.min_required_approvers _)

    teams_policy-eq-nil :
        (q : PolicyTeams)
        → (teams_policy rt q resolved repo_cfg ≡ []) ↔ TeamsComply rt resolved repo_cfg q
    unfolding teams_policy
    teams_policy-eq-nil q =
        append-eq-nil_iff _ _
          (repo_level-eq-nil q.allow_repo_level (section_of (λ s. s.teams) repo_cfg) _ _)
          (append-eq-nil_iff _ _ (on_both-eq-nil _ _ (max_permission-eq-nil rt) q.max_permission _)
            (append-eq-nil_iff _ _
              (on_both-eq-nil _ _ (required_teams-eq-nil rt) (some (items q.required_teams)) _)
              (on_both-eq-nil _ _ (permission_by_pattern-eq-nil rt)
                (some (items q.permission_by_pattern)) _)))

    environments_policy-eq-nil :
        (q : PolicyEnvironments)
        → (environments_policy rt q resolved repo_cfg ≡ [])
          ↔ EnvironmentsComply rt resolved repo_cfg q
    unfolding environments_policy
    environments_policy-eq-nil q =
        append-eq-nil_iff _ _
          (repo_level-eq-nil q.allow_repo_level (section_of (λ s. s.environments) repo_cfg) _ _)
          (on_both-eq-nil _ _ (production_reviewers-eq-nil rt) (some q) _)

    -- A policy with no section asks for nothing.
    Complies-zero : (p : AdminPolicy) → is_zero p ≡ true → Complies rt resolved repo_cfg p
    Complies-zero p z =
        let no_repo : is_some p.repo ≡ false = ground arith in
        (
          Both-absent RespectsLocks p.repo _ no_repo,
          (
            Both-absent RespectsOverrides p.repo _ no_repo,
            (
              On-absent (RulesetsComply rt resolved repo_cfg) p.rulesets (ground arith),
              (
                On-absent (TeamsComply rt resolved repo_cfg) p.teams (ground arith),
                (
                  Both-absent KeepsSecurity p.security _ (ground arith),
                  (
                    On-absent (ActionsComply rt resolved repo_cfg) p.actions (ground arith),
                    On-absent (EnvironmentsComply rt resolved repo_cfg) p.environments
                        (ground arith),
                  ),
                ),
              ),
            ),
          ),
        )

    -- Where every pattern of the policy compiles, the policy check reports no violation exactly when the
    -- settings comply with the policy.
    pub validate_policy-eq-nil :
        (p : AdminPolicy)
        → PatternsCompile rt p
        → (validate_policy rt resolved repo_cfg p ≡ []) ↔ Complies rt resolved repo_cfg p
    unfolding validate_policy
    validate_policy-eq-nil p compile =
        let repo = section_of (λ s. s.repo) repo_cfg in
        let parts = append-eq-nil_iff _ _ (on_both-eq-nil _ _ (repo_locks-eq-nil rt) p.repo repo) (
          append-eq-nil_iff _ _ (on_both-eq-nil _ _ (repo_overrides-eq-nil rt) p.repo repo) (
            append-eq-nil_iff _ _ (on_policy-eq-nil _ _ rulesets_policy-eq-nil p.rulesets) (
              append-eq-nil_iff _ _ (on_policy-eq-nil _ _ teams_policy-eq-nil p.teams) (
                append-eq-nil_iff _ _
                  (on_both-eq-nil _ _ (security_policy-eq-nil rt) p.security
                    (section_of (λ s. s.security) repo_cfg))
                  (append-eq-nil_iff _ _
                    (on_policy-eq-nil _ _
                      (λ q.
                        repo_level-eq-nil q.allow_repo_level (section_of (λ s. s.actions) repo_cfg)
                          _ _)
                      p.actions)
                    (on_policy-eq-nil _ _ environments_policy-eq-nil p.environments)))))) in
        let test = if-else-eq-nil (is_zero p) _ parts in
        (
          λ e. elim (Bool-cases (is_zero p)) [ inl z ↦ Complies-zero p z | inr z ↦ test.0 e z ],
          λ c. test.1 (λ _. c),
        )
