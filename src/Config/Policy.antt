-- ===== src/Config/Policy.antt =====
-- internal/config/policy.go: the check of resolved settings against the org policy.
pub mod Inputs
pub mod Report
pub mod Repo
pub mod Teams
pub mod Rules
pub mod Spec
pub mod Parts
pub mod Compliance
pub mod Severity
use repositories_settings.Base.{
  Bool, ◌&&◌, Option, none, some, List, [], ◌∷◌, ◌++◌, concat, is_some, length, codes, equal_fold,
  if◌then◌else◌,
}
use repositories_settings.Base.Int.{ℤ, pos, ltb_ℤ}
use repositories_settings.Config.Schema.{
  Settings, SecurityConfig, PolicyViolation, EnvironmentsConfig, items,
}
use repositories_settings.Config.Admin.{AdminPolicy, PolicySecurity, PolicyEnvironments, is_zero}
use repositories_settings.Config.Policy.Inputs.{Runtime, bool_fields_false}
use repositories_settings.Config.Policy.Report.{
  section_of, report_if, each, is_on, violation, on_both, on_policy, repo_level,
}
use repositories_settings.Config.Policy.Repo.{repo_locks, repo_overrides, rulesets_policy}
use repositories_settings.Config.Policy.Teams.{teams_policy}

abbrev pub min_reviewers : Option ℤ → ℤ
min_reviewers none = pos 1
min_reviewers (some n) = n

module _ (rt : Runtime) where
  open rt use {quote, decimal, range, regexp_match}

  -- Security locked: a repository cannot turn a setting off
  unfoldable pub security_policy : PolicySecurity → SecurityConfig → List PolicyViolation
  unfolding each
  security_policy p s =
      if is_on p.locked
      then each
          (λ k.
            violation (concat ("security." ∷ k ∷ []))
              (concat (
                "Cannot disable " ∷ quote k ∷ " — security settings are locked by org policy" ∷ []))
              "security.locked"
            ∷ [])
          (range (bool_fields_false s))
      else []

  unfoldable pub production_reviewers :
      PolicyEnvironments → EnvironmentsConfig → List PolicyViolation
  unfolding each
  production_reviewers p cfg =
      let min = min_reviewers p.production_min_reviewers in
      if is_on p.production_requires_reviewers
      then each
          (λ e.
            report_if
              (equal_fold (codes e.name) (codes "production")
                && ltb_ℤ (pos (length (items e.reviewers))) min)
              (violation "environments.production.reviewers"
                (concat (
                  "Production environment requires at least "
                  ∷ decimal min
                  ∷ " reviewer(s), but has "
                  ∷ decimal (pos (length (items e.reviewers)))
                  ∷ []))
                "environments.production_requires_reviewers"))
          (items cfg.environments)
      else []

  unfoldable pub environments_policy :
      PolicyEnvironments → Option Settings → Option Settings → List PolicyViolation
  unfolding repo_level production_reviewers
  environments_policy p resolved repo_cfg =
      repo_level p.allow_repo_level (is_some (section_of (λ s. s.environments) repo_cfg))
        "environments" "Repo-level environment configuration is not allowed by org policy"
      ++ on_both production_reviewers (some p) (section_of (λ s. s.environments) resolved)

  unfoldable pub validate_policy :
      Option Settings → Option Settings → AdminPolicy → List PolicyViolation
  unfolding repo_locks repo_overrides rulesets_policy teams_policy security_policy
      environments_policy
  validate_policy resolved repo_cfg p =
      let repo = section_of (λ s. s.repo) repo_cfg in
      if is_zero p
      then []
      else on_both (repo_locks rt) p.repo repo
        ++ (on_both (repo_overrides rt) p.repo repo
            ++ (on_policy (λ q. rulesets_policy rt q resolved repo_cfg) p.rulesets
                ++ (on_policy (λ q. teams_policy rt q resolved repo_cfg) p.teams
                    ++ (on_both security_policy p.security (section_of (λ s. s.security) repo_cfg)
                        ++ (on_policy
                              (λ q.
                                repo_level q.allow_repo_level
                                  (is_some (section_of (λ s. s.actions) repo_cfg)) "actions"
                                  "Repo-level Actions configuration is not allowed by org policy")
                              p.actions
                            ++ on_policy (λ q. environments_policy q resolved repo_cfg)
                                p.environments)))))
