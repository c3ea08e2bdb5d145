-- ===== src/Config/Policy/Repo.antt =====
-- internal/config/policy.go: the locks and the allowed overrides of repository fields, and the
-- approvers that rulesets must ask for.
use repositories_settings.Base.{
  ◌==◌, ◌&&◌, not, Option, none, some, List, [], ◌∷◌, ◌++◌, concat, contains, is_some, is_empty,
  if◌then◌else◌,
}
use repositories_settings.Base.Int.{ℤ, ltb_ℤ}
use repositories_settings.Value.{lookup_field}
use repositories_settings.Config.Schema.{
  Settings, RepoConfig, PolicyViolation, Ruleset, RulesetRule, RulesetsConfig, items,
}
use repositories_settings.Config.Admin.{PolicyRepo, PolicyRulesets}
use repositories_settings.Config.Policy.Inputs.{Runtime, repo_field_set, read_int}
use repositories_settings.Config.Policy.Report.{
  section_of, report_if, each, violation, on_both, repo_level,
}

module _ (rt : Runtime) where
  open rt use {quote, decimal, range, regexp_match}

  -- Repo locks
  unfoldable pub repo_locks : PolicyRepo → RepoConfig → List PolicyViolation
  unfolding each
  repo_locks p r =
      each
        (λ f. report_if (contains (repo_field_set r) f) (
          violation (concat ("repository." ∷ f ∷ []))
            (concat ("Field " ∷ quote f ∷ " is locked by org policy and cannot be overridden" ∷ []))
            "repo.locked"))
        (items p.locked)

  -- Repo allowed overrides
  unfoldable pub repo_overrides : PolicyRepo → RepoConfig → List PolicyViolation
  unfolding each
  repo_overrides p r =
      if is_empty (items p.allowed_overrides)
      then []
      else each
          (λ f.
            report_if
              (not (contains (items p.allowed_overrides) f) && not (contains (items p.locked) f))
              (violation (concat ("repository." ∷ f ∷ []))
                (concat ("Field " ∷ quote f ∷ " is not in the allowed overrides list" ∷ []))
                "repo.allowed_overrides"))
          (range (repo_field_set r))

  unfoldable pub rule_approvers : ℤ → Ruleset → RulesetRule → List PolicyViolation
  unfolding each
  rule_approvers min r rule =
      if rule.type == "pull_request"
      then elim (read_int (lookup_field "required_approving_review_count" rule.parameters)) [
        | none ↦ []
        | some cnt ↦ report_if (ltb_ℤ cnt min) (
            violation
              (concat
                ("rulesets." ∷ r.name ∷ ".rules.pull_request.required_approving_review_count" ∷ []))
              (concat (
                "Required approvers ("
                ∷ decimal cnt
                ∷ ") is below org minimum ("
                ∷ decimal min
                ∷ ")"
                ∷ []))
              "rulesets.min_required_approvers")
      ]
      else []

  unfoldable pub min_approvers : ℤ → RulesetsConfig → List PolicyViolation
  unfolding each rule_approvers
  min_approvers min cfg =
      each (λ r. each (rule_approvers min r) (items r.rules)) (items cfg.rulesets)

  unfoldable pub rulesets_policy :
      PolicyRulesets → Option Settings → Option Settings → List PolicyViolation
  unfolding repo_level min_approvers
  rulesets_policy p resolved repo_cfg =
      repo_level p.allow_repo_level (is_some (section_of (λ s. s.rulesets) repo_cfg)) "rulesets"
        "Repo-level rulesets are not allowed by org policy"
      ++ on_both min_approvers p.min_required_approvers (section_of (λ s. s.rulesets) resolved)
