-- ===== src/Config/Policy/Teams.antt =====
-- internal/config/policy.go: the policy on teams.
use repositories_settings.Base.{
  String, ◌&&◌, not, Option, none, some, List, [], ◌∷◌, ◌++◌, concat, join, contains, insert,
  lookup, is_some, ltb,
}
use repositories_settings.Config.Schema.{
  Settings, PolicyViolation, TeamPermission, TeamAccess, TeamsConfig, items,
}
use repositories_settings.Config.Admin.{
  PolicyTeams, PolicyTeamConstraint, PolicyTeamPermissionByPattern,
}
use repositories_settings.Config.Suborg.{glob_match, matched}
use repositories_settings.Config.Policy.Inputs.{Runtime, perm_rank}
use repositories_settings.Config.Policy.Report.{
  section_of, report_if, each, violation, on_both, repo_level,
}

-- `perms[t.Slug] = t.Permission` for every team: the last entry of a slug counts.
unfoldable pub permissions :
    List TeamAccess → List (String × TeamPermission) → List (String × TeamPermission)
permissions [] perms = perms
permissions (t ∷ ts) perms = permissions ts (insert t.slug t.permission perms)

module _ (rt : Runtime) where
  open rt use {quote, decimal, range, regexp_match}

  unfoldable pub max_permission : TeamPermission → TeamsConfig → List PolicyViolation
  unfolding each
  max_permission top cfg =
      each
        (λ t. report_if (ltb (perm_rank top) (perm_rank t.permission)) (
          violation (concat ("teams." ∷ t.slug ∷ ".permission" ∷ []))
            (concat (
              "Team "
              ∷ quote t.slug
              ∷ " has permission "
              ∷ quote t.permission
              ∷ " which exceeds max "
              ∷ quote top
              ∷ []))
            "teams.max_permission"))
        (items cfg.teams)

  unfoldable pub required_team :
      List (String × TeamPermission) → PolicyTeamConstraint → List PolicyViolation
  required_team perms req = elim (lookup req.slug perms) [
    | none ↦
        violation (concat ("teams." ∷ req.slug ∷ []))
          (concat ("Required team " ∷ quote req.slug ∷ " is missing" ∷ [])) "teams.required_teams"
        ∷ []
    | some actual ↦ report_if (ltb (perm_rank actual) (perm_rank req.min_permission)) (
        violation (concat ("teams." ∷ req.slug ∷ ".permission" ∷ []))
          (concat (
            "Required team "
            ∷ quote req.slug
            ∷ " has "
            ∷ quote actual
            ∷ " but needs at least "
            ∷ quote req.min_permission
            ∷ []))
          "teams.required_teams")
  ]

  unfoldable pub required_teams : List PolicyTeamConstraint → TeamsConfig → List PolicyViolation
  unfolding each required_team permissions
  required_teams reqs cfg = each (required_team (permissions (items cfg.teams) [])) reqs

  unfoldable pub pattern_rule : TeamAccess → PolicyTeamPermissionByPattern → List PolicyViolation
  pattern_rule t rule =
      report_if
        (matched (glob_match regexp_match t.slug rule.pattern_text)
          && not (contains (items rule.allowed_permissions) t.permission))
        (violation (concat ("teams." ∷ t.slug ∷ ".permission" ∷ []))
          (concat (
            "Team "
            ∷ quote t.slug
            ∷ " matches pattern "
            ∷ quote rule.pattern_text
            ∷ " and has permission "
            ∷ quote t.permission
            ∷ " which is not in ["
            ∷ join ", " (items rule.allowed_permissions)
            ∷ "]"
            ∷ []))
          "teams.permission_by_pattern")

  unfoldable pub permission_by_pattern :
      List PolicyTeamPermissionByPattern → TeamsConfig → List PolicyViolation
  unfolding each pattern_rule
  permission_by_pattern rules cfg = each (λ t. each (pattern_rule t) rules) (items cfg.teams)

  unfoldable pub teams_policy :
      PolicyTeams → Option Settings → Option Settings → List PolicyViolation
  unfolding repo_level max_permission required_teams permission_by_pattern
  teams_policy p resolved repo_cfg =
      let teams = section_of (λ s. s.teams) resolved in
      repo_level p.allow_repo_level (is_some (section_of (λ s. s.teams) repo_cfg)) "teams"
        "Repo-level team configuration is not allowed by org policy"
      ++ (on_both max_permission p.max_permission teams
          ++ (on_both required_teams (some (items p.required_teams)) teams
              ++ on_both permission_by_pattern (some (items p.permission_by_pattern)) teams))
