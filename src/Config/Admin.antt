-- ===== src/Config/Admin.antt =====
-- internal/config/admin.go: the org-level policy.
use repositories_settings.Base.{Bool, ◌&&◌, not, String, Option, is_some}
use repositories_settings.Base.Int.{ℤ}
use repositories_settings.Config.Schema.{Slice, TeamPermission}

pub record PolicyRepo : Type 0 where
  pub allowed_overrides : Slice String
  pub locked : Slice String

pub record PolicyRulesets : Type 0 where
  pub allow_repo_level : Option Bool
  pub min_required_approvers : Option ℤ

pub record PolicyTeamConstraint : Type 0 where
  pub slug : String
  pub min_permission : TeamPermission

pub record PolicyTeamPermissionByPattern : Type 0 where
  pub pattern_text : String
  pub allowed_permissions : Slice TeamPermission

pub record PolicyTeams : Type 0 where
  pub allow_repo_level : Option Bool
  pub max_permission : Option TeamPermission
  pub required_teams : Slice PolicyTeamConstraint
  pub permission_by_pattern : Slice PolicyTeamPermissionByPattern

pub record PolicySecurity : Type 0 where
  pub locked : Option Bool

pub record PolicyActions : Type 0 where
  pub allow_repo_level : Option Bool

pub record PolicyEnvironments : Type 0 where
  pub allow_repo_level : Option Bool
  pub production_requires_reviewers : Option Bool
  pub production_min_reviewers : Option ℤ

pub record AdminPolicy : Type 0 where
  pub repo : Option PolicyRepo
  pub rulesets : Option PolicyRulesets
  pub teams : Option PolicyTeams
  pub security : Option PolicySecurity
  pub actions : Option PolicyActions
  pub environments : Option PolicyEnvironments

-- `p == (AdminPolicy{})`: every pointer is nil.
abbrev pub is_zero : AdminPolicy → Bool
is_zero p =
    not (is_some p.repo)
    && (not (is_some p.rulesets)
        && (not (is_some p.teams)
            && (not (is_some p.security)
                && (not (is_some p.actions) && not (is_some p.environments)))))
