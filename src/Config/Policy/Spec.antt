-- ===== src/Config/Policy/Spec.antt =====
-- What it is for settings to comply with an org policy (internal/config/policy.go, admin.go), said
-- without reference to how violations are collected.
use repositories_settings.Base.{
  ◌≡◌, ◌≤◌, String, ◌==◌, true, false, ◌||◌, Option, none, some, List, [], ◌∷◌, All, contains,
  or_keep, is_empty, length, codes, equal_fold, if◌then◌else◌,
}
use repositories_settings.Base.Int.{ℤ, pos, ◌≤ℤ◌}
use repositories_settings.Value.{lookup_field}
use repositories_settings.Config.Schema.{
  Settings, RepoConfig, SecurityConfig, TeamPermission, TeamAccess, Ruleset, RulesetRule,
  RulesetsConfig, TeamsConfig, EnvironmentsConfig, Environment, items,
}
use repositories_settings.Config.Admin.{
  AdminPolicy, PolicyRepo, PolicyRulesets, PolicyTeams, PolicyTeamConstraint,
  PolicyTeamPermissionByPattern, PolicySecurity, PolicyActions, PolicyEnvironments,
}
use repositories_settings.Config.Suborg.{glob_match, matched, Compiles}
use repositories_settings.Config.Policy.Inputs.{
  Runtime, perm_rank, repo_field_set, bool_fields_false, read_int,
}
use repositories_settings.Config.Policy.Report.{section_of, is_on}
use repositories_settings.Config.Policy.{min_reviewers}
use repositories_settings.Config.Policy.Rules.{Both, On, IsAllowed}

-- A field that the repository sets is not locked.
abbrev pub RespectsLocks : PolicyRepo → RepoConfig → Type 0
RespectsLocks q r =
    (f : String) → contains (items q.locked) f ≡ true → contains (repo_field_set r) f ≡ false

-- Where overrides are listed, a field that the repository sets is listed, or is locked.
abbrev pub RespectsOverrides : PolicyRepo → RepoConfig → Type 0
RespectsOverrides q r =
    is_empty (items q.allowed_overrides) ≡ false
    → (f : String) → contains (repo_field_set r) f ≡ true
    → (contains (items q.allowed_overrides) f || contains (items q.locked) f) ≡ true

abbrev pub AtLeast : ℤ → Option ℤ → Type 0
AtLeast min none = Unit
AtLeast min (some n) = min ≤ℤ n

-- Every pull_request rule that states a number of approvers asks for the minimum.
abbrev pub EnoughApprovers : ℤ → RulesetsConfig → Type 0
EnoughApprovers min cfg =
    All
      (λ (r : Ruleset).
        All
          (λ (rule : RulesetRule).
            (rule.type == "pull_request") ≡ true
            → AtLeast min
                (read_int (lookup_field "required_approving_review_count" rule.parameters)))
          (items r.rules))
      (items cfg.rulesets)

-- No team has more than the ceiling.
abbrev pub WithinCeiling : TeamPermission → TeamsConfig → Type 0
WithinCeiling top cfg =
    All (λ (t : TeamAccess). perm_rank t.permission ≤ perm_rank top) (items cfg.teams)

-- The permission in the last entry of a team.
abbrev pub last_permission : List TeamAccess → String → Option TeamPermission
last_permission [] slug = none
last_permission (t ∷ ts) slug =
    or_keep (last_permission ts slug) (if t.slug == slug then some t.permission else none)

abbrev pub HasRank : TeamPermission → Option TeamPermission → Type 0
HasRank min none = ⊥
HasRank min (some actual) = perm_rank min ≤ perm_rank actual

-- Every required team is there with its permission.
abbrev pub HasTeams : List PolicyTeamConstraint → TeamsConfig → Type 0
HasTeams reqs cfg =
    All
      (λ (q : PolicyTeamConstraint).
        HasRank q.min_permission (last_permission (items cfg.teams) q.slug))
      reqs

-- No security setting is turned off where the policy locks them.
abbrev pub KeepsSecurity : PolicySecurity → SecurityConfig → Type 0
KeepsSecurity q s = is_on q.locked ≡ true → (k : String) → contains (bool_fields_false s) k ≡ false

-- Every production environment has the reviewers that the policy asks for.
abbrev pub EnoughReviewers : PolicyEnvironments → EnvironmentsConfig → Type 0
EnoughReviewers q cfg =
    is_on q.production_requires_reviewers ≡ true
    → All
        (λ (e : Environment).
          equal_fold (codes e.name) (codes "production") ≡ true
          → min_reviewers q.production_min_reviewers ≤ℤ pos (length (items e.reviewers)))
        (items cfg.environments)

module _ (rt : Runtime) where
  open rt use {regexp_match}

  -- Where a team matches a pattern of the policy, its permission is one that the pattern allows.
  abbrev pub RespectsPatterns : List PolicyTeamPermissionByPattern → TeamsConfig → Type 0
  RespectsPatterns rules cfg =
      All
        (λ (t : TeamAccess).
          All
            (λ (rule : PolicyTeamPermissionByPattern).
              matched (glob_match regexp_match t.slug rule.pattern_text) ≡ true
              → contains (items rule.allowed_permissions) t.permission ≡ true)
            rules)
        (items cfg.teams)

  -- MustCompile accepts every pattern of the policy.
  abbrev pub PatternsCompile : AdminPolicy → Type 0
  PatternsCompile p =
      On
        (λ (q : PolicyTeams).
          All (λ (rule : PolicyTeamPermissionByPattern). Compiles regexp_match rule.pattern_text)
            (items q.permission_by_pattern))
        p.teams

  module _ (resolved repo_cfg : Option Settings) where
    abbrev pub RulesetsComply : PolicyRulesets → Type 0
    RulesetsComply q =
        IsAllowed q.allow_repo_level (section_of (λ s. s.rulesets) repo_cfg)
        × Both EnoughApprovers q.min_required_approvers (section_of (λ s. s.rulesets) resolved)

    abbrev pub TeamsComply : PolicyTeams → Type 0
    TeamsComply q =
        let teams = section_of (λ s. s.teams) resolved in
        IsAllowed q.allow_repo_level (section_of (λ s. s.teams) repo_cfg)
        × (Both WithinCeiling q.max_permission teams
            × (Both HasTeams (some (items q.required_teams)) teams
                × Both RespectsPatterns (some (items q.permission_by_pattern)) teams))

    abbrev pub EnvironmentsComply : PolicyEnvironments → Type 0
    EnvironmentsComply q =
        IsAllowed q.allow_repo_level (section_of (λ s. s.environments) repo_cfg)
        × Both EnoughReviewers (some q) (section_of (λ s. s.environments) resolved)

    abbrev pub ActionsComply : PolicyActions → Type 0
    ActionsComply q = IsAllowed q.allow_repo_level (section_of (λ s. s.actions) repo_cfg)

    -- What it is for settings to comply with a policy, section by section.
    abbrev pub Complies : AdminPolicy → Type 0
    Complies p =
        let repo = section_of (λ s. s.repo) repo_cfg in
        Both RespectsLocks p.repo repo
        × (Both RespectsOverrides p.repo repo
            × (On RulesetsComply p.rulesets
                × (On TeamsComply p.teams
                    × (Both KeepsSecurity p.security (section_of (λ s. s.security) repo_cfg)
                        × (On ActionsComply p.actions × On EnvironmentsComply p.environments)))))
