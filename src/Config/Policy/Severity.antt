-- ===== src/Config/Policy/Severity.antt =====
-- The severity of what `ValidatePolicy` of internal/config/policy.go reports.
use repositories_settings.Base.{
  ◌≡◌, refl, Bool, true, false, Option, none, some, List, [], ◌∷◌, ◌++◌, is_empty, lookup, ltb,
  String, ◌==◌, if◌then◌else◌,
}
use repositories_settings.Base.Int.{ℤ, ltb_ℤ}
use repositories_settings.Value.{lookup_field}
use repositories_settings.Config.Schema.{
  Settings, RepoConfig, SecurityConfig, RulesetsConfig, TeamsConfig, EnvironmentsConfig,
  PolicyViolation, TeamPermission, sev_error, items,
}
use repositories_settings.Config.Admin.{
  AdminPolicy, PolicyRepo, PolicyRulesets, PolicyTeams, PolicyTeamConstraint,
  PolicyTeamPermissionByPattern, PolicySecurity, PolicyEnvironments, is_zero,
}
use repositories_settings.Config.Policy.Inputs.{
  Runtime, perm_rank, repo_field_set, bool_fields_false, read_int,
}
use repositories_settings.Config.Policy.Report.{
  report_if, each, is_on, violation, on_both, on_policy, repo_level,
}
use repositories_settings.Config.Policy.Repo.{
  repo_locks, repo_overrides, rule_approvers, min_approvers, rulesets_policy,
}
use repositories_settings.Config.Policy.Teams.{
  permissions, max_permission, required_team, required_teams, pattern_rule, permission_by_pattern,
  teams_policy,
}
use repositories_settings.Config.Policy.{
  security_policy, production_reviewers, environments_policy, validate_policy,
}

pub data AreErrors : List PolicyViolation → Type 0 where
  nothing : AreErrors []
  error :
      {v : PolicyViolation} {vs : List PolicyViolation}
      → v.severity ≡ sev_error
      → AreErrors vs
      → AreErrors (v ∷ vs)

append-errors : {xs ys : List PolicyViolation} → AreErrors xs → AreErrors ys → AreErrors (xs ++ ys)
append-errors nothing k = k
append-errors (error e h) k = error e (append-errors h k)

report-errors :
    (b : Bool) (field message org_policy : String)
    → AreErrors (report_if b (violation field message org_policy))
report-errors true f m o = error refl nothing
report-errors false f m o = nothing

each-errors :
    {A : Type 0} (g : A → List PolicyViolation)
    → ((x : A) → AreErrors (g x))
    → (xs : List A) → AreErrors (each g xs)
unfolding each
each-errors g h [] = nothing
each-errors g h (x ∷ xs) = append-errors (h x) (each-errors g h xs)

if-errors :
    (b : Bool) {xs ys : List PolicyViolation}
    → AreErrors xs
    → AreErrors ys
    → AreErrors (if b then xs else ys)
if-errors true h k = h
if-errors false h k = k

both-errors :
    {A B : Type 0} (f : A → B → List PolicyViolation)
    → ((x : A) (y : B) → AreErrors (f x y))
    → (o : Option A) (q : Option B) → AreErrors (on_both f o q)
both-errors f h (some x) (some y) = h x y
both-errors f h (some x) none = nothing
both-errors f h none q = nothing

on-errors :
    {A : Type 0} (f : A → List PolicyViolation)
    → ((x : A) → AreErrors (f x))
    → (o : Option A) → AreErrors (on_policy f o)
on-errors f h (some x) = h x
on-errors f h none = nothing

level-errors :
    (allow : Option Bool) (b : Bool) (group message : String)
    → AreErrors (repo_level allow b group message)
unfolding repo_level
level-errors allow b group message = report-errors _ _ _ _

approvers-errors :
    (min : ℤ) (o : Option ℤ) (field org_policy : String) (message : ℤ → String)
    → AreErrors (elim o [
      | none ↦ []
      | some cnt ↦ report_if (ltb_ℤ cnt min) (violation field (message cnt) org_policy)
    ])
approvers-errors min none f o m = nothing
approvers-errors min (some cnt) f o m = report-errors _ _ _ _

required-errors :
    (o : Option String) (test : String → Bool) (f m p f' p' : String) (m' : String → String)
    → AreErrors (elim o [
      | none ↦ violation f m p ∷ []
      | some actual ↦ report_if (test actual) (violation f' (m' actual) p')
    ])
required-errors none test f m p f' p' m' = error refl nothing
required-errors (some a) test f m p f' p' m' = report-errors _ _ _ _

module _ (rt : Runtime) where
  locks-errors : (q : PolicyRepo) (r : RepoConfig) → AreErrors (repo_locks rt q r)
  unfolding repo_locks
  locks-errors q r = each-errors _ (λ f. report-errors _ _ _ _) (items q.locked)

  overrides-errors : (q : PolicyRepo) (r : RepoConfig) → AreErrors (repo_overrides rt q r)
  unfolding repo_overrides
  overrides-errors q r =
      if-errors (is_empty (items q.allowed_overrides)) nothing
        (each-errors _ (λ f. report-errors _ _ _ _) (rt.range (repo_field_set r)))

  min-errors : (min : ℤ) (cfg : RulesetsConfig) → AreErrors (min_approvers rt min cfg)
  unfolding min_approvers rule_approvers
  min-errors min cfg =
      each-errors _
        (λ r.
          each-errors _
            (λ rule.
              if-errors (rule.type == "pull_request")
                (approvers-errors min
                  (read_int (lookup_field "required_approving_review_count" rule.parameters)) _ _ _)
                nothing)
            (items r.rules))
        (items cfg.rulesets)

  ceiling-errors :
      (top : TeamPermission) (cfg : TeamsConfig) → AreErrors (max_permission rt top cfg)
  unfolding max_permission
  ceiling-errors top cfg = each-errors _ (λ t. report-errors _ _ _ _) (items cfg.teams)

  teams-errors :
      (reqs : List PolicyTeamConstraint) (cfg : TeamsConfig)
      → AreErrors (required_teams rt reqs cfg)
  unfolding required_teams required_team
  teams-errors reqs cfg =
      each-errors _
        (λ q.
          required-errors (lookup q.slug (permissions (items cfg.teams) []))
            (λ actual. ltb (perm_rank actual) (perm_rank q.min_permission)) _ _ _ _ _ _)
        reqs

  patterns-errors :
      (rules : List PolicyTeamPermissionByPattern) (cfg : TeamsConfig)
      → AreErrors (permission_by_pattern rt rules cfg)
  unfolding permission_by_pattern pattern_rule
  patterns-errors rules cfg =
      each-errors _ (λ t. each-errors _ (λ rule. report-errors _ _ _ _) rules) (items cfg.teams)

  security-errors : (q : PolicySecurity) (s : SecurityConfig) → AreErrors (security_policy rt q s)
  unfolding security_policy
  security-errors q s =
      if-errors (is_on q.locked)
        (each-errors _ (λ k. error refl nothing) (rt.range (bool_fields_false s))) nothing

  reviewers-errors :
      (q : PolicyEnvironments) (cfg : EnvironmentsConfig)
      → AreErrors (production_reviewers rt q cfg)
  unfolding production_reviewers
  reviewers-errors q cfg =
      if-errors (is_on q.production_requires_reviewers)
        (each-errors _ (λ e. report-errors _ _ _ _) (items cfg.environments)) nothing

  module _ (resolved repo_cfg : Option Settings) where
    rulesets_policy-errors :
        (q : PolicyRulesets) → AreErrors (rulesets_policy rt q resolved repo_cfg)
    unfolding rulesets_policy
    rulesets_policy-errors q =
        append-errors (level-errors q.allow_repo_level _ _ _)
          (both-errors _ min-errors q.min_required_approvers _)

    teams_policy-errors : (q : PolicyTeams) → AreErrors (teams_policy rt q resolved repo_cfg)
    unfolding teams_policy
    teams_policy-errors q = append-errors (level-errors q.allow_repo_level _ _ _) (
        append-errors (both-errors _ ceiling-errors q.max_permission _) (
          append-errors (both-errors _ teams-errors (some (items q.required_teams)) _)
            (both-errors _ patterns-errors (some (items q.permission_by_pattern)) _)))

    environments_policy-errors :
        (q : PolicyEnvironments) → AreErrors (environments_policy rt q resolved repo_cfg)
    unfolding environments_policy
    environments_policy-errors q =
        append-errors (level-errors q.allow_repo_level _ _ _)
          (both-errors _ reviewers-errors (some q) _)

    -- Every reported violation is an error.
    pub validate_policy-errors :
        (p : AdminPolicy) → AreErrors (validate_policy rt resolved repo_cfg p)
    unfolding validate_policy
    validate_policy-errors p = if-errors (is_zero p) nothing (
        append-errors (both-errors _ locks-errors p.repo _) (
          append-errors (both-errors _ overrides-errors p.repo _) (
            append-errors (on-errors _ rulesets_policy-errors p.rulesets) (
              append-errors (on-errors _ teams_policy-errors p.teams) (
                append-errors (both-errors _ security-errors p.security _) (
                  append-errors (on-errors _ (λ q. level-errors q.allow_repo_level _ _ _) p.actions)
                    (on-errors _ environments_policy-errors p.environments)))))))
