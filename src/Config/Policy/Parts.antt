-- ===== src/Config/Policy/Parts.antt =====
-- Each part of the policy check of internal/config/policy.go against its part of Policy/Spec.
use repositories_settings.Base.{
  ◌≡◌, refl, ◌↔◌, ◌≤◌, String, ◌==◌, Bool, true, false, ◌&&◌, ◌||◌, not, Option, none, some, List,
  [], ◌∷◌, arith, All, contains, lookup, insert, lookup-insert, ltb, or_keep, sym, ◌∙◌, ℕ, is_some,
  is_empty, length, codes, equal_fold,
}
use repositories_settings.Base.Int.{ℤ, pos, ◌≤ℤ◌, ltb_ℤ}
use repositories_settings.Value.{lookup_field}
use repositories_settings.Config.Schema.{
  RepoConfig, SecurityConfig, PolicyViolation, TeamPermission, TeamAccess, Ruleset, RulesetRule,
  RulesetsConfig, TeamsConfig, EnvironmentsConfig, items,
}
use repositories_settings.Config.Admin.{
  PolicyRepo, PolicyTeamConstraint, PolicyTeamPermissionByPattern, PolicySecurity,
  PolicyEnvironments,
}
use repositories_settings.Config.Suborg.{glob_match, matched}
use repositories_settings.Config.Policy.Inputs.{
  Runtime, perm_rank, repo_field_set, bool_fields_false, read_int,
}
use repositories_settings.Config.Policy.Report.{report_if, is_on}
use repositories_settings.Config.Policy.Repo.{
  repo_locks, repo_overrides, rule_approvers, min_approvers,
}
use repositories_settings.Config.Policy.Teams.{
  permissions, max_permission, required_team, required_teams, pattern_rule, permission_by_pattern,
}
use repositories_settings.Config.Policy.{min_reviewers, security_policy, production_reviewers}
use repositories_settings.Config.Policy.Rules.{
  Both, On, report_if-eq-nil, each-eq-nil, if-then-eq-nil, if-else-eq-nil, one-eq-nil,
  All-of_contains, contains-All,
}
use repositories_settings.Config.Policy.Spec.{
  RespectsLocks, RespectsOverrides, AtLeast, EnoughApprovers, WithinCeiling, last_permission,
  HasRank, HasTeams, KeepsSecurity, EnoughReviewers, RespectsPatterns,
}

-- The tests that guard a violation, read as statements.
neither_iff : (a b : Bool) → ((not a && not b) ≡ false) ↔ ((a || b) ≡ true)
neither_iff a b = (λ e. ground arith, λ e. ground arith)

approvers_iff :
    (min : ℤ) (o : Option ℤ) (v : ℤ → PolicyViolation)
    → (elim o [ none ↦ [] | some cnt ↦ report_if (ltb_ℤ cnt min) (v cnt) ] ≡ []) ↔ AtLeast min o
approvers_iff min none v = (λ e. tt, λ e. refl)
approvers_iff min (some cnt) v = (λ e. ground arith, λ h. ground arith)

report_above :
    (top rank : ℕ) (v : PolicyViolation) → (report_if (ltb top rank) v ≡ []) ↔ (rank ≤ top)
report_above top rank v = (λ e. ground arith, λ h. ground arith)

report_unless :
    (a b : Bool) (v : PolicyViolation) → (report_if (a && not b) v ≡ []) ↔ (a ≡ true → b ≡ true)
report_unless true true v = (λ e h. refl, λ h. refl)
report_unless true false v = (λ e h. cc, λ h. cc (h refl))
report_unless false b v = (λ e h. cc, λ h. refl)

report_fewer :
    (a : Bool) (n min : ℤ) (v : PolicyViolation)
    → (report_if (a && ltb_ℤ n min) v ≡ []) ↔ (a ≡ true → min ≤ℤ n)
report_fewer true n min v = (λ e h. ground arith, λ h. ground (arith, h refl))
report_fewer false n min v = (λ e h. cc, λ h. refl)

required_iff :
    (min : TeamPermission) (o : Option TeamPermission) (missing : PolicyViolation)
    (below : TeamPermission → PolicyViolation)
    → (elim o [
      | none ↦ missing ∷ []
      | some actual ↦ report_if (ltb (perm_rank actual) (perm_rank min)) (below actual)
    ]
        ≡ [])
      ↔ HasRank min o
required_iff min none missing below = (λ e. cc, λ h. absurd h)
required_iff min (some actual) missing below = (λ e. ground arith, λ h. ground arith)

permissions_from :
    (k : String) (ts : List TeamAccess) (perms : List (String × TeamPermission))
    → lookup k (permissions ts perms) ≡ or_keep (last_permission ts k) (lookup k perms)
unfolding permissions
permissions_from k [] perms = refl
permissions_from k (t ∷ ts) perms = ground (
  arith,
  permissions_from k ts (insert t.slug t.permission perms),
  lookup-insert t.slug k t.permission perms,
)

permissions_lem :
    (k : String) (ts : List TeamAccess) → lookup k (permissions ts []) ≡ last_permission ts k
unfolding lookup
permissions_lem k ts = permissions_from k ts [] ∙ ground arith

not_contained :
    (k : String) (xs : List String) {b : Bool} → contains xs k ≡ b → All (λ _. ⊥) xs → b ≡ false
unfolding contains
not_contained k [] e h = sym e
not_contained k (x ∷ xs) e h = absurd h.0

pub On-absent : {A : Type 0} (P : A → Type 0) (o : Option A) → is_some o ≡ false → On P o
On-absent P none h = tt
On-absent P (some x) h = cc

pub Both-absent :
    {A B : Type 0} (P : A → B → Type 0) (o : Option A) (q : Option B)
    → is_some o ≡ false
    → Both P o q
Both-absent P none q h = tt
Both-absent P (some x) q h = cc

module _ (rt : Runtime) where
  open rt use {range, contains-range, regexp_match}

  pub repo_locks-eq-nil :
      (q : PolicyRepo) (r : RepoConfig) → (repo_locks rt q r ≡ []) ↔ RespectsLocks q r
  unfolding repo_locks
  repo_locks-eq-nil q r =
      let rule =
        each-eq-nil _ (λ f. contains (repo_field_set r) f ≡ false)
          (λ f. report_if-eq-nil (contains (repo_field_set r) f) _) (items q.locked) in
      (
        λ e f m. contains-All _ (items q.locked) f (rule.0 e) m,
        λ h. rule.1 (All-of_contains _ (items q.locked) h),
      )

  pub repo_overrides-eq-nil :
      (q : PolicyRepo) (r : RepoConfig) → (repo_overrides rt q r ≡ []) ↔ RespectsOverrides q r
  unfolding repo_overrides
  repo_overrides-eq-nil q r =
      let a : String → Bool = contains (items q.allowed_overrides) in
      let l : String → Bool = contains (items q.locked) in
      let rule =
        each-eq-nil _ (λ f. (a f || l f) ≡ true)
          (λ f. (
            λ e. (neither_iff (a f) (l f)).0 ((report_if-eq-nil (not (a f) && not (l f)) _).0 e),
            λ e. (report_if-eq-nil (not (a f) && not (l f)) _).1 ((neither_iff (a f) (l f)).1 e),
          ))
          (range (repo_field_set r)) in
      if-else-eq-nil (is_empty (items q.allowed_overrides)) _ (
        λ e f m. contains-All _ (range (repo_field_set r)) f (rule.0 e) (contains-range _ f ∙ m),
        λ h. rule.1 (
            All-of_contains _ (range (repo_field_set r))
              (λ f m. h f (sym (contains-range _ f) ∙ m))),
      )

  pub rule_approvers-eq-nil :
      (min : ℤ) (r : Ruleset) (rule : RulesetRule)
      → (rule_approvers rt min r rule ≡ []) ↔ (
          (rule.type == "pull_request") ≡ true
          → AtLeast min (read_int (lookup_field "required_approving_review_count" rule.parameters)))
  unfolding rule_approvers
  rule_approvers-eq-nil min r rule = if-then-eq-nil (rule.type == "pull_request") _ (
      approvers_iff min (read_int (lookup_field "required_approving_review_count" rule.parameters))
        _)

  pub min_approvers-eq-nil :
      (min : ℤ) (cfg : RulesetsConfig) → (min_approvers rt min cfg ≡ []) ↔ EnoughApprovers min cfg
  unfolding min_approvers
  min_approvers-eq-nil min cfg =
      each-eq-nil _ _
        (λ r. each-eq-nil _ _ (λ rule. rule_approvers-eq-nil min r rule) (items r.rules))
        (items cfg.rulesets)

  pub max_permission-eq-nil :
      (top : TeamPermission) (cfg : TeamsConfig)
      → (max_permission rt top cfg ≡ []) ↔ WithinCeiling top cfg
  unfolding max_permission
  max_permission-eq-nil top cfg =
      each-eq-nil _ _ (λ t. report_above (perm_rank top) (perm_rank t.permission) _)
        (items cfg.teams)

  pub required_team-eq-nil :
      (ts : List TeamAccess) (q : PolicyTeamConstraint)
      → (required_team rt (permissions ts []) q ≡ [])
        ↔ HasRank q.min_permission (last_permission ts q.slug)
  unfolding required_team
  required_team-eq-nil ts q =
      let e : lookup q.slug (permissions ts []) ≡ last_permission ts q.slug =
        permissions_lem q.slug ts in
      rw (e, required_team) (required_iff q.min_permission (last_permission ts q.slug) _ _)

  pub required_teams-eq-nil :
      (reqs : List PolicyTeamConstraint) (cfg : TeamsConfig)
      → (required_teams rt reqs cfg ≡ []) ↔ HasTeams reqs cfg
  unfolding required_teams
  required_teams-eq-nil reqs cfg = each-eq-nil _ _ (required_team-eq-nil (items cfg.teams)) reqs

  pub permission_by_pattern-eq-nil :
      (rules : List PolicyTeamPermissionByPattern) (cfg : TeamsConfig)
      → (permission_by_pattern rt rules cfg ≡ []) ↔ RespectsPatterns rt rules cfg
  unfolding permission_by_pattern pattern_rule
  permission_by_pattern-eq-nil rules cfg =
      each-eq-nil _ _
        (λ t.
          each-eq-nil _ _
            (λ rule.
              report_unless (matched (glob_match regexp_match t.slug rule.pattern_text))
                (contains (items rule.allowed_permissions) t.permission) _)
            rules)
        (items cfg.teams)

  pub security_policy-eq-nil :
      (q : PolicySecurity) (s : SecurityConfig) → (security_policy rt q s ≡ []) ↔ KeepsSecurity q s
  unfolding security_policy
  security_policy-eq-nil q s =
      let off = bool_fields_false s in
      let rule = each-eq-nil _ (λ _. ⊥) (λ k. one-eq-nil _) (range off) in
      if-then-eq-nil (is_on q.locked) _ (
        λ e k. not_contained k (range off) (contains-range off k) (rule.0 e),
        λ h.
            rule.1
              (All-of_contains (λ _. ⊥) (range off) (λ k m. cc (h k, contains-range off k, m))),
      )

  pub production_reviewers-eq-nil :
      (q : PolicyEnvironments) (cfg : EnvironmentsConfig)
      → (production_reviewers rt q cfg ≡ []) ↔ EnoughReviewers q cfg
  unfolding production_reviewers
  production_reviewers-eq-nil q cfg = if-then-eq-nil (is_on q.production_requires_reviewers) _ (
      each-eq-nil _ _
        (λ e.
          report_fewer (equal_fold (codes e.name) (codes "production"))
            (pos (length (items e.reviewers))) (min_reviewers q.production_min_reviewers) _)
        (items cfg.environments))
