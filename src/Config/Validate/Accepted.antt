-- ===== src/Config/Validate/Accepted.antt =====
-- internal/config/validate.go: the accepted files of environments and teams, and the ranks of the policy
-- on accepted permissions.
use repositories_settings.Base.{
  ℕ, zero, suc, ◌≤◌, String, ◌==◌, ◌≡◌, ◌≢◌, ◌↔◌, refl, sym, ap, ◌∙◌, true, false, none, List, [],
  ◌∷◌, arith, subst, All, length, String-cases, inl, inr,
}
use repositories_settings.Base.Int.{pos}
use repositories_settings.Config.Schema.{items, Environment, TeamAccess}
use repositories_settings.Config.Files.{EnvironmentsFile, TeamsFile}
use repositories_settings.Config.Policy.Inputs.{Runtime, perm_rank}
use repositories_settings.Config.Validate.{is_valid_permission}
use repositories_settings.Config.Validate.Laws.{
  finalize-eq-none, both-eq-nil, each_at-eq-nil, require_version-eq-nil, IsGiven,
  at_least_one-eq-nil, add_if_iff, is_empty_text-eq-false, Within, outside-eq-false, not-eq-false,
  is_empty-eq-true, ltb-eq-false,
}
use repositories_settings.Config.Validate.Entries.{
  names_branches, environment_issues, validate_environments_file,
}
use repositories_settings.Config.Validate.Access.{team_issues, validate_teams_file}

-- An environment within the bounds that GitHub has, without a key that this service does not apply.
abbrev pub IsSound : Environment → Type 0
IsSound e =
    (((((e.name ≢ "") × Within 43200 e.wait_timer) × (length (items e.reviewers) ≤ 6))
        × (items e.variables ≡ []))
      × (items e.secrets ≡ []))
    × (names_branches e.deployment_branch_policy ≡ false)

iff_self : {P : Type 0} → P ↔ P
iff_self = (λ p. p, λ p. p)

module _ (rt : Runtime) where
  environment_issues-eq-nil :
      (i : ℕ) (e : Environment) → (environment_issues rt i e ≡ []) ↔ IsSound e
  environment_issues-eq-nil i e =
      let named = add_if_iff (e.name == "") _ (is_empty_text-eq-false e.name) in
      let timed = add_if_iff _ _ (outside-eq-false 43200 e.wait_timer) in
      let reviewed = add_if_iff _ _ (ltb-eq-false 6 (length (items e.reviewers))) in
      let no_variables = add_if_iff _ _ (is_empty-eq-true (items e.variables)) in
      let no_secrets = add_if_iff _ _ (is_empty-eq-true (items e.secrets)) in
      let no_names = add_if_iff (names_branches e.deployment_branch_policy) _ iff_self in
      both-eq-nil _ _
        (both-eq-nil _ _
          (both-eq-nil _ _ (both-eq-nil _ _ (both-eq-nil _ _ named timed) reviewed) no_variables)
          no_secrets)
        no_names

  -- environments.yml is accepted exactly when its version is 1, it lists an environment, and each has a
  -- name, a wait timer of 0 to 43200 minutes where one is set, at most six reviewers, and no variables,
  -- secrets or named branch policies.
  pub validate_environments_file-eq-none :
      (f : EnvironmentsFile)
      → (validate_environments_file rt f ≡ none) ↔ (
          ((f.version ≡ pos 1) × IsGiven (items f.environments))
          × All IsSound (items f.environments))
  unfolding validate_environments_file
  validate_environments_file-eq-none f =
      let ok = finalize-eq-none "environments.yml" _ in
      let parts =
        both-eq-nil _ _
          (both-eq-nil _ _ (require_version-eq-nil rt f.version)
            (at_least_one-eq-nil (items f.environments) _))
          (each_at-eq-nil (environment_issues rt) IsSound environment_issues-eq-nil 0
            (items f.environments)) in
      (λ e. parts.0 (ok.0 e), λ p. ok.1 (parts.1 p))

  -- A team of an accepted entry.
  abbrev pub IsGoodTeam : TeamAccess → Type 0
  IsGoodTeam t = (t.slug ≢ "") × (is_valid_permission t.permission ≡ true)

  team_issues-eq-nil : (i : ℕ) (t : TeamAccess) → (team_issues rt i t ≡ []) ↔ IsGoodTeam t
  team_issues-eq-nil i t =
      both-eq-nil _ _ (add_if_iff _ _ (is_empty_text-eq-false t.slug))
        (add_if_iff _ _ (not-eq-false (is_valid_permission t.permission)))

  validate_teams_file-inv :
      (f : TeamsFile) → validate_teams_file rt f ≡ none → All IsGoodTeam (items f.teams)
  unfolding validate_teams_file
  validate_teams_file-inv f e =
      let parts =
        both-eq-nil _ _
          (both-eq-nil _ _ (require_version-eq-nil rt f.version)
            (at_least_one-eq-nil (items f.teams) _))
          (each_at-eq-nil (team_issues rt) IsGoodTeam team_issues-eq-nil 0 (items f.teams)) in
      (parts.0 ((finalize-eq-none "teams.yml" _).0 e)).1

-- The permission of a rank.
abbrev permission_of : ℕ → String
permission_of zero = "pull"
permission_of (suc zero) = "triage"
permission_of (suc (suc zero)) = "push"
permission_of (suc (suc (suc zero))) = "maintain"
permission_of n = "admin"

permission_of-perm_rank :
    (p : String) → is_valid_permission p ≡ true → permission_of (perm_rank p) ≡ p
unfolding is_valid_permission perm_rank
permission_of-perm_rank p h = elim (String-cases p "pull") [
  | inl e ↦ subst (λ q. permission_of (perm_rank q) ≡ q) (sym e) refl
  | inr not_pull ↦ elim (String-cases p "triage") [
    | inl e ↦ subst (λ q. permission_of (perm_rank q) ≡ q) (sym e) refl
    | inr not_triage ↦ elim (String-cases p "push") [
      | inl e ↦ subst (λ q. permission_of (perm_rank q) ≡ q) (sym e) refl
      | inr not_push ↦ elim (String-cases p "maintain") [
        | inl e ↦ subst (λ q. permission_of (perm_rank q) ≡ q) (sym e) refl
        | inr not_maintain ↦ elim (String-cases p "admin") [
          | inl e ↦ subst (λ q. permission_of (perm_rank q) ≡ q) (sym e) refl
          | inr not_admin ↦
              absurd (ground (arith, not_pull, not_triage, not_push, not_maintain, not_admin, h))
        ]
      ]
    ]
  ]
]

module _ (rt : Runtime) where
  -- In an accepted teams.yml the rank that the policy compares tells the permissions apart: a permission
  -- that is no key of the ranks, and would count as `pull`, is not accepted.
  pub validate_teams_file-perm_rank :
      (f : TeamsFile)
      → validate_teams_file rt f ≡ none
      → All
          (λ (t : TeamAccess).
            (other : String)
            → is_valid_permission other ≡ true
            → perm_rank t.permission ≡ perm_rank other
            → t.permission ≡ other)
          (items f.teams)
  validate_teams_file-perm_rank f h = told_apart (items f.teams) (validate_teams_file-inv rt f h)
    where
      told_apart :
          (ts : List TeamAccess)
          → All (IsGoodTeam rt) ts
          → All
              (λ (t : TeamAccess).
                (other : String)
                → is_valid_permission other ≡ true
                → perm_rank t.permission ≡ perm_rank other
                → t.permission ≡ other)
              ts
      told_apart [] good = tt
      told_apart (t ∷ ts) good = (
        λ other valid same.
            sym (permission_of-perm_rank t.permission good.0.1)
            ∙ ap permission_of same
            ∙ permission_of-perm_rank other valid,
        told_apart ts good.1,
      )
