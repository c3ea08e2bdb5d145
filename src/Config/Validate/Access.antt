-- ===== src/Config/Validate/Access.antt =====
-- internal/config/validate.go: the files on who may do what: teams, collaborators, rulesets and
-- branch protections.
use Prim.Native.String.{len}
use repositories_settings.Base.{
  ℕ, String, ◌==◌, ◌||◌, not, Option, none, some, List, [], ◌∷◌, ◌++◌, concat, is_empty, ltb,
}
use repositories_settings.Base.Int.{ℤ, pos}
use repositories_settings.Config.Schema.{
  items, TeamAccess, Ruleset, BranchProtection, RequiredPrReviews, Collaborator,
}
use repositories_settings.Config.Files.{TeamsFile, RulesetsFile, BranchesFile, CollaboratorsFile}
use repositories_settings.Config.Policy.Inputs.{Runtime}
use repositories_settings.Config.Validate.{
  ValidationError, finalize, add_if, one_of, is_valid_permission, each_at, outside, require_version,
  entry_text, at_least_one,
}

-- The count of approving reviews that the entry asks for.
abbrev pub approving_count : BranchProtection → Option ℤ
approving_count b = count b.required_pull_request_reviews
  where
    count : Option RequiredPrReviews → Option ℤ
    count none = none
    count (some r) = r.required_approving_review_count

module _ (rt : Runtime) where
  open rt use {quote}

  abbrev pub team_issues : ℕ → TeamAccess → List String
  team_issues i t =
      add_if (t.slug == "") (entry_text rt "teams" i ".slug: required")
      ++ add_if (not (is_valid_permission t.permission))
          (concat (entry_text rt "teams" i ".permission: invalid value " ∷ quote t.permission ∷ []))

  unfoldable pub validate_teams_file : TeamsFile → Option ValidationError
  validate_teams_file f = finalize "teams.yml" (
      require_version rt f.version
      ++ at_least_one (items f.teams) "teams: at least one team required"
      ++ each_at team_issues 0 (items f.teams))

  abbrev pub ruleset_issues : ℕ → Ruleset → List String
  ruleset_issues i r =
      add_if (r.name == "" || ltb 100 (len r.name))
        (entry_text rt "rulesets" i ".name: required, max 100 chars")
      ++ add_if (not (one_of r.target ("branch" ∷ "tag" ∷ [])))
          (entry_text rt "rulesets" i ".target: must be branch or tag")
      ++ add_if (not (one_of r.enforcement ("active" ∷ "disabled" ∷ "evaluate" ∷ []))) (
          concat
            (entry_text rt "rulesets" i ".enforcement: invalid value " ∷ quote r.enforcement ∷ []))
      ++ add_if (is_empty (items r.rules))
          (entry_text rt "rulesets" i ".rules: at least one rule required")

  unfoldable pub validate_rulesets_file : RulesetsFile → Option ValidationError
  validate_rulesets_file f = finalize "rulesets.yml" (
      require_version rt f.version
      ++ at_least_one (items f.rulesets) "rulesets: at least one ruleset required"
      ++ each_at ruleset_issues 0 (items f.rulesets))

  abbrev pub collaborator_issues : ℕ → Collaborator → List String
  collaborator_issues i c =
      add_if (c.username == "") (entry_text rt "collaborators" i ".username: required")
      ++ add_if (not (is_valid_permission c.permission)) (
          concat (
            entry_text rt "collaborators" i ".permission: invalid value "
            ∷ quote c.permission
            ∷ []))

  unfoldable pub validate_collaborators_file : CollaboratorsFile → Option ValidationError
  validate_collaborators_file f = finalize "collaborators.yml" (
      require_version rt f.version
      ++ at_least_one (items f.collaborators) "collaborators: at least one collaborator required"
      ++ each_at collaborator_issues 0 (items f.collaborators))

  abbrev pub branch_issues : ℕ → BranchProtection → List String
  branch_issues i b =
      add_if (b.pattern == "") (entry_text rt "branches" i ".pattern: required")
      ++ add_if (outside (pos 0) (pos 6) (approving_count b)) (
          entry_text rt "branches" i
            ".required_pull_request_reviews.required_approving_review_count: must be 0..6")

  unfoldable pub validate_branches_file : BranchesFile → Option ValidationError
  validate_branches_file f = finalize "branches.yml" (
      require_version rt f.version
      ++ at_least_one (items f.branches) "branches: at least one entry required"
      ++ each_at branch_issues 0 (items f.branches))
