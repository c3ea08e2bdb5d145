-- ===== src/Config/Validate/Versions.antt =====
-- internal/config/validate.go: each of the fifteen validators refuses a version other than 1.
use repositories_settings.Base.{String, ◌≡◌, ◌≢◌, refl, Option, some, List, [], ◌∷◌, ◌++◌}
use repositories_settings.Base.Int.{ℤ, pos}
use repositories_settings.Config.Files.{
  RepoFile, TeamsFile, RulesetsFile, BranchesFile, EnvironmentsFile, WebhooksFile, AutolinksFile,
  ActionsFile, SecurityFile, PagesFile, SecretsFile, VariablesFile, DeployKeysFile,
  CustomPropertiesFile, CollaboratorsFile,
}
use repositories_settings.Config.Policy.Inputs.{Runtime}
use repositories_settings.Config.Validate.{ValidationError, finalize, require_version}
use repositories_settings.Config.Validate.Laws.{require_version-eq-nil}
use repositories_settings.Config.Validate.Repository.{
  validate_repo_file, validate_actions_file, validate_security_file, validate_pages_file,
  validate_custom_properties_file, actions_issues,
}
use repositories_settings.Config.Validate.Access.{
  validate_teams_file, validate_rulesets_file, validate_branches_file, validate_collaborators_file,
}
use repositories_settings.Config.Validate.Entries.{
  validate_environments_file, validate_webhooks_file, validate_autolinks_file,
  validate_secrets_file, validate_variables_file, validate_deploy_keys_file,
}

-- There is an error, and it names the file.
abbrev pub Fails : String → Option ValidationError → Type 0
Fails file o = (e : ValidationError) × ((o ≡ some e) × (e.file ≡ file))

finalize-Fails :
    (file : String) (issues : List String) → issues ≢ [] → Fails file (finalize file issues)
unfolding finalize
finalize-Fails file [] h = absurd (h refl)
finalize-Fails file (i ∷ is) h = (record { file = file; issues = i ∷ is }, (refl, refl))

append-ne_nil : (xs ys : List String) → xs ≢ [] → xs ++ ys ≢ []
append-ne_nil [] ys h = absurd (h refl)
append-ne_nil (x ∷ xs) ys h = λ e. absurd (cc e)

-- A file whose version is not 1 is refused.
abbrev pub NeedsVersion : {F : Type 0} → String → (F → ℤ) → (F → Option ValidationError) → Type 0
NeedsVersion {F = F} file version validate = (f : F) → version f ≢ pos 1 → Fails file (validate f)

module _ (rt : Runtime) where
  -- The issue of the version comes first, whatever comes after.
  version_first :
      (file : String) (ver : ℤ) (more others : List String)
      → ver ≢ pos 1
      → Fails file (finalize file (require_version rt ver ++ more ++ others))
  version_first file ver more others h =
      finalize-Fails file _ (
        append-ne_nil _ others
          (append-ne_nil _ more (λ e. h ((require_version-eq-nil rt ver).0 e))))

  pub validate_repo_file-NeedsVersion :
      (url_scheme : String → Option String)
      → NeedsVersion "repo.yml" (λ (f : RepoFile). f.version) (validate_repo_file rt url_scheme)
  unfolding validate_repo_file
  validate_repo_file-NeedsVersion url_scheme f h = version_first "repo.yml" f.version _ _ h

  pub validate_teams_file-NeedsVersion :
      NeedsVersion "teams.yml" (λ (f : TeamsFile). f.version) (validate_teams_file rt)
  unfolding validate_teams_file
  validate_teams_file-NeedsVersion f h = version_first "teams.yml" f.version _ _ h

  pub validate_rulesets_file-NeedsVersion :
      NeedsVersion "rulesets.yml" (λ (f : RulesetsFile). f.version) (validate_rulesets_file rt)
  unfolding validate_rulesets_file
  validate_rulesets_file-NeedsVersion f h = version_first "rulesets.yml" f.version _ _ h

  pub validate_branches_file-NeedsVersion :
      NeedsVersion "branches.yml" (λ (f : BranchesFile). f.version) (validate_branches_file rt)
  unfolding validate_branches_file
  validate_branches_file-NeedsVersion f h = version_first "branches.yml" f.version _ _ h

  pub validate_environments_file-NeedsVersion :
      NeedsVersion "environments.yml"
        (λ (f : EnvironmentsFile). f.version)
        (validate_environments_file rt)
  unfolding validate_environments_file
  validate_environments_file-NeedsVersion f h = version_first "environments.yml" f.version _ _ h

  pub validate_webhooks_file-NeedsVersion :
      (url_scheme : String → Option String)
      → NeedsVersion "webhooks.yml"
          (λ (f : WebhooksFile). f.version)
          (validate_webhooks_file rt url_scheme)
  unfolding validate_webhooks_file
  validate_webhooks_file-NeedsVersion url_scheme f h = version_first "webhooks.yml" f.version _ _ h

  pub validate_autolinks_file-NeedsVersion :
      NeedsVersion "autolinks.yml" (λ (f : AutolinksFile). f.version) (validate_autolinks_file rt)
  unfolding validate_autolinks_file
  validate_autolinks_file-NeedsVersion f h = version_first "autolinks.yml" f.version _ _ h

  pub validate_actions_file-NeedsVersion :
      NeedsVersion "actions.yml" (λ (f : ActionsFile). f.version) (validate_actions_file rt)
  unfolding validate_actions_file actions_issues
  validate_actions_file-NeedsVersion f h = version_first "actions.yml" f.version _ _ h

  pub validate_security_file-NeedsVersion :
      NeedsVersion "security.yml" (λ (f : SecurityFile). f.version) (validate_security_file rt)
  unfolding validate_security_file
  validate_security_file-NeedsVersion f h =
      finalize-Fails "security.yml" _ (λ e. h ((require_version-eq-nil rt f.version).0 e))

  pub validate_pages_file-NeedsVersion :
      NeedsVersion "pages.yml" (λ (f : PagesFile). f.version) (validate_pages_file rt)
  unfolding validate_pages_file
  validate_pages_file-NeedsVersion f h = version_first "pages.yml" f.version _ _ h

  pub validate_secrets_file-NeedsVersion :
      NeedsVersion "secrets.yml" (λ (f : SecretsFile). f.version) (validate_secrets_file rt)
  unfolding validate_secrets_file
  validate_secrets_file-NeedsVersion f h =
      finalize-Fails "secrets.yml" _
        (append-ne_nil _ _ (λ e. h ((require_version-eq-nil rt f.version).0 e)))

  pub validate_variables_file-NeedsVersion :
      NeedsVersion "variables.yml" (λ (f : VariablesFile). f.version) (validate_variables_file rt)
  unfolding validate_variables_file
  validate_variables_file-NeedsVersion f h = version_first "variables.yml" f.version _ _ h

  pub validate_deploy_keys_file-NeedsVersion :
      NeedsVersion "deploy-keys.yml"
        (λ (f : DeployKeysFile). f.version)
        (validate_deploy_keys_file rt)
  unfolding validate_deploy_keys_file
  validate_deploy_keys_file-NeedsVersion f h = version_first "deploy-keys.yml" f.version _ _ h

  pub validate_custom_properties_file-NeedsVersion :
      NeedsVersion "custom-properties.yml"
        (λ (f : CustomPropertiesFile). f.version)
        (validate_custom_properties_file rt)
  unfolding validate_custom_properties_file
  validate_custom_properties_file-NeedsVersion f h =
      version_first "custom-properties.yml" f.version _ _ h

  pub validate_collaborators_file-NeedsVersion :
      NeedsVersion "collaborators.yml"
        (λ (f : CollaboratorsFile). f.version)
        (validate_collaborators_file rt)
  unfolding validate_collaborators_file
  validate_collaborators_file-NeedsVersion f h = version_first "collaborators.yml" f.version _ _ h
