-- ===== src/Config/Files.antt =====
-- internal/config/file_envelopes.go: what each YAML file under .github/settings/ holds.
use repositories_settings.Base.{String, Option, List, [], ◌∷◌}
use repositories_settings.Base.Int.{ℤ}
use repositories_settings.Value.{Fields}
use repositories_settings.Config.Schema.{
  Slice, RepoConfig, TeamAccess, Ruleset, Environment, Webhook, Autolink, ActionsConfig,
  SecurityConfig, PagesConfig, SecretRef, Variable, DeployKey, Collaborator, BranchProtection,
}

pub record RepoFile : Type 0 where
  pub version : ℤ
  pub repository : Option RepoConfig
  pub topics : Option (List String)

pub record TeamsFile : Type 0 where
  pub version : ℤ
  pub teams : Slice TeamAccess

pub record RulesetsFile : Type 0 where
  pub version : ℤ
  pub rulesets : Slice Ruleset

pub record EnvironmentsFile : Type 0 where
  pub version : ℤ
  pub environments : Slice Environment

pub record WebhooksFile : Type 0 where
  pub version : ℤ
  pub webhooks : Slice Webhook

pub record AutolinksFile : Type 0 where
  pub version : ℤ
  pub autolinks : Slice Autolink

pub record ActionsFile : Type 0 where
  pub version : ℤ
  pub actions : ActionsConfig

pub record SecurityFile : Type 0 where
  pub version : ℤ
  pub security : SecurityConfig

pub record PagesFile : Type 0 where
  pub version : ℤ
  pub pages : PagesConfig

pub record SecretsFile : Type 0 where
  pub version : ℤ
  pub repository_secrets : Slice SecretRef

pub record VariablesFile : Type 0 where
  pub version : ℤ
  pub variables : Slice Variable

pub record DeployKeysFile : Type 0 where
  pub version : ℤ
  pub deploy_keys : Slice DeployKey

pub record CustomPropertiesFile : Type 0 where
  pub version : ℤ
  pub custom_properties : Fields

pub record CollaboratorsFile : Type 0 where
  pub version : ℤ
  pub collaborators : Slice Collaborator

pub record BranchesFile : Type 0 where
  pub version : ℤ
  pub branches : Slice BranchProtection

abbrev pub file_names : List String
file_names =
    "repo.yml" ∷ "teams.yml" ∷ "rulesets.yml" ∷ "branches.yml" ∷ "environments.yml" ∷ "webhooks.yml"
    ∷ "autolinks.yml" ∷ "actions.yml" ∷ "security.yml" ∷ "pages.yml" ∷ "secrets.yml"
    ∷ "variables.yml" ∷ "deploy-keys.yml" ∷ "custom-properties.yml" ∷ "collaborators.yml" ∷ []
