-- ===== src/Config/Validate/Entries.antt =====
-- internal/config/validate.go: the files that hold a list of entries: environments, webhooks,
-- autolinks, secrets, variables and deploy keys.
use package.text.Mathlib.Text.{starts_with}
use repositories_settings.Base.{
  ℕ, String, ◌==◌, Bool, false, ◌&&◌, ◌||◌, not, Option, none, some, List, [], ◌∷◌, ◌++◌, concat,
  is_empty, is_some, length, ltb, if◌then◌else◌,
}
use repositories_settings.Base.Int.{pos}
use repositories_settings.Config.Schema.{
  items, Environment, DeploymentBranchPolicy, Webhook, Autolink, SecretRef, Variable, DeployKey,
}
use repositories_settings.Config.Files.{
  EnvironmentsFile, WebhooksFile, AutolinksFile, SecretsFile, VariablesFile, DeployKeysFile,
}
use repositories_settings.Config.Policy.Inputs.{Runtime}
use repositories_settings.Config.Validate.{
  ValidationError, finalize, add_if, one_of, each_at, outside, require_version, entry_text,
  at_least_one,
}
use repositories_settings.Config.Validate.Names.{is_secret_name}

abbrev pub names_branches : Option DeploymentBranchPolicy → Bool
names_branches none = false
names_branches (some p) = not (is_empty (items p.branch_policies))

-- `^https?://`
abbrev pub is_http : String → Bool
is_http url = starts_with url "http://" || starts_with url "https://"

-- A list that is given, and empty.
abbrev pub is_given_empty : Option (List String) → Bool
is_given_empty none = false
is_given_empty (some xs) = is_empty xs

module _ (rt : Runtime) where
  open rt use {quote}

  abbrev pub environment_issues : ℕ → Environment → List String
  environment_issues i e =
      add_if (e.name == "") (entry_text rt "environments" i ".name: required")
      ++ add_if (outside (pos 0) (pos 43200) e.wait_timer)
          (entry_text rt "environments" i ".wait_timer: must be 0..43200")
      ++ add_if (ltb 6 (length (items e.reviewers)))
          (entry_text rt "environments" i ".reviewers: max 6")
      ++ add_if (not (is_empty (items e.variables))) (
          entry_text rt "environments" i
            ".variables: not supported yet — environment variables are not applied by this service; declare them under variables.yml or remove the key")
      ++ add_if (not (is_empty (items e.secrets))) (
          entry_text rt "environments" i
            ".secrets: not supported yet — environment secrets are not applied by this service; remove the key")
      ++ add_if (names_branches e.deployment_branch_policy) (
          entry_text rt "environments" i
            ".deployment_branch_policy.branch_policies: not supported yet — named branch policies are not applied; set custom_branch_policies and add the patterns in the GitHub UI, or remove the key")

  unfoldable pub validate_environments_file : EnvironmentsFile → Option ValidationError
  validate_environments_file f = finalize "environments.yml" (
      require_version rt f.version
      ++ at_least_one (items f.environments) "environments: at least one environment required"
      ++ each_at environment_issues 0 (items f.environments))

  abbrev pub autolink_issues : ℕ → Autolink → List String
  autolink_issues i a =
      add_if (a.key_prefix == "") (entry_text rt "autolinks" i ".key_prefix: required")
      ++ add_if (a.url_template == "") (entry_text rt "autolinks" i ".url_template: required")

  unfoldable pub validate_autolinks_file : AutolinksFile → Option ValidationError
  validate_autolinks_file f = finalize "autolinks.yml" (
      require_version rt f.version
      ++ at_least_one (items f.autolinks) "autolinks: at least one autolink required"
      ++ each_at autolink_issues 0 (items f.autolinks))

  abbrev pub secret_issues : ℕ → SecretRef → List String
  secret_issues i s =
      add_if (not (is_secret_name s.name))
        (entry_text rt "repository_secrets" i ".name: must match [A-Z_][A-Z0-9_]*")

  unfoldable pub validate_secrets_file : SecretsFile → Option ValidationError
  validate_secrets_file f =
      finalize "secrets.yml"
        (require_version rt f.version ++ each_at secret_issues 0 (items f.repository_secrets))

  abbrev pub variable_issues : ℕ → Variable → List String
  variable_issues i va =
      add_if (not (is_secret_name va.name))
        (entry_text rt "variables" i ".name: must match [A-Z_][A-Z0-9_]*")

  unfoldable pub validate_variables_file : VariablesFile → Option ValidationError
  validate_variables_file f = finalize "variables.yml" (
      require_version rt f.version
      ++ at_least_one (items f.variables) "variables: at least one variable required"
      ++ each_at variable_issues 0 (items f.variables))

  abbrev pub deploy_key_issues : ℕ → DeployKey → List String
  deploy_key_issues i k =
      add_if (k.title == "") (entry_text rt "deploy_keys" i ".title: required")
      ++ add_if (not (k.key_ref == "")) (
          entry_text rt "deploy_keys" i
            ".key_ref: not supported yet — this service has no secret store to resolve a reference against; inline the public key under `key`, or add the key in the GitHub UI")
      ++ add_if (k.key == "" && k.key_ref == "") (
          entry_text rt "deploy_keys" i
            ": `key` is required — the public key is what gets uploaded")

  unfoldable pub validate_deploy_keys_file : DeployKeysFile → Option ValidationError
  validate_deploy_keys_file f = finalize "deploy-keys.yml" (
      require_version rt f.version
      ++ at_least_one (items f.deploy_keys) "deploy_keys: at least one key required"
      ++ each_at deploy_key_issues 0 (items f.deploy_keys))

  -- `url_scheme s` is the scheme of the URL, or nothing when `url.Parse` fails.
  module _ (url_scheme : String → Option String) where
    abbrev pub bad_url : String → Bool
    bad_url url = not (is_some (url_scheme url)) || not (is_http url)

    abbrev pub content_issues : ℕ → Option String → List String
    content_issues i none = []
    content_issues i (some c) =
        add_if (not (one_of c ("json" ∷ "form" ∷ [])))
          (concat (entry_text rt "webhooks" i ".content_type: invalid value " ∷ quote c ∷ []))

    abbrev pub webhook_issues : ℕ → Webhook → List String
    webhook_issues i w =
        (if w.url == ""
          then entry_text rt "webhooks" i ".url: required" ∷ []
          else add_if (bad_url w.url)
              (entry_text rt "webhooks" i ".url: must be a valid http(s) URL"))
        ++ content_issues i w.content_type
        ++ add_if (is_given_empty w.events) (
            entry_text rt "webhooks" i
              ".events: at least one event required (omit the key to leave events unmanaged)")
        ++ add_if (not (w.secret_ref == "")) (
            entry_text rt "webhooks" i
              ".secret_ref: not supported yet — the webhook secret is not applied by this service; remove the key or set the secret manually")

    unfoldable pub validate_webhooks_file : WebhooksFile → Option ValidationError
    validate_webhooks_file f = finalize "webhooks.yml" (
        require_version rt f.version
        ++ at_least_one (items f.webhooks) "webhooks: at least one webhook required"
        ++ each_at webhook_issues 0 (items f.webhooks))
