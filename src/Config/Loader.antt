-- ===== src/Config/Loader.antt =====
-- internal/config/loader.go and internal/config/file_envelopes.go: the settings files of a directory,
-- each decoded, checked and folded into one `Settings`, in the order in which the fetches end. The strict
-- decoder of internal/yamlstrict, which hands the text to the YAML library, is an argument.
pub mod FileOf
pub mod Layers
pub mod Laws
pub mod Outcome
pub mod Faults
use repositories_settings.Base.{
  String, ◌==◌, Option, none, some, List, [], ◌∷◌, ◌++◌, concat, or_keep, lookup, if◌then◌else◌,
}
use repositories_settings.Config.Schema.{Settings}
use repositories_settings.Config.Resolver.{empty_settings}
use repositories_settings.Config.Normalize.{normalize}
use repositories_settings.Config.Policy.Inputs.{Runtime}
use repositories_settings.Config.Files.{
  RepoFile, TeamsFile, RulesetsFile, BranchesFile, EnvironmentsFile, WebhooksFile, AutolinksFile,
  ActionsFile, SecurityFile, PagesFile, SecretsFile, VariablesFile, DeployKeysFile,
  CustomPropertiesFile, CollaboratorsFile,
}
use repositories_settings.Config.Validate.{ValidationError}
use repositories_settings.Config.Validate.Repository.{
  validate_repo_file, validate_actions_file, validate_security_file, validate_pages_file,
  validate_custom_properties_file,
}
use repositories_settings.Config.Validate.Access.{
  validate_teams_file, validate_rulesets_file, validate_branches_file, validate_collaborators_file,
}
use repositories_settings.Config.Validate.Entries.{
  validate_environments_file, validate_webhooks_file, validate_autolinks_file,
  validate_secrets_file, validate_variables_file, validate_deploy_keys_file,
}

-- What `yamlstrict.Decode` answers: `ErrEmpty`, the issues of a text that does not fit, or the value.
pub data Decoded (F : Type 0) : Type 0 where
  empty : Decoded F
  unfit : List String → Decoded F
  decoded : F → Decoded F

-- `yamlstrict.Decode` at each envelope.
pub record Decoder : Type 0 where
  pub repo_file : String → Decoded RepoFile
  pub teams_file : String → Decoded TeamsFile
  pub rulesets_file : String → Decoded RulesetsFile
  pub branches_file : String → Decoded BranchesFile
  pub environments_file : String → Decoded EnvironmentsFile
  pub webhooks_file : String → Decoded WebhooksFile
  pub autolinks_file : String → Decoded AutolinksFile
  pub actions_file : String → Decoded ActionsFile
  pub security_file : String → Decoded SecurityFile
  pub pages_file : String → Decoded PagesFile
  pub secrets_file : String → Decoded SecretsFile
  pub variables_file : String → Decoded VariablesFile
  pub deploy_keys_file : String → Decoded DeployKeysFile
  pub custom_properties_file : String → Decoded CustomPropertiesFile
  pub collaborators_file : String → Decoded CollaboratorsFile

-- The effect of one file on the settings, and its error.
abbrev pub Merge : Type 0
Merge = Settings → Settings × Option ValidationError

-- `if err := validate(&f); err != nil { return err }`, with the settings before and after.
abbrev pub checked :
    Option ValidationError → Settings → Settings → Settings × Option ValidationError
checked none before after = (after, none)
checked (some e) before after = (before, some e)

-- On an error, and on an empty file, the settings stay as they are.
unfoldable pub decode_file :
    {F : Type 0}
    → String
    → Decoded F
    → (F → Option ValidationError)
    → (F → Settings → Settings)
    → Merge
decode_file name empty validate apply s = (s, none)
decode_file name (unfit issues) validate apply s =
    (s, some (record { file = name; issues = issues }))
decode_file name (decoded f) validate apply s = checked (validate f) s (apply f s)

-- `GetFile`: the file is absent, the request failed, or the content.
pub data Fetched : Type 0 where
  missing : Fetched
  failed : String → Fetched
  content : String → Fetched

pub data LoadError : Type 0 where
  unreadable : String → String → LoadError
  invalid : ValidationError → LoadError

pub data Loaded : Type 0 where
  loaded : Settings → Loaded
  load_failed : List LoadError → Loaded

-- `loadErrs = append(loadErrs, err)`
abbrev pub note_error : Option ValidationError → List LoadError → List LoadError
note_error none errs = errs
note_error (some e) errs = errs ++ (invalid e ∷ [])

-- The joined errors, or the completed settings.
abbrev pub finish : Settings → List LoadError → Loaded
finish s [] = loaded (normalize s)
finish s (e ∷ errs) = load_failed (e ∷ errs)

-- `quote` is the `%q` of fmt, `url_scheme` the scheme that `url.Parse` finds.
module _ (rt : Runtime) (url_scheme : String → Option String) (d : Decoder) where
  unfoldable pub merge_file : String → String → Merge
  unfolding decode_file
  merge_file name raw s =
      if name == "repo.yml"
      then decode_file name (d.repo_file raw) (validate_repo_file rt url_scheme)
          (λ f t. record t {
            repo = or_keep f.repository t.repo;
            topics = or_keep f.topics t.topics;
          })
          s
      else if name == "teams.yml"
      then decode_file name (d.teams_file raw) (validate_teams_file rt)
          (λ f t. record t { teams = some (record { teams = f.teams }) }) s
      else if name == "rulesets.yml"
      then decode_file name (d.rulesets_file raw) (validate_rulesets_file rt)
          (λ f t. record t { rulesets = some (record { rulesets = f.rulesets }) }) s
      else if name == "branches.yml"
      then decode_file name (d.branches_file raw) (validate_branches_file rt)
          (λ f t. record t { branches = some (record { branches = f.branches }) }) s
      else if name == "environments.yml"
      then decode_file name (d.environments_file raw) (validate_environments_file rt)
          (λ f t. record t { environments = some (record { environments = f.environments }) }) s
      else if name == "webhooks.yml"
      then decode_file name (d.webhooks_file raw) (validate_webhooks_file rt url_scheme)
          (λ f t. record t { webhooks = some (record { webhooks = f.webhooks }) }) s
      else if name == "autolinks.yml"
      then decode_file name (d.autolinks_file raw) (validate_autolinks_file rt)
          (λ f t. record t { autolinks = some (record { autolinks = f.autolinks }) }) s
      else if name == "actions.yml"
      then decode_file name (d.actions_file raw) (validate_actions_file rt)
          (λ f t. record t { actions = some f.actions }) s
      else if name == "security.yml"
      then decode_file name (d.security_file raw) (validate_security_file rt)
          (λ f t. record t { security = some f.security }) s
      else if name == "pages.yml"
      then decode_file name (d.pages_file raw) (validate_pages_file rt)
          (λ f t. record t { pages = some f.pages }) s
      else if name == "secrets.yml"
      then decode_file name (d.secrets_file raw) (validate_secrets_file rt)
          (λ f t. record t {
            secrets = some (record { repository_secrets = f.repository_secrets });
          })
          s
      else if name == "variables.yml"
      then decode_file name (d.variables_file raw) (validate_variables_file rt)
          (λ f t. record t { variables = some (record { variables = f.variables }) }) s
      else if name == "deploy-keys.yml"
      then decode_file name (d.deploy_keys_file raw) (validate_deploy_keys_file rt)
          (λ f t. record t { deploy_keys = some (record { deploy_keys = f.deploy_keys }) }) s
      else if name == "custom-properties.yml"
      then decode_file name (d.custom_properties_file raw) (validate_custom_properties_file rt)
          (λ f t. record t {
            custom_properties = some (record { properties = f.custom_properties });
          })
          s
      else if name == "collaborators.yml"
      then decode_file name (d.collaborators_file raw) (validate_collaborators_file rt)
          (λ f t. record t { collaborators = some (record { collaborators = f.collaborators }) }) s
      else (
        s,
        some (record {
          file = name;
          issues =
              concat (
                "unknown settings file "
                ∷ rt.quote name
                ∷ " — see .github/settings/ for the recognised names"
                ∷ [])
              ∷ [];
        }),
      )

  unfoldable pub load_result :
      String → Fetched → Settings × List LoadError → Settings × List LoadError
  unfolding merge_file
  load_result name missing acc = acc
  load_result name (failed err) acc = (acc.0, acc.1 ++ (unreadable name err ∷ []))
  load_result name (content raw) acc =
      let r = merge_file name raw acc.0 in (r.0, note_error r.1 acc.1)

  -- The loop over the results, in the order in which they arrive.
  unfoldable pub load_results :
      (String → Fetched) → List String → Settings × List LoadError → Settings × List LoadError
  unfolding load_result
  load_results fetch [] acc = acc
  load_results fetch (name ∷ order) acc =
      load_results fetch order (load_result name (fetch name) acc)

  -- `fetch` is `GetFile` at the directory and the ref, one goroutine for each file.
  unfoldable pub load_settings_dir : (String → Fetched) → List String → Loaded
  unfolding load_results
  load_settings_dir fetch order =
      let r = load_results fetch order (empty_settings, []) in finish r.0 r.1

  -- One turn of the loop over the map; `range` visits only keys that are there.
  abbrev pub merge_entry :
      String → Option String → Settings × List LoadError → Settings × List LoadError
  merge_entry name none acc = acc
  merge_entry name (some raw) acc = let r = merge_file name raw acc.0 in (r.0, note_error r.1 acc.1)

  abbrev pub merge_entries :
      List (String × String) → List String → Settings × List LoadError → Settings × List LoadError
  merge_entries files [] acc = acc
  merge_entries files (name ∷ order) acc =
      merge_entries files order (merge_entry name (lookup name files) acc)

  -- `order` is the order in which `range` visits the keys of the map.
  unfoldable pub load_from_map : List (String × String) → List String → Loaded
  load_from_map files order =
      let r = merge_entries files order (empty_settings, []) in finish r.0 r.1
