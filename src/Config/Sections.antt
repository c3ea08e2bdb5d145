-- ===== src/Config/Sections.antt =====
-- The sixteen sections of a `Settings`, so that a statement about every resource can be one
-- statement: its field, and its key in selective reconciles and in the provenance.
use repositories_settings.Base.{String, Bool, List, Option, is_some}
use repositories_settings.Config.Schema.{
  Settings, ActionsConfig, AutolinksConfig, BranchesConfig, CollaboratorsConfig,
  CustomPropertiesConfig, DeployKeysConfig, EnvironmentsConfig, PagesConfig, RepoConfig,
  RulesetsConfig, SecretsConfig, SecurityConfig, TeamsConfig, VariablesConfig, WebhooksConfig,
}

pub data Section : Type 0 where
  repo topics teams rulesets branches environments webhooks autolinks actions security pages secrets
        variables deploy_keys custom_properties collaborators :
      Section

abbrev pub SectionType : Section → Type 0
SectionType repo = RepoConfig
SectionType topics = List String
SectionType teams = TeamsConfig
SectionType rulesets = RulesetsConfig
SectionType branches = BranchesConfig
SectionType environments = EnvironmentsConfig
SectionType webhooks = WebhooksConfig
SectionType autolinks = AutolinksConfig
SectionType actions = ActionsConfig
SectionType security = SecurityConfig
SectionType pages = PagesConfig
SectionType secrets = SecretsConfig
SectionType variables = VariablesConfig
SectionType deploy_keys = DeployKeysConfig
SectionType custom_properties = CustomPropertiesConfig
SectionType collaborators = CollaboratorsConfig

-- The field of the section.
abbrev pub get : (r : Section) → Settings → Option (SectionType r)
get repo s = s.repo
get topics s = s.topics
get teams s = s.teams
get rulesets s = s.rulesets
get branches s = s.branches
get environments s = s.environments
get webhooks s = s.webhooks
get autolinks s = s.autolinks
get actions s = s.actions
get security s = s.security
get pages s = s.pages
get secrets s = s.secrets
get variables s = s.variables
get deploy_keys s = s.deploy_keys
get custom_properties s = s.custom_properties
get collaborators s = s.collaborators

-- The applier key of the section.
abbrev pub key : Section → String
key repo = "repo"
key topics = "topics"
key teams = "teams"
key rulesets = "rulesets"
key branches = "branches"
key environments = "environments"
key webhooks = "webhooks"
key autolinks = "autolinks"
key actions = "actions"
key security = "security"
key pages = "pages"
key secrets = "secrets"
key variables = "variables"
key deploy_keys = "deployKeys"
key custom_properties = "customProperties"
key collaborators = "collaborators"

abbrev pub is_set : Section → Settings → Bool
is_set r s = is_some (get r s)
