-- ===== src/Config/Disabled.antt =====
-- internal/config/disabled.go: the operator's deny-set. Reading it from a comma-separated text is
-- left out; the set is the list of its canonical keys.
pub mod Laws
use repositories_settings.Base.{
  String, ◌==◌, Bool, false, ◌||◌, Option, none, some, List, [], ◌∷◌, contains, lookup, is_some,
  if◌then◌else◌,
}
use repositories_settings.Config.Schema.{Settings}

abbrev pub DisabledResources : Type 0
DisabledResources = List String

abbrev pub all_resource_keys : List String
all_resource_keys =
    "repository" ∷ "teams" ∷ "rulesets" ∷ "environments" ∷ "webhooks" ∷ "autolinks" ∷ "actions"
    ∷ "security" ∷ "pages" ∷ "secrets" ∷ "variables" ∷ "deploy_keys" ∷ "custom_properties"
    ∷ "collaborators" ∷ "branches" ∷ []

unfoldable pub has : DisabledResources → String → Bool
unfolding contains
has d key = contains d key

abbrev pub keys_from : DisabledResources → List String → List String
keys_from d [] = []
keys_from d (k ∷ ks) = let rest = keys_from d ks in if contains d k then k ∷ rest else rest

-- The disabled keys in the order of `AllResourceKeys`.
unfoldable pub keys : DisabledResources → List String
unfolding contains
keys d = keys_from d all_resource_keys

-- The cases of the switch: the sections that a key stands for.
unfoldable pub is_section_configured : Settings → String → Bool
is_section_configured s key =
    if key == "repository"
    then is_some s.repo || is_some s.topics
    else if key == "teams"
    then is_some s.teams
    else if key == "rulesets"
    then is_some s.rulesets
    else if key == "environments"
    then is_some s.environments
    else if key == "webhooks"
    then is_some s.webhooks
    else if key == "autolinks"
    then is_some s.autolinks
    else if key == "actions"
    then is_some s.actions
    else if key == "security"
    then is_some s.security
    else if key == "pages"
    then is_some s.pages
    else if key == "secrets"
    then is_some s.secrets
    else if key == "variables"
    then is_some s.variables
    else if key == "deploy_keys"
    then is_some s.deploy_keys
    else if key == "custom_properties"
    then is_some s.custom_properties
    else if key == "collaborators"
    then is_some s.collaborators
    else if key == "branches"
    then is_some s.branches
    else false

unfoldable pub is_resource_configured : Option Settings → String → Bool
unfolding is_section_configured
is_resource_configured none key = false
is_resource_configured (some s) key = is_section_configured s key

-- The file names and the keys that `ResourceKeysForFile` gives for them.
abbrev pub resource_files : List (String × List String)
resource_files =
    ("repo.yml", "repository" ∷ [])
    ∷ ("teams.yml", "teams" ∷ [])
    ∷ ("rulesets.yml", "rulesets" ∷ [])
    ∷ ("branches.yml", "branches" ∷ [])
    ∷ ("environments.yml", "environments" ∷ [])
    ∷ ("webhooks.yml", "webhooks" ∷ [])
    ∷ ("autolinks.yml", "autolinks" ∷ [])
    ∷ ("actions.yml", "actions" ∷ [])
    ∷ ("security.yml", "security" ∷ [])
    ∷ ("pages.yml", "pages" ∷ [])
    ∷ ("secrets.yml", "secrets" ∷ [])
    ∷ ("variables.yml", "variables" ∷ [])
    ∷ ("deploy-keys.yml", "deploy_keys" ∷ [])
    ∷ ("custom-properties.yml", "custom_properties" ∷ [])
    ∷ ("collaborators.yml", "collaborators" ∷ [])
    ∷ []

unfoldable pub resource_keys_for_file : String → Option (List String)
resource_keys_for_file name = lookup name resource_files
