-- ===== src/Config/Selective.antt =====
-- internal/config/selective.go: which resources a push touches, and the settings narrowed to them.
pub mod Laws
use Prim.Native.String.{slice, len}
use text.Mathlib.Text.{starts_with}
use repositories_settings.Base.{
  String, Bool, Option, none, some, List, [], ◌∷◌, if◌then◌else◌, contains, add, lookup,
}
use repositories_settings.Config.Schema.{Settings}
use repositories_settings.Config.Resolver.{empty_settings}

abbrev pub settings_dir_prefix : String
settings_dir_prefix = ".github/settings/"

abbrev pub file_to_keys : List (String × List String)
file_to_keys =
    ("repo.yml", "repo" ∷ "topics" ∷ [])
    ∷ ("teams.yml", "teams" ∷ [])
    ∷ ("rulesets.yml", "rulesets" ∷ [])
    ∷ ("branches.yml", "branches" ∷ [])
    ∷ ("environments.yml", "environments" ∷ [])
    ∷ ("webhooks.yml", "webhooks" ∷ [])
    ∷ ("autolinks.yml", "autolinks" ∷ [])
    ∷ ("actions.yml", "actions" ∷ [])
    ∷ ("security.yml", "security" ∷ [])
    ∷ ("pages.yml", "pages" ∷ [])
    ∷ ("secrets.yml", "secrets" ∷ [])
    ∷ ("variables.yml", "variables" ∷ [])
    ∷ ("deploy-keys.yml", "deployKeys" ∷ [])
    ∷ ("custom-properties.yml", "customProperties" ∷ [])
    ∷ ("collaborators.yml", "collaborators" ∷ [])
    ∷ []

-- `strings.TrimPrefix`
abbrev trim_prefix : String → String → String
trim_prefix s p = if starts_with s p then slice s (len p) (len s) else s

-- The applier keys of one changed file, relative to the settings directory.
unfoldable pub keys_of : String → Option (List String)
keys_of f = lookup (trim_prefix f settings_dir_prefix) file_to_keys

abbrev add_all : List String → List String → List String
add_all [] keys = keys
add_all (k ∷ ks) keys = add_all ks (add k keys)

-- The loop over the changed files; an unknown file ends it with nil.
unfoldable pub affected_from : List String → List String → Option (List String)
affected_from keys [] = some keys
affected_from keys (f ∷ fs) = elim (keys_of f) [
  | none ↦ none
  | some mapped ↦ affected_from (add_all mapped keys) fs
]

-- `none` stands for nil: run everything.
unfoldable pub affected_keys : List String → Option (List String)
unfolding affected_from
affected_keys [] = none
affected_keys (f ∷ fs) = elim (affected_from [] (f ∷ fs)) [
  | none ↦ none
  | some [] ↦ none
  | some (k ∷ ks) ↦ some (k ∷ ks)
]

abbrev pub keep_if : {A : Type 0} → Bool → Option A → Option A
keep_if b x = if b then x else none

-- `none` stands for the nil set: keep everything.
unfoldable pub filter : Option Settings → Option (List String) → Option Settings
filter none keys = none
filter (some s) none = some s
filter (some s) (some keys) = some (record {
  repo = keep_if (contains keys "repo") s.repo;
  topics = keep_if (contains keys "topics") s.topics;
  teams = keep_if (contains keys "teams") s.teams;
  rulesets = keep_if (contains keys "rulesets") s.rulesets;
  branches = keep_if (contains keys "branches") s.branches;
  environments = keep_if (contains keys "environments") s.environments;
  webhooks = keep_if (contains keys "webhooks") s.webhooks;
  autolinks = keep_if (contains keys "autolinks") s.autolinks;
  actions = keep_if (contains keys "actions") s.actions;
  security = keep_if (contains keys "security") s.security;
  pages = keep_if (contains keys "pages") s.pages;
  secrets = keep_if (contains keys "secrets") s.secrets;
  variables = keep_if (contains keys "variables") s.variables;
  deploy_keys = keep_if (contains keys "deployKeys") s.deploy_keys;
  custom_properties = keep_if (contains keys "customProperties") s.custom_properties;
  collaborators = keep_if (contains keys "collaborators") s.collaborators;
})
