-- ===== src/Config/Loader/FileOf.antt =====
-- internal/config/loader.go: the settings file of each section, and the sections that one file sets.
use repositories_settings.Base.{String, ◌≡◌, ◌≢◌, refl, none, some, or_keep}
use repositories_settings.Config.Sections.{Section, SectionType, get}
use repositories_settings.Config.Resolver.{empty_settings}
use repositories_settings.Config.Files.{RepoFile}

-- The settings file that holds the section.
abbrev pub file_of : Section → String
file_of Section.repo = "repo.yml"
file_of Section.topics = "repo.yml"
file_of Section.teams = "teams.yml"
file_of Section.rulesets = "rulesets.yml"
file_of Section.branches = "branches.yml"
file_of Section.environments = "environments.yml"
file_of Section.webhooks = "webhooks.yml"
file_of Section.autolinks = "autolinks.yml"
file_of Section.actions = "actions.yml"
file_of Section.security = "security.yml"
file_of Section.pages = "pages.yml"
file_of Section.secrets = "secrets.yml"
file_of Section.variables = "variables.yml"
file_of Section.deploy_keys = "deploy-keys.yml"
file_of Section.custom_properties = "custom-properties.yml"
file_of Section.collaborators = "collaborators.yml"

pub get-empty : (r : Section) → get r empty_settings ≡ none
get-empty Section.repo = refl
get-empty _ = refl

pub only_repo :
    (f : RepoFile) (r : Section)
    → file_of r ≢ "repo.yml"
    → get r
        (record empty_settings { repo = or_keep f.repository none; topics = or_keep f.topics none })
      ≡ none
only_repo f Section.repo ne = absurd (ne refl)
only_repo f Section.topics ne = absurd (ne refl)
only_repo f _ ne = refl

pub only_teams :
    (v : SectionType Section.teams) (r : Section)
    → file_of r ≢ "teams.yml"
    → get r (record empty_settings { teams = some v }) ≡ none
only_teams v Section.teams ne = absurd (ne refl)
only_teams v _ ne = refl

pub only_rulesets :
    (v : SectionType Section.rulesets) (r : Section)
    → file_of r ≢ "rulesets.yml"
    → get r (record empty_settings { rulesets = some v }) ≡ none
only_rulesets v Section.rulesets ne = absurd (ne refl)
only_rulesets v _ ne = refl

pub only_branches :
    (v : SectionType Section.branches) (r : Section)
    → file_of r ≢ "branches.yml"
    → get r (record empty_settings { branches = some v }) ≡ none
only_branches v Section.branches ne = absurd (ne refl)
only_branches v _ ne = refl

pub only_environments :
    (v : SectionType Section.environments) (r : Section)
    → file_of r ≢ "environments.yml"
    → get r (record empty_settings { environments = some v }) ≡ none
only_environments v Section.environments ne = absurd (ne refl)
only_environments v _ ne = refl

pub only_webhooks :
    (v : SectionType Section.webhooks) (r : Section)
    → file_of r ≢ "webhooks.yml"
    → get r (record empty_settings { webhooks = some v }) ≡ none
only_webhooks v Section.webhooks ne = absurd (ne refl)
only_webhooks v _ ne = refl

pub only_autolinks :
    (v : SectionType Section.autolinks) (r : Section)
    → file_of r ≢ "autolinks.yml"
    → get r (record empty_settings { autolinks = some v }) ≡ none
only_autolinks v Section.autolinks ne = absurd (ne refl)
only_autolinks v _ ne = refl

pub only_actions :
    (v : SectionType Section.actions) (r : Section)
    → file_of r ≢ "actions.yml"
    → get r (record empty_settings { actions = some v }) ≡ none
only_actions v Section.actions ne = absurd (ne refl)
only_actions v _ ne = refl

pub only_security :
    (v : SectionType Section.security) (r : Section)
    → file_of r ≢ "security.yml"
    → get r (record empty_settings { security = some v }) ≡ none
only_security v Section.security ne = absurd (ne refl)
only_security v _ ne = refl

pub only_pages :
    (v : SectionType Section.pages) (r : Section)
    → file_of r ≢ "pages.yml"
    → get r (record empty_settings { pages = some v }) ≡ none
only_pages v Section.pages ne = absurd (ne refl)
only_pages v _ ne = refl

pub only_secrets :
    (v : SectionType Section.secrets) (r : Section)
    → file_of r ≢ "secrets.yml"
    → get r (record empty_settings { secrets = some v }) ≡ none
only_secrets v Section.secrets ne = absurd (ne refl)
only_secrets v _ ne = refl

pub only_variables :
    (v : SectionType Section.variables) (r : Section)
    → file_of r ≢ "variables.yml"
    → get r (record empty_settings { variables = some v }) ≡ none
only_variables v Section.variables ne = absurd (ne refl)
only_variables v _ ne = refl

pub only_deploy_keys :
    (v : SectionType Section.deploy_keys) (r : Section)
    → file_of r ≢ "deploy-keys.yml"
    → get r (record empty_settings { deploy_keys = some v }) ≡ none
only_deploy_keys v Section.deploy_keys ne = absurd (ne refl)
only_deploy_keys v _ ne = refl

pub only_custom_properties :
    (v : SectionType Section.custom_properties) (r : Section)
    → file_of r ≢ "custom-properties.yml"
    → get r (record empty_settings { custom_properties = some v }) ≡ none
only_custom_properties v Section.custom_properties ne = absurd (ne refl)
only_custom_properties v _ ne = refl

pub only_collaborators :
    (v : SectionType Section.collaborators) (r : Section)
    → file_of r ≢ "collaborators.yml"
    → get r (record empty_settings { collaborators = some v }) ≡ none
only_collaborators v Section.collaborators ne = absurd (ne refl)
only_collaborators v _ ne = refl
