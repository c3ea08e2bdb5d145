-- ===== src/Tests/LoaderExamples.antt =====
-- internal/config/loader.go and internal/config/validate.go on small directories.
use repositories_settings.Base.{
  add, String, ◌==◌, ◌≡◌, ◌↔◌, refl, Option, none, some, List, [], ◌∷◌, lookup, contains, concat,
  arith, All, Any, inl, inr, true, false, subst, String-cases, if◌then◌else◌,
}
use repositories_settings.Base.Int.{pos}
use repositories_settings.Value.{
  Value, text, bool, arr, cons, nil, end, field, lookup_field, field_keys,
}
use repositories_settings.Config.Schema.{Settings, TeamAccess, items}
use repositories_settings.Config.Sections.{topics, get}
use repositories_settings.Config.Resolver.{empty_settings}
use repositories_settings.Config.Selective.{affected_keys, keys_of}
use repositories_settings.Config.Normalize.{normalize}
use repositories_settings.Config.Policy.Inputs.{perm_rank}
use repositories_settings.Config.Validate.{finalize, one_of, is_valid_permission}
use repositories_settings.Config.Files.{
  WebhooksFile, RepoFile, TeamsFile, EnvironmentsFile, CustomPropertiesFile,
}
use repositories_settings.Config.Validate.Laws.{IsGiven}
use repositories_settings.Config.Validate.Accepted.{
  IsSound, validate_environments_file-eq-none, validate_teams_file-perm_rank,
}
use repositories_settings.Config.Validate.Properties.{
  IsPropertyValue, validate_custom_properties_file-eq-none,
}
use repositories_settings.Config.Validate.Names.{is_topic}
use repositories_settings.Config.Validate.Access.{validate_teams_file}
use repositories_settings.Config.Validate.Entries.{
  is_http, validate_environments_file, validate_webhooks_file,
}
use repositories_settings.Config.Validate.Webhooks.{IsSoundWebhook, validate_webhooks_file-eq-none}
use repositories_settings.Config.Validate.Repository.{
  validate_repo_file, topics_issues, validate_custom_properties_file,
}
use repositories_settings.Config.Loader.{
  empty, unfit, decoded, Decoder, decode_file, Fetched, missing, failed, content, LoadError, loaded,
  load_failed, finish, merge_file, load_result, load_results, load_settings_dir,
}
use repositories_settings.Config.Loader.Laws.{load_settings_dir_lem, from_sections, arrived, errors}
use repositories_settings.Config.Loader.Outcome.{
  load_settings_dir-order, load_settings_dir-affected_keys,
}
use repositories_settings.Config.Loader.Faults.{file_of_error, load_settings_dir-failed}
use repositories_settings.Tests.Data.{runtime}

abbrev pub scheme : String → Option String
scheme url = some "https"

abbrev team_file : String → TeamsFile
team_file permission = record {
  version = pos 1;
  teams = some (record { slug = "dev"; permission = permission } ∷ []);
}

abbrev topic_file : String → RepoFile
topic_file topic = record { version = pos 1; repository = none; topics = some (topic ∷ []) }

-- A decoder of files of one word: the permission of a team in teams.yml, a topic in repo.yml.
abbrev pub words : Decoder
words = record {
  repo_file = λ raw. decoded (topic_file raw);
  teams_file = λ raw. if raw == "" then empty else decoded (team_file raw);
  rulesets_file = λ raw. empty;
  branches_file = λ raw. empty;
  environments_file = λ raw. unfit ("line 1" ∷ []);
  webhooks_file = λ raw. empty;
  autolinks_file = λ raw. empty;
  actions_file = λ raw. empty;
  security_file = λ raw. empty;
  pages_file = λ raw. empty;
  secrets_file = λ raw. empty;
  variables_file = λ raw. empty;
  deploy_keys_file = λ raw. empty;
  custom_properties_file = λ raw. empty;
  collaborators_file = λ raw. empty;
}

-- A directory with a team and a topic.
abbrev team_and_topic : String → String → Fetched
team_and_topic permission name =
    if name == "teams.yml"
    then content permission
    else if name == "repo.yml"
    then content "go"
    else missing

abbrev teams_first : List String
teams_first = "teams.yml" ∷ "repo.yml" ∷ []

abbrev repo_first : List String
repo_first = "repo.yml" ∷ "teams.yml" ∷ []

abbrev both_loaded : String → Settings
both_loaded permission = record empty_settings {
  topics = some ("go" ∷ []);
  teams = some (record { teams = (team_file permission).teams });
}

load_push :
    load_settings_dir runtime scheme words (team_and_topic "push") teams_first
    ≡ loaded (both_loaded "push")
unfolding load_settings_dir load_results load_result merge_file decode_file validate_teams_file
    validate_repo_file finalize is_valid_permission one_of topics_issues is_topic normalize
load_push = refl

load_pull :
    load_settings_dir runtime scheme words (team_and_topic "pull") teams_first
    ≡ loaded (both_loaded "pull")
unfolding load_settings_dir load_results load_result merge_file decode_file validate_teams_file
    validate_repo_file finalize is_valid_permission one_of topics_issues is_topic normalize
load_pull = refl

-- An empty file leaves its section unmanaged.
load_empty :
    load_settings_dir runtime scheme words (team_and_topic "") ("teams.yml" ∷ [])
    ≡ loaded empty_settings
unfolding load_settings_dir load_results load_result merge_file decode_file normalize
load_empty = refl

load_settings_dir_lem_example :
    load_settings_dir runtime scheme words (team_and_topic "push") teams_first
    ≡ finish
        (from_sections (arrived runtime scheme words (team_and_topic "push") teams_first))
        (errors runtime scheme words (team_and_topic "push") teams_first)
load_settings_dir_lem_example =
    load_settings_dir_lem runtime scheme words (team_and_topic "push") teams_first

same_names : (name : String) → contains teams_first name ≡ contains repo_first name
unfolding contains
same_names name = ground arith

load_settings_dir-order_example :
    load_settings_dir runtime scheme words (team_and_topic "push") repo_first
    ≡ loaded (both_loaded "push")
load_settings_dir-order_example =
    load_settings_dir-order runtime scheme words (team_and_topic "push") teams_first repo_first
      same_names load_push

-- The request for teams.yml fails.
abbrev teams_down : String → Fetched
teams_down name = if name == "teams.yml" then failed "502" else missing

teams_listed : contains repo_first "teams.yml" ≡ true
unfolding contains
teams_listed = refl

load_settings_dir-failed_example :
    (errs : List LoadError) × ((load_settings_dir runtime scheme words teams_down repo_first
        ≡ load_failed errs)
      × Any (λ e. file_of_error e ≡ "teams.yml") errs)
load_settings_dir-failed_example =
    load_settings_dir-failed runtime scheme words teams_down repo_first "teams.yml" teams_listed tt

abbrev webhooks_file : WebhooksFile
webhooks_file = record {
  version = pos 1;
  webhooks = some (
      record {
        url = "https://hooks.example.com/x";
        content_type = some "json";
        insecure_ssl = none;
        active = none;
        events = some ("push" ∷ []);
        secret_ref = "";
      }
      ∷ []);
}

validate_webhooks_file-eq-none_example :
    (validate_webhooks_file runtime scheme webhooks_file ≡ none) ↔ (
      ((pos 1 ≡ pos 1) × IsGiven (items webhooks_file.webhooks))
      × All (IsSoundWebhook runtime scheme) (items webhooks_file.webhooks))
validate_webhooks_file-eq-none_example = validate_webhooks_file-eq-none runtime scheme webhooks_file

webhooks_accepted : validate_webhooks_file runtime scheme webhooks_file ≡ none
unfolding validate_webhooks_file finalize one_of
webhooks_accepted = refl

-- The schemes that a webhook may have.
https_accepted : is_http "https://hooks.example.com/x" ≡ true
https_accepted = refl

ftp_refused : is_http "ftp://hooks.example.com/x" ≡ false
ftp_refused = refl

prefix_refused : is_http "http" ≡ false
prefix_refused = refl

abbrev teams_changed : List String
teams_changed = ".github/settings/teams.yml" ∷ []

teams_key : affected_keys teams_changed ≡ some ("teams" ∷ [])
unfolding affected_keys keys_of lookup contains add
teams_key = refl

topics_out : contains ("teams" ∷ []) "topics" ≡ false
unfolding contains
topics_out = refl

only_teams_changed :
    (name : String)
    → contains teams_changed (concat (".github/settings/" ∷ name ∷ [])) ≡ false
    → team_and_topic "push" name ≡ team_and_topic "pull" name
unfolding contains
only_teams_changed name h = elim (String-cases name "teams.yml") [
  | inl e ↦ absurd (
      ground (
        arith,
        subst (λ n. contains teams_changed (concat (".github/settings/" ∷ n ∷ [])) ≡ false) e h,
      ))
  | inr ne ↦ ground (arith, ne)
]

load_settings_dir-affected_keys_example :
    get topics (both_loaded "push") ≡ get topics (both_loaded "pull")
load_settings_dir-affected_keys_example =
    load_settings_dir-affected_keys runtime scheme words (team_and_topic "push")
      (team_and_topic "pull") teams_first teams_changed topics only_teams_changed teams_key
      topics_out load_push load_pull

abbrev environments_file : EnvironmentsFile
environments_file = record {
  version = pos 1;
  environments = some (
      record {
        name = "prod";
        wait_timer = some (pos 43201);
        prevent_self_review = none;
        reviewers = none;
        deployment_branch_policy = none;
        variables = none;
        secrets = none;
      }
      ∷ []);
}

validate_environments_file-eq-none_example :
    (validate_environments_file runtime environments_file ≡ none) ↔ (
      ((pos 1 ≡ pos 1) × IsGiven (items environments_file.environments))
      × All IsSound (items environments_file.environments))
validate_environments_file-eq-none_example =
    validate_environments_file-eq-none runtime environments_file

push_accepted : validate_teams_file runtime (team_file "push") ≡ none
unfolding validate_teams_file finalize is_valid_permission one_of
push_accepted = refl

validate_teams_file-perm_rank_example :
    All
      (λ (t : TeamAccess).
        (other : String)
        → is_valid_permission other ≡ true
        → perm_rank t.permission ≡ perm_rank other
        → t.permission ≡ other)
      (items (team_file "push").teams)
validate_teams_file-perm_rank_example =
    validate_teams_file-perm_rank runtime (team_file "push") push_accepted

abbrev properties_file : CustomPropertiesFile
properties_file = record {
  version = pos 1;
  custom_properties = field "langs" (arr (cons (text "go") (cons (bool true) nil))) end;
}

validate_custom_properties_file-eq-none_example :
    (validate_custom_properties_file runtime properties_file ≡ none) ↔ (
      ((pos 1 ≡ pos 1) × IsGiven (field_keys properties_file.custom_properties))
      × ((k : String) (v : Value)
          → lookup_field k properties_file.custom_properties ≡ some v
          → IsPropertyValue v))
validate_custom_properties_file-eq-none_example =
    validate_custom_properties_file-eq-none runtime properties_file
