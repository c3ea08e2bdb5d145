-- ===== src/Tests/Data.antt =====
-- Inputs of the tests.
use repositories_settings.Base.{String, refl, true, false, none, some, [], ◌∷◌}
use repositories_settings.Base.Int.{pos}
use repositories_settings.Value.{Fields, text, bool, num, integer, obj, end, field}
use repositories_settings.Config.Schema.{Settings, TeamsConfig}
use repositories_settings.Config.Resolver.{empty_settings}
use repositories_settings.Config.Admin.{AdminPolicy}
use repositories_settings.Config.Suborg.{RepoContext}
use repositories_settings.Config.Resolution.{AdminLayer, zero_policy}
use repositories_settings.Config.Policy.Inputs.{Runtime}
use repositories_settings.Diff.Compare.{Encoding}

-- A regexp engine that accepts everything, and a range in the order of the map.
abbrev pub runtime : Runtime
runtime = record {
  quote = λ s. s;
  decimal = λ n. "0";
  regexp_match = λ re s. some true;
  range = λ ks. ks;
  contains-range = λ ks k. refl;
}

abbrev pub encoding : Encoding
encoding = record { number_text = λ n. "0"; string_text = λ s. s; sprint_other = λ v. "?" }

abbrev pub dev_team : String → TeamsConfig
dev_team permission = record {
  teams = some (record { slug = "dev"; permission = permission } ∷ []);
}

abbrev pub settings_with_team : String → Settings
settings_with_team permission = record empty_settings { teams = some (dev_team permission) }

abbrev pub settings_with_topics : Settings
settings_with_topics = record empty_settings { topics = some ("go" ∷ []) }

-- No team may have more than `push`, and one named after a service has `push` or `pull`.
abbrev pub ceiling_policy : AdminPolicy
ceiling_policy = record zero_policy {
  teams = some (record {
    allow_repo_level = none;
    max_permission = some "push";
    required_teams = none;
    permission_by_pattern =
        some (
          record { pattern_text = "svc-*"; allowed_permissions = some ("push" ∷ "pull" ∷ []) }
          ∷ []);
  });
}

abbrev pub admin_layer : AdminLayer
admin_layer = record {
  settings = some settings_with_topics;
  policy = ceiling_policy;
  suborgs =
      record {
        name = "platform";
        match = record { repos = some ("svc-*" ∷ []); teams = none; custom_properties = end };
        settings = some (settings_with_team "pull");
      }
      ∷ [];
}

abbrev pub repo_context : RepoContext
repo_context = record {
  repo = record { owner = "o"; name = "svc-a" };
  teams = none;
  custom_properties = end;
}

-- Two rulesets, live and desired, that differ in a nested field.
abbrev pub live_item : Fields
live_item =
    field "name" (text "main") (
      field "rules" (obj (field "strict" (bool false) end))
        (field "id" (num (integer (pos 7))) end))

abbrev pub desired_item : Fields
desired_item = field "name" (text "main") (field "rules" (obj (field "strict" (bool true) end)) end)

abbrev pub new_item : Fields
new_item = field "name" (text "release") end
