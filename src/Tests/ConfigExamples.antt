-- ===== src/Tests/ConfigExamples.antt =====
-- internal/config on small settings.
use repositories_settings.Base.{
  add, String, ◌≡◌, refl, ◌++◌, none, some, List, [], ◌∷◌, any, lookup, contains, codes, mem_rune,
  arith, All,
}
use repositories_settings.Config.Sections.{teams, topics, get}
use repositories_settings.Config.Resolver.{empty_settings, Layer, resolve}
use repositories_settings.Config.Resolver.Laws.{resolve_last_wins}
use repositories_settings.Config.Selective.{keys_of, affected_keys, filter, keep_if}
use repositories_settings.Config.Selective.Laws.{filter-affected_keys, touches}
use repositories_settings.Config.Disabled.{has}
use repositories_settings.Config.Suborg.Glob.{IsPlain}
use repositories_settings.Tests.Data.{settings_with_team, settings_with_topics}

abbrev team_layer : String → String → Layer
team_layer source permission = record {
  source = source;
  settings = some (settings_with_team permission);
}

abbrev topic_layer : Layer
topic_layer = record { source = "repo"; settings = some settings_with_topics }

resolve_last_wins_example :
    let (out, prov) =
      resolve ((team_layer "org" "pull" ∷ []) ++ team_layer "suborg:p" "push" ∷ topic_layer ∷ []) in
    (get teams out ≡ get teams (settings_with_team "push"))
    × (lookup "teams" prov ≡ some "suborg:p")
resolve_last_wins_example =
    resolve_last_wins teams (team_layer "org" "pull" ∷ []) (topic_layer ∷ []) "suborg:p"
      (settings_with_team "push") refl (refl, tt)

abbrev pushed : List String
pushed = ".github/settings/teams.yml" ∷ []

pushed_keys : affected_keys pushed ≡ some ("teams" ∷ [])
unfolding affected_keys keys_of lookup contains add
pushed_keys = refl

readme_unknown : keys_of "README.md" ≡ none
unfolding keys_of lookup
readme_unknown = refl

filtered : filter (some settings_with_topics) (affected_keys pushed) ≡ some empty_settings
unfolding affected_keys keys_of lookup filter contains add
filtered = refl

filter-affected_keys_example :
    get topics empty_settings ≡ keep_if (any (touches "topics") pushed) (some ("go" ∷ []))
filter-affected_keys_example =
    filter-affected_keys topics settings_with_topics pushed ("teams" ∷ []) pushed_keys filtered

svc-IsPlain : All IsPlain (codes "svc-?")
unfolding mem_rune
svc-IsPlain = (
  (refl, refl, refl),
  ((refl, refl, refl), ((refl, refl, refl), ((refl, refl, refl), ((refl, refl, refl), tt)))),
)

same_members : (k : String) → has ("pages" ∷ "teams" ∷ []) k ≡ has ("teams" ∷ "pages" ∷ []) k
unfolding has contains
same_members k = ground arith
