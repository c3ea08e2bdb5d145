-- ===== src/Tests/OrgExamples.antt =====
-- internal/config/org.go on a small admin repository.
use repositories_settings.Base.{
  String, ◌==◌, ◌≡◌, refl, some, none, [], ◌∷◌, contains, if◌then◌else◌,
}
use repositories_settings.Base.Int.{pos}
use repositories_settings.Value.{end}
use repositories_settings.Config.Suborg.{SuborgMatch}
use repositories_settings.Config.Resolver.{empty_settings}
use repositories_settings.Config.Resolution.{Suborg}
use repositories_settings.Config.Normalize.{normalize}
use repositories_settings.Config.Loader.{Fetched, missing, content, load_results, load_settings_dir}
use repositories_settings.Config.Org.{
  OrgDecoder, rejected, accepted, done, path_base, name_issue, scan, suborg_index_path,
  load_suborgs,
}
use repositories_settings.Config.Org.Names.{AllOwn, load_suborgs-AllOwn}
use repositories_settings.Tests.Data.{runtime}
use repositories_settings.Tests.LoaderExamples.{scheme, words}

abbrev all_repos : SuborgMatch
all_repos = record { repos = none; teams = none; custom_properties = end }

-- An index with one suborg, whose name is the content of the file.
abbrev one_suborg : OrgDecoder
one_suborg = record {
  policy_file = λ raw. rejected "no policy";
  index_file = λ raw.
      accepted (record {
        version = pos 1;
        suborgs = some (record { name = raw; match = all_repos } ∷ []);
      });
}

abbrev index_with : String → String → Fetched
index_with raw path = if path == suborg_index_path then content raw else missing

abbrev read_suborg : String → Suborg
read_suborg name = record { name = name; match = all_repos; settings = some empty_settings }

platform_read :
    load_suborgs runtime scheme words one_suborg (λ s. s) (λ dir. []) (index_with "platform")
    ≡ done (read_suborg "platform" ∷ [])
unfolding load_suborgs scan name_issue path_base contains load_settings_dir load_results normalize
platform_read = refl

-- The slash alone is its own base, and is accepted as a name.
slash_read :
    load_suborgs runtime scheme words one_suborg (λ s. s) (λ dir. []) (index_with "/")
    ≡ done (read_suborg "/" ∷ [])
unfolding load_suborgs scan name_issue path_base contains load_settings_dir load_results normalize
slash_read = refl

load_suborgs-AllOwn_example :
    AllOwn runtime scheme words one_suborg
      (λ s. s)
      (λ dir. [])
      (index_with "/")
      []
      (read_suborg "/" ∷ [])
load_suborgs-AllOwn_example =
    load_suborgs-AllOwn runtime scheme words one_suborg (λ s. s) (λ dir. []) (index_with "/")
      (read_suborg "/" ∷ []) slash_read
