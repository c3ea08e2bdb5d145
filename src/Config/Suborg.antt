-- ===== src/Config/Suborg.antt =====
-- internal/config/suborg.go and glob.go: which repositories a suborg tier applies to.
pub mod Glob
pub use Glob.{matched, Compiles}
unfoldable pub use Glob.{glob_regex, glob_match}
use repositories_settings.Base.{
  ℕ, String, Bool, true, false, ◌&&◌, ◌||◌, not, Option, none, some, List, [], ◌∷◌, concat, any,
  contains, is_empty,
}
use repositories_settings.Value.{Value, Fields, end, field, lookup_field, deep_equal}
use repositories_settings.Config.Schema.{Repo, Slice, items}

pub record SuborgMatch : Type 0 where
  pub repos : Slice String
  pub teams : Slice String
  pub custom_properties : Fields

pub record RepoContext : Type 0 where
  pub repo : Repo
  pub teams : Slice String
  pub custom_properties : Fields

-- `Repo.String`
abbrev pub repo_string : Repo → String
repo_string r = concat (r.owner ∷ "/" ∷ r.name ∷ [])

abbrev no_fields : Fields → Bool
no_fields end = true
no_fields (field k v m) = false

unfoldable pub property_match : Option Value → Value → Bool
property_match none want = false
property_match (some got) want = deep_equal got want

-- The loop over the wanted properties; every one must be there and equal.
unfoldable pub properties_match : Fields → Fields → Bool
properties_match end ctx = true
properties_match (field k want m) ctx =
    property_match (lookup_field k ctx) want && properties_match m ctx

-- A criterion that is empty is not tested.
abbrev pub unless : Bool → Bool → Bool
unless absent test = absent || test

module _ (regexp_match : List ℕ → List ℕ → Option Bool) where
  -- `SuborgMatch.Matches`
  unfoldable pub matches : SuborgMatch → RepoContext → Bool
  unfolding properties_match
  matches m ctx =
      let no_repos = is_empty (items m.repos) in
      let no_teams = is_empty (items m.teams) in
      let no_properties = no_fields m.custom_properties in
      let repo_ok =
        any
          (λ p.
            matched (glob_match regexp_match ctx.repo.name p)
            || matched (glob_match regexp_match (repo_string ctx.repo) p))
          (items m.repos) in
      let team_ok = any (λ t. contains (items m.teams) t) (items ctx.teams) in
      not (no_repos && (no_teams && no_properties))
      && (unless no_repos repo_ok
          && (unless no_teams team_ok
              && unless no_properties (properties_match m.custom_properties ctx.custom_properties)))
