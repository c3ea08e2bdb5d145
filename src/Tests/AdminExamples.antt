-- ===== src/Tests/AdminExamples.antt =====
-- internal/config/admin_cache.go on a small organization.
use repositories_settings.Base.{
  String, ◌==◌, ◌≡◌, refl, Bool, none, some, [], lookup, mem_rune, arith,
}
use repositories_settings.Config.Schema.{Repo}
use repositories_settings.Config.Resolution.{AdminLayer}
use repositories_settings.Config.AdminCache.{
  AdminRead, layer, unreadable, governed, Entries, validate_admin_repo_ref, admin_repo_for,
  for_target,
}
use repositories_settings.Config.AdminCache.Laws.{outcome, for_target-again}
use repositories_settings.Tests.Data.{admin_layer}

abbrev same : String → String → Bool
same s t = s == t

abbrev service : Repo
service = record { owner = "acme"; name = "svc" }

abbrev settings_repo : Repo
settings_repo = record { owner = "acme"; name = "settings" }

abbrev reachable : Repo → AdminRead
reachable repo = layer admin_layer

abbrev down : Repo → AdminRead
down repo = unreadable "502"

-- A bare name is looked for at the owner of the target.
resolved : admin_repo_for same "settings" service ≡ some settings_repo
unfolding admin_repo_for
resolved = refl

-- The admin repository is not governed by itself.
not_itself : admin_repo_for same "settings" settings_repo ≡ none
unfolding admin_repo_for
not_itself = refl

well_formed : validate_admin_repo_ref "settings" ≡ none
unfolding validate_admin_repo_ref mem_rune
well_formed = refl

traversal :
    validate_admin_repo_ref "acme/.."
    ≡ some "ORG_ADMIN_REPO contains an invalid repository path segment"
unfolding validate_admin_repo_ref mem_rune
traversal = refl

abbrev no_entries : Entries
no_entries = []

for_target-again_example :
    let out = for_target same reachable 300 "settings" 10 service no_entries in
    (out.1 ≡ outcome (layer admin_layer))
    × (((l : AdminLayer)
          → layer admin_layer ≡ layer l
          → for_target same down 300 "settings" 310 service out.0 ≡ (out.0, governed l))
        × ((e : String)
            → layer admin_layer ≡ unreadable e
            → (for_target same down 300 "settings" 310 service out.0).1
              ≡ outcome (unreadable "502")))
unfolding lookup
for_target-again_example =
    for_target-again same 300 "settings" service settings_repo refl well_formed resolved reachable
      down 10 310 no_entries refl (omega arith)
