-- ===== src/Tests/PolicyExamples.antt =====
-- The org policy on small settings.
use repositories_settings.Base.{◌≡◌, refl, ◌↔◌, some, [], lookup}
use repositories_settings.Config.Sections.{teams, get}
use repositories_settings.Config.Policy.{validate_policy}
use repositories_settings.Config.Policy.Spec.{Complies}
use repositories_settings.Config.Policy.Compliance.{validate_policy-eq-nil}
use repositories_settings.Config.Policy.Severity.{AreErrors, validate_policy-errors}
use repositories_settings.Config.Suborg.{glob_match, Compiles}
use repositories_settings.Config.Resolution.{resolve_for, blocking, desired}
use repositories_settings.Config.Resolution.Laws.{
  AllCompile, blocking-resolve_for, resolve_for-repo_wins,
}
use repositories_settings.Tests.Data.{
  runtime, settings_with_team, ceiling_policy, admin_layer, repo_context,
}

svc-Compiles : Compiles runtime.regexp_match "svc-*"
unfolding glob_match
svc-Compiles text = refl

all_compile : AllCompile runtime admin_layer
all_compile = ((svc-Compiles, tt), ((svc-Compiles, tt), tt))

validate_policy-eq-nil_example :
    (validate_policy runtime
        (some (settings_with_team "admin"))
        (some (settings_with_team "admin"))
        ceiling_policy
      ≡ [])
    ↔ Complies runtime
        (some (settings_with_team "admin"))
        (some (settings_with_team "admin"))
        ceiling_policy
validate_policy-eq-nil_example =
    validate_policy-eq-nil runtime (some (settings_with_team "admin"))
      (some (settings_with_team "admin")) ceiling_policy all_compile.0

validate_policy-errors_example : AreErrors (
    validate_policy runtime
      (some (settings_with_team "admin"))
      (some (settings_with_team "admin"))
      ceiling_policy)
validate_policy-errors_example =
    validate_policy-errors runtime (some (settings_with_team "admin"))
      (some (settings_with_team "admin")) ceiling_policy

blocking-resolve_for_example :
    let res =
      resolve_for runtime (some admin_layer) (some (settings_with_team "admin")) repo_context in
    (blocking (some res) ≡ [])
    ↔ Complies runtime
        (some (desired (some res)))
        (some (settings_with_team "admin"))
        ceiling_policy
blocking-resolve_for_example =
    blocking-resolve_for runtime admin_layer (some (settings_with_team "admin")) repo_context
      all_compile

resolve_for-repo_wins_example :
    let res =
      resolve_for runtime (some admin_layer) (some (settings_with_team "push")) repo_context in
    (get teams (desired (some res)) ≡ get teams (settings_with_team "push"))
    × (lookup "teams" res.provenance ≡ some "repo")
resolve_for-repo_wins_example =
    resolve_for-repo_wins runtime (some admin_layer) (settings_with_team "push") repo_context teams
      refl
