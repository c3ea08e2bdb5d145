-- ===== src/Tests/RunExamples.antt =====
-- internal/conc and internal/reconciler on small runs.
use repositories_settings.Base.{
  ℕ, ◌+◌, ◌≤◌, ◌≡◌, refl, inl, inr, true, false, Option, none, some, List, [], ◌∷◌, ◌++◌, map,
  is_empty, All, arith, contains, keep,
}
use repositories_settings.Conc.{Status, Pool, start, busy, Reach, worker_count}
use repositories_settings.Conc.Outcome.{IsRight, items_of, map_safe, map_complete}
use repositories_settings.Reconciler.Isolation.{Reported, reconcile-isolation}
use repositories_settings.Tests.Schedule.{one_by_one}
use repositories_settings.Config.Schema.{PolicyViolation, sev_error}
use repositories_settings.Config.Sections.{teams, repo}
use repositories_settings.Config.Disabled.{has, is_section_configured}
use repositories_settings.Config.Resolution.{
  Resolution, repo_only, blocking, desired, is_error, zero_policy,
}
use repositories_settings.Reconciler.{
  panicked, Bodies, reconcile, phase_b, lane_key, violation_result,
}
use repositories_settings.Reconciler.Laws.{
  flat, diffs_of, results_of, skip_of, runs, reconcile-effects, reconcile-refused,
}
use repositories_settings.Tests.Data.{settings_with_team}

abbrev double : ℕ → ℕ
double n = n + n

abbrev numbers : List ℕ
numbers = 1 ∷ 2 ∷ 3 ∷ []

abbrev finished_numbers : Pool ℕ ℕ
finished_numbers = record {
  cancelled = false;
  jobs = map (λ item. (item, Status.finished (double item))) numbers;
}

two_workers : Reach double (worker_count 2 3) (start numbers) finished_numbers
two_workers = one_by_one double (worker_count 2 3) numbers (omega arith)

map_safe_example :
    busy finished_numbers.jobs ≤ 2
    × items_of finished_numbers.jobs ≡ numbers
    × All (IsRight double false) finished_numbers.jobs
map_safe_example = map_safe double 2 numbers finished_numbers two_workers

map_complete_example :
    finished_numbers.jobs ≡ map (λ item. (item, Status.finished (double item))) numbers
map_complete_example = map_complete double 2 numbers finished_numbers two_workers refl refl refl

-- Every lane panics.
abbrev bodies : Bodies
bodies r s dry_run = panicked (lane_key r)

abbrev unblocked : Option Resolution
unblocked = some (repo_only (some (settings_with_team "push")))

not_blocked : is_empty (blocking unblocked) ≡ true
unfolding blocking repo_only
not_blocked = refl

reconcile-effects_example :
    let s = desired unblocked in
    let report = reconcile bodies [] unblocked false in
    report.diffs ≡ flat (diffs_of bodies [] s false) (repo ∷ phase_b)
    × report.applied
      ≡ (skip_of bodies [] s false repo ++ results_of bodies [] s false repo)
        ++ (flat (skip_of bodies [] s false) phase_b ++ flat (results_of bodies [] s false) phase_b)
    × report.blocked ≡ false
reconcile-effects_example = reconcile-effects bodies [] unblocked false not_blocked

teams_run : runs bodies [] (desired unblocked) false teams ≡ true
unfolding desired repo_only is_section_configured has contains
teams_run = refl

teams_configured : is_section_configured (desired unblocked) (lane_key teams) ≡ true
unfolding desired repo_only is_section_configured
teams_configured = refl

teams_disabled : has ("teams" ∷ []) (lane_key teams) ≡ true
unfolding has contains
teams_disabled = refl

reconcile-isolation_example :
    Reported
      (reconcile bodies [] unblocked false)
      (lane_key teams)
      (bodies teams (desired unblocked) false)
reconcile-isolation_example =
    reconcile-isolation bodies [] unblocked false teams not_blocked (inr (inl refl)) teams_run

abbrev breach : PolicyViolation
breach = record {
  field = "teams.dev";
  message = "too much";
  severity = sev_error;
  org_policy = "teams.max_permission";
}

abbrev refused : Resolution
refused = record {
  settings = some (settings_with_team "admin");
  repo_layer = none;
  policy = zero_policy;
  provenance = [];
  violations = breach ∷ [];
}

reconcile-refused_example :
    let report = reconcile bodies [] (some refused) true in
    report ≡ reconcile (λ r s d. panicked "") [] (some refused) true
    × report.blocked ≡ true
    × report.diffs ≡ []
    × report.applied ≡ map violation_result (keep is_error (breach ∷ []))
    × All (λ x. x.success ≡ false) report.applied
reconcile-refused_example =
    reconcile-refused bodies (λ r s d. panicked "") [] refused true (inl refl)
