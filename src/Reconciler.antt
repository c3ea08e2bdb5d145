-- ===== src/Reconciler.antt =====
-- internal/reconciler/reconciler.go: the phased reconcile of one repository. What a lane does to
-- GitHub is an argument: its outcome, a panic included. The time of a run, the log and the metrics are left out, and
-- the results of the parallel lanes are collected by their place in the list, as in the source.
pub mod Laws
pub mod Isolation
use repositories_settings.Base.{
  ℕ, ◌+◌, String, Bool, true, false, ◌||◌, Option, none, some, List, [], ◌∷◌, ◌++◌, concat, is_some,
  is_empty, map, any, length, if◌then◌else◌,
}
use repositories_settings.Config.Schema.{Settings, PolicyViolation}
use repositories_settings.Config.Sections.{
  Section, repo, topics, teams, rulesets, branches, environments, webhooks, autolinks, actions,
  security, pages, secrets, variables, deploy_keys, custom_properties, collaborators, is_set,
}
use repositories_settings.Config.Resolution.{Resolution, desired, blocking}
use repositories_settings.Config.Disabled.{DisabledResources, has}
use repositories_settings.Diff.{Diff}
use repositories_settings.Applier.{Result, LaneOut, updated, skipped, failure}

-- A call of a lane's closure comes back or panics.
pub data Outcome : Type 0 where
  returned : LaneOut → Outcome
  panicked : String → Outcome

-- `Run` is nil for a section that is not configured; the flag is `dryRun`.
pub record Lane : Type 0 where
  pub resource : String
  pub run : Option (Bool → Outcome)

pub record LaneSpec : Type 0 where
  pub key : String
  pub lane : Lane

pub record Report : Type 0 where
  pub diffs : List Diff
  pub applied : List Result
  pub dry_run : Bool
  pub violations : List PolicyViolation
  pub blocked : Bool

-- The closures of the lanes: that of a section with these settings.
abbrev pub Bodies : Type 0
Bodies = Section → Settings → Bool → Outcome

-- The keys of the deny-set; topics ride the lane of the repository.
abbrev pub lane_key : Section → String
lane_key repo = "repository"
lane_key topics = "repository"
lane_key teams = "teams"
lane_key rulesets = "rulesets"
lane_key environments = "environments"
lane_key webhooks = "webhooks"
lane_key autolinks = "autolinks"
lane_key actions = "actions"
lane_key security = "security"
lane_key pages = "pages"
lane_key secrets = "secrets"
lane_key variables = "variables"
lane_key deploy_keys = "deploy_keys"
lane_key custom_properties = "custom_properties"
lane_key collaborators = "collaborators"
lane_key branches = "branches"

abbrev pub phase_b : List Section
phase_b =
    teams ∷ rulesets ∷ environments ∷ webhooks ∷ autolinks ∷ actions ∷ security ∷ pages ∷ secrets
    ∷ variables ∷ deploy_keys ∷ custom_properties ∷ collaborators ∷ branches ∷ []

abbrev pub skipped_result : String → Result
skipped_result key = record {
  resource = key;
  action = skipped;
  success = true;
  error = "disabled by operator policy";
  api_calls_used = 0;
}

abbrev pub lane_failure : String → String → Result
lane_failure resource e = failure resource updated e 0

-- The lane's error takes the place of its results, and so does its panic.
abbrev pub lane_out : String → Outcome → List Diff × List Result
lane_out resource (panicked p) = ([], lane_failure resource (concat ("panic: " ∷ p ∷ [])) ∷ [])
lane_out resource (returned out) = elim out.error [
  | some e ↦ (out.diffs, lane_failure resource e ∷ [])
  | none ↦ (out.diffs, out.results)
]

-- Only a lane with a closure is run.
unfoldable pub run_lane : Lane → Bool → List Diff × List Result
run_lane l dry_run = elim l.run [ none ↦ ([], []) | some run ↦ lane_out l.resource (run dry_run) ]

abbrev pub violation_result : PolicyViolation → Result
violation_result v = record {
  resource = v.field;
  action = skipped;
  success = false;
  error = concat (v.message ∷ " (org policy: " ∷ v.org_policy ∷ ")" ∷ []);
  api_calls_used = 0;
}

abbrev pub violations_of : Option Resolution → List PolicyViolation
violations_of none = []
violations_of (some res) = res.violations

-- `New…Lane`: no closure for a section that is nil.
abbrev pub new_lane : Bodies → Settings → Section → Lane
new_lane bodies s r = record {
  resource = lane_key r;
  run = if is_set r s then some (bodies r s) else none;
}

abbrev pub specs : Bodies → Settings → List Section → List LaneSpec
specs bodies s [] = []
specs bodies s (r ∷ rs) =
    record { key = lane_key r; lane = new_lane bodies s r } ∷ specs bodies s rs

-- The loop over the specs: the results of the disabled lanes, and the lanes that run.
unfoldable pub select : DisabledResources → List LaneSpec → List Result × List Lane
unfolding has
select disabled [] = ([], [])
select disabled (spec ∷ specs) =
    let (skips, lanes) = select disabled specs in
    elim spec.lane.run [
      | none ↦ (skips, lanes)
      | some run ↦
          if has disabled spec.key
          then (skipped_result spec.key ∷ skips, lanes)
          else (skips, spec.lane ∷ lanes)
    ]

-- The outputs of the lanes, appended in the order of the lanes.
unfoldable pub collect : List Lane → Bool → List Diff × List Result
unfolding run_lane
collect [] dry_run = ([], [])
collect (l ∷ ls) dry_run =
    let (ds, rs) = run_lane l dry_run in
    let (ds', rs') = collect ls dry_run in (ds ++ ds', rs ++ rs')

-- The repository lane, whose closure there always is.
unfoldable pub phase_a : Bodies → DisabledResources → Settings → Bool → List Diff × List Result
unfolding has run_lane
phase_a bodies disabled s dry_run =
    if is_set repo s || is_set topics s
    then (if has disabled "repository"
        then ([], skipped_result "repository" ∷ [])
        else run_lane (record { resource = "repository"; run = some (bodies repo s) }) dry_run)
    else ([], [])

unfoldable pub reconcile : Bodies → DisabledResources → Option Resolution → Bool → Report
unfolding desired blocking phase_a select collect
reconcile bodies disabled res dry_run =
    let refused = blocking res in
    if is_empty refused
    then (let s = desired res in
        let (ds_a, rs_a) = phase_a bodies disabled s dry_run in
        let (skips, lanes) = select disabled (specs bodies s phase_b) in
        let (ds_b, rs_b) = collect lanes dry_run in
        record {
          diffs = ds_a ++ ds_b;
          applied = rs_a ++ (skips ++ rs_b);
          dry_run = dry_run;
          violations = violations_of res;
          blocked = false;
        })
    else record {
      diffs = [];
      applied = map violation_result refused;
      dry_run = dry_run;
      violations = violations_of res;
      blocked = true;
    }

abbrev pub has_failure : List Result → Bool
has_failure [] = false
has_failure (r ∷ rs) = if r.success then has_failure rs else true

abbrev pub failures : List Result → ℕ
failures [] = 0
failures (r ∷ rs) = let n = failures rs in if r.success then n else 1 + n
