-- ===== src/Reconciler/Laws.antt =====
-- The report of internal/reconciler/reconciler.go as a whole: the refusal by org policy, the
-- operator's deny-set, and the lanes beside each other.
use repositories_settings.Base.{
  Bool, true, false, ◌||◌, ◌&&◌, not, Option, some, List, [], ◌∷◌, ◌++◌, ◌≡◌, inl, inr, refl, sym,
  ap, subst, ◌∙◌, arith, is_empty, map, keep, All, Any, Bool-cases, if◌then◌else◌,
}
use repositories_settings.Config.Schema.{Settings, PolicyViolation, sev_error}
use repositories_settings.Config.Sections.{Section, repo, topics, is_set}
use repositories_settings.Config.Resolution.{Resolution, desired, blocking, is_error}
use repositories_settings.Config.Disabled.{DisabledResources, has, is_section_configured}
use repositories_settings.Diff.{Diff}
use repositories_settings.Applier.{Result}
use repositories_settings.Reconciler.{
  Bodies, lane_key, phase_b, skipped_result, lane_out, run_lane, violation_result, violations_of,
  specs, select, collect, phase_a, reconcile,
}

-- The outputs of the sections one after another.
abbrev pub flat {ℓ} : {A : Type ℓ} → (Section → List A) → List Section → List A
flat f [] = []
flat f (r ∷ rs) = f r ++ flat f rs

module _ (bodies : Bodies) (disabled : DisabledResources) (s : Settings) (dry_run : Bool) where
  -- The lane of a section is run when the section is configured and its key is not disabled.
  abbrev pub runs : Section → Bool
  runs r = is_section_configured s (lane_key r) && not (has disabled (lane_key r))

  abbrev pub diffs_of : Section → List Diff
  diffs_of r = if runs r then (lane_out (lane_key r) (bodies r s dry_run)).0 else []

  abbrev pub results_of : Section → List Result
  results_of r = if runs r then (lane_out (lane_key r) (bodies r s dry_run)).1 else []

  -- A configured section with a disabled key leaves a mark.
  abbrev pub skip_of : Section → List Result
  skip_of r =
      if is_section_configured s (lane_key r) && has disabled (lane_key r)
      then skipped_result (lane_key r) ∷ []
      else []

  select-collect :
      (rs : List Section)
      → All (λ r. is_section_configured s (lane_key r) ≡ is_set r s) rs
      → ((select disabled (specs bodies s rs)).0 ≡ flat skip_of rs)
        × ((collect (select disabled (specs bodies s rs)).1 dry_run).0 ≡ flat diffs_of rs)
        × (collect (select disabled (specs bodies s rs)).1 dry_run).1 ≡ flat results_of rs
  unfolding select collect
  select-collect [] h = (refl, refl, refl)
  select-collect (r ∷ rs) h =
      let (e1, e2, e3) = select-collect rs h.1 in
      let k = h.0 in
      elim (Bool-cases (is_set r s)) [
        | inl i ↦ elim (Bool-cases (has disabled (lane_key r))) [
          | inl d ↦ (cc, cc, cc)
          | inr d ↦ (cc, cc, cc)
        ]
        | inr i ↦ (cc, cc, cc)
      ]

  phase_b-configured : All (λ r. is_section_configured s (lane_key r) ≡ is_set r s) phase_b
  unfolding is_section_configured
  phase_b-configured = (
    refl,
    (
      refl,
      (
        refl,
        (refl, (refl, (refl, (refl, (refl, (refl, (refl, (refl, (refl, (refl, (refl, tt))))))))))),
      ),
    ),
  )

  phase_a-eq :
      ((phase_a bodies disabled s dry_run).0 ≡ diffs_of repo)
      × (phase_a bodies disabled s dry_run).1 ≡ skip_of repo ++ results_of repo
  unfolding phase_a run_lane is_section_configured
  phase_a-eq = elim (Bool-cases (is_set repo s || is_set topics s)) [
    | inl i ↦ elim (Bool-cases (has disabled "repository")) [ inl d ↦ (cc, cc) | inr d ↦ (cc, cc) ]
    | inr i ↦ (cc, cc)
  ]

-- A reconcile that org policy does not refuse is the lanes of the configured sections whose keys are
-- not disabled: its diffs are theirs, repository first and then in the order of the lanes, and its
-- results are the repository's, a mark for each configured section that is disabled, and then the
-- results of the other lanes.
pub reconcile-effects :
    (bodies : Bodies) (disabled : DisabledResources) (res : Option Resolution) (dry_run : Bool)
    → is_empty (blocking res) ≡ true
    → let s = desired res in
      let report = reconcile bodies disabled res dry_run in
      report.diffs ≡ flat (diffs_of bodies disabled s dry_run) (repo ∷ phase_b)
      × report.applied
        ≡ (skip_of bodies disabled s dry_run repo ++ results_of bodies disabled s dry_run repo)
          ++ (flat (skip_of bodies disabled s dry_run) phase_b
              ++ flat (results_of bodies disabled s dry_run) phase_b)
      × report.blocked ≡ false
unfolding reconcile
reconcile-effects bodies disabled res dry_run h =
    let s = desired res in
    let (a, b) = phase_a-eq bodies disabled s dry_run in
    let (e1, e2, e3) =
      select-collect bodies disabled s dry_run phase_b
        (phase_b-configured bodies disabled s dry_run) in
    (cc, cc, cc)

blocking-refuses :
    (bodies : Bodies) (disabled : DisabledResources) (res : Option Resolution) (dry_run : Bool)
    → is_empty (blocking res) ≡ false
    → reconcile bodies disabled res dry_run ≡ record {
      diffs = [];
      applied = map violation_result (blocking res);
      dry_run = dry_run;
      violations = violations_of res;
      blocked = true;
    }
unfolding reconcile
blocking-refuses bodies disabled res dry_run h = cc h

keep-is_error-some :
    (vs : List PolicyViolation)
    → Any (λ v. v.severity ≡ sev_error) vs
    → is_empty (keep is_error vs) ≡ false
keep-is_error-some [] m = elim m [ ]
keep-is_error-some (v ∷ vs) (inl e) = rw e
keep-is_error-some (v ∷ vs) (inr m) = ground (arith, keep-is_error-some vs m)

All-failed : (vs : List PolicyViolation) → All (λ x. x.success ≡ false) (map violation_result vs)
All-failed [] = tt
All-failed (v ∷ vs) = (refl, All-failed vs)

-- One violation of error severity, whatever its place, refuses the whole run, a dry run too: no lane
-- has an effect on the report, nothing is reported as changed, there is a failed result for each
-- such violation, and no success.
pub reconcile-refused :
    (bodies bodies' : Bodies) (disabled : DisabledResources) (res : Resolution) (dry_run : Bool)
    → Any (λ v. v.severity ≡ sev_error) res.violations
    → let report = reconcile bodies disabled (some res) dry_run in
      report ≡ reconcile bodies' disabled (some res) dry_run
      × report.blocked ≡ true
      × report.diffs ≡ []
      × report.applied ≡ map violation_result (keep is_error res.violations)
      × All (λ x. x.success ≡ false) report.applied
unfolding blocking
reconcile-refused bodies bodies' disabled res dry_run m =
    let k = keep-is_error-some res.violations m in
    let e = blocking-refuses bodies disabled (some res) dry_run k in
    let e' = blocking-refuses bodies' disabled (some res) dry_run k in
    (
      e ∙ sym e',
      ap (λ rep. rep.blocked) e,
      ap (λ rep. rep.diffs) e,
      ap (λ rep. rep.applied) e,
      subst (λ rep. All (λ x. x.success ≡ false) rep.applied) (sym e)
          (All-failed (keep is_error res.violations)),
    )
