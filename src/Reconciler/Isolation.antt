-- ===== src/Reconciler/Isolation.antt =====
-- The report of internal/reconciler/reconciler.go lane by lane: what it has of a lane that is run, and of
-- one that the operator disabled.
use repositories_settings.Base.{
  String, concat, none, Bool, true, false, ◌&&◌, Option, some, List, [], ◌∷◌, ◌++◌, ◌≡◌, inl, inr,
  refl, sym, subst, is_empty, All, Any, Any-append_left, Any-append_right, if◌then◌else◌,
}
use repositories_settings.Config.Schema.{Settings}
use repositories_settings.Config.Sections.{Section, repo}
use repositories_settings.Config.Resolution.{Resolution, desired, blocking}
use repositories_settings.Config.Disabled.{DisabledResources, has, is_section_configured}
use repositories_settings.Applier.{updated}
use repositories_settings.Reconciler.{
  Report, Outcome, panicked, returned, Bodies, lane_key, phase_b, skipped_result, lane_out,
  reconcile,
}
use repositories_settings.Reconciler.Laws.{
  flat, runs, diffs_of, results_of, skip_of, reconcile-effects,
}

module _ {A : Type 0} where
  All-Any : (xs : List A) (P : A → Type 0) → ((x : A) → Any (λ y. y ≡ x) xs → P x) → All P xs
  All-Any [] P h = tt
  All-Any (x ∷ xs) P h = (h x (inl refl), All-Any xs P (λ y m. h y (inr m)))

  Any-flat :
      (f : Section → List A) (x : A) (r : Section) (rs : List Section)
      → Any (λ q. q ≡ r) rs
      → Any (λ y. y ≡ x) (f r)
      → Any (λ y. y ≡ x) (flat f rs)
  Any-flat f x r [] m h = elim m [ ]
  Any-flat f x r (q ∷ rs) (inl e) h =
      Any-append_left (λ y. y ≡ x) (f q) (flat f rs) (subst (λ z. Any (λ y. y ≡ x) (f z)) (sym e) h)
  Any-flat f x r (q ∷ rs) (inr m) h =
      Any-append_right (λ y. y ≡ x) (f q) (flat f rs) (Any-flat f x r rs m h)

-- The place of a section's entries in a report.
module _ {A : Type 0} (f g : Section → List A) (x : A) (r : Section) (rs : List Section) where
  abbrev Placed : Type 0
  Placed = Any (λ y. y ≡ x) ((f repo ++ g repo) ++ (flat f rs ++ flat g rs))

  placed-left : Any (λ q. q ≡ r) (repo ∷ rs) → Any (λ y. y ≡ x) (f r) → Placed
  placed-left (inl e) h =
      Any-append_left (λ y. y ≡ x) (f repo ++ g repo) (flat f rs ++ flat g rs)
        (Any-append_left (λ y. y ≡ x) (f repo) (g repo)
          (subst (λ z. Any (λ y. y ≡ x) (f z)) (sym e) h))
  placed-left (inr m) h =
      Any-append_right (λ y. y ≡ x) (f repo ++ g repo) (flat f rs ++ flat g rs)
        (Any-append_left (λ y. y ≡ x) (flat f rs) (flat g rs) (Any-flat f x r rs m h))

  placed-right : Any (λ q. q ≡ r) (repo ∷ rs) → Any (λ y. y ≡ x) (g r) → Placed
  placed-right (inl e) h =
      Any-append_left (λ y. y ≡ x) (f repo ++ g repo) (flat f rs ++ flat g rs)
        (Any-append_right (λ y. y ≡ x) (f repo) (g repo)
          (subst (λ z. Any (λ y. y ≡ x) (g z)) (sym e) h))
  placed-right (inr m) h =
      Any-append_right (λ y. y ≡ x) (f repo ++ g repo) (flat f rs ++ flat g rs)
        (Any-append_right (λ y. y ≡ x) (flat f rs) (flat g rs) (Any-flat g x r rs m h))

skip_of-disabled :
    (disabled : DisabledResources) (s : Settings) (r : Section)
    → is_section_configured s (lane_key r) ≡ true
    → has disabled (lane_key r) ≡ true
    → (skipped_result (lane_key r) ∷ []) ≡ (
        if is_section_configured s (lane_key r) && has disabled (lane_key r)
        then skipped_result (lane_key r) ∷ []
        else [])
skip_of-disabled disabled s r e d = cc (e, d)

-- What the report must have of a lane that ended as `outcome`: of a panic, a failed result that says
-- so; of an error, a failed result with that error, and the differences found; else its differences and
-- its results.
abbrev pub Reported : Report → String → Outcome → Type 0
Reported report resource (panicked p) =
    Any
      (λ y. y ≡ record {
        resource = resource;
        action = updated;
        success = false;
        error = concat ("panic: " ∷ p ∷ []);
        api_calls_used = 0;
      })
      report.applied
Reported report resource (returned out) =
    All (λ x. Any (λ y. y ≡ x) report.diffs) out.diffs × elim out.error [
      | some e ↦
          Any
            (λ y. y ≡ record {
              resource = resource;
              action = updated;
              success = false;
              error = e;
              api_calls_used = 0;
            })
            report.applied
      | none ↦ All (λ x. Any (λ y. y ≡ x) report.applied) out.results
    ]

-- Once all that the lane puts into its slot is in the report, its outcome is reported.
lane_out-Reported :
    (report : Report) (resource : String) (o : Outcome)
    → All (λ x. Any (λ y. y ≡ x) report.diffs) (lane_out resource o).0
    → All (λ x. Any (λ y. y ≡ x) report.applied) (lane_out resource o).1
    → Reported report resource o
lane_out-Reported report resource (panicked p) = λ d a. a.0
lane_out-Reported report resource (returned out) = at_error out.error
  where
    at_error :
        (e : Option String)
        → All
            (λ x. Any (λ y. y ≡ x) report.diffs)
            (lane_out resource (returned (record out { error = e }))).0
        → All
            (λ x. Any (λ y. y ≡ x) report.applied)
            (lane_out resource (returned (record out { error = e }))).1
        → Reported report resource (returned (record out { error = e }))
    at_error (some e) d a = (d, a.0)
    at_error none d a = (d, a)

-- Where a section's lane is configured, not disabled, and org policy does not refuse the run, the
-- report has the differences of that lane and its results; if it ends with an error, a failed result
-- with the error, and if it panics, one that says so, whatever the other lanes do.
pub reconcile-isolation :
    (bodies : Bodies) (disabled : DisabledResources) (res : Option Resolution) (dry_run : Bool)
    (r : Section)
    → is_empty (blocking res) ≡ true
    → Any (λ q. q ≡ r) (repo ∷ phase_b)
    → runs bodies disabled (desired res) dry_run r ≡ true
    → Reported (reconcile bodies disabled res dry_run) (lane_key r) (bodies r (desired res) dry_run)
reconcile-isolation bodies disabled res dry_run r h m e =
    let s = desired res in
    let skips = skip_of bodies disabled s dry_run in
    let diffs = diffs_of bodies disabled s dry_run in
    let results = results_of bodies disabled s dry_run in
    let report = reconcile bodies disabled res dry_run in
    let out = lane_out (lane_key r) (bodies r s dry_run) in
    let effects = reconcile-effects bodies disabled res dry_run h in
    lane_out-Reported report (lane_key r) (bodies r s dry_run)
      (All-Any out.0 (λ x. Any (λ y. y ≡ x) report.diffs)
        (λ x k.
          subst (Any (λ y. y ≡ x)) (sym effects.0)
            (Any-flat diffs x r (repo ∷ phase_b) m (subst (Any (λ y. y ≡ x)) (sym (cc e)) k))))
      (All-Any out.1 (λ x. Any (λ y. y ≡ x) report.applied)
        (λ x k.
          subst (Any (λ y. y ≡ x)) (sym effects.1)
            (placed-right skips results x r phase_b m (subst (Any (λ y. y ≡ x)) (sym (cc e)) k))))

-- Where a section is configured, its key disabled, and org policy does not refuse the run, the report
-- says that its lane was skipped.
pub reconcile-disabled :
    (bodies : Bodies) (disabled : DisabledResources) (res : Option Resolution) (dry_run : Bool)
    (r : Section)
    → is_empty (blocking res) ≡ true
    → Any (λ q. q ≡ r) (repo ∷ phase_b)
    → is_section_configured (desired res) (lane_key r) ≡ true
    → has disabled (lane_key r) ≡ true
    → Any (λ y. y ≡ skipped_result (lane_key r)) (reconcile bodies disabled res dry_run).applied
reconcile-disabled bodies disabled res dry_run r h m e d =
    let s = desired res in
    let skips = skip_of bodies disabled s dry_run in
    let results = results_of bodies disabled s dry_run in
    let x = skipped_result (lane_key r) in
    subst (Any (λ y. y ≡ x)) (sym (reconcile-effects bodies disabled res dry_run h).1) (
      placed-left skips results x r phase_b m
        (subst (Any (λ y. y ≡ x)) (skip_of-disabled disabled s r e d) (inl refl)))
