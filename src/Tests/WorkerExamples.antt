-- ===== src/Tests/WorkerExamples.antt =====
-- internal/worker/worker.go on three repositories.
use repositories_settings.Base.{
  ℕ, String, ◌≡◌, refl, Option, none, some, List, [], ◌∷◌, All, Any, inl, inr, false,
}
use repositories_settings.Config.Schema.{Repo}
use repositories_settings.Config.Resolution.{Resolution, repo_only}
use repositories_settings.Reconciler.{Report}
use repositories_settings.Worker.{batches, size_of, run_one, reconcile_batch}
use repositories_settings.Worker.Batches.{all_of, IsBatch, batches_lem, reconcile_batch-Any}

abbrev repo_named : String → Repo
repo_named name = record { owner = "acme"; name = name }

abbrev three : List Repo
three = repo_named "a" ∷ repo_named "b" ∷ repo_named "c" ∷ []

-- The last batch is short.
by_two : batches 2 three ≡ (repo_named "a" ∷ repo_named "b" ∷ []) ∷ (repo_named "c" ∷ []) ∷ []
unfolding batches
by_two = refl

batches_lem_example :
    (all_of (batches 2 three) ≡ three) × All (IsBatch (size_of 2)) (batches 2 three)
batches_lem_example = batches_lem 2 three

abbrev settled : Repo → Option Resolution
settled repo = some (repo_only none)

abbrev empty_run : Repo → Resolution → Option ℕ → Option Report
empty_run repo res state =
    some (record { diffs = []; applied = []; dry_run = false; violations = []; blocked = false })

abbrev no_states : List Repo → Option (List (String × ℕ))
no_states batch = none

reconcile_batch-Any_example :
    (batch : List Repo) × (Any (λ b. b ≡ batch) (batches 2 three)
      × (Any (λ x. x ≡ repo_named "c") batch
          × ((rep : Report)
              → run_one settled empty_run (no_states batch) (repo_named "c") ≡ some rep
              → Any (λ x. x ≡ rep) (reconcile_batch settled empty_run no_states (λ b. b) 2 three))))
reconcile_batch-Any_example =
    reconcile_batch-Any settled empty_run no_states (λ b. b) (λ b r h. h) 2 three (repo_named "c")
      (inr (inr (inl refl)))
