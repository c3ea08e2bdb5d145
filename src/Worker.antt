-- ===== src/Worker.antt =====
-- internal/worker/worker.go: the batches of a pass over the repositories. The prefetch of a batch and the
-- reconcile of a repository are arguments, and so is the order in which the workers of a batch end.
pub mod Batches
use repositories_settings.Base.{
  ℕ, zero, suc, String, Option, none, some, List, [], ◌∷◌, ◌++◌, length, nat_eq, lookup,
  if◌then◌else◌,
}
use repositories_settings.Config.Schema.{Repo}
use repositories_settings.Config.Suborg.{repo_string}
use repositories_settings.Config.Resolution.{Resolution}
use repositories_settings.Reconciler.{Report}

abbrev pub default_batch_size : ℕ
default_batch_size = 50

abbrev pub take {ℓ} : {A : Type ℓ} → ℕ → List A → List A
take zero xs = []
take (suc n) [] = []
take (suc n) (x ∷ xs) = x ∷ take n xs

abbrev pub drop {ℓ} : {A : Type ℓ} → ℕ → List A → List A
drop zero xs = xs
drop (suc n) [] = []
drop (suc n) (x ∷ xs) = drop n xs

-- `repos[i:end]` for every start `i`; the fuel is the number of repositories that are left.
unfoldable pub batches_from : ℕ → ℕ → List Repo → List (List Repo)
batches_from fuel size [] = []
batches_from zero size (r ∷ rs) = []
batches_from (suc fuel) size (r ∷ rs) =
    take size (r ∷ rs) ∷ batches_from fuel size (drop size (r ∷ rs))

-- A batch size of 0 is the default.
abbrev pub size_of : ℕ → ℕ
size_of zero = default_batch_size
size_of (suc n) = suc n

unfoldable pub batches : ℕ → List Repo → List (List Repo)
unfolding batches_from
batches batch_size repos = batches_from (length repos) (size_of batch_size) repos

-- `P` is the state of a repository that the prefetch of its batch found.
module _ {P : Type 0} (settings_for : Repo → Option Resolution)
    (reconcile : Repo → Resolution → Option P → Option Report) where
  abbrev pub found : Option (List (String × P)) → Repo → Option P
  found none repo = none
  found (some states) repo = lookup (repo_string repo) states

  -- An error is logged, and leaves no report.
  abbrev pub run_resolved : Option (List (String × P)) → Repo → Option Resolution → Option Report
  run_resolved prefetched repo none = none
  run_resolved prefetched repo (some res) = reconcile repo res (found prefetched repo)

  unfoldable pub run_one : Option (List (String × P)) → Repo → Option Report
  run_one prefetched repo = run_resolved prefetched repo (settings_for repo)

  abbrev pub add_report : Option Report → List Report → List Report
  add_report none out = out
  add_report (some rep) out = rep ∷ out

  unfoldable pub run_batch : Option (List (String × P)) → List Repo → List Report
  unfolding run_one
  run_batch prefetched [] = []
  run_batch prefetched (repo ∷ repos) =
      add_report (run_one prefetched repo) (run_batch prefetched repos)

  -- `prefetch` answers nothing when it fails; `ended` is the order in which a batch ends.
  module _ (prefetch : List Repo → Option (List (String × P))) (ended : List Repo → List Repo) where
    abbrev pub run_batches : List (List Repo) → List Report
    run_batches [] = []
    run_batches (batch ∷ rest) = run_batch (prefetch batch) (ended batch) ++ run_batches rest

    unfoldable pub reconcile_batch : ℕ → List Repo → List Report
    unfolding batches run_batch
    reconcile_batch batch_size repos = run_batches (batches batch_size repos)
