-- ===== src/Worker/Batches.antt =====
-- internal/worker/worker.go: the batches cover the repositories, and every repository is run.
use repositories_settings.Base.{
  ℕ, zero, suc, ◌≤◌, String, ◌≡◌, ◌≢◌, refl, sym, ap, ◌∙◌, subst, Option, none, some, List, [], ◌∷◌,
  ◌++◌, length, arith, All, Any, Any-append_left, Any-append_right, inl, inr, ◌⊎◌,
}
use repositories_settings.Config.Schema.{Repo}
use repositories_settings.Config.Resolution.{Resolution}
use repositories_settings.Reconciler.{Report}
use repositories_settings.Worker.{
  take, drop, batches_from, size_of, batches, run_one, add_report, run_batch, run_batches,
  reconcile_batch,
}

take-drop : (n : ℕ) (xs : List Repo) → take n xs ++ drop n xs ≡ xs
take-drop zero xs = refl
take-drop (suc n) [] = refl
take-drop (suc n) (x ∷ xs) = ap (λ t. x ∷ t) (take-drop n xs)

length-take : (n : ℕ) (xs : List Repo) → length (take n xs) ≤ n
length-take zero xs = omega arith
length-take (suc n) [] = omega arith
length-take (suc n) (x ∷ xs) = omega (arith, length-take n xs)

length-drop : (n : ℕ) (xs : List Repo) → length (drop n xs) ≤ length xs
length-drop zero xs = omega arith
length-drop (suc n) [] = omega arith
length-drop (suc n) (x ∷ xs) = omega (arith, length-drop n xs)

abbrev pub all_of : List (List Repo) → List Repo
all_of [] = []
all_of (b ∷ bs) = b ++ all_of bs

abbrev pub IsBatch : ℕ → List Repo → Type 0
IsBatch size b = (b ≢ []) × (length b ≤ size)

cons_not_nil : {x : Repo} {xs : List Repo} → x ∷ xs ≢ []
cons_not_nil e = ground (arith, e)

batches_from_lem :
    (fuel n : ℕ) (repos : List Repo)
    → length repos ≤ fuel
    → (all_of (batches_from fuel (suc n) repos) ≡ repos)
      × All (IsBatch (suc n)) (batches_from fuel (suc n) repos)
unfolding batches_from
batches_from_lem fuel n [] h = (refl, tt)
batches_from_lem zero n (r ∷ rs) h = absurd (ground (arith, h))
batches_from_lem (suc fuel) n (r ∷ rs) h =
    let shorter : length (drop n rs) ≤ fuel = omega (arith, length-drop n rs, h) in
    let rest = batches_from_lem fuel n (drop n rs) shorter in
    (
      ap (λ t. r ∷ (take n rs ++ t)) rest.0 ∙ ap (λ t. r ∷ t) (take-drop n rs),
      ((cons_not_nil, omega (arith, length-take n rs)), rest.1),
    )

-- The batches, one after another, are the repositories in their order, and each has at least one and at
-- most as many as the batch size, or fifty where that is 0.
pub batches_lem :
    (batch_size : ℕ) (repos : List Repo)
    → (all_of (batches batch_size repos) ≡ repos)
      × All (IsBatch (size_of batch_size)) (batches batch_size repos)
unfolding batches
batches_lem zero repos = batches_from_lem (length repos) 49 repos (omega arith)
batches_lem (suc n) repos = batches_from_lem (length repos) n repos (omega arith)

Any-append_inv : (P : Repo → Type 0) (xs ys : List Repo) → Any P (xs ++ ys) → Any P xs ⊎ Any P ys
Any-append_inv P [] ys h = inr h
Any-append_inv P (x ∷ xs) ys (inl h) = inl (inl h)
Any-append_inv P (x ∷ xs) ys (inr h) = elim (Any-append_inv P xs ys h) [
  | inl k ↦ inl (inr k)
  | inr k ↦ inr k
]

module _ {P : Type 0} (settings_for : Repo → Option Resolution)
    (reconcile : Repo → Resolution → Option P → Option Report) where
  add_report-Any :
      (o : Option Report) (out : List Report) (rep : Report)
      → Any (λ x. x ≡ rep) out
      → Any (λ x. x ≡ rep) (add_report settings_for reconcile o out)
  add_report-Any none out rep h = h
  add_report-Any (some r) out rep h = inr h

  run_batch-Any :
      (prefetched : Option (List (String × P))) (repos : List Repo) (r : Repo) (rep : Report)
      → Any (λ x. x ≡ r) repos
      → run_one settings_for reconcile prefetched r ≡ some rep
      → Any (λ x. x ≡ rep) (run_batch settings_for reconcile prefetched repos)
  unfolding run_batch
  run_batch-Any prefetched [] r rep h k = elim h [ ]
  run_batch-Any prefetched (x ∷ xs) r rep (inl e) k =
      let out = run_batch settings_for reconcile prefetched xs in
      let this = ap (run_one settings_for reconcile prefetched) e ∙ k in
      subst (λ o. Any (λ y. y ≡ rep) (add_report settings_for reconcile o out)) (sym this)
        (inl refl)
  run_batch-Any prefetched (x ∷ xs) r rep (inr h) k =
      add_report-Any (run_one settings_for reconcile prefetched x) _ rep
        (run_batch-Any prefetched xs r rep h k)

  module _ (prefetch : List Repo → Option (List (String × P))) (ended : List Repo → List Repo)
      (all_end : (b : List Repo) (r : Repo) → Any (λ x. x ≡ r) b → Any (λ x. x ≡ r) (ended b)) where
    run_batches-Any :
        (bs : List (List Repo)) (r : Repo)
        → Any (λ x. x ≡ r) (all_of bs)
        → (batch : List Repo) × (Any (λ b. b ≡ batch) bs
            × (Any (λ x. x ≡ r) batch
                × ((rep : Report)
                    → run_one settings_for reconcile (prefetch batch) r ≡ some rep
                    → Any (λ x. x ≡ rep) (run_batches settings_for reconcile prefetch ended bs))))
    run_batches-Any [] r h = elim h [ ]
    run_batches-Any (b ∷ bs) r h = elim (Any-append_inv (λ x. x ≡ r) b (all_of bs) h) [
      | inl here ↦ (
        b,
        (
          inl refl,
          (
            here,
            λ rep k.
                Any-append_left (λ x. x ≡ rep)
                  (run_batch settings_for reconcile (prefetch b) (ended b)) _
                  (run_batch-Any (prefetch b) (ended b) r rep (all_end b r here) k),
          ),
        ),
      )
      | inr there ↦
          let rest = run_batches-Any bs r there in
          (
            rest.0,
            (
              inr rest.1.0,
              (
                rest.1.1.0,
                λ rep k.
                    Any-append_right (λ x. x ≡ rep)
                      (run_batch settings_for reconcile (prefetch b) (ended b)) _
                      (rest.1.1.1 rep k),
              ),
            ),
          )
    ]

    -- Every repository is in one of the batches, and the report of its run, with what was prefetched for
    -- that batch, is among the reports, in whatever order the runs of a batch end, as long as all end.
    pub reconcile_batch-Any :
        (batch_size : ℕ) (repos : List Repo) (r : Repo)
        → Any (λ x. x ≡ r) repos
        → (batch : List Repo) × (Any (λ b. b ≡ batch) (batches batch_size repos)
            × (Any (λ x. x ≡ r) batch
                × ((rep : Report)
                    → run_one settings_for reconcile (prefetch batch) r ≡ some rep
                    → Any
                        (λ x. x ≡ rep)
                        (reconcile_batch settings_for reconcile prefetch ended batch_size repos))))
    unfolding reconcile_batch
    reconcile_batch-Any batch_size repos r h =
        run_batches-Any (batches batch_size repos) r
          (subst (Any (λ x. x ≡ r)) (sym (batches_lem batch_size repos).0) h)
