-- ===== src/Applier/Runs.antt =====
-- What the lanes of internal/applier/helpers.go report of the mutations they planned.
use repositories_settings.Base.{
  ℕ, String, Bool, true, false, List, [], ◌∷◌, ◌≡◌, refl, ◌∙◌, sym, subst, arith, is_empty, All,
  ◌⊎◌, inl, inr, Bool-cases, if◌then◌else◌,
}
use repositories_settings.Value.{Fields}
use repositories_settings.Conc.{Status, Reach, start, waiting, busy}
use repositories_settings.Conc.Outcome.{IsRight, items_of, map_safe}
use repositories_settings.Diff.{Diff}
use repositories_settings.Diff.Compare.{Encoding}
use repositories_settings.Diff.Lists.{named_list}
use repositories_settings.Applier.{
  Result, Fallible, ok, err, Mutation, attempt, actionable, settle_all, named_list_run,
  action_from_diff, failure,
}

-- The two lists have as many entries, and `P` relates those of the same position.
abbrev pub Pairwise {ℓ κ} : {A : Type ℓ} {B : Type κ} → (A → B → Type 0) → List A → List B → Type 0
Pairwise P [] [] = Unit
Pairwise P (x ∷ xs) (y ∷ ys) = P x y × Pairwise P xs ys
Pairwise P _ _ = ⊥

module _ (mutate : Mutation) (ctx_error : String) where
  -- What the report says of a planned difference: the outcome of its mutation, or, where the context
  -- was cancelled, a failure under its own name.
  abbrev pub Accounts : Bool → Diff → Result → Type 0
  Accounts cancelled d r =
      (r ≡ attempt mutate d)
      ⊎ (cancelled ≡ true × r ≡ failure d.resource (action_from_diff d.action) ctx_error 0)

  Accounts-settle :
      (c : Bool) (jobs : List (Diff × Status Result))
      → All (IsRight (attempt mutate) c) jobs
      → waiting jobs ≡ 0
      → busy jobs ≡ 0
      → Pairwise (Accounts c) (items_of jobs) (settle_all ctx_error jobs)
  unfolding settle_all
  Accounts-settle c [] h w b = tt
  Accounts-settle c ((d, Status.finished r) ∷ js) h w b =
      (inl h.0, Accounts-settle c js h.1 (omega (arith, w)) (omega (arith, b)))
  Accounts-settle c ((d, Status.skipped) ∷ js) h w b =
      (inr (h.0, refl), Accounts-settle c js h.1 (omega (arith, w)) (omega (arith, b)))
  Accounts-settle c ((d, Status.queued) ∷ js) h w b = absurd (omega (arith, w))
  Accounts-settle c ((d, Status.running) ∷ js) h w b = absurd (omega (arith, b))

-- Where no difference is planned the pool has nothing to run.
settle-if_any :
    (ctx_error : String) (work : List Diff) (jobs : List (Diff × Status Result))
    → items_of jobs ≡ work
    → (if is_empty work then [] else settle_all ctx_error jobs) ≡ settle_all ctx_error jobs
unfolding settle_all
settle-if_any ctx_error [] [] h = refl
settle-if_any ctx_error [] (j ∷ js) h = absurd cc
settle-if_any ctx_error (d ∷ ds) jobs h = refl

named_list_run-results :
    (enc : Encoding) (resource key_field : String) (live desired : List Fields)
    (conc_map : List Diff → List (Diff × Status Result)) (ctx_error : String)
    → let work = actionable (named_list enc resource live desired key_field) in
      (named_list_run enc resource key_field (ok live) desired conc_map ctx_error false).results
      ≡ (if is_empty work then [] else settle_all ctx_error (conc_map work))
unfolding named_list_run
named_list_run-results enc resource key_field live desired conc_map ctx_error =
    elim (Bool-cases (is_empty (actionable (named_list enc resource live desired key_field)))) [
      | inl e ↦ cc e
      | inr e ↦ cc e
    ]

-- With the live state read and not in a dry run, and for every run of the pool from the planned
-- differences to its end, the report has one result for each difference that is not a noop, in the
-- same order: the outcome of its mutation, or, only when the context was cancelled, a failure named
-- after the difference.
pub named_list_run-Accounts :
    (enc : Encoding) (resource key_field : String) (live desired : List Fields) (mutate : Mutation)
    (ctx_error : String) (workers : ℕ) (conc_map : List Diff → List (Diff × Status Result))
    (cancelled : Bool)
    → Reach
        (attempt mutate)
        workers
        (start (actionable (named_list enc resource live desired key_field)))
        (record {
          cancelled = cancelled;
          jobs = conc_map (actionable (named_list enc resource live desired key_field));
        })
    → waiting (conc_map (actionable (named_list enc resource live desired key_field))) ≡ 0
    → busy (conc_map (actionable (named_list enc resource live desired key_field))) ≡ 0
    → Pairwise
        (Accounts mutate ctx_error cancelled)
        (actionable (named_list enc resource live desired key_field))
        (named_list_run enc resource key_field (ok live) desired conc_map ctx_error false).results
named_list_run-Accounts enc resource key_field live desired mutate ctx_error workers conc_map c r w
      b =
    let work = actionable (named_list enc resource live desired key_field) in
    let h =
      map_safe (attempt mutate) workers work (record { cancelled = c; jobs = conc_map work }) r in
    let e =
      named_list_run-results enc resource key_field live desired conc_map ctx_error
      ∙ settle-if_any ctx_error work (conc_map work) h.1 in
    subst (Pairwise (Accounts mutate ctx_error c) work) (sym e) (
      subst (λ ds. Pairwise (Accounts mutate ctx_error c) ds (settle_all ctx_error (conc_map work)))
        h.1 (Accounts-settle mutate ctx_error c (conc_map work) h.2 w b))

-- A dry run of a list of items plans what an apply plans, and fails to read where it fails to read,
-- and reports no mutation.
pub named_list_run-dry :
    (enc : Encoding) (resource key_field : String) (live : Fallible (List Fields))
    (desired : List Fields) (conc_map : List Diff → List (Diff × Status Result))
    (ctx_error : String)
    → let dry = named_list_run enc resource key_field live desired conc_map ctx_error true in
      let wet = named_list_run enc resource key_field live desired conc_map ctx_error false in
      dry.diffs ≡ wet.diffs × dry.error ≡ wet.error × dry.results ≡ []
unfolding named_list_run
named_list_run-dry enc resource key_field (err e) desired conc_map ctx_error = (refl, refl, refl)
named_list_run-dry enc resource key_field (ok live) desired conc_map ctx_error =
    elim (Bool-cases (is_empty (actionable (named_list enc resource live desired key_field)))) [
      | inl e ↦ (cc e, cc e, refl)
      | inr e ↦ (cc e, cc e, refl)
    ]
