-- ===== src/Applier/Converged.antt =====
-- When a lane of a single resource (internal/applier/helpers.go) has nothing left to send.
use repositories_settings.Base.{ℕ, ◌<◌, String, ◌≡◌, refl, ◌↔◌, false, some, List, [], ◌∷◌}
use repositories_settings.Value.{Fields, depth_fields}
use repositories_settings.Diff.{FieldChange, fields}
use repositories_settings.Diff.Compare.{Encoding}
use repositories_settings.Diff.Lists.{compared, single_resource}
use repositories_settings.Diff.Conforms.{Conforms, fields-eq-nil}
use repositories_settings.Applier.{Mutation, ok, run_single, single_resource_run}

run_single-results :
    (resource : String) (cur des : Fields) (mutate : Mutation) (changes : List FieldChange)
    → ((run_single (compared resource cur des changes) mutate false).results ≡ []) ↔ (changes ≡ [])
run_single-results resource cur des mutate [] = (λ e. refl, λ e. refl)
run_single-results resource cur des mutate (c ∷ cs) = (λ e. cc, λ e. cc)

-- An apply of a single resource that GitHub has sends nothing exactly when every field of the desired
-- map, at every nesting, has its value in the live state already.
pub single_resource_run-converged :
    (enc : Encoding) (resource : String) (cur des : Fields) (mutate : Mutation) (n : ℕ)
    → depth_fields des < n
    → ((single_resource_run enc resource (ok (some cur)) (some des) mutate false).results ≡ [])
      ↔ Conforms enc n cur des
unfolding single_resource_run single_resource
single_resource_run-converged enc resource cur des mutate n h =
    let sent = run_single-results resource cur des mutate (fields enc cur des "") in
    let same = fields-eq-nil enc cur des "" n h in (λ e. same.0 (sent.0 e), λ k. sent.1 (same.1 k))
