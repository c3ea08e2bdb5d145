-- ===== src/Config/Resolution/Laws.antt =====
-- The policy verdict of a resolution, and which layer wins.
use repositories_settings.Base.{
  ◌≡◌, refl, ◌↔◌, true, Option, none, some, List, [], ◌∷◌, ◌++◌, arith, keep, All, lookup, String,
}
use mathlib.Core.List.{append_assoc}
use repositories_settings.Config.Schema.{items, Settings, PolicyViolation}
use repositories_settings.Config.Sections.{Section, get, key, is_set}
use repositories_settings.Config.Resolver.{resolve}
use repositories_settings.Config.Resolver.Laws.{resolve_last_wins}
use repositories_settings.Config.Suborg.{Compiles, RepoContext}
use repositories_settings.Config.Policy.Inputs.{Runtime}
use repositories_settings.Config.Policy.{validate_policy}
use repositories_settings.Config.Policy.Compliance.{validate_policy-eq-nil}
use repositories_settings.Config.Policy.Spec.{PatternsCompile, Complies}
use repositories_settings.Config.Policy.Severity.{AreErrors, error, validate_policy-errors}
use repositories_settings.Config.Resolution.{
  Suborg, AdminLayer, Resolution, is_error, or_empty, blocking, desired, filtering, org_layer,
  suborg_layers, layers_for, resolve_for,
}

keep-errors : (vs : List PolicyViolation) → AreErrors vs → keep is_error vs ≡ vs
keep-errors [] h = refl
keep-errors (v ∷ vs) (error e h) = ground (arith, e, keep-errors vs h)

-- MustCompile accepts every pattern of the policy and of the suborgs.
abbrev pub AllCompile : Runtime → AdminLayer → Type 0
AllCompile rt admin =
    PatternsCompile rt admin.policy
    × All (λ (so : Suborg). All (Compiles rt.regexp_match) (items so.match.repos)) admin.suborgs

-- Where every pattern of the admin layer compiles, an apply under it is stopped unless the merged
-- settings comply with the policy, and is not stopped if they do.
pub blocking-resolve_for :
    (rt : Runtime) (admin : AdminLayer) (repo : Option Settings) (rc : RepoContext)
    → AllCompile rt admin
    → let res = resolve_for rt (some admin) repo rc in
      (blocking (some res) ≡ [])
      ↔ Complies rt (some (desired (some res))) (some (or_empty repo)) admin.policy
unfolding blocking desired resolve_for
blocking-resolve_for rt admin repo rc compile =
    let merged = (resolve (layers_for rt admin (or_empty repo) rc)).0 in
    rw
      (keep-errors (validate_policy rt (some merged) (some (or_empty repo)) admin.policy)
        (validate_policy-errors rt (some merged) (some (or_empty repo)) admin.policy))
      (validate_policy-eq-nil rt (some merged) (some (or_empty repo)) admin.policy compile.0)

-- A selective reconcile is stopped exactly where the full one is.
pub blocking-filtering :
    (res : Option Resolution) (keys : Option (List String))
    → blocking (filtering res keys) ≡ blocking res
unfolding blocking filtering
blocking-filtering none keys = refl
blocking-filtering (some r) none = refl
blocking-filtering (some r) (some keys) = refl

-- A section that the repository sets is the repository's, whatever the organization and the suborgs
-- say, and its provenance is the repository.
pub resolve_for-repo_wins :
    (rt : Runtime) (admin : Option AdminLayer) (s : Settings) (rc : RepoContext) (r : Section)
    → is_set r s ≡ true
    → let res = resolve_for rt admin (some s) rc in
      (get r (desired (some res)) ≡ get r s) × (lookup (key r) res.provenance ≡ some "repo")
unfolding desired resolve_for
resolve_for-repo_wins rt none s rc r h = (refl, (resolve_last_wins r [] [] "repo" s h tt).1)
resolve_for-repo_wins rt (some admin) s rc r h =
    let before = org_layer rt admin.settings ++ suborg_layers rt rc admin.suborgs in
    let last = resolve_last_wins r before [] "repo" s h tt in rw append_assoc at last
