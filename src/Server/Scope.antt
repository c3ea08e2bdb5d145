-- ===== src/Server/Scope.antt =====
-- internal/server/api.go and internal/server/auth.go: what a caller of the API can start.
use repositories_settings.Base.{
  String, ◌==◌, ◌≡◌, refl, Bool, true, false, ◌||◌, Option, none, some, arith, All, All-append,
  Bool-cases, inl, inr, ◌⊎◌,
}
use repositories_settings.Config.Schema.{Repo}
use repositories_settings.Config.Resolution.{Resolution}
use repositories_settings.Server.Commands.{Strings}
use repositories_settings.Server.Webhook.{Answer, ok, failed, Effect, reconciles, Response, World}
use repositories_settings.Server.Grounds.{if-All}
use repositories_settings.Server.Auth.{
  Access, Caller, Metadata, authorize, scoped_to, is_kind_oidc, is_trusted_event, is_current,
  check_identity, require_apply,
}
use repositories_settings.Server.Api.{
  ReconcileRequest, narrowed, api_repo, run_loaded, run_checked, run_scoped, run_caller, asked,
  serve_reconcile,
}

-- The caller may apply: it is no workflow, or its workflow runs for a trusted event on what GitHub says is
-- the default branch of the repository with these ids.
abbrev pub MayApply : World → Caller → Answer Metadata → Type 0
MayApply w c answer =
    (is_kind_oidc c.kind ≡ false)
    ⊎ ((m : Metadata) × ((answer ≡ ok m)
          × ((is_trusted_event c.event_name ≡ true) × (is_current w.decimal c m ≡ true))))

require_apply-MayApply :
    (w : World) (c : Caller) (answer : Answer Metadata)
    → (require_apply w.decimal c answer).1 ≡ none
    → MayApply w c answer
unfolding require_apply
require_apply-MayApply w c answer h = elim (Bool-cases (is_kind_oidc c.kind)) [
  | inr e ↦ inl e
  | inl e ↦ elim (Bool-cases (is_trusted_event c.event_name)) [
    | inr f ↦ absurd (ground (arith, e, f, h))
    | inl f ↦ at_answer answer (ground (arith, e, f, h)) f
  ]
]
  where
    at_answer :
        (a : Answer Metadata)
        → check_identity w.decimal c a ≡ none
        → is_trusted_event c.event_name ≡ true
        → MayApply w c a
    at_answer (failed e) none_refused f = absurd (ground (arith, none_refused))
    at_answer (ok m) none_refused f = elim (Bool-cases (is_current w.decimal c m)) [
      | inl g ↦ inr (m, (refl, (f, g)))
      | inr g ↦ absurd (ground (arith, g, none_refused))
    ]

module _ (u : Strings) (w : World) (access : Access) (metadata : Repo → Answer Metadata)
    (header : String) where
  -- A reconcile by the API: its caller is known and the repository is in the caller's scope, the settings
  -- are those of the default branch, narrowed or whole, and an apply is by a caller who may apply.
  abbrev pub InScope : ReconcileRequest → Effect → Type 0
  InScope req (reconciles repo res trigger dry) =
      (c : Caller) × ((authorize u access header ≡ some c)
        × ((repo ≡ api_repo u w access metadata req)
            × ((scoped_to u c repo ≡ true)
                × ((dry ≡ req.dry_run)
                    × (((whole : Resolution) × ((w.settings repo "" ≡ ok whole)
                            × (res ≡ narrowed req.changed_files whole)))
                        × (dry ≡ false → MayApply w c (metadata repo)))))))
  InScope req _ = Unit

  module _ (req : ReconcileRequest) (c : Caller) (known : authorize u access header ≡ some c)
      (scope : scoped_to u c (api_repo u w access metadata req) ≡ true) where
    target : Repo
    target = api_repo u w access metadata req

    run_loaded-InScope :
        (a : Answer Resolution)
        → w.settings target "" ≡ a
        → (req.dry_run ≡ false → MayApply w c (metadata target))
        → All (InScope req) (run_loaded u w access metadata req a).0
    unfolding target
    run_loaded-InScope (failed e) h may = (tt, tt)
    run_loaded-InScope (ok res) h may =
        (tt, ((c, (known, (refl, (scope, (refl, ((res, (h, refl)), may)))))), tt))

    asked-InScope : (b : Bool) → All (InScope req) (asked u w access metadata req b)
    asked-InScope true = (tt, tt)
    asked-InScope false = tt

    run_checked-InScope :
        (r : Bool × Option Response)
        → (r.1 ≡ none → MayApply w c (metadata target))
        → All (InScope req) (run_checked u w access metadata req r).0
    unfolding target
    run_checked-InScope (looked, some refused) may = asked-InScope looked
    run_checked-InScope (looked, none) may =
        All-append (InScope req) (asked u w access metadata req looked) _ (asked-InScope looked)
          (run_loaded-InScope (w.settings target "") refl (λ e. may refl))

    run_scoped-InScope : All (InScope req) (run_scoped u w access metadata c req).0
    unfolding target
    run_scoped-InScope =
        if-All (InScope req) req.dry_run _ _
          (λ dry.
            run_loaded-InScope (w.settings target "") refl (λ e. absurd (ground (arith, dry, e))))
          (λ e.
            run_checked-InScope (require_apply w.decimal c (metadata target))
              (require_apply-MayApply w c (metadata target)))

  -- Every reconcile that /api/reconcile starts is of the requested repository, by a known caller in whose
  -- scope it is, with settings loaded from the default branch and narrowed to the changed files that the
  -- request names; and an apply is by a caller that is no workflow, or whose workflow runs for a push, a
  -- dispatch or a schedule on the branch that GitHub says is the default of the repository with these ids.
  pub serve_reconcile-InScope :
      (req : ReconcileRequest)
      → All (InScope req) (serve_reconcile u w access metadata header (some req)).0
  unfolding serve_reconcile
  serve_reconcile-InScope req = at_caller (authorize u access header) refl
    where
      at_caller :
          (o : Option Caller)
          → authorize u access header ≡ o
          → All (InScope req) (run_caller u w access metadata (some req) o).0
      at_caller none h = tt
      at_caller (some c) h =
          if-All (InScope req) (req.owner == "" || req.repo == "") _ _ (λ e. tt)
            (λ named.
              if-All (InScope req) (scoped_to u c (api_repo u w access metadata req)) _ _
                (λ scope. run_scoped-InScope req c h scope) (λ e. tt))
