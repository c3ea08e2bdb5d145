-- ===== src/Server/Api.antt =====
-- internal/server/api.go: the handlers of /api/reconcile and /api/check, as the trace of their calls and
-- their answer.
use repositories_settings.Base.{
  ℕ, String, ◌==◌, Bool, true, false, ◌||◌, not, Option, none, some, List, [], ◌∷◌, ◌++◌, concat,
  any, if◌then◌else◌,
}
use repositories_settings.Config.Schema.{Repo}
use repositories_settings.Config.Selective.{affected_keys}
use repositories_settings.Config.Resolution.{Resolution, filtering}
use repositories_settings.Diff.{Diff, noop}
use repositories_settings.Applier.{Result}
use repositories_settings.Reconciler.{Report}
use repositories_settings.Server.Commands.{Strings}
use repositories_settings.Server.Webhook.{
  trigger_webhook, trigger_manual, Answer, ok, failed, Effect, loads, reconciles, asks_repository,
  report, checked, Response, json, http_error, Handled, World, internal_error,
}
use repositories_settings.Server.Auth.{
  Access, Caller, Metadata, authorize, scoped_to, require_apply,
}

-- `changed_files` is nil when the request has none.
pub record ReconcileRequest : Type 0 where
  pub owner : String
  pub repo : String
  pub changed_files : Option (List String)
  pub dry_run : Bool

pub record CheckRequest : Type 0 where
  pub owner : String
  pub repo : String
  pub head_sha : String

abbrev pub deny : ℕ → String → Handled
deny status text = ([], http_error status text)

abbrev pub with_effects : List Effect → Handled → Handled
with_effects before h = (before ++ h.0, h.1)

abbrev pub or_same : Resolution → Option Resolution → Resolution
or_same res none = res
or_same res (some r) = r

-- `if req.ChangedFiles != nil { res = res.Filtering(config.AffectedKeys(req.ChangedFiles)) }`
unfoldable pub narrowed : Option (List String) → Resolution → Resolution
narrowed none res = res
narrowed (some files) res = or_same res (filtering (some res) (affected_keys files))

abbrev pub is_actionable : Diff → Bool
is_actionable d = elim d.action [ noop ↦ false | _ ↦ true ]

unfoldable pub conclusion : Report → String
conclusion rep =
    if any (λ (r : Result). not r.success) rep.applied
    then "failure"
    else if any is_actionable rep.diffs
    then "neutral"
    else "success"

module _ (u : Strings) (w : World) (access : Access) (metadata : Repo → Answer Metadata) where
  open w use {settings, reconcile, decimal}

  abbrev pub api_repo : ReconcileRequest → Repo
  api_repo req = record { owner = req.owner; name = req.repo }

  abbrev pub answer_report : Answer Report → Response
  answer_report (failed e) = internal_error e
  answer_report (ok rep) = json (report rep)

  abbrev pub run_loaded : ReconcileRequest → Answer Resolution → Handled
  run_loaded req (failed e) = (loads (api_repo req) "" ∷ [], internal_error e)
  run_loaded req (ok res) =
      let r = narrowed req.changed_files res in
      (
        loads (api_repo req) "" ∷ reconciles (api_repo req) r trigger_manual req.dry_run ∷ [],
        answer_report (reconcile (api_repo req) r trigger_manual req.dry_run),
      )

  abbrev pub asked : ReconcileRequest → Bool → List Effect
  asked req b = if b then asks_repository (api_repo req) ∷ [] else []

  abbrev pub run_checked : ReconcileRequest → Bool × Option Response → Handled
  run_checked req (looked, some refused) = (asked req looked, refused)
  run_checked req (looked, none) =
      with_effects (asked req looked) (run_loaded req (settings (api_repo req) ""))

  -- A dry run needs no more than the scope.
  abbrev pub run_scoped : Caller → ReconcileRequest → Handled
  run_scoped c req =
      if req.dry_run
      then run_loaded req (settings (api_repo req) "")
      else run_checked req (require_apply decimal c (metadata (api_repo req)))

  abbrev pub run_request : Caller → Option ReconcileRequest → Handled
  run_request c none = deny 400 "bad json"
  run_request c (some req) =
      if req.owner == "" || req.repo == ""
      then deny 400 "owner and repo required"
      else if scoped_to u c (api_repo req)
      then run_scoped c req
      else deny 403 (concat ("forbidden: this credential is scoped to " ∷ c.repository ∷ []))

  abbrev pub run_caller : Option ReconcileRequest → Option Caller → Handled
  run_caller req none = deny 401 "unauthorized"
  run_caller req (some c) = run_request c req

  -- The header `Authorization`, and the body as far as it decodes.
  unfoldable pub serve_reconcile : String → Option ReconcileRequest → Handled
  serve_reconcile header req = run_caller req (authorize u access header)

  abbrev pub check_answer : Answer Report → Response
  check_answer (failed e) = internal_error e
  check_answer (ok rep) = json (checked (conclusion rep) rep)

  abbrev pub check_loaded : Repo → String → Answer Resolution → Handled
  check_loaded repo sha (failed e) = (loads repo sha ∷ [], internal_error e)
  check_loaded repo sha (ok res) = (
    loads repo sha ∷ reconciles repo res trigger_webhook true ∷ [],
    check_answer (reconcile repo res trigger_webhook true),
  )

  abbrev pub check_request : Caller → Option CheckRequest → Handled
  check_request c none = deny 400 "bad json"
  check_request c (some req) =
      let repo : Repo = record { owner = req.owner; name = req.repo } in
      if req.owner == "" || req.repo == ""
      then deny 400 "owner and repo required"
      else if scoped_to u c repo
      then check_loaded repo req.head_sha (settings repo req.head_sha)
      else deny 403 (concat ("forbidden: this credential is scoped to " ∷ c.repository ∷ []))

  abbrev pub check_caller : Option CheckRequest → Option Caller → Handled
  check_caller req none = deny 401 "unauthorized"
  check_caller req (some c) = check_request c req

  unfoldable pub serve_check : String → Option CheckRequest → Handled
  serve_check header req = check_caller req (authorize u access header)
