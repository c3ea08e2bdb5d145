-- ===== src/Server/Webhook.antt =====
-- internal/server/webhook.go: the handler of a webhook, as the trace of the calls it makes and the
-- answer it writes. What GitHub, the settings loader and the reconciler answer is an argument, and so are
-- the JSON decoder and the hash of a body.
use repositories_settings.Base.{
  ℕ, String, ◌==◌, Bool, true, false, ◌||◌, not, Option, List, [], ◌∷◌, ◌++◌, concat, is_empty,
  keep, length, if◌then◌else◌,
}
use repositories_settings.Base.Int.{ℤ, pos}
use repositories_settings.Config.Schema.{Repo}
use repositories_settings.Config.Resolution.{Resolution}
use repositories_settings.Applier.{Result}
use repositories_settings.Reconciler.{Report}
use repositories_settings.Server.Commands.{Strings, RepoPermission}
use repositories_settings.Server.Failures.{
  Failure, error_text, is_config_error, format_config_errors,
}

pub data Trigger : Type 0 where
  trigger_push trigger_webhook trigger_cron trigger_manual : Trigger

-- `(T, error)`
pub data Answer (A : Type 0) : Type 0 where
  ok : A → Answer A
  failed : Failure → Answer A

-- The fields of `genericPayload` that the handlers read; the flag says that the issue has a
-- `pull_request`.
pub record Payload : Type 0 where
  pub action : String
  pub owner : String
  pub name : String
  pub default_branch : String
  pub pr_number : ℤ
  pub head_sha : String
  pub merged : Bool
  pub issue_number : ℤ
  pub is_pull_request : Bool
  pub comment_body : String
  pub user_login : String
  pub user_type : String
  pub ref : String

-- A call that reads or changes something outside the handler.
pub data Effect : Type 0 where
  loads : Repo → String → Effect
  reconciles : Repo → Resolution → Trigger → Bool → Effect
  asks_permission : Repo → String → Effect
  asks_head : Repo → ℤ → Effect
  asks_repository : Repo → Effect
  comments : Repo → ℤ → String → Effect

pub data Body : Type 0 where
  skipped : String → Body
  helped : Body
  config_error : String → Body
  rejected : String → Body
  report : Report → Body
  checked : String → Report → Body

pub data Response : Type 0 where
  json : Body → Response
  http_error : ℕ → String → Response

abbrev pub Handled : Type 0
Handled = List Effect × Response

-- What the calls answer, and the layout of a report.
pub record World : Type 0 where
  pub settings : Repo → String → Answer Resolution
  pub reconcile : Repo → Resolution → Trigger → Bool → Answer Report
  pub permission : Repo → String → Answer RepoPermission
  pub pull_request_head_sha : Repo → ℤ → Answer String
  pub format_report : Report → String
  pub hmac_hex : String → String → String
  pub decimal : ℤ → String
  pub unmarshal : String → Option Payload

abbrev pub internal_error : Failure → Response
internal_error e = http_error 500 (error_text e)

abbrev pub skip : String → Handled
skip reason = ([], json (skipped reason))

abbrev pub failure_lines : List Result → List String
failure_lines [] = []
failure_lines (r ∷ rs) =
    let rest = failure_lines rs in
    if r.success then rest else "  - `" ∷ r.resource ∷ "`: " ∷ r.error ∷ "\n" ∷ rest

-- `decimal` is the `%d` of fmt.
unfoldable pub format_apply_report : (ℤ → String) → Report → String
format_apply_report decimal rep =
    let good = length (keep (λ (r : Result). r.success) rep.applied) in
    let bad = length (keep (λ (r : Result). not r.success) rep.applied) in
    let first = "- :white_check_mark: " ∷ decimal (pos good) ∷ " successful\n" ∷ [] in
    let second = "- :x: " ∷ decimal (pos bad) ∷ " failed\n\n" ∷ failure_lines rep.applied in
    concat (
      "## repo-settings — applied\n\n"
      ∷ (if is_empty rep.applied
          then "No mutations were necessary; configuration already matched.\n" ∷ []
          else if is_empty (keep (λ (r : Result). not r.success) rep.applied)
          then first
          else first ++ second))

module _ (u : Strings) (w : World) where
  open w use {settings, reconcile, format_report}

  abbrev pub respond : Answer Report → Response
  respond (failed e) = internal_error e
  respond (ok rep) = json (report rep)

  -- Load at the ref, and apply.
  abbrev pub apply_loaded : Repo → String → Trigger → Answer Resolution → Handled
  apply_loaded repo ref trigger (failed e) = (loads repo ref ∷ [], internal_error e)
  apply_loaded repo ref trigger (ok res) = (
    loads repo ref ∷ reconciles repo res trigger false ∷ [],
    respond (reconcile repo res trigger false),
  )

  unfoldable pub handle_push : Repo → Payload → Handled
  handle_push repo p =
      let branch = u.trim_space p.default_branch in
      if branch == ""
      then skip "missing default branch"
      else if not (p.ref == concat ("refs/heads/" ∷ branch ∷ []))
      then skip "non-default branch"
      else apply_loaded repo branch trigger_push (settings repo branch)

  -- The dry run, its comment, and the report.
  abbrev pub dry_run_done : Repo → ℤ → List Effect → Answer Report → Handled
  dry_run_done repo n before (failed e) = (before, internal_error e)
  dry_run_done repo n before (ok rep) =
      (before ++ (comments repo n (format_report rep) ∷ []), json (report rep))

  abbrev pub dry_run_loaded : Repo → ℤ → String → Answer Resolution → Handled
  dry_run_loaded repo n sha (failed e) =
      if is_config_error e
      then (
        loads repo sha ∷ comments repo n (format_config_errors e) ∷ [],
        json (config_error (error_text e)),
      )
      else (loads repo sha ∷ [], internal_error e)
  dry_run_loaded repo n sha (ok res) =
      dry_run_done repo n (loads repo sha ∷ reconciles repo res trigger_webhook true ∷ [])
        (reconcile repo res trigger_webhook true)

  unfoldable pub run_dry_run_and_comment : Repo → ℤ → String → Handled
  run_dry_run_and_comment repo n sha = dry_run_loaded repo n sha (settings repo sha)

  unfoldable pub handle_pull_request : Repo → Payload → Handled
  handle_pull_request repo p =
      if p.action == "opened" || (p.action == "synchronize" || p.action == "reopened")
      then run_dry_run_and_comment repo p.pr_number p.head_sha
      else if p.action == "closed"
      then (if p.merged
          then apply_loaded repo "" trigger_webhook (settings repo "")
          else skip "pr not merged")
      else skip "unhandled action"
