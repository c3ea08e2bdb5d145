-- ===== src/Server/Comments.antt =====
-- internal/server/webhook.go: a comment on a pull request, and who may ask it to apply.
use repositories_settings.Base.{
  String, ◌==◌, false, not, Option, none, some, List, [], ◌∷◌, ◌++◌, concat, codes, equal_fold,
  if◌then◌else◌,
}
use repositories_settings.Base.Int.{ℤ}
use repositories_settings.Config.Schema.{Repo}
use repositories_settings.Config.Resolution.{Resolution}
use repositories_settings.Reconciler.{Report}
use repositories_settings.Server.Commands.{
  Strings, Command, cmd_none, cmd_recheck, cmd_apply, cmd_help, parse_comment, RepoPermission,
  can_apply, help_markdown,
}
use repositories_settings.Server.Failures.{Failure, error_text}
use repositories_settings.Server.Webhook.{
  trigger_manual, Answer, ok, failed, Payload, Effect, loads, reconciles, asks_permission,
  asks_head, comments, helped, rejected, report, json, http_error, Handled, World, internal_error,
  skip, format_apply_report, run_dry_run_and_comment,
}

module _ (u : Strings) (w : World) where
  open w use {settings, reconcile, permission, pull_request_head_sha, decimal}

  unfoldable pub comment_error : Repo → ℤ → String → Failure → Effect
  comment_error repo n phase e =
      comments repo n (concat (":warning: " ∷ phase ∷ " failed: `" ∷ error_text e ∷ "`" ∷ []))

  abbrev pub recheck : Repo → ℤ → Answer String → Handled
  recheck repo n (failed e) =
      (asks_head repo n ∷ comment_error repo n "loading the pull request" e ∷ [], internal_error e)
  recheck repo n (ok sha) =
      let dry = run_dry_run_and_comment u w repo n sha in (asks_head repo n ∷ dry.0, dry.1)

  abbrev pub applied_by_comment : Repo → ℤ → List Effect → Answer Report → Handled
  applied_by_comment repo n before (failed e) =
      (before ++ (comment_error repo n "reconcile" e ∷ []), internal_error e)
  applied_by_comment repo n before (ok rep) =
      (before ++ (comments repo n (format_apply_report decimal rep) ∷ []), json (report rep))

  abbrev pub apply_by_comment : Repo → ℤ → List Effect → Answer Resolution → Handled
  apply_by_comment repo n before (failed e) =
      (before ++ (loads repo "" ∷ comment_error repo n "loading config" e ∷ []), internal_error e)
  apply_by_comment repo n before (ok res) =
      applied_by_comment repo n
        (before ++ (loads repo "" ∷ reconciles repo res trigger_manual false ∷ []))
        (reconcile repo res trigger_manual false)

  -- `RoleName`, or the base role where it is empty.
  abbrev pub role_of : RepoPermission → String
  role_of perm = if perm.role_name == "" then perm.permission else perm.role_name

  -- `authorizeApply`: the answer of a refusal, or nothing when the author may apply.
  unfoldable pub authorize_apply : Repo → ℤ → String → Answer RepoPermission → Option Handled
  authorize_apply repo n login (failed e) = some (
    asks_permission repo login
        ∷ comments repo n (
            concat (
              ":lock: `apply` refused: the permission of @" ∷ login
              ∷ " on this repository could not be checked." ∷ []))
        ∷ [],
    http_error 500 "permission lookup failed",
  )
  authorize_apply repo n login (ok perm) =
      if can_apply perm
      then none
      else some (
        asks_permission repo login
            ∷ comments repo n (
                concat (
                  ":lock: `apply` requires write, maintain or admin permission; @"
                  ∷ login
                  ∷ " has `"
                  ∷ role_of perm
                  ∷ "`."
                  ∷ []))
            ∷ [],
        json (rejected (role_of perm)),
      )

  abbrev pub run_apply : Repo → Payload → Option Handled → Handled
  run_apply repo p (some refused) = refused
  run_apply repo p none =
      apply_by_comment repo p.issue_number (asks_permission repo p.user_login ∷ [])
        (settings repo "")

  abbrev pub run_command : Repo → Payload → String → Command → Handled
  run_command repo p slug cmd_none = skip "no command"
  run_command repo p slug cmd_help =
      (comments repo p.issue_number (help_markdown slug) ∷ [], json helped)
  run_command repo p slug cmd_recheck =
      recheck repo p.issue_number (pull_request_head_sha repo p.issue_number)
  run_command repo p slug cmd_apply =
      run_apply repo p
        (authorize_apply repo p.issue_number p.user_login (permission repo p.user_login))

  unfoldable pub handle_issue_comment : String → Repo → Payload → Handled
  handle_issue_comment app_slug repo p =
      if not (p.action == "created")
      then skip "non-create action"
      else if not p.is_pull_request
      then skip "not a PR"
      else if equal_fold (codes p.user_type) (codes "Bot")
      then skip "bot author"
      else run_command repo p app_slug (parse_comment u p.comment_body app_slug).command
