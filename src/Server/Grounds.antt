-- ===== src/Server/Grounds.antt =====
-- internal/server/webhook.go: the grounds for a reconcile, and the pushes and the pull requests.
use repositories_settings.Base.{
  String, ◌==◌, ◌≡◌, ◌≢◌, refl, Bool, true, false, ◌||◌, not, [], ◌∷◌, concat, arith, codes,
  equal_fold, All, if◌then◌else◌, eq_iff,
}
use repositories_settings.Base.Int.{ℤ}
use repositories_settings.Config.Resolution.{Resolution}
use repositories_settings.Reconciler.{Report}
use repositories_settings.Server.Commands.{
  Strings, Command, cmd_recheck, cmd_apply, parse_comment, RepoPermission, can_apply,
}
use repositories_settings.Server.Failures.{is_config_error}
use repositories_settings.Server.Webhook.{
  Trigger, trigger_push, trigger_webhook, trigger_manual, Answer, ok, failed, Payload, Effect,
  loads, reconciles, Handled, World, apply_loaded, handle_push, handle_pull_request, dry_run_done,
  dry_run_loaded, run_dry_run_and_comment,
}
use repositories_settings.Server.Intake.{repo_of}

-- A condition on the effects of one of two branches.
pub if-All :
    (P : Effect → Type 0) (b : Bool) (x y : Handled)
    → (b ≡ true → All P x.0)
    → (b ≡ false → All P y.0)
    → All P (if b then x else y).0
if-All P true x y f g = f refl
if-All P false x y f g = g refl

pub same_text : {s t : String} → (s == t) ≡ true → s ≡ t
same_text {s = s} {t = t} h = (eq_iff s t).0 h

module _ (u : Strings) (w : World) (app_slug : String) (event : String) (p : Payload) where
  -- A comment on a pull request, by an author that is no bot, with the command.
  abbrev pub Asks : Command → Type 0
  Asks cmd =
      (event ≡ "issue_comment")
      × (p.action ≡ "created")
      × (p.is_pull_request ≡ true)
      × (equal_fold (codes p.user_type) (codes "Bot") ≡ false)
      × ((parse_comment u p.comment_body app_slug).command ≡ cmd)

  -- The grounds for a reconcile: the ref of its settings, its trigger, and whether it is a dry run.
  pub data Ground : String → Trigger → Bool → Type 0 where
    -- A push to the default branch.
    pushed :
        event ≡ "push"
        → u.trim_space p.default_branch ≢ ""
        → p.ref ≡ concat ("refs/heads/" ∷ u.trim_space p.default_branch ∷ [])
        → Ground (u.trim_space p.default_branch) trigger_push false
    -- A pull request that was merged; the settings are those of the default branch.
    merged :
        event ≡ "pull_request"
        → p.action ≡ "closed"
        → p.merged ≡ true
        → Ground "" trigger_webhook false
    -- `apply`, by an author whom GitHub gives write or admin permission.
    asked :
        Asks cmd_apply
        → (perm : RepoPermission) → w.permission (repo_of p) p.user_login ≡ ok perm
        → can_apply perm ≡ true
        → Ground "" trigger_manual false
    -- A pull request with new commits; the settings are those of its head.
    opened :
        event ≡ "pull_request"
        → (p.action == "opened" || (p.action == "synchronize" || p.action == "reopened")) ≡ true
        → Ground p.head_sha trigger_webhook true
    rechecked :
        Asks cmd_recheck
        → (sha : String) → w.pull_request_head_sha (repo_of p) p.issue_number ≡ ok sha
        → Ground sha trigger_webhook true

  -- A reconcile is of the repository of the payload, with settings loaded at a ref, on one of the grounds.
  abbrev pub Grounded : Effect → Type 0
  Grounded (reconciles repo res trigger dry) =
      (repo ≡ repo_of p)
      × ((ref : String) × (w.settings (repo_of p) ref ≡ ok res) × Ground ref trigger dry)
  Grounded _ = Unit

  apply_loaded-Grounded :
      (ref : String) (trigger : Trigger) (a : Answer Resolution)
      → w.settings (repo_of p) ref ≡ a
      → Ground ref trigger false
      → All Grounded (apply_loaded u w (repo_of p) ref trigger a).0
  apply_loaded-Grounded ref trigger (failed e) h g = (tt, tt)
  apply_loaded-Grounded ref trigger (ok res) h g = (tt, ((refl, (ref, h, g)), tt))

  pub handle_push-Grounded : event ≡ "push" → All Grounded (handle_push u w (repo_of p) p).0
  unfolding handle_push
  handle_push-Grounded is_push =
      let branch = u.trim_space p.default_branch in
      if-All Grounded (branch == "") _ _ (λ e. tt)
        (λ named.
          if-All Grounded (not (p.ref == concat ("refs/heads/" ∷ branch ∷ []))) _ _ (λ e. tt)
            (λ here.
              apply_loaded-Grounded branch trigger_push (w.settings (repo_of p) branch) refl (
                pushed is_push (λ e. ground (arith, named, (eq_iff branch "").1 e))
                  (same_text (ground (arith, here))))))

  dry_run_loaded-Grounded :
      (n : ℤ) (sha : String) (a : Answer Resolution)
      → w.settings (repo_of p) sha ≡ a
      → Ground sha trigger_webhook true
      → All Grounded (dry_run_loaded u w (repo_of p) n sha a).0
  dry_run_loaded-Grounded n sha (failed e) h g =
      if-All Grounded (is_config_error e) _ _ (λ b. (tt, (tt, tt))) (λ b. (tt, tt))
  dry_run_loaded-Grounded n sha (ok res) h g =
      at_run (w.reconcile (repo_of p) res trigger_webhook true)
    where
      at_run :
          (a : Answer Report)
          → All Grounded
              (dry_run_done u w
                (repo_of p)
                n
                (loads (repo_of p) sha ∷ reconciles (repo_of p) res trigger_webhook true ∷ [])
                a).0
      at_run (failed e) = (tt, ((refl, (sha, h, g)), tt))
      at_run (ok rep) = (tt, ((refl, (sha, h, g)), (tt, tt)))

  pub run_dry_run_and_comment-Grounded :
      (n : ℤ) (sha : String)
      → Ground sha trigger_webhook true
      → All Grounded (run_dry_run_and_comment u w (repo_of p) n sha).0
  unfolding run_dry_run_and_comment
  run_dry_run_and_comment-Grounded n sha g =
      dry_run_loaded-Grounded n sha (w.settings (repo_of p) sha) refl g

  pub handle_pull_request-Grounded :
      event ≡ "pull_request" → All Grounded (handle_pull_request u w (repo_of p) p).0
  unfolding handle_pull_request
  handle_pull_request-Grounded is_pr =
      if-All Grounded
        (p.action == "opened" || (p.action == "synchronize" || p.action == "reopened")) _ _
        (λ active. run_dry_run_and_comment-Grounded p.pr_number p.head_sha (opened is_pr active))
        (λ other.
          if-All Grounded (p.action == "closed") _ _
            (λ closed.
              if-All Grounded p.merged _ _
                (λ is_merged.
                  apply_loaded-Grounded "" trigger_webhook (w.settings (repo_of p) "") refl
                    (merged is_pr (same_text closed) is_merged))
                (λ e. tt))
            (λ e. tt))
