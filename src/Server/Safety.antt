-- ===== src/Server/Safety.antt =====
-- internal/server/webhook.go: which reconciles a webhook can start.
use repositories_settings.Base.{
  String, ◌==◌, ◌≡◌, refl, ap, ◌∙◌, Bool, true, false, ◌||◌, not, Option, none, some, List, [], ◌∷◌,
  arith, codes, equal_fold, All, if◌then◌else◌, Bool-cases, inl, inr,
}
use repositories_settings.Config.Resolution.{Resolution}
use repositories_settings.Reconciler.{Report}
use repositories_settings.Server.Commands.{
  Strings, Command, cmd_none, cmd_recheck, cmd_apply, cmd_help, parse_comment, RepoPermission,
  can_apply,
}
use repositories_settings.Server.Webhook.{
  trigger_manual, Answer, ok, failed, Payload, Effect, loads, reconciles, asks_permission,
  asks_head, asks_repository, comments, Handled, World,
}
use repositories_settings.Server.Comments.{
  comment_error, recheck, applied_by_comment, apply_by_comment, authorize_apply, run_apply,
  run_command, handle_issue_comment,
}
use repositories_settings.Server.Intake.{
  Deps, Request, refuse, answer_body, repo_of, is_authentic, refusal, dispatch, with_payload,
  serve_http,
}
use repositories_settings.Server.Signature.{IsTrusted, is_authentic-IsTrusted}
use repositories_settings.Server.Grounds.{
  if-All, same_text, Asks, Ground, asked, rechecked, Grounded, handle_push-Grounded,
  handle_pull_request-Grounded, run_dry_run_and_comment-Grounded,
}

module _ (u : Strings) (w : World) (app_slug : String) (event : String) (p : Payload) where
  abbrev IsGrounded : Effect → Type 0
  IsGrounded = Grounded u w app_slug event p

  recheck-Grounded :
      (a : Answer String)
      → w.pull_request_head_sha (repo_of p) p.issue_number ≡ a
      → Asks u w app_slug event p cmd_recheck
      → All IsGrounded (recheck u w (repo_of p) p.issue_number a).0
  unfolding comment_error
  recheck-Grounded (failed e) h asks = (tt, (tt, tt))
  recheck-Grounded (ok sha) h asks = (
    tt,
    run_dry_run_and_comment-Grounded u w app_slug event p p.issue_number sha (rechecked asks sha h),
  )

  apply_by_comment-Grounded :
      (a : Answer Resolution)
      → w.settings (repo_of p) "" ≡ a
      → Ground u w app_slug event p "" trigger_manual false
      → All IsGrounded
          (apply_by_comment u w
            (repo_of p)
            p.issue_number
            (asks_permission (repo_of p) p.user_login ∷ [])
            a).0
  unfolding comment_error
  apply_by_comment-Grounded (failed e) h g = (tt, (tt, (tt, tt)))
  apply_by_comment-Grounded (ok res) h g = at_run (w.reconcile (repo_of p) res trigger_manual false)
    where
      at_run :
          (a : Answer Report)
          → All IsGrounded
              (applied_by_comment u w
                (repo_of p)
                p.issue_number
                (asks_permission (repo_of p) p.user_login
                  ∷ loads (repo_of p) ""
                  ∷ reconciles (repo_of p) res trigger_manual false
                  ∷ [])
                a).0
      at_run (failed e) = (tt, (tt, ((refl, ("", h, g)), (tt, tt))))
      at_run (ok rep) = (tt, (tt, ((refl, ("", h, g)), (tt, tt))))

  run_apply-Grounded :
      (a : Answer RepoPermission)
      → w.permission (repo_of p) p.user_login ≡ a
      → Asks u w app_slug event p cmd_apply
      → All IsGrounded
          (run_apply u w
            (repo_of p)
            p
            (authorize_apply u w (repo_of p) p.issue_number p.user_login a)).0
  unfolding authorize_apply
  run_apply-Grounded (failed e) h asks = (tt, (tt, tt))
  run_apply-Grounded (ok perm) h asks = at_test (can_apply perm) refl _ (tt, (tt, tt))
    where
      at_test :
          (b : Bool)
          → can_apply perm ≡ b
          → (refused : Handled) → All IsGrounded refused.0
          → All IsGrounded (run_apply u w (repo_of p) p (if b then none else some refused)).0
      at_test true granted refused harmless =
          apply_by_comment-Grounded (w.settings (repo_of p) "") refl (asked asks perm h granted)
      at_test false denied refused harmless = harmless

  run_command-Grounded :
      (slug : String) (cmd : Command)
      → Asks u w app_slug event p cmd
      → All IsGrounded (run_command u w (repo_of p) p slug cmd).0
  run_command-Grounded slug cmd_none asks = tt
  run_command-Grounded slug cmd_help asks = (tt, tt)
  run_command-Grounded slug cmd_recheck asks =
      recheck-Grounded (w.pull_request_head_sha (repo_of p) p.issue_number) refl asks
  run_command-Grounded slug cmd_apply asks =
      run_apply-Grounded (w.permission (repo_of p) p.user_login) refl asks

  handle_issue_comment-Grounded :
      event ≡ "issue_comment" → All IsGrounded (handle_issue_comment u w app_slug (repo_of p) p).0
  unfolding handle_issue_comment
  handle_issue_comment-Grounded is_comment =
      if-All IsGrounded (not (p.action == "created")) _ _ (λ e. tt)
        (λ created.
          if-All IsGrounded (not p.is_pull_request) _ _ (λ e. tt)
            (λ on_pr.
              if-All IsGrounded (equal_fold (codes p.user_type) (codes "Bot")) _ _ (λ e. tt)
                (λ no_bot.
                  run_command-Grounded app_slug (parse_comment u p.comment_body app_slug).command (
                    is_comment,
                    same_text (ground (arith, created)),
                    ground (arith, on_pr),
                    no_bot,
                    refl,
                  ))))

module _ (u : Strings) (w : World) (deps : Deps) (req : Request) where
  -- An effect of a request: a reconcile has a request that is signed, or that comes without a secret in the
  -- unauthenticated mode, and a ground in its payload.
  abbrev pub Authorized : Effect → Type 0
  Authorized (reconciles repo res trigger dry) =
      (body : String) × ((p : Payload) × ((req.body ≡ some body)
          × (IsTrusted u w deps body req.signature
              × ((w.unmarshal body ≡ some p)
                  × Grounded u w deps.app_slug req.event p (reconciles repo res trigger dry)))))
  Authorized _ = Unit

  dispatch-Grounded :
      (p : Payload) → All (Grounded u w deps.app_slug req.event p) (dispatch u w deps req.event p).0
  unfolding dispatch
  dispatch-Grounded p =
      let IsGrounded = Grounded u w deps.app_slug req.event p in
      if-All IsGrounded (p.owner == "" || p.name == "") _ _ (λ e. tt)
        (λ named.
          if-All IsGrounded (req.event == "push") _ _
            (λ e. handle_push-Grounded u w deps.app_slug req.event p (same_text e))
            (λ e.
              if-All IsGrounded (req.event == "pull_request") _ _
                (λ e. handle_pull_request-Grounded u w deps.app_slug req.event p (same_text e))
                (λ e.
                  if-All IsGrounded (req.event == "issue_comment") _ _
                    (λ e. handle_issue_comment-Grounded u w deps.app_slug req.event p (same_text e))
                    (λ e. tt))))

  authorize :
      (body : String) (p : Payload)
      → req.body ≡ some body
      → IsTrusted u w deps body req.signature
      → w.unmarshal body ≡ some p
      → (es : List Effect) → All (Grounded u w deps.app_slug req.event p) es
      → All Authorized es
  authorize body p has_body authentic parsed [] h = tt
  authorize body p has_body authentic parsed (e ∷ es) h =
      (at_effect e h.0, authorize body p has_body authentic parsed es h.1)
    where
      at_effect : (f : Effect) → Grounded u w deps.app_slug req.event p f → Authorized f
      at_effect (reconciles repo res trigger dry) g =
          (body, (p, (has_body, (authentic, (parsed, g)))))
      at_effect (loads repo ref) g = tt
      at_effect (asks_permission repo login) g = tt
      at_effect (asks_head repo n) g = tt
      at_effect (asks_repository repo) g = tt
      at_effect (comments repo n text) g = tt

  -- Every reconcile that a webhook starts is of the repository that the payload of its request names. The
  -- request has the signature of its body under the secret, or no secret is configured and the
  -- unauthenticated mode is explicitly on. The settings are loaded for the reconcile: an apply is for a push
  -- to the default branch, at that branch, for a merged pull request, or for the `apply` of an author who
  -- is no bot and to whom GitHub gives write or admin permission, the last two at the default branch and
  -- never at the head of the pull request; a dry run is at the head of a pull request.
  pub serve_http-Authorized : All Authorized (serve_http u w deps req).0
  unfolding serve_http refusal
  serve_http-Authorized = at_body req.body refl
    where
      at_payload :
          (body : String) (o : Option Payload)
          → req.body ≡ some body
          → IsTrusted u w deps body req.signature
          → w.unmarshal body ≡ o
          → All Authorized (with_payload u w deps req.event o).0
      at_payload body none has_body authentic parsed = tt
      at_payload body (some p) has_body authentic parsed =
          authorize body p has_body authentic parsed _ (dispatch-Grounded p)

      at_refusal :
          (b : Bool) (x y : Handled)
          → All Authorized x.0
          → All Authorized y.0
          → All Authorized (if b then x else y).0
      at_refusal true x y h k = h
      at_refusal false x y h k = k

      at_body : (o : Option String) → req.body ≡ o → All Authorized (answer_body u w deps req o).0
      at_body none has_body = tt
      at_body (some body) has_body =
          if-All Authorized (is_authentic u w deps body req.signature) _ _
            (λ authentic.
              at_payload body (w.unmarshal body) has_body
                ((is_authentic-IsTrusted u w deps body req.signature).0 authentic) refl)
            (λ e. at_refusal (deps.webhook_secret == "") _ _ tt tt)

  at_mode :
      (b : Bool)
      → (if b
          then refuse 401 "webhook authentication is not configured"
          else refuse 401 "invalid signature")
        ≡ refuse 401 (if b then "webhook authentication is not configured" else "invalid signature")
  at_mode true = refl
  at_mode false = refl

  not_trusted :
      (body : String)
      → ¬ IsTrusted u w deps body req.signature
      → is_authentic u w deps body req.signature ≡ false
  not_trusted body h = elim (Bool-cases (is_authentic u w deps body req.signature)) [
    | inl e ↦ absurd (h ((is_authentic-IsTrusted u w deps body req.signature).0 e))
    | inr e ↦ e
  ]

  -- A request whose body is read has no effect and is answered with 401, whatever its payload says, unless
  -- a secret is configured and its header is `sha256=` and the digest of the body under that secret, or no
  -- secret is configured and the unauthenticated mode is explicitly on.
  pub serve_http-unauthenticated :
      (body : String)
      → req.body ≡ some body
      → ¬ IsTrusted u w deps body req.signature
      → (reason : String) × (serve_http u w deps req ≡ refuse 401 reason)
  unfolding serve_http refusal
  serve_http-unauthenticated body has_body untrusted = (
    (if deps.webhook_secret == ""
        then "webhook authentication is not configured"
        else "invalid signature"),
    ap (answer_body u w deps req) has_body
        ∙ ap
            (λ b.
              if b then with_payload u w deps req.event (w.unmarshal body) else refusal u w deps)
            (not_trusted body untrusted)
        ∙ at_mode (deps.webhook_secret == ""),
  )
