-- ===== src/Tests/ServerExamples.antt =====
-- internal/server on small requests.
use repositories_settings.Base.{
  ◌↔◌, String, ◌==◌, ◌≡◌, ◌≢◌, refl, true, false, none, some, [], ◌∷◌, All, equal_fold, contains,
}
use repositories_settings.Base.Int.{pos}
use repositories_settings.Config.Resolution.{repo_only}
use repositories_settings.Reconciler.{Report}
use repositories_settings.Server.Commands.{
  Strings, cmd_none, cmd_apply, cmd_help, can_apply, trim_left, is_verb, normalize_verb,
  split_lines, match_trigger, command_of_line, first_command, parse_comment,
}
use repositories_settings.Server.Failures.{
  Failure, invalid_file, plain, wrapped, joined, no_more, also,
}
use repositories_settings.Server.Webhook.{
  trigger_manual, Answer, ok, asks_repository, format_apply_report, Payload, loads, reconciles,
  asks_permission, comments, World,
}
use repositories_settings.Server.Intake.{
  Deps, Request, refuse, is_authentic, verify_hmac, dispatch, serve_http,
}
use repositories_settings.Server.Signature.{IsTrusted, is_authentic-IsTrusted}
use repositories_settings.Server.Safety.{
  Authorized, serve_http-Authorized, serve_http-unauthenticated,
}
use repositories_settings.Config.Schema.{Repo}
use repositories_settings.Server.Comments.{handle_issue_comment, authorize_apply}
use repositories_settings.Server.Auth.{
  Access, Caller, cred_oidc, Metadata, cred_token, caller_of, bearer_token, looks_like_jwt,
  authorize_oidc, authorize, scoped_to, require_apply, is_trusted_event, is_current,
}
use repositories_settings.Server.Api.{ReconcileRequest, deny, narrowed, serve_reconcile}
use repositories_settings.Server.Scope.{InScope, serve_reconcile-InScope}
use repositories_settings.Server.Credentials.{Credential, authorize-Credential}
use repositories_settings.Oidc.{GithubIdentity, github_actions_issuer}
use repositories_settings.Server.Parsed.{IsCommandOf, parse_comment-IsCommandOf}

-- Texts that are in lower case and without space at their ends.
abbrev plain_strings : Strings
plain_strings = record { to_lower = λ s. s; trim_space = λ s. s; equal_fold = λ s t. s == t }

abbrev apply_text : String
apply_text = "please:\n> /repo-settings help\n/repo-settings apply"

abbrev payload : Payload
payload = record {
  action = "created";
  owner = "acme";
  name = "svc";
  default_branch = "main";
  pr_number = pos 0;
  head_sha = "";
  merged = false;
  issue_number = pos 7;
  is_pull_request = true;
  comment_body = apply_text;
  user_login = "dev";
  user_type = "User";
  ref = "";
}

abbrev empty_report : Report
empty_report = record {
  diffs = [];
  applied = [];
  dry_run = false;
  violations = [];
  blocked = false;
}

abbrev world : World
world = record {
  settings = λ repo ref. ok (repo_only none);
  reconcile = λ repo res trigger dry. ok empty_report;
  permission = λ repo login. ok (record { permission = "write"; role_name = "maintain" });
  pull_request_head_sha = λ repo n. ok "abc";
  format_report = λ rep. "";
  hmac_hex = λ secret body. "c0ffee";
  decimal = λ n. "0";
  unmarshal = λ body. some payload;
}

abbrev deps : Deps
deps = record { webhook_secret = "s"; allow_unauthenticated = false; app_slug = "bot" }

abbrev signed : Request
signed = record { body = some "{}"; signature = "sha256=c0ffee"; event = "issue_comment" }

abbrev forged : Request
forged = record { body = some "{}"; signature = "sha256=00"; event = "push" }

-- The quoted command of the second line is passed over.
apply_parsed : (parse_comment plain_strings apply_text "bot").command ≡ cmd_apply
unfolding parse_comment first_command command_of_line match_trigger split_lines normalize_verb
    is_verb trim_left
apply_parsed = refl

-- A mention without a verb asks for help.
help_parsed : (parse_comment plain_strings "@bot: hello" "bot").command ≡ cmd_help
unfolding parse_comment first_command command_of_line match_trigger split_lines normalize_verb
    is_verb trim_left
help_parsed = refl

serve_http-Authorized_example :
    All (Authorized plain_strings world deps signed) (serve_http plain_strings world deps signed).0
serve_http-Authorized_example = serve_http-Authorized plain_strings world deps signed

forged_refused : is_authentic plain_strings world deps "{}" "sha256=00" ≡ false
unfolding is_authentic verify_hmac
forged_refused = refl

is_authentic-IsTrusted_example :
    (is_authentic plain_strings world deps "{}" "sha256=00" ≡ true)
    ↔ IsTrusted plain_strings world deps "{}" "sha256=00"
is_authentic-IsTrusted_example = is_authentic-IsTrusted plain_strings world deps "{}" "sha256=00"

forged_untrusted : ¬ IsTrusted plain_strings world deps "{}" "sha256=00"
forged_untrusted h =
    absurd
      (cc (forged_refused, (is_authentic-IsTrusted plain_strings world deps "{}" "sha256=00").1 h))

serve_http-unauthenticated_example :
    (reason : String) × (serve_http plain_strings world deps forged ≡ refuse 401 reason)
serve_http-unauthenticated_example =
    serve_http-unauthenticated plain_strings world deps forged "{}" refl forged_untrusted

is_a_command : (parse_comment plain_strings apply_text "bot").command ≢ cmd_none
is_a_command e = absurd (cc (apply_parsed, e))

parse_comment-IsCommandOf_example :
    IsCommandOf plain_strings "bot"
      (split_lines "" apply_text)
      (parse_comment plain_strings apply_text "bot")
parse_comment-IsCommandOf_example =
    parse_comment-IsCommandOf plain_strings apply_text "bot" is_a_command

abbrev org_failure : Failure
org_failure = wrapped "org settings" (
    joined (
      also (plain "502")
        (also (invalid_file (record { file = "teams.yml"; issues = "bad" ∷ [] })) no_more)))

abbrev workflow_token : String
workflow_token = "Bearer a.b.c"

abbrev identity : GithubIdentity
identity = record {
  issuer = github_actions_issuer;
  repository_owner = "acme";
  repository_name = "svc";
  immutable_subject = false;
  workflow = "";
  run_id = "";
  repository = "acme/svc";
  subject = "repo:acme/svc";
  ref = "refs/heads/main";
  event_name = "push";
  repository_id = "0";
  repository_owner_id = "0";
}

abbrev access : Access
access = record {
  oidc = some (λ token. ok identity);
  api_token = "operator";
  allow_unauthenticated = false;
}

abbrev metadata : Repo → Answer Metadata
metadata repo = ok (record { default_branch = "main"; id = pos 0; owner_id = pos 0 })

abbrev apply_request : ReconcileRequest
apply_request = record { owner = "acme"; repo = "svc"; changed_files = none; dry_run = false }

abbrev elsewhere : ReconcileRequest
elsewhere = record { owner = "acme"; repo = "other"; changed_files = none; dry_run = true }

-- A workflow on the default branch may apply to its own repository.
workflow_applies :
    (serve_reconcile plain_strings world access metadata workflow_token (some apply_request)).0
    ≡ asks_repository (record { owner = "acme"; name = "svc" })
      ∷ loads (record { owner = "acme"; name = "svc" }) ""
      ∷ reconciles (record { owner = "acme"; name = "svc" }) (repo_only none) trigger_manual false
      ∷ []
unfolding serve_reconcile authorize bearer_token looks_like_jwt authorize_oidc scoped_to
    require_apply is_trusted_event is_current contains narrowed
workflow_applies = refl

-- It may not even start a dry run of another one.
workflow_confined :
    serve_reconcile plain_strings world access metadata workflow_token (some elsewhere)
    ≡ deny 403 "forbidden: this credential is scoped to acme/svc"
unfolding serve_reconcile authorize bearer_token looks_like_jwt authorize_oidc scoped_to
workflow_confined = refl

serve_reconcile-InScope_example :
    All
      (InScope plain_strings world access metadata workflow_token apply_request)
      (serve_reconcile plain_strings world access metadata workflow_token (some apply_request)).0
serve_reconcile-InScope_example =
    serve_reconcile-InScope plain_strings world access metadata workflow_token apply_request

operator_known : authorize plain_strings access "Bearer operator" ≡ some (caller_of cred_token)
unfolding authorize bearer_token looks_like_jwt
operator_known = refl

abbrev workflow_caller : Caller
workflow_caller = record {
  kind = cred_oidc;
  repository = "acme/svc";
  subject = identity.subject;
  ref = identity.ref;
  event_name = identity.event_name;
  repository_id = identity.repository_id;
  repository_owner_id = identity.repository_owner_id;
}

workflow_known : authorize plain_strings access workflow_token ≡ some workflow_caller
unfolding authorize bearer_token looks_like_jwt authorize_oidc
workflow_known = refl

authorize-Credential_example :
    Credential access (bearer_token plain_strings workflow_token) workflow_caller
authorize-Credential_example =
    authorize-Credential plain_strings access workflow_token workflow_caller workflow_known

-- The comment of an author with write access applies, and says so.
comment_applies :
    (serve_http plain_strings world deps signed).0
    ≡ asks_permission (record { owner = "acme"; name = "svc" }) "dev"
      ∷ loads (record { owner = "acme"; name = "svc" }) ""
      ∷ reconciles (record { owner = "acme"; name = "svc" }) (repo_only none) trigger_manual false
      ∷ comments
          (record { owner = "acme"; name = "svc" })
          (pos 7)
          "## repo-settings — applied\n\nNo mutations were necessary; configuration already matched.\n"
      ∷ []
unfolding serve_http is_authentic verify_hmac dispatch handle_issue_comment equal_fold parse_comment
    first_command command_of_line match_trigger split_lines normalize_verb is_verb trim_left
    authorize_apply can_apply format_apply_report
comment_applies = refl
