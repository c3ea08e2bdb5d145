-- ===== src/Server/Intake.antt =====
-- internal/server/webhook.go: what a request is checked for, and which handler it goes to.
use Prim.Native.String.{slice, len}
use package.text.Mathlib.Text.{starts_with}
use repositories_settings.Base.{
  ℕ, String, ◌==◌, Bool, ◌&&◌, ◌||◌, Option, none, some, [], if◌then◌else◌,
}
use repositories_settings.Config.Schema.{Repo}
use repositories_settings.Server.Commands.{Strings}
use repositories_settings.Server.Webhook.{
  Payload, http_error, Handled, World, skip, handle_push, handle_pull_request,
}
use repositories_settings.Server.Comments.{handle_issue_comment}

-- What the handler reads of its `Deps`; an empty secret is none.
pub record Deps : Type 0 where
  pub webhook_secret : String
  pub allow_unauthenticated : Bool
  pub app_slug : String

-- The body as far as it was read, which may fail, and two headers.
pub record Request : Type 0 where
  pub body : Option String
  pub signature : String
  pub event : String

abbrev pub refuse : ℕ → String → Handled
refuse status text = ([], http_error status text)

abbrev pub repo_of : Payload → Repo
repo_of p = record { owner = p.owner; name = p.name }

module _ (u : Strings) (w : World) where
  open w use {hmac_hex, unmarshal}

  unfoldable pub verify_hmac : String → String → String → Bool
  verify_hmac secret body header =
      starts_with header "sha256="
      && (hmac_hex secret body == slice header (len "sha256=") (len header))

  -- The check of the two modes: a secret, or the explicit lack of one.
  unfoldable pub is_authentic : Deps → String → String → Bool
  unfolding verify_hmac
  is_authentic deps body signature =
      if deps.webhook_secret == ""
      then deps.allow_unauthenticated
      else verify_hmac deps.webhook_secret body signature

  unfoldable pub refusal : Deps → Handled
  refusal deps =
      if deps.webhook_secret == ""
      then refuse 401 "webhook authentication is not configured"
      else refuse 401 "invalid signature"

  unfoldable pub dispatch : Deps → String → Payload → Handled
  dispatch deps event p =
      if p.owner == "" || p.name == ""
      then skip "no repo"
      else if event == "push"
      then handle_push u w (repo_of p) p
      else if event == "pull_request"
      then handle_pull_request u w (repo_of p) p
      else if event == "issue_comment"
      then handle_issue_comment u w deps.app_slug (repo_of p) p
      else skip "unhandled event"

  abbrev pub with_payload : Deps → String → Option Payload → Handled
  with_payload deps event none = refuse 400 "bad payload"
  with_payload deps event (some p) = dispatch deps event p

  abbrev pub answer_body : Deps → Request → Option String → Handled
  answer_body deps req none = refuse 400 "bad body"
  answer_body deps req (some body) =
      if is_authentic deps body req.signature
      then with_payload deps req.event (unmarshal body)
      else refusal deps

  unfoldable pub serve_http : Deps → Request → Handled
  unfolding dispatch is_authentic refusal
  serve_http deps req = answer_body deps req req.body
