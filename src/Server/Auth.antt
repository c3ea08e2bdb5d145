-- ===== src/Server/Auth.antt =====
-- internal/server/auth.go: who a request to the API comes from, and what it may ask for. The verifier of
-- workflow tokens is an argument; the comparison through a digest is the comparison of the texts.
use Prim.Native.String.{slice, len}
use repositories_settings.Base.{
  ℕ, ◌+◌, String, ◌==◌, Bool, true, false, ◌&&◌, ◌||◌, not, Option, none, some, List, [], ◌∷◌,
  concat, contains, codes, leb, nat_eq, if◌then◌else◌,
}
use repositories_settings.Base.Int.{ℤ}
use repositories_settings.Config.Schema.{Repo}
use repositories_settings.Config.Suborg.{repo_string}
use repositories_settings.Oidc.{GithubIdentity}
use repositories_settings.Server.Commands.{Strings}
use repositories_settings.Server.Webhook.{Answer, ok, failed, Response, http_error}

pub data CredentialKind : Type 0 where
  cred_oidc cred_token cred_anonymous : CredentialKind

pub record Caller : Type 0 where
  pub kind : CredentialKind
  pub repository : String
  pub subject : String
  pub ref : String
  pub event_name : String
  pub repository_id : String
  pub repository_owner_id : String

-- What GitHub says of a repository.
pub record Metadata : Type 0 where
  pub default_branch : String
  pub id : ℤ
  pub owner_id : ℤ

-- The credentials that are configured: `oidc` is the verifier, `api_token` may be empty.
pub record Access : Type 0 where
  pub oidc : Option (String → Answer GithubIdentity)
  pub api_token : String
  pub allow_unauthenticated : Bool

abbrev pub caller_of : CredentialKind → Caller
caller_of k = record {
  kind = k;
  repository = "";
  subject = "";
  ref = "";
  event_name = "";
  repository_id = "";
  repository_owner_id = "";
}

-- `strings.Count(s, ".")`
abbrev pub count_dots : List ℕ → ℕ
count_dots [] = 0
count_dots (c ∷ s) = if nat_eq c b'.' then count_dots s + 1 else count_dots s

unfoldable pub looks_like_jwt : String → Bool
looks_like_jwt s = nat_eq (count_dots (codes s)) 2

unfoldable pub authorize_oidc : Answer GithubIdentity → Option Caller
authorize_oidc (failed e) = none
authorize_oidc (ok identity) = some (record {
  kind = cred_oidc;
  repository = identity.repository;
  subject = identity.subject;
  ref = identity.ref;
  event_name = identity.event_name;
  repository_id = identity.repository_id;
  repository_owner_id = identity.repository_owner_id;
})

abbrev pub is_kind_oidc : CredentialKind → Bool
is_kind_oidc cred_oidc = true
is_kind_oidc _ = false

module _ (u : Strings) where
  open u use {trim_space, equal_fold}

  unfoldable pub scoped_to : Caller → Repo → Bool
  scoped_to c repo = c.repository == "" || equal_fold c.repository (repo_string repo)

  -- The header `Authorization`.
  unfoldable pub bearer_token : String → String
  bearer_token auth =
      if leb (len auth) (len "Bearer ") || not (equal_fold (slice auth 0 (len "Bearer ")) "Bearer ")
      then ""
      else trim_space (slice auth (len "Bearer ") (len auth))

  abbrev pub authorize_static : Access → String → Option Caller
  authorize_static d bearer =
      if not (d.api_token == "")
      then (if not (bearer == "") && bearer == d.api_token
          then some (caller_of cred_token)
          else none)
      else if d.allow_unauthenticated
      then some (caller_of cred_anonymous)
      else none

  abbrev pub authorize_bearer :
      Access → String → Option (String → Answer GithubIdentity) → Option Caller
  authorize_bearer d bearer none = authorize_static d bearer
  authorize_bearer d bearer (some verify) =
      if not (bearer == "") && looks_like_jwt bearer
      then authorize_oidc (verify bearer)
      else authorize_static d bearer

  unfoldable pub authorize : Access → String → Option Caller
  unfolding bearer_token looks_like_jwt authorize_oidc
  authorize d header = authorize_bearer d (bearer_token header) d.oidc

-- The events of a workflow that may apply.
unfoldable pub is_trusted_event : String → Bool
unfolding contains
is_trusted_event name = contains ("push" ∷ "workflow_dispatch" ∷ "schedule" ∷ []) name

-- `decimal` is `strconv.FormatInt(n, 10)`.
unfoldable pub is_current : (ℤ → String) → Caller → Metadata → Bool
is_current decimal c m =
    not (m.default_branch == "")
    && (c.ref == concat ("refs/heads/" ∷ m.default_branch ∷ [])
        && (c.repository_id == decimal m.id && c.repository_owner_id == decimal m.owner_id))

abbrev pub check_identity : (ℤ → String) → Caller → Answer Metadata → Option Response
check_identity decimal c (failed e) =
    some (http_error 502 "cannot verify repository identity and default branch")
check_identity decimal c (ok m) =
    if is_current decimal c m
    then none
    else some (
        http_error 403
          "forbidden: apply requires the current repository identity and default branch")

-- The answer of a refusal, or nothing when the caller may apply; whether GitHub was asked comes first.
unfoldable pub require_apply : (ℤ → String) → Caller → Answer Metadata → Bool × Option Response
unfolding is_trusted_event is_current
require_apply decimal c answer =
    if not (is_kind_oidc c.kind)
    then (false, none)
    else if not (is_trusted_event c.event_name)
    then (false, some (http_error 403 "forbidden: this workflow event may only request dry runs"))
    else (true, check_identity decimal c answer)
