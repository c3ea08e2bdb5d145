-- ===== src/Server/Credentials.antt =====
-- internal/server/auth.go: what makes a caller known.
use repositories_settings.Base.{
  String, ◌==◌, ◌≡◌, ◌≢◌, refl, sym, ap, subst, ◌∙◌, true, false, ◌&&◌, not, Option, none, some,
  arith, Bool-cases, inl, inr, if◌then◌else◌, eq_iff,
}
use repositories_settings.Oidc.{GithubIdentity}
use repositories_settings.Server.Commands.{Strings}
use repositories_settings.Server.Webhook.{Answer, ok, failed}
use repositories_settings.Server.Auth.{
  Access, Caller, cred_oidc, cred_token, cred_anonymous, caller_of, bearer_token, looks_like_jwt,
  authorize_oidc, authorize_static, authorize_bearer, authorize,
}

-- What a caller presents: a workflow token that the verifier accepts, the static token, or nothing.
pub data Credential (access : Access) (bearer : String) : Caller → Type 0 where
  workflow :
      (verify : String → Answer GithubIdentity) (id : GithubIdentity)
      → access.oidc ≡ some verify
      → looks_like_jwt bearer ≡ true
      → verify bearer ≡ ok id
      → Credential access bearer (record {
        kind = cred_oidc;
        repository = id.repository;
        subject = id.subject;
        ref = id.ref;
        event_name = id.event_name;
        repository_id = id.repository_id;
        repository_owner_id = id.repository_owner_id;
      })
  operator :
      access.api_token ≢ ""
      → bearer ≡ access.api_token
      → Credential access bearer (caller_of cred_token)
  anonymous :
      access.api_token ≡ ""
      → access.allow_unauthenticated ≡ true
      → Credential access bearer (caller_of cred_anonymous)

not_empty : {s : String} → (s == "") ≡ false → s ≢ ""
not_empty {s = s} h e = ground (arith, h, (eq_iff s "").1 e)

some_inj : {c d : Caller} → some c ≡ some d → c ≡ d
some_inj {c = c} e = ap (λ o. elim o [ some x ↦ x | none ↦ c ]) e

module _ (u : Strings) (access : Access) where
  authorize_static-Credential :
      (bearer : String) (c : Caller)
      → authorize_static u access bearer ≡ some c
      → Credential access bearer c
  authorize_static-Credential bearer c h = elim (Bool-cases (access.api_token == "")) [
    | inr given ↦ elim (Bool-cases (not (bearer == "") && bearer == access.api_token)) [
      | inl same ↦
          let e : some (caller_of cred_token) ≡ some c = ground (arith, given, same, h) in
          subst (Credential access bearer) (some_inj e)
            (operator (not_empty given) ((eq_iff bearer access.api_token).0 (ground (arith, same))))
      | inr other ↦ absurd (ground (arith, given, other, h))
    ]
    | inl missing ↦ elim (Bool-cases access.allow_unauthenticated) [
      | inl open_mode ↦
          let e : some (caller_of cred_anonymous) ≡ some c =
            ground (arith, missing, open_mode, h) in
          subst (Credential access bearer) (some_inj e)
            (anonymous ((eq_iff access.api_token "").0 missing) open_mode)
      | inr closed ↦ absurd (ground (arith, missing, closed, h))
    ]
  ]

  -- A caller is known by a workflow token that looks like a JWT and that the verifier accepts, with the
  -- repository, ref, event and ids of that token as its own; by the static token, which is not empty; or, where no static
  -- token is configured, by the explicit unauthenticated mode.
  pub authorize-Credential :
      (header : String) (c : Caller)
      → authorize u access header ≡ some c
      → Credential access (bearer_token u header) c
  unfolding authorize authorize_oidc
  authorize-Credential header c h = at_verifier access.oidc refl h
    where
      bearer : String
      bearer = bearer_token u header

      at_identity :
          (verify : String → Answer GithubIdentity) (a : Answer GithubIdentity)
          → access.oidc ≡ some verify
          → looks_like_jwt bearer ≡ true
          → verify bearer ≡ a
          → authorize_oidc a ≡ some c
          → Credential access bearer c
      at_identity verify (failed e) has jwt eq k = absurd (ground (arith, k))
      at_identity verify (ok id) has jwt eq k =
          subst (Credential access bearer) (some_inj k) (workflow verify id has jwt eq)

      at_verifier :
          (o : Option (String → Answer GithubIdentity))
          → access.oidc ≡ o
          → authorize_bearer u access bearer o ≡ some c
          → Credential access bearer c
      at_verifier none has k = authorize_static-Credential bearer c k
      at_verifier (some verify) has k =
          elim (Bool-cases (not (bearer == "") && looks_like_jwt bearer)) [
            | inl jwt ↦ at_identity verify (verify bearer) has (ground (arith, jwt)) refl (
                ap
                  (λ b.
                    if b then authorize_oidc (verify bearer) else authorize_static u access bearer)
                  (sym jwt)
                ∙ k)
            | inr static ↦ authorize_static-Credential bearer c (
                ap
                  (λ b.
                    if b then authorize_oidc (verify bearer) else authorize_static u access bearer)
                  (sym static)
                ∙ k)
          ]
