-- ===== src/Tests/OidcExamples.antt =====
-- internal/oidc on small claims.
use repositories_settings.Base.{
  String, ◌==◌, ◌≡◌, ◌≢◌, refl, Bool, true, false, some, [], ◌∷◌, concat, contains, arith, eq_iff,
}
use repositories_settings.Value.{Fields, text, end, field, lookup_field}
use repositories_settings.Oidc.Subject.{
  split_repository, split_subject_repo, subject_repo_segments, segment_value, numeric_id,
}
use repositories_settings.Oidc.{
  GithubIdentity, refused, identity_error, see_segments, check_signed, parse_github_identity,
  github_actions_issuer,
}
use repositories_settings.Oidc.Laws.{split_repository-concat}

abbrev same : String → String → Bool
same s t = s == t

abbrev claims_with : String → Fields
claims_with subject = field "iss" (text github_actions_issuer) (
    field "repository" (text "acme/svc") (
      field "repository_id" (text "7") (
        field "repository_owner" (text "acme")
          (field "repository_owner_id" (text "42") (field "sub" (text subject) end)))))

abbrev found : GithubIdentity
found = record {
  issuer = github_actions_issuer;
  subject = "env:prod:repo:acme@42/svc@7:ref";
  repository = "acme/svc";
  repository_owner = "acme";
  repository_name = "svc";
  repository_id = "7";
  repository_owner_id = "42";
  immutable_subject = true;
  ref = "";
  event_name = "";
  workflow = "";
  run_id = "";
}

-- A subject that names the repository twice is refused.
ambiguous :
    parse_github_identity same false (claims_with "repo:acme/svc:repo:acme/svc") []
    ≡ refused (record { reason = "names this repository more than once"; claim = "sub" })
unfolding parse_github_identity check_signed see_segments split_repository split_subject_repo
    subject_repo_segments segment_value numeric_id contains lookup_field identity_error
ambiguous = refl

abbrev acme : String
acme = "acme"

abbrev svc : String
svc = "svc"

acme_given : acme ≢ ""
acme_given e = absurd (ground (arith, (eq_iff "acme" "").1 e))

svc_given : svc ≢ ""
svc_given e = absurd (ground (arith, (eq_iff "svc" "").1 e))

split_repository-concat_example :
    split_repository (concat ("acme" ∷ "/" ∷ "svc" ∷ [])) ≡ some ("acme", "svc")
split_repository-concat_example = split_repository-concat acme svc refl refl acme_given svc_given
