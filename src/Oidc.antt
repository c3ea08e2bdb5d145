-- ===== src/Oidc.antt =====
-- internal/oidc/github.go: the repository that a verified token of GitHub Actions speaks for.
-- `strings.EqualFold`, which rests on the tables of Unicode, is an argument.
pub mod Subject
pub mod Laws
pub mod Accepted
use repositories_settings.Base.{
  String, ◌==◌, Bool, true, false, ◌&&◌, ◌||◌, not, Option, none, some, List, [], ◌∷◌, concat,
  contains, is_empty, if◌then◌else◌,
}
use repositories_settings.Value.{Value, Fields, text, lookup_field}
use repositories_settings.Oidc.Subject.{
  SubjectRepo, numeric_id, split_repository, split_subject_repo, subject_repo_segments,
}

pub record GithubIdentity : Type 0 where
  pub issuer : String
  pub subject : String
  pub repository : String
  pub repository_owner : String
  pub repository_name : String
  pub repository_id : String
  pub repository_owner_id : String
  pub immutable_subject : Bool
  pub ref : String
  pub event_name : String
  pub workflow : String
  pub run_id : String

pub record GithubIdentityError : Type 0 where
  pub reason : String
  pub claim : String

-- `(nil, nil)`, an error, or the identity.
pub data Parsed : Type 0 where
  other_issuer : Parsed
  refused : GithubIdentityError → Parsed
  identity : GithubIdentity → Parsed

unfoldable pub identity_error : String → String → Parsed
identity_error reason claim = refused (record { reason = reason; claim = claim })

-- `s, _ := claims[name].(string)`
abbrev pub text_or_empty : Option Value → String
text_or_empty (some (text s)) = s
text_or_empty _ = ""

-- `requiredClaim`, and what is done with the claim.
abbrev pub with_claim : String → Option Value → (String → Parsed) → Parsed
with_claim name none rest = identity_error "claim is missing" name
with_claim name (some (text s)) rest =
    if s == "" then identity_error "claim is empty" name else rest s
with_claim name (some v) rest = identity_error "claim is not a string" name

abbrev pub github_actions_issuer : String
github_actions_issuer = "https://token.actions.githubusercontent.com"

abbrev pub issuers_of : List String → List String
issuers_of [] = github_actions_issuer ∷ []
issuers_of (i ∷ is) = i ∷ is

-- The claims that have to agree.
pub record Signed : Type 0 where
  pub issuer : String
  pub subject : String
  pub repository : String
  pub owner : String
  pub repository_id : String
  pub owner_id : String

-- The variables of the loop over the segments.
pub record Seen : Type 0 where
  pub matches : List Bool
  pub parseable : Bool
  pub legacy : Bool

abbrev pub nothing_seen : Seen
nothing_seen = record { matches = []; parseable = false; legacy = false }

module _ (equal_fold : String → String → Bool) (require_immutable : Bool) where
  abbrev pub same_repository : String → String → SubjectRepo → Bool
  same_repository owner name part = equal_fold part.owner owner && equal_fold part.name name

  -- The segment counts: with the signed ids, or without ids where those are not required.
  abbrev pub ids_agree : Signed → SubjectRepo → Bool
  ids_agree s part =
      if part.immutable
      then part.owner_id == s.owner_id && part.repo_id == s.repository_id
      else not require_immutable

  -- A segment with the names of the repository and without the required ids.
  abbrev pub is_legacy : SubjectRepo → Bool
  is_legacy part = not part.immutable && require_immutable

  -- One turn of the loop, the later segments being seen already.
  abbrev pub see : Signed → String → String → Option SubjectRepo → Seen → Seen
  see s owner name none seen = seen
  see s owner name (some part) seen =
      let here = same_repository owner name part in
      record {
        matches = if here && ids_agree s part then part.immutable ∷ seen.matches else seen.matches;
        parseable = true;
        legacy = (here && is_legacy part) || seen.legacy;
      }

  unfoldable pub see_segments : Signed → String → String → List String → Seen
  unfolding split_subject_repo
  see_segments s owner name [] = nothing_seen
  see_segments s owner name (seg ∷ segments) =
      see s owner name (split_subject_repo seg) (see_segments s owner name segments)

  -- The closing switch.
  abbrev pub conclude : (Bool → GithubIdentity) → Seen → List Bool → Parsed
  conclude found seen (m ∷ n ∷ ms) = identity_error "names this repository more than once" "sub"
  conclude found seen (m ∷ []) = identity (found m)
  conclude found seen [] =
      if seen.legacy
      then identity_error "does not carry the immutable owner and repository IDs" "sub"
      else if seen.parseable
      then identity_error "does not agree with the repository claim" "sub"
      else identity_error "has no usable repo: segment" "sub"

  abbrev pub identity_of : Fields → Signed → String → String → Bool → GithubIdentity
  identity_of claims s owner name immutable = record {
    issuer = s.issuer;
    subject = s.subject;
    repository = concat (owner ∷ "/" ∷ name ∷ []);
    repository_owner = s.owner;
    repository_name = name;
    repository_id = s.repository_id;
    repository_owner_id = s.owner_id;
    immutable_subject = immutable;
    ref = text_or_empty (lookup_field "ref" claims);
    event_name = text_or_empty (lookup_field "event_name" claims);
    workflow = text_or_empty (lookup_field "workflow" claims);
    run_id = text_or_empty (lookup_field "run_id" claims);
  }

  abbrev pub check_subject : Fields → Signed → Option (String × String) → Parsed
  check_subject claims s none = identity_error "claim is not owner/name" "repository"
  check_subject claims s (some (owner, name)) =
      let segments = subject_repo_segments s.subject in
      let seen = see_segments s owner name segments in
      if not (equal_fold owner s.owner)
      then identity_error "does not agree with the repository claim" "repository_owner"
      else if is_empty segments
      then identity_error "carries no repo: segment" "sub"
      else conclude (identity_of claims s owner name) seen seen.matches

  unfoldable pub check_signed : Fields → Signed → Parsed
  unfolding see_segments
  check_signed claims s =
      if not (numeric_id s.repository_id)
      then identity_error "claim is not a positive integer" "repository_id"
      else if not (numeric_id s.owner_id)
      then identity_error "claim is not a positive integer" "repository_owner_id"
      else check_subject claims s (split_repository s.repository)

  -- The claims that are required, in the order of the code.
  abbrev pub from_issuer : Fields → String → Parsed
  from_issuer claims issuer = with_claim "sub" (lookup_field "sub" claims) (λ subject.
      with_claim "repository" (lookup_field "repository" claims) (λ repository.
        with_claim "repository_owner" (lookup_field "repository_owner" claims) (λ owner.
          with_claim "repository_id" (lookup_field "repository_id" claims) (λ repository_id.
            with_claim "repository_owner_id" (lookup_field "repository_owner_id" claims)
              (λ owner_id. check_signed claims (record {
                issuer = issuer;
                subject = subject;
                repository = repository;
                owner = owner;
                repository_id = repository_id;
                owner_id = owner_id;
              }))))))

  unfoldable pub parse_github_identity : Fields → List String → Parsed
  unfolding check_signed
  parse_github_identity claims issuers =
      let issuer = text_or_empty (lookup_field "iss" claims) in
      if not (contains (issuers_of issuers) issuer) then other_issuer else from_issuer claims issuer
