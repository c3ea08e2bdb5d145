-- ===== src/Oidc/Accepted.antt =====
-- internal/oidc/github.go: what the claims of an accepted token have in common.
use repositories_settings.Base.{
  String, ◌≡◌, Bool, true, false, ◌&&◌, Option, none, some, List, [], ◌∷◌, concat, length, keep,
}
use repositories_settings.Value.{Fields, text, lookup_field}
use repositories_settings.Oidc.Subject.{
  SubjectRepo, numeric_id, split_repository, split_subject_repo, subject_repo_segments,
}
use repositories_settings.Oidc.{GithubIdentity, Signed, same_repository, ids_agree}

module _ (equal_fold : String → String → Bool) (require_immutable : Bool) where
  -- The segment names the repository: with the signed ids, or by names alone where no ids are required.
  abbrev pub names_it : Signed → String → String → Option SubjectRepo → Bool
  names_it s owner name none = false
  names_it s owner name (some part) =
      same_repository equal_fold require_immutable owner name part
      && ids_agree equal_fold require_immutable s part

  abbrev pub naming : Signed → String → String → List String → List String
  naming s owner name segments =
      keep (λ seg. names_it s owner name (split_subject_repo seg)) segments

  -- The claims agree on the repository of the identity: its ids are the signed numbers, its name is the
  -- signed name, the owner is the signed owner, and exactly one segment of the subject names it.
  abbrev pub Agrees : Signed → GithubIdentity → Type 0
  Agrees s id =
      (owner : String) × ((split_repository s.repository ≡ some (owner, id.repository_name))
        × ((id.repository ≡ concat (owner ∷ "/" ∷ id.repository_name ∷ []))
            × ((equal_fold owner s.owner ≡ true)
                × (((id.repository_id ≡ s.repository_id) × (numeric_id s.repository_id ≡ true))
                    × (((id.repository_owner_id ≡ s.owner_id) × (numeric_id s.owner_id ≡ true))
                        × (length
                              (naming s owner id.repository_name (subject_repo_segments s.subject))
                            ≡ 1))))))

  -- The texts of the claims.
  abbrev pub AreClaims : Fields → Signed → Type 0
  AreClaims claims s =
      (lookup_field "sub" claims ≡ some (text s.subject))
      × ((lookup_field "repository" claims ≡ some (text s.repository))
          × ((lookup_field "repository_owner" claims ≡ some (text s.owner))
              × ((lookup_field "repository_id" claims ≡ some (text s.repository_id))
                  × (lookup_field "repository_owner_id" claims ≡ some (text s.owner_id)))))
