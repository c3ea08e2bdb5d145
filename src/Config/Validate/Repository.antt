-- ===== src/Config/Validate/Repository.antt =====
-- internal/config/validate.go: the files that hold one group of settings of the repository: repo.yml
-- with the topics, actions, security, pages and the custom properties.
use Prim.Native.String.{len}
use repositories_settings.Base.{
  ℕ, suc, String, ◌==◌, Bool, false, ◌&&◌, ◌||◌, not, Option, none, some, List, [], ◌∷◌, ◌++◌,
  concat, length, ltb,
}
use repositories_settings.Base.Int.{pos}
use repositories_settings.Value.{
  Value, Items, Fields, nil, cons, text, bool, arr, lookup_field, field_keys,
}
use repositories_settings.Config.Schema.{RepoConfig, PagesSource}
use repositories_settings.Config.Files.{
  RepoFile, ActionsFile, SecurityFile, PagesFile, CustomPropertiesFile,
}
use repositories_settings.Config.Policy.Inputs.{Runtime}
use repositories_settings.Config.Validate.{
  ValidationError, finalize, add_if, one_of, not_one_of, each_at, require_version, entry_text,
  at_least_one,
}
use repositories_settings.Config.Validate.Names.{is_topic, topic_pattern}

module _ (rt : Runtime) where
  open rt use {quote, decimal, range}

  unfoldable pub topics_issues : List String → List String
  topics_issues topics =
      add_if (ltb 20 (length topics)) "topics: max 20"
      ++ each_at
          (λ i t. add_if (ltb 50 (len t) || not (is_topic t)) (
            entry_text rt "topics" i
              (concat (": must match " ∷ topic_pattern ∷ ", max 50 chars" ∷ []))))
          0 topics

  -- `fmt` of a text that may be unset; the code formats it only where it is set.
  abbrev pub quoted : String → Option String → String
  quoted msg none = msg
  quoted msg (some v) = concat (msg ∷ quote v ∷ [])

  unfoldable pub actions_issues : ActionsFile → List String
  actions_issues f =
      require_version rt f.version
      ++ add_if (not_one_of f.actions.allowed_actions ("all" ∷ "local_only" ∷ "selected" ∷ []))
          (quoted "actions.allowed_actions: invalid value " f.actions.allowed_actions)
      ++ add_if (not_one_of f.actions.default_workflow_permissions ("read" ∷ "write" ∷ [])) (
          quoted "actions.default_workflow_permissions: invalid value "
            f.actions.default_workflow_permissions)

  unfoldable pub validate_actions_file : ActionsFile → Option ValidationError
  unfolding actions_issues
  validate_actions_file f = finalize "actions.yml" (actions_issues f)

  unfoldable pub validate_security_file : SecurityFile → Option ValidationError
  validate_security_file f = finalize "security.yml" (require_version rt f.version)

  abbrev pub source_issues : Option PagesSource → List String
  source_issues none = []
  source_issues (some s) =
      add_if (s.branch == "") "pages.source.branch: required"
      ++ add_if (not (one_of s.path ("/" ∷ "/docs" ∷ []))) "pages.source.path: must be / or /docs"

  unfoldable pub validate_pages_file : PagesFile → Option ValidationError
  validate_pages_file f = finalize "pages.yml" (
      require_version rt f.version
      ++ add_if (not_one_of f.pages.build_type ("legacy" ∷ "workflow" ∷ []))
          (quoted "pages.build_type: invalid value " f.pages.build_type)
      ++ source_issues f.pages.source)

  abbrev pub item_issues : String → ℕ → Items → List String
  item_issues k j nil = []
  item_issues k j (cons (text s) vs) = item_issues k (suc j) vs
  item_issues k j (cons v vs) =
      concat
        ("custom_properties." ∷ k ∷ "[" ∷ decimal (pos j) ∷ "]: array values must be strings" ∷ [])
      ∷ item_issues k (suc j) vs

  abbrev pub property_issues : String → Option Value → List String
  property_issues k none = []
  property_issues k (some (text s)) = []
  property_issues k (some (bool b)) = []
  property_issues k (some (arr vs)) = item_issues k 0 vs
  property_issues k (some v) =
      concat ("custom_properties." ∷ k ∷ ": must be string, []string or bool" ∷ []) ∷ []

  -- The loop over the map, in the order in which `range` visits its keys.
  abbrev pub properties_issues : Fields → List String → List String
  properties_issues m [] = []
  properties_issues m (k ∷ ks) = property_issues k (lookup_field k m) ++ properties_issues m ks

  unfoldable pub validate_custom_properties_file : CustomPropertiesFile → Option ValidationError
  validate_custom_properties_file f = finalize "custom-properties.yml" (
      require_version rt f.version
      ++ at_least_one (field_keys f.custom_properties)
          "custom_properties: at least one property required"
      ++ properties_issues f.custom_properties (range (field_keys f.custom_properties)))

  -- `url_scheme s` is the scheme of the URL, or nothing when `url.Parse` fails.
  module _ (url_scheme : String → Option String) where
    abbrev pub is_absolute : Option String → Bool
    is_absolute none = false
    is_absolute (some scheme) = not (scheme == "")

    abbrev pub bad_homepage : Option String → Bool
    bad_homepage none = false
    bad_homepage (some url) = not (url == "") && not (is_absolute (url_scheme url))

    unfoldable pub repo_issues : RepoConfig → List String
    repo_issues r =
        add_if (not_one_of r.visibility ("public" ∷ "private" ∷ "internal" ∷ []))
          (quoted "repository.visibility: invalid value " r.visibility)
        ++ add_if (bad_homepage r.homepage) "repository.homepage: must be a valid URL"
        ++ add_if (not_one_of r.squash_merge_commit_title ("PR_TITLE" ∷ "COMMIT_OR_PR_TITLE" ∷ []))
            "repository.squash_merge_commit_title: invalid value"
        ++ add_if
            (not_one_of r.squash_merge_commit_message
              ("PR_BODY" ∷ "COMMIT_MESSAGES" ∷ "BLANK" ∷ []))
            "repository.squash_merge_commit_message: invalid value"
        ++ add_if (not_one_of r.merge_commit_title ("PR_TITLE" ∷ "MERGE_MESSAGE" ∷ []))
            "repository.merge_commit_title: invalid value"
        ++ add_if (not_one_of r.merge_commit_message ("PR_BODY" ∷ "PR_TITLE" ∷ "BLANK" ∷ []))
            "repository.merge_commit_message: invalid value"

    abbrev pub if_set : {A : Type 0} → (A → List String) → Option A → List String
    if_set f none = []
    if_set f (some a) = f a

    unfoldable pub validate_repo_file : RepoFile → Option ValidationError
    unfolding repo_issues topics_issues
    validate_repo_file f = finalize "repo.yml" (
        require_version rt f.version
        ++ if_set repo_issues f.repository
        ++ if_set topics_issues f.topics)
