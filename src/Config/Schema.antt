-- ===== src/Config/Schema.antt =====
-- internal/config/schema.go: the settings of a repository. A pointer is an `Option` (nil means that
-- the operator did not set the field), a slice is a `Slice` (a nil slice and an empty one differ on
-- the wire), an `any` is a `Value`. `ref_name` of a ruleset condition is laid flat.
use repositories_settings.Base.{Bool, String, Option, none, some, List, []}
use repositories_settings.Base.Int.{ℤ}
use repositories_settings.Value.{Value, Fields}

-- A Go slice: `none` is the nil slice.
abbrev pub Slice : Type 0 → Type 0
Slice A = Option (List A)

-- What `range` visits, and `len` counts.
abbrev pub items : {A : Type 0} → Slice A → List A
items none = []
items (some xs) = xs

pub record Repo : Type 0 where
  pub owner : String
  pub name : String

-- `type TeamPermission string`: the five constants, or any other text that a file holds.
abbrev pub TeamPermission : Type 0
TeamPermission = String

pub data PolicySeverity : Type 0 where
  sev_error sev_warning : PolicySeverity

pub record PolicyViolation : Type 0 where
  pub field : String
  pub message : String
  pub severity : PolicySeverity
  pub org_policy : String

pub record TeamAccess : Type 0 where
  pub slug : String
  pub permission : TeamPermission

pub record TeamsConfig : Type 0 where
  pub teams : Slice TeamAccess

pub record RulesetBypassActor : Type 0 where
  pub actor_type : String
  pub actor_id : Value
  pub bypass_mode : String

pub record RulesetCondition : Type 0 where
  pub include : Slice String
  pub exclude : Slice String

pub record RulesetRule : Type 0 where
  pub type : String
  pub parameters : Fields

pub record Ruleset : Type 0 where
  pub name : String
  pub target : String
  pub enforcement : String
  pub conditions : Option RulesetCondition
  pub bypass_actors : Slice RulesetBypassActor
  pub rules : Slice RulesetRule

pub record RulesetsConfig : Type 0 where
  pub rulesets : Slice Ruleset

pub record RequiredStatusChecks : Type 0 where
  pub strict : Option Bool
  pub contexts : Slice String

pub record RequiredPrReviews : Type 0 where
  pub required_approving_review_count : Option ℤ
  pub dismiss_stale_reviews : Option Bool
  pub require_code_owner_reviews : Option Bool
  pub require_last_push_approval : Option Bool

pub record BranchRestrictions : Type 0 where
  pub users : Slice String
  pub teams : Slice String
  pub apps : Option (List String)

pub record BranchProtection : Type 0 where
  pub pattern : String
  pub required_status_checks : Option RequiredStatusChecks
  pub enforce_admins : Option Bool
  pub required_pull_request_reviews : Option RequiredPrReviews
  pub restrictions : Option BranchRestrictions
  pub required_linear_history : Option Bool
  pub allow_force_pushes : Option Bool
  pub allow_deletions : Option Bool
  pub required_conversation_resolution : Option Bool
  pub block_creations : Option Bool
  pub lock_branch : Option Bool
  pub allow_fork_syncing : Option Bool
  pub required_signatures : Option Bool

pub record BranchesConfig : Type 0 where
  pub branches : Slice BranchProtection

pub record EnvReviewer : Type 0 where
  pub type : String
  pub id : String

pub record EnvVariable : Type 0 where
  pub name : String
  pub value : String

pub record EnvSecretRef : Type 0 where
  pub name : String

pub record BranchEntry : Type 0 where
  pub name : String

pub record DeploymentBranchPolicy : Type 0 where
  pub protected_branches : Option Bool
  pub custom_branch_policies : Option Bool
  pub branch_policies : Slice BranchEntry

pub record Environment : Type 0 where
  pub name : String
  pub wait_timer : Option ℤ
  pub prevent_self_review : Option Bool
  pub reviewers : Slice EnvReviewer
  pub deployment_branch_policy : Option DeploymentBranchPolicy
  pub variables : Slice EnvVariable
  pub secrets : Slice EnvSecretRef

pub record EnvironmentsConfig : Type 0 where
  pub environments : Slice Environment

pub record Webhook : Type 0 where
  pub url : String
  pub content_type : Option String
  pub insecure_ssl : Option Bool
  pub active : Option Bool
  pub events : Slice String
  pub secret_ref : String

pub record WebhooksConfig : Type 0 where
  pub webhooks : Slice Webhook

pub record Autolink : Type 0 where
  pub key_prefix : String
  pub url_template : String
  pub is_alphanumeric : Option Bool

pub record AutolinksConfig : Type 0 where
  pub autolinks : Slice Autolink

pub record ActionsConfig : Type 0 where
  pub enabled : Option Bool
  pub allowed_actions : Option String
  pub github_owned_allowed : Option Bool
  pub verified_allowed : Option Bool
  pub patterns_allowed : Slice String
  pub default_workflow_permissions : Option String
  pub can_approve_pull_request_reviews : Option Bool

pub record SecurityConfig : Type 0 where
  pub vulnerability_alerts : Option Bool
  pub automated_security_fixes : Option Bool
  pub secret_scanning : Option Bool
  pub secret_scanning_push_protection : Option Bool
  pub private_vulnerability_reporting : Option Bool

pub record PagesSource : Type 0 where
  pub branch : String
  pub path : String

pub record PagesConfig : Type 0 where
  pub build_type : Option String
  pub source : Option PagesSource
  pub cname : Option String
  pub https_enforced : Option Bool

pub record SecretRef : Type 0 where
  pub name : String

pub record SecretsConfig : Type 0 where
  pub repository_secrets : Slice SecretRef

pub record Variable : Type 0 where
  pub name : String
  pub value : String

pub record VariablesConfig : Type 0 where
  pub variables : Slice Variable

pub record DeployKey : Type 0 where
  pub title : String
  pub read_only : Option Bool
  pub key_ref : String
  pub key : String

pub record DeployKeysConfig : Type 0 where
  pub deploy_keys : Slice DeployKey

pub record CustomPropertiesConfig : Type 0 where
  pub properties : Fields

pub record Collaborator : Type 0 where
  pub username : String
  pub permission : TeamPermission

pub record CollaboratorsConfig : Type 0 where
  pub collaborators : Slice Collaborator

pub record RepoConfig : Type 0 where
  pub description : Option String
  pub homepage : Option String
  pub private : Option Bool
  pub visibility : Option String
  pub has_issues : Option Bool
  pub has_projects : Option Bool
  pub has_wiki : Option Bool
  pub has_discussions : Option Bool
  pub is_template : Option Bool
  pub allow_squash_merge : Option Bool
  pub allow_merge_commit : Option Bool
  pub allow_rebase_merge : Option Bool
  pub allow_auto_merge : Option Bool
  pub delete_branch_on_merge : Option Bool
  pub allow_update_branch : Option Bool
  pub squash_merge_commit_title : Option String
  pub squash_merge_commit_message : Option String
  pub merge_commit_title : Option String
  pub merge_commit_message : Option String
  pub archived : Option Bool
  pub web_commit_signoff_required : Option Bool

pub record Settings : Type 0 where
  pub repo : Option RepoConfig
  pub topics : Option (List String)
  pub teams : Option TeamsConfig
  pub rulesets : Option RulesetsConfig
  pub branches : Option BranchesConfig
  pub environments : Option EnvironmentsConfig
  pub webhooks : Option WebhooksConfig
  pub autolinks : Option AutolinksConfig
  pub actions : Option ActionsConfig
  pub security : Option SecurityConfig
  pub pages : Option PagesConfig
  pub secrets : Option SecretsConfig
  pub variables : Option VariablesConfig
  pub deploy_keys : Option DeployKeysConfig
  pub custom_properties : Option CustomPropertiesConfig
  pub collaborators : Option CollaboratorsConfig
