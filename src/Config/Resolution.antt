-- ===== src/Config/Resolution.antt =====
-- internal/config/resolution.go, with the admin layer of org.go: everything that one reconcile needs
-- to know about the desired state of a repository.
pub mod Laws
use repositories_settings.Base.{
  String, Bool, true, false, ◌&&◌, Option, none, some, List, [], ◌∷◌, ◌++◌, concat, keep,
  if◌then◌else◌,
}
use repositories_settings.Config.Schema.{
  Settings, PolicySeverity, PolicyViolation, sev_error, sev_warning,
}
use repositories_settings.Config.Resolver.{empty_settings, Layer, Provenance, resolve}
use repositories_settings.Config.Selective.{filter}
use repositories_settings.Config.Suborg.{SuborgMatch, RepoContext, matches}
use repositories_settings.Config.Admin.{AdminPolicy}
use repositories_settings.Config.Policy.Inputs.{Runtime}
use repositories_settings.Config.Policy.{validate_policy}

pub record Suborg : Type 0 where
  pub name : String
  pub match : SuborgMatch
  pub settings : Option Settings

pub record AdminLayer : Type 0 where
  pub settings : Option Settings
  pub policy : AdminPolicy
  pub suborgs : List Suborg

-- `AdminPolicy{}`
abbrev pub zero_policy : AdminPolicy
zero_policy = record {
  repo = none;
  rulesets = none;
  teams = none;
  security = none;
  actions = none;
  environments = none;
}

pub record Resolution : Type 0 where
  pub settings : Option Settings
  pub repo_layer : Option Settings
  pub policy : AdminPolicy
  pub provenance : Provenance
  pub violations : List PolicyViolation

-- `if s == nil { s = &Settings{} }`
abbrev pub or_empty : Option Settings → Settings
or_empty none = empty_settings
or_empty (some s) = s

unfoldable pub repo_only : Option Settings → Resolution
repo_only s = record {
  settings = some (or_empty s);
  repo_layer = some (or_empty s);
  policy = zero_policy;
  provenance = [];
  violations = [];
}

abbrev pub is_error : PolicyViolation → Bool
is_error v = elim v.severity [ sev_error ↦ true | sev_warning ↦ false ]

-- The violations that must stop an apply. A nil resolution has none.
unfoldable pub blocking : Option Resolution → List PolicyViolation
blocking none = []
blocking (some r) = keep is_error r.violations

unfoldable pub desired : Option Resolution → Settings
desired none = empty_settings
desired (some r) = or_empty r.settings

-- The settings are narrowed; the policy's verdict is not.
unfoldable pub filtering : Option Resolution → Option (List String) → Option Resolution
filtering none keys = none
filtering (some r) none = some r
filtering (some r) (some keys) = some (record r { settings = filter r.settings (some keys) })

module _ (rt : Runtime) where
  open rt use {regexp_match}

  abbrev org_layer : Option Settings → List Layer
  org_layer none = []
  org_layer (some s) = record { source = "org"; settings = some s } ∷ []

  -- The suborgs that have settings and match, in declaration order.
  unfoldable pub suborg_layers : RepoContext → List Suborg → List Layer
  suborg_layers rc [] = []
  suborg_layers rc (so ∷ sos) =
      let rest = suborg_layers rc sos in
      elim so.settings [
        | none ↦ rest
        | some s ↦
            if matches regexp_match so.match rc
            then record { source = concat ("suborg:" ∷ so.name ∷ []); settings = some s } ∷ rest
            else rest
      ]

  abbrev pub layers_for : AdminLayer → Settings → RepoContext → List Layer
  layers_for admin repo_layer rc =
      org_layer admin.settings
      ++ (suborg_layers rc admin.suborgs
          ++ record { source = "repo"; settings = some repo_layer } ∷ [])

  unfoldable pub resolve_for : Option AdminLayer → Option Settings → RepoContext → Resolution
  unfolding repo_only
  resolve_for none repo rc =
      let repo_layer = or_empty repo in
      let (_, prov) = resolve (record { source = "repo"; settings = some repo_layer } ∷ []) in
      record (repo_only (some repo_layer)) { provenance = prov }
  resolve_for (some admin) repo rc =
      let repo_layer = or_empty repo in
      let (merged, prov) = resolve (layers_for admin repo_layer rc) in
      record {
        settings = some merged;
        repo_layer = some repo_layer;
        policy = admin.policy;
        provenance = prov;
        violations = validate_policy rt (some merged) (some repo_layer) admin.policy;
      }
