-- ===== src/Config/Resolver.antt =====
-- internal/config/resolver.go: the merge of two settings, and the fold of the configuration layers.
pub mod Laws
use repositories_settings.Base.{String, Option, none, some, List, [], ◌∷◌, or_keep, insert, lookup}
use repositories_settings.Config.Schema.{Settings}

-- `&Settings{}`: every section unmanaged.
abbrev pub empty_settings : Settings
empty_settings = record {
  repo = none;
  topics = none;
  teams = none;
  rulesets = none;
  branches = none;
  environments = none;
  webhooks = none;
  autolinks = none;
  actions = none;
  security = none;
  pages = none;
  secrets = none;
  variables = none;
  deploy_keys = none;
  custom_properties = none;
  collaborators = none;
}

-- A nil pointer reads as the empty settings; the copy of `cloneShallow` is the value itself.
unfoldable pub clone_shallow : Option Settings → Settings
clone_shallow none = empty_settings
clone_shallow (some s) = s

-- Each section that `s` sets replaces the one in `out`.
unfoldable pub overlay : Settings → Settings → Settings
overlay s out = record {
  repo = or_keep s.repo out.repo;
  topics = or_keep s.topics out.topics;
  teams = or_keep s.teams out.teams;
  rulesets = or_keep s.rulesets out.rulesets;
  branches = or_keep s.branches out.branches;
  environments = or_keep s.environments out.environments;
  webhooks = or_keep s.webhooks out.webhooks;
  autolinks = or_keep s.autolinks out.autolinks;
  actions = or_keep s.actions out.actions;
  security = or_keep s.security out.security;
  pages = or_keep s.pages out.pages;
  secrets = or_keep s.secrets out.secrets;
  variables = or_keep s.variables out.variables;
  deploy_keys = or_keep s.deploy_keys out.deploy_keys;
  custom_properties = or_keep s.custom_properties out.custom_properties;
  collaborators = or_keep s.collaborators out.collaborators;
}

unfoldable pub merge : Option Settings → Option Settings → Settings
unfolding clone_shallow overlay
merge base none = clone_shallow base
merge base (some override) = overlay override (clone_shallow base)

abbrev pub Provenance : Type 0
Provenance = List (String × String)

pub record Layer : Type 0 where
  pub source : String
  pub settings : Option Settings

-- `if s.X != nil { prov[key] = layer.Source }`
unfoldable pub mark : {A : Type 0} → Option A → String → String → Provenance → Provenance
mark none key source prov = prov
mark (some _) key source prov = insert key source prov

unfoldable pub mark_all : Settings → String → Provenance → Provenance
unfolding mark
mark_all s source p0 =
    let p1 = mark s.repo "repo" source p0 in
    let p2 = mark s.topics "topics" source p1 in
    let p3 = mark s.teams "teams" source p2 in
    let p4 = mark s.rulesets "rulesets" source p3 in
    let p5 = mark s.branches "branches" source p4 in
    let p6 = mark s.environments "environments" source p5 in
    let p7 = mark s.webhooks "webhooks" source p6 in
    let p8 = mark s.autolinks "autolinks" source p7 in
    let p9 = mark s.actions "actions" source p8 in
    let p10 = mark s.security "security" source p9 in
    let p11 = mark s.pages "pages" source p10 in
    let p12 = mark s.secrets "secrets" source p11 in
    let p13 = mark s.variables "variables" source p12 in
    let p14 = mark s.deploy_keys "deployKeys" source p13 in
    let p15 = mark s.custom_properties "customProperties" source p14 in
    let p16 = mark s.collaborators "collaborators" source p15 in p16

-- One round of the loop of `Resolve`.
unfoldable pub resolve_layer : Settings × Provenance → Layer → Settings × Provenance
unfolding overlay mark_all
resolve_layer (out, prov) layer = elim layer.settings [
  | none ↦ (out, prov)
  | some s ↦ (overlay s out, mark_all s layer.source prov)
]

unfoldable pub resolve_from : Settings × Provenance → List Layer → Settings × Provenance
unfolding resolve_layer
resolve_from acc [] = acc
resolve_from acc (layer ∷ layers) = resolve_from (resolve_layer acc layer) layers

unfoldable pub resolve : List Layer → Settings × Provenance
unfolding resolve_from
resolve layers = resolve_from (empty_settings, []) layers
