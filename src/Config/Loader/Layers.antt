-- ===== src/Config/Loader/Layers.antt =====
-- internal/config/loader.go: one settings file as a configuration layer.
use repositories_settings.Base.{
  String, ◌==◌, ◌≡◌, ◌≢◌, refl, sym, ap, ◌∙◌, Bool, true, false, Option, none, some, arith, or_keep,
  if◌then◌else◌, eq_iff,
}
use repositories_settings.Config.Schema.{Settings}
use repositories_settings.Config.Sections.{Section, get}
use repositories_settings.Config.Resolver.{empty_settings, overlay}
use repositories_settings.Config.Policy.Inputs.{Runtime}
use repositories_settings.Config.Validate.{ValidationError}
use repositories_settings.Config.Loader.{
  Decoded, Decoder, Merge, empty, unfit, decoded, checked, decode_file, merge_file,
}
use repositories_settings.Config.Loader.FileOf.{
  file_of, get-empty, only_actions, only_autolinks, only_branches, only_collaborators,
  only_custom_properties, only_deploy_keys, only_environments, only_pages, only_repo, only_rulesets,
  only_secrets, only_security, only_teams, only_variables, only_webhooks,
}

-- The effect is that of one layer: what it sets replaces, and the error does not depend on the settings.
abbrev pub IsLayer : Merge → Type 0
IsLayer m = (s : Settings) → m s ≡ (overlay (m empty_settings).0 s, (m empty_settings).1)

-- Only the sections of the file are set.
abbrev pub OnlySets : String → Merge → Type 0
OnlySets name m = (r : Section) → file_of r ≢ name → get r (m empty_settings).0 ≡ none

overlay-empty : (s : Settings) → s ≡ overlay empty_settings s
unfolding overlay
overlay-empty s = refl

or_keep-none : {A : Type 0} (x y : Option A) → or_keep (or_keep x none) y ≡ or_keep x y
or_keep-none x y = ground arith

module _ {F : Type 0} (name : String) (validate : F → Option ValidationError)
    (apply : F → Settings → Settings) where
  decode_file-IsLayer :
      (o : Decoded F)
      → ((f : F) (s : Settings) → apply f s ≡ overlay (apply f empty_settings) s)
      → IsLayer (decode_file name o validate apply)
  unfolding decode_file
  decode_file-IsLayer empty h s = ap (λ t. (t, none)) (overlay-empty s)
  decode_file-IsLayer (unfit issues) h s = ap (λ t. (t, some _)) (overlay-empty s)
  decode_file-IsLayer (decoded f) h s = at_check (validate f)
    where
      at_check :
          (o : Option ValidationError)
          → checked o s (apply f s) ≡ (
            overlay (checked o empty_settings (apply f empty_settings)).0 s,
            (checked o empty_settings (apply f empty_settings)).1,
          )
      at_check none = ap (λ t. (t, none)) (h f s)
      at_check (some e) = ap (λ t. (t, some e)) (overlay-empty s)

  decode_file-OnlySets :
      (file : String) (o : Decoded F)
      → ((f : F) (r : Section) → file_of r ≢ file → get r (apply f empty_settings) ≡ none)
      → OnlySets file (decode_file name o validate apply)
  unfolding decode_file
  decode_file-OnlySets file empty h r other = get-empty r
  decode_file-OnlySets file (unfit issues) h r other = get-empty r
  decode_file-OnlySets file (decoded f) h r other = at_check (validate f)
    where
      at_check :
          (o : Option ValidationError)
          → get r (checked o empty_settings (apply f empty_settings)).0 ≡ none
      at_check none = h f r other
      at_check (some e) = get-empty r

abbrev pub IsFile : String → Merge → Type 0
IsFile name m = IsLayer m × OnlySets name m

-- One case of the switch, and the cases after it.
if-IsFile :
    (name file : String) (m other : Merge)
    → IsFile file m
    → IsFile name other
    → IsFile name (λ s. if name == file then m s else other s)
if-IsFile name file m other this rest = at_test (name == file) (λ e. (eq_iff name file).0 e)
  where
    at_test : (b : Bool) → (b ≡ true → name ≡ file) → IsFile name (λ s. if b then m s else other s)
    at_test true h = (this.0, λ r ne. this.1 r (λ e. ne (e ∙ sym (h refl))))
    at_test false h = rest

unknown-IsFile : (name : String) (e : ValidationError) → IsFile name (λ s. (s, some e))
unknown-IsFile name e = (λ s. ap (λ t. (t, some e)) (overlay-empty s), λ r ne. get-empty r)

module _ (rt : Runtime) (url_scheme : String → Option String) (d : Decoder) where
  pub merge_file-IsFile : (name raw : String) → IsFile name (merge_file rt url_scheme d name raw)
  unfolding merge_file overlay
  merge_file-IsFile name raw =
      if-IsFile name "repo.yml" _ _
        (
          decode_file-IsLayer name _ _ (d.repo_file raw) (λ f s. simp (or_keep-none)),
          decode_file-OnlySets name _ _ "repo.yml" (d.repo_file raw) (λ f. only_repo f),
        )
        (if-IsFile name "teams.yml" _ _
          (
            decode_file-IsLayer name _ _ (d.teams_file raw) (λ f s. refl),
            decode_file-OnlySets name _ _ "teams.yml" (d.teams_file raw) (λ f. only_teams _),
          )
          (if-IsFile name "rulesets.yml" _ _
            (
              decode_file-IsLayer name _ _ (d.rulesets_file raw) (λ f s. refl),
              decode_file-OnlySets name _ _ "rulesets.yml" (d.rulesets_file raw)
                  (λ f. only_rulesets _),
            )
            (if-IsFile name "branches.yml" _ _
              (
                decode_file-IsLayer name _ _ (d.branches_file raw) (λ f s. refl),
                decode_file-OnlySets name _ _ "branches.yml" (d.branches_file raw)
                    (λ f. only_branches _),
              )
              (if-IsFile name "environments.yml" _ _
                (
                  decode_file-IsLayer name _ _ (d.environments_file raw) (λ f s. refl),
                  decode_file-OnlySets name _ _ "environments.yml" (d.environments_file raw)
                      (λ f. only_environments _),
                )
                (if-IsFile name "webhooks.yml" _ _
                  (
                    decode_file-IsLayer name _ _ (d.webhooks_file raw) (λ f s. refl),
                    decode_file-OnlySets name _ _ "webhooks.yml" (d.webhooks_file raw)
                        (λ f. only_webhooks _),
                  )
                  (if-IsFile name "autolinks.yml" _ _
                    (
                      decode_file-IsLayer name _ _ (d.autolinks_file raw) (λ f s. refl),
                      decode_file-OnlySets name _ _ "autolinks.yml" (d.autolinks_file raw)
                          (λ f. only_autolinks _),
                    )
                    (if-IsFile name "actions.yml" _ _
                      (
                        decode_file-IsLayer name _ _ (d.actions_file raw) (λ f s. refl),
                        decode_file-OnlySets name _ _ "actions.yml" (d.actions_file raw)
                            (λ f. only_actions _),
                      )
                      (if-IsFile name "security.yml" _ _
                        (
                          decode_file-IsLayer name _ _ (d.security_file raw) (λ f s. refl),
                          decode_file-OnlySets name _ _ "security.yml" (d.security_file raw)
                              (λ f. only_security _),
                        )
                        (if-IsFile name "pages.yml" _ _
                          (
                            decode_file-IsLayer name _ _ (d.pages_file raw) (λ f s. refl),
                            decode_file-OnlySets name _ _ "pages.yml" (d.pages_file raw)
                                (λ f. only_pages _),
                          )
                          (if-IsFile name "secrets.yml" _ _
                            (
                              decode_file-IsLayer name _ _ (d.secrets_file raw) (λ f s. refl),
                              decode_file-OnlySets name _ _ "secrets.yml" (d.secrets_file raw)
                                  (λ f. only_secrets _),
                            )
                            (if-IsFile name "variables.yml" _ _
                              (
                                decode_file-IsLayer name _ _ (d.variables_file raw) (λ f s. refl),
                                decode_file-OnlySets name _ _ "variables.yml" (d.variables_file raw)
                                    (λ f. only_variables _),
                              )
                              (if-IsFile name "deploy-keys.yml" _ _
                                (
                                  decode_file-IsLayer name _ _ (d.deploy_keys_file raw)
                                      (λ f s. refl),
                                  decode_file-OnlySets name _ _ "deploy-keys.yml"
                                      (d.deploy_keys_file raw) (λ f. only_deploy_keys _),
                                )
                                (if-IsFile name "custom-properties.yml" _ _
                                  (
                                    decode_file-IsLayer name _ _ (d.custom_properties_file raw)
                                        (λ f s. refl),
                                    decode_file-OnlySets name _ _ "custom-properties.yml"
                                        (d.custom_properties_file raw)
                                        (λ f. only_custom_properties _),
                                  )
                                  (if-IsFile name "collaborators.yml" _ _
                                    (
                                      decode_file-IsLayer name _ _ (d.collaborators_file raw)
                                          (λ f s. refl),
                                      decode_file-OnlySets name _ _ "collaborators.yml"
                                          (d.collaborators_file raw) (λ f. only_collaborators _),
                                    )
                                    (unknown-IsFile name _)))))))))))))))
