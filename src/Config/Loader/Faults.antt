-- ===== src/Config/Loader/Faults.antt =====
-- internal/config/loader.go: which files make a load fail. What a file is read as comes from the
-- decoder alone, without the checks of the loader.
use repositories_settings.Base.{
  String, ◌==◌, ◌≡◌, ◌≢◌, refl, sym, ap, ◌∙◌, Bool, true, false, Option, some, List, [], ◌∷◌,
  if◌then◌else◌, contains, Any, eq_iff, inl, inr,
}
use repositories_settings.Base.Int.{ℤ, pos}
use repositories_settings.Config.Schema.{Settings}
use repositories_settings.Config.Resolver.{empty_settings}
use repositories_settings.Config.Policy.Inputs.{Runtime}
use repositories_settings.Config.Validate.{ValidationError}
use repositories_settings.Config.Validate.Versions.{
  Fails, NeedsVersion, validate_repo_file-NeedsVersion, validate_teams_file-NeedsVersion,
  validate_rulesets_file-NeedsVersion, validate_branches_file-NeedsVersion,
  validate_environments_file-NeedsVersion, validate_webhooks_file-NeedsVersion,
  validate_autolinks_file-NeedsVersion, validate_actions_file-NeedsVersion,
  validate_security_file-NeedsVersion, validate_pages_file-NeedsVersion,
  validate_secrets_file-NeedsVersion, validate_variables_file-NeedsVersion,
  validate_deploy_keys_file-NeedsVersion, validate_custom_properties_file-NeedsVersion,
  validate_collaborators_file-NeedsVersion,
}
use repositories_settings.Config.Loader.{
  Decoded, empty, unfit, decoded, Decoder, Fetched, missing, failed, content, LoadError, unreadable,
  invalid, load_failed, load_settings_dir, decode_file, checked, merge_file,
}
use repositories_settings.Config.Loader.Laws.{file_error, as_load_error}
use repositories_settings.Config.Loader.Outcome.{load_settings_dir-error}

-- A blank text, a text that does not fit, or a file with its version.
pub data Reading : Type 0 where
  blank unreadable_text : Reading
  versioned : ℤ → Reading

abbrev reading : {F : Type 0} → (F → ℤ) → Decoded F → Reading
reading version empty = blank
reading version (unfit issues) = unreadable_text
reading version (decoded f) = versioned (version f)

-- How the decoder reads a file; a name that is none of the fifteen is not read.
abbrev pub read_file : Decoder → String → String → Reading
read_file d name raw =
    if name == "repo.yml"
    then reading (λ f. f.version) (d.repo_file raw)
    else if name == "teams.yml"
    then reading (λ f. f.version) (d.teams_file raw)
    else if name == "rulesets.yml"
    then reading (λ f. f.version) (d.rulesets_file raw)
    else if name == "branches.yml"
    then reading (λ f. f.version) (d.branches_file raw)
    else if name == "environments.yml"
    then reading (λ f. f.version) (d.environments_file raw)
    else if name == "webhooks.yml"
    then reading (λ f. f.version) (d.webhooks_file raw)
    else if name == "autolinks.yml"
    then reading (λ f. f.version) (d.autolinks_file raw)
    else if name == "actions.yml"
    then reading (λ f. f.version) (d.actions_file raw)
    else if name == "security.yml"
    then reading (λ f. f.version) (d.security_file raw)
    else if name == "pages.yml"
    then reading (λ f. f.version) (d.pages_file raw)
    else if name == "secrets.yml"
    then reading (λ f. f.version) (d.secrets_file raw)
    else if name == "variables.yml"
    then reading (λ f. f.version) (d.variables_file raw)
    else if name == "deploy-keys.yml"
    then reading (λ f. f.version) (d.deploy_keys_file raw)
    else if name == "custom-properties.yml"
    then reading (λ f. f.version) (d.custom_properties_file raw)
    else if name == "collaborators.yml"
    then reading (λ f. f.version) (d.collaborators_file raw)
    else unreadable_text

-- What makes a file bad: it does not fit, or its version is not 1.
abbrev pub IsFault : Reading → Type 0
IsFault blank = ⊥
IsFault unreadable_text = Unit
IsFault (versioned n) = n ≢ pos 1

-- The file could not be fetched, or its content is bad; a file that is absent is not.
abbrev pub IsBad : Decoder → String → Fetched → Type 0
IsBad d name missing = ⊥
IsBad d name (failed err) = Unit
IsBad d name (content raw) = IsFault (read_file d name raw)

abbrev pub file_of_error : LoadError → String
file_of_error (unreadable name err) = name
file_of_error (invalid e) = e.file

-- A merge whose reading is bad ends with an error of the file.
abbrev Refuses : String → Settings × Option ValidationError → Reading → Type 0
Refuses name r reading = IsFault reading → Fails name r.1

branch :
    (name : String) (b : Bool) (x y : Settings × Option ValidationError) (r t : Reading)
    → (b ≡ true → Refuses name x r)
    → Refuses name y t
    → Refuses name (if b then x else y) (if b then r else t)
branch name true x y r t f g = f refl
branch name false x y r t f g = g

decode_file-Refuses :
    {F : Type 0}
    → (file name : String) (o : Decoded F) (version : F → ℤ) (validate : F → Option ValidationError)
      (apply : F → Settings → Settings) (s : Settings)
    → NeedsVersion file version validate
    → (name == file) ≡ true
    → Refuses name (decode_file name o validate apply s) (reading version o)
unfolding decode_file
decode_file-Refuses file name empty version validate apply s needs same = λ bad. absurd bad
decode_file-Refuses file name (unfit issues) version validate apply s needs same =
    λ bad. (record { file = name; issues = issues }, (refl, refl))
decode_file-Refuses file name (decoded f) version validate apply s needs same = λ bad.
    let (e, (refused, named)) = needs f bad in
    (e, (ap (λ v. (checked v s (apply f s)).1) refused, named ∙ sym ((eq_iff name file).0 same)))

module _ (rt : Runtime) (url_scheme : String → Option String) (d : Decoder) where
  -- One file after another, in the order of the code.
  merge_file-Refuses :
      (name raw : String) (s : Settings)
      → Refuses name (merge_file rt url_scheme d name raw s) (read_file d name raw)
  unfolding merge_file
  merge_file-Refuses name raw s =
      branch name (name == "repo.yml") _ _ _ _
        (decode_file-Refuses "repo.yml" name (d.repo_file raw) _ _ _ s
          (validate_repo_file-NeedsVersion rt url_scheme))
        (branch name (name == "teams.yml") _ _ _ _
          (decode_file-Refuses "teams.yml" name (d.teams_file raw) _ _ _ s
            (validate_teams_file-NeedsVersion rt))
          (branch name (name == "rulesets.yml") _ _ _ _
            (decode_file-Refuses "rulesets.yml" name (d.rulesets_file raw) _ _ _ s
              (validate_rulesets_file-NeedsVersion rt))
            (branch name (name == "branches.yml") _ _ _ _
              (decode_file-Refuses "branches.yml" name (d.branches_file raw) _ _ _ s
                (validate_branches_file-NeedsVersion rt))
              (branch name (name == "environments.yml") _ _ _ _
                (decode_file-Refuses "environments.yml" name (d.environments_file raw) _ _ _ s
                  (validate_environments_file-NeedsVersion rt))
                (branch name (name == "webhooks.yml") _ _ _ _
                  (decode_file-Refuses "webhooks.yml" name (d.webhooks_file raw) _ _ _ s
                    (validate_webhooks_file-NeedsVersion rt url_scheme))
                  (branch name (name == "autolinks.yml") _ _ _ _
                    (decode_file-Refuses "autolinks.yml" name (d.autolinks_file raw) _ _ _ s
                      (validate_autolinks_file-NeedsVersion rt))
                    (branch name (name == "actions.yml") _ _ _ _
                      (decode_file-Refuses "actions.yml" name (d.actions_file raw) _ _ _ s
                        (validate_actions_file-NeedsVersion rt))
                      (branch name (name == "security.yml") _ _ _ _
                        (decode_file-Refuses "security.yml" name (d.security_file raw) _ _ _ s
                          (validate_security_file-NeedsVersion rt))
                        (branch name (name == "pages.yml") _ _ _ _
                          (decode_file-Refuses "pages.yml" name (d.pages_file raw) _ _ _ s
                            (validate_pages_file-NeedsVersion rt))
                          (branch name (name == "secrets.yml") _ _ _ _
                            (decode_file-Refuses "secrets.yml" name (d.secrets_file raw) _ _ _ s
                              (validate_secrets_file-NeedsVersion rt))
                            (branch name (name == "variables.yml") _ _ _ _
                              (decode_file-Refuses "variables.yml" name (d.variables_file raw) _ _ _
                                s (validate_variables_file-NeedsVersion rt))
                              (branch name (name == "deploy-keys.yml") _ _ _ _
                                (decode_file-Refuses "deploy-keys.yml" name (d.deploy_keys_file raw)
                                  _ _ _ s (validate_deploy_keys_file-NeedsVersion rt))
                                (branch name (name == "custom-properties.yml") _ _ _ _
                                  (decode_file-Refuses "custom-properties.yml" name
                                    (d.custom_properties_file raw) _ _ _ s
                                    (validate_custom_properties_file-NeedsVersion rt))
                                  (branch name (name == "collaborators.yml") _ _ _ _
                                    (decode_file-Refuses "collaborators.yml" name
                                      (d.collaborators_file raw) _ _ _ s
                                      (validate_collaborators_file-NeedsVersion rt))
                                    (λ bad. (
                                      record { file = name; issues = _ },
                                      (refl, refl),
                                    ))))))))))))))))

  file_error-IsBad :
      (name : String) (o : Fetched)
      → IsBad d name o
      → (e : LoadError) × ((file_error rt url_scheme d name o ≡ some e) × (file_of_error e ≡ name))
  file_error-IsBad name missing bad = absurd bad
  file_error-IsBad name (failed err) bad = (unreadable name err, (refl, refl))
  file_error-IsBad name (content raw) bad =
      let (e, (refused, named)) = merge_file-Refuses name raw empty_settings bad in
      (invalid e, (ap as_load_error refused, named))

  -- A file that is not fetched, does not fit its envelope, has a version other than 1 or a name that is
  -- none of the fifteen makes the whole load fail, with an error that names the file among those
  -- reported, whatever the other files hold and whenever it arrives.
  pub load_settings_dir-failed :
      (fetch : String → Fetched) (order : List String) (name : String)
      → contains order name ≡ true
      → IsBad d name (fetch name)
      → (errs : List LoadError) × ((load_settings_dir rt url_scheme d fetch order
            ≡ load_failed errs)
          × Any (λ e. file_of_error e ≡ name) errs)
  load_settings_dir-failed fetch order name c bad =
      let (e, (wrong, named)) = file_error-IsBad name (fetch name) bad in
      let (errs, ended, m) = load_settings_dir-error rt url_scheme d fetch order name e c wrong in
      (errs, (ended, names errs e m named))
    where
      names :
          (errs : List LoadError) (e : LoadError)
          → Any (λ f. f ≡ e) errs
          → file_of_error e ≡ name
          → Any (λ f. file_of_error f ≡ name) errs
      names [] e m n = elim m [ ]
      names (f ∷ fs) e (inl same) n = inl (ap file_of_error same ∙ n)
      names (f ∷ fs) e (inr later) n = inr (names fs e later n)
