-- ===== src/Config/Loader/Laws.antt =====
-- internal/config/loader.go: the settings of a directory, whatever the order in which its files arrive.
use mathlib.Core.List.{append_assoc, append-nil}
use mathlib.Core.Logic.{inl, inr}
use repositories_settings.Base.{
  String, ◌==◌, ◌≡◌, ◌≢◌, refl, sym, ap, ◌∙◌, Bool, true, false, ◌||◌, Option, none, some, List, [],
  ◌∷◌, ◌++◌, arith, or_keep, if◌then◌else◌, eq_iff, eq_refl, subst, contains, String-cases,
  append-eq-nil,
}
use repositories_settings.Config.Schema.{Settings}
use repositories_settings.Config.Sections.{Section, SectionType, get}
use repositories_settings.Config.Resolver.{empty_settings, overlay}
use repositories_settings.Config.Resolver.Laws.{get-overlay}
use repositories_settings.Config.Policy.Inputs.{Runtime}
use repositories_settings.Config.Validate.{ValidationError}
use repositories_settings.Config.Loader.{
  Decoder, Fetched, missing, failed, content, LoadError, unreadable, invalid, note_error, finish,
  merge_file, load_result, load_results, load_settings_dir,
}
use repositories_settings.Config.Loader.FileOf.{file_of, get-empty}
use repositories_settings.Config.Loader.Layers.{merge_file-IsFile}

-- The settings with the given sections.
abbrev pub from_sections : ((r : Section) → Option (SectionType r)) → Settings
from_sections f = record {
  repo = f Section.repo;
  topics = f Section.topics;
  teams = f Section.teams;
  rulesets = f Section.rulesets;
  branches = f Section.branches;
  environments = f Section.environments;
  webhooks = f Section.webhooks;
  autolinks = f Section.autolinks;
  actions = f Section.actions;
  security = f Section.security;
  pages = f Section.pages;
  secrets = f Section.secrets;
  variables = f Section.variables;
  deploy_keys = f Section.deploy_keys;
  custom_properties = f Section.custom_properties;
  collaborators = f Section.collaborators;
}

pub from_sections_ext :
    (f g : (r : Section) → Option (SectionType r))
    → ((r : Section) → f r ≡ g r)
    → from_sections f ≡ from_sections g
from_sections_ext f g h = ap from_sections (λ i r. h r i)

abbrev pub as_load_error : Option ValidationError → Option LoadError
as_load_error none = none
as_load_error (some e) = some (invalid e)

abbrev pub reported : Option LoadError → List LoadError
reported none = []
reported (some e) = e ∷ []

reported-none : (o : Option LoadError) → reported o ≡ [] → o ≡ none
reported-none none h = refl
reported-none (some e) h = absurd (cc h)

note_error-append :
    (o : Option ValidationError) (errs : List LoadError)
    → note_error o errs ≡ errs ++ reported (as_load_error o)
note_error-append none errs = sym (append-nil errs)
note_error-append (some e) errs = refl

-- One more layer, from the file of the section or from another one.
at_own_file :
    {A : Type 0} (later same : Bool) (own old layer : Option A) {new result : Option A}
    → result ≡ (if later then or_keep own new else new)
    → new ≡ or_keep layer old
    → layer ≡ own
    → same ≡ true
    → result ≡ (if same || later then or_keep own old else old)
at_own_file later same own old layer h e l t = ground arith

at_other_file :
    {A : Type 0} (later same : Bool) (own old layer : Option A) {new result : Option A}
    → result ≡ (if later then or_keep own new else new)
    → new ≡ or_keep layer old
    → layer ≡ none
    → same ≡ false
    → result ≡ (if same || later then or_keep own old else old)
at_other_file later same own old layer h e l t = ground arith

module _ (rt : Runtime) (url_scheme : String → Option String) (d : Decoder) where
  -- What one file contributes, and what is wrong with it, by itself.
  abbrev pub file_layer : String → Fetched → Settings
  file_layer name (content raw) = (merge_file rt url_scheme d name raw empty_settings).0
  file_layer name _ = empty_settings

  abbrev pub file_error : String → Fetched → Option LoadError
  file_error name missing = none
  file_error name (failed err) = some (unreadable name err)
  file_error name (content raw) =
      as_load_error (merge_file rt url_scheme d name raw empty_settings).1

  load_result-eq :
      (name : String) (o : Fetched) (s : Settings) (errs : List LoadError)
      → load_result rt url_scheme d name o (s, errs)
        ≡ (overlay (file_layer name o) s, errs ++ reported (file_error name o))
  unfolding load_result overlay
  load_result-eq name missing s errs = ap (λ t. (s, t)) (sym (append-nil errs))
  load_result-eq name (failed err) s errs = refl
  load_result-eq name (content raw) s errs =
      let e = (merge_file-IsFile rt url_scheme d name raw).0 s in
      cc (e, note_error-append (merge_file rt url_scheme d name raw empty_settings).1 errs)

  module _ (fetch : String → Fetched) where
    abbrev pub layers : List String → Settings → Settings
    layers [] s = s
    layers (name ∷ order) s = layers order (overlay (file_layer name (fetch name)) s)

    -- The errors of the files, in the order of their arrival.
    abbrev pub errors : List String → List LoadError
    errors [] = []
    errors (name ∷ order) = reported (file_error name (fetch name)) ++ errors order

    load_results-eq :
        (order : List String) (s : Settings) (errs : List LoadError)
        → load_results rt url_scheme d fetch order (s, errs)
          ≡ (layers order s, errs ++ errors order)
    unfolding load_results
    load_results-eq [] s errs = ap (λ t. (s, t)) (sym (append-nil errs))
    load_results-eq (name ∷ order) s errs =
        let bad = reported (file_error name (fetch name)) in
        ap (load_results rt url_scheme d fetch order) (load_result-eq name (fetch name) s errs)
        ∙ load_results-eq order (overlay (file_layer name (fetch name)) s) (errs ++ bad)
        ∙ ap (λ t. (layers order (overlay (file_layer name (fetch name)) s), t))
            (append_assoc errs bad (errors order))

    -- The section as its own file gives it.
    abbrev pub own_section : (r : Section) → Option (SectionType r)
    own_section r = get r (file_layer (file_of r) (fetch (file_of r)))

    other_file :
        (r : Section) (name : String)
        → file_of r ≢ name
        → (o : Fetched) → get r (file_layer name o) ≡ none
    other_file r name ne missing = get-empty r
    other_file r name ne (failed err) = get-empty r
    other_file r name ne (content raw) = (merge_file-IsFile rt url_scheme d name raw).1 r ne

    get-layers :
        (r : Section) (order : List String) (s : Settings)
        → get r (layers order s)
          ≡ (if contains order (file_of r) then or_keep (own_section r) (get r s) else get r s)
    unfolding contains
    get-layers r [] s = refl
    get-layers r (name ∷ order) s =
        let rest = get-layers r order (overlay (file_layer name (fetch name)) s) in
        let this = get-overlay r (file_layer name (fetch name)) s in
        elim (String-cases name (file_of r)) [
          | inl e ↦
              at_own_file (contains order (file_of r)) (name == file_of r) _ _ _ rest this
                (ap (λ n. get r (file_layer n (fetch n))) e) ((eq_iff name (file_of r)).1 e)
          | inr ne ↦
              at_other_file (contains order (file_of r)) (name == file_of r) _ _ _ rest this
                (other_file r name (λ e. absurd (cc (ne, (eq_iff name (file_of r)).1 (sym e))))
                  (fetch name))
                ne
        ]

    -- The sections of the files that arrived.
    abbrev pub arrived : List String → (r : Section) → Option (SectionType r)
    arrived order r = if contains order (file_of r) then own_section r else none

    -- Loading is, section by section, what the file of the section gives by itself.
    pub load_settings_dir_lem :
        (order : List String)
        → load_settings_dir rt url_scheme d fetch order
          ≡ finish (from_sections (arrived order)) (errors order)
    unfolding load_settings_dir
    load_settings_dir_lem order =
        ap (λ t. finish t.0 t.1) (load_results-eq order empty_settings [])
        ∙ ap (λ s. finish s (errors order))
            (from_sections_ext (λ r. get r (layers order empty_settings)) (arrived order)
              (λ r.
                get-layers r order empty_settings
                ∙ at_start (contains order (file_of r)) (own_section r) (get-empty r)))
      where
        at_start :
            {A : Type 0} (b : Bool) (own : Option A) {old : Option A}
            → old ≡ none
            → (if b then or_keep own old else old) ≡ (if b then own else none)
        at_start b own h = ground arith

    pub errors-eq-nil :
        (order : List String) (name : String)
        → errors order ≡ []
        → contains order name ≡ true
        → file_error name (fetch name) ≡ none
    unfolding contains
    errors-eq-nil [] name none_bad h = cc
    errors-eq-nil (n ∷ order) name none_bad h =
        let both = (append-eq-nil (reported (file_error n (fetch n))) (errors order)).0 none_bad in
        elim (String-cases n name) [
          | inl e ↦
              subst (λ m. file_error m (fetch m) ≡ none) e
                (reported-none (file_error n (fetch n)) both.0)
          | inr ne ↦ errors-eq-nil order name both.1 (ground arith)
        ]

    pub no-errors :
        (order : List String)
        → ((name : String) → contains order name ≡ true → file_error name (fetch name) ≡ none)
        → errors order ≡ []
    unfolding contains
    no-errors [] h = refl
    no-errors (n ∷ order) h =
        let rest = no-errors order (λ name c. h name (ground arith)) in
        let this = h n (ground (arith, eq_refl n)) in cc (rest, this)
