-- ===== src/Config/Loader/Outcome.antt =====
-- internal/config/loader.go: how a load ends, compared with other arrival orders, other files and the
-- load from a map.
use repositories_settings.Base.{
  String, ◌==◌, ◌≡◌, refl, sym, ap, ◌∙◌, Bool, true, false, Option, none, some, List, [], ◌∷◌,
  concat, arith, if◌then◌else◌, contains, lookup, any, Any, Any-append_left, Any-append_right,
  String-cases, inl, inr,
}
use repositories_settings.Config.Schema.{Settings}
use repositories_settings.Config.Sections.{Section, SectionType, get, key}
use repositories_settings.Config.Normalize.{normalize}
use repositories_settings.Config.Selective.{settings_dir_prefix, keys_of, affected_keys}
use repositories_settings.Config.Selective.Laws.{touches, affected_keys_exact}
use repositories_settings.Config.Policy.Inputs.{Runtime}
use repositories_settings.Config.Loader.{
  Decoder, Fetched, missing, content, LoadError, loaded, load_failed, finish, load_result,
  load_results, load_settings_dir, merge_entry, merge_entries, load_from_map,
}
use repositories_settings.Config.Loader.FileOf.{file_of}
use repositories_settings.Config.Loader.Laws.{
  from_sections, from_sections_ext, reported, file_error, file_layer, errors, arrived, own_section,
  load_settings_dir_lem, errors-eq-nil, no-errors,
}

finish-loaded :
    (s : Settings) (errs : List LoadError) {out : Settings}
    → finish s errs ≡ loaded out
    → (errs ≡ []) × (out ≡ normalize s)
finish-loaded s [] h = (refl, cc h)
finish-loaded s (e ∷ errs) h = absurd (cc h)

finish-eq-failed :
    (s : Settings) (e : LoadError) (errs : List LoadError)
    → Any (λ f. f ≡ e) errs
    → (all_errs : List LoadError) × (finish s errs ≡ load_failed all_errs)
      × Any (λ f. f ≡ e) all_errs
finish-eq-failed s e [] h = elim h [ ]
finish-eq-failed s e (f ∷ errs) h = (f ∷ errs, refl, h)

section_kept :
    (b c : Bool) (r : Section) (x : Option (SectionType r))
    → b ≡ c
    → (if b then x else none) ≡ (if c then x else none)
section_kept b c r x h = ap (λ t. if t then x else none) h

module _ (rt : Runtime) (url_scheme : String → Option String) (d : Decoder) where
  -- When the files of a directory load in one order of arrival, they load in every other order of the
  -- same names, and give the same settings.
  pub load_settings_dir-order :
      (fetch : String → Fetched) (order other : List String) {out : Settings}
      → ((name : String) → contains order name ≡ contains other name)
      → load_settings_dir rt url_scheme d fetch order ≡ loaded out
      → load_settings_dir rt url_scheme d fetch other ≡ loaded out
  load_settings_dir-order fetch order other same h =
      let ended = finish-loaded _ _ (sym (load_settings_dir_lem rt url_scheme d fetch order) ∙ h) in
      let fine =
        no-errors rt url_scheme d fetch other
          (λ name c. errors-eq-nil rt url_scheme d fetch order name ended.0 (same name ∙ c)) in
      let sections =
        from_sections_ext (arrived rt url_scheme d fetch order)
          (arrived rt url_scheme d fetch other)
          (λ r. section_kept _ _ r (own_section rt url_scheme d fetch r) (same (file_of r))) in
      load_settings_dir_lem rt url_scheme d fetch other ∙ cc (fine, sections, ended.1)

  reported_error :
      (fetch : String → Fetched) (order : List String) (name : String) (e : LoadError)
      → contains order name ≡ true
      → file_error rt url_scheme d name (fetch name) ≡ some e
      → Any (λ f. f ≡ e) (errors rt url_scheme d fetch order)
  unfolding contains
  reported_error fetch [] name e c h = absurd (cc c)
  reported_error fetch (n ∷ order) name e c h = elim (String-cases n name) [
    | inl same ↦
        Any-append_left (λ f. f ≡ e) (reported (file_error rt url_scheme d n (fetch n)))
          (errors rt url_scheme d fetch order)
          (in_report _ (ap (λ m. file_error rt url_scheme d m (fetch m)) same ∙ h))
    | inr ne ↦
        Any-append_right (λ f. f ≡ e) (reported (file_error rt url_scheme d n (fetch n)))
          (errors rt url_scheme d fetch order) (reported_error fetch order name e (ground arith) h)
  ]
    where
      in_report : (o : Option LoadError) → o ≡ some e → Any (λ f. f ≡ e) (reported o)
      in_report none eq = absurd (cc eq)
      in_report (some f) eq = inl (cc eq)

  -- The error of a file is among those of the load, which fails.
  pub load_settings_dir-error :
      (fetch : String → Fetched) (order : List String) (name : String) (e : LoadError)
      → contains order name ≡ true
      → file_error rt url_scheme d name (fetch name) ≡ some e
      → (errs : List LoadError) × (load_settings_dir rt url_scheme d fetch order ≡ load_failed errs)
        × Any (λ f. f ≡ e) errs
  load_settings_dir-error fetch order name e c h =
      let ended =
        finish-eq-failed (from_sections (arrived rt url_scheme d fetch order)) e _
          (reported_error fetch order name e c h) in
      (ended.0, load_settings_dir_lem rt url_scheme d fetch order ∙ ended.1, ended.2)

  -- The fetch of a directory with the files of a map.
  abbrev pub from_entry : Option String → Fetched
  from_entry none = missing
  from_entry (some raw) = content raw

  merge_entries-eq :
      (files : List (String × String)) (order : List String) (acc : Settings × List LoadError)
      → merge_entries rt url_scheme d files order acc
        ≡ load_results rt url_scheme d (λ name. from_entry (lookup name files)) order acc
  unfolding load_results load_result
  merge_entries-eq files [] acc = refl
  merge_entries-eq files (name ∷ order) acc =
      merge_entries-eq files order (merge_entry rt url_scheme d name (lookup name files) acc)
      ∙ ap (load_results rt url_scheme d (λ n. from_entry (lookup n files)) order)
          (at_entry (lookup name files))
    where
      at_entry :
          (o : Option String)
          → merge_entry rt url_scheme d name o acc
            ≡ load_result rt url_scheme d name (from_entry o) acc
      at_entry none = refl
      at_entry (some raw) = refl

  -- Loading from a map of files is loading a directory that holds exactly those files.
  pub load_from_map-eq :
      (files : List (String × String)) (order : List String)
      → load_from_map rt url_scheme d files order
        ≡ load_settings_dir rt url_scheme d (λ name. from_entry (lookup name files)) order
  unfolding load_from_map load_settings_dir
  load_from_map-eq files order = ap (λ t. finish t.0 t.1) (merge_entries-eq files order _)

-- What a load shows of a section depends on that section only.
get-normalize :
    (r : Section) (f g : (q : Section) → Option (SectionType q))
    → f r ≡ g r
    → get r (normalize (from_sections f)) ≡ get r (normalize (from_sections g))
unfolding normalize
get-normalize Section.rulesets f g h = cc h
get-normalize Section.branches f g h = cc h
get-normalize _ f g h = h

-- The file of a section maps to its key.
touches-file_of :
    (r : Section) → touches (key r) (concat (settings_dir_prefix ∷ file_of r ∷ [])) ≡ true
unfolding keys_of lookup contains
touches-file_of Section.repo = refl
touches-file_of _ = refl

touching :
    (k file : String) (changed : List String)
    → touches k file ≡ true
    → any (touches k) changed ≡ false
    → contains changed file ≡ false
unfolding contains
touching k file [] h n = refl
touching k file (f ∷ fs) h n =
    let rest = touching k file fs h (ground arith) in
    let this = not_this (ground arith) in ground (arith, rest, this)
  where
    not_this : touches k f ≡ false → (f == file) ≡ false
    not_this e = elim (String-cases f file) [
      | inl same ↦ absurd (cc (ap (touches k) same, h, e))
      | inr ne ↦ ne
    ]

module _ (rt : Runtime) (url_scheme : String → Option String) (d : Decoder) where
  -- Two states of the settings directory that differ only in the changed files of a push load to the
  -- same value in every section whose key the push does not affect.
  pub load_settings_dir-affected_keys :
      (before after : String → Fetched) (order changed : List String) {keys : List String}
      (r : Section) {old new : Settings}
      → ((name : String)
          → contains changed (concat (settings_dir_prefix ∷ name ∷ [])) ≡ false
          → before name ≡ after name)
      → affected_keys changed ≡ some keys
      → contains keys (key r) ≡ false
      → load_settings_dir rt url_scheme d before order ≡ loaded old
      → load_settings_dir rt url_scheme d after order ≡ loaded new
      → get r old ≡ get r new
  load_settings_dir-affected_keys before after order changed r agree narrowed outside h k =
      let path = concat (settings_dir_prefix ∷ file_of r ∷ []) in
      let untouched = sym (affected_keys_exact changed (key r) narrowed) ∙ outside in
      let file_same =
        agree (file_of r) (touching (key r) path changed (touches-file_of r) untouched) in
      let was = finish-loaded _ _ (sym (load_settings_dir_lem rt url_scheme d before order) ∙ h) in
      let now = finish-loaded _ _ (sym (load_settings_dir_lem rt url_scheme d after order) ∙ k) in
      let section_same =
        ap
          (λ o.
            if contains order (file_of r)
            then get r (file_layer rt url_scheme d (file_of r) o)
            else none)
          file_same in
      ap (get r) was.1
      ∙ get-normalize r (arrived rt url_scheme d before order) (arrived rt url_scheme d after order)
          section_same
      ∙ sym (ap (get r) now.1)
