-- ===== src/Config/Validate/Properties.antt =====
-- internal/config/validate.go: the accepted custom properties.
use repositories_settings.Base.{
  ℕ, suc, String, ◌==◌, ◌≡◌, ◌↔◌, refl, sym, ap, ◌∙◌, true, Option, none, some, List, [], ◌∷◌,
  arith, eq_refl, subst, append-eq-nil, contains, String-cases, Bool-cases, inl, inr,
}
use repositories_settings.Base.Int.{pos}
use repositories_settings.Value.{
  Value, Items, Fields, nil, cons, text, bool, arr, lookup_field, field_keys,
}
use repositories_settings.Config.Files.{CustomPropertiesFile}
use repositories_settings.Config.Policy.Inputs.{Runtime}
use repositories_settings.Config.Validate.Laws.{
  finalize-eq-none, both-eq-nil, require_version-eq-nil, IsGiven, at_least_one-eq-nil,
}
use repositories_settings.Config.Validate.Repository.{
  item_issues, property_issues, properties_issues, validate_custom_properties_file,
}

abbrev IsText : Items → Type 0
IsText nil = Unit
IsText (cons (text s) vs) = IsText vs
IsText (cons v vs) = ⊥

-- A text, a Boolean, or a list of texts.
abbrev pub IsPropertyValue : Value → Type 0
IsPropertyValue (text s) = Unit
IsPropertyValue (bool b) = Unit
IsPropertyValue (arr vs) = IsText vs
IsPropertyValue v = ⊥

contains-field_keys :
    (k : String) (m : Fields) {v : Value}
    → lookup_field k m ≡ some v
    → contains (field_keys m) k ≡ true
unfolding lookup_field field_keys contains
contains-field_keys k Fields.end h = absurd (ground (arith, h))
contains-field_keys k (Fields.field j w m) {v = v} h = elim (Bool-cases (j == k)) [
  | inl e ↦ ground (arith, e)
  | inr e ↦
      let rest = contains-field_keys k m {v = v} (ground (arith, e, h)) in ground (arith, rest)
]

module _ (rt : Runtime) where
  item_issues-eq-nil : (k : String) (j : ℕ) (vs : Items) → (item_issues rt k j vs ≡ []) ↔ IsText vs
  item_issues-eq-nil k j nil = (λ e. tt, λ p. refl)
  item_issues-eq-nil k j (cons (text s) vs) = item_issues-eq-nil k (suc j) vs
  item_issues-eq-nil k j (cons _ vs) = (λ e. absurd (ground (arith, e)), λ p. elim p [ ])

  property_issues-eq-nil :
      (k : String) (v : Value) → (property_issues rt k (some v) ≡ []) ↔ IsPropertyValue v
  property_issues-eq-nil k (text s) = (λ e. tt, λ p. refl)
  property_issues-eq-nil k (bool b) = (λ e. tt, λ p. refl)
  property_issues-eq-nil k (arr vs) = item_issues-eq-nil k 0 vs
  property_issues-eq-nil k _ = (λ e. absurd (ground (arith, e)), λ p. elim p [ ])

  properties_issues-eq-nil :
      (m : Fields) (ks : List String)
      → (properties_issues rt m ks ≡ [])
        ↔ ((k : String) → contains ks k ≡ true → property_issues rt k (lookup_field k m) ≡ [])
  unfolding contains
  properties_issues-eq-nil m [] = (λ e k c. absurd (ground (arith, c)), λ p. refl)
  properties_issues-eq-nil m (j ∷ ks) =
      let rest = properties_issues-eq-nil m ks in
      let both =
        append-eq-nil (property_issues rt j (lookup_field j m)) (properties_issues rt m ks) in
      (
        λ e k c. elim (String-cases j k) [
          | inl same ↦ subst (λ i. property_issues rt i (lookup_field i m) ≡ []) same (both.0 e).0
          | inr ne ↦ rest.0 (both.0 e).1 k (ground (arith, ne, c))
        ],
        λ p. both.1 (p j (ground (arith, eq_refl j)), rest.1 (λ k c. p k (ground (arith, c)))),
      )

  -- The properties of the map, in whatever order they are visited.
  properties_issues-IsPropertyValue :
      (m : Fields)
      → (properties_issues rt m (rt.range (field_keys m)) ≡ [])
        ↔ ((k : String) (v : Value) → lookup_field k m ≡ some v → IsPropertyValue v)
  properties_issues-IsPropertyValue m =
      let each = properties_issues-eq-nil m (rt.range (field_keys m)) in
      (
        λ e k v h. (property_issues-eq-nil k v).0 (
            sym (ap (property_issues rt k) h)
            ∙ each.0 e k (rt.contains-range (field_keys m) k ∙ contains-field_keys k m h)),
        λ p. each.1 (λ k c. at_value k (lookup_field k m) (p k)),
      )
    where
      at_value :
          (k : String) (o : Option Value)
          → ((v : Value) → o ≡ some v → IsPropertyValue v)
          → property_issues rt k o ≡ []
      at_value k none p = refl
      at_value k (some v) p = (property_issues-eq-nil k v).1 (p v refl)

  -- custom-properties.yml is accepted exactly when its version is 1, it has a property, and every value
  -- is a text, a Boolean or a list of texts, whatever the order in which the map is visited.
  pub validate_custom_properties_file-eq-none :
      (f : CustomPropertiesFile)
      → (validate_custom_properties_file rt f ≡ none) ↔ (
          ((f.version ≡ pos 1) × IsGiven (field_keys f.custom_properties))
          × ((k : String) (v : Value)
              → lookup_field k f.custom_properties ≡ some v
              → IsPropertyValue v))
  unfolding validate_custom_properties_file
  validate_custom_properties_file-eq-none f =
      let ok = finalize-eq-none "custom-properties.yml" _ in
      let parts =
        both-eq-nil _ _
          (both-eq-nil _ _ (require_version-eq-nil rt f.version)
            (at_least_one-eq-nil (field_keys f.custom_properties) _))
          (properties_issues-IsPropertyValue f.custom_properties) in
      (λ e. parts.0 (ok.0 e), λ p. ok.1 (parts.1 p))
