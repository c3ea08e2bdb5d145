-- ===== src/Diff.antt =====
-- internal/diff: what has drifted between the live state of GitHub and the configured one.
pub mod Compare
pub mod Lists
pub mod Plan
pub mod Conforms
use repositories_settings.Base.{
  ℕ, zero, suc, String, ◌==◌, Bool, true, false, Option, none, some, List, [], ◌∷◌, ◌++◌, concat,
  add, sort_strings, if◌then◌else◌,
}
use repositories_settings.Value.{
  Value, Fields, null, obj, arr, end, field, lookup_field, field_keys, depth_fields,
}
use repositories_settings.Diff.Compare.{Encoding, slices_equal_by_json, values_equal}

pub data Action : Type 0 where
  create update delete noop : Action

-- The nil of `From` and `To` is `null`.
pub record FieldChange : Type 0 where
  pub path : String
  pub from : Value
  pub to : Value

pub record Diff : Type 0 where
  pub resource : String
  pub action : Action
  pub current : Option Fields
  pub desired : Option Fields
  pub changes : List FieldChange

abbrev pub add_all : List String → List String → List String
add_all [] seen = seen
add_all (k ∷ ks) seen = add_all ks (add k seen)

unfoldable pub union_keys : Fields → Fields → List String
unfolding sort_strings
union_keys a b = sort_strings (add_all (field_keys b) (add_all (field_keys a) []))

abbrev pub change : String → Value → Value → List FieldChange
change path from to = record { path = path; from = from; to = to } ∷ []

abbrev pub path_of : String → String → String
path_of prefix k = if prefix == "" then k else concat (prefix ∷ "." ∷ k ∷ [])

abbrev pub over_keys : (String → List FieldChange) → List String → List FieldChange
over_keys f [] = []
over_keys f (k ∷ ks) = f k ++ over_keys f ks

module _ (enc : Encoding) where
  -- The changes at one key that both maps have; `fields` is the comparison of two nested maps.
  unfoldable pub compare_values :
      (Fields → Fields → String → List FieldChange) → Value → Value → String → List FieldChange
  compare_values fields (obj cur) (obj des) path = fields cur des path
  compare_values fields (arr cur) (arr des) path =
      if slices_equal_by_json enc cur des then [] else change path (arr cur) (arr des)
  compare_values fields cur des path = if values_equal cur des then [] else change path cur des

  -- One round of the loop over the keys.
  unfoldable pub key_changes :
      (Fields → Fields → String → List FieldChange)
      → Fields
      → Fields
      → String
      → String
      → List FieldChange
  unfolding compare_values
  key_changes fields cur des prefix k = elim (lookup_field k des) [
    | none ↦ []
    | some des_v ↦ elim (lookup_field k cur) [
      | none ↦ change (path_of prefix k) null des_v
      | some cur_v ↦ compare_values fields cur_v des_v (path_of prefix k)
    ]
  ]

  -- `Fields`, on fuel for the nesting of maps.
  unfoldable pub fields_from : ℕ → Fields → Fields → String → List FieldChange
  unfolding union_keys key_changes
  fields_from zero cur des prefix = []
  fields_from (suc n) cur des prefix =
      over_keys (key_changes (fields_from n) cur des prefix) (union_keys cur des)

  -- The nesting of the desired map bounds the recursion.
  unfoldable pub fields : Fields → Fields → String → List FieldChange
  unfolding fields_from
  fields cur des prefix = fields_from (suc (depth_fields des)) cur des prefix
