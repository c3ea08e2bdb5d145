-- ===== src/Diff/Conforms.antt =====
-- `Fields` of internal/diff/diff.go against what it is for a live state to agree with a desired one.
use mathlib.Core.Path.{fun_ext}
use repositories_settings.Base.{
  ℕ, zero, suc, ◌≤◌, ◌<◌, String, ◌==◌, ◌≡◌, refl, ap, subst, ◌∙◌, ◌↔◌, inl, inr, Bool, true, false,
  ◌||◌, Option, none, some, List, [], ◌∷◌, arith, append-eq-nil, contains, add, contains-add,
  contains-sort_strings, eq_iff, Bool-cases, if◌then◌else◌,
}
use repositories_settings.Value.{
  Value, Fields, null, obj, arr, end, field, lookup_field, field_keys, depth, depth_fields,
}
use repositories_settings.Diff.Compare.{Encoding, slices_equal_by_json, values_equal}
use repositories_settings.Diff.{
  FieldChange, add_all, union_keys, change, path_of, compare_values, key_changes, over_keys,
  fields_from, fields,
}

contains-add_all :
    (k : String) (ks seen : List String)
    → contains (add_all ks seen) k ≡ (contains ks k || contains seen k)
unfolding contains
contains-add_all k [] seen = refl
contains-add_all k (j ∷ ks) seen =
    rw (contains-add_all k ks (add j seen), contains-add) (ground arith)

contains-field_keys :
    (k : String) (m : Fields) {v : Value}
    → lookup_field k m ≡ some v
    → contains (field_keys m) k ≡ true
unfolding lookup_field field_keys contains
contains-field_keys k end h = cc
contains-field_keys k (field j w m) {v = v} h = elim (Bool-cases (j == k)) [
  | inl same ↦ ground arith
  | inr other ↦ let rest = contains-field_keys k m {v = v} (ground arith) in ground arith
]

-- Every desired key is visited.
contains-union_keys :
    (k : String) (cur des : Fields) {v : Value}
    → lookup_field k des ≡ some v
    → contains (union_keys cur des) k ≡ true
unfolding union_keys
contains-union_keys k cur des h =
    contains-sort_strings k (add_all (field_keys des) (add_all (field_keys cur) []))
    ∙ (contains-add_all k (field_keys des) (add_all (field_keys cur) [])
        ∙ ground (arith, contains-field_keys k des h))

-- A value of a map is nested less deep than the map.
depth-lookup_field :
    (k : String) (m : Fields) {v : Value} → lookup_field k m ≡ some v → depth v ≤ depth_fields m
unfolding lookup_field depth
depth-lookup_field k end h = cc
depth-lookup_field k (field j w m) {v = v} h = elim (Bool-cases (j == k)) [
  | inl same ↦ let e : w ≡ v = ground arith in omega (arith, ap depth e)
  | inr other ↦ let rest = depth-lookup_field k m {v = v} (ground arith) in omega arith
]

module _ (enc : Encoding) where
  -- A live value and a desired one agree; `rec` compares nested maps.
  abbrev pub Agrees : (Fields → Fields → Type 0) → Value → Value → Type 0
  Agrees rec (obj cur) (obj des) = rec cur des
  Agrees rec (arr cur) (arr des) = slices_equal_by_json enc cur des ≡ true
  Agrees rec cur des = values_equal cur des ≡ true

  -- Every field of the desired map is in the live map, with a value that agrees, to a nesting of n.
  abbrev pub Conforms : ℕ → Fields → Fields → Type 0
  Conforms zero cur des = Unit
  Conforms (suc n) cur des =
      (k : String) (v : Value)
      → lookup_field k des ≡ some v
      → (c : Value) × (lookup_field k cur ≡ some c) × Agrees (Conforms n) c v

  over_keys-eq-nil :
      (f : String → List FieldChange) (ks : List String)
      → (over_keys f ks ≡ []) ↔ ((k : String) → contains ks k ≡ true → f k ≡ [])
  unfolding contains
  over_keys-eq-nil f [] = (λ e k m. cc, λ h. refl)
  over_keys-eq-nil f (j ∷ ks) = (
    λ e k m.
        let parts = (append-eq-nil (f j) (over_keys f ks)).0 e in
        elim (Bool-cases (j == k)) [
          | inl same ↦ subst (λ x. f x ≡ []) ((eq_iff j k).0 same) parts.0
          | inr other ↦ (over_keys-eq-nil f ks).0 parts.1 k (ground arith)
        ],
    λ h.
        (append-eq-nil (f j) (over_keys f ks)).1
          (h j (ground (arith, eq_iff j j)), (over_keys-eq-nil f ks).1 (λ k m. h k (ground arith))),
  )

  test-eq-nil : (b : Bool) (c : FieldChange) → ((if b then [] else c ∷ []) ≡ []) ↔ (b ≡ true)
  test-eq-nil true c = (λ e. refl, λ e. refl)
  test-eq-nil false c = (λ e. cc, λ e. cc)

  module _ (rec : Fields → Fields → String → List FieldChange) (Rec : Fields → Fields → Type 0)
      (rec_iff : (cur des : Fields) (prefix : String)
        → (rec cur des prefix ≡ []) ↔ Rec cur des) where
    compare_values-eq-nil :
        (cur des : Value) (path : String)
        → (compare_values enc rec cur des path ≡ []) ↔ Agrees Rec cur des
    unfolding compare_values
    compare_values-eq-nil (obj cur) (obj des) path = rec_iff cur des path
    compare_values-eq-nil (arr cur) (arr des) path =
        test-eq-nil (slices_equal_by_json enc cur des) _
    compare_values-eq-nil cur des path = test-eq-nil (values_equal cur des) _

    -- What a round of the loop reports nothing for.
    abbrev FieldAgrees : Fields → Fields → String → Type 0
    FieldAgrees cur des k =
        (v : Value)
        → lookup_field k des ≡ some v
        → (c : Value) × (lookup_field k cur ≡ some c) × Agrees Rec c v

    round_iff :
        (path : String) (c d : Option Value)
        → (elim d [
          | none ↦ []
          | some des_v ↦ elim c [
            | none ↦ change path null des_v
            | some cur_v ↦ compare_values enc rec cur_v des_v path
          ]
        ]
            ≡ [])
          ↔ ((v : Value) → d ≡ some v → (w : Value) × (c ≡ some w) × Agrees Rec w v)
    round_iff path c none = (λ e v h. cc, λ h. refl)
    round_iff path none (some d) = (λ e. cc, λ h. let bad = h d refl in cc (bad.1))
    round_iff path (some c) (some d) = (
      λ e v h.
          let same : d ≡ v = cc in
          (c, refl, subst (Agrees Rec c) same ((compare_values-eq-nil c d path).0 e)),
      λ h.
          let (w, found, agrees) = h d refl in
          let same : w ≡ c = cc (found) in
          (compare_values-eq-nil c d path).1 (subst (λ x. Agrees Rec x d) same agrees),
    )

    key_changes-eq-nil :
        (cur des : Fields) (prefix k : String)
        → (key_changes enc rec cur des prefix k ≡ []) ↔ FieldAgrees cur des k
    unfolding key_changes
    key_changes-eq-nil cur des prefix k =
        round_iff (path_of prefix k) (lookup_field k cur) (lookup_field k des)

    loop-eq-nil :
        (cur des : Fields) (prefix : String)
        → (over_keys (key_changes enc rec cur des prefix) (union_keys cur des) ≡ [])
          ↔ ((k : String) → FieldAgrees cur des k)
    loop-eq-nil cur des prefix =
        let loop = over_keys-eq-nil (key_changes enc rec cur des prefix) (union_keys cur des) in
        (
          λ e k v h.
              (key_changes-eq-nil cur des prefix k).0 (loop.0 e k (contains-union_keys k cur des h))
                v h,
          λ h. loop.1 (λ k m. (key_changes-eq-nil cur des prefix k).1 (h k)),
        )

  -- The comparison to a given fuel reports nothing exactly when the fields agree to that nesting.
  fields_from-eq-nil :
      (n : ℕ) (cur des : Fields) (prefix : String)
      → (fields_from enc n cur des prefix ≡ []) ↔ Conforms n cur des
  unfolding fields_from
  fields_from-eq-nil zero cur des prefix = (λ e. tt, λ h. refl)
  fields_from-eq-nil (suc n) cur des prefix =
      loop-eq-nil (fields_from enc n) (Conforms n) (fields_from-eq-nil n) cur des prefix

  over_keys-cong :
      (f g : String → List FieldChange) (ks : List String)
      → ((k : String) → f k ≡ g k)
      → over_keys f ks ≡ over_keys g ks
  over_keys-cong f g ks h = ap (λ (x : String → List FieldChange). over_keys x ks) (fun_ext h)

  compare_values-enough :
      (r s : Fields → Fields → String → List FieldChange) (cur des : Value) (path : String) (n : ℕ)
      → depth des ≤ n
      → ((c d : Fields) (p : String) → depth_fields d < n → r c d p ≡ s c d p)
      → compare_values enc r cur des path ≡ compare_values enc s cur des path
  unfolding compare_values depth
  compare_values-enough r s (obj cur) (obj des) path n h e = e cur des path h
  compare_values-enough r s (arr cur) (arr des) path n h e = refl
  compare_values-enough r s cur des path n h e = refl

  round_enough :
      (r s : Fields → Fields → String → List FieldChange) (path : String) (n : ℕ)
      → ((c d : Fields) (p : String) → depth_fields d < n → r c d p ≡ s c d p)
      → (c d : Option Value) → ((v : Value) → d ≡ some v → depth v ≤ n)
      → ◌≡◌ {A = List FieldChange}
          (elim d [
            | none ↦ []
            | some des_v ↦ elim c [
              | none ↦ change path null des_v
              | some cur_v ↦ compare_values enc r cur_v des_v path
            ]
          ])
          (elim d [
            | none ↦ []
            | some des_v ↦ elim c [
              | none ↦ change path null des_v
              | some cur_v ↦ compare_values enc s cur_v des_v path
            ]
          ])
  round_enough r s path n e c none h = refl
  round_enough r s path n e none (some d) h = refl
  round_enough r s path n e (some c) (some d) h = compare_values-enough r s c d path n (h d refl) e

  -- More fuel than the nesting of the desired map changes nothing.
  fields_from-enough :
      (n m : ℕ) (cur des : Fields) (prefix : String)
      → depth_fields des < n
      → depth_fields des < m
      → fields_from enc n cur des prefix ≡ fields_from enc m cur des prefix
  unfolding fields_from key_changes
  fields_from-enough zero m cur des prefix h k = absurd (omega arith)
  fields_from-enough (suc n) zero cur des prefix h k = absurd (omega arith)
  fields_from-enough (suc n) (suc m) cur des prefix h k =
      over_keys-cong _ _ (union_keys cur des) (λ key.
        round_enough (fields_from enc n) (fields_from enc m) (path_of prefix key) (depth_fields des)
          (λ c d p lt. fields_from-enough n m c d p (omega arith) (omega arith))
          (lookup_field key cur) (lookup_field key des) (λ v e. depth-lookup_field key des e))

  -- `Fields` reports nothing exactly when every field of the desired map, at every nesting, is in the
  -- live map with a value that agrees; what else the live map holds plays no part.
  pub fields-eq-nil :
      (cur des : Fields) (prefix : String) (n : ℕ)
      → depth_fields des < n
      → (fields enc cur des prefix ≡ []) ↔ Conforms n cur des
  unfolding fields
  fields-eq-nil cur des prefix n h =
      let e = fields_from-enough (suc (depth_fields des)) n cur des prefix (omega arith) h in
      rw e (fields_from-eq-nil n cur des prefix)
