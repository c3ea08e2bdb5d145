-- ===== src/Diff/Plan.antt =====
-- What the planned actions say of two indexed lists.
use repositories_settings.Base.{
  String, ◌==◌, ◌≡◌, refl, sym, subst, ◌∙◌, inl, inr, true, ◌||◌, Option, none, some, List, [], ◌∷◌,
  ◌++◌, arith, All, All-append, Any, Any-append_left, Any-append_right, is_some, contains,
  contains-sort_strings, lookup, eq_iff, Bool-cases,
}
use repositories_settings.Value.{Fields}
use repositories_settings.Diff.Compare.{Encoding}
use repositories_settings.Diff.{Action, create, delete, noop, Diff, fields}
use repositories_settings.Diff.Lists.{
  Index, index_keys, sorted_keys, each_key, action_for, item_name, create_item, update_item,
  delete_item, plan, index_by, named_list,
}

contains-sorted_keys : (k : String) (m : Index) → contains (sorted_keys m) k ≡ is_some (lookup k m)
unfolding sorted_keys contains lookup
contains-sorted_keys k m = contains-sort_strings k (index_keys m) ∙ keys k m
  where
    keys : (k : String) (m : Index) → contains (index_keys m) k ≡ is_some (lookup k m)
    keys k [] = refl
    keys k ((j, it) ∷ m) = ground (arith, keys k m)

All-each_key :
    (P : Diff → Type 0) (f : String → List Diff) (ks : List String)
    → ((k : String) → contains ks k ≡ true → All P (f k))
    → All P (each_key f ks)
unfolding contains
All-each_key P f [] h = tt
All-each_key P f (k ∷ ks) h =
    All-append P (f k) (each_key f ks) (h k (ground (arith, eq_iff k k)))
      (All-each_key P f ks (λ j m. h j (ground arith)))

Any-each_key :
    (P : Diff → Type 0) (f : String → List Diff) (ks : List String) (k : String)
    → contains ks k ≡ true
    → Any P (f k)
    → Any P (each_key f ks)
unfolding contains
Any-each_key P f [] k h p = cc
Any-each_key P f (j ∷ ks) k h p = elim (Bool-cases (j == k)) [
  | inl same ↦
      Any-append_left P (f j) (each_key f ks)
        (subst (λ x. Any P (f x)) (sym ((eq_iff j k).0 same)) p)
  | inr other ↦ Any-append_right P (f j) (each_key f ks) (Any-each_key P f ks k (ground arith) p)
]

-- The action that the states of one item call for.
abbrev pub action_of : Encoding → Option Fields → Option Fields → Action
action_of enc none none = noop
action_of enc none (some d) = create
action_of enc (some c) none = delete
action_of enc (some c) (some d) = action_for (fields enc c d "")

-- A difference is about an item: it carries its name, its two states and the action they call for.
pub record IsFor (enc : Encoding) (name : String) (c d : Option Fields) (diff : Diff) : Type 0 where
  pub named : diff.resource ≡ name
  pub live : diff.current ≡ c
  pub wanted : diff.desired ≡ d
  pub acts : diff.action ≡ action_of enc c d

module _ (enc : Encoding) (name : String) where
  create_item-IsFor : (c d : Option Fields) → All (IsFor enc name c d) (create_item name c d)
  unfolding create_item
  create_item-IsFor none (some d) =
      (record { named = refl; live = refl; wanted = refl; acts = refl }, tt)
  create_item-IsFor (some c) d = tt
  create_item-IsFor none none = tt

  update_item-IsFor : (c d : Option Fields) → All (IsFor enc name c d) (update_item enc name c d)
  unfolding update_item
  update_item-IsFor (some c) (some d) =
      (record { named = refl; live = refl; wanted = refl; acts = refl }, tt)
  update_item-IsFor none d = tt
  update_item-IsFor (some c) none = tt

  delete_item-IsFor : (c d : Option Fields) → All (IsFor enc name c d) (delete_item name c d)
  unfolding delete_item
  delete_item-IsFor (some c) none =
      (record { named = refl; live = refl; wanted = refl; acts = refl }, tt)
  delete_item-IsFor none d = tt
  delete_item-IsFor (some c) (some d) = tt

module _ (enc : Encoding) (resource : String) (cur des : Index) where
  abbrev pub AboutKey : String → Diff → Type 0
  AboutKey k = IsFor enc (item_name resource k) (lookup k cur) (lookup k des)

  abbrev creates : List Diff
  creates =
      each_key (λ k. create_item (item_name resource k) (lookup k cur) (lookup k des))
        (sorted_keys des)

  abbrev updates : List Diff
  updates =
      each_key (λ k. update_item enc (item_name resource k) (lookup k cur) (lookup k des))
        (sorted_keys des)

  abbrev deletes : List Diff
  deletes =
      each_key (λ k. delete_item (item_name resource k) (lookup k cur) (lookup k des))
        (sorted_keys cur)

  -- Every item that either side has is in the plan, with its two states and the action they call for.
  plan_covers :
      (k : String) (c d : Option Fields)
      → lookup k cur ≡ c
      → lookup k des ≡ d
      → (is_some c || is_some d) ≡ true
      → Any (AboutKey k) (plan enc resource cur des)
  unfolding plan
  plan_covers k none none hc hd m = cc
  plan_covers k none (some d) hc hd m = Any-append_left (AboutKey k) creates (updates ++ deletes) (
      Any-each_key (AboutKey k) _ (sorted_keys des) k (contains-sorted_keys k des ∙ rw hd)
        (rw (hc, hd) (inl (record { named = refl; live = refl; wanted = refl; acts = refl }))))
  plan_covers k (some c) (some d) hc hd m =
      Any-append_right (AboutKey k) creates (updates ++ deletes) (
        Any-append_left (AboutKey k) updates deletes (
          Any-each_key (AboutKey k) _ (sorted_keys des) k (contains-sorted_keys k des ∙ rw hd)
            (rw (hc, hd) (inl (record { named = refl; live = refl; wanted = refl; acts = refl })))))
  plan_covers k (some c) none hc hd m = Any-append_right (AboutKey k) creates (updates ++ deletes) (
      Any-append_right (AboutKey k) updates deletes (
        Any-each_key (AboutKey k) _ (sorted_keys cur) k (contains-sorted_keys k cur ∙ rw hc)
          (rw (hc, hd) (inl (record { named = refl; live = refl; wanted = refl; acts = refl })))))

  abbrev pub AboutSome : Diff → Type 0
  AboutSome diff =
      (k : String) × ((is_some (lookup k cur) || is_some (lookup k des)) ≡ true) × AboutKey k diff

  about_some :
      (k : String) (diffs : List Diff)
      → (is_some (lookup k cur) || is_some (lookup k des)) ≡ true
      → All (AboutKey k) diffs
      → All AboutSome diffs
  about_some k [] m h = tt
  about_some k (x ∷ xs) m h = ((k, m, h.0), about_some k xs m h.1)

  in_des :
      (k : String)
      → contains (sorted_keys des) k ≡ true
      → (is_some (lookup k cur) || is_some (lookup k des)) ≡ true
  in_des k m = ground (arith, contains-sorted_keys k des)

  in_cur :
      (k : String)
      → contains (sorted_keys cur) k ≡ true
      → (is_some (lookup k cur) || is_some (lookup k des)) ≡ true
  in_cur k m = ground (arith, contains-sorted_keys k cur)

  -- The plan holds nothing else.
  plan_only : All AboutSome (plan enc resource cur des)
  unfolding plan
  plan_only =
      All-append AboutSome creates (updates ++ deletes)
        (All-each_key AboutSome _ (sorted_keys des) (λ k m.
          about_some k _ (in_des k m) (create_item-IsFor enc _ (lookup k cur) (lookup k des))))
        (All-append AboutSome updates deletes
          (All-each_key AboutSome _ (sorted_keys des) (λ k m.
            about_some k _ (in_des k m) (update_item-IsFor enc _ (lookup k cur) (lookup k des))))
          (All-each_key AboutSome _ (sorted_keys cur) (λ k m.
            about_some k _ (in_cur k m) (delete_item-IsFor enc _ (lookup k cur) (lookup k des)))))

module _ (enc : Encoding) (resource : String) (current desired : List Fields)
    (key_field : String) where
  -- Every item that either list names is in the plan of `NamedList`, under its name and with its two
  -- states: for a creation, a deletion, an update where a field differs, and else for nothing.
  pub named_list_covers :
      (k : String)
      → (is_some (lookup k (index_by enc current key_field))
          || is_some (lookup k (index_by enc desired key_field)))
        ≡ true
      → Any
          (AboutKey enc resource
            (index_by enc current key_field)
            (index_by enc desired key_field)
            k)
          (named_list enc resource current desired key_field)
  unfolding named_list
  named_list_covers k m = plan_covers enc resource _ _ k _ _ refl refl m

  -- Each entry of the plan of `NamedList` is for an item that either list names, with its two states
  -- and the action that they call for.
  pub named_list_only :
      All
        (AboutSome enc resource (index_by enc current key_field) (index_by enc desired key_field))
        (named_list enc resource current desired key_field)
  unfolding named_list
  named_list_only = plan_only enc resource _ _
