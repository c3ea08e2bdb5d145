-- ===== src/Diff/Lists.antt =====
-- internal/diff/diff.go: the differences of two lists of named items, and of two single resources.
use repositories_settings.Base.{
  String, Option, none, some, List, [], ◌∷◌, ◌++◌, concat, is_empty, insert, lookup, sort_strings,
  if◌then◌else◌,
}
use repositories_settings.Value.{Fields, null, end, field, lookup_field}
use repositories_settings.Diff.Compare.{Encoding, sprint}
use repositories_settings.Diff.{Action, create, update, delete, noop, FieldChange, Diff, fields}

-- `map[string]map[string]any`
abbrev pub Index : Type 0
Index = List (String × Fields)

abbrev pub index_keys : Index → List String
index_keys [] = []
index_keys ((k, item) ∷ m) = k ∷ index_keys m

unfoldable pub sorted_keys : Index → List String
unfolding sort_strings
sorted_keys m = sort_strings (index_keys m)

-- A change for every field of a new item, in the order of their keys.
abbrev pub all_new : Fields → List FieldChange
all_new end = []
all_new (field k v m) = record { path = k; from = null; to = v } ∷ all_new m

abbrev pub action_for : List FieldChange → Action
action_for changes = if is_empty changes then noop else update

abbrev pub created : String → Fields → Diff
created resource des = record {
  resource = resource;
  action = create;
  current = none;
  desired = some des;
  changes = all_new des;
}

abbrev pub deleted : String → Fields → Diff
deleted resource cur = record {
  resource = resource;
  action = delete;
  current = some cur;
  desired = none;
  changes = [];
}

abbrev pub compared : String → Fields → Fields → List FieldChange → Diff
compared resource cur des changes = record {
  resource = resource;
  action = action_for changes;
  current = some cur;
  desired = some des;
  changes = changes;
}

-- A `range` loop over keys that appends.
abbrev pub each_key : (String → List Diff) → List String → List Diff
each_key f [] = []
each_key f (k ∷ ks) = f k ++ each_key f ks

abbrev pub item_name : String → String → String
item_name resource key = concat (resource ∷ "." ∷ key ∷ [])

-- In desired, not in current.
unfoldable pub create_item : String → Option Fields → Option Fields → List Diff
create_item name none (some des) = created name des ∷ []
create_item name _ _ = []

-- In current, not in desired.
unfoldable pub delete_item : String → Option Fields → Option Fields → List Diff
delete_item name (some cur) none = deleted name cur ∷ []
delete_item name _ _ = []

module _ (enc : Encoding) where
  -- Items without the key field are left out; the last item of a key counts.
  unfoldable pub index_from : String → Index → List Fields → Index
  index_from key_field idx [] = idx
  index_from key_field idx (it ∷ its) =
      index_from key_field
        (elim (lookup_field key_field it) [ none ↦ idx | some v ↦ insert (sprint enc v) it idx ])
        its

  unfoldable pub index_by : List Fields → String → Index
  unfolding index_from
  index_by its key_field = index_from key_field [] its

  -- In both.
  unfoldable pub update_item : String → Option Fields → Option Fields → List Diff
  update_item name (some cur) (some des) = compared name cur des (fields enc cur des "") ∷ []
  update_item name _ _ = []

  -- The three loops, over the two indexes.
  unfoldable pub plan : String → Index → Index → List Diff
  unfolding create_item update_item delete_item
  plan resource cur des =
      each_key (λ k. create_item (item_name resource k) (lookup k cur) (lookup k des))
        (sorted_keys des)
      ++ (each_key (λ k. update_item (item_name resource k) (lookup k cur) (lookup k des))
            (sorted_keys des)
          ++ each_key (λ k. delete_item (item_name resource k) (lookup k cur) (lookup k des))
              (sorted_keys cur))

  unfoldable pub named_list : String → List Fields → List Fields → String → List Diff
  unfolding index_by plan
  named_list resource current desired key_field =
      plan resource (index_by current key_field) (index_by desired key_field)

  unfoldable pub single_resource : String → Option Fields → Option Fields → Diff
  single_resource resource none none = record {
    resource = resource;
    action = noop;
    current = none;
    desired = none;
    changes = [];
  }
  single_resource resource none (some des) = created resource des
  single_resource resource (some cur) none = deleted resource cur
  single_resource resource (some cur) (some des) = compared resource cur des (fields enc cur des "")
