-- ===== src/Ghclient/EtagCache.antt =====
-- internal/ghclient/cache.go: the bounded cache of response bodies. An element of the list is named
-- by its key, so the map from keys to elements is the set of its keys; the mutex is left out, each
-- operation holding it from its start to its end.
pub mod Paths
pub mod Invariant
pub mod Laws
use repositories_settings.Base.{
  ℕ, String, Bool, true, false, Option, none, some, List, [], ◌∷◌, length, leb, ltb, lookup, insert,
  delete, codes, is_some, if◌then◌else◌,
}
use repositories_settings.Ghclient.EtagCache.Paths.{canonical_path, paths_related}

pub record EtagEntry : Type 0 where
  pub etag : String
  pub body : String
  pub path : String

-- The front of `order` is the most recent.
pub record EtagCache : Type 0 where
  pub cap : ℕ
  pub order : List (String × EtagEntry)
  pub entries : List (String × Unit {0})

unfoldable pub new_etag_cache : ℕ → EtagCache
new_etag_cache capacity = record {
  cap = if leb capacity 0 then 10000 else capacity;
  order = [];
  entries = [];
}

-- `order.MoveToFront` of the element of the key.
unfoldable pub move_to_front : String → List (String × EtagEntry) → List (String × EtagEntry)
unfolding lookup delete
move_to_front key order = elim (lookup key order) [
  | none ↦ order
  | some e ↦ (key, e) ∷ delete key order
]

unfoldable pub get : String → EtagCache → Option EtagEntry × EtagCache
unfolding lookup move_to_front
get key c = elim (lookup key c.entries) [
  | some u ↦ (lookup key c.order, record c { order = move_to_front key c.order })
  | none ↦ (none, c)
]

-- The list without its last element, and the key of that one.
abbrev pub drop_oldest : List (String × EtagEntry) → List (String × EtagEntry)
drop_oldest [] = []
drop_oldest (x ∷ []) = []
drop_oldest (x ∷ y ∷ xs) = x ∷ drop_oldest (y ∷ xs)

abbrev pub oldest : String × EtagEntry → List (String × EtagEntry) → String
oldest x [] = x.0
oldest x (y ∷ xs) = oldest y xs

unfoldable pub set : String → EtagEntry → EtagCache → EtagCache
unfolding lookup insert delete
set key e c = elim (lookup key c.entries) [
  | some u ↦ record c { order = (key, e) ∷ delete key c.order }
  | none ↦
      let grown = (key, e) ∷ c.order in
      let known = insert key tt c.entries in
      if ltb c.cap (length grown)
      then record c { order = drop_oldest grown; entries = delete (oldest (key, e) c.order) known }
      else record c { order = grown; entries = known }
]

-- One round of the loop over the map.
unfoldable pub invalidate_key : List ℕ → String → EtagCache → EtagCache
unfolding lookup delete
invalidate_key path key c = elim (lookup key c.order) [
  | none ↦ c
  | some e ↦
      if paths_related (canonical_path (codes e.path)) path
      then record c { order = delete key c.order; entries = delete key c.entries }
      else c
]

-- The keys are those of the map, in the order of the loop.
unfoldable pub invalidate_keys : List ℕ → List (String × Unit {0}) → EtagCache → EtagCache
unfolding invalidate_key
invalidate_keys path [] c = c
invalidate_keys path ((key, u) ∷ keys) c = invalidate_keys path keys (invalidate_key path key c)

unfoldable pub invalidate_path : String → EtagCache → EtagCache
unfolding invalidate_keys
invalidate_path path c = elim (canonical_path (codes path)) [
  | [] ↦ c
  | r ∷ rs ↦ invalidate_keys (r ∷ rs) c.entries c
]
