-- ===== src/Config/Disabled/Laws.antt =====
-- internal/config/disabled.go: the listing of a deny-set.
use repositories_settings.Base.{String, ◌≡◌, refl, ◌&&◌, List, [], ◌∷◌, arith, contains, eq_iff}
use repositories_settings.Config.Disabled.{
  DisabledResources, all_resource_keys, keys_from, keys, has,
}

keys_from-agree :
    (d e : DisabledResources)
    → ((k : String) → has d k ≡ has e k)
    → (ks : List String) → keys_from d ks ≡ keys_from e ks
unfolding has
keys_from-agree d e h [] = refl
keys_from-agree d e h (k ∷ ks) = ground (arith, h k, keys_from-agree d e h ks)

contains-keys_from :
    (d : DisabledResources) (ks : List String) (k : String)
    → contains (keys_from d ks) k ≡ (contains ks k && has d k)
unfolding contains has
contains-keys_from d [] k = refl
contains-keys_from d (j ∷ ks) k = ground (arith, eq_iff j k, contains-keys_from d ks k)

-- Two deny-sets with the same members are listed in the same order, and a key is listed exactly when
-- it is a canonical key and in the set.
pub keys_canonical :
    (d e : DisabledResources)
    → ((k : String) → has d k ≡ has e k)
    → (keys d ≡ keys e)
      × ((k : String) → contains (keys d) k ≡ (contains all_resource_keys k && has d k))
unfolding keys
keys_canonical d e h =
    (keys_from-agree d e h all_resource_keys, contains-keys_from d all_resource_keys)
