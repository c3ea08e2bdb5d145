-- ===== src/Tests/CacheExamples.antt =====
-- internal/ghclient/cache.go on a cache of two entries.
use repositories_settings.Base.{
  String, ◌≡◌, ◌≢◌, refl, ◌<◌, ◌⊎◌, false, none, [], is_empty, length, lookup, codes, arith, eq_iff,
  if◌then◌else◌,
}
use repositories_settings.Ghclient.EtagCache.{
  EtagEntry, EtagCache, get, set, oldest, invalidate_path,
}
use repositories_settings.Ghclient.EtagCache.Paths.{canonical_path, trim_slash}
use repositories_settings.Ghclient.EtagCache.Invariant.{Inv, set-Inv}
use repositories_settings.Ghclient.EtagCache.Laws.{is_stale, get-invalidate_path, get-set_other}

abbrev user_key : String
user_key = "https://api/user"

abbrev rules_key : String
rules_key = "https://api/repos/o/r/rulesets"

abbrev entry : String → EtagEntry
entry path = record { etag = "W/1"; body = "[]"; path = path }

abbrev rules_read : EtagEntry
rules_read = entry "/repos/o/r/rulesets"

abbrev empty_cache : EtagCache
empty_cache = record { cap = 1; order = []; entries = [] }

empty_cache-Inv : Inv empty_cache
unfolding lookup
empty_cache-Inv = record { same = λ k. refl; distinct = tt; bounded = omega arith }

abbrev full_cache : EtagCache
full_cache = set rules_key rules_read empty_cache

full_cache-Inv : Inv full_cache
full_cache-Inv = set-Inv rules_key rules_read empty_cache empty_cache-Inv

set-Inv_example : Inv (set user_key (entry "/user") full_cache)
set-Inv_example = set-Inv user_key (entry "/user") full_cache full_cache-Inv

has_path : is_empty (canonical_path (codes "/repos/o/r")) ≡ false
unfolding canonical_path trim_slash
has_path = refl

get-invalidate_path_example : (get rules_key (invalidate_path "/repos/o/r" full_cache)).0 ≡ (
    if is_stale (canonical_path (codes "/repos/o/r")) (get rules_key full_cache).0
    then none
    else (get rules_key full_cache).0)
get-invalidate_path_example =
    get-invalidate_path "/repos/o/r" rules_key full_cache full_cache-Inv has_path

one_entry : 0 < full_cache.cap
unfolding set lookup
one_entry = omega arith

other_key : user_key ≢ rules_key
other_key e = absurd cc ((eq_iff user_key rules_key).1 e)

get-set_other_example :
    ((get rules_key (set user_key (entry "/user") full_cache)).0 ≡ (get rules_key full_cache).0)
    ⊎ (length full_cache.order ≡ full_cache.cap
        × oldest (user_key, entry "/user") full_cache.order ≡ rules_key)
get-set_other_example =
    get-set_other user_key rules_key (entry "/user") full_cache full_cache-Inv one_entry other_key
