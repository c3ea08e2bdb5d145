-- ===== src/Ghclient/EtagCache/Laws.antt =====
-- internal/ghclient/cache.go: what a read finds after a write to the cache, and after a write to GitHub.
use repositories_settings.Base.{
  ℕ, ◌<◌, ◌≡◌, ◌≢◌, ◌⊎◌, inl, inr, refl, subst, sym, ap, ◌∙◌, String, ◌==◌, ==-of_ne, eq_refl, Bool,
  true, false, ◌&&◌, Option, none, some, List, [], ◌∷◌, arith, length, ltb, lookup, delete,
  lookup-delete, codes, is_empty, is_some, Bool-cases, Option-cases, String-cases, if◌then◌else◌,
}
use repositories_settings.Ghclient.EtagCache.{
  EtagEntry, EtagCache, get, drop_oldest, oldest, set, invalidate_key, invalidate_keys,
  invalidate_path,
}
use repositories_settings.Ghclient.EtagCache.Paths.{canonical_path, paths_related}
use repositories_settings.Ghclient.EtagCache.Invariant.{
  Inv, Distinct, Distinct-delete, is_some-delete, length-delete_lem, get-hit, get-miss, set-front,
  set-evict, set-push, lookup-drop, is_some-of_none, set-Inv,
}

-- What a read answers, under the invariant.
get_lem : (key : String) (c : EtagCache) → Inv c → (get key c).0 ≡ lookup key c.order
get_lem key c h = elim (Option-cases (lookup key c.entries)) [
  | inl e ↦
      ap (λ r. r.0) (get-miss key c e)
      ∙ sym (is_some-of_none (lookup key c.entries) (lookup key c.order) (h.same key) e)
  | inr (u, e) ↦ elim (Option-cases (lookup key c.order)) [
    | inl f ↦ absurd cc (h.same key, e, f)
    | inr (v, f) ↦ ap (λ r. r.0) (get-hit key c u v e f) ∙ sym f
  ]
]

-- An entry whose path the write is related to.
abbrev pub is_stale : List ℕ → Option EtagEntry → Bool
is_stale path none = false
is_stale path (some e) = paths_related (canonical_path (codes e.path)) path

invalidate_key-none :
    (path : List ℕ) (key : String) (c : EtagCache)
    → is_stale path (lookup key c.order) ≡ false
    → invalidate_key path key c ≡ c
unfolding invalidate_key
invalidate_key-none path key c h = elim (Option-cases (lookup key c.order)) [
  | inl e ↦ cc e
  | inr (v, e) ↦ cc (e, h)
]

invalidate_key-some :
    (path : List ℕ) (key : String) (c : EtagCache)
    → is_stale path (lookup key c.order) ≡ true
    → invalidate_key path key c
      ≡ record c { order = delete key c.order; entries = delete key c.entries }
unfolding invalidate_key
invalidate_key-some path key c h = elim (Option-cases (lookup key c.order)) [
  | inl e ↦ absurd cc (e, h)
  | inr (v, e) ↦ cc (e, h)
]

invalidate_key-Inv :
    (path : List ℕ) (key : String) (c : EtagCache) → Inv c → Inv (invalidate_key path key c)
invalidate_key-Inv path key c h = elim (Bool-cases (is_stale path (lookup key c.order))) [
  | inr e ↦ subst Inv (sym (invalidate_key-none path key c e)) h
  | inl e ↦ subst Inv (sym (invalidate_key-some path key c e)) record {
    same = λ j. is_some-delete key j c.entries c.order (h.same j);
    distinct = Distinct-delete key c.order h.distinct;
    bounded = omega (arith, h.bounded, (length-delete_lem key c.order).0);
  }
]

invalidate_key-lookup :
    (path : List ℕ) (key j : String) (c : EtagCache)
    → lookup j (invalidate_key path key c).order
      ≡ (if key == j && is_stale path (lookup j c.order) then none else lookup j c.order)
invalidate_key-lookup path key j c = elim (String-cases key j) [
  | inl x ↦ elim (Bool-cases (is_stale path (lookup key c.order))) [
    | inr e ↦ rw (invalidate_key-none path key c e) (ground (arith, e, x))
    | inl e ↦
        rw (invalidate_key-some path key c e)
          (rw (lookup-delete key j c.order) (ground (arith, e, x, eq_refl j)))
  ]
  | inr x ↦ elim (Bool-cases (is_stale path (lookup key c.order))) [
    | inr e ↦ rw (invalidate_key-none path key c e) (ground (arith, x))
    | inl e ↦
        rw (invalidate_key-some path key c e)
          (rw (lookup-delete key j c.order) (ground (arith, e, x)))
  ]
]

invalidate_keys-lookup :
    (path : List ℕ) (keys : List (String × Unit {0})) (j : String) (c : EtagCache)
    → lookup j (invalidate_keys path keys c).order ≡ (
        if is_some (lookup j keys) && is_stale path (lookup j c.order)
        then none
        else lookup j c.order)
unfolding invalidate_keys lookup
invalidate_keys-lookup path [] j c = refl
invalidate_keys-lookup path ((key, u) ∷ keys) j c =
    rw
      (
        invalidate_keys-lookup path keys j (invalidate_key path key c),
        invalidate_key-lookup path key j c,
      )
      (ground arith)

invalidate_keys-Inv :
    (path : List ℕ) (keys : List (String × Unit {0})) (c : EtagCache)
    → Inv c
    → Inv (invalidate_keys path keys c)
unfolding invalidate_keys
invalidate_keys-Inv path [] c h = h
invalidate_keys-Inv path ((key, u) ∷ keys) c h =
    invalidate_keys-Inv path keys (invalidate_key path key c) (invalidate_key-Inv path key c h)

-- Dropping the stale reads keeps the map and the list in step.
pub invalidate_path-Inv : (path : String) (c : EtagCache) → Inv c → Inv (invalidate_path path c)
unfolding invalidate_path
invalidate_path-Inv path c h = at_path (canonical_path (codes path))
  where
    at_path : (p : List ℕ) → Inv (elim p [ [] ↦ c | r ∷ rs ↦ invalidate_keys (r ∷ rs) c.entries c ])
    at_path [] = h
    at_path (r ∷ rs) = invalidate_keys-Inv (r ∷ rs) c.entries c h

-- The loop covers the whole map.
lookup-invalidate_path :
    (path key : String) (c : EtagCache)
    → Inv c
    → is_empty (canonical_path (codes path)) ≡ false
    → lookup key (invalidate_path path c).order ≡ (
        if is_stale (canonical_path (codes path)) (lookup key c.order)
        then none
        else lookup key c.order)
unfolding invalidate_path
lookup-invalidate_path path key c h = at_path (canonical_path (codes path))
  where
    at_path :
        (p : List ℕ)
        → is_empty p ≡ false
        → lookup key
            (elim p as (λ q. EtagCache) [
              | [] ↦ c
              | r ∷ rs ↦ invalidate_keys (r ∷ rs) c.entries c
            ]).order
          ≡ (if is_stale p (lookup key c.order) then none else lookup key c.order)
    at_path [] n = absurd cc
    at_path (r ∷ rs) n =
        rw (invalidate_keys-lookup (r ∷ rs) c.entries key c, h.same key)
          (stale_known (r ∷ rs) (lookup key c.order))
      where
        stale_known :
            (p : List ℕ) (o : Option EtagEntry)
            → (if is_some o && is_stale p o then none else o) ≡ (if is_stale p o then none else o)
        stale_known p none = refl
        stale_known p (some x) = refl

-- After a write to a path that is not empty, a read whose path is related to it finds nothing in the cache,
-- and every other read finds what it found before, whatever the order of the loop over the map.
pub get-invalidate_path :
    (path key : String) (c : EtagCache)
    → Inv c
    → is_empty (canonical_path (codes path)) ≡ false
    → (get key (invalidate_path path c)).0
      ≡ (if is_stale (canonical_path (codes path)) (get key c).0 then none else (get key c).0)
get-invalidate_path path key c h n =
    rw (get_lem key c h, get_lem key (invalidate_path path c) (invalidate_path-Inv path c h))
      (lookup-invalidate_path path key c h n)

lookup-drop_own :
    (key : String) (e : EtagEntry) (order : List (String × EtagEntry))
    → 0 < length order
    → lookup key (drop_oldest ((key, e) ∷ order)) ≡ some e
unfolding lookup
lookup-drop_own key e [] h = absurd (omega (arith, h))
lookup-drop_own key e (y ∷ ys) h = ground (arith, eq_refl key)

lookup-front :
    (key j : String) (e : EtagEntry) (order : List (String × EtagEntry))
    → lookup j ((key, e) ∷ order) ≡ (if key == j then some e else lookup j order)
unfolding lookup
lookup-front key j e order = refl

lookup-evict :
    (key j : String) (e : EtagEntry) (order : List (String × EtagEntry))
    → Distinct ((key, e) ∷ order)
    → (cap : ℕ) → 0 < cap
    → length order ≡ cap
    → (lookup j (drop_oldest ((key, e) ∷ order)) ≡ (if key == j then some e else lookup j order))
      ⊎ (length order ≡ cap × oldest (key, e) order ≡ j × key ≢ j)
lookup-evict key j e order d cap n full = elim (String-cases (oldest (key, e) order) j) [
  | inr x ↦ inl (rw (lookup-drop j (key, e) order d, x) (lookup-front key j e order))
  | inl x ↦ elim (String-cases key j) [
    | inl y ↦ inl (
        subst
          (λ i.
            lookup i (drop_oldest ((key, e) ∷ order))
            ≡ (if key == i then some e else lookup i order))
          y (rw (eq_refl key) (lookup-drop_own key e order (omega (arith, full, n)))))
    | inr y ↦ inr (full, x, λ z. absurd cc (y, eq_refl key, z))
  ]
]

-- The list after a write: as it was but for the key, or without its oldest element when it was full.
lookup-set :
    (key j : String) (e : EtagEntry) (c : EtagCache)
    → Inv c
    → 0 < c.cap
    → lookup j (set key e c).order ≡ (if key == j then some e else lookup j c.order)
      ⊎ (length c.order ≡ c.cap × oldest (key, e) c.order ≡ j × key ≢ j)
lookup-set key j e c h n = elim (Option-cases (lookup key c.entries)) [
  | inr (u, f) ↦ inl (
      rw
        (
          set-front key e c u f,
          lookup-front key j e (delete key c.order),
          lookup-delete key j c.order,
        )
        (ground arith))
  | inl f ↦ elim (Bool-cases (ltb c.cap (length ((key, e) ∷ c.order)))) [
    | inr b ↦ inl (rw (set-push key e c f b) (lookup-front key j e c.order))
    | inl b ↦ rw (set-evict key e c f b) (
        lookup-evict key j e c.order
          (is_some-of_none (lookup key c.entries) (lookup key c.order) (h.same key) f, h.distinct)
          c.cap n (ground (arith, b, h.bounded)))
  ]
]

-- In a cache whose capacity is not zero, an entry just written is found, whatever was evicted for it.
pub get-set :
    (key : String) (e : EtagEntry) (c : EtagCache)
    → Inv c
    → 0 < c.cap
    → (get key (set key e c)).0 ≡ some e
get-set key e c h n = elim (lookup-set key key e c h n) [
  | inl f ↦ rw (get_lem key (set key e c) (set-Inv key e c h), f, eq_refl key) refl
  | inr (a, b, d) ↦ absurd (d refl)
]

-- In a cache whose capacity is not zero, a write disturbs the read of at most one other key, and only
-- in a full cache: that of the least recently used entry.
pub get-set_other :
    (key j : String) (e : EtagEntry) (c : EtagCache)
    → Inv c
    → 0 < c.cap
    → key ≢ j
    → ((get j (set key e c)).0 ≡ (get j c).0)
      ⊎ (length c.order ≡ c.cap × oldest (key, e) c.order ≡ j)
get-set_other key j e c h p n = elim (lookup-set key j e c h p) [
  | inl f ↦
      inl
        (rw (get_lem j (set key e c) (set-Inv key e c h), get_lem j c h, f, ==-of_ne key j n) refl)
  | inr (a, b, d) ↦ inr (a, b)
]
