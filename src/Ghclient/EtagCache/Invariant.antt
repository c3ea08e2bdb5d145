-- ===== src/Ghclient/EtagCache/Invariant.antt =====
-- internal/ghclient/cache.go: what the map and the list of the cache have to do with each other, and
-- with the capacity.
use repositories_settings.Base.{
  ◌≤◌, ◌<◌, ◌≡◌, inl, inr, refl, subst, sym, String, ◌==◌, eq_refl, true, false, Option, none, some,
  List, [], ◌∷◌, arith, length, ltb, lookup, insert, delete, lookup-insert, lookup-delete, is_some,
  Bool-cases, Option-cases, String-cases, if◌then◌else◌,
}
use repositories_settings.Ghclient.EtagCache.{
  EtagEntry, EtagCache, move_to_front, get, drop_oldest, oldest, set,
}

-- No key stands twice.
abbrev pub Distinct : List (String × EtagEntry) → Type 0
Distinct [] = Unit
Distinct ((k, e) ∷ m) = lookup k m ≡ none × Distinct m

lookup-delete-none :
    (k j : String) (m : List (String × EtagEntry))
    → lookup j m ≡ none
    → lookup j (delete k m) ≡ none
lookup-delete-none k j m h = rw (lookup-delete k j m) (ground (arith, h))

pub Distinct-delete :
    (k : String) (m : List (String × EtagEntry)) → Distinct m → Distinct (delete k m)
unfolding delete
Distinct-delete k [] h = tt
Distinct-delete k ((j, e) ∷ m) h = elim (Bool-cases (j == k)) [
  | inl b ↦ rw b (Distinct-delete k m h.1)
  | inr b ↦ rw b (lookup-delete-none k j m h.0, Distinct-delete k m h.1)
]

pub length-delete_lem :
    (k : String) (m : List (String × EtagEntry))
    → length (delete k m) ≤ length m
      × (is_some (lookup k m) ≡ true → length (delete k m) < length m)
unfolding delete lookup
length-delete_lem k [] = (omega arith, λ e. absurd cc)
length-delete_lem k ((j, e) ∷ m) =
    let (a, b) = length-delete_lem k m in
    elim (Bool-cases (j == k)) [
      | inl h ↦ (ground (arith, a, h), λ i. ground (arith, a, h))
      | inr h ↦ (ground (arith, a, h), λ i. ground (arith, b, h, i))
    ]

length-drop :
    (x : String × EtagEntry) (xs : List (String × EtagEntry))
    → length (drop_oldest (x ∷ xs)) ≡ length xs
length-drop x [] = refl
length-drop x (y ∷ xs) = omega (arith, length-drop y xs)

is_some-oldest :
    (x : String × EtagEntry) (xs : List (String × EtagEntry))
    → is_some (lookup (oldest x xs) (x ∷ xs)) ≡ true
unfolding lookup
is_some-oldest x [] = rw (eq_refl x.0)
is_some-oldest x (y ∷ xs) = ground (arith, is_some-oldest y xs)

pub lookup-drop :
    (j : String) (x : String × EtagEntry) (xs : List (String × EtagEntry))
    → Distinct (x ∷ xs)
    → lookup j (drop_oldest (x ∷ xs)) ≡ (if oldest x xs == j then none else lookup j (x ∷ xs))
unfolding lookup
lookup-drop j x [] h = ground arith
lookup-drop j x (y ∷ xs) h =
    let o = is_some-oldest y xs in
    let rest = lookup-drop j y xs h.1 in
    elim (String-cases x.0 j) [
      | inl e ↦ elim (String-cases (oldest y xs) j) [
        | inl f ↦ absurd cc (h.0, o, e, f)
        | inr f ↦ cc (f, rest)
      ]
      | inr e ↦ cc (e, rest)
    ]

Distinct-drop :
    (x : String × EtagEntry) (xs : List (String × EtagEntry))
    → Distinct (x ∷ xs)
    → Distinct (drop_oldest (x ∷ xs))
Distinct-drop x [] h = tt
Distinct-drop x (y ∷ xs) h =
    (rw (lookup-drop x.0 y xs h.1) (ground (arith, h.0)), Distinct-drop y xs h.1)

-- Between any two operations, with the mutex free.
pub record Inv (c : EtagCache) : Type 0 where
  pub same : (k : String) → is_some (lookup k c.entries) ≡ is_some (lookup k c.order)
  pub distinct : Distinct c.order
  pub bounded : length c.order ≤ c.cap

pub is_some-delete :
    (key k : String) (entries : List (String × Unit {0})) (order : List (String × EtagEntry))
    → is_some (lookup k entries) ≡ is_some (lookup k order)
    → is_some (lookup k (delete key entries)) ≡ is_some (lookup k (delete key order))
is_some-delete key k entries order h =
    rw (lookup-delete key k entries, lookup-delete key k order) (ground (arith, h))

front-same :
    (c : EtagCache) (key j : String) (e : EtagEntry)
    → is_some (lookup j c.entries) ≡ is_some (lookup j c.order)
    → is_some (lookup key c.order) ≡ true
    → is_some (lookup j c.entries) ≡ is_some (lookup j ((key, e) ∷ delete key c.order))
unfolding lookup
front-same c key j e h k = elim (String-cases key j) [
  | inl x ↦ ground (arith, h, k, x, eq_refl j)
  | inr x ↦ rw (h, x, lookup-delete key j c.order, x) refl
]

-- A present element that moves to the front, with a value that may be new.
Inv-front :
    (c : EtagCache) (key : String) (e : EtagEntry)
    → Inv c
    → is_some (lookup key c.order) ≡ true
    → Inv (record c { order = (key, e) ∷ delete key c.order })
Inv-front c key e h k = record {
  same = λ j. front-same c key j e (h.same j) k;
  distinct = (
    rw (lookup-delete key key c.order) (ground (arith, eq_refl key)),
    Distinct-delete key c.order h.distinct,
  );
  bounded = omega (arith, h.bounded, (length-delete_lem key c.order).1 k);
}

pub get-hit :
    (key : String) (c : EtagCache) (u : Unit {0}) (v : EtagEntry)
    → lookup key c.entries ≡ some u
    → lookup key c.order ≡ some v
    → get key c ≡ (some v, record c { order = (key, v) ∷ delete key c.order })
unfolding get move_to_front
get-hit key c u v e f = cc (e, f)

pub get-miss : (key : String) (c : EtagCache) → lookup key c.entries ≡ none → get key c ≡ (none, c)
unfolding get
get-miss key c e = cc e

pub get-Inv : (key : String) (c : EtagCache) → Inv c → Inv (get key c).1
get-Inv key c h = elim (Option-cases (lookup key c.entries)) [
  | inl e ↦ subst (λ r. Inv r.1) (sym (get-miss key c e)) h
  | inr (u, e) ↦ elim (Option-cases (lookup key c.order)) [
    | inl f ↦ absurd cc (h.same key, e, f)
    | inr (v, f) ↦ subst (λ r. Inv r.1) (sym (get-hit key c u v e f)) (Inv-front c key v h (rw f))
  ]
]

push-same :
    (c : EtagCache) (key j : String) (e : EtagEntry)
    → is_some (lookup j c.entries) ≡ is_some (lookup j c.order)
    → is_some (lookup j (insert key tt c.entries)) ≡ is_some (lookup j ((key, e) ∷ c.order))
unfolding lookup
push-same c key j e h = rw (lookup-insert key j tt c.entries) (ground (arith, h))

evict-same :
    (c : EtagCache) (key j : String) (e : EtagEntry)
    → is_some (lookup j c.entries) ≡ is_some (lookup j c.order)
    → Distinct ((key, e) ∷ c.order)
    → is_some (lookup j (delete (oldest (key, e) c.order) (insert key tt c.entries)))
      ≡ is_some (lookup j (drop_oldest ((key, e) ∷ c.order)))
evict-same c key j e h d =
    rw
      (
        lookup-delete (oldest (key, e) c.order) j (insert key tt c.entries),
        lookup-drop j (key, e) c.order d,
      )
      (ground (arith, push-same c key j e h))

-- What a new element pushes out.
Inv-evict :
    (c : EtagCache) (key : String) (e : EtagEntry)
    → Inv c
    → lookup key c.order ≡ none
    → Inv (record c {
      order = drop_oldest ((key, e) ∷ c.order);
      entries = delete (oldest (key, e) c.order) (insert key tt c.entries);
    })
Inv-evict c key e h k = record {
  same = λ j. evict-same c key j e (h.same j) (k, h.distinct);
  distinct = Distinct-drop (key, e) c.order (k, h.distinct);
  bounded = omega (arith, h.bounded, length-drop (key, e) c.order);
}

Inv-push :
    (c : EtagCache) (key : String) (e : EtagEntry)
    → Inv c
    → lookup key c.order ≡ none
    → length ((key, e) ∷ c.order) ≤ c.cap
    → Inv (record c { order = (key, e) ∷ c.order; entries = insert key tt c.entries })
Inv-push c key e h k b = record {
  same = λ j. push-same c key j e (h.same j);
  distinct = (k, h.distinct);
  bounded = b;
}

pub set-front :
    (key : String) (e : EtagEntry) (c : EtagCache) (u : Unit {0})
    → lookup key c.entries ≡ some u
    → set key e c ≡ record c { order = (key, e) ∷ delete key c.order }
unfolding set
set-front key e c u f = cc f

pub set-evict :
    (key : String) (e : EtagEntry) (c : EtagCache)
    → lookup key c.entries ≡ none
    → ltb c.cap (length ((key, e) ∷ c.order)) ≡ true
    → set key e c ≡ record c {
      order = drop_oldest ((key, e) ∷ c.order);
      entries = delete (oldest (key, e) c.order) (insert key tt c.entries);
    }
unfolding set
set-evict key e c f b = cc (f, b)

pub set-push :
    (key : String) (e : EtagEntry) (c : EtagCache)
    → lookup key c.entries ≡ none
    → ltb c.cap (length ((key, e) ∷ c.order)) ≡ false
    → set key e c ≡ record c { order = (key, e) ∷ c.order; entries = insert key tt c.entries }
unfolding set
set-push key e c f b = cc (f, b)

pub is_some-of_none :
    {A B : Type 0} (o : Option A) (p : Option B) → is_some o ≡ is_some p → o ≡ none → p ≡ none
is_some-of_none o none h e = refl
is_some-of_none o (some x) h e = absurd cc (h, e)

is_some-of_some :
    {A B : Type 0} (o : Option A) (p : Option B) (x : A)
    → is_some o ≡ is_some p
    → o ≡ some x
    → is_some p ≡ true
is_some-of_some o p x h e = cc (h, e)

-- A write to the cache keeps the map and the list in step and within the capacity.
pub set-Inv : (key : String) (e : EtagEntry) (c : EtagCache) → Inv c → Inv (set key e c)
set-Inv key e c h = elim (Option-cases (lookup key c.entries)) [
  | inr (u, f) ↦ subst Inv (sym (set-front key e c u f)) (
      Inv-front c key e h
        (is_some-of_some (lookup key c.entries) (lookup key c.order) u (h.same key) f))
  | inl f ↦
      let n = is_some-of_none (lookup key c.entries) (lookup key c.order) (h.same key) f in
      elim (Bool-cases (ltb c.cap (length ((key, e) ∷ c.order)))) [
        | inl b ↦ subst Inv (sym (set-evict key e c f b)) (Inv-evict c key e h n)
        | inr b ↦ subst Inv (sym (set-push key e c f b)) (Inv-push c key e h n (ground (arith, b)))
      ]
]
