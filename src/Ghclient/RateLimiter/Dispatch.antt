-- ===== src/Ghclient/RateLimiter/Dispatch.antt =====
-- internal/ghclient/ratelimit.go: which request runs next.
use repositories_settings.Base.{
  ◌+◌, ◌≡◌, refl, sym, ap, subst, Bool, true, false, Option, none, some, List, [], ◌∷◌, ◌++◌, arith,
  All, if◌then◌else◌,
}
use repositories_settings.Base.Int.{ℤ}
use repositories_settings.Ghclient.RateLimiter.{
  Pool, Request, RateLimiter, pool_of, less, insert_stable, sort_stable_from, enqueue,
  pool_has_budget, pick_from, pick_next, set_pool, spend, dispatch, pool_rest, pool_graphql,
}

-- Nothing stands before a request that is less.
abbrev pub Sorted : List Request → Type 0
Sorted [] = Unit
Sorted (x ∷ xs) = All (λ y. less y x ≡ false) xs × Sorted xs

less_asym : (a b : Request) → less a b ≡ true → less b a ≡ false
unfolding less
less_asym a b h = ground arith

less_trans : (a b c : Request) → less b c ≡ true → less a c ≡ false → less a b ≡ false
unfolding less
less_trans a b c h k = ground arith

All-insert_stable :
    (P : Request → Type 0) (r : Request) (xs : List Request)
    → P r
    → All P xs
    → All P (insert_stable r xs)
unfolding insert_stable
All-insert_stable P r [] h k = (h, tt)
All-insert_stable P r (x ∷ xs) h k = at_test (less r x) (All-insert_stable P r xs h k.1)
  where
    at_test :
        (b : Bool)
        → All P (insert_stable r xs)
        → All P (if b then r ∷ x ∷ xs else x ∷ insert_stable r xs)
    at_test true rest = (h, k)
    at_test false rest = (k.0, rest)

All-less :
    (r x : Request) (xs : List Request)
    → less r x ≡ true
    → All (λ y. less y x ≡ false) xs
    → All (λ y. less y r ≡ false) xs
All-less r x [] h k = tt
All-less r x (y ∷ xs) h k = (less_trans y r x h k.0, All-less r x xs h k.1)

insert_stable-Sorted : (r : Request) (xs : List Request) → Sorted xs → Sorted (insert_stable r xs)
unfolding insert_stable
insert_stable-Sorted r [] h = (tt, tt)
insert_stable-Sorted r (x ∷ xs) h = at_test (less r x) refl (insert_stable-Sorted r xs h.1)
  where
    at_test :
        (b : Bool)
        → less r x ≡ b
        → Sorted (insert_stable r xs)
        → Sorted (if b then r ∷ x ∷ xs else x ∷ insert_stable r xs)
    at_test true e rest = ((less_asym r x e, All-less r x xs e h.0), h)
    at_test false e rest = (All-insert_stable (λ y. less y x ≡ false) r xs e h.0, rest)

sort_stable_from-Sorted :
    (sorted rs : List Request) → Sorted sorted → Sorted (sort_stable_from sorted rs)
unfolding sort_stable_from
sort_stable_from-Sorted sorted [] h = h
sort_stable_from-Sorted sorted (r ∷ rs) h =
    sort_stable_from-Sorted (insert_stable r sorted) rs (insert_stable-Sorted r sorted h)

-- After `Schedule` the queue is in the order of priority and then of arrival.
pub enqueue-Sorted : (r : Request) (l : RateLimiter) → Sorted (enqueue r l).queue
unfolding enqueue
enqueue-Sorted r l = sort_stable_from-Sorted [] (l.queue ++ r ∷ []) tt

-- Whether the pool of a request has budget.
abbrev pub can_run : ℤ → RateLimiter → Request → Bool
can_run now l r = (pool_has_budget now (pool_of r.pool l)).0

All-weaken :
    (P Q : Request → Type 0)
    → ((x : Request) → P x → Q x)
    → (xs : List Request) → All P xs
    → All Q xs
All-weaken P Q f [] h = tt
All-weaken P Q f (x ∷ xs) h = (f x h.0, All-weaken P Q f xs h.1)

less_irrefl : (a : Request) → less a a ≡ false
unfolding less
less_irrefl a = ground arith

-- The list without one of its entries.
abbrev pub Takes : List Request → Request → List Request → Type 0
Takes q r queue =
    (before : List Request) × (after : List Request) × (q ≡ before ++ r ∷ after)
    × queue ≡ before ++ after

-- What is to hold of a pick from a queue: a request was taken whose pool has budget and that no other
-- request with budget comes before, or no request has budget.
abbrev pub First : ℤ → RateLimiter → List Request → Option (Request × List Request) → Type 0
First now l q none = All (λ x. can_run now l x ≡ false) q
First now l q (some found) =
    can_run now l found.0 ≡ true
    × All (λ x. can_run now l x ≡ true → less x found.0 ≡ false) q
    × Takes q found.0 found.1

pick_from-First :
    (now : ℤ) (l : RateLimiter) (q : List Request) → Sorted q → First now l q (pick_from now l q)
unfolding pick_from
pick_from-First now l [] h = tt
pick_from-First now l (r ∷ rs) h =
    at_test (can_run now l r) refl (pick_from now l rs) (pick_from-First now l rs h.1)
  where
    at_test :
        (b : Bool)
        → can_run now l r ≡ b
        → (later : Option (Request × List Request)) → First now l rs later
        → First now l (r ∷ rs) (
            if b
            then some (r, rs)
            else elim later [ none ↦ none | some found ↦ some (found.0, r ∷ found.1) ])
    at_test true e later k = (
      e,
      (
        λ _. less_irrefl r,
        All-weaken (λ y. less y r ≡ false) (λ y. can_run now l y ≡ true → less y r ≡ false)
            (λ y m _. m) rs h.0,
      ),
      ([], rs, refl, refl),
    )
    at_test false e none k = (e, k)
    at_test false e (some found) k =
        let (before, after, p, q) = k.2 in
        (k.0, (λ t. absurd cc (e, t), k.1), (r ∷ before, after, ap (◌∷◌ r) p, ap (◌∷◌ r) q))

Sorted-Takes :
    (q : List Request) (r : Request) (queue : List Request)
    → Sorted q
    → Takes q r queue
    → Sorted queue
Sorted-Takes q r queue h (before, after, p, e) =
    subst Sorted (sym e) (drop_one before (subst Sorted p h))
  where
    All-drop :
        (P : Request → Type 0) (before : List Request)
        → All P (before ++ r ∷ after)
        → All P (before ++ after)
    All-drop P [] k = k.1
    All-drop P (b ∷ before) k = (k.0, All-drop P before k.1)

    drop_one : (before : List Request) → Sorted (before ++ r ∷ after) → Sorted (before ++ after)
    drop_one [] k = k.1
    drop_one (b ∷ before) k = (All-drop (λ y. less y b ≡ false) before k.0, drop_one before k.1)

-- What `pickNext` is to do with the queue `q` of the limiter `l`, `out` being the limiter afterwards.
abbrev pub Picked : ℤ → RateLimiter → List Request → Option Request → RateLimiter → Type 0
Picked now l q none out = All (λ x. can_run now l x ≡ false) q × out.queue ≡ q
Picked now l q (some r) out =
    can_run now l r ≡ true
    × All (λ x. can_run now l x ≡ true → less x r ≡ false) q
    × Takes q r out.queue
    × Sorted out.queue
    × pool_of r.pool out ≡ spend r.pool (pool_has_budget now (pool_of r.pool l)).1

pool_of-dispatch :
    (now : ℤ) (l : RateLimiter) (r : Request) (queue : List Request)
    → pool_of r.pool (dispatch now l r queue)
      ≡ spend r.pool (pool_has_budget now (pool_of r.pool l)).1
pool_of-dispatch now l r queue = at_pool r.pool
  where
    at_pool :
        (p : Pool)
        → pool_of p
            (record (set_pool p (spend r.pool (pool_has_budget now (pool_of r.pool l)).1) l) {
              queue = queue;
              streak = 0;
            })
          ≡ spend r.pool (pool_has_budget now (pool_of r.pool l)).1
    at_pool pool_rest = refl
    at_pool pool_graphql = refl

-- From a queue in order, `pickNext` takes out a request whose pool has budget and that no other
-- request with budget comes before, charges that pool for it and leaves the others in order; or, where no
-- request has budget, it leaves the queue as it is.
pub pick_next-Picked :
    (now : ℤ) (l : RateLimiter)
    → Sorted l.queue
    → Picked now l l.queue (pick_next now l).0 (pick_next now l).1
unfolding pick_next
pick_next-Picked now l h = at_queue l.queue refl h
  where
    at_pick :
        (q : List Request) (found : Option (Request × List Request))
        → l.queue ≡ q
        → Sorted q
        → First now l q found
        → let out : Option Request × RateLimiter = elim found [
          | none ↦ (none, record l { streak = 1 + l.streak })
          | some f ↦ (some f.0, dispatch now l f.0 f.1)
        ] in
          Picked now l q out.0 out.1
    at_pick q none e s k = (k, e)
    at_pick q (some f) e s k =
        (k.0, k.1, k.2, Sorted-Takes q f.0 f.1 s k.2, pool_of-dispatch now l f.0 f.1)

    at_queue :
        (q : List Request)
        → l.queue ≡ q
        → Sorted q
        → let out : Option Request × RateLimiter = elim q [
          | [] ↦ (none, l)
          | x ∷ xs ↦ elim (pick_from now l (x ∷ xs)) [
            | none ↦ (none, record l { streak = 1 + l.streak })
            | some f ↦ (some f.0, dispatch now l f.0 f.1)
          ]
        ] in
          Picked now l q out.0 out.1
    at_queue [] e s = (tt, e)
    at_queue (x ∷ xs) e s =
        at_pick (x ∷ xs) (pick_from now l (x ∷ xs)) e s (pick_from-First now l (x ∷ xs) s)
