-- ===== src/Ghclient/RateLimiter.antt =====
-- internal/ghclient/ratelimit.go: the queue of requests and the budgets of the two pools. A time is a
-- number of nanoseconds, the zero `time.Time` is `none`; each function holds the mutex throughout. The
-- dispatcher's goroutine and the metrics are left out.
pub mod Dispatch
pub mod Wait
use repositories_settings.Base.{
  ℕ, ◌+◌, Bool, true, false, ◌&&◌, not, Option, none, some, List, [], ◌∷◌, ◌++◌, nat_eq, ltb,
  if◌then◌else◌,
}
use repositories_settings.Base.Int.{ℤ, pos, ◌-ℤ◌, ltb_ℤ}

pub data Pool : Type 0 where
  pool_rest pool_graphql : Pool

pub record PoolState : Type 0 where
  pub remaining : ℤ
  pub reset_at : Option ℤ
  pub secondary_points : ℤ

-- `id` stands for the closure of the request.
pub record Request : Type 0 where
  pub priority : ℕ
  pub pool : Pool
  pub enqueued : ℤ
  pub id : ℕ

pub record RateLimiter : Type 0 where
  pub rest : PoolState
  pub graphql : PoolState
  pub queue : List Request
  pub streak : ℕ

abbrev pub pool_of : Pool → RateLimiter → PoolState
pool_of pool_rest l = l.rest
pool_of pool_graphql l = l.graphql

abbrev pub set_pool : Pool → PoolState → RateLimiter → RateLimiter
set_pool pool_rest p l = record l { rest = p }
set_pool pool_graphql p l = record l { graphql = p }

-- The order of the queue: by priority, then by the time of arrival.
unfoldable pub less : Request → Request → Bool
less a b =
    if nat_eq a.priority b.priority then ltb_ℤ a.enqueued b.enqueued else ltb a.priority b.priority

-- An item goes behind those that it is not less than, so that equals keep their order.
unfoldable pub insert_stable : Request → List Request → List Request
unfolding less
insert_stable r [] = r ∷ []
insert_stable r (x ∷ xs) = if less r x then r ∷ x ∷ xs else x ∷ insert_stable r xs

-- `sort.SliceStable`
unfoldable pub sort_stable_from : List Request → List Request → List Request
unfolding insert_stable
sort_stable_from sorted [] = sorted
sort_stable_from sorted (r ∷ rs) = sort_stable_from (insert_stable r sorted) rs

-- What `Schedule` does to the queue.
unfoldable pub enqueue : Request → RateLimiter → RateLimiter
unfolding sort_stable_from
enqueue r l = record l { queue = sort_stable_from [] (l.queue ++ r ∷ []) }

-- `!p.resetAt.IsZero() && now.After(p.resetAt)`
abbrev pub is_reset : ℤ → Option ℤ → Bool
is_reset now none = false
is_reset now (some t) = ltb_ℤ t now

-- Whether the pool has budget, and the pool afterwards: a reset refills it.
unfoldable pub pool_has_budget : ℤ → PoolState → Bool × PoolState
pool_has_budget now p =
    if ltb_ℤ (pos 100) p.remaining
    then (true, p)
    else if is_reset now p.reset_at
    then (true, record p { remaining = pos 5000 })
    else (ltb_ℤ (pos 0) p.remaining, p)

abbrev pub cost : Pool → ℤ
cost pool_rest = pos 5
cost pool_graphql = pos 1

abbrev pub spend : Pool → PoolState → PoolState
spend pool p = record p {
  remaining = p.remaining -ℤ pos 1;
  secondary_points = p.secondary_points -ℤ cost pool;
}

-- The first request of the queue whose pool has budget, and the queue without it.
unfoldable pub pick_from : ℤ → RateLimiter → List Request → Option (Request × List Request)
unfolding pool_has_budget
pick_from now l [] = none
pick_from now l (r ∷ rs) =
    let later = pick_from now l rs in
    if (pool_has_budget now (pool_of r.pool l)).0
    then some (r, rs)
    else elim later [ none ↦ none | some found ↦ some (found.0, r ∷ found.1) ]

-- The state after a request has been taken out of the queue.
abbrev pub dispatch : ℤ → RateLimiter → Request → List Request → RateLimiter
dispatch now l r queue =
    let paid = spend r.pool (pool_has_budget now (pool_of r.pool l)).1 in
    record (set_pool r.pool paid l) { queue = queue; streak = 0 }

-- `pickNext` up to the wait: without a request that can run the streak grows.
unfoldable pub pick_next : ℤ → RateLimiter → Option Request × RateLimiter
unfolding pick_from
pick_next now l = elim l.queue [
  | [] ↦ (none, l)
  | q ∷ qs ↦ elim (pick_from now l (q ∷ qs)) [
    | none ↦ (none, record l { streak = 1 + l.streak })
    | some found ↦ (some found.0, dispatch now l found.0 found.1)
  ]
]

-- An exhausted pool whose reset has passed may send one request.
abbrev pub probe_pool : ℤ → PoolState → PoolState
probe_pool now p =
    if is_reset now p.reset_at && not (ltb_ℤ (pos 0) p.remaining)
    then record p { remaining = pos 1 }
    else p

unfoldable pub probe_reset : ℤ → RateLimiter → RateLimiter
probe_reset now l = record l { rest = probe_pool now l.rest; graphql = probe_pool now l.graphql }
