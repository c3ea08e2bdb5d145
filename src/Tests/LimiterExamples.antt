-- ===== src/Tests/LimiterExamples.antt =====
-- internal/ghclient/ratelimit.go on a queue of two requests.
use repositories_settings.Base.{
  ◌≡◌, refl, ◌*◌, ◌+◌, ◌≤◌, arith, ltb, if◌then◌else◌, some, none, [], ◌∷◌,
}
use repositories_settings.Base.Int.{pos, ◌-ℤ◌, ◌≤ℤ◌, negsuc}
use repositories_settings.Ghclient.RateLimiter.{
  Request, RateLimiter, pool_rest, pool_graphql, enqueue, sort_stable_from, insert_stable, less,
  pick_next, pick_from, pool_has_budget,
}
use repositories_settings.Ghclient.RateLimiter.Dispatch.{enqueue-Sorted, Picked, pick_next-Picked}
use repositories_settings.Ghclient.RateLimiter.Wait.{
  min_backoff, max_backoff, max_duration, backoff, earliest_from, sub_time, add_duration,
  time_to_reset, wait, wait-bounds,
}

-- The graphql pool is exhausted.
abbrev idle : RateLimiter
idle = record {
  rest = record { remaining = pos 5000; reset_at = none; secondary_points = pos 900 };
  graphql = record { remaining = pos 0; reset_at = some (pos 90); secondary_points = pos 2000 };
  queue = [];
  streak = 0;
}

abbrev cron : Request
cron = record { priority = 3; pool = pool_rest; enqueued = pos 10; id = 1 }

abbrev check : Request
check = record { priority = 0; pool = pool_graphql; enqueued = pos 20; id = 2 }

abbrev busy : RateLimiter
busy = enqueue check (enqueue cron idle)

pick_next-Picked_example :
    Picked (pos 30) busy busy.queue (pick_next (pos 30) busy).0 (pick_next (pos 30) busy).1
pick_next-Picked_example = pick_next-Picked (pos 30) busy (enqueue-Sorted check (enqueue cron idle))

-- The check comes first, but only the cron request can run.
cron_runs : (pick_next (pos 30) busy).0 ≡ some cron
unfolding enqueue sort_stable_from insert_stable less pick_next pick_from pool_has_budget
cron_runs = refl

no_jitter : 4 * 0 ≤ backoff 3
no_jitter = omega arith

in_a_minute : time_to_reset (pos 0) (some (pos 60000000000) ∷ []) + 7500000000 ≤ max_duration
unfolding time_to_reset earliest_from sub_time ◌-ℤ◌
in_a_minute = omega arith

-- A reset some 292 years away, and the least jitter.
far_wraps : wait (pos 0) (some (pos 9223372036854775807) ∷ []) 0 1 ≡ negsuc 9223372036854775807
unfolding wait add_duration backoff time_to_reset earliest_from sub_time ◌-ℤ◌
far_wraps = refl

wait-bounds_example :
    pos min_backoff ≤ℤ wait (pos 0) (some (pos 60000000000) ∷ []) 3 0
    × pos (time_to_reset (pos 0) (some (pos 60000000000) ∷ []))
      ≤ℤ wait (pos 0) (some (pos 60000000000) ∷ []) 3 0
    × wait (pos 0) (some (pos 60000000000) ∷ []) 3 0
      ≤ℤ pos (
          (if ltb (time_to_reset (pos 0) (some (pos 60000000000) ∷ [])) max_backoff
            then max_backoff
            else time_to_reset (pos 0) (some (pos 60000000000) ∷ []))
          + 7500000000)
wait-bounds_example = wait-bounds (pos 0) (some (pos 60000000000) ∷ []) 3 0 no_jitter in_a_minute
