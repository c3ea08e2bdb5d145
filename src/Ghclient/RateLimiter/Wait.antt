-- ===== src/Ghclient/RateLimiter/Wait.antt =====
-- internal/ghclient/ratelimit.go: how long `pickNext` waits where no pool has budget. A duration is a
-- number of nanoseconds; the jitter, a random fraction of the back-off, is an argument.
use repositories_settings.Base.{
  All, ℕ, zero, suc, ◌+◌, ◌-◌, ◌*◌, ◌≤◌, ◌<◌, ◌≡◌, Bool, not, ◌&&◌, ◌||◌, false, Option, none, some,
  List, [], ◌∷◌, arith, ltb, if◌then◌else◌,
}
use repositories_settings.Base.Int.{ℤ, pos, negsuc, ◌-ℤ◌, ◌≤ℤ◌, ltb_ℤ}

abbrev pub min_backoff : ℕ
min_backoff = 250000000

abbrev pub max_backoff : ℕ
max_backoff = 30000000000

-- `1 << streak`
abbrev pub shift_one : ℕ → ℕ
shift_one zero = 1
shift_one (suc n) = 2 * shift_one n

-- `Equal`
abbrev pub same_time : ℤ → ℤ → Bool
same_time a b = not (ltb_ℤ a b) && not (ltb_ℤ b a)

-- The streak is cut at 7, the back-off at its maximum.
unfoldable pub backoff : ℕ → ℕ
backoff streak =
    let b = min_backoff * shift_one (if ltb 7 streak then 7 else streak) in
    if ltb max_backoff b then max_backoff else b

shift_one-pos : (n : ℕ) → 1 ≤ shift_one n
shift_one-pos zero = omega arith
shift_one-pos (suc n) = omega (arith, shift_one-pos n)

backoff-bounds : (streak : ℕ) → min_backoff ≤ backoff streak × backoff streak ≤ max_backoff
unfolding backoff
backoff-bounds streak =
    let h = shift_one-pos (if ltb 7 streak then 7 else streak) in
    (ground (arith, h), ground (arith, h))

-- One round of the loop over the pools: a time that is still `now` is replaced.
abbrev pub earlier : ℤ → ℤ → Option ℤ → ℤ
earlier now t none = t
earlier now t (some r) = if same_time t now || ltb_ℤ r t then r else t

-- The loop, over the resets of the pools in the order of the loop.
unfoldable pub earliest_from : ℤ → ℤ → List (Option ℤ) → ℤ
earliest_from now t [] = t
earliest_from now t (r ∷ rs) = earliest_from now (earlier now t r) rs

-- The longest and the shortest `time.Duration`.
abbrev pub max_duration : ℕ
max_duration = 9223372036854775807

-- `Sub`: a difference that a duration cannot hold is the longest or the shortest one.
unfoldable pub sub_time : ℤ → ℤ → ℤ
sub_time a b =
    let d = a -ℤ b in
    if ltb_ℤ (pos max_duration) d
    then pos max_duration
    else if ltb_ℤ d (negsuc max_duration)
    then negsuc max_duration
    else d

-- A negative duration is cut to 0.
abbrev pub cut : ℤ → ℕ
cut (pos n) = n
cut (negsuc n) = 0

unfoldable pub time_to_reset : ℤ → List (Option ℤ) → ℕ
unfolding earliest_from sub_time
time_to_reset now resets = cut (sub_time (earliest_from now now resets) now)

-- The sum of two durations that are not negative, in 64 bits: past the longest duration it wraps.
unfoldable pub add_duration : ℕ → ℕ → ℤ
add_duration a b =
    if ltb max_duration (a + b) then negsuc (18446744073709551615 - (a + b)) else pos (a + b)

unfoldable pub wait : ℤ → List (Option ℤ) → ℕ → ℕ → ℤ
unfolding backoff time_to_reset add_duration
wait now resets streak jitter =
    let to_reset = time_to_reset now resets in
    let b = backoff streak in add_duration (if ltb to_reset b then b else to_reset) jitter

-- With a jitter of at most a quarter of the back-off, and a reset that is at least seven and a half
-- seconds nearer than the longest duration (some 292 years), the wait is at least a quarter of a second,
-- at least the time to the reset that the loop found, and at most the longer of that time and thirty
-- seconds, and seven and a half seconds more.
pub wait-bounds :
    (now : ℤ) (resets : List (Option ℤ)) (streak jitter : ℕ)
    → 4 * jitter ≤ backoff streak
    → time_to_reset now resets + 7500000000 ≤ max_duration
    → pos min_backoff ≤ℤ wait now resets streak jitter
      × pos (time_to_reset now resets) ≤ℤ wait now resets streak jitter
      × wait now resets streak jitter
        ≤ℤ pos (
            (if ltb (time_to_reset now resets) max_backoff
              then max_backoff
              else time_to_reset now resets)
            + 7500000000)
unfolding wait add_duration
wait-bounds now resets streak jitter h near =
    let to_reset : ℕ = time_to_reset now resets in
    let (low, high) = backoff-bounds streak in
    (
      ground (arith, low, high, h, near),
      ground (arith, low, high, h, near),
      ground (arith, low, high, h, near),
    )

-- A reset past the longest duration makes the wait wrap: with any jitter it is negative.
wait_wraps :
    (now : ℤ) (resets : List (Option ℤ)) (streak jitter : ℕ)
    → 4 * jitter ≤ backoff streak
    → 0 < jitter
    → time_to_reset now resets ≡ max_duration
    → wait now resets streak jitter ≤ℤ negsuc 0
unfolding wait add_duration
wait_wraps now resets streak jitter h some_jitter far =
    let to_reset : ℕ = time_to_reset now resets in
    let (low, high) = backoff-bounds streak in ground (arith, low, high, h, some_jitter, far)

abbrev pub IsOther : ℤ → Option ℤ → Type 0
IsOther now none = Unit
IsOther now (some t) = same_time t now ≡ false

abbrev pub NotAfter : ℤ → Option ℤ → Type 0
NotAfter t none = Unit
NotAfter t (some r) = t ≤ℤ r

earlier-other :
    (now t r : ℤ) → same_time r now ≡ false → same_time (earlier now t (some r)) now ≡ false
earlier-other now t r h = ground (arith, h)

earlier-le : (now t r : ℤ) → earlier now t (some r) ≤ℤ r
earlier-le now t r = ground arith

earlier-le_other : (now t r : ℤ) → same_time t now ≡ false → earlier now t (some r) ≤ℤ t
earlier-le_other now t r h = ground (arith, h)

earliest_from-le :
    (now t : ℤ) (resets : List (Option ℤ))
    → same_time t now ≡ false
    → All (IsOther now) resets
    → earliest_from now t resets ≤ℤ t
unfolding earliest_from
earliest_from-le now t [] h k = omega arith
earliest_from-le now t (none ∷ rs) h k = earliest_from-le now t rs h k.1
earliest_from-le now t (some r ∷ rs) h k =
    let rest = earliest_from-le now (earlier now t (some r)) rs (earlier-other now t r k.0) k.1 in
    let first = earlier-le_other now t r h in omega (arith, rest, first)

-- Where no pool resets at this very moment, the loop over the pools finds a time that no reset comes
-- before, whatever the order of the loop.
pub earliest_from-NotAfter :
    (now t : ℤ) (resets : List (Option ℤ))
    → All (IsOther now) resets
    → All (NotAfter (earliest_from now t resets)) resets
unfolding earliest_from
earliest_from-NotAfter now t [] k = tt
earliest_from-NotAfter now t (none ∷ rs) k = (tt, earliest_from-NotAfter now t rs k.1)
earliest_from-NotAfter now t (some r ∷ rs) k =
    let e = earlier now t (some r) in
    let rest = earliest_from-le now e rs (earlier-other now t r k.0) k.1 in
    let first = earlier-le now t r in
    (omega (arith, rest, first), earliest_from-NotAfter now e rs k.1)
