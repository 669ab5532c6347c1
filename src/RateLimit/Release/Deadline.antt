-- ===== src/RateLimit/Release/Deadline.antt =====
-- A global limit that a response announced holds back every request.
use dgo.Prelude.{ℕ, ◌+◌, ◌≤◌, ◌<◌, List, [], ◌∷◌, arith}
use dgo.Prelude.Int.{ℤ}
use dgo.RateLimit.{RateLimiter}
use dgo.RateLimit.Lock.{get_wait_time}
use dgo.RateLimit.Release.{apply_loop, apply_global_limit}

-- Whatever the others do, the loop ends at the deadline or behind it.
apply_loop_bound :
    (rounds : List (ℕ → ℕ)) (global deadline : ℕ) → deadline ≤ apply_loop rounds global deadline
unfolding apply_loop
apply_loop_bound [] global deadline = ground arith
apply_loop_bound (others ∷ rest) global deadline =
    ground (arith, apply_loop_bound rest (others global) deadline)

-- A limit of `retry_after` from `now` on: however the goroutines that store the global deadline interleave
-- with ApplyGlobalLimit, a wait that GetWaitTime computes from the state that it leaves lasts until
-- `now + retry_after` at least, for every bucket.
pub global_limit_holds :
    (rounds : List (ℕ → ℕ)) (r : RateLimiter) (a : ℕ) (min_remaining : ℤ)
    (retry_after now later : ℕ)
    → 0 < retry_after
    → now + retry_after
      ≤ later
        + (get_wait_time (apply_global_limit rounds r retry_after now) a min_remaining later).1
unfolding apply_global_limit get_wait_time
global_limit_holds rounds r a min_remaining retry_after now later pos_wait =
    ground (arith, apply_loop_bound rounds r.global (now + retry_after))
