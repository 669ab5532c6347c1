-- ===== src/RateLimit/Lock.antt =====
-- Locking a bucket until a request may go: `GetWaitTime`, `LockBucketObjectContext` and the functions of
-- ratelimit.go that call it. A round of the loop has its readings of the clock, what ends its `select`
-- (the context's error, or none for the timer), and what other goroutines do while it waits.
-- A bucket is an address here, so that the error for a nil bucket does not arise.
mod Grant
pub mod Settle
mod Examples
use dgo.Prelude.{
  ℕ, zero, suc, ◌+◌, ◌-◌, String, Bool, true, false, List, [], ◌∷◌, Option, none, some, ltb, leb,
  ◌==◌, ◌&&◌, not, if◌then◌else◌,
}
use dgo.Prelude.Int.{ℤ, pos, ltb_ℤ, ◌-ℤ◌}
use dgo.RateLimit.{RateLimiter, Bucket, store, get_bucket, get_route_bucket}
use dgo.RateLimit.Budget.{proactive_global_wait, reserve_global_request}
use dgo.RateLimit.Circuit.{InvalidRequestLimitError, check_invalid_request_limit}

abbrev pub route_wait : Bucket → ℤ → ℕ → ℕ
route_wait b min_remaining now =
    if ltb_ℤ b.remaining min_remaining && ltb now b.reset then b.reset - now else 0

abbrev pub longer : ℕ → ℕ → ℕ
longer wait other = if ltb wait other then other else wait

unfoldable pub get_wait_time : RateLimiter → ℕ → ℤ → ℕ → RateLimiter × ℕ
unfolding proactive_global_wait
get_wait_time r a min_remaining now =
    let looked = proactive_global_wait r now in
    (looked.0, longer (longer (route_wait (r.heap a) min_remaining now) (r.global - now)) looked.1)

pub record Round : Type 0 where
  pub now : ℕ
  pub reserve_now : ℕ
  pub used_now : ℕ
  pub ctx_err : Option String
  pub others : RateLimiter → RateLimiter

-- The error of the context, that of the circuit breaker, or the locked bucket. The loop is still
-- waiting when no more rounds are given.
pub data Outcome : Type 0 where
  locked : ℕ → Outcome
  cancelled : String → Outcome
  breaker_open : InvalidRequestLimitError → Outcome
  waiting : Outcome

-- The bucket pays for the request.
abbrev pub pay : RateLimiter → ℕ → ℕ → RateLimiter
pay r a used_now = record r {
  heap =
      store r.heap a
        (record (r.heap a) { remaining = (r.heap a).remaining -ℤ pos 1; last_used = used_now });
}

-- One look at the limits, which may reserve a request of the global budget.
unfoldable pub try_round : RateLimiter → ℕ → ℕ → ℕ → RateLimiter × ℕ × Bool
unfolding get_wait_time reserve_global_request
try_round r a now reserve_now =
    let looked = get_wait_time r a (pos 1) now in
    if looked.1 == 0
    then reserve_global_request looked.0 reserve_now
    else (looked.0, looked.1, false)

unfoldable pub lock_bucket_object : List Round → RateLimiter → ℕ → RateLimiter × Outcome
unfolding try_round
lock_bucket_object [] r a = (r, waiting)
lock_bucket_object (e ∷ es) r a =
    let tried = try_round r a e.now e.reserve_now in
    let again = lock_bucket_object es (e.others tried.0) a in
    if tried.2
    then (pay tried.0 a e.used_now, locked a)
    else elim e.ctx_err [ some err ↦ (tried.0, cancelled err) | none ↦ again ]

unfoldable pub lock_bucket : List Round → RateLimiter → String → ℕ → RateLimiter × Outcome
unfolding lock_bucket_object get_bucket
lock_bucket es r0 bucket_id now =
    let (r, a) = get_bucket r0 bucket_id "" "" now in lock_bucket_object es r a

unfoldable pub lock_bucket_route :
    List Round → RateLimiter → String → String → ℕ → ℕ → ℕ → RateLimiter × Outcome
unfolding lock_bucket_object get_route_bucket check_invalid_request_limit
lock_bucket_route es r0 route_key major_key checked until now =
    let (r, refused) = check_invalid_request_limit r0 checked until in
    elim refused [
      | some err ↦ (r, breaker_open err)
      | none ↦ let (q, a) = get_route_bucket r route_key major_key now in lock_bucket_object es q a
    ]
