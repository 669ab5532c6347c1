-- ===== src/RateLimit/Budget.antt =====
-- The global request budget of ratelimit.go: `globalRateWindowLocked`, `resetGlobalWindowLocked`,
-- `proactiveGlobalWait` and `reserveGlobalRequest`. A wait is start + window - now, below 0 being 0.
mod Window
mod Wait
mod Examples
use dgo.Prelude.{ℕ, suc, ◌+◌, ◌-◌, Bool, true, false, leb, ltb, ◌==◌, ◌||◌, if◌then◌else◌}
use dgo.RateLimit.{RateLimiter, second}

unfoldable pub window_length : RateLimiter → ℕ
window_length r = if r.global_rate_window == 0 then second else r.global_rate_window

unfoldable pub reset_global_window : RateLimiter → ℕ → RateLimiter
unfolding window_length
reset_global_window r now =
    if r.global_window_start == 0 || leb (window_length r) (now - r.global_window_start)
    then record r { global_window_start = now; global_requests = 0 }
    else r

abbrev pub window_wait : RateLimiter → ℕ → ℕ
window_wait r now = (r.global_window_start + window_length r) - now

unfoldable pub proactive_global_wait : RateLimiter → ℕ → RateLimiter × ℕ
unfolding reset_global_window
proactive_global_wait r0 now =
    let r = reset_global_window r0 now in
    if r.global_rate_limit == 0 || ltb r.global_requests r.global_rate_limit
    then (r, 0)
    else (r, window_wait r now)

-- The wait, and whether the request was reserved.
unfoldable pub reserve_global_request : RateLimiter → ℕ → RateLimiter × ℕ × Bool
unfolding reset_global_window
reserve_global_request r0 now =
    let r = reset_global_window r0 now in
    if r.global_rate_limit == 0
    then (r, 0, true)
    else if leb r.global_rate_limit r.global_requests
    then (r, window_wait r now, false)
    else (record r { global_requests = suc r.global_requests }, 0, true)
