-- ===== src/RateLimit/Budget/Wait.antt =====
-- The waits that the global budget reports.
use dgo.Prelude.{ℕ, ◌+◌, ◌<◌, ◌≤◌, ◌≡◌, false, leb, arith}
use dgo.RateLimit.{RateLimiter}
use dgo.RateLimit.Budget.{
  window_length, reset_global_window, proactive_global_wait, reserve_global_request,
}

-- A request that the budget refuses is told a positive wait. When nothing else happens, a second try
-- that comes before that wait is over is refused, and one that comes when it is over is granted.
pub reserve_wait :
    (r : RateLimiter) (now later : ℕ)
    → 0 < now
    → now ≤ later
    → (reserve_global_request r now).2 ≡ false
    → (0 < (reserve_global_request r now).1)
      × ((reserve_global_request (reserve_global_request r now).0 later).2
          ≡ leb (now + (reserve_global_request r now).1) later)
unfolding reserve_global_request reset_global_window window_length
reserve_wait r now later p l h = ground arith

-- The wait that is read ahead of a request is the wait that the request would be told.
pub proactive-reserve :
    (r : RateLimiter) (now : ℕ) → (proactive_global_wait r now).1 ≡ (reserve_global_request r now).1
unfolding reserve_global_request proactive_global_wait
proactive-reserve r now = ground arith
