-- ===== src/RateLimit/Budget/Examples.antt =====
-- Runs of the global budget.
use dgo.Prelude.{◌*◌, ◌≡◌, ◌≤◌, refl, [], ◌∷◌, List, arith}
use dgo.RateLimit.{RateLimiter, new_rate_limiter}
use dgo.RateLimit.Budget.{window_length}
use dgo.RateLimit.Budget.Window.{Call, reserves, looks, run, count, within, budget_rate}

-- One request in ten nanoseconds.
abbrev tight : RateLimiter
tight = record new_rate_limiter { global_rate_limit = 1; global_rate_window = 10 }

abbrev used_up : RateLimiter
used_up = record tight { global_window_start = 5; global_requests = 1 }

abbrev calls : List Call
calls = reserves 5 ∷ reserves 6 ∷ looks 9 ∷ reserves 14 ∷ reserves 15 ∷ reserves 16 ∷ []

granted : (run (record { limiter = tight; grants = [] }) calls).grants ≡ 15 ∷ 5 ∷ []
unfolding run
granted = refl

budget_rate_example :
    count
      (within 6 (window_length tight))
      (run (record { limiter = tight; grants = [] }) calls).grants
    ≤ 2 * 1
budget_rate_example =
    budget_rate tight 5 calls 6 refl refl (omega arith) (omega arith)
      (omega arith, (omega arith, (omega arith, (omega arith, (omega arith, (omega arith, tt))))))
