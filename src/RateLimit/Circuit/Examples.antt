-- ===== src/RateLimit/Circuit/Examples.antt =====
-- Runs of the circuit breaker.
use dgo.Prelude.{◌≡◌, ◌↔◌, ◌⊎◌, ◌<◌, refl, true, [], ◌∷◌, List, arith, length, none}
use dgo.Window.{prune}
use dgo.RateLimit.{RateLimiter, new_rate_limiter}
use dgo.RateLimit.Circuit.{check_invalid_request_limit, invalid_window, record_response}
use dgo.RateLimit.Circuit.Recent.{Call, responds, run, step, recent, all_invalid}
use dgo.RateLimit.Circuit.Trips.{breaker_trips}
use dgo.RateLimit.Circuit.Warning.{status_at, Busy}

abbrev strict : RateLimiter
strict = record new_rate_limiter {
  invalid_request_limit = 2;
  invalid_request_warning_threshold = 1;
  invalid_request_window = 100;
}

abbrev calls : List Call
calls = responds 401 10 10 ∷ responds 200 20 20 ∷ responds 429 30 31 ∷ []

breaker_trips_example : ((check_invalid_request_limit (run strict calls) 40 40).1 ≡ none) ↔ (
    (strict.invalid_request_limit ≡ 0)
    ⊎ (length (recent (invalid_window strict) 40 (all_invalid calls))
        < strict.invalid_request_limit))
breaker_trips_example =
    breaker_trips strict calls 40 40 refl (omega arith, (omega arith, (omega arith, tt)))
      (omega arith)

warned : (status_at strict (responds 403 5 5)).warning_triggered ≡ true
unfolding record_response
warned = refl

busy : Busy (step strict (responds 403 5 5)) calls
unfolding step prune
busy = (omega arith, (omega arith, (omega arith, tt)))
