-- ===== src/RateLimit/Lock/Examples.antt =====
-- Runs of the lock loop.
use dgo.Prelude.{ℕ, ◌≡◌, refl, [], ◌∷◌, arith, none}
use dgo.Prelude.Int.{pos}
use dgo.RateLimit.{RateLimiter, no_bucket, new_rate_limiter}
use dgo.RateLimit.Lock.{Round, locked, lock_bucket_object, get_wait_time}
use dgo.RateLimit.Lock.Grant.{Granted, lock-Granted}
use dgo.RateLimit.Lock.Settle.{lock_settles}

-- The bucket at 0 has no request left before 50.
abbrev spent : RateLimiter
spent = record new_rate_limiter { heap = λ a. record no_bucket { reset = 50 }; next_address = 1 }

abbrev round_at : ℕ → Round
round_at t = record { now = t; reserve_now = t; used_now = t; ctx_err = none; others = λ r. r }

in_two : (lock_bucket_object (round_at 20 ∷ round_at 50 ∷ []) spent 0).1 ≡ locked 0
unfolding lock_bucket_object
in_two = refl

lock-Granted_example :
    Granted 0
      (lock_bucket_object (round_at 20 ∷ round_at 50 ∷ []) spent 0).0
      (round_at 20 ∷ round_at 50 ∷ [])
      spent
lock-Granted_example = lock-Granted (round_at 20 ∷ round_at 50 ∷ []) spent 0 0 in_two

waits_till_50 : (get_wait_time spent 0 (pos 1) 20).1 ≡ 30
unfolding get_wait_time
waits_till_50 = refl

lock_settles_example : (lock_bucket_object (round_at 20 ∷ round_at 50 ∷ []) spent 0).1 ≡ locked 0
lock_settles_example =
    lock_settles (round_at 20) (round_at 50) [] spent 0 (omega arith) (omega arith) refl (λ q. refl)
      (omega (arith, waits_till_50)) (omega arith)
