-- ===== src/RateLimit/Release/Examples.antt =====
-- A bucket of which a response names the hash.
use dgo.Prelude.{
  ℕ, suc, ◌+◌, ◌≤◌, ◌≡◌, refl, String, Bool, true, Option, none, some, List, [], ◌∷◌, arith,
}
use dgo.Prelude.Int.{pos}
use dgo.Prelude.Assoc.{lookup}
use dgo.RateLimit.{RateLimiter, no_bucket, new_rate_limiter}
use dgo.RateLimit.Lock.{get_wait_time}
use dgo.RateLimit.Release.{Clock, Headers, absent, value, is_global, release, apply_global_limit}
use dgo.RateLimit.Release.Deadline.{global_limit_holds}
use dgo.RateLimit.Release.Learnt.{limits, release_shares}

-- Another request registered the hash before, and its bucket is at 1.
abbrev known : RateLimiter
known = record new_rate_limiter {
  buckets = ("route:GET|major:", 0) ∷ ("bucket:hash|major:", 1) ∷ [];
  heap = λ a. record no_bucket { key = "route:GET|major:"; remaining = pos 1; has_limiter = true };
  next_address = 2;
}

abbrev clock : Clock
clock = record { used = 20; reset = 30; registered = 40 }

-- Remaining is not given, and the deadline by the date of the server.
abbrev response : Headers
response = record {
  remaining = absent;
  limit = value (pos 5);
  reset = value 1000000100;
  date = value 1000000000;
  reset_after = absent;
  global = "";
  bucket = "hash";
  scope = "user";
}

release_shares_example :
    ((release known 0 (some response) clock).1 ≡ none)
    × ((canonical : ℕ) × (lookup "bucket:hash|major:"
            (release known 0 (some response) clock).0.buckets
          ≡ some canonical)
        × (limits ((release known 0 (some response) clock).0.heap canonical)
            ≡ (pos 5, pos 1, 250000130)))
unfolding is_global dgo.RateLimit.discovered_bucket_key
release_shares_example = release_shares known 0 response clock refl refl refl refl refl

-- The hash leads to the other bucket.
leads_other : lookup "bucket:hash|major:" (release known 0 (some response) clock).0.buckets ≡ some 1
unfolding release dgo.RateLimit.register_bucket_hash lookup dgo.RateLimit.Release.learn
    dgo.RateLimit.Release.learn_bucket is_global dgo.RateLimit.discovered_bucket_key
    dgo.Prelude.Assoc.erase
leads_other = refl

-- One store of another goroutine comes between a load and its exchange.
global_limit_holds_example :
    25
    ≤ 10 + (get_wait_time (apply_global_limit ((λ g. 7) ∷ []) new_rate_limiter 20 5) 0 (pos 1) 10).1
global_limit_holds_example =
    global_limit_holds ((λ g. 7) ∷ []) new_rate_limiter 0 (pos 1) 20 5 10 (omega arith)
