-- ===== src/RateLimit/Table/Examples.antt =====
-- A small cache.
use dgo.Prelude.{◌-◌, ◌≡◌, refl, [], ◌∷◌, arith}
use dgo.RateLimit.{
  RateLimiter, Bucket, no_bucket, new_rate_limiter, get_bucket, register_bucket_hash,
  make_bucket_room, set_bucket_hash, origin_of,
}
use dgo.Prelude.Assoc.{erase}
use dgo.RateLimit.Table.Eviction.{empty_key_stops_eviction}
use dgo.RateLimit.Table.Bounds.{Bounded, get_bucket-Bounded}
use dgo.RateLimit.Table.Again.{get_bucket-register}

-- Two buckets fill the table; the second one was used before the first one.
abbrev full : RateLimiter
full = record new_rate_limiter {
  max_buckets = 2;
  buckets = ("a", 0) ∷ ("b", 1) ∷ [];
  heap = λ j. record no_bucket { key = "a"; last_used = 10 - j };
  next_address = 2;
}

evicts_b : (make_bucket_room full 1).buckets ≡ ("a", 0) ∷ []
unfolding make_bucket_room dgo.RateLimit.oldest erase
evicts_b = refl

-- The bucket of the empty key is the oldest one.
abbrev stuck : RateLimiter
stuck = record full { buckets = ("a", 0) ∷ ("", 1) ∷ [] }

empty_key_stops_eviction_example : (make_bucket_room stuck 1).buckets ≡ stuck.buckets
empty_key_stops_eviction_example =
    empty_key_stops_eviction stuck (("a", 0) ∷ []) 1 1 refl (omega arith, tt)

get_bucket-Bounded_example : Bounded 2 (get_bucket full "c" "" "" 20).0
get_bucket-Bounded_example =
    get_bucket-Bounded 2 full "c" "" "" 20 (omega arith) refl
      (record { setting = refl; within = omega arith; named = (refl, (refl, tt)) })

get_bucket-register_example :
    (get_bucket (register_bucket_hash full 0 "hash" 20).0 (origin_of (full.heap 0)) "" "" 30).1
    ≡ (register_bucket_hash full 0 "hash" 20).1
get_bucket-register_example =
    get_bucket-register full 0 "hash" "" "" 20 5 30 (record { hashes = tt; used = tt })
      (omega arith) (omega arith) (omega arith)
