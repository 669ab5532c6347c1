-- ===== src/RateLimit/Lock/Settle.antt =====
-- A bucket that nobody else touches is locked in two rounds.
use dgo.Prelude.{
  ℕ, ◌+◌, ◌-◌, ◌<◌, ◌≤◌, ◌≡◌, refl, ap, ◌∙◌, Bool, true, false, List, ◌∷◌, none, ltb, leb, ◌==◌,
  ◌||◌, arith, Bool-cases, inl, inr,
}
use dgo.Prelude.Int.{ℤ, pos, ltb_ℤ}
use dgo.RateLimit.{RateLimiter, Bucket, second}
use dgo.RateLimit.Budget.{
  window_length, reset_global_window, proactive_global_wait, reserve_global_request,
}
use dgo.RateLimit.Lock.{
  Round, locked, route_wait, longer, get_wait_time, try_round, lock_bucket_object,
}

-- What the proactive wait of the global budget says of the state that it leaves.
proactive_cleared :
    (r : RateLimiter) (now later : ℕ)
    → 0 < now
    → now + (proactive_global_wait r now).1 ≤ later
    → (proactive_global_wait (proactive_global_wait r now).0 later).1 ≡ 0
unfolding proactive_global_wait reset_global_window window_length
proactive_cleared r now later p l = ground arith

-- A budget with no proactive wait grants at once, also a little later.
proactive-reserved :
    (r : RateLimiter) (now later : ℕ)
    → 0 < now
    → now ≤ later
    → (proactive_global_wait r now).1 ≡ 0
    → (reserve_global_request (proactive_global_wait r now).0 later).2 ≡ true
unfolding proactive_global_wait reserve_global_request reset_global_window window_length
proactive-reserved r now later p l h = ground arith

pub proactive-rest :
    (r : RateLimiter) (now : ℕ)
    → ((proactive_global_wait r now).0.heap ≡ r.heap)
      × ((proactive_global_wait r now).0.global ≡ r.global)
unfolding proactive_global_wait reset_global_window
proactive-rest r now =
    let q : RateLimiter = reset_global_window r now in
    elim (Bool-cases
      (r.global_window_start == 0 || leb (window_length r) (now - r.global_window_start))) [
        | inl due ↦
            elim (Bool-cases
              (q.global_rate_limit == 0 || ltb q.global_requests q.global_rate_limit)) [
                | inl free ↦ rw (free, due) (refl, refl)
                | inr full ↦ rw (full, due) (refl, refl)
              ]
        | inr early ↦
            elim (Bool-cases
              (q.global_rate_limit == 0 || ltb q.global_requests q.global_rate_limit)) [
                | inl free ↦ rw (free, early) (refl, refl)
                | inr full ↦ rw (full, early) (refl, refl)
              ]
      ]

-- Three waits that are all over.
longest_zero : (a b c : ℕ) → a ≡ 0 → b ≡ 0 → c ≡ 0 → longer (longer a b) c ≡ 0
longest_zero a b c e f g = ground arith

pub longest_bounds :
    (a b c : ℕ)
    → (a ≤ longer (longer a b) c) × (b ≤ longer (longer a b) c) × (c ≤ longer (longer a b) c)
longest_bounds a b c = (ground arith, ground arith, ground arith)

route_cleared :
    (b : Bucket) (m : ℤ) (now later : ℕ)
    → now + route_wait b m now ≤ later
    → route_wait b m later ≡ 0
route_cleared b m now later l = elim (Bool-cases (ltb_ℤ b.remaining m)) [
  | inr enough ↦ rw enough refl
  | inl few ↦ let h = rw few at l in rw few (ground arith)
]

wait_cleared :
    (r : RateLimiter) (a now later : ℕ)
    → 0 < now
    → now + (get_wait_time r a (pos 1) now).1 ≤ later
    → (get_wait_time (get_wait_time r a (pos 1) now).0 a (pos 1) later).1 ≡ 0
unfolding get_wait_time
wait_cleared r a now later p l =
    let (heap, global) = proactive-rest r now in
    let looked : RateLimiter = (proactive_global_wait r now).0 in
    let bucket = ap (λ h. h a) heap in
    let (first, second, third) =
      longest_bounds (route_wait (r.heap a) (pos 1) now) (r.global - now)
        (proactive_global_wait r now).1 in
    longest_zero (route_wait (looked.heap a) (pos 1) later) (looked.global - later)
      (proactive_global_wait looked later).1
      (rw bucket (route_cleared (r.heap a) (pos 1) now later (omega arith)))
      (rw global (omega arith)) (proactive_cleared r now later p (omega arith))

first_round :
    (r : RateLimiter) (a now reserve_now : ℕ)
    → 0 < now
    → now ≤ reserve_now
    → (get_wait_time r a (pos 1) now).1 ≡ 0
    → (try_round r a now reserve_now).2 ≡ true
unfolding try_round get_wait_time
first_round r a now reserve_now p l h =
    let (first, second, third) =
      longest_bounds (route_wait (r.heap a) (pos 1) now) (r.global - now)
        (proactive_global_wait r now).1 in
    rw (h, get_wait_time) (proactive-reserved r now reserve_now p l (omega arith))

pub clash : (b : Bool) → b ≡ true → b ≡ false → ⊥
clash b e f = ground arith

pub zero_of : (n : ℕ) → (n == 0) ≡ true → n ≡ 0
zero_of n e = ground arith

second_round :
    (r : RateLimiter) (a now reserve_now later later_reserve : ℕ)
    → 0 < now
    → now ≤ reserve_now
    → now + (get_wait_time r a (pos 1) now).1 ≤ later
    → later ≤ later_reserve
    → (try_round r a now reserve_now).2 ≡ false
    → (try_round (try_round r a now reserve_now).0 a later later_reserve).2 ≡ true
unfolding try_round
second_round r a now reserve_now later later_reserve p l waited l2 refused =
    elim (Bool-cases ((get_wait_time r a (pos 1) now).1 == 0)) [
      | inl at_once ↦ absurd (
          clash (try_round r a now reserve_now).2
            (first_round r a now reserve_now p l
              (zero_of (get_wait_time r a (pos 1) now).1 at_once))
            refused)
      | inr waits ↦ rw waits (
          first_round (get_wait_time r a (pos 1) now).0 a later later_reserve
            (after now (get_wait_time r a (pos 1) now).1 later p waited) l2
            (wait_cleared r a now later p waited))
    ]
  where
    after : (n w m : ℕ) → 0 < n → n + w ≤ m → 0 < m
    after n w m h k = omega arith

lock_at_once :
    (e : Round) (es : List Round) (r : RateLimiter) (a : ℕ)
    → (try_round r a e.now e.reserve_now).2 ≡ true
    → (lock_bucket_object (e ∷ es) r a).1 ≡ locked a
unfolding lock_bucket_object
lock_at_once e es r a h = rw h refl

pub lock_again :
    (e : Round) (es : List Round) (r : RateLimiter) (a : ℕ)
    → (try_round r a e.now e.reserve_now).2 ≡ false
    → e.ctx_err ≡ none
    → lock_bucket_object (e ∷ es) r a
      ≡ lock_bucket_object es (e.others (try_round r a e.now e.reserve_now).0) a
unfolding lock_bucket_object
lock_again e es r a h q = rw (h, q) refl

-- A bucket is locked in the second round at the latest, when the context ends neither of the two, the
-- clock has moved past the wait of the first one, and no other goroutine acts between them.
pub lock_settles :
    (e f : Round) (es : List Round) (r : RateLimiter) (a : ℕ)
    → 0 < e.now
    → e.now ≤ e.reserve_now
    → e.ctx_err ≡ none
    → ((q : RateLimiter) → e.others q ≡ q)
    → e.now + (get_wait_time r a (pos 1) e.now).1 ≤ f.now
    → f.now ≤ f.reserve_now
    → (lock_bucket_object (e ∷ f ∷ es) r a).1 ≡ locked a
lock_settles e f es r a p l quiet alone waited l2 =
    let tried : RateLimiter = (try_round r a e.now e.reserve_now).0 in
    elim (Bool-cases (try_round r a e.now e.reserve_now).2) [
      | inl at_once ↦ lock_at_once e (f ∷ es) r a at_once
      | inr not_yet ↦
          ap (λ o. o.1) (lock_again e (f ∷ es) r a not_yet quiet)
          ∙ ap (λ q. (lock_bucket_object (f ∷ es) q a).1) (alone tried)
          ∙ lock_at_once f es tried a
              (second_round r a e.now e.reserve_now f.now f.reserve_now p l waited l2 not_yet)
    ]
