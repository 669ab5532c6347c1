-- ===== src/RateLimit/Lock/Grant.antt =====
-- What a locked bucket has been granted.
use dgo.Prelude.{
  ℕ, ◌-◌, ◌<◌, ◌≤◌, ◌≡◌, refl, ap, sym, subst, ◌∙◌, String, true, false, List, [], ◌∷◌, none, leb,
  ◌==◌, ◌||◌, ◌⊎◌, inl, inr, arith, Bool-cases, Option-cases,
}
use dgo.Prelude.Int.{pos, ltb_ℤ, ◌-ℤ◌, ◌≤ℤ◌}
use dgo.RateLimit.{RateLimiter, Bucket}
use dgo.RateLimit.Budget.{
  window_length, reset_global_window, proactive_global_wait, reserve_global_request,
}
use dgo.RateLimit.Lock.{
  Round, locked, cancelled, waiting, route_wait, get_wait_time, try_round, lock_bucket_object, pay,
}
use dgo.RateLimit.Lock.Settle.{longest_bounds, proactive-rest, clash, zero_of, lock_again}

-- No limit held in the round `e` for the bucket `a` of `r`, which has paid in `final`.
pub record Permit (e : Round) (r : RateLimiter) (a : ℕ) (final : RateLimiter) : Type 0 where
  pub route : (pos 1 ≤ℤ (r.heap a).remaining) ⊎ ((r.heap a).reset ≤ e.now)
  pub global_over : r.global ≤ e.now
  pub budget :
      (final.global_rate_limit ≡ 0)
      ⊎ ((0 < final.global_requests) × (final.global_requests ≤ final.global_rate_limit))
  pub paid : (final.heap a).remaining ≡ (r.heap a).remaining -ℤ pos 1

-- The rounds up to the one that is granted, the timer having ended the others.
pub data Granted (a : ℕ) (final : RateLimiter) : List Round → RateLimiter → Type 0 where
  now_granted :
      (e : Round) (es : List Round) (r : RateLimiter)
      → Permit e r a final
      → Granted a final (e ∷ es) r
  later_granted :
      (e : Round) (es : List Round) (r : RateLimiter)
      → e.ctx_err ≡ none
      → Granted a final es (e.others (try_round r a e.now e.reserve_now).0)
      → Granted a final (e ∷ es) r

reserved_budget :
    (r : RateLimiter) (now : ℕ)
    → (reserve_global_request r now).2 ≡ true
    → let q = (reserve_global_request r now).0 in
      (q.global_rate_limit ≡ 0)
      ⊎ ((0 < q.global_requests) × (q.global_requests ≤ q.global_rate_limit))
unfolding reserve_global_request reset_global_window
reserved_budget r now h =
    let q : RateLimiter = reset_global_window r now in
    elim (Bool-cases (q.global_rate_limit == 0)) [
      | inl off ↦ rw (off) (inl (ground arith))
      | inr on ↦ elim (Bool-cases (leb q.global_rate_limit q.global_requests)) [
        | inl full ↦ absurd (let g = rw (on, full) at h in ground arith)
        | inr room ↦ rw (on, room) (inr (omega arith, ground arith))
      ]
    ]

route_free :
    (b : Bucket) (now : ℕ) → route_wait b (pos 1) now ≡ 0 → (pos 1 ≤ℤ b.remaining) ⊎ (b.reset ≤ now)
route_free b now h = elim (Bool-cases (ltb_ℤ b.remaining (pos 1))) [
  | inr enough ↦ inl (ground arith)
  | inl few ↦ let g = rw few at h in inr (ground arith)
]

heap-reset : (r : RateLimiter) (now : ℕ) → (reset_global_window r now).heap ≡ r.heap
unfolding reset_global_window
heap-reset r now =
    elim (Bool-cases
      (r.global_window_start == 0 || leb (window_length r) (now - r.global_window_start))) [
        | inl due ↦ rw due refl
        | inr early ↦ rw early refl
      ]

heap-reserve : (r : RateLimiter) (now : ℕ) → (reserve_global_request r now).0.heap ≡ r.heap
unfolding reserve_global_request
heap-reserve r now =
    let q : RateLimiter = reset_global_window r now in
    elim (Bool-cases (q.global_rate_limit == 0)) [
      | inl off ↦ rw off (heap-reset r now)
      | inr on ↦ elim (Bool-cases (leb q.global_rate_limit q.global_requests)) [
        | inl full ↦ rw (on, full) (heap-reset r now)
        | inr room ↦ rw (on, room) (heap-reset r now)
      ]
    ]

paid_once :
    (q r : RateLimiter) (a used : ℕ)
    → q.heap ≡ r.heap
    → ((pay q a used).heap a).remaining ≡ (r.heap a).remaining -ℤ pos 1
paid_once q r a used e = let same : (a == a) ≡ true = ground arith in rw (same, e) refl

try_round-Permit :
    (e : Round) (r : RateLimiter) (a : ℕ)
    → (try_round r a e.now e.reserve_now).2 ≡ true
    → Permit e r a (pay (try_round r a e.now e.reserve_now).0 a e.used_now)
unfolding try_round get_wait_time
try_round-Permit e r a h =
    let looked : RateLimiter = (proactive_global_wait r e.now).0 in
    let wait : ℕ = (get_wait_time r a (pos 1) e.now).1 in
    let (first, second, third) =
      longest_bounds (route_wait (r.heap a) (pos 1) e.now) (r.global - e.now)
        (proactive_global_wait r e.now).1 in
    elim (Bool-cases (wait == 0)) [
      | inr waits ↦ absurd (clash false (rw waits at h) refl)
      | inl over ↦
          let none_left = zero_of wait over in
          let reserved = rw over at h in
          rw over (record {
            route = route_free (r.heap a) e.now (omega arith);
            global_over = omega arith;
            budget = reserved_budget looked e.reserve_now reserved;
            paid =
                paid_once (reserve_global_request looked e.reserve_now).0 r a e.used_now
                  (heap-reserve looked e.reserve_now ∙ (proactive-rest r e.now).0);
          })
    ]

-- A bucket is locked only in a round in which, by the clock of the round, its requests are not used up
-- or have been reset, no global deadline lies ahead, and the global budget, when it is on, counts the
-- request within its limit; the bucket has then paid for one request, and in all earlier rounds it was
-- the timer that ended the wait.
pub lock-Granted :
    (es : List Round) (r : RateLimiter) (a b : ℕ)
    → (lock_bucket_object es r a).1 ≡ locked b
    → Granted a (lock_bucket_object es r a).0 es r
unfolding lock_bucket_object
lock-Granted [] r a b h = absurd (waits_not h)
  where
    waits_not : waiting ≡ locked b → ⊥
    waits_not e = ground arith
lock-Granted (e ∷ es) r a b h = elim (Bool-cases (try_round r a e.now e.reserve_now).2) [
  | inl granted ↦ rw granted (now_granted e es r (try_round-Permit e r a granted))
  | inr refused ↦ elim (Option-cases e.ctx_err) [
    | inr (err, ended) ↦ absurd (cancelled_not err (rw (refused, ended) at h))
    | inl timer ↦
        let q : RateLimiter = e.others (try_round r a e.now e.reserve_now).0 in
        let again = lock_again e es r a refused timer in
        subst (λ o. Granted a o.0 (e ∷ es) r) (sym again)
          (later_granted e es r timer (lock-Granted es q a b (ap (λ o. o.1) (sym again) ∙ h)))
  ]
]
  where
    cancelled_not : (err : String) → cancelled err ≡ locked b → ⊥
    cancelled_not err e = ground arith
