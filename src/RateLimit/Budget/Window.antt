-- ===== src/RateLimit/Budget/Window.antt =====
-- How many requests the global budget grants in a window.
use dgo.Prelude.{
  ℕ, ◌+◌, ◌*◌, ◌-◌, ◌<◌, ◌≤◌, ◌≡◌, refl, Bool, true, false, leb, ltb, ◌==◌, ◌&&◌, ◌||◌, List, [],
  ◌∷◌, arith, Bool-cases, inl, inr, if◌then◌else◌, suc, ◌⊎◌,
}
use dgo.RateLimit.{RateLimiter}
use dgo.RateLimit.Budget.{
  window_length, reset_global_window, proactive_global_wait, reserve_global_request,
}

-- A call of the budget, at a reading of the clock.
pub data Call : Type 0 where
  reserves : ℕ → Call
  looks : ℕ → Call

abbrev pub at : Call → ℕ
at (reserves t) = t
at (looks t) = t

abbrev pub Orderly : ℕ → List Call → Type 0
Orderly a [] = Unit {0}
Orderly a (c ∷ cs) = (a ≤ at c) × Orderly (at c) cs

-- The limiter and the times at which it granted a request, the newest first.
pub record Trace : Type 0 where
  pub limiter : RateLimiter
  pub grants : List ℕ

unfoldable pub step : Trace → Call → Trace
unfolding reserve_global_request proactive_global_wait
step t (reserves now) =
    let r = reserve_global_request t.limiter now in
    record { limiter = r.0; grants = if r.2 then now ∷ t.grants else t.grants }
step t (looks now) = record t { limiter = (proactive_global_wait t.limiter now).0 }

unfoldable pub run : Trace → List Call → Trace
unfolding step
run t [] = t
run t (c ∷ cs) = run (step t c) cs

unfoldable pub count : (ℕ → Bool) → List ℕ → ℕ
count p [] = 0
count p (t ∷ ts) = (if p t then 1 else 0) + count p ts

-- Within the window of length `w` that starts at `t`.
abbrev pub within : ℕ → ℕ → ℕ → Bool
within t w g = leb t g && ltb g (t + w)

count_two :
    (p q s : ℕ → Bool) (ts : List ℕ)
    → ((g : ℕ) → p g ≡ true → (q g || s g) ≡ true)
    → count p ts ≤ count q ts + count s ts
unfolding count
count_two p q s [] h = omega arith
count_two p q s (t ∷ ts) h =
    let rest = count_two p q s ts h in let c = h t in ground (arith, rest, c)

count_mono :
    (p q : ℕ → Bool) (ts : List ℕ) → ((g : ℕ) → p g ≡ true → q g ≡ true) → count p ts ≤ count q ts
unfolding count
count_mono p q [] h = omega arith
count_mono p q (t ∷ ts) h = ground (arith, count_mono p q ts h, h t)

-- The limiter `r` has granted the requests `grants`, with clock readings up to `last`.
record Kept (limit w last : ℕ) (r : RateLimiter) (grants : List ℕ) : Type 0 where
  setting : r.global_rate_limit ≡ limit
  length_is : window_length r ≡ w
  started : r.global_window_start ≤ last
  none_after :
      count (λ g. r.global_window_start == 0 || leb (r.global_window_start + w) g) grants ≡ 0
  current : count (leb r.global_window_start) grants ≤ r.global_requests
  few : r.global_requests ≤ limit
  before :
      count (λ g. ltb g r.global_window_start && ltb r.global_window_start (g + w)) grants ≤ limit
  any : (t : ℕ) → count (within t w) grants ≤ 2 * limit

-- The window that `now` falls into is the current one.
record Open (w now : ℕ) (r : RateLimiter) : Type 0 where
  begun : 0 < r.global_window_start
  reached : r.global_window_start ≤ now
  running : now < r.global_window_start + w

module _ (limit w : ℕ) (pos_w : 0 < w) where
  new_window :
      (last now : ℕ) (r : RateLimiter) (grants : List ℕ)
      → 0 < now
      → (r.global_window_start == 0 || leb w (now - r.global_window_start)) ≡ true
      → Kept limit w last r grants
      → Kept limit w now (record r { global_window_start = now; global_requests = 0 }) grants
  unfolding window_length
  new_window last now r grants p due v =
      let s : ℕ = r.global_window_start in
      let late = count_mono (leb now) (λ g. s == 0 || leb (s + w) g) grants (λ g h. ground arith) in
      record {
        setting = v.setting;
        length_is = v.length_is;
        started = omega arith;
        none_after =
            (let c =
                count_mono (λ g. now == 0 || leb (now + w) g) (λ g. s == 0 || leb (s + w) g) grants
                  (λ g h. ground arith) in
              let e = v.none_after in omega arith);
        current = (let e = v.none_after in omega arith);
        few = omega arith;
        before =
            (let c =
                count_mono (λ g. ltb g now && ltb now (g + w)) (leb s) grants
                  (λ g h. ground arith) in
              let e = v.current in let f = v.few in omega arith);
        any = v.any;
      }

  reset-Kept :
      (last now : ℕ) (r : RateLimiter) (grants : List ℕ)
      → 0 < now
      → last ≤ now
      → Kept limit w last r grants
      → Kept limit w now (reset_global_window r now) grants × Open w now (reset_global_window r now)
  unfolding reset_global_window
  reset-Kept last now r grants p l v =
      let same = v.length_is in
      let begun = v.started in
      elim (Bool-cases (r.global_window_start == 0 || leb w (now - r.global_window_start))) [
        | inl due ↦
            rw (same, due)
              (
                new_window last now r grants p due v,
                record { begun = p; reached = omega arith; running = omega arith },
              )
        | inr same_window ↦
            rw (same, same_window)
              (
                record {
                  setting = v.setting;
                  length_is = v.length_is;
                  started = omega arith;
                  none_after = v.none_after;
                  current = v.current;
                  few = v.few;
                  before = v.before;
                  any = v.any;
                },
                record { begun = ground arith; reached = omega arith; running = ground arith },
              )
      ]

  grant-Kept :
      (now : ℕ) (r : RateLimiter) (grants : List ℕ)
      → Open w now r
      → r.global_requests < limit
      → Kept limit w now r grants
      → Kept limit w now (record r { global_requests = suc r.global_requests }) (now ∷ grants)
  unfolding count window_length
  grant-Kept now r grants o room v =
      let s : ℕ = r.global_window_start in
      record {
        setting = v.setting;
        length_is = v.length_is;
        started = v.started;
        none_after = (let e = v.none_after in ground (arith, o.begun, o.running));
        current = (let e = v.current in ground arith);
        few = omega arith;
        before = (let e = v.before in ground (arith, o.reached));
        any = λ t. more t (Bool-cases (within t w now));
      }
    where
      more :
          (t : ℕ)
          → (within t w now ≡ true) ⊎ (within t w now ≡ false)
          → (if within t w now then 1 else 0) + count (within t w) grants ≤ 2 * limit
      more t (inr outside) = rw outside (let e = v.any t in omega arith)
      more t (inl inside) =
          let s : ℕ = r.global_window_start in
          let c =
            count_two (within t w) (leb s) (λ g. ltb g s && ltb s (g + w)) grants
              (λ g h. ground (arith, o.reached)) in
          let e = v.current in let f = v.before in rw inside (omega arith)

  step-Kept :
      (last : ℕ) (t : Trace) (c : Call)
      → 0 < at c
      → 0 < limit
      → last ≤ at c
      → Kept limit w last t.limiter t.grants
      → Kept limit w (at c) (step t c).limiter (step t c).grants
  unfolding step reserve_global_request proactive_global_wait
  step-Kept last t (looks now) p q l v =
      let r : RateLimiter = reset_global_window t.limiter now in
      let (kept, o) = reset-Kept last now t.limiter t.grants p l v in
      elim (Bool-cases (r.global_rate_limit == 0 || ltb r.global_requests r.global_rate_limit)) [
        | inl free ↦ rw free kept
        | inr full ↦ rw full kept
      ]
  step-Kept last t (reserves now) p q l v =
      let r : RateLimiter = reset_global_window t.limiter now in
      let (kept, o) = reset-Kept last now t.limiter t.grants p l v in
      let e = kept.setting in
      let on : (r.global_rate_limit == 0) ≡ false = ground arith in
      elim (Bool-cases (leb r.global_rate_limit r.global_requests)) [
        | inl full ↦ rw (on, full) kept
        | inr room ↦ rw (on, room) (grant-Kept now r t.grants o (ground arith) kept)
      ]

  run-Kept :
      (last : ℕ) (t : Trace) (cs : List Call)
      → 0 < last
      → 0 < limit
      → Orderly last cs
      → Kept limit w last t.limiter t.grants
      → (s : ℕ) → count (within s w) (run t cs).grants ≤ 2 * limit
  unfolding run
  run-Kept last t [] p q o v s = v.any s
  run-Kept last t (c ∷ cs) p q o v s =
      run-Kept (at c) (step t c) cs (omega (arith, o.0)) q o.1
        (step-Kept last t c (omega (arith, o.0)) q o.0 v) s

-- Whatever calls a limiter gets that has not counted yet, in any interval of the length of the global
-- window it grants at most twice the global limit, when the clock never goes back and the limit is
-- positive.
pub budget_rate :
    (r : RateLimiter) (start : ℕ) (calls : List Call) (t : ℕ)
    → r.global_window_start ≡ 0
    → r.global_requests ≡ 0
    → 0 < start
    → 0 < r.global_rate_limit
    → Orderly start calls
    → count (within t (window_length r)) (run (record { limiter = r; grants = [] }) calls).grants
      ≤ 2 * r.global_rate_limit
unfolding window_length count
budget_rate r start calls t e f p q o =
    run-Kept r.global_rate_limit (window_length r) (ground arith) start
      (record { limiter = r; grants = [] }) calls p q o
      (record {
        setting = refl;
        length_is = refl;
        started = omega arith;
        none_after = refl;
        current = omega arith;
        few = omega arith;
        before = omega arith;
        any = λ s. omega arith;
      })
      t
