-- ===== src/RateLimit/Circuit/Warning.antt =====
-- When the circuit breaker warns.
use dgo.Prelude.{
  ℕ, ◌≤◌, ◌≡◌, refl, Bool, true, false, ◌&&◌, not, ltb, List, [], ◌∷◌, length, arith, All,
  Bool-cases, inl, inr,
}
use dgo.Window.{prune}
use dgo.RateLimit.{RateLimiter}
use dgo.RateLimit.Circuit.{
  InvalidRequestStatus, warning_threshold, invalid_window, prune_invalid_requests, status_locked,
  status_of, add_response, record_response, invalid_request_status,
}
use dgo.RateLimit.Circuit.Recent.{Call, responds, reads, at, step}

abbrev pub status_at : RateLimiter → Call → InvalidRequestStatus
status_at r (responds code now until) = (record_response r code now until).1
status_at r (reads now until) = (invalid_request_status r now until).1

-- No call finds fewer than the threshold of recent requests before it adds its own.
abbrev pub Busy : RateLimiter → List Call → Type 0
Busy r [] = Unit {0}
Busy r (c ∷ cs) =
    (warning_threshold r ≤ length (prune (invalid_window r) (at c) r.invalid_requests))
    × Busy (step r c) cs

abbrev pub statuses : RateLimiter → List Call → List InvalidRequestStatus
statuses r [] = []
statuses r (c ∷ cs) = status_at r c ∷ statuses (step r c) cs

locked_quiet :
    (r : RateLimiter) (until : ℕ) (update : Bool)
    → r.invalid_warned ≡ true
    → ((status_locked r until update).0.invalid_warned ≡ true)
      × ((status_locked r until update).1.warning_triggered ≡ false)
unfolding status_locked
locked_quiet r until update w =
    let never : (update && (status_of r until).warning && not r.invalid_warned) ≡ false =
      ground arith in
    rw never (w, refl)

locked_triggered :
    (r : RateLimiter) (until : ℕ) (update : Bool)
    → (status_locked r until update).1.warning_triggered ≡ true
    → (status_locked r until update).0.invalid_warned ≡ true
unfolding status_locked
locked_triggered r until update h =
    elim (Bool-cases (update && (status_of r until).warning && not r.invalid_warned)) [
      | inl warns ↦ rw warns refl
      | inr silent ↦ absurd (let g = rw silent at h in ground arith)
    ]

prune_warned :
    (r : RateLimiter) (now : ℕ)
    → r.invalid_warned ≡ true
    → warning_threshold r ≤ length (prune (invalid_window r) now r.invalid_requests)
    → (prune_invalid_requests r now).invalid_warned ≡ true
unfolding prune_invalid_requests
prune_warned r now w l =
    let many : ltb (length (prune (invalid_window r) now r.invalid_requests)) (warning_threshold r)
        ≡ false =
      ground arith in
    rw many w

quiet_step :
    (r : RateLimiter) (c : Call)
    → r.invalid_warned ≡ true
    → warning_threshold r ≤ length (prune (invalid_window r) (at c) r.invalid_requests)
    → ((step r c).invalid_warned ≡ true) × ((status_at r c).warning_triggered ≡ false)
unfolding step record_response invalid_request_status
quiet_step r (responds code now until) w l =
    locked_quiet (add_response (prune_invalid_requests r now) code now) until true
      (prune_warned r now w l)
quiet_step r (reads now until) w l =
    locked_quiet (prune_invalid_requests r now) until false (prune_warned r now w l)

triggered_step :
    (r : RateLimiter) (c : Call)
    → (status_at r c).warning_triggered ≡ true
    → (step r c).invalid_warned ≡ true
unfolding step record_response invalid_request_status
triggered_step r (responds code now until) h =
    locked_triggered (add_response (prune_invalid_requests r now) code now) until true h
triggered_step r (reads now until) h = locked_triggered (prune_invalid_requests r now) until false h

quiet :
    (r : RateLimiter) (cs : List Call)
    → r.invalid_warned ≡ true
    → Busy r cs
    → All (λ s. s.warning_triggered ≡ false) (statuses r cs)
quiet r [] w b = tt
quiet r (c ∷ cs) w b =
    let (still, not_again) = quiet_step r c w b.0 in (not_again, quiet (step r c) cs still b.1)

-- The breaker warns once. After a call that triggered the warning, no later call triggers it for as
-- long as every one of them finds at least the warning threshold of recent invalid requests.
pub warns_once :
    (r : RateLimiter) (c : Call) (cs : List Call)
    → (status_at r c).warning_triggered ≡ true
    → Busy (step r c) cs
    → All (λ s. s.warning_triggered ≡ false) (statuses (step r c) cs)
warns_once r c cs h b = quiet (step r c) cs (triggered_step r c h) b
