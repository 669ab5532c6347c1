-- ===== src/RateLimit/Circuit/Trips.antt =====
-- What the circuit breaker counts.
use dgo.Prelude.{
  ℕ, ◌+◌, ◌<◌, ◌≤◌, ◌≡◌, ◌↔◌, ◌∙◌, refl, sym, ap, Bool, true, false, ◌&&◌, not, ltb, leb, List, [],
  ◌∷◌, ◌++◌, length, none, arith, All, All-append, All-mono, Bool-cases, inl, inr, if◌then◌else◌,
  ◌⊎◌, dec_lt,
}
use mathlib.Core.List.{append-nil, append_assoc}
use dgo.RateLimit.Circuit.Recent.{
  Call, responds, reads, at, Orderly, latest, step, run, invalid_at, all_invalid, recent,
  recent-recent, prune-recent, recent-Rising, recent-append, Rising-snoc,
}
use dgo.Window.{Rising, prune}
use dgo.RateLimit.{RateLimiter}
use dgo.RateLimit.Circuit.{
  invalid_window, prune_invalid_requests, status_locked, status_of, is_invalid, add_response,
  record_response, invalid_request_status, check_invalid_request_limit,
}

-- The limiter `r` after the responses `seen`, with clock readings up to `last`.
record Tracks (limit w last : ℕ) (r : RateLimiter) (seen : List ℕ) : Type 0 where
  setting : r.invalid_request_limit ≡ limit
  window_is : invalid_window r ≡ w
  kept : r.invalid_requests ≡ recent w last seen
  order : Rising 0 seen
  past : All (λ t. t ≤ last) seen

module _ (limit w : ℕ) (pos_w : 0 < w) where
  prune-kept :
      (last now : ℕ) (r : RateLimiter) (seen : List ℕ)
      → last ≤ now
      → Tracks limit w last r seen
      → prune (invalid_window r) now r.invalid_requests ≡ recent w now seen
  prune-kept last now r seen l v =
      rw (v.window_is, v.kept)
        (prune-recent w now 0 (recent w last seen) (recent-Rising w last 0 seen v.order)
          ∙ recent-recent w last now seen l)

  add-kept :
      (code now : ℕ) (seen : List ℕ)
      → (if is_invalid code then recent w now seen ++ now ∷ [] else recent w now seen)
        ≡ recent w now (seen ++ (if is_invalid code then now ∷ [] else []))
  unfolding recent
  add-kept code now seen =
      let fresh : ltb now (now + w) ≡ true = ground arith in
      elim (Bool-cases (is_invalid code)) [
        | inl bad ↦ rw bad (rw (recent-append w now seen (now ∷ []), fresh) refl)
        | inr good ↦
            rw good (rw (recent-append w now seen []) (sym (append-nil (recent w now seen))))
      ]

  status-requests :
      (r : RateLimiter) (until : ℕ) (b : Bool)
      → ((status_locked r until b).0.invalid_requests ≡ r.invalid_requests)
        × ((status_locked r until b).0.invalid_request_limit ≡ r.invalid_request_limit)
        × (invalid_window (status_locked r until b).0 ≡ invalid_window r)
  unfolding status_locked invalid_window
  status-requests r until b =
      elim (Bool-cases (b && (status_of r until).warning && not r.invalid_warned)) [
        | inl warn ↦ rw warn (refl, refl, refl)
        | inr quiet ↦ rw quiet (refl, refl, refl)
      ]

  next-Tracks :
      (last now : ℕ) (r : RateLimiter) (seen new : List ℕ)
      → last ≤ now
      → All (λ t. t ≡ now) new
      → Rising 0 (seen ++ new)
      → r.invalid_request_limit ≡ limit
      → invalid_window r ≡ w
      → r.invalid_requests ≡ recent w now (seen ++ new)
      → All (λ t. t ≤ last) seen
      → Tracks limit w now r (seen ++ new)
  next-Tracks last now r seen new l e o s i k p = record {
    setting = s;
    window_is = i;
    kept = k;
    order = o;
    past =
        All-append (λ t. t ≤ now) seen new
          (All-mono (λ t. t ≤ last) (λ t. t ≤ now) seen (λ t h. omega arith) p)
          (All-mono (λ t. t ≡ now) (λ t. t ≤ now) new (λ t h. omega arith) e);
  }

  invalid_at-Rising :
      (last : ℕ) (seen : List ℕ) (c : Call)
      → last ≤ at c
      → All (λ t. t ≤ last) seen
      → Rising 0 seen
      → All (λ t. t ≡ at c) (invalid_at c) × Rising 0 (seen ++ invalid_at c)
  invalid_at-Rising last seen (reads now until) l p o = (tt, rw (append-nil seen) o)
  invalid_at-Rising last seen (responds code now until) l p o =
      elim (Bool-cases (is_invalid code)) [
        | inl bad ↦ rw bad (
          (refl, tt),
          Rising-snoc 0 now seen (omega arith)
              (All-mono (λ t. t ≤ last) (λ t. t ≤ now) seen (λ t h. omega arith) p) o,
        )
        | inr good ↦ rw good (tt, rw (append-nil seen) o)
      ]

  step-Tracks :
      (last : ℕ) (r : RateLimiter) (seen : List ℕ) (c : Call)
      → last ≤ at c
      → Tracks limit w last r seen
      → Tracks limit w (at c) (step r c) (seen ++ invalid_at c)
  unfolding step record_response invalid_request_status prune_invalid_requests invalid_window
  step-Tracks last r seen (reads now until) l v =
      let (e, o) = invalid_at-Rising last seen (reads now until) l v.past v.order in
      next-Tracks last now (prune_invalid_requests r now) seen [] l e o v.setting v.window_is
        (prune-kept last now r seen l v ∙ ap (recent w now) (sym (append-nil seen))) v.past
  step-Tracks last r seen (responds code now until) l v =
      let (e, o) = invalid_at-Rising last seen (responds code now until) l v.past v.order in
      let pruned : RateLimiter = prune_invalid_requests r now in
      let added : RateLimiter = add_response pruned code now in
      let (same, limit_same, window_same) = status-requests added until true in
      next-Tracks last now (record_response r code now until).0 seen
        (invalid_at (responds code now until)) l e o (limit_same ∙ v.setting)
        (window_same ∙ v.window_is)
        (same ∙ rw (prune-kept last now r seen l v) refl ∙ add-kept code now seen) v.past

  run-Tracks :
      (last : ℕ) (r : RateLimiter) (seen : List ℕ) (cs : List Call)
      → Orderly last cs
      → Tracks limit w last r seen
      → Tracks limit w (latest last cs) (run r cs) (seen ++ all_invalid cs)
  unfolding run
  run-Tracks last r seen [] o v = rw (append-nil seen) v
  run-Tracks last r seen (c ∷ cs) o v =
      rw (← append_assoc seen (invalid_at c) (all_invalid cs)) (
        run-Tracks (at c) (step r c) (seen ++ invalid_at c) cs o.1
          (step-Tracks last r seen c o.0 v))

invalid_window_pos : (r : RateLimiter) → 0 < invalid_window r
unfolding invalid_window
invalid_window_pos r = ground arith

check-blocks :
    (q : RateLimiter) (now until : ℕ)
    → ((check_invalid_request_limit q now until).1 ≡ none) ↔ (
        (ltb 0 q.invalid_request_limit
          && leb q.invalid_request_limit (length (prune (invalid_window q) now q.invalid_requests)))
        ≡ false)
unfolding check_invalid_request_limit invalid_request_status status_locked prune_invalid_requests
check-blocks q now until =
    elim (Bool-cases (
      ltb 0 q.invalid_request_limit
      && leb q.invalid_request_limit (length (prune (invalid_window q) now q.invalid_requests)))) [
        | inl bad ↦ rw bad (λ h. absurd (ground arith), λ h. absurd (ground arith))
        | inr good ↦ rw good (λ h. refl, λ h. refl)
      ]

-- After any calls with a clock that does not go back, on a limiter that has recorded nothing, the check
-- finds no error exactly when the breaker is off or fewer 401, 403 and 429 responses than its limit
-- have come within the window that ends now.
pub breaker_trips :
    (r : RateLimiter) (calls : List Call) (now until : ℕ)
    → r.invalid_requests ≡ []
    → Orderly 0 calls
    → latest 0 calls ≤ now
    → ((check_invalid_request_limit (run r calls) now until).1 ≡ none) ↔ (
        (r.invalid_request_limit ≡ 0)
        ⊎ (length (recent (invalid_window r) now (all_invalid calls)) < r.invalid_request_limit))
breaker_trips r calls now until e o l =
    let w : ℕ = invalid_window r in
    let pos_w : 0 < w = invalid_window_pos r in
    let limit : ℕ = r.invalid_request_limit in
    let start : Tracks limit w 0 r [] = record {
      setting = refl;
      window_is = refl;
      kept = unfold recent in e;
      order = tt;
      past = tt;
    } in
    let v = run-Tracks limit w pos_w 0 r [] calls o start in
    let kept =
      prune-kept limit w pos_w (latest 0 calls) now (run r calls) (all_invalid calls) l v in
    let counted = ap length kept in
    let same = v.setting in
    let (there, back) = check-blocks (run r calls) now until in
    (
      λ h.
          let open_now = there h in
          elim (dec_lt 0 limit) [ yes on ↦ inr (ground arith) | no off ↦ inl (omega arith) ],
      λ h. elim h [ inl off ↦ back (ground arith) | inr few ↦ back (ground arith) ],
    )
