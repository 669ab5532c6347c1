-- ===== src/RateLimit/Circuit/Recent.antt =====
-- Calls on the circuit breaker, and the recent ones among some times.
use dgo.Prelude.{
  ℕ, ◌+◌, ◌<◌, ◌≤◌, ◌≡◌, refl, sym, ap, true, false, ltb, leb, List, [], ◌∷◌, ◌++◌, arith, All,
  Bool-cases, inl, inr, if◌then◌else◌,
}
use dgo.Window.{Rising, prune}
use dgo.RateLimit.{RateLimiter}
use dgo.RateLimit.Circuit.{is_invalid, record_response, invalid_request_status}

-- A call on the breaker: a response to record, or a reading of the status. Each has its clock readings.
pub data Call : Type 0 where
  responds : ℕ → ℕ → ℕ → Call
  reads : ℕ → ℕ → Call

abbrev pub at : Call → ℕ
at (responds code now until) = now
at (reads now until) = now

abbrev pub Orderly : ℕ → List Call → Type 0
Orderly a [] = Unit {0}
Orderly a (c ∷ cs) = (a ≤ at c) × Orderly (at c) cs

abbrev pub latest : ℕ → List Call → ℕ
latest a [] = a
latest a (c ∷ cs) = latest (at c) cs

unfoldable pub step : RateLimiter → Call → RateLimiter
unfolding record_response invalid_request_status
step r (responds code now until) = (record_response r code now until).0
step r (reads now until) = (invalid_request_status r now until).0

unfoldable pub run : RateLimiter → List Call → RateLimiter
unfolding step
run r [] = r
run r (c ∷ cs) = run (step r c) cs

-- When the invalid responses came.
abbrev pub invalid_at : Call → List ℕ
invalid_at (responds code now until) = if is_invalid code then now ∷ [] else []
invalid_at (reads now until) = []

abbrev pub all_invalid : List Call → List ℕ
all_invalid [] = []
all_invalid (c ∷ cs) = invalid_at c ++ all_invalid cs

-- Those of the window that ends at `now`.
unfoldable pub recent : ℕ → ℕ → List ℕ → List ℕ
recent w now [] = []
recent w now (t ∷ ts) = let rest = recent w now ts in if ltb now (t + w) then t ∷ rest else rest

recent-all : (w now a : ℕ) (ts : List ℕ) → now < a + w → Rising a ts → recent w now ts ≡ ts
unfolding recent
recent-all w now a [] l h = refl
recent-all w now a (t ∷ ts) l h =
    let e = recent-all w now t ts (omega (arith, h.0)) h.1 in
    let fresh : ltb now (t + w) ≡ true = ground (arith, h.0) in rw fresh (ap (◌∷◌ t) e)

pub prune-recent : (w now a : ℕ) (ts : List ℕ) → Rising a ts → prune w now ts ≡ recent w now ts
unfolding recent prune
prune-recent w now a [] h = refl
prune-recent w now a (t ∷ ts) h = elim (Bool-cases (leb (t + w) now)) [
  | inl old ↦
      let stale : ltb now (t + w) ≡ false = ground arith in
      rw (old, stale) (prune-recent w now t ts h.1)
  | inr fresh ↦
      let young : ltb now (t + w) ≡ true = ground arith in
      rw (fresh, young) (ap (◌∷◌ t) (sym (recent-all w now t ts (ground arith) h.1)))
]

Rising-lower : (a b : ℕ) (ts : List ℕ) → a ≤ b → Rising b ts → Rising a ts
Rising-lower a b [] l h = tt
Rising-lower a b (t ∷ ts) l h = (omega (arith, h.0), h.1)

pub recent-Rising : (w now a : ℕ) (ts : List ℕ) → Rising a ts → Rising a (recent w now ts)
unfolding recent
recent-Rising w now a [] h = tt
recent-Rising w now a (t ∷ ts) h =
    let rest = recent-Rising w now t ts h.1 in
    elim (Bool-cases (ltb now (t + w))) [
      | inl fresh ↦ rw fresh (h.0, rest)
      | inr old ↦ rw old (Rising-lower a t (recent w now ts) h.0 rest)
    ]

pub recent-recent :
    (w last now : ℕ) (ts : List ℕ) → last ≤ now → recent w now (recent w last ts) ≡ recent w now ts
unfolding recent
recent-recent w last now [] l = refl
recent-recent w last now (t ∷ ts) l =
    let rest = recent-recent w last now ts l in
    elim (Bool-cases (ltb last (t + w))) [
      | inl fresh ↦ rw fresh (rw rest refl)
      | inr old ↦ let older : ltb now (t + w) ≡ false = ground arith in rw (old, older) rest
    ]

pub recent-append :
    (w now : ℕ) (ts us : List ℕ) → recent w now (ts ++ us) ≡ recent w now ts ++ recent w now us
unfolding recent
recent-append w now [] us = refl
recent-append w now (t ∷ ts) us = elim (Bool-cases (ltb now (t + w))) [
  | inl fresh ↦ rw fresh (ap (◌∷◌ t) (recent-append w now ts us))
  | inr old ↦ rw old (recent-append w now ts us)
]

pub Rising-snoc :
    (a now : ℕ) (ts : List ℕ)
    → a ≤ now
    → All (λ t. t ≤ now) ts
    → Rising a ts
    → Rising a (ts ++ now ∷ [])
Rising-snoc a now [] l all h = (l, tt)
Rising-snoc a now (t ∷ ts) l all h = (h.0, Rising-snoc t now ts all.0 all.1 h.1)
