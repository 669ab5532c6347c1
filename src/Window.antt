-- ===== src/Window.antt =====
-- Times kept in a slice, oldest first, from which the expired ones are cut: the loop that
-- `waitForSlot` of gateway_write.go and `pruneInvalidRequestsLocked` of ratelimit.go share.
-- Times are nanoseconds as numbers; `!t.After(now.Add(-window))` is `t + window ≤ now`.
use dgo.Prelude.{
  ℕ, ◌+◌, ◌<◌, ◌≤◌, ◌≡◌, refl, ap, List, [], ◌∷◌, ◌++◌, arith, length, leb, if◌then◌else◌, All,
  Bool-cases, inl, inr,
}

unfoldable pub prune : ℕ → ℕ → List ℕ → List ℕ
prune window now [] = []
prune window now (t ∷ ts) = if leb (t + window) now then prune window now ts else t ∷ ts

-- What `prune` cuts off, and that it is expired.
pub record Pruned (window now : ℕ) (times kept : List ℕ) : Type 0 where
  pub cut : List ℕ
  pub split : times ≡ cut ++ kept
  pub expired : All (λ t. t + window ≤ now) cut

pub prune-Pruned :
    (window now : ℕ) (times : List ℕ) → Pruned window now times (prune window now times)
unfolding prune
prune-Pruned window now [] = record { cut = []; split = refl; expired = tt }
prune-Pruned window now (t ∷ ts) = elim (Bool-cases (leb (t + window) now)) [
  | inl old ↦
      let rest = prune-Pruned window now ts in
      rw old (record {
        cut = t ∷ rest.cut;
        split = ap (◌∷◌ t) rest.split;
        expired = (ground arith, rest.expired);
      })
  | inr fresh ↦ rw fresh (record { cut = []; split = refl; expired = tt })
]

pub length-prune :
    (window now : ℕ) (times : List ℕ) → length (prune window now times) ≤ length times
unfolding prune
length-prune window now [] = omega arith
length-prune window now (t ∷ ts) = ground (arith, length-prune window now ts)

-- The first time that is kept has not expired.
pub prune_head :
    (window now : ℕ) (times : List ℕ) (t : ℕ) (ts : List ℕ)
    → prune window now times ≡ t ∷ ts
    → now < t + window
unfolding prune
prune_head window now [] t ts h = absurd (ground arith)
prune_head window now (x ∷ xs) t ts h = ground (arith, prune_head window now xs t ts)

-- One that has expired at the head is cut.
pub length-prune_head :
    (window now t : ℕ) (ts : List ℕ)
    → t + window ≤ now
    → length (prune window now (t ∷ ts)) ≤ length ts
unfolding prune
length-prune_head window now t ts h = ground (arith, length-prune window now ts)

-- Nondecreasing clock readings that start from `a`.
abbrev pub Rising : ℕ → List ℕ → Type 0
Rising a [] = Unit {0}
Rising a (b ∷ bs) = (a ≤ b) × Rising b bs

abbrev pub latest : ℕ → List ℕ → ℕ
latest a [] = a
latest a (b ∷ bs) = latest b bs

pub Rising-append_left : (a : ℕ) (xs ys : List ℕ) → Rising a (xs ++ ys) → Rising a xs
Rising-append_left a [] ys h = tt
Rising-append_left a (x ∷ xs) ys h = (h.0, Rising-append_left x xs ys h.1)

pub Rising-append_right : (a : ℕ) (xs ys : List ℕ) → Rising a (xs ++ ys) → Rising (latest a xs) ys
Rising-append_right a [] ys h = h
Rising-append_right a (x ∷ xs) ys h = Rising-append_right x xs ys h.1

pub le-latest : (a : ℕ) (xs : List ℕ) → Rising a xs → a ≤ latest a xs
le-latest a [] h = omega arith
le-latest a (x ∷ xs) h = omega (arith, le-latest x xs h.1)
