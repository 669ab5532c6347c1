-- ===== src/Identify/Validate.antt =====
-- Which limits are accepted, and what a coordinator made from one looks like.
use dgo.Prelude.{ℕ, ◌+◌, ◌*◌, ◌<◌, ◌≤◌, ◌≡◌, ◌↔◌, none, arith}
use dgo.Prelude.Int.{pos, ◌≤ℤ◌}
use dgo.Identify.{
  SessionInformation, validate_session_start_limit, duration_milliseconds_ceil, millisecond,
}

-- What `validateSessionStartLimit` is to check.
pub record IsUsable (limit : SessionInformation) : Type 0 where
  pub total_positive : pos 1 ≤ℤ limit.total
  pub remaining_nonneg : pos 0 ≤ℤ limit.remaining
  pub remaining_le : limit.remaining ≤ℤ limit.total
  pub reset_positive : pos 1 ≤ℤ limit.reset_after
  pub concurrency_positive : pos 1 ≤ℤ limit.max_concurrency

-- A limit is accepted exactly if its total, reset time and concurrency are positive and the remaining
-- starts lie between zero and the total.
pub validate-IsUsable :
    (limit : SessionInformation) → (validate_session_start_limit limit ≡ none) ↔ IsUsable limit
unfolding validate_session_start_limit
validate-IsUsable limit = (λ h. ground arith, λ h. ground arith)

-- Milliseconds are rounded up, to the least number that covers the duration.
pub duration_ceil_bounds :
    (d : ℕ)
    → (d ≤ duration_milliseconds_ceil d * millisecond)
      × (duration_milliseconds_ceil d * millisecond < d + millisecond)
unfolding duration_milliseconds_ceil
duration_ceil_bounds d = ground arith
