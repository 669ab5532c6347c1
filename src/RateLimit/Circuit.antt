-- ===== src/RateLimit/Circuit.antt =====
-- The invalid-request circuit breaker of ratelimit.go: `RecordResponse`, `InvalidRequestStatus`,
-- `CheckInvalidRequestLimit` and the functions that these call. `time.Until` reads the clock again:
-- that reading is the argument `until`.
pub mod Recent
mod Trips
mod Warning
mod Examples
use dgo.Prelude.{
  ℕ, zero, suc, ◌+◌, ◌-◌, ◌*◌, Bool, true, false, List, [], ◌∷◌, ◌++◌, Option, none, some, length,
  ltb, leb, ◌==◌, ◌&&◌, ◌||◌, not, if◌then◌else◌,
}
use dgo.Window.{prune}
use dgo.RateLimit.{RateLimiter, second}

pub record InvalidRequestStatus : Type 0 where
  pub count : ℕ
  pub limit : ℕ
  pub warning_threshold : ℕ
  pub window : ℕ
  pub reset_after : ℕ
  pub warning : Bool
  pub warning_triggered : Bool
  pub blocked : Bool

pub record InvalidRequestLimitError : Type 0 where
  pub count : ℕ
  pub limit : ℕ
  pub reset_after : ℕ

unfoldable pub warning_threshold : RateLimiter → ℕ
warning_threshold r =
    if r.invalid_request_limit == 0
    then 0
    else if r.invalid_request_warning_threshold == 0
        || ltb r.invalid_request_limit r.invalid_request_warning_threshold
    then r.invalid_request_limit
    else r.invalid_request_warning_threshold

unfoldable pub invalid_window : RateLimiter → ℕ
invalid_window r =
    if r.invalid_request_window == 0 then 10 * 60 * second else r.invalid_request_window

unfoldable pub prune_invalid_requests : RateLimiter → ℕ → RateLimiter
unfolding warning_threshold invalid_window prune
prune_invalid_requests r now =
    let kept = prune (invalid_window r) now r.invalid_requests in
    record r {
      invalid_requests = kept;
      invalid_warned = if ltb (length kept) (warning_threshold r) then false else r.invalid_warned;
    }

abbrev pub until_reset : List ℕ → ℕ → ℕ → ℕ
until_reset [] window until = 0
until_reset (t ∷ ts) window until = (t + window) - until

abbrev pub status_of : RateLimiter → ℕ → InvalidRequestStatus
status_of r until =
    let count = length r.invalid_requests in
    let threshold = warning_threshold r in
    record {
      count = count;
      limit = r.invalid_request_limit;
      warning_threshold = threshold;
      window = invalid_window r;
      reset_after = until_reset r.invalid_requests (invalid_window r) until;
      warning = ltb 0 threshold && leb threshold count;
      warning_triggered = false;
      blocked = ltb 0 r.invalid_request_limit && leb r.invalid_request_limit count;
    }

-- `invalidRequestStatusLocked`
unfoldable pub status_locked : RateLimiter → ℕ → Bool → RateLimiter × InvalidRequestStatus
unfolding warning_threshold invalid_window
status_locked r until update_warning =
    let status = status_of r until in
    if update_warning && status.warning && not r.invalid_warned
    then (record r { invalid_warned = true }, record status { warning_triggered = true })
    else (r, status)

abbrev pub is_invalid : ℕ → Bool
is_invalid code = code == 401 || code == 403 || code == 429

abbrev pub add_response : RateLimiter → ℕ → ℕ → RateLimiter
add_response r code now = record r {
  invalid_requests = if is_invalid code then r.invalid_requests ++ now ∷ [] else r.invalid_requests;
}

unfoldable pub record_response : RateLimiter → ℕ → ℕ → ℕ → RateLimiter × InvalidRequestStatus
unfolding prune_invalid_requests status_locked
record_response r code now until =
    status_locked (add_response (prune_invalid_requests r now) code now) until true

unfoldable pub invalid_request_status : RateLimiter → ℕ → ℕ → RateLimiter × InvalidRequestStatus
unfolding prune_invalid_requests status_locked
invalid_request_status r now until = status_locked (prune_invalid_requests r now) until false

unfoldable pub check_invalid_request_limit :
    RateLimiter → ℕ → ℕ → RateLimiter × Option InvalidRequestLimitError
unfolding invalid_request_status
check_invalid_request_limit r0 now until =
    let (r, status) = invalid_request_status r0 now until in
    if not status.blocked then (r, none) else (
      r,
      some
          (record { count = status.count; limit = status.limit; reset_after = status.reset_after }),
    )
