-- ===== src/RateLimit/Release.antt =====
-- What a response teaches a bucket: `Release`, `ResetAfter`, `headerIsTrue` and `ApplyGlobalLimit` of
-- ratelimit.go. The numbers and dates of the headers are given as the library's parsers read them, times
-- and durations in nanoseconds and not negative; the header of the scope and the global one are given in
-- lower case and trimmed.
pub mod Taught
pub mod Learnt
pub mod Deadline
mod Examples
use text.Mathlib.Text.{◌==◌ as str_eq}
use dgo.Prelude.{
  ℕ, ◌+◌, ◌-◌, ◌*◌, ◌^◌, String, Bool, true, false, List, [], ◌∷◌, Option, none, some, ltb, leb,
  ◌==◌, ◌&&◌, ◌||◌, not, if◌then◌else◌,
}
use dgo.Prelude.Int.{ℤ}
use dgo.RateLimit.{RateLimiter, Bucket, store, touch, register_bucket_hash}

-- A header that is not there, that does not parse, or that has a value.
pub data Field (A : Type 0) : Type 0 where
  absent malformed : Field A
  value : A → Field A

pub record Headers : Type 0 where
  pub remaining : Field ℤ
  pub limit : Field ℤ
  pub reset : Field ℕ
  pub date : Field ℕ
  pub reset_after : Field ℕ
  pub global : String
  pub bucket : String
  pub scope : String

-- The header whose parser failed.
pub data ReleaseError : Type 0 where
  bad_limit bad_reset_after bad_date bad_reset bad_remaining : ReleaseError

-- The readings of the clock on the way.
pub record Clock : Type 0 where
  pub used : ℕ
  pub reset : ℕ
  pub registered : ℕ

unfoldable pub reset_after : Bucket → ℕ → ℕ
reset_after b now = b.reset - now

abbrev pub header_is_true : String → Bool
header_is_true v = not (str_eq v "") && (not (str_eq v "0") && not (str_eq v "false"))

abbrev pub set_bucket : RateLimiter → ℕ → Bucket → RateLimiter
set_bucket r a b = record r { heap = store r.heap a b }

-- A step, unless an error came before it.
abbrev pub and_then :
    RateLimiter × Option ReleaseError
    → (RateLimiter → RateLimiter × Option ReleaseError)
    → RateLimiter × Option ReleaseError
and_then (r, some e) next = (r, some e)
and_then (r, none) next = next r

unfoldable pub learn_scope : RateLimiter → ℕ → String → RateLimiter
learn_scope r a scope =
    set_bucket r a
      (record (r.heap a) { scope = if str_eq scope "" then (r.heap a).scope else scope })

unfoldable pub learn_limit : RateLimiter → ℕ → Field ℤ → RateLimiter × Option ReleaseError
learn_limit r a absent = (r, none)
learn_limit r a malformed = (r, some bad_limit)
learn_limit r a (value n) = (set_bucket r a (record (r.heap a) { limit = n }), none)

-- The deadline of `X-RateLimit-Reset-After`, of this bucket or of all.
unfoldable pub learn_deadline : RateLimiter → ℕ → Bool → ℕ → RateLimiter
learn_deadline r a true deadline = record r { global = deadline }
learn_deadline r a false deadline = set_bucket r a (record (r.heap a) { reset = deadline })

-- `X-RateLimit-Reset` by the clock of the server, and a quarter of a second more.
unfoldable pub learn_date :
    RateLimiter → ℕ → Field ℕ → Field ℕ → ℕ → RateLimiter × Option ReleaseError
learn_date r a absent date now = (r, none)
learn_date r a malformed absent now = (r, some bad_date)
learn_date r a malformed malformed now = (r, some bad_date)
learn_date r a malformed (value d) now = (r, some bad_reset)
learn_date r a (value t) absent now = (r, some bad_date)
learn_date r a (value t) malformed now = (r, some bad_date)
learn_date r a (value t) (value d) now =
    (set_bucket r a (record (r.heap a) { reset = now + t + 250 * 10 ^ 6 - d }), none)

unfoldable pub is_global : Headers → Bool
is_global h = header_is_true h.global || str_eq h.scope "global"

unfoldable pub learn_reset :
    RateLimiter → ℕ → Headers → Field ℕ → ℕ → RateLimiter × Option ReleaseError
unfolding learn_deadline learn_date
learn_reset r a h absent now = learn_date r a h.reset h.date now
learn_reset r a h malformed now = (r, some bad_reset_after)
learn_reset r a h (value d) now = (learn_deadline r a (is_global h) (now + d), none)

unfoldable pub learn_remaining : RateLimiter → ℕ → Field ℤ → RateLimiter × Option ReleaseError
learn_remaining r a absent = (r, none)
learn_remaining r a malformed = (r, some bad_remaining)
learn_remaining r a (value n) = (set_bucket r a (record (r.heap a) { remaining = n }), none)

-- The canonical bucket takes over what the released one has learnt.
unfoldable pub share : RateLimiter → ℕ → ℕ → ℕ → RateLimiter
share r a canonical used =
    if canonical == a
    then r
    else set_bucket r canonical (record (r.heap canonical) {
      scope = (r.heap a).scope;
      limit = (r.heap a).limit;
      remaining = (r.heap a).remaining;
      reset = (r.heap a).reset;
      last_used = used;
    })

unfoldable pub learn_bucket : RateLimiter → ℕ → String → Clock → RateLimiter
unfolding share
learn_bucket r a hash clock =
    if not (str_eq hash "") && (r.heap a).has_limiter
    then (let found = register_bucket_hash r a hash clock.registered in
        share found.0 a found.1 clock.used)
    else r

-- The headers of the bucket itself.
unfoldable pub learn : RateLimiter → ℕ → Headers → Clock → RateLimiter × Option ReleaseError
unfolding learn_scope learn_limit learn_reset learn_remaining touch
learn r a h clock =
    and_then
      (and_then (learn_limit (learn_scope (touch r a clock.used) a h.scope) a h.limit)
        (λ q. learn_reset q a h h.reset_after clock.reset))
      (λ q. learn_remaining q a h.remaining)

unfoldable pub release :
    RateLimiter → ℕ → Option Headers → Clock → RateLimiter × Option ReleaseError
unfolding learn learn_bucket touch
release r a none clock = (touch r a clock.used, none)
release r a (some h) clock =
    and_then (learn r a h clock) (λ q. (learn_bucket q a h.bucket clock, none))

-- The loop of `ApplyGlobalLimit`. Each function is what other goroutines do to the deadline between a
-- load and the exchange, which fails if the deadline has changed.
unfoldable pub apply_loop : List (ℕ → ℕ) → ℕ → ℕ → ℕ
apply_loop [] global deadline = if leb deadline global then global else deadline
apply_loop (others ∷ rest) global deadline =
    let again = apply_loop rest (others global) deadline in
    if leb deadline global then global else if others global == global then deadline else again

-- A duration of zero stands for all that are not positive.
unfoldable pub apply_global_limit : List (ℕ → ℕ) → RateLimiter → ℕ → ℕ → RateLimiter
unfolding apply_loop
apply_global_limit rounds r retry_after now =
    if retry_after == 0
    then r
    else record r { global = apply_loop rounds r.global (now + retry_after) }
