-- ===== src/Identify.antt =====
-- The Identify coordinator of sharding.go: the session-start quota and the five-second gate of each
-- concurrency bucket. Each critical section of its mutex is one step; times are nanoseconds, and a
-- bucket that the map does not hold is ready at time 0.
pub mod Gate
pub mod Quota
pub mod Acquire
pub mod Validate
mod Examples
use dgo.Prelude.{
  ℕ, zero, suc, ◌+◌, ◌-◌, ◌*◌, ◌/◌, ◌%◌, ◌^◌, Bool, true, false, List, [], ◌∷◌, Option, none, some,
  ltb, leb, ◌==◌, ◌||◌, ◌⊎◌, inl, inr, if◌then◌else◌,
}
use dgo.Prelude.Int.{ℤ, pos, negsuc, pos_part, ◌-ℤ◌, ltb_ℤ, leb_ℤ, eqb_ℤ}

-- identifyConcurrencyWindow, 5 * time.Second
abbrev pub concurrency_window : ℕ
concurrency_window = 5 * 10 ^ 9

abbrev pub millisecond : ℕ
millisecond = 10 ^ 6

-- SessionInformation of structs.go.
pub record SessionInformation : Type 0 where
  pub total : ℤ
  pub remaining : ℤ
  pub reset_after : ℤ
  pub max_concurrency : ℤ

pub data LimitError : Type 0 where
  nil_clock bad_total bad_remaining bad_reset_after bad_max_concurrency : LimitError

unfoldable pub validate_session_start_limit : SessionInformation → Option LimitError
validate_session_start_limit limit =
    if leb_ℤ limit.total (pos 0)
    then some bad_total
    else if ltb_ℤ limit.remaining (pos 0) || ltb_ℤ limit.total limit.remaining
    then some bad_remaining
    else if leb_ℤ limit.reset_after (pos 0)
    then some bad_reset_after
    else if leb_ℤ limit.max_concurrency (pos 0)
    then some bad_max_concurrency
    else none

pub record Coordinator : Type 0 where
  pub total : ℤ
  pub remaining : ℤ
  pub reset_window : ℕ
  pub reset_at : ℕ
  pub max_concurrency : ℕ
  pub bucket_ready_at : ℕ → ℕ

-- The positive fields of a validated limit.
abbrev pub reset_duration : SessionInformation → ℕ
reset_duration limit = pos_part limit.reset_after * millisecond

unfoldable pub new_coordinator : Bool → SessionInformation → ℕ → Coordinator ⊎ LimitError
unfolding validate_session_start_limit
new_coordinator has_clock limit now =
    if has_clock
    then (elim (validate_session_start_limit limit) [
      | some e ↦ inr e
      | none ↦ inl (record {
        total = limit.total;
        remaining = limit.remaining;
        reset_window = reset_duration limit;
        reset_at = now + reset_duration limit;
        max_concurrency = pos_part limit.max_concurrency;
        bucket_ready_at = λ b. 0;
      })
    ])
    else inr nil_clock

unfoldable pub reset_quota : Coordinator → ℕ → Coordinator
reset_quota c now =
    if ltb now c.reset_at
    then c
    else record c { remaining = c.total; reset_at = now + c.reset_window }

pub data Outcome : Type 0 where
  granted : ℕ → Outcome
  exhausted : ℤ → ℕ → Outcome
  must_wait : ℕ → Outcome

abbrev pub update : (ℕ → ℕ) → ℕ → ℕ → ℕ → ℕ
update f k v j = if j == k then v else f j

-- The part of `Acquire` under the mutex, after the reset of the quota.
grant_or_wait : Coordinator → ℕ → ℕ → Coordinator × Outcome
grant_or_wait c shard now =
    let bucket = shard % c.max_concurrency in
    let ready_at = c.bucket_ready_at bucket in
    if ltb now ready_at then (c, must_wait (ready_at - now)) else (
      record c {
        remaining = c.remaining -ℤ pos 1;
        bucket_ready_at = update c.bucket_ready_at bucket (now + concurrency_window);
      },
      granted bucket,
    )

-- A negative `retryAfter` becomes 0, as `-` stops there.
unfoldable pub attempt : Coordinator → ℕ → ℕ → Coordinator × Outcome
unfolding reset_quota grant_or_wait
attempt c shard now =
    let c' = reset_quota c now in
    if eqb_ℤ c'.remaining (pos 0)
    then (c', exhausted c'.total (c'.reset_at - now))
    else grant_or_wait c' shard now

pub data AcquireError : Type 0 where
  nil_context invalid_shard_id : AcquireError
  context_error : ℕ → AcquireError
  quota_exhausted : ℤ → ℕ → AcquireError

-- One round of `Acquire`: the context's error, the clock, what the other holders of the mutex do
-- while it waits, and the error of the wait.
pub record Round : Type 0 where
  pub ctx_err : Option ℕ
  pub now : ℕ
  pub others : Coordinator → Coordinator
  pub wait_err : Option ℕ

pub data Acquired : Type 0 where
  acquired : Acquired
  failed : AcquireError → Acquired
  waiting : Acquired

after_attempt :
    Round → (Coordinator → Coordinator × Acquired) → Coordinator → Outcome → Coordinator × Acquired
after_attempt r again c (granted b) = (c, acquired)
after_attempt r again c (exhausted total retry) = (c, failed (quota_exhausted total retry))
after_attempt r again c (must_wait d) = elim r.wait_err [
  | some e ↦ (r.others c, failed (context_error e))
  | none ↦ again (r.others c)
]

-- `waiting` is no result: the rounds ran out.
unfoldable pub acquire_loop : List Round → ℕ → Coordinator → Coordinator × Acquired
unfolding after_attempt attempt
acquire_loop [] shard c = (c, waiting)
acquire_loop (r ∷ rounds) shard c = elim r.ctx_err [
  | some e ↦ (c, failed (context_error e))
  | none ↦
      let (c', outcome) = attempt c shard r.now in
      after_attempt r (acquire_loop rounds shard) c' outcome
]

unfoldable pub acquire : Bool → ℤ → List Round → Coordinator → Coordinator × Acquired
unfolding acquire_loop
acquire has_context shard_id rounds c =
    if has_context
    then (if ltb_ℤ shard_id (pos 0)
        then (c, failed invalid_shard_id)
        else acquire_loop rounds (pos_part shard_id) c)
    else (c, failed nil_context)

unfoldable pub refresh : Coordinator → SessionInformation → ℕ → Coordinator × Option LimitError
unfolding validate_session_start_limit
refresh c limit now = elim (validate_session_start_limit limit) [
  | some e ↦ (c, some e)
  | none ↦ (
    record {
      total = limit.total;
      remaining = limit.remaining;
      reset_window = reset_duration limit;
      reset_at = now + reset_duration limit;
      max_concurrency = pos_part limit.max_concurrency;
      bucket_ready_at =
          if c.max_concurrency == pos_part limit.max_concurrency then c.bucket_ready_at else λ b. 0;
    },
    none,
  )
]

pub record Status : Type 0 where
  pub total : ℤ
  pub remaining : ℤ
  pub reset_after : ℕ
  pub reset_at : ℕ
  pub max_concurrency : ℕ

unfoldable pub status : Coordinator → ℕ → Coordinator × Status
unfolding reset_quota
status c now =
    let c' = reset_quota c now in
    (
      c',
      record {
        total = c'.total;
        remaining = c'.remaining;
        reset_after = c'.reset_at - now;
        reset_at = c'.reset_at;
        max_concurrency = c'.max_concurrency;
      },
    )

unfoldable pub duration_milliseconds_ceil : ℕ → ℕ
duration_milliseconds_ceil duration =
    if duration == 0
    then 0
    else if duration % millisecond == 0
    then duration / millisecond
    else duration / millisecond + 1

unfoldable pub session_start_limit : Coordinator → ℕ → Coordinator × SessionInformation
unfolding status duration_milliseconds_ceil
session_start_limit c now =
    let (c', s) = status c now in
    (
      c',
      record {
        total = s.total;
        remaining = s.remaining;
        reset_after = pos (duration_milliseconds_ceil s.reset_after);
        max_concurrency = pos s.max_concurrency;
      },
    )

-- One critical section.
pub data Op : Type 0 where
  attempts : ℕ → ℕ → Op
  refreshes : SessionInformation → ℕ → Op
  reads_status : ℕ → Op
