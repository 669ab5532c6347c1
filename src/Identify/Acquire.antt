-- ===== src/Identify/Acquire.antt =====
-- How long `acquire` takes.
use dgo.Prelude.{ℕ, ◌+◌, ◌-◌, ◌<◌, ◌≤◌, ◌%◌, ◌≡◌, refl, true, false, List, ◌∷◌, none, arith}
use dgo.Prelude.Int.{pos, eqb_ℤ, ltb_ℤ}
use dgo.Identify.{
  Coordinator, Outcome, granted, exhausted, must_wait, reset_quota, grant_or_wait, attempt, acquire,
  acquire_loop, after_attempt, Round, Acquired, acquired, failed, quota_exhausted,
}

-- An attempt waits only as long as the gate of its bucket is shut.
attempt_waits :
    (c : Coordinator) (shard now d : ℕ)
    → (attempt c shard now).1 ≡ must_wait d
    → ((attempt c shard now).0 ≡ reset_quota c now)
      × (d ≡ c.bucket_ready_at (shard % c.max_concurrency) - now)
      × (now < c.bucket_ready_at (shard % c.max_concurrency))
      × (eqb_ℤ (reset_quota c now).remaining (pos 0) ≡ false)
unfolding attempt grant_or_wait reset_quota
attempt_waits c shard now d h = ground arith

-- What an attempt comes to once its gate is open.
abbrev Settled : Outcome → Type 0
Settled (granted b) = Unit
Settled (exhausted total retry) = Unit
Settled (must_wait d) = ⊥

attempt_open :
    (c : Coordinator) (shard now : ℕ)
    → c.bucket_ready_at (shard % c.max_concurrency) ≤ now
    → Settled (attempt c shard now).1
attempt_open c shard now h = go (attempt c shard now).1 refl
  where
    go : (o : Outcome) → (attempt c shard now).1 ≡ o → Settled o
    go (granted b) e = tt
    go (exhausted total retry) e = tt
    go (must_wait d) e =
        let (a, b, shut, left) = attempt_waits c shard now d e in absurd (omega arith)

-- The result of an acquisition that has come to an end by the quota's rules.
abbrev pub Decided : Acquired → Type 0
Decided acquired = Unit
Decided (failed (quota_exhausted total retry)) = Unit
Decided _ = ⊥

Decided-round :
    (r : Round) (again : Coordinator → Coordinator × Acquired) (c : Coordinator) (o : Outcome)
    → Settled o
    → Decided (after_attempt r again c o).1
unfolding after_attempt
Decided-round r again c (granted b) h = tt
Decided-round r again c (exhausted total retry) h = tt
Decided-round r again c (must_wait d) h = absurd h

open_round :
    (r : Round) (rounds : List Round) (shard : ℕ) (c : Coordinator)
    → r.ctx_err ≡ none
    → c.bucket_ready_at (shard % c.max_concurrency) ≤ r.now
    → Decided (acquire_loop (r ∷ rounds) shard c).1
unfolding acquire_loop
open_round r rounds shard c live h =
    rw (live, acquire_loop)
      (Decided-round r (acquire_loop rounds shard) (attempt c shard r.now).0
        (attempt c shard r.now).1 (attempt_open c shard r.now h))

reset_gate :
    (c : Coordinator) (now shard : ℕ)
    → (reset_quota c now).bucket_ready_at (shard % (reset_quota c now).max_concurrency)
      ≡ c.bucket_ready_at (shard % c.max_concurrency)
unfolding reset_quota
reset_gate c now shard = ground arith

waited_round :
    (r r' : Round) (rounds : List Round) (shard : ℕ) (c : Coordinator) (o : Outcome)
    → (attempt c shard r.now).1 ≡ o
    → r'.ctx_err ≡ none
    → r.wait_err ≡ none
    → ((k : Coordinator) → r.others k ≡ k)
    → ((d : ℕ) → (attempt c shard r.now).1 ≡ must_wait d → r.now + d ≤ r'.now)
    → Decided (after_attempt r (acquire_loop (r' ∷ rounds) shard) (attempt c shard r.now).0 o).1
unfolding after_attempt
waited_round r r' rounds shard c (granted b) e live calm alone h = tt
waited_round r r' rounds shard c (exhausted total retry) e live calm alone h = tt
waited_round r r' rounds shard c (must_wait d) e live calm alone h =
    let (same, delay, shut, _) = attempt_waits c shard r.now d e in
    let waited = h d e in
    let gate : c.bucket_ready_at (shard % c.max_concurrency) ≤ r'.now = omega arith in
    rw (calm, after_attempt)
      (rw (alone (attempt c shard r.now).0, same)
        (open_round r' rounds shard (reset_quota c r.now) live (rw reset_gate gate)))

-- Alone, with a live context, and with the next reading of the clock no earlier than the end of the wait that
-- the first attempt computes if it has to wait, an acquisition is decided in at most two rounds: it is
-- granted, or the quota is exhausted. It never waits twice.
pub acquire_settles :
    (r r' : Round) (rounds : List Round) (shard : ℕ) (c : Coordinator)
    → r.ctx_err ≡ none
    → r'.ctx_err ≡ none
    → r.wait_err ≡ none
    → ((k : Coordinator) → r.others k ≡ k)
    → ((d : ℕ) → (attempt c shard r.now).1 ≡ must_wait d → r.now + d ≤ r'.now)
    → Decided (acquire true (pos shard) (r ∷ r' ∷ rounds) c).1
unfolding acquire
acquire_settles r r' rounds shard c live live' calm alone h =
    let done = waited_round r r' rounds shard c (attempt c shard r.now).1 refl live' calm alone h in
    rw not_negative (rw (live, acquire_loop) done)
  where
    not_negative : ltb_ℤ (pos shard) (pos 0) ≡ false
    not_negative = ground arith
