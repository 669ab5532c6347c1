-- ===== src/Identify/Quota.antt =====
-- The session-start quota.
use dgo.Prelude.{
  ℕ, ◌+◌, ◌<◌, ◌%◌, ◌≡◌, refl, ◌∙◌, Bool, true, false, List, [], ◌∷◌, map, arith, length, All, ltb,
  inl, inr, Bool-cases, Option-cases,
}
use dgo.Prelude.Int.{pos, pos_part, ◌≤ℤ◌, ◌-ℤ◌, eqb_ℤ}
use dgo.Identify.{
  SessionInformation, Coordinator, Outcome, granted, exhausted, must_wait, reset_quota,
  grant_or_wait, attempt, refresh, status, new_coordinator, validate_session_start_limit, Op,
  attempts, refreshes, reads_status,
}
use dgo.Identify.Gate.{Grant, Trace, step, run, note_outcome}
use dgo.Identify.Validate.{validate-IsUsable}

-- The remaining starts lie between zero and a positive total, and there is a bucket.
pub record IsWithin (c : Coordinator) : Type 0 where
  pub total_positive : pos 1 ≤ℤ c.total
  pub nonneg : pos 0 ≤ℤ c.remaining
  pub le_total : c.remaining ≤ℤ c.total
  pub some_bucket : 0 < c.max_concurrency

reset_quota-IsWithin : (c : Coordinator) (now : ℕ) → IsWithin c → IsWithin (reset_quota c now)
unfolding reset_quota
reset_quota-IsWithin c now v = ground arith

attempt-IsWithin : (c : Coordinator) (shard now : ℕ) → IsWithin c → IsWithin (attempt c shard now).0
unfolding attempt
attempt-IsWithin c shard now v =
    let v' = reset_quota-IsWithin c now v in
    let c' : Coordinator = reset_quota c now in
    elim (Bool-cases (eqb_ℤ c'.remaining (pos 0))) [
      | inl spent ↦ rw spent v'
      | inr left ↦ rw left (spend c' shard now v' left)
    ]
  where
    spend :
        (k : Coordinator) (s n : ℕ)
        → IsWithin k
        → eqb_ℤ k.remaining (pos 0) ≡ false
        → IsWithin (grant_or_wait k s n).0
    spend k s n w e = unfold grant_or_wait ◌-ℤ◌ in ground arith

refresh-IsWithin :
    (c : Coordinator) (limit : SessionInformation) (now : ℕ)
    → IsWithin c
    → IsWithin (refresh c limit now).0
unfolding refresh
refresh-IsWithin c limit now v = elim (Option-cases (validate_session_start_limit limit)) [
  | inl fine ↦ let u = (validate-IsUsable limit).0 fine in rw (fine, refresh) (ground arith)
  | inr (x, bad) ↦ rw (bad, refresh) v
]

note_outcome-coordinator :
    (now : ℕ) (gs : List Grant) (r : Coordinator × Outcome)
    → (note_outcome now gs r).coordinator ≡ r.0
unfolding note_outcome
note_outcome-coordinator now gs (c, granted b) = refl
note_outcome-coordinator now gs (c, exhausted total retry) = refl
note_outcome-coordinator now gs (c, must_wait d) = refl

step-IsWithin : (op : Op) (t : Trace) → IsWithin t.coordinator → IsWithin (step t op).coordinator
unfolding step
step-IsWithin (attempts shard now) t v =
    rw note_outcome-coordinator (attempt-IsWithin t.coordinator shard now v)
step-IsWithin (refreshes limit now) t v = refresh-IsWithin t.coordinator limit now v
step-IsWithin (reads_status now) t v = unfold status in reset_quota-IsWithin t.coordinator now v

run-IsWithin :
    (ops : List Op) (t : Trace) → IsWithin t.coordinator → IsWithin (run t ops).coordinator
unfolding run
run-IsWithin [] t v = v
run-IsWithin (op ∷ ops) t v = run-IsWithin ops (step t op) (step-IsWithin op t v)

new-IsWithin :
    (has_clock : Bool) (limit : SessionInformation) (now : ℕ) (c : Coordinator)
    → new_coordinator has_clock limit now ≡ inl c
    → IsWithin c
unfolding new_coordinator
new-IsWithin false limit now c h = absurd (ground arith)
new-IsWithin true limit now c h = elim (Option-cases (validate_session_start_limit limit)) [
  | inl fine ↦
      let u = (validate-IsUsable limit).0 fine in
      let made = rw (fine, new_coordinator) at h in ground arith
  | inr (x, bad) ↦ absurd (cc (rw (bad, new_coordinator) at h))
]

-- From any coordinator that the constructor returns, no sequence of attempts, refreshes and status
-- reads leaves the remaining starts below zero or above the total, and the modulus of the buckets
-- stays positive.
pub run-new-IsWithin :
    (has_clock : Bool) (limit : SessionInformation) (now : ℕ) (c : Coordinator) (ops : List Op)
    → new_coordinator has_clock limit now ≡ inl c
    → IsWithin (run (record { coordinator = c; grants = [] }) ops).coordinator
run-new-IsWithin has_clock limit now c ops h =
    run-IsWithin ops _ (new-IsWithin has_clock limit now c h)

-- Attempts that all come before the reset.
abbrev pub early_attempts : List (ℕ × ℕ) → List Op
early_attempts = map (λ a. attempts a.0 a.1)

-- One attempt before the reset: it is granted and takes one start, or nothing changes.
pub record Paid (c : Coordinator) (t t' : Trace) : Type 0 where
  pub same_reset : t'.coordinator.reset_at ≡ c.reset_at
  pub account :
      length t'.grants + pos_part t'.coordinator.remaining ≡ length t.grants + pos_part c.remaining
  pub nonneg : pos 0 ≤ℤ t'.coordinator.remaining

reset_quota_early : (c : Coordinator) (now : ℕ) → now < c.reset_at → reset_quota c now ≡ c
unfolding reset_quota
reset_quota_early c now h = ground arith

grant_or_wait-Paid :
    (c : Coordinator) (gs : List Grant) (shard now : ℕ)
    → pos 0 ≤ℤ c.remaining
    → eqb_ℤ c.remaining (pos 0) ≡ false
    → Paid c
        (record { coordinator = c; grants = gs })
        (note_outcome now gs (grant_or_wait c shard now))
unfolding grant_or_wait note_outcome ◌-ℤ◌
grant_or_wait-Paid c gs shard now h left =
    elim (Bool-cases (ltb now (c.bucket_ready_at (shard % c.max_concurrency)))) [
      | inl shut ↦ rw shut (record { same_reset = refl; account = refl; nonneg = h })
      | inr open_gate ↦
          rw open_gate (record { same_reset = refl; account = ground arith; nonneg = ground arith })
    ]

attempt-Paid :
    (c : Coordinator) (gs : List Grant) (shard now : ℕ)
    → pos 0 ≤ℤ c.remaining
    → now < c.reset_at
    → Paid c (record { coordinator = c; grants = gs }) (note_outcome now gs (attempt c shard now))
unfolding attempt
attempt-Paid c gs shard now h early =
    rw (reset_quota_early c now early) (elim (Bool-cases (eqb_ℤ c.remaining (pos 0))) [
      | inl spent ↦
          rw spent (unfold note_outcome in record { same_reset = refl; account = refl; nonneg = h })
      | inr left ↦ rw left (grant_or_wait-Paid c gs shard now h left)
    ])

run-Paid :
    (asked : List (ℕ × ℕ)) (t : Trace)
    → pos 0 ≤ℤ t.coordinator.remaining
    → All (λ a. a.1 < t.coordinator.reset_at) asked
    → Paid t.coordinator t (run t (early_attempts asked))
unfolding run step
run-Paid [] t h early = record { same_reset = refl; account = refl; nonneg = h }
run-Paid ((shard, now) ∷ asked) t h early =
    let once = attempt-Paid t.coordinator t.grants shard now h early.0 in
    let later =
      run-Paid asked (step t (attempts shard now)) once.nonneg (rw once.same_reset early.1) in
    record {
      same_reset = later.same_reset ∙ once.same_reset;
      account = later.account ∙ once.account;
      nonneg = later.nonneg;
    }

-- Before the quota resets, each grant takes exactly one start and nothing else does: what was granted
-- and what remains add up to what there was, so that no more is granted than the quota allows.
pub grants_account :
    (c : Coordinator) (asked : List (ℕ × ℕ))
    → pos 0 ≤ℤ c.remaining
    → All (λ a. a.1 < c.reset_at) asked
    → let t = run (record { coordinator = c; grants = [] }) (early_attempts asked) in
      (length t.grants + pos_part t.coordinator.remaining ≡ pos_part c.remaining)
      × (pos 0 ≤ℤ t.coordinator.remaining)
grants_account c asked h early =
    let paid = run-Paid asked (record { coordinator = c; grants = [] }) h early in
    (paid.account ∙ zero_add (pos_part c.remaining), paid.nonneg)
  where
    zero_add : (n : ℕ) → 0 + n ≡ n
    zero_add n = omega arith
