-- ===== src/Identify/Gate.antt =====
-- The gate of each concurrency bucket, over any interleaving of critical sections.
use dgo.Prelude.{
  ℕ, ◌+◌, ◌≤◌, ◌%◌, ◌≡◌, refl, true, List, [], ◌∷◌, arith, All, All-mono, Bool-cases, Option-cases,
  ap, ◌∙◌, inl, inr, ltb, ◌==◌,
}
use dgo.Prelude.Int.{pos, pos_part, eqb_ℤ}
use dgo.Identify.{
  concurrency_window, SessionInformation, Coordinator, Outcome, granted, exhausted, must_wait,
  reset_quota, grant_or_wait, attempt, refresh, status, validate_session_start_limit, update, Op,
  attempts, refreshes, reads_status,
}

-- A fresh Identify that was let through: its bucket and its time.
pub record Grant : Type 0 where
  pub bucket : ℕ
  pub time : ℕ

pub record Trace : Type 0 where
  pub coordinator : Coordinator
  pub grants : List Grant

unfoldable pub note_outcome : ℕ → List Grant → Coordinator × Outcome → Trace
note_outcome now gs (c, granted b) = record {
  coordinator = c;
  grants = record { bucket = b; time = now } ∷ gs;
}
note_outcome now gs (c, exhausted total retry) = record { coordinator = c; grants = gs }
note_outcome now gs (c, must_wait d) = record { coordinator = c; grants = gs }

unfoldable pub step : Trace → Op → Trace
unfolding note_outcome
step t (attempts shard now) = note_outcome now t.grants (attempt t.coordinator shard now)
step t (refreshes limit now) = record t { coordinator = (refresh t.coordinator limit now).0 }
step t (reads_status now) = record t { coordinator = (status t.coordinator now).0 }

unfoldable pub run : Trace → List Op → Trace
run t [] = t
run t (op ∷ ops) = run (step t op) ops

-- Each grant comes five seconds or more after every earlier grant of its bucket (newest first).
abbrev pub Gated : List Grant → Type 0
Gated [] = Unit {0}
Gated (g ∷ gs) = All (λ h. h.bucket ≡ g.bucket → h.time + concurrency_window ≤ g.time) gs × Gated gs

-- The map holds the end of the last grant's five seconds.
pub record Inv (m : ℕ) (t : Trace) : Type 0 where
  pub concurrency : t.coordinator.max_concurrency ≡ m
  pub closed :
      All (λ g. g.time + concurrency_window ≤ t.coordinator.bucket_ready_at g.bucket) t.grants
  pub gated : Gated t.grants

reset_quota-gates :
    (c : Coordinator) (now : ℕ)
    → ((reset_quota c now).bucket_ready_at ≡ c.bucket_ready_at)
      × ((reset_quota c now).max_concurrency ≡ c.max_concurrency)
unfolding reset_quota
reset_quota-gates c now = ground arith

-- A gate may only move on.
closed_after :
    (gs : List Grant) (f : ℕ → ℕ) (b now : ℕ)
    → f b ≤ now
    → All (λ g. g.time + concurrency_window ≤ f g.bucket) gs
    → All (λ g. g.time + concurrency_window ≤ update f b (now + concurrency_window) g.bucket) gs
closed_after gs f b now open_now closed = All-mono _ _ gs (λ g h. moved g.bucket g.time h) closed
  where
    moved :
        (k t : ℕ)
        → t + concurrency_window ≤ f k
        → t + concurrency_window ≤ update f b (now + concurrency_window) k
    moved k t h = ground arith

old_grants :
    (gs : List Grant) (f : ℕ → ℕ) (b now : ℕ)
    → f b ≤ now
    → All (λ g. g.time + concurrency_window ≤ f g.bucket) gs
    → All (λ g. g.bucket ≡ b → g.time + concurrency_window ≤ now) gs
old_grants gs f b now open_now closed = All-mono _ _ gs (λ g h. same g.bucket g.time h) closed
  where
    same : (k t : ℕ) → t + concurrency_window ≤ f k → k ≡ b → t + concurrency_window ≤ now
    same k t h e = let e' : f k ≡ f b = ap f e in omega arith

grant_or_wait-Inv :
    (m shard now : ℕ) (c : Coordinator) (gs : List Grant)
    → Inv m (record { coordinator = c; grants = gs })
    → Inv m (note_outcome now gs (grant_or_wait c shard now))
unfolding grant_or_wait note_outcome
grant_or_wait-Inv m shard now c gs v =
    let b : ℕ = shard % c.max_concurrency in
    elim (Bool-cases (ltb now (c.bucket_ready_at b))) [
      | inl shut ↦
          rw (shut) (record { concurrency = v.concurrency; closed = v.closed; gated = v.gated })
      | inr open_gate ↦
          let open_now : c.bucket_ready_at b ≤ now = ground arith in
          rw open_gate (record {
            concurrency = v.concurrency;
            closed = (
              updated_self c.bucket_ready_at b (now + concurrency_window),
              closed_after gs c.bucket_ready_at b now open_now v.closed,
            );
            gated = (old_grants gs c.bucket_ready_at b now open_now v.closed, v.gated);
          })
    ]
  where
    updated_self : (f : ℕ → ℕ) (k x : ℕ) → x ≤ update f k x k
    updated_self f k x = ground arith

attempt-Inv :
    (m shard now : ℕ) (c : Coordinator) (gs : List Grant)
    → Inv m (record { coordinator = c; grants = gs })
    → Inv m (note_outcome now gs (attempt c shard now))
unfolding attempt
attempt-Inv m shard now c gs v =
    let (gates, conc) = reset_quota-gates c now in
    let c' : Coordinator = reset_quota c now in
    let v' : Inv m (record { coordinator = c'; grants = gs }) = record {
      concurrency = conc ∙ v.concurrency;
      closed = rw gates v.closed;
      gated = v.gated;
    } in
    elim (Bool-cases (eqb_ℤ c'.remaining (pos 0))) [
      | inl spent ↦ rw spent (unfold note_outcome in v')
      | inr left ↦ rw left (grant_or_wait-Inv m shard now c' gs v')
    ]

-- A refresh that keeps `max_concurrency`; the other steps do anyway.
abbrev pub KeepsConcurrency : ℕ → Op → Type 0
KeepsConcurrency m (attempts shard now) = Unit {0}
KeepsConcurrency m (refreshes limit now) = pos_part limit.max_concurrency ≡ m
KeepsConcurrency m (reads_status now) = Unit {0}

refresh-gates :
    (m : ℕ) (c : Coordinator) (limit : SessionInformation) (now : ℕ)
    → c.max_concurrency ≡ m
    → pos_part limit.max_concurrency ≡ m
    → ((refresh c limit now).0.bucket_ready_at ≡ c.bucket_ready_at)
      × ((refresh c limit now).0.max_concurrency ≡ m)
unfolding refresh
refresh-gates m c limit now e k = elim (Option-cases (validate_session_start_limit limit)) [
  | inl fine ↦
      let same : (c.max_concurrency == pos_part limit.max_concurrency) ≡ true = ground arith in
      rw (fine, refresh) (rw same (refl, k))
  | inr (x, bad) ↦ rw (bad, refresh) (refl, e)
]

step-Inv : (m : ℕ) (op : Op) (t : Trace) → KeepsConcurrency m op → Inv m t → Inv m (step t op)
unfolding step
step-Inv m (attempts shard now) t k v = attempt-Inv m shard now t.coordinator t.grants v
step-Inv m (refreshes limit now) t k v =
    let (gates, conc) = refresh-gates m t.coordinator limit now v.concurrency k in
    record { concurrency = conc; closed = rw gates v.closed; gated = v.gated }
step-Inv m (reads_status now) t k v =
    let (gates, conc) = reset_quota-gates t.coordinator now in
    unfold status in
    record { concurrency = conc ∙ v.concurrency; closed = rw gates v.closed; gated = v.gated }

run-Inv :
    (m : ℕ) (ops : List Op) (t : Trace) → All (KeepsConcurrency m) ops → Inv m t → Inv m (run t ops)
unfolding run
run-Inv m [] t k v = v
run-Inv m (op ∷ ops) t k v = run-Inv m ops (step t op) k.1 (step-Inv m op t k.0 v)

-- From any coordinator, however the shards' attempts, status reads and refreshes that keep
-- `max_concurrency` interleave: two grants of one bucket lie five seconds or more apart.
pub run-Gated :
    (c : Coordinator) (ops : List Op)
    → All (KeepsConcurrency c.max_concurrency) ops
    → Gated (run (record { coordinator = c; grants = [] }) ops).grants
run-Gated c ops k =
    (run-Inv c.max_concurrency ops _ k
      (record { concurrency = refl; closed = tt; gated = tt })).gated
