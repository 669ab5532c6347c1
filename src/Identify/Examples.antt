-- ===== src/Identify/Examples.antt =====
-- Runs of the coordinator.
use dgo.Prelude.{ℕ, ◌+◌, ◌≡◌, refl, true, List, [], ◌∷◌, none, arith, length, inl}
use dgo.Prelude.Int.{pos, pos_part, ◌≤ℤ◌, ◌-ℤ◌}
use dgo.Identify.{
  duration_milliseconds_ceil, millisecond, SessionInformation, Coordinator, Round, Op, attempts,
  refreshes, reads_status, new_coordinator, attempt, acquire, validate_session_start_limit,
}
use dgo.Identify.Gate.{step, run, Gated, run-Gated}
use dgo.Identify.Quota.{early_attempts, grants_account}
use dgo.Identify.Acquire.{Decided, acquire_settles}

abbrev limit : SessionInformation
limit = record {
  total = pos 1000;
  remaining = pos 2;
  reset_after = pos 60000;
  max_concurrency = pos 1;
}

abbrev fresh : Coordinator
fresh = record {
  total = pos 1000;
  remaining = pos 2;
  reset_window = 60000000000;
  reset_at = 60000000005;
  max_concurrency = 1;
  bucket_ready_at = λ b. 0;
}

-- Two shards of one bucket, a status read between, a refresh, and a late third attempt.
abbrev ops : List Op
ops =
    attempts 0 10
    ∷ reads_status 20
    ∷ attempts 1 30
    ∷ refreshes limit 40
    ∷ attempts 1 5000000010
    ∷ []

made : new_coordinator true limit 5 ≡ inl fresh
unfolding new_coordinator
made = refl

two_granted : length (run (record { coordinator = fresh; grants = [] }) ops).grants ≡ 2
unfolding run step attempt dgo.Identify.status dgo.Identify.refresh ◌-ℤ◌
two_granted = refl

run-Gated_example : Gated (run (record { coordinator = fresh; grants = [] }) ops).grants
run-Gated_example = run-Gated fresh ops (omega arith)

abbrev asked : List (ℕ × ℕ)
asked = (0, 10) ∷ (1, 30) ∷ (2, 5000000010) ∷ (3, 10000000010) ∷ []

grants_account_example :
    let t = run (record { coordinator = fresh; grants = [] }) (early_attempts asked) in
    (length t.grants + pos_part t.coordinator.remaining ≡ 2) × (pos 0 ≤ℤ t.coordinator.remaining)
grants_account_example = grants_account fresh asked (omega arith) (omega arith)

abbrev busy : Coordinator
busy = record fresh { bucket_ready_at = λ b. 5000000010 }

abbrev round_at : ℕ → Round
round_at t = record { ctx_err = none; now = t; others = λ k. k; wait_err = none }

acquire_settles_example :
    Decided (acquire true (pos 7) (round_at 20 ∷ round_at 5000000010 ∷ []) busy).1
unfolding attempt
acquire_settles_example =
    acquire_settles (round_at 20) (round_at 5000000010) [] 7 busy refl refl refl (λ k. refl)
      (λ d e. ground arith)
