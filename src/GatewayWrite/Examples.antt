-- ===== src/GatewayWrite/Examples.antt =====
-- Runs of the writer.
use dgo.Prelude.{ℕ, ◌+◌, ◌≡◌, refl, true, List, [], ◌∷◌, map, replicate, Option, none, some, arith}
use dgo.GatewayWrite.{
  Round, Request, Writer, QueueError, context_error, write_error, run, write, wait_for_slot,
}
use dgo.GatewayWrite.Rate.{Spaced, run-Spaced}
use dgo.GatewayWrite.Replies.{answered-run}

-- 120 writes at time 5, and a request one second later that has to wait.
abbrev full : List ℕ
full = replicate 120 5

abbrev asked : Round
asked = record { now = 1000000005; waited = none }

abbrev woken : Round
woken = record { now = 60000000005; waited = none }

abbrev at_time : ℕ → ℕ → Option QueueError → Request
at_time id t e = record {
  id = id;
  ctx_err = none;
  rounds = record { now = t; waited = none } ∷ [];
  write_err = e;
  sent_now = t + 1;
}

abbrev script : List Request
script = at_time 1 10 none ∷ at_time 2 20 (some (write_error 7)) ∷ at_time 3 30 none ∷ []

abbrev final : Writer
final = record {
  sent_at = 11 ∷ 31 ∷ [];
  results = (1, none) ∷ (2, some (write_error 7)) ∷ (3, none) ∷ (4, some (context_error 0)) ∷ [];
  log = 11 ∷ 31 ∷ [];
}

run-script : run true script (4 ∷ []) (context_error 0) ≡ some final
unfolding run wait_for_slot write dgo.Window.prune
run-script = refl

run-Spaced_example : Spaced (11 ∷ 31 ∷ [])
run-Spaced_example = run-Spaced script (4 ∷ []) (context_error 0) final (omega arith) run-script

answered-run_example : map (λ r. r.0) final.results ≡ 1 ∷ 2 ∷ 3 ∷ 4 ∷ []
answered-run_example = answered-run true script (4 ∷ []) (context_error 0) final run-script

abbrev live : Option QueueError
live = none
