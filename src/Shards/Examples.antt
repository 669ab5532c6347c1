-- ===== src/Shards/Examples.antt =====
-- A `Close` that comes while an `Open` is at work, and a second `Close` that waits for it.
use dgo.Prelude.{◌<◌, ◌≡◌, refl, [], ◌∷◌, List, none, some, All}
use dgo.Shards.{
  Move, calls_open, calls_close, open_moves, close_moves, waiter_moves, run, fresh_system, opened,
  context_canceled, already_open,
}
use dgo.Shards.Exclusive.{Exclusive, run-Exclusive}
use dgo.Shards.Released.{open_stretches, close_stretches, waiters_released}

abbrev moves : List Move
moves =
    calls_open none
    ∷ calls_open none
    ∷ calls_close
    ∷ calls_close
    ∷ close_moves 0 []
    ∷ open_moves 0 (none ∷ none ∷ []) none
    ∷ open_moves 0 (none ∷ none ∷ []) none
    ∷ open_moves 0 [] none
    ∷ close_moves 0 []
    ∷ close_moves 0 []
    ∷ close_moves 0 []
    ∷ waiter_moves 0
    ∷ []

all_return :
    (run fresh_system moves).results ≡ (already_open ∷ []) ∷ (context_canceled ∷ []) ∷ [] ∷ [] ∷ []
unfolding run
all_return = refl

stays_open :
    (run fresh_system (calls_open none ∷ open_moves 0 (none ∷ []) none ∷ [])).manager.state ≡ opened
unfolding run
stays_open = refl

run-Exclusive_example : Exclusive (run fresh_system moves)
run-Exclusive_example = run-Exclusive moves

-- An `Open` and a `Close` are at work, and another `Close` waits.
abbrev two_close : List Move
two_close = calls_open none ∷ calls_close ∷ calls_close ∷ []

waits : (run fresh_system two_close).waiters ≡ 1 ∷ []
unfolding run
waits = refl

waiters_released_example :
    let t =
      run
        (run (run fresh_system two_close) (open_stretches (none ∷ some 3 ∷ []) (none ∷ []) none))
        (close_stretches []) in
    (t.openers ≡ []) × (t.closers ≡ []) × All (λ w. 0 < t.done w) (1 ∷ [])
unfolding run
waiters_released_example = waiters_released two_close (none ∷ some 3 ∷ []) (none ∷ []) [] none
