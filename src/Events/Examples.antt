-- ===== src/Events/Examples.antt =====
-- A session with a permanent handler and one to be called once.
use dgo.Prelude.{ℕ, ◌+◌, ◌≡◌, ◌≤◌, ◌<◌, refl, true, false, [], ◌∷◌, List, arith, length, ◌==◌}
use dgo.Events.{Handlers, add_event_handler_once, remove_loop}
use dgo.Events.Once.{Op, adds, adds_once, removes, dispatches, run, new_handlers, called_once}
use dgo.Events.Removal.{count}

abbrev before : List Op
before = adds "READY" ∷ []

-- The first handler panics.
abbrev after : List Op
after =
    dispatches "READY" (λ h. h == 0)
    ∷ dispatches "READY" (λ h. false)
    ∷ removes "READY" 0
    ∷ dispatches "READY" (λ h. false)
    ∷ []

calls :
    (run
      (record {
        handlers =
            (run
              (record { handlers = new_handlers; called = [] })
              (adds "READY" ∷ adds_once "READY" ∷ [])).handlers;
        called = [];
      })
      after).called
    ≡ 0 ∷ 1 ∷ 0 ∷ []
unfolding run dgo.Events.remove_from dgo.Events.at_type dgo.Events.snapshot_event_handlers
    dgo.Prelude.Assoc.insert dgo.Prelude.Assoc.erase
calls = refl

called_once_example :
    let s = (run (record { handlers = new_handlers; called = [] }) before).handlers in
    let (s', h) = add_event_handler_once s "READY" in
    count h (run (record { handlers = s'; called = [] }) after).called ≤ 1
called_once_example = called_once before after "READY"
