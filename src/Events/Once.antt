-- ===== src/Events/Once.antt =====
-- A handler that was added to be called once.
use dgo.Prelude.{
  ℕ, ◌+◌, ◌<◌, ◌≤◌, ◌≡◌, refl, sym, ap, ◌∙◌, subst, String, Bool, List, [], ◌∷◌, ◌++◌, map, arith,
  Bool-cases, inl, inr,
}
use mathlib.Core.List.{append_assoc}
use dgo.Events.{
  Handlers, at_type, add_event_handler, add_event_handler_once, remove_event_handler_instance,
  snapshot_event_handlers, Call, returned, reported, call_all, handle, handle_event,
}
use dgo.Events.Removal.{count, count-append}
use dgo.Events.Held.{
  held, held-erase, held_at, held-remove, held-add, Tidy, add-Tidy, add_once-Tidy, remove-Tidy,
  erase-Tidy,
}

-- What happens to the handlers of a session.
pub data Op : Type 0 where
  adds adds_once : String → Op
  removes : String → ℕ → Op
  dispatches : String → (ℕ → Bool) → Op

-- The handlers, and the instances that were called so far.
pub record Trace : Type 0 where
  pub handlers : Handlers
  pub called : List ℕ

abbrev pub call_id : Call → ℕ
call_id (returned h) = h
call_id (reported h) = h

unfoldable pub step : Trace → Op → Trace
unfolding add_event_handler add_event_handler_once remove_event_handler_instance handle_event
step t (adds type) = record t { handlers = (add_event_handler t.handlers type).0 }
step t (adds_once type) = record t { handlers = (add_event_handler_once t.handlers type).0 }
step t (removes type h) = record t { handlers = remove_event_handler_instance t.handlers type h }
step t (dispatches type panics) =
    let (s, calls) = handle_event t.handlers type panics in
    record { handlers = s; called = t.called ++ map call_id calls }

unfoldable pub run : Trace → List Op → Trace
unfolding step
run t [] = t
run t (op ∷ ops) = run (step t op) ops

abbrev pub new_handlers : Handlers
new_handlers = record { handlers = []; once_handlers = []; next = 0 }

-- The instance `h`, made to be called once, is held or has been called, not both.
record Inv (h : ℕ) (s : Handlers) (called : List ℕ) : Type 0 where
  tidy : Tidy s
  made : h < s.next
  not_permanent : held h s.handlers ≡ 0
  once : held h s.once_handlers + count h called ≤ 1

ids : (panics : ℕ → Bool) (hs : List ℕ) → map call_id (call_all panics hs) ≡ hs
unfolding call_all
ids panics [] = refl
ids panics (h ∷ hs) = elim (Bool-cases (panics h)) [
  | inl bad ↦ rw bad (ap (◌∷◌ h) (ids panics hs))
  | inr good ↦ rw good (ap (◌∷◌ h) (ids panics hs))
]

handle-Inv :
    (h : ℕ) (s : Handlers) (t : String) (panics : ℕ → Bool) (called : List ℕ)
    → Inv h s called
    → Inv h (handle s t panics).0 (called ++ map call_id (handle s t panics).1)
unfolding handle snapshot_event_handlers
handle-Inv h s t panics called v =
    let hs : List ℕ = at_type s.handlers t ++ at_type s.once_handlers t in
    let e = held-erase h t s.once_handlers in
    let p = held_at h t s.handlers in
    let n = v.not_permanent in
    let o = v.once in
    let c = count-append h (at_type s.handlers t) (at_type s.once_handlers t) in
    let d = count-append h called hs in
    record {
      tidy = erase-Tidy s t v.tidy;
      made = v.made;
      not_permanent = n;
      once = rw (ids panics hs) (omega arith);
    }

map_join : (xs ys : List Call) → map call_id (xs ++ ys) ≡ map call_id xs ++ map call_id ys
map_join [] ys = refl
map_join (x ∷ xs) ys = ap (◌∷◌ (call_id x)) (map_join xs ys)

step-Inv :
    (h : ℕ) (t : Trace) (op : Op)
    → Inv h t.handlers t.called
    → Inv h (step t op).handlers (step t op).called
unfolding step add_event_handler add_event_handler_once remove_event_handler_instance handle_event
step-Inv h t (adds type) v =
    let e = held-add h t.handlers.next type t.handlers.handlers in
    let n = v.not_permanent in
    record {
      tidy = add-Tidy t.handlers type v.tidy;
      made = omega (arith, v.made);
      not_permanent = (let m = v.made in ground arith);
      once = v.once;
    }
step-Inv h t (adds_once type) v =
    let e = held-add h t.handlers.next type t.handlers.once_handlers in
    let o = v.once in
    record {
      tidy = add_once-Tidy t.handlers type v.tidy;
      made = omega (arith, v.made);
      not_permanent = v.not_permanent;
      once = (let m = v.made in ground arith);
    }
step-Inv h t (removes type g) v =
    let l = v.tidy.single g in
    let a = held-remove h g type t.handlers.handlers (omega arith) in
    let b = held-remove h g type t.handlers.once_handlers (omega arith) in
    let n = v.not_permanent in
    let o = v.once in
    record {
      tidy = remove-Tidy t.handlers type g v.tidy;
      made = v.made;
      not_permanent = omega arith;
      once = omega arith;
    }
step-Inv h t (dispatches type panics) v =
    let every = handle t.handlers "__INTERFACE__" panics in
    let v' = handle-Inv h t.handlers "__INTERFACE__" panics t.called v in
    let v'' = handle-Inv h every.0 type panics (t.called ++ map call_id every.1) v' in
    subst (Inv h (handle every.0 type panics).0)
      (append_assoc t.called (map call_id every.1) (map call_id (handle every.0 type panics).1)
        ∙ ap (λ l. t.called ++ l) (sym (map_join every.1 (handle every.0 type panics).1)))
      v''

run-Inv :
    (h : ℕ) (t : Trace) (ops : List Op) → Inv h t.handlers t.called → count h (run t ops).called ≤ 1
unfolding run
run-Inv h t [] v = let o = v.once in omega arith
run-Inv h t (op ∷ ops) v = run-Inv h (step t op) ops (step-Inv h t op v)

step-Tidy : (t : Trace) (op : Op) → Tidy t.handlers → Tidy (step t op).handlers
unfolding step add_event_handler add_event_handler_once remove_event_handler_instance handle_event
    handle snapshot_event_handlers
step-Tidy t (adds type) v = add-Tidy t.handlers type v
step-Tidy t (adds_once type) v = add_once-Tidy t.handlers type v
step-Tidy t (removes type h) v = remove-Tidy t.handlers type h v
step-Tidy t (dispatches type panics) v =
    erase-Tidy (handle t.handlers "__INTERFACE__" panics).0 type
      (erase-Tidy t.handlers "__INTERFACE__" v)

run-Tidy : (t : Trace) (ops : List Op) → Tidy t.handlers → Tidy (run t ops).handlers
unfolding run
run-Tidy t [] v = v
run-Tidy t (op ∷ ops) v = run-Tidy (step t op) ops (step-Tidy t op v)

add_once-Inv : (s : Handlers) (t : String) → Tidy s → Inv s.next (add_event_handler_once s t).0 []
unfolding add_event_handler_once
add_once-Inv s t v =
    let e = held-add s.next s.next t s.once_handlers in
    let u = v.unmade s.next (omega arith) in
    record {
      tidy = add_once-Tidy s t v;
      made = omega arith;
      not_permanent = omega arith;
      once = ground arith;
    }

-- A handler that is added to be called once, at any time in the life of a session, is called once at
-- most, whatever is added, removed and dispatched after it and whichever handlers panic.
pub called_once :
    (before after : List Op) (type : String)
    → let s = (run (record { handlers = new_handlers; called = [] }) before).handlers in
      let (s', h) = add_event_handler_once s type in
      count h (run (record { handlers = s'; called = [] }) after).called ≤ 1
unfolding add_event_handler_once
called_once before after type =
    let s : Handlers = (run (record { handlers = new_handlers; called = [] }) before).handlers in
    let tidy =
      run-Tidy (record { handlers = new_handlers; called = [] }) before
        (record { single = λ x. omega arith; unmade = λ x l. omega arith }) in
    run-Inv s.next (record { handlers = (add_event_handler_once s type).0; called = [] }) after
      (add_once-Inv s type tidy)
