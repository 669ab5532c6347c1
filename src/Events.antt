-- ===== src/Events.antt =====
-- Event handlers of a session, event.go: `addEventHandler`, `addEventHandlerOnce`,
-- `removeEventHandlerInstance`, `snapshotEventHandlers`, `handle` and `callEventHandler`. A handler
-- instance is a pointer, here a number that is not given twice.
pub mod Removal
pub mod Held
pub mod Once
mod Examples
use dgo.Prelude.{
  ℕ, zero, suc, ◌+◌, ◌-◌, String, Bool, true, false, List, [], ◌∷◌, ◌++◌, Option, none, some,
  length, take, drop, get_or, ◌==◌, if◌then◌else◌,
}
use dgo.Prelude.Assoc.{Assoc, lookup, insert, erase}

-- The two maps under `handlersMu`.
pub record Handlers : Type 0 where
  pub handlers : Assoc (List ℕ)
  pub once_handlers : Assoc (List ℕ)
  pub next : ℕ

-- A missing key reads as nil.
unfoldable pub at_type : Assoc (List ℕ) → String → List ℕ
unfolding lookup
at_type m t = elim (lookup t m) [ none ↦ [] | some hs ↦ hs ]

unfoldable pub add_event_handler : Handlers → String → Handlers × ℕ
unfolding at_type
add_event_handler s t = (
  record s {
    handlers = insert t (at_type s.handlers t ++ s.next ∷ []) s.handlers;
    next = suc s.next;
  },
  s.next,
)

unfoldable pub add_event_handler_once : Handlers → String → Handlers × ℕ
unfolding at_type
add_event_handler_once s t = (
  record s {
    once_handlers = insert t (at_type s.once_handlers t ++ s.next ∷ []) s.once_handlers;
    next = suc s.next;
  },
  s.next,
)

-- `append(hs[:i], hs[i+1:]...)` shifts the array that the loop reads: its last place keeps its value.
abbrev pub shift : List ℕ → ℕ → List ℕ
shift hs i = take i hs ++ (drop (i + 1) hs ++ get_or hs (length hs - 1) 0 ∷ [])

-- The loop from index `i` on, with the array and what the map holds.
unfoldable pub remove_loop : ℕ → ℕ → ℕ → List ℕ → List ℕ → List ℕ
remove_loop zero i h array kept = kept
remove_loop (suc rounds) i h array kept =
    let shifted = shift array i in
    let found = remove_loop rounds (i + 1) h shifted (take (length array - 1) shifted) in
    let missed = remove_loop rounds (i + 1) h array kept in
    if get_or array i 0 == h then found else missed

-- The code stores the slice when the loop finds the handler; the map keeps the same slice otherwise.
unfoldable pub remove_from : Assoc (List ℕ) → String → ℕ → Assoc (List ℕ)
unfolding remove_loop
remove_from m t h = elim (lookup t m) [
  | none ↦ m
  | some hs ↦ insert t (remove_loop (length hs) 0 h hs hs) m
]

unfoldable pub remove_event_handler_instance : Handlers → String → ℕ → Handlers
unfolding remove_from
remove_event_handler_instance s t h = record s {
  handlers = remove_from s.handlers t h;
  once_handlers = remove_from s.once_handlers t h;
}

-- The handlers to call, permanent ones first; those to be called once are taken out.
unfoldable pub snapshot_event_handlers : Handlers → String → Handlers × List ℕ
unfolding at_type
snapshot_event_handlers s t = (
  record s { once_handlers = erase t s.once_handlers },
  at_type s.handlers t ++ at_type s.once_handlers t,
)

-- What became of a call. A panic is recovered and reported.
pub data Call : Type 0 where
  returned reported : ℕ → Call

-- `callEventHandler`, with whether the handler panics.
unfoldable pub call_event_handler : (ℕ → Bool) → ℕ → Call
call_event_handler panics h = if panics h then reported h else returned h

call_all : (ℕ → Bool) → List ℕ → List Call
unfolding call_event_handler
call_all panics [] = []
call_all panics (h ∷ hs) = call_event_handler panics h ∷ call_all panics hs

unfoldable pub handle : Handlers → String → (ℕ → Bool) → Handlers × List Call
unfolding snapshot_event_handlers call_all
handle s t panics = let (s', hs) = snapshot_event_handlers s t in (s', call_all panics hs)

-- `handleEvent` after the internal dispatch: handlers of every event, then those of this type.
unfoldable pub handle_event : Handlers → String → (ℕ → Bool) → Handlers × List Call
unfolding handle
handle_event s t panics =
    let (s', every) = handle s "__INTERFACE__" panics in
    let (s'', typed) = handle s' t panics in (s'', every ++ typed)
