-- ===== src/GatewayWrite.antt =====
-- The writer of one Gateway connection, gateway_write.go. Its goroutine takes requests from a channel
-- one by one, waits until fewer than 120 writes lie within 60 seconds, and writes.
-- What the goroutine meets is an argument: the clock's readings, the outcome of each wait and of each
-- write, and which branch a `select` takes.
pub mod Slots
pub mod Rate
pub mod Replies
mod Examples
use dgo.Prelude.{
  ℕ, zero, suc, ◌+◌, ◌*◌, ◌^◌, Bool, List, [], ◌∷◌, ◌++◌, map, Option, none, some, length, get_or,
  ltb, leb, if◌then◌else◌,
}
use dgo.Window.{prune}

abbrev pub send_limit : ℕ
send_limit = 120

-- 60 * time.Second
abbrev pub send_window : ℕ
send_window = 60 * 10 ^ 9

pub data QueueError : Type 0 where
  context_error : ℕ → QueueError
  write_error : ℕ → QueueError
  queue_closed no_writer : QueueError

-- One round of `waitForSlot`: the reading of the clock, and what `waitGatewayWrite` returns if the
-- round comes to wait.
pub record Round : Type 0 where
  pub now : ℕ
  pub waited : Option QueueError

pub data Slot : Type 0 where
  ready : List ℕ → Slot
  refused : List ℕ → QueueError → Slot
  waiting : Slot

-- `waiting` is no result: the rounds ran out. The `continue` does not wait.
unfoldable pub wait_for_slot : List Round → List ℕ → Slot
wait_for_slot [] sent_at = waiting
wait_for_slot (r ∷ rounds) sent_at =
    let kept = prune send_window r.now sent_at in
    let again = wait_for_slot rounds kept in
    if ltb (length kept) send_limit
    then ready kept
    else if leb (get_or kept 0 0 + send_window) r.now
    then again
    else elim r.waited [ none ↦ again | some e ↦ refused kept e ]

-- A request, as the writer meets it: its context's error when it is taken up, the rounds of its
-- wait, the outcome of `WriteJSON`, and the clock after the write.
pub record Request : Type 0 where
  pub id : ℕ
  pub ctx_err : Option QueueError
  pub rounds : List Round
  pub write_err : Option QueueError
  pub sent_now : ℕ

-- The writer's slice `sentAt`; what it has answered; and the times of all writes, a history that the
-- code does not keep.
pub record Writer : Type 0 where
  pub sent_at : List ℕ
  pub results : List (ℕ × Option QueueError)
  pub log : List ℕ

pub init : Writer
init = record { sent_at = []; results = []; log = [] }

unfoldable pub answer : Writer → ℕ → Option QueueError → Writer
answer w id e = record w { results = w.results ++ (id, e) ∷ [] }

unfoldable pub write : Writer → List ℕ → Request → Writer
unfolding answer
write w kept q = elim q.write_err [
  | none ↦
      answer (record w { sent_at = kept ++ q.sent_now ∷ []; log = w.log ++ q.sent_now ∷ [] }) q.id
        none
  | some e ↦ answer (record w { sent_at = kept }) q.id (some e)
]

after_wait : Writer → Request → Slot → Option Writer
after_wait w q (ready kept) = some (write w kept q)
after_wait w q (refused kept e) = some (answer (record w { sent_at = kept }) q.id (some e))
after_wait w q waiting = none

-- The body of the loop for one request; `none` while it waits.
unfoldable pub serve : Writer → Request → Option Writer
unfolding after_wait
serve w q = elim q.ctx_err [
  | some e ↦ some (answer w q.id (some e))
  | none ↦ after_wait w q (wait_for_slot q.rounds w.sent_at)
]

-- `failPending`: every request still in the channel gets the error.
unfoldable pub fail_pending : Writer → List ℕ → QueueError → Writer
unfolding answer
fail_pending w [] e = w
fail_pending w (id ∷ pending) e = fail_pending (answer w id (some e)) pending e

-- `run` over the requests that it takes up until its context is done with error `stop`; `pending` is
-- then in the channel.
unfoldable pub run_loop : Writer → List Request → List ℕ → QueueError → Option Writer
unfolding serve fail_pending
run_loop w [] pending stop = some (fail_pending w pending stop)
run_loop w (q ∷ qs) pending stop = elim (serve w q) [
  | none ↦ none
  | some w' ↦ run_loop w' qs pending stop
]

unfoldable pub run : Bool → List Request → List ℕ → QueueError → Option Writer
unfolding run_loop init
run has_writer requests pending stop =
    if has_writer
    then run_loop init requests pending stop
    else some (fail_pending init (map (λ q. q.id) requests ++ pending) no_writer)

-- What the two `select`s of `enqueue` pick.
pub data Submit : Type 0 where
  submitted submit_closed : Submit
  submit_done : QueueError → Submit

pub data Await : Type 0 where
  replied : Option QueueError → Await
  await_closed : Await
  await_done : QueueError → Await

await_reply : Await → Option QueueError
await_reply (replied e) = e
await_reply await_closed = some queue_closed
await_reply (await_done e) = some e

unfoldable pub enqueue : Option QueueError → Submit → Await → Option QueueError
unfolding await_reply
enqueue (some e) submit await = some e
enqueue none submitted await = await_reply await
enqueue none submit_closed await = some queue_closed
enqueue none (submit_done e) await = some e
