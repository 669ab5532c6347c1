-- ===== src/Shards.antt =====
-- The shard manager of sharding.go: `Open`, `Close` and `closeSessions`, called by any number of
-- goroutines. Each stretch under the manager's mutex is one step, as are the stretches in which it
-- opens or closes its sessions without the mutex. A call that is under way is a phase in a list.
-- What the sessions answer, and the error of the context, are arguments of the step.
pub mod Work
pub mod Exclusive
pub mod Waiters
pub mod Stretches
pub mod Released
pub mod Create
mod Examples
use dgo.Prelude.{
  ℕ, zero, suc, ◌+◌, Bool, true, false, List, [], ◌∷◌, ◌++◌, Option, none, some, ltb, ◌==◌,
  if◌then◌else◌, get_elem?, set,
}

pub data ManagerState : Type 0 where
  closed opening opened closing : ManagerState

pub data ShardError : Type 0 where
  already_open context_canceled : ShardError
  context_error : ℕ → ShardError
  open_failed : ℕ → ℕ → ShardError
  close_failed : ℕ → ℕ → ShardError

-- The fields that change. A channel and a lifetime are numbers that are not given twice.
pub record Manager : Type 0 where
  pub state : ManagerState
  pub cancel : Option ℕ
  pub open_done : Option ℕ
  pub close_done : Option ℕ
  pub cleanup_completed : Bool

-- Where a call of `Open` is that has got past its first stretch, with its `openDone`.
pub data OpenPhase : Type 0 where
  connecting : ℕ → OpenPhase
  cleaning cleaned : ℕ → List ShardError → OpenPhase

-- Where a call of `Close` is that does the closing, with its `closeDone`.
pub data ClosePhase : Type 0 where
  cancelling : ℕ → Option ℕ → ClosePhase
  checking : ℕ → ClosePhase
  finishing : ℕ → List ShardError → ClosePhase

-- The manager and all calls under way. `waiters` are the calls of `Close` that wait for another one,
-- `done` counts how often each channel was closed, `cancelled` the lifetimes that were cancelled, and
-- `results` what the calls returned. `dirty` says that an `Open` has started to connect sessions and
-- that not all have been closed since.
pub record System : Type 0 where
  pub manager : Manager
  pub openers : List OpenPhase
  pub closers : List ClosePhase
  pub waiters : List ℕ
  pub done : ℕ → ℕ
  pub next : ℕ
  pub cancelled : List ℕ
  pub results : List (List ShardError)
  pub dirty : Bool

abbrev pub returns : System → List ShardError → System
returns s errors = record s { results = s.results ++ errors ∷ [] }

abbrev pub close_channel : (ℕ → ℕ) → ℕ → ℕ → ℕ
close_channel done c j = if j == c then suc (done j) else done j

unfoldable pub drop_at {ℓ} : {A : Type ℓ} → ℕ → List A → List A
drop_at k [] = []
drop_at zero (x ∷ xs) = xs
drop_at (suc k) (x ∷ xs) = x ∷ drop_at k xs

-- The errors of the shards, in order, numbered from `shard_id`.
unfoldable pub failures : (ℕ → ℕ → ShardError) → ℕ → List (Option ℕ) → List ShardError
failures wrap shard_id [] = []
failures wrap shard_id (none ∷ es) = failures wrap (suc shard_id) es
failures wrap shard_id (some e ∷ es) = wrap shard_id e ∷ failures wrap (suc shard_id) es

-- The first stretch of `Open`, in a state of the manager.
unfoldable pub open_in : ManagerState → System → System
open_in closed s = record s {
  manager = record s.manager {
    state = opening;
    cancel = some s.next;
    open_done = some s.next;
    cleanup_completed = false;
  };
  openers = s.openers ++ connecting s.next ∷ [];
  next = suc s.next;
  dirty = true;
}
open_in opening s = returns s (already_open ∷ [])
open_in opened s = returns s (already_open ∷ [])
open_in closing s = returns s (already_open ∷ [])

unfoldable pub start_open : System → Option ℕ → System
unfolding open_in
start_open s (some e) = returns s (context_error e ∷ [])
start_open s none = open_in s.manager.state s

-- The errors once all sessions have answered: those of the shards, or else that of the lifetime.
unfoldable pub open_errors : List (Option ℕ) → Option ℕ → List ShardError
unfolding failures
open_errors answers lifetime_err = elim (failures open_failed 0 answers) [
  | [] ↦ (elim lifetime_err [ none ↦ [] | some e ↦ context_error e ∷ [] ])
  | e ∷ es ↦ e ∷ es
]

open_now : System → ℕ → ℕ → System
unfolding drop_at
open_now s k c =
    returns
      (record s {
        manager = record s.manager { state = opened; open_done = none };
        openers = drop_at k s.openers;
        done = close_channel s.done c;
      })
      []

-- The second stretch: the manager is open now, or the call goes on to close the sessions.
unfoldable pub settle_in : ManagerState → System → ℕ → ℕ → System
unfolding open_now
settle_in closing s k c = record s { openers = set s.openers k (cleaning c []) }
settle_in closed s k c = open_now s k c
settle_in opening s k c = open_now s k c
settle_in opened s k c = open_now s k c

unfoldable pub settle : System → ℕ → ℕ → List ShardError → System
unfolding settle_in
settle s k c [] = settle_in s.manager.state s k c
settle s k c (e ∷ es) = record s { openers = set s.openers k (cleaning c (e ∷ es)) }

-- `closeSessions` asks every session to close.
unfoldable pub clean : System → ℕ → ℕ → List ShardError → List (Option ℕ) → System
unfolding failures
clean s k c errors answers = record s {
  openers = set s.openers k (cleaned c (errors ++ failures close_failed 0 answers));
  dirty = false;
}

-- `if m.state == shardManagerOpening`
abbrev pub after_open : ManagerState → ManagerState
after_open closed = closed
after_open opening = closed
after_open opened = opened
after_open closing = closing

-- The last stretch of an `Open` that has failed or was closed meanwhile.
unfoldable pub end_open : System → ℕ → ℕ → List ShardError → System
unfolding drop_at
end_open s k c errors =
    returns
      (record s {
        manager = record s.manager {
          state = after_open s.manager.state;
          cancel = none;
          open_done = none;
          cleanup_completed = true;
        };
        openers = drop_at k s.openers;
        done = close_channel s.done c;
      })
      (elim errors [ [] ↦ context_canceled ∷ [] | e ∷ es ↦ e ∷ es ])

start_closing : System → System
start_closing s = record s {
  manager = record s.manager { state = closing; close_done = some s.next };
  closers = s.closers ++ cancelling s.next s.manager.open_done ∷ [];
  next = suc s.next;
  cancelled = (elim s.manager.cancel [ none ↦ s.cancelled | some l ↦ l ∷ s.cancelled ]);
}

-- `<-closeDone`; the channel is there while the manager is closing.
abbrev pub await_close : Option ℕ → System → System
await_close none s = s
await_close (some c) s = record s { waiters = s.waiters ++ c ∷ [] }

-- The first stretch of `Close`. It waits if another call is closing.
unfoldable pub close_in : ManagerState → System → System
unfolding start_closing
close_in closed s = returns s []
close_in closing s = await_close s.manager.close_done s
close_in opening s = start_closing s
close_in opened s = start_closing s

unfoldable pub start_close : System → System
unfolding close_in
start_close s = close_in s.manager.state s

-- `<-openDone`, if there is one to wait for.
unfoldable pub wait_open : System → ℕ → ℕ → Option ℕ → System
wait_open s k c none = record s { closers = set s.closers k (checking c) }
wait_open s k c (some o) =
    if ltb 0 (s.done o) then record s { closers = set s.closers k (checking c) } else s

unfoldable pub check_cleanup : System → ℕ → ℕ → List (Option ℕ) → System
unfolding failures
check_cleanup s k c answers =
    if s.manager.cleanup_completed
    then record s { closers = set s.closers k (finishing c []) }
    else record s {
      closers = set s.closers k (finishing c (failures close_failed 0 answers));
      dirty = false;
    }

unfoldable pub end_close : System → ℕ → ℕ → List ShardError → System
unfolding drop_at
end_close s k c errors =
    returns
      (record s {
        manager = record {
          state = closed;
          cancel = none;
          open_done = none;
          close_done = none;
          cleanup_completed = true;
        };
        closers = drop_at k s.closers;
        done = close_channel s.done c;
      })
      errors

unfoldable pub wake : System → ℕ → ℕ → System
unfolding drop_at
wake s k c = if ltb 0 (s.done c) then returns (record s { waiters = drop_at k s.waiters }) [] else s

-- What can happen next: a new call, or the `k`th call of a list moves on. A move that does not fit the
-- phase of its call changes nothing.
pub data Move : Type 0 where
  calls_open : Option ℕ → Move
  calls_close : Move
  open_moves : ℕ → List (Option ℕ) → Option ℕ → Move
  close_moves : ℕ → List (Option ℕ) → Move
  waiter_moves : ℕ → Move

-- A session that fails to open cancels the lifetime, which has the number of `openDone`.
abbrev pub cancel_failed : System → ℕ → List ShardError → System
cancel_failed s c failed = record s {
  cancelled = (elim failed [ [] ↦ s.cancelled | e ∷ es ↦ c ∷ s.cancelled ]);
}

abbrev pub move_open : System → ℕ → List (Option ℕ) → Option ℕ → Option OpenPhase → System
move_open s k answers lifetime_err none = s
move_open s k answers lifetime_err (some (connecting c)) =
    settle (cancel_failed s c (failures open_failed 0 answers)) k c
      (open_errors answers lifetime_err)
move_open s k answers lifetime_err (some (cleaning c errors)) = clean s k c errors answers
move_open s k answers lifetime_err (some (cleaned c errors)) = end_open s k c errors

abbrev pub move_close : System → ℕ → List (Option ℕ) → Option ClosePhase → System
move_close s k answers none = s
move_close s k answers (some (cancelling c o)) = wait_open s k c o
move_close s k answers (some (checking c)) = check_cleanup s k c answers
move_close s k answers (some (finishing c errors)) = end_close s k c errors

abbrev pub move_waiter : System → ℕ → Option ℕ → System
move_waiter s k none = s
move_waiter s k (some c) = wake s k c

unfoldable pub step : System → Move → System
unfolding start_open start_close settle clean end_open wait_open check_cleanup end_close wake
    open_errors
step s (calls_open ctx_err) = start_open s ctx_err
step s calls_close = start_close s
step s (open_moves k answers lifetime_err) =
    move_open s k answers lifetime_err (get_elem? s.openers k)
step s (close_moves k answers) = move_close s k answers (get_elem? s.closers k)
step s (waiter_moves k) = move_waiter s k (get_elem? s.waiters k)

unfoldable pub run : System → List Move → System
unfolding step
run s [] = s
run s (m ∷ ms) = run (step s m) ms

-- A new manager.
abbrev pub fresh_system : System
fresh_system = record {
  manager = record {
    state = closed;
    cancel = none;
    open_done = none;
    close_done = none;
    cleanup_completed = false;
  };
  openers = [];
  closers = [];
  waiters = [];
  done = λ c. 0;
  next = 0;
  cancelled = [];
  results = [];
  dirty = false;
}
