-- ===== src/Shards/Waiters.antt =====
-- What a call of `Close` that waits for another one waits for.
use dgo.Prelude.{
  ℕ, zero, suc, ◌<◌, ◌≡◌, refl, sym, ap, ◌∙◌, List, [], ◌∷◌, Option, none, some, ltb, get_elem?,
  ◌⊎◌, inl, inr, arith, All, All-mono, All-append, Bool-cases,
}
use dgo.Shards.{
  ManagerState, closed, opening, opened, closing, ShardError, OpenPhase, connecting, cleaning,
  cleaned, ClosePhase, cancelling, checking, finishing, System, close_channel, drop_at, failures,
  open_failed, open_in, settle_in, close_in, await_close, start_open, open_errors, open_now, settle,
  clean, end_open, start_closing, start_close, wait_open, check_cleanup, end_close, wake, Move,
  step, run, move_open, move_close, move_waiter, calls_open, calls_close, open_moves, close_moves,
  waiter_moves, cancel_failed,
}
use dgo.Shards.Exclusive.{step-Sound}
use dgo.Shards.Work.{
  open_channel, close_channel_of, resting, starting, serving, aborting, ending, Sound, WorkOf,
  single, none_there,
}

-- A waiter's channel is closed, or is that of the call that is closing.
abbrev pub Heard : (ℕ → ℕ) → Option ℕ → List ℕ → Type 0
Heard done close_done waiters = All (λ w. (0 < done w) ⊎ (close_done ≡ some w)) waiters

Heard-close :
    (done : ℕ → ℕ) (close_done : Option ℕ) (c : ℕ) (ws : List ℕ)
    → Heard done close_done ws
    → Heard (close_channel done c) close_done ws
Heard-close done close_done c ws h =
    All-mono (λ w. (0 < done w) ⊎ (close_done ≡ some w))
      (λ w. (0 < close_channel done c w) ⊎ (close_done ≡ some w)) ws
      (λ w x. elim x [ inl over ↦ inl (ground arith) | inr here ↦ inr here ]) h

-- The last stretch of `Close` lets all of its waiters go.
Heard-end :
    (done : ℕ → ℕ) (close_done : Option ℕ) (c : ℕ) (ws : List ℕ)
    → close_done ≡ some c
    → Heard done close_done ws
    → Heard (close_channel done c) none ws
Heard-end done close_done c ws e h =
    All-mono (λ w. (0 < done w) ⊎ (close_done ≡ some w))
      (λ w. (0 < close_channel done c w) ⊎ (none ≡ some w)) ws
      (λ w x. elim x [
        | inl over ↦ inl (ground arith)
        | inr here ↦ (let same = sym e ∙ here in let g : w ≡ c = ground arith in inl (ground arith))
      ])
      h

Heard-begin :
    (done : ℕ → ℕ) (close_done : Option ℕ) (c : ℕ) (ws : List ℕ)
    → close_done ≡ none
    → Heard done close_done ws
    → Heard done (some c) ws
Heard-begin done close_done c ws e h =
    All-mono (λ w. (0 < done w) ⊎ (close_done ≡ some w)) (λ w. (0 < done w) ⊎ (some c ≡ some w)) ws
      (λ w x. elim x [
        | inl over ↦ inl over
        | inr here ↦ absurd (let g = sym e ∙ here in ground arith)
      ])
      h

drop_at-All : (P : ℕ → Type 0) (k : ℕ) (ws : List ℕ) → All P ws → All P (drop_at k ws)
unfolding drop_at
drop_at-All P k [] h = tt
drop_at-All P zero (w ∷ ws) h = h.1
drop_at-All P (suc k) (w ∷ ws) h = (h.0, drop_at-All P k ws h.1)

abbrev pub HeardOf : System → Type 0
HeardOf s = Heard s.done s.manager.close_done s.waiters

open_in-Heard : (s : System) (t : ManagerState) → HeardOf s → HeardOf (open_in t s)
unfolding open_in
open_in-Heard s closed h = h
open_in-Heard s opening h = h
open_in-Heard s opened h = h
open_in-Heard s closing h = h

await_close-Heard :
    (s : System) (o : Option ℕ) → s.manager.close_done ≡ o → HeardOf s → HeardOf (await_close o s)
await_close-Heard s none e h = h
await_close-Heard s (some c) e h =
    All-append (λ w. (0 < s.done w) ⊎ (s.manager.close_done ≡ some w)) s.waiters (c ∷ []) h
      (inr e, tt)

no_closer :
    (s : System)
    → (s.manager.state ≡ opening) ⊎ (s.manager.state ≡ opened)
    → Sound s
    → s.manager.close_done ≡ none
no_closer s e v = go v.work
  where
    clash : (t : ManagerState) → s.manager.state ≡ t → (t ≡ opening) ⊎ (t ≡ opened)
    clash t f = elim e [ inl g ↦ inl (sym f ∙ g) | inr g ↦ inr (sym f ∙ g) ]

    go : WorkOf s → s.manager.close_done ≡ none
    go (resting st os cs cd d) = cd
    go (starting p st os cs cd od pd t) = cd
    go (serving st os cs cd od) = cd
    go (aborting p c st os cs cd pd qd n t) =
        absurd (elim (clash closing st) [ inl g ↦ (ground arith) | inr g ↦ (ground arith) ])
    go (ending q st os cs cd pd t) =
        absurd (elim (clash closing st) [ inl g ↦ (ground arith) | inr g ↦ (ground arith) ])

close_in-Heard :
    (s : System) (t : ManagerState)
    → s.manager.state ≡ t
    → Sound s
    → HeardOf s
    → HeardOf (close_in t s)
unfolding close_in start_closing
close_in-Heard s closed e v h = h
close_in-Heard s closing e v h = await_close-Heard s s.manager.close_done refl h
close_in-Heard s opening e v h =
    Heard-begin s.done s.manager.close_done s.next s.waiters (no_closer s (inl e) v) h
close_in-Heard s opened e v h =
    Heard-begin s.done s.manager.close_done s.next s.waiters (no_closer s (inr e) v) h

settle_in-Heard :
    (s : System) (t : ManagerState) (k c : ℕ) → HeardOf s → HeardOf (settle_in t s k c)
unfolding settle_in open_now
settle_in-Heard s closing k c h = h
settle_in-Heard s opening k c h = Heard-close s.done s.manager.close_done c s.waiters h
settle_in-Heard s opened k c h = Heard-close s.done s.manager.close_done c s.waiters h
settle_in-Heard s closed k c h = Heard-close s.done s.manager.close_done c s.waiters h

settle-Heard : (s : System) (k c : ℕ) (es : List ShardError) → HeardOf s → HeardOf (settle s k c es)
unfolding settle
settle-Heard s k c [] h = settle_in-Heard s s.manager.state k c h
settle-Heard s k c (e ∷ es) h = h

move_open-Heard :
    (s : System) (k : ℕ) (answers : List (Option ℕ)) (lifetime_err : Option ℕ)
    (o : Option OpenPhase)
    → HeardOf s
    → HeardOf (move_open s k answers lifetime_err o)
unfolding clean end_open
move_open-Heard s k answers lifetime_err none h = h
move_open-Heard s k answers lifetime_err (some (connecting c)) h =
    settle-Heard (cancel_failed s c (failures open_failed 0 answers)) k c
      (open_errors answers lifetime_err) h
move_open-Heard s k answers lifetime_err (some (cleaning c errors)) h = h
move_open-Heard s k answers lifetime_err (some (cleaned c errors)) h =
    Heard-close s.done s.manager.close_done c s.waiters h

-- The call that closes has the channel that the manager holds.
closer_channel :
    (s : System) (k : ℕ) (q : ClosePhase)
    → Sound s
    → get_elem? s.closers k ≡ some q
    → s.manager.close_done ≡ some (close_channel_of q)
closer_channel s k q v e = go v.work
  where
    go : WorkOf s → s.manager.close_done ≡ some (close_channel_of q)
    go (resting st os cs cd d) = absurd (none_there s.closers q k cs e)
    go (starting p st os cs cd od pd t) = absurd (none_there s.closers q k cs e)
    go (serving st os cs cd od) = absurd (none_there s.closers q k cs e)
    go (aborting p c st os cs cd pd qd n t) =
        cd
        ∙ ap (λ x. some (close_channel_of x))
            (single s.closers (cancelling c (some (open_channel p))) q k cs e).1
    go (ending p st os cs cd pd t) =
        cd ∙ ap (λ x. some (close_channel_of x)) (single s.closers p q k cs e).1

move_close-Heard :
    (s : System) (k : ℕ) (answers : List (Option ℕ)) (o : Option ClosePhase)
    → get_elem? s.closers k ≡ o
    → Sound s
    → HeardOf s
    → HeardOf (move_close s k answers o)
unfolding wait_open check_cleanup end_close
move_close-Heard s k answers none e v h = h
move_close-Heard s k answers (some (cancelling c none)) e v h = h
move_close-Heard s k answers (some (cancelling c (some o))) e v h =
    elim (Bool-cases (ltb 0 (s.done o))) [ inl over ↦ rw over h | inr not_yet ↦ rw not_yet h ]
move_close-Heard s k answers (some (checking c)) e v h =
    elim (Bool-cases s.manager.cleanup_completed) [
      | inl completed ↦ simp completed h
      | inr not_yet ↦ simp not_yet h
    ]
move_close-Heard s k answers (some (finishing c errors)) e v h =
    Heard-end s.done s.manager.close_done c s.waiters (closer_channel s k (finishing c errors) v e)
      h

move_waiter-Heard : (s : System) (k : ℕ) (o : Option ℕ) → HeardOf s → HeardOf (move_waiter s k o)
unfolding wake
move_waiter-Heard s k none h = h
move_waiter-Heard s k (some c) h = elim (Bool-cases (ltb 0 (s.done c))) [
  | inl over ↦
      rw over (drop_at-All (λ w. (0 < s.done w) ⊎ (s.manager.close_done ≡ some w)) k s.waiters h)
  | inr not_yet ↦ rw not_yet h
]

step-Heard : (s : System) (m : Move) → Sound s → HeardOf s → HeardOf (step s m)
unfolding step start_open start_close
step-Heard s (calls_open (some e)) v h = h
step-Heard s (calls_open none) v h = open_in-Heard s s.manager.state h
step-Heard s calls_close v h = close_in-Heard s s.manager.state refl v h
step-Heard s (open_moves k answers lifetime_err) v h =
    move_open-Heard s k answers lifetime_err (get_elem? s.openers k) h
step-Heard s (close_moves k answers) v h =
    move_close-Heard s k answers (get_elem? s.closers k) refl v h
step-Heard s (waiter_moves k) v h = move_waiter-Heard s k (get_elem? s.waiters k) h

pub run-Heard :
    (s : System) (ms : List Move) → Sound s → HeardOf s → Sound (run s ms) × HeardOf (run s ms)
unfolding run
run-Heard s [] v h = (v, h)
run-Heard s (m ∷ ms) v h = run-Heard (step s m) ms (step-Sound s m v) (step-Heard s m v h)

-- A channel that is closed already, or that the call that is closing has to close.
pub record Answered (s : System) (w : ℕ) : Type 0 where
  pub closer : (0 < s.done w) ⊎ ((q : ClosePhase) × (s.closers ≡ q ∷ []) × (close_channel_of q ≡ w))

pub answered :
    (s : System) (w : ℕ) → Sound s → (0 < s.done w) ⊎ (s.manager.close_done ≡ some w) → Answered s w
answered s w v (inl over) = record { closer = inl over }
answered s w v (inr here) = record { closer = inr (go v.work) }
  where
    same : (c : ℕ) → s.manager.close_done ≡ some c → c ≡ w
    same c e = let f = sym e ∙ here in ground arith

    absent : s.manager.close_done ≡ none → ⊥
    absent e = let f = sym e ∙ here in ground arith

    go : WorkOf s → (q : ClosePhase) × (s.closers ≡ q ∷ []) × (close_channel_of q ≡ w)
    go (resting st os cs cd d) = absurd (absent cd)
    go (starting p st os cs cd od pd t) = absurd (absent cd)
    go (serving st os cs cd od) = absurd (absent cd)
    go (aborting p c st os cs cd pd qd n t) = (cancelling c (some (open_channel p)), cs, same c cd)
    go (ending q st os cs cd pd t) = (q, cs, same (close_channel_of q) cd)
