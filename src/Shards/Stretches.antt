-- ===== src/Shards/Stretches.antt =====
-- A call of `Open` or `Close` at work has one stretch fewer before it after each.
use dgo.Prelude.{
  ℕ, ◌-◌, ◌≤◌, ◌≡◌, refl, sym, ap, ◌∙◌, subst, true, List, [], ◌∷◌, Option, none, some, get_elem?,
  inl, inr, arith, Bool-cases, ltb,
}
use dgo.Shards.{
  ManagerState, closed, opening, opened, closing, ShardError, OpenPhase, connecting, cleaning,
  cleaned, ClosePhase, cancelling, checking, finishing, System, drop_at, failures, open_failed,
  settle_in, open_errors, open_now, settle, clean, end_open, wait_open, check_cleanup, end_close,
  step, move_open, move_close, open_moves, close_moves, cancel_failed,
}
use dgo.Shards.Exclusive.{step-Sound}
use dgo.Shards.Work.{
  resting, starting, serving, aborting, ending, Sound, WorkOf, find-Opener, CloserTidy,
}

-- The stretches that the first call of each kind has before it.
abbrev pub stretches_open : List OpenPhase → ℕ
stretches_open [] = 0
stretches_open (connecting c ∷ ps) = 3
stretches_open (cleaning c errors ∷ ps) = 2
stretches_open (cleaned c errors ∷ ps) = 1

abbrev pub stretches_close : List ClosePhase → ℕ
stretches_close [] = 0
stretches_close (cancelling c o ∷ qs) = 3
stretches_close (checking c ∷ qs) = 2
stretches_close (finishing c errors ∷ qs) = 1

pub no_opener : (ps : List OpenPhase) → stretches_open ps ≤ 0 → ps ≡ []
no_opener [] h = refl
no_opener (connecting c ∷ ps) h = absurd (omega arith)
no_opener (cleaning c errors ∷ ps) h = absurd (omega arith)
no_opener (cleaned c errors ∷ ps) h = absurd (omega arith)

pub no_closer : (qs : List ClosePhase) → stretches_close qs ≤ 0 → qs ≡ []
no_closer [] h = refl
no_closer (cancelling c o ∷ qs) h = absurd (omega arith)
no_closer (checking c ∷ qs) h = absurd (omega arith)
no_closer (finishing c errors ∷ qs) h = absurd (omega arith)

pub open_at_most : (ps : List OpenPhase) → stretches_open ps ≤ 3
open_at_most [] = omega arith
open_at_most (connecting c ∷ ps) = omega arith
open_at_most (cleaning c errors ∷ ps) = omega arith
open_at_most (cleaned c errors ∷ ps) = omega arith

pub close_at_most : (qs : List ClosePhase) → stretches_close qs ≤ 3
close_at_most [] = omega arith
close_at_most (cancelling c o ∷ qs) = omega arith
close_at_most (checking c ∷ qs) = omega arith
close_at_most (finishing c errors ∷ qs) = omega arith

nothing_first : {A : Type 0} (xs : List A) → get_elem? xs 0 ≡ none → xs ≡ []
nothing_first [] h = refl
nothing_first (x ∷ xs) h = absurd (ground arith)

settle_in-stretches :
    (s : System) (t : ManagerState) (p : OpenPhase) (c : ℕ)
    → s.openers ≡ p ∷ []
    → stretches_open (settle_in t s 0 c).openers ≤ 2
unfolding settle_in open_now drop_at
settle_in-stretches s closing p c alone = rw alone (omega arith)
settle_in-stretches s closed p c alone = rw alone (omega arith)
settle_in-stretches s opening p c alone = rw alone (omega arith)
settle_in-stretches s opened p c alone = rw alone (omega arith)

settle-stretches :
    (s : System) (p : OpenPhase) (c : ℕ) (es : List ShardError)
    → s.openers ≡ p ∷ []
    → stretches_open (settle s 0 c es).openers ≤ 2
unfolding settle
settle-stretches s p c [] alone = settle_in-stretches s s.manager.state p c alone
settle-stretches s p c (e ∷ es) alone = rw alone (omega arith)

move_open-stretches :
    (s : System) (answers : List (Option ℕ)) (lifetime_err : Option ℕ) (o : Option OpenPhase)
    → get_elem? s.openers 0 ≡ o
    → Sound s
    → stretches_open (move_open s 0 answers lifetime_err o).openers ≤ stretches_open s.openers - 1
unfolding clean end_open drop_at
move_open-stretches s answers lifetime_err none e v = rw (nothing_first s.openers e) (omega arith)
move_open-stretches s answers lifetime_err (some (connecting c)) e v =
    let alone = (find-Opener s 0 (connecting c) v.work e).alone in
    let left =
      settle-stretches (cancel_failed s c (failures open_failed 0 answers)) (connecting c) c
        (open_errors answers lifetime_err) alone in
    let three : stretches_open s.openers ≡ 3 = ap stretches_open alone in omega (arith, left)
move_open-stretches s answers lifetime_err (some (cleaning c errors)) e v =
    rw (find-Opener s 0 (cleaning c errors) v.work e).alone (omega arith)
move_open-stretches s answers lifetime_err (some (cleaned c errors)) e v =
    rw (find-Opener s 0 (cleaned c errors) v.work e).alone (omega arith)

settle_in-waiters :
    (s : System) (t : ManagerState) (c : ℕ) → (settle_in t s 0 c).waiters ≡ s.waiters
unfolding settle_in open_now
settle_in-waiters s closing c = refl
settle_in-waiters s closed c = refl
settle_in-waiters s opening c = refl
settle_in-waiters s opened c = refl

settle-waiters : (s : System) (c : ℕ) (es : List ShardError) → (settle s 0 c es).waiters ≡ s.waiters
unfolding settle
settle-waiters s c [] = settle_in-waiters s s.manager.state c
settle-waiters s c (e ∷ es) = refl

move_open-waiters :
    (s : System) (answers : List (Option ℕ)) (lifetime_err : Option ℕ) (o : Option OpenPhase)
    → (move_open s 0 answers lifetime_err o).waiters ≡ s.waiters
unfolding clean end_open
move_open-waiters s answers lifetime_err none = refl
move_open-waiters s answers lifetime_err (some (connecting c)) =
    settle-waiters (cancel_failed s c (failures open_failed 0 answers)) c
      (open_errors answers lifetime_err)
move_open-waiters s answers lifetime_err (some (cleaning c errors)) = refl
move_open-waiters s answers lifetime_err (some (cleaned c errors)) = refl

-- Where an `Open` has a stretch before it, it runs on, and no waiter is lost.
pub record OpenOn (s t : System) : Type 0 where
  pub sound : Sound t
  pub fewer : stretches_open t.openers ≤ stretches_open s.openers - 1
  pub waiters : t.waiters ≡ s.waiters

pub open_on :
    (s : System) (answers : List (Option ℕ)) (lifetime_err : Option ℕ)
    → Sound s
    → OpenOn s (step s (open_moves 0 answers lifetime_err))
unfolding step
open_on s answers lifetime_err v = record {
  sound = step-Sound s (open_moves 0 answers lifetime_err) v;
  fewer = move_open-stretches s answers lifetime_err (get_elem? s.openers 0) refl v;
  waiters = move_open-waiters s answers lifetime_err (get_elem? s.openers 0);
}

-- A `Close` without an `Open` at work runs on.
pub record CloseOn (s t : System) : Type 0 where
  pub fewer : stretches_close t.closers ≤ stretches_close s.closers - 1
  pub openers : t.openers ≡ s.openers
  pub waiters : t.waiters ≡ s.waiters

ending-on :
    (s : System) (answers : List (Option ℕ)) (q : ClosePhase)
    → s.closers ≡ q ∷ []
    → CloserTidy s.done s.dirty q
    → CloseOn s (move_close s 0 answers (some q))
unfolding wait_open check_cleanup end_close drop_at
ending-on s answers (cancelling c none) cs t = record {
  fewer = rw cs (omega arith);
  openers = refl;
  waiters = refl;
}
ending-on s answers (cancelling c (some o)) cs t =
    let over : ltb 0 (s.done o) ≡ true = ground arith in
    rw over (record { fewer = rw cs (omega arith); openers = refl; waiters = refl })
ending-on s answers (checking c) cs t = elim (Bool-cases s.manager.cleanup_completed) [
  | inl completed ↦
      simp completed (record { fewer = rw cs (omega arith); openers = refl; waiters = refl })
  | inr not_yet ↦
      simp not_yet (record { fewer = rw cs (omega arith); openers = refl; waiters = refl })
]
ending-on s answers (finishing c errors) cs t = record {
  fewer = rw cs (omega arith);
  openers = refl;
  waiters = refl;
}

pub close_on :
    (s : System) (answers : List (Option ℕ))
    → Sound s
    → s.openers ≡ []
    → CloseOn s (step s (close_moves 0 answers))
unfolding step
close_on s answers v idle = go v.work
  where
    still : s.closers ≡ [] → CloseOn s (move_close s 0 answers (get_elem? s.closers 0))
    still cs = rw cs (record { fewer = omega arith; openers = refl; waiters = refl })

    busy : (p : OpenPhase) → s.openers ≡ p ∷ [] → ⊥
    busy p os = let g = sym idle ∙ os in ground arith

    go : WorkOf s → CloseOn s (move_close s 0 answers (get_elem? s.closers 0))
    go (resting st os cs cd d) = still cs
    go (serving st os cs cd od) = still cs
    go (starting p st os cs cd od pd t) = absurd (busy p os)
    go (aborting p c st os cs cd pd qd n t) = absurd (busy p os)
    go (ending q st os cs cd pd t) =
        subst (λ xs. CloseOn s (move_close s 0 answers (get_elem? xs 0))) (sym cs)
          (ending-on s answers q cs t)
