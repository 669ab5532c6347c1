-- ===== src/Shards/Exclusive.antt =====
-- Whatever the calls do, one opens and one closes at most, and no channel is closed twice.
use dgo.Prelude.{
  ℕ, ◌≤◌, ◌≡◌, ◌≢◌, refl, sym, ap, ◌∙◌, subst, Bool, false, List, [], ◌∷◌, ◌++◌, Option, none, some,
  ltb, get_elem?, set, length, ◌⊎◌, inl, inr, arith, Bool-cases,
}
use dgo.Shards.{
  ManagerState, closed, opening, opened, closing, ShardError, OpenPhase, connecting, cleaning,
  cleaned, ClosePhase, cancelling, checking, finishing, System, drop_at, failures, open_failed,
  close_failed, context_error, fresh_system, settle_in, start_open, open_errors, open_now, settle,
  clean, end_open, start_close, wait_open, check_cleanup, end_close, wake, Move, step, run,
  move_open, move_close, move_waiter, calls_open, calls_close, open_moves, close_moves,
  waiter_moves, cancel_failed,
}
use dgo.Shards.Work.{
  open_channel, close_channel_of, OpenerTidy, CloserTidy, Pending, resting, starting, serving,
  aborting, ending, Sound, Pending-close, Counts, Counts-close, WorkOf, same-Sound, open_in-Sound,
  close_in-Sound, single, none_there, Opener, find-Opener,
}

counts : (s : System) → Sound s → Counts s.done s.next
counts s v = record { once = v.once; unmade = v.unmade }

-- The phase of the one opener changes.
rephase-Sound :
    (s : System) (p q : OpenPhase) (dirty : Bool) (cancelled : List ℕ)
    → Sound s
    → Opener s 0 p
    → open_channel p ≡ open_channel q
    → OpenerTidy dirty q
    → (dirty ≡ s.dirty) ⊎ (dirty ≡ false)
    → Sound (record s { openers = set s.openers 0 q; dirty = dirty; cancelled = cancelled })
rephase-Sound s p q dirty cancelled v o e t d = record {
  work = elim o.where_to [
    | inl (st, cs, cd, od) ↦
        starting q st (rw o.alone refl) cs cd (od ∙ ap some e)
          (subst (Pending s.done s.next) e o.pending) t
    | inr (c, st, cs, cd, qd, n) ↦
        aborting q c st (rw o.alone refl) (cs ∙ ap (λ x. cancelling c (some x) ∷ []) e) cd
          (subst (Pending s.done s.next) e o.pending) qd (subst (λ x. c ≢ x) e n) t
  ];
  once = v.once;
  unmade = v.unmade;
  tidy = λ h. let was = v.tidy h in elim d [ inl same ↦ same ∙ was | inr clean_now ↦ clean_now ];
}

open_now-Sound :
    (s : System) (c : ℕ)
    → s.manager.state ≡ opening
    → Sound s
    → Opener s 0 (connecting c)
    → Sound (open_now s 0 c)
unfolding open_now drop_at
open_now-Sound s c e v o =
    let k = Counts-close s.done s.next c o.pending (counts s v) in
    record {
      work = elim o.where_to [
        | inl (st, cs, cd, od) ↦ serving refl (rw o.alone refl) cs cd refl
        | inr (d, st, cs, cd, qd, n) ↦ absurd (let g = sym e ∙ st in ground arith)
      ];
      once = k.once;
      unmade = k.unmade;
      tidy = v.tidy;
    }

settle_in-Sound :
    (s : System) (t : ManagerState) (c : ℕ)
    → s.manager.state ≡ t
    → Sound s
    → Opener s 0 (connecting c)
    → Sound (settle_in t s 0 c)
unfolding settle_in
settle_in-Sound s closing c e v o =
    rephase-Sound s (connecting c) (cleaning c []) s.dirty s.cancelled v o refl tt (inl refl)
settle_in-Sound s opening c e v o = open_now-Sound s c e v o
settle_in-Sound s closed c e v o = absurd (elim o.where_to [
  | inl (st, cs, cd, od) ↦ (let g = sym e ∙ st in ground arith)
  | inr (d, st, cs, cd, qd, n) ↦ (let g = sym e ∙ st in ground arith)
])
settle_in-Sound s opened c e v o = absurd (elim o.where_to [
  | inl (st, cs, cd, od) ↦ (let g = sym e ∙ st in ground arith)
  | inr (d, st, cs, cd, qd, n) ↦ (let g = sym e ∙ st in ground arith)
])

settle-Sound :
    (s : System) (c : ℕ) (es : List ShardError)
    → Sound s
    → Opener s 0 (connecting c)
    → Sound (settle s 0 c es)
unfolding settle
settle-Sound s c [] v o = settle_in-Sound s s.manager.state c refl v o
settle-Sound s c (e ∷ es) v o =
    rephase-Sound s (connecting c) (cleaning c (e ∷ es)) s.dirty s.cancelled v o refl tt (inl refl)

end_open-Sound :
    (s : System) (c : ℕ) (es : List ShardError)
    → Sound s
    → Opener s 0 (cleaned c es)
    → Sound (end_open s 0 c es)
unfolding end_open drop_at
end_open-Sound s c es v o =
    let k = Counts-close s.done s.next c o.pending (counts s v) in
    record {
      work = elim o.where_to [
        | inl (st, cs, cd, od) ↦ resting (rw st refl) (rw o.alone refl) cs cd o.tidy
        | inr (d, st, cs, cd, qd, n) ↦
            ending (cancelling d (some c)) (rw st refl) (rw o.alone refl) cs cd
              (Pending-close s.done s.next c d n qd) (ground arith)
      ];
      once = k.once;
      unmade = k.unmade;
      tidy = λ h. o.tidy;
    }

move_open-Sound :
    (s : System) (k : ℕ) (answers : List (Option ℕ)) (lifetime_err : Option ℕ)
    (o : Option OpenPhase)
    → get_elem? s.openers k ≡ o
    → Sound s
    → Sound (move_open s k answers lifetime_err o)
move_open-Sound s k answers lifetime_err none e v = v
move_open-Sound s k answers lifetime_err (some q) e v =
    let found = find-Opener s k q v.work e in
    let at_first : Opener s 0 q = subst (λ j. Opener s j q) found.first found in
    subst (λ j. Sound (move_open s j answers lifetime_err (some q))) (sym found.first)
      (go q at_first)
  where
    go : (p : OpenPhase) → Opener s 0 p → Sound (move_open s 0 answers lifetime_err (some p))
    go (connecting c) o =
        let failed : List ShardError = failures open_failed 0 answers in
        settle-Sound (cancel_failed s c failed) c (open_errors answers lifetime_err)
          (record { work = v.work; once = v.once; unmade = v.unmade; tidy = v.tidy })
          (record {
            first = o.first;
            alone = o.alone;
            pending = o.pending;
            tidy = o.tidy;
            where_to = o.where_to;
          })
    go (cleaning c errors) o =
        unfold clean in
        rephase-Sound s (cleaning c errors) (cleaned c (errors ++ failures close_failed 0 answers))
          false s.cancelled v o refl refl (inr refl)
    go (cleaned c errors) o = end_open-Sound s c errors v o

-- The phase of the one closer changes, no call being at work on an `Open`.
closer-Sound :
    (s : System) (p q : ClosePhase) (dirty : Bool)
    → Sound s
    → s.manager.state ≡ closing
    → s.openers ≡ []
    → s.closers ≡ p ∷ []
    → s.manager.close_done ≡ some (close_channel_of p)
    → Pending s.done s.next (close_channel_of p)
    → close_channel_of p ≡ close_channel_of q
    → CloserTidy s.done dirty q
    → (dirty ≡ s.dirty) ⊎ (dirty ≡ false)
    → Sound (record s { closers = set s.closers 0 q; dirty = dirty })
closer-Sound s p q dirty v st os cs cd pd e t d = record {
  work = ending q st os (rw cs refl) (cd ∙ ap some e) (subst (Pending s.done s.next) e pd) t;
  once = v.once;
  unmade = v.unmade;
  tidy = λ h. let was = v.tidy h in elim d [ inl same ↦ same ∙ was | inr clean_now ↦ clean_now ];
}

module _ (s : System) (v : Sound s) (st : s.manager.state ≡ closing) (os : s.openers ≡ [])
    (answers : List (Option ℕ)) where
  ending-Sound :
      (q : ClosePhase)
      → s.closers ≡ q ∷ []
      → s.manager.close_done ≡ some (close_channel_of q)
      → Pending s.done s.next (close_channel_of q)
      → CloserTidy s.done s.dirty q
      → Sound (move_close s 0 answers (some q))
  unfolding wait_open check_cleanup end_close drop_at
  ending-Sound (cancelling c none) cs cd pd t =
      closer-Sound s (cancelling c none) (checking c) s.dirty v st os cs cd pd refl tt (inl refl)
  ending-Sound (cancelling c (some o)) cs cd pd t = elim (Bool-cases (ltb 0 (s.done o))) [
    | inl over ↦ rw over (
        closer-Sound s (cancelling c (some o)) (checking c) s.dirty v st os cs cd pd refl tt
          (inl refl))
    | inr not_yet ↦ rw not_yet v
  ]
  ending-Sound (checking c) cs cd pd t = elim (Bool-cases s.manager.cleanup_completed) [
    | inl completed ↦ simp completed (
        closer-Sound s (checking c) (finishing c []) s.dirty v st os cs cd pd refl
          (v.tidy completed) (inl refl))
    | inr not_yet ↦ simp not_yet (
        closer-Sound s (checking c) (finishing c (failures close_failed 0 answers)) false v st os cs
          cd pd refl refl (inr refl))
  ]
  ending-Sound (finishing c errors) cs cd pd t =
      let k = Counts-close s.done s.next c pd (counts s v) in
      record {
        work = resting refl os (rw cs refl) refl t;
        once = k.once;
        unmade = k.unmade;
        tidy = λ h. t;
      }

move_close-Sound :
    (s : System) (k : ℕ) (answers : List (Option ℕ)) (o : Option ClosePhase)
    → get_elem? s.closers k ≡ o
    → Sound s
    → Sound (move_close s k answers o)
unfolding wait_open
move_close-Sound s k answers none e v = v
move_close-Sound s k answers (some q) e v = go v.work
  where
    still :
        (p : OpenPhase) (c : ℕ)
        → Pending s.done s.next (open_channel p)
        → Sound (move_close s k answers (some (cancelling c (some (open_channel p)))))
    still p c pd =
        let waits : ltb 0 (s.done (open_channel p)) ≡ false = let u = pd.not_done in ground arith in
        rw waits v

    go : WorkOf s → Sound (move_close s k answers (some q))
    go (resting st os cs cd d) = absurd (none_there s.closers q k cs e)
    go (starting p st os cs cd od pd t) = absurd (none_there s.closers q k cs e)
    go (serving st os cs cd od) = absurd (none_there s.closers q k cs e)
    go (aborting p c st os cs cd pd qd n t) =
        let (z, same) = single s.closers (cancelling c (some (open_channel p))) q k cs e in
        subst (λ x. Sound (move_close s k answers (some x))) same (still p c pd)
    go (ending p st os cs cd pd t) =
        let (z, same) = single s.closers p q k cs e in
        subst (λ x. Sound (move_close s k answers (some x))) same
          (subst (λ j. Sound (move_close s j answers (some p))) (sym z)
            (ending-Sound s v st os answers p cs cd pd t))

move_waiter-Sound : (s : System) (k : ℕ) (o : Option ℕ) → Sound s → Sound (move_waiter s k o)
unfolding wake
move_waiter-Sound s k none v = v
move_waiter-Sound s k (some c) v = elim (Bool-cases (ltb 0 (s.done c))) [
  | inl over ↦ rw over (same-Sound s (drop_at k s.waiters) (s.results ++ [] ∷ []) v)
  | inr not_yet ↦ rw not_yet v
]

pub step-Sound : (s : System) (m : Move) → Sound s → Sound (step s m)
unfolding step start_open start_close
step-Sound s (calls_open (some e)) v =
    same-Sound s s.waiters (s.results ++ (context_error e ∷ []) ∷ []) v
step-Sound s (calls_open none) v = open_in-Sound s s.manager.state refl v
step-Sound s calls_close v = close_in-Sound s s.manager.state refl v
step-Sound s (open_moves k answers lifetime_err) v =
    move_open-Sound s k answers lifetime_err (get_elem? s.openers k) refl v
step-Sound s (close_moves k answers) v = move_close-Sound s k answers (get_elem? s.closers k) refl v
step-Sound s (waiter_moves k) v = move_waiter-Sound s k (get_elem? s.waiters k) v

pub fresh-Sound : Sound fresh_system
fresh-Sound = record {
  work = resting refl refl refl refl refl;
  once = λ c. omega arith;
  unmade = λ c l. refl;
  tidy = λ h. refl;
}

pub run-Sound : (s : System) (ms : List Move) → Sound s → Sound (run s ms)
unfolding run
run-Sound s [] v = v
run-Sound s (m ∷ ms) v = run-Sound (step s m) ms (step-Sound s m v)

-- What may never go wrong, whatever the calls do.
pub record Exclusive (s : System) : Type 0 where
  pub one_opener : length s.openers ≤ 1
  pub one_closer : length s.closers ≤ 1
  pub closed_once : (c : ℕ) → s.done c ≤ 1
  pub closed_all :
      s.manager.state ≡ closed → (s.openers ≡ []) × (s.closers ≡ []) × (s.dirty ≡ false)

Sound-Exclusive : (s : System) → Sound s → Exclusive s
Sound-Exclusive s v = go v.work
  where
    made :
        length s.openers ≤ 1
        → length s.closers ≤ 1
        → (s.manager.state ≡ closed → (s.openers ≡ []) × (s.closers ≡ []) × (s.dirty ≡ false))
        → Exclusive s
    made a b c = record { one_opener = a; one_closer = b; closed_once = v.once; closed_all = c }

    go : WorkOf s → Exclusive s
    go (resting st os cs cd d) = made (rw os (omega arith)) (rw cs (omega arith)) (λ h. (os, cs, d))
    go (starting p st os cs cd od pd t) =
        made (rw os (omega arith)) (rw cs (omega arith))
          (λ h. absurd (let g = sym h ∙ st in ground arith))
    go (serving st os cs cd od) =
        made (rw os (omega arith)) (rw cs (omega arith))
          (λ h. absurd (let g = sym h ∙ st in ground arith))
    go (aborting p c st os cs cd pd qd n t) =
        made (rw os (omega arith)) (rw cs (omega arith))
          (λ h. absurd (let g = sym h ∙ st in ground arith))
    go (ending q st os cs cd pd t) =
        made (rw os (omega arith)) (rw cs (omega arith))
          (λ h. absurd (let g = sym h ∙ st in ground arith))

-- Whatever calls of `Open` and `Close` come, and in whatever order their stretches run: at most one
-- call opens and at most one closes, no channel is closed twice, and when the manager is closed no
-- call is at work and every session has been asked to close since the last `Open` began.
pub run-Exclusive : (ms : List Move) → Exclusive (run fresh_system ms)
run-Exclusive ms = Sound-Exclusive (run fresh_system ms) (run-Sound fresh_system ms fresh-Sound)
