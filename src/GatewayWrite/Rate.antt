-- ===== src/GatewayWrite/Rate.antt =====
-- The rate limit over the whole life of the writer.
use dgo.Prelude.{
  ℕ, ◌+◌, ◌<◌, ◌≤◌, ◌≡◌, refl, subst, Bool, true, false, if◌then◌else◌, Bool-cases, sym, ap, ◌∙◌,
  List, [], ◌∷◌, ◌++◌, map, Option, none, some, arith, length, All, get_elem?, length-append,
  get_elem?-append_left, get_elem?-append_right, get_elem?_bound, All-get_elem?, All-mono,
  All-append, ltb, dec_lt, Option-cases, inl, inr,
}
use mathlib.Core.Option.{some-injective}
use mathlib.Core.List.{append_assoc}
use dgo.Window.{
  prune, prune-Pruned, length-prune, Rising, latest, Rising-append_left, Rising-append_right,
  le-latest,
}
use dgo.GatewayWrite.{
  send_limit, send_window, QueueError, Round, Slot, ready, refused, waiting, wait_for_slot, Request,
  Writer, init, write, answer, after_wait, serve, fail_pending, run_loop, run,
}

-- is_between a write and the 120th write after it lie 60 seconds or more.
abbrev pub Spaced : List ℕ → Type 0
Spaced log =
    (i u v : ℕ)
    → get_elem? log i ≡ some u
    → get_elem? log (i + send_limit) ≡ some v
    → u + send_window ≤ v

-- At clock reading `now`: the slice `sent` holds the end of the history, the rest of which has
-- expired.
pub record Inv (now : ℕ) (log sent : List ℕ) : Type 0 where
  pub dropped : List ℕ
  pub split : log ≡ dropped ++ sent
  pub expired : All (λ t. t + send_window ≤ now) dropped
  pub few : length sent ≤ send_limit
  pub spaced : Spaced log

-- The readings of the clock while a request is served.
abbrev pub readings : Request → List ℕ
readings q = map (λ r. r.now) q.rounds ++ q.sent_now ∷ []

abbrev pub all_readings : List Request → List ℕ
all_readings [] = []
all_readings (q ∷ qs) = readings q ++ all_readings qs

Inv-prune :
    (a b : ℕ) (log sent : List ℕ) → a ≤ b → Inv a log sent → Inv b log (prune send_window b sent)
Inv-prune a b log sent h v =
    let p = prune-Pruned send_window b sent in
    record {
      dropped = v.dropped ++ p.cut;
      split = v.split ∙ ap (◌++◌ v.dropped) p.split ∙ sym (append_assoc v.dropped p.cut _);
      expired =
          All-append _ v.dropped p.cut (All-mono _ _ v.dropped (λ t k. omega arith) v.expired)
            p.expired;
      few = omega (arith, v.few, length-prune send_window b sent);
      spaced = v.spaced;
    }

Spaced-append :
    (dropped sent : List ℕ) (now t : ℕ)
    → All (λ s. s + send_window ≤ now) dropped
    → length sent < send_limit
    → now ≤ t
    → Spaced (dropped ++ sent)
    → Spaced ((dropped ++ sent) ++ t ∷ [])
Spaced-append dropped sent now t old room later s i u v hu hv =
    let log : List ℕ = dropped ++ sent in
    let total = length-append dropped sent in
    let whole = length-append log (t ∷ []) in
    let bound = get_elem?_bound (log ++ t ∷ []) (i + send_limit) v hv in
    elim (dec_lt (i + send_limit) (length log)) [
      | yes inside ↦
          s i u v (sym (get_elem?-append_left log (t ∷ []) i (omega arith)) ∙ hu)
            (sym (get_elem?-append_left log (t ∷ []) (i + send_limit) inside) ∙ hv)
      | no outside ↦
          let last : i + send_limit ≡ 0 + length log = omega arith in
          let at_end = sym (get_elem?-append_right log (t ∷ []) (i + send_limit) 0 last) ∙ hv in
          let early : i < length dropped = omega arith in
          let at_i =
            sym (get_elem?-append_left dropped sent i early)
            ∙ sym (get_elem?-append_left log (t ∷ []) i (omega arith))
            ∙ hu in
          let gone = All-get_elem? (λ x. x + send_window ≤ now) dropped i u old at_i in
          omega (arith, some-injective t v at_end)
    ]

Inv-write :
    (a t : ℕ) (log sent : List ℕ)
    → a ≤ t
    → length sent < send_limit
    → Inv a log sent
    → Inv t (log ++ t ∷ []) (sent ++ t ∷ [])
Inv-write a t log sent h room v = record {
  dropped = v.dropped;
  split = ap (λ l. l ++ t ∷ []) v.split ∙ append_assoc v.dropped sent (t ∷ []);
  expired = All-mono _ _ v.dropped (λ s k. omega arith) v.expired;
  few = omega (arith, length-append sent (t ∷ []));
  spaced =
      rw (v.split) (Spaced-append v.dropped sent a t v.expired room h (rw v.split at v.spaced));
}

-- What is left of the slice when the wait is over.
abbrev SlotInv : ℕ → List ℕ → Slot → Type 0
SlotInv now log (ready kept) = Inv now log kept × (length kept < send_limit)
SlotInv now log (refused kept e) = Inv now log kept
SlotInv now log waiting = Unit

Inv-later : (a b : ℕ) (log sent : List ℕ) → a ≤ b → Inv a log sent → Inv b log sent
Inv-later a b log sent h v = record {
  dropped = v.dropped;
  split = v.split;
  expired = All-mono _ _ v.dropped (λ t k. omega arith) v.expired;
  few = v.few;
  spaced = v.spaced;
}

SlotInv-later : (a b : ℕ) (log : List ℕ) (s : Slot) → a ≤ b → SlotInv a log s → SlotInv b log s
SlotInv-later a b log (ready kept) h v = (Inv-later a b log kept h v.0, v.1)
SlotInv-later a b log (refused kept e) h v = Inv-later a b log kept h v
SlotInv-later a b log waiting h v = tt

SlotInv-either :
    (a : ℕ) (log kept : List ℕ) (b : Bool) (o : Option QueueError) (again : Slot)
    → SlotInv a log again
    → Inv a log kept
    → SlotInv a log (if b then again else elim o [ none ↦ again | some e ↦ refused kept e ])
SlotInv-either a log kept true o again h v = h
SlotInv-either a log kept false none again h v = h
SlotInv-either a log kept false (some e) again h v = v

wait_for_slot-Inv :
    (a : ℕ) (rounds : List Round) (log sent : List ℕ)
    → Rising a (map (λ r. r.now) rounds)
    → Inv a log sent
    → SlotInv (latest a (map (λ r. r.now) rounds)) log (wait_for_slot rounds sent)
unfolding wait_for_slot
wait_for_slot-Inv a [] log sent h v = tt
wait_for_slot-Inv a (r ∷ rounds) log sent h v =
    let now : ℕ = r.now in
    let kept : List ℕ = prune send_window now sent in
    let pruned = Inv-prune a now log sent h.0 v in
    let later = le-latest now (map (λ q. q.now) rounds) h.1 in
    let again = wait_for_slot-Inv now rounds log kept h.1 pruned in
    let done = Inv-later now _ log kept later pruned in
    elim (Bool-cases (ltb (length kept) send_limit)) [
      | inl room ↦ rw room (done, ground arith)
      | inr full ↦ rw full (SlotInv-either _ log kept _ r.waited _ again done)
    ]

abbrev pub WriterInv : ℕ → Writer → Type 0
WriterInv now w = Inv now w.log w.sent_at

write-Inv :
    (a : ℕ) (w : Writer) (kept : List ℕ) (q : Request)
    → Inv a w.log kept
    → length kept < send_limit
    → a ≤ q.sent_now
    → WriterInv q.sent_now (write w kept q)
unfolding write answer
write-Inv a w kept q v room l = elim (Option-cases q.write_err) [
  | inl written ↦ rw (written, write) (Inv-write a q.sent_now w.log kept l room v)
  | inr (x, failed) ↦ rw (failed, write) (Inv-later a q.sent_now w.log kept l v)
]

after_wait-Inv :
    (a : ℕ) (w w' : Writer) (q : Request) (s : Slot)
    → SlotInv a w.log s
    → a ≤ q.sent_now
    → after_wait w q s ≡ some w'
    → WriterInv q.sent_now w'
unfolding after_wait answer
after_wait-Inv a w w' q (ready kept) h l e =
    subst (WriterInv q.sent_now) (some-injective _ _ e) (write-Inv a w kept q h.0 h.1 l)
after_wait-Inv a w w' q (refused kept x) h l e =
    subst (WriterInv q.sent_now) (some-injective _ _ e) (Inv-later a _ w.log kept l h)
after_wait-Inv a w w' q waiting h l e = absurd (ground arith)

serve-Inv :
    (a : ℕ) (w w' : Writer) (q : Request)
    → Rising a (readings q)
    → WriterInv a w
    → serve w q ≡ some w'
    → WriterInv (latest a (readings q)) w'
unfolding serve answer
serve-Inv a w w' q h v e =
    let nows : List ℕ = map (λ r. r.now) q.rounds in
    let first = Rising-append_left a nows (q.sent_now ∷ []) h in
    let last = Rising-append_right a nows (q.sent_now ∷ []) h in
    let final = latest-append a nows q.sent_now in
    rw final (elim (Option-cases q.ctx_err) [
      | inl live ↦
          after_wait-Inv (latest a nows) w w' q (wait_for_slot q.rounds w.sent_at)
            (wait_for_slot-Inv a q.rounds w.log w.sent_at first v) last.0 (rw (live, serve) at e)
      | inr (x, gone) ↦
          subst (WriterInv q.sent_now) (some-injective _ _ (rw (gone, serve) at e))
            (Inv-later a _ w.log w.sent_at (omega (arith, le-latest a nows first, last.0)) v)
    ])
  where
    latest-append : (b : ℕ) (xs : List ℕ) (t : ℕ) → latest b (xs ++ t ∷ []) ≡ t
    latest-append b [] t = refl
    latest-append b (x ∷ xs) t = latest-append x xs t

fail_pending-log : (w : Writer) (ids : List ℕ) (e : QueueError) → (fail_pending w ids e).log ≡ w.log
unfolding fail_pending answer
fail_pending-log w [] e = refl
fail_pending-log w (id ∷ ids) e = fail_pending-log (answer w id (some e)) ids e

run_loop-Spaced :
    (a : ℕ) (w w' : Writer) (qs : List Request) (pending : List ℕ) (stop : QueueError)
    → Rising a (all_readings qs)
    → WriterInv a w
    → run_loop w qs pending stop ≡ some w'
    → Spaced w'.log
unfolding run_loop
run_loop-Spaced a w w' [] pending stop h v e =
    subst (λ (u : Writer). Spaced u.log) (some-injective _ _ e) (rw fail_pending-log v.spaced)
run_loop-Spaced a w w' (q ∷ qs) pending stop h v e = elim (Option-cases (serve w q)) [
  | inl stuck ↦ absurd (cc (rw (stuck, run_loop) at e))
  | inr (u, served) ↦
      run_loop-Spaced (latest a (readings q)) u w' qs pending stop
        (Rising-append_right a (readings q) (all_readings qs) h)
        (serve-Inv a w u q (Rising-append_left a (readings q) (all_readings qs) h) v served)
        (rw (served, run_loop) at e)
]

-- Whatever requests come and whatever fails, if the clock never goes back, then 60 seconds or more
-- lie between a write and the 120th write after it: no window of 60 seconds has more than 120 writes.
pub run-Spaced :
    (requests : List Request) (pending : List ℕ) (stop : QueueError) (w : Writer)
    → Rising 0 (all_readings requests)
    → run true requests pending stop ≡ some w
    → Spaced w.log
unfolding run init
run-Spaced requests pending stop w h e =
    run_loop-Spaced 0 init w requests pending stop h
      (record {
        dropped = [];
        split = refl;
        expired = tt;
        few = omega arith;
        spaced = λ i u v x y. absurd (ground arith);
      })
      e
