-- ===== src/GatewayWrite/Replies.antt =====
-- Every request is answered once.
use dgo.Prelude.{
  ℕ, ◌≡◌, sym, ap, ◌∙◌, subst, ◌↔◌, inl, inr, Bool, true, false, List, [], ◌∷◌, ◌++◌, map, Option,
  none, some, arith, Option-cases,
}
use mathlib.Core.Option.{some-injective}
use mathlib.Core.List.{append_assoc, append-nil, map-append}
use dgo.GatewayWrite.{
  QueueError, Slot, ready, refused, waiting, Request, Writer, init, write, answer, after_wait,
  wait_for_slot, serve, fail_pending, run_loop, run, Submit, submitted, Await, replied, enqueue,
}

abbrev pub answered : Writer → List ℕ
answered w = map (λ r. r.0) w.results

answered-answer :
    (w : Writer) (id : ℕ) (e : Option QueueError) → answered (answer w id e) ≡ answered w ++ id ∷ []
unfolding answer
answered-answer w id e = map-append (λ r. r.0) w.results ((id, e) ∷ [])

answered-write :
    (w : Writer) (kept : List ℕ) (q : Request) → answered (write w kept q) ≡ answered w ++ q.id ∷ []
unfolding write
answered-write w kept q = elim (Option-cases q.write_err) [
  | inl e ↦ rw (e, write) (answered-answer w q.id none)
  | inr (x, e) ↦ rw (e, write) (answered-answer w q.id (some x))
]

answered-after_wait :
    (w w' : Writer) (q : Request) (s : Slot)
    → after_wait w q s ≡ some w'
    → answered w' ≡ answered w ++ q.id ∷ []
unfolding after_wait
answered-after_wait w w' q (ready kept) e =
    subst (λ u. answered u ≡ answered w ++ q.id ∷ []) (some-injective _ _ e)
      (answered-write w kept q)
answered-after_wait w w' q (refused kept x) e =
    subst (λ u. answered u ≡ answered w ++ q.id ∷ []) (some-injective _ _ e)
      (answered-answer _ q.id (some x))
answered-after_wait w w' q waiting e = absurd (ground arith)

answered-serve :
    (w w' : Writer) (q : Request) → serve w q ≡ some w' → answered w' ≡ answered w ++ q.id ∷ []
unfolding serve
answered-serve w w' q e = elim (Option-cases q.ctx_err) [
  | inl live ↦ answered-after_wait w w' q (wait_for_slot q.rounds w.sent_at) (rw (live, serve) at e)
  | inr (x, gone) ↦
      subst (λ u. answered u ≡ answered w ++ q.id ∷ []) (some-injective _ _ (rw (gone, serve) at e))
        (answered-answer w q.id (some x))
]

answered-fail_pending :
    (w : Writer) (ids : List ℕ) (e : QueueError)
    → answered (fail_pending w ids e) ≡ answered w ++ ids
unfolding fail_pending
answered-fail_pending w [] e = sym (append-nil (answered w))
answered-fail_pending w (id ∷ ids) e =
    answered-fail_pending (answer w id (some e)) ids e
    ∙ ap (λ l. l ++ ids) (answered-answer w id (some e))
    ∙ append_assoc (answered w) (id ∷ []) ids

answered-run_loop :
    (w w' : Writer) (qs : List Request) (pending : List ℕ) (stop : QueueError)
    → run_loop w qs pending stop ≡ some w'
    → answered w' ≡ answered w ++ (map (λ q. q.id) qs ++ pending)
unfolding run_loop
answered-run_loop w w' [] pending stop e =
    subst (λ u. answered u ≡ answered w ++ pending) (some-injective _ _ e)
      (answered-fail_pending w pending stop)
answered-run_loop w w' (q ∷ qs) pending stop e = elim (Option-cases (serve w q)) [
  | inl stuck ↦ absurd (cc (rw (stuck, run_loop) at e))
  | inr (u, served) ↦
      answered-run_loop u w' qs pending stop (rw (served, run_loop) at e)
      ∙ ap (λ l. l ++ (map (λ r. r.id) qs ++ pending)) (answered-serve w u q served)
      ∙ append_assoc (answered w) (q.id ∷ []) (map (λ r. r.id) qs ++ pending)
]

-- When the writer has stopped, with a websocket or without one, every request that it took up and
-- every request left in the channel has been answered, each once and in order.
pub answered-run :
    (has_writer : Bool) (requests : List Request) (pending : List ℕ) (stop : QueueError)
    (w : Writer)
    → run has_writer requests pending stop ≡ some w
    → map (λ r. r.0) w.results ≡ map (λ q. q.id) requests ++ pending
unfolding run init
answered-run true requests pending stop w e = answered-run_loop init w requests pending stop e
answered-run false requests pending stop w e =
    subst (λ u. answered u ≡ map (λ q. q.id) requests ++ pending) (some-injective _ _ e)
      (answered-fail_pending init (map (λ q. q.id) requests ++ pending) _)

-- `enqueue` succeeds exactly if its context was live, the writer took the request, and the writer
-- answered it with no error.
pub enqueue-none :
    (ctx_err : Option QueueError) (submit : Submit) (await : Await)
    → (enqueue ctx_err submit await ≡ none)
      ↔ ((ctx_err ≡ none) × (submit ≡ submitted) × (await ≡ replied none))
unfolding enqueue
enqueue-none ctx_err submit await = (λ h. ground arith, λ h. ground arith)
