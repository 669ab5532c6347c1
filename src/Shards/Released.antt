-- ===== src/Shards/Released.antt =====
-- The waiters of `Close`, once the calls at work have run on.
use dgo.Prelude.{
  ℕ, ◌<◌, ◌≡◌, sym, ◌∙◌, subst, List, [], ◌∷◌, Option, none, some, ◌⊎◌, inl, inr, arith, All,
  All-mono,
}
use dgo.Shards.{System, fresh_system, Move, run, open_moves, close_moves}
use dgo.Shards.Exclusive.{step-Sound, fresh-Sound}
use dgo.Shards.Waiters.{Answered, answered, run-Heard}
use dgo.Shards.Work.{Sound}
use dgo.Shards.Stretches.{no_opener, no_closer, open_at_most, close_at_most, open_on, close_on}

-- What the sessions answer to a stretch, in order.
abbrev pub Answers : Type 0
Answers = List (Option ℕ)

abbrev pub open_stretches : Answers → Answers → Option ℕ → List Move
open_stretches opened_with closed_with lifetime_err =
    open_moves 0 opened_with lifetime_err
    ∷ open_moves 0 closed_with none
    ∷ open_moves 0 [] none
    ∷ []

abbrev pub close_stretches : Answers → List Move
close_stretches closed_with = close_moves 0 [] ∷ close_moves 0 closed_with ∷ close_moves 0 [] ∷ []

opens_through :
    (s : System) (a b : Answers) (e : Option ℕ)
    → Sound s
    → ((run s (open_stretches a b e)).openers ≡ [])
      × ((run s (open_stretches a b e)).waiters ≡ s.waiters)
unfolding run
opens_through s a b e v =
    let first = open_on s a e v in
    let second = open_on _ b none first.sound in
    let third = open_on _ [] none second.sound in
    let bound = open_at_most s.openers in
    (
      no_opener _ (omega (arith, first.fewer, second.fewer, third.fewer)),
      third.waiters ∙ second.waiters ∙ first.waiters,
    )

closes_through :
    (s : System) (b : Answers)
    → Sound s
    → s.openers ≡ []
    → ((run s (close_stretches b)).openers ≡ [])
      × ((run s (close_stretches b)).closers ≡ [])
      × ((run s (close_stretches b)).waiters ≡ s.waiters)
unfolding run
closes_through s b v idle =
    let sound1 = step-Sound s (close_moves 0 []) v in
    let first = close_on s [] v idle in
    let idle1 = first.openers ∙ idle in
    let second = close_on _ b sound1 idle1 in
    let idle2 = second.openers ∙ idle1 in
    let third = close_on _ [] (step-Sound _ (close_moves 0 b) sound1) idle2 in
    let bound = close_at_most s.closers in
    (
      third.openers ∙ idle2,
      no_closer _ (omega (arith, first.fewer, second.fewer, third.fewer)),
      third.waiters ∙ second.waiters ∙ first.waiters,
    )

released : (s : System) → s.closers ≡ [] → (w : ℕ) → Answered s w → 0 < s.done w
released s none_left w a = elim a.closer [
  | inl over ↦ over
  | inr (q, cs, same) ↦ absurd (let g = sym none_left ∙ cs in ground arith)
]

-- No call of `Close` waits for ever: from every state that can be reached, by whatever calls and in
-- whatever order, three more stretches of the `Open` at work, if there is one, and then three of the `Close` at work, whatever the
-- sessions answer, bring both to their end, and the channel of every `Close` that waits for another one is closed
-- then.
pub waiters_released :
    (ms : List Move) (opened_with cleaned_with closed_with : Answers) (lifetime_err : Option ℕ)
    → let s : System = run fresh_system ms in
      let t : System =
        run
          (run s (open_stretches opened_with cleaned_with lifetime_err))
          (close_stretches closed_with) in
      (t.openers ≡ []) × (t.closers ≡ []) × All (λ w. 0 < t.done w) s.waiters
waiters_released ms a b c e =
    let s : System = run fresh_system ms in
    let q : System = run s (open_stretches a b e) in
    let t : System = run q (close_stretches c) in
    let (v, h) = run-Heard fresh_system ms fresh-Sound tt in
    let (idle, kept) = opens_through s a b e v in
    let (v', h') = run-Heard s (open_stretches a b e) v h in
    let (no_open, no_close, kept') = closes_through q c v' idle in
    let (v'', h'') = run-Heard q (close_stretches c) v' h' in
    (
      no_open,
      no_close,
      subst (All (λ w. 0 < t.done w)) (kept' ∙ kept) (
          All-mono (λ w. (0 < t.done w) ⊎ (t.manager.close_done ≡ some w)) (λ w. 0 < t.done w)
            t.waiters (λ w x. released t no_close w (answered t w v'' x)) h''),
    )
