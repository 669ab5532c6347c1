-- ===== src/GatewayWrite/Slots.antt =====
-- How long a request waits for a slot.
use dgo.Prelude.{
  ℕ, ◌+◌, ◌<◌, ◌≤◌, ◌≡◌, refl, ◌∙◌, Bool-cases, inl, inr, if◌then◌else◌, List, [], ◌∷◌, none, arith,
  length, get_or, ltb,
}
use dgo.Window.{prune, length-prune, prune_head, length-prune_head}
use dgo.GatewayWrite.{send_limit, send_window, Round, ready, wait_for_slot}

-- The `continue` of the loop is never reached: after pruning, the oldest write is within the window.
pub head_is_fresh :
    (now : ℕ) (sent_at : List ℕ)
    → send_limit ≤ length (prune send_window now sent_at)
    → now < get_or (prune send_window now sent_at) 0 0 + send_window
head_is_fresh now sent_at h = go (prune send_window now sent_at) refl h
  where
    go :
        (k : List ℕ)
        → prune send_window now sent_at ≡ k
        → 120 ≤ length k
        → now < get_or k 0 0 + send_window
    go [] e l = absurd (omega arith)
    go (t ∷ ts) e l = prune_head send_window now sent_at t ts e

ready_after_expiry :
    (r : Round) (rounds : List Round) (kept : List ℕ)
    → send_limit ≤ length kept
    → length kept ≤ send_limit
    → get_or kept 0 0 + send_window ≤ r.now
    → wait_for_slot (r ∷ rounds) kept ≡ ready (prune send_window r.now kept)
unfolding wait_for_slot
ready_after_expiry r rounds [] h l e = absurd (omega arith)
ready_after_expiry r rounds (t ∷ ts) h l e =
    ground (arith, length-prune_head send_window r.now t ts)

room_after_expiry :
    (r : Round) (kept : List ℕ)
    → send_limit ≤ length kept
    → length kept ≤ send_limit
    → get_or kept 0 0 + send_window ≤ r.now
    → length (prune send_window r.now kept) < send_limit
room_after_expiry r [] h l e = absurd (omega arith)
room_after_expiry r (t ∷ ts) h l e = ground (arith, length-prune_head send_window r.now t ts)

first_round :
    (r : Round) (rounds : List Round) (sent_at : List ℕ)
    → r.waited ≡ none
    → wait_for_slot (r ∷ rounds) sent_at ≡ (
        if ltb (length (prune send_window r.now sent_at)) send_limit
        then ready (prune send_window r.now sent_at)
        else wait_for_slot rounds (prune send_window r.now sent_at))
unfolding wait_for_slot
first_round r rounds sent_at calm = ground arith

-- With no more than the limit on record, and a wait that lasts as long as it was asked to, a request
-- gets its slot in at most two rounds, and there is room for its write then.
pub wait_for_slot_two :
    (r r' : Round) (rounds : List Round) (sent_at : List ℕ)
    → length sent_at ≤ send_limit
    → r.waited ≡ none
    → get_or (prune send_window r.now sent_at) 0 0 + send_window ≤ r'.now
    → (kept : List ℕ) × (wait_for_slot (r ∷ r' ∷ rounds) sent_at ≡ ready kept)
      × (length kept < send_limit)
wait_for_slot_two r r' rounds sent_at few calm lasted =
    let kept : List ℕ = prune send_window r.now sent_at in
    let short = length-prune send_window r.now sent_at in
    let first = first_round r (r' ∷ rounds) sent_at calm in
    elim (Bool-cases (ltb (length kept) send_limit)) [
      | inl room ↦ (kept, first ∙ rw room, ground arith)
      | inr full ↦ (
        prune send_window r'.now kept,
        first ∙ rw full (ready_after_expiry r' rounds kept (ground arith) (omega arith) lasted),
        room_after_expiry r' kept (ground arith) (omega arith) lasted,
      )
    ]
