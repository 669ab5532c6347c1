-- ===== src/State/Leavers.antt =====
-- What `ThreadMembersUpdate` does about members who have left.
use dgo.Prelude.{
  ℕ, zero, suc, ◌+◌, String, true, false, List, [], ◌∷◌, Option, none, some, ◌≡◌, refl, sym, ◌∙◌,
  subst, ap, arith, All, All-get_elem?, length, take, take-length, get_elem?, Option-cases, inl,
  inr, if◌then◌else◌,
}
use dgo.Prelude.Int.{ℤ}
use dgo.Prelude.Assoc.{lookup}
use dgo.State.{Slice, items, ThreadMember, Channel, State, StateError, panicked, set_channel}
use dgo.State.Channels.{channel}
use dgo.State.Threads.{
  any_of, cut_at, Cutting, remove_members, cut_members, add_members, finish_update,
  ThreadMembersUpdate, thread_members_update,
}

-- The loop finds nothing to remove.
remove_none :
    (rounds i : ℕ) (removed : List String) (ms : List ThreadMember) (len : ℕ)
    → All (λ m. any_of removed m.id ≡ false) ms
    → remove_members rounds i removed ms len
      ≡ record { array = ms; len = len; out_of_range = false }
unfolding remove_members
remove_none zero i removed ms len h = refl
remove_none (suc rounds) i removed ms len h = elim (Option-cases (get_elem? ms i)) [
  | inl e ↦ rw (e, remove_members) (remove_none rounds (i + 1) removed ms len h)
  | inr e ↦
      let stays : any_of removed e.0.id ≡ false =
        All-get_elem? (λ (m : ThreadMember). any_of removed m.id ≡ false) ms i e.0 h e.1 in
      rw (e.1, remove_members) (rw stays (remove_none rounds (i + 1) removed ms len h))
]

same_ids :
    (k : String) (removed : List String) (ms : List ThreadMember)
    → All (λ (m : ThreadMember). m.id ≡ k) ms
    → any_of removed k ≡ false
    → All (λ (m : ThreadMember). any_of removed m.id ≡ false) ms
same_ids k removed [] h e = tt
same_ids k removed (m ∷ ms) h e =
    (subst (λ n. any_of removed n ≡ false) (sym h.0) e, same_ids k removed ms h.1 e)

-- The rest of the function, behind the loop.
abbrev outcome : State → ThreadMembersUpdate → ℕ → Cutting → State × Option StateError
outcome s u c cutting =
    let s' = set_channel s c (cut_members (s.channel_at c) cutting) in
    if cutting.out_of_range
    then (s', some panicked)
    else finish_update (add_members s' c u.guild_id u.added_members) c u.member_count

abbrev uncut : List ThreadMember → Cutting
uncut ms = record { array = ms; len = length ms; out_of_range = false }

no_change :
    (s : State) (c : ℕ) (ch : Channel) (k : String) (n : ℤ)
    → ((finish_update (add_members (set_channel s c ch) c k []) c n).0.channel_at c).members
      ≡ ch.members
unfolding finish_update add_members
no_change s c ch k n = ground arith

whole_slice :
    {A : Type 0} (m : Slice A)
    → items (elim m as (λ x. Slice A) [
      | none ↦ none
      | some _ ↦ some (take (length (items m)) (items m))
    ])
      ≡ items m
whole_slice none = refl
whole_slice (some xs) = take-length xs (length xs) refl

cut_whole :
    (ch : Channel) → items (cut_members ch (uncut (items ch.members))).members ≡ items ch.members
unfolding cut_members
cut_whole ch = whole_slice ch.members

whole :
    (s : State) (u : ThreadMembersUpdate) (c : ℕ)
    → u.added_members ≡ []
    → items ((outcome s u c (uncut (items (s.channel_at c).members))).0.channel_at c).members
      ≡ items (s.channel_at c).members
whole s u c a =
    let ch = cut_members (s.channel_at c) (uncut (items (s.channel_at c).members)) in
    subst
      (λ added.
        items
          ((finish_update (add_members (set_channel s c ch) c u.guild_id added) c
              u.member_count).0.channel_at
            c).members
        ≡ items (s.channel_at c).members)
      (sym a) (ap items (no_change s c ch u.guild_id u.member_count) ∙ cut_whole (s.channel_at c))

-- Where the ID of each thread member is the ID of the thread, as its documentation says, and the removed
-- IDs are those of users and not that of the thread, ThreadMembersUpdate without new members leaves the
-- members of the thread as they were, whoever has left.
pub leavers_stay :
    (s : State) (u : ThreadMembersUpdate) (c : ℕ)
    → lookup u.id s.channel_map ≡ some c
    → All (λ (m : ThreadMember). m.id ≡ u.id) (items (s.channel_at c).members)
    → any_of u.removed_members u.id ≡ false
    → u.added_members ≡ []
    → items ((thread_members_update s u).0.channel_at c).members ≡ items (s.channel_at c).members
unfolding thread_members_update channel
leavers_stay s u c e h r a =
    let ms = items (s.channel_at c).members in
    rw (e, thread_members_update)
      (subst
        (λ q. items ((outcome s u c q).0.channel_at c).members ≡ items (s.channel_at c).members)
        (sym (
          remove_none (length ms) 0 u.removed_members ms (length ms)
            (same_ids u.id u.removed_members ms h r)))
        (whole s u c a))

-- The code that removes members panics when both members of a thread have left.
pub two_leavers_panic :
    (s : State) (u : ThreadMembersUpdate) (c : ℕ) (m n : ThreadMember)
    → lookup u.id s.channel_map ≡ some c
    → (s.channel_at c).members ≡ some (m ∷ n ∷ [])
    → any_of u.removed_members m.id ≡ true
    → any_of u.removed_members n.id ≡ true
    → (thread_members_update s u).1 ≡ some panicked
unfolding thread_members_update channel remove_members cut_at
two_leavers_panic s u c m n e h first second =
    rw (e, thread_members_update) (rw (h, remove_members) (rw (first, second)))
