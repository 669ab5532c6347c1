-- ===== src/State/Bounds.antt =====
-- The messages that the cache keeps for each channel.
use text.Mathlib.Text.{◌==◌ as str_eq}
use text.Mathlib.TextEquality.{eq_iff}
use dgo.Prelude.{
  ℕ, zero, suc, ◌-◌, ◌≤◌, ◌<◌, String, Bool, true, List, [], ◌∷◌, ◌++◌, Option, none, some, ◌≡◌,
  sym, subst, arith, length, drop, length-append, length-drop, ltb, Option-cases, Bool-cases, inl,
  inr, if◌then◌else◌,
}
use mathlib.Core.Path.{fun_ext}
use dgo.Prelude.Assoc.{lookup, str_eq_refl}
use dgo.State.{items, find_first, remove_first, store, State}
use dgo.State.Index.{Unique, find_id, find_id-without}
use dgo.State.Channels.{channel}
use dgo.State.Messages.{
  message_id, is_message, merge_message, trim, put_message, message_add, cut_message,
  message_remove_by_id, message,
}

-- No channel has more messages than the bound.
abbrev pub IsWithin : State → Type 0
IsWithin s = (x : ℕ) → length (items (s.channel_at x).messages) ≤ s.max_message_count

length-trim : (bound : ℕ) (ms : List ℕ) → length (trim bound ms) ≤ bound
unfolding trim
length-trim bound ms = ground (arith, length-drop (length ms - bound) ms)

length-remove_first {ℓ} :
    {A : Type ℓ} (p : A → Bool) (xs : List A) → length (remove_first p xs) ≤ length xs
unfolding remove_first
length-remove_first p [] = omega arith
length-remove_first p (x ∷ xs) = ground (arith, length-remove_first p xs)

message_add-IsWithin : (s : State) (a : ℕ) → IsWithin s → IsWithin (message_add s a).0
unfolding message_add channel put_message
message_add-IsWithin s a h =
    elim (Option-cases (lookup (s.message_at a).channel_id s.channel_map)) [
      | inl e ↦ rw (e, message_add) h
      | inr e ↦
          rw (e.1, message_add)
            (elim (Option-cases
              (find_first (is_message s (message_id s a)) (items (s.channel_at e.0).messages))) [
                | inl f ↦
                    rw (f, put_message)
                      (λ x. ground (
                        arith,
                        h x,
                        length-trim s.max_message_count
                            (items (s.channel_at e.0).messages ++ a ∷ []),
                      ))
                | inr f ↦ rw (f.1, put_message) h
              ])
    ]

message_remove-IsWithin :
    (s : State) (c k : String) → IsWithin s → IsWithin (message_remove_by_id s c k).0
unfolding message_remove_by_id channel cut_message
message_remove-IsWithin s c k h = elim (Option-cases (lookup c s.channel_map)) [
  | inl e ↦ rw (e, message_remove_by_id) h
  | inr e ↦
      rw (e.1, message_remove_by_id)
        (elim (Option-cases (find_first (is_message s k) (items (s.channel_at e.0).messages))) [
          | inl f ↦ rw (f, cut_message) h
          | inr f ↦
              rw (f.1, cut_message)
                (λ x. ground (
                  arith,
                  h x,
                  h e.0,
                  length-remove_first (is_message s k) (items (s.channel_at e.0).messages),
                ))
        ])
]

-- No channel comes to hold more than MaxMessageCount messages by `MessageAdd` or by `messageRemoveByID`,
-- if none did before.
pub messages-IsWithin :
    (s : State) (a : ℕ) (c k : String)
    → IsWithin s
    → IsWithin (message_add s a).0 × IsWithin (message_remove_by_id s c k).0
messages-IsWithin s a c k h = (message_add-IsWithin s a h, message_remove-IsWithin s c k h)

module _ {A : Type 0} (p : A → Bool) where
  find_first-last :
      (xs : List A) (x : A)
      → find_first p xs ≡ none
      → p x ≡ true
      → find_first p (xs ++ x ∷ []) ≡ some x
  unfolding find_first
  find_first-last [] x e h = rw h
  find_first-last (y ∷ ys) x e h = ground (arith, find_first-last ys x)

  find_first-drop :
      (n : ℕ) (xs : List A) (x : A)
      → n ≤ length xs
      → find_first p xs ≡ none
      → p x ≡ true
      → find_first p (drop n (xs ++ x ∷ [])) ≡ some x
  unfolding find_first
  find_first-drop zero xs x l e h = find_first-last xs x e h
  find_first-drop (suc n) [] x l e h = absurd (omega arith)
  find_first-drop (suc n) (y ∷ ys) x l e h = find_first-drop n ys x (omega arith) (ground arith) h

-- The message that a lookup finds once a message was added: the cached one, or else the new one.
abbrev pub kept_or : Option ℕ → ℕ → ℕ
kept_or none a = a
kept_or (some m) a = m

find_first-trim :
    (p : ℕ → Bool) (bound : ℕ) (ms : List ℕ) (a : ℕ)
    → 0 < bound
    → find_first p ms ≡ none
    → p a ≡ true
    → find_first p (trim bound (ms ++ a ∷ [])) ≡ some a
unfolding trim
find_first-trim p bound ms a h e q = elim (Bool-cases (ltb bound (length (ms ++ a ∷ [])))) [
  | inl l ↦ rw l (
      find_first-drop p (length (ms ++ a ∷ []) - bound) ms a
        (omega (arith, length-append ms (a ∷ []))) e q)
  | inr l ↦ rw l (find_first-last p ms a e q)
]

-- After `MessageAdd` for a cached channel, where at least one message is kept, `Message` finds the message:
-- the cached object, if there was one with its ID, and the new object otherwise.
pub message_add-message :
    (s : State) (a c : ℕ)
    → 0 < s.max_message_count
    → lookup (s.message_at a).channel_id s.channel_map ≡ some c
    → message (message_add s a).0 (s.message_at a).channel_id (message_id s a)
      ≡ some (kept_or (message s (s.message_at a).channel_id (message_id s a)) a)
unfolding message_add channel put_message message merge_message
message_add-message s a c bound e =
    rw (e, message_add)
      (elim (Option-cases
        (find_first (is_message s (message_id s a)) (items (s.channel_at c).messages))) [
          | inl f ↦
              rw (f, put_message)
                (rw (e, message)
                  (rw (f, kept_or)
                    (ground (
                      arith,
                      find_first-trim (is_message s (message_id s a)) s.max_message_count
                          (items (s.channel_at c).messages) a bound f
                          (str_eq_refl (message_id s a)),
                    ))))
          | inr f ↦
              rw (f.1, put_message)
                (rw (e, message)
                  (rw (f.1, kept_or)
                    (subst
                      (λ n. find_id n (message_id s a) (items (s.channel_at c).messages) ≡ some f.0)
                      (sym (same_names f.0)) f.1)))
        ])
  where
    same_names :
        (m : ℕ)
        → ◌≡◌ {A = ℕ → String}
            (λ x. (store s.message_at m (merge_message (s.message_at a) (s.message_at m)) x).id)
            (message_id s)
    same_names m = fun_ext λ x. ground arith

-- Where no two messages of a cached channel have one ID, `messageRemoveByID` takes out the message of the
-- ID: `Message` finds every other one as before, and that one no more.
pub message_remove-message :
    (s : State) (c : ℕ) (x k j : String)
    → lookup x s.channel_map ≡ some c
    → Unique (message_id s) (items (s.channel_at c).messages)
    → message (message_remove_by_id s x k).0 x j ≡ (if str_eq k j then none else message s x j)
unfolding message_remove_by_id channel cut_message message
message_remove-message s c x k j e u =
    rw (e, message_remove_by_id)
      (elim (Option-cases (find_first (is_message s k) (items (s.channel_at c).messages))) [
        | inl f ↦ rw (f, cut_message) (rw (e, message) (ground (arith, f, eq_iff k j)))
        | inr f ↦
            rw (f.1, cut_message)
              (rw (e, message)
                (ground
                  (arith, find_id-without (message_id s) k j (items (s.channel_at c).messages) u)))
      ])
