-- ===== src/Events/Held.antt =====
-- How often the maps of a session hold an instance.
use text.Mathlib.Text.{◌==◌ as str_eq}
use dgo.Prelude.{
  ℕ, ◌+◌, ◌≤◌, ◌≡◌, refl, ap, String, List, [], ◌∷◌, ◌++◌, length, ◌==◌, if◌then◌else◌, arith,
  Bool-cases, Option-cases, inl, inr,
}
use dgo.Prelude.Assoc.{Assoc, lookup, insert, erase}
use dgo.Events.{
  Handlers, at_type, add_event_handler, add_event_handler_once, remove_loop, remove_from,
  remove_event_handler_instance,
}
use dgo.Events.Removal.{count, without, count-append, remove_exact}

-- How often a map holds an instance.
abbrev pub held : ℕ → Assoc (List ℕ) → ℕ
held h [] = 0
held h (e ∷ m) = count h e.1 + held h m

held-insert :
    (h : ℕ) (t : String) (hs : List ℕ) (m : Assoc (List ℕ))
    → held h (insert t hs m) + count h (at_type m t) ≡ held h m + count h hs
unfolding insert at_type lookup
held-insert h t hs [] = omega arith
held-insert h t hs ((k, ks) ∷ m) =
    let rest = held-insert h t hs m in
    elim (Bool-cases (str_eq k t)) [
      | inl hit ↦ rw (hit, at_type) (omega arith)
      | inr miss ↦ rw (miss, at_type) (omega (arith, rest))
    ]

pub held-erase :
    (h : ℕ) (t : String) (m : Assoc (List ℕ))
    → held h (erase t m) + count h (at_type m t) ≤ held h m
unfolding erase at_type lookup
held-erase h t [] = omega arith
held-erase h t ((k, ks) ∷ m) =
    let rest = held-erase h t m in
    elim (Bool-cases (str_eq k t)) [
      | inl hit ↦ rw (hit, at_type) (omega arith)
      | inr miss ↦ rw (miss, at_type) (omega arith)
    ]

count-without : (x h : ℕ) (hs : List ℕ) → count x (without h hs) ≤ count x hs
count-without x h [] = omega arith
count-without x h (y ∷ ys) =
    let rest = count-without x h ys in
    elim (Bool-cases (y == h)) [ inl hit ↦ rw hit (omega arith) | inr miss ↦ rw miss (omega arith) ]

pub held_at : (h : ℕ) (t : String) (m : Assoc (List ℕ)) → count h (at_type m t) ≤ held h m
held_at h t m = let e = held-erase h t m in omega arith

pub held-remove :
    (x h : ℕ) (t : String) (m : Assoc (List ℕ))
    → held h m ≤ 1
    → held x (remove_from m t h) ≤ held x m
unfolding remove_from
held-remove x h t m l = elim (Option-cases (lookup t m)) [
  | inl gone ↦ rw (gone, remove_from) (omega arith)
  | inr (hs, there) ↦
      let here : at_type m t ≡ hs = unfold at_type in rw (there, at_type) refl in
      let once : count h hs ≤ 1 =
        let g = held_at h t m in let f = ap (count h) here in omega arith in
      let e = held-insert x t (remove_loop (length hs) 0 h hs hs) m in
      let f = ap (count x) here in
      let g = ap (count x) (remove_exact h hs once) in
      let c = count-without x h hs in rw (there, remove_from) (omega arith)
]

-- Every instance is held once at most, and only those that have been made.
pub record Tidy (s : Handlers) : Type 0 where
  pub single : (x : ℕ) → held x s.handlers + held x s.once_handlers ≤ 1
  pub unmade : (x : ℕ) → s.next ≤ x → held x s.handlers + held x s.once_handlers ≡ 0

-- A list with the next instance at its end.
pub held-add :
    (x n : ℕ) (t : String) (m : Assoc (List ℕ))
    → held x (insert t (at_type m t ++ n ∷ []) m) ≡ held x m + (if n == x then 1 else 0)
held-add x n t m =
    let e = held-insert x t (at_type m t ++ n ∷ []) m in
    let f = count-append x (at_type m t) (n ∷ []) in omega arith

pub add-Tidy : (s : Handlers) (t : String) → Tidy s → Tidy (add_event_handler s t).0
unfolding add_event_handler
add-Tidy s t v = record {
  single = λ x.
      let e = held-add x s.next t s.handlers in
      let a = v.single x in let b = v.unmade x in ground arith;
  unmade = λ x l.
      let e = held-add x s.next t s.handlers in let b = v.unmade x (omega arith) in ground arith;
}

pub add_once-Tidy : (s : Handlers) (t : String) → Tidy s → Tidy (add_event_handler_once s t).0
unfolding add_event_handler_once
add_once-Tidy s t v = record {
  single = λ x.
      let e = held-add x s.next t s.once_handlers in
      let a = v.single x in let b = v.unmade x in ground arith;
  unmade = λ x l.
      let e = held-add x s.next t s.once_handlers in
      let b = v.unmade x (omega arith) in ground arith;
}

pub remove-Tidy :
    (s : Handlers) (t : String) (h : ℕ) → Tidy s → Tidy (remove_event_handler_instance s t h)
unfolding remove_event_handler_instance
remove-Tidy s t h v =
    let l = v.single h in
    let drop_p : (x : ℕ) → held x (remove_from s.handlers t h) ≤ held x s.handlers =
      λ x. held-remove x h t s.handlers (omega arith) in
    let drop_o : (x : ℕ) → held x (remove_from s.once_handlers t h) ≤ held x s.once_handlers =
      λ x. held-remove x h t s.once_handlers (omega arith) in
    record {
      single = λ x. let a = drop_p x in let b = drop_o x in let c = v.single x in omega arith;
      unmade = λ x k. let a = drop_p x in let b = drop_o x in let c = v.unmade x k in omega arith;
    }

pub erase-Tidy :
    (s : Handlers) (t : String)
    → Tidy s
    → Tidy (record s { once_handlers = erase t s.once_handlers })
erase-Tidy s t v = record {
  single = λ x. let e = held-erase x t s.once_handlers in let a = v.single x in omega arith;
  unmade = λ x l. let e = held-erase x t s.once_handlers in let a = v.unmade x l in omega arith;
}
