-- ===== src/Events/Removal.antt =====
-- What the loop of `removeEventHandlerInstance` leaves, the array shifting under it.
use mathlib.Core.List.{append_assoc}
use dgo.Prelude.{
  ℕ, zero, suc, ◌+◌, ◌-◌, ◌<◌, ◌≤◌, ◌≡◌, refl, sym, ap, ◌∙◌, subst, false, List, [], ◌∷◌, ◌++◌,
  length, take, drop, get_or, ◌==◌, if◌then◌else◌, arith, All, Bool-cases, inl, inr, length-append,
  get_or-append_right, take-append_left, drop-append_right,
}
use dgo.Events.{shift, remove_loop}

abbrev pub count : ℕ → List ℕ → ℕ
count h [] = 0
count h (x ∷ xs) = (if x == h then 1 else 0) + count h xs

-- The list without an instance.
abbrev pub without : ℕ → List ℕ → List ℕ
without h [] = []
without h (x ∷ xs) = let rest = without h xs in if x == h then rest else x ∷ rest

abbrev pub Differ : ℕ → List ℕ → Type 0
Differ h xs = All (λ x. (x == h) ≡ false) xs

pub count-append : (h : ℕ) (xs ys : List ℕ) → count h (xs ++ ys) ≡ count h xs + count h ys
count-append h [] ys = omega arith
count-append h (x ∷ xs) ys = let e = count-append h xs ys in omega arith

count_zero : (h : ℕ) (xs : List ℕ) → count h xs ≡ 0 → Differ h xs
count_zero h [] e = tt
count_zero h (x ∷ xs) e = elim (Bool-cases (x == h)) [
  | inl same ↦ absurd (let f = rw same at e in omega arith)
  | inr other ↦ let f = rw other at e in (other, count_zero h xs (omega arith))
]

without-Differ : (h : ℕ) (xs : List ℕ) → Differ h xs → without h xs ≡ xs
without-Differ h [] d = refl
without-Differ h (x ∷ xs) d = let e = d.0 in rw e (ap (◌∷◌ x) (without-Differ h xs d.1))

get_or-All : (P : ℕ → Type 0) (xs : List ℕ) (i : ℕ) → All P xs → i < length xs → P (get_or xs i 0)
get_or-All P [] i a l = absurd (omega arith)
get_or-All P (x ∷ xs) zero a l = a.0
get_or-All P (x ∷ xs) (suc i) a l = get_or-All P xs i a.1 (omega arith)

All-snoc : (P : ℕ → Type 0) (xs : List ℕ) (y : ℕ) → All P xs → P y → All P (xs ++ y ∷ [])
All-snoc P [] y a p = (p, tt)
All-snoc P (x ∷ xs) y a p = (a.0, All-snoc P xs y a.1 p)

-- The loop keeps what it has when nothing from index `i` on is the instance.
not_found :
    (rounds i h : ℕ) (pre suf kept : List ℕ)
    → i ≡ length pre
    → rounds ≤ length suf
    → Differ h suf
    → remove_loop rounds i h (pre ++ suf) kept ≡ kept
unfolding remove_loop
not_found zero i h pre suf kept e l d = refl
not_found (suc rounds) i h pre [] kept e l d = absurd (omega arith)
not_found (suc rounds) i h pre (y ∷ ys) kept e l d =
    let here : get_or (pre ++ y ∷ ys) i 0 ≡ y =
      get_or-append_right pre (y ∷ ys) i 0 0 (omega arith) in
    let off = d.0 in
    rw (here, off)
      (subst (λ a. remove_loop rounds (i + 1) h a kept ≡ kept) (append_assoc pre (y ∷ []) ys)
        (not_found rounds (i + 1) h (pre ++ y ∷ []) ys kept
          (let f = length-append pre (y ∷ []) in omega arith) (omega arith) d.1))

-- The array after a hit at the end of `pre`.
shift_hit :
    (pre ys : List ℕ) (y i : ℕ)
    → i ≡ length pre
    → shift (pre ++ y ∷ ys) i
      ≡ pre ++ (ys ++ get_or (pre ++ y ∷ ys) (length (pre ++ y ∷ ys) - 1) 0 ∷ [])
shift_hit pre ys y i e =
    let front = take-append_left pre (y ∷ ys) i e in
    let back : drop (i + 1) (pre ++ y ∷ ys) ≡ ys =
      subst (λ a. drop (i + 1) a ≡ ys) (append_assoc pre (y ∷ []) ys)
        (drop-append_right (pre ++ y ∷ []) ys (i + 1)
          (let f = length-append pre (y ∷ []) in omega arith)) in
    rw (front, back) refl

-- What the map holds after the hit.
kept_hit :
    (pre ys : List ℕ) (y : ℕ) (last : ℕ)
    → take (length (pre ++ y ∷ ys) - 1) (pre ++ (ys ++ last ∷ [])) ≡ pre ++ ys
kept_hit pre ys y last =
    subst (λ a. take (length (pre ++ y ∷ ys) - 1) a ≡ pre ++ ys) (append_assoc pre ys (last ∷ []))
      (take-append_left (pre ++ ys) (last ∷ []) (length (pre ++ y ∷ ys) - 1)
        (let f = length-append pre (y ∷ ys) in let g = length-append pre ys in omega arith))

-- The rest of the loop after the hit, which finds nothing more.
after_hit :
    (rounds i h : ℕ) (pre ys kept : List ℕ) (y : ℕ)
    → i ≡ length pre
    → rounds ≡ length ys
    → Differ h ys
    → remove_loop rounds
        (i + 1)
        h
        (pre ++ (ys ++ get_or (pre ++ y ∷ ys) (length (pre ++ y ∷ ys) - 1) 0 ∷ []))
        kept
      ≡ kept
unfolding remove_loop
after_hit rounds i h pre [] kept y e r d = rw r refl
after_hit rounds i h pre (z ∷ zs) kept y e r d =
    let last : ℕ = get_or (pre ++ y ∷ z ∷ zs) (length (pre ++ y ∷ z ∷ zs) - 1) 0 in
    let n = length-append pre (y ∷ z ∷ zs) in
    let read : last ≡ get_or (z ∷ zs) (length zs) 0 =
      get_or-append_right pre (y ∷ z ∷ zs) (length (pre ++ y ∷ z ∷ zs) - 1) (suc (length zs)) 0
        (omega arith) in
    let off : (last == h) ≡ false =
      subst (λ v. (v == h) ≡ false) (sym read)
        (get_or-All (λ x. (x == h) ≡ false) (z ∷ zs) (length zs) d (omega arith)) in
    subst (λ a. remove_loop rounds (i + 1) h a kept ≡ kept)
      (append_assoc pre (z ∷ []) (zs ++ last ∷ []))
      (not_found rounds (i + 1) h (pre ++ z ∷ []) (zs ++ last ∷ []) kept
        (let f = length-append pre (z ∷ []) in omega arith)
        (let f = length-append zs (last ∷ []) in omega arith)
        (All-snoc (λ x. (x == h) ≡ false) zs last d.1 off))

remove_loop-without :
    (rounds i h : ℕ) (pre suf : List ℕ)
    → i ≡ length pre
    → rounds ≡ length suf
    → count h suf ≤ 1
    → remove_loop rounds i h (pre ++ suf) (pre ++ suf) ≡ pre ++ without h suf
unfolding remove_loop
remove_loop-without zero i h pre [] e r c = refl
remove_loop-without (suc rounds) i h pre [] e r c = absurd (omega arith)
remove_loop-without zero i h pre (y ∷ ys) e r c = absurd (omega arith)
remove_loop-without (suc rounds) i h pre (y ∷ ys) e r c =
    let here : get_or (pre ++ y ∷ ys) i 0 ≡ y =
      get_or-append_right pre (y ∷ ys) i 0 0 (omega arith) in
    elim (Bool-cases (y == h)) [
      | inl hit ↦
          let rest : Differ h ys = count_zero h ys (let f = rw hit at c in omega arith) in
          rw
            (
              here,
              hit,
              shift_hit pre ys y i e,
              kept_hit pre ys y (get_or (pre ++ y ∷ ys) (length (pre ++ y ∷ ys) - 1) 0),
            )
            (rw (without-Differ h ys rest)
              (after_hit rounds i h pre ys (pre ++ ys) y e (omega arith) rest))
      | inr miss ↦
          rw (here, miss)
            (subst (λ a. remove_loop rounds (i + 1) h a a ≡ pre ++ y ∷ without h ys)
              (append_assoc pre (y ∷ []) ys)
              (remove_loop-without rounds (i + 1) h (pre ++ y ∷ []) ys
                  (let f = length-append pre (y ∷ []) in omega arith) (omega arith)
                  (let f = rw miss at c in omega arith)
                ∙ append_assoc pre (y ∷ []) (without h ys)))
    ]

-- The loop that shifts the array it reads removes the instance and nothing else, keeping the order,
-- when the list holds it once at most.
pub remove_exact :
    (h : ℕ) (hs : List ℕ) → count h hs ≤ 1 → remove_loop (length hs) 0 h hs hs ≡ without h hs
remove_exact h hs c = remove_loop-without (length hs) 0 h [] hs refl refl c
