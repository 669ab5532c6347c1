-- ===== src/State/Colour.antt =====
-- Which role gives a member its colour.
use mathlib.Core.Option.{some-injective}
use dgo.Prelude.{
  ℕ, zero, suc, get_elem?, All-get_elem?, ap, String, true, false, List, [], ◌∷◌, some, ◌≡◌, arith,
  All, Bool-cases, inl, inr, subst,
}
use dgo.Prelude.Int.{◌≤ℤ◌}
use dgo.State.{find_first, Role}
use dgo.State.Permissions.{coloured, first_role_color}

-- Sorted by `Less`: no role stands behind one of a lower position.
abbrev pub IsSorted : (ℕ → Role) → List ℕ → Type 0
IsSorted heap [] = Unit
IsSorted heap (r ∷ rs) = All (λ x. (heap x).position ≤ℤ (heap r).position) rs × IsSorted heap rs

-- What the first loop finds, in sorted roles.
record IsTop (heap : ℕ → Role) (names : List String) (roles : List ℕ) (r x : ℕ) : Type 0 where
  found : find_first (coloured heap names) roles ≡ some x
  wears : coloured heap names x ≡ true
  above : (heap r).position ≤ℤ (heap x).position

position_refl : (heap : ℕ → Role) (r : ℕ) → (heap r).position ≤ℤ (heap r).position
position_refl heap r = omega arith

module _ (heap : ℕ → Role) (names : List String) (r : ℕ) (h : coloured heap names r ≡ true) where
  -- The first role is at least as high as any.
  first :
      (y : ℕ) (zs : List ℕ) (i : ℕ)
      → All (λ x. (heap x).position ≤ℤ (heap y).position) zs
      → get_elem? (y ∷ zs) i ≡ some r
      → (heap r).position ≤ℤ (heap y).position
  first y zs zero a e =
      subst (λ x. (heap x).position ≤ℤ (heap y).position) (some-injective y r e)
        (position_refl heap y)
  first y zs (suc i) a e = All-get_elem? (λ x. (heap x).position ≤ℤ (heap y).position) zs i r a e

  -- A first role without the colour is not the one.
  later :
      (y : ℕ) (zs : List ℕ) (i : ℕ)
      → get_elem? (y ∷ zs) i ≡ some r
      → coloured heap names y ≡ false
      → (j : ℕ) × (get_elem? zs j ≡ some r)
  later y zs zero e not_here =
      absurd (cc (ap (coloured heap names) (some-injective y r e), not_here, h))
  later y zs (suc i) e not_here = (i, e)

  top :
      (roles : List ℕ) (i : ℕ)
      → IsSorted heap roles
      → get_elem? roles i ≡ some r
      → (x : ℕ) × IsTop heap names roles r x
  unfolding find_first
  top [] i s e = absurd (ground arith)
  top (y ∷ ys) i s e = elim (Bool-cases (coloured heap names y)) [
    | inl here ↦ (y, record { found = rw here; wears = here; above = first y ys i s.0 e })
    | inr not_here ↦
        let rest = later y ys i e not_here in
        let below = top ys rest.0 s.1 rest.1 in
        (
          below.0,
          record {
            found = rw not_here below.1.found;
            wears = below.1.wears;
            above = below.1.above;
          },
        )
  ]

-- A role of the guild that the member has and that has a colour: then the colour of the member is that of
-- such a role, and none such is in a higher position. The roles are in the order that their `Less` asks of
-- `sort.Sort`.
pub first_role_color_top :
    (heap : ℕ → Role) (k : String) (roles : List ℕ) (names : List String) (i r : ℕ)
    → IsSorted heap roles
    → get_elem? roles i ≡ some r
    → coloured heap names r ≡ true
    → (x : ℕ) × (first_role_color heap k roles names ≡ (heap x).color)
      × (coloured heap names x ≡ true)
      × ((heap r).position ≤ℤ (heap x).position)
unfolding first_role_color
first_role_color_top heap k roles names i r s e h =
    let found = top heap names r h roles i s e in
    (found.0, rw (found.1.found, first_role_color), found.1.wears, found.1.above)
