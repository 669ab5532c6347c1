-- ===== src/Prelude/Assoc.antt =====
-- Go maps with string keys, as association lists. The order of the list is the order in which a
-- `range` meets the entries.
use text.Mathlib.Text.{◌==◌ as str_eq}
use text.Mathlib.TextEquality.{eq_iff}
use dgo.Prelude.{
  suc, ◌≤◌, ◌≡◌, refl, String, true, List, [], ◌∷◌, Option, none, some, arith, length,
  if◌then◌else◌,
}

abbrev pub Assoc {ℓ} : Type ℓ → Type ℓ
Assoc V = List (String × V)

module _ {ℓ} {V : Type ℓ} where
  unfoldable pub lookup : String → Assoc V → Option V
  lookup key [] = none
  lookup key ((name, item) ∷ others) = if str_eq name key then some item else lookup key others

  -- `delete(m, k)`
  unfoldable pub erase : String → Assoc V → Assoc V
  erase key [] = []
  erase key ((name, item) ∷ others) =
      let left = erase key others in if str_eq name key then left else (name, item) ∷ left

  -- `m[k] = v`
  unfoldable pub insert : String → V → Assoc V → Assoc V
  insert key item [] = (key, item) ∷ []
  insert key item ((name, old) ∷ others) =
      if str_eq name key then (name, item) ∷ others else (name, old) ∷ insert key item others

  pub lookup-erase :
      (k j : String) (m : Assoc V)
      → lookup j (erase k m) ≡ (if str_eq k j then none else lookup j m)
  unfolding lookup erase
  lookup-erase key wanted [] = ground arith
  lookup-erase key wanted ((name, item) ∷ others) = ground (
    arith,
    lookup-erase key wanted others,
    eq_iff name wanted,
    eq_iff key wanted,
    eq_iff name key,
  )

  pub lookup-insert :
      (k j : String) (v : V) (m : Assoc V)
      → lookup j (insert k v m) ≡ (if str_eq k j then some v else lookup j m)
  unfolding lookup insert
  lookup-insert key wanted item [] = refl
  lookup-insert key wanted item ((name, old) ∷ others) = ground (
    arith,
    lookup-insert key wanted item others,
    eq_iff name wanted,
    eq_iff key wanted,
    eq_iff name key,
  )

  pub length-erase : (k : String) (m : Assoc V) → length (erase k m) ≤ length m
  unfolding erase
  length-erase k [] = omega arith
  length-erase k ((i, w) ∷ m) = ground (arith, length-erase k m)

  -- A key that is there takes one entry at least with it.
  pub length-erase_lt :
      (k : String) (v : V) (m : Assoc V) → lookup k m ≡ some v → suc (length (erase k m)) ≤ length m
  unfolding lookup erase
  length-erase_lt k v [] h = absurd (ground arith)
  length-erase_lt k v ((i, w) ∷ m) h = ground (arith, length-erase k m, length-erase_lt k v m)

  pub length-insert : (k : String) (v : V) (m : Assoc V) → length (insert k v m) ≤ suc (length m)
  unfolding insert
  length-insert k v [] = omega arith
  length-insert k v ((i, w) ∷ m) = ground (arith, length-insert k v m)

  -- A key that is there is not added once more.
  pub length-insert_old :
      (k : String) (v w : V) (m : Assoc V) → lookup k m ≡ some w → length (insert k v m) ≡ length m
  unfolding lookup insert
  length-insert_old k v w [] h = absurd (ground arith)
  length-insert_old k v w ((i, u) ∷ m) h = ground (arith, length-insert_old k v w m)

  pub lookup_head : (k : String) (v : V) (m : Assoc V) → lookup k ((k, v) ∷ m) ≡ some v
  unfolding lookup
  lookup_head k v m = ground (arith, eq_iff k k)

pub str_eq_refl : (k : String) → str_eq k k ≡ true
str_eq_refl k = (eq_iff k k).1 refl

pub eq_of_str_eq : (k j : String) → str_eq k j ≡ true → k ≡ j
eq_of_str_eq k j h = (eq_iff k j).0 h
