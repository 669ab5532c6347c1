-- ===== src/State/Index.antt =====
-- A map from names to objects beside a slice of the same objects, as the state cache keeps them for
-- guilds, members, roles, emojis and channels.
use text.Mathlib.Text.{◌==◌ as str_eq}
use text.Mathlib.TextEquality.{eq_iff}
use mathlib.Core.Option.{some-injective}
use dgo.Prelude.{
  ℕ, String, false, List, [], ◌∷◌, ◌++◌, Option, none, some, ◌≡◌, refl, sym, ◌∙◌, arith,
  Option-cases, inl, inr, All, Bool, Bool-cases, subst, if◌then◌else◌,
}
use dgo.Prelude.Assoc.{Assoc, lookup, insert, erase, lookup-insert, lookup-erase}
use dgo.State.{find_first, remove_first}

-- The map that a loop over a slice makes: a later object takes the place of an earlier one.
unfoldable pub index_from : (ℕ → String) → Assoc ℕ → List ℕ → Assoc ℕ
index_from id_of m [] = m
index_from id_of m (x ∷ xs) = index_from id_of (insert (id_of x) x m) xs

-- The first object of a name.
abbrev pub find_id : (ℕ → String) → String → List ℕ → Option ℕ
find_id id_of k xs = find_first (λ x. str_eq (id_of x) k) xs

abbrev pub without_id : (ℕ → String) → String → List ℕ → List ℕ
without_id id_of k xs = remove_first (λ x. str_eq (id_of x) k) xs

-- No two objects have one name.
abbrev pub Unique : (ℕ → String) → List ℕ → Type 0
Unique id_of [] = Unit
Unique id_of (x ∷ xs) = (find_id id_of (id_of x) xs ≡ none) × Unique id_of xs

-- The map finds what a search of the slice finds.
pub record IsIndexed (id_of : ℕ → String) (m : Assoc ℕ) (xs : List ℕ) : Type 0 where
  pub agrees : (k : String) → lookup k m ≡ find_id id_of k xs
  pub unique : Unique id_of xs

module _ (id_of : ℕ → String) where
  find_id-snoc :
      (k : String) (x : ℕ) (xs : List ℕ)
      → find_id id_of (id_of x) xs ≡ none
      → find_id id_of k (xs ++ x ∷ []) ≡ (if str_eq (id_of x) k then some x else find_id id_of k xs)
  unfolding find_first
  find_id-snoc k x [] h = refl
  find_id-snoc k x (y ∷ ys) h = ground (
    arith,
    find_id-snoc k x ys,
    eq_iff (id_of x) k,
    eq_iff (id_of y) k,
    eq_iff (id_of y) (id_of x),
  )

  find_id-snoc_ne :
      (k : String) (x : ℕ) (xs : List ℕ)
      → find_id id_of k xs ≡ none
      → str_eq (id_of x) k ≡ false
      → find_id id_of k (xs ++ x ∷ []) ≡ none
  unfolding find_first
  find_id-snoc_ne k x [] h e = rw e
  find_id-snoc_ne k x (y ∷ ys) h e = ground (arith, find_id-snoc_ne k x ys)

  Unique-snoc :
      (x : ℕ) (xs : List ℕ)
      → Unique id_of xs
      → find_id id_of (id_of x) xs ≡ none
      → Unique id_of (xs ++ x ∷ [])
  unfolding find_first
  Unique-snoc x [] u h = (refl, tt)
  Unique-snoc x (y ∷ ys) u h = (
    find_id-snoc_ne (id_of y) x ys u.0
        (ground (arith, eq_iff (id_of x) (id_of y), eq_iff (id_of y) (id_of x))),
    Unique-snoc x ys u.1 (ground arith),
  )

  pub find_id-without :
      (k j : String) (xs : List ℕ)
      → Unique id_of xs
      → find_id id_of j (without_id id_of k xs) ≡ (if str_eq k j then none else find_id id_of j xs)
  unfolding find_first remove_first
  find_id-without k j [] u = ground arith
  find_id-without k j (x ∷ xs) u =
      ground
        (arith, find_id-without k j xs u.1, u.0, eq_iff k j, eq_iff (id_of x) k, eq_iff (id_of x) j)

  find_id-without_none :
      (k j : String) (xs : List ℕ)
      → find_id id_of j xs ≡ none
      → find_id id_of j (without_id id_of k xs) ≡ none
  unfolding find_first remove_first
  find_id-without_none k j [] h = refl
  find_id-without_none k j (x ∷ xs) h = ground (arith, find_id-without_none k j xs)

  Unique-without :
      (k : String) (xs : List ℕ) → Unique id_of xs → Unique id_of (without_id id_of k xs)
  unfolding remove_first
  Unique-without k [] u = tt
  Unique-without k (x ∷ xs) u =
      ground (arith, u.0, u.1, Unique-without k xs u.1, find_id-without_none k (id_of x) xs)

module _ (id_of : ℕ → String) where
  -- The object that a search finds has the name.
  pub find_id_name : (k : String) (xs : List ℕ) (x : ℕ) → find_id id_of k xs ≡ some x → id_of x ≡ k
  unfolding find_first
  find_id_name k [] x h = absurd (ground arith)
  find_id_name k (y ∷ ys) x h = ground (arith, find_id_name k ys x, eq_iff (id_of y) k)

  pub cached_name :
      {m : Assoc ℕ} {xs : List ℕ} (k : String) (x : ℕ)
      → IsIndexed id_of m xs
      → lookup k m ≡ some x
      → id_of x ≡ k
  cached_name {xs = xs} k x h e = find_id_name k xs x (sym (h.agrees k) ∙ e)

  pub empty-IsIndexed : IsIndexed id_of [] []
  unfolding lookup find_first
  empty-IsIndexed = record { agrees = λ k. refl; unique = tt }

  -- A new object goes to the end of the slice and into the map.
  pub add-IsIndexed :
      {m : Assoc ℕ} {xs : List ℕ} (x : ℕ)
      → IsIndexed id_of m xs
      → lookup (id_of x) m ≡ none
      → IsIndexed id_of (insert (id_of x) x m) (xs ++ x ∷ [])
  add-IsIndexed {m} {xs} x h e =
      let away : find_id id_of (id_of x) xs ≡ none = sym (h.agrees (id_of x)) ∙ e in
      record {
        agrees = λ k.
            ground (arith, lookup-insert (id_of x) k x m, find_id-snoc id_of k x xs, h.agrees k);
        unique = Unique-snoc id_of x xs h.unique away;
      }

  -- The object of a name leaves both.
  pub remove-IsIndexed :
      {m : Assoc ℕ} {xs : List ℕ} (k : String)
      → IsIndexed id_of m xs
      → IsIndexed id_of (erase k m) (without_id id_of k xs)
  remove-IsIndexed {m} {xs} k h = record {
    agrees =
        λ j. ground (arith, lookup-erase k j m, find_id-without id_of k j xs h.unique, h.agrees j);
    unique = Unique-without id_of k xs h.unique;
  }

  -- To put an object again where it is changes nothing.
  pub again-IsIndexed :
      {m : Assoc ℕ} {xs : List ℕ} (k : String) (x : ℕ)
      → IsIndexed id_of m xs
      → lookup k m ≡ some x
      → IsIndexed id_of (insert k x m) xs
  again-IsIndexed {m} {xs} k x h e = record {
    agrees = λ j. ground (arith, lookup-insert k j x m, h.agrees j, h.agrees k, eq_iff k j);
    unique = h.unique;
  }

  lookup-index_from-none :
      (k : String) (m : Assoc ℕ) (xs : List ℕ)
      → find_id id_of k xs ≡ none
      → lookup k (index_from id_of m xs) ≡ lookup k m
  unfolding index_from find_first
  lookup-index_from-none k m [] h = refl
  lookup-index_from-none k m (x ∷ xs) h =
      ground
        (arith, lookup-index_from-none k (insert (id_of x) x m) xs, lookup-insert (id_of x) k x m)

  lookup-index_from :
      (k : String) (m : Assoc ℕ) (xs : List ℕ) (x : ℕ)
      → Unique id_of xs
      → find_id id_of k xs ≡ some x
      → lookup k (index_from id_of m xs) ≡ some x
  unfolding index_from find_first
  lookup-index_from k m [] x u h = absurd (ground arith)
  lookup-index_from k m (y ∷ ys) x u h = ground (
    arith,
    u.0,
    lookup-index_from k (insert (id_of y) y m) ys x u.1,
    lookup-index_from-none (id_of y) (insert (id_of y) y m) ys,
    lookup-insert (id_of y) (id_of y) y m,
    eq_iff (id_of y) k,
    eq_iff (id_of y) (id_of y),
  )

  -- The loop over a slice with names of its own.
  pub index_from-IsIndexed :
      (xs : List ℕ) → Unique id_of xs → IsIndexed id_of (index_from id_of [] xs) xs
  unfolding lookup
  index_from-IsIndexed xs u = record {
    agrees = λ k. elim (Option-cases (find_id id_of k xs)) [
      | inl e ↦ rw e (lookup-index_from-none k [] xs e)
      | inr e ↦ rw e.1 (lookup-index_from k [] xs e.0 u e.1)
    ];
    unique = u;
  }

-- Other names for the objects of the slice, which are the same.
module _ (id_of id_of' : ℕ → String) where
  find_id-rename :
      (k : String) (xs : List ℕ)
      → All (λ x. id_of' x ≡ id_of x) xs
      → find_id id_of' k xs ≡ find_id id_of k xs
  unfolding find_first
  find_id-rename k [] h = refl
  find_id-rename k (x ∷ xs) h = rw (h.0, find_id-rename k xs h.1)

  Unique-rename :
      (xs : List ℕ) → All (λ x. id_of' x ≡ id_of x) xs → Unique id_of xs → Unique id_of' xs
  Unique-rename [] h u = tt
  Unique-rename (x ∷ xs) h u =
      (rw h.0 (find_id-rename (id_of x) xs h.1 ∙ u.0), Unique-rename xs h.1 u.1)

  pub rename-IsIndexed :
      {m : Assoc ℕ} {xs : List ℕ}
      → All (λ x. id_of' x ≡ id_of x) xs
      → IsIndexed id_of m xs
      → IsIndexed id_of' m xs
  rename-IsIndexed {xs = xs} h c = record {
    agrees = λ k. c.agrees k ∙ sym (find_id-rename k xs h);
    unique = Unique-rename xs h c.unique;
  }

pub All-find_first {ℓ} :
    {A : Type ℓ} (P : A → Type 0) (p : A → Bool) (xs : List A) (x : A)
    → All P xs
    → find_first p xs ≡ some x
    → P x
unfolding find_first
All-find_first P p [] x h e = absurd (ground arith)
All-find_first P p (y ∷ ys) x h e = elim (Bool-cases (p y)) [
  | inl f ↦ let here : some y ≡ some x = sym (rw f) ∙ e in subst P (some-injective y x here) h.0
  | inr f ↦ All-find_first P p ys x h.1 (sym (rw f) ∙ e)
]
