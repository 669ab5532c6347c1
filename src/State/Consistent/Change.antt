-- ===== src/State/Consistent/Change.antt =====
-- How the agreement of maps and slices moves when one guild changes, comes or goes.
use text.Mathlib.Text.{◌==◌ as str_eq}
use dgo.Prelude.{ℕ, String, false, [], none, some, ◌≡◌, Option-cases, Bool-cases, inl, inr, subst}
use dgo.Prelude.Assoc.{
  Assoc, lookup, insert, erase, lookup-insert, lookup-erase, str_eq_refl, eq_of_str_eq,
}
use dgo.State.{Slice, items, or_old}
use dgo.State.Index.{IsIndexed, Unique, index_from, index_from-IsIndexed, empty-IsIndexed}
use dgo.State.Guilds.{create_map, remake_map}
use dgo.State.Consistent.{
  opened, Owned, AllOwned, Owned-some, Owned-opened, Owned-none, Owned-map, absent-Owned,
  Owned-slices,
}

module _ {V : Type 0} where
  pub lookup-insert_self : (k : String) (v : V) (m : Assoc V) → lookup k (insert k v m) ≡ some v
  lookup-insert_self k v m = rw (lookup-insert k k v m) (rw (str_eq_refl k))

  pub lookup-insert_ne :
      (k j : String) (v : V) (m : Assoc V)
      → str_eq k j ≡ false
      → lookup j (insert k v m) ≡ lookup j m
  lookup-insert_ne k j v m e = rw (lookup-insert k j v m) (rw e)

  pub lookup-erase_self : (k : String) (m : Assoc V) → lookup k (erase k m) ≡ none
  lookup-erase_self k m = rw (lookup-erase k k m) (rw (str_eq_refl k))

  pub lookup-erase_ne :
      (k j : String) (m : Assoc V) → str_eq k j ≡ false → lookup j (erase k m) ≡ lookup j m
  lookup-erase_ne k j m e = rw (lookup-erase k j m) (rw e)

module _ (id_of : ℕ → String) (slices slices' : ℕ → Slice ℕ) (guilds : Assoc ℕ)
    (maps : Assoc (Assoc ℕ)) (own : AllOwned id_of slices guilds maps) (k : String) where
  -- One guild gets a new map and a new slice.
  pub change-AllOwned :
      (g : ℕ) (m : Assoc ℕ)
      → lookup k guilds ≡ some g
      → IsIndexed id_of m (items (slices' g))
      → ((j : String) (x : ℕ)
          → str_eq k j ≡ false
          → lookup j guilds ≡ some x
          → slices' x ≡ slices x)
      → AllOwned id_of slices' guilds (insert k m maps)
  change-AllOwned g m e h other j = elim (Bool-cases (str_eq k j)) [
    | inl same ↦
        subst (λ n. Owned id_of slices' (lookup n guilds) (lookup n (insert k m maps)))
          (eq_of_str_eq k j same)
          (Owned-some id_of slices' _ _ g m e (lookup-insert_self k m maps) h)
    | inr differ ↦
        rw (lookup-insert_ne k j m maps differ)
          (Owned-slices id_of slices slices' _ _ (λ x f. other j x differ f) (own j))
  ]

  -- One guild goes.
  pub erase-AllOwned :
      ((j : String) (x : ℕ) → str_eq k j ≡ false → lookup j guilds ≡ some x → slices' x ≡ slices x)
      → AllOwned id_of slices' (erase k guilds) (erase k maps)
  erase-AllOwned other j = elim (Bool-cases (str_eq k j)) [
    | inl same ↦
        subst (λ n. Owned id_of slices' (lookup n (erase k guilds)) (lookup n (erase k maps)))
          (eq_of_str_eq k j same)
          (Owned-none id_of slices' _ _ (lookup-erase_self k guilds) (lookup-erase_self k maps))
    | inr differ ↦ rw (lookup-erase_ne k j guilds differ) (
        rw (lookup-erase_ne k j maps differ)
          (Owned-slices id_of slices slices' _ _ (λ x f. other j x differ f) (own j)))
  ]

  -- One guild comes.
  pub insert-AllOwned :
      (g : ℕ) (m : Assoc ℕ)
      → lookup k guilds ≡ none
      → IsIndexed id_of m (items (slices' g))
      → ((j : String) (x : ℕ)
          → str_eq k j ≡ false
          → lookup j guilds ≡ some x
          → slices' x ≡ slices x)
      → AllOwned id_of slices' (insert k g guilds) (insert k m maps)
  insert-AllOwned g m e h other j = elim (Bool-cases (str_eq k j)) [
    | inl same ↦
        subst (λ n. Owned id_of slices' (lookup n (insert k g guilds)) (lookup n (insert k m maps)))
          (eq_of_str_eq k j same)
          (Owned-some id_of slices' _ _ g m (lookup-insert_self k g guilds)
            (lookup-insert_self k m maps) h)
    | inr differ ↦ rw (lookup-insert_ne k j g guilds differ) (
        rw (lookup-insert_ne k j m maps differ)
          (Owned-slices id_of slices slices' _ _ (λ x f. other j x differ f) (own j)))
  ]

  -- A guild that is cached already, with the slice that it brings or else the old one.
  pub remake-AllOwned :
      (g : ℕ) (slice : Slice ℕ)
      → lookup k guilds ≡ some g
      → Unique id_of (items slice)
      → slices' g ≡ or_old slice (slices g)
      → ((j : String) (x : ℕ)
          → str_eq k j ≡ false
          → lookup j guilds ≡ some x
          → slices' x ≡ slices x)
      → AllOwned id_of slices' guilds (remake_map id_of k slice maps)
  unfolding remake_map create_map
  remake-AllOwned g none e u f other =
      let mine = Owned-map id_of slices _ _ g (own k) e in
      elim (Option-cases (lookup k maps)) [
        | inl away ↦
            rw (away, remake_map)
              (change-AllOwned g [] e
                (rw f (subst (λ p. IsIndexed id_of (opened p) (items (slices g))) away mine)) other)
        | inr there ↦
            rw (there.1, remake_map)
              λ j. elim (Bool-cases (str_eq k j)) [
                | inl same ↦
                    subst (λ n. Owned id_of slices' (lookup n guilds) (lookup n maps))
                      (eq_of_str_eq k j same) (Owned-opened id_of slices' _ _ g e (rw f mine))
                | inr differ ↦
                    Owned-slices id_of slices slices' _ _ (λ x f. other j x differ f) (own j)
              ]
      ]
  remake-AllOwned g (some xs) e u f other =
      change-AllOwned g (index_from id_of [] xs) e (rw f (index_from-IsIndexed id_of xs u)) other

  -- A guild that is new.
  pub fresh-AllOwned :
      (g : ℕ) (slice : Slice ℕ)
      → lookup k guilds ≡ none
      → Unique id_of (items slice)
      → slices' g ≡ slice
      → ((j : String) (x : ℕ)
          → str_eq k j ≡ false
          → lookup j guilds ≡ some x
          → slices' x ≡ slices x)
      → AllOwned id_of slices' (insert k g guilds) (remake_map id_of k slice maps)
  unfolding remake_map create_map
  fresh-AllOwned g none e u f other =
      let away = absent-Owned id_of slices _ _ (own k) e in
      rw (away, remake_map) (insert-AllOwned g [] e (rw f (empty-IsIndexed id_of)) other)
  fresh-AllOwned g (some xs) e u f other =
      insert-AllOwned g (index_from id_of [] xs) e (rw f (index_from-IsIndexed id_of xs u)) other
