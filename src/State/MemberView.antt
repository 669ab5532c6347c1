-- ===== src/State/MemberView.antt =====
-- What the cache promises of the members of one guild: a map from users to members.
use text.Mathlib.Text.{◌==◌ as str_eq}
use text.Mathlib.TextEquality.{eq_iff}
use dgo.Prelude.{
  ℕ, String, false, Option, none, some, ◌≡◌, ◌≢◌, sym, ◌∙◌, ap, arith, Option-cases, Bool-cases,
  zero, suc, inl, inr, if◌then◌else◌, subst,
}
use dgo.Prelude.Assoc.{
  Assoc, lookup, insert, erase, lookup-insert, lookup-erase, str_eq_refl, eq_of_str_eq,
}
use dgo.State.{items, store, Member, State}
use dgo.State.Index.{IsIndexed, cached_name}
use dgo.State.Guilds.{user_id, guild}
use dgo.State.Members.{keep_joined, put_member, member_add, cut_member, member_remove, member}
use dgo.State.Consistent.{opened, core, IsConsistent, Owned-map}
use dgo.State.Consistent.Change.{lookup-insert_self}
use dgo.State.Abstract.{value_at}

unfoldable pub member_view : State → String → String → Option Member
unfolding member
member_view s k user = value_at s.member_at (member s k user)

-- The time of joining, 0 being none, and what takes its place.
abbrev pub joined : ℕ → ℕ → ℕ
joined zero old = old
joined (suc n) old = suc n

-- To set a member where there may be an older one.
abbrev pub merge_member : Member → Option Member → Member
merge_member new none = new
merge_member new (some old) = record {
  guild_id = new.guild_id;
  joined_at = joined new.joined_at old.joined_at;
  user = new.user;
  roles = new.roles;
  other = new.other;
}

module _ (s : State) (a g : ℕ) (members : Assoc ℕ)
    (f : lookup (s.member_at a).guild_id s.member_map ≡ some members)
    (h : IsIndexed (user_id s) members (items (s.guild_at g).members)) where
  put_member-view :
      (j : String)
      → member_view (put_member s g members a) (s.member_at a).guild_id j ≡ (
          if str_eq (user_id s a) j
          then some
              (merge_member (s.member_at a) (value_at s.member_at (lookup (user_id s a) members)))
          else value_at s.member_at (lookup j members))
  unfolding put_member member_view member
  put_member-view j = elim (Option-cases (lookup (user_id s a) members)) [
    | inl e ↦
        rw (e, put_member)
          (rw
            (
              lookup-insert_self (s.member_at a).guild_id (insert (user_id s a) a members)
                  s.member_map,
              member,
            )
            (ground (arith, lookup-insert (user_id s a) j a members)))
    | inr e ↦
        rw (e.1, put_member)
          (rw (f, member)
            (elim (Bool-cases (str_eq (user_id s a) j)) [
              | inl same ↦
                  let there : lookup j members ≡ some e.0 =
                    subst (λ n. lookup n members ≡ some e.0) (eq_of_str_eq (user_id s a) j same)
                      e.1 in
                  rw (same, there) (ground arith)
              | inr differ ↦ rw differ (elim (Option-cases (lookup j members)) [
                | inl p ↦ rw p
                | inr p ↦ rw p.1 (ap some (apart j p.0 differ p.1 e.0 e.1))
              ])
            ]))
  ]
    where
      apart :
          (j : String) (x : ℕ)
          → str_eq (user_id s a) j ≡ false
          → lookup j members ≡ some x
          → (m : ℕ) → lookup (user_id s a) members ≡ some m
          → store
              (store s.member_at a (keep_joined (s.member_at a) (s.member_at m)))
              m
              (keep_joined (s.member_at a) (s.member_at m))
              x
            ≡ s.member_at x
      apart j x differ p m q =
          let name = cached_name (user_id s) j x h p in
          let name_m = cached_name (user_id s) (user_id s a) m h q in
          let not_a : x ≢ a =
            λ (r : x ≡ a). cc (ap (λ n. str_eq (user_id s n) j) r, name, str_eq_refl j, differ) in
          let not_m : x ≢ m = λ (r : x ≡ m).
            cc (ap (λ n. str_eq (user_id s n) j) r, name, str_eq_refl j, differ, name_m) in
          ground (arith, not_a, not_m)

module _ (s : State) (c : IsConsistent (core s)) where
  -- The member map of a cached guild agrees with its slice.
  indexed :
      (k : String) (g : ℕ) (members : Assoc ℕ)
      → lookup k s.guild_map ≡ some g
      → lookup k s.member_map ≡ some members
      → IsIndexed (user_id s) members (items (s.guild_at g).members)
  indexed k g members e f =
      subst (λ q. IsIndexed (user_id s) (opened q) (items (s.guild_at g).members)) f
        (Owned-map (user_id s) (λ x. (s.guild_at x).members) _ _ g (c.members k) e)

  add-view :
      (a g : ℕ) (members : Assoc ℕ) (j : String)
      → lookup (s.member_at a).guild_id s.guild_map ≡ some g
      → lookup (s.member_at a).guild_id s.member_map ≡ some members
      → member_view (member_add s a).0 (s.member_at a).guild_id j ≡ (
          if str_eq (user_id s a) j
          then some
              (merge_member (s.member_at a) (member_view s (s.member_at a).guild_id (user_id s a)))
          else member_view s (s.member_at a).guild_id j)
  unfolding member_add member_view member
  add-view a g members j e f =
      rw (e, member_add)
        (rw (f, member_add)
          (rw (f, member)
            (put_member-view s a g members f (indexed (s.member_at a).guild_id g members e f) j)))

  remove-view :
      (k user j : String) (g : ℕ) (members : Assoc ℕ)
      → lookup k s.guild_map ≡ some g
      → lookup k s.member_map ≡ some members
      → member_view (member_remove s k user).0 k j
        ≡ (if str_eq user j then none else member_view s k j)
  unfolding member_remove member_view member guild cut_member
  remove-view k user j g members e f =
      let h = indexed k g members e f in
      rw (e, member_remove)
        (rw (f, member_remove)
          (elim (Option-cases (lookup user members)) [
            | inl p ↦ rw (p, member_remove) (rw (f, member) (ground (arith, p, eq_iff user j)))
            | inr p ↦
                rw (p.1, member_remove)
                  (rw (sym (h.agrees user) ∙ p.1, cut_member)
                    (rw (lookup-insert_self k (erase user members) s.member_map, member)
                      (rw (f, member) (ground (arith, lookup-erase user j members)))))
          ]))

-- The members of a cached guild refine a map from users to members, where the cache is consistent:
-- `MemberAdd` sets the member of one user, the time of joining being taken from the old member if the new
-- one has none, `MemberRemove` takes out the member of one user, and both leave the other users' members of
-- that guild as they were.
pub member_cache-refines :
    (s : State) (a g : ℕ) (members : Assoc ℕ) (user j : String)
    → IsConsistent (core s)
    → lookup (s.member_at a).guild_id s.guild_map ≡ some g
    → lookup (s.member_at a).guild_id s.member_map ≡ some members
    → (member_view (member_add s a).0 (s.member_at a).guild_id j ≡ (
        if str_eq (user_id s a) j
        then some
            (merge_member (s.member_at a) (member_view s (s.member_at a).guild_id (user_id s a)))
        else member_view s (s.member_at a).guild_id j))
      × (member_view (member_remove s (s.member_at a).guild_id user).0 (s.member_at a).guild_id j
          ≡ (if str_eq user j then none else member_view s (s.member_at a).guild_id j))
member_cache-refines s a g members user j c e f =
    (add-view s c a g members j e f, remove-view s c (s.member_at a).guild_id user j g members e f)
