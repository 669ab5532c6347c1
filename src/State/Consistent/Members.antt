-- ===== src/State/Consistent/Members.antt =====
-- `memberAdd` and `MemberRemove` keep the maps and the slices of the cache in agreement.
use text.Mathlib.Text.{◌==◌ as str_eq}
use mathlib.Core.Path.{fun_ext}
use dgo.Prelude.{
  ℕ, String, false, some, ◌≡◌, ◌≢◌, refl, sym, ◌∙◌, ap, arith, Option-cases, inl, inr, subst,
}
use dgo.Prelude.Assoc.{Assoc, lookup, insert, erase, str_eq_refl}
use dgo.State.{items, push, store, Guild, Member, State, set_guild}
use dgo.State.Index.{IsIndexed, find_id, without_id, cached_name, add-IsIndexed, remove-IsIndexed}
use dgo.State.Guilds.{guild_id, user_id, role_id, guild}
use dgo.State.Members.{keep_joined, put_member, member_add, cut_member, member_remove}
use dgo.State.Consistent.{opened, AllOwned, Owned-map, core, IsConsistent}
use dgo.State.Consistent.Change.{change-AllOwned}

-- A field of the guilds that a write through one pointer leaves alone.
pub kept_field {ℓ} :
    {A : Type ℓ} (f : Guild → A) (heap : ℕ → Guild) (g : ℕ) (v : Guild)
    → f v ≡ f (heap g)
    → ◌≡◌ {A = ℕ → A} (λ x. f (store heap g v x)) (λ x. f (heap x))
kept_field f heap g v e = fun_ext λ x. ground (arith, e)

module _ (s : State) (c : IsConsistent (core s)) (k : String) (g : ℕ)
    (e : lookup k s.guild_map ≡ some g) where
  -- Another guild is at another address.
  pub other_guild :
      (j : String) (x : ℕ) → str_eq k j ≡ false → lookup j s.guild_map ≡ some x → x ≢ g
  other_guild j x differ f p =
      let name_x = cached_name (guild_id s) j x c.guilds f in
      let name_g = cached_name (guild_id s) k g c.guilds e in
      cc (
        ap (λ (n : String). str_eq n j) (sym name_g ∙ sym (ap (guild_id s) p) ∙ name_x),
        str_eq_refl j,
        differ,
      )

  -- A guild gets new members, its map and its slice in agreement.
  pub change_members :
      (m : Assoc ℕ) (v : Guild)
      → IsIndexed (user_id s) m (items v.members)
      → v.id ≡ (s.guild_at g).id
      → v.roles ≡ (s.guild_at g).roles
      → IsConsistent (core (set_guild (record s { member_map = insert k m s.member_map }) g v))
  change_members m v h same_id same_roles = record {
    guilds =
        subst (λ n. IsIndexed n s.guild_map s.ready.guilds)
          (sym (kept_field (λ y. y.id) s.guild_at g v same_id)) c.guilds;
    members =
        change-AllOwned (user_id s) (λ x. (s.guild_at x).members)
          (λ x. (store s.guild_at g v x).members) s.guild_map s.member_map c.members k g m e
          (ground (arith, h)) (λ j x differ f. ground (arith, other_guild j x differ f));
    roles =
        subst (λ n. AllOwned (role_id s) n s.guild_map s.role_map)
          (sym (kept_field (λ y. y.roles) s.guild_at g v same_roles)) c.roles;
  }

-- Nothing but the names of members may have changed, and they have not.
pub same_users :
    (s : State) (heap : ℕ → Member)
    → ((x : ℕ) → (s.user_at (heap x).user).id ≡ user_id s x)
    → IsConsistent (core s)
    → IsConsistent (core (record s { member_at = heap }))
same_users s heap e c =
    subst (λ n. IsConsistent (record (core s) { user_id = n })) (sym (fun_ext e)) c

module _ (s : State) (c : IsConsistent (core s)) (a g : ℕ) (members : Assoc ℕ)
    (e : lookup (s.member_at a).guild_id s.guild_map ≡ some g)
    (h : IsIndexed (user_id s) members (items (s.guild_at g).members)) where
  joined : ℕ → Member
  joined m = keep_joined (s.member_at a) (s.member_at m)

  put_member-IsConsistent : IsConsistent (core (put_member s g members a))
  unfolding put_member joined
  put_member-IsConsistent = elim (Option-cases (lookup (user_id s a) members)) [
    | inl f ↦
        rw (f, put_member)
          (change_members s c (s.member_at a).guild_id g e (insert (user_id s a) a members)
            (record (s.guild_at g) { members = push (s.guild_at g).members a })
            (add-IsIndexed (user_id s) a h f) refl refl)
    | inr f ↦
        let name = cached_name (user_id s) (user_id s a) f.0 h f.1 in
        rw (f.1, put_member)
          (same_users s (store (store s.member_at a (joined f.0)) f.0 (joined f.0))
            (λ x. ground (arith, name)) c)
  ]

pub member_add-IsConsistent :
    (s : State) (a : ℕ) → IsConsistent (core s) → IsConsistent (core (member_add s a).0)
unfolding member_add
member_add-IsConsistent s a c = elim (Option-cases (lookup (s.member_at a).guild_id s.guild_map)) [
  | inl e ↦ rw (e, member_add) c
  | inr e ↦
      let mine =
        Owned-map (user_id s) (λ x. (s.guild_at x).members) _ _ e.0
          (c.members (s.member_at a).guild_id) e.1 in
      rw (e.1, member_add)
        (elim (Option-cases (lookup (s.member_at a).guild_id s.member_map)) [
          | inl f ↦ rw (f, member_add) c
          | inr f ↦
              rw (f.1, member_add)
                (put_member-IsConsistent s c a e.0 f.0 e.1 (
                  subst (λ p. IsIndexed (user_id s) (opened p) (items (s.guild_at e.0).members)) f.1
                    mine))
        ])
]

module _ (s : State) (c : IsConsistent (core s)) (k user : String) (g : ℕ) (members : Assoc ℕ)
    (e : lookup k s.guild_map ≡ some g)
    (h : IsIndexed (user_id s) members (items (s.guild_at g).members)) (m : ℕ)
    (f : lookup user members ≡ some m) where
  cut_member-IsConsistent : IsConsistent (core (cut_member s k g members user).0)
  unfolding cut_member
  cut_member-IsConsistent =
      let found : find_id (user_id s) user (items (s.guild_at g).members) ≡ some m =
        sym (h.agrees user) ∙ f in
      rw (found, cut_member)
        (change_members s c k g e (erase user members)
          (record (s.guild_at g) {
            members = some (without_id (user_id s) user (items (s.guild_at g).members));
          })
          (remove-IsIndexed (user_id s) user h) refl refl)

pub member_remove-IsConsistent :
    (s : State) (k user : String)
    → IsConsistent (core s)
    → IsConsistent (core (member_remove s k user).0)
unfolding member_remove guild
member_remove-IsConsistent s k user c = elim (Option-cases (lookup k s.guild_map)) [
  | inl e ↦ rw (e, member_remove) c
  | inr e ↦
      let mine = Owned-map (user_id s) (λ x. (s.guild_at x).members) _ _ e.0 (c.members k) e.1 in
      rw (e.1, member_remove)
        (elim (Option-cases (lookup k s.member_map)) [
          | inl p ↦ rw (p, member_remove) c
          | inr p ↦
              rw (p.1, member_remove)
                (elim (Option-cases (lookup user p.0)) [
                  | inl f ↦ rw (f, member_remove) c
                  | inr f ↦
                      rw (f.1, member_remove)
                        (cut_member-IsConsistent s c k user e.0 p.0 e.1
                          (subst
                            (λ q. IsIndexed (user_id s) (opened q) (items (s.guild_at e.0).members))
                            p.1 mine)
                          f.0 f.1)
                ])
        ])
]
