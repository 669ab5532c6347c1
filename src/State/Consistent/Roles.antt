-- ===== src/State/Consistent/Roles.antt =====
-- `RoleAdd` and `RoleRemove` keep the maps and the slices of the cache in agreement.
use mathlib.Core.Path.{fun_ext}
use dgo.Prelude.{ℕ, String, [], none, some, ◌≡◌, refl, sym, arith, Option-cases, inl, inr, subst}
use dgo.Prelude.Assoc.{Assoc, lookup, insert, erase}
use dgo.State.{Slice, items, push, store, Guild, Role, State, set_guild}
use dgo.State.Index.{
  IsIndexed, without_id, cached_name, add-IsIndexed, remove-IsIndexed, again-IsIndexed,
}
use dgo.State.Guilds.{user_id, role_id, guild}
use dgo.State.Roles.{map_of, put_role, role_add, cut_role, role_remove}
use dgo.State.Consistent.{opened, AllOwned, Owned-map, core, IsConsistent}
use dgo.State.Consistent.Change.{change-AllOwned}
use dgo.State.Consistent.Members.{kept_field, other_guild}

module _ (s : State) (c : IsConsistent (core s)) (k : String) (g : ℕ)
    (e : lookup k s.guild_map ≡ some g) where
  -- A guild gets new roles, its map and its slice in agreement.
  change_roles :
      (m : Assoc ℕ) (v : Guild)
      → IsIndexed (role_id s) m (items v.roles)
      → v.id ≡ (s.guild_at g).id
      → v.members ≡ (s.guild_at g).members
      → IsConsistent (core (set_guild (record s { role_map = insert k m s.role_map }) g v))
  change_roles m v h same_id same_members = record {
    guilds =
        subst (λ n. IsIndexed n s.guild_map s.ready.guilds)
          (sym (kept_field (λ y. y.id) s.guild_at g v same_id)) c.guilds;
    members =
        subst (λ n. AllOwned (user_id s) n s.guild_map s.member_map)
          (sym (kept_field (λ y. y.members) s.guild_at g v same_members)) c.members;
    roles =
        change-AllOwned (role_id s) (λ x. (s.guild_at x).roles)
          (λ x. (store s.guild_at g v x).roles) s.guild_map s.role_map c.roles k g m e
          (ground (arith, h)) (λ j x differ f. ground (arith, other_guild s c k g e j x differ f));
  }

  -- The map is put in its place again, and no role has another name.
  same_roles :
      (m : Assoc ℕ) (heap : ℕ → Role)
      → ((x : ℕ) → (heap x).id ≡ role_id s x)
      → IsIndexed (role_id s) m (items (s.guild_at g).roles)
      → IsConsistent (core (record s { role_at = heap; role_map = insert k m s.role_map }))
  same_roles m heap f h =
      subst (λ n. IsConsistent (record (core s) { role_id = n; role_map = insert k m s.role_map }))
        (sym (fun_ext f))
        (record {
          guilds = c.guilds;
          members = c.members;
          roles =
              change-AllOwned (role_id s) (λ x. (s.guild_at x).roles) (λ x. (s.guild_at x).roles)
                s.guild_map s.role_map c.roles k g m e h (λ j x differ p. refl);
        })

  put_role-IsConsistent :
      (roles : Assoc ℕ) (a : ℕ)
      → IsIndexed (role_id s) roles (items (s.guild_at g).roles)
      → IsConsistent (core (put_role s k g roles a))
  unfolding put_role
  put_role-IsConsistent roles a h = elim (Option-cases (lookup (role_id s a) roles)) [
    | inl f ↦
        rw (f, put_role)
          (change_roles (insert (role_id s a) a roles)
            (record (s.guild_at g) { roles = push (s.guild_at g).roles a })
            (add-IsIndexed (role_id s) a h f) refl refl)
    | inr f ↦
        let name = cached_name (role_id s) (role_id s a) f.0 h f.1 in
        rw (f.1, put_role)
          (same_roles (insert (role_id s a) f.0 roles) (store s.role_at f.0 (s.role_at a))
            (λ x. ground (arith, name)) (again-IsIndexed (role_id s) (role_id s a) f.0 h f.1))
  ]

  cut_role-IsConsistent :
      (roles : Assoc ℕ) (role : String)
      → IsIndexed (role_id s) roles (items (s.guild_at g).roles)
      → IsConsistent (core (cut_role s k g roles role))
  unfolding cut_role
  cut_role-IsConsistent roles role h =
      change_roles (erase role roles) _
        (subst (λ n. IsIndexed (role_id s) (erase role roles) n) (cut_items (s.guild_at g).roles)
          (remove-IsIndexed (role_id s) role h))
        refl refl
    where
      cut_items :
          (rs : Slice ℕ)
          → without_id (role_id s) role (items rs)
            ≡ items (elim rs [ none ↦ none | some xs ↦ some (without_id (role_id s) role xs) ])
      cut_items none = refl
      cut_items (some xs) = refl

pub role_add-IsConsistent :
    (s : State) (k : String) (a : ℕ)
    → IsConsistent (core s)
    → IsConsistent (core (role_add s k a).0)
unfolding role_add guild
role_add-IsConsistent s k a c = elim (Option-cases (lookup k s.guild_map)) [
  | inl e ↦ rw (e, role_add) c
  | inr e ↦
      let mine = Owned-map (role_id s) (λ x. (s.guild_at x).roles) _ _ e.0 (c.roles k) e.1 in
      rw (e.1, role_add)
        (elim (Option-cases (lookup k s.role_map)) [
          | inl f ↦
              rw (f, map_of)
                (put_role-IsConsistent s c k e.0 e.1 [] a (
                  subst (λ q. IsIndexed (role_id s) (opened q) (items (s.guild_at e.0).roles)) f
                    mine))
          | inr f ↦
              rw (f.1, map_of)
                (put_role-IsConsistent s c k e.0 e.1 f.0 a (
                  subst (λ q. IsIndexed (role_id s) (opened q) (items (s.guild_at e.0).roles)) f.1
                    mine))
        ])
]

pub role_remove-IsConsistent :
    (s : State) (k role : String)
    → IsConsistent (core s)
    → IsConsistent (core (role_remove s k role).0)
unfolding role_remove guild
role_remove-IsConsistent s k role c = elim (Option-cases (lookup k s.guild_map)) [
  | inl e ↦ rw (e, role_remove) c
  | inr e ↦
      let mine = Owned-map (role_id s) (λ x. (s.guild_at x).roles) _ _ e.0 (c.roles k) e.1 in
      rw (e.1, role_remove)
        (elim (Option-cases (lookup k s.role_map)) [
          | inl p ↦ rw (p, role_remove) c
          | inr p ↦
              rw (p.1, role_remove)
                (elim (Option-cases (lookup role p.0)) [
                  | inl f ↦ rw (f, role_remove) c
                  | inr f ↦
                      rw (f.1, role_remove)
                        (cut_role-IsConsistent s c k e.0 e.1 p.0 role (
                          subst
                            (λ q. IsIndexed (role_id s) (opened q) (items (s.guild_at e.0).roles))
                            p.1 mine))
                ])
        ])
]
