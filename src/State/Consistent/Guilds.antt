-- ===== src/State/Consistent/Guilds.antt =====
-- `GuildAdd` and `GuildRemove` keep the maps and the slices of the cache in agreement.
use text.Mathlib.Text.{◌==◌ as str_eq}
use mathlib.Core.Path.{fun_ext}
use dgo.Prelude.{
  ℕ, String, false, none, some, ◌≡◌, ◌≢◌, refl, sym, ap, arith, Option-cases, inl, inr, subst,
}
use dgo.Prelude.Assoc.{lookup, str_eq_refl}
use dgo.State.{items, Guild, State}
use dgo.State.Index.{IsIndexed, Unique, cached_name, add-IsIndexed, remove-IsIndexed}
use dgo.State.Guilds.{
  guild_id, user_id, role_id, preserve, guild_maps, replace_guild, append_guild, guild_add, guild,
  guild_remove,
}
use dgo.State.Consistent.{core, IsConsistent}
use dgo.State.Consistent.Change.{remake-AllOwned, fresh-AllOwned, erase-AllOwned}

-- What a guild that arrives must be: its members and its roles have names of their own.
abbrev pub HasUniqueNames : State → Guild → Type 0
HasUniqueNames s g = Unique (user_id s) (items g.members) × Unique (role_id s) (items g.roles)

-- The cache after a guild has taken the place of a cached one.
pub replaced : State → ℕ → ℕ → State
unfolding guild_maps replace_guild
replaced s a g = replace_guild (guild_maps s (s.guild_at a)) a g

module _ (s : State) (a g : ℕ) (c : IsConsistent (core s))
    (e : lookup (guild_id s a) s.guild_map ≡ some g) where
  cached : guild_id s g ≡ guild_id s a
  cached = cached_name (guild_id s) (guild_id s a) g c.guilds e

  same_ids : guild_id (replaced s a g) ≡ guild_id s
  unfolding replaced guild_maps replace_guild preserve
  same_ids = fun_ext λ x. ground (arith, cached)

  pub elsewhere :
      (j : String) (x : ℕ)
      → str_eq (guild_id s a) j ≡ false
      → lookup j s.guild_map ≡ some x
      → (replace_guild (guild_maps s (s.guild_at a)) a g).guild_at x ≡ s.guild_at x
  unfolding guild_maps replace_guild
  elsewhere j x differ f =
      let name = cached_name (guild_id s) j x c.guilds f in
      let not_a : x ≢ a =
        λ (p : x ≡ a). cc (ap (λ n. str_eq (guild_id s n) j) p, name, str_eq_refl j, differ) in
      let not_g : x ≢ g = λ (p : x ≡ g).
        cc (ap (λ n. str_eq (guild_id s n) j) p, name, str_eq_refl j, differ, cached) in
      ground (arith, not_a, not_g)

  replace-IsConsistent : HasUniqueNames s (s.guild_at a) → IsConsistent (core (replaced s a g))
  unfolding replaced guild_maps replace_guild preserve
  replace-IsConsistent u = record {
    guilds = subst (λ n. IsIndexed n s.guild_map s.ready.guilds) (sym same_ids) c.guilds;
    members =
        remake-AllOwned (user_id s) (λ x. (s.guild_at x).members)
          (λ x. ((replaced s a g).guild_at x).members) s.guild_map s.member_map c.members
          (guild_id s a) g (s.guild_at a).members e u.0 (ground arith)
          (λ j x d f. ap (λ (y : Guild). y.members) (elsewhere j x d f));
    roles =
        remake-AllOwned (role_id s) (λ x. (s.guild_at x).roles)
          (λ x. ((replaced s a g).guild_at x).roles) s.guild_map s.role_map c.roles (guild_id s a) g
          (s.guild_at a).roles e u.1 (ground arith)
          (λ j x d f. ap (λ (y : Guild). y.roles) (elsewhere j x d f));
  }

module _ (s : State) (a : ℕ) (c : IsConsistent (core s)) (u : HasUniqueNames s (s.guild_at a))
    (e : lookup (guild_id s a) s.guild_map ≡ none) where
  append-IsConsistent : IsConsistent (core (append_guild (guild_maps s (s.guild_at a)) a))
  unfolding append_guild guild_maps
  append-IsConsistent = record {
    guilds = add-IsIndexed (guild_id s) a c.guilds e;
    members =
        fresh-AllOwned (user_id s) (λ x. (s.guild_at x).members) (λ x. (s.guild_at x).members)
          s.guild_map s.member_map c.members (guild_id s a) a (s.guild_at a).members e u.0 refl
          (λ j x d f. refl);
    roles =
        fresh-AllOwned (role_id s) (λ x. (s.guild_at x).roles) (λ x. (s.guild_at x).roles)
          s.guild_map s.role_map c.roles (guild_id s a) a (s.guild_at a).roles e u.1 refl
          (λ j x d f. refl);
  }

pub guild_add-IsConsistent :
    (s : State) (a : ℕ)
    → IsConsistent (core s)
    → HasUniqueNames s (s.guild_at a)
    → IsConsistent (core (guild_add s a))
unfolding guild_add replaced
guild_add-IsConsistent s a c u = elim (Option-cases (lookup (guild_id s a) s.guild_map)) [
  | inl e ↦ rw (e, guild_add) (append-IsConsistent s a c u e)
  | inr e ↦ rw (e.1, guild_add) (replace-IsConsistent s a e.0 c e.1 u)
]

pub guild_remove-IsConsistent :
    (s : State) (k : String) → IsConsistent (core s) → IsConsistent (core (guild_remove s k).0)
unfolding guild_remove guild
guild_remove-IsConsistent s k c = elim (Option-cases (lookup k s.guild_map)) [
  | inl e ↦ rw (e, guild_remove) c
  | inr e ↦
      rw (e.1, guild_remove)
        (record {
          guilds = remove-IsIndexed (guild_id s) k c.guilds;
          members =
              erase-AllOwned (user_id s) (λ x. (s.guild_at x).members) (λ x. (s.guild_at x).members)
                s.guild_map s.member_map c.members k (λ j x d f. refl);
          roles =
              erase-AllOwned (role_id s) (λ x. (s.guild_at x).roles) (λ x. (s.guild_at x).roles)
                s.guild_map s.role_map c.roles k (λ j x d f. refl);
        })
]
