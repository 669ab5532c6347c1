-- ===== src/State/Consistent/Ready.antt =====
-- The first Ready: the loop of `onReady` makes maps that agree with the slices.
use text.Mathlib.Text.{◌==◌ as str_eq}
use mathlib.Core.Option.{some-injective}
use dgo.Prelude.{
  ℕ, String, true, List, [], ◌∷◌, none, some, ◌≡◌, refl, sym, ◌∙◌, subst, arith, Option-cases,
  Bool-cases, inl, inr, All,
}
use dgo.Prelude.Assoc.{lookup, insert, eq_of_str_eq}
use dgo.State.{items, find_first, Ready, State}
use dgo.State.Index.{
  IsIndexed, Unique, find_id, index_from, index_from-IsIndexed, empty-IsIndexed, All-find_first,
}
use dgo.State.Guilds.{guild_id, user_id, role_id, create_map}
use dgo.State.Dispatch.{ReadyMaps, ready_guilds, on_ready}
use dgo.State.Consistent.{Owned, Owned-some, Owned-opened, Owned-none, core, IsConsistent}
use dgo.State.Consistent.Change.{lookup-insert_self, lookup-insert_ne}

module _ (s : State) where
  guild_map-ready_guilds :
      (gs : List ℕ) (m : ReadyMaps)
      → (ready_guilds s gs m).guild_map ≡ index_from (guild_id s) m.guild_map gs
  unfolding ready_guilds index_from
  guild_map-ready_guilds [] m = refl
  guild_map-ready_guilds (g ∷ gs) m = guild_map-ready_guilds gs _

  member_map_none :
      (gs : List ℕ) (m : ReadyMaps) (k : String)
      → find_id (guild_id s) k gs ≡ none
      → lookup k (ready_guilds s gs m).member_map ≡ lookup k m.member_map
  unfolding ready_guilds create_map find_first
  member_map_none [] m k e = refl
  member_map_none (g ∷ gs) m k e = elim (Bool-cases (str_eq (guild_id s g) k)) [
    | inl f ↦ absurd (ground arith)
    | inr f ↦
        member_map_none gs _ k (sym (rw f) ∙ e) ∙ lookup-insert_ne (guild_id s g) k _ m.member_map f
  ]

  member_map_some :
      (gs : List ℕ) (m : ReadyMaps) (k : String) (g : ℕ)
      → Unique (guild_id s) gs
      → find_id (guild_id s) k gs ≡ some g
      → lookup k (ready_guilds s gs m).member_map
        ≡ some (index_from (user_id s) [] (items (s.guild_at g).members))
  unfolding ready_guilds create_map find_first
  member_map_some [] m k g u e = absurd (ground arith)
  member_map_some (x ∷ gs) m k g u e = elim (Bool-cases (str_eq (guild_id s x) k)) [
    | inl f ↦
        let name = eq_of_str_eq (guild_id s x) k f in
        let here : some x ≡ some g = sym (rw f) ∙ e in
        subst
          (λ y.
            lookup k (ready_guilds s (x ∷ gs) m).member_map
            ≡ some (index_from (user_id s) [] (items (s.guild_at y).members)))
          (some-injective x g here)
          (member_map_none gs _ k (subst (λ n. find_id (guild_id s) n gs ≡ none) name u.0)
            ∙ subst
                (λ n.
                  lookup n (
                    insert (guild_id s x) (index_from (user_id s) [] (items (s.guild_at x).members))
                      m.member_map)
                  ≡ some (index_from (user_id s) [] (items (s.guild_at x).members)))
                name (lookup-insert_self (guild_id s x) _ m.member_map))
    | inr f ↦ member_map_some gs _ k g u.1 (sym (rw f) ∙ e)
  ]

-- A guild of the first Ready: members with names of their own, and no roles.
abbrev pub IsFirst : State → ℕ → Type 0
IsFirst s g = Unique (user_id s) (items (s.guild_at g).members) × (items (s.guild_at g).roles ≡ [])

module _ (s : State) (r : Ready) (empty_guilds : s.guild_map ≡ [])
    (empty_members : s.member_map ≡ []) (empty_roles : s.role_map ≡ [])
    (unique : Unique (guild_id s) r.guilds) (first : All (IsFirst s) r.guilds) where
  before : ReadyMaps
  before = record {
    guild_map = s.guild_map;
    member_map = s.member_map;
    channel_map = s.channel_map;
  }

  filled : ReadyMaps
  unfolding before
  filled = ready_guilds s r.guilds before

  filled_guilds : filled.guild_map ≡ index_from (guild_id s) [] r.guilds
  unfolding filled before
  filled_guilds = guild_map-ready_guilds s r.guilds before ∙ rw empty_guilds

  found : (k : String) → lookup k filled.guild_map ≡ find_id (guild_id s) k r.guilds
  found k = rw filled_guilds ((index_from-IsIndexed (guild_id s) r.guilds unique).agrees k)

  members_of :
      (k : String)
      → Owned
          (user_id s)
          (λ g. (s.guild_at g).members)
          (lookup k filled.guild_map)
          (lookup k filled.member_map)
  unfolding filled before lookup
  members_of k = elim (Option-cases (find_id (guild_id s) k r.guilds)) [
    | inl e ↦
        Owned-none (user_id s) (λ g. (s.guild_at g).members) _ _ (found k ∙ e)
          (member_map_none s r.guilds before k e ∙ rw empty_members)
    | inr e ↦
        let own = All-find_first (IsFirst s) _ r.guilds e.0 first e.1 in
        Owned-some (user_id s) (λ g. (s.guild_at g).members) _ _ e.0 _ (found k ∙ e.1)
          (member_map_some s r.guilds before k e.0 unique e.1)
          (index_from-IsIndexed (user_id s) _ own.0)
  ]

  roles_of :
      (k : String)
      → Owned
          (role_id s)
          (λ g. (s.guild_at g).roles)
          (lookup k filled.guild_map)
          (lookup k s.role_map)
  unfolding lookup
  roles_of k = elim (Option-cases (find_id (guild_id s) k r.guilds)) [
    | inl e ↦
        Owned-none (role_id s) (λ g. (s.guild_at g).roles) _ (lookup k s.role_map) (found k ∙ e)
          (rw empty_roles)
    | inr e ↦
        let own = All-find_first (IsFirst s) _ r.guilds e.0 first e.1 in
        Owned-opened (role_id s) (λ g. (s.guild_at g).roles) _ (lookup k s.role_map) e.0
          (found k ∙ e.1) (rw empty_roles (rw own.1 (empty-IsIndexed (role_id s))))
  ]

  pub on_ready-IsConsistent : IsConsistent (core (on_ready true s r))
  unfolding on_ready filled before
  on_ready-IsConsistent = record {
    guilds =
        subst (λ m. IsIndexed (guild_id s) m r.guilds) (sym filled_guilds)
          (index_from-IsIndexed (guild_id s) r.guilds unique);
    members = members_of;
    roles = roles_of;
  }
