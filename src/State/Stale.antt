-- ===== src/State/Stale.antt =====
-- Where the maps of the cache do not know what its slices hold: roles that a Ready brings, and emojis that
-- an event replaces.
use dgo.Prelude.{
  ℕ, String, Bool, true, false, ap, ◌∙◌, [], Option, none, some, ◌≡◌, refl, arith, Option-cases,
  inl, inr,
}
use dgo.Prelude.Assoc.{lookup}
use dgo.State.{Slice, push, Ready, State, StateError, state_not_found}
use dgo.State.Guilds.{guild}
use dgo.State.Roles.{map_of, role, role_add, put_role, role_remove, emoji}
use dgo.State.Dispatch.{on_ready, replace_in_guild, dispatch, guild_emojis_update, Before, when}

module _ (s : State) (r : Ready) (k : String) (empty : s.role_map ≡ []) where
  no_role : (name : String) → role (on_ready true s r) k name ≡ none
  unfolding role on_ready lookup
  no_role name = rw (empty, role)

  no_removal : (name : String) → (role_remove (on_ready true s r) k name).1 ≡ some state_not_found
  unfolding role_remove on_ready guild lookup
  no_removal name = elim (Option-cases (guild (on_ready true s r) k)) [
    | inl e ↦ rw (e, role_remove)
    | inr e ↦ rw (e.1, role_remove) (rw (empty, role_remove))
  ]

  added_again :
      (g a : ℕ)
      → guild (on_ready true s r) k ≡ some g
      → ((role_add (on_ready true s r) k a).0.guild_at g).roles ≡ push (s.guild_at g).roles a
  unfolding role_add on_ready guild put_role lookup
  added_again g a e = rw (e, role_add) (rw (empty, map_of) (ground arith))

-- The roles that the guilds of a Ready have are not found by ID, where the role map was empty before:
-- `Role` finds none and `RoleRemove` fails, whatever the roles. `RoleAdd` for a guild that is cached appends
-- to the guild's roles even if a role of that ID is among them.
pub ready_hides_roles :
    (s : State) (r : Ready) (k name : String) (g a : ℕ)
    → s.role_map ≡ []
    → guild (on_ready true s r) k ≡ some g
    → (role (on_ready true s r) k name ≡ none)
      × ((role_remove (on_ready true s r) k name).1 ≡ some state_not_found)
      × (((role_add (on_ready true s r) k a).0.guild_at g).roles ≡ push (s.guild_at g).roles a)
ready_hides_roles s r k name g a empty e =
    (no_role s r k empty name, no_removal s r k empty name, added_again s r k empty g a e)

when-true :
    (b : Bool) (s : State) (before : Before) (r : State × Option StateError)
    → b ≡ true
    → (when b s before r).state ≡ r.0
when-true true s before r e = refl
when-true false s before r e = cc

-- GuildEmojisUpdate for a cached guild, with emojis tracked, replaces the emojis of the guild, but `Emoji`
-- finds for every ID what it found before, an emoji that was deleted included.
pub emojis_update_unseen :
    (s : State) (k j name : String) (g : ℕ) (emojis : Slice ℕ)
    → s.track.emojis ≡ true
    → guild s k ≡ some g
    → (((dispatch s (guild_emojis_update k emojis)).state.guild_at g).emojis ≡ emojis)
      × (emoji (dispatch s (guild_emojis_update k emojis)).state j name ≡ emoji s j name)
unfolding dispatch replace_in_guild emoji guild
emojis_update_unseen s k j name g emojis t e =
    let replaced = replace_in_guild (λ x. record x { emojis = emojis }) s (guild s k) in
    let seen = when-true s.track.emojis s Before.nothing replaced t in
    (
      ap (λ (x : State). (x.guild_at g).emojis) seen ∙ rw (e, replace_in_guild) (ground arith),
      ap (λ (x : State). emoji x j name) seen ∙ rw (e, replace_in_guild),
    )
