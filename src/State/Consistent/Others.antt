-- ===== src/State/Consistent/Others.antt =====
-- The operations on presences and sounds leave the maps and the slices of guilds, members and roles in
-- agreement.
use mathlib.Core.Path.{fun_ext}
use dgo.Prelude.{
  ℕ, String, Option, none, some, ◌≡◌, refl, sym, arith, Option-cases, inl, inr, subst,
}
use dgo.Prelude.Assoc.{lookup}
use dgo.State.{Slice, items, store, find_first, Guild, User, State, set_guild}
use dgo.State.Index.{IsIndexed, find_id_name}
use dgo.State.Guilds.{
  user_id, role_id, is_sound, pointer_of, cache_sound, add_checked_sound, sound_error,
  soundboard_sound_add, soundboard_sound_remove, check_sounds, soundboard_sounds_update, own_sound,
}
use dgo.State.Members.{find_presence, presence_user_id, update_user, presence_add}
use dgo.State.Consistent.{AllOwned, core, IsConsistent}
use dgo.State.Consistent.Members.{kept_field}

-- A write to a guild that leaves its name, its members and its roles.
pub kept_guild :
    (s : State) (g : ℕ) (v : Guild)
    → IsConsistent (core s)
    → v.id ≡ (s.guild_at g).id
    → v.members ≡ (s.guild_at g).members
    → v.roles ≡ (s.guild_at g).roles
    → IsConsistent (core (set_guild s g v))
kept_guild s g v c same_id same_members same_roles = record {
  guilds =
      subst (λ n. IsIndexed n s.guild_map s.ready.guilds)
        (sym (kept_field (λ y. y.id) s.guild_at g v same_id)) c.guilds;
  members =
      subst (λ n. AllOwned (user_id s) n s.guild_map s.member_map)
        (sym (kept_field (λ y. y.members) s.guild_at g v same_members)) c.members;
  roles =
      subst (λ n. AllOwned (role_id s) n s.guild_map s.role_map)
        (sym (kept_field (λ y. y.roles) s.guild_at g v same_roles)) c.roles;
}

-- A write to users that leaves their names.
pub kept_users :
    (s : State) (heap : ℕ → User)
    → ((x : ℕ) → (heap x).id ≡ (s.user_at x).id)
    → IsConsistent (core s)
    → IsConsistent (core (record s { user_at = heap }))
kept_users s heap e c =
    subst (λ n. IsConsistent (record (core s) { user_id = n }))
      (sym (fun_ext (λ x. e (s.member_at x).user))) c

pub presence_add-IsConsistent :
    (s : State) (k : String) (a : ℕ)
    → IsConsistent (core s)
    → IsConsistent (core (presence_add s k a).0)
unfolding presence_add update_user
presence_add-IsConsistent s k a c = elim (Option-cases (lookup k s.guild_map)) [
  | inl e ↦ rw (e, presence_add) c
  | inr e ↦
      rw (e.1, presence_add)
        (elim (Option-cases (find_presence s e.0 (presence_user_id s a))) [
          | inl f ↦ rw (f, presence_add) (kept_guild s e.0 _ c refl refl refl)
          | inr f ↦
              let name = find_id_name (presence_user_id s) (presence_user_id s a) _ f.0 f.1 in
              rw (f.1, presence_add)
                (kept_users s
                  (store s.user_at (s.presence_at f.0).user (
                    update_user (s.user_at (s.presence_at a).user)
                      (s.user_at (s.presence_at f.0).user)))
                  (λ x. ground (arith, name)) c)
        ])
]

cache_sound-IsConsistent :
    (s : State) (g a : ℕ) → IsConsistent (core s) → IsConsistent (core (cache_sound s g a))
unfolding cache_sound
cache_sound-IsConsistent s g a c =
    elim (Option-cases (
      pointer_of (
        find_first (is_sound s.sound_at (s.sound_at a).sound_id)
          (items (s.guild_at g).soundboard_sounds)))) [
            | inl e ↦ rw (e, cache_sound) (kept_guild s g _ c refl refl refl)
            | inr e ↦ rw (e.1, cache_sound) c
          ]

add_checked_sound-IsConsistent :
    (s : State) (k : String) (a : ℕ)
    → IsConsistent (core s)
    → IsConsistent (core (add_checked_sound s k a).0)
unfolding add_checked_sound
add_checked_sound-IsConsistent s k a c = elim (Option-cases (lookup k s.guild_map)) [
  | inl e ↦ rw (e, add_checked_sound) c
  | inr e ↦
      rw (e.1, add_checked_sound)
        (cache_sound-IsConsistent (record s { sound_at = own_sound s.sound_at k a }) e.0 a c)
]

pub soundboard_sound_add-IsConsistent :
    (s : State) (k : String) (p : Option ℕ)
    → IsConsistent (core s)
    → IsConsistent (core (soundboard_sound_add s k p).0)
unfolding soundboard_sound_add
soundboard_sound_add-IsConsistent s k none c = c
soundboard_sound_add-IsConsistent s k (some a) c =
    elim (Option-cases (sound_error s.sound_at k (some a))) [
      | inl e ↦ rw (e, soundboard_sound_add) (add_checked_sound-IsConsistent s k a c)
      | inr e ↦ rw (e.1, soundboard_sound_add) c
    ]

pub soundboard_sound_remove-IsConsistent :
    (s : State) (k sound : String)
    → IsConsistent (core s)
    → IsConsistent (core (soundboard_sound_remove s k sound).0)
unfolding soundboard_sound_remove
soundboard_sound_remove-IsConsistent s k sound c = elim (Option-cases (lookup k s.guild_map)) [
  | inl e ↦ rw (e, soundboard_sound_remove) c
  | inr e ↦
      rw (e.1, soundboard_sound_remove)
        (elim (Option-cases
          (find_first (is_sound s.sound_at sound) (items (s.guild_at e.0).soundboard_sounds))) [
            | inl f ↦ rw (f, soundboard_sound_remove) c
            | inr f ↦ rw (f.1, soundboard_sound_remove) (kept_guild s e.0 _ c refl refl refl)
          ])
]

pub soundboard_sounds_update-IsConsistent :
    (s : State) (k : String) (sounds : Slice (Option ℕ))
    → IsConsistent (core s)
    → IsConsistent (core (soundboard_sounds_update s k sounds).0)
unfolding soundboard_sounds_update
soundboard_sounds_update-IsConsistent s k sounds c = elim (Option-cases (lookup k s.guild_map)) [
  | inl e ↦ rw (e, soundboard_sounds_update) c
  | inr e ↦
      rw (e.1, soundboard_sounds_update)
        (elim (Option-cases (check_sounds s.sound_at k (items sounds))) [
          | inl f ↦ rw (f, soundboard_sounds_update) (kept_guild s e.0 _ c refl refl refl)
          | inr f ↦ rw (f.1, soundboard_sounds_update) c
        ])
]
