-- ===== src/State/Abstract.antt =====
-- What the cache of guilds promises: a map from IDs to values, the pointers and the slices forgotten.
use text.Mathlib.Text.{◌==◌ as str_eq}
use text.Mathlib.TextEquality.{eq_iff}
use mathlib.Core.Path.{fun_ext}
use dgo.Prelude.{
  ℕ, String, Option, none, some, ◌≡◌, ap, arith, Option-cases, Bool-cases, inl, inr, if◌then◌else◌,
  subst, zero, suc, refl, ◌∙◌,
}
use dgo.Prelude.Assoc.{lookup, lookup-insert, lookup-erase, eq_of_str_eq}
use dgo.Prelude.Int.{ℤ, pos, negsuc, eqb_ℤ}
use dgo.State.{Slice, or_old, Guild, State, StateError, state_not_found}
use dgo.State.Guilds.{
  guild_id, preserve, guild_maps, replace_guild, append_guild, guild_add, guild, guild_remove,
}
use dgo.State.Consistent.{core, IsConsistent}
use dgo.State.Consistent.Guilds.{elsewhere}

-- The value behind a pointer.
abbrev pub value_at {ℓ} : {A : Type ℓ} → (ℕ → A) → Option ℕ → Option A
value_at heap none = none
value_at heap (some a) = some (heap a)

-- The guilds of the cache as a map.
unfoldable pub guild_view : State → String → Option Guild
unfolding guild
guild_view s k = value_at s.guild_at (guild s k)

-- A field that may be missing, nil or 0, and what takes its place.
abbrev pub given : {A : Type 0} → Slice A → Slice A → Slice A
given none old = old
given (some xs) old = some xs

abbrev pub given_count : ℤ → ℤ → ℤ
given_count (pos zero) old = old
given_count (pos (suc n)) old = pos (suc n)
given_count (negsuc n) old = negsuc n

-- To add a guild to a map where there is an older one: nine fields are the new ones if they are given
-- and the old ones otherwise, and the other four are the new ones.
abbrev pub merge_guild : Guild → Option Guild → Guild
merge_guild new none = new
merge_guild new (some old) = record {
  id = new.id;
  owner_id = new.owner_id;
  member_count = given_count new.member_count old.member_count;
  roles = given new.roles old.roles;
  emojis = given new.emojis old.emojis;
  stickers = new.stickers;
  soundboard_sounds = given new.soundboard_sounds old.soundboard_sounds;
  members = given new.members old.members;
  presences = given new.presences old.presences;
  channels = given new.channels old.channels;
  threads = given new.threads old.threads;
  voice_states = given new.voice_states old.voice_states;
  other = new.other;
}

given-or_old : {A : Type 0} (new old : Slice A) → or_old new old ≡ given new old
given-or_old none old = refl
given-or_old (some xs) old = refl

count-given : (new old : ℤ) → (if eqb_ℤ new (pos 0) then old else new) ≡ given_count new old
count-given (pos zero) old = refl
count-given (pos (suc n)) old = ground arith
count-given (negsuc n) old = ground arith

preserve-merges : (new old : Guild) → preserve new old ≡ merge_guild new (some old)
unfolding preserve
preserve-merges new old =
    rw
      (
        count-given new.member_count old.member_count,
        given-or_old new.roles old.roles,
        given-or_old new.emojis old.emojis,
        given-or_old new.members old.members,
        given-or_old new.presences old.presences,
        given-or_old new.channels old.channels,
        given-or_old new.threads old.threads,
        given-or_old new.voice_states old.voice_states,
        given-or_old new.soundboard_sounds old.soundboard_sounds,
      )
      refl

abbrev pub view_add : (String → Option Guild) → Guild → String → Option Guild
view_add view g j = if str_eq g.id j then some (merge_guild g (view g.id)) else view j

abbrev pub view_remove : (String → Option Guild) → String → String → Option Guild
view_remove view k j = if str_eq k j then none else view j

abbrev pub not_there : Option Guild → Option StateError
not_there none = some state_not_found
not_there (some g) = none

module _ (s : State) (c : IsConsistent (core s)) where
  module _ (a g : ℕ) (e : lookup (guild_id s a) s.guild_map ≡ some g) where
    replace-view :
        (j : String)
        → guild_view (replace_guild (guild_maps s (s.guild_at a)) a g) j ≡ (
            if str_eq (guild_id s a) j
            then some (preserve (s.guild_at a) (s.guild_at g))
            else guild_view s j)
    unfolding guild_view guild guild_maps replace_guild
    replace-view j = elim (Bool-cases (str_eq (guild_id s a) j)) [
      | inl same ↦
          let there : lookup j s.guild_map ≡ some g =
            subst (λ n. lookup n s.guild_map ≡ some g) (eq_of_str_eq (guild_id s a) j same) e in
          rw (same, there) (ground arith)
      | inr differ ↦ rw differ (elim (Option-cases (lookup j s.guild_map)) [
        | inl f ↦ rw f
        | inr f ↦ rw f.1 (ap some (elsewhere s a g c e j f.0 differ f.1))
      ])
    ]

  append-view :
      (a : ℕ) (j : String)
      → guild_view (append_guild (guild_maps s (s.guild_at a)) a) j
        ≡ (if str_eq (guild_id s a) j then some (s.guild_at a) else guild_view s j)
  unfolding guild_view guild guild_maps append_guild
  append-view a j = ground (arith, lookup-insert (guild_id s a) j a s.guild_map)

  add-view : (a : ℕ) → guild_view (guild_add s a) ≡ view_add (guild_view s) (s.guild_at a)
  unfolding guild_add guild_view guild
  add-view a = fun_ext λ j. elim (Option-cases (lookup (guild_id s a) s.guild_map)) [
    | inl e ↦ rw (e, guild_add) (append-view a j)
    | inr e ↦
        rw (e.1, guild_add)
          (replace-view a e.0 e.1 j
            ∙ ap (λ (w : Guild). if str_eq (guild_id s a) j then some w else guild_view s j)
                (preserve-merges (s.guild_at a) (s.guild_at e.0)))
  ]

  remove-view : (k : String) → guild_view (guild_remove s k).0 ≡ view_remove (guild_view s) k
  unfolding guild_remove guild_view guild
  remove-view k = fun_ext λ j. elim (Option-cases (lookup k s.guild_map)) [
    | inl e ↦ rw (e, guild_remove) (ground (arith, e, eq_iff k j))
    | inr e ↦ rw (e.1, guild_remove) (ground (arith, lookup-erase k j s.guild_map))
  ]

-- The cache of guilds refines a map from IDs to guilds, where the cache is consistent: `GuildAdd` sets the
-- guild of one ID and changes no other, the new value being the guild that is added, with the member
-- count, the roles, emojis, members, presences, channels, threads, voice states and soundboard sounds of
-- the guild that was there for those of them that it lacks;
-- `GuildRemove` takes out the guild of one ID and no other, and reports an error exactly when there was
-- none.
pub guild_cache-refines :
    (s : State) (a : ℕ) (k : String)
    → IsConsistent (core s)
    → (guild_view (guild_add s a) ≡ view_add (guild_view s) (s.guild_at a))
      × (guild_view (guild_remove s k).0 ≡ view_remove (guild_view s) k)
      × ((guild_remove s k).1 ≡ not_there (guild_view s k))
unfolding guild_remove guild_view guild
guild_cache-refines s a k c = (
  add-view s c a,
  remove-view s c k,
  elim (Option-cases (lookup k s.guild_map)) [
    | inl e ↦ rw (e, guild_remove)
    | inr e ↦ rw (e.1, guild_remove)
  ],
)
