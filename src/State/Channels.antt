-- ===== src/State/Channels.antt =====
-- Channels in the state cache: `ChannelAdd`, `ChannelRemove`, `Channel` and `ThreadMemberUpdate` of
-- state.go, and `IsThread` of structs.go.
use text.Mathlib.Text.{◌==◌ as str_eq}
use dgo.Prelude.{ℕ, String, Bool, [], ◌∷◌, ◌++◌, Option, none, some, ◌==◌, ◌||◌, if◌then◌else◌}
use dgo.Prelude.Assoc.{lookup, insert, erase}
use dgo.State.{
  Slice, push, or_old, remove_first, Channel, ThreadMember, Guild, State, StateError,
  state_not_found, set_guild, set_channel,
}
use dgo.State.Guilds.{channel_id, guild}

-- Public, private and news threads.
abbrev pub is_thread : Channel → Bool
is_thread c = c.type == 11 || (c.type == 12 || c.type == 10)

-- `ChannelTypeDM` and `ChannelTypeGroupDM`
abbrev pub is_private : Channel → Bool
is_private c = c.type == 1 || c.type == 3

unfoldable pub channel : State → String → Option ℕ
unfolding lookup
channel s k = lookup k s.channel_map

unfoldable pub preserve_channel : Channel → Channel → Channel
preserve_channel new c = record new {
  messages = or_old new.messages c.messages;
  permission_overwrites = or_old new.permission_overwrites c.permission_overwrites;
  thread_metadata = elim new.thread_metadata [ none ↦ c.thread_metadata | some m ↦ some m ];
}

abbrev pub map_channel : State → ℕ → State
map_channel s a = record s { channel_map = insert (channel_id s a) a s.channel_map }

-- A channel that the cache does not have.
unfoldable pub new_channel : State → ℕ → State × Option StateError
unfolding lookup insert
new_channel s a =
    let c = s.channel_at a in
    if is_private c
    then (
      map_channel
          (record s {
            ready = record s.ready { private_channels = s.ready.private_channels ++ a ∷ [] };
          })
          a,
      none,
    )
    else elim (lookup c.guild_id s.guild_map) [
      | none ↦ (s, some state_not_found)
      | some g ↦ (
        map_channel
            (set_guild s g (
              if is_thread c
              then record (s.guild_at g) { threads = push (s.guild_at g).threads a }
              else record (s.guild_at g) { channels = push (s.guild_at g).channels a }))
            a,
        none,
      )
    ]

unfoldable pub channel_add : State → ℕ → State × Option StateError
unfolding lookup preserve_channel new_channel
channel_add s a = elim (lookup (channel_id s a) s.channel_map) [
  | some c ↦
      let whole = preserve_channel (s.channel_at a) (s.channel_at c) in
      (set_channel (set_channel s a whole) c whole, none)
  | none ↦ new_channel s a
]

-- A loop that changes the slice only where it finds the channel.
abbrev pub cut_slice : (ℕ → Bool) → Slice ℕ → Slice ℕ
cut_slice test none = none
cut_slice test (some xs) = some (remove_first test xs)

unfoldable pub cut_channel : State → ℕ → Channel → Guild
unfolding remove_first
cut_channel s g c =
    let test = λ (x : ℕ). str_eq (channel_id s x) c.id in
    if is_thread c
    then record (s.guild_at g) { threads = cut_slice test (s.guild_at g).threads }
    else record (s.guild_at g) { channels = cut_slice test (s.guild_at g).channels }

unfoldable pub unmap_channel : State → String → State
unfolding erase
unmap_channel s k = record s { channel_map = erase k s.channel_map }

unfoldable pub channel_remove : State → Channel → State × Option StateError
unfolding channel guild unmap_channel cut_channel remove_first
channel_remove s c = elim (channel s c.id) [
  | none ↦ (s, some state_not_found)
  | some _ ↦
      let private_left =
        remove_first (λ (x : ℕ). str_eq (channel_id s x) c.id) s.ready.private_channels in
      if is_private c
      then (
        unmap_channel (record s { ready = record s.ready { private_channels = private_left } })
            c.id,
        none,
      )
      else elim (guild s c.guild_id) [
        | none ↦ (s, some state_not_found)
        | some g ↦ (unmap_channel (set_guild s g (cut_channel s g c)) c.id, none)
      ]
]

-- The member data of the current user. The event embeds its thread member.
unfoldable pub thread_member_update : State → ThreadMember → State × Option StateError
unfolding channel
thread_member_update s m = elim (channel s m.id) [
  | none ↦ (s, some state_not_found)
  | some c ↦ (set_channel s c (record (s.channel_at c) { member = some m }), none)
]
