-- ===== src/State/Guilds.antt =====
-- Guilds and their soundboard sounds in the state cache: `createMemberMap`, `createRoleMap`,
-- `createEmojiMap`, `GuildAdd`, `GuildRemove`, `Guild` and the four functions on sounds of state.go.
use text.Mathlib.Text.{◌==◌ as str_eq}
use dgo.Prelude.{
  ℕ, String, Bool, false, List, [], ◌∷◌, ◌++◌, Option, none, some, ◌&&◌, not, if◌then◌else◌,
}
use dgo.Prelude.Int.{pos, eqb_ℤ}
use dgo.Prelude.Assoc.{Assoc, lookup, insert, erase}
use dgo.State.{
  Slice, items, push, or_old, find_first, remove_first, store, Guild, SoundboardSound, State,
  StateError, state_not_found, nil_sound, empty_sound_id, guild_mismatch, set_guild,
}
use dgo.State.Index.{index_from}

abbrev pub user_id : State → ℕ → String
user_id s m = (s.user_at (s.member_at m).user).id

abbrev pub role_id : State → ℕ → String
role_id s r = (s.role_at r).id

abbrev pub emoji_id : State → ℕ → String
emoji_id s e = (s.emoji_at e).id

abbrev pub channel_id : State → ℕ → String
channel_id s c = (s.channel_at c).id

abbrev pub guild_id : State → ℕ → String
guild_id s a = (s.guild_at a).id

-- `createMemberMap`, `createRoleMap` and `createEmojiMap`, which differ in what they name.
unfoldable pub create_map : (ℕ → String) → String → List ℕ → Assoc (Assoc ℕ) → Assoc (Assoc ℕ)
unfolding index_from
create_map id_of k xs maps = insert k (index_from id_of [] xs) maps

-- A slice that is there makes the map anew; without one there is at least an empty map.
unfoldable pub remake_map : (ℕ → String) → String → Slice ℕ → Assoc (Assoc ℕ) → Assoc (Assoc ℕ)
unfolding create_map lookup
remake_map id_of k (some xs) maps = create_map id_of k xs maps
remake_map id_of k none maps = elim (lookup k maps) [ some _ ↦ maps | none ↦ insert k [] maps ]

-- The maps as `GuildAdd` leaves them before it looks at the guild map.
unfoldable pub guild_maps : State → Guild → State
unfolding index_from remake_map
guild_maps s g = record s {
  channel_map =
      index_from (channel_id s) (index_from (channel_id s) s.channel_map (items g.channels))
        (items g.threads);
  member_map = remake_map (user_id s) g.id g.members s.member_map;
  role_map = remake_map (role_id s) g.id g.roles s.role_map;
  emoji_map = remake_map (emoji_id s) g.id g.emojis s.emoji_map;
}

-- What a guild lacks is taken from the cached one.
unfoldable pub preserve : Guild → Guild → Guild
preserve guild g = record guild {
  member_count = if eqb_ℤ guild.member_count (pos 0) then g.member_count else guild.member_count;
  roles = or_old guild.roles g.roles;
  emojis = or_old guild.emojis g.emojis;
  members = or_old guild.members g.members;
  presences = or_old guild.presences g.presences;
  channels = or_old guild.channels g.channels;
  threads = or_old guild.threads g.threads;
  voice_states = or_old guild.voice_states g.voice_states;
  soundboard_sounds = or_old guild.soundboard_sounds g.soundboard_sounds;
}

-- `*g = *guild` writes through the cached guild; the argument too has got what it lacked.
unfoldable pub replace_guild : State → ℕ → ℕ → State
unfolding preserve
replace_guild s a g =
    let whole = preserve (s.guild_at a) (s.guild_at g) in set_guild (set_guild s a whole) g whole

unfoldable pub append_guild : State → ℕ → State
unfolding insert
append_guild s a = record s {
  ready = record s.ready { guilds = s.ready.guilds ++ a ∷ [] };
  guild_map = insert (guild_id s a) a s.guild_map;
}

-- The argument is the address of the guild.
unfoldable pub guild_add : State → ℕ → State
unfolding guild_maps replace_guild append_guild lookup
guild_add s0 a =
    let s = guild_maps s0 (s0.guild_at a) in
    elim (lookup (guild_id s0 a) s0.guild_map) [
      | some g ↦ replace_guild s a g
      | none ↦ append_guild s a
    ]

unfoldable pub guild : State → String → Option ℕ
unfolding lookup
guild s k = lookup k s.guild_map

-- Of its argument the code reads the ID only.
unfoldable pub guild_remove : State → String → State × Option StateError
unfolding guild erase remove_first
guild_remove s k = elim (guild s k) [
  | none ↦ (s, some state_not_found)
  | some _ ↦ (
    record s {
      ready = record s.ready {
        guilds = remove_first (λ g. str_eq (guild_id s g) k) s.ready.guilds;
      };
      guild_map = erase k s.guild_map;
      member_map = erase k s.member_map;
      role_map = erase k s.role_map;
      emoji_map = erase k s.emoji_map;
    },
    none,
  )
]

abbrev pub is_sound : (ℕ → SoundboardSound) → String → Option ℕ → Bool
is_sound heap k none = false
is_sound heap k (some a) = str_eq (heap a).sound_id k

abbrev pub pointer_of : Option (Option ℕ) → Option ℕ
pointer_of none = none
pointer_of (some p) = p

unfoldable pub soundboard_sound : State → String → String → Option ℕ
unfolding lookup find_first
soundboard_sound s k sound = elim (lookup k s.guild_map) [
  | none ↦ none
  | some g ↦
      pointer_of (find_first (is_sound s.sound_at sound) (items (s.guild_at g).soundboard_sounds))
]

-- The checks that both functions make of a sound.
unfoldable pub sound_error : (ℕ → SoundboardSound) → String → Option ℕ → Option StateError
sound_error heap k none = some nil_sound
sound_error heap k (some a) =
    let sound = heap a in
    if str_eq sound.sound_id ""
    then some empty_sound_id
    else if not (str_eq sound.guild_id "") && not (str_eq sound.guild_id k)
    then some (guild_mismatch sound.guild_id k)
    else none

-- `if sound.GuildID == "" { sound.GuildID = guildID }`
abbrev pub own_sound : (ℕ → SoundboardSound) → String → ℕ → ℕ → SoundboardSound
own_sound heap k a =
    store heap a
      (record (heap a) { guild_id = if str_eq (heap a).guild_id "" then k else (heap a).guild_id })

unfoldable pub cache_sound : State → ℕ → ℕ → State
unfolding find_first
cache_sound s g a =
    let cached = pointer_of (
      find_first (is_sound s.sound_at (s.sound_at a).sound_id)
        (items (s.guild_at g).soundboard_sounds)) in
    elim cached [
      | some c ↦ record s { sound_at = store s.sound_at c (s.sound_at a) }
      | none ↦ set_guild s g (record (s.guild_at g) {
        soundboard_sounds = push (s.guild_at g).soundboard_sounds (some a);
      })
    ]

-- A sound that passed the checks.
unfoldable pub add_checked_sound : State → String → ℕ → State × Option StateError
unfolding lookup cache_sound
add_checked_sound s k a = elim (lookup k s.guild_map) [
  | none ↦ (s, some state_not_found)
  | some g ↦ (cache_sound (record s { sound_at = own_sound s.sound_at k a }) g a, none)
]

unfoldable pub soundboard_sound_add : State → String → Option ℕ → State × Option StateError
unfolding sound_error add_checked_sound
soundboard_sound_add s k none = (s, some nil_sound)
soundboard_sound_add s k (some a) = elim (sound_error s.sound_at k (some a)) [
  | some e ↦ (s, some e)
  | none ↦ add_checked_sound s k a
]

unfoldable pub soundboard_sound_remove : State → String → String → State × Option StateError
unfolding lookup find_first remove_first
soundboard_sound_remove s k sound = elim (lookup k s.guild_map) [
  | none ↦ (s, some state_not_found)
  | some g ↦
      let sounds = items (s.guild_at g).soundboard_sounds in
      let test = is_sound s.sound_at sound in
      elim (find_first test sounds) [
        | none ↦ (s, some state_not_found)
        | some _ ↦ (
          set_guild s g
              (record (s.guild_at g) { soundboard_sounds = some (remove_first test sounds) }),
          none,
        )
      ]
]

-- The first sound with an error decides.
unfoldable pub check_sounds : (ℕ → SoundboardSound) → String → List (Option ℕ) → Option StateError
unfolding sound_error
check_sounds heap k [] = none
check_sounds heap k (p ∷ ps) =
    let others = check_sounds heap k ps in
    elim (sound_error heap k p) [ some e ↦ some e | none ↦ others ]

own_sounds : (ℕ → SoundboardSound) → String → List (Option ℕ) → ℕ → SoundboardSound
own_sounds heap k [] = heap
own_sounds heap k (none ∷ ps) = own_sounds heap k ps
own_sounds heap k (some a ∷ ps) = own_sounds (own_sound heap k a) k ps

unfoldable pub soundboard_sounds_update :
    State → String → Slice (Option ℕ) → State × Option StateError
unfolding lookup check_sounds own_sounds
soundboard_sounds_update s k sounds = elim (lookup k s.guild_map) [
  | none ↦ (s, some state_not_found)
  | some g ↦ elim (check_sounds s.sound_at k (items sounds)) [
    | some e ↦ (s, some e)
    | none ↦ (
      set_guild (record s { sound_at = own_sounds s.sound_at k (items sounds) }) g
          (record (s.guild_at g) { soundboard_sounds = sounds }),
      none,
    )
  ]
]
