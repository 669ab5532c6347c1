-- ===== src/State/Messages.antt =====
-- Messages and voice states in the state cache: `MessageAdd`, `MessageRemove`, `messageRemoveByID`,
-- `Message`, `voiceStateUpdate` and `VoiceState` of state.go.
use text.Mathlib.Text.{◌==◌ as str_eq}
use dgo.Prelude.{
  ℕ, ◌-◌, String, Bool, List, [], ◌∷◌, ◌++◌, Option, none, some, length, drop, ltb, ◌==◌,
  if◌then◌else◌,
}
use dgo.State.{
  Slice, items, or_old, find_first, remove_first, store, Message, VoiceState, State, StateError,
  state_not_found, set_guild, set_channel,
}
use dgo.State.Guilds.{guild}
use dgo.State.Members.{update_text}
use dgo.State.Channels.{channel}

abbrev pub message_id : State → ℕ → String
message_id s m = (s.message_at m).id

-- `if new != nil { old = new }`
abbrev pub new_or : Option ℕ → Option ℕ → Option ℕ
new_or none old = old
new_or (some a) old = some a

unfoldable pub merge_message : Message → Message → Message
merge_message new old = record old {
  content = update_text new.content old.content;
  edited_timestamp = new_or new.edited_timestamp old.edited_timestamp;
  mentions = or_old new.mentions old.mentions;
  embeds = or_old new.embeds old.embeds;
  attachments = or_old new.attachments old.attachments;
  timestamp = if new.timestamp == 0 then old.timestamp else new.timestamp;
  author = new_or new.author old.author;
  components = or_old new.components old.components;
}

-- `if len(c.Messages) > s.MaxMessageCount { c.Messages = c.Messages[len(c.Messages)-s.MaxMessageCount:] }`
unfoldable pub trim : ℕ → List ℕ → List ℕ
trim bound ms = if ltb bound (length ms) then drop (length ms - bound) ms else ms

abbrev pub is_message : State → String → ℕ → Bool
is_message s k m = str_eq (message_id s m) k

unfoldable pub put_message : State → ℕ → ℕ → State
unfolding find_first merge_message trim
put_message s c a =
    let ms = items (s.channel_at c).messages in
    elim (find_first (is_message s (message_id s a)) ms) [
      | some m ↦ record s {
        message_at = store s.message_at m (merge_message (s.message_at a) (s.message_at m));
      }
      | none ↦
          set_channel s c
            (record (s.channel_at c) { messages = some (trim s.max_message_count (ms ++ a ∷ [])) })
    ]

unfoldable pub message_add : State → ℕ → State × Option StateError
unfolding channel put_message
message_add s a = elim (channel s (s.message_at a).channel_id) [
  | none ↦ (s, some state_not_found)
  | some c ↦ (put_message s c a, none)
]

unfoldable pub cut_message : State → ℕ → String → State × Option StateError
unfolding find_first remove_first
cut_message s c k =
    let ms = items (s.channel_at c).messages in
    elim (find_first (is_message s k) ms) [
      | none ↦ (s, some state_not_found)
      | some _ ↦ (
        set_channel s c
            (record (s.channel_at c) { messages = some (remove_first (is_message s k) ms) }),
        none,
      )
    ]

unfoldable pub message_remove_by_id : State → String → String → State × Option StateError
unfolding channel cut_message
message_remove_by_id s channel_id k = elim (channel s channel_id) [
  | none ↦ (s, some state_not_found)
  | some c ↦ cut_message s c k
]

unfoldable pub message_remove : State → ℕ → State × Option StateError
unfolding message_remove_by_id
message_remove s a = message_remove_by_id s (s.message_at a).channel_id (message_id s a)

unfoldable pub message : State → String → String → Option ℕ
unfolding channel find_first
message s channel_id k = elim (channel s channel_id) [
  | none ↦ none
  | some c ↦ find_first (is_message s k) (items (s.channel_at c).messages)
]

abbrev pub of_user : String → VoiceState → Bool
of_user k v = str_eq v.user_id k

-- `guild.VoiceStates[i] = update.VoiceState` at the first one of the user, or an append.
unfoldable pub replace_or_add : VoiceState → List VoiceState → List VoiceState
replace_or_add v [] = v ∷ []
replace_or_add v (w ∷ ws) = if of_user v.user_id w then v ∷ ws else w ∷ replace_or_add v ws

unfoldable pub voice_states_after : VoiceState → Slice VoiceState → Slice VoiceState
unfolding remove_first replace_or_add
voice_states_after update none = if str_eq update.channel_id "" then none else some (update ∷ [])
voice_states_after update (some vs) = some (
    if str_eq update.channel_id ""
    then remove_first (of_user update.user_id) vs
    else replace_or_add update vs)

-- A user without a channel has left.
unfoldable pub voice_state_update : State → VoiceState → State × Option StateError
unfolding guild voice_states_after
voice_state_update s update = elim (guild s update.guild_id) [
  | none ↦ (s, some state_not_found)
  | some g ↦ (
    set_guild s g (record (s.guild_at g) {
      voice_states = voice_states_after update (s.guild_at g).voice_states;
    }),
    none,
  )
]

unfoldable pub voice_state : State → String → String → Option VoiceState
unfolding guild find_first
voice_state s k user = elim (guild s k) [
  | none ↦ none
  | some g ↦ find_first (of_user user) (items (s.guild_at g).voice_states)
]
