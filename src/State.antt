-- ===== src/State.antt =====
-- The state cache of state.go: the data that events carry and the cache keeps.
-- Guilds, channels, members, roles, emojis, messages, presences, users and sounds are shared by maps and
-- slices, so each kind lives on a heap under addresses. A slice is nil or a list, its array not being
-- shared; the loop that reads an array while it shifts is in Threads. A structure has the fields that
-- state.go reads or writes one by one, and `other` for those that it only copies. Times are numbers, 0
-- being Go's zero time. The cache itself is not nil.
pub mod Index
pub mod Guilds
pub mod Members
pub mod Roles
pub mod Channels
pub mod Threads
pub mod Messages
pub mod Permissions
pub mod Dispatch
pub mod Consistent
pub mod Abstract
pub mod MemberView
pub mod Bounds
pub mod Stale
pub mod Leavers
pub mod Precedence
pub mod Colour
mod Examples
use dgo.Prelude.{
  ℕ, String, Bool, true, false, List, [], ◌∷◌, ◌++◌, Option, none, some, ◌==◌, ◌||◌, if◌then◌else◌,
}
use dgo.Prelude.Int.{ℤ}
use dgo.Prelude.Assoc.{Assoc}

abbrev pub Slice {ℓ} : Type ℓ → Type ℓ
Slice A = Option (List A)

module _ {ℓ} {A : Type ℓ} where
  abbrev pub items : Slice A → List A
  items none = []
  items (some xs) = xs

  -- `append(s, a)`
  abbrev pub push : Slice A → A → Slice A
  push s a = some (items s ++ a ∷ [])

  -- `if x == nil { x = old }`
  abbrev pub or_old : Slice A → Slice A → Slice A
  or_old none old = old
  or_old (some xs) old = some xs

  -- The loop that returns the first element with the property.
  unfoldable pub find_first : (A → Bool) → List A → Option A
  find_first p [] = none
  find_first p (x ∷ xs) = if p x then some x else find_first p xs

  -- The loop that cuts out the first element with the property, `append(s[:i], s[i+1:]...)`, and stops.
  unfoldable pub remove_first : (A → Bool) → List A → List A
  remove_first p [] = []
  remove_first p (x ∷ xs) = if p x then xs else x ∷ remove_first p xs

  -- Store through a pointer.
  abbrev pub store : (ℕ → A) → ℕ → A → ℕ → A
  store heap a v j = if j == a then v else heap j

pub record User : Type 0 where
  pub id : String
  pub email : String
  pub username : String
  pub avatar : String
  pub discriminator : String
  pub token : String
  pub other : ℕ

pub record Member : Type 0 where
  pub guild_id : String
  pub joined_at : ℕ
  pub user : ℕ
  pub roles : Slice String
  pub other : ℕ

-- A 64-bit set of permissions, from the number of a bit.
abbrev pub Bits : Type 0
Bits = ℕ → Bool

pub record Role : Type 0 where
  pub id : String
  pub color : ℤ
  pub position : ℤ
  pub permissions : Bits
  pub other : ℕ

pub record Emoji : Type 0 where
  pub id : String
  pub other : ℕ

pub record ClientStatus : Type 0 where
  pub desktop : String
  pub mobile : String
  pub web : String

pub record Presence : Type 0 where
  pub user : ℕ
  pub status : String
  pub activities : Slice ℕ
  pub since : Option ℤ
  pub client_status : ClientStatus

pub record SoundboardSound : Type 0 where
  pub sound_id : String
  pub guild_id : String
  pub other : ℕ

pub record VoiceState : Type 0 where
  pub guild_id : String
  pub channel_id : String
  pub user_id : String
  pub other : ℕ

pub record Message : Type 0 where
  pub id : String
  pub channel_id : String
  pub content : String
  pub timestamp : ℕ
  pub edited_timestamp : Option ℕ
  pub mentions : Slice ℕ
  pub embeds : Slice ℕ
  pub attachments : Slice ℕ
  pub components : Slice ℕ
  pub author : Option ℕ
  pub member : Option ℕ
  pub other : ℕ

pub data OverwriteType : Type 0 where
  role member : OverwriteType

pub record PermissionOverwrite : Type 0 where
  pub id : String
  pub type : OverwriteType
  pub deny : Bits
  pub allow : Bits

pub record ThreadMember : Type 0 where
  pub id : String
  pub user_id : String
  pub other : ℕ

-- Of the thread's metadata, whether it is archived.
pub record Channel : Type 0 where
  pub id : String
  pub guild_id : String
  pub type : ℕ
  pub member_count : ℤ
  pub messages : Slice ℕ
  pub permission_overwrites : Slice PermissionOverwrite
  pub parent_id : String
  pub thread_metadata : Option Bool
  pub member : Option ThreadMember
  pub members : Slice ThreadMember
  pub other : ℕ

-- A sound of the guild may be a nil pointer.
pub record Guild : Type 0 where
  pub id : String
  pub owner_id : String
  pub member_count : ℤ
  pub roles : Slice ℕ
  pub emojis : Slice ℕ
  pub stickers : Slice ℕ
  pub soundboard_sounds : Slice (Option ℕ)
  pub members : Slice ℕ
  pub presences : Slice ℕ
  pub channels : Slice ℕ
  pub threads : Slice ℕ
  pub voice_states : Slice VoiceState
  pub other : ℕ

-- What is tracked.
pub record Tracking : Type 0 where
  pub channels : Bool
  pub threads : Bool
  pub emojis : Bool
  pub stickers : Bool
  pub soundboard_sounds : Bool
  pub members : Bool
  pub thread_members : Bool
  pub roles : Bool
  pub voice : Bool
  pub presences : Bool

-- The embedded Ready: what it says of the session, and the guilds and private channels.
pub record Ready : Type 0 where
  pub version : ℤ
  pub session_id : String
  pub resume_gateway_url : String
  pub user : ℕ
  pub shard : Option (ℕ × ℕ)
  pub application : ℕ
  pub guilds : List ℕ
  pub private_channels : List ℕ

pub record State : Type 0 where
  pub ready : Ready
  pub max_message_count : ℕ
  pub track : Tracking
  pub guild_map : Assoc ℕ
  pub channel_map : Assoc ℕ
  pub member_map : Assoc (Assoc ℕ)
  pub role_map : Assoc (Assoc ℕ)
  pub emoji_map : Assoc (Assoc ℕ)
  pub guild_at : ℕ → Guild
  pub channel_at : ℕ → Channel
  pub member_at : ℕ → Member
  pub role_at : ℕ → Role
  pub emoji_at : ℕ → Emoji
  pub message_at : ℕ → Message
  pub presence_at : ℕ → Presence
  pub user_at : ℕ → User
  pub sound_at : ℕ → SoundboardSound
  pub next_member : ℕ

-- `panicked` is a run-time panic; the locks are released by deferred calls.
pub data StateError : Type 0 where
  state_not_found nil_sound empty_sound_id incomplete_permissions panicked : StateError
  guild_mismatch : String → String → StateError

abbrev pub all_tracked : Tracking
all_tracked = record {
  channels = true;
  threads = true;
  emojis = true;
  stickers = true;
  soundboard_sounds = true;
  members = true;
  thread_members = true;
  roles = true;
  voice = true;
  presences = true;
}

abbrev pub set_guild : State → ℕ → Guild → State
set_guild s a g = record s { guild_at = store s.guild_at a g }

abbrev pub set_channel : State → ℕ → Channel → State
set_channel s a c = record s { channel_at = store s.channel_at a c }
