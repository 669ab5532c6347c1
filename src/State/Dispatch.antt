-- ===== src/State/Dispatch.antt =====
-- What the state cache does with an event: `NewState`, `onReady` and `OnInterface` of state.go. An event of
-- any other type changes nothing.
use text.Mathlib.Text.{◌==◌ as str_eq}
use dgo.Prelude.{
  ℕ, suc, String, Bool, true, false, List, [], ◌∷◌, Option, none, some, ◌==◌, not, if◌then◌else◌,
}
use dgo.Prelude.Int.{ℤ, pos, ◌+ℤ◌, ◌-ℤ◌}
use dgo.Prelude.Assoc.{Assoc, insert}
use dgo.State.{
  Slice, items, store, Member, Message, Presence, VoiceState, ThreadMember, Channel, Guild, Ready,
  State, StateError, set_guild, all_tracked,
}
use dgo.State.Index.{index_from}
use dgo.State.Guilds.{
  user_id, channel_id, create_map, guild_add, guild, guild_remove, soundboard_sound_add,
  soundboard_sound_remove, soundboard_sounds_update,
}
use dgo.State.Members.{member_add, member_remove, member, presence_add}
use dgo.State.Roles.{role_add, role_remove}
use dgo.State.Channels.{channel, channel_add, channel_remove, thread_member_update}
use dgo.State.Threads.{ThreadListSync, ThreadMembersUpdate, thread_list_sync, thread_members_update}
use dgo.State.Messages.{
  message, message_add, message_remove, message_remove_by_id, voice_state, voice_state_update,
}

-- A new cache, over the objects that the heaps hold.
unfoldable pub new_state : State → State
new_state s = record s {
  ready = record {
    version = pos 0;
    session_id = "";
    resume_gateway_url = "";
    user = 0;
    shard = none;
    application = 0;
    guilds = [];
    private_channels = [];
  };
  max_message_count = 0;
  track = all_tracked;
  guild_map = [];
  channel_map = [];
  member_map = [];
  role_map = [];
  emoji_map = [];
}

-- Without tracking the cache keeps what it needs for voice.
abbrev pub essentials : Ready → Ready
essentials r = record r { resume_gateway_url = ""; guilds = []; private_channels = [] }

-- The maps that the loop over the guilds fills.
pub record ReadyMaps : Type 0 where
  pub guild_map : Assoc ℕ
  pub member_map : Assoc (Assoc ℕ)
  pub channel_map : Assoc ℕ

unfoldable pub ready_guilds : State → List ℕ → ReadyMaps → ReadyMaps
unfolding create_map index_from insert
ready_guilds s [] m = m
ready_guilds s (g ∷ gs) m =
    let guild = s.guild_at g in
    ready_guilds s gs (record {
      guild_map = insert guild.id g m.guild_map;
      member_map = create_map (user_id s) guild.id (items guild.members) m.member_map;
      channel_map = index_from (channel_id s) m.channel_map (items guild.channels);
    })

unfoldable pub on_ready : Bool → State → Ready → State
unfolding ready_guilds index_from
on_ready false s r = record s { ready = essentials r }
on_ready true s r =
    let maps = ready_guilds s r.guilds (record {
      guild_map = s.guild_map;
      member_map = s.member_map;
      channel_map = s.channel_map;
    }) in
    record s {
      ready = r;
      guild_map = maps.guild_map;
      member_map = maps.member_map;
      channel_map = index_from (channel_id s) maps.channel_map r.private_channels;
    }

-- Objects are given by their addresses; what an event embeds is given by the parts that are read.
pub data Event : Type 0 where
  ready : Ready → Event
  guild_create guild_update : ℕ → Event
  guild_delete : String → Event
  guild_member_add guild_member_update guild_member_remove : ℕ → Event
  guild_members_chunk : String → List ℕ → List ℕ → Event
  guild_role_create guild_role_update : String → ℕ → Event
  guild_role_delete : String → String → Event
  guild_emojis_update guild_stickers_update : String → Slice ℕ → Event
  guild_soundboard_sound_create guild_soundboard_sound_update : String → Option ℕ → Event
  guild_soundboard_sound_delete : String → String → Event
  guild_soundboard_sounds_update soundboard_sounds : String → Slice (Option ℕ) → Event
  channel_create channel_update thread_create thread_update : ℕ → Event
  channel_delete thread_delete : Channel → Event
  thread_member_updated : ThreadMember → Event
  thread_members_updated : ThreadMembersUpdate → Event
  thread_list_synced : ThreadListSync → Event
  message_create message_update message_delete : ℕ → Event
  message_delete_bulk : String → List String → Event
  voice_state_updated : VoiceState → Event
  presence_update : String → ℕ → Event

-- The copy of the old object that is put into the event.
pub data Before : Type 0 where
  nothing : Before
  old_guild : Guild → Before
  old_member : Member → Before
  old_channel : Channel → Before
  old_message : Message → Before
  old_voice_state : VoiceState → Before

pub record Handled : Type 0 where
  pub state : State
  pub error : Option StateError
  pub before : Before

abbrev pub handled : Before → State × Option StateError → Handled
handled before (s, e) = record { state = s; error = e; before = before }

-- `if s.TrackX { ... }`: what is not tracked changes nothing.
abbrev pub when : Bool → State → Before → State × Option StateError → Handled
when true s before result = handled before result
when false s before result = handled nothing (s, none)

abbrev pub tracked : Bool → State → State × Option StateError → Handled
tracked b s result = when b s nothing result

abbrev pub copy_of {ℓ} : {A : Type ℓ} → (A → Before) → (ℕ → A) → Option ℕ → Before
copy_of wrap heap none = nothing
copy_of wrap heap (some a) = wrap (heap a)

-- The count of the guild changes first.
unfoldable pub count_member : (ℤ → ℤ) → State → ℕ → State
count_member change s g =
    set_guild s g (record (s.guild_at g) { member_count = change (s.guild_at g).member_count })

unfoldable pub add_if : Bool → State → ℕ → State × Option StateError
unfolding member_add
add_if true s a = member_add s a
add_if false s a = (s, none)

unfoldable pub remove_if : Bool → State → String → String → State × Option StateError
unfolding member_remove
remove_if true s k user = member_remove s k user
remove_if false s k user = (s, none)

unfoldable pub member_added : State → ℕ → Option ℕ → State × Option StateError
unfolding count_member add_if
member_added s a none = (s, some StateError.state_not_found)
member_added s a (some g) = add_if s.track.members (count_member (λ n. n +ℤ pos 1) s g) a

unfoldable pub member_removed : State → ℕ → Option ℕ → State × Option StateError
unfolding count_member remove_if
member_removed s a none = (s, some StateError.state_not_found)
member_removed s a (some g) =
    remove_if s.track.members (count_member (λ n. n -ℤ pos 1) s g) (s.member_at a).guild_id
      (user_id s a)

-- `t.Members[i].GuildID = t.GuildID`
abbrev pub own_member : State → String → ℕ → State
own_member s k a = record s {
  member_at = store s.member_at a (record (s.member_at a) { guild_id = k });
}

-- The error of the last member decides.
unfoldable pub chunk_members :
    State → String → List ℕ → Option StateError → State × Option StateError
unfolding member_add
chunk_members s k [] e = (s, e)
chunk_members s k (a ∷ as_) e =
    let added = member_add (own_member s k a) a in chunk_members added.0 k as_ added.1

unfoldable pub chunk_presences :
    State → String → List ℕ → Option StateError → State × Option StateError
unfolding presence_add
chunk_presences s k [] e = (s, e)
chunk_presences s k (p ∷ ps) e =
    let added = presence_add s k p in chunk_presences added.0 k ps added.1

unfoldable pub members_if : Bool → State → String → List ℕ → State × Option StateError
unfolding chunk_members
members_if true s k members = chunk_members s k members none
members_if false s k members = (s, none)

unfoldable pub presences_if :
    Bool → State × Option StateError → String → List ℕ → State × Option StateError
unfolding chunk_presences
presences_if true r k presences = chunk_presences r.0 k presences r.1
presences_if false r k presences = r

unfoldable pub members_chunk : State → String → List ℕ → List ℕ → State × Option StateError
unfolding members_if presences_if
members_chunk s k members presences =
    presences_if s.track.presences (members_if s.track.members s k members) k presences

-- `guild.Emojis = t.Emojis` or `guild.Stickers = t.Stickers`
unfoldable pub replace_in_guild : (Guild → Guild) → State → Option ℕ → State × Option StateError
replace_in_guild change s none = (s, some StateError.state_not_found)
replace_in_guild change s (some g) = (set_guild s g (change (s.guild_at g)), none)

unfoldable pub remove_all : State → String → List String → State
unfolding message_remove_by_id
remove_all s channel [] = s
remove_all s channel (k ∷ ks) = remove_all (message_remove_by_id s channel k).0 channel ks

-- `m = &Member{GuildID: t.GuildID, User: t.User}`
abbrev pub new_member : State → String → Presence → State
new_member s k p = record s {
  member_at =
      store s.member_at s.next_member
        (record { guild_id = k; joined_at = 0; user = p.user; roles = none; other = 0 });
  next_member = suc s.next_member;
}

-- `m.User.Username = t.User.Username`, if there is one
abbrev pub rename_user : State → ℕ → String → State
rename_user s user name = record s {
  user_at = store s.user_at user (record (s.user_at user) {
    username = if str_eq name "" then (s.user_at user).username else name;
  });
}

-- A user comes online, or the name of a cached member's user changes.
unfoldable pub online_member : State → String → Presence → Option ℕ → State × Option StateError
unfolding member_add
online_member s k p none = member_add (new_member s k p) s.next_member
online_member s k p (some m) =
    member_add (rename_user s (s.member_at m).user (s.user_at p.user).username) m

unfoldable pub presence_if : Bool → State → String → ℕ → State
unfolding presence_add
presence_if true s k a = (presence_add s k a).0
presence_if false s k a = s

unfoldable pub online_if : Bool → Bool → State → String → Presence → State × Option StateError
unfolding member online_member
online_if true false s k p = online_member s k p (member s k (s.user_at p.user).id)
online_if true true s k p = (s, none)
online_if false offline s k p = (s, none)

unfoldable pub presence_updated : State → String → ℕ → State × Option StateError
unfolding presence_if online_if
presence_updated s0 k a =
    let s = presence_if s0.track.presences s0 k a in
    let p = s.presence_at a in online_if s.track.members (str_eq p.status "offline") s k p

-- An update of a channel that the cache refuses is no error.
unfoldable pub channel_updated : Bool → State → ℕ → Handled
unfolding channel channel_add
channel_updated false s a = handled nothing (s, none)
channel_updated true s a =
    handled (copy_of old_channel s.channel_at (channel s (channel_id s a)))
      ((channel_add s a).0, none)

abbrev pub old_voice : Option VoiceState → Before
old_voice none = nothing
old_voice (some v) = old_voice_state v

-- The branches of the switch.
unfoldable pub dispatch : State → Event → Handled
unfolding on_ready guild_add guild guild_remove member_added member_removed member member_add
    members_chunk role_add role_remove replace_in_guild soundboard_sound_add soundboard_sound_remove
    soundboard_sounds_update channel_add channel_remove channel_updated thread_member_update
    thread_members_update thread_list_sync message message_add message_remove remove_all voice_state
    voice_state_update presence_updated
dispatch s (ready r) = handled nothing (on_ready true s r, none)
dispatch s (guild_create a) = handled nothing (guild_add s a, none)
dispatch s (guild_update a) = handled nothing (guild_add s a, none)
dispatch s (guild_delete k) = handled (copy_of old_guild s.guild_at (guild s k)) (guild_remove s k)
dispatch s (guild_member_add a) =
    handled nothing (member_added s a (guild s (s.member_at a).guild_id))
dispatch s (guild_member_update a) =
    when s.track.members s
      (copy_of old_member s.member_at (member s (s.member_at a).guild_id (user_id s a)))
      (member_add s a)
dispatch s (guild_member_remove a) =
    handled nothing (member_removed s a (guild s (s.member_at a).guild_id))
dispatch s (guild_members_chunk k members presences) =
    handled nothing (members_chunk s k members presences)
dispatch s (guild_role_create k a) = tracked s.track.roles s (role_add s k a)
dispatch s (guild_role_update k a) = tracked s.track.roles s (role_add s k a)
dispatch s (guild_role_delete k role) = tracked s.track.roles s (role_remove s k role)
dispatch s (guild_emojis_update k emojis) =
    tracked s.track.emojis s (replace_in_guild (λ g. record g { emojis = emojis }) s (guild s k))
dispatch s (guild_stickers_update k stickers) =
    tracked s.track.stickers s
      (replace_in_guild (λ g. record g { stickers = stickers }) s (guild s k))
dispatch s (guild_soundboard_sound_create k a) =
    tracked s.track.soundboard_sounds s (soundboard_sound_add s k a)
dispatch s (guild_soundboard_sound_update k a) =
    tracked s.track.soundboard_sounds s (soundboard_sound_add s k a)
dispatch s (guild_soundboard_sound_delete k sound) =
    tracked s.track.soundboard_sounds s (soundboard_sound_remove s k sound)
dispatch s (guild_soundboard_sounds_update k sounds) =
    tracked s.track.soundboard_sounds s (soundboard_sounds_update s k sounds)
dispatch s (soundboard_sounds k sounds) =
    tracked s.track.soundboard_sounds s (soundboard_sounds_update s k sounds)
dispatch s (channel_create a) = tracked s.track.channels s (channel_add s a)
dispatch s (channel_update a) = channel_updated s.track.channels s a
dispatch s (channel_delete c) = tracked s.track.channels s (channel_remove s c)
dispatch s (thread_create a) = tracked s.track.threads s (channel_add s a)
dispatch s (thread_update a) = channel_updated s.track.threads s a
dispatch s (thread_delete c) = tracked s.track.threads s (channel_remove s c)
dispatch s (thread_member_updated m) = tracked s.track.threads s (thread_member_update s m)
dispatch s (thread_members_updated u) = tracked s.track.thread_members s (thread_members_update s u)
dispatch s (thread_list_synced l) = tracked s.track.threads s (thread_list_sync s l)
dispatch s (message_create a) = tracked (not (s.max_message_count == 0)) s (message_add s a)
dispatch s (message_update a) =
    when (not (s.max_message_count == 0)) s
      (copy_of old_message s.message_at (message s (s.message_at a).channel_id (s.message_at a).id))
      (message_add s a)
dispatch s (message_delete a) =
    when (not (s.max_message_count == 0)) s
      (copy_of old_message s.message_at (message s (s.message_at a).channel_id (s.message_at a).id))
      (message_remove s a)
dispatch s (message_delete_bulk channel ks) =
    tracked (not (s.max_message_count == 0)) s (remove_all s channel ks, none)
dispatch s (voice_state_updated v) =
    when s.track.voice s (old_voice (voice_state s v.guild_id v.user_id)) (voice_state_update s v)
dispatch s (presence_update k a) = handled nothing (presence_updated s k a)

-- Without tracking only Ready is looked at.
unfoldable pub on_interface : Bool → State → Event → Handled
unfolding dispatch on_ready
on_interface true s e = dispatch s e
on_interface false s (ready r) = handled nothing (on_ready false s r, none)
on_interface false s e = handled nothing (s, none)
