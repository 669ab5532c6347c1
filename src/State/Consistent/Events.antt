-- ===== src/State/Consistent/Events.antt =====
-- Every event leaves the cache with maps and slices that agree.
use dgo.Prelude.{true, not, List, [], ◌∷◌, ◌≡◌, refl, All, ◌==◌}
use dgo.Prelude.Assoc.{lookup}
use dgo.State.{State}
use dgo.State.Index.{Unique, empty-IsIndexed}
use dgo.State.Guilds.{guild, guild_id}
use dgo.State.Members.{member_add}
use dgo.State.Messages.{message_id, message_remove}
use dgo.State.Dispatch.{
  Event, ready, guild_create, guild_update, guild_delete, guild_member_add, guild_member_update,
  guild_member_remove, guild_members_chunk, guild_role_create, guild_role_update, guild_role_delete,
  guild_emojis_update, guild_stickers_update, guild_soundboard_sound_create,
  guild_soundboard_sound_update, guild_soundboard_sound_delete, guild_soundboard_sounds_update,
  soundboard_sounds, channel_create, channel_update, thread_create, thread_update, channel_delete,
  thread_delete, thread_member_updated, thread_members_updated, thread_list_synced, message_create,
  message_update, message_delete, message_delete_bulk, voice_state_updated, presence_update,
  members_chunk, members_if, dispatch, on_interface, new_state,
}
use dgo.State.Consistent.{core, IsConsistent}
use dgo.State.Consistent.Guilds.{HasUniqueNames, guild_add-IsConsistent, guild_remove-IsConsistent}
use dgo.State.Consistent.Members.{member_add-IsConsistent}
use dgo.State.Consistent.Roles.{role_add-IsConsistent, role_remove-IsConsistent}
use dgo.State.Consistent.Others.{
  soundboard_sound_add-IsConsistent, soundboard_sound_remove-IsConsistent,
  soundboard_sounds_update-IsConsistent,
}
use dgo.State.Consistent.Channels.{
  channel_add-IsConsistent, channel_remove-IsConsistent, thread_member_update-IsConsistent,
  thread_list_sync-IsConsistent, thread_members_update-IsConsistent, message_add-IsConsistent,
  message_remove_by_id-IsConsistent, voice_state_update-IsConsistent,
}
use dgo.State.Consistent.Ready.{IsFirst, on_ready-IsConsistent}
use dgo.State.Consistent.Steps.{
  Unheld, when-IsConsistent, member_added-IsConsistent, member_removed-IsConsistent,
  members_if-IsConsistent, presences_if-IsConsistent, replace_in_guild-IsConsistent,
  remove_all-IsConsistent, presence_updated-IsConsistent, channel_updated-IsConsistent,
}

-- What an event must be: a Ready is the first one, a guild that arrives names its members and roles
-- uniquely, and a member that is made for a presence is a new object.
abbrev pub IsAdmissible : State → Event → Type 0
IsAdmissible s (ready r) =
    (s.guild_map ≡ [])
    × (s.member_map ≡ [])
    × (s.role_map ≡ [])
    × Unique (guild_id s) r.guilds
    × All (IsFirst s) r.guilds
IsAdmissible s (guild_create a) = HasUniqueNames s (s.guild_at a)
IsAdmissible s (guild_update a) = HasUniqueNames s (s.guild_at a)
IsAdmissible s (presence_update k a) = Unheld (λ g. (s.guild_at g).members) s.next_member
IsAdmissible s _ = Unit

dispatch-IsConsistent :
    (s : State) (e : Event)
    → IsAdmissible s e
    → IsConsistent (core s)
    → IsConsistent (core (dispatch s e).state)
unfolding dispatch members_chunk message_remove
dispatch-IsConsistent s (ready r) a c = on_ready-IsConsistent s r a.0 a.1 a.2 a.3 a.4
dispatch-IsConsistent s (guild_create g) a c = guild_add-IsConsistent s g c a
dispatch-IsConsistent s (guild_update g) a c = guild_add-IsConsistent s g c a
dispatch-IsConsistent s (guild_delete k) a c = guild_remove-IsConsistent s k c
dispatch-IsConsistent s (guild_member_add m) a c =
    member_added-IsConsistent s m (guild s (s.member_at m).guild_id) c
dispatch-IsConsistent s (guild_member_update m) a c =
    when-IsConsistent s.track.members s _ (member_add s m) c (member_add-IsConsistent s m c)
dispatch-IsConsistent s (guild_member_remove m) a c =
    member_removed-IsConsistent s m (guild s (s.member_at m).guild_id) c
dispatch-IsConsistent s (guild_members_chunk k ms ps) a c =
    presences_if-IsConsistent s.track.presences (members_if s.track.members s k ms) k ps
      (members_if-IsConsistent s.track.members s k ms c)
dispatch-IsConsistent s (guild_role_create k r) a c =
    when-IsConsistent s.track.roles s _ _ c (role_add-IsConsistent s k r c)
dispatch-IsConsistent s (guild_role_update k r) a c =
    when-IsConsistent s.track.roles s _ _ c (role_add-IsConsistent s k r c)
dispatch-IsConsistent s (guild_role_delete k r) a c =
    when-IsConsistent s.track.roles s _ _ c (role_remove-IsConsistent s k r c)
dispatch-IsConsistent s (guild_emojis_update k x) a c = when-IsConsistent s.track.emojis s _ _ c (
    replace_in_guild-IsConsistent (λ g. record g { emojis = x }) s (guild s k)
      (λ g. (refl, refl, refl)) c)
dispatch-IsConsistent s (guild_stickers_update k x) a c =
    when-IsConsistent s.track.stickers s _ _ c (
      replace_in_guild-IsConsistent (λ g. record g { stickers = x }) s (guild s k)
        (λ g. (refl, refl, refl)) c)
dispatch-IsConsistent s (guild_soundboard_sound_create k x) a c =
    when-IsConsistent s.track.soundboard_sounds s _ _ c (soundboard_sound_add-IsConsistent s k x c)
dispatch-IsConsistent s (guild_soundboard_sound_update k x) a c =
    when-IsConsistent s.track.soundboard_sounds s _ _ c (soundboard_sound_add-IsConsistent s k x c)
dispatch-IsConsistent s (guild_soundboard_sound_delete k x) a c =
    when-IsConsistent s.track.soundboard_sounds s _ _ c
      (soundboard_sound_remove-IsConsistent s k x c)
dispatch-IsConsistent s (guild_soundboard_sounds_update k x) a c =
    when-IsConsistent s.track.soundboard_sounds s _ _ c
      (soundboard_sounds_update-IsConsistent s k x c)
dispatch-IsConsistent s (soundboard_sounds k x) a c =
    when-IsConsistent s.track.soundboard_sounds s _ _ c
      (soundboard_sounds_update-IsConsistent s k x c)
dispatch-IsConsistent s (channel_create x) a c =
    when-IsConsistent s.track.channels s _ _ c (channel_add-IsConsistent s x c)
dispatch-IsConsistent s (channel_update x) a c = channel_updated-IsConsistent s.track.channels s x c
dispatch-IsConsistent s (channel_delete x) a c =
    when-IsConsistent s.track.channels s _ _ c (channel_remove-IsConsistent s x c)
dispatch-IsConsistent s (thread_create x) a c =
    when-IsConsistent s.track.threads s _ _ c (channel_add-IsConsistent s x c)
dispatch-IsConsistent s (thread_update x) a c = channel_updated-IsConsistent s.track.threads s x c
dispatch-IsConsistent s (thread_delete x) a c =
    when-IsConsistent s.track.threads s _ _ c (channel_remove-IsConsistent s x c)
dispatch-IsConsistent s (thread_member_updated m) a c =
    when-IsConsistent s.track.threads s _ _ c (thread_member_update-IsConsistent s m c)
dispatch-IsConsistent s (thread_members_updated u) a c =
    when-IsConsistent s.track.thread_members s _ _ c (thread_members_update-IsConsistent s u c)
dispatch-IsConsistent s (thread_list_synced l) a c =
    when-IsConsistent s.track.threads s _ _ c (thread_list_sync-IsConsistent s l c)
dispatch-IsConsistent s (message_create m) a c =
    when-IsConsistent (not (s.max_message_count == 0)) s _ _ c (message_add-IsConsistent s m c)
dispatch-IsConsistent s (message_update m) a c =
    when-IsConsistent (not (s.max_message_count == 0)) s _ _ c (message_add-IsConsistent s m c)
dispatch-IsConsistent s (message_delete m) a c =
    when-IsConsistent (not (s.max_message_count == 0)) s _ _ c
      (message_remove_by_id-IsConsistent s (s.message_at m).channel_id (message_id s m) c)
dispatch-IsConsistent s (message_delete_bulk x ks) a c =
    when-IsConsistent (not (s.max_message_count == 0)) s _ _ c (remove_all-IsConsistent ks s x c)
dispatch-IsConsistent s (voice_state_updated v) a c =
    when-IsConsistent s.track.voice s _ _ c (voice_state_update-IsConsistent s v c)
dispatch-IsConsistent s (presence_update k x) a c = presence_updated-IsConsistent s k x a c

-- A session with tracking: the events in the order in which they arrive.
unfoldable pub handle_all : State → List Event → State
unfolding on_interface
handle_all s [] = s
handle_all s (e ∷ es) = handle_all (on_interface true s e).state es

abbrev pub AllAdmissible : State → List Event → Type 0
unfolding on_interface
AllAdmissible s [] = Unit
AllAdmissible s (e ∷ es) = IsAdmissible s e × AllAdmissible (on_interface true s e).state es

keeps-IsConsistent :
    (es : List Event) (s : State)
    → AllAdmissible s es
    → IsConsistent (core s)
    → IsConsistent (core (handle_all s es))
unfolding handle_all on_interface
keeps-IsConsistent [] s a c = c
keeps-IsConsistent (e ∷ es) s a c =
    keeps-IsConsistent es (on_interface true s e).state a.1 (dispatch-IsConsistent s e a.0 c)

pub new_state-IsConsistent : (s : State) → IsConsistent (core (new_state s))
unfolding new_state lookup
new_state-IsConsistent s = record {
  guilds = empty-IsIndexed (guild_id s);
  members = λ k. tt;
  roles = λ k. tt;
}

-- From a new cache on, whatever admissible events `OnInterface` handles with state tracking enabled, the
-- guild map finds exactly what a search of the guilds of Ready finds, the member map and the role map of
-- each cached guild find exactly what a search of the guild's own slice finds, no two objects of such a
-- slice have one ID, and a guild that is not cached has no such maps. An event is admissible if a Ready
-- meets empty maps and guilds with distinct IDs, distinct members and no roles, a guild that arrives has
-- members and roles with distinct IDs, and the object that a presence may need is held by no guild.
pub handle_all-IsConsistent :
    (s : State) (es : List Event)
    → AllAdmissible (new_state s) es
    → IsConsistent (core (handle_all (new_state s) es))
handle_all-IsConsistent s es a = keeps-IsConsistent es (new_state s) a (new_state-IsConsistent s)
