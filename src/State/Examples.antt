-- ===== src/State/Examples.antt =====
-- The theorems on the state cache at a small cache, and runs of the code.
use text.Mathlib.Text.{◌==◌ as str_eq}
use dgo.Prelude.{
  ℕ, Bool, true, false, List, [], ◌∷◌, none, some, ◌≡◌, refl, arith, ◌==◌, if◌then◌else◌, ◌&&◌,
  ◌||◌,
}
use dgo.Prelude.Int.{pos, ◌≤ℤ◌}
use dgo.Prelude.Assoc.{lookup}
use dgo.State.{
  items, push, find_first, User, OverwriteType, PermissionOverwrite, ThreadMember, Channel, Guild,
  Ready, State, state_not_found, all_tracked,
}
use dgo.State.Guilds.{user_id, guild_add, guild, guild_remove}
use dgo.State.Members.{member_add, member_remove}
use dgo.State.Roles.{role, role_add, role_remove}
use dgo.State.Threads.{any_of, ThreadMembersUpdate, thread_members_update}
use dgo.State.Messages.{message_id, message_add, message_remove_by_id, message}
use dgo.State.Permissions.{
  administrator, all_channel, all_permissions, coloured, first_role_color, member_permissions,
  bit_of,
}
use dgo.State.Dispatch.{
  Event, guild_create, guild_delete, guild_member_add, guild_role_delete, on_ready, dispatch,
  on_interface, new_state,
}
use dgo.State.Consistent.{core, IsConsistent}
use dgo.State.Consistent.Events.{handle_all, handle_all-IsConsistent}
use dgo.State.Abstract.{guild_view, view_add, view_remove, not_there, guild_cache-refines}
use dgo.State.MemberView.{member_view, merge_member, member_cache-refines}
use dgo.State.Bounds.{IsWithin, messages-IsWithin, kept_or, message_add-message}
use dgo.State.Stale.{ready_hides_roles}
use dgo.State.Leavers.{leavers_stay}
use dgo.State.Precedence.{from_channel, permissions_precedence, admin_overwritten}
use dgo.State.Colour.{first_role_color_top}

abbrev guild_g : Guild
guild_g = record {
  id = "g";
  owner_id = "owner";
  member_count = pos 1;
  roles = some (7 ∷ []);
  emojis = none;
  stickers = none;
  soundboard_sounds = none;
  members = some (1 ∷ []);
  presences = none;
  channels = none;
  threads = none;
  voice_states = none;
  other = 0;
}

abbrev thread : ThreadMember
thread = record { id = "t"; user_id = "u1"; other = 0 }

-- The channel "c", a thread of two members.
abbrev channel_c : Channel
channel_c = record {
  id = "c";
  guild_id = "g";
  type = 11;
  member_count = pos 2;
  messages = some (5 ∷ []);
  permission_overwrites = none;
  parent_id = "";
  thread_metadata = some false;
  member = none;
  members = some (thread ∷ thread ∷ []);
  other = 0;
}

abbrev no_text : User
no_text = record {
  id = "";
  email = "";
  username = "";
  avatar = "";
  discriminator = "";
  token = "";
  other = 0;
}

-- The objects: the user and the member of address 1 are "u1", every other one is "u2".
abbrev objects : State
objects = record {
  ready = record {
    version = pos 10;
    session_id = "s";
    resume_gateway_url = "";
    user = 0;
    shard = none;
    application = 0;
    guilds = [];
    private_channels = [];
  };
  max_message_count = 1;
  track = all_tracked;
  guild_map = [];
  channel_map = ("c", 3) ∷ [];
  member_map = [];
  role_map = [];
  emoji_map = [];
  guild_at = λ a. guild_g;
  channel_at = λ a. channel_c;
  member_at = λ a. record { guild_id = "g"; joined_at = a; user = a; roles = none; other = 0 };
  role_at = λ a. record {
    id = "r";
    color = pos a;
    position = pos a;
    permissions = bit_of (administrator ∷ []);
    other = 0;
  };
  emoji_at = λ a. record { id = "e"; other = 0 };
  message_at = λ a. record {
    id = if a == 5 then "m5" else "m6";
    channel_id = "c";
    content = "";
    timestamp = 0;
    edited_timestamp = none;
    mentions = none;
    embeds = none;
    attachments = none;
    components = none;
    author = none;
    member = none;
    other = 0;
  };
  presence_at = λ a. record {
    user = a;
    status = "online";
    activities = none;
    since = none;
    client_status = record { desktop = ""; mobile = ""; web = "" };
  };
  user_at = λ a. record no_text { id = if a == 1 then "u1" else "u2" };
  sound_at = λ a. record { sound_id = ""; guild_id = ""; other = 0 };
  next_member = 9;
}

abbrev events : List Event
events = guild_create 0 ∷ guild_member_add 2 ∷ guild_role_delete "g" "r" ∷ guild_delete "g" ∷ []

handle_all-IsConsistent_example : IsConsistent (core (handle_all (new_state objects) events))
unfolding on_interface find_first new_state
handle_all-IsConsistent_example =
    handle_all-IsConsistent objects events (((refl, tt), (refl, tt)), (tt, (tt, (tt, tt))))

-- The cache with one guild.
abbrev one_guild : State
unfolding handle_all
one_guild = handle_all (new_state objects) (guild_create 0 ∷ [])

one_guild-IsConsistent : IsConsistent (core one_guild)
unfolding handle_all on_interface find_first new_state
one_guild-IsConsistent =
    handle_all-IsConsistent objects (guild_create 0 ∷ []) (((refl, tt), (refl, tt)), tt)

guild_cache-refines_example :
    (guild_view (guild_add one_guild 0) ≡ view_add (guild_view one_guild) (one_guild.guild_at 0))
    × (guild_view (guild_remove one_guild "g").0 ≡ view_remove (guild_view one_guild) "g")
    × ((guild_remove one_guild "g").1 ≡ not_there (guild_view one_guild "g"))
unfolding handle_all
guild_cache-refines_example = guild_cache-refines one_guild 0 "g" one_guild-IsConsistent

member_cache-refines_example :
    (member_view (member_add one_guild 2).0 "g" "u1" ≡ (
      if str_eq (user_id one_guild 2) "u1"
      then some
          (merge_member (one_guild.member_at 2) (member_view one_guild "g" (user_id one_guild 2)))
      else member_view one_guild "g" "u1"))
    × (member_view (member_remove one_guild "g" "u2").0 "g" "u1"
        ≡ (if str_eq "u2" "u1" then none else member_view one_guild "g" "u1"))
unfolding handle_all on_interface dispatch guild_add new_state lookup
member_cache-refines_example =
    member_cache-refines one_guild 2 0 (("u1", 1) ∷ []) "u2" "u1" one_guild-IsConsistent refl refl

objects-IsWithin : IsWithin objects
objects-IsWithin x = omega arith

messages-IsWithin_example :
    IsWithin (message_add objects 6).0 × IsWithin (message_remove_by_id objects "c" "m5").0
messages-IsWithin_example = messages-IsWithin objects 6 "c" "m5" objects-IsWithin

message_add-message_example :
    message (message_add objects 6).0 "c" (message_id objects 6)
    ≡ some (kept_or (message objects "c" (message_id objects 6)) 6)
unfolding lookup
message_add-message_example = message_add-message objects 6 3 (omega arith) refl

-- The Ready with the guild "g", which has the role "r".
abbrev with_guild : Ready
with_guild = record objects.ready { guilds = 0 ∷ [] }

ready_hides_roles_example :
    (role (on_ready true objects with_guild) "g" "r" ≡ none)
    × ((role_remove (on_ready true objects with_guild) "g" "r").1 ≡ some state_not_found)
    × (((role_add (on_ready true objects with_guild) "g" 7).0.guild_at 0).roles
        ≡ push (objects.guild_at 0).roles 7)
unfolding guild on_ready
ready_hides_roles_example = ready_hides_roles objects with_guild "g" "r" 0 7 refl refl

-- "u1" has left the thread "t".
abbrev left : ThreadMembersUpdate
left = record {
  id = "t";
  guild_id = "g";
  member_count = pos 1;
  added_members = [];
  removed_members = "u1" ∷ [];
}

abbrev with_thread : State
with_thread = record objects { channel_map = ("t", 3) ∷ [] }

leavers_stay_example :
    items ((thread_members_update with_thread left).0.channel_at 3).members
    ≡ items (with_thread.channel_at 3).members
unfolding lookup any_of
leavers_stay_example = leavers_stay with_thread left 3 refl (refl, (refl, tt)) refl refl

-- The member's overwrite denies to be an administrator and to see the channel.
abbrev denied : PermissionOverwrite
denied = record {
  id = "u2";
  type = OverwriteType.member;
  deny = bit_of (3 ∷ 10 ∷ []);
  allow = bit_of [];
}

abbrev closed : Channel
closed = record channel_c { permission_overwrites = some (denied ∷ []) }

permissions_precedence_example :
    member_permissions objects.role_at guild_g closed "u2" ("r" ∷ []) 10 ≡ (
      let decided = from_channel objects.role_at guild_g (denied ∷ []) "u2" ("r" ∷ []) in
      let result : Bool =
        if str_eq "u2" "owner"
        then all_permissions 10
        else decided 10 || (decided administrator && all_channel 10) in
      result)
permissions_precedence_example =
    permissions_precedence objects.role_at guild_g closed "u2" ("r" ∷ []) 10

admin_overwritten_example :
    member_permissions objects.role_at guild_g closed "u2" ("r" ∷ []) 10 ≡ false
unfolding find_first
admin_overwritten_example =
    admin_overwritten objects.role_at guild_g closed "u2" ("r" ∷ []) 10 denied refl refl
      (refl, refl) (refl, refl)

-- Without the overwrite the administrator sees the channel.
admin_sees : member_permissions objects.role_at guild_g channel_c "u2" ("r" ∷ []) 10 ≡ true
unfolding member_permissions
admin_sees = refl

first_role_color_top_example :
    (x : ℕ) × (first_role_color objects.role_at "g" (7 ∷ 4 ∷ []) ("r" ∷ [])
      ≡ (objects.role_at x).color)
    × (coloured objects.role_at ("r" ∷ []) x ≡ true)
    × ((objects.role_at 4).position ≤ℤ (objects.role_at x).position)
unfolding coloured
first_role_color_top_example =
    first_role_color_top objects.role_at "g" (7 ∷ 4 ∷ []) ("r" ∷ []) 1 4 (omega arith) refl refl
