-- ===== src/State/Consistent/Channels.antt =====
-- The operations on channels, threads, messages and voice states leave the maps and the slices of guilds,
-- members and roles in agreement.
use dgo.Prelude.{
  ℕ, String, List, [], ◌∷◌, Option, none, some, ◌≡◌, refl, arith, Option-cases, Bool-cases, inl,
  inr, if◌then◌else◌,
}
use dgo.Prelude.Int.{ℤ}
use dgo.Prelude.Assoc.{lookup}
use dgo.State.{
  items, push, find_first, ThreadMember, VoiceState, Channel, State, StateError, set_channel,
}
use dgo.State.Guilds.{guild, channel_id}
use dgo.State.Channels.{
  channel, is_private, is_thread, cut_channel, unmap_channel, new_channel, channel_add,
  channel_remove, thread_member_update,
}
use dgo.State.Threads.{
  ThreadListSync, Synced, add_threads, set_thread_member, set_thread_members, finish_sync,
  thread_list_sync, AddedThreadMember, ThreadMembersUpdate, Cutting, add_member, add_presence,
  add_members, cut_members, finish_update, thread_members_update,
}
use dgo.State.Messages.{
  message_id, is_message, put_message, message_add, cut_message, message_remove_by_id,
  voice_state_update,
}
use dgo.State.Consistent.{core, IsConsistent}
use dgo.State.Consistent.Members.{member_add-IsConsistent}
use dgo.State.Consistent.Others.{kept_guild, presence_add-IsConsistent}

new_channel-IsConsistent :
    (s : State) (a : ℕ) → IsConsistent (core s) → IsConsistent (core (new_channel s a).0)
unfolding new_channel
new_channel-IsConsistent s a c = elim (Bool-cases (is_private (s.channel_at a))) [
  | inl e ↦ rw (e, new_channel) c
  | inr e ↦
      rw (e, new_channel)
        (elim (Option-cases (lookup (s.channel_at a).guild_id s.guild_map)) [
          | inl f ↦ rw (f, new_channel) c
          | inr f ↦
              rw (f.1, new_channel)
                (elim (Bool-cases (is_thread (s.channel_at a))) [
                  | inl h ↦ rw (h, new_channel) (kept_guild s f.0 _ c refl refl refl)
                  | inr h ↦ rw (h, new_channel) (kept_guild s f.0 _ c refl refl refl)
                ])
        ])
]

pub channel_add-IsConsistent :
    (s : State) (a : ℕ) → IsConsistent (core s) → IsConsistent (core (channel_add s a).0)
unfolding channel_add
channel_add-IsConsistent s a c = elim (Option-cases (lookup (channel_id s a) s.channel_map)) [
  | inl e ↦ rw (e, channel_add) (new_channel-IsConsistent s a c)
  | inr e ↦ rw (e.1, channel_add) c
]

pub channel_remove-IsConsistent :
    (s : State) (x : Channel) → IsConsistent (core s) → IsConsistent (core (channel_remove s x).0)
unfolding channel_remove channel guild unmap_channel cut_channel
channel_remove-IsConsistent s x c = elim (Option-cases (lookup x.id s.channel_map)) [
  | inl e ↦ rw (e, channel_remove) c
  | inr e ↦
      rw (e.1, channel_remove)
        (elim (Bool-cases (is_private x)) [
          | inl h ↦ rw (h, channel_remove) c
          | inr h ↦
              rw (h, channel_remove)
                (elim (Option-cases (lookup x.guild_id s.guild_map)) [
                  | inl f ↦ rw (f, channel_remove) c
                  | inr f ↦
                      rw (f.1, channel_remove)
                        (kept_guild s f.0 (cut_channel s f.0 x) c (kept_id f.0) (kept_members f.0)
                          (kept_roles f.0))
                ])
        ])
]
  where
    kept_id : (g : ℕ) → (cut_channel s g x).id ≡ (s.guild_at g).id
    kept_id g = ground arith

    kept_members : (g : ℕ) → (cut_channel s g x).members ≡ (s.guild_at g).members
    kept_members g = ground arith

    kept_roles : (g : ℕ) → (cut_channel s g x).roles ≡ (s.guild_at g).roles
    kept_roles g = ground arith

pub thread_member_update-IsConsistent :
    (s : State) (m : ThreadMember)
    → IsConsistent (core s)
    → IsConsistent (core (thread_member_update s m).0)
unfolding thread_member_update channel
thread_member_update-IsConsistent s m c = elim (Option-cases (lookup m.id s.channel_map)) [
  | inl e ↦ rw (e, thread_member_update) c
  | inr e ↦ rw (e.1, thread_member_update) c
]

add_threads-IsConsistent :
    (ts : List ℕ) (s : State) (g : ℕ)
    → IsConsistent (core s)
    → IsConsistent (core (add_threads s g ts))
unfolding add_threads
add_threads-IsConsistent [] s g c = c
add_threads-IsConsistent (t ∷ ts) s g c =
    add_threads-IsConsistent ts _ g (kept_guild s g _ c refl refl refl)

set_thread_member-IsConsistent :
    (s : State) (m : ThreadMember)
    → IsConsistent (core s)
    → IsConsistent (core (set_thread_member s m))
unfolding set_thread_member
set_thread_member-IsConsistent s m c = elim (Option-cases (lookup m.id s.channel_map)) [
  | inl e ↦ rw (e, set_thread_member) c
  | inr e ↦ rw (e.1, set_thread_member) c
]

set_thread_members-IsConsistent :
    (ms : List ThreadMember) (s : State)
    → IsConsistent (core s)
    → IsConsistent (core (set_thread_members s ms))
unfolding set_thread_members
set_thread_members-IsConsistent [] s c = c
set_thread_members-IsConsistent (m ∷ ms) s c =
    set_thread_members-IsConsistent ms (set_thread_member s m)
      (set_thread_member-IsConsistent s m c)

finish_sync-IsConsistent :
    (s : State) (g : ℕ) (l : ThreadListSync) (synced : Synced)
    → IsConsistent (core s)
    → IsConsistent (core (finish_sync s g l synced).0)
unfolding finish_sync
finish_sync-IsConsistent s g l synced c = elim (Bool-cases synced.nil_metadata) [
  | inl e ↦ rw (e, finish_sync) (kept_guild s g _ c refl refl refl)
  | inr e ↦
      rw (e, finish_sync)
        (set_thread_members-IsConsistent l.members _
          (add_threads-IsConsistent l.threads _ g (kept_guild s g _ c refl refl refl)))
]

pub thread_list_sync-IsConsistent :
    (s : State) (l : ThreadListSync)
    → IsConsistent (core s)
    → IsConsistent (core (thread_list_sync s l).0)
unfolding thread_list_sync guild
thread_list_sync-IsConsistent s l c = elim (Option-cases (lookup l.guild_id s.guild_map)) [
  | inl e ↦ rw (e, thread_list_sync) c
  | inr e ↦ rw (e.1, thread_list_sync) (finish_sync-IsConsistent s e.0 l _ c)
]

add_member-IsConsistent :
    (s : State) (m : Option ℕ) → IsConsistent (core s) → IsConsistent (core (add_member s m).0)
unfolding add_member
add_member-IsConsistent s none c = c
add_member-IsConsistent s (some a) c = member_add-IsConsistent s a c

add_presence-IsConsistent :
    (s : State) (k : String) (p : Option ℕ)
    → IsConsistent (core s)
    → IsConsistent (core (add_presence s k p).0)
unfolding add_presence
add_presence-IsConsistent s k none c = c
add_presence-IsConsistent s k (some a) c = presence_add-IsConsistent s k a c

add_members-IsConsistent :
    (added : List AddedThreadMember) (s : State) (x : ℕ) (k : String)
    → IsConsistent (core s)
    → IsConsistent (core (add_members s x k added).0)
unfolding add_members
add_members-IsConsistent [] s x k c = c
add_members-IsConsistent (m ∷ ms) s x k c =
    let s0 =
      set_channel s x
        (record (s.channel_at x) { members = push (s.channel_at x).members m.thread_member }) in
    let first = add_member-IsConsistent s0 m.member c in
    let second = add_presence-IsConsistent (add_member s0 m.member).0 k m.presence first in
    elim (Option-cases (add_member s0 m.member).1) [
      | inr e ↦ rw (e.1, add_members) first
      | inl e ↦
          rw (e, add_members)
            (elim (Option-cases (add_presence (add_member s0 m.member).0 k m.presence).1) [
              | inr f ↦ rw (f.1, add_members) second
              | inl f ↦ rw (f, add_members) (add_members-IsConsistent ms _ x k second)
            ])
    ]

finish_update-IsConsistent :
    (r : State × Option StateError) (x : ℕ) (n : ℤ)
    → IsConsistent (core r.0)
    → IsConsistent (core (finish_update r x n).0)
unfolding finish_update
finish_update-IsConsistent (s, some e) x n c = c
finish_update-IsConsistent (s, none) x n c = c

pub thread_members_update-IsConsistent :
    (s : State) (u : ThreadMembersUpdate)
    → IsConsistent (core s)
    → IsConsistent (core (thread_members_update s u).0)
unfolding thread_members_update channel
thread_members_update-IsConsistent s u c = elim (Option-cases (lookup u.id s.channel_map)) [
  | inl e ↦ rw (e, thread_members_update) c
  | inr e ↦ rw (e.1, thread_members_update) (after e.0 _)
]
  where
    after :
        (x : ℕ) (cutting : Cutting)
        → IsConsistent (
            core
              (let s' = set_channel s x (cut_members (s.channel_at x) cutting) in
                let r : State × Option StateError =
                  if cutting.out_of_range
                  then (s', some StateError.panicked)
                  else finish_update
                      (add_members s' x u.guild_id u.added_members)
                      x
                      u.member_count in
                r).0)
    after x cutting = elim (Bool-cases cutting.out_of_range) [
      | inl e ↦ rw e c
      | inr e ↦ rw e (
          finish_update-IsConsistent (add_members _ x u.guild_id u.added_members) x u.member_count
            (add_members-IsConsistent u.added_members _ x u.guild_id c))
    ]

pub message_add-IsConsistent :
    (s : State) (a : ℕ) → IsConsistent (core s) → IsConsistent (core (message_add s a).0)
unfolding message_add channel put_message
message_add-IsConsistent s a c =
    elim (Option-cases (lookup (s.message_at a).channel_id s.channel_map)) [
      | inl e ↦ rw (e, message_add) c
      | inr e ↦
          rw (e.1, message_add)
            (elim (Option-cases
              (find_first (is_message s (message_id s a)) (items (s.channel_at e.0).messages))) [
                | inl f ↦ rw (f, put_message) c
                | inr f ↦ rw (f.1, put_message) c
              ])
    ]

pub message_remove_by_id-IsConsistent :
    (s : State) (channel k : String)
    → IsConsistent (core s)
    → IsConsistent (core (message_remove_by_id s channel k).0)
unfolding message_remove_by_id channel cut_message
message_remove_by_id-IsConsistent s x k c = elim (Option-cases (lookup x s.channel_map)) [
  | inl e ↦ rw (e, message_remove_by_id) c
  | inr e ↦
      rw (e.1, message_remove_by_id)
        (elim (Option-cases (find_first (is_message s k) (items (s.channel_at e.0).messages))) [
          | inl f ↦ rw (f, cut_message) c
          | inr f ↦ rw (f.1, cut_message) c
        ])
]

pub voice_state_update-IsConsistent :
    (s : State) (v : VoiceState)
    → IsConsistent (core s)
    → IsConsistent (core (voice_state_update s v).0)
unfolding voice_state_update guild
voice_state_update-IsConsistent s v c = elim (Option-cases (lookup v.guild_id s.guild_map)) [
  | inl e ↦ rw (e, voice_state_update) c
  | inr e ↦ rw (e.1, voice_state_update) (kept_guild s e.0 _ c refl refl refl)
]
