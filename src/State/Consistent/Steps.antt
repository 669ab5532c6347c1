-- ===== src/State/Consistent/Steps.antt =====
-- The parts of `OnInterface` that have branches of their own leave maps and slices in agreement.
use text.Mathlib.Text.{◌==◌ as str_eq}
use dgo.Prelude.{
  ℕ, String, Bool, true, false, List, [], ◌∷◌, Option, none, some, ◌≡◌, ◌≢◌, refl, subst, arith,
  Option-cases, inl, inr, All, All-mono,
}
use dgo.Prelude.Int.{ℤ, pos, ◌+ℤ◌, ◌-ℤ◌}
use dgo.Prelude.Assoc.{Assoc, lookup}
use dgo.State.{Slice, items, push, store, Guild, Presence, State, StateError}
use dgo.State.Index.{rename-IsIndexed}
use dgo.State.Guilds.{user_id}
use dgo.State.Members.{find_presence, presence_user_id, member, member_add, presence_add}
use dgo.State.Messages.{message_remove_by_id}
use dgo.State.Dispatch.{
  Before, when, count_member, add_if, remove_if, member_added, member_removed, chunk_members,
  chunk_presences, members_if, presences_if, presence_if, online_if, replace_in_guild, remove_all,
  own_member, new_member, rename_user, online_member, presence_updated, channel_updated,
}
use dgo.State.Consistent.{Owned, core, IsConsistent}
use dgo.State.Consistent.Members.{member_add-IsConsistent, member_remove-IsConsistent, same_users}
use dgo.State.Consistent.Others.{kept_guild, kept_users, presence_add-IsConsistent}
use dgo.State.Consistent.Channels.{channel_add-IsConsistent, message_remove_by_id-IsConsistent}

-- No cached guild holds the address.
abbrev pub Unheld : (ℕ → Slice ℕ) → ℕ → Type 0
Unheld members a = (g : ℕ) → All (λ x. x ≢ a) (items (members g))

pub when-IsConsistent :
    (b : Bool) (s : State) (before : Before) (r : State × Option StateError)
    → IsConsistent (core s)
    → IsConsistent (core r.0)
    → IsConsistent (core (when b s before r).state)
when-IsConsistent true s before r c d = d
when-IsConsistent false s before r c d = c

count_member-IsConsistent :
    (change : ℤ → ℤ) (s : State) (g : ℕ)
    → IsConsistent (core s)
    → IsConsistent (core (count_member change s g))
unfolding count_member
count_member-IsConsistent change s g c = kept_guild s g _ c refl refl refl

add_if-IsConsistent :
    (b : Bool) (s : State) (a : ℕ) → IsConsistent (core s) → IsConsistent (core (add_if b s a).0)
unfolding add_if
add_if-IsConsistent true s a c = member_add-IsConsistent s a c
add_if-IsConsistent false s a c = c

remove_if-IsConsistent :
    (b : Bool) (s : State) (k user : String)
    → IsConsistent (core s)
    → IsConsistent (core (remove_if b s k user).0)
unfolding remove_if
remove_if-IsConsistent true s k user c = member_remove-IsConsistent s k user c
remove_if-IsConsistent false s k user c = c

pub member_added-IsConsistent :
    (s : State) (a : ℕ) (o : Option ℕ)
    → IsConsistent (core s)
    → IsConsistent (core (member_added s a o).0)
unfolding member_added
member_added-IsConsistent s a none c = c
member_added-IsConsistent s a (some g) c =
    add_if-IsConsistent s.track.members (count_member (λ n. n +ℤ pos 1) s g) a
      (count_member-IsConsistent (λ n. n +ℤ pos 1) s g c)

pub member_removed-IsConsistent :
    (s : State) (a : ℕ) (o : Option ℕ)
    → IsConsistent (core s)
    → IsConsistent (core (member_removed s a o).0)
unfolding member_removed
member_removed-IsConsistent s a none c = c
member_removed-IsConsistent s a (some g) c =
    remove_if-IsConsistent s.track.members (count_member (λ n. n -ℤ pos 1) s g)
      (s.member_at a).guild_id (user_id s a) (count_member-IsConsistent (λ n. n -ℤ pos 1) s g c)

chunk_members-IsConsistent :
    (ms : List ℕ) (s : State) (k : String) (e : Option StateError)
    → IsConsistent (core s)
    → IsConsistent (core (chunk_members s k ms e).0)
unfolding chunk_members
chunk_members-IsConsistent [] s k e c = c
chunk_members-IsConsistent (a ∷ ms) s k e c =
    let added = member_add (own_member s k a) a in
    chunk_members-IsConsistent ms added.0 k added.1 (
      member_add-IsConsistent (own_member s k a) a (
        same_users s (store s.member_at a (record (s.member_at a) { guild_id = k }))
          (λ x. ground arith) c))

chunk_presences-IsConsistent :
    (ps : List ℕ) (s : State) (k : String) (e : Option StateError)
    → IsConsistent (core s)
    → IsConsistent (core (chunk_presences s k ps e).0)
unfolding chunk_presences
chunk_presences-IsConsistent [] s k e c = c
chunk_presences-IsConsistent (p ∷ ps) s k e c =
    let added = presence_add s k p in
    chunk_presences-IsConsistent ps added.0 k added.1 (presence_add-IsConsistent s k p c)

pub members_if-IsConsistent :
    (b : Bool) (s : State) (k : String) (ms : List ℕ)
    → IsConsistent (core s)
    → IsConsistent (core (members_if b s k ms).0)
unfolding members_if
members_if-IsConsistent true s k ms c = chunk_members-IsConsistent ms s k none c
members_if-IsConsistent false s k ms c = c

pub presences_if-IsConsistent :
    (b : Bool) (r : State × Option StateError) (k : String) (ps : List ℕ)
    → IsConsistent (core r.0)
    → IsConsistent (core (presences_if b r k ps).0)
unfolding presences_if
presences_if-IsConsistent true r k ps c = chunk_presences-IsConsistent ps r.0 k r.1 c
presences_if-IsConsistent false r k ps c = c

pub replace_in_guild-IsConsistent :
    (change : Guild → Guild) (s : State) (o : Option ℕ)
    → ((g : Guild)
        → ((change g).id ≡ g.id) × ((change g).members ≡ g.members) × ((change g).roles ≡ g.roles))
    → IsConsistent (core s)
    → IsConsistent (core (replace_in_guild change s o).0)
unfolding replace_in_guild
replace_in_guild-IsConsistent change s none kept c = c
replace_in_guild-IsConsistent change s (some g) kept c =
    let k = kept (s.guild_at g) in kept_guild s g (change (s.guild_at g)) c k.0 k.1 k.2

pub remove_all-IsConsistent :
    (ks : List String) (s : State) (x : String)
    → IsConsistent (core s)
    → IsConsistent (core (remove_all s x ks))
unfolding remove_all
remove_all-IsConsistent [] s x c = c
remove_all-IsConsistent (k ∷ ks) s x c =
    remove_all-IsConsistent ks (message_remove_by_id s x k).0 x
      (message_remove_by_id-IsConsistent s x k c)

-- A new object for a member that no guild holds.
module _ (s : State) (k : String) (p : Presence)
    (free : Unheld (λ g. (s.guild_at g).members) s.next_member) where
  same_name : (x : ℕ) → x ≢ s.next_member → user_id (new_member s k p) x ≡ user_id s x
  same_name x ne = ground arith

  renamed :
      (o : Option ℕ) (q : Option (Assoc ℕ))
      → Owned (user_id s) (λ g. (s.guild_at g).members) o q
      → Owned (user_id (new_member s k p)) (λ g. (s.guild_at g).members) o q
  renamed none none h = h
  renamed none (some m) h = h
  renamed (some g) q h =
      rename-IsIndexed (user_id s) (user_id (new_member s k p))
        (All-mono (λ x. x ≢ s.next_member) (λ x. user_id (new_member s k p) x ≡ user_id s x)
          (items (s.guild_at g).members) same_name (free g))
        h

  new_member-IsConsistent : IsConsistent (core s) → IsConsistent (core (new_member s k p))
  new_member-IsConsistent c = record {
    guilds = c.guilds;
    members = λ j. renamed (lookup j s.guild_map) (lookup j s.member_map) (c.members j);
    roles = c.roles;
  }

  online_member-IsConsistent :
      (o : Option ℕ) → IsConsistent (core s) → IsConsistent (core (online_member s k p o).0)
  unfolding online_member
  online_member-IsConsistent none c =
      member_add-IsConsistent (new_member s k p) s.next_member (new_member-IsConsistent c)
  online_member-IsConsistent (some m) c =
      let user = (s.member_at m).user in
      let name = (s.user_at p.user).username in
      member_add-IsConsistent (rename_user s user name) m
        (kept_users s (rename_user s user name).user_at (λ x. ground arith) c)

online_if-IsConsistent :
    (b offline : Bool) (s : State) (k : String) (p : Presence)
    → Unheld (λ g. (s.guild_at g).members) s.next_member
    → IsConsistent (core s)
    → IsConsistent (core (online_if b offline s k p).0)
unfolding online_if
online_if-IsConsistent true false s k p free c =
    online_member-IsConsistent s k p free (member s k (s.user_at p.user).id) c
online_if-IsConsistent true true s k p free c = c
online_if-IsConsistent false offline s k p free c = c

presence_add-Unheld :
    (s : State) (k : String) (a : ℕ)
    → Unheld (λ g. (s.guild_at g).members) s.next_member
    → Unheld (λ g. ((presence_add s k a).0.guild_at g).members) (presence_add s k a).0.next_member
unfolding presence_add
presence_add-Unheld s k a free = elim (Option-cases (lookup k s.guild_map)) [
  | inl e ↦ rw (e, presence_add) free
  | inr e ↦
      rw (e.1, presence_add)
        (elim (Option-cases (find_presence s e.0 (presence_user_id s a))) [
          | inl f ↦
              rw (f, presence_add)
                (λ g. subst (λ ms. All (λ x. x ≢ s.next_member) (items ms)) (kept g e.0) (free g))
          | inr f ↦ rw (f.1, presence_add) free
        ])
]
  where
    kept :
        (g h : ℕ)
        → (s.guild_at g).members
          ≡ (store s.guild_at h
              (record (s.guild_at h) { presences = push (s.guild_at h).presences a })
              g).members
    kept g h = ground arith

presence_if-Unheld :
    (b : Bool) (s : State) (k : String) (a : ℕ)
    → Unheld (λ g. (s.guild_at g).members) s.next_member
    → Unheld (λ g. ((presence_if b s k a).guild_at g).members) (presence_if b s k a).next_member
unfolding presence_if
presence_if-Unheld false s k a free = free
presence_if-Unheld true s k a free = presence_add-Unheld s k a free

presence_if-IsConsistent :
    (b : Bool) (s : State) (k : String) (a : ℕ)
    → IsConsistent (core s)
    → IsConsistent (core (presence_if b s k a))
unfolding presence_if
presence_if-IsConsistent true s k a c = presence_add-IsConsistent s k a c
presence_if-IsConsistent false s k a c = c

pub presence_updated-IsConsistent :
    (s : State) (k : String) (a : ℕ)
    → Unheld (λ g. (s.guild_at g).members) s.next_member
    → IsConsistent (core s)
    → IsConsistent (core (presence_updated s k a).0)
unfolding presence_updated
presence_updated-IsConsistent s k a free c =
    let s' = presence_if s.track.presences s k a in
    online_if-IsConsistent s'.track.members (str_eq (s'.presence_at a).status "offline") s' k
      (s'.presence_at a) (presence_if-Unheld s.track.presences s k a free)
      (presence_if-IsConsistent s.track.presences s k a c)

pub channel_updated-IsConsistent :
    (b : Bool) (s : State) (a : ℕ)
    → IsConsistent (core s)
    → IsConsistent (core (channel_updated b s a).state)
unfolding channel_updated
channel_updated-IsConsistent true s a c = channel_add-IsConsistent s a c
channel_updated-IsConsistent false s a c = c
