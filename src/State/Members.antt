-- ===== src/State/Members.antt =====
-- Members and presences in the state cache: `memberAdd`, `MemberRemove`, `Member`, `presenceAdd`,
-- `PresenceRemove` and `Presence` of state.go.
use text.Mathlib.Text.{◌==◌ as str_eq}
use dgo.Prelude.{ℕ, String, Option, none, some, ◌==◌, if◌then◌else◌}
use dgo.Prelude.Assoc.{Assoc, lookup, insert, erase}
use dgo.State.{
  items, push, find_first, remove_first, store, User, Member, Presence, State, StateError,
  state_not_found, set_guild,
}
use dgo.State.Guilds.{user_id, guild}

-- `if member.JoinedAt.IsZero() { member.JoinedAt = m.JoinedAt }`
abbrev pub keep_joined : Member → Member → Member
keep_joined member m = record member {
  joined_at = if member.joined_at == 0 then m.joined_at else member.joined_at;
}

-- `memberAdd` with the guild and its members at hand. The argument is an address too.
unfoldable pub put_member : State → ℕ → Assoc ℕ → ℕ → State
unfolding lookup insert
put_member s g members a =
    let member = s.member_at a in
    elim (lookup (user_id s a) members) [
      | none ↦
          set_guild
            (record s {
              member_map = insert member.guild_id (insert (user_id s a) a members) s.member_map;
            })
            g (record (s.guild_at g) { members = push (s.guild_at g).members a })
      | some m ↦
          let whole = keep_joined member (s.member_at m) in
          record s { member_at = store (store s.member_at a whole) m whole }
    ]

unfoldable pub member_add : State → ℕ → State × Option StateError
unfolding put_member lookup
member_add s a =
    let k = (s.member_at a).guild_id in
    elim (lookup k s.guild_map) [
      | none ↦ (s, some state_not_found)
      | some g ↦ elim (lookup k s.member_map) [
        | none ↦ (s, some state_not_found)
        | some members ↦ (put_member s g members a, none)
      ]
    ]

-- The member is gone from the map in either case; the error says that the slice did not have it.
unfoldable pub cut_member : State → String → ℕ → Assoc ℕ → String → State × Option StateError
unfolding erase find_first remove_first
cut_member s k g members user =
    let cut = record s { member_map = insert k (erase user members) s.member_map } in
    let test = λ (m : ℕ). str_eq (user_id s m) user in
    elim (find_first test (items (s.guild_at g).members)) [
      | none ↦ (cut, some state_not_found)
      | some _ ↦ (
        set_guild cut g (record (s.guild_at g) {
          members = some (remove_first test (items (s.guild_at g).members));
        }),
        none,
      )
    ]

-- Of its argument the code reads the guild's ID and the user's.
unfoldable pub member_remove : State → String → String → State × Option StateError
unfolding guild lookup cut_member
member_remove s k user = elim (guild s k) [
  | none ↦ (s, some state_not_found)
  | some g ↦ elim (lookup k s.member_map) [
    | none ↦ (s, some state_not_found)
    | some members ↦ elim (lookup user members) [
      | none ↦ (s, some state_not_found)
      | some _ ↦ cut_member s k g members user
    ]
  ]
]

unfoldable pub member : State → String → String → Option ℕ
unfolding lookup
member s k user = elim (lookup k s.member_map) [ none ↦ none | some members ↦ lookup user members ]

-- `if new != "" { old = new }`
abbrev pub update_text : String → String → String
update_text new old = if str_eq new "" then old else new

unfoldable pub update_user : User → User → User
update_user new old = record old {
  id = new.id;
  avatar = update_text new.avatar old.avatar;
  discriminator = update_text new.discriminator old.discriminator;
  email = update_text new.email old.email;
  token = update_text new.token old.token;
  username = update_text new.username old.username;
}

unfoldable pub update_presence : Presence → Presence → Presence
update_presence new old = record old {
  activities = new.activities;
  status = update_text new.status old.status;
  client_status = record {
    desktop = update_text new.client_status.desktop old.client_status.desktop;
    mobile = update_text new.client_status.mobile old.client_status.mobile;
    web = update_text new.client_status.web old.client_status.web;
  };
}

abbrev pub presence_user_id : State → ℕ → String
presence_user_id s p = (s.user_at (s.presence_at p).user).id

abbrev pub find_presence : State → ℕ → String → Option ℕ
find_presence s g user =
    find_first (λ p. str_eq (presence_user_id s p) user) (items (s.guild_at g).presences)

unfoldable pub presence_add : State → String → ℕ → State × Option StateError
unfolding lookup find_first update_user update_presence
presence_add s k a = elim (lookup k s.guild_map) [
  | none ↦ (s, some state_not_found)
  | some g ↦ elim (find_presence s g (presence_user_id s a)) [
    | some p ↦
        let user = (s.presence_at p).user in
        (
          record s {
            presence_at =
                store s.presence_at p (update_presence (s.presence_at a) (s.presence_at p));
            user_at =
                store s.user_at user
                  (update_user (s.user_at (s.presence_at a).user) (s.user_at user));
          },
          none,
        )
    | none ↦ (
      set_guild s g (record (s.guild_at g) { presences = push (s.guild_at g).presences a }),
      none,
    )
  ]
]

unfoldable pub presence_remove : State → String → String → State × Option StateError
unfolding guild find_first remove_first
presence_remove s k user = elim (guild s k) [
  | none ↦ (s, some state_not_found)
  | some g ↦ elim (find_presence s g user) [
    | none ↦ (s, some state_not_found)
    | some _ ↦ (
      set_guild s g (record (s.guild_at g) {
        presences = some (
            remove_first (λ p. str_eq (presence_user_id s p) user)
              (items (s.guild_at g).presences));
      }),
      none,
    )
  ]
]

unfoldable pub presence : State → String → String → Option ℕ
unfolding guild find_first
presence s k user = elim (guild s k) [ none ↦ none | some g ↦ find_presence s g user ]
