-- ===== src/State/Permissions.antt =====
-- Permissions and colours of members: `memberPermissions` of restapi.go with its constants of structs.go,
-- and `UserChannelPermissions`, `MessagePermissions`, `UserColor`, `MessageColor` and
-- `firstRoleColorColor` of state.go. A set of permissions is a function from the number of a bit.
use text.Mathlib.Text.{◌==◌ as str_eq}
use dgo.Prelude.{
  ℕ, String, Bool, true, false, List, [], ◌∷◌, Option, none, some, ◌==◌, ◌&&◌, ◌||◌, not,
  if◌then◌else◌,
}
use dgo.Prelude.Int.{ℤ, pos, eqb_ℤ}
use dgo.State.{
  Slice, items, find_first, Bits, Role, PermissionOverwrite, OverwriteType, Channel, Guild, State,
  StateError, state_not_found, incomplete_permissions, set_guild,
}
use dgo.State.Guilds.{guild}
use dgo.State.Members.{member}
use dgo.State.Channels.{channel}
use dgo.State.Threads.{any_of}

abbrev pub no_bits : Bits
no_bits b = false

-- `a | b`
abbrev pub union : Bits → Bits → Bits
union a c b = a b || c b

-- `a & ^b`
abbrev pub minus : Bits → Bits → Bits
minus a c b = a b && not (c b)

abbrev pub bit_of : List ℕ → Bits
bit_of [] b = false
bit_of (k ∷ ks) b = (k == b) || bit_of ks b

abbrev pub administrator : ℕ
administrator = 3

-- PermissionAllText, PermissionAllVoice, PermissionAllChannel and PermissionAll, by their bits.
all_text : Bits
all_text = bit_of (
    10 ∷ 11 ∷ 12 ∷ 13 ∷ 14 ∷ 15 ∷ 16 ∷ 17 ∷ 18 ∷ 31 ∷ 34 ∷ 35 ∷ 36 ∷ 37 ∷ 38 ∷ 46 ∷ 49 ∷ 50 ∷ 51
    ∷ 52 ∷ [])

all_voice : Bits
all_voice = bit_of (10 ∷ 20 ∷ 21 ∷ 22 ∷ 23 ∷ 24 ∷ 25 ∷ 8 ∷ 9 ∷ 32 ∷ 39 ∷ 42 ∷ 45 ∷ 48 ∷ [])

unfoldable pub all_channel : Bits
unfolding all_text all_voice
all_channel = union (union all_text all_voice) (bit_of (0 ∷ 28 ∷ 4 ∷ 6 ∷ []))

unfoldable pub all_permissions : Bits
unfolding all_channel
all_permissions =
    union all_channel
      (bit_of (1 ∷ 2 ∷ 5 ∷ 3 ∷ 29 ∷ 30 ∷ 7 ∷ 19 ∷ 26 ∷ 27 ∷ 33 ∷ 40 ∷ 41 ∷ 43 ∷ 44 ∷ []))

-- The role of everyone has the ID of the guild.
unfoldable pub everyone_permissions : (ℕ → Role) → String → List ℕ → Bits
unfolding find_first
everyone_permissions heap k roles = elim (find_first (λ r. str_eq (heap r).id k) roles) [
  | none ↦ no_bits
  | some r ↦ (heap r).permissions
]

unfoldable pub role_permissions : (ℕ → Role) → List String → List ℕ → Bits → Bits
unfolding any_of
role_permissions heap names [] acc = acc
role_permissions heap names (r ∷ rs) acc =
    role_permissions heap names rs
      (if any_of names (heap r).id then union acc (heap r).permissions else acc)

-- `if apermissions&PermissionAdministrator == PermissionAdministrator { apermissions |= all }`
abbrev pub add_if_admin : Bits → Bits → Bits
add_if_admin all acc = if acc administrator then union acc all else acc

abbrev pub apply_overwrite : Option PermissionOverwrite → Bits → Bits
apply_overwrite none acc = acc
apply_overwrite (some w) acc = union (minus acc w.deny) w.allow

abbrev pub is_role : PermissionOverwrite → Bool
is_role w = elim w.type [ OverwriteType.role ↦ true | OverwriteType.member ↦ false ]

abbrev pub for_role : List String → PermissionOverwrite → Bool
for_role names w = is_role w && any_of names w.id

abbrev pub for_member : String → PermissionOverwrite → Bool
for_member user w = not (is_role w) && str_eq w.id user

-- `denies` and `allows` of the overwrites of the member's roles.
unfoldable pub role_overwrites : List String → List PermissionOverwrite → Bits → Bits → Bits × Bits
unfolding any_of
role_overwrites names [] denies allows = (denies, allows)
role_overwrites names (w ∷ ws) denies allows =
    let hit = for_role names w in
    role_overwrites names ws (if hit then union denies w.deny else denies)
      (if hit then union allows w.allow else allows)

-- What the roles give, before the channel.
unfoldable pub base_permissions : (ℕ → Role) → Guild → List String → Bits
unfolding everyone_permissions role_permissions all_permissions
base_permissions heap g names =
    add_if_admin all_permissions
      (role_permissions heap names (items g.roles) (everyone_permissions heap g.id (items g.roles)))

unfoldable pub overwritten : List PermissionOverwrite → String → String → List String → Bits → Bits
unfolding find_first role_overwrites
overwritten ws k user names acc =
    let shared = apply_overwrite (find_first (λ (w : PermissionOverwrite). str_eq k w.id) ws) acc in
    let (denies, allows) = role_overwrites names ws no_bits no_bits in
    apply_overwrite (find_first (for_member user) ws) (union (minus shared denies) allows)

unfoldable pub member_permissions : (ℕ → Role) → Guild → Channel → String → List String → Bits
unfolding base_permissions overwritten all_permissions all_channel
member_permissions heap g c user names =
    if str_eq user g.owner_id
    then all_permissions
    else add_if_admin all_channel (
        overwritten (items c.permission_overwrites) g.id user names (base_permissions heap g names))

-- The result, or the error.
pub data Answer : Type 0 where
  permissions : Bits → Answer
  failed : StateError → Answer

permissions_in : State → String → Option ℕ → Channel → Answer
unfolding member_permissions guild
permissions_in s user none c = failed state_not_found
permissions_in s user (some m) c = elim (guild s c.guild_id) [
  | none ↦ failed state_not_found
  | some g ↦
      permissions (member_permissions s.role_at (s.guild_at g) c user (items (s.member_at m).roles))
]

unfoldable pub user_channel_permissions : State → String → String → Answer
unfolding channel guild member permissions_in
user_channel_permissions s user channel_id = elim (channel s channel_id) [
  | none ↦ failed state_not_found
  | some c ↦ elim (guild s (s.channel_at c).guild_id) [
    | none ↦ failed state_not_found
    | some g ↦ permissions_in s user (member s (s.guild_at g).id user) (s.channel_at c)
  ]
]

unfoldable pub message_permissions : State → ℕ → Answer
unfolding channel permissions_in
message_permissions s a = elim (s.message_at a).author [
  | none ↦ failed incomplete_permissions
  | some user ↦ elim (s.message_at a).member [
    | none ↦ failed incomplete_permissions
    | some m ↦ elim (channel s (s.message_at a).channel_id) [
      | none ↦ failed state_not_found
      | some c ↦ permissions_in s (s.user_at user).id (some m) (s.channel_at c)
    ]
  ]
]

-- The first loop of `firstRoleColorColor`, over the sorted roles.
unfoldable pub coloured : (ℕ → Role) → List String → ℕ → Bool
unfolding any_of
coloured heap names r = any_of names (heap r).id && not (eqb_ℤ (heap r).color (pos 0))

unfoldable pub everyone_color : (ℕ → Role) → String → List ℕ → ℤ
unfolding find_first
everyone_color heap k roles = elim (find_first (λ r. str_eq (heap r).id k) roles) [
  | none ↦ pos 0
  | some r ↦ (heap r).color
]

-- The roles are given in the order that `sort.Sort` leaves.
unfoldable pub first_role_color : (ℕ → Role) → String → List ℕ → List String → ℤ
unfolding find_first coloured everyone_color
first_role_color heap k roles names = elim (find_first (coloured heap names) roles) [
  | some r ↦ (heap r).color
  | none ↦ everyone_color heap k roles
]

-- `sort.Sort` works in the array of the cached guild, so the guild's roles are in the new order.
color_in : (List ℕ → List ℕ) → State → ℕ → List String → State × ℤ
unfolding first_role_color
color_in sort s g names =
    let sorted : Slice ℕ = elim (s.guild_at g).roles [ none ↦ none | some rs ↦ some (sort rs) ] in
    (
      set_guild s g (record (s.guild_at g) { roles = sorted }),
      first_role_color s.role_at (s.guild_at g).id (items sorted) names,
    )

unfoldable pub user_color : (List ℕ → List ℕ) → State → String → String → State × ℤ
unfolding channel guild member color_in
user_color sort s user channel_id = elim (channel s channel_id) [
  | none ↦ (s, pos 0)
  | some c ↦ elim (guild s (s.channel_at c).guild_id) [
    | none ↦ (s, pos 0)
    | some g ↦ elim (member s (s.guild_at g).id user) [
      | none ↦ (s, pos 0)
      | some m ↦ color_in sort s g (items (s.member_at m).roles)
    ]
  ]
]

-- The roles of the message's member, none where a pointer is nil.
abbrev pub message_roles : State → ℕ → Option (List String)
message_roles s a = elim (s.message_at a).member [ none ↦ none | some m ↦ (s.member_at m).roles ]

unfoldable pub message_color : (List ℕ → List ℕ) → State → ℕ → State × ℤ
unfolding channel guild color_in
message_color sort s a = elim (message_roles s a) [
  | none ↦ (s, pos 0)
  | some names ↦ elim (channel s (s.message_at a).channel_id) [
    | none ↦ (s, pos 0)
    | some c ↦ elim (guild s (s.channel_at c).guild_id) [
      | none ↦ (s, pos 0)
      | some g ↦ color_in sort s g names
    ]
  ]
]
