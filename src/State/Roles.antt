-- ===== src/State/Roles.antt =====
-- Roles and emojis in the state cache: `RoleAdd`, `RoleRemove`, `Role`, `EmojiAdd`, `EmojisAdd` and `Emoji`
-- of state.go.
use text.Mathlib.Text.{◌==◌ as str_eq}
use dgo.Prelude.{ℕ, String, List, [], ◌∷◌, Option, none, some}
use dgo.Prelude.Assoc.{Assoc, lookup, insert, erase}
use dgo.State.{push, remove_first, store, State, StateError, state_not_found, set_guild}
use dgo.State.Guilds.{role_id, emoji_id, guild}

-- `roles, ok := s.roleMap[k]; if !ok { roles = make(map...) }`
abbrev pub map_of : Assoc (Assoc ℕ) → String → Assoc ℕ
map_of maps k = elim (lookup k maps) [ none ↦ [] | some m ↦ m ]

-- The new map and, in both branches, its place in the map of all guilds.
unfoldable pub put_role : State → String → ℕ → Assoc ℕ → ℕ → State
unfolding lookup insert
put_role s k g roles a = elim (lookup (role_id s a) roles) [
  | some r ↦ record s {
    role_at = store s.role_at r (s.role_at a);
    role_map = insert k (insert (role_id s a) r roles) s.role_map;
  }
  | none ↦
      set_guild (record s { role_map = insert k (insert (role_id s a) a roles) s.role_map }) g
        (record (s.guild_at g) { roles = push (s.guild_at g).roles a })
]

unfoldable pub role_add : State → String → ℕ → State × Option StateError
unfolding guild put_role lookup
role_add s k a = elim (guild s k) [
  | none ↦ (s, some state_not_found)
  | some g ↦ (put_role s k g (map_of s.role_map k) a, none)
]

unfoldable pub cut_role : State → String → ℕ → Assoc ℕ → String → State
unfolding erase insert remove_first
cut_role s k g roles role =
    set_guild (record s { role_map = insert k (erase role roles) s.role_map }) g
      (record (s.guild_at g) {
        roles = elim (s.guild_at g).roles [
          | none ↦ none
          | some rs ↦ some (remove_first (λ r. str_eq (role_id s r) role) rs)
        ];
      })

unfoldable pub role_remove : State → String → String → State × Option StateError
unfolding guild lookup cut_role
role_remove s k role = elim (guild s k) [
  | none ↦ (s, some state_not_found)
  | some g ↦ elim (lookup k s.role_map) [
    | none ↦ (s, some state_not_found)
    | some roles ↦ elim (lookup role roles) [
      | none ↦ (s, some state_not_found)
      | some _ ↦ (cut_role s k g roles role, none)
    ]
  ]
]

unfoldable pub role : State → String → String → Option ℕ
unfolding lookup
role s k name = elim (lookup k s.role_map) [ none ↦ none | some roles ↦ lookup name roles ]

unfoldable pub put_emoji : State → String → ℕ → Assoc ℕ → ℕ → State
unfolding lookup insert
put_emoji s k g emojis a = elim (lookup (emoji_id s a) emojis) [
  | some e ↦ record s {
    emoji_at = store s.emoji_at e (s.emoji_at a);
    emoji_map = insert k (insert (emoji_id s a) e emojis) s.emoji_map;
  }
  | none ↦
      set_guild (record s { emoji_map = insert k (insert (emoji_id s a) a emojis) s.emoji_map }) g
        (record (s.guild_at g) { emojis = push (s.guild_at g).emojis a })
]

unfoldable pub emoji_add : State → String → ℕ → State × Option StateError
unfolding guild put_emoji lookup
emoji_add s k a = elim (guild s k) [
  | none ↦ (s, some state_not_found)
  | some g ↦ (put_emoji s k g (map_of s.emoji_map k) a, none)
]

unfoldable pub emojis_add : State → String → List ℕ → State × Option StateError
unfolding emoji_add
emojis_add s k [] = (s, none)
emojis_add s k (e ∷ es) =
    let added = emoji_add s k e in
    let others = emojis_add added.0 k es in
    elim added.1 [ some err ↦ (added.0, some err) | none ↦ others ]

unfoldable pub emoji : State → String → String → Option ℕ
unfolding lookup
emoji s k name = elim (lookup k s.emoji_map) [ none ↦ none | some emojis ↦ lookup name emojis ]
