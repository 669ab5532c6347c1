-- ===== src/State/Consistent.antt =====
-- When the maps of the state cache agree with its slices: the guild map with the guilds of Ready, and for
-- each cached guild the maps of members and of roles with the guild's own slices.
pub mod Change
pub mod Guilds
pub mod Members
pub mod Roles
pub mod Others
pub mod Channels
pub mod Ready
pub mod Steps
pub mod Events
use dgo.Prelude.{
  ℕ, String, Bool, true, false, List, [], ◌∷◌, Option, none, some, ◌≡◌, ◌≢◌, refl, sym, ◌∙◌, ap,
  arith, Option-cases, Bool-cases, inl, inr, if◌then◌else◌,
}
use text.Mathlib.Text.{◌==◌ as str_eq}
use dgo.Prelude.Assoc.{
  Assoc, lookup, insert, erase, lookup-insert, lookup-erase, str_eq_refl, eq_of_str_eq,
}
use dgo.State.{Slice, items, Guild, State}
use dgo.State.Index.{IsIndexed, cached_name}
use dgo.State.Guilds.{guild_id, user_id, role_id}

-- A map that is not there reads as an empty one.
abbrev pub opened : Option (Assoc ℕ) → Assoc ℕ
opened none = []
opened (some m) = m

-- What a guild and its map have to do with each other; a guild that is not cached has none.
abbrev pub Owned : (ℕ → String) → (ℕ → Slice ℕ) → Option ℕ → Option (Assoc ℕ) → Type 0
Owned id_of slice_of (some g) p = IsIndexed id_of (opened p) (items (slice_of g))
Owned id_of slice_of none (some m) = ⊥
Owned id_of slice_of none none = Unit

abbrev pub AllOwned : (ℕ → String) → (ℕ → Slice ℕ) → Assoc ℕ → Assoc (Assoc ℕ) → Type 0
AllOwned id_of slice_of guilds maps =
    (k : String) → Owned id_of slice_of (lookup k guilds) (lookup k maps)

-- What consistency is about.
pub record Core : Type 0 where
  pub guild_id : ℕ → String
  pub user_id : ℕ → String
  pub role_id : ℕ → String
  pub members : ℕ → Slice ℕ
  pub roles : ℕ → Slice ℕ
  pub guild_map : Assoc ℕ
  pub guilds : List ℕ
  pub member_map : Assoc (Assoc ℕ)
  pub role_map : Assoc (Assoc ℕ)

abbrev pub core : State → Core
core s = record {
  guild_id = guild_id s;
  user_id = user_id s;
  role_id = role_id s;
  members = λ g. (s.guild_at g).members;
  roles = λ g. (s.guild_at g).roles;
  guild_map = s.guild_map;
  guilds = s.ready.guilds;
  member_map = s.member_map;
  role_map = s.role_map;
}

pub record IsConsistent (c : Core) : Type 0 where
  pub guilds : IsIndexed c.guild_id c.guild_map c.guilds
  pub members : AllOwned c.user_id c.members c.guild_map c.member_map
  pub roles : AllOwned c.role_id c.roles c.guild_map c.role_map

module _ (id_of : ℕ → String) where
  pub Owned-some :
      (slice_of : ℕ → Slice ℕ) (o : Option ℕ) (p : Option (Assoc ℕ)) (g : ℕ) (m : Assoc ℕ)
      → o ≡ some g
      → p ≡ some m
      → IsIndexed id_of m (items (slice_of g))
      → Owned id_of slice_of o p
  Owned-some slice_of o p g m e f h = rw (e, f) h

  pub Owned-opened :
      (slice_of : ℕ → Slice ℕ) (o : Option ℕ) (p : Option (Assoc ℕ)) (g : ℕ)
      → o ≡ some g
      → IsIndexed id_of (opened p) (items (slice_of g))
      → Owned id_of slice_of o p
  Owned-opened slice_of o p g e h = rw e h

  pub Owned-none :
      (slice_of : ℕ → Slice ℕ) (o : Option ℕ) (p : Option (Assoc ℕ))
      → o ≡ none
      → p ≡ none
      → Owned id_of slice_of o p
  Owned-none slice_of o p e f = rw (e, f) tt

  -- The map of a cached guild.
  pub Owned-map :
      (slice_of : ℕ → Slice ℕ) (o : Option ℕ) (p : Option (Assoc ℕ)) (g : ℕ)
      → Owned id_of slice_of o p
      → o ≡ some g
      → IsIndexed id_of (opened p) (items (slice_of g))
  Owned-map slice_of none p g h e = absurd (ground arith)
  Owned-map slice_of (some x) p g h e = let same : x ≡ g = cc in rw (← same) h

  pub absent-Owned :
      (slice_of : ℕ → Slice ℕ) (o : Option ℕ) (p : Option (Assoc ℕ))
      → Owned id_of slice_of o p
      → o ≡ none
      → p ≡ none
  absent-Owned slice_of none none h e = refl
  absent-Owned slice_of none (some m) h e = elim h [ ]
  absent-Owned slice_of (some x) p h e = absurd (ground arith)

  pub Owned-slices :
      (slices slices' : ℕ → Slice ℕ) (o : Option ℕ) (p : Option (Assoc ℕ))
      → ((x : ℕ) → o ≡ some x → slices' x ≡ slices x)
      → Owned id_of slices o p
      → Owned id_of slices' o p
  Owned-slices slices slices' none none same h = h
  Owned-slices slices slices' none (some m) same h = h
  Owned-slices slices slices' (some g) p same h = rw (same g refl) h
