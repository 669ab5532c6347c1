-- ===== src/State/Precedence.antt =====
-- In which order roles and overwrites decide about one permission.
use text.Mathlib.Text.{◌==◌ as str_eq}
use dgo.Prelude.{
  ℕ, String, Bool, true, false, List, [], ◌∷◌, Option, none, some, ◌≡◌, refl, ◌∙◌, ap, arith, ◌&&◌,
  ◌||◌, not, Bool-cases, inl, inr, if◌then◌else◌,
}
use dgo.State.{items, find_first, Bits, Role, PermissionOverwrite, Channel, Guild}
use dgo.State.Threads.{any_of}
use dgo.State.Permissions.{
  no_bits, union, minus, administrator, all_channel, all_permissions, everyone_permissions,
  role_permissions, add_if_admin, apply_overwrite, for_role, for_member, role_overwrites,
  base_permissions, overwritten, member_permissions,
}

-- An overwrite's allow is stronger than its deny, and both are stronger than what was there.
abbrev pub ruled : Bool → Bool → Bool → Bool
ruled allow deny before = if allow then true else if deny then false else before

abbrev pub rule_of : Option PermissionOverwrite → ℕ → Bool → Bool
rule_of none b before = before
rule_of (some w) b before = ruled (w.allow b) (w.deny b) before

-- Some overwrite of one of the roles has the bit.
abbrev pub any_overwrite :
    (PermissionOverwrite → Bits) → List String → List PermissionOverwrite → Bits
any_overwrite part names [] b = false
any_overwrite part names (w ∷ ws) b =
    (for_role names w && part w b) || any_overwrite part names ws b

-- Some role of the member has the bit.
abbrev pub any_role : (ℕ → Role) → List String → List ℕ → Bits
any_role heap names [] b = false
any_role heap names (r ∷ rs) b =
    (any_of names (heap r).id && (heap r).permissions b) || any_role heap names rs b

-- What the roles give, the bit of an administrator standing for all.
abbrev pub from_roles : (ℕ → Role) → Guild → List String → Bits
from_roles heap g names b =
    let given = λ (k : ℕ).
      everyone_permissions heap g.id (items g.roles) k || any_role heap names (items g.roles) k in
    given b || (given administrator && all_permissions b)

-- The overwrites of the channel: everyone's, then the roles' together, then the member's.
abbrev pub from_channel :
    (ℕ → Role) → Guild → List PermissionOverwrite → String → List String → Bits
from_channel heap g ws user names b = rule_of (find_first (for_member user) ws) b (
    ruled (any_overwrite (λ w. w.allow) names ws b) (any_overwrite (λ w. w.deny) names ws b) (
      rule_of (find_first (λ (w : PermissionOverwrite). str_eq g.id w.id) ws) b
        (from_roles heap g names b)))

role_permissions_lem :
    (heap : ℕ → Role) (names : List String) (rs : List ℕ) (acc : Bits) (b : ℕ)
    → role_permissions heap names rs acc b ≡ (acc b || any_role heap names rs b)
unfolding role_permissions
role_permissions_lem heap names [] acc b = ground arith
role_permissions_lem heap names (r ∷ rs) acc b = elim (Bool-cases (any_of names (heap r).id)) [
  | inl e ↦ rw e (role_permissions_lem heap names rs _ b ∙ ground arith)
  | inr e ↦ rw e (role_permissions_lem heap names rs acc b ∙ ground arith)
]

denies_lem :
    (names : List String) (ws : List PermissionOverwrite) (denies allows : Bits) (b : ℕ)
    → (role_overwrites names ws denies allows).0 b
      ≡ (denies b || any_overwrite (λ w. w.deny) names ws b)
unfolding role_overwrites
denies_lem names [] denies allows b = ground arith
denies_lem names (w ∷ ws) denies allows b = elim (Bool-cases (for_role names w)) [
  | inl e ↦ rw (e, role_overwrites) (denies_lem names ws _ _ b ∙ ground arith)
  | inr e ↦ rw (e, role_overwrites) (denies_lem names ws denies allows b ∙ ground arith)
]

allows_lem :
    (names : List String) (ws : List PermissionOverwrite) (denies allows : Bits) (b : ℕ)
    → (role_overwrites names ws denies allows).1 b
      ≡ (allows b || any_overwrite (λ w. w.allow) names ws b)
unfolding role_overwrites
allows_lem names [] denies allows b = ground arith
allows_lem names (w ∷ ws) denies allows b = elim (Bool-cases (for_role names w)) [
  | inl e ↦ rw (e, role_overwrites) (allows_lem names ws _ _ b ∙ ground arith)
  | inr e ↦ rw (e, role_overwrites) (allows_lem names ws denies allows b ∙ ground arith)
]

apply_overwrite_lem :
    (o : Option PermissionOverwrite) (acc : Bits) (b : ℕ)
    → apply_overwrite o acc b ≡ rule_of o b (acc b)
apply_overwrite_lem none acc b = refl
apply_overwrite_lem (some w) acc b = ground arith

add_if_admin_lem :
    (all acc : Bits) (b : ℕ) → add_if_admin all acc b ≡ (acc b || (acc administrator && all b))
add_if_admin_lem all acc b = elim (Bool-cases (acc administrator)) [
  | inl e ↦ rw e
  | inr e ↦ rw e (ground arith)
]

base_lem :
    (heap : ℕ → Role) (g : Guild) (names : List String) (b : ℕ)
    → base_permissions heap g names b ≡ from_roles heap g names b
unfolding base_permissions
base_lem heap g names b =
    let given = everyone_permissions heap g.id (items g.roles) in
    add_if_admin_lem all_permissions (role_permissions heap names (items g.roles) given) b
    ∙ rw (
      role_permissions_lem heap names (items g.roles) given b,
      role_permissions_lem heap names (items g.roles) given administrator,
    )

overwritten_lem :
    (heap : ℕ → Role) (g : Guild) (ws : List PermissionOverwrite) (user : String)
    (names : List String) (b : ℕ)
    → overwritten ws g.id user names (base_permissions heap g names) b
      ≡ from_channel heap g ws user names b
unfolding overwritten
overwritten_lem heap g ws user names b =
    let everyone = find_first (λ (w : PermissionOverwrite). str_eq g.id w.id) ws in
    let shared = apply_overwrite everyone (base_permissions heap g names) in
    let rules = role_overwrites names ws no_bits no_bits in
    apply_overwrite_lem (find_first (for_member user) ws) (union (minus shared rules.0) rules.1) b
    ∙ ap (rule_of (find_first (for_member user) ws) b) (
        step (shared b) (rules.0 b) (rules.1 b)
        ∙ rw (
          denies_lem names ws no_bits no_bits b,
          allows_lem names ws no_bits no_bits b,
          apply_overwrite_lem everyone (base_permissions heap g names) b,
          base_lem heap g names b,
        ))
  where
    step : (before deny allow : Bool) → ((before && not deny) || allow) ≡ ruled allow deny before
    step before deny allow = ground arith

-- The owner of the guild has all permissions. For anyone else a permission is decided by the strongest
-- overwrite of the channel that names it: the member's own, before those of the member's roles together,
-- before that of everyone, an allow before a deny at each of these; without one, by what everyone's role and
-- the member's roles give, where the administrator bit gives all. Who has the administrator bit in the end
-- has each permission of channels too.
pub permissions_precedence :
    (heap : ℕ → Role) (g : Guild) (c : Channel) (user : String) (names : List String) (b : ℕ)
    → member_permissions heap g c user names b ≡ (
        let decided = from_channel heap g (items c.permission_overwrites) user names in
        let result : Bool =
          if str_eq user g.owner_id
          then all_permissions b
          else decided b || (decided administrator && all_channel b) in
        result)
unfolding member_permissions
permissions_precedence heap g c user names b = elim (Bool-cases (str_eq user g.owner_id)) [
  | inl e ↦ rw e
  | inr e ↦
      let ws = items c.permission_overwrites in
      rw e (
        add_if_admin_lem all_channel
          (overwritten ws g.id user names (base_permissions heap g names)) b
        ∙ rw (
          overwritten_lem heap g ws user names b,
          overwritten_lem heap g ws user names administrator,
        ))
]

-- An overwrite of the member that denies the administrator bit and another permission takes that permission
-- from an administrator who is not the owner.
pub admin_overwritten :
    (heap : ℕ → Role) (g : Guild) (c : Channel) (user : String) (names : List String) (b : ℕ)
    (w : PermissionOverwrite)
    → str_eq user g.owner_id ≡ false
    → find_first (for_member user) (items c.permission_overwrites) ≡ some w
    → (w.deny administrator ≡ true) × (w.allow administrator ≡ false)
    → (w.deny b ≡ true) × (w.allow b ≡ false)
    → member_permissions heap g c user names b ≡ false
admin_overwritten heap g c user names b w e f admin other =
    permissions_precedence heap g c user names b ∙ rw (e, f, admin.0, admin.1, other.0, other.1)
