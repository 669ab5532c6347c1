-- ===== src/RateLimit/Keys/Secrets.antt =====
-- The ids and tokens of webhooks and interactions are not in the route key.
use text.Mathlib.Text.{◌==◌ as str_eq}
use dgo.Prelude.{
  String, ◌≡◌, refl, sym, ap, ◌∙◌, subst, ◌⊎◌, inl, inr, true, false, List, [], ◌∷◌, ◌++◌, none,
  map, All, Bool-cases, arith,
}
use dgo.Prelude.Assoc.{eq_of_str_eq}
use dgo.RateLimit.Keys.{mask_id, is_hook, is_snowflake_segment, written, mask_loop, masked}

is_hook-cases : (s : String) → is_hook s ≡ true → (s ≡ "webhooks") ⊎ (s ≡ "interactions")
unfolding is_hook
is_hook-cases s h = elim (Bool-cases (str_eq s "webhooks")) [
  | inl e ↦ inl (eq_of_str_eq s "webhooks" e)
  | inr e ↦ inr (eq_of_str_eq s "interactions" (ground arith))
]

mask_id-hook : (s : String) → is_hook s ≡ true → mask_id s ≡ s
unfolding mask_id is_snowflake_segment
mask_id-hook s h = elim (is_hook-cases s h) [
  | inl e ↦ subst (λ t. mask_id t ≡ t) (sym e) refl
  | inr e ↦ subst (λ t. mask_id t ≡ t) (sym e) refl
]

mask_id-nonempty : (s : String) → str_eq s "" ≡ false → str_eq (mask_id s) "" ≡ false
unfolding mask_id
mask_id-nonempty s h = elim (Bool-cases (is_snowflake_segment s)) [
  | inl e ↦ rw (e, mask_id) refl
  | inr e ↦ rw (e, mask_id) h
]

-- What follows a hook is not one.
mask_loop-hook :
    (hook id token : String) (rest : List String)
    → is_hook hook ≡ true
    → str_eq id "" ≡ false
    → str_eq token "" ≡ false
    → mask_loop none none (map mask_id (hook ∷ id ∷ token ∷ rest))
      ≡ hook ∷ ":id" ∷ ":token" ∷ mask_loop none none (map mask_id rest)
unfolding mask_loop written is_hook
mask_loop-hook hook id token rest h some_id some_token =
    let same = mask_id-hook hook h in
    let hooked : is_hook (mask_id hook) ≡ true = ap is_hook same ∙ h in
    let e = mask_id-nonempty id some_id in
    let f = mask_id-nonempty token some_token in
    rw (hooked, e, f) (ap (λ s. s ∷ ":id" ∷ ":token" ∷ mask_loop none none (map mask_id rest)) same)

-- The segments of a path that has, behind segments that are no hooks themselves, `webhooks` or `interactions`
-- with an id and a token that are not empty: the route has `:id` and `:token` in place of these, and
-- the segments before and behind as they are masked on their own.
pub secrets_masked :
    (front : List String) (hook id token : String) (rest : List String)
    → All (λ s. is_hook (mask_id s) ≡ false) front
    → is_hook hook ≡ true
    → str_eq id "" ≡ false
    → str_eq token "" ≡ false
    → masked (front ++ hook ∷ id ∷ token ∷ rest)
      ≡ map mask_id front ++ hook ∷ ":id" ∷ ":token" ∷ masked rest
unfolding masked mask_loop written
secrets_masked [] hook id token rest plain h some_id some_token =
    mask_loop-hook hook id token rest h some_id some_token
secrets_masked (s ∷ front) hook id token rest (no_hook, plain) h some_id some_token =
    rw no_hook (
      ap (λ ss. mask_id s ∷ ss)
        (secrets_masked front hook id token rest plain h some_id some_token))
