-- ===== src/Frame/Ratchet.antt =====
-- The hash ratchet: the secret of each generation comes from the one before.
use dgo.Prelude.{
  ℕ, zero, suc, ◌+◌, ◌≡◌, refl, ◌∙◌, List, Option, none, some, String, arith, Option-cases, inl,
  inr,
}
use dgo.Frame.{be_uint32, ratchet_loop, hash_ratchet_get_key}

module _ (expand_with_label : List ℕ → String → List ℕ → ℕ → Option (List ℕ)) where
  -- The secret of a generation, from the last step back.
  pub secret_at : List ℕ → ℕ → Option (List ℕ)
  secret_at base zero = some base
  secret_at base (suc g) = elim (secret_at base g) [
    | none ↦ none
    | some secret ↦ expand_with_label secret "secret" (be_uint32 g) 32
  ]

  -- The key of a generation, from its secret.
  abbrev pub key_of : ℕ → Option (List ℕ) → Option (List ℕ)
  key_of g none = none
  key_of g (some secret) = expand_with_label secret "key" (be_uint32 g) 16

  secret_at-suc :
      (base : List ℕ) (g : ℕ) (secret : List ℕ)
      → secret_at base g ≡ some secret
      → secret_at base (suc g) ≡ expand_with_label secret "secret" (be_uint32 g) 32
  unfolding secret_at
  secret_at-suc base g secret h = rw h

  -- No secret follows a step that failed.
  secret_at-none :
      (base : List ℕ) (g k : ℕ) → secret_at base g ≡ none → secret_at base (k + g) ≡ none
  unfolding secret_at
  secret_at-none base g zero h = let e : 0 + g ≡ g = omega arith in rw e h
  secret_at-none base g (suc k) h =
      let e : suc k + g ≡ suc (k + g) = omega arith in
      rw e (rw (secret_at-none base g k h, secret_at))

  -- From a later secret the loop has fewer steps to make.
  ratchet-secret :
      (base : List ℕ) (steps g : ℕ) (secret : List ℕ)
      → secret_at base g ≡ some secret
      → ratchet_loop expand_with_label steps g secret
        ≡ key_of (g + steps) (secret_at base (g + steps))
  unfolding ratchet_loop
  ratchet-secret base zero g secret h = let e : g + 0 ≡ g = omega arith in rw (e, h)
  ratchet-secret base (suc steps) g secret h =
      let e : g + suc steps ≡ suc g + steps = omega arith in
      let e' : suc g + steps ≡ steps + suc g = omega arith in
      let e'' : suc g ≡ g + 1 = omega arith in
      elim (Option-cases (expand_with_label secret "secret" (be_uint32 g) 32)) [
        | inl failed ↦ rw (
          failed,
          ratchet_loop,
          e,
          e',
          secret_at-none base (suc g) steps (secret_at-suc base g secret h ∙ failed),
        )
        | inr (next, worked) ↦
            rw (worked, ratchet_loop, e, ← e'')
              (ratchet-secret base steps (suc g) next (secret_at-suc base g secret h ∙ worked))
      ]

  -- The key of a generation is expanded from the secret that the generations before it lead to, and
  -- there is none if one of these steps fails.
  pub hash_ratchet-secret :
      (base : List ℕ) (g : ℕ)
      → hash_ratchet_get_key expand_with_label base g ≡ key_of g (secret_at base g)
  unfolding hash_ratchet_get_key secret_at
  hash_ratchet-secret base g =
      let e : 0 + g ≡ g = omega arith in rw e at (ratchet-secret base g 0 base refl)
