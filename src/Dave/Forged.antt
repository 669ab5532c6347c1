-- ===== src/Dave/Forged.antt =====
-- A frame that fails its tag check moves its receiver to the next generation all the same.
use dgo.Prelude.{
  ℕ, ◌+◌, ◌^◌, ◌/◌, ◌≡◌, refl, ap, ◌∙◌, String, true, false, List, Option, some, ltb, ◌==◌, ◌||◌,
  arith,
}
use dgo.Frame.{Cipher, err, FrameError, Parsed, decrypt_secure_frame, hash_ratchet_get_key}
use dgo.Dave.{
  Receiver, bad_generation, refused, is_replayed, enter_generation, finish_frame, after_generation,
  receive,
}

module _ (cipher_of : List ℕ → Cipher)
    (expand_with_label : List ℕ → String → List ℕ → ℕ → Option (List ℕ)) where
  moved :
      (r : Receiver) (p : Parsed) (key : List ℕ) (e : FrameError)
      → is_replayed r p.nonce ≡ false
      → p.nonce / 2 ^ 24 ≡ r.current_generation + 1
      → hash_ratchet_get_key expand_with_label r.base_secret (r.current_generation + 1) ≡ some key
      → decrypt_secure_frame (cipher_of key) p.nonce p.ciphertext p.tag ≡ err e
      → (receive cipher_of expand_with_label r p).0
        ≡ record r { key = key; current_generation = r.current_generation + 1 }
  unfolding receive after_generation finish_frame enter_generation
  moved r p key e fresh g k d =
      let other : (r.current_generation + 1 == r.current_generation) ≡ false = ground arith in
      let next : (ltb (r.current_generation + 1) r.current_generation
            || ltb (r.current_generation + 1) (r.current_generation + 1))
          ≡ false =
        ground arith in
      rw (fresh, g, other, next, k, d) (ap (λ n. record r { key = key; current_generation = n }) g)

  left_behind :
      (r : Receiver) (key : List ℕ) (q : Parsed)
      → q.nonce / 2 ^ 24 ≡ r.current_generation
      → is_replayed r q.nonce ≡ false
      → (receive cipher_of expand_with_label
          (record r { key = key; current_generation = r.current_generation + 1 })
          q).1
        ≡ refused bad_generation
  unfolding receive after_generation finish_frame enter_generation is_replayed
  left_behind r key q g fresh =
      let other : (r.current_generation == r.current_generation + 1) ≡ false = ground arith in
      let past : (ltb r.current_generation (r.current_generation + 1)
            || ltb (r.current_generation + 1 + 1) r.current_generation)
          ≡ true =
        ground arith in
      rw (fresh, g, other, past) refl

  -- A forged frame locks a receiver out. One frame of the next generation that fails its tag check, and
  -- whose nonce is not a replay, makes the receiver refuse every frame of the generation it was in.
  pub forged_locks_out :
      (r : Receiver) (p : Parsed) (key : List ℕ) (e : FrameError) (q : Parsed)
      → is_replayed r p.nonce ≡ false
      → p.nonce / 2 ^ 24 ≡ r.current_generation + 1
      → hash_ratchet_get_key expand_with_label r.base_secret (r.current_generation + 1) ≡ some key
      → decrypt_secure_frame (cipher_of key) p.nonce p.ciphertext p.tag ≡ err e
      → q.nonce / 2 ^ 24 ≡ r.current_generation
      → is_replayed r q.nonce ≡ false
      → (receive cipher_of expand_with_label (receive cipher_of expand_with_label r p).0 q).1
        ≡ refused bad_generation
  forged_locks_out r p key e q fresh g k d h f =
      ap (λ s. (receive cipher_of expand_with_label s q).1) (moved r p key e fresh g k d)
      ∙ left_behind r key q h f
