-- ===== src/Dave/Arrival.antt =====
-- A frame that a session sends is understood by a receiver with the same base secret.
use dgo.Prelude.{
  ℕ, ◌+◌, ◌-◌, ◌^◌, ◌/◌, ◌<◌, ◌≤◌, ◌≡◌, refl, sym, ap, ◌∙◌, String, true, false, List, Option, none,
  some, ltb, ◌==◌, ◌||◌, arith, Bool-cases, inl, inr,
}
use dgo.Frame.{
  Cipher, ok, Parsed, parse_secure_frame, encrypt_secure_frame, decrypt_secure_frame,
  hash_ratchet_get_key,
}
use dgo.Frame.RoundTrip.{decrypt-encrypt}
use dgo.Dave.{
  Receiver, Session, plain, is_replayed, enter_generation, finish_frame, after_generation, receive,
  encrypt_frame, advance, send_with,
}

module _ (cipher_of : List ℕ → Cipher)
    (expand_with_label : List ℕ → String → List ℕ → ℕ → Option (List ℕ)) where
  abbrev key_at : List ℕ → ℕ → Option (List ℕ)
  key_at secret generation = hash_ratchet_get_key expand_with_label secret generation

  -- A receiver that knows the secret, at a generation, and the key of that generation.
  pub record Knows (secret : List ℕ) (r : Receiver) : Type 0 where
    pub same_secret : r.base_secret ≡ secret
    pub own_key : key_at secret r.current_generation ≡ some r.key

  -- It reaches the key of the next generation, or has it.
  enter_key :
      (secret key : List ℕ) (r : Receiver) (g : ℕ)
      → Knows secret r
      → key_at secret g ≡ some key
      → r.current_generation ≤ g
      → g ≤ r.current_generation + 1
      → (q : Receiver) × (enter_generation cipher_of expand_with_label r g ≡ (q, none))
        × (q.key ≡ key)
  unfolding enter_generation
  enter_key secret key r g v k low high = elim (Bool-cases (g == r.current_generation)) [
    | inl same ↦ (
      r,
      rw (same, enter_generation) refl,
      SameKey (sym v.own_key ∙ ap (key_at secret) (sym (at_once same)) ∙ k),
    )
    | inr other ↦
        let ok_next : (ltb g r.current_generation || ltb (r.current_generation + 1) g) ≡ false =
          ground arith in
        let there : key_at r.base_secret g ≡ some key = ap (λ s. key_at s g) v.same_secret ∙ k in
        (
          record r { key = key; current_generation = g },
          rw (other, ok_next, there, enter_generation) refl,
          refl,
        )
  ]
    where
      at_once : (g == r.current_generation) ≡ true → g ≡ r.current_generation
      at_once e = ground arith

      SameKey : some r.key ≡ some key → r.key ≡ key
      SameKey e = ground arith

  -- An active session has the key of the generation of its nonce.
  pub record Keyed (s : Session) : Type 0 where
    pub active : s.active ≡ true
    pub key : List ℕ
    pub has_key : s.sender_key ≡ some key
    pub own_key : key_at s.ratchet_base_secret s.current_generation ≡ some key
    pub own_generation : s.current_generation ≡ s.sender_nonce / 2 ^ 24

  sends :
      (s : Session) (key opus : List ℕ)
      → Keyed s
      → s.sender_nonce < 2 ^ 32 - 1
      → key_at s.ratchet_base_secret ((s.sender_nonce + 1) / 2 ^ 24) ≡ some key
      → (encrypt_frame cipher_of expand_with_label s opus).1
        ≡ plain (encrypt_secure_frame (cipher_of key) (s.sender_nonce + 1) opus)
  unfolding encrypt_frame advance send_with
  sends s key opus v l k =
      let active = v.active in
      let has_key = v.has_key in
      let left : (s.sender_nonce == 4294967295) ≡ false = ground arith in
      elim (Bool-cases ((s.sender_nonce + 1) / 2 ^ 24 == s.current_generation)) [
        | inl same ↦
            simp (active, has_key, left, same)
              (ap (λ c. plain (encrypt_secure_frame (cipher_of c) (s.sender_nonce + 1) opus))
                (SameKey v.key
                  (sym v.own_key ∙ ap (key_at s.ratchet_base_secret) (sym (at_once same)) ∙ k)))
        | inr other ↦ simp (active, has_key, left, other, k) refl
      ]
    where
      at_once :
          ((s.sender_nonce + 1) / 2 ^ 24 == s.current_generation) ≡ true
          → (s.sender_nonce + 1) / 2 ^ 24 ≡ s.current_generation
      at_once e = ground arith

      SameKey : (c : List ℕ) → some c ≡ some key → c ≡ key
      SameKey c e = ground arith

  receives :
      (r : Receiver) (p : Parsed) (secret key text : List ℕ)
      → Knows secret r
      → is_replayed r p.nonce ≡ false
      → key_at secret (p.nonce / 2 ^ 24) ≡ some key
      → r.current_generation ≤ p.nonce / 2 ^ 24
      → p.nonce / 2 ^ 24 ≤ r.current_generation + 1
      → decrypt_secure_frame (cipher_of key) p.nonce p.ciphertext p.tag ≡ ok text
      → (receive cipher_of expand_with_label r p).1 ≡ plain text
  unfolding receive after_generation finish_frame
  receives r p secret key text v fresh k low high d =
      let (q, entered, same) = enter_key secret key r (p.nonce / 2 ^ 24) v k low high in
      let opened : decrypt_secure_frame (cipher_of q.key) p.nonce p.ciphertext p.tag ≡ ok text =
        ap (λ c. decrypt_secure_frame (cipher_of c) p.nonce p.ciphertext p.tag) same ∙ d in
      rw (fresh, entered, opened) refl

  -- An active session that still has nonces, and whose next key can be derived, sends a frame. A receiver
  -- that has its base secret, is in the generation of the frame or in the one before, and has not seen
  -- its nonce gets the data back.
  pub frame_arrives :
      (s : Session) (r : Receiver) (key opus : List ℕ)
      → Keyed s
      → Knows s.ratchet_base_secret r
      → s.sender_nonce < 2 ^ 32 - 1
      → key_at s.ratchet_base_secret ((s.sender_nonce + 1) / 2 ^ 24) ≡ some key
      → r.current_generation ≤ (s.sender_nonce + 1) / 2 ^ 24
      → (s.sender_nonce + 1) / 2 ^ 24 ≤ r.current_generation + 1
      → is_replayed r (s.sender_nonce + 1) ≡ false
      → (frame : List ℕ) × (p : Parsed) × ((encrypt_frame cipher_of expand_with_label s opus).1
          ≡ plain frame)
        × (parse_secure_frame frame ≡ ok p)
        × ((receive cipher_of expand_with_label r p).1 ≡ plain opus)
  frame_arrives s r key opus v knows left k low high fresh =
      let n : ℕ = s.sender_nonce + 1 in
      let (p, parsed, nonce, decrypted) = decrypt-encrypt (cipher_of key) n opus (omega arith) in
      (
        encrypt_secure_frame (cipher_of key) n opus,
        p,
        sends s key opus v left k,
        parsed,
        receives r p s.ratchet_base_secret key opus knows (ap (is_replayed r) nonce ∙ fresh)
            (ap (λ m. key_at s.ratchet_base_secret (m / 2 ^ 24)) nonce ∙ k) (omega (arith, nonce))
            (omega (arith, nonce)) decrypted,
      )
