-- ===== src/Frame/Examples.antt =====
-- Frames of a toy cipher: it seals by appending sixteen zeros, and its key stream is empty.
use dgo.Prelude.{
  ℕ, ◌+◌, ◌≡◌, refl, List, [], ◌∷◌, ◌++◌, Option, some, String, arith, length, replicate,
  take-append_left, length-append,
}
use dgo.Uleb.{encode, decode}
use dgo.Frame.{Cipher, Parsed, ok, encrypt_secure_frame, parse_secure_frame, decrypt_secure_frame}
use dgo.Frame.RoundTrip.{decrypt-encrypt}

toy-length : (n p : List ℕ) → length (p ++ replicate 16 0) ≡ length p + 16
toy-length n p = omega (arith, length-append p (replicate 16 0))

abbrev toy : Cipher
toy = record {
  seal = λ n p. p ++ replicate 16 0;
  xor_key_stream = λ iv b. b;
  seal_length = toy-length;
  key_stream_length = λ iv b. refl;
  key_stream-key_stream = λ iv b. refl;
  key_stream-seal = λ n p. take-append_left p (replicate 16 0) (length p) refl;
}

abbrev sent : List ℕ
sent = 7 ∷ 9 ∷ 0 ∷ 0 ∷ 0 ∷ 0 ∷ 0 ∷ 0 ∷ 0 ∷ 0 ∷ 172 ∷ 2 ∷ 13 ∷ 250 ∷ 250 ∷ []

abbrev parsed : Parsed
parsed = record { ciphertext = 7 ∷ 9 ∷ []; tag = replicate 8 0; nonce = 300 }

encrypts_sent : encrypt_secure_frame toy 300 (7 ∷ 9 ∷ []) ≡ sent
unfolding encrypt_secure_frame encode
encrypts_sent = refl

parses_sent : parse_secure_frame sent ≡ ok parsed
unfolding parse_secure_frame decode
parses_sent = refl

decrypt-encrypt_example :
    (p : Parsed) × (parse_secure_frame (encrypt_secure_frame toy 300 (7 ∷ 9 ∷ [])) ≡ ok p)
    × (p.nonce ≡ 300)
    × (decrypt_secure_frame toy p.nonce p.ciphertext p.tag ≡ ok (7 ∷ 9 ∷ []))
decrypt-encrypt_example = decrypt-encrypt toy 300 (7 ∷ 9 ∷ []) (omega arith)

-- A key derivation that appends the generation.
abbrev append_context : List ℕ → String → List ℕ → ℕ → Option (List ℕ)
append_context secret label context n = some (secret ++ context)
