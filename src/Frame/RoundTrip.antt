-- ===== src/Frame/RoundTrip.antt =====
-- A frame that one side encrypts the other side reads back, and nothing else is read.
use mathlib.Core.List.{append-nil}
use dgo.Prelude.{
  ℕ, zero, suc, ◌+◌, ◌-◌, ◌≤◌, ◌%◌, ◌/◌, ◌≡◌, refl, sym, ap, ◌∙◌, true, List, [], ◌∷◌, ◌++◌, arith,
  length, get_or, take, drop, All, drop-drop, take-append_left, drop-append_right,
  get_or-append_right, length-append, length-take_le, length-drop, list_eq, list_eq_refl,
  eq_of_list_eq,
}
use dgo.Uleb.{IsByte, IsUint32, decoded, encode, decode, encode_loop}
use dgo.Uleb.RoundTrip.{decode-encode}
use dgo.Frame.Layout.{layout, parse-IsFrame}
use dgo.Frame.{
  tag_size, marker, Cipher, Parsed, ok, slice, parse_secure_frame, encrypt_secure_frame,
  decrypt_secure_frame, build_nonce, be_uint32,
}

length-encode_loop : (k v : ℕ) → length (encode_loop k v) ≤ k
unfolding encode_loop
length-encode_loop zero v = omega arith
length-encode_loop (suc k) v = ground (arith, length-encode_loop k (v / 128))

length-encode : (v : ℕ) → (1 ≤ length (encode v)) × (length (encode v) ≤ 5)
unfolding encode
length-encode v = ground (arith, length-encode_loop 4 (v / 128))

-- Where the parser looks in a frame of ciphertext `c`, tag `t`, nonce `e` and three last bytes `z`.
module _ (c t e z : List ℕ) (tag : length t ≡ 8) (last : length z ≡ 3) where
  abbrev joined : List ℕ
  joined = c ++ (t ++ (e ++ z))

  length-joined : length joined ≡ length c + 8 + length e + 3
  length-joined =
      omega (arith, length-append c (t ++ (e ++ z)), length-append t (e ++ z), length-append e z)

  get_last : (n i : ℕ) → n ≡ i + length e + 8 + length c → get_or joined n 0 ≡ get_or z i 0
  get_last n i h =
      get_or-append_right c (t ++ (e ++ z)) n (i + length e + 8) 0 h
      ∙ get_or-append_right t (e ++ z) (i + length e + 8) (i + length e) 0 (omega arith)
      ∙ get_or-append_right e z (i + length e) i 0 refl

  take_ciphertext : take (length c) joined ≡ c
  take_ciphertext = take-append_left c (t ++ (e ++ z)) (length c) refl

  slice_tag : slice joined (length c) (length c + 8) ≡ t
  slice_tag =
      rw (drop-append_right c (t ++ (e ++ z)) (length c) refl)
        (take-append_left t (e ++ z) (length c + 8 - length c) (omega arith))

  slice_nonce : (n : ℕ) → n ≡ length c + 8 + length e → slice joined (length c + 8) n ≡ e
  slice_nonce n h =
      rw
        (
          ← drop-drop 8 (length c) joined,
          drop-append_right c (t ++ (e ++ z)) (length c) refl,
          drop-append_right t (e ++ z) 8 (omega arith),
        )
        (take-append_left e z (n - (length c + 8)) (omega arith))

parse_bytes :
    (bytes c t e : List ℕ) (size v : ℕ)
    → length e ≤ 5
    → 1 ≤ length e
    → length bytes ≡ length c + size
    → size ≡ 8 + length e + 3
    → get_or bytes (length bytes - 3) 0 ≡ size
    → get_or bytes (length bytes - 2) 0 ≡ marker
    → get_or bytes (length bytes - 1) 0 ≡ marker
    → take (length c) bytes ≡ c
    → slice bytes (length c) (length c + 8) ≡ t
    → slice bytes (length c + 8) (length bytes - 3) ≡ e
    → decode e ≡ decoded v (length e)
    → parse_secure_frame bytes ≡ ok (record { ciphertext = c; tag = t; nonce = v })
unfolding parse_secure_frame
parse_bytes bytes c t e size v l k n s g3 g2 g1 tc st sn d =
    let start : length bytes - size ≡ length c = omega arith in
    rw (g3, g2, g1, start, tc, st, sn, d) (ground arith)

decode-encode_whole : (v : ℕ) → IsUint32 v → decode (encode v) ≡ decoded v (length (encode v))
decode-encode_whole v h = rw append-nil at (decode-encode v [] h)

-- A laid out frame is parsed into its parts.
parse-layout :
    (c t : List ℕ) (v : ℕ)
    → length t ≡ 8
    → IsUint32 v
    → parse_secure_frame (layout c t v) ≡ ok (record { ciphertext = c; tag = t; nonce = v })
parse-layout c t v h u =
    let e : List ℕ = encode v in
    let size : ℕ = 8 + length e + 1 + 2 in
    let z : List ℕ = size ∷ marker ∷ marker ∷ [] in
    let total = length-joined c t e z h refl in
    let (least, most) = length-encode v in
    parse_bytes (layout c t v) c t e size v most least (omega arith) (omega arith)
      (get_last c t e z h refl _ 0 (omega arith)) (get_last c t e z h refl _ 1 (omega arith))
      (get_last c t e z h refl _ 2 (omega arith)) (take_ciphertext c t e z h refl)
      (slice_tag c t e z h refl) (slice_nonce c t e z h refl _ (omega arith))
      (decode-encode_whole v u)

module _ (k : Cipher) where
  -- What `encrypt_secure_frame` sends.
  abbrev pub sent_ciphertext : ℕ → List ℕ → List ℕ
  sent_ciphertext v opus = take (length opus) (k.seal (build_nonce v) opus)

  abbrev pub sent_tag : ℕ → List ℕ → List ℕ
  sent_tag v opus = take tag_size (drop (length opus) (k.seal (build_nonce v) opus))

  encrypt-layout :
      (v : ℕ) (opus : List ℕ)
      → encrypt_secure_frame k v opus ≡ layout (sent_ciphertext v opus) (sent_tag v opus) v
  unfolding encrypt_secure_frame
  encrypt-layout v opus =
      let (_, most) = length-encode v in
      let byte : (tag_size + length (encode v) + 1 + 2) % 256
          ≡ tag_size + length (encode v) + 1 + 2 =
        omega arith in
      rw byte

  length-sent_tag : (v : ℕ) (opus : List ℕ) → length (sent_tag v opus) ≡ 8
  length-sent_tag v opus =
      let sealed = k.seal_length (build_nonce v) opus in
      length-take_le 8 _
        (omega (arith, sealed, length-drop (length opus) (k.seal (build_nonce v) opus)))

  decrypt-sent :
      (v : ℕ) (opus : List ℕ)
      → decrypt_secure_frame k v (sent_ciphertext v opus) (sent_tag v opus) ≡ ok opus
  unfolding decrypt_secure_frame
  decrypt-sent v opus = rw (k.key_stream-seal (build_nonce v) opus, list_eq_refl (sent_tag v opus))

  -- A frame that is encrypted with a uint32 as its nonce is parsed into its ciphertext, tag and nonce,
  -- and these decrypt to the data.
  pub decrypt-encrypt :
      (v : ℕ) (opus : List ℕ)
      → IsUint32 v
      → (p : Parsed) × (parse_secure_frame (encrypt_secure_frame k v opus) ≡ ok p)
        × (p.nonce ≡ v)
        × (decrypt_secure_frame k p.nonce p.ciphertext p.tag ≡ ok opus)
  decrypt-encrypt v opus u = (
    record { ciphertext = sent_ciphertext v opus; tag = sent_tag v opus; nonce = v },
    rw encrypt-layout (parse-layout _ _ v (length-sent_tag v opus) u),
    refl,
    decrypt-sent v opus,
  )

  -- The key stream of the ciphertext is the one that sealing uses.
  sent_of_key_stream :
      (v : ℕ) (opus c : List ℕ)
      → k.xor_key_stream (build_nonce v ++ be_uint32 2) c ≡ opus
      → sent_ciphertext v opus ≡ c
  sent_of_key_stream v opus c h =
      let iv : List ℕ = build_nonce v ++ be_uint32 2 in
      sym (k.key_stream-key_stream iv (sent_ciphertext v opus))
      ∙ ap (k.xor_key_stream iv) (k.key_stream-seal (build_nonce v) opus)
      ∙ ap (k.xor_key_stream iv) (sym h)
      ∙ k.key_stream-key_stream iv c

  decrypt_inv :
      (v : ℕ) (c t opus : List ℕ)
      → decrypt_secure_frame k v c t ≡ ok opus
      → (k.xor_key_stream (build_nonce v ++ be_uint32 2) c ≡ opus)
        × (list_eq (sent_tag v opus) t ≡ true)
  unfolding decrypt_secure_frame
  decrypt_inv v c t opus h = ground arith

  -- A frame of bytes that is parsed and then decrypts is, byte for byte, what encrypting the
  -- decrypted data under its nonce gives.
  pub encrypt-decrypt :
      (bytes : List ℕ) (p : Parsed) (opus : List ℕ)
      → All IsByte bytes
      → parse_secure_frame bytes ≡ ok p
      → decrypt_secure_frame k p.nonce p.ciphertext p.tag ≡ ok opus
      → encrypt_secure_frame k p.nonce opus ≡ bytes
  encrypt-decrypt bytes p opus b h d =
      let (stream, tags) = decrypt_inv p.nonce p.ciphertext p.tag opus d in
      let frame = parse-IsFrame bytes p b h in
      let c = sent_of_key_stream p.nonce opus p.ciphertext stream in
      let t = eq_of_list_eq (sent_tag p.nonce opus) p.tag tags in
      encrypt-layout p.nonce opus ∙ rw (c, t) (sym frame.laid_out)
