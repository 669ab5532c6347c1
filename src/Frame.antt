-- ===== src/Frame.antt =====
-- DAVE secure frames: `encryptSecureFrame`, `parseSecureFrame`, `decryptSecureFrame`, `buildNonce`
-- and `hashRatchetGetKey` of dave_crypto.go. A frame is ciphertext, an 8-byte tag, the ULEB128 nonce,
-- the size of all that follows the ciphertext, and two marker bytes.
pub mod Layout
pub mod RoundTrip
pub mod Ratchet
mod Examples
use dgo.Prelude.{
  ℕ, zero, suc, ◌+◌, ◌-◌, ◌*◌, ◌/◌, ◌%◌, ◌^◌, ◌≡◌, List, [], ◌∷◌, ◌++◌, Bool, true, false, Option,
  none, some, length, get_or, take, drop, replicate, ltb, ◌==◌, ◌&&◌, ◌||◌, not, if◌then◌else◌,
  list_eq, String,
}
use dgo.Uleb.{UlebError, Decoded, decoded, failed, encode, decode}

abbrev pub tag_size : ℕ
tag_size = 8

abbrev pub min_supplemental_size : ℕ
min_supplemental_size = tag_size + 1 + 1 + 2

abbrev pub marker : ℕ
marker = 0xFA

pub data FrameError : Type 0 where
  too_short not_dave invalid_supplemental_size trailing_nonce_bytes tag_mismatch : FrameError
  invalid_nonce : UlebError → FrameError

pub data Result {ℓ} (A : Type ℓ) : Type ℓ where
  ok : A → Result A
  err : FrameError → Result A

-- What `parseSecureFrame` returns beside its error.
pub record Parsed : Type 0 where
  pub ciphertext : List ℕ
  pub tag : List ℕ
  pub nonce : ℕ

-- `PutUint32`, in both byte orders.
unfoldable pub le_uint32 : ℕ → List ℕ
le_uint32 v = v % 256 ∷ v / 2 ^ 8 % 256 ∷ v / 2 ^ 16 % 256 ∷ v / 2 ^ 24 % 256 ∷ []

unfoldable pub be_uint32 : ℕ → List ℕ
be_uint32 v = v / 2 ^ 24 % 256 ∷ v / 2 ^ 16 % 256 ∷ v / 2 ^ 8 % 256 ∷ v % 256 ∷ []

-- 12 bytes, the counter in the last four.
unfoldable pub build_nonce : ℕ → List ℕ
unfolding le_uint32
build_nonce counter = replicate 8 0 ++ le_uint32 counter

-- `cipher.AEAD` of AES-GCM and the AES counter mode under the same key: `seal nonce plaintext` is the
-- ciphertext, as long as the plaintext, with a 16-byte tag after it, and the ciphertext is the counter
-- mode from block 2 of the nonce.
pub record Cipher : Type 0 where
  pub seal : List ℕ → List ℕ → List ℕ
  pub xor_key_stream : List ℕ → List ℕ → List ℕ
  pub seal_length :
      (nonce plaintext : List ℕ) → length (seal nonce plaintext) ≡ length plaintext + 16
  pub key_stream_length : (iv bytes : List ℕ) → length (xor_key_stream iv bytes) ≡ length bytes
  -- Counter mode adds the same key stream again to decrypt.
  pub key_stream-key_stream :
      (iv bytes : List ℕ) → xor_key_stream iv (xor_key_stream iv bytes) ≡ bytes
  pub key_stream-seal :
      (nonce plaintext : List ℕ)
      → xor_key_stream (nonce ++ be_uint32 2) (take (length plaintext) (seal nonce plaintext))
        ≡ plaintext

unfoldable pub encrypt_secure_frame : Cipher → ℕ → List ℕ → List ℕ
encrypt_secure_frame c nonce opus_data =
    let sealed = c.seal (build_nonce nonce) opus_data in
    let ciphertext = take (length opus_data) sealed in
    let full_tag = drop (length opus_data) sealed in
    let truncated_tag = take tag_size full_tag in
    let nonce_bytes = encode nonce in
    let supplemental_size = (tag_size + length nonce_bytes + 1 + 2) % 256 in
    ciphertext ++ (truncated_tag ++ (nonce_bytes ++ (supplemental_size ∷ marker ∷ marker ∷ [])))

-- `data[from:to]`
abbrev pub slice : List ℕ → ℕ → ℕ → List ℕ
slice bytes from to = take (to - from) (drop from bytes)

finish_parse : List ℕ → List ℕ → List ℕ → Decoded → Result Parsed
finish_parse ciphertext tag nonce_bytes (failed e) = err (invalid_nonce e)
finish_parse ciphertext tag nonce_bytes (decoded nonce consumed) =
    if not (consumed == length nonce_bytes)
    then err trailing_nonce_bytes
    else ok (record { ciphertext = ciphertext; tag = tag; nonce = nonce })

-- `supplementalStart < 0` is `len(data) < supplementalSize`.
unfoldable pub parse_secure_frame : List ℕ → Result Parsed
unfolding finish_parse
parse_secure_frame bytes =
    let n = length bytes in
    let supplemental_size = get_or bytes (n - 3) 0 in
    let start = n - supplemental_size in
    let nonce_bytes = slice bytes (start + tag_size) (n - 3) in
    if ltb n (2 + 1 + 1 + tag_size)
    then err too_short
    else if not (get_or bytes (n - 1) 0 == marker) || not (get_or bytes (n - 2) 0 == marker)
    then err not_dave
    else if ltb n supplemental_size || ltb supplemental_size min_supplemental_size
    then err invalid_supplemental_size
    else finish_parse (take start bytes) (slice bytes start (start + tag_size)) nonce_bytes
        (decode nonce_bytes)

-- The plaintext is recovered in counter mode and sealed again to check the tag.
unfoldable pub decrypt_secure_frame : Cipher → ℕ → List ℕ → List ℕ → Result (List ℕ)
decrypt_secure_frame c nonce ciphertext truncated_tag =
    let gcm_nonce = build_nonce nonce in
    let ctr_iv = gcm_nonce ++ be_uint32 2 in
    let plaintext = c.xor_key_stream ctr_iv ciphertext in
    let full_tag = drop (length plaintext) (c.seal gcm_nonce plaintext) in
    if list_eq (take tag_size full_tag) truncated_tag then ok plaintext else err tag_mismatch

-- `mls.ExpandWithLabel`, which may fail, is a parameter. The loop counts up from generation `i`.
module _ (expand_with_label : List ℕ → String → List ℕ → ℕ → Option (List ℕ)) where
  ratchet_loop : ℕ → ℕ → List ℕ → Option (List ℕ)
  ratchet_loop zero i secret = expand_with_label secret "key" (be_uint32 i) 16
  ratchet_loop (suc steps) i secret = elim (expand_with_label secret "secret" (be_uint32 i) 32) [
    | none ↦ none
    | some next ↦ ratchet_loop steps (i + 1) next
  ]

  unfoldable pub hash_ratchet_get_key : List ℕ → ℕ → Option (List ℕ)
  unfolding ratchet_loop
  hash_ratchet_get_key base_secret generation = ratchet_loop generation 0 base_secret
