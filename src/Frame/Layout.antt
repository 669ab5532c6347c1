-- ===== src/Frame/Layout.antt =====
-- What `parse_secure_frame` accepts: frames of the layout that `encrypt_secure_frame` writes, with
-- the shortest form of the nonce.
use dgo.Prelude.{
  ℕ, suc, ◌+◌, ◌-◌, ◌≤◌, ◌≡◌, refl, sym, ◌∙◌, List, [], ◌∷◌, ◌++◌, arith, length, get_or, take,
  drop, All, All-take, All-drop, take-append-drop, drop-drop, drop-get_or, drop-length, take-length,
  length-take_le, length-drop,
}
use dgo.Uleb.{IsByte, IsUint32, Decoded, decoded, failed, encode, decode}
use dgo.Uleb.Canonical.{encode-decode}
use dgo.Frame.{tag_size, marker, Parsed, ok, slice, finish_parse, parse_secure_frame}

-- A frame laid out.
abbrev pub layout : List ℕ → List ℕ → ℕ → List ℕ
layout ciphertext tag nonce =
    ciphertext
    ++ (tag
        ++ (encode nonce ++ ((tag_size + length (encode nonce) + 1 + 2) ∷ marker ∷ marker ∷ [])))

pub record IsFrame (bytes : List ℕ) (p : Parsed) : Type 0 where
  pub laid_out : bytes ≡ layout p.ciphertext p.tag p.nonce
  pub tag_length : length p.tag ≡ tag_size
  pub nonce_range : IsUint32 p.nonce

-- The three cuts of a byte slice.
cuts :
    (bytes : List ℕ) (a b c : ℕ)
    → a ≤ b
    → b ≤ c
    → take a bytes ++ (slice bytes a b ++ (slice bytes b c ++ drop c bytes)) ≡ bytes
cuts bytes a b c h l = rw (cut b c l, cut a b h) (take-append-drop a bytes)
  where
    cut_by : (i d : ℕ) → take d (drop i bytes) ++ drop (i + d) bytes ≡ drop i bytes
    cut_by i d = rw (← drop-drop d i bytes) (take-append-drop d (drop i bytes))

    cut : (i j : ℕ) → i ≤ j → slice bytes i j ++ drop j bytes ≡ drop i bytes
    cut i j k = let e : i + (j - i) ≡ j = omega arith in rw e at (cut_by i (j - i))

last_three :
    (bytes : List ℕ)
    → 3 ≤ length bytes
    → drop (length bytes - 3) bytes
      ≡ get_or bytes (length bytes - 3) 0
        ∷ get_or bytes (length bytes - 2) 0
        ∷ get_or bytes (length bytes - 1) 0
        ∷ []
last_three bytes h =
    let n : ℕ = length bytes in
    let second : suc (n - 3) ≡ n - 2 = omega arith in
    let third : suc (n - 2) ≡ n - 1 = omega arith in
    let first_get = drop-get_or bytes (n - 3) 0 (omega arith) in
    cc (
      first_get,
      drop-get_or bytes (n - 2) 0 (omega arith),
      drop-get_or bytes (n - 1) 0 (omega arith),
      second,
      third,
      drop-length bytes (suc (n - 1)) (omega arith),
    )

-- The guards that an accepted frame has passed, `size` being its size byte.
abbrev size : List ℕ → ℕ
size bytes = get_or bytes (length bytes - 3) 0

abbrev start : List ℕ → ℕ
start bytes = length bytes - size bytes

abbrev nonce_bytes : List ℕ → List ℕ
nonce_bytes bytes = slice bytes (start bytes + 8) (length bytes - 3)

finish_inv :
    (c t nb : List ℕ) (r : Decoded) (p : Parsed)
    → finish_parse c t nb r ≡ ok p
    → (p.ciphertext ≡ c) × (p.tag ≡ t) × (r ≡ decoded p.nonce (length nb))
unfolding finish_parse
finish_inv c t nb (failed e) p h = absurd (ground arith)
finish_inv c t nb (decoded v n) p h = ground arith

guards_inv :
    (bytes : List ℕ) (p : Parsed)
    → parse_secure_frame bytes ≡ ok p
    → (get_or bytes (length bytes - 2) 0 ≡ marker)
      × (get_or bytes (length bytes - 1) 0 ≡ marker)
      × (size bytes ≤ length bytes)
      × (12 ≤ size bytes)
      × (finish_parse
            (take (start bytes) bytes)
            (slice bytes (start bytes) (start bytes + 8))
            (nonce_bytes bytes)
            (decode (nonce_bytes bytes))
          ≡ ok p)
unfolding parse_secure_frame
guards_inv bytes p h = ground arith

length-nonce_bytes :
    (bytes : List ℕ)
    → size bytes ≤ length bytes
    → 12 ≤ size bytes
    → length (nonce_bytes bytes) ≡ size bytes - 11
length-nonce_bytes bytes fits least =
    let rest = length-drop (start bytes + 8) bytes in
    let cut =
      length-take_le (length bytes - 3 - (start bytes + 8)) (drop (start bytes + 8) bytes)
        (omega arith) in
    omega (arith, cut)

length-tag :
    (bytes : List ℕ)
    → size bytes ≤ length bytes
    → 12 ≤ size bytes
    → length (slice bytes (start bytes) (start bytes + 8)) ≡ 8
length-tag bytes fits least =
    let rest = length-drop (start bytes) bytes in
    let cut =
      length-take_le (start bytes + 8 - start bytes) (drop (start bytes) bytes) (omega arith) in
    omega (arith, cut)

tail_bytes :
    (bytes nb : List ℕ)
    → size bytes ≤ length bytes
    → 12 ≤ size bytes
    → length nb ≡ size bytes - 11
    → get_or bytes (length bytes - 2) 0 ≡ marker
    → get_or bytes (length bytes - 1) 0 ≡ marker
    → drop (length bytes - 3) bytes ≡ (tag_size + length nb + 1 + 2) ∷ marker ∷ marker ∷ []
tail_bytes bytes nb fits least l m1 m2 =
    let e : tag_size + length nb + 1 + 2 ≡ size bytes = omega arith in
    cc (e, last_three bytes (omega arith))

-- Every accepted frame is laid out as `encrypt_secure_frame` writes it, with an 8-byte tag, a nonce in
-- its shortest form, the right supplemental size and both markers.
pub parse-IsFrame :
    (bytes : List ℕ) (p : Parsed)
    → All IsByte bytes
    → parse_secure_frame bytes ≡ ok p
    → IsFrame bytes p
parse-IsFrame bytes p b h =
    let (m1, m2, fits, least, fin) = guards_inv bytes p h in
    let (c, t, d) = finish_inv _ _ _ _ p fin in
    let nb : List ℕ = nonce_bytes bytes in
    let (range, shortest) =
      encode-decode nb p.nonce (length nb)
        (All-take IsByte _ _ (All-drop IsByte (start bytes + 8) bytes b)) d in
    let enc : encode p.nonce ≡ nb = shortest ∙ take-length nb (length nb) refl in
    record {
      laid_out =
          rw
            (
              c,
              t,
              enc,
              ← tail_bytes bytes nb fits least (length-nonce_bytes bytes fits least) m1 m2,
            )
            (sym (
              cuts bytes (start bytes) (start bytes + 8) (length bytes - 3) (omega arith)
                (omega arith)));
      tag_length = rw t (length-tag bytes fits least);
      nonce_range = range;
    }
