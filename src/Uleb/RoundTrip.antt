-- ===== src/Uleb/RoundTrip.antt =====
-- ULEB128 is read back as it was written, and only the shortest form is read.
use dgo.Prelude.{
  ℕ, suc, ◌+◌, ◌*◌, ◌<◌, ◌^◌, ◌≤◌, ltb, if◌then◌else◌, ◌≡◌, zero, refl, ap, ◌%◌, ◌/◌, dec_lt, List,
  [], ◌∷◌, ◌++◌, arith, length,
}
use dgo.Uleb.{IsUint32, decoded, encode, decode, encode_loop, decode_loop}

mod_group : (g : ℕ) → g < 128 → (g + 128) % 128 ≡ g
mod_group g h = omega arith

small_quotient : (v : ℕ) → v < 128 → v / 128 ≡ 0
small_quotient v h = omega arith

-- One round of each loop.
pub encode_more :
    (k v : ℕ) → 127 < v → encode_loop (suc k) v ≡ (v % 128 + 128) ∷ encode_loop k (v / 128)
unfolding encode_loop
encode_more k v h = ground arith

encode_loop-zero : (k : ℕ) → encode_loop k 0 ≡ []
unfolding encode_loop
encode_loop-zero zero = refl
encode_loop-zero (suc k) = refl

pub encode_last : (k v : ℕ) → 0 < v → v < 128 → encode_loop (suc k) v ≡ v ∷ []
unfolding encode_loop
encode_last k v h l = ground (arith, encode_loop-zero k, small_quotient v l)

pub decode_more :
    (i r g : ℕ) (bs : List ℕ)
    → i < 4
    → g < 128
    → decode_loop i r ((g + 128) ∷ bs) ≡ decode_loop (i + 1) ((r + g * 2 ^ (7 * i)) % 2 ^ 32) bs
unfolding decode_loop
decode_more i r g bs h l = rw (mod_group g l) (ground arith)

pub decode_last :
    (i r g : ℕ) (bs : List ℕ)
    → i < 5
    → (i ≡ 4 → g < 16)
    → 0 < g
    → g < 128
    → decode_loop i r (g ∷ bs) ≡ decoded ((r + g * 2 ^ (7 * i)) % 2 ^ 32) (i + 1)
unfolding decode_loop
decode_last i r g bs h t l m = ground arith

-- A value is its low group and the rest, at any weight.
pub split_weight : (v p : ℕ) → v % 128 * p + v / 128 * (p * 128) ≡ v * p
split_weight v p = omega (arith, ap (λ t. t * p) (split v))
  where
    split : (w : ℕ) → w % 128 + w / 128 * 128 ≡ w
    split w = omega arith

mul_le_127 : (g p : ℕ) → g < 128 → g * p ≤ 127 * p
mul_le_127 g p h = grind arith

pub group_weight : (v p r : ℕ) → r < p → r + v % 128 * p < p * 128
group_weight v p r h = omega (arith, mul_le_127 (v % 128) p (omega arith))

-- From round `i` on, where the groups read so far weigh less than `p`, the value still to come is
-- read whole.
abbrev Reads : List ℕ → ℕ → ℕ → ℕ → Type 0
Reads rest i rounds p =
    (r v : ℕ)
    → 0 < v
    → r + v * p < 2 ^ 32
    → r < p
    → decode_loop i r (encode_loop rounds v ++ rest)
      ≡ decoded (r + v * p) (i + length (encode_loop rounds v))

read_last : (rest : List ℕ) → Reads rest 4 1 (2 ^ 28)
unfolding encode_loop decode_loop
read_last rest r v h k l = ground arith

read_step :
    (rest : List ℕ) (i k p : ℕ)
    → 2 ^ (7 * i) ≡ p
    → i < 4
    → Reads rest (i + 1) k (p * 128)
    → Reads rest i (suc k) p
read_step rest i k p e b next r v h w l = elim (dec_lt v 128) [
  | yes small ↦
      rw (encode_last k v h small)
        (rw (decode_last i r v rest (omega arith) (λ q. omega arith) h small, e) (ground arith))
  | no large ↦ rw (encode_more k v (omega arith)) (
      rw (decode_more i r (v % 128) (encode_loop k (v / 128) ++ rest) b (omega arith), e)
        (ground (
          arith,
          split_weight v p,
          group_weight v p r l,
          next ((r + v % 128 * p) % 2 ^ 32) (v / 128),
        )))
]

encode_loop-cons : (k v : ℕ) → 0 < v → (g : ℕ) × (gs : List ℕ) × (encode_loop (suc k) v ≡ g ∷ gs)
unfolding encode_loop
encode_loop-cons k v h =
    (if ltb 0 (v / 128) then v % 128 + 128 else v % 128, encode_loop k (v / 128), ground arith)

-- From the start, in at most five rounds.
read_all : (rest : List ℕ) → Reads rest 0 5 1
read_all rest = read_step rest 0 4 1 refl (omega arith) (
    read_step rest 1 3 (2 ^ 7) refl (omega arith) (
      read_step rest 2 2 (2 ^ 14) refl (omega arith)
        (read_step rest 3 1 (2 ^ 21) refl (omega arith) (read_last rest))))

decode-encode_pos :
    (v : ℕ) (rest : List ℕ)
    → 0 < v
    → IsUint32 v
    → decode (encode_loop 5 v ++ rest) ≡ decoded v (length (encode_loop 5 v))
unfolding decode
decode-encode_pos v rest h u =
    ground (arith, whole, read_all rest 0 v h (omega arith) (omega arith))
  where
    whole : decode (encode_loop 5 v ++ rest) ≡ decode_loop 0 0 (encode_loop 5 v ++ rest)
    whole = let (g, gs, e) = encode_loop-cons 4 v h in rw e refl

-- A uint32 is read back from its encoding, whatever bytes follow, and the count of bytes read is the
-- length of the encoding.
pub decode-encode :
    (v : ℕ) (rest : List ℕ) → IsUint32 v → decode (encode v ++ rest) ≡ decoded v (length (encode v))
unfolding encode
decode-encode zero rest h = unfold decode decode_loop in refl
decode-encode (suc v) rest h = ground (arith, decode-encode_pos (suc v) rest (omega arith) h)
