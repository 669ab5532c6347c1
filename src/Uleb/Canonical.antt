-- ===== src/Uleb/Canonical.antt =====
-- Only the shortest form of a uint32 is read.
use dgo.Prelude.{
  ℕ, suc, ◌+◌, ◌*◌, ◌<◌, ◌≤◌, ◌^◌, ◌%◌, ◌/◌, ◌≡◌, refl, sym, ap, ◌∙◌, List, [], ◌∷◌, arith, All,
  take, dec_lt,
}
use dgo.Uleb.{IsByte, IsUint32, decoded, encode, decode, encode_loop, decode_loop}
use dgo.Uleb.RoundTrip.{encode_more, encode_last, split_weight, group_weight}

-- What reading from round `i` on found: the value `more` that the groups still to come hold, in
-- `used` bytes, and these bytes are its encoding.
pub record Written (i rounds p r v n : ℕ) (bs : List ℕ) : Type 0 where
  pub more : ℕ
  pub used : ℕ
  pub value : v ≡ r + more * p
  pub count : n ≡ i + used
  pub fits : v < 2 ^ 32
  pub positive : 0 < i → 0 < more
  pub encoding : 0 < more → encode_loop rounds more ≡ take used bs
  pub only_zero : more ≡ 0 → take used bs ≡ 0 ∷ []

abbrev Writes : ℕ → ℕ → ℕ → Type 0
Writes i rounds p =
    (r v n : ℕ) (bs : List ℕ)
    → r < p
    → All IsByte bs
    → decode_loop i r bs ≡ decoded v n
    → Written i rounds p r v n bs

-- After five bytes that all announce another, nothing is read.
write_none : (p : ℕ) → Writes 5 0 p
unfolding decode_loop
write_none p r v n [] h b e = absurd (ground arith)
write_none p r v n (b ∷ bs) h c e = absurd (ground arith)

zero_take : (n b : ℕ) (bs : List ℕ) → b ≡ 0 → take 1 (b ∷ bs) ≡ 0 ∷ []
zero_take n b bs h = ap (λ (x : ℕ). x ∷ []) h

mul_le : (b p k q : ℕ) → b ≤ k → p ≤ q → b * p ≤ k * q
mul_le b p k q h l = grind arith

-- The tests of a round that reads the last group, and of one that goes on.
last_tests :
    (i r b v n : ℕ) (bs : List ℕ)
    → i < 5
    → b < 128
    → decode_loop i r (b ∷ bs) ≡ decoded v n
    → (v ≡ (r + b * 2 ^ (7 * i)) % 2 ^ 32) × (n ≡ i + 1) × (i ≡ 4 → b ≤ 15) × (0 < i → 0 < b)
unfolding decode_loop
last_tests i r b v n bs l s d = ground arith

next_tests :
    (i r b v n : ℕ) (bs : List ℕ)
    → i < 5
    → 127 < b
    → decode_loop i r (b ∷ bs) ≡ decoded v n
    → (decode_loop (i + 1) ((r + b % 128 * 2 ^ (7 * i)) % 2 ^ 32) bs ≡ decoded v n)
      × (i ≡ 4 → b % 128 ≤ 15)
unfolding decode_loop
next_tests i r b v n bs l s d = ground arith

-- The groups read fit a uint32.
joined_fits :
    (i p r g : ℕ)
    → i < 5
    → p ≤ 2 ^ 28
    → (i < 4 → p ≤ 2 ^ 21)
    → r < p
    → g < 128
    → (i ≡ 4 → g ≤ 15)
    → r + g * p < 2 ^ 32
joined_fits i p r g l q q' h s t = elim (dec_lt i 4) [
  | yes early ↦ omega (arith, mul_le g p 127 (2 ^ 21) (omega arith) (q' early))
  | no late ↦ omega (arith, mul_le g p 15 (2 ^ 28) (t (omega arith)) q)
]

final_group :
    (i p r b v n : ℕ) (bs : List ℕ)
    → 2 ^ (7 * i) ≡ p
    → i < 5
    → p ≤ 2 ^ 28
    → (i < 4 → p ≤ 2 ^ 21)
    → r < p
    → b < 128
    → decode_loop i r (b ∷ bs) ≡ decoded v n
    → (v ≡ r + b * p) × (n ≡ i + 1) × (v < 2 ^ 32) × (0 < i → 0 < b)
final_group i p r b v n bs e l q q' h s d =
    let (value, count, top, positive) = last_tests i r b v n bs l s d in
    let fits = joined_fits i p r b l q q' h s top in
    let value' : v ≡ (r + b * p) % 2 ^ 32 = rw (← e) value in
    (omega arith, count, omega arith, positive)

next_group :
    (i p r b v n : ℕ) (bs : List ℕ)
    → 2 ^ (7 * i) ≡ p
    → i < 5
    → p ≤ 2 ^ 28
    → (i < 4 → p ≤ 2 ^ 21)
    → r < p
    → 127 < b
    → decode_loop i r (b ∷ bs) ≡ decoded v n
    → decode_loop (i + 1) (r + b % 128 * p) bs ≡ decoded v n
next_group i p r b v n bs e l q q' h s d =
    let (next, top) = next_tests i r b v n bs l s d in
    let fits = joined_fits i p r (b % 128) l q q' h (omega arith) top in
    let same : (r + b % 128 * p) % 2 ^ 32 ≡ r + b % 128 * p = omega arith in
    rw (← same) (rw (← e) next)

Written-more :
    (i k p r b v n : ℕ) (bs : List ℕ)
    → b < 256
    → 127 < b
    → Written (i + 1) k (p * 128) (r + b % 128 * p) v n bs
    → Written i (suc k) p r v n (b ∷ bs)
Written-more i k p r b v n bs c l t =
    let more = b % 128 + 128 * t.more in
    let parts = split_weight more p in
    let low : more % 128 ≡ b % 128 = omega arith in
    let high : more / 128 ≡ t.more = omega arith in
    let positive = t.positive (omega arith) in
    record {
      more = more;
      used = suc t.used;
      value = omega (arith, t.value);
      count = omega (arith, t.count);
      fits = t.fits;
      positive = λ _. omega arith;
      encoding = λ _.
          encode_more k more (omega arith)
          ∙ rw (low, high, t.encoding positive) (ap (λ (x : ℕ). x ∷ take t.used bs) (omega arith));
      only_zero = λ z. absurd (omega arith);
    }

write_step :
    (i k p : ℕ)
    → 2 ^ (7 * i) ≡ p
    → i < 5
    → p ≤ 2 ^ 28
    → (i < 4 → p ≤ 2 ^ 21)
    → Writes (i + 1) k (p * 128)
    → Writes i (suc k) p
write_step i k p e l q q' next r v n [] h b d = absurd (unfold decode_loop in ground arith)
write_step i k p e l q q' next r v n (b ∷ bs) h (c, cs) d = elim (dec_lt b 128) [
  | yes small ↦
      let (value, count, fits, positive) = final_group i p r b v n bs e l q q' h small d in
      record {
        more = b;
        used = 1;
        value = value;
        count = count;
        fits = fits;
        positive = positive;
        encoding = λ z. encode_last k b z small;
        only_zero = zero_take n b bs;
      }
  | no large ↦
      let tail =
        next (r + b % 128 * p) v n bs (group_weight b p r h) cs
          (next_group i p r b v n bs e l q q' h (omega arith) d) in
      Written-more i k p r b v n bs c (omega arith) tail
]

write_all : Writes 0 5 1
write_all =
    write_step 0 4 1 refl (omega arith) (omega arith) (λ _. omega arith)
      (write_step 1 3 (2 ^ 7) refl (omega arith) (omega arith) (λ _. omega arith)
        (write_step 2 2 (2 ^ 14) refl (omega arith) (omega arith) (λ _. omega arith)
          (write_step 3 1 (2 ^ 21) refl (omega arith) (omega arith) (λ _. omega arith)
            (write_step 4 0 (2 ^ 28) refl (omega arith) (omega arith) (λ h. absurd (omega arith))
              (write_none (2 ^ 35))))))

encode_zero : encode 0 ≡ 0 ∷ []
unfolding encode
encode_zero = refl

encode_pos : (v : ℕ) → 0 < v → encode v ≡ encode_loop 5 v
unfolding encode
encode_pos v h = ground arith

-- What is read from bytes is a uint32, and the bytes read are its encoding: no value has two
-- readable forms.
pub encode-decode :
    (bs : List ℕ) (v n : ℕ)
    → All IsByte bs
    → decode bs ≡ decoded v n
    → IsUint32 v × (encode v ≡ take n bs)
unfolding decode
encode-decode [] v n b h = absurd (ground arith)
encode-decode (x ∷ xs) v n b h =
    let w = write_all 0 v n (x ∷ xs) (omega arith) b h in
    let same : w.more ≡ v = omega (arith, w.value) in
    let count : w.used ≡ n = omega (arith, w.count) in
    (
      w.fits,
      rw (← count) (elim (dec_lt 0 v) [
        | yes positive ↦ rw (encode_pos v positive, ← same) (w.encoding (omega arith))
        | no zero_value ↦
            let none : v ≡ 0 = omega arith in
            rw (none, encode_zero) (sym (w.only_zero (omega arith)))
      ]),
    )
