-- ===== src/Tls/RoundTrip.antt =====
-- What the reader reads back from what the writer has written.
use dgo.Prelude.{
  ℕ, ◌+◌, ◌*◌, ◌/◌, ◌%◌, ◌^◌, ◌<◌, ◌≤◌, ◌≡◌, refl, sym, ap, ◌∙◌, subst, true, false, List, [], ◌∷◌,
  ◌++◌, length, take, drop, get_or, ltb, leb, ◌==◌, arith, Bool-cases, inl, inr, length-append,
  get_or-append_right, drop-append_right, take-append_left,
}
use mathlib.Core.List.{append_assoc}
use dgo.Tls.{
  byte_of, be_bytes8, varint_bytes, write_varint, write_vec, Reader, at, short, read_varint,
  read_vec,
}

abbrev pub reader : List ℕ → ℕ → Reader
reader bytes pos = record { bytes = bytes; pos = pos; err = false }

-- A byte of what was written after `pre`.
at-written :
    (pre new rest : List ℕ) (k : ℕ)
    → at (reader (pre ++ (new ++ rest)) (length pre)) k ≡ get_or (new ++ rest) k 0
at-written pre new rest k = get_or-append_right pre (new ++ rest) (length pre + k) k 0 (omega arith)

enough :
    (pre new rest : List ℕ) (n : ℕ)
    → n ≤ length new
    → short (reader (pre ++ (new ++ rest)) (length pre)) n ≡ false
enough pre new rest n l =
    let a = length-append pre (new ++ rest) in let b = length-append new rest in ground arith

module _ (pre rest : List ℕ) where
  varint_1 :
      (v : ℕ)
      → v < 64
      → read_varint (reader (pre ++ (v ∷ [] ++ rest)) (length pre))
        ≡ (reader (pre ++ (v ∷ [] ++ rest)) (length pre + 1), v)
  unfolding read_varint
  varint_1 v l =
      let e = at-written pre (v ∷ []) rest 0 in
      let s = enough pre (v ∷ []) rest 1 (omega arith) in
      let k : (v / 64 == 0) ≡ true = ground arith in
      let m : v % 64 ≡ v = omega arith in rw (s, e, k, m) refl

  varint_2 :
      (v : ℕ)
      → v ≤ 16383
      → let new = (0x40 + v / 2 ^ 8) ∷ v % 256 ∷ [] in
        read_varint (reader (pre ++ (new ++ rest)) (length pre))
        ≡ (reader (pre ++ (new ++ rest)) (length pre + 2), v)
  unfolding read_varint
  varint_2 v l =
      let new : List ℕ = (0x40 + v / 2 ^ 8) ∷ v % 256 ∷ [] in
      let first = at-written pre new rest 0 in
      let second = at-written pre new rest 1 in
      let s = enough pre new rest 1 (omega arith) in
      let s2 = enough pre new rest 2 (omega arith) in
      let k : ((0x40 + v / 256) / 64 == 0) ≡ false = ground arith in
      let k1 : ((0x40 + v / 256) / 64 == 1) ≡ true = ground arith in
      let m : (0x40 + v / 256) % 64 * 256 + v % 256 ≡ v = omega arith in
      rw (s, first, k, k1, s2, second, m) refl

  varint_4 :
      (v : ℕ)
      → v ≤ 1073741823
      → let new = (0x80 + v / 2 ^ 24) ∷ byte_of 16 v ∷ byte_of 8 v ∷ v % 256 ∷ [] in
        read_varint (reader (pre ++ (new ++ rest)) (length pre))
        ≡ (reader (pre ++ (new ++ rest)) (length pre + 4), v)
  unfolding read_varint
  varint_4 v l =
      let new : List ℕ = (0x80 + v / 2 ^ 24) ∷ byte_of 16 v ∷ byte_of 8 v ∷ v % 256 ∷ [] in
      let b0 = at-written pre new rest 0 in
      let b1 = at-written pre new rest 1 in
      let b2 = at-written pre new rest 2 in
      let b3 = at-written pre new rest 3 in
      let s = enough pre new rest 1 (omega arith) in
      let s4 = enough pre new rest 4 (omega arith) in
      let k : ((0x80 + v / 16777216) / 64 == 0) ≡ false = ground arith in
      let k1 : ((0x80 + v / 16777216) / 64 == 1) ≡ false = ground arith in
      let k2 : ((0x80 + v / 16777216) / 64 == 2) ≡ true = ground arith in
      let m : (0x80 + v / 16777216) % 64 * 16777216
            + v / 65536 % 256 * 65536
            + v / 256 % 256 * 256
            + v % 256
          ≡ v =
        omega arith in
      rw (s, b0, k, k1, k2, s4, b1, b2, b3, m) refl

  read_8 :
      (a b c d e f g h : ℕ)
      → a / 64 ≡ 3
      → let new = a ∷ b ∷ c ∷ d ∷ e ∷ f ∷ g ∷ h ∷ [] in
        read_varint (reader (pre ++ (new ++ rest)) (length pre)) ≡ (
          reader (pre ++ (new ++ rest)) (length pre + 8),
          a % 64 * 2 ^ 56
              + b * 2 ^ 48
              + c * 2 ^ 40
              + d * 2 ^ 32
              + e * 2 ^ 24
              + f * 2 ^ 16
              + g * 2 ^ 8
              + h,
        )
  unfolding read_varint
  read_8 a b c d e f g h top =
      let new : List ℕ = a ∷ b ∷ c ∷ d ∷ e ∷ f ∷ g ∷ h ∷ [] in
      let b0 = at-written pre new rest 0 in
      let b1 = at-written pre new rest 1 in
      let b2 = at-written pre new rest 2 in
      let b3 = at-written pre new rest 3 in
      let b4 = at-written pre new rest 4 in
      let b5 = at-written pre new rest 5 in
      let b6 = at-written pre new rest 6 in
      let b7 = at-written pre new rest 7 in
      let s = enough pre new rest 1 (omega arith) in
      let s8 = enough pre new rest 8 (omega arith) in
      rw (s, b0, top, s8, b1, b2, b3, b4, b5, b6, b7) refl

  varint_8 :
      (v : ℕ)
      → v < 2 ^ 62
      → let new = be_bytes8 (0xC0 * 2 ^ 56 + v % 2 ^ 62) in
        read_varint (reader (pre ++ (new ++ rest)) (length pre))
        ≡ (reader (pre ++ (new ++ rest)) (length pre + 8), v)
  varint_8 v l =
      let u : ℕ = 0xC0 * 2 ^ 56 + v % 2 ^ 62 in
      let new : List ℕ = be_bytes8 u in
      let top : u / 2 ^ 56 % 256 / 64 ≡ 3 = omega arith in
      let m : u / 2 ^ 56 % 256 % 64 * 2 ^ 56
            + u / 2 ^ 48 % 256 * 2 ^ 48
            + u / 2 ^ 40 % 256 * 2 ^ 40
            + u / 2 ^ 32 % 256 * 2 ^ 32
            + u / 2 ^ 24 % 256 * 2 ^ 24
            + u / 2 ^ 16 % 256 * 2 ^ 16
            + u / 2 ^ 8 % 256 * 2 ^ 8
            + u % 256
          ≡ v =
        omega arith in
      read_8 (u / 2 ^ 56 % 256) (u / 2 ^ 48 % 256) (u / 2 ^ 40 % 256) (u / 2 ^ 32 % 256)
        (u / 2 ^ 24 % 256) (u / 2 ^ 16 % 256) (u / 2 ^ 8 % 256) (u % 256) top
      ∙ ap (λ n. (reader (pre ++ (new ++ rest)) (length pre + 8), n)) m

  varint_any :
      (v : ℕ)
      → v < 2 ^ 62
      → read_varint (reader (pre ++ (varint_bytes v ++ rest)) (length pre))
        ≡ (reader (pre ++ (varint_bytes v ++ rest)) (length pre + length (varint_bytes v)), v)
  varint_any v l = elim (Bool-cases (leb v 63)) [
    | inl one ↦ rw one (varint_1 v (ground arith))
    | inr more ↦ elim (Bool-cases (leb v 16383)) [
      | inl two ↦ rw (more, two) (varint_2 v (ground arith))
      | inr more2 ↦ elim (Bool-cases (leb v 1073741823)) [
        | inl four ↦ rw (more, more2, four) (varint_4 v (ground arith))
        | inr eight ↦ rw (more, more2, eight) (varint_8 v l)
      ]
    ]
  ]

-- A number below 2^62 is read back from what the writer appends for it, whatever comes before and after
-- it, and the reader is then behind it.
pub read-write_varint :
    (pre rest : List ℕ) (v : ℕ)
    → v < 2 ^ 62
    → read_varint (reader (write_varint pre v ++ rest) (length pre))
      ≡ (reader (write_varint pre v ++ rest) (length (write_varint pre v)), v)
unfolding write_varint
read-write_varint pre rest v l =
    subst
      (λ bytes.
        read_varint (reader bytes (length pre))
        ≡ (reader bytes (length (pre ++ varint_bytes v)), v))
      (sym (append_assoc pre (varint_bytes v) rest))
      (varint_any pre rest v l
        ∙ ap (λ n. (reader (pre ++ (varint_bytes v ++ rest)) n, v))
            (sym (length-append pre (varint_bytes v))))

-- A byte slice shorter than 2^62 is read back from what `writeVec` appends for it, and the reader is
-- then behind it.
pub read-write_vec :
    (pre rest bytes : List ℕ)
    → length bytes < 2 ^ 62
    → read_vec (reader (write_vec pre bytes ++ rest) (length pre))
      ≡ (reader (write_vec pre bytes ++ rest) (length (write_vec pre bytes)), bytes)
unfolding read_vec write_vec
read-write_vec pre rest bytes l =
    let head : List ℕ = write_varint pre (length bytes) in
    let whole : List ℕ = head ++ bytes ++ rest in
    let read : read_varint (reader whole (length pre))
        ≡ (reader whole (length head), length bytes) =
      subst (λ b. read_varint (reader b (length pre)) ≡ (reader b (length head), length bytes))
        (sym (append_assoc head bytes rest))
        (read-write_varint pre (bytes ++ rest) (length bytes) l) in
    let there : ltb (length whole) (length head + length bytes) ≡ false =
      let a = length-append (head ++ bytes) rest in
      let b = length-append head bytes in ground arith in
    let cut : take (length bytes) (drop (length head) whole) ≡ bytes =
      subst (λ b. take (length bytes) (drop (length head) b) ≡ bytes)
        (sym (append_assoc head bytes rest))
        (ap (take (length bytes)) (drop-append_right head (bytes ++ rest) (length head) refl)
          ∙ take-append_left bytes rest (length bytes) refl) in
    rw (read, there, cut, length-append head bytes) refl
