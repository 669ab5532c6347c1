-- ===== src/Tls.antt =====
-- The TLS presentation language of MLS messages: `tlsWriter` and `tlsReader` of mls/mls_internal.go. A
-- byte is a number below 256; `|` on bits that are not set is a sum, and `v >> 8` is `v / 2 ^ 8`.
pub mod RoundTrip
mod Examples
use dgo.Prelude.{
  ℕ, ◌+◌, ◌-◌, ◌*◌, ◌/◌, ◌%◌, ◌^◌, Bool, true, false, List, [], ◌∷◌, ◌++◌, Option, none, some,
  length, take, drop, get_or, ltb, leb, ◌==◌, ◌||◌, if◌then◌else◌,
}

abbrev pub byte_of : ℕ → ℕ → ℕ
byte_of shift v = v / 2 ^ shift % 256

unfoldable pub write_uint8 : List ℕ → ℕ → List ℕ
write_uint8 buf v = buf ++ v ∷ []

unfoldable pub write_uint16 : List ℕ → ℕ → List ℕ
write_uint16 buf v = buf ++ byte_of 8 v ∷ v % 256 ∷ []

abbrev pub be_bytes8 : ℕ → List ℕ
be_bytes8 v =
    byte_of 56 v
    ∷ byte_of 48 v
    ∷ byte_of 40 v
    ∷ byte_of 32 v
    ∷ byte_of 24 v
    ∷ byte_of 16 v
    ∷ byte_of 8 v
    ∷ v % 256
    ∷ []

unfoldable pub write_uint64 : List ℕ → ℕ → List ℕ
write_uint64 buf v = buf ++ be_bytes8 v

-- The bytes that `writeVarint` appends. In the last case `v | 0xC000000000000000` sets the top two
-- bits, whatever they were.
abbrev pub varint_bytes : ℕ → List ℕ
varint_bytes v =
    if leb v 63
    then v ∷ []
    else if leb v 16383
    then (0x40 + v / 2 ^ 8) ∷ v % 256 ∷ []
    else if leb v 1073741823
    then (0x80 + v / 2 ^ 24) ∷ byte_of 16 v ∷ byte_of 8 v ∷ v % 256 ∷ []
    else be_bytes8 (0xC0 * 2 ^ 56 + v % 2 ^ 62)

unfoldable pub write_varint : List ℕ → ℕ → List ℕ
write_varint buf v = buf ++ varint_bytes v

unfoldable pub write_vec : List ℕ → List ℕ → List ℕ
unfolding write_varint
write_vec buf bytes = write_varint buf (length bytes) ++ bytes

unfoldable pub write_raw : List ℕ → List ℕ → List ℕ
write_raw buf bytes = buf ++ bytes

-- `err` is whether the reader has an error.
pub record Reader : Type 0 where
  pub bytes : List ℕ
  pub pos : ℕ
  pub err : Bool

abbrev pub remaining : Reader → ℕ
remaining r = length r.bytes - r.pos

abbrev pub at : Reader → ℕ → ℕ
at r k = get_or r.bytes (r.pos + k) 0

abbrev pub short : Reader → ℕ → Bool
short r n = r.err || ltb (length r.bytes) (r.pos + n)

abbrev pub fail : Reader → Reader
fail r = record r { err = true }

abbrev pub skip : Reader → ℕ → Reader
skip r n = record r { pos = r.pos + n }

unfoldable pub read_uint8 : Reader → Reader × ℕ
read_uint8 r = if short r 1 then (fail r, 0) else (skip r 1, at r 0)

unfoldable pub read_uint16 : Reader → Reader × ℕ
read_uint16 r = if short r 2 then (fail r, 0) else (skip r 2, at r 0 * 2 ^ 8 + at r 1)

unfoldable pub read_uint64 : Reader → Reader × ℕ
read_uint64 r = if short r 8 then (fail r, 0) else (
  skip r 8,
  at r 0 * 2 ^ 56
      + at r 1 * 2 ^ 48
      + at r 2 * 2 ^ 40
      + at r 3 * 2 ^ 32
      + at r 4 * 2 ^ 24
      + at r 5 * 2 ^ 16
      + at r 6 * 2 ^ 8
      + at r 7,
)

-- `first >> 6` tells the length; `first & 0x3F` has the top bits.
unfoldable pub read_varint : Reader → Reader × ℕ
read_varint r =
    let kind = at r 0 / 64 in
    let top = at r 0 % 64 in
    if short r 1
    then (fail r, 0)
    else if kind == 0
    then (skip r 1, top)
    else if kind == 1
    then (if short r 2 then (fail r, 0) else (skip r 2, top * 2 ^ 8 + at r 1))
    else if kind == 2
    then (if short r 4
        then (fail r, 0)
        else (skip r 4, top * 2 ^ 24 + at r 1 * 2 ^ 16 + at r 2 * 2 ^ 8 + at r 3))
    else if short r 8
    then (fail r, 0)
    else (
      skip r 8,
      top * 2 ^ 56
          + at r 1 * 2 ^ 48
          + at r 2 * 2 ^ 40
          + at r 3 * 2 ^ 32
          + at r 4 * 2 ^ 24
          + at r 5 * 2 ^ 16
          + at r 6 * 2 ^ 8
          + at r 7,
    )

-- An error returns nil.
unfoldable pub read_vec : Reader → Reader × List ℕ
unfolding read_varint
read_vec r0 =
    let (r, n) = read_varint r0 in
    if r0.err
    then (r0, [])
    else if r.err
    then (r, [])
    else if ltb (length r.bytes) (r.pos + n)
    then (fail r, [])
    else (skip r n, take n (drop r.pos r.bytes))
