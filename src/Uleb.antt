-- ===== src/Uleb.antt =====
-- ULEB128 of DAVE nonces: `encodeULEB128` and `decodeULEB128` of dave_crypto.go.
-- A byte slice is a list of numbers below 256; a uint32 is a number below 2 ^ 32.
pub mod RoundTrip
pub mod Canonical
mod Examples
use dgo.Prelude.{
  ℕ, zero, suc, ◌+◌, ◌*◌, ◌/◌, ◌%◌, ◌^◌, ◌<◌, ◌≤◌, Bool, true, false, List, [], ◌∷◌, ltb, leb, ◌==◌,
  if◌then◌else◌, ◌&&◌, All,
}

pub data UlebError : Type 0 where
  empty_value exceeds_bytes overflows_uint32 non_canonical unterminated : UlebError

pub data Decoded : Type 0 where
  decoded : ℕ → ℕ → Decoded
  failed : UlebError → Decoded

abbrev pub IsByte : ℕ → Type 0
IsByte b = b < 256

abbrev pub IsUint32 : ℕ → Type 0
IsUint32 v = v < 2 ^ 32

-- One round of `for value > 0`: `byte(value & 0x7F)` is `value % 128`, and `|= 0x80` on a group
-- below 128 adds 128. A uint32 is used up after five rounds.
unfoldable pub encode_loop : ℕ → ℕ → List ℕ
encode_loop zero value = []
encode_loop (suc rounds) value =
    let next = value / 128 in
    let rest = encode_loop rounds next in
    if ltb 0 value then (if ltb 0 next then value % 128 + 128 else value % 128) ∷ rest else []

unfoldable pub encode : ℕ → List ℕ
unfolding encode_loop
encode value = if value == 0 then 0 ∷ [] else encode_loop 5 value

-- `result |= value << (7 * i)`: the bits of `result` lie below 7 * i, so that the `|` adds.
unfoldable pub decode_loop : ℕ → ℕ → List ℕ → Decoded
decode_loop i result [] = failed unterminated
decode_loop i result (b ∷ bs) =
    let value = b % 128 in
    let joined = (result + value * 2 ^ (7 * i)) % 2 ^ 32 in
    let more = decode_loop (i + 1) joined bs in
    if leb 5 i
    then failed exceeds_bytes
    else if (i == 4) && ltb 15 value
    then failed overflows_uint32
    else if ltb b 128
    then (if ltb 0 i && (value == 0) then failed non_canonical else decoded joined (i + 1))
    else more

unfoldable pub decode : List ℕ → Decoded
unfolding decode_loop
decode [] = failed empty_value
decode (b ∷ bs) = decode_loop 0 0 (b ∷ bs)
