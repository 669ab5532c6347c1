-- ===== src/Dave/ParseUint.antt =====
-- `strconv.ParseUint` as dave.go calls it, for ids.
use Prim.Native.Char.{code}
use Prim.Native.String.{[], ◌∷◌}
use dgo.Prelude.{
  ℕ, ◌+◌, ◌-◌, ◌*◌, ◌^◌, ◌≡◌, refl, String, Option, none, some, ltb, leb, ◌&&◌, if◌then◌else◌,
}

parse_digits : ℕ → String → Option ℕ
parse_digits n [] = if ltb n (2 ^ 64) then some n else none
parse_digits n (c ∷ rest) =
    let more = parse_digits (n * 10 + (code c - 48)) rest in
    if leb 48 (code c) && leb (code c) 57 then more else none

-- `strconv.ParseUint(s, 10, 64)`, without its error: decimal digits, at least one, below 2^64.
unfoldable pub parse_uint : String → Option ℕ
unfolding parse_digits
parse_uint [] = none
parse_uint (c ∷ rest) = parse_digits 0 (c ∷ rest)

digits : parse_uint "0107" ≡ some 107
unfolding parse_uint
digits = refl

too_large : parse_uint "18446744073709551616" ≡ none
unfolding parse_uint
too_large = refl
