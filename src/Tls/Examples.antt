-- ===== src/Tls/Examples.antt =====
-- Numbers of each length.
use dgo.Prelude.{◌≡◌, refl, [], ◌∷◌, ◌++◌, arith, length}
use dgo.Tls.{write_varint, write_vec, read_vec}
use dgo.Tls.RoundTrip.{reader, read-write_vec}

two_bytes : write_varint [] 300 ≡ 65 ∷ 44 ∷ []
unfolding write_varint
two_bytes = refl

read-write_vec_example : read_vec (reader (write_vec (7 ∷ []) (1 ∷ 2 ∷ []) ++ 9 ∷ []) 1) ≡ (
  reader (write_vec (7 ∷ []) (1 ∷ 2 ∷ []) ++ 9 ∷ []) (length (write_vec (7 ∷ []) (1 ∷ 2 ∷ []))),
  1 ∷ 2 ∷ [],
)
read-write_vec_example = read-write_vec (7 ∷ []) (9 ∷ []) (1 ∷ 2 ∷ []) (omega arith)
