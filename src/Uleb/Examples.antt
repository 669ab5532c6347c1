-- ===== src/Uleb/Examples.antt =====
-- Runs of the ULEB128 codec.
use dgo.Prelude.{◌≡◌, refl, [], ◌∷◌}
use dgo.Uleb.{encode, decode, failed, non_canonical}

encode_300 : encode 300 ≡ 172 ∷ 2 ∷ []
unfolding encode
encode_300 = refl

decode_padded : decode (172 ∷ 130 ∷ 0 ∷ []) ≡ failed non_canonical
unfolding decode
decode_padded = refl
