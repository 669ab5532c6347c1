-- ===== src/Dave/UserId.antt =====
-- Ids as bytes: `binary.LittleEndian.PutUint64` and `binary.BigEndian.PutUint64`, as dave.go calls them.
use dgo.Prelude.{ℕ, ◌/◌, ◌%◌, ◌^◌, List, [], ◌∷◌}

abbrev byte : ℕ → ℕ → ℕ
byte n i = n / 2 ^ i % 256

abbrev pub le_uint64 : ℕ → List ℕ
le_uint64 n =
    n % 256 ∷ byte n 8 ∷ byte n 16 ∷ byte n 24 ∷ byte n 32 ∷ byte n 40 ∷ byte n 48 ∷ byte n 56 ∷ []

abbrev pub be_uint64 : ℕ → List ℕ
be_uint64 n =
    byte n 56 ∷ byte n 48 ∷ byte n 40 ∷ byte n 32 ∷ byte n 24 ∷ byte n 16 ∷ byte n 8 ∷ n % 256 ∷ []
