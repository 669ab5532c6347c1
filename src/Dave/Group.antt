-- ===== src/Dave/Group.antt =====
-- What dave.go calls of `mls.GroupSession`, of mls/session.go. An error is a number here.
use dgo.Prelude.{ℕ, String, List, Option, ◌⊎◌}
use dgo.Prelude.Int.{ℤ}

pub record GroupOps (G : Type 0) : Type 0 where
  pub new_group : List ℕ → G ⊎ ℕ
  pub set_recognized_users : G → List String → G
  pub reset : G → List ℕ → ℤ → G × Option ℕ
  pub generate_key_package : G → G × (List ℕ ⊎ ℕ)
  pub set_external_sender : G → List ℕ → G × Option ℕ
  pub process_proposals : G → List ℕ → G × (List ℕ ⊎ ℕ)
  pub process_welcome : G → List ℕ → G × Option ℕ
  pub process_commit : G → List ℕ → G × Option ℕ
  pub epoch : G → ℕ ⊎ ℕ
  pub export_secret : G → String → List ℕ → ℕ → List ℕ ⊎ ℕ
