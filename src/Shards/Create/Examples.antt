-- ===== src/Shards/Create/Examples.antt =====
-- A manager of two shards.
use dgo.Prelude.{ℕ, List, ◌+◌, ◌≡◌, refl, true, [], ◌∷◌, none}
use dgo.Prelude.Int.{pos}
use dgo.Identify.{Coordinator}
use dgo.Shards.Create.{GatewayBot, Session, Made, session, created, new_shard_manager, response}

abbrev bot : GatewayBot
bot = record {
  url = "wss://gateway";
  shards = pos 2;
  limit = record {
    total = pos 1000;
    remaining = pos 2;
    reset_after = pos 60000;
    max_concurrency = pos 1;
  };
}

abbrev factory : ℕ → ℕ → Made
factory shard_id count = session (shard_id + 100)

abbrev coordinator : Coordinator
coordinator = record {
  total = pos 1000;
  remaining = pos 2;
  reset_window = 60000000000;
  reset_at = 60000000005;
  max_concurrency = 1;
  bucket_ready_at = λ b. 0;
}

abbrev sessions : List Session
sessions =
    record { handle = 100; shard_id = 0; shard_count = 2; gateway = "wss://gateway" }
    ∷ record { handle = 101; shard_id = 1; shard_count = 2; gateway = "wss://gateway" }
    ∷ []

makes_two : new_shard_manager factory true none (response bot) 5 ≡ created coordinator sessions
unfolding new_shard_manager dgo.Identify.new_coordinator
makes_two = refl
