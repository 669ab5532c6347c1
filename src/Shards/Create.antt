-- ===== src/Shards/Create.antt =====
-- Construction of a shard manager, `NewShardManagerWithConfig` of sharding.go, and the accessors
-- `Sessions` and `Session`. The REST answer of Get Gateway Bot and the session factory are arguments; a
-- session is what the constructor writes into it, with the handle that the factory returned.
mod Shape
mod Examples
use dgo.Prelude.{
  ℕ, zero, suc, ◌+◌, String, Bool, true, false, List, [], ◌∷◌, ◌++◌, Option, none, some, ltb, leb,
  length, if◌then◌else◌, get_elem?, ◌⊎◌, inl, inr, map,
}
use text.Mathlib.Text.{◌==◌ as str_eq}
use dgo.Prelude.Int.{ℤ, pos, pos_part, leb_ℤ, ltb_ℤ}
use dgo.Identify.{SessionInformation, Coordinator, LimitError, new_coordinator}

pub record GatewayBot : Type 0 where
  pub url : String
  pub shards : ℤ
  pub limit : SessionInformation

pub record Session : Type 0 where
  pub handle : ℕ
  pub shard_id : ℕ
  pub shard_count : ℕ
  pub gateway : String

-- What the factory returns for a shard.
pub data Made : Type 0 where
  session : ℕ → Made
  factory_error : ℕ → Made
  nil_session : Made

pub data CreateError : Type 0 where
  nil_context : CreateError
  context_error rest_error : ℕ → CreateError
  empty_url : CreateError
  bad_shard_count : ℤ → CreateError
  bad_limit : LimitError → CreateError
  create_failed : ℕ → ℕ → CreateError
  create_nil : ℕ → CreateError

-- The manager's sessions and its coordinator, or the error and the sessions that were closed.
pub data Created : Type 0 where
  created : Coordinator → List Session → Created
  failed : CreateError → List Session → Created

unfoldable pub assign : ℕ → ℕ → ℕ → String → Session
assign handle shard_id shard_count url = record {
  handle = handle;
  shard_id = shard_id;
  shard_count = shard_count;
  gateway = url;
}

module _ (factory : ℕ → ℕ → Made) (count : ℕ) (url : String) (coordinator : Coordinator) where
  -- `range gateway.Shards` from `shard_id` on; `left` shards are still to come.
  create_loop : ℕ → ℕ → List Session → Created
  unfolding assign
  create_loop zero shard_id sessions = created coordinator sessions
  create_loop (suc left) shard_id sessions = elim (factory shard_id count) [
    | session handle ↦
        create_loop left (suc shard_id) (sessions ++ assign handle shard_id count url ∷ [])
    | factory_error e ↦ failed (create_failed shard_id e) sessions
    | nil_session ↦ failed (create_nil shard_id) sessions
  ]

create_all : (ℕ → ℕ → Made) → GatewayBot → Coordinator ⊎ LimitError → Created
unfolding create_loop
create_all factory bot (inr e) = failed (bad_limit e) []
create_all factory bot (inl coordinator) =
    create_loop factory (pos_part bot.shards) bot.url coordinator (pos_part bot.shards) 0 []

-- The answer of Get Gateway Bot: an error, nil, or a response.
pub data Answer : Type 0 where
  rest_failed : ℕ → Answer
  nil_response : Answer
  response : GatewayBot → Answer

use_answer : (ℕ → ℕ → Made) → Answer → ℕ → Created
unfolding create_all new_coordinator
use_answer factory (rest_failed e) now = failed (rest_error e) []
use_answer factory nil_response now = failed empty_url []
use_answer factory (response bot) now =
    if str_eq bot.url ""
    then failed empty_url []
    else if leb_ℤ bot.shards (pos 0)
    then failed (bad_shard_count bot.shards) []
    else create_all factory bot (new_coordinator true bot.limit now)

unfoldable pub new_shard_manager : (ℕ → ℕ → Made) → Bool → Option ℕ → Answer → ℕ → Created
unfolding use_answer
new_shard_manager factory has_context (some e) answer now =
    if has_context then failed (context_error e) [] else failed nil_context []
new_shard_manager factory has_context none answer now =
    if has_context then use_answer factory answer now else failed nil_context []

-- `Session(shardID)`: none is `nil, false`.
unfoldable pub session_of : List Session → ℤ → Option Session
session_of sessions shard_id =
    if ltb_ℤ shard_id (pos 0)
    then none
    else if leb (length sessions) (pos_part shard_id)
    then none
    else get_elem? sessions (pos_part shard_id)
