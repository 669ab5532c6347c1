-- ===== src/MembersRequest/Examples.antt =====
-- Two guilds and the cooldown of one.
use dgo.Prelude.{
  ℕ, ◌+◌, ◌-◌, ◌<◌, ◌≡◌, ◌≢◌, refl, String, true, List, [], ◌∷◌, Option, none, some, arith,
}
use dgo.Prelude.Int.{pos}
use dgo.Prelude.Assoc.{Assoc}
use dgo.MembersRequest.{
  RequestData, rate_limited, write_failed, reserve, validate, requests_all, request_guild_members,
}
use dgo.MembersRequest.Cooldown.{reserving, releasing, enter_all, cooldown_holds}

abbrev all_of : String → RequestData
all_of id = record {
  guild_id = id;
  query = some "";
  user_ids = none;
  limit = pos 0;
  nonce = "";
  presences = true;
}

-- The request is not written, so that its reservation is released.
failed_write :
    request_guild_members true true (λ m. m) [] (all_of "1") 50 (some 7)
    ≡ ([], some (write_failed 7))
unfolding request_guild_members validate requests_all
failed_write = refl

cooldown_holds_example :
    let later : Assoc ℕ =
      enter_all
        (reserve [] "1" 50).0
        (reserving "2" 60 ∷ releasing "1" 40 ∷ reserving "1" 70 ∷ []) in
    reserve later "1" 1000000050 ≡ (later, some (rate_limited 29000000000))
unfolding reserve dgo.Prelude.Assoc.lookup
cooldown_holds_example =
    cooldown_holds [] "1" 50 1000000050
      (reserving "2" 60 ∷ releasing "1" 40 ∷ reserving "1" 70 ∷ []) refl
      (omega arith, ((λ e. omega (arith, e)), (omega arith, tt))) (omega arith)
