-- ===== src/RateLimit/Keys/Examples.antt =====
-- Routes of a webhook and of a channel, with a hash that is the text itself.
use dgo.Prelude.{◌≡◌, refl, [], ◌∷◌, ◌++◌, none, map}
use dgo.RateLimit.Keys.{mask_id, masked, normalize_rate_limit_path, rest_rate_limit_keys}
use dgo.RateLimit.Keys.Secrets.{secrets_masked}

webhook_route :
    normalize_rate_limit_path "/api/webhooks/12/secret/messages/34/"
    ≡ "/api/webhooks/:id/:token/messages/:id"
unfolding normalize_rate_limit_path dgo.RateLimit.Keys.is_snowflake_segment dgo.RateLimit.Keys.join
webhook_route = refl

empty_route : normalize_rate_limit_path "///" ≡ "/"
unfolding normalize_rate_limit_path dgo.RateLimit.Keys.is_snowflake_segment
empty_route = refl

-- The bucket id leaves the message out; the query is cut off.
channel_keys :
    rest_rate_limit_keys
      (λ url. none)
      (λ text. text)
      "GET"
      "/channels/1/messages/2?limit=3"
      "/channels/1/messages/"
    ≡ ("GET /channels/:id/messages", "channels=1")
unfolding rest_rate_limit_keys dgo.RateLimit.Keys.is_snowflake_segment dgo.RateLimit.Keys.join
channel_keys = refl

secrets_masked_example :
    masked ("api" ∷ "webhooks" ∷ "12" ∷ "secret" ∷ "messages" ∷ "34" ∷ [])
    ≡ map mask_id ("api" ∷ []) ++ "webhooks" ∷ ":id" ∷ ":token" ∷ masked ("messages" ∷ "34" ∷ [])
unfolding mask_id dgo.RateLimit.Keys.is_hook dgo.RateLimit.Keys.is_snowflake_segment
secrets_masked_example =
    secrets_masked ("api" ∷ []) "webhooks" "12" "secret" ("messages" ∷ "34" ∷ []) (refl, tt) refl
      refl refl
