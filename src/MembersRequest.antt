-- ===== src/MembersRequest.antt =====
-- Requests for the members of a guild, wsapi.go: `requestGuildMembers`, its checks, and the cooldown of
-- requests for all members. Times are nanoseconds, and the clock reads later than 1970; an absent map is empty.
pub mod Cooldown
mod Examples
use Prim.Native.String.{len}
use text.Mathlib.Text.{◌==◌ as str_eq}
use dgo.Prelude.{
  ℕ, ◌+◌, ◌-◌, ◌*◌, ◌^◌, String, Bool, true, false, List, [], ◌∷◌, Option, none, some, length, ltb,
  leb, ◌==◌, ◌&&◌, ◌||◌, not, if◌then◌else◌,
}
use dgo.Prelude.Int.{ℤ, pos, ltb_ℤ, eqb_ℤ}
use dgo.Prelude.Assoc.{Assoc, lookup, insert, erase}

pub record RequestData : Type 0 where
  pub guild_id : String
  pub query : Option String
  pub user_ids : Option (List String)
  pub limit : ℤ
  pub nonce : String
  pub presences : Bool

-- The error of the socket is a number.
pub data RequestError : Type 0 where
  no_guild_id query_or_users bad_limit long_nonce bad_user_count empty_user_id needs_presences
        needs_members :
      RequestError
  rate_limited : ℕ → RequestError
  write_failed : ℕ → RequestError

abbrev pub cooldown : ℕ
cooldown = 30 * 10 ^ 9

abbrev is_none : {A : Type 0} → Option A → Bool
is_none none = true
is_none (some a) = false

any_empty : List String → Bool
any_empty [] = false
any_empty (u ∷ us) = str_eq u "" || any_empty us

user_error : Option (List String) → Option RequestError
unfolding any_empty
user_error none = none
user_error (some users) =
    if (length users == 0) || ltb 100 (length users)
    then some bad_user_count
    else if any_empty users
    then some empty_user_id
    else none

unfoldable pub requests_all : RequestData → Bool
requests_all d = elim d.query [ none ↦ false | some q ↦ str_eq q "" && eqb_ℤ d.limit (pos 0) ]

-- The flags are the intents GUILD_PRESENCES and GUILD_MEMBERS.
unfoldable pub intent_error : Bool → Bool → RequestData → Option RequestError
unfolding requests_all
intent_error guild_presences guild_members d =
    if d.presences && not guild_presences
    then some needs_presences
    else if requests_all d && not guild_members
    then some needs_members
    else none

abbrev or_else : Option RequestError → Option RequestError → Option RequestError
or_else (some e) next = some e
or_else none next = next

unfoldable pub validate : Bool → Bool → RequestData → Option RequestError
unfolding user_error intent_error
validate guild_presences guild_members d =
    if str_eq d.guild_id ""
    then some no_guild_id
    else if (is_none d.query && is_none d.user_ids)
        || (not (is_none d.query) && not (is_none d.user_ids))
    then some query_or_users
    else if ltb_ℤ d.limit (pos 0) || ltb_ℤ (pos 100) d.limit
    then some bad_limit
    else if ltb 32 (len d.nonce)
    then some long_nonce
    else or_else (user_error d.user_ids) (intent_error guild_presences guild_members d)

-- The entries that are younger than the cooldown.
unfoldable pub drop_expired : ℕ → Assoc ℕ → Assoc ℕ
drop_expired now [] = []
drop_expired now ((id, requested_at) ∷ rest) =
    let kept = drop_expired now rest in
    if leb (requested_at + cooldown) now then kept else (id, requested_at) ∷ kept

-- `cooldown - now.Sub(last)`, where it is positive.
abbrev pub retry_after : Option ℕ → ℕ → ℕ
retry_after none now = 0
retry_after (some last) now = cooldown + last - now

-- The reservation is the time, or there is an error.
unfoldable pub reserve : Assoc ℕ → String → ℕ → Assoc ℕ × Option RequestError
unfolding drop_expired lookup insert
reserve requests id now =
    let wait = retry_after (lookup id requests) now in
    if ltb 0 wait
    then (requests, some (rate_limited wait))
    else (insert id now (drop_expired now requests), none)

unfoldable pub release : Assoc ℕ → String → ℕ → Assoc ℕ
unfolding lookup erase
release requests id reservation = elim (lookup id requests) [
  | none ↦ requests
  | some last ↦ if last == reservation then erase id requests else requests
]

after_write : Assoc ℕ → String → ℕ → Option ℕ → Assoc ℕ × Option RequestError
unfolding release
after_write requests id now none = (requests, none)
after_write requests id now (some e) = (release requests id now, some (write_failed e))

after_reserve :
    (Assoc ℕ → Assoc ℕ)
    → String
    → ℕ
    → Option ℕ
    → Assoc ℕ × Option RequestError
    → Assoc ℕ × Option RequestError
unfolding after_write
after_reserve others id now written (requests, some e) = (requests, some e)
after_reserve others id now written (requests, none) = after_write (others requests) id now written

-- Without the checks. `others` is what other goroutines do to the map while the request is written.
send : (Assoc ℕ → Assoc ℕ) → Assoc ℕ → RequestData → ℕ → Option ℕ → Assoc ℕ × Option RequestError
unfolding requests_all reserve after_reserve
send others requests d now written =
    if requests_all d
    then after_reserve others d.guild_id now written (reserve requests d.guild_id now)
    else (others requests, elim written [ none ↦ none | some e ↦ some (write_failed e) ])

unfoldable pub request_guild_members :
    Bool
    → Bool
    → (Assoc ℕ → Assoc ℕ)
    → Assoc ℕ
    → RequestData
    → ℕ
    → Option ℕ
    → Assoc ℕ × Option RequestError
unfolding validate send
request_guild_members guild_presences guild_members others requests d now written =
    elim (validate guild_presences guild_members d) [
      | some e ↦ (requests, some e)
      | none ↦ send others requests d now written
    ]
