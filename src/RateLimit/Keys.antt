-- ===== src/RateLimit/Keys.antt =====
-- The keys of a REST request, ratelimit.go: `restRateLimitKeys` and the functions that it calls. The path
-- that `url.Parse` finds, nothing standing for an error, and the SHA-256 in hexadecimal digits are parameters.
-- The method is given in upper case.
pub mod Secrets
mod Examples
use Prim.Native.Char.{Char, code}
use Prim.Native.String.{String, [], ◌∷◌, ◌++◌ as str_append}
use text.Mathlib.Text.{◌==◌ as str_eq}
use dgo.Prelude.{
  ℕ, Bool, true, false, List, [], ◌∷◌, ◌++◌, Option, none, some, map, get_or, leb, ◌==◌, ◌&&◌, ◌||◌,
  not, if◌then◌else◌,
}

-- The character '/', or '?', by its code.
abbrev pub is_char : ℕ → Char → Bool
is_char n ch = code ch == n

trim_left : String → String
trim_left [] = []
trim_left (ch ∷ s) = let rest = trim_left s in if is_char 47 ch then rest else ch ∷ s

trim_right : String → String
trim_right [] = []
trim_right (ch ∷ s) =
    let rest = trim_right s in if str_eq rest "" && is_char 47 ch then "" else ch ∷ rest

abbrev snoc : String → Char → String
snoc s ch = str_append s (ch ∷ [])

split_from : String → String → List String
split_from cur [] = cur ∷ []
split_from cur (ch ∷ s) =
    let closed : List String = cur ∷ split_from "" s in
    let longer : List String = split_from (snoc cur ch) s in
    if is_char 47 ch then closed else longer

-- `strings.Split(strings.Trim(path, "/"), "/")`
unfoldable pub segments_of : String → List String
unfolding trim_left trim_right split_from
segments_of path = split_from "" (trim_right (trim_left path))

unfoldable pub join : String → List String → String
join sep [] = ""
join sep (s ∷ []) = s
join sep (s ∷ t ∷ rest) = str_append s (str_append sep (join sep (t ∷ rest)))

all_digits : String → Bool
all_digits [] = true
all_digits (ch ∷ s) = leb 48 (code ch) && (leb (code ch) 57 && all_digits s)

unfoldable pub is_snowflake_segment : String → Bool
unfolding all_digits
is_snowflake_segment value = not (str_eq value "") && all_digits value

unfoldable pub mask_id : String → String
mask_id segment = if is_snowflake_segment segment then ":id" else segment

unfoldable pub is_hook : String → Bool
is_hook segment = str_eq segment "webhooks" || str_eq segment "interactions"

-- A segment that an earlier round of the loop has written, unless it is empty.
unfoldable pub written : Option String → String → String
written none segment = segment
written (some name) segment = if str_eq segment "" then segment else name

-- The loop over the segments, with what it has written to the next two.
unfoldable pub mask_loop : Option String → Option String → List String → List String
unfolding written is_hook
mask_loop next after [] = []
mask_loop next after (segment ∷ rest) =
    let now = written next segment in
    let hooked = mask_loop (some ":id") (some ":token") rest in
    let plain = mask_loop after none rest in now ∷ (if is_hook now then hooked else plain)

unfoldable pub masked : List String → List String
unfolding mask_loop mask_id
masked segments = mask_loop none none (map mask_id segments)

unfoldable pub path_of : List String → String
path_of [] = "/"
path_of (s ∷ []) = if str_eq s "" then "/" else str_append "/" s
path_of (s ∷ t ∷ rest) = str_append "/" (join "/" (s ∷ t ∷ rest))

unfoldable pub normalize_rate_limit_path : String → String
unfolding segments_of masked path_of
normalize_rate_limit_path path = path_of (masked (segments_of path))

abbrev pub named : String → String → String → List String
named segment sep value =
    if str_eq value "" then [] else str_append segment (str_append sep value) ∷ []

-- What a segment adds to the major parameters, with the two that follow it.
unfoldable pub major_at : String → String → String → List String
unfolding is_hook
major_at segment next after =
    if str_eq segment "channels" || str_eq segment "guilds"
    then named segment "=" next
    else if is_hook segment
    then named segment "=" next ++ named segment "_token=" after
    else []

unfoldable pub major_loop : List String → List String
unfolding major_at
major_loop [] = []
major_loop (segment ∷ rest) =
    major_at segment (get_or rest 0 "") (get_or rest 1 "") ++ major_loop rest

abbrev pub or_none : List String → List String
or_none [] = "none" ∷ []
or_none (m ∷ ms) = m ∷ ms

before_query : String → String
before_query [] = []
before_query (ch ∷ s) = let rest = before_query s in if is_char 63 ch then "" else ch ∷ rest

module _ (url_path : String → Option String) (sha256_hex : String → String) where
  unfoldable pub hash_major_parameters : String → String
  unfolding major_loop segments_of
  hash_major_parameters path = sha256_hex (join "\0" (or_none (major_loop (segments_of path))))

  unfoldable pub rate_limit_path : String → String
  unfolding before_query
  rate_limit_path value = elim (url_path value) [
    | none ↦ before_query value
    | some path ↦ if str_eq path "" then before_query value else path
  ]

  -- The route key and the major key.
  unfoldable pub rest_rate_limit_keys : String → String → String → String × String
  unfolding normalize_rate_limit_path hash_major_parameters rate_limit_path
  rest_rate_limit_keys method raw_url bucket_id =
      let id = if str_eq bucket_id "" then raw_url else bucket_id in
      (
        str_append method (str_append " " (normalize_rate_limit_path (rate_limit_path id))),
        hash_major_parameters (rate_limit_path raw_url),
      )
