-- ===== src/RateLimit.antt =====
-- The REST rate limiter of ratelimit.go: its buckets and the cache that finds them.
-- Buckets are objects that several keys may share, so they live on a heap under addresses. Times are
-- Unix nanoseconds, and 0 is Go's zero time: the clock reads later than 1970. A setting that the
-- code compares by `<= 0` is a number, its values below zero being 0.
pub mod Table
pub mod Budget
pub mod Circuit
pub mod Lock
pub mod Release
pub mod Keys
use text.Mathlib.Text.{◌==◌ as str_eq}
use Prim.Native.String.{◌++◌ as str_append}
use dgo.Prelude.{
  ℕ, zero, suc, ◌+◌, ◌-◌, ◌*◌, ◌/◌, ◌^◌, String, Bool, true, false, List, [], ◌∷◌, Option, none,
  some, length, ltb, leb, ◌==◌, ◌&&◌, ◌||◌, not, if◌then◌else◌,
}
use dgo.Prelude.Int.{ℤ, pos}
use dgo.Prelude.Assoc.{Assoc, lookup, insert, erase}

abbrev pub second : ℕ
second = 10 ^ 9

-- rateLimitBucketCleanupInterval, one minute
abbrev pub cleanup_interval : ℕ
cleanup_interval = 60 * second

pub record Bucket : Type 0 where
  pub key : String
  pub route_key : String
  pub major_key : String
  pub scope : String
  pub limit : ℤ
  pub remaining : ℤ
  pub reset : ℕ
  pub last_used : ℕ
  pub has_limiter : Bool

pub record RateLimiter : Type 0 where
  pub global : ℕ
  pub buckets : Assoc ℕ
  pub bucket_hashes : Assoc String
  pub bucket_hash_used : Assoc ℕ
  pub global_rate_limit : ℕ
  pub global_rate_window : ℕ
  pub bucket_ttl : ℕ
  pub max_buckets : ℕ
  pub max_bucket_mappings : ℕ
  pub invalid_request_limit : ℕ
  pub invalid_request_warning_threshold : ℕ
  pub invalid_request_window : ℕ
  pub global_window_start : ℕ
  pub global_requests : ℕ
  pub last_cleanup : ℕ
  pub invalid_requests : List ℕ
  pub invalid_warned : Bool
  pub heap : ℕ → Bucket
  pub next_address : ℕ

abbrev pub no_bucket : Bucket
no_bucket = record {
  key = "";
  route_key = "";
  major_key = "";
  scope = "";
  limit = pos 0;
  remaining = pos 0;
  reset = 0;
  last_used = 0;
  has_limiter = false;
}

abbrev pub new_rate_limiter : RateLimiter
new_rate_limiter = record {
  global = 0;
  buckets = [];
  bucket_hashes = [];
  bucket_hash_used = [];
  global_rate_limit = 50;
  global_rate_window = second;
  bucket_ttl = 10 * 60 * second;
  max_buckets = 10000;
  max_bucket_mappings = 20000;
  invalid_request_limit = 10000;
  invalid_request_warning_threshold = 8000;
  invalid_request_window = 10 * 60 * second;
  global_window_start = 0;
  global_requests = 0;
  last_cleanup = 0;
  invalid_requests = [];
  invalid_warned = false;
  heap = λ a. no_bucket;
  next_address = 0;
}

-- Store through a pointer.
abbrev pub store : (ℕ → Bucket) → ℕ → Bucket → ℕ → Bucket
store h a b j = if j == a then b else h j

unfoldable pub touch : RateLimiter → ℕ → ℕ → RateLimiter
touch r a now = record r { heap = store r.heap a (record (r.heap a) { last_used = now }) }

unfoldable pub route_bucket_key : String → String → String
route_bucket_key route_key major_key =
    str_append "route:" (str_append route_key (str_append "|major:" major_key))

unfoldable pub discovered_bucket_key : String → String → String
discovered_bucket_key hash major_key =
    str_append "bucket:" (str_append hash (str_append "|major:" major_key))

-- `delete(r.bucketHashes, k)` and `delete(r.bucketHashUsed, k)`, always together.
abbrev pub forget : RateLimiter → String → RateLimiter
forget r k = record r {
  bucket_hashes = erase k r.bucket_hashes;
  bucket_hash_used = erase k r.bucket_hash_used;
}

-- The loop of `removeDanglingBucketHashesLocked` over the entries that `range` meets.
remove_dangling_loop : Assoc String → RateLimiter → RateLimiter
remove_dangling_loop [] r = r
remove_dangling_loop ((route_key, bucket_key) ∷ rest) r =
    remove_dangling_loop rest
      (elim (lookup bucket_key r.buckets) [ some a ↦ r | none ↦ forget r route_key ])

unfoldable pub remove_dangling : RateLimiter → RateLimiter
unfolding remove_dangling_loop
remove_dangling r = remove_dangling_loop r.bucket_hashes r

-- `used < cutoff` is `used + ttl < now`.
abbrev pub is_stale : ℕ → ℕ → ℕ → Bool
is_stale ttl now used = ltb (used + ttl) now

unfoldable pub drop_stale_buckets : (ℕ → Bucket) → ℕ → ℕ → Assoc ℕ → Assoc ℕ
drop_stale_buckets heap ttl now [] = []
drop_stale_buckets heap ttl now ((key, a) ∷ rest) =
    let kept = drop_stale_buckets heap ttl now rest in
    if is_stale ttl now (heap a).last_used then kept else (key, a) ∷ kept

pub drop_stale_hashes : ℕ → ℕ → Assoc ℕ → RateLimiter → RateLimiter
drop_stale_hashes ttl now [] r = r
drop_stale_hashes ttl now ((route_key, used) ∷ rest) r =
    drop_stale_hashes ttl now rest (if is_stale ttl now used then forget r route_key else r)

abbrev pub cleanup_every : RateLimiter → ℕ
cleanup_every r =
    let half = r.bucket_ttl / 2 in
    if ltb 0 half && ltb half cleanup_interval then half else cleanup_interval

-- A cleanup that is due.
unfoldable pub sweep : RateLimiter → ℕ → RateLimiter
unfolding drop_stale_buckets drop_stale_hashes remove_dangling
sweep r now =
    let swept = record r {
      last_cleanup = now;
      buckets = drop_stale_buckets r.heap r.bucket_ttl now r.buckets;
    } in
    remove_dangling (drop_stale_hashes r.bucket_ttl now swept.bucket_hash_used swept)

unfoldable pub cleanup_buckets : RateLimiter → ℕ → RateLimiter
unfolding sweep
cleanup_buckets r now =
    if r.bucket_ttl == 0
    then r
    else if not (r.last_cleanup == 0) && ltb (now - r.last_cleanup) (cleanup_every r)
    then r
    else sweep r now

-- The oldest entry so far, "" standing for none, as in the code.
unfoldable pub oldest : (ℕ → ℕ) → Assoc ℕ → String → ℕ → String
oldest used_of [] key used = key
oldest used_of ((k, v) ∷ rest) key used =
    let older = str_eq key "" || ltb (used_of v) used in
    oldest used_of rest (if older then k else key) (if older then used_of v else used)

-- One round drops one entry, so that as many rounds as there are entries are enough.
unfoldable pub make_room_loop : ℕ → ℕ → RateLimiter → RateLimiter
make_room_loop zero extra r = r
make_room_loop (suc rounds) extra r =
    let victim = oldest (λ a. (r.heap a).last_used) r.buckets "" 0 in
    let rest = make_room_loop rounds extra (record r { buckets = erase victim r.buckets }) in
    if leb (length r.buckets + extra) r.max_buckets then r else if str_eq victim "" then r else rest

unfoldable pub make_bucket_room : RateLimiter → ℕ → RateLimiter
unfolding make_room_loop remove_dangling
make_bucket_room r extra =
    if r.max_buckets == 0 then r else remove_dangling (make_room_loop (length r.buckets) extra r)

unfoldable pub mapping_room_loop : ℕ → RateLimiter → RateLimiter
mapping_room_loop zero r = r
mapping_room_loop (suc rounds) r =
    let victim = oldest (λ used. used) r.bucket_hash_used "" 0 in
    let rest = mapping_room_loop rounds (forget r victim) in
    if ltb (length r.bucket_hashes) r.max_bucket_mappings
    then r
    else if str_eq victim ""
    then r
    else rest

unfoldable pub mapping_room : RateLimiter → String → RateLimiter
unfolding mapping_room_loop
mapping_room r route_key = elim (lookup route_key r.bucket_hashes) [
  | some t ↦ r
  | none ↦
      if r.max_bucket_mappings == 0
      then r
      else mapping_room_loop (suc (length r.bucket_hash_used)) r
]

abbrev pub map_key : RateLimiter → String → String → ℕ → RateLimiter
map_key r route_key bucket_key now = record r {
  bucket_hashes = insert route_key bucket_key r.bucket_hashes;
  bucket_hash_used = insert route_key now r.bucket_hash_used;
}

unfoldable pub set_bucket_hash : RateLimiter → String → String → ℕ → RateLimiter
unfolding mapping_room
set_bucket_hash r route_key bucket_key now =
    map_key (mapping_room r route_key) route_key bucket_key now

-- A new bucket on the heap.
new_bucket : RateLimiter → String → String → String → ℕ → RateLimiter × ℕ
new_bucket r key route_key major_key now =
    let a = r.next_address in
    (
      record r {
        heap = store r.heap a (record no_bucket {
          key = key;
          route_key = route_key;
          major_key = major_key;
          remaining = pos 1;
          last_used = now;
          has_limiter = true;
        });
        next_address = suc a;
        buckets = insert key a r.buckets;
      },
      a,
    )

-- The part of `getBucket` behind the mapping.
unfoldable pub find_or_create : RateLimiter → String → String → String → ℕ → RateLimiter × ℕ
unfolding new_bucket make_bucket_room touch
find_or_create r key route_key major_key now = elim (lookup key r.buckets) [
  | some a ↦ (touch r a now, a)
  | none ↦ new_bucket (make_bucket_room r 1) key route_key major_key now
]

-- `getBucket` once it has found a mapping of the key to `target`.
follow_mapping : RateLimiter → String → String → String → ℕ → String → RateLimiter × ℕ
unfolding find_or_create touch
follow_mapping r key route_key major_key now target = elim (lookup target r.buckets) [
  | some a ↦ (touch (record r { bucket_hash_used = insert key now r.bucket_hash_used }) a now, a)
  | none ↦ find_or_create (forget r key) key route_key major_key now
]

unfoldable pub get_bucket : RateLimiter → String → String → String → ℕ → RateLimiter × ℕ
unfolding cleanup_buckets find_or_create follow_mapping
get_bucket r0 key route_key major_key now =
    let r = cleanup_buckets r0 now in
    elim (lookup key r.bucket_hashes) [
      | some target ↦ follow_mapping r key route_key major_key now target
      | none ↦ find_or_create r key route_key major_key now
    ]

unfoldable pub get_route_bucket : RateLimiter → String → String → ℕ → RateLimiter × ℕ
unfolding get_bucket route_bucket_key
get_route_bucket r route_key major_key now =
    get_bucket r (route_bucket_key route_key major_key) route_key major_key now

abbrev pub origin_of : Bucket → String
origin_of b = if str_eq b.route_key "" then b.key else route_bucket_key b.route_key b.major_key

-- `delete(r.buckets, origin)` if the entry is this very bucket.
unfoldable pub detach : Assoc ℕ → String → ℕ → Assoc ℕ
detach buckets origin a = elim (lookup origin buckets) [
  | none ↦ buckets
  | some current ↦ if current == a then erase origin buckets else buckets
]

unfoldable pub register_bucket_hash : RateLimiter → ℕ → String → ℕ → RateLimiter × ℕ
unfolding cleanup_buckets set_bucket_hash make_bucket_room detach touch
register_bucket_hash r0 a hash now =
    let origin = origin_of (r0.heap a) in
    let target = discovered_bucket_key hash (r0.heap a).major_key in
    let r = cleanup_buckets r0 now in
    elim (lookup target r.buckets) [
      | some existing ↦
          let mapped_to = touch (set_bucket_hash r origin target now) existing now in
          (
            if existing == a
                then mapped_to
                else record mapped_to { buckets = detach mapped_to.buckets origin a },
            existing,
          )
      | none ↦
          let roomy = make_bucket_room (record r { buckets = detach r.buckets origin a }) 1 in
          (
            set_bucket_hash (record roomy { buckets = insert target a roomy.buckets }) origin target
                now,
            a,
          )
    ]
