-- ===== src/RateLimit/Table/Bounds.antt =====
-- The caches stay within their bounds.
use text.Mathlib.Text.{◌==◌ as str_eq}
use text.Mathlib.TextEquality.{eq_iff}
use dgo.Prelude.{
  ℕ, zero, suc, ◌+◌, ◌<◌, ◌≤◌, ◌≡◌, refl, String, true, false, [], ◌∷◌, Option, none, some, arith,
  length, leb, ltb, ◌==◌, Bool-cases, Option-cases, inl, inr,
}
use dgo.Prelude.Assoc.{Assoc, lookup, erase, length-erase_lt, length-insert, length-insert_old}
use dgo.RateLimit.Table.{cleanup-keeps, make_room_loop-keeps, remove_dangling-keeps}
use dgo.RateLimit.Table.Mappings.{has, SameKeys, Paired, forget_keeps}
use dgo.RateLimit.Table.Eviction.{
  Named, erase-Named, insert-Named, drop_stale-Named, oldest-Least, oldest-Named, lookup-In,
  buckets-remove_dangling, last_used,
}
use dgo.RateLimit.{
  RateLimiter, Bucket, drop_stale_buckets, cleanup_buckets, make_room_loop, make_bucket_room,
  mapping_room_loop, mapping_room, set_bucket_hash, forget, find_or_create, follow_mapping,
  get_bucket, oldest,
}

length-drop_stale :
    (heap : ℕ → Bucket) (ttl now : ℕ) (m : Assoc ℕ)
    → length (drop_stale_buckets heap ttl now m) ≤ length m
unfolding drop_stale_buckets
length-drop_stale heap ttl now [] = omega arith
length-drop_stale heap ttl now ((k, a) ∷ m) = ground (arith, length-drop_stale heap ttl now m)

-- Where no key is empty, the entry that is evicted is there.
victim_there :
    (used_of : ℕ → ℕ) (m : Assoc ℕ)
    → Named m
    → 0 < length m
    → (str_eq (oldest used_of m "" 0) "" ≡ false)
      × (length (erase (oldest used_of m "" 0) m) < length m)
victim_there used_of [] h l = elim l [ ]
victim_there used_of ((k, v) ∷ m) h l =
    let found = oldest-Least used_of k v m h in
    let (w, there) =
      lookup-In (oldest used_of ((k, v) ∷ m) "" 0) found.value ((k, v) ∷ m) found.member in
    (
      unfold oldest in oldest-Named used_of m k (used_of v) h.0 h.1,
      length-erase_lt (oldest used_of ((k, v) ∷ m) "" 0) w ((k, v) ∷ m) there,
    )

make_room_loop_bound :
    (rounds extra : ℕ) (r : RateLimiter)
    → Named r.buckets
    → length r.buckets ≤ rounds
    → extra ≤ r.max_buckets
    → length (make_room_loop rounds extra r).buckets + extra ≤ r.max_buckets
unfolding make_room_loop
make_room_loop_bound zero extra r h l e = omega arith
make_room_loop_bound (suc rounds) extra r h l e =
    let victim : String = oldest (last_used r) r.buckets "" 0 in
    elim (Bool-cases (leb (length r.buckets + extra) r.max_buckets)) [
      | inl room ↦ rw (room, make_room_loop) (ground arith)
      | inr full ↦
          let (named, smaller) = victim_there (last_used r) r.buckets h (ground arith) in
          rw (full, make_room_loop, named)
            (make_room_loop_bound rounds extra (record r { buckets = erase victim r.buckets })
              (erase-Named victim r.buckets h) (omega arith) e)
    ]

-- The table of a limiter with `m` buckets at most, none of them under the empty key.
pub record Bounded (m : ℕ) (r : RateLimiter) : Type 0 where
  pub setting : r.max_buckets ≡ m
  pub within : length r.buckets ≤ m
  pub named : Named r.buckets

cleanup-Bounded :
    (m : ℕ) (r : RateLimiter) (now : ℕ) → Bounded m r → Bounded m (cleanup_buckets r now)
cleanup-Bounded m =
    cleanup-keeps (Bounded m)
      (λ r k v. record { setting = v.setting; within = v.within; named = v.named })
      (λ r now v. record {
        setting = v.setting;
        within = omega (arith, length-drop_stale r.heap r.bucket_ttl now r.buckets, v.within);
        named = drop_stale-Named r.heap r.bucket_ttl now r.buckets v.named;
      })

-- Room for one more.
pub record Roomy (m : ℕ) (r : RateLimiter) : Type 0 where
  pub setting : r.max_buckets ≡ m
  pub room : length r.buckets + 1 ≤ m
  pub named : Named r.buckets

make_bucket_room-Roomy :
    (m : ℕ) (r : RateLimiter) → 0 < m → Bounded m r → Roomy m (make_bucket_room r 1)
unfolding make_bucket_room
make_bucket_room-Roomy m r pos_m v =
    let on : (r.max_buckets == 0) ≡ false = let e = v.setting in ground arith in
    let looped : RateLimiter = make_room_loop (length r.buckets) 1 r in
    let setting = make_room_setting (length r.buckets) r v.setting in
    let named = make_room_named (length r.buckets) r v.named in
    let bound =
      make_room_loop_bound (length r.buckets) 1 r v.named (omega arith)
        (let e = v.setting in omega arith) in
    rw on (record {
      setting = remove_dangling-keeps (λ q. q.max_buckets ≡ m) (λ q k h. h) looped setting;
      room = rw (buckets-remove_dangling looped) (let e = v.setting in omega arith);
      named = rw (buckets-remove_dangling looped) named;
    })
  where
    make_room_setting :
        (n : ℕ) (q : RateLimiter) → q.max_buckets ≡ m → (make_room_loop n 1 q).max_buckets ≡ m
    make_room_setting n q h =
        make_room_loop-keeps (λ p. p.max_buckets ≡ m) (λ p k g. g) (λ p k g. g) n 1 q h

    make_room_named :
        (n : ℕ) (q : RateLimiter) → Named q.buckets → Named (make_room_loop n 1 q).buckets
    make_room_named n q h =
        make_room_loop-keeps (λ p. Named p.buckets) (λ p k g. g)
          (λ p k g. erase-Named k p.buckets g) n 1 q h

find_or_create-Bounded :
    (m : ℕ) (r : RateLimiter) (key route major : String) (now : ℕ)
    → 0 < m
    → str_eq key "" ≡ false
    → Bounded m r
    → Bounded m (find_or_create r key route major now).0
unfolding find_or_create
find_or_create-Bounded m r key route major now pos_m e v =
    elim (Option-cases (lookup key r.buckets)) [
      | inr (a, there) ↦
          rw (there, find_or_create)
            (record { setting = v.setting; within = v.within; named = v.named })
      | inl gone ↦
          let roomy = make_bucket_room-Roomy m r pos_m v in
          let q : RateLimiter = make_bucket_room r 1 in
          rw (gone, find_or_create)
            (record {
              setting = roomy.setting;
              within = omega (arith, length-insert key q.next_address q.buckets, roomy.room);
              named = insert-Named key q.next_address q.buckets e roomy.named;
            })
    ]

-- Finding or making a bucket under a key that is not empty keeps a table without an empty key
-- within its bound, when the bound is positive: where a new bucket would pass it, old ones are
-- evicted first.
pub get_bucket-Bounded :
    (m : ℕ) (r : RateLimiter) (key route major : String) (now : ℕ)
    → 0 < m
    → str_eq key "" ≡ false
    → Bounded m r
    → Bounded m (get_bucket r key route major now).0
unfolding get_bucket follow_mapping
get_bucket-Bounded m r key route major now pos_m e v0 =
    let clean : RateLimiter = cleanup_buckets r now in
    let v = cleanup-Bounded m r now v0 in
    elim (Option-cases (lookup key clean.bucket_hashes)) [
      | inl unmapped ↦
          rw (unmapped, get_bucket) (find_or_create-Bounded m clean key route major now pos_m e v)
      | inr (target, mapped) ↦ elim (Option-cases (lookup target clean.buckets)) [
        | inr (a, there) ↦
            rw (mapped, get_bucket, there, follow_mapping)
              (record { setting = v.setting; within = v.within; named = v.named })
        | inl gone ↦
            rw (mapped, get_bucket, gone, follow_mapping)
              (find_or_create-Bounded m (forget clean key) key route major now pos_m e
                (record { setting = v.setting; within = v.within; named = v.named }))
      ]
    ]

-- Mappings: both maps hold the same keys, so that evicting by the times of use frees a mapping.
empty_hashes : (h : Assoc String) → SameKeys h [] → length h ≡ 0
unfolding lookup
empty_hashes [] s = refl
empty_hashes ((k, t) ∷ h) s = absurd (let e = s k in ground (arith, eq_iff k k))

has-some : {V : Type 0} (o : Option V) → has o ≡ true → (v : V) × (o ≡ some v)
has-some none h = absurd (cc h)
has-some (some v) h = (v, refl)

mapping_room_loop_bound :
    (rounds : ℕ) (r : RateLimiter)
    → Paired r
    → Named r.bucket_hash_used
    → length r.bucket_hash_used < rounds
    → 0 < r.max_bucket_mappings
    → length (mapping_room_loop rounds r).bucket_hashes < r.max_bucket_mappings
unfolding mapping_room_loop
mapping_room_loop_bound zero r s h l pos_m = absurd (omega arith)
mapping_room_loop_bound (suc rounds) r s h l pos_m =
    let victim : String = oldest (λ used. used) r.bucket_hash_used "" 0 in
    elim (Bool-cases (ltb (length r.bucket_hashes) r.max_bucket_mappings)) [
      | inl room ↦ rw (room, mapping_room_loop) (ground arith)
      | inr full ↦
          let some_used = used_pos r.bucket_hashes r.bucket_hash_used s (ground arith) in
          let (named, smaller) = victim_there (λ used. used) r.bucket_hash_used h some_used in
          rw (full, mapping_room_loop, named)
            (mapping_room_loop_bound rounds (forget r victim) (forget_keeps r victim s)
              (erase-Named victim r.bucket_hash_used h) (omega arith) pos_m)
    ]
  where
    used_pos : (hs : Assoc String) (u : Assoc ℕ) → SameKeys hs u → 0 < length hs → 0 < length u
    used_pos hs [] e p = let z = empty_hashes hs e in absurd (omega arith)
    used_pos hs (x ∷ u) e p = omega arith

-- Recording the bucket of a route keeps the number of mappings within its bound, when the bound is
-- positive, each mapping has a time of last use, and no recorded route is the empty key.
pub set_bucket_hash_bound :
    (r : RateLimiter) (route target : String) (now : ℕ)
    → Paired r
    → Named r.bucket_hash_used
    → 0 < r.max_bucket_mappings
    → length r.bucket_hashes ≤ r.max_bucket_mappings
    → length (set_bucket_hash r route target now).bucket_hashes ≤ r.max_bucket_mappings
unfolding set_bucket_hash mapping_room
set_bucket_hash_bound r route target now s h pos_m l =
    let on : (r.max_bucket_mappings == 0) ≡ false = ground arith in
    elim (Option-cases (lookup route r.bucket_hashes)) [
      | inr (t, there) ↦
          rw (there, mapping_room) (rw (length-insert_old route target t r.bucket_hashes there) l)
      | inl gone ↦
          let rounds : ℕ = suc (length r.bucket_hash_used) in
          let bound = mapping_room_loop_bound rounds r s h (omega arith) pos_m in
          let grown = length-insert route target (mapping_room_loop rounds r).bucket_hashes in
          rw (gone, mapping_room, on) (omega arith)
    ]
