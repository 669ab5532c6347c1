-- ===== src/RateLimit/Table/Mappings.antt =====
-- A mapping and the time of its last use are there together.
use text.Mathlib.TextEquality.{eq_iff}
use dgo.Prelude.{
  ℕ, ◌≡◌, String, Bool, true, false, Option, none, some, arith, ◌==◌, Bool-cases, Option-cases, inl,
  inr,
}
use dgo.Prelude.Assoc.{Assoc, lookup, insert, erase, lookup-insert, lookup-erase}
use dgo.RateLimit.Table.{cleanup-keeps, make_bucket_room-keeps, mapping_room-keeps}
use dgo.RateLimit.{
  forget, RateLimiter, cleanup_buckets, make_bucket_room, set_bucket_hash, find_or_create,
  follow_mapping, get_bucket, register_bucket_hash, discovered_bucket_key, origin_of, detach,
}

abbrev pub has {ℓ} : {V : Type ℓ} → Option V → Bool
has none = false
has (some v) = true

-- Every key that has a bucket mapping has a time of last use, and the other way round.
abbrev pub SameKeys : Assoc String → Assoc ℕ → Type 0
SameKeys hashes used = (k : String) → has (lookup k hashes) ≡ has (lookup k used)

abbrev pub Paired : RateLimiter → Type 0
Paired r = SameKeys r.bucket_hashes r.bucket_hash_used

pub SameKeys-erase :
    (k : String) (h : Assoc String) (u : Assoc ℕ) → SameKeys h u → SameKeys (erase k h) (erase k u)
SameKeys-erase k h u s j = ground (arith, lookup-erase k j h, lookup-erase k j u, s j)

SameKeys-insert :
    (k t : String) (n : ℕ) (h : Assoc String) (u : Assoc ℕ)
    → SameKeys h u
    → SameKeys (insert k t h) (insert k n u)
SameKeys-insert k t n h u s j = ground (arith, lookup-insert k j t h, lookup-insert k j n u, s j)

-- A later use of a mapping that is there.
SameKeys-touch :
    (k t : String) (n : ℕ) (h : Assoc String) (u : Assoc ℕ)
    → lookup k h ≡ some t
    → SameKeys h u
    → SameKeys h (insert k n u)
SameKeys-touch k t n h u e s j = ground (arith, eq_iff k j, lookup-insert k j n u, s j)

abbrev pub forget_keeps : (r : RateLimiter) (k : String) → Paired r → Paired (forget r k)
forget_keeps r k s = SameKeys-erase k r.bucket_hashes r.bucket_hash_used s

cleanup-Paired : (r : RateLimiter) (now : ℕ) → Paired r → Paired (cleanup_buckets r now)
cleanup-Paired = cleanup-keeps Paired forget_keeps (λ r now s. s)

make_bucket_room-Paired :
    (r : RateLimiter) (extra : ℕ) → Paired r → Paired (make_bucket_room r extra)
make_bucket_room-Paired = make_bucket_room-keeps Paired forget_keeps (λ r k s. s)

set_bucket_hash-Paired :
    (r : RateLimiter) (route target : String) (now : ℕ)
    → Paired r
    → Paired (set_bucket_hash r route target now)
unfolding set_bucket_hash
set_bucket_hash-Paired r route target now s =
    SameKeys-insert route target now _ _ (mapping_room-keeps Paired forget_keeps r route s)

find_or_create-Paired :
    (r : RateLimiter) (key route major : String) (now : ℕ)
    → Paired r
    → Paired (find_or_create r key route major now).0
unfolding find_or_create
find_or_create-Paired r key route major now s = elim (Option-cases (lookup key r.buckets)) [
  | inr (a, there) ↦ rw (there, find_or_create) s
  | inl gone ↦ rw (gone, find_or_create) (make_bucket_room-Paired r 1 s)
]

follow_mapping-Paired :
    (r : RateLimiter) (key route major : String) (now : ℕ) (target : String)
    → lookup key r.bucket_hashes ≡ some target
    → Paired r
    → Paired (follow_mapping r key route major now target).0
unfolding follow_mapping
follow_mapping-Paired r key route major now target e s =
    elim (Option-cases (lookup target r.buckets)) [
      | inr (a, there) ↦
          rw (there, follow_mapping)
            (SameKeys-touch key target now r.bucket_hashes r.bucket_hash_used e s)
      | inl gone ↦
          rw (gone, follow_mapping)
            (find_or_create-Paired (forget r key) key route major now (forget_keeps r key s))
    ]

-- Finding or making a bucket keeps each mapping together with the time of its last use.
pub get_bucket-Paired :
    (r : RateLimiter) (key route major : String) (now : ℕ)
    → Paired r
    → Paired (get_bucket r key route major now).0
unfolding get_bucket
get_bucket-Paired r key route major now s =
    let clean : RateLimiter = cleanup_buckets r now in
    let s' = cleanup-Paired r now s in
    elim (Option-cases (lookup key clean.bucket_hashes)) [
      | inl unmapped ↦
          rw (unmapped, get_bucket) (find_or_create-Paired clean key route major now s')
      | inr (target, e) ↦
          rw (e, get_bucket) (follow_mapping-Paired clean key route major now target e s')
    ]

-- Learning the bucket of a route from a response keeps each mapping together with the time of its
-- last use.
pub register-Paired :
    (r : RateLimiter) (a : ℕ) (hash : String) (now : ℕ)
    → Paired r
    → Paired (register_bucket_hash r a hash now).0
unfolding register_bucket_hash
register-Paired r a hash now s =
    let clean : RateLimiter = cleanup_buckets r now in
    let origin : String = origin_of (r.heap a) in
    let target : String = discovered_bucket_key hash (r.heap a).major_key in
    let s' = cleanup-Paired r now s in
    let roomy : RateLimiter =
      make_bucket_room (record clean { buckets = detach clean.buckets origin a }) 1 in
    elim (Option-cases (lookup target clean.buckets)) [
      | inr (existing, e) ↦ elim (Bool-cases (existing == a)) [
        | inl same ↦
            rw (e, register_bucket_hash, same) (set_bucket_hash-Paired clean origin target now s')
        | inr other ↦
            rw (e, register_bucket_hash, other) (set_bucket_hash-Paired clean origin target now s')
      ]
      | inl free ↦
          rw (free, register_bucket_hash)
            (set_bucket_hash-Paired (record roomy { buckets = insert target a roomy.buckets })
              origin target now
              (make_bucket_room-Paired (record clean { buckets = detach clean.buckets origin a }) 1
                s'))
    ]
