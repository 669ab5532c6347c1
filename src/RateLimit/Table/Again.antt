-- ===== src/RateLimit/Table/Again.antt =====
-- The same bucket again: lookups and registrations composed with later lookups.
use dgo.Prelude.{ℕ, ◌+◌, ◌≤◌, ◌≡◌, refl, String, Bool-cases, Option-cases, inl, inr, ◌==◌}
use dgo.Prelude.Assoc.{lookup, insert}
use dgo.RateLimit.Table.{cleanup-keeps, mapping_room-keeps, make_bucket_room-keeps}
use dgo.RateLimit.Table.Found.{Maps, get_bucket-Leads}
use dgo.RateLimit.Table.Learnt.{Maps-forget, insert-Unique, register-Leads, get_bucket-fresh}
use dgo.RateLimit.{
  RateLimiter, cleanup_buckets, make_bucket_room, set_bucket_hash, forget, find_or_create,
  follow_mapping, get_bucket, register_bucket_hash, discovered_bucket_key, origin_of, detach,
}

-- What every step of the cache keeps: maps without double keys, and the setting of the TTL.
pub record Kept (ttl : ℕ) (r : RateLimiter) : Type 0 where
  pub maps : Maps r
  pub setting : r.bucket_ttl ≡ ttl

module _ (ttl : ℕ) where
  Kept-forget : (r : RateLimiter) (k : String) → Kept ttl r → Kept ttl (forget r k)
  Kept-forget r k v = record { maps = Maps-forget r k v.maps; setting = v.setting }

  Kept-cleanup : (r : RateLimiter) (now : ℕ) → Kept ttl r → Kept ttl (cleanup_buckets r now)
  Kept-cleanup = cleanup-keeps (Kept ttl) Kept-forget (λ r t v. record {
    maps = record { hashes = v.maps.hashes; used = v.maps.used };
    setting = v.setting;
  })

  Kept-make_room : (r : RateLimiter) (n : ℕ) → Kept ttl r → Kept ttl (make_bucket_room r n)
  Kept-make_room = make_bucket_room-keeps (Kept ttl) Kept-forget (λ r k v. record {
    maps = record { hashes = v.maps.hashes; used = v.maps.used };
    setting = v.setting;
  })

  Kept-set_hash :
      (r : RateLimiter) (route target : String) (now : ℕ)
      → Kept ttl r
      → Kept ttl (set_bucket_hash r route target now)
  unfolding set_bucket_hash
  Kept-set_hash r route target now v =
      let u = mapping_room-keeps (Kept ttl) Kept-forget r route v in
      record {
        maps = record {
          hashes = insert-Unique route target _ u.maps.hashes;
          used = insert-Unique route now _ u.maps.used;
        };
        setting = u.setting;
      }

  Kept-find :
      (r : RateLimiter) (key route major : String) (now : ℕ)
      → Kept ttl r
      → Kept ttl (find_or_create r key route major now).0
  unfolding find_or_create
  Kept-find r key route major now v = elim (Option-cases (lookup key r.buckets)) [
    | inr (a, there) ↦
        rw (there, find_or_create)
          (record {
            maps = record { hashes = v.maps.hashes; used = v.maps.used };
            setting = v.setting;
          })
    | inl gone ↦
        let u = Kept-make_room r 1 v in
        rw (gone, find_or_create)
          (record {
            maps = record { hashes = u.maps.hashes; used = u.maps.used };
            setting = u.setting;
          })
  ]

  Kept-get :
      (r : RateLimiter) (key route major : String) (now : ℕ)
      → Kept ttl r
      → Kept ttl (get_bucket r key route major now).0
  unfolding get_bucket follow_mapping
  Kept-get r key route major now v0 =
      let clean : RateLimiter = cleanup_buckets r now in
      let v = Kept-cleanup r now v0 in
      elim (Option-cases (lookup key clean.bucket_hashes)) [
        | inl unmapped ↦ rw (unmapped, get_bucket) (Kept-find clean key route major now v)
        | inr (target, mapped) ↦ elim (Option-cases (lookup target clean.buckets)) [
          | inl gone ↦
              rw (mapped, get_bucket, gone, follow_mapping)
                (Kept-find (forget clean key) key route major now (Kept-forget clean key v))
          | inr (a, there) ↦
              rw (mapped, get_bucket, there, follow_mapping)
                (record {
                  maps = record {
                    hashes = v.maps.hashes;
                    used = insert-Unique key now clean.bucket_hash_used v.maps.used;
                  };
                  setting = v.setting;
                })
        ]
      ]

  Kept-register :
      (r : RateLimiter) (a : ℕ) (hash : String) (now : ℕ)
      → Kept ttl r
      → Kept ttl (register_bucket_hash r a hash now).0
  unfolding register_bucket_hash
  Kept-register r a hash now v0 =
      let clean : RateLimiter = cleanup_buckets r now in
      let v = Kept-cleanup r now v0 in
      let origin : String = origin_of (r.heap a) in
      let target : String = discovered_bucket_key hash (r.heap a).major_key in
      let recorded = Kept-set_hash clean origin target now v in
      let detached : RateLimiter = record clean { buckets = detach clean.buckets origin a } in
      let roomy : RateLimiter = make_bucket_room detached 1 in
      let w = Kept-make_room detached 1 (record {
        maps = record { hashes = v.maps.hashes; used = v.maps.used };
        setting = v.setting;
      }) in
      let placed : RateLimiter = record roomy { buckets = insert target a roomy.buckets } in
      let x = Kept-set_hash placed origin target now (record {
        maps = record { hashes = w.maps.hashes; used = w.maps.used };
        setting = w.setting;
      }) in
      elim (Option-cases (lookup target clean.buckets)) [
        | inr (existing, e) ↦ elim (Bool-cases (existing == a)) [
          | inl same ↦
              rw (e, register_bucket_hash, same)
                (record {
                  maps = record { hashes = recorded.maps.hashes; used = recorded.maps.used };
                  setting = recorded.setting;
                })
          | inr other ↦
              rw (e, register_bucket_hash, other)
                (record {
                  maps = record { hashes = recorded.maps.hashes; used = recorded.maps.used };
                  setting = recorded.setting;
                })
        ]
        | inl free ↦ rw (free, register_bucket_hash) x
      ]

-- A bucket that a lookup returned is returned again for that key, until the TTL has passed, when no
-- map has a key twice.
pub get_bucket-get_bucket :
    (r : RateLimiter) (key route major : String) (now later : ℕ)
    → Maps r
    → later ≤ now + r.bucket_ttl
    → (get_bucket (get_bucket r key route major now).0 key route major later).1
      ≡ (get_bucket r key route major now).1
get_bucket-get_bucket r key route major now later maps l =
    let v = Kept-get r.bucket_ttl r key route major now (record { maps = maps; setting = refl }) in
    get_bucket-Leads _ key route major _ now later v.maps (get_bucket-fresh r key route major now)
      (rw v.setting l)

-- After a response has named the bucket of a route, lookups of the route return the canonical
-- bucket, until the TTL has passed since the response and since the bucket was last used before it,
-- when no map has a key twice.
pub get_bucket-register :
    (r : RateLimiter) (a : ℕ) (hash route major : String) (now since later : ℕ)
    → Maps r
    → since ≤ now
    → since ≤ (r.heap a).last_used
    → later ≤ since + r.bucket_ttl
    → (get_bucket (register_bucket_hash r a hash now).0 (origin_of (r.heap a)) route major later).1
      ≡ (register_bucket_hash r a hash now).1
get_bucket-register r a hash route major now since later maps s m l =
    let v = Kept-register r.bucket_ttl r a hash now (record { maps = maps; setting = refl }) in
    get_bucket-Leads _ (origin_of (r.heap a)) route major _ since later v.maps
      (register-Leads r a hash now since s m) (rw v.setting l)
