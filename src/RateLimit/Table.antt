-- ===== src/RateLimit/Table.antt =====
-- The cache of buckets. The steps that shrink it forget mappings or drop buckets, and one rule for
-- each serves every property that such steps keep.
pub mod Mappings
pub mod Bounds
pub mod Eviction
pub mod Found
pub mod Learnt
pub mod Again
mod Examples
use text.Mathlib.Text.{◌==◌ as str_eq}
use dgo.Prelude.{
  ℕ, zero, suc, ◌+◌, ◌-◌, String, Bool, true, false, List, [], ◌∷◌, Option, none, some, length, leb,
  ltb, ◌==◌, not, ◌&&◌, Bool-cases, Option-cases, inl, inr,
}
use dgo.Prelude.Assoc.{Assoc, lookup, erase}
use dgo.RateLimit.{
  RateLimiter, remove_dangling, remove_dangling_loop, drop_stale_hashes, drop_stale_buckets, sweep,
  cleanup_buckets, cleanup_every, make_room_loop, make_bucket_room, mapping_room_loop, mapping_room,
  is_stale, oldest, forget,
}

module _ (P : RateLimiter → Type 0)
    (keeps_forget : (r : RateLimiter) (k : String) → P r → P (forget r k)) where
  remove_dangling_loop-keeps :
      (entries : Assoc String) (r : RateLimiter) → P r → P (remove_dangling_loop entries r)
  unfolding remove_dangling_loop
  remove_dangling_loop-keeps [] r h = h
  remove_dangling_loop-keeps ((k, t) ∷ rest) r h = elim (Option-cases (lookup t r.buckets)) [
    | inl gone ↦
        rw (gone, remove_dangling_loop)
          (remove_dangling_loop-keeps rest (forget r k) (keeps_forget r k h))
    | inr (a, there) ↦ rw (there, remove_dangling_loop) (remove_dangling_loop-keeps rest r h)
  ]

  pub remove_dangling-keeps : (r : RateLimiter) → P r → P (remove_dangling r)
  unfolding remove_dangling
  remove_dangling-keeps r h = remove_dangling_loop-keeps r.bucket_hashes r h

  pub drop_stale_hashes-keeps :
      (ttl now : ℕ) (entries : Assoc ℕ) (r : RateLimiter)
      → P r
      → P (drop_stale_hashes ttl now entries r)
  unfolding drop_stale_hashes
  drop_stale_hashes-keeps ttl now [] r h = h
  drop_stale_hashes-keeps ttl now ((k, used) ∷ rest) r h =
      elim (Bool-cases (is_stale ttl now used)) [
        | inl old ↦
            rw (old, drop_stale_hashes)
              (drop_stale_hashes-keeps ttl now rest (forget r k) (keeps_forget r k h))
        | inr fresh ↦ rw (fresh, drop_stale_hashes) (drop_stale_hashes-keeps ttl now rest r h)
      ]

  mapping_room_loop-keeps : (rounds : ℕ) (r : RateLimiter) → P r → P (mapping_room_loop rounds r)
  unfolding mapping_room_loop
  mapping_room_loop-keeps zero r h = h
  mapping_room_loop-keeps (suc rounds) r h =
      let victim : String = oldest (λ used. used) r.bucket_hash_used "" 0 in
      elim (Bool-cases (ltb (length r.bucket_hashes) r.max_bucket_mappings)) [
        | inl room ↦ rw (room, mapping_room_loop) h
        | inr full ↦ elim (Bool-cases (str_eq victim "")) [
          | inl none_left ↦ rw (full, mapping_room_loop, none_left) h
          | inr found ↦
              rw (full, mapping_room_loop, found)
                (mapping_room_loop-keeps rounds (forget r victim) (keeps_forget r victim h))
        ]
      ]

  pub mapping_room-keeps : (r : RateLimiter) (k : String) → P r → P (mapping_room r k)
  unfolding mapping_room
  mapping_room-keeps r k h = elim (Option-cases (lookup k r.bucket_hashes)) [
    | inr (t, there) ↦ rw (there, mapping_room) h
    | inl gone ↦ elim (Bool-cases (r.max_bucket_mappings == 0)) [
      | inl off ↦ rw (gone, mapping_room, off) h
      | inr on ↦
          rw (gone, mapping_room, on)
            (mapping_room_loop-keeps (suc (length r.bucket_hash_used)) r h)
    ]
  ]

  module _
      (keeps_sweep : (r : RateLimiter) (now : ℕ)
        → P r
        → P (record r {
          last_cleanup = now;
          buckets = drop_stale_buckets r.heap r.bucket_ttl now r.buckets;
        })) where
    pub sweep-keeps : (r : RateLimiter) (now : ℕ) → P r → P (sweep r now)
    unfolding sweep
    sweep-keeps r now h =
        remove_dangling-keeps _
          (drop_stale_hashes-keeps r.bucket_ttl now r.bucket_hash_used _ (keeps_sweep r now h))

    pub cleanup-keeps : (r : RateLimiter) (now : ℕ) → P r → P (cleanup_buckets r now)
    unfolding cleanup_buckets
    cleanup-keeps r now h = elim (Bool-cases (r.bucket_ttl == 0)) [
      | inl off ↦ rw off h
      | inr on ↦
          elim (Bool-cases
            (not (r.last_cleanup == 0) && ltb (now - r.last_cleanup) (cleanup_every r))) [
              | inl recent ↦ rw (on, recent) h
              | inr due ↦ rw (on, due) (sweep-keeps r now h)
            ]
    ]

  module _
      (keeps_drop : (r : RateLimiter) (k : String)
        → P r
        → P (record r { buckets = erase k r.buckets })) where
    pub make_room_loop-keeps :
        (rounds extra : ℕ) (r : RateLimiter) → P r → P (make_room_loop rounds extra r)
    unfolding make_room_loop
    make_room_loop-keeps zero extra r h = h
    make_room_loop-keeps (suc rounds) extra r h =
        let victim : String = oldest (λ a. (r.heap a).last_used) r.buckets "" 0 in
        elim (Bool-cases (leb (length r.buckets + extra) r.max_buckets)) [
          | inl room ↦ rw (room, make_room_loop) h
          | inr full ↦ elim (Bool-cases (str_eq victim "")) [
            | inl none_left ↦ rw (full, make_room_loop, none_left) h
            | inr found ↦
                rw (full, make_room_loop, found)
                  (make_room_loop-keeps rounds extra (record r { buckets = erase victim r.buckets })
                    (keeps_drop r victim h))
          ]
        ]

    pub make_bucket_room-keeps : (r : RateLimiter) (extra : ℕ) → P r → P (make_bucket_room r extra)
    unfolding make_bucket_room
    make_bucket_room-keeps r extra h = elim (Bool-cases (r.max_buckets == 0)) [
      | inl off ↦ rw off h
      | inr on ↦ rw on (remove_dangling-keeps _ (make_room_loop-keeps (length r.buckets) extra r h))
    ]
