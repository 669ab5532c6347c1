-- ===== src/RateLimit/Table/Learnt.antt =====
-- What `get_bucket` returns, and what `register_bucket_hash` learns, is what later lookups find.
use text.Mathlib.Text.{◌==◌ as str_eq}
use text.Mathlib.TextEquality.{eq_iff}
use dgo.Prelude.{
  ℕ, ◌≤◌, ◌≡◌, refl, ◌∙◌, subst, String, true, false, [], ◌∷◌, none, some, arith, ◌==◌, Bool-cases,
  Option-cases, inl, inr,
}
use dgo.Prelude.Assoc.{Assoc, lookup, insert, lookup-erase, lookup-insert, str_eq_refl}
use dgo.Prelude.Int.{pos}
use dgo.RateLimit.Table.{cleanup-keeps, mapping_room-keeps, make_bucket_room-keeps}
use dgo.RateLimit.Table.Found.{
  Unique, Maps, Leads, directly, by_mapping, erase-Unique, lookup-erase-none,
}
use dgo.RateLimit.{
  RateLimiter, Bucket, cleanup_buckets, make_bucket_room, mapping_room, set_bucket_hash, forget,
  find_or_create, follow_mapping, get_bucket, register_bucket_hash, touch, discovered_bucket_key,
  origin_of, detach, store,
}

pub insert-Unique :
    {V : Type 0} (k : String) (v : V) (m : Assoc V) → Unique m → Unique (insert k v m)
unfolding insert
insert-Unique k v [] u = (unfold lookup in refl, tt)
insert-Unique k v ((j, w) ∷ m) u = elim (Bool-cases (str_eq j k)) [
  | inl hit ↦ rw hit (u.0, u.1)
  | inr miss ↦ rw miss (still_none k j v m miss u.0, insert-Unique k v m u.1)
]
  where
    still_none :
        {A : Type 0} (i h : String) (a : A) (n : Assoc A)
        → str_eq h i ≡ false
        → lookup h n ≡ none
        → lookup h (insert i a n) ≡ none
    still_none i h a n e f = ground (arith, eq_iff i h, eq_iff h i, lookup-insert i h a n)

pub Maps-forget : (r : RateLimiter) (k : String) → Maps r → Maps (forget r k)
Maps-forget r k m = record {
  hashes = erase-Unique k r.bucket_hashes m.hashes;
  used = erase-Unique k r.bucket_hash_used m.used;
}

Maps-cleanup : (r : RateLimiter) (now : ℕ) → Maps r → Maps (cleanup_buckets r now)
Maps-cleanup = cleanup-keeps Maps Maps-forget (λ r t m. record { hashes = m.hashes; used = m.used })

Maps-make_room : (r : RateLimiter) (extra : ℕ) → Maps r → Maps (make_bucket_room r extra)
Maps-make_room =
    make_bucket_room-keeps Maps Maps-forget (λ r k m. record { hashes = m.hashes; used = m.used })

heap-cleanup : (r : RateLimiter) (now : ℕ) → (cleanup_buckets r now).heap ≡ r.heap
heap-cleanup r now = cleanup-keeps (λ q. q.heap ≡ r.heap) (λ q k h. h) (λ q t h. h) r now refl

ttl-cleanup : (r : RateLimiter) (now : ℕ) → (cleanup_buckets r now).bucket_ttl ≡ r.bucket_ttl
ttl-cleanup r now =
    cleanup-keeps (λ q. q.bucket_ttl ≡ r.bucket_ttl) (λ q k h. h) (λ q t h. h) r now refl

heap-make_room : (r : RateLimiter) (n : ℕ) → (make_bucket_room r n).heap ≡ r.heap
heap-make_room r n =
    make_bucket_room-keeps (λ q. q.heap ≡ r.heap) (λ q k h. h) (λ q k h. h) r n refl

-- The mapping of a route, once recorded.
record Recorded (q : RateLimiter) (route target : String) (now : ℕ) : Type 0 where
  hash_is : lookup route (set_bucket_hash q route target now).bucket_hashes ≡ some target
  used_is : lookup route (set_bucket_hash q route target now).bucket_hash_used ≡ some now
  same_buckets : (set_bucket_hash q route target now).buckets ≡ q.buckets
  same_heap : (set_bucket_hash q route target now).heap ≡ q.heap

set_bucket_hash-Recorded :
    (q : RateLimiter) (route target : String) (now : ℕ) → Recorded q route target now
unfolding set_bucket_hash
set_bucket_hash-Recorded q route target now =
    let roomy : RateLimiter = mapping_room q route in
    record {
      hash_is = rw (lookup-insert route route target roomy.bucket_hashes, str_eq_refl route);
      used_is = rw (lookup-insert route route now roomy.bucket_hash_used, str_eq_refl route);
      same_buckets = mapping_room-keeps (λ p. p.buckets ≡ q.buckets) (λ p k h. h) q route refl;
      same_heap = mapping_room-keeps (λ p. p.heap ≡ q.heap) (λ p k h. h) q route refl;
    }

lookup-detach :
    (bs : Assoc ℕ) (origin target : String) (a e : ℕ)
    → lookup target bs ≡ some e
    → (e == a) ≡ false
    → lookup target (detach bs origin a) ≡ some e
unfolding detach
lookup-detach bs origin target a e h ne = elim (Option-cases (lookup origin bs)) [
  | inl gone ↦ rw (gone, detach) h
  | inr (c, there) ↦ elim (Bool-cases (c == a)) [
    | inr other ↦ rw (there, detach, other) h
    | inl same ↦
        let differ : str_eq origin target ≡ false = elim (Bool-cases (str_eq origin target)) [
          | inr miss ↦ miss
          | inl hit ↦
              let e' = (eq_iff origin target).0 hit in
              let both = subst (λ x. lookup x bs ≡ some c) e' there in absurd (ground arith)
        ] in
        rw (there, detach, same) (rw (lookup-erase origin target bs, differ) h)
  ]
]

touched :
    (q : RateLimiter) (a now since : ℕ) → since ≤ now → since ≤ ((touch q a now).heap a).last_used
unfolding touch
touched q a now since l = ground arith

-- Once a response has named the bucket of a route, the route leads to the canonical bucket.
pub register-Leads :
    (r : RateLimiter) (a : ℕ) (hash : String) (now since : ℕ)
    → since ≤ now
    → since ≤ (r.heap a).last_used
    → Leads
        (register_bucket_hash r a hash now).0
        (origin_of (r.heap a))
        (register_bucket_hash r a hash now).1
        since
unfolding register_bucket_hash
register-Leads r a hash now since l m =
    let clean : RateLimiter = cleanup_buckets r now in
    let origin : String = origin_of (r.heap a) in
    let target : String = discovered_bucket_key hash (r.heap a).major_key in
    elim (Option-cases (lookup target clean.buckets)) [
      | inr (existing, e) ↦
          let rec = set_bucket_hash-Recorded clean origin target now in
          let there = rw (← rec.same_buckets) at e in
          elim (Bool-cases (existing == a)) [
            | inl same ↦
                rw (e, register_bucket_hash, same)
                  (by_mapping target now rec.hash_is there rec.used_is l
                    (touched (set_bucket_hash clean origin target now) existing now since l))
            | inr other ↦
                rw (e, register_bucket_hash, other)
                  (by_mapping target now rec.hash_is
                    (lookup-detach _ origin target a existing there other) rec.used_is l
                    (touched (set_bucket_hash clean origin target now) existing now since l))
          ]
      | inl free ↦
          let roomy : RateLimiter =
            make_bucket_room (record clean { buckets = detach clean.buckets origin a }) 1 in
          let q : RateLimiter = record roomy { buckets = insert target a roomy.buckets } in
          let rec = set_bucket_hash-Recorded q origin target now in
          let heap : (set_bucket_hash q origin target now).heap ≡ r.heap =
            rec.same_heap
            ∙ heap-make_room (record clean { buckets = detach clean.buckets origin a }) 1
            ∙ heap-cleanup r now in
          rw (free, register_bucket_hash)
            (by_mapping target now rec.hash_is
              (rw rec.same_buckets
                (rw (lookup-insert target target a roomy.buckets, str_eq_refl target)))
              rec.used_is l (rw heap m))
    ]

-- The key of the hash leads to the bucket that the registration returns.
pub register-canonical :
    (r : RateLimiter) (a : ℕ) (hash : String) (now : ℕ)
    → lookup
        (discovered_bucket_key hash (r.heap a).major_key)
        (register_bucket_hash r a hash now).0.buckets
      ≡ some (register_bucket_hash r a hash now).1
unfolding register_bucket_hash
register-canonical r a hash now =
    let clean : RateLimiter = cleanup_buckets r now in
    let origin : String = origin_of (r.heap a) in
    let target : String = discovered_bucket_key hash (r.heap a).major_key in
    elim (Option-cases (lookup target clean.buckets)) [
      | inr (existing, e) ↦
          let rec = set_bucket_hash-Recorded clean origin target now in
          let there = rw (← rec.same_buckets) at e in
          elim (Bool-cases (existing == a)) [
            | inl same ↦ rw (e, register_bucket_hash, same) there
            | inr other ↦
                rw (e, register_bucket_hash, other)
                  (lookup-detach _ origin target a existing there other)
          ]
      | inl free ↦
          let roomy : RateLimiter =
            make_bucket_room (record clean { buckets = detach clean.buckets origin a }) 1 in
          let q : RateLimiter = record roomy { buckets = insert target a roomy.buckets } in
          let rec = set_bucket_hash-Recorded q origin target now in
          rw (free, register_bucket_hash)
            (rw rec.same_buckets
              (rw (lookup-insert target target a roomy.buckets, str_eq_refl target)))
    ]

-- A lookup leaves the way to what it returned fresh.
find_or_create-Leads :
    (r : RateLimiter) (key route major : String) (now : ℕ)
    → lookup key r.bucket_hashes ≡ none
    → Leads
        (find_or_create r key route major now).0
        key
        (find_or_create r key route major now).1
        now
unfolding find_or_create
find_or_create-Leads r key route major now unmapped = elim (Option-cases (lookup key r.buckets)) [
  | inr (a, there) ↦
      rw (there, find_or_create)
        (directly (unfold touch in unmapped) (unfold touch in there)
          (touched r a now now (omega arith)))
  | inl gone ↦
      let q : RateLimiter = make_bucket_room r 1 in
      let unmapped' =
        make_bucket_room-keeps (λ p. lookup key p.bucket_hashes ≡ none)
          (λ p k h. lookup-erase-none k key p.bucket_hashes h) (λ p k h. h) r 1 unmapped in
      rw (gone, find_or_create)
        (directly unmapped' (rw (lookup-insert key key q.next_address q.buckets, str_eq_refl key))
          (fresh q.heap q.next_address))
]
  where
    fresh :
        (h : ℕ → Bucket) (a : ℕ)
        → now
          ≤ (store h a
              (record {
                key = key;
                route_key = route;
                major_key = major;
                scope = "";
                limit = pos 0;
                remaining = pos 1;
                reset = 0;
                last_used = now;
                has_limiter = true;
              })
              a).last_used
    fresh h a = ground arith

pub get_bucket-fresh :
    (r : RateLimiter) (key route major : String) (now : ℕ)
    → Leads (get_bucket r key route major now).0 key (get_bucket r key route major now).1 now
unfolding get_bucket follow_mapping
get_bucket-fresh r key route major now =
    let clean : RateLimiter = cleanup_buckets r now in
    elim (Option-cases (lookup key clean.bucket_hashes)) [
      | inl unmapped ↦
          rw (unmapped, get_bucket) (find_or_create-Leads clean key route major now unmapped)
      | inr (target, mapped) ↦ elim (Option-cases (lookup target clean.buckets)) [
        | inl gone ↦
            rw (mapped, get_bucket, gone, follow_mapping)
              (find_or_create-Leads (forget clean key) key route major now
                (rw (lookup-erase key key clean.bucket_hashes, str_eq_refl key)))
        | inr (a, there) ↦
            let q : RateLimiter = record clean {
              bucket_hash_used = insert key now clean.bucket_hash_used;
            } in
            rw (mapped, get_bucket, there, follow_mapping)
              (by_mapping target now (unfold touch in mapped) (unfold touch in there)
                (unfold touch in
                  rw (lookup-insert key key now clean.bucket_hash_used, str_eq_refl key))
                (omega arith) (touched q a now now (omega arith)))
      ]
    ]
