-- ===== src/RateLimit/Release/Learnt.antt =====
-- The canonical bucket knows what a response said of its limits.
use text.Mathlib.Text.{◌==◌ as str_eq}
use dgo.Prelude.{
  ℕ, ◌≡◌, refl, ◌∙◌, ap, sym, String, true, false, none, some, arith, ◌==◌, Bool-cases,
  Option-cases, inl, inr,
}
use dgo.Prelude.Int.{ℤ}
use dgo.Prelude.Assoc.{lookup, insert}
use dgo.RateLimit.{
  RateLimiter, Bucket, touch, cleanup_buckets, make_bucket_room, set_bucket_hash,
  register_bucket_hash, origin_of, discovered_bucket_key, detach,
}
use dgo.RateLimit.Table.{cleanup-keeps, mapping_room-keeps, make_bucket_room-keeps}
use dgo.RateLimit.Table.Learnt.{register-canonical}
use dgo.RateLimit.Release.{Headers, Clock, learn_bucket, share, learn, release}
use dgo.RateLimit.Release.Taught.{
  store_self, parses, parses_deadline, taught, learnt, and_then-none, learn-Gives, Gives,
}

heap-cleanup : (r : RateLimiter) (now : ℕ) → (cleanup_buckets r now).heap ≡ r.heap
heap-cleanup r now = cleanup-keeps (λ q. q.heap ≡ r.heap) (λ q k h. h) (λ q t h. h) r now refl

heap-make_room : (r : RateLimiter) (n : ℕ) → (make_bucket_room r n).heap ≡ r.heap
heap-make_room r n =
    make_bucket_room-keeps (λ q. q.heap ≡ r.heap) (λ q k h. h) (λ q k h. h) r n refl

heap-set_bucket_hash :
    (r : RateLimiter) (route target : String) (now : ℕ)
    → (set_bucket_hash r route target now).heap ≡ r.heap
unfolding set_bucket_hash
heap-set_bucket_hash r route target now =
    mapping_room-keeps (λ q. q.heap ≡ r.heap) (λ q k h. h) r route refl

-- To register a hash leaves the limits of every bucket: a field other than the last use.
module _ {A : Type 0} (f : Bucket → A)
    (same : (b : Bucket) (t : ℕ) → f (record b { last_used = t }) ≡ f b) where
  field-touch : (r : RateLimiter) (x now j : ℕ) → f ((touch r x now).heap j) ≡ f (r.heap j)
  unfolding touch
  field-touch r x now j = elim (Bool-cases (j == x)) [
    | inl e ↦ rw e (same (r.heap x) now ∙ ap (λ i. f (r.heap i)) (ground arith))
    | inr e ↦ rw e
  ]

  field-register :
      (r : RateLimiter) (a : ℕ) (hash : String) (now j : ℕ)
      → f ((register_bucket_hash r a hash now).0.heap j) ≡ f (r.heap j)
  unfolding register_bucket_hash
  field-register r a hash now j =
      let clean : RateLimiter = cleanup_buckets r now in
      let origin : String = origin_of (r.heap a) in
      let target : String = discovered_bucket_key hash (r.heap a).major_key in
      let back = ap (λ (h : ℕ → Bucket). f (h j)) (heap-cleanup r now) in
      elim (Option-cases (lookup target clean.buckets)) [
        | inr (existing, e) ↦
            let recorded = set_bucket_hash clean origin target now in
            let done =
              field-touch recorded existing now j
              ∙ ap (λ (h : ℕ → Bucket). f (h j)) (heap-set_bucket_hash clean origin target now)
              ∙ back in
            elim (Bool-cases (existing == a)) [
              | inl p ↦ rw (e, register_bucket_hash, p) done
              | inr p ↦ rw (e, register_bucket_hash, p) done
            ]
        | inl e ↦
            let detached : RateLimiter = record clean { buckets = detach clean.buckets origin a } in
            let roomy : RateLimiter = make_bucket_room detached 1 in
            let placed : RateLimiter = record roomy { buckets = insert target a roomy.buckets } in
            rw (e, register_bucket_hash)
              (ap (λ (h : ℕ → Bucket). f (h j)) (heap-set_bucket_hash placed origin target now)
                ∙ ap (λ (h : ℕ → Bucket). f (h j)) (heap-make_room detached 1)
                ∙ back)
      ]

-- The limits that a bucket knows.
abbrev pub limits : Bucket → ℤ × ℤ × ℕ
limits b = (b.limit, b.remaining, b.reset)

limits-share :
    (r : RateLimiter) (a canonical used : ℕ)
    → limits ((share r a canonical used).heap canonical) ≡ limits (r.heap a)
unfolding share
limits-share r a canonical used = elim (Bool-cases (canonical == a)) [
  | inl e ↦ rw (e, share) (ap (λ i. limits (r.heap i)) (ground arith))
  | inr e ↦ rw (e, share) (ap limits (store_self r.heap canonical _))
]

share-buckets :
    (q : RateLimiter) (a canonical used : ℕ) → (share q a canonical used).buckets ≡ q.buckets
unfolding share
share-buckets q a canonical used = ground arith

module _ (r : RateLimiter) (a : ℕ) (h : Headers) (clock : Clock)
    (limiter : (r.heap a).has_limiter ≡ true) (named : str_eq h.bucket "" ≡ false)
    (limit_parses : parses h.limit ≡ true) (remaining_parses : parses h.remaining ≡ true)
    (deadline_parses : parses_deadline h.reset_after h.reset h.date ≡ true) where
  learns : Gives a (learnt (r.heap a) h clock) (learn r a h clock)
  learns = learn-Gives r a h clock limit_parses remaining_parses deadline_parses

  -- What is registered after the headers, and the bucket that it returns.
  abbrev registered : RateLimiter × ℕ
  registered = register_bucket_hash (learn r a h clock).0 a h.bucket clock.registered

  release-shares : release r a (some h) clock ≡ (share registered.0 a registered.1 clock.used, none)
  unfolding release learn_bucket
  release-shares =
      let (fine, bucket) = learns in
      let still : ((learn r a h clock).0.heap a).has_limiter ≡ true =
        ap (λ (b : Bucket). b.has_limiter) bucket ∙ limiter in
      and_then-none (learn r a h clock) _ fine ∙ rw (still, named, learn_bucket) refl

  registered-canonical :
      lookup (discovered_bucket_key h.bucket (r.heap a).major_key) registered.0.buckets
      ≡ some registered.1
  registered-canonical =
      ap (λ (b : Bucket). lookup (discovered_bucket_key h.bucket b.major_key) registered.0.buckets)
        (sym learns.1)
      ∙ register-canonical (learn r a h clock).0 a h.bucket clock.registered

  -- A response of a bucket that the limiter made, which names a hash, and of which the limit, the remaining
  -- requests and the deadline are absent or parse: Release returns no error, and in the table that it leaves the key of the hash and of the
  -- bucket's major parameters leads to a bucket, the released one or another, that has the limit, the
  -- remaining requests and the deadline of the response. Of those, what the response does not give is what the
  -- released bucket had. The deadline is that of Reset-After unless the limit is the global one, or
  -- without Reset-After that of Reset by the server's date and 250 ms.
  pub release_shares :
      ((release r a (some h) clock).1 ≡ none)
      × ((canonical : ℕ) × (lookup
              (discovered_bucket_key h.bucket (r.heap a).major_key)
              (release r a (some h) clock).0.buckets
            ≡ some canonical)
          × (limits ((release r a (some h) clock).0.heap canonical)
              ≡ taught (r.heap a) h clock.reset))
  release_shares =
      let bucket = learns.1 in
      let said =
        limits-share registered.0 a registered.1 clock.used
        ∙ field-register limits (λ b t. refl) (learn r a h clock).0 a h.bucket clock.registered a
        ∙ ap limits bucket in
      let leads =
        ap (lookup (discovered_bucket_key h.bucket (r.heap a).major_key))
          (share-buckets registered.0 a registered.1 clock.used)
        ∙ registered-canonical in
      rw release-shares (refl, (registered.1, leads, said))
