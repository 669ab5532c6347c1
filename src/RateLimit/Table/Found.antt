-- ===== src/RateLimit/Table/Found.antt =====
-- A bucket, once found or learnt, is found again while it is fresh.
use text.Mathlib.Text.{◌==◌ as str_eq}
use mathlib.Core.Option.{some-injective}
use text.Mathlib.TextEquality.{eq_iff}
use dgo.Prelude.{
  ℕ, ◌+◌, ◌-◌, ◌≤◌, ◌≡◌, ◌≢◌, refl, sym, ap, subst, String, true, false, [], ◌∷◌, Option, none,
  some, arith, All, ltb, ◌==◌, not, ◌&&◌, Bool-cases, Option-cases, inl, inr,
}
use dgo.Prelude.Assoc.{Assoc, lookup, erase, lookup-erase}
use dgo.RateLimit.Table.{sweep-keeps, drop_stale_hashes-keeps, remove_dangling-keeps}
use dgo.RateLimit.{
  RateLimiter, Bucket, remove_dangling, remove_dangling_loop, drop_stale_buckets, drop_stale_hashes,
  sweep, cleanup_buckets, cleanup_every, forget, find_or_create, follow_mapping, get_bucket,
  is_stale,
}

-- No key has two entries, as in any Go map.
abbrev pub Unique {ℓ} : {V : Type ℓ} → Assoc V → Type ℓ
Unique [] = Unit
Unique (e ∷ m) = (lookup e.0 m ≡ none) × Unique m

pub record Maps (r : RateLimiter) : Type 0 where
  pub hashes : Unique r.bucket_hashes
  pub used : Unique r.bucket_hash_used

-- How `key` leads to the bucket at `a`, nothing on the way having been used before `since`.
pub data Leads (r : RateLimiter) (key : String) (a since : ℕ) : Type 0 where
  directly :
      lookup key r.bucket_hashes ≡ none
      → lookup key r.buckets ≡ some a
      → since ≤ (r.heap a).last_used
      → Leads r key a since
  by_mapping :
      (target : String) (used : ℕ)
      → lookup key r.bucket_hashes ≡ some target
      → lookup target r.buckets ≡ some a
      → lookup key r.bucket_hash_used ≡ some used
      → since ≤ used
      → since ≤ (r.heap a).last_used
      → Leads r key a since

lookup-drop_stale :
    (heap : ℕ → Bucket) (ttl now : ℕ) (k : String) (a : ℕ) (m : Assoc ℕ)
    → lookup k m ≡ some a
    → now ≤ (heap a).last_used + ttl
    → lookup k (drop_stale_buckets heap ttl now m) ≡ some a
unfolding lookup drop_stale_buckets
lookup-drop_stale heap ttl now k a [] h l = h
lookup-drop_stale heap ttl now k a ((j, b) ∷ m) h l = elim (Bool-cases (str_eq j k)) [
  | inl hit ↦
      let e : b ≡ a = some-injective b a (rw hit at h) in
      let fresh : is_stale ttl now (heap b).last_used ≡ false = rw e (ground arith) in
      rw fresh (rw hit (ap some e))
  | inr miss ↦ elim (Bool-cases (is_stale ttl now (heap b).last_used)) [
    | inl old ↦ rw old (lookup-drop_stale heap ttl now k a m (rw miss at h) l)
    | inr fresh ↦ rw fresh (rw miss (lookup-drop_stale heap ttl now k a m (rw miss at h) l))
  ]
]

-- Forgetting another key.
abbrev Holds : String → Option String → Option ℕ → Assoc ℕ → RateLimiter → Type 0
Holds key target used buckets r =
    (lookup key r.bucket_hashes ≡ target)
    × (lookup key r.bucket_hash_used ≡ used)
    × (r.buckets ≡ buckets)

forget-Holds :
    (k key : String) (target : Option String) (used : Option ℕ) (bs : Assoc ℕ) (r : RateLimiter)
    → (str_eq k key ≡ false)
    → Holds key target used bs r
    → Holds key target used bs (forget r k)
forget-Holds k key target used bs r ne h =
    ground (arith, lookup-erase k key r.bucket_hashes, lookup-erase k key r.bucket_hash_used)

-- A key that is not there has no entry.
All-of_none {κ} :
    {V : Type 0} (P : V → Type κ) (key : String) (m : Assoc V)
    → lookup key m ≡ none
    → All (λ e. str_eq e.0 key ≡ true → P e.1) m
unfolding lookup
All-of_none P key [] h = tt
All-of_none P key ((k, w) ∷ m) h = elim (Bool-cases (str_eq k key)) [
  | inl hit ↦ absurd (cc (rw hit at h))
  | inr miss ↦ ((λ hit. absurd (cc (miss, hit))), All-of_none P key m (rw miss at h))
]

-- What all entries of one key satisfy, given the one that a lookup finds.
All-of_lookup {κ} :
    {V : Type 0} (P : V → Type κ) (key : String) (v : V) (m : Assoc V)
    → Unique m
    → lookup key m ≡ some v
    → P v
    → All (λ e. str_eq e.0 key ≡ true → P e.1) m
unfolding lookup
All-of_lookup P key v [] u h p = tt
All-of_lookup P key v ((k, w) ∷ m) u h p = elim (Bool-cases (str_eq k key)) [
  | inl hit ↦ (
    (λ _. subst P (sym (some-injective w v (rw hit at h))) p),
    All-of_none P key m (subst (λ x. lookup x m ≡ none) ((eq_iff k key).0 hit) u.0),
  )
  | inr miss ↦ ((λ hit. absurd (cc (miss, hit))), All-of_lookup P key v m u.1 (rw miss at h) p)
]

drop_stale_hashes-Holds :
    (ttl now : ℕ) (entries : Assoc ℕ) (key : String) (target : Option String) (used : Option ℕ)
    (bs : Assoc ℕ) (r : RateLimiter)
    → All (λ e. str_eq e.0 key ≡ true → now ≤ e.1 + ttl) entries
    → Holds key target used bs r
    → Holds key target used bs (drop_stale_hashes ttl now entries r)
unfolding drop_stale_hashes
drop_stale_hashes-Holds ttl now [] key target used bs r fresh h = h
drop_stale_hashes-Holds ttl now ((k, t) ∷ rest) key target used bs r fresh h =
    elim (Bool-cases (is_stale ttl now t)) [
      | inl old ↦
          let other : str_eq k key ≡ false = elim (Bool-cases (str_eq k key)) [
            | inl hit ↦ let l = fresh.0 hit in absurd (ground arith)
            | inr miss ↦ miss
          ] in
          rw (old, drop_stale_hashes)
            (drop_stale_hashes-Holds ttl now rest key target used bs (forget r k) fresh.1
              (forget-Holds k key target used bs r other h))
      | inr new ↦
          rw (new, drop_stale_hashes)
            (drop_stale_hashes-Holds ttl now rest key target used bs r fresh.1 h)
    ]

remove_dangling_loop-Holds :
    (entries : Assoc String) (key : String) (target : Option String) (used : Option ℕ)
    (bs : Assoc ℕ) (r : RateLimiter)
    → All (λ e. str_eq e.0 key ≡ true → lookup e.1 bs ≢ none) entries
    → Holds key target used bs r
    → Holds key target used bs (remove_dangling_loop entries r)
unfolding remove_dangling_loop
remove_dangling_loop-Holds [] key target used bs r there h = h
remove_dangling_loop-Holds ((k, t) ∷ rest) key target used bs r there h =
    elim (Option-cases (lookup t r.buckets)) [
      | inr (a, e) ↦
          rw (e, remove_dangling_loop)
            (remove_dangling_loop-Holds rest key target used bs r there.1 h)
      | inl gone ↦
          let other : str_eq k key ≡ false = elim (Bool-cases (str_eq k key)) [
            | inl hit ↦ absurd (there.0 hit (subst (λ b. lookup t b ≡ none) h.2 gone))
            | inr miss ↦ miss
          ] in
          rw (gone, remove_dangling_loop)
            (remove_dangling_loop-Holds rest key target used bs (forget r k) there.1
              (forget-Holds k key target used bs r other h))
    ]

pub lookup-erase-none :
    {V : Type 0} (k j : String) (m : Assoc V) → lookup j m ≡ none → lookup j (erase k m) ≡ none
lookup-erase-none k j m h = ground (arith, lookup-erase k j m)

pub erase-Unique : {V : Type 0} (k : String) (m : Assoc V) → Unique m → Unique (erase k m)
unfolding erase
erase-Unique k [] u = tt
erase-Unique k ((j, v) ∷ m) u = elim (Bool-cases (str_eq j k)) [
  | inl hit ↦ rw hit (erase-Unique k m u.1)
  | inr miss ↦ rw miss (lookup-erase-none k j m u.0, erase-Unique k m u.1)
]

heap-sweep : (r : RateLimiter) (now : ℕ) → (sweep r now).heap ≡ r.heap
heap-sweep r now = sweep-keeps (λ q. q.heap ≡ r.heap) (λ q k h. h) (λ q t h. h) r now refl

unmapped-sweep :
    (r : RateLimiter) (key : String) (now : ℕ)
    → lookup key r.bucket_hashes ≡ none
    → lookup key (sweep r now).bucket_hashes ≡ none
unmapped-sweep r key now =
    sweep-keeps (λ q. lookup key q.bucket_hashes ≡ none) (λ q k h. forgotten q.bucket_hashes k h)
      (λ q t h. h) r now
  where
    forgotten :
        (hs : Assoc String) (k : String) → lookup key hs ≡ none → lookup key (erase k hs) ≡ none
    forgotten hs k h = lookup-erase-none k key hs h

-- The limiter after the stale buckets are dropped, and after the stale mappings are.
abbrev dropped : RateLimiter → ℕ → RateLimiter
dropped r now = record r {
  last_cleanup = now;
  buckets = drop_stale_buckets r.heap r.bucket_ttl now r.buckets;
}

abbrev thinned : RateLimiter → ℕ → RateLimiter
thinned r now = drop_stale_hashes r.bucket_ttl now r.bucket_hash_used (dropped r now)

buckets-sweep :
    (r : RateLimiter) (now : ℕ)
    → (sweep r now).buckets ≡ drop_stale_buckets r.heap r.bucket_ttl now r.buckets
unfolding sweep
buckets-sweep r now =
    remove_dangling-keeps (λ q. q.buckets ≡ (dropped r now).buckets) (λ q k h. h) (thinned r now)
      (drop_stale_hashes-keeps (λ q. q.buckets ≡ (dropped r now).buckets) (λ q k h. h) r.bucket_ttl
        now r.bucket_hash_used (dropped r now) refl)

sweep-Holds :
    (r : RateLimiter) (key target : String) (used now : ℕ)
    → Maps r
    → lookup key r.bucket_hashes ≡ some target
    → lookup key r.bucket_hash_used ≡ some used
    → now ≤ used + r.bucket_ttl
    → lookup target (dropped r now).buckets ≢ none
    → Holds key (some target) (some used) (dropped r now).buckets (sweep r now)
unfolding sweep remove_dangling
sweep-Holds r key target used now maps mapped used_at l there =
    let thin =
      drop_stale_hashes-Holds r.bucket_ttl now r.bucket_hash_used key (some target) (some used)
        (dropped r now).buckets (dropped r now)
        (All-of_lookup (λ t. now ≤ t + r.bucket_ttl) key used r.bucket_hash_used maps.used used_at
          l)
        (mapped, used_at, refl) in
    let unique =
      drop_stale_hashes-keeps (λ q. Unique q.bucket_hashes)
        (λ q k u. erase-Unique k q.bucket_hashes u) r.bucket_ttl now r.bucket_hash_used
        (dropped r now) maps.hashes in
    remove_dangling_loop-Holds (thinned r now).bucket_hashes key (some target) (some used)
      (dropped r now).buckets (thinned r now)
      (All-of_lookup (λ t. lookup t (dropped r now).buckets ≢ none) key target
        (thinned r now).bucket_hashes unique thin.0 there)
      thin

-- A way to a bucket survives a sweep while all on it is fresh.
sweep-Leads :
    (r : RateLimiter) (key : String) (a since now : ℕ)
    → Maps r
    → now ≤ since + r.bucket_ttl
    → Leads r key a since
    → Leads (sweep r now) key a since
sweep-Leads r key a since now maps l (directly unmapped there fresh) =
    let kept = lookup-drop_stale r.heap r.bucket_ttl now key a r.buckets there (omega arith) in
    directly (unmapped-sweep r key now unmapped) (rw buckets-sweep kept) (rw heap-sweep fresh)
sweep-Leads r key a since now maps l (by_mapping target used mapped there used_at fresh_use fresh) =
    let kept = lookup-drop_stale r.heap r.bucket_ttl now target a r.buckets there (omega arith) in
    let held =
      sweep-Holds r key target used now maps mapped used_at (omega arith)
        (λ e. absurd (cc (kept, e))) in
    by_mapping target used held.0 (rw buckets-sweep kept) held.1 fresh_use (rw heap-sweep fresh)

cleanup-Leads :
    (r : RateLimiter) (key : String) (a since now : ℕ)
    → Maps r
    → now ≤ since + r.bucket_ttl
    → Leads r key a since
    → Leads (cleanup_buckets r now) key a since
unfolding cleanup_buckets
cleanup-Leads r key a since now maps l way = elim (Bool-cases (r.bucket_ttl == 0)) [
  | inl off ↦ rw off way
  | inr on ↦
      elim (Bool-cases
        (not (r.last_cleanup == 0) && ltb (now - r.last_cleanup) (cleanup_every r))) [
          | inl recent ↦ rw (on, recent) way
          | inr due ↦ rw (on, due) (sweep-Leads r key a since now maps l way)
        ]
]

find_by_way :
    (r : RateLimiter) (key route major : String) (a since now : ℕ)
    → Leads (cleanup_buckets r now) key a since
    → (get_bucket r key route major now).1 ≡ a
unfolding get_bucket follow_mapping find_or_create
find_by_way r key route major a since now (directly unmapped there fresh) =
    rw (unmapped, get_bucket, there, find_or_create)
find_by_way r key route major a since now
      (by_mapping target used mapped there used_at fresh_use fresh) =
    rw (mapped, get_bucket, there, follow_mapping)

-- A key that leads to a bucket gets that very bucket, as long as no more than the TTL has passed since
-- the way to it was used.
pub get_bucket-Leads :
    (r : RateLimiter) (key route major : String) (a since now : ℕ)
    → Maps r
    → Leads r key a since
    → now ≤ since + r.bucket_ttl
    → (get_bucket r key route major now).1 ≡ a
get_bucket-Leads r key route major a since now maps way l =
    find_by_way r key route major a since now (cleanup-Leads r key a since now maps l way)
