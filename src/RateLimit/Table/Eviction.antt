-- ===== src/RateLimit/Table/Eviction.antt =====
-- What the caches evict: the entry that was used longest ago.
use text.Mathlib.Text.{◌==◌ as str_eq}
use text.Mathlib.TextEquality.{eq_iff}
use dgo.Prelude.{
  ℕ, zero, suc, ◌+◌, ◌<◌, ◌≤◌, ◌≡◌, refl, ap, ◌∙◌, String, true, false, [], ◌∷◌, ◌++◌, some, arith,
  length, All, ltb, ◌==◌, ◌||◌, ◌⊎◌, Bool-cases, inl, inr,
}
use dgo.Prelude.Assoc.{Assoc, lookup, insert, erase, length-erase_lt}
use dgo.RateLimit.Table.{remove_dangling-keeps}
use dgo.RateLimit.{
  RateLimiter, Bucket, drop_stale_buckets, make_room_loop, make_bucket_room, is_stale, oldest,
  remove_dangling,
}

-- No entry has the empty key.
abbrev pub Named {ℓ} : {V : Type ℓ} → Assoc V → Type 0
Named [] = Unit {0}
Named (e ∷ m) = (str_eq e.0 "" ≡ false) × Named m

module _ {ℓ} {V : Type ℓ} where
  pub erase-Named : (k : String) (m : Assoc V) → Named m → Named (erase k m)
  unfolding erase
  erase-Named k [] h = tt
  erase-Named k ((j, v) ∷ m) h = elim (Bool-cases (str_eq j k)) [
    | inl hit ↦ rw hit (erase-Named k m h.1)
    | inr miss ↦ rw miss (h.0, erase-Named k m h.1)
  ]

  pub insert-Named :
      (k : String) (v : V) (m : Assoc V) → str_eq k "" ≡ false → Named m → Named (insert k v m)
  unfolding insert
  insert-Named k v [] e h = (e, tt)
  insert-Named k v ((j, w) ∷ m) e h = elim (Bool-cases (str_eq j k)) [
    | inl hit ↦ rw hit (h.0, h.1)
    | inr miss ↦ rw miss (h.0, insert-Named k v m e h.1)
  ]

pub drop_stale-Named :
    (heap : ℕ → Bucket) (ttl now : ℕ) (m : Assoc ℕ)
    → Named m
    → Named (drop_stale_buckets heap ttl now m)
unfolding drop_stale_buckets
drop_stale-Named heap ttl now [] h = tt
drop_stale-Named heap ttl now ((k, a) ∷ m) h =
    elim (Bool-cases (is_stale ttl now (heap a).last_used)) [
      | inl old ↦ rw old (drop_stale-Named heap ttl now m h.1)
      | inr fresh ↦ rw fresh (h.0, drop_stale-Named heap ttl now m h.1)
    ]

-- An entry of a map.
abbrev pub In : String → ℕ → Assoc ℕ → Type 0
In k v [] = ⊥
In k v ((j, w) ∷ m) = ((j ≡ k) × (w ≡ v)) ⊎ In k v m

pub lookup-In : (k : String) (v : ℕ) (m : Assoc ℕ) → In k v m → (w : ℕ) × (lookup k m ≡ some w)
unfolding lookup
lookup-In k v [] h = absurd h
lookup-In k v ((j, w) ∷ m) (inl (e, f)) = (w, rw ((eq_iff j k).1 e) refl)
lookup-In k v ((j, w) ∷ m) (inr h) = elim (Bool-cases (str_eq j k)) [
  | inl hit ↦ (w, rw hit refl)
  | inr miss ↦ let (u, e) = lookup-In k v m h in (u, rw miss e)
]

-- A key and the time of its entry, none of the entries being older.
pub record Least (used_of : ℕ → ℕ) (m : Assoc ℕ) (k : String) : Type 0 where
  pub value : ℕ
  pub member : In k value m
  pub least : All (λ e. used_of value ≤ used_of e.1) m

-- The search, once it has met an entry that it keeps as the oldest so far.
data Search (used_of : ℕ → ℕ) (m : Assoc ℕ) (key : String) (used : ℕ) : String → Type 0 where
  kept : All (λ e. used ≤ used_of e.1) m → Search used_of m key used key
  newer_found :
      (k : String) (v : ℕ)
      → In k v m
      → used_of v ≤ used
      → All (λ e. used_of v ≤ used_of e.1) m
      → Search used_of m key used k

oldest-Search :
    (used_of : ℕ → ℕ) (m : Assoc ℕ) (key : String) (used : ℕ)
    → str_eq key "" ≡ false
    → Named m
    → Search used_of m key used (oldest used_of m key used)
unfolding oldest
oldest-Search used_of [] key used e h = kept tt
oldest-Search used_of ((k, v) ∷ m) key used e h = elim (Bool-cases (ltb (used_of v) used)) [
  | inl older ↦
      rw (e, older)
        (took (oldest used_of m k (used_of v)) (oldest-Search used_of m k (used_of v) h.0 h.1)
          older)
  | inr newer ↦
      rw (e, newer)
        (left (oldest used_of m key used) (oldest-Search used_of m key used e h.1) newer)
]
  where
    took :
        (r : String)
        → Search used_of m k (used_of v) r
        → ltb (used_of v) used ≡ true
        → Search used_of ((k, v) ∷ m) key used r
    took _ (kept a) o = newer_found k v (inl (refl, refl)) (ground arith) (omega arith, a)
    took _ (newer_found j w i l a) o = newer_found j w (inr i) (ground arith) (l, a)

    left :
        (r : String)
        → Search used_of m key used r
        → ltb (used_of v) used ≡ false
        → Search used_of ((k, v) ∷ m) key used r
    left _ (kept a) o = kept (ground arith, a)
    left _ (newer_found j w i l a) o = newer_found j w (inr i) l (ground arith, a)

-- Where no key is empty, the search finds an entry than which none is older.
pub oldest-Least :
    (used_of : ℕ → ℕ) (k : String) (v : ℕ) (m : Assoc ℕ)
    → Named ((k, v) ∷ m)
    → Least used_of ((k, v) ∷ m) (oldest used_of ((k, v) ∷ m) "" 0)
unfolding oldest
oldest-Least used_of k v m h =
    done (oldest used_of m k (used_of v)) (oldest-Search used_of m k (used_of v) h.0 h.1)
  where
    done : (r : String) → Search used_of m k (used_of v) r → Least used_of ((k, v) ∷ m) r
    done _ (kept a) = record { value = v; member = inl (refl, refl); least = (omega arith, a) }
    done _ (newer_found j w i l a) = record { value = w; member = inr i; least = (l, a) }

pub oldest-Named :
    (used_of : ℕ → ℕ) (m : Assoc ℕ) (key : String) (used : ℕ)
    → str_eq key "" ≡ false
    → Named m
    → str_eq (oldest used_of m key used) "" ≡ false
unfolding oldest
oldest-Named used_of [] key used e h = e
oldest-Named used_of ((k, v) ∷ m) key used e h =
    elim (Bool-cases (str_eq key "" || ltb (used_of v) used)) [
      | inl older ↦ rw (older) (oldest-Named used_of m k (used_of v) h.0 h.1)
      | inr newer ↦ rw (newer) (oldest-Named used_of m key used e h.1)
    ]

pub buckets-remove_dangling : (r : RateLimiter) → (remove_dangling r).buckets ≡ r.buckets
buckets-remove_dangling r = remove_dangling-keeps (λ q. q.buckets ≡ r.buckets) (λ q k h. h) r refl

-- With room there is nothing to do.
make_room_done :
    (rounds extra : ℕ) (r : RateLimiter)
    → length r.buckets + extra ≤ r.max_buckets
    → (make_room_loop rounds extra r).buckets ≡ r.buckets
unfolding make_room_loop
make_room_done zero extra r h = refl
make_room_done (suc rounds) extra r h = ground arith

abbrev pub last_used : RateLimiter → ℕ → ℕ
last_used r a = (r.heap a).last_used

one_round :
    (n : ℕ) (r : RateLimiter)
    → length r.buckets ≡ r.max_buckets
    → length r.buckets ≡ suc n
    → str_eq (oldest (last_used r) r.buckets "" 0) "" ≡ false
    → (make_room_loop (length r.buckets) 1 r).buckets
      ≡ (make_room_loop n 1
          (record r { buckets = erase (oldest (last_used r) r.buckets "" 0) r.buckets })).buckets
unfolding make_room_loop
one_round n r full l named = rw (l, make_room_loop) (ground arith)

-- A full table that is not empty and has no empty key makes room for one more bucket by dropping
-- the entry of one key, and no entry of the table was used before that one.
pub room_by_eviction :
    (r : RateLimiter) (k : String) (v : ℕ) (m : Assoc ℕ)
    → r.buckets ≡ (k, v) ∷ m
    → Named r.buckets
    → length r.buckets ≡ r.max_buckets
    → (victim : String) × Least (last_used r) r.buckets victim
      × ((make_bucket_room r 1).buckets ≡ erase victim r.buckets)
unfolding make_bucket_room oldest
room_by_eviction r k v m e named full =
    let victim : String = oldest (last_used r) r.buckets "" 0 in
    let least : Least (last_used r) r.buckets victim =
      rw e (oldest-Least (last_used r) k v m (rw e at named)) in
    let (w, there) = lookup-In victim least.value r.buckets least.member in
    let smaller = length-erase_lt victim w r.buckets there in
    let some_entry : length r.buckets ≡ suc (length m) = rw e refl in
    let picked : str_eq victim "" ≡ false =
      rw e (oldest-Named (last_used r) m k (last_used r v) (rw e at named).0 (rw e at named).1) in
    let on : (r.max_buckets == 0) ≡ false = ground arith in
    let dropped : RateLimiter = record r { buckets = erase victim r.buckets } in
    (
      victim,
      least,
      rw on (
          buckets-remove_dangling (make_room_loop (length r.buckets) 1 r)
          ∙ one_round (length m) r full some_entry picked
          ∙ make_room_done (length m) 1 dropped (omega arith)),
    )

oldest-empty :
    (used_of : ℕ → ℕ) (a : ℕ) (m : Assoc ℕ) (key : String) (used : ℕ)
    → (str_eq key "" || ltb (used_of a) used) ≡ true
    → All (λ e. used_of a < used_of e.1) m
    → oldest used_of (m ++ ("", a) ∷ []) key used ≡ ""
unfolding oldest
oldest-empty used_of a [] key used h all = rw h
oldest-empty used_of a ((k, v) ∷ m) key used h all =
    elim (Bool-cases (str_eq key "" || ltb (used_of v) used)) [
      | inl older ↦ rw (older, oldest) (oldest-empty used_of a m k (used_of v) (ground arith) all.1)
      | inr newer ↦ rw (newer, oldest) (oldest-empty used_of a m key used h all.1)
    ]

-- The empty key stops eviction. If `range` meets a bucket under the empty key last, and it is the one
-- used longest ago, then no room is made, however full the table is.
pub empty_key_stops_eviction :
    (r : RateLimiter) (m : Assoc ℕ) (a extra : ℕ)
    → r.buckets ≡ m ++ ("", a) ∷ []
    → All (λ e. last_used r a < last_used r e.1) m
    → (make_bucket_room r extra).buckets ≡ r.buckets
unfolding make_bucket_room
empty_key_stops_eviction r m a extra e all = elim (Bool-cases (r.max_buckets == 0)) [
  | inl off ↦ rw off refl
  | inr on ↦ rw on (
      buckets-remove_dangling (make_room_loop (length r.buckets) extra r)
      ∙ stuck (length r.buckets))
]
  where
    picked : oldest (last_used r) r.buckets "" 0 ≡ ""
    picked = ap (λ b. oldest (last_used r) b "" 0) e ∙ oldest-empty (last_used r) a m "" 0 refl all

    stuck : (rounds : ℕ) → (make_room_loop rounds extra r).buckets ≡ r.buckets
    stuck zero = unfold make_room_loop in refl
    stuck (suc rounds) = unfold make_room_loop in rw picked (ground arith)
