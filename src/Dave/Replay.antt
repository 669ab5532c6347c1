-- ===== src/Dave/Replay.antt =====
-- No frame is accepted twice.
use dgo.Prelude.{
  ℕ, ◌+◌, ◌-◌, ◌^◌, ◌/◌, ◌≤◌, ◌≡◌, ◌≢◌, refl, sym, ◌∙◌, subst, String, Bool, true, false, List, [],
  ◌∷◌, ◌++◌, Option, none, some, ltb, leb, ◌==◌, ◌||◌, All, arith, Bool-cases, Option-cases, inl,
  inr,
}
use dgo.Frame.{Cipher, Result, ok, err, Parsed, decrypt_secure_frame, hash_ratchet_get_key}
use dgo.Dave.{
  Receiver, DaveError, replayed_nonce, Reply, plain, refused, accept_nonce, is_replayed,
  enter_generation, finish_frame, after_generation, receive,
}

-- No number occurs twice.
abbrev pub Distinct : List ℕ → Type 0
Distinct [] = Unit {0}
Distinct (n ∷ ns) = All (λ k. k ≢ n) ns × Distinct ns

-- What the window knows of a nonce that was accepted.
abbrev pub Seen : Receiver → ℕ → Type 0
Seen r n =
    (r.has_nonce ≡ true)
    × (n ≤ r.highest_nonce)
    × ((leb 64 (r.highest_nonce - n) || r.replay_window (r.highest_nonce - n)) ≡ true)

Seen-replayed : (r : Receiver) (n : ℕ) → Seen r n → is_replayed r n ≡ true
unfolding is_replayed
Seen-replayed r n h = ground (arith, h.0, h.1, h.2)

accept-Seen : (r : Receiver) (n : ℕ) → Seen (accept_nonce r n) n
unfolding accept_nonce
accept-Seen r n =
    let same : n - n ≡ 0 = omega arith in
    elim (Bool-cases r.has_nonce) [
      | inr first ↦ rw (first, same) (refl, omega arith, refl)
      | inl later ↦ elim (Bool-cases (ltb r.highest_nonce n)) [
        | inl higher ↦ elim (Bool-cases (leb 64 (n - r.highest_nonce))) [
          | inl far ↦ rw (later, higher, far, same) (refl, omega arith, refl)
          | inr near ↦ rw (later, higher, near, same) (refl, omega arith, refl)
        ]
        | inr lower ↦
            let itself : (r.highest_nonce - n == r.highest_nonce - n) ≡ true = ground arith in
            rw (later, lower, itself) (refl, ground arith, ground arith)
      ]
    ]

widen : (a b c : Bool) → (a || b) ≡ true → (a || (b || c)) ≡ true
widen a b c h = ground arith

accept-Seen_old :
    (r : Receiver) (n m : ℕ) → Seen r m → is_replayed r n ≡ false → Seen (accept_nonce r n) m
unfolding accept_nonce is_replayed
accept-Seen_old r n m h fresh =
    let later = h.0 in
    let under = h.1 in
    elim (Bool-cases (ltb r.highest_nonce n)) [
      | inl higher ↦ elim (Bool-cases (leb 64 (n - r.highest_nonce))) [
        | inl far ↦
            let out : leb 64 (n - m) ≡ true = ground arith in
            rw (later, higher, far, out) (refl, ground arith, refl)
        | inr near ↦
            let nonzero : (n - m == 0) ≡ false = ground arith in
            let behind : ltb (n - m) (n - r.highest_nonce) ≡ false = ground arith in
            let shifted : n - m - (n - r.highest_nonce) ≡ r.highest_nonce - m = ground arith in
            elim (Bool-cases (leb 64 (n - m))) [
              | inl out ↦ rw (later, higher, near, out) (refl, ground arith, refl)
              | inr inside ↦
                  let bit : r.replay_window (r.highest_nonce - m) ≡ true = old_bit higher inside in
                  rw (later, higher, near, inside, nonzero, behind, shifted, bit)
                    (refl, ground arith, refl)
            ]
      ]
      | inr lower ↦
          rw (later, lower)
            (
              refl,
              under,
              widen (leb 64 (r.highest_nonce - m)) (r.replay_window (r.highest_nonce - m))
                  (r.highest_nonce - m == r.highest_nonce - n) h.2,
            )
    ]
  where
    old_bit :
        ltb r.highest_nonce n ≡ true
        → leb 64 (n - m) ≡ false
        → r.replay_window (r.highest_nonce - m) ≡ true
    old_bit higher inside =
        let off : leb 64 (r.highest_nonce - m) ≡ false = ground (arith, h.1) in
        let k = h.2 in rw off at k

-- A receiver with the same record of nonces.
record Alike (q r : Receiver) : Type 0 where
  has : q.has_nonce ≡ r.has_nonce
  highest : q.highest_nonce ≡ r.highest_nonce
  window : q.replay_window ≡ r.replay_window

Alike-Seen : (q r : Receiver) (m : ℕ) → Alike q r → Seen r m → Seen q m
Alike-Seen q r m a h = rw (a.has, a.highest, a.window) h

Alike-fresh :
    (q r : Receiver) (m : ℕ) → Alike q r → is_replayed r m ≡ false → is_replayed q m ≡ false
unfolding is_replayed
Alike-fresh q r m a h = rw (a.has, a.highest, a.window) h

-- What came of a frame.
data Received (r : Receiver) (nonce : ℕ) : Receiver × Reply → Type 0 where
  rejected : (q : Receiver) (e : DaveError) → Alike q r → Received r nonce (q, refused e)
  taken :
      (q : Receiver) (text : List ℕ)
      → Alike q r
      → is_replayed r nonce ≡ false
      → Received r nonce (accept_nonce q nonce, plain text)

module _ (cipher_of : List ℕ → Cipher)
    (expand_with_label : List ℕ → String → List ℕ → ℕ → Option (List ℕ)) where
  enter-Alike :
      (r : Receiver) (g : ℕ) → Alike (enter_generation cipher_of expand_with_label r g).0 r
  unfolding enter_generation
  enter-Alike r g =
      let itself : Alike r r = record { has = refl; highest = refl; window = refl } in
      elim (Bool-cases (g == r.current_generation)) [
        | inl same ↦ rw (same, enter_generation) itself
        | inr other ↦
            elim (Bool-cases (ltb g r.current_generation || ltb (r.current_generation + 1) g)) [
              | inl bad ↦ rw (other, bad, enter_generation) itself
              | inr next ↦
                  elim (Option-cases (hash_ratchet_get_key expand_with_label r.base_secret g)) [
                    | inl gone ↦ rw (other, next, gone, enter_generation) itself
                    | inr (key, there) ↦
                        rw (other, next, there, enter_generation)
                          (record { has = refl; highest = refl; window = refl })
                  ]
            ]
      ]

  finish-Received :
      (q r : Receiver) (nonce : ℕ) (o : Result (List ℕ))
      → Alike q r
      → is_replayed r nonce ≡ false
      → Received r nonce (finish_frame cipher_of expand_with_label q nonce o)
  unfolding finish_frame
  finish-Received q r nonce (err e) a f = rejected q _ a
  finish-Received q r nonce (ok text) a f = taken q text a f

  after-Received :
      (p : Parsed) (r : Receiver) (e : Receiver × Option DaveError)
      → Alike e.0 r
      → is_replayed r p.nonce ≡ false
      → Received r p.nonce (after_generation cipher_of expand_with_label p e)
  unfolding after_generation
  after-Received p r (q, some e) a f = rejected q e a
  after-Received p r (q, none) a f =
      finish-Received q r p.nonce
        (decrypt_secure_frame (cipher_of q.key) p.nonce p.ciphertext p.tag) a f

  receive-Received :
      (r : Receiver) (p : Parsed) → Received r p.nonce (receive cipher_of expand_with_label r p)
  unfolding receive
  receive-Received r p = elim (Bool-cases (is_replayed r p.nonce)) [
    | inl old ↦
        rw old (rejected r replayed_nonce (record { has = refl; highest = refl; window = refl }))
    | inr fresh ↦ rw fresh (
        after-Received p r (enter_generation cipher_of expand_with_label r (p.nonce / 2 ^ 24))
          (enter-Alike r (p.nonce / 2 ^ 24)) fresh)
  ]

  -- The nonces of the frames that are accepted, in order.
  abbrev nonce_of : ℕ → Reply → List ℕ
  nonce_of n (plain text) = n ∷ []
  nonce_of n (refused e) = []

  abbrev pub accepted : Receiver → List Parsed → List ℕ
  accepted r [] = []
  accepted r (p ∷ ps) =
      let (q, reply) = receive cipher_of expand_with_label r p in
      nonce_of p.nonce reply ++ accepted q ps

  -- An accepted nonce that was seen before, or is new, in one frame.
  avoid_step :
      (r : Receiver) (n m : ℕ) (ps : List Parsed) (o : Receiver × Reply)
      → Seen r m
      → Received r n o
      → ((q : Receiver) → Seen q m → All (λ k. k ≢ m) (accepted q ps))
      → All (λ k. k ≢ m) (nonce_of n o.1 ++ accepted o.0 ps)
  avoid_step r n m ps o h (rejected q e a) rest = rest q (Alike-Seen q r m a h)
  avoid_step r n m ps o h (taken q text a fresh) rest = (
    λ same.
        let old = Seen-replayed r m h in
        clash (subst (λ k. is_replayed r k ≡ false) same fresh) old,
    rest (accept_nonce q n)
        (accept-Seen_old q n m (Alike-Seen q r m a h) (Alike-fresh q r n a fresh)),
  )
    where
      clash : is_replayed r m ≡ false → is_replayed r m ≡ true → ⊥
      clash f g = let e = sym f ∙ g in ground arith

  avoids : (r : Receiver) (ps : List Parsed) (m : ℕ) → Seen r m → All (λ k. k ≢ m) (accepted r ps)
  avoids r [] m h = tt
  avoids r (p ∷ ps) m h =
      avoid_step r p.nonce m ps (receive cipher_of expand_with_label r p) h (receive-Received r p)
        (λ q k. avoids q ps m k)

  new_step :
      (r : Receiver) (n : ℕ) (ps : List Parsed) (o : Receiver × Reply)
      → Received r n o
      → ((q : Receiver) → Distinct (accepted q ps))
      → Distinct (nonce_of n o.1 ++ accepted o.0 ps)
  new_step r n ps o (rejected q e a) rest = rest q
  new_step r n ps o (taken q text a fresh) rest =
      (avoids (accept_nonce q n) ps n (accept-Seen q n), rest (accept_nonce q n))

  -- Whatever frames a receiver is given, whatever their keys and tags, no nonce is accepted twice.
  pub accepted-Distinct : (r : Receiver) (ps : List Parsed) → Distinct (accepted r ps)
  accepted-Distinct r [] = tt
  accepted-Distinct r (p ∷ ps) =
      new_step r p.nonce ps (receive cipher_of expand_with_label r p) (receive-Received r p)
        (λ q. accepted-Distinct q ps)
