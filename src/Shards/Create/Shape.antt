-- ===== src/Shards/Create/Shape.antt =====
-- The sessions of a new shard manager.
use dgo.Prelude.{
  ℕ, zero, suc, ◌+◌, ◌<◌, ◌≡◌, refl, sym, ◌∙◌, subst, String, true, false, List, [], ◌∷◌, ◌++◌,
  none, some, length, leb, get_elem?, arith, length-append, inl, inr, Bool-cases, ◌≢◌, ◌↔◌,
}
use text.Mathlib.Text.{◌==◌ as str_eq}
use dgo.Prelude.Int.{ℤ, pos, pos_part, leb_ℤ, ltb_ℤ, ◌≤ℤ◌}
use dgo.Identify.{Coordinator, new_coordinator}
use dgo.Shards.Create.{
  GatewayBot, Session, Made, session, factory_error, nil_session, Created, created, failed,
  CreateError, create_failed, create_nil, response, create_loop, create_all, use_answer,
  new_shard_manager, assign, session_of,
}

-- Each of `n` shards has its session, in order, with its own number and the count.
pub record Numbered (count : ℕ) (url : String) (n : ℕ) (sessions : List Session) : Type 0 where
  pub many : length sessions ≡ n
  pub own :
      (i : ℕ)
      → i < n
      → (s : Session) × (get_elem? sessions i ≡ some s)
        × (s.shard_id ≡ i)
        × (s.shard_count ≡ count)
        × (s.gateway ≡ url)

get_elem?-snoc_old :
    {A : Type 0} (xs : List A) (y : A) (i : ℕ)
    → i < length xs
    → get_elem? (xs ++ y ∷ []) i ≡ get_elem? xs i
get_elem?-snoc_old [] y i l = absurd (omega arith)
get_elem?-snoc_old (x ∷ xs) y zero l = refl
get_elem?-snoc_old (x ∷ xs) y (suc i) l = get_elem?-snoc_old xs y i (omega arith)

get_elem?-snoc_new :
    {A : Type 0} (xs : List A) (y : A) (i : ℕ) → i ≡ length xs → get_elem? (xs ++ y ∷ []) i ≡ some y
get_elem?-snoc_new [] y i e = rw e refl
get_elem?-snoc_new (x ∷ xs) y zero e = absurd (omega arith)
get_elem?-snoc_new (x ∷ xs) y (suc i) e = get_elem?-snoc_new xs y i (omega arith)

snoc-Numbered :
    (count : ℕ) (url : String) (n handle : ℕ) (sessions : List Session)
    → Numbered count url n sessions
    → Numbered count url (suc n) (sessions ++ assign handle n count url ∷ [])
unfolding assign
snoc-Numbered count url n handle sessions v = record {
  many =
      (let e = length-append sessions (assign handle n count url ∷ []) in
        let m = v.many in omega arith);
  own = λ i l. elim (Bool-cases (leb n i)) [
    | inl last ↦
        let at_end : i ≡ n = ground arith in
        (
          assign handle n count url,
          get_elem?-snoc_new sessions (assign handle n count url) i (let m = v.many in omega arith),
          sym at_end,
          refl,
          refl,
        )
    | inr before ↦
        let (s, there, a, b, c) = v.own i (ground arith) in
        (
          s,
          get_elem?-snoc_old sessions (assign handle n count url) i (let m = v.many in ground arith)
              ∙ there,
          a,
          b,
          c,
        )
  ];
}

-- A manager has the sessions of all shards. An error leaves those made before it, which it closes.
pub data Shape (count : ℕ) (url : String) : Created → Type 0 where
  complete :
      (c : Coordinator) (ss : List Session)
      → Numbered count url count ss
      → Shape count url (created c ss)
  partial :
      (e : CreateError) (k : ℕ) (ss : List Session)
      → k < count
      → Numbered count url k ss
      → Shape count url (failed e ss)

create_loop-Shape :
    (factory : ℕ → ℕ → Made) (count : ℕ) (url : String) (c : Coordinator) (left k : ℕ)
    (ss : List Session)
    → left + k ≡ count
    → Numbered count url k ss
    → Shape count url (create_loop factory count url c left k ss)
unfolding create_loop
create_loop-Shape factory count url c zero k ss e v =
    complete c ss (let all : k ≡ count = omega arith in subst (λ n. Numbered count url n ss) all v)
create_loop-Shape factory count url c (suc left) k ss e v = go (factory k count) refl (λ handle.
    create_loop-Shape factory count url c left (suc k) (ss ++ assign handle k count url ∷ [])
      (omega arith) (snoc-Numbered count url k handle ss v))
  where
    go :
        (m : Made)
        → factory k count ≡ m
        → ((handle : ℕ)
            → Shape count url (
                create_loop factory count url c left
                  (suc k)
                  (ss ++ assign handle k count url ∷ [])))
        → Shape count url (create_loop factory count url c (suc left) k ss)
    go (session handle) f rest = rw (f, create_loop) (rest handle)
    go (factory_error err) f rest =
        rw (f, create_loop) (partial (create_failed k err) k ss (omega arith) v)
    go nil_session f rest = rw (f, create_loop) (partial (create_nil k) k ss (omega arith) v)

-- With a live context and a response that has a URL, a positive number of shards and a usable limit,
-- construction either makes the sessions of all shards, in order, each with its number, the number of
-- shards and the URL, or it fails and closes those that it has made, the sessions of the first shards.
pub new_shard_manager-Shape :
    (factory : ℕ → ℕ → Made) (bot : GatewayBot) (now : ℕ) (c : Coordinator)
    → str_eq bot.url "" ≡ false
    → pos 1 ≤ℤ bot.shards
    → new_coordinator true bot.limit now ≡ inl c
    → Shape (pos_part bot.shards) bot.url (new_shard_manager factory true none (response bot) now)
unfolding new_shard_manager use_answer create_all
new_shard_manager-Shape factory bot now c named some_shards usable =
    let positive : leb_ℤ bot.shards (pos 0) ≡ false = ground arith in
    rw (named, positive, usable)
      (create_loop-Shape factory (pos_part bot.shards) bot.url c (pos_part bot.shards) 0 []
        (omega arith) (record { many = refl; own = λ i l. absurd (omega arith) }))

-- In a manager that has been made, a number finds its session exactly if it is that of a shard.
pub session_of-Numbered :
    (count : ℕ) (url : String) (ss : List Session) (shard_id : ℤ)
    → Numbered count url count ss
    → 0 < count
    → (session_of ss shard_id ≢ none) ↔ ((pos 0 ≤ℤ shard_id) × (pos_part shard_id < count))
unfolding session_of
session_of-Numbered count url ss shard_id v p = (
  λ h. elim (Bool-cases (ltb_ℤ shard_id (pos 0))) [
    | inl negative ↦ absurd (h (rw negative refl))
    | inr nonneg ↦ elim (Bool-cases (leb (length ss) (pos_part shard_id))) [
      | inl beyond ↦ absurd (h (rw (nonneg, beyond) refl))
      | inr within ↦ (ground arith, let m = v.many in ground arith)
    ]
  ],
  λ (nonneg, within).
      let a : ltb_ℤ shard_id (pos 0) ≡ false = ground arith in
      let b : leb (length ss) (pos_part shard_id) ≡ false = let m = v.many in ground arith in
      let (s, there, own, rest1, rest2) = v.own (pos_part shard_id) within in
      λ h. found s (sym there ∙ sym (rw (a, b) refl) ∙ h),
)
  where
    found : (s : Session) → some s ≡ none → ⊥
    found s e = ground arith
