-- ===== src/RateLimit/Release/Taught.antt =====
-- What the headers of a response teach a bucket, told from the headers.
use text.Mathlib.Text.{◌==◌ as str_eq}
use dgo.Prelude.{
  ℕ, ◌+◌, ◌-◌, ◌≡◌, refl, ◌∙◌, ap, String, Bool, true, false, Option, none, some, arith,
  if◌then◌else◌,
}
use dgo.Prelude.Int.{ℤ}
use dgo.RateLimit.{RateLimiter, Bucket, store, touch}
use dgo.RateLimit.Release.{
  Field, absent, malformed, value, Headers, Clock, ReleaseError, is_global, and_then, learn_scope,
  learn_limit, learn_reset, learn_deadline, learn_date, learn_remaining, learn,
}

-- What a store writes is read back.
pub store_self : (h : ℕ → Bucket) (x : ℕ) (v : Bucket) → store h x v x ≡ v
store_self h x v = ground arith

-- A field that is there is written; another leaves what was known.
abbrev pub written : {A : Type 0} → Field A → A → A
written (value new) old = new
written absent old = old
written malformed old = old

abbrev pub parses : {A : Type 0} → Field A → Bool
parses malformed = false
parses absent = true
parses (value new) = true

-- The deadline is read from Reset-After or, without that, from Reset, which needs a date.
abbrev pub parses_deadline : Field ℕ → Field ℕ → Field ℕ → Bool
parses_deadline (value d) reset date = true
parses_deadline malformed reset date = false
parses_deadline absent absent date = true
parses_deadline absent malformed date = false
parses_deadline absent (value t) (value d) = true
parses_deadline absent (value t) absent = false
parses_deadline absent (value t) malformed = false

-- The deadline of the bucket by the headers at a time now, where all says that Reset-After is the deadline of every
-- bucket.
abbrev pub deadline_of : Bool → Field ℕ → Field ℕ → Field ℕ → ℕ → ℕ → ℕ
deadline_of all (value d) reset date now old = if all then old else now + d
deadline_of all absent (value t) (value d) now old = now + t + 250000000 - d
deadline_of all absent (value t) absent now old = old
deadline_of all absent (value t) malformed now old = old
deadline_of all absent absent date now old = old
deadline_of all absent malformed date now old = old
deadline_of all malformed reset date now old = old

-- The limits that a bucket knows after the headers.
abbrev pub taught : Bucket → Headers → ℕ → ℤ × ℤ × ℕ
taught b h now = (
  written h.limit b.limit,
  written h.remaining b.remaining,
  deadline_of (is_global h) h.reset_after h.reset h.date now b.reset,
)

-- A step returns no error, and the bucket is b after it.
abbrev pub Gives : ℕ → Bucket → RateLimiter × Option ReleaseError → Type 0
Gives a b out = (out.1 ≡ none) × (out.0.heap a ≡ b)

and_then-Gives :
    (a : ℕ) (b c : Bucket) (out : RateLimiter × Option ReleaseError)
    (next : RateLimiter → RateLimiter × Option ReleaseError)
    → Gives a b out
    → ((q : RateLimiter) → q.heap a ≡ b → Gives a c (next q))
    → Gives a c (and_then out next)
and_then-Gives a b c (q, none) next h k = k q h.1
and_then-Gives a b c (q, some e) next h k = absurd (ground (arith, h.0))

pub and_then-none :
    (out : RateLimiter × Option ReleaseError)
    (next : RateLimiter → RateLimiter × Option ReleaseError)
    → out.1 ≡ none
    → and_then out next ≡ next out.0
and_then-none (q, none) next h = refl
and_then-none (q, some e) next h = absurd (ground (arith, h))

learn_limit-Gives :
    (q : RateLimiter) (a : ℕ) (f : Field ℤ) (b : Bucket)
    → parses f ≡ true
    → q.heap a ≡ b
    → Gives a (record b { limit = written f b.limit }) (learn_limit q a f)
unfolding learn_limit
learn_limit-Gives q a absent b ok h = (refl, h)
learn_limit-Gives q a malformed b ok h = absurd (ground arith)
learn_limit-Gives q a (value n) b ok h =
    (refl, store_self q.heap a _ ∙ ap (λ (x : Bucket). record x { limit = n }) h)

learn_remaining-Gives :
    (q : RateLimiter) (a : ℕ) (f : Field ℤ) (b : Bucket)
    → parses f ≡ true
    → q.heap a ≡ b
    → Gives a (record b { remaining = written f b.remaining }) (learn_remaining q a f)
unfolding learn_remaining
learn_remaining-Gives q a absent b ok h = (refl, h)
learn_remaining-Gives q a malformed b ok h = absurd (ground arith)
learn_remaining-Gives q a (value n) b ok h =
    (refl, store_self q.heap a _ ∙ ap (λ (x : Bucket). record x { remaining = n }) h)

reset-Gives :
    (q : RateLimiter) (a : ℕ) (b : Bucket) (t : ℕ)
    → q.heap a ≡ b
    → store q.heap a (record (q.heap a) { reset = t }) a ≡ record b { reset = t }
reset-Gives q a b t h = store_self q.heap a _ ∙ ap (λ (x : Bucket). record x { reset = t }) h

learn_deadline-Gives :
    (q : RateLimiter) (a : ℕ) (b : Bucket) (all : Bool) (d now : ℕ) (reset date : Field ℕ)
    → q.heap a ≡ b
    → (learn_deadline q a all (now + d)).heap a
      ≡ record b { reset = deadline_of all (value d) reset date now b.reset }
unfolding learn_deadline
learn_deadline-Gives q a b true d now reset date h = h
learn_deadline-Gives q a b false d now reset date h = reset-Gives q a b (now + d) h

learn_date-Gives :
    (q : RateLimiter) (a : ℕ) (b : Bucket) (all : Bool) (reset date : Field ℕ) (now : ℕ)
    → parses_deadline absent reset date ≡ true
    → q.heap a ≡ b
    → Gives a
        (record b { reset = deadline_of all absent reset date now b.reset })
        (learn_date q a reset date now)
unfolding learn_date
learn_date-Gives q a b all absent date now ok h = (refl, h)
learn_date-Gives q a b all malformed date now ok h = absurd (ground arith)
learn_date-Gives q a b all (value t) absent now ok h = absurd (ground arith)
learn_date-Gives q a b all (value t) malformed now ok h = absurd (ground arith)
learn_date-Gives q a b all (value t) (value d) now ok h =
    (refl, reset-Gives q a b (now + t + 250000000 - d) h)

learn_reset-Gives :
    (q : RateLimiter) (a : ℕ) (h : Headers) (f : Field ℕ) (now : ℕ) (b : Bucket)
    → parses_deadline f h.reset h.date ≡ true
    → q.heap a ≡ b
    → Gives a
        (record b { reset = deadline_of (is_global h) f h.reset h.date now b.reset })
        (learn_reset q a h f now)
unfolding learn_reset
learn_reset-Gives q a h absent now b ok e =
    learn_date-Gives q a b (is_global h) h.reset h.date now ok e
learn_reset-Gives q a h malformed now b ok e = absurd (ground arith)
learn_reset-Gives q a h (value d) now b ok e =
    (refl, learn_deadline-Gives q a b (is_global h) d now h.reset h.date e)

-- The bucket of a response without its limits: it was just used, and has the scope of the response.
abbrev pub used_in : Bucket → String → ℕ → Bucket
used_in b scope now = record b {
  last_used = now;
  scope = if str_eq scope "" then b.scope else scope;
}

touch-bucket :
    (r : RateLimiter) (a now : ℕ) → (touch r a now).heap a ≡ record (r.heap a) { last_used = now }
unfolding touch
touch-bucket r a now = ground arith

learn_scope-bucket :
    (r : RateLimiter) (a now : ℕ) (scope : String)
    → (learn_scope (touch r a now) a scope).heap a ≡ used_in (r.heap a) scope now
unfolding learn_scope
learn_scope-bucket r a now scope =
    store_self (touch r a now).heap a _
    ∙ ap (λ (b : Bucket). record b { scope = if str_eq scope "" then b.scope else scope })
        (touch-bucket r a now)

-- The bucket after the headers.
abbrev pub learnt : Bucket → Headers → Clock → Bucket
learnt b h clock =
    let (l, n, t) = taught b h clock.reset in
    record (used_in b h.scope clock.used) { limit = l; remaining = n; reset = t }

module _ (r : RateLimiter) (a : ℕ) (h : Headers) (clock : Clock)
    (limit_parses : parses h.limit ≡ true) (remaining_parses : parses h.remaining ≡ true)
    (deadline_parses : parses_deadline h.reset_after h.reset h.date ≡ true) where
  pub learn-Gives : Gives a (learnt (r.heap a) h clock) (learn r a h clock)
  unfolding learn
  learn-Gives =
      let b : Bucket = used_in (r.heap a) h.scope clock.used in
      let b1 : Bucket = record b { limit = written h.limit b.limit } in
      let b2 : Bucket = record b1 {
        reset = deadline_of (is_global h) h.reset_after h.reset h.date clock.reset b1.reset;
      } in
      and_then-Gives a b2 (learnt (r.heap a) h clock) _ _
        (and_then-Gives a b1 b2 _ _
          (learn_limit-Gives (learn_scope (touch r a clock.used) a h.scope) a h.limit b limit_parses
            (learn_scope-bucket r a clock.used h.scope))
          (λ q e. learn_reset-Gives q a h h.reset_after clock.reset b1 deadline_parses e))
        (λ q e. learn_remaining-Gives q a h.remaining b2 remaining_parses e)
