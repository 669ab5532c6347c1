-- ===== src/Shards/Work.antt =====
-- Which calls can be at work on the manager together, and that new calls keep it so.
use dgo.Prelude.{
  ℕ, zero, suc, ◌<◌, ◌≤◌, ◌≡◌, ◌≢◌, refl, sym, ap, ◌∙◌, subst, Bool, true, false, List, [], ◌∷◌,
  ◌++◌, Option, none, some, ◌==◌, get_elem?, ◌⊎◌, inl, inr, arith, Bool-cases,
}
use dgo.Shards.{
  ManagerState, closed, opening, opened, closing, ShardError, Manager, OpenPhase, connecting,
  cleaning, cleaned, ClosePhase, cancelling, checking, finishing, System, close_channel,
  already_open, open_in, close_in, await_close, start_closing,
}

abbrev pub open_channel : OpenPhase → ℕ
open_channel (connecting c) = c
open_channel (cleaning c errors) = c
open_channel (cleaned c errors) = c

abbrev pub close_channel_of : ClosePhase → ℕ
close_channel_of (cancelling c o) = c
close_channel_of (checking c) = c
close_channel_of (finishing c errors) = c

-- A call that has closed the sessions.
abbrev pub OpenerTidy : Bool → OpenPhase → Type 0
OpenerTidy dirty (connecting c) = Unit
OpenerTidy dirty (cleaning c errors) = Unit
OpenerTidy dirty (cleaned c errors) = dirty ≡ false

-- A call that has no `Open` to wait for any more, or that has closed the sessions.
abbrev pub CloserTidy : (ℕ → ℕ) → Bool → ClosePhase → Type 0
CloserTidy done dirty (cancelling c none) = Unit
CloserTidy done dirty (cancelling c (some o)) = 0 < done o
CloserTidy done dirty (checking c) = Unit
CloserTidy done dirty (finishing c errors) = dirty ≡ false

-- A channel that has been made and not been closed.
pub record Pending (done : ℕ → ℕ) (next c : ℕ) : Type 0 where
  pub made : c < next
  pub not_done : done c ≡ 0

-- The calls at work, by the state of the manager.
pub data Work (m : Manager) (openers : List OpenPhase) (closers : List ClosePhase) (done : ℕ → ℕ)
    (next : ℕ) (dirty : Bool) : Type 0 where
  resting :
      m.state ≡ closed
      → openers ≡ []
      → closers ≡ []
      → m.close_done ≡ none
      → dirty ≡ false
      → Work m openers closers done next dirty
  starting :
      (p : OpenPhase)
      → m.state ≡ opening
      → openers ≡ p ∷ []
      → closers ≡ []
      → m.close_done ≡ none
      → m.open_done ≡ some (open_channel p)
      → Pending done next (open_channel p)
      → OpenerTidy dirty p
      → Work m openers closers done next dirty
  serving :
      m.state ≡ opened
      → openers ≡ []
      → closers ≡ []
      → m.close_done ≡ none
      → m.open_done ≡ none
      → Work m openers closers done next dirty
  aborting :
      (p : OpenPhase) (c : ℕ)
      → m.state ≡ closing
      → openers ≡ p ∷ []
      → closers ≡ cancelling c (some (open_channel p)) ∷ []
      → m.close_done ≡ some c
      → Pending done next (open_channel p)
      → Pending done next c
      → c ≢ open_channel p
      → OpenerTidy dirty p
      → Work m openers closers done next dirty
  ending :
      (q : ClosePhase)
      → m.state ≡ closing
      → openers ≡ []
      → closers ≡ q ∷ []
      → m.close_done ≡ some (close_channel_of q)
      → Pending done next (close_channel_of q)
      → CloserTidy done dirty q
      → Work m openers closers done next dirty

pub record Sound (s : System) : Type 0 where
  pub work : Work s.manager s.openers s.closers s.done s.next s.dirty
  pub once : (c : ℕ) → s.done c ≤ 1
  pub unmade : (c : ℕ) → s.next ≤ c → s.done c ≡ 0
  pub tidy : s.manager.cleanup_completed ≡ true → s.dirty ≡ false

-- A channel that is closed now, and a number that has not been given yet.
pub Pending-close :
    (done : ℕ → ℕ) (next c d : ℕ)
    → d ≢ c
    → Pending done next d
    → Pending (close_channel done c) next d
Pending-close done next c d n v =
    let e : (d == c) ≡ false = ground arith in record { made = v.made; not_done = rw e v.not_done }

pub Pending-next : (done : ℕ → ℕ) (next c : ℕ) → Pending done next c → Pending done (suc next) c
Pending-next done next c v = record { made = omega (arith, v.made); not_done = v.not_done }

pub record Counts (done : ℕ → ℕ) (next : ℕ) : Type 0 where
  pub once : (c : ℕ) → done c ≤ 1
  pub unmade : (c : ℕ) → next ≤ c → done c ≡ 0

pub Counts-close :
    (done : ℕ → ℕ) (next c : ℕ)
    → Pending done next c
    → Counts done next
    → Counts (close_channel done c) next
Counts-close done next c p v = record {
  once = λ d.
      let o = v.once d in
      let u = p.not_done in
      elim (Bool-cases (d == c)) [
        | inl same ↦ let e : d ≡ c = ground arith in rw e (ground arith)
        | inr other ↦ rw other o
      ];
  unmade = λ d l.
      let u = v.unmade d l in let e : (d == c) ≡ false = let b = p.made in ground arith in rw e u;
}

abbrev pub WorkOf : System → Type 0
WorkOf s = Work s.manager s.openers s.closers s.done s.next s.dirty

-- A step that only touches the waiters and the results.
pub same-Sound :
    (s : System) (w : List ℕ) (r : List (List ShardError))
    → Sound s
    → Sound (record s { waiters = w; results = r })
same-Sound s w r v = record { work = v.work; once = v.once; unmade = v.unmade; tidy = v.tidy }

pub open_in-Sound :
    (s : System) (t : ManagerState) → s.manager.state ≡ t → Sound s → Sound (open_in t s)
unfolding open_in
open_in-Sound s opening e v = same-Sound s s.waiters (s.results ++ (already_open ∷ []) ∷ []) v
open_in-Sound s opened e v = same-Sound s s.waiters (s.results ++ (already_open ∷ []) ∷ []) v
open_in-Sound s closing e v = same-Sound s s.waiters (s.results ++ (already_open ∷ []) ∷ []) v
open_in-Sound s closed e v = go v.work
  where
    go : WorkOf s → Sound (open_in closed s)
    go (resting st os cs cd d) = record {
      work =
          starting (connecting s.next) refl (rw os refl) cs cd refl
            (record { made = omega arith; not_done = v.unmade s.next (omega arith) }) tt;
      once = v.once;
      unmade = λ c l. v.unmade c (omega arith);
      tidy = λ h. absurd (ground arith);
    }
    go (starting p st os cs cd od pd t) = absurd (let f = sym e ∙ st in ground arith)
    go (serving st os cs cd od) = absurd (let f = sym e ∙ st in ground arith)
    go (aborting p c st os cs cd pd qd n t) = absurd (let f = sym e ∙ st in ground arith)
    go (ending q st os cs cd qd t) = absurd (let f = sym e ∙ st in ground arith)

await_close-Sound : (s : System) (o : Option ℕ) → Sound s → Sound (await_close o s)
await_close-Sound s none v = v
await_close-Sound s (some c) v = same-Sound s (s.waiters ++ c ∷ []) s.results v

start_closing-Sound :
    (s : System)
    → (s.manager.state ≡ opening) ⊎ (s.manager.state ≡ opened)
    → Sound s
    → Sound (start_closing s)
unfolding start_closing
start_closing-Sound s e v = record {
  work = go v.work;
  once = v.once;
  unmade = λ c l. v.unmade c (omega arith);
  tidy = v.tidy;
}
  where
    fresh_channel : Pending s.done (suc s.next) s.next
    fresh_channel = record { made = omega arith; not_done = v.unmade s.next (omega arith) }

    go : WorkOf s → WorkOf (start_closing s)
    go (starting p st os cs cd od pd t) =
        aborting p s.next refl os (rw (cs, od) refl) refl
          (Pending-next s.done s.next (open_channel p) pd) fresh_channel
          (λ same. let m = pd.made in omega arith) t
    go (serving st os cs cd od) =
        ending (cancelling s.next s.manager.open_done) refl os (rw cs refl) refl fresh_channel
          (subst (λ o. CloserTidy s.done s.dirty (cancelling s.next o)) (sym od) tt)
    go (resting st os cs cd d) = absurd (elim e [
      | inl f ↦ (let g = sym f ∙ st in ground arith)
      | inr f ↦ (let g = sym f ∙ st in ground arith)
    ])
    go (aborting p c st os cs cd pd qd n t) = absurd (elim e [
      | inl f ↦ (let g = sym f ∙ st in ground arith)
      | inr f ↦ (let g = sym f ∙ st in ground arith)
    ])
    go (ending q st os cs cd qd t) = absurd (elim e [
      | inl f ↦ (let g = sym f ∙ st in ground arith)
      | inr f ↦ (let g = sym f ∙ st in ground arith)
    ])

pub close_in-Sound :
    (s : System) (t : ManagerState) → s.manager.state ≡ t → Sound s → Sound (close_in t s)
unfolding close_in
close_in-Sound s closed e v = same-Sound s s.waiters (s.results ++ [] ∷ []) v
close_in-Sound s closing e v = await_close-Sound s s.manager.close_done v
close_in-Sound s opening e v = start_closing-Sound s (inl e) v
close_in-Sound s opened e v = start_closing-Sound s (inr e) v

pub single :
    {A : Type 0} (xs : List A) (x y : A) (k : ℕ)
    → xs ≡ x ∷ []
    → get_elem? xs k ≡ some y
    → (k ≡ 0) × (x ≡ y)
single xs x y k e h = go k (subst (λ l. get_elem? l k ≡ some y) e h)
  where
    go : (k : ℕ) → get_elem? (x ∷ []) k ≡ some y → (k ≡ 0) × (x ≡ y)
    go zero h = (refl, ground arith)
    go (suc k) h = absurd (ground arith)

pub none_there : {A : Type 0} (xs : List A) (y : A) (k : ℕ) → xs ≡ [] → get_elem? xs k ≡ some y → ⊥
none_there xs y k e h = let g = subst (λ l. get_elem? l k ≡ some y) e h in ground arith

-- The opener that moves is the only one.
pub record Opener (s : System) (k : ℕ) (q : OpenPhase) : Type 0 where
  pub first : k ≡ 0
  pub alone : s.openers ≡ q ∷ []
  pub pending : Pending s.done s.next (open_channel q)
  pub tidy : OpenerTidy s.dirty q
  pub where_to :
      ((s.manager.state ≡ opening)
        × (s.closers ≡ [])
        × (s.manager.close_done ≡ none)
        × (s.manager.open_done ≡ some (open_channel q)))
      ⊎ ((c : ℕ) × (s.manager.state ≡ closing)
          × (s.closers ≡ cancelling c (some (open_channel q)) ∷ [])
          × (s.manager.close_done ≡ some c)
          × Pending s.done s.next c
          × (c ≢ open_channel q))

pub find-Opener :
    (s : System) (k : ℕ) (q : OpenPhase) → WorkOf s → get_elem? s.openers k ≡ some q → Opener s k q
find-Opener s k q (resting st os cs cd d) h = absurd (none_there s.openers q k os h)
find-Opener s k q (serving st os cs cd od) h = absurd (none_there s.openers q k os h)
find-Opener s k q (ending p st os cs cd qd t) h = absurd (none_there s.openers q k os h)
find-Opener s k q (starting p st os cs cd od pd t) h =
    let (z, e) = single s.openers p q k os h in
    record {
      first = z;
      alone = os ∙ ap (λ x. x ∷ []) e;
      pending = subst (λ x. Pending s.done s.next (open_channel x)) e pd;
      tidy = subst (OpenerTidy s.dirty) e t;
      where_to = inl (st, cs, cd, od ∙ ap (λ x. some (open_channel x)) e);
    }
find-Opener s k q (aborting p c st os cs cd pd qd n t) h =
    let (z, e) = single s.openers p q k os h in
    record {
      first = z;
      alone = os ∙ ap (λ x. x ∷ []) e;
      pending = subst (λ x. Pending s.done s.next (open_channel x)) e pd;
      tidy = subst (OpenerTidy s.dirty) e t;
      where_to = inr (
        c,
        st,
        cs ∙ ap (λ x. cancelling c (some (open_channel x)) ∷ []) e,
        cd,
        qd,
        subst (λ x. c ≢ open_channel x) e n,
      );
    }
