-- ===== src/MembersRequest/Cooldown.antt =====
-- One request for all members of a guild in thirty seconds.
use text.Mathlib.Text.{◌==◌ as str_eq}
use dgo.Prelude.{
  ℕ, ◌+◌, ◌-◌, ◌<◌, ◌≡◌, ◌≢◌, refl, sym, ap, ◌∙◌, inl, inr, String, true, List, [], ◌∷◌, none, some,
  All, ltb, ◌==◌, Bool-cases, Option-cases, arith,
}
use dgo.Prelude.Assoc.{Assoc, lookup, lookup-erase, lookup-insert, str_eq_refl, eq_of_str_eq}
use dgo.MembersRequest.{rate_limited, cooldown, drop_expired, retry_after, reserve, release}

-- The critical sections of the map.
pub data Section : Type 0 where
  reserving releasing : String → ℕ → Section

unfoldable pub enter : Assoc ℕ → Section → Assoc ℕ
unfolding reserve release
enter requests (reserving id now) = (reserve requests id now).0
enter requests (releasing id reservation) = release requests id reservation

unfoldable pub enter_all : Assoc ℕ → List Section → Assoc ℕ
unfolding enter
enter_all requests [] = requests
enter_all requests (c ∷ cs) = enter_all (enter requests c) cs

-- Within the cooldown of a reservation at `t`, and not the release of it.
abbrev pub Within : String → ℕ → Section → Type 0
Within id t (reserving other now) = now < t + cooldown
Within id t (releasing other reservation) = reservation ≢ t

lookup-drop_expired :
    (now t : ℕ) (id : String) (requests : Assoc ℕ)
    → now < t + cooldown
    → lookup id requests ≡ some t
    → lookup id (drop_expired now requests) ≡ some t
unfolding drop_expired lookup
lookup-drop_expired now t id [] young e = ground arith
lookup-drop_expired now t id ((other, at) ∷ rest) young e =
    ground (arith, lookup-drop_expired now t id rest young)

lookup-reserve :
    (requests : Assoc ℕ) (id other : String) (t now : ℕ)
    → now < t + cooldown
    → lookup id requests ≡ some t
    → lookup id (reserve requests other now).0 ≡ some t
unfolding reserve
lookup-reserve requests id other t now young e = elim (Bool-cases (str_eq other id)) [
  | inl same ↦
      let waits : ltb 0 (retry_after (lookup other requests) now) ≡ true =
        ap (λ k. ltb 0 (retry_after (lookup k requests) now)) (eq_of_str_eq other id same)
        ∙ ap (λ l. ltb 0 (retry_after l now)) e
        ∙ ground arith in
      rw (waits, reserve) e
  | inr differs ↦ elim (Bool-cases (ltb 0 (retry_after (lookup other requests) now))) [
    | inl waits ↦ rw (waits, reserve) e
    | inr free ↦
        rw (free, reserve)
          (lookup-insert other id now (drop_expired now requests)
            ∙ rw differs (lookup-drop_expired now t id requests young e))
  ]
]

lookup-release :
    (requests : Assoc ℕ) (id other : String) (t reservation : ℕ)
    → reservation ≢ t
    → lookup id requests ≡ some t
    → lookup id (release requests other reservation) ≡ some t
unfolding release
lookup-release requests id other t reservation differs e =
    elim (Option-cases (lookup other requests)) [
      | inl absent ↦ rw (absent, release) e
      | inr (last, found) ↦ elim (Bool-cases (last == reservation)) [
        | inr old ↦ rw (found, release, old) e
        | inl own ↦ elim (Bool-cases (str_eq other id)) [
          | inr apart ↦ rw (found, release, own) (lookup-erase other id requests ∙ rw apart e)
          | inl same ↦
              let here : some last ≡ some t =
                sym found ∙ ap (λ k. lookup k requests) (eq_of_str_eq other id same) ∙ e in
              absurd (differs (ground arith))
        ]
      ]
    ]

enter-keeps :
    (requests : Assoc ℕ) (id : String) (t : ℕ) (c : Section)
    → Within id t c
    → lookup id requests ≡ some t
    → lookup id (enter requests c) ≡ some t
unfolding enter
enter-keeps requests id t (reserving other now) young e =
    lookup-reserve requests id other t now young e
enter-keeps requests id t (releasing other reservation) differs e =
    lookup-release requests id other t reservation differs e

enter_all-keeps :
    (cs : List Section) (requests : Assoc ℕ) (id : String) (t : ℕ)
    → All (λ c. Within id t c) cs
    → lookup id requests ≡ some t
    → lookup id (enter_all requests cs) ≡ some t
unfolding enter_all
enter_all-keeps [] requests id t within e = e
enter_all-keeps (c ∷ cs) requests id t (w, ws) e =
    enter_all-keeps cs (enter requests c) id t ws (enter-keeps requests id t c w e)

reserved :
    (requests : Assoc ℕ) (id : String) (t : ℕ)
    → (reserve requests id t).1 ≡ none
    → lookup id (reserve requests id t).0 ≡ some t
unfolding reserve
reserved requests id t ok = elim (Bool-cases (ltb 0 (retry_after (lookup id requests) t))) [
  | inl waits ↦
      let refused : (reserve requests id t).1
          ≡ some (rate_limited (retry_after (lookup id requests) t)) =
        rw (waits, reserve) refl in
      let both : none ≡ some (rate_limited (retry_after (lookup id requests) t)) =
        sym ok ∙ refused in
      ground arith
  | inr free ↦
      rw (free, reserve)
        (lookup-insert id id t (drop_expired t requests) ∙ rw (str_eq_refl id) refl)
]

-- A reservation for a guild at `t` that is granted: whatever critical sections other goroutines enter
-- afterwards, for this guild or for others, at times before the cooldown is over and without the release
-- of this reservation, another one for the guild before the end of the cooldown is refused, with the
-- time that is left, and changes nothing.
pub cooldown_holds :
    (requests : Assoc ℕ) (id : String) (t now : ℕ) (cs : List Section)
    → (reserve requests id t).1 ≡ none
    → All (λ c. Within id t c) cs
    → now < t + cooldown
    → let later : Assoc ℕ = enter_all (reserve requests id t).0 cs in
      reserve later id now ≡ (later, some (rate_limited (cooldown + t - now)))
unfolding reserve
cooldown_holds requests id t now cs ok within young =
    let later : Assoc ℕ = enter_all (reserve requests id t).0 cs in
    let e : lookup id later ≡ some t =
      enter_all-keeps cs (reserve requests id t).0 id t within (reserved requests id t ok) in
    let waits : ltb 0 (cooldown + t - now) ≡ true = ground arith in rw (e, reserve, waits) refl
