-- ===== src/Dave/Epoch/Once.antt =====
-- A transition is not executed twice.
use dgo.Prelude.{
  ℕ, ◌≡◌, refl, sym, ap, ◌∙◌, subst, ◌⊎◌, inl, inr, String, Bool, true, false, not, List, [], ◌∷◌,
  Option, none, some, All, ◌==◌, ◌||◌, ◌&&◌, Bool-cases, Option-cases, arith,
}
use dgo.Prelude.Int.{ℤ, pos, ltb_ℤ}
use dgo.Frame.{Cipher, hash_ratchet_get_key}
use dgo.Dave.{clear_media_state}
use dgo.Dave.ParseUint.{parse_uint}
use dgo.Dave.Group.{GroupOps}
use dgo.Dave.Epoch.{
  SessionError, DaveSession, is_supported, already_executed, unexpected_transition, no_pending_key,
  handle_prepare_transition, clear_pending_transition, clear_state, with_media,
}
use dgo.Dave.Epoch.Calls.{
  with_secret, derive_sender_key, export_for, executed, activate, handle_execute_transition,
}
use dgo.Dave.Epoch.Media.{
  Call, configure_call, recognized_call, key_package_call, re_welcome_call, derive_call, reset_call,
  external_sender_call, proposals_call, welcome_call, commit_call, encrypt_call, prepare_call,
  execute_call, epoch_call, ssrc_call, decrypt_call, call, run,
}
use dgo.Dave.Epoch.Keeps.{Kept, if_keeps}
use dgo.Dave.Epoch.Keeps.Handlers.{keeps-call}

-- The transition was the last one, and it is not pending again.
pub record Executed (G : Type 0) (t : ℕ) (d : DaveSession G) : Type 0 where
  pub has_last : d.has_last_transition ≡ true
  pub last : d.last_transition_id ≡ t
  pub not_pending : d.pending_transition ≡ true → (d.pending_transition_id == t) ≡ false

-- The calls that can lie between: no reset of the session, no execution of another transition.
abbrev pub is_between : ℕ → Call → Bool
is_between t c = elim c [ execute_call id ↦ id == t | reset_call ↦ false | _ ↦ true ]

module _ {G : Type 0} (ops : GroupOps G) (cipher_of : List ℕ → Cipher)
    (expand_with_label : List ℕ → String → List ℕ → ℕ → Option (List ℕ)) (t : ℕ) where
  same :
      (d e : DaveSession G)
      → Executed G t d
      → (d.has_last_transition ≡ e.has_last_transition)
      → (d.last_transition_id ≡ e.last_transition_id)
      → (d.pending_transition ≡ e.pending_transition)
      → (d.pending_transition_id ≡ e.pending_transition_id)
      → Executed G t e
  same d e h a b c p = record {
    has_last = sym a ∙ h.has_last;
    last = sym b ∙ h.last;
    not_pending = λ q. ap (λ i. i == t) (sym p) ∙ h.not_pending (c ∙ q);
  }

  kept : Kept (Executed G t)
  unfolding clear_pending_transition clear_state
  kept = record {
    group = λ d g h. same d _ h refl refl refl refl;
    clear = λ d h. record { has_last = h.has_last; last = h.last; not_pending = λ e. ground arith };
    named = λ d n v h. same d _ h refl refl refl refl;
    at = λ d n v h. same d _ h refl refl refl refl;
    arrived = λ d n h. same d _ h refl refl refl refl;
    media = λ d m f h. same d _ h refl refl refl refl;
  }

  prepare-Executed :
      (d : DaveSession G) (id : ℕ) (version : ℤ)
      → Executed G t d
      → Executed G t (handle_prepare_transition d id version).0
  unfolding handle_prepare_transition
  prepare-Executed d id version h = elim (Bool-cases (is_supported version)) [
    | inr bad ↦ rw (bad, handle_prepare_transition) h
    | inl good ↦ elim (Bool-cases (d.has_last_transition && (id == d.last_transition_id))) [
      | inl again ↦ rw (good, again, handle_prepare_transition) h
      | inr other ↦
          elim (Bool-cases (d.pending_transition && not (id == d.pending_transition_id))) [
            | inl waits ↦ rw (good, other, waits, handle_prepare_transition) h
            | inr free ↦ elim (Bool-cases (ltb_ℤ (pos 0) version && not d.media.has_pending_key)) [
              | inl early ↦ rw (good, other, free, early, handle_prepare_transition) h
              | inr ready ↦
                  let has = h.has_last in
                  let last = h.last in
                  let differs : (id == t) ≡ false = ground arith in
                  rw (good, other, free, ready, handle_prepare_transition)
                    (record { has_last = h.has_last; last = h.last; not_pending = λ e. differs })
            ]
          ]
    ]
  ]

  derive-Executed :
      (d : DaveSession G) (secret : List ℕ ⊎ SessionError)
      → Executed G t d
      → Executed G t (with_secret ops expand_with_label d secret).0
  unfolding with_secret
  derive-Executed d (inr e) h = h
  derive-Executed d (inl secret) h =
      elim (Option-cases (hash_ratchet_get_key expand_with_label secret 0)) [
        | inl e ↦ rw (e, with_secret) (same d _ h refl refl refl refl)
        | inr (key, e) ↦ rw (e, with_secret) (same d _ h refl refl refl refl)
      ]

  -- Not pending, it cannot be executed.
  execute_again :
      (d : DaveSession G)
      → Executed G t d
      → handle_execute_transition ops expand_with_label d t ≡ (d, some unexpected_transition)
  unfolding handle_execute_transition
  execute_again d h =
      let blocked : (not d.pending_transition || not (t == d.pending_transition_id)) ≡ true =
        elim (Bool-cases d.pending_transition) [
          | inr idle ↦ ap (λ b. not b || not (t == d.pending_transition_id)) idle
          | inl waits ↦ let other = h.not_pending waits in ground arith
        ] in
      rw (blocked, handle_execute_transition) refl

  prepare_again :
      (d : DaveSession G) (version : ℤ)
      → Executed G t d
      → is_supported version ≡ true
      → handle_prepare_transition d t version ≡ (d, some already_executed)
  unfolding handle_prepare_transition
  prepare_again d version h good =
      let has = h.has_last in
      let last = h.last in
      let again : (d.has_last_transition && (t == d.last_transition_id)) ≡ true = ground arith in
      rw (good, again, handle_prepare_transition) refl

  call-Executed :
      (d : DaveSession G) (c : Call)
      → is_between t c ≡ true
      → Executed G t d
      → Executed G t (call ops cipher_of expand_with_label d c)
  unfolding call derive_sender_key
  call-Executed d (prepare_call id version) b h = prepare-Executed d id version h
  call-Executed d (execute_call id) b h =
      let same_id : id ≡ t = ground arith in
      subst (λ i. Executed G t (handle_execute_transition ops expand_with_label d i).0)
        (sym same_id)
        (subst (λ (r : DaveSession G × Option SessionError). Executed G t r.0)
          (sym (execute_again d h)) h)
  call-Executed d derive_call b h =
      derive-Executed d (export_for ops d.group (parse_uint d.user_id)) h
  call-Executed d reset_call b h = ground arith
  call-Executed d (configure_call id version users) b h =
      keeps-call ops (Executed G t) kept cipher_of expand_with_label d
        (configure_call id version users) refl h
  call-Executed d (recognized_call users) b h =
      keeps-call ops (Executed G t) kept cipher_of expand_with_label d (recognized_call users) refl
        h
  call-Executed d key_package_call b h =
      keeps-call ops (Executed G t) kept cipher_of expand_with_label d key_package_call refl h
  call-Executed d re_welcome_call b h =
      keeps-call ops (Executed G t) kept cipher_of expand_with_label d re_welcome_call refl h
  call-Executed d (external_sender_call m) b h =
      keeps-call ops (Executed G t) kept cipher_of expand_with_label d (external_sender_call m) refl
        h
  call-Executed d (proposals_call m) b h =
      keeps-call ops (Executed G t) kept cipher_of expand_with_label d (proposals_call m) refl h
  call-Executed d (welcome_call m) b h =
      keeps-call ops (Executed G t) kept cipher_of expand_with_label d (welcome_call m) refl h
  call-Executed d (commit_call m) b h =
      keeps-call ops (Executed G t) kept cipher_of expand_with_label d (commit_call m) refl h
  call-Executed d (encrypt_call opus) b h =
      keeps-call ops (Executed G t) kept cipher_of expand_with_label d (encrypt_call opus) refl h
  call-Executed d (epoch_call n version) b h =
      keeps-call ops (Executed G t) kept cipher_of expand_with_label d (epoch_call n version) refl h
  call-Executed d (ssrc_call ssrc user_id) b h =
      keeps-call ops (Executed G t) kept cipher_of expand_with_label d (ssrc_call ssrc user_id) refl
        h
  call-Executed d (decrypt_call ssrc frame) b h =
      keeps-call ops (Executed G t) kept cipher_of expand_with_label d (decrypt_call ssrc frame)
        refl h

  run-Executed :
      (cs : List Call) (d : DaveSession G)
      → All (λ c. is_between t c ≡ true) cs
      → Executed G t d
      → Executed G t (run ops cipher_of expand_with_label d cs)
  unfolding run
  run-Executed [] d between h = h
  run-Executed (c ∷ cs) d (b, bs) h =
      run-Executed cs (call ops cipher_of expand_with_label d c) bs (call-Executed d c b h)

  executed-Executed : (d : DaveSession G) → Executed G t (executed d t)
  unfolding executed
  executed-Executed d = record { has_last = refl; last = refl; not_pending = λ e. ground arith }

  activate-Executed :
      (r : DaveSession G × Option SessionError)
      → (activate r t).1 ≡ none
      → Executed G t (activate r t).0
  unfolding activate
  activate-Executed (d, some e) ok = ground arith
  activate-Executed (d, none) ok =
      executed-Executed (with_media d (record d.media { has_pending_key = false; active = true }))

  -- Success leaves the transition executed.
  abbrev Good : DaveSession G × Option SessionError → Type 0
  Good r = r.1 ≡ none → Executed G t r.0

  execute-Executed :
      (d : DaveSession G) → Good (handle_execute_transition ops expand_with_label d t)
  unfolding handle_execute_transition
  execute-Executed d =
      if_keeps Good (not d.pending_transition || not (t == d.pending_transition_id))
        (d, some unexpected_transition) _ (λ e. ground arith)
        (if_keeps Good (ltb_ℤ (pos 0) d.pending_version) _
          (executed (with_media d (clear_media_state d.media)) t, none)
          (if_keeps Good (not d.media.has_pending_key) (d, some no_pending_key) _
            (λ e. ground arith) (activate-Executed (derive_sender_key ops expand_with_label d)))
          (λ e. executed-Executed (with_media d (clear_media_state d.media))))

  -- A transition that was executed: whatever is called of the session afterwards, as long as it is not reset
  -- and no other transition is executed, executing that transition again is refused and changes nothing, and
  -- so does preparing it, for any protocol version that the code supports.
  pub executed_once :
      (d : DaveSession G) (calls : List Call) (version : ℤ)
      → (handle_execute_transition ops expand_with_label d t).1 ≡ none
      → All (λ c. is_between t c ≡ true) calls
      → is_supported version ≡ true
      → let e : DaveSession G =
          run ops cipher_of expand_with_label
            (handle_execute_transition ops expand_with_label d t).0
            calls in
        (handle_execute_transition ops expand_with_label e t ≡ (e, some unexpected_transition))
        × (handle_prepare_transition e t version ≡ (e, some already_executed))
  executed_once d calls version ok between good =
      let after : DaveSession G = (handle_execute_transition ops expand_with_label d t).0 in
      let e : DaveSession G = run ops cipher_of expand_with_label after calls in
      let h : Executed G t e = run-Executed calls after between (execute-Executed d ok) in
      (execute_again e h, prepare_again e version h good)
