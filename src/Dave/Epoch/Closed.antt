-- ===== src/Dave/Epoch/Closed.antt =====
-- A session that is active has a key, and its group is there unless it could not be made.
use dgo.Prelude.{
  ℕ, ◌≡◌, refl, sym, ap, ◌∙◌, ◌⊎◌, inl, inr, String, true, not, List, [], ◌∷◌, Option, none, some,
  ◌==◌, ◌||◌, ◌&&◌, Bool-cases, Option-cases, arith,
}
use dgo.Prelude.Int.{ℤ, pos, ltb_ℤ}
use dgo.Frame.{Cipher, hash_ratchet_get_key}
use dgo.Dave.{clear_media_state}
use dgo.Dave.ParseUint.{parse_uint}
use dgo.Dave.UserId.{be_uint64}
use dgo.Dave.Group.{GroupOps}
use dgo.Dave.Epoch.{
  SessionError, DaveSession, is_some, is_supported, unexpected_transition, no_pending_key,
  handle_prepare_transition, clear_pending_transition, clear_state, with_media, reset, is_active,
  can_encrypt, no_session, first_group, new_dave_session,
}
use dgo.Dave.Epoch.Calls.{
  with_secret, derive_sender_key, export_for, executed, activate, handle_execute_transition,
}
use dgo.Dave.Epoch.Media.{
  Call, configure_call, recognized_call, key_package_call, re_welcome_call, derive_call, reset_call,
  external_sender_call, proposals_call, welcome_call, commit_call, encrypt_call, prepare_call,
  execute_call, epoch_call, ssrc_call, decrypt_call, call, run,
}
use dgo.Dave.Epoch.Keeps.{HasKey, Kept, if_keeps}
use dgo.Dave.Epoch.Keeps.Handlers.{keeps-call}

pub record WellFormed (G : Type 0) (d : DaveSession G) : Type 0 where
  pub has_key : HasKey d.media
  pub has_group : (is_some d.group || is_some d.group_err) ≡ true

module _ {G : Type 0} (ops : GroupOps G) (cipher_of : List ℕ → Cipher)
    (expand_with_label : List ℕ → String → List ℕ → ℕ → Option (List ℕ)) where
  same :
      (d e : DaveSession G)
      → WellFormed G d
      → (HasKey d.media → HasKey e.media)
      → (d.group ≡ e.group)
      → (d.group_err ≡ e.group_err)
      → WellFormed G e
  same d e h f g r = record {
    has_key = f h.has_key;
    has_group =
        ap (λ x. is_some x || is_some e.group_err) (sym g)
        ∙ ap (λ x. is_some d.group || is_some x) (sym r)
        ∙ h.has_group;
  }

  kept : Kept (WellFormed G)
  unfolding clear_pending_transition clear_state
  kept = record {
    group = λ d g h. record { has_key = h.has_key; has_group = refl };
    clear = λ d h. same d _ h (λ k e. ground arith) refl refl;
    named = λ d n v h. same d _ h (λ k. k) refl refl;
    at = λ d n v h. same d _ h (λ k. k) refl refl;
    arrived = λ d n h. same d _ h (λ k. k) refl refl;
    media = λ d m f h. same d _ h f refl refl;
  }

  abbrev KeptState : DaveSession G × Option SessionError → Type 0
  KeptState r = WellFormed G r.0

  prepare-WellFormed :
      (d : DaveSession G) (id : ℕ) (version : ℤ)
      → WellFormed G d
      → WellFormed G (handle_prepare_transition d id version).0
  unfolding handle_prepare_transition
  prepare-WellFormed d id version h = if_keeps KeptState (not (is_supported version)) _ _ h (
      if_keeps KeptState (d.has_last_transition && (id == d.last_transition_id)) _ _ h (
        if_keeps KeptState (d.pending_transition && not (id == d.pending_transition_id)) _ _ h (
          if_keeps KeptState (ltb_ℤ (pos 0) version && not d.media.has_pending_key) _ _ h
            (same d _ h (λ k. k) refl refl))))

  -- After a key is derived there is one, and else the media have the key that they had.
  derive-WellFormed :
      (d : DaveSession G) (secret : List ℕ ⊎ SessionError)
      → WellFormed G d
      → WellFormed G (with_secret ops expand_with_label d secret).0
        × ((with_secret ops expand_with_label d secret).1 ≡ none
            → is_some (with_secret ops expand_with_label d secret).0.media.sender_key ≡ true)
  unfolding with_secret
  derive-WellFormed d (inr e) h = (h, λ ok. ground arith)
  derive-WellFormed d (inl secret) h =
      elim (Option-cases (hash_ratchet_get_key expand_with_label secret 0)) [
        | inl e ↦ rw (e, with_secret) (same d _ h (λ k. k) refl refl, λ ok. ground arith)
        | inr (key, e) ↦ rw (e, with_secret) (same d _ h (λ k a. refl) refl refl, λ ok. refl)
      ]

  -- A derivation that succeeds before a session is activated.
  activate-WellFormed :
      (r : DaveSession G × Option SessionError) (id : ℕ)
      → WellFormed G r.0
      → (r.1 ≡ none → is_some r.0.media.sender_key ≡ true)
      → WellFormed G (activate r id).0
  unfolding activate executed
  activate-WellFormed (d, some e) id h k = h
  activate-WellFormed (d, none) id h k = same d _ h (λ had a. k refl) refl refl

  execute-WellFormed :
      (d : DaveSession G) (id : ℕ)
      → WellFormed G d
      → WellFormed G (handle_execute_transition ops expand_with_label d id).0
  unfolding handle_execute_transition derive_sender_key clear_media_state executed
  execute-WellFormed d id h =
      let secret : List ℕ ⊎ SessionError = export_for ops d.group (parse_uint d.user_id) in
      let derived = derive-WellFormed d secret h in
      if_keeps KeptState (not d.pending_transition || not (id == d.pending_transition_id))
        (d, some unexpected_transition) _ h
        (if_keeps KeptState (ltb_ℤ (pos 0) d.pending_version) _
          (executed (with_media d (clear_media_state d.media)) id, none)
          (if_keeps KeptState (not d.media.has_pending_key) (d, some no_pending_key) _ h
            (activate-WellFormed (with_secret ops expand_with_label d secret) id derived.0
              derived.1))
          (same d _ h (λ k e. ground arith) refl refl))

  call-WellFormed :
      (d : DaveSession G) (c : Call)
      → WellFormed G d
      → WellFormed G (call ops cipher_of expand_with_label d c)
  unfolding call derive_sender_key reset clear_state clear_media_state clear_pending_transition
  call-WellFormed d (prepare_call id version) h = prepare-WellFormed d id version h
  call-WellFormed d (execute_call id) h = execute-WellFormed d id h
  call-WellFormed d derive_call h =
      (derive-WellFormed d (export_for ops d.group (parse_uint d.user_id)) h).0
  call-WellFormed d reset_call h = same d _ h (λ k e. ground arith) refl refl
  call-WellFormed d (configure_call id version users) h =
      keeps-call ops (WellFormed G) kept cipher_of expand_with_label d
        (configure_call id version users) refl h
  call-WellFormed d (recognized_call users) h =
      keeps-call ops (WellFormed G) kept cipher_of expand_with_label d (recognized_call users) refl
        h
  call-WellFormed d key_package_call h =
      keeps-call ops (WellFormed G) kept cipher_of expand_with_label d key_package_call refl h
  call-WellFormed d re_welcome_call h =
      keeps-call ops (WellFormed G) kept cipher_of expand_with_label d re_welcome_call refl h
  call-WellFormed d (external_sender_call m) h =
      keeps-call ops (WellFormed G) kept cipher_of expand_with_label d (external_sender_call m) refl
        h
  call-WellFormed d (proposals_call m) h =
      keeps-call ops (WellFormed G) kept cipher_of expand_with_label d (proposals_call m) refl h
  call-WellFormed d (welcome_call m) h =
      keeps-call ops (WellFormed G) kept cipher_of expand_with_label d (welcome_call m) refl h
  call-WellFormed d (commit_call m) h =
      keeps-call ops (WellFormed G) kept cipher_of expand_with_label d (commit_call m) refl h
  call-WellFormed d (encrypt_call opus) h =
      keeps-call ops (WellFormed G) kept cipher_of expand_with_label d (encrypt_call opus) refl h
  call-WellFormed d (epoch_call n version) h =
      keeps-call ops (WellFormed G) kept cipher_of expand_with_label d (epoch_call n version) refl h
  call-WellFormed d (ssrc_call ssrc user_id) h =
      keeps-call ops (WellFormed G) kept cipher_of expand_with_label d (ssrc_call ssrc user_id) refl
        h
  call-WellFormed d (decrypt_call ssrc frame) h =
      keeps-call ops (WellFormed G) kept cipher_of expand_with_label d (decrypt_call ssrc frame)
        refl h

  run-WellFormed :
      (cs : List Call) (d : DaveSession G)
      → WellFormed G d
      → WellFormed G (run ops cipher_of expand_with_label d cs)
  unfolding run
  run-WellFormed [] d h = h
  run-WellFormed (c ∷ cs) d h =
      run-WellFormed cs (call ops cipher_of expand_with_label d c) (call-WellFormed d c h)

  first-WellFormed : (user_id : String) (made : G ⊎ ℕ) → WellFormed G (first_group ops user_id made)
  unfolding first_group no_session
  first-WellFormed user_id (inl g) = record { has_key = λ e. ground arith; has_group = refl }
  first-WellFormed user_id (inr e) = record { has_key = λ e. ground arith; has_group = refl }

  new-WellFormed : (user_id : String) → WellFormed G (new_dave_session ops user_id)
  unfolding new_dave_session no_session
  new-WellFormed user_id = elim (Option-cases (parse_uint user_id)) [
    | inl e ↦ rw (e, new_dave_session) (record { has_key = λ e. ground arith; has_group = refl })
    | inr (n, e) ↦ rw (e, new_dave_session) (first-WellFormed user_id (ops.new_group (be_uint64 n)))
  ]

  active_encrypts : (d : DaveSession G) → WellFormed G d → is_active d ≡ can_encrypt d
  unfolding can_encrypt
  active_encrypts d h = elim (Bool-cases d.media.active) [
    | inl e ↦ rw e (sym (h.has_key e))
    | inr e ↦ rw e refl
  ]

  -- After any calls of the methods of a new session, whatever they return: the session is active exactly if
  -- it can encrypt, and its group is there unless making it returned an error.
  pub fails_closed :
      (user_id : String) (calls : List Call)
      → let d : DaveSession G =
          run ops cipher_of expand_with_label (new_dave_session ops user_id) calls in
        (is_active d ≡ can_encrypt d) × ((is_some d.group || is_some d.group_err) ≡ true)
  fails_closed user_id calls =
      let d : DaveSession G =
        run ops cipher_of expand_with_label (new_dave_session ops user_id) calls in
      let h = run-WellFormed calls (new_dave_session ops user_id) (new-WellFormed user_id) in
      (active_encrypts d h, h.has_group)
