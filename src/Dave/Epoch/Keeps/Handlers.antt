-- ===== src/Dave/Epoch/Keeps/Handlers.antt =====
-- What the handlers and the frames of a DAVE session keep.
use dgo.Prelude.{
  ℕ, ◌+◌, ◌/◌, ◌^◌, ◌≡◌, refl, subst, sym, ap, ◌∙◌, ◌-◌, ◌⊎◌, inl, inr, String, Bool, true, false,
  List, Option, none, some, ◌==◌, length, Bool-cases, Option-cases, arith,
}
use dgo.Prelude.Int.{ℤ, pos, eqb_ℤ}
use dgo.Frame.{Cipher, Parsed, Result, ok, err, hash_ratchet_get_key, parse_secure_frame}
use dgo.Dave.{
  Session, Receiver, refused, plain, not_active, clear_media_state, set_ssrc, encrypt_frame,
  decrypt_frame, advance, send_with, use_frame, find_receiver, to_receiver,
}
use dgo.Dave.Group.{GroupOps}
use dgo.Dave.Epoch.{
  SessionError, DaveSession, is_some, is_supported, handle_prepare_epoch, epoch_reset_failed,
}
use dgo.Dave.Epoch.Calls.{
  set_recognized, on_group, handle_external_sender_package, proposals_of, handle_proposals,
  at_epoch, read_epoch, handle_welcome, handle_commit,
}
use dgo.Dave.Epoch.Media.{encrypt, decrypt, made_for}
use dgo.Dave.Epoch.Keeps.{
  HasKey, Kept, keeps-reset_group, keeps-then_package, keeps-generate_key_package, keeps-configure,
  keeps-reset_for_re_welcome,
}
use dgo.Dave.Epoch.Calls.{on_group}
use dgo.Dave.Epoch.Media.{
  Call, configure_call, recognized_call, key_package_call, re_welcome_call, derive_call, reset_call,
  external_sender_call, proposals_call, welcome_call, commit_call, encrypt_call, prepare_call,
  execute_call, epoch_call, ssrc_call, decrypt_call, call,
}

module _ (cipher_of : List ℕ → Cipher)
    (expand_with_label : List ℕ → String → List ℕ → ℕ → Option (List ℕ)) where
  has_key-advance :
      (s : Session) (key opus : List ℕ)
      → is_some s.sender_key ≡ true
      → is_some (advance cipher_of expand_with_label s key opus).0.sender_key ≡ true
  unfolding advance send_with
  has_key-advance s key opus h =
      let generation : ℕ = (s.sender_nonce + 1) / 2 ^ 24 in
      elim (Bool-cases (generation == s.current_generation)) [
        | inl same ↦ rw (same, advance) h
        | inr other ↦
            elim (Option-cases
              (hash_ratchet_get_key expand_with_label s.ratchet_base_secret generation)) [
                | inl e ↦ rw (other, e, advance) h
                | inr (next, e) ↦ rw (other, e, advance) refl
              ]
      ]

  HasKey-encrypt :
      (s : Session) (opus : List ℕ)
      → HasKey s
      → HasKey (encrypt_frame cipher_of expand_with_label s opus).0
  unfolding encrypt_frame clear_media_state
  HasKey-encrypt s opus h = elim (Bool-cases s.active) [
    | inr idle ↦
        let same : encrypt_frame cipher_of expand_with_label s opus ≡ (s, refused not_active) =
          rw (idle, encrypt_frame) refl in
        subst (λ r. HasKey r.0) (sym same) h
    | inl active ↦ elim (Option-cases s.sender_key) [
      | inl e ↦
          let missing : is_some s.sender_key ≡ false = ap is_some e in
          let there : is_some s.sender_key ≡ true = h active in ground arith
      | inr (key, e) ↦ elim (Bool-cases (s.sender_nonce == 2 ^ 32 - 1)) [
        | inl over ↦ rw (active, e, over, encrypt_frame) (λ a. ground arith)
        | inr more ↦
            rw (active, e, more, encrypt_frame) (λ a. has_key-advance s key opus (h active))
      ]
    ]
  ]

  abbrev SameKey : Session → Session → Type 0
  SameKey s t = (s.active ≡ t.active) × (s.sender_key ≡ t.sender_key)

  same-find :
      (s : Session) (ssrc : ℕ) (made : Receiver ⊎ ℕ) (p : Parsed)
      → SameKey (find_receiver cipher_of expand_with_label s ssrc made p).0 s
  unfolding find_receiver to_receiver
  same-find s ssrc made p = elim (Option-cases (s.receivers ssrc)) [
    | inr (r, e) ↦ rw (e, find_receiver) (refl, refl)
    | inl e ↦ elim (Option-cases (s.ssrc_to_user_id ssrc)) [
      | inl u ↦ rw (e, u, find_receiver) (refl, refl)
      | inr (user_id, u) ↦
          elim made as (λ m. SameKey (find_receiver cipher_of expand_with_label s ssrc m p).0 s) [
            | inl r ↦ rw (e, u, find_receiver) (refl, refl)
            | inr f ↦ rw (e, u, find_receiver) (refl, refl)
          ]
    ]
  ]

  same-use :
      (s : Session) (ssrc : ℕ) (made : Receiver ⊎ ℕ) (p : Result Parsed)
      → SameKey (use_frame cipher_of expand_with_label s ssrc made p).0 s
  unfolding use_frame
  same-use s ssrc made (err e) = (refl, refl)
  same-use s ssrc made (ok p) = same-find s ssrc made p

  same-decrypt :
      (s : Session) (ssrc : ℕ) (made : Receiver ⊎ ℕ) (frame : List ℕ)
      → SameKey (decrypt_frame cipher_of expand_with_label s ssrc made frame).0 s
  unfolding decrypt_frame
  same-decrypt s ssrc made frame = elim (Bool-cases s.active) [
    | inr idle ↦
        let same : decrypt_frame cipher_of expand_with_label s ssrc made frame ≡ (s, plain frame) =
          rw (idle, decrypt_frame) refl in
        subst (λ r. SameKey r.0 s) (sym same) (refl, refl)
    | inl active ↦
        let same : decrypt_frame cipher_of expand_with_label s ssrc made frame
            ≡ use_frame cipher_of expand_with_label s ssrc made (parse_secure_frame frame) =
          rw (active, decrypt_frame) refl in
        subst (λ r. SameKey r.0 s) (sym same) (same-use s ssrc made (parse_secure_frame frame))
  ]

  HasKey-decrypt :
      (s : Session) (ssrc : ℕ) (made : Receiver ⊎ ℕ) (frame : List ℕ)
      → HasKey s
      → HasKey (decrypt_frame cipher_of expand_with_label s ssrc made frame).0
  HasKey-decrypt s ssrc made frame h active =
      let same = same-decrypt s ssrc made frame in ap is_some same.1 ∙ h (sym same.0 ∙ active)

module _ {G : Type 0} (ops : GroupOps G) (P : DaveSession G → Type 0) (keep : Kept P) where
  keeps-prepare_epoch :
      (d : DaveSession G) (n : ℕ) (version : ℤ) → P d → P (handle_prepare_epoch ops d n version).0
  unfolding handle_prepare_epoch
  keeps-prepare_epoch d n version h =
      let at : DaveSession G = record d { epoch = n; protocol_version = version } in
      let hat : P at = keep.at d n version h in
      elim (Bool-cases (n == 0)) [
        | inl zero ↦ rw (zero, handle_prepare_epoch) h
        | inr positive ↦ elim (Bool-cases (is_supported version)) [
          | inr bad ↦ rw (positive, bad, handle_prepare_epoch) h
          | inl good ↦ elim (Bool-cases (n == 1)) [
            | inr later ↦ rw (positive, good, later, handle_prepare_epoch) hat
            | inl first ↦ elim (Bool-cases (eqb_ℤ version (pos 0))) [
              | inl off ↦ rw (positive, good, first, off, handle_prepare_epoch) (keep.clear at hat)
              | inr on ↦ elim (Bool-cases (length d.group_id == 0)) [
                | inl none_set ↦ rw (positive, good, first, on, none_set, handle_prepare_epoch) hat
                | inr set ↦
                    rw (positive, good, first, on, set, handle_prepare_epoch)
                      (keeps-then_package ops P keep _ (
                        keeps-reset_group ops P keep epoch_reset_failed at version (λ g. g) d.group
                          hat))
              ]
            ]
          ]
        ]
      ]

  keeps-recognized :
      (d : DaveSession G) (users : List String) → P d → P (set_recognized ops d users)
  unfolding set_recognized
  keeps-recognized d users h = elim (Option-cases d.group) [
    | inl e ↦ rw (e, set_recognized) h
    | inr (g, e) ↦ rw (e, set_recognized) (keep.group d (ops.set_recognized_users g users) h)
  ]

  keeps-on_group :
      (wrap : ℕ → SessionError) (d : DaveSession G) (e : Option SessionError) (g : Option G)
      (f : G → G × Option ℕ)
      → P d
      → P (on_group wrap d e g f).0
  unfolding on_group
  keeps-on_group wrap d (some e) g f h = h
  keeps-on_group wrap d none none f h = h
  keeps-on_group wrap d none (some g) f h = keep.group d (f g).0 h

  keeps-proposals :
      (d : DaveSession G) (message : List ℕ) (e : Option SessionError) (g : Option G)
      → P d
      → P (proposals_of ops d message e g).0
  unfolding proposals_of
  keeps-proposals d message (some e) g h = h
  keeps-proposals d message none none h = h
  keeps-proposals d message none (some g) h = keep.group d (ops.process_proposals g message).0 h

  keeps-at_epoch : (d : DaveSession G) (n : ℕ ⊎ ℕ) → P d → P (at_epoch d n).0
  unfolding at_epoch
  keeps-at_epoch d (inr e) h = h
  keeps-at_epoch d (inl n) h = keep.arrived d n h

  keeps-read_epoch :
      (done : DaveSession G × Option SessionError) → P done.0 → P (read_epoch ops done).0
  unfolding read_epoch
  keeps-read_epoch (d, some e) h = h
  keeps-read_epoch (d, none) h = elim (Option-cases d.group) [
    | inl e ↦ rw (e, read_epoch) h
    | inr (g, e) ↦ rw (e, read_epoch) (keeps-at_epoch d (ops.epoch g) h)
  ]

  -- The calls that neither prepare a transition, execute one, derive a key, nor reset the session.
  abbrev pub is_quiet : Call → Bool
  is_quiet c = elim c [
    | prepare_call id version ↦ false
    | execute_call id ↦ false
    | derive_call ↦ false
    | reset_call ↦ false
    | _ ↦ true
  ]

  pub keeps-call :
      (cipher_of : List ℕ → Cipher) (expand : List ℕ → String → List ℕ → ℕ → Option (List ℕ))
      (d : DaveSession G) (c : Call)
      → is_quiet c ≡ true
      → P d
      → P (call ops cipher_of expand d c)
  unfolding call encrypt decrypt handle_external_sender_package handle_proposals handle_welcome
      handle_commit set_ssrc
  keeps-call cipher_of expand d (configure_call id version users) q h =
      keeps-configure ops P keep d id version users h
  keeps-call cipher_of expand d (recognized_call users) q h = keeps-recognized d users h
  keeps-call cipher_of expand d key_package_call q h = keeps-generate_key_package ops P keep d h
  keeps-call cipher_of expand d re_welcome_call q h = keeps-reset_for_re_welcome ops P keep d h
  keeps-call cipher_of expand d (external_sender_call m) q h =
      keeps-on_group _ d d.group_err d.group _ h
  keeps-call cipher_of expand d (proposals_call m) q h = keeps-proposals d m d.group_err d.group h
  keeps-call cipher_of expand d (welcome_call m) q h =
      keeps-read_epoch _ (keeps-on_group _ d d.group_err d.group _ h)
  keeps-call cipher_of expand d (commit_call m) q h =
      keeps-read_epoch _ (keeps-on_group _ d d.group_err d.group _ h)
  keeps-call cipher_of expand d (encrypt_call opus) q h =
      keep.media d _ (HasKey-encrypt cipher_of expand d.media opus) h
  keeps-call cipher_of expand d (epoch_call n version) q h = keeps-prepare_epoch d n version h
  keeps-call cipher_of expand d (ssrc_call ssrc user_id) q h = keep.media d _ (λ k. k) h
  keeps-call cipher_of expand d (decrypt_call ssrc frame) q h =
      keep.media d _
        (HasKey-decrypt cipher_of expand d.media ssrc
          (made_for expand ops d (d.media.ssrc_to_user_id ssrc)) frame)
        h
  keeps-call cipher_of expand d (prepare_call id version) q h = ground arith
  keeps-call cipher_of expand d (execute_call id) q h = ground arith
  keeps-call cipher_of expand d derive_call q h = ground arith
  keeps-call cipher_of expand d reset_call q h = ground arith
