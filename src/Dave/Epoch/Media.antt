-- ===== src/Dave/Epoch/Media.antt =====
-- The frames of a DAVE session with its group, `createReceiverLocked` of dave.go, and the methods of a
-- session as calls in a sequence.
use dgo.Prelude.{ℕ, String, false, List, [], ◌∷◌, Option, none, some, ◌⊎◌, inl, inr}
use dgo.Prelude.Int.{ℤ}
use dgo.Frame.{Cipher, hash_ratchet_get_key}
use dgo.Dave.{Session, Receiver, Reply, set_ssrc, encrypt_frame, decrypt_frame}
use dgo.Dave.ParseUint.{parse_uint}
use dgo.Dave.Group.{GroupOps}
use dgo.Dave.Epoch.{
  SessionError, no_mls_group, bad_user_id, no_ratchet_key, DaveSession, with_media,
  handle_prepare_transition, configure, generate_key_package, reset_for_re_welcome,
  handle_prepare_epoch, reset,
}
use dgo.Dave.Epoch.Calls.{
  set_recognized, handle_external_sender_package, handle_proposals, handle_welcome, handle_commit,
  export_for, derive_sender_key, handle_execute_transition,
}

-- The errors of `createReceiverLocked`, numbered.
abbrev pub receiver_error : SessionError → ℕ
receiver_error no_mls_group = 0
receiver_error bad_user_id = 1
receiver_error no_ratchet_key = 2
receiver_error e = 3

module _ (expand_with_label : List ℕ → String → List ℕ → ℕ → Option (List ℕ)) where
  unfoldable pub receiver_from : List ℕ ⊎ SessionError → Receiver ⊎ ℕ
  receiver_from (inr e) = inr (receiver_error e)
  receiver_from (inl secret) = elim (hash_ratchet_get_key expand_with_label secret 0) [
    | none ↦ inr (receiver_error no_ratchet_key)
    | some key ↦ inl (record {
      base_secret = secret;
      key = key;
      current_generation = 0;
      highest_nonce = 0;
      replay_window = λ bit. false;
      has_nonce = false;
    })
  ]

  -- The receiver before it is stored under its SSRC.
  unfoldable pub create_receiver : {G : Type 0} → GroupOps G → DaveSession G → String → Receiver ⊎ ℕ
  unfolding receiver_from export_for
  create_receiver ops d user_id = receiver_from (export_for ops d.group (parse_uint user_id))

  -- The receiver that is made if there is none for the SSRC.
  unfoldable pub made_for : {G : Type 0} → GroupOps G → DaveSession G → Option String → Receiver ⊎ ℕ
  unfolding create_receiver
  made_for ops d none = inr 3
  made_for ops d (some user_id) = create_receiver ops d user_id

pub data Call : Type 0 where
  configure_call : String → ℤ → List String → Call
  recognized_call : List String → Call
  key_package_call re_welcome_call derive_call reset_call : Call
  external_sender_call proposals_call welcome_call commit_call encrypt_call : List ℕ → Call
  prepare_call : ℕ → ℤ → Call
  execute_call : ℕ → Call
  epoch_call : ℕ → ℤ → Call
  ssrc_call : ℕ → String → Call
  decrypt_call : ℕ → List ℕ → Call

module _ {G : Type 0} (ops : GroupOps G) (cipher_of : List ℕ → Cipher)
    (expand_with_label : List ℕ → String → List ℕ → ℕ → Option (List ℕ)) where
  abbrev pub media_step : DaveSession G → Session × Reply → DaveSession G × Reply
  media_step d (m, reply) = (with_media d m, reply)

  unfoldable pub encrypt : DaveSession G → List ℕ → DaveSession G × Reply
  unfolding encrypt_frame
  encrypt d opus_data = media_step d (encrypt_frame cipher_of expand_with_label d.media opus_data)

  unfoldable pub decrypt : DaveSession G → ℕ → List ℕ → DaveSession G × Reply
  unfolding decrypt_frame made_for
  decrypt d ssrc frame = media_step d (
      decrypt_frame cipher_of expand_with_label d.media ssrc
        (made_for expand_with_label ops d (d.media.ssrc_to_user_id ssrc)) frame)

  unfoldable pub call : DaveSession G → Call → DaveSession G
  unfolding configure set_recognized generate_key_package reset_for_re_welcome derive_sender_key
      reset handle_external_sender_package handle_proposals handle_welcome handle_commit encrypt
      handle_prepare_transition handle_execute_transition handle_prepare_epoch set_ssrc decrypt
  call d (configure_call group_id version users) = (configure ops d group_id version users).0
  call d (recognized_call users) = set_recognized ops d users
  call d key_package_call = (generate_key_package ops d).0
  call d re_welcome_call = (reset_for_re_welcome ops d).0
  call d derive_call = (derive_sender_key ops expand_with_label d).0
  call d reset_call = reset d
  call d (external_sender_call message) = (handle_external_sender_package ops d message).0
  call d (proposals_call message) = (handle_proposals ops d message).0
  call d (welcome_call message) = (handle_welcome ops d message).0
  call d (commit_call message) = (handle_commit ops d message).0
  call d (encrypt_call opus_data) = (encrypt d opus_data).0
  call d (prepare_call id version) = (handle_prepare_transition d id version).0
  call d (execute_call id) = (handle_execute_transition ops expand_with_label d id).0
  call d (epoch_call epoch version) = (handle_prepare_epoch ops d epoch version).0
  call d (ssrc_call ssrc user_id) = with_media d (set_ssrc d.media ssrc user_id)
  call d (decrypt_call ssrc frame) = (decrypt d ssrc frame).0

  unfoldable pub run : DaveSession G → List Call → DaveSession G
  unfolding call
  run d [] = d
  run d (c ∷ cs) = run (call d c) cs
