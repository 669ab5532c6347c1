-- ===== src/Dave/Epoch/Calls.antt =====
-- The handlers of a DAVE session that use the secrets of its group, dave.go, and all its methods as calls
-- in a sequence.
use dgo.Prelude.{
  ℕ, String, true, false, List, Option, none, some, ◌==◌, ◌||◌, not, if◌then◌else◌, ◌⊎◌, inl, inr,
}
use dgo.Prelude.Int.{pos, ltb_ℤ}
use dgo.Frame.{hash_ratchet_get_key}
use dgo.Dave.{Session, clear_media_state}
use dgo.Dave.ParseUint.{parse_uint}
use dgo.Dave.UserId.{le_uint64}
use dgo.Dave.Group.{GroupOps}
use dgo.Dave.Epoch.{
  SessionError, nil_group, no_mls_group, bad_user_id, no_pending_key, no_ratchet_key,
  unexpected_transition, group_error, welcome_failed, commit_failed, export_failed, Bytes, bytes,
  failed, DaveSession, with_media, with_group,
}

abbrev pub export_label : String
export_label = "Discord Secure Frames v0"

abbrev pub key_size : ℕ
key_size = 16

module _ {G : Type 0} where
  unfoldable pub set_recognized : GroupOps G → DaveSession G → List String → DaveSession G
  set_recognized ops d users = elim d.group [
    | none ↦ d
    | some g ↦ with_group d (ops.set_recognized_users g users)
  ]

  -- A call of the group that may fail, behind the test of `groupErr`.
  unfoldable pub on_group :
      (ℕ → SessionError)
      → DaveSession G
      → Option SessionError
      → Option G
      → (G → G × Option ℕ)
      → DaveSession G × Option SessionError
  on_group wrap d (some e) group call = (d, some e)
  on_group wrap d none none call = (d, some nil_group)
  on_group wrap d none (some g) call =
      (with_group d (call g).0, elim (call g).1 [ none ↦ none | some e ↦ some (wrap e) ])

  unfoldable pub handle_external_sender_package :
      GroupOps G → DaveSession G → List ℕ → DaveSession G × Option SessionError
  unfolding on_group
  handle_external_sender_package ops d message =
      on_group group_error d d.group_err d.group (λ g. ops.set_external_sender g message)

  unfoldable pub proposals_of :
      GroupOps G → DaveSession G → List ℕ → Option SessionError → Option G → DaveSession G × Bytes
  proposals_of ops d message (some e) group = (d, failed e)
  proposals_of ops d message none none = (d, failed nil_group)
  proposals_of ops d message none (some g) =
      let done = ops.process_proposals g message in
      (
        with_group d done.0,
        elim done.1 [ inl reply ↦ bytes reply | inr e ↦ failed (group_error e) ],
      )

  unfoldable pub handle_proposals : GroupOps G → DaveSession G → List ℕ → DaveSession G × Bytes
  unfolding proposals_of
  handle_proposals ops d message = proposals_of ops d message d.group_err d.group

  -- The new epoch is there, and its keys wait for a transition.
  unfoldable pub at_epoch : DaveSession G → ℕ ⊎ ℕ → DaveSession G × Option SessionError
  at_epoch d (inr e) = (d, some (group_error e))
  at_epoch d (inl n) = (
    record d {
      epoch = n;
      media = record d.media { has_pending_key = true; receivers = λ ssrc. none };
    },
    none,
  )

  unfoldable pub read_epoch :
      GroupOps G → DaveSession G × Option SessionError → DaveSession G × Option SessionError
  unfolding at_epoch
  read_epoch ops (d, some e) = (d, some e)
  read_epoch ops (d, none) = elim d.group [
    | none ↦ (d, some nil_group)
    | some g ↦ at_epoch d (ops.epoch g)
  ]

  unfoldable pub handle_welcome :
      GroupOps G → DaveSession G → List ℕ → DaveSession G × Option SessionError
  unfolding on_group read_epoch
  handle_welcome ops d message =
      read_epoch ops
        (on_group welcome_failed d d.group_err d.group (λ g. ops.process_welcome g message))

  unfoldable pub handle_commit :
      GroupOps G → DaveSession G → List ℕ → DaveSession G × Option SessionError
  unfolding on_group read_epoch
  handle_commit ops d message =
      read_epoch ops
        (on_group commit_failed d d.group_err d.group (λ g. ops.process_commit g message))

  -- The secret that the group exports for a user, or the error.
  unfoldable pub export_for : GroupOps G → Option G → Option ℕ → List ℕ ⊎ SessionError
  export_for ops none user = inr no_mls_group
  export_for ops (some g) none = inr bad_user_id
  export_for ops (some g) (some n) =
      elim (ops.export_secret g export_label (le_uint64 n) key_size) [
        | inl secret ↦ inl secret
        | inr e ↦ inr (export_failed e)
      ]

  -- The end of `HandleExecuteTransition`.
  unfoldable pub executed : DaveSession G → ℕ → DaveSession G
  executed d id = record d {
    protocol_version = d.pending_version;
    pending_transition = false;
    has_last_transition = true;
    last_transition_id = id;
  }

  unfoldable pub activate :
      DaveSession G × Option SessionError → ℕ → DaveSession G × Option SessionError
  unfolding executed
  activate (d, some e) id = (d, some e)
  activate (d, none) id =
      (executed (with_media d (record d.media { has_pending_key = false; active = true })) id, none)

module _ {G : Type 0} (ops : GroupOps G)
    (expand_with_label : List ℕ → String → List ℕ → ℕ → Option (List ℕ)) where
  unfoldable pub with_secret :
      DaveSession G → List ℕ ⊎ SessionError → DaveSession G × Option SessionError
  with_secret d (inr e) = (d, some e)
  with_secret d (inl secret) =
      let m : Session = record d.media {
        ratchet_base_secret = secret;
        current_generation = 0;
        sender_nonce = 0;
      } in
      elim (hash_ratchet_get_key expand_with_label secret 0) [
        | none ↦ (with_media d m, some no_ratchet_key)
        | some key ↦ (with_media d (record m { sender_key = some key }), none)
      ]

  unfoldable pub derive_sender_key : DaveSession G → DaveSession G × Option SessionError
  unfolding with_secret export_for
  derive_sender_key d = with_secret d (export_for ops d.group (parse_uint d.user_id))

  unfoldable pub handle_execute_transition : DaveSession G → ℕ → DaveSession G × Option SessionError
  unfolding derive_sender_key activate clear_media_state
  handle_execute_transition d id =
      if not d.pending_transition || not (id == d.pending_transition_id)
      then (d, some unexpected_transition)
      else if ltb_ℤ (pos 0) d.pending_version
      then (if not d.media.has_pending_key
          then (d, some no_pending_key)
          else activate (derive_sender_key d) id)
      else (executed (with_media d (clear_media_state d.media)) id, none)
