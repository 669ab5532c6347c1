-- ===== src/Dave/Epoch.antt =====
-- The life of a DAVE session, dave.go: its MLS group, its epochs and the transitions between protocol
-- versions. The media state of `Dave` is a field. The functions of the group are a parameter, for the
-- group's type `G` is that of mls/session.go. The group is nil where there is none; a method of the nil
-- group panics, which `nil_group` stands for.
pub mod Calls
pub mod Media
pub mod Keeps
pub mod Closed
pub mod Once
pub mod First
mod Examples
use dgo.Prelude.{
  ℕ, String, Bool, true, false, List, [], ◌∷◌, Option, none, some, length, ltb, ◌==◌, ◌&&◌, ◌||◌,
  not, if◌then◌else◌, ◌⊎◌, inl, inr,
}
use dgo.Prelude.Int.{ℤ, pos, eqb_ℤ, ltb_ℤ}
use dgo.Frame.{Cipher, hash_ratchet_get_key}
use dgo.Dave.{Session, Receiver, Reply, clear_media_state, set_ssrc, encrypt_frame, decrypt_frame}
use dgo.Dave.ParseUint.{parse_uint}
use dgo.Dave.UserId.{le_uint64, be_uint64}
use dgo.Dave.Group.{GroupOps}

pub data SessionError : Type 0 where
  nil_group no_mls_group bad_user_id bad_channel_id no_group_id unsupported_version zero_epoch
        already_executed already_pending no_pending_epoch unexpected_transition no_pending_key
        no_ratchet_key :
      SessionError
  group_error reset_failed epoch_reset_failed key_package_failed welcome_failed commit_failed
        export_failed :
      ℕ → SessionError

pub data Bytes : Type 0 where
  bytes : List ℕ → Bytes
  failed : SessionError → Bytes

pub record DaveSession (G : Type 0) : Type 0 where
  pub media : Session
  pub epoch : ℕ
  pub pending_transition_id : ℕ
  pub pending_version : ℤ
  pub pending_transition : Bool
  pub last_transition_id : ℕ
  pub has_last_transition : Bool
  pub user_id : String
  pub group_id : List ℕ
  pub protocol_version : ℤ
  pub group : Option G
  pub group_err : Option SessionError

abbrev pub no_media : Session
no_media = record {
  active = false;
  sender_key = none;
  sender_nonce = 0;
  ratchet_base_secret = [];
  current_generation = 0;
  has_pending_key = false;
  receivers = λ ssrc. none;
  ssrc_to_user_id = λ ssrc. none;
}

abbrev pub is_supported : ℤ → Bool
is_supported version = eqb_ℤ version (pos 0) || eqb_ℤ version (pos 1)

abbrev pub is_some : {A : Type 0} → Option A → Bool
is_some none = false
is_some (some x) = true

module _ {G : Type 0} where
  abbrev pub with_media : DaveSession G → Session → DaveSession G
  with_media d media = record d { media = media }

  abbrev pub with_group : DaveSession G → G → DaveSession G
  with_group d g = record d { group = some g }

  abbrev pub is_active : DaveSession G → Bool
  is_active d = d.media.active

  -- The cipher is there if the sender's key is.
  unfoldable pub can_encrypt : DaveSession G → Bool
  can_encrypt d = d.media.active && is_some d.media.sender_key

  unfoldable pub clear_pending_transition : DaveSession G → DaveSession G
  clear_pending_transition d = record d {
    pending_transition_id = 0;
    pending_version = pos 0;
    pending_transition = false;
  }

  -- The two calls, always together.
  unfoldable pub clear_state : DaveSession G → DaveSession G
  unfolding clear_media_state clear_pending_transition
  clear_state d = clear_pending_transition (with_media d (clear_media_state d.media))

  unfoldable pub handle_prepare_transition :
      DaveSession G → ℕ → ℤ → DaveSession G × Option SessionError
  handle_prepare_transition d id version =
      if not (is_supported version)
      then (d, some unsupported_version)
      else if d.has_last_transition && (id == d.last_transition_id)
      then (d, some already_executed)
      else if d.pending_transition && not (id == d.pending_transition_id)
      then (d, some already_pending)
      else if ltb_ℤ (pos 0) version && not d.media.has_pending_key
      then (d, some no_pending_epoch)
      else (
        record d {
          pending_transition_id = id;
          pending_version = version;
          pending_transition = true;
        },
        none,
      )

  unfoldable pub reset : DaveSession G → DaveSession G
  reset d = record (clear_state d) {
    media = record (clear_media_state d.media) { ssrc_to_user_id = λ ssrc. none };
    last_transition_id = 0;
    has_last_transition = false;
  }

module _ {G : Type 0} (ops : GroupOps G) where
  unfoldable pub no_session : String → Option G → Option SessionError → DaveSession G
  no_session user_id group group_err = record {
    media = no_media;
    epoch = 0;
    pending_transition_id = 0;
    pending_version = pos 0;
    pending_transition = false;
    last_transition_id = 0;
    has_last_transition = false;
    user_id = user_id;
    group_id = [];
    protocol_version = pos 0;
    group = group;
    group_err = group_err;
  }

  unfoldable pub first_group : String → G ⊎ ℕ → DaveSession G
  unfolding no_session
  first_group user_id (inl g) = no_session user_id (some g) none
  first_group user_id (inr e) = no_session user_id none (some (group_error e))

  unfoldable pub new_dave_session : String → DaveSession G
  unfolding no_session first_group
  new_dave_session user_id = elim (parse_uint user_id) [
    | none ↦ no_session user_id none (some bad_user_id)
    | some n ↦ first_group user_id (ops.new_group (be_uint64 n))
  ]

  unfoldable pub after_package : DaveSession G → G × (List ℕ ⊎ ℕ) → DaveSession G × Bytes
  after_package d (g, inl made) = (with_group d g, bytes made)
  after_package d (g, inr e) = (with_group d g, failed (key_package_failed e))

  -- `generateKeyPackageLocked` without the test of `groupErr`.
  unfoldable pub package_of : DaveSession G → Option G → DaveSession G × Bytes
  unfolding after_package
  package_of d none = (d, failed no_mls_group)
  package_of d (some g) = after_package d (ops.generate_key_package g)

  unfoldable pub unless_group_err :
      Option SessionError → DaveSession G → DaveSession G × Bytes → DaveSession G × Bytes
  unless_group_err (some e) d next = (d, failed e)
  unless_group_err none d next = next

  unfoldable pub generate_key_package : DaveSession G → DaveSession G × Bytes
  unfolding package_of unless_group_err
  generate_key_package d = unless_group_err d.group_err d (package_of d d.group)

  -- What follows a reset of the group that succeeds.
  unfoldable pub after_reset :
      (ℕ → SessionError) → DaveSession G → G × Option ℕ → DaveSession G × Option SessionError
  unfolding clear_media_state clear_pending_transition
  after_reset wrap d (g, some e) = (with_group d g, some (wrap e))
  after_reset wrap d (g, none) = (clear_state (with_group d g), none)

  unfoldable pub reset_group :
      (ℕ → SessionError)
      → DaveSession G
      → ℤ
      → (G → G)
      → Option G
      → DaveSession G × Option SessionError
  unfolding after_reset
  reset_group wrap d version before none = (d, some nil_group)
  reset_group wrap d version before (some g) =
      after_reset wrap d (ops.reset (before g) d.group_id version)

  unfoldable pub configure_id :
      DaveSession G → Option ℕ → ℤ → List String → DaveSession G × Option SessionError
  unfolding reset_group
  configure_id d none version recognized = (d, some bad_channel_id)
  configure_id d (some n) version recognized =
      let named = record d { group_id = be_uint64 n; protocol_version = version } in
      reset_group group_error named version (λ g. ops.set_recognized_users g recognized) d.group

  unfoldable pub configure_unless :
      Option SessionError
      → DaveSession G
      → String
      → ℤ
      → List String
      → DaveSession G × Option SessionError
  unfolding configure_id
  configure_unless (some e) d group_id version recognized = (d, some e)
  configure_unless none d group_id version recognized =
      configure_id d (parse_uint group_id) version recognized

  unfoldable pub configure :
      DaveSession G → String → ℤ → List String → DaveSession G × Option SessionError
  unfolding configure_unless
  configure d group_id version recognized =
      configure_unless d.group_err d group_id version recognized

  -- The package, once the group is reset.
  unfoldable pub then_package : DaveSession G × Option SessionError → DaveSession G × Bytes
  then_package (d, some e) = (d, failed e)
  then_package (d, none) = generate_key_package d

  unfoldable pub reset_for_re_welcome : DaveSession G → DaveSession G × Bytes
  unfolding unless_group_err reset_group then_package
  reset_for_re_welcome d = unless_group_err d.group_err d (
      if length d.group_id == 0
      then (d, failed no_group_id)
      else then_package (reset_group reset_failed d d.protocol_version (λ g. g) d.group))

  unfoldable pub handle_prepare_epoch : DaveSession G → ℕ → ℤ → DaveSession G × Bytes
  unfolding reset_group then_package clear_media_state clear_pending_transition
  handle_prepare_epoch d epoch version =
      let at = record d { epoch = epoch; protocol_version = version } in
      if epoch == 0
      then (d, failed zero_epoch)
      else if not (is_supported version)
      then (d, failed unsupported_version)
      else if not (epoch == 1)
      then (at, bytes [])
      else if eqb_ℤ version (pos 0)
      then (clear_state at, bytes [])
      else if length d.group_id == 0
      then (at, failed no_group_id)
      else then_package (reset_group epoch_reset_failed at version (λ g. g) d.group)
