-- ===== src/Dave/Epoch/Keeps.antt =====
-- What the methods of a DAVE session keep that do not change the protocol version.
pub mod Handlers
use dgo.Prelude.{
  ℕ, suc, ◌+◌, ◌/◌, ◌^◌, ◌≡◌, refl, ◌⊎◌, inl, inr, String, Bool, true, false, not, List, [], ◌∷◌,
  Option, none, some, ltb, ◌==◌, ◌||◌, ◌&&◌, length, if◌then◌else◌, Bool-cases, Option-cases, arith,
}
use dgo.Prelude.Int.{ℤ, pos, eqb_ℤ}
use dgo.Frame.{Cipher, Parsed, Result, ok, err, hash_ratchet_get_key, parse_secure_frame}
use dgo.Dave.{
  Session, Receiver, Reply, DaveError, clear_media_state, set_ssrc, set_receiver, encrypt_frame,
  decrypt_frame, advance, send_with, use_frame, find_receiver, to_receiver, receive,
}
use dgo.Dave.ParseUint.{parse_uint}
use dgo.Dave.UserId.{be_uint64}
use dgo.Dave.Group.{GroupOps}
use dgo.Dave.Epoch.{
  SessionError, DaveSession, is_some, Bytes, with_media, with_group, clear_state, is_supported,
  after_package, package_of, unless_group_err, generate_key_package, after_reset, reset_group,
  configure_id, configure_unless, configure, then_package, reset_for_re_welcome,
  handle_prepare_epoch, reset_failed, epoch_reset_failed, group_error, clear_pending_transition,
}
use dgo.Dave.Epoch.Calls.{
  set_recognized, on_group, handle_external_sender_package, proposals_of, handle_proposals,
  at_epoch, read_epoch, handle_welcome, handle_commit, with_secret, derive_sender_key, export_for,
}
use dgo.Dave.Epoch.Media.{encrypt, decrypt, made_for}

pub if_keeps :
    {A : Type 0} (Q : A → Type 0) (b : Bool) (x y : A) → Q x → Q y → Q (if b then x else y)
if_keeps Q true x y qx qy = qx
if_keeps Q false x y qx qy = qy

-- An active session has a key for its frames.
abbrev pub HasKey : Session → Type 0
HasKey m = m.active ≡ true → is_some m.sender_key ≡ true

-- A property of sessions that outlives a change of the group, of its id, of the epoch and of the version, the
-- clearing of the media and of the pending transition, the arrival of an epoch, and any change of the media
-- that keeps a key for an active session.
pub record Kept {G : Type 0} (P : DaveSession G → Type 0) : Type 0 where
  pub group : (d : DaveSession G) (g : G) → P d → P (with_group d g)
  pub clear : (d : DaveSession G) → P d → P (clear_state d)
  pub named :
      (d : DaveSession G) (n : ℕ) (version : ℤ)
      → P d
      → P (record d { group_id = be_uint64 n; protocol_version = version })
  pub at :
      (d : DaveSession G) (n : ℕ) (version : ℤ)
      → P d
      → P (record d { epoch = n; protocol_version = version })
  pub arrived :
      (d : DaveSession G) (n : ℕ)
      → P d
      → P (record d {
        epoch = n;
        media = record d.media { has_pending_key = true; receivers = λ ssrc. none };
      })
  pub media :
      (d : DaveSession G) (m : Session) → (HasKey d.media → HasKey m) → P d → P (with_media d m)

module _ {G : Type 0} (ops : GroupOps G) (P : DaveSession G → Type 0) (keep : Kept P) where
  keeps-after_package :
      (d : DaveSession G) (made : G × (List ℕ ⊎ ℕ)) → P d → P (after_package ops d made).0
  unfolding after_package
  keeps-after_package d (g, inl package_bytes) h = keep.group d g h
  keeps-after_package d (g, inr e) h = keep.group d g h

  keeps-package_of : (d : DaveSession G) (g : Option G) → P d → P (package_of ops d g).0
  unfolding package_of
  keeps-package_of d none h = h
  keeps-package_of d (some g) h = keeps-after_package d (ops.generate_key_package g) h

  pub keeps-unless :
      (e : Option SessionError) (d : DaveSession G) (next : DaveSession G × Bytes)
      → P d
      → P next.0
      → P (unless_group_err ops e d next).0
  unfolding unless_group_err
  keeps-unless (some e) d next h hn = h
  keeps-unless none d next h hn = hn

  pub keeps-generate_key_package : (d : DaveSession G) → P d → P (generate_key_package ops d).0
  unfolding generate_key_package
  keeps-generate_key_package d h =
      keeps-unless d.group_err d (package_of ops d d.group) h (keeps-package_of d d.group h)

  keeps-after_reset :
      (wrap : ℕ → SessionError) (d : DaveSession G) (done : G × Option ℕ)
      → P d
      → P (after_reset ops wrap d done).0
  unfolding after_reset
  keeps-after_reset wrap d (g, some e) h = keep.group d g h
  keeps-after_reset wrap d (g, none) h = keep.clear (with_group d g) (keep.group d g h)

  pub keeps-reset_group :
      (wrap : ℕ → SessionError) (d : DaveSession G) (version : ℤ) (before : G → G) (g : Option G)
      → P d
      → P (reset_group ops wrap d version before g).0
  unfolding reset_group
  keeps-reset_group wrap d version before none h = h
  keeps-reset_group wrap d version before (some g) h =
      keeps-after_reset wrap d (ops.reset (before g) d.group_id version) h

  keeps-configure_id :
      (d : DaveSession G) (n : Option ℕ) (version : ℤ) (users : List String)
      → P d
      → P (configure_id ops d n version users).0
  unfolding configure_id
  keeps-configure_id d none version users h = h
  keeps-configure_id d (some n) version users h =
      keeps-reset_group group_error
        (record d { group_id = be_uint64 n; protocol_version = version }) version
        (λ g. ops.set_recognized_users g users) d.group (keep.named d n version h)

  keeps-configure_unless :
      (e : Option SessionError) (d : DaveSession G) (id : String) (version : ℤ)
      (users : List String)
      → P d
      → P (configure_unless ops e d id version users).0
  unfolding configure_unless
  keeps-configure_unless (some e) d id version users h = h
  keeps-configure_unless none d id version users h =
      keeps-configure_id d (parse_uint id) version users h

  pub keeps-configure :
      (d : DaveSession G) (id : String) (version : ℤ) (users : List String)
      → P d
      → P (configure ops d id version users).0
  unfolding configure
  keeps-configure d id version users h = keeps-configure_unless d.group_err d id version users h

  pub keeps-then_package :
      (done : DaveSession G × Option SessionError) → P done.0 → P (then_package ops done).0
  unfolding then_package
  keeps-then_package (d, some e) h = h
  keeps-then_package (d, none) h = keeps-generate_key_package d h

  pub keeps-reset_for_re_welcome : (d : DaveSession G) → P d → P (reset_for_re_welcome ops d).0
  unfolding reset_for_re_welcome
  keeps-reset_for_re_welcome d h = elim (Bool-cases (length d.group_id == 0)) [
    | inl e ↦ rw (e, reset_for_re_welcome) (keeps-unless d.group_err d _ h h)
    | inr e ↦
        rw (e, reset_for_re_welcome)
          (keeps-unless d.group_err d _ h (
            keeps-then_package _
              (keeps-reset_group reset_failed d d.protocol_version (λ g. g) d.group h)))
  ]
