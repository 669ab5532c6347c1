-- ===== src/Voice/Outcomes.antt =====
-- The state of a session after a reset, a preparation and an execution that succeed.
use dgo.Prelude.{
  ℕ, ◌≡◌, refl, ap, String, true, false, not, List, Option, none, some, length, ◌==◌, ◌&&◌, ◌||◌,
  ◌⊎◌, inl, inr,
}
use dgo.Prelude.Int.{ℤ, pos, ltb_ℤ}
use dgo.Dave.{clear_media_state}
use dgo.Dave.Group.{GroupOps}
use dgo.Dave.Epoch.{
  SessionError, no_group_id, reset_failed, DaveSession, Bytes, bytes, failed, is_active,
  clear_state, clear_pending_transition, handle_prepare_transition, after_package, package_of,
  unless_group_err, generate_key_package, after_reset, reset_group, then_package,
  reset_for_re_welcome, unexpected_transition, no_pending_key, already_executed, already_pending,
  no_pending_epoch,
}
use dgo.Dave.Epoch.Calls.{derive_sender_key, executed, activate, handle_execute_transition}
use dgo.Dave.Epoch.Keeps.{if_keeps}

module _ {G : Type 0} where
  abbrev pub Idle : DaveSession G → Type 0
  Idle d = (is_active d ≡ false) × (d.pending_transition ≡ false)

  abbrev pub IdlePackage : DaveSession G × Bytes → Type 0
  IdlePackage (d, failed e) = Unit {0}
  IdlePackage (d, bytes package_bytes) = Idle d

  abbrev pub IdleReset : DaveSession G × Option SessionError → Type 0
  IdleReset (d, some e) = Unit {0}
  IdleReset (d, none) = Idle d

  abbrev pub Activated : ℕ → DaveSession G × Option SessionError → Type 0
  Activated id (d, some e) = Unit {0}
  Activated id (d, none) = (is_active d ≡ true) × (d.last_transition_id ≡ id)

  abbrev pub Prepared : ℕ → DaveSession G × Option SessionError → Type 0
  Prepared id (d, some e) = Unit {0}
  Prepared id (d, none) =
      (d.pending_transition ≡ true) × (d.pending_transition_id ≡ id) × (d.pending_version ≡ pos 1)

module _ {G : Type 0} (ops : GroupOps G)
    (expand_with_label : List ℕ → String → List ℕ → ℕ → Option (List ℕ)) where
  after_package-Idle :
      (d : DaveSession G) (made : G × (List ℕ ⊎ ℕ))
      → Idle d
      → IdlePackage (after_package ops d made)
  unfolding after_package
  after_package-Idle d (g, inl made) h = h
  after_package-Idle d (g, inr e) h = tt

  package_of-Idle : (d : DaveSession G) (g : Option G) → Idle d → IdlePackage (package_of ops d g)
  unfolding package_of
  package_of-Idle d none h = tt
  package_of-Idle d (some g) h = after_package-Idle d (ops.generate_key_package g) h

  unless-Idle :
      (e : Option SessionError) (d : DaveSession G) (next : DaveSession G × Bytes)
      → IdlePackage next
      → IdlePackage (unless_group_err ops e d next)
  unfolding unless_group_err
  unless-Idle (some e) d next h = tt
  unless-Idle none d next h = h

  after_reset-Idle :
      (wrap : ℕ → SessionError) (d : DaveSession G) (done : G × Option ℕ)
      → IdleReset (after_reset ops wrap d done)
  unfolding after_reset clear_state clear_media_state clear_pending_transition
  after_reset-Idle wrap d (g, some e) = tt
  after_reset-Idle wrap d (g, none) = (refl, refl)

  reset_group-Idle :
      (wrap : ℕ → SessionError) (d : DaveSession G) (version : ℤ) (before : G → G) (g : Option G)
      → IdleReset (reset_group ops wrap d version before g)
  unfolding reset_group
  reset_group-Idle wrap d version before none = tt
  reset_group-Idle wrap d version before (some g) =
      after_reset-Idle wrap d (ops.reset (before g) d.group_id version)

  then_package-Idle :
      (done : DaveSession G × Option SessionError)
      → IdleReset done
      → IdlePackage (then_package ops done)
  unfolding then_package generate_key_package
  then_package-Idle (d, some e) h = tt
  then_package-Idle (d, none) h =
      unless-Idle d.group_err d (package_of ops d d.group) (package_of-Idle d d.group h)

  pub re_welcome-Idle : (d : DaveSession G) → IdlePackage (reset_for_re_welcome ops d)
  unfolding reset_for_re_welcome
  re_welcome-Idle d = unless-Idle d.group_err d _ (
      if_keeps IdlePackage (length d.group_id == 0) (d, failed no_group_id) _ tt
        (then_package-Idle (reset_group ops reset_failed d d.protocol_version (λ g. g) d.group)
          (reset_group-Idle reset_failed d d.protocol_version (λ g. g) d.group)))

  activate-Activated :
      (r : DaveSession G × Option SessionError) (id : ℕ) → Activated id (activate r id)
  unfolding activate executed
  activate-Activated (d, some e) id = tt
  activate-Activated (d, none) id = (refl, refl)

  pub execute-Activated :
      (d : DaveSession G) (id : ℕ)
      → d.pending_version ≡ pos 1
      → Activated id (handle_execute_transition ops expand_with_label d id)
  unfolding handle_execute_transition
  execute-Activated d id version =
      let encrypts : ltb_ℤ (pos 0) d.pending_version ≡ true = ap (λ v. ltb_ℤ (pos 0) v) version in
      if_keeps (Activated id) (not d.pending_transition || not (id == d.pending_transition_id))
        (d, some unexpected_transition) _ tt
        (rw encrypts (
          if_keeps (Activated id) (not d.media.has_pending_key) (d, some no_pending_key) _ tt
            (activate-Activated (derive_sender_key ops expand_with_label d) id)))

  pub prepare-Prepared :
      (d : DaveSession G) (id : ℕ) → Prepared id (handle_prepare_transition d id (pos 1))
  unfolding handle_prepare_transition
  prepare-Prepared d id =
      if_keeps (Prepared id) (d.has_last_transition && (id == d.last_transition_id))
        (d, some already_executed) _ tt
        (if_keeps (Prepared id) (d.pending_transition && not (id == d.pending_transition_id))
          (d, some already_pending) _ tt
          (if_keeps (Prepared id) (not d.media.has_pending_key) (d, some no_pending_epoch) _ tt
            (refl, refl, refl)))
