-- ===== src/Dave/Epoch/First.antt =====
-- The first frame after a transition, from one session to another of the same group.
use dgo.Prelude.{
  ℕ, ◌≡◌, refl, ap, ◌∙◌, inl, String, true, false, not, List, Option, none, some, ◌==◌, ◌||◌, arith,
}
use dgo.Prelude.Int.{pos, ltb_ℤ}
use dgo.Frame.{Cipher, Parsed, ok, parse_secure_frame, hash_ratchet_get_key}
use dgo.Dave.{
  Session, Receiver, plain, encrypt_frame, decrypt_frame, use_frame, find_receiver, to_receiver,
  receive, is_replayed,
}
use dgo.Dave.Arrival.{Keyed, Knows, frame_arrives}
use dgo.Dave.ParseUint.{parse_uint}
use dgo.Dave.Group.{GroupOps}
use dgo.Dave.Epoch.{SessionError, DaveSession, with_media}
use dgo.Dave.Epoch.Calls.{
  with_secret, derive_sender_key, export_for, executed, activate, handle_execute_transition,
}
use dgo.Dave.Epoch.Media.{receiver_from, create_receiver, made_for, encrypt, decrypt}

module _ (cipher_of : List ℕ → Cipher)
    (expand_with_label : List ℕ → String → List ℕ → ℕ → Option (List ℕ)) where
  decrypt_first :
      (s : Session) (ssrc : ℕ) (user_id : String) (r : Receiver) (frame : List ℕ) (p : Parsed)
      → s.active ≡ true
      → s.receivers ssrc ≡ none
      → s.ssrc_to_user_id ssrc ≡ some user_id
      → parse_secure_frame frame ≡ ok p
      → (decrypt_frame cipher_of expand_with_label s ssrc (inl r) frame).1
        ≡ (receive cipher_of expand_with_label r p).1
  unfolding decrypt_frame use_frame find_receiver to_receiver
  decrypt_first s ssrc user_id r frame p active new user parsed =
      rw (active, parsed, new, user, use_frame, find_receiver) refl

-- A transition to a version with encryption is pending in session `a`. Both sessions are in a group, from which they
-- export the same secret for the user of `a`, and the secret has a first key.
pub record Agreed (G : Type 0) (ops : GroupOps G)
    (expand_with_label : List ℕ → String → List ℕ → ℕ → Option (List ℕ)) (a b : DaveSession G)
    : Type 0 where
  pub pending : a.pending_transition ≡ true
  pub encrypts : ltb_ℤ (pos 0) a.pending_version ≡ true
  pub has_pending_key : a.media.has_pending_key ≡ true
  pub secret : List ℕ
  pub key : List ℕ
  pub own : export_for ops a.group (parse_uint a.user_id) ≡ inl secret
  pub others : export_for ops b.group (parse_uint a.user_id) ≡ inl secret
  pub first_key : hash_ratchet_get_key expand_with_label secret 0 ≡ some key

module _ {G : Type 0} (ops : GroupOps G) (cipher_of : List ℕ → Cipher)
    (expand_with_label : List ℕ → String → List ℕ → ℕ → Option (List ℕ)) (a b : DaveSession G)
    (agreed : Agreed G ops expand_with_label a b) where
  abbrev new_media : Session
  new_media = record a.media {
    active = true;
    sender_key = some agreed.key;
    sender_nonce = 0;
    ratchet_base_secret = agreed.secret;
    current_generation = 0;
    has_pending_key = false;
  }

  derives : derive_sender_key ops expand_with_label a ≡ (
    with_media a
        (record new_media { active = a.media.active; has_pending_key = a.media.has_pending_key }),
    none,
  )
  unfolding derive_sender_key with_secret
  derives =
      let own = agreed.own in let first = agreed.first_key in rw (own, first, with_secret) refl

  execute_activates :
      handle_execute_transition ops expand_with_label a a.pending_transition_id
      ≡ (executed (with_media a new_media) a.pending_transition_id, none)
  unfolding handle_execute_transition activate
  execute_activates =
      let pending = agreed.pending in
      let expected : (not a.pending_transition
            || not (a.pending_transition_id == a.pending_transition_id))
          ≡ false =
        ground arith in
      let encrypts = agreed.encrypts in
      let has : not a.media.has_pending_key ≡ false = ap not agreed.has_pending_key in
      let result = derives in
      rw (expected, encrypts, has) (ap (λ r. activate r a.pending_transition_id) derives)

  abbrev new_receiver : Receiver
  new_receiver = record {
    base_secret = agreed.secret;
    key = agreed.key;
    current_generation = 0;
    highest_nonce = 0;
    replay_window = λ bit. false;
    has_nonce = false;
  }

  made : create_receiver expand_with_label ops b a.user_id ≡ inl new_receiver
  unfolding create_receiver receiver_from
  made =
      let others = agreed.others in
      let first = agreed.first_key in rw (others, first, receiver_from) refl

  keyed : Keyed cipher_of expand_with_label new_media
  keyed = record {
    active = refl;
    key = agreed.key;
    has_key = refl;
    own_key = agreed.first_key;
    own_generation = refl;
  }

  knows : Knows cipher_of expand_with_label agreed.secret new_receiver
  knows = record { same_secret = refl; own_key = agreed.first_key }

  fresh : is_replayed new_receiver 1 ≡ false
  unfolding is_replayed
  fresh = refl

  -- Two sessions `a` and `b` that agree: in `a` a transition to a version with encryption is pending and a key
  -- is pending too, both sessions export the same secret from their groups for the user of `a`, and the first
  -- key can be derived from it. If `b` is active and without a receiver for the SSRC that it knows to be that
  -- user's, then executing the pending transition in `a` returns no error, the first frame that `a` then
  -- sends is encrypted, and `b` gets its data back.
  pub first_frame_arrives :
      (ssrc : ℕ) (opus : List ℕ)
      → b.media.active ≡ true
      → b.media.receivers ssrc ≡ none
      → b.media.ssrc_to_user_id ssrc ≡ some a.user_id
      → let done : DaveSession G × Option SessionError =
          handle_execute_transition ops expand_with_label a a.pending_transition_id in
        (done.1 ≡ none)
        × (frame : List ℕ) × ((encrypt ops cipher_of expand_with_label done.0 opus).1 ≡ plain frame)
        × ((decrypt ops cipher_of expand_with_label b ssrc frame).1 ≡ plain opus)
  unfolding encrypt decrypt made_for executed
  first_frame_arrives ssrc opus active new user =
      let (frame, p, sent, parsed, got) =
        frame_arrives cipher_of expand_with_label new_media new_receiver agreed.key opus keyed knows
          (omega arith) agreed.first_key (omega arith) (omega arith) fresh in
      (
        ap (λ (r : DaveSession G × Option SessionError). r.1) execute_activates,
        frame,
        ap
              (λ (r : DaveSession G × Option SessionError).
                (encrypt_frame cipher_of expand_with_label r.0.media opus).1)
              execute_activates
            ∙ sent,
        ap
              (λ (u : Option String).
                (decrypt_frame cipher_of expand_with_label b.media ssrc
                  (made_for expand_with_label ops b u) frame).1)
              user
            ∙ ap (λ m. (decrypt_frame cipher_of expand_with_label b.media ssrc m frame).1) made
            ∙ decrypt_first cipher_of expand_with_label b.media ssrc a.user_id new_receiver frame p
                active new user parsed
            ∙ got,
      )
