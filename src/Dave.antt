-- ===== src/Dave.antt =====
-- The media state of a DAVE session, dave.go: `EncryptFrame`, `DecryptFrame`, `acceptNonce`,
-- `clearMediaStateLocked` and `SetSSRC`. The 64-bit replay window is used as a set of bits, and is a
-- function from the number of a bit here. The cipher of a key and `mls.ExpandWithLabel` are parameters,
-- and what `createReceiverLocked` returns is an argument.
pub mod Replay
pub mod Arrival
pub mod Forged
pub mod ParseUint
pub mod UserId
pub mod Group
pub mod Epoch
mod Examples
use dgo.Prelude.{
  ℕ, suc, ◌+◌, ◌-◌, ◌^◌, ◌/◌, String, Bool, true, false, List, [], ◌∷◌, Option, none, some, ltb,
  leb, ◌==◌, ◌&&◌, ◌||◌, not, if◌then◌else◌, ◌⊎◌, inl, inr,
}
use dgo.Frame.{
  Cipher, FrameError, not_dave, too_short, invalid_supplemental_size, trailing_nonce_bytes,
  tag_mismatch, invalid_nonce, Result, ok, err, Parsed, parse_secure_frame, encrypt_secure_frame,
  decrypt_secure_frame, hash_ratchet_get_key,
}

pub record Receiver : Type 0 where
  pub base_secret : List ℕ
  pub key : List ℕ
  pub current_generation : ℕ
  pub highest_nonce : ℕ
  pub replay_window : ℕ → Bool
  pub has_nonce : Bool

-- The fields of a session that frames use. The cipher is made from the sender's key, so both are there
-- or neither is.
pub record Session : Type 0 where
  pub active : Bool
  pub sender_key : Option (List ℕ)
  pub sender_nonce : ℕ
  pub ratchet_base_secret : List ℕ
  pub current_generation : ℕ
  pub has_pending_key : Bool
  pub receivers : ℕ → Option Receiver
  pub ssrc_to_user_id : ℕ → Option String

pub data DaveError : Type 0 where
  not_active no_cipher nonce_exhausted ratchet_failed unencrypted unknown_ssrc replayed_nonce
        bad_generation :
      DaveError
  bad_frame : FrameError → DaveError
  no_receiver : ℕ → DaveError

pub data Reply : Type 0 where
  plain : List ℕ → Reply
  refused : DaveError → Reply

unfoldable pub clear_media_state : Session → Session
clear_media_state s = record s {
  sender_key = none;
  sender_nonce = 0;
  active = false;
  ratchet_base_secret = [];
  current_generation = 0;
  has_pending_key = false;
  receivers = λ ssrc. none;
}

unfoldable pub set_ssrc : Session → ℕ → String → Session
set_ssrc s ssrc user_id = record s {
  ssrc_to_user_id = λ j. if j == ssrc then some user_id else s.ssrc_to_user_id j;
}

abbrev pub set_receiver : Session → ℕ → Receiver → Session
set_receiver s ssrc r = record s { receivers = λ j. if j == ssrc then some r else s.receivers j }

-- `replayWindow<<delta | 1`, in 64 bits.
abbrev pub shift_in : ℕ → (ℕ → Bool) → ℕ → Bool
shift_in delta window k =
    if k == 0 then true else if ltb k delta || leb 64 k then false else window (k - delta)

abbrev pub one_bit : ℕ → Bool
one_bit k = k == 0

abbrev pub set_bit : ℕ → (ℕ → Bool) → ℕ → Bool
set_bit n window k = window k || (k == n)

unfoldable pub accept_nonce : Receiver → ℕ → Receiver
accept_nonce r nonce =
    let delta = nonce - r.highest_nonce in
    if r.has_nonce
    then (if ltb r.highest_nonce nonce
        then record r {
          replay_window = if leb 64 delta then one_bit else shift_in delta r.replay_window;
          highest_nonce = nonce;
        }
        else record r { replay_window = set_bit (r.highest_nonce - nonce) r.replay_window })
    else record r { highest_nonce = nonce; replay_window = one_bit; has_nonce = true }

-- The test against replays.
unfoldable pub is_replayed : Receiver → ℕ → Bool
is_replayed r nonce =
    let delta = r.highest_nonce - nonce in
    r.has_nonce && leb nonce r.highest_nonce && (leb 64 delta || r.replay_window delta)

module _ (cipher_of : List ℕ → Cipher)
    (expand_with_label : List ℕ → String → List ℕ → ℕ → Option (List ℕ)) where
  -- The receiver with the key of the generation, or the error.
  enter_generation : Receiver → ℕ → Receiver × Option DaveError
  enter_generation r generation =
      if generation == r.current_generation
      then (r, none)
      else if ltb generation r.current_generation || ltb (r.current_generation + 1) generation
      then (r, some bad_generation)
      else elim (hash_ratchet_get_key expand_with_label r.base_secret generation) [
        | none ↦ (r, some ratchet_failed)
        | some key ↦ (record r { key = key; current_generation = generation }, none)
      ]

  finish_frame : Receiver → ℕ → Result (List ℕ) → Receiver × Reply
  unfolding accept_nonce
  finish_frame r nonce (err e) = (r, refused (bad_frame e))
  finish_frame r nonce (ok plaintext) = (accept_nonce r nonce, plain plaintext)

  after_generation : Parsed → Receiver × Option DaveError → Receiver × Reply
  unfolding finish_frame
  after_generation p (r, some e) = (r, refused e)
  after_generation p (r, none) =
      finish_frame r p.nonce (decrypt_secure_frame (cipher_of r.key) p.nonce p.ciphertext p.tag)

  -- `DecryptFrame` once the frame is parsed and its receiver found.
  unfoldable pub receive : Receiver → Parsed → Receiver × Reply
  unfolding is_replayed enter_generation after_generation
  receive r p =
      if is_replayed r p.nonce
      then (r, refused replayed_nonce)
      else after_generation p (enter_generation r (p.nonce / 2 ^ 24))

  send_with : Session → List ℕ → List ℕ → Session × Reply
  send_with s key opus_data =
      (s, plain (encrypt_secure_frame (cipher_of key) s.sender_nonce opus_data))

  -- `EncryptFrame` with a key and a nonce that is not used up.
  advance : Session → List ℕ → List ℕ → Session × Reply
  unfolding send_with
  advance s0 key opus_data =
      let s = record s0 { sender_nonce = s0.sender_nonce + 1 } in
      let generation = s.sender_nonce / 2 ^ 24 in
      if generation == s.current_generation
      then send_with s key opus_data
      else elim (hash_ratchet_get_key expand_with_label s.ratchet_base_secret generation) [
        | none ↦ (record s { current_generation = generation }, refused ratchet_failed)
        | some next ↦
            send_with (record s { current_generation = generation; sender_key = some next }) next
              opus_data
      ]

  unfoldable pub encrypt_frame : Session → List ℕ → Session × Reply
  unfolding advance clear_media_state
  encrypt_frame s opus_data = if not s.active then (s, refused not_active) else elim s.sender_key [
    | none ↦ (s, refused no_cipher)
    | some key ↦
        if s.sender_nonce == 2 ^ 32 - 1
        then (clear_media_state s, refused nonce_exhausted)
        else advance s key opus_data
  ]

  to_receiver : Session → ℕ → Parsed → Receiver → Session × Reply
  unfolding receive
  to_receiver s ssrc p r = let (r', reply) = receive r p in (set_receiver s ssrc r', reply)

  -- The receiver of the SSRC, or the one that is made for it.
  find_receiver : Session → ℕ → Receiver ⊎ ℕ → Parsed → Session × Reply
  unfolding to_receiver
  find_receiver s ssrc made p = elim (s.receivers ssrc) [
    | some r ↦ to_receiver s ssrc p r
    | none ↦ elim (s.ssrc_to_user_id ssrc) [
      | none ↦ (s, refused unknown_ssrc)
      | some user_id ↦ elim made [
        | inr e ↦ (s, refused (no_receiver e))
        | inl r ↦ to_receiver (set_receiver s ssrc r) ssrc p r
      ]
    ]
  ]

  frame_error : FrameError → DaveError
  frame_error not_dave = unencrypted
  frame_error too_short = bad_frame too_short
  frame_error invalid_supplemental_size = bad_frame invalid_supplemental_size
  frame_error trailing_nonce_bytes = bad_frame trailing_nonce_bytes
  frame_error tag_mismatch = bad_frame tag_mismatch
  frame_error (invalid_nonce e) = bad_frame (invalid_nonce e)

  use_frame : Session → ℕ → Receiver ⊎ ℕ → Result Parsed → Session × Reply
  unfolding find_receiver frame_error
  use_frame s ssrc made (err e) = (s, refused (frame_error e))
  use_frame s ssrc made (ok p) = find_receiver s ssrc made p

  -- `made` is what `createReceiverLocked` returns if it is called.
  unfoldable pub decrypt_frame : Session → ℕ → Receiver ⊎ ℕ → List ℕ → Session × Reply
  unfolding use_frame
  decrypt_frame s ssrc made bytes =
      if not s.active then (s, plain bytes) else use_frame s ssrc made (parse_secure_frame bytes)
