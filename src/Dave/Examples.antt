-- ===== src/Dave/Examples.antt =====
-- A sender and a receiver with a toy cipher, which appends sixteen zeros, and a toy key derivation.
use dgo.Prelude.{
  ℕ, ◌+◌, ◌≡◌, refl, String, true, false, List, [], ◌∷◌, ◌++◌, Option, none, some, arith, length,
  replicate, take-append_left, length-append,
}
use dgo.Frame.{tag_mismatch, Cipher, Parsed, ok, parse_secure_frame}
use dgo.Dave.{Receiver, Session, Reply, plain, refused, bad_generation, receive, encrypt_frame}
use dgo.Dave.Replay.{Distinct, accepted, accepted-Distinct}
use dgo.Dave.Forged.{forged_locks_out}
use dgo.Dave.Arrival.{Knows, Keyed, frame_arrives}

pub toy-length : (n p : List ℕ) → length (p ++ replicate 16 0) ≡ length p + 16
toy-length n p = omega (arith, length-append p (replicate 16 0))

abbrev pub toy : List ℕ → Cipher
toy key = record {
  seal = λ n p. p ++ replicate 16 0;
  xor_key_stream = λ iv b. b;
  seal_length = toy-length;
  key_stream_length = λ iv b. refl;
  key_stream-key_stream = λ iv b. refl;
  key_stream-seal = λ n p. take-append_left p (replicate 16 0) (length p) refl;
}

abbrev pub expand : List ℕ → String → List ℕ → ℕ → Option (List ℕ)
expand secret label context n = some (secret ++ context)

abbrev sender : Session
sender = record {
  active = true;
  sender_key = some (5 ∷ 0 ∷ 0 ∷ 0 ∷ 0 ∷ []);
  sender_nonce = 0;
  ratchet_base_secret = 5 ∷ [];
  current_generation = 0;
  has_pending_key = false;
  receivers = λ ssrc. none;
  ssrc_to_user_id = λ ssrc. none;
}

abbrev fresh : Receiver
fresh = record {
  base_secret = 5 ∷ [];
  key = 5 ∷ 0 ∷ 0 ∷ 0 ∷ 0 ∷ [];
  current_generation = 0;
  highest_nonce = 0;
  replay_window = λ k. false;
  has_nonce = false;
}

keyed : Keyed toy expand sender
unfolding dgo.Frame.hash_ratchet_get_key dgo.Frame.be_uint32
keyed = record {
  active = refl;
  key = 5 ∷ 0 ∷ 0 ∷ 0 ∷ 0 ∷ [];
  has_key = refl;
  own_key = refl;
  own_generation = refl;
}

knows : Knows toy expand (5 ∷ []) fresh
unfolding dgo.Frame.hash_ratchet_get_key dgo.Frame.be_uint32
knows = record { same_secret = refl; own_key = refl }

frame_arrives_example :
    (frame : List ℕ) × (p : Parsed) × ((encrypt_frame toy expand sender (7 ∷ 9 ∷ [])).1
      ≡ plain frame)
    × (parse_secure_frame frame ≡ ok p)
    × ((receive toy expand fresh p).1 ≡ plain (7 ∷ 9 ∷ []))
unfolding dgo.Frame.hash_ratchet_get_key dgo.Frame.be_uint32 dgo.Dave.is_replayed
frame_arrives_example =
    frame_arrives toy expand sender fresh (5 ∷ 0 ∷ 0 ∷ 0 ∷ 0 ∷ []) (7 ∷ 9 ∷ []) keyed knows
      (omega arith) refl (omega arith) (omega arith) refl

abbrev frame_of : ℕ → Parsed
frame_of n = record { ciphertext = 7 ∷ []; tag = replicate 8 0; nonce = n }

replayed_once :
    accepted toy expand fresh (frame_of 3 ∷ frame_of 1 ∷ frame_of 3 ∷ frame_of 1 ∷ frame_of 2 ∷ [])
    ≡ 3 ∷ 1 ∷ 2 ∷ []
unfolding receive dgo.Frame.decrypt_secure_frame
replayed_once = refl

accepted-Distinct_example : Distinct (
    accepted toy expand fresh (frame_of 3 ∷ frame_of 1 ∷ frame_of 3 ∷ frame_of 1 ∷ frame_of 2 ∷ []))
accepted-Distinct_example =
    accepted-Distinct toy expand fresh
      (frame_of 3 ∷ frame_of 1 ∷ frame_of 3 ∷ frame_of 1 ∷ frame_of 2 ∷ [])

-- The toy cipher's tags are zeros, so that a tag of ones is forged.
abbrev forged : Parsed
forged = record { ciphertext = 7 ∷ []; tag = replicate 8 1; nonce = 16777216 }

forged_locks_out_example :
    (receive toy expand (receive toy expand fresh forged).0 (frame_of 3)).1 ≡ refused bad_generation
unfolding dgo.Frame.hash_ratchet_get_key dgo.Frame.be_uint32 dgo.Dave.is_replayed
    dgo.Frame.decrypt_secure_frame
forged_locks_out_example =
    forged_locks_out toy expand fresh forged (5 ∷ 0 ∷ 0 ∷ 0 ∷ 0 ∷ 0 ∷ 0 ∷ 0 ∷ 1 ∷ []) tag_mismatch
      (frame_of 3) refl refl refl refl refl refl
