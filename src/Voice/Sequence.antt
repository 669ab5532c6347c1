-- ===== src/Voice/Sequence.antt =====
-- Late and repeated DAVE messages are ignored.
use dgo.Prelude.{
  ℕ, ◌+◌, ◌-◌, ◌%◌, ◌^◌, ◌≤◌, ◌<◌, ◌≡◌, refl, String, true, false, List, [], Option, length, ltb,
  Bool-cases, inl, inr, arith,
}
use dgo.Dave.Group.{GroupOps}
use dgo.Voice.{VoiceConnection, be_uint16, with_dave, is_late, handle_dave_binary}

module _ {G : Type 0} (ops : GroupOps G)
    (expand_with_label : List ℕ → String → List ℕ → ℕ → Option (List ℕ)) where
  -- A message that is short or late, and one that is not.
  ignored :
      (v : VoiceConnection G) (message : List ℕ)
      → is_late ops expand_with_label v (be_uint16 message) ≡ true
      → handle_dave_binary ops expand_with_label v message ≡ (v, [])
  unfolding handle_dave_binary
  ignored v message late = elim (Bool-cases (ltb (length message) 3)) [
    | inl short ↦ rw (short, handle_dave_binary) refl
    | inr long ↦ rw (long, late, handle_dave_binary) refl
  ]

  marked :
      (v : VoiceConnection G) (message : List ℕ)
      → 3 ≤ length message
      → is_late ops expand_with_label v (be_uint16 message) ≡ false
      → ((handle_dave_binary ops expand_with_label v message).0.has_dave_sequence ≡ true)
        × ((handle_dave_binary ops expand_with_label v message).0.last_dave_sequence
            ≡ be_uint16 message)
  unfolding handle_dave_binary with_dave
  marked v message long fresh =
      let enough : ltb (length message) 3 ≡ false = ground arith in
      rw (enough, fresh, handle_dave_binary) (refl, refl)

  behind :
      (v : VoiceConnection G) (sequence late k : ℕ)
      → v.has_dave_sequence ≡ true
      → v.last_dave_sequence ≡ sequence
      → sequence < 2 ^ 16
      → k < 2 ^ 15
      → late ≡ (sequence + 2 ^ 16 - k) % 2 ^ 16
      → is_late ops expand_with_label v late ≡ true
  unfolding is_late
  behind v sequence late k has last small near eq = ground arith

  -- After a message that is accepted, which has a sequence number of two bytes, any message whose sequence
  -- number is the same or less than 2^15 behind it, modulo 2^16, is ignored: nothing of the connection
  -- changes and nothing is sent.
  pub late_ignored :
      (v : VoiceConnection G) (message late : List ℕ) (k : ℕ)
      → 3 ≤ length message
      → be_uint16 message < 2 ^ 16
      → is_late ops expand_with_label v (be_uint16 message) ≡ false
      → k < 2 ^ 15
      → be_uint16 late ≡ (be_uint16 message + 2 ^ 16 - k) % 2 ^ 16
      → let w : VoiceConnection G = (handle_dave_binary ops expand_with_label v message).0 in
        handle_dave_binary ops expand_with_label w late ≡ (w, [])
  late_ignored v message late k long small fresh near eq =
      let w : VoiceConnection G = (handle_dave_binary ops expand_with_label v message).0 in
      let (has, last) = marked v message long fresh in
      ignored w late (behind w (be_uint16 message) (be_uint16 late) k has last small near eq)
