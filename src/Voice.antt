-- ===== src/Voice.antt =====
-- The handlers of a voice connection for DAVE messages, voice.go. A handler returns the connection and what
-- it sends, in order. The log and the errors of the socket are left out, and JSON is decoded already.
pub mod Sequence
pub mod Outcomes
pub mod Answers
mod Examples
use dgo.Prelude.{
  ℕ, ◌+◌, ◌-◌, ◌*◌, ◌%◌, ◌^◌, String, Bool, true, false, List, [], ◌∷◌, Option, none, some, length,
  drop, get_or, ltb, leb, ◌==◌, ◌&&◌, ◌||◌, not, if◌then◌else◌,
}
use dgo.Prelude.Int.{ℤ, pos}
use dgo.Dave.Group.{GroupOps}
use dgo.Dave.Epoch.{
  SessionError, DaveSession, Bytes, bytes, failed, handle_prepare_transition, handle_prepare_epoch,
  reset_for_re_welcome,
}
use dgo.Dave.Epoch.Calls.{
  handle_external_sender_package, handle_proposals, handle_welcome, handle_commit,
  handle_execute_transition,
}

-- A binary message, or a JSON message with its opcode and the id of a transition.
pub data Sent : Type 0 where
  binary : List ℕ → Sent
  json : ℕ → ℕ → Sent

pub record VoiceConnection (G : Type 0) : Type 0 where
  pub dave : Option (DaveSession G)
  pub last_dave_sequence : ℕ
  pub has_dave_sequence : Bool
  pub seq_ack : ℤ

abbrev pub send_key_package : List ℕ → Sent
send_key_package package_bytes = binary (26 ∷ package_bytes)

abbrev pub send_commit_welcome : List ℕ → Sent
send_commit_welcome message = binary (28 ∷ message)

abbrev pub send_ready_for_transition : ℕ → Sent
send_ready_for_transition id = json 23 id

abbrev pub send_invalid_commit_welcome : ℕ → Sent
send_invalid_commit_welcome id = json 31 id

-- `BigEndian.Uint16` of the first two bytes.
abbrev pub be_uint16 : List ℕ → ℕ
be_uint16 message = get_or message 0 0 * 256 + get_or message 1 0

module _ {G : Type 0} (ops : GroupOps G)
    (expand_with_label : List ℕ → String → List ℕ → ℕ → Option (List ℕ)) where
  abbrev pub Handled : Type 0
  Handled = DaveSession G × List Sent

  unfoldable pub after_recovery : ℕ → DaveSession G × Bytes → Handled
  after_recovery id (d, failed e) = (d, send_invalid_commit_welcome id ∷ [])
  after_recovery id (d, bytes package_bytes) =
      (d, send_invalid_commit_welcome id ∷ send_key_package package_bytes ∷ [])

  unfoldable pub recover_group : ℕ → DaveSession G → Handled
  unfolding after_recovery
  recover_group id d = after_recovery id (reset_for_re_welcome ops d)

  unfoldable pub after_execute : ℕ → DaveSession G × Option SessionError → Handled
  unfolding recover_group
  after_execute id (d, some e) = recover_group id d
  after_execute id (d, none) = (d, [])

  unfoldable pub after_prepare : ℕ → DaveSession G × Option SessionError → Handled
  unfolding recover_group after_execute
  after_prepare id (d, some e) = recover_group id d
  after_prepare id (d, none) =
      if id == 0
      then after_execute id (handle_execute_transition ops expand_with_label d id)
      else (d, send_ready_for_transition id ∷ [])

  -- What follows a commit or a welcome.
  unfoldable pub after_group : ℕ → DaveSession G × Option SessionError → Handled
  unfolding recover_group after_prepare
  after_group id (d, some e) = recover_group id d
  after_group id (d, none) = after_prepare id (handle_prepare_transition d id (pos 1))

  unfoldable pub after_proposals : DaveSession G × Bytes → Handled
  after_proposals (d, failed e) = (d, [])
  after_proposals (d, bytes reply) =
      (d, if ltb 0 (length reply) then send_commit_welcome reply ∷ [] else [])

  unfoldable pub on_payload : DaveSession G → ℕ → List ℕ → Handled
  unfolding after_proposals after_group
  on_payload d opcode payload =
      if opcode == 25
      then ((handle_external_sender_package ops d payload).0, [])
      else if opcode == 27
      then after_proposals (handle_proposals ops d payload)
      else if (opcode == 29) && ltb 2 (length payload)
      then after_group (be_uint16 payload) (handle_commit ops d (drop 2 payload))
      else if (opcode == 30) && ltb 2 (length payload)
      then after_group (be_uint16 payload) (handle_welcome ops d (drop 2 payload))
      else (d, [])

  -- Nothing happens without a session.
  unfoldable pub on_session :
      Option (DaveSession G) → (DaveSession G → Handled) → Option (DaveSession G) × List Sent
  on_session none handler = (none, [])
  on_session (some d) handler = let (e, sent) = handler d in (some e, sent)

  unfoldable pub with_dave :
      VoiceConnection G → (DaveSession G → Handled) → VoiceConnection G × List Sent
  unfolding on_session
  with_dave v handler = let done = on_session v.dave handler in (record v { dave = done.0 }, done.1)

  -- The test of the sequence number, in 16 bits.
  unfoldable pub is_late : VoiceConnection G → ℕ → Bool
  is_late v sequence =
      let delta = (sequence + 2 ^ 16 - v.last_dave_sequence) % 2 ^ 16 in
      v.has_dave_sequence && ((delta == 0) || ltb (2 ^ 15) delta)

  unfoldable pub handle_dave_binary : VoiceConnection G → List ℕ → VoiceConnection G × List Sent
  unfolding is_late with_dave on_payload
  handle_dave_binary v message =
      let sequence = be_uint16 message in
      if ltb (length message) 3
      then (v, [])
      else if is_late v sequence
      then (v, [])
      else with_dave
          (record v {
            last_dave_sequence = sequence;
            has_dave_sequence = true;
            seq_ack = pos sequence;
          })
          (λ d. on_payload d (get_or message 2 0) (drop 3 message))

  unfoldable pub after_prepare_transition : ℕ → DaveSession G × Option SessionError → Handled
  after_prepare_transition id (d, some e) = (d, [])
  after_prepare_transition id (d, none) =
      if id == 0
      then ((handle_execute_transition ops expand_with_label d 0).0, [])
      else (d, send_ready_for_transition id ∷ [])

  unfoldable pub on_prepare_transition : VoiceConnection G → ℕ → ℤ → VoiceConnection G × List Sent
  unfolding with_dave after_prepare_transition
  on_prepare_transition v id version =
      with_dave v (λ d. after_prepare_transition id (handle_prepare_transition d id version))

  unfoldable pub on_execute_transition : VoiceConnection G → ℕ → VoiceConnection G × List Sent
  unfolding with_dave
  on_execute_transition v id =
      with_dave v (λ d. ((handle_execute_transition ops expand_with_label d id).0, []))

  unfoldable pub after_prepare_epoch : DaveSession G × Bytes → Handled
  after_prepare_epoch (d, failed e) = (d, [])
  after_prepare_epoch (d, bytes package_bytes) =
      (d, if ltb 0 (length package_bytes) then send_key_package package_bytes ∷ [] else [])

  unfoldable pub on_prepare_epoch : VoiceConnection G → ℕ → ℤ → VoiceConnection G × List Sent
  unfolding with_dave after_prepare_epoch
  on_prepare_epoch v epoch version =
      with_dave v (λ d. after_prepare_epoch (handle_prepare_epoch ops d epoch version))

  unfoldable pub after_rekey : DaveSession G × Bytes → Handled
  after_rekey (d, failed e) = (d, [])
  after_rekey (d, bytes package_bytes) = (d, send_key_package package_bytes ∷ [])

  -- The flag is that the connection has a socket.
  unfoldable pub rekey_dave : VoiceConnection G → Bool → VoiceConnection G × List Sent
  unfolding with_dave after_rekey
  rekey_dave v false = (v, [])
  rekey_dave v true = with_dave v (λ d. after_rekey (reset_for_re_welcome ops d))
