-- ===== src/Voice/Examples.antt =====
-- A connection whose session has a toy group, which is in epoch 1 after each welcome and fails on a commit.
use dgo.Prelude.{
  ℕ, ◌≡◌, refl, inl, String, true, false, List, [], ◌∷◌, ◌++◌, Option, none, some, arith,
}
use dgo.Prelude.Int.{pos}
use dgo.Dave.Group.{GroupOps}
use dgo.Dave.Epoch.{DaveSession}
use dgo.Dave.Epoch.Calls.{handle_commit, handle_welcome}
use dgo.Voice.{VoiceConnection, Sent, be_uint16, is_late, on_payload, handle_dave_binary}
use dgo.Voice.Sequence.{late_ignored}
use dgo.Voice.Answers.{Answered, group_message_answered}

abbrev ops : GroupOps ℕ
ops = record {
  new_group = λ identity. inl 0;
  set_recognized_users = λ g users. g;
  reset = λ g id version. (0, none);
  generate_key_package = λ g. (g, inl (1 ∷ []));
  set_external_sender = λ g message. (g, none);
  process_proposals = λ g message. (g, inl (2 ∷ []));
  process_welcome = λ g message. (1, none);
  process_commit = λ g message. (g, some 5);
  epoch = λ g. inl g;
  export_secret = λ g label context n. inl context;
}

abbrev expand : List ℕ → String → List ℕ → ℕ → Option (List ℕ)
expand secret label context n = some (secret ++ context)

abbrev session : DaveSession ℕ
session = record {
  media = record {
    active = true;
    sender_key = some (7 ∷ []);
    sender_nonce = 3;
    ratchet_base_secret = 7 ∷ [];
    current_generation = 0;
    has_pending_key = false;
    receivers = λ ssrc. none;
    ssrc_to_user_id = λ ssrc. none;
  };
  epoch = 1;
  pending_transition_id = 0;
  pending_version = pos 0;
  pending_transition = false;
  last_transition_id = 0;
  has_last_transition = true;
  user_id = "7";
  group_id = 0 ∷ 0 ∷ 0 ∷ 0 ∷ 0 ∷ 0 ∷ 0 ∷ 9 ∷ [];
  protocol_version = pos 1;
  group = some 1;
  group_err = none;
}

-- The commit of transition 258 fails, and the session asks for another welcome.
abbrev commit : List ℕ
commit = 1 ∷ 2 ∷ 77 ∷ []

failed_commit :
    (on_payload ops expand session 29 commit).1 ≡ Sent.json 31 258 ∷ Sent.binary (26 ∷ 1 ∷ []) ∷ []
unfolding on_payload handle_commit dgo.Voice.recover_group dgo.Dave.Epoch.reset_for_re_welcome
    dgo.Dave.Epoch.generate_key_package dgo.Dave.Epoch.clear_state
failed_commit = refl

group_message_answered_example :
    Answered ops expand 258
      (handle_commit ops session (77 ∷ []))
      (on_payload ops expand session 29 commit)
    × Answered ops expand 258
        (handle_welcome ops session (77 ∷ []))
        (on_payload ops expand session 30 commit)
group_message_answered_example = group_message_answered ops expand session commit (omega arith)

abbrev connection : VoiceConnection ℕ
connection = record {
  dave = some session;
  last_dave_sequence = 65535;
  has_dave_sequence = true;
  seq_ack = pos 65535;
}

-- The sequence number wraps around to 0; then 65535 is late.
late_ignored_example :
    let w : VoiceConnection ℕ =
      (handle_dave_binary ops expand connection (0 ∷ 0 ∷ 29 ∷ commit)).0 in
    handle_dave_binary ops expand w (255 ∷ 255 ∷ 29 ∷ commit) ≡ (w, [])
unfolding is_late
late_ignored_example =
    late_ignored ops expand connection (0 ∷ 0 ∷ 29 ∷ commit) (255 ∷ 255 ∷ 29 ∷ commit) 1
      (omega arith) (omega arith) refl (omega arith) refl
