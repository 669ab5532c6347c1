-- ===== src/Dave/Epoch/Examples.antt =====
-- Two sessions of a toy group, whose state is its epoch and which exports what it is given.
use dgo.Prelude.{ℕ, ◌+◌, ◌≡◌, refl, inl, true, false, List, [], ◌∷◌, ◌++◌, Option, none, some, ◌||◌}
use dgo.Prelude.Int.{pos}
use dgo.Dave.{Session, Reply, plain}
use dgo.Dave.Examples.{toy, expand}
use dgo.Dave.Group.{GroupOps}
use dgo.Dave.Epoch.{
  SessionError, DaveSession, is_some, is_active, can_encrypt, already_executed,
  unexpected_transition, new_dave_session, handle_prepare_transition,
}
use dgo.Dave.Epoch.Calls.{handle_execute_transition}
use dgo.Dave.Epoch.Media.{
  Call, configure_call, welcome_call, prepare_call, execute_call, re_welcome_call, encrypt_call,
  ssrc_call, encrypt, decrypt, run,
}
use dgo.Dave.Epoch.Once.{executed_once}
use dgo.Dave.Epoch.Closed.{fails_closed}
use dgo.Dave.Epoch.First.{Agreed, first_frame_arrives}

abbrev ops : GroupOps ℕ
ops = record {
  new_group = λ identity. inl 0;
  set_recognized_users = λ g users. g;
  reset = λ g id version. (0, none);
  generate_key_package = λ g. (g, inl (1 ∷ []));
  set_external_sender = λ g message. (g, none);
  process_proposals = λ g message. (g, inl (2 ∷ []));
  process_welcome = λ g message. (g + 1, none);
  process_commit = λ g message. (g + 1, none);
  epoch = λ g. inl g;
  export_secret = λ g label context n. inl context;
}

-- A session of user 7 that has been welcomed, with the initial transition pending.
abbrev joined : List Call
joined = configure_call "9" (pos 1) [] ∷ welcome_call [] ∷ prepare_call 0 (pos 1) ∷ []

abbrev ready : DaveSession ℕ
ready = record {
  media = record {
    active = false;
    sender_key = none;
    sender_nonce = 0;
    ratchet_base_secret = [];
    current_generation = 0;
    has_pending_key = true;
    receivers = λ ssrc. none;
    ssrc_to_user_id = λ ssrc. none;
  };
  epoch = 1;
  pending_transition_id = 0;
  pending_version = pos 1;
  pending_transition = true;
  last_transition_id = 0;
  has_last_transition = false;
  user_id = "7";
  group_id = 0 ∷ 0 ∷ 0 ∷ 0 ∷ 0 ∷ 0 ∷ 0 ∷ 9 ∷ [];
  protocol_version = pos 1;
  group = some 1;
  group_err = none;
}

joined_ready : run ops toy expand (new_dave_session ops "7") joined ≡ ready
unfolding run dgo.Dave.Epoch.clear_state dgo.Dave.Epoch.Media.call new_dave_session
    dgo.Dave.ParseUint.parse_uint dgo.Dave.Epoch.configure dgo.Dave.Epoch.Calls.handle_welcome
    handle_prepare_transition
joined_ready = refl

-- A reset for another welcome forgets the pending transition, but not the last one: the initial transition of
-- the new group is refused.
executed_once_example :
    let e : DaveSession ℕ =
      run ops toy expand
        (handle_execute_transition ops expand ready 0).0
        (re_welcome_call ∷ welcome_call [] ∷ []) in
    (handle_execute_transition ops expand e 0 ≡ (e, some unexpected_transition))
    × (handle_prepare_transition e 0 (pos 1) ≡ (e, some already_executed))
unfolding handle_execute_transition dgo.Frame.hash_ratchet_get_key dgo.Frame.be_uint32
    dgo.Dave.ParseUint.parse_uint
executed_once_example =
    executed_once ops toy expand 0 ready (re_welcome_call ∷ welcome_call [] ∷ []) (pos 1) refl
      (refl, (refl, tt)) refl

fails_closed_example :
    let d : DaveSession ℕ =
      run ops toy expand (new_dave_session ops "7") (joined ++ (execute_call 0 ∷ [])) in
    (is_active d ≡ can_encrypt d) × ((is_some d.group || is_some d.group_err) ≡ true)
fails_closed_example = fails_closed ops toy expand "7" (joined ++ (execute_call 0 ∷ []))

-- User 8 knows user 7 under the SSRC 5.
abbrev listener : DaveSession ℕ
listener = record ready {
  user_id = "8";
  media = record ready.media { active = true; ssrc_to_user_id = λ ssrc. some "7" };
}

agreed : Agreed ℕ ops expand ready listener
unfolding dgo.Frame.hash_ratchet_get_key dgo.Frame.be_uint32 dgo.Dave.ParseUint.parse_uint
    dgo.Dave.Epoch.Calls.export_for
agreed = record {
  pending = refl;
  encrypts = refl;
  has_pending_key = refl;
  secret = 7 ∷ 0 ∷ 0 ∷ 0 ∷ 0 ∷ 0 ∷ 0 ∷ 0 ∷ [];
  key = 7 ∷ 0 ∷ 0 ∷ 0 ∷ 0 ∷ 0 ∷ 0 ∷ 0 ∷ 0 ∷ 0 ∷ 0 ∷ 0 ∷ [];
  own = refl;
  others = refl;
  first_key = refl;
}

first_frame_arrives_example :
    let done : DaveSession ℕ × Option SessionError = handle_execute_transition ops expand ready 0 in
    (done.1 ≡ none)
    × (frame : List ℕ) × ((encrypt ops toy expand done.0 (3 ∷ 4 ∷ [])).1 ≡ plain frame)
    × ((decrypt ops toy expand listener 5 frame).1 ≡ plain (3 ∷ 4 ∷ []))
first_frame_arrives_example =
    first_frame_arrives ops toy expand ready listener agreed 5 (3 ∷ 4 ∷ []) refl refl refl
