-- ===== src/Gateway/Examples.antt =====
-- A session that is read to its end.
use text.Mathlib.Text.{◌==◌ as str_eq}
use dgo.Prelude.{ℕ, ◌≡◌, refl, false, List, [], ◌∷◌, none, some, if◌then◌else◌}
use dgo.Prelude.Int.{pos}
use dgo.Gateway.{
  GatewaySession, Payload, ready, resumable, other, Event, Input, read_error, event, Packet,
  identify, resume, authenticate, base_url,
}
use dgo.Gateway.Resume.{after, id_of, sequence_of, authenticates_current}

abbrev new_session : GatewaySession
new_session = record {
  gateway = "wss://gateway";
  session_id = "";
  resume_gateway_url = "";
  sequence = pos 0;
}

abbrev dispatch : ℕ → Payload → Input
dispatch n payload = event (record { operation = 0; sequence = pos n; payload = payload })

-- The last read first: a failed read without a close code keeps the session.
abbrev interrupted : List Input
interrupted =
    read_error false none ∷ dispatch 2 other ∷ dispatch 1 (ready "abc" "wss://resume") ∷ []

resumes : authenticate (after new_session interrupted) ≡ resume "abc" (pos 2)
unfolding authenticate after dgo.Gateway.listen_once
resumes = refl

closed_session :
    authenticate (after new_session (read_error false (some 4009) ∷ interrupted)) ≡ identify
unfolding authenticate after dgo.Gateway.listen_once dgo.Gateway.reconnect_action
    dgo.Gateway.invalidate_session
closed_session = refl

authenticates_current_example : authenticate (after new_session interrupted) ≡ (
    if str_eq (id_of "" interrupted) ""
    then identify
    else resume (id_of "" interrupted) (sequence_of (pos 0) interrupted))
authenticates_current_example = authenticates_current new_session interrupted
