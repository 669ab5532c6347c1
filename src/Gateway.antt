-- ===== src/Gateway.antt =====
-- What a Gateway session keeps to be resumed: `onEvent`, `listen`, `authenticateGatewayGeneration`,
-- `invalidateGatewaySession` and the choice of the URL, wsapi.go, with `onReady` of event.go. An event is
-- decoded already. The socket, the handlers of events and the time of the last acknowledgement are left out.
pub mod Resume
mod Examples
use text.Mathlib.Text.{◌==◌ as str_eq}
use dgo.Prelude.{
  ℕ, String, Bool, true, false, List, [], ◌∷◌, Option, none, some, ◌==◌, ◌&&◌, ◌||◌, not,
  if◌then◌else◌,
}
use dgo.Prelude.Int.{ℤ, pos}

pub record GatewaySession : Type 0 where
  pub gateway : String
  pub session_id : String
  pub resume_gateway_url : String
  pub sequence : ℤ

pub data Recovery : Type 0 where
  resume_session identify_again stop : Recovery

-- What the raw data of an event is used for.
pub data Payload : Type 0 where
  ready : String → String → Payload
  resumable : Option Bool → Payload
  other : Payload

pub record Event : Type 0 where
  pub operation : ℕ
  pub sequence : ℤ
  pub payload : Payload

-- A read that fails, with what the context says and the close code, or an event.
pub data Input : Type 0 where
  read_error : Bool → Option ℕ → Input
  event : Event → Input

-- The reader goes on, returns, or ends the connection.
pub data Next : Type 0 where
  goes_on returns : Next
  finishes : Recovery → Next

pub data Packet : Type 0 where
  identify : Packet
  resume : String → ℤ → Packet
  heartbeat : ℤ → Packet

unfoldable pub invalidate_session : GatewaySession → GatewaySession
invalidate_session s = record s { session_id = ""; resume_gateway_url = ""; sequence = pos 0 }

abbrev pub is_fatal : ℕ → Bool
is_fatal code =
    (code == 4004)
    || (code == 4010)
    || (code == 4011)
    || (code == 4012)
    || (code == 4013)
    || (code == 4014)

-- 1000 and 1001 are the normal closure and going away.
abbrev pub is_over : ℕ → Bool
is_over code = (code == 1000) || (code == 1001) || (code == 4007) || (code == 4009)

unfoldable pub reconnect_action : Option ℕ → Recovery
reconnect_action none = resume_session
reconnect_action (some code) =
    if is_fatal code then stop else if is_over code then identify_again else resume_session

abbrev pub is_resume : Recovery → Bool
is_resume resume_session = true
is_resume identify_again = false
is_resume stop = false

unfoldable pub on_ready : GatewaySession → Payload → GatewaySession
on_ready s (ready session_id url) = record s { session_id = session_id; resume_gateway_url = url }
on_ready s (resumable r) = s
on_ready s other = s

unfoldable pub on_invalid : GatewaySession → Payload → GatewaySession
unfolding invalidate_session
on_invalid s (ready session_id url) = s
on_invalid s (resumable none) = s
on_invalid s (resumable (some true)) = s
on_invalid s (resumable (some false)) = invalidate_session s
on_invalid s other = s

-- The event as the session keeps it, and the heartbeat that answers it.
unfoldable pub on_event : GatewaySession → Event → GatewaySession × Option Packet
unfolding on_ready on_invalid
on_event s e =
    if e.operation == 1
    then (s, some (heartbeat s.sequence))
    else if e.operation == 9
    then (on_invalid s e.payload, none)
    else if e.operation == 0
    then (on_ready (record s { sequence = e.sequence }) e.payload, none)
    else (s, none)

unfoldable pub after_invalid : Payload → Next
after_invalid (ready session_id url) = goes_on
after_invalid (resumable none) = goes_on
after_invalid (resumable (some true)) = finishes resume_session
after_invalid (resumable (some false)) = finishes identify_again
after_invalid other = goes_on

-- One round of the loop of `listen`.
unfoldable pub listen_once : GatewaySession → Input → GatewaySession × Next
unfolding reconnect_action invalidate_session on_event after_invalid
listen_once s (read_error true code) = (s, returns)
listen_once s (read_error false code) =
    let action = reconnect_action code in
    (if is_resume action then s else invalidate_session s, finishes action)
listen_once s (event e) = (
  (on_event s e).0,
  if e.operation == 7
      then finishes resume_session
      else if e.operation == 9
      then after_invalid e.payload
      else goes_on,
)

-- The packet by which a new connection is authenticated. The coordinator lets an identify through.
unfoldable pub authenticate : GatewaySession → Packet
authenticate s = if str_eq s.session_id "" then identify else resume s.session_id s.sequence

-- The URL to connect to, and whether it is that of the session.
unfoldable pub base_url : GatewaySession → String × Bool
base_url s =
    if not (str_eq s.session_id "") && not (str_eq s.resume_gateway_url "")
    then (s.resume_gateway_url, true)
    else (s.gateway, false)

-- The URL that cannot be reached is forgotten. `tried` is the gateway that this connection began with.
unfoldable pub dial_failed : GatewaySession → String → GatewaySession
unfolding base_url
dial_failed s tried =
    if (base_url s).1
    then record s { resume_gateway_url = "" }
    else if str_eq s.gateway tried
    then record s { gateway = "" }
    else s
