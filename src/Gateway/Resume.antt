-- ===== src/Gateway/Resume.antt =====
-- What a session is resumed with, told from what has been read.
use text.Mathlib.Text.{◌==◌ as str_eq}
use dgo.Prelude.{
  ◌&&◌, ◌||◌, ℕ, ◌≡◌, refl, not, ap, ◌∙◌, String, Bool, true, false, List, [], ◌∷◌, Option, none,
  some, ◌==◌, if◌then◌else◌, Bool-cases, inl, inr, arith,
}
use dgo.Prelude.Int.{ℤ, pos}
use dgo.Gateway.{
  GatewaySession, Payload, ready, resumable, other, Event, Input, read_error, event, identify,
  resume, reconnect_action, is_resume, invalidate_session, on_ready, on_invalid, on_event,
  listen_once, authenticate,
}

-- The session after what was read, the last read first.
unfoldable pub after : GatewaySession → List Input → GatewaySession
unfolding listen_once
after s [] = s
after s (i ∷ older) = (listen_once (after s older) i).0

-- An invalid session that cannot be resumed.
abbrev pub is_lost : Payload → Bool
is_lost (ready session_id url) = false
is_lost (resumable none) = false
is_lost (resumable (some r)) = if r then false else true
is_lost other = false

-- The close codes after which a session is over.
abbrev pub closing_codes : List ℕ
closing_codes = 1000 ∷ 1001 ∷ 4004 ∷ 4007 ∷ 4009 ∷ 4010 ∷ 4011 ∷ 4012 ∷ 4013 ∷ 4014 ∷ []

abbrev pub is_in : ℕ → List ℕ → Bool
is_in n [] = false
is_in n (m ∷ ms) = (n == m) || is_in n ms

abbrev pub ends_session : Option ℕ → Bool
ends_session none = false
ends_session (some code) = is_in code closing_codes

resumes_unless : (code : Option ℕ) → is_resume (reconnect_action code) ≡ not (ends_session code)
unfolding reconnect_action
resumes_unless none = refl
resumes_unless (some code) = ground arith

-- The read makes the session one that cannot be resumed.
abbrev pub forgets : Input → Bool
forgets (read_error true code) = false
forgets (read_error false code) = ends_session code
forgets (event e) = (e.operation == 9) && is_lost e.payload

abbrev pub ready_id : Payload → String → String
ready_id (ready session_id url) old = session_id
ready_id (resumable r) old = old
ready_id other old = old

-- The id of the session in the last READY, and the number of the last dispatch; none and 0 after a read
-- that forgets the session.
abbrev pub id_of : String → List Input → String
id_of first [] = first
id_of first (read_error ended code ∷ older) =
    if forgets (read_error ended code) then "" else id_of first older
id_of first (event e ∷ older) =
    if forgets (event e)
    then ""
    else if e.operation == 0
    then ready_id e.payload (id_of first older)
    else id_of first older

abbrev pub sequence_of : ℤ → List Input → ℤ
sequence_of first [] = first
sequence_of first (read_error ended code ∷ older) =
    if forgets (read_error ended code) then pos 0 else sequence_of first older
sequence_of first (event e ∷ older) =
    if forgets (event e)
    then pos 0
    else if e.operation == 0
    then e.sequence
    else sequence_of first older

abbrev Known : GatewaySession → String → ℤ → Type 0
Known s id n = (s.session_id ≡ id) × (s.sequence ≡ n)

ready-Known :
    (s : GatewaySession) (p : Payload) (id : String) (n m : ℤ)
    → Known s id n
    → Known (on_ready (record s { sequence = m }) p) (ready_id p id) m
unfolding on_ready
ready-Known s (ready session_id url) id n m h = (refl, refl)
ready-Known s (resumable r) id n m h = (h.0, refl)
ready-Known s other id n m h = (h.0, refl)

invalid-Known :
    (s : GatewaySession) (p : Payload) (id : String) (n : ℤ)
    → Known s id n
    → Known (on_invalid s p) (if is_lost p then "" else id) (if is_lost p then pos 0 else n)
unfolding on_invalid invalidate_session
invalid-Known s (ready session_id url) id n h = h
invalid-Known s (resumable none) id n h = h
invalid-Known s (resumable (some true)) id n h = h
invalid-Known s (resumable (some false)) id n h = (refl, refl)
invalid-Known s other id n h = h

event-Known :
    (s : GatewaySession) (e : Event) (id : String) (n : ℤ)
    → Known s id n
    → Known
        (on_event s e).0
        (if forgets (event e) then "" else if e.operation == 0 then ready_id e.payload id else id)
        (if forgets (event e) then pos 0 else if e.operation == 0 then e.sequence else n)
unfolding on_event
event-Known s e id n h = elim (Bool-cases (e.operation == 1)) [
  | inl ping ↦
      let not_nine : (e.operation == 9) ≡ false = ground arith in
      let not_zero : (e.operation == 0) ≡ false = ground arith in
      rw (ping, not_nine, not_zero, on_event) h
  | inr no_ping ↦ elim (Bool-cases (e.operation == 9)) [
    | inl nine ↦
        let not_zero : (e.operation == 0) ≡ false = ground arith in
        rw (no_ping, nine, not_zero, on_event) (invalid-Known s e.payload id n h)
    | inr not_nine ↦ elim (Bool-cases (e.operation == 0)) [
      | inl zero ↦
          rw (no_ping, not_nine, zero, on_event) (ready-Known s e.payload id n e.sequence h)
      | inr not_zero ↦ rw (no_ping, not_nine, not_zero, on_event) h
    ]
  ]
]

error-Known :
    (s : GatewaySession) (code : Option ℕ) (id : String) (n : ℤ)
    → Known s id n
    → Known
        (listen_once s (read_error false code)).0
        (if forgets (read_error false code) then "" else id)
        (if forgets (read_error false code) then pos 0 else n)
unfolding listen_once invalidate_session
error-Known s code id n h = elim (Bool-cases (ends_session code)) [
  | inl ends ↦
      let loses : is_resume (reconnect_action code) ≡ false = resumes_unless code ∙ ap not ends in
      rw (loses, ends) (refl, refl)
  | inr stays ↦
      let keeps : is_resume (reconnect_action code) ≡ true = resumes_unless code ∙ ap not stays in
      rw (keeps, stays) h
]

after-Known :
    (inputs : List Input) (s : GatewaySession)
    → Known (after s inputs) (id_of s.session_id inputs) (sequence_of s.sequence inputs)
unfolding after listen_once
after-Known [] s = (refl, refl)
after-Known (read_error true code ∷ older) s = after-Known older s
after-Known (read_error false code ∷ older) s =
    error-Known (after s older) code (id_of s.session_id older) (sequence_of s.sequence older)
      (after-Known older s)
after-Known (event e ∷ older) s =
    event-Known (after s older) e (id_of s.session_id older) (sequence_of s.sequence older)
      (after-Known older s)

-- Whatever a session starts with, and after any events and failed reads, of one connection or of several, the next
-- connection is authenticated by a resume with the session id of the last READY and the sequence number of the
-- last dispatch, or those that the session started with where there was none; and by an identify if that id
-- is empty, as it is once the session is lost by an invalid session or by one of the close codes 1000,
-- 1001, 4004, 4007, 4009 and 4010 to 4014, until the next READY.
pub authenticates_current :
    (s : GatewaySession) (inputs : List Input)
    → authenticate (after s inputs) ≡ (
        if str_eq (id_of s.session_id inputs) ""
        then identify
        else resume (id_of s.session_id inputs) (sequence_of s.sequence inputs))
unfolding authenticate
authenticates_current s inputs =
    let h = after-Known inputs s in
    ap (λ id. if str_eq id "" then identify else resume id (after s inputs).sequence) h.0
    ∙ ap
        (λ n.
          if str_eq (id_of s.session_id inputs) ""
          then identify
          else resume (id_of s.session_id inputs) n)
        h.1
