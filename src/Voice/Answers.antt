-- ===== src/Voice/Answers.antt =====
-- Every commit and every welcome is answered.
use dgo.Prelude.{
  ℕ, ◌<◌, ◌≡◌, refl, ap, String, true, false, List, [], ◌∷◌, Option, none, some, length, drop, ltb,
  ◌==◌, Bool-cases, inl, inr, arith,
}
use dgo.Prelude.Int.{pos}
use dgo.Dave.Group.{GroupOps}
use dgo.Dave.Epoch.{
  SessionError, DaveSession, Bytes, bytes, failed, is_active, handle_prepare_transition,
  reset_for_re_welcome,
}
use dgo.Dave.Epoch.Calls.{handle_welcome, handle_commit, handle_execute_transition}
use dgo.Voice.{
  Sent, send_key_package, send_ready_for_transition, send_invalid_commit_welcome, be_uint16,
  after_recovery, recover_group, after_execute, after_prepare, after_group, on_payload,
}
use dgo.Voice.Outcomes.{
  IdlePackage, Activated, Prepared, re_welcome-Idle, execute-Activated, prepare-Prepared,
}

module _ {G : Type 0} (ops : GroupOps G)
    (expand_with_label : List ℕ → String → List ℕ → ℕ → Option (List ℕ)) where
  abbrev pub Step : Type 0
  Step = DaveSession G × Option SessionError

  -- The steps after the message is processed, each from the session that the step before leaves.
  abbrev pub prepared : Step → ℕ → Step
  prepared processed id = handle_prepare_transition processed.0 id (pos 1)

  abbrev pub initial_executed : Step → ℕ → Step
  initial_executed processed id =
      handle_execute_transition ops expand_with_label (prepared processed id).0 id

  -- A step fails, all before it having succeeded, and leaves the session d.
  pub data Fails (id : ℕ) (processed : Step) (d : DaveSession G) : Type 0 where
    at_processing : (e : SessionError) → processed ≡ (d, some e) → Fails id processed d
    at_preparation :
        (e : SessionError)
        → processed.1 ≡ none
        → prepared processed id ≡ (d, some e)
        → Fails id processed d
    at_execution :
        (e : SessionError)
        → processed.1 ≡ none
        → (prepared processed id).1 ≡ none
        → id ≡ 0
        → initial_executed processed id ≡ (d, some e)
        → Fails id processed d

  -- The initial transition is executed at once; another is prepared and reported ready; and a failure is
  -- reported, with a key package from a session that is reset and waits for another welcome, if that can be
  -- had.
  pub data Answered (id : ℕ) (processed : Step) : DaveSession G × List Sent → Type 0 where
    executes :
        (d : DaveSession G)
        → processed.1 ≡ none
        → (prepared processed id).1 ≡ none
        → id ≡ 0
        → initial_executed processed id ≡ (d, none)
        → is_active d ≡ true
        → d.last_transition_id ≡ id
        → Answered id processed (d, [])
    prepares :
        (d : DaveSession G)
        → processed.1 ≡ none
        → prepared processed id ≡ (d, none)
        → ¬ (id ≡ 0)
        → d.pending_transition ≡ true
        → d.pending_transition_id ≡ id
        → Answered id processed (d, send_ready_for_transition id ∷ [])
    gives_up :
        (d d' : DaveSession G) (e : SessionError)
        → Fails id processed d
        → reset_for_re_welcome ops d ≡ (d', failed e)
        → Answered id processed (d', send_invalid_commit_welcome id ∷ [])
    recovers :
        (d d' : DaveSession G) (package_bytes : List ℕ)
        → Fails id processed d
        → reset_for_re_welcome ops d ≡ (d', bytes package_bytes)
        → is_active d' ≡ false
        → d'.pending_transition ≡ false
        → Answered id processed
            (d', send_invalid_commit_welcome id ∷ send_key_package package_bytes ∷ [])

module _ {G : Type 0} (ops : GroupOps G)
    (expand_with_label : List ℕ → String → List ℕ → ℕ → Option (List ℕ)) where
  after_recovery-Answered :
      (id : ℕ) (processed : DaveSession G × Option SessionError) (d : DaveSession G)
      (r : DaveSession G × Bytes)
      → Fails ops expand_with_label id processed d
      → reset_for_re_welcome ops d ≡ r
      → IdlePackage r
      → Answered ops expand_with_label id processed (after_recovery ops expand_with_label id r)
  unfolding after_recovery
  after_recovery-Answered id processed d (d', failed e) why reset h = gives_up d d' e why reset
  after_recovery-Answered id processed d (d', bytes package_bytes) why reset h =
      recovers d d' package_bytes why reset h.0 h.1

  recover-Answered :
      (id : ℕ) (processed : DaveSession G × Option SessionError) (d : DaveSession G)
      → Fails ops expand_with_label id processed d
      → Answered ops expand_with_label id processed (recover_group ops expand_with_label id d)
  unfolding recover_group
  recover-Answered id processed d why =
      after_recovery-Answered id processed d (reset_for_re_welcome ops d) why refl
        (re_welcome-Idle ops expand_with_label d)

  after_execute-Answered :
      (id : ℕ) (processed r : DaveSession G × Option SessionError)
      → processed.1 ≡ none
      → (prepared ops expand_with_label processed id).1 ≡ none
      → id ≡ 0
      → initial_executed ops expand_with_label processed id ≡ r
      → Activated id r
      → Answered ops expand_with_label id processed (after_execute ops expand_with_label id r)
  unfolding after_execute
  after_execute-Answered id processed (d, some e) fine ready initial run h =
      recover-Answered id processed d (at_execution e fine ready initial run)
  after_execute-Answered id processed (d, none) fine ready initial run h =
      executes d fine ready initial run h.0 h.1

  after_prepare-Answered :
      (id : ℕ) (processed r : DaveSession G × Option SessionError)
      → processed.1 ≡ none
      → prepared ops expand_with_label processed id ≡ r
      → Prepared id r
      → Answered ops expand_with_label id processed (after_prepare ops expand_with_label id r)
  unfolding after_prepare
  after_prepare-Answered id processed (d, some e) fine run h =
      recover-Answered id processed d (at_preparation e fine run)
  after_prepare-Answered id processed (d, none) fine run h = elim (Bool-cases (id == 0)) [
    | inr later ↦
        let other : ¬ (id ≡ 0) = ground arith in
        rw (later, after_prepare) (prepares d fine run other h.0 h.1)
    | inl initial ↦
        rw (initial, after_prepare)
          (after_execute-Answered id processed
            (handle_execute_transition ops expand_with_label d id) fine (ap (λ r. r.1) run)
            (ground arith) (ap (λ r. handle_execute_transition ops expand_with_label r.0 id) run)
            (execute-Activated ops expand_with_label d id h.2))
  ]

  after_group-Answered :
      (id : ℕ) (r : DaveSession G × Option SessionError)
      → Answered ops expand_with_label id r (after_group ops expand_with_label id r)
  unfolding after_group
  after_group-Answered id (d, some e) = recover-Answered id (d, some e) d (at_processing e refl)
  after_group-Answered id (d, none) =
      after_prepare-Answered id (d, none) (handle_prepare_transition d id (pos 1)) refl refl
        (prepare-Prepared ops expand_with_label d id)

  -- A commit (29) and a welcome (30) of more than two bytes, in any state of the session and whatever the group
  -- makes of it, is answered for the transition that its first two bytes name. It is processed, the
  -- transition prepared, and the initial transition, 0, executed. If all of that succeeds, the initial transition
  -- is answered by no message, and the session is active with it as the last one; another is left pending
  -- and reported ready. If one step fails, the session is reset for another welcome from where that step leaves it, and the failure
  -- is reported, followed by the key package of the reset session, which is not active and has no
  -- transition pending; or alone if the reset yields none.
  pub group_message_answered :
      (d : DaveSession G) (payload : List ℕ)
      → 2 < length payload
      → Answered ops expand_with_label
          (be_uint16 payload)
          (handle_commit ops d (drop 2 payload))
          (on_payload ops expand_with_label d 29 payload)
        × Answered ops expand_with_label
            (be_uint16 payload)
            (handle_welcome ops d (drop 2 payload))
            (on_payload ops expand_with_label d 30 payload)
  unfolding on_payload
  group_message_answered d payload long =
      let enough : ltb 2 (length payload) ≡ true = ground arith in
      (
        rw (enough, on_payload)
            (after_group-Answered (be_uint16 payload) (handle_commit ops d (drop 2 payload))),
        rw (enough, on_payload)
            (after_group-Answered (be_uint16 payload) (handle_welcome ops d (drop 2 payload))),
      )
