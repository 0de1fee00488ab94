-- ===== src/Session/Operation/Once.antt =====
-- How often an operation of state_op_sender.h completes, and when it must.
use bkmail.Prelude.{
  ℕ, ◌+◌, ◌≤◌, ◌≡◌, ◌⊎◌, is_empty, refl, Bool, true, false, ◌&&◌, ◌||◌, not, List, [], ◌∷◌, arith,
  Bool-cases, inl, inr, length, Bytes,
}
use bkmail.Error.{ErrorCode, capability_required}
use bkmail.Capability.{contains}
use bkmail.Session.{Connection, Outcome, set_value, set_stopped, finish_operation}
use bkmail.Session.Operation.{
  StateOp, deliver, submitted, ended_at_once, start, on_result, stop_requested, stop_forwarded,
  Event, replied, stop_first, stop_second, delivered, step, run,
}

abbrev bit : Bool → ℕ
bit true = 1
bit false = 0

-- Exactly one party holds the completion, or it was delivered; before the claim a stop and the reply are
-- both still possible.
unfoldable pub IsOnce : {S : Type 0} → StateOp S → Type 0
IsOnce s =
    (bit (not s.completed) + (bit s.forwarding + (bit s.posted + length s.outcomes)) ≡ 1)
    × ((s.completed || (s.registered && s.armed)) ≡ true)
    × ((s.armed && s.completed) ≡ false)

module _ {R S : Type 0} (make_successor : ErrorCode → Connection → R → S) where
  step-IsOnce : (e : Event R) (s : StateOp S) → IsOnce s → IsOnce (step make_successor e s)
  unfolding IsOnce step on_result stop_requested stop_forwarded deliver
  step-IsOnce (replied ec result) s h = ground arith
  step-IsOnce stop_first s h = ground arith
  step-IsOnce (stop_second withdrawn) s h = ground arith
  step-IsOnce delivered s h = ground arith

  run-IsOnce :
      (events : List (Event R)) (s : StateOp S) → IsOnce s → IsOnce (run make_successor events s)
  unfolding run
  run-IsOnce [] s h = h
  run-IsOnce (e ∷ events) s h = run-IsOnce events (step make_successor e s) (step-IsOnce e s h)

  step-ended :
      (connection : Connection) (outcome : Outcome S) (e : Event R)
      → step make_successor e (ended_at_once connection outcome) ≡ ended_at_once connection outcome
  unfolding step ended_at_once stop_requested stop_forwarded
  step-ended connection outcome (replied ec result) = refl
  step-ended connection outcome stop_first = refl
  step-ended connection outcome (stop_second withdrawn) = refl
  step-ended connection outcome delivered = refl

  run-ended :
      (events : List (Event R)) (connection : Connection) (outcome : Outcome S)
      → run make_successor events (ended_at_once connection outcome)
        ≡ ended_at_once connection outcome
  unfolding run
  run-ended [] connection outcome = refl
  run-ended (e ∷ events) connection outcome =
      rw (step-ended connection outcome e) (run-ended events connection outcome)

  -- An operation that was started is over at once, or waits for its reply.
  start_cases :
      (stop : Bool) (required : Bytes) (no_result : R) (connection : Connection)
      → ((outcome : Outcome S) × (start stop required make_successor no_result connection
            ≡ ended_at_once connection outcome))
        ⊎ (start stop required make_successor no_result connection ≡ submitted connection)
  unfolding start
  start_cases true required no_result connection = inl (set_stopped, refl)
  start_cases false required no_result connection =
      elim (Bool-cases
        (not (is_empty required) && not (contains required connection.capabilities))) [
          | inl lacks ↦ inl (
            set_value capability_required
                (make_successor capability_required (finish_operation connection) no_result),
            rw lacks refl,
          )
          | inr has ↦ inr (rw has refl)
        ]

  submitted-IsOnce : (connection : Connection) → IsOnce (submitted {S = S} connection)
  unfolding IsOnce submitted
  submitted-IsOnce connection = (refl, refl, refl)

  at_most_one : (s : StateOp S) → IsOnce s → length s.outcomes ≤ 1
  unfolding IsOnce
  at_most_one s h = ground arith

  stopped_one :
      (withdrawn : Bool) (s : StateOp S)
      → IsOnce s
      → length (run make_successor (stop_first ∷ stop_second withdrawn ∷ delivered ∷ []) s).outcomes
        ≡ 1
  unfolding IsOnce run step stop_requested stop_forwarded deliver
  stopped_one withdrawn s h = ground arith

  -- An operation completes at most once: with a reply, with the stop whose forwarder the reply may overtake,
  -- or in the start itself, for every order of these, whether or not the cancel of the forwarder withdraws the
  -- handler. Behind a stop request, its forwarder and the posted delivery it has completed.
  pub run_once :
      (stop : Bool) (required : Bytes) (no_result : R) (connection : Connection)
      (events : List (Event R)) (withdrawn : Bool)
      → let now =
          run make_successor events (start stop required make_successor no_result connection) in
        (length now.outcomes ≤ 1)
        × (length
              (run make_successor
                (stop_first ∷ stop_second withdrawn ∷ delivered ∷ [])
                now).outcomes
            ≡ 1)
  run_once stop required no_result connection events withdrawn =
      elim (start_cases stop required no_result connection) [
        | inl (outcome, ended) ↦
            rw
              (
                ended,
                run-ended events connection outcome,
                run-ended (stop_first ∷ stop_second withdrawn ∷ delivered ∷ []) connection outcome,
              )
              (unfold ended_at_once in (omega arith, refl))
        | inr waits ↦
            let kept = run-IsOnce events (submitted connection) (submitted-IsOnce connection) in
            rw waits (
              at_most_one (run make_successor events (submitted connection)) kept,
              stopped_one withdrawn (run make_successor events (submitted connection)) kept,
            )
      ]

  sent :
      (required : Bytes) (no_result : R) (connection : Connection)
      → (is_empty required || contains required connection.capabilities) ≡ true
      → start false required make_successor no_result connection ≡ submitted connection
  unfolding start
  sent required no_result connection h = ground arith

  -- An operation that needs no capability, or one that the cache holds, completes with the error code and
  -- the successor of its reply, which gets the connection idle again; a reply behind a stop request is
  -- dropped, and the stop is delivered.
  pub run_replied :
      (required : Bytes) (no_result : R) (connection : Connection) (ec : ErrorCode) (result : R)
      (withdrawn : Bool)
      → (is_empty required || contains required connection.capabilities) ≡ true
      → ((run make_successor
            (replied ec result ∷ [])
            (start false required make_successor no_result connection)).outcomes
          ≡ set_value ec (make_successor ec (finish_operation connection) result) ∷ [])
        × ((run make_successor
              (stop_first ∷ replied ec result ∷ stop_second withdrawn ∷ delivered ∷ [])
              (start false required make_successor no_result connection)).outcomes
            ≡ set_stopped ∷ [])
  unfolding run step on_result stop_requested stop_forwarded deliver submitted finish_operation
  run_replied required no_result connection ec result withdrawn h =
      rw (sent required no_result connection h) (refl, refl)

  abbrev refusal : R → Connection → Outcome S
  refusal no_result connection =
      set_value capability_required
        (make_successor capability_required (finish_operation connection) no_result)

  not_sent :
      (required : Bytes) (no_result : R) (connection : Connection)
      → (is_empty required || contains required connection.capabilities) ≡ false
      → start false required make_successor no_result connection
        ≡ ended_at_once connection (refusal no_result connection)
  unfolding start
  not_sent required no_result connection h = ground arith

  -- An operation whose capability the cache lacks completes at once with capability_required and the
  -- successor for it, and nothing that comes later completes it again.
  pub run_capability_required :
      (required : Bytes) (no_result : R) (connection : Connection) (events : List (Event R))
      → (is_empty required || contains required connection.capabilities) ≡ false
      → (run make_successor events
          (start false required make_successor no_result connection)).outcomes
        ≡ set_value capability_required
            (make_successor capability_required (finish_operation connection) no_result)
          ∷ []
  run_capability_required required no_result connection events h =
      rw
        (
          not_sent required no_result connection h,
          run-ended events connection (refusal no_result connection),
        )
        (unfold ended_at_once in refl)
