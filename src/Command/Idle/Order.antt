-- ===== src/Command/Idle/Order.antt =====
-- The two orders in which the completion of the IDLE line's write and the server's `+` can arrive.
use bkmail.Prelude.{◌≡◌, refl, false, List, [], ◌∷◌, Bytes, arith}
use bkmail.Command.Idle.{
  IdleCommand, done_sent, done_line, done, queue_done, render, next_segment, on_segment_flushed,
  on_continuation, awaits_continuation,
}

-- With the write's completion first, a stop that was asked for at any time before the `+` sends the
-- DONE line when the `+` arrives, and the command waits for nothing more from the pump then.
pub done-on_continuation :
    (tag : Bytes) (c : IdleCommand)
    → (next_segment (on_continuation (on_segment_flushed (done (render tag c)))) ≡ done_line)
      × (next_segment (on_continuation (done (on_segment_flushed (render tag c)))) ≡ done_line)
      × (awaits_continuation (on_continuation (on_segment_flushed (done (render tag c)))) ≡ false)
unfolding done queue_done render next_segment on_segment_flushed on_continuation awaits_continuation
done-on_continuation tag c = (refl, refl, refl)

-- What may still happen to the command in the pumps.
pub data Event : Type 0 where
  flushed continued stop_asked : Event

unfoldable pub step : Event → IdleCommand → IdleCommand
unfolding on_segment_flushed on_continuation done
step flushed c = on_segment_flushed c
step continued c = on_continuation c
step stop_asked c = done c

unfoldable pub run : List Event → IdleCommand → IdleCommand
unfolding step
run [] c = c
run (e ∷ es) c = run es (step e c)

-- Nothing to send, and past the DONE that was never sent.
abbrev IsSpent : IdleCommand → Type 0
IsSpent c = (c.phase ≡ done_sent) × (c.segment_pending ≡ false)

step-IsSpent : (e : Event) (c : IdleCommand) → IsSpent c → IsSpent (step e c)
unfolding step queue_done
step-IsSpent flushed c h = ground arith
step-IsSpent continued c h = ground arith
step-IsSpent stop_asked c h = ground arith

run-IsSpent : (es : List Event) (c : IdleCommand) → IsSpent c → IsSpent (run es c)
unfolding run
run-IsSpent [] c h = h
run-IsSpent (e ∷ es) c h = run-IsSpent es (step e c) (step-IsSpent e c h)

spent_silent : (c : IdleCommand) → IsSpent c → next_segment c ≡ []
unfolding next_segment
spent_silent c h = ground arith

-- With the `+` first, the completion of the IDLE line's write is taken for the completion of DONE: after a
-- stop that was asked for before the `+`, or between the two, the command has nothing to send, whatever stops,
-- continuations and completions follow, so DONE is never sent.
pub run-on_segment_flushed :
    (tag : Bytes) (c : IdleCommand) (es : List Event)
    → (next_segment (run es (on_segment_flushed (on_continuation (done (render tag c))))) ≡ [])
      × (next_segment (
            run es (
              on_segment_flushed
                (done (on_continuation (record (render tag c) { done_requested = false })))))
          ≡ [])
unfolding done queue_done render on_segment_flushed on_continuation
run-on_segment_flushed tag c es = (
  spent_silent (run es early) (run-IsSpent es early (refl, refl)),
  spent_silent (run es between) (run-IsSpent es between (refl, refl)),
)
  where
    early : IdleCommand
    early = on_segment_flushed (on_continuation (done (render tag c)))

    between : IdleCommand
    between =
        on_segment_flushed
          (done (on_continuation (record (render tag c) { done_requested = false })))
