-- ===== src/Tests/Idling.antt =====
-- Runs of IDLE, and its properties applied.
use bkmail.Prelude.{◌≡◌, refl, true, false, List, [], ◌∷◌, codes}
use bkmail.Error.{success}
use bkmail.Command.{idle}
use bkmail.Command.Idle
use bkmail.Command.Idle.{IdleCommand}
use bkmail.Command.Idle.Order
use bkmail.Command.Idle.Order.{run-on_segment_flushed}
use bkmail.Operation.{Operation, Completion, value, mark_detached}
use bkmail.Lexer.{reset}
use bkmail.Context.Queue.{update, lookup}
use bkmail.Context.Run.{
  Event, submits, cancels, flushes, kicks, arms, writes_done, reads_done, run, initial,
}

abbrev fresh_idle : IdleCommand
fresh_idle = record {
  segment = [];
  phase = Idle.initial;
  segment_pending = false;
  done_requested = false;
}

abbrev rest : List Order.Event
rest = Order.stop_asked ∷ Order.flushed ∷ Order.continued ∷ []

run-on_segment_flushed_example :
    (Idle.next_segment (
        Order.run rest (
          Idle.on_segment_flushed
            (Idle.on_continuation (Idle.done (Idle.render (codes "a0001") fresh_idle)))))
      ≡ [])
    × (Idle.next_segment (
          Order.run rest (
            Idle.on_segment_flushed (
              Idle.done (
                Idle.on_continuation
                  (record (Idle.render (codes "a0001") fresh_idle) { done_requested = false })))))
        ≡ [])
run-on_segment_flushed_example = run-on_segment_flushed (codes "a0001") fresh_idle rest

-- The same in a whole history: the stop is asked for, the `+` comes first, and DONE is never sent.
abbrev early : List Event
early =
    submits (λ tag. idle (Idle.render tag fresh_idle)) true false false
    ∷ flushes
    ∷ kicks success
    ∷ arms
    ∷ cancels (codes "a0001")
    ∷ reads_done success (codes "+ idling\r\n")
    ∷ writes_done success
    ∷ kicks success
    ∷ arms
    ∷ []

early_writes : (run early initial).writes ≡ codes "a0001 IDLE\r\n" ∷ []
unfolding run Idle.awaits_continuation Idle.render Idle.next_segment lookup
    bkmail.Astring.Decimal.to_chars bkmail.Lexer.round bkmail.Lexer.find_eol
    bkmail.Lexer.literal_trailer update bkmail.Operation.cancel_written Idle.on_segment_flushed
    Idle.on_continuation Idle.done
early_writes = refl
