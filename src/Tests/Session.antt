-- ===== src/Tests/Session.antt =====
-- Runs of one context, and its properties applied.
use bkmail.Prelude.{
  ℕ, ◌≡◌, refl, true, false, none, some, Bytes, List, [], ◌∷◌, ◌++◌, codes, arith, inl,
}
use bkmail.Error.{ErrorCode, success}
use bkmail.Response.{ResponseStatus, TaggedResponse}
use bkmail.Command.{Command, segmented, idle}
use bkmail.Command.Segmented.{SegmentedCommand}
use bkmail.Operation.{Operation, Completion, value, next_segment, mark_detached}
use bkmail.Lexer.{reset}
use bkmail.Context.Defs.{Context}
use bkmail.Context.Queue.{update, erase, taken, lookup}
use bkmail.Context.Submit.{new_operation, submit}
use bkmail.Context.WritePump.Batch.{is_sendable, front, joined}
use bkmail.Context.WritePump.Parked.{head, run-dispatch_tagged}
use bkmail.Context.ReadPump.{dispatch_tagged}
use bkmail.Context.Read.{read_loop}
use bkmail.Context.Read.Ends.{read_loop_fuel}
use bkmail.Context.Run.{
  Event, submits, cancels, flushes, closes, kicks, arms, writes_done, reads_done, run, initial,
}
use bkmail.Context.Ownership.Once.{IsOnce, run-IsOnce}
use bkmail.Context.Quiet.{IsQuiet}
use bkmail.Context.Quiet.Pumps.{run-IsQuiet}

abbrev noop : Bytes → Command
noop tag = segmented (record {
  segments = (tag ++ codes " NOOP\r\n") ∷ [];
  emitted = 0;
  unlocked = 1;
  blocks = false;
  wants = λ k. false;
})

-- APPEND of three octets.
abbrev append : Bytes → Command
append tag = segmented (record {
  segments = (tag ++ codes " APPEND INBOX {3}\r\n") ∷ codes "abc\r\n" ∷ [];
  emitted = 0;
  unlocked = 1;
  blocks = false;
  wants = λ k. false;
})

-- A command is sent and answered, and a second one is refused by the close of the context.
abbrev history : List Event
history =
    submits noop true false false
    ∷ flushes
    ∷ kicks success
    ∷ arms
    ∷ writes_done success
    ∷ submits append false false true
    ∷ reads_done success (codes "a0001 OK do")
    ∷ reads_done success (codes "ne\r\n")
    ∷ closes
    ∷ []

history_writes : (run history initial).writes ≡ codes "a0001 NOOP\r\n" ∷ []
unfolding run bkmail.Command.Segmented.awaits_continuation bkmail.Command.Segmented.next_segment
    bkmail.Command.Segmented.on_segment_flushed update bkmail.Lexer.round bkmail.Lexer.find_eol
    bkmail.Lexer.literal_trailer bkmail.Astring.is_atom_char lookup bkmail.Astring.Decimal.to_chars
history_writes = refl

history_completions :
    (run history initial).completions
    ≡ (0, value success) ∷ (1, value ErrorCode.operation_canceled) ∷ []
unfolding run bkmail.Command.Segmented.awaits_continuation bkmail.Command.Segmented.next_segment
    bkmail.Command.Segmented.on_segment_flushed update bkmail.Lexer.round bkmail.Lexer.find_eol
    bkmail.Lexer.literal_trailer bkmail.Astring.is_atom_char lookup bkmail.Astring.Decimal.to_chars
    taken bkmail.Operation.fail
history_completions = refl

run-IsOnce_example : IsOnce 1 (run history initial)
run-IsOnce_example = run-IsOnce history 1

run-IsQuiet_example : IsQuiet (run history initial)
run-IsQuiet_example = run-IsQuiet history

abbrev first_append : Operation
first_append = new_operation append true false initial

abbrev second_noop : Operation
second_noop = new_operation noop true false (submit append true false false initial)

-- Only the first line of APPEND is in the batch.
front_test :
    joined (taken is_sendable (front (first_append ∷ second_noop ∷ [])))
    ≡ codes "a0001 APPEND INBOX {3}\r\n"
unfolding new_operation taken bkmail.Operation.is_written
    bkmail.Command.Segmented.awaits_continuation bkmail.Operation.awaits_continuation
    bkmail.Operation.next_segment bkmail.Command.Segmented.next_segment
    bkmail.Astring.Decimal.to_chars
front_test = refl

abbrev filled : Context
filled = record initial { read_buffer = codes "* OK\r\n* 1 EXISTS\r\n* 2" }

read_loop_fuel_example : read_loop 30 filled ≡ read_loop 31 filled
read_loop_fuel_example =
    read_loop_fuel 30 31 filled
      (record { behind = omega arith; inside = omega arith; resumable = λ _. inl refl })
      (omega arith) (omega arith)

abbrev one_append : Context
one_append = submit append true false false initial

abbrev one_noop : Context
one_noop = submit noop true false false initial

abbrev first_noop : Operation
first_noop = new_operation noop true false initial

-- The cancelled APPEND is sent all the same.
abbrev cancelled : List Event
cancelled =
    submits append true false false
    ∷ cancels (codes "a0001")
    ∷ submits noop true false false
    ∷ flushes
    ∷ kicks success
    ∷ arms
    ∷ writes_done success
    ∷ []

cancelled_writes : (run cancelled initial).writes ≡ codes "a0001 APPEND INBOX {3}\r\n" ∷ []
unfolding run lookup bkmail.Astring.Decimal.to_chars bkmail.Command.Segmented.awaits_continuation
    update mark_detached bkmail.Command.Segmented.next_segment
    bkmail.Command.Segmented.on_segment_flushed
cancelled_writes = refl

-- Its literal is refused, and the command behind it is never sent.
abbrev refused : TaggedResponse
refused = record { tag = codes "a0001"; status = ResponseStatus.refused; code = none; text = [] }

abbrev parked : Context
parked = run cancelled initial

abbrev parked_append : Operation
parked_append = record first_append {
  command = segmented (record {
    segments = codes "a0001 APPEND INBOX {3}\r\n" ∷ codes "abc\r\n" ∷ [];
    emitted = 1;
    unlocked = 1;
    blocks = false;
    wants = λ k. false;
  });
  has_written = true;
  detached = true;
}

abbrev waiting_noop : Operation
waiting_noop = new_operation noop true false (submit append true false false initial)

abbrev sending : List Event
sending = submits noop true false true ∷ kicks success ∷ arms ∷ flushes ∷ []

run-dispatch_tagged_example :
    (dispatch_tagged refused parked ≡ (parked, true))
    × ((run sending (dispatch_tagged refused parked).0).writes ≡ parked.writes)
    × (head (run sending (dispatch_tagged refused parked).0).write_queue ≡ some parked_append)
unfolding run new_operation submit lookup bkmail.Astring.Decimal.to_chars
    bkmail.Command.Segmented.awaits_continuation update mark_detached
    bkmail.Command.Segmented.next_segment bkmail.Command.Segmented.on_segment_flushed erase
run-dispatch_tagged_example =
    run-dispatch_tagged refused parked_append (waiting_noop ∷ []) parked sending refl refl refl refl
      refl refl refl

abbrev counter : ℕ
counter = 12345
