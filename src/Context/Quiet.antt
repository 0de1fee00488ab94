-- ===== src/Context/Quiet.antt =====
-- The close protocol of imap_context.h: when the descriptor is closed.
pub mod Pumps
use bkmail.Prelude.{
  ℕ, zero, suc, ◌≡◌, refl, Bool, true, false, not, ◌&&◌, ◌||◌, List, [], ◌∷◌, ◌++◌, Option, none,
  some, if◌then◌else◌, Bytes, is_empty, length, arith,
}
use bkmail.Error.{ErrorCode, operation_canceled, unexpected_response, is_error}
use bkmail.Command.{Command}
use bkmail.Operation.{Operation, on_tagged}
use bkmail.Response.{
  ServerResponse, TaggedResponse, UntaggedResponse, tagged, untagged, continuation,
}
use bkmail.Lexer.{Frame, starving, unfinished, framed, next_frame}
use bkmail.Parser.{parse}
use bkmail.Context.Defs.{Context, Phase, UnsolicitedEvent, opened, draining, closed}
use bkmail.Context.Queue.{Queue, find, lookup, erase, remove}
use bkmail.Context.Teardown.{
  is_closed, maybe_finish_close, connection_lost, close, abandon, fail_cells,
}
use bkmail.Context.Submit.{
  submit, new_operation, enqueue_operation, push_operation, post_kick, post_complete_stopped,
  detach, detach_found, cancel_entry, cancel, run_stop, run_posted_stop,
}
use bkmail.Context.WritePump.{
  Flush, drain, latch, kick, run_kick, extracted, release, retire, arm, flush_staged, post_all,
  flushed, write_failed, write_succeeded, on_write_done,
}
use bkmail.Context.ReadPump.{
  complete_tagged, tagged_entry, notify, attribute_to, dispatch_untagged, make_unsolicited_event,
  unroute, is_bye, route_continuation, dispatch_tagged, dispatch_continuation, dispatch_one,
  dispatch_parsed, dispatch,
}
use bkmail.Context.Read.{
  consume, read_frame, read_loop, rearm, on_read, read_done, stop_reading, lost_reason,
}
use bkmail.Context.Run.{
  Event, submits, cancels, flushes, closes, abandons, kicks, arms, stops, writes_done, reads_done,
  step, run, initial,
}

-- The descriptor is open until the phase is `closed`, no pump has anything under way then, and a
-- write is latched before it is armed.
abbrev pub IsQuiet : Context → Type 0
IsQuiet c =
    (c.descriptor_open ≡ not (is_closed c.phase))
    × (not (is_closed c.phase) || (not c.read_running && not c.write_in_flight) ≡ true)
    × (not c.arming || c.write_in_flight ≡ true)

abbrev pub Preserves : (Context → Context) → Type 0
Preserves f = (c : Context) → IsQuiet c → IsQuiet (f c)

pub maybe_finish_close-IsQuiet : Preserves maybe_finish_close
unfolding maybe_finish_close
maybe_finish_close-IsQuiet c h = ground (arith, h)

pub connection_lost-IsQuiet : (ec : ErrorCode) → Preserves (connection_lost ec)
unfolding connection_lost maybe_finish_close fail_cells
connection_lost-IsQuiet ec c h = ground (arith, h)

pub close-IsQuiet : Preserves close
unfolding close maybe_finish_close fail_cells
close-IsQuiet c h = ground (arith, h)

pub abandon-IsQuiet : Preserves abandon
unfolding abandon maybe_finish_close
abandon-IsQuiet c h = ground (arith, h)

pub post_kick-IsQuiet : Preserves post_kick
unfolding post_kick
post_kick-IsQuiet c h = ground (arith, h)

pub run_stop-IsQuiet : (ops : Queue) → Preserves (run_stop ops)
unfolding run_stop
run_stop-IsQuiet [] c h = h
run_stop-IsQuiet (op ∷ ops) c h = h

pub detach-IsQuiet : (tag : Bytes) (found : Option Operation) → Preserves (detach_found tag found)
unfolding detach_found detach post_kick post_complete_stopped
detach-IsQuiet tag none c h = h
detach-IsQuiet tag (some op) c h = ground (arith, h)

pub cancel_entry-IsQuiet : (tag : Bytes) (entry : Option ℕ) → Preserves (cancel_entry tag entry)
unfolding cancel_entry
cancel_entry-IsQuiet tag none c h = h
cancel_entry-IsQuiet tag (some j) c h = detach-IsQuiet tag (find j c.write_queue) c h

pub cancel-IsQuiet : (tag : Bytes) → Preserves (cancel tag)
unfolding cancel
cancel-IsQuiet tag c h = ground (arith, cancel_entry-IsQuiet tag (lookup tag c.registry) c h, h)

pub submit-IsQuiet :
    (render : Bytes → Command) (callback_path stop_seen kick : Bool)
    → Preserves (submit render callback_path stop_seen kick)
unfolding submit enqueue_operation post_kick post_complete_stopped fail_cells push_operation
submit-IsQuiet render callback_path stop_seen kick c h = ground (arith, h)

pub kick-IsQuiet : Preserves kick
unfolding kick latch
kick-IsQuiet c h = ground (arith, h)

pub run_kick-IsQuiet : (ec : ErrorCode) → Preserves (run_kick ec)
unfolding run_kick
run_kick-IsQuiet ec c h = ground (arith, h, kick-IsQuiet (record c { kick_posted = false }) h)

pub retire-IsQuiet : (ec : ErrorCode) → Preserves (retire ec)
unfolding retire fail_cells
retire-IsQuiet ec c h = ground (arith, h)

pub arm-IsQuiet : Preserves arm
unfolding arm
arm-IsQuiet c h = ground (
  arith,
  h,
  maybe_finish_close-IsQuiet (retire operation_canceled c) (retire-IsQuiet operation_canceled c h),
)

pub post_all-IsQuiet : (ops : Queue) → Preserves (post_all ops)
unfolding post_all post_complete_stopped
post_all-IsQuiet [] c h = h
post_all-IsQuiet (op ∷ ops) c h = post_all-IsQuiet ops (post_complete_stopped op c) h
