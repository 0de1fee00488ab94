-- ===== src/Context/Quiet/Pumps.antt =====
-- The close protocol across the completions of the two pumps, and over whole histories.
use bkmail.Prelude.{
  ℕ, zero, suc, ◌≡◌, refl, Bool, true, false, ◌||◌, List, [], ◌∷◌, ◌++◌, Option, none, some, Bytes,
  length, arith,
}
use bkmail.Error.{ErrorCode, operation_canceled, unexpected_response}
use bkmail.Operation.{Operation}
use bkmail.Response.{
  ServerResponse, TaggedResponse, UntaggedResponse, tagged, untagged, continuation,
}
use bkmail.Lexer.{Frame, starving, unfinished, framed, next_frame}
use bkmail.Parser.{parse}
use bkmail.Context.Defs.{Context, UnsolicitedEvent}
use bkmail.Context.Queue.{find, lookup, erase}
use bkmail.Context.Teardown.{connection_lost, fail_cells}
use bkmail.Context.Submit.{post_kick, run_posted_stop}
use bkmail.Context.WritePump.{
  Flush, kick, extracted, release, retire, flush_staged, flushed, write_failed, write_succeeded,
  on_write_done,
}
use bkmail.Context.ReadPump.{
  complete_tagged, tagged_entry, notify, attribute_to, dispatch_untagged, make_unsolicited_event,
  unroute, is_bye, route_continuation, dispatch_tagged, dispatch_continuation, dispatch_one,
  dispatch_parsed, dispatch,
}
use bkmail.Context.Read.{
  consume, read_frame, read_loop, rearm, on_read, read_done, stop_reading, lost_reason,
}
use bkmail.Context.Run.{
  Event, submits, cancels, flushes, closes, abandons, kicks, arms, stops, writes_done, reads_done,
  step, run, initial,
}
use bkmail.Context.Quiet.{
  IsQuiet, Preserves, maybe_finish_close-IsQuiet, connection_lost-IsQuiet, close-IsQuiet,
  abandon-IsQuiet, post_kick-IsQuiet, run_stop-IsQuiet, cancel-IsQuiet, submit-IsQuiet,
  kick-IsQuiet, run_kick-IsQuiet, retire-IsQuiet, arm-IsQuiet, post_all-IsQuiet,
}

flushed-IsQuiet : (f : Flush) → (c : Context) → c.arming ≡ false → IsQuiet c → IsQuiet (flushed f c)
unfolding flushed
flushed-IsQuiet f c a h =
    post_all-IsQuiet f.retired
      (record c {
        write_queue = f.queue;
        continuation_target = f.target;
        write_in_flight = false;
        staged = [];
      })
      (ground (arith, h))

write_failed-IsQuiet : (ec : ErrorCode) → Preserves (write_failed ec)
unfolding write_failed fail_cells
write_failed-IsQuiet ec c h =
    let lost = fail_cells ec (extracted c.staged c.write_queue) (connection_lost ec (release c)) in
    let released : IsQuiet (release c) = ground (arith, h) in
    let lost_quiet : IsQuiet lost = connection_lost-IsQuiet ec (release c) released in
    ground (
      arith,
      h,
      maybe_finish_close-IsQuiet (retire ec c) (retire-IsQuiet ec c h),
      maybe_finish_close-IsQuiet lost lost_quiet,
    )

write_succeeded-IsQuiet : (c : Context) → c.arming ≡ false → IsQuiet c → IsQuiet (write_succeeded c)
unfolding write_succeeded
write_succeeded-IsQuiet c a h =
    let f =
      flush_staged c.staged
        (record { queue = c.write_queue; target = c.continuation_target; retired = [] }) in
    ground (
      arith,
      maybe_finish_close-IsQuiet (retire operation_canceled c)
          (retire-IsQuiet operation_canceled c h),
      kick-IsQuiet (flushed f c) (flushed-IsQuiet f c a h),
    )

on_write_done-IsQuiet : (ec : ErrorCode) → Preserves (on_write_done ec)
unfolding on_write_done
on_write_done-IsQuiet ec c h =
    ground (
      arith,
      h,
      write_failed-IsQuiet ec c h,
      λ (a : c.arming ≡ false). write_succeeded-IsQuiet c a h,
    )

complete_tagged-IsQuiet :
    (r : TaggedResponse) (found : Option Operation) (c : Context)
    → IsQuiet c
    → IsQuiet (complete_tagged r found c).0
unfolding complete_tagged
complete_tagged-IsQuiet r none c h = connection_lost-IsQuiet unexpected_response c h
complete_tagged-IsQuiet r (some op) c h = h

tagged_entry-IsQuiet :
    (r : TaggedResponse) (entry : Option ℕ) (c : Context)
    → IsQuiet c
    → IsQuiet (tagged_entry r entry c).0
unfolding tagged_entry
tagged_entry-IsQuiet r none c h = h
tagged_entry-IsQuiet r (some j) c h =
    complete_tagged-IsQuiet r (find j c.write_queue)
      (record c {
        registry = erase r.tag c.registry;
        continuation_target = unroute c.continuation_target j;
      })
      h

notify-IsQuiet : (e : Option UnsolicitedEvent) → Preserves (notify e)
unfolding notify
notify-IsQuiet none c h = h
notify-IsQuiet (some e) c h = h

dispatch_untagged-IsQuiet : (r : UntaggedResponse) → Preserves (dispatch_untagged r)
unfolding dispatch_untagged attribute_to
dispatch_untagged-IsQuiet r c h =
    notify-IsQuiet (make_unsolicited_event r)
      (record c { bye_received = c.bye_received || is_bye r.kind }) h

route_continuation-IsQuiet :
    (target : Option ℕ) (c : Context) → IsQuiet c → IsQuiet (route_continuation target c).0
unfolding route_continuation post_kick
route_continuation-IsQuiet none c h = connection_lost-IsQuiet unexpected_response c h
route_continuation-IsQuiet (some j) c h = ground (arith, h)

dispatch_parsed-IsQuiet :
    (parsed : Option ServerResponse) (c : Context)
    → IsQuiet c
    → IsQuiet (dispatch_parsed parsed c).0
unfolding dispatch_parsed dispatch_one dispatch_tagged dispatch_continuation
dispatch_parsed-IsQuiet none c h = connection_lost-IsQuiet unexpected_response c h
dispatch_parsed-IsQuiet (some (tagged r)) c h = tagged_entry-IsQuiet r (lookup r.tag c.registry) c h
dispatch_parsed-IsQuiet (some (untagged r)) c h = dispatch_untagged-IsQuiet r c h
dispatch_parsed-IsQuiet (some (continuation r)) c h =
    route_continuation-IsQuiet c.continuation_target c h

consume-IsQuiet :
    (again : Context → Context × Bool) (rest : Bytes) (r : Context × Bool)
    → ((c : Context) → IsQuiet c → IsQuiet (again c).0)
    → IsQuiet r.0
    → IsQuiet (consume again rest r).0
unfolding consume
consume-IsQuiet again rest (c, true) k h = k (record c { read_buffer = rest }) h
consume-IsQuiet again rest (c, false) k h = h

read_frame-IsQuiet :
    (again : Context → Context × Bool) (f : Frame) (c : Context)
    → ((c : Context) → IsQuiet c → IsQuiet (again c).0)
    → IsQuiet c
    → IsQuiet (read_frame again f c).0
unfolding read_frame dispatch
read_frame-IsQuiet again starving c k h = h
read_frame-IsQuiet again (unfinished s) c k h = h
read_frame-IsQuiet again (framed text rest s) c k h =
    consume-IsQuiet again rest (dispatch text (record c { lexer = s })) k
      (dispatch_parsed-IsQuiet (parse text) (record c { lexer = s }) h)

read_loop-IsQuiet : (fuel : ℕ) (c : Context) → IsQuiet c → IsQuiet (read_loop fuel c).0
unfolding read_loop
read_loop-IsQuiet zero c h = h
read_loop-IsQuiet (suc fuel) c h =
    read_frame-IsQuiet (read_loop fuel) (next_frame c.lexer c.read_buffer) c
      (read_loop-IsQuiet fuel) h

stop_reading-IsQuiet : Preserves stop_reading
stop_reading-IsQuiet c h = ground (arith, h)

rearm-IsQuiet : (r : Context × Bool) → IsQuiet r.0 → IsQuiet (rearm r)
unfolding rearm
rearm-IsQuiet (c, false) h = maybe_finish_close-IsQuiet (stop_reading c) (stop_reading-IsQuiet c h)
rearm-IsQuiet (c, true) h =
    ground (arith, h, maybe_finish_close-IsQuiet (stop_reading c) (stop_reading-IsQuiet c h))

on_read-IsQuiet : (ec : ErrorCode) (bytes : Bytes) → Preserves (on_read ec bytes)
unfolding on_read
on_read-IsQuiet ec bytes c h =
    let filled = record c { read_buffer = c.read_buffer ++ bytes } in
    let fuel = suc (length (c.read_buffer ++ bytes)) in
    ground (
      arith,
      connection_lost-IsQuiet (lost_reason ec c.bye_received) (stop_reading c)
          (stop_reading-IsQuiet c h),
      rearm-IsQuiet (read_loop fuel filled) (read_loop-IsQuiet fuel filled h),
    )

read_done-IsQuiet : (ec : ErrorCode) (bytes : Bytes) → Preserves (read_done ec bytes)
unfolding read_done
read_done-IsQuiet ec bytes c h = ground (
  arith,
  h,
  on_read-IsQuiet ec bytes c h,
  maybe_finish_close-IsQuiet (stop_reading c) (stop_reading-IsQuiet c h),
)

step-IsQuiet : (e : Event) → Preserves (step e)
unfolding step run_posted_stop
step-IsQuiet (submits render callback_path stop_seen kick) c h =
    submit-IsQuiet render callback_path stop_seen kick c h
step-IsQuiet (cancels tag) c h = cancel-IsQuiet tag c h
step-IsQuiet flushes c h = post_kick-IsQuiet c h
step-IsQuiet closes c h = close-IsQuiet c h
step-IsQuiet abandons c h = abandon-IsQuiet c h
step-IsQuiet (kicks ec) c h = run_kick-IsQuiet ec c h
step-IsQuiet arms c h = arm-IsQuiet c h
step-IsQuiet stops c h = run_stop-IsQuiet c.posted_stops c h
step-IsQuiet (writes_done ec) c h = on_write_done-IsQuiet ec c h
step-IsQuiet (reads_done ec bytes) c h = read_done-IsQuiet ec bytes c h

run_from-IsQuiet : (es : List Event) → Preserves (run es)
unfolding run
run_from-IsQuiet [] c h = h
run_from-IsQuiet (e ∷ es) c h = run_from-IsQuiet es (step e c) (step-IsQuiet e c h)

-- After any history of a new context the descriptor is open exactly until the phase is `closed`, and
-- in that phase no read and no write is under way: the close protocol never closes the descriptor
-- under a pump. A write that is latched but not armed counts as under way.
pub run-IsQuiet : (es : List Event) → IsQuiet (run es initial)
run-IsQuiet es = run_from-IsQuiet es initial (refl, refl, refl)
