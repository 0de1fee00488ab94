-- ===== src/Context/Read.antt =====
-- The loop of include/bkmail/imap/detail/read_pump.h: `on_read` with the frames that it takes out of
-- the buffer, and the receiver in front of it.
pub mod Ends
use bkmail.Prelude.{
  ℕ, zero, suc, Bool, true, false, not, ◌&&◌, ◌||◌, ◌++◌, if◌then◌else◌, Bytes, is_empty, length,
}
use bkmail.Error.{ErrorCode, is_error, server_bye, unexpected_response}
use bkmail.Lexer.{Frame, starving, unfinished, framed, next_frame}
use bkmail.Context.Defs.{Context}
use bkmail.Context.Teardown.{is_open, is_closed, connection_lost, maybe_finish_close}
use bkmail.Context.ReadPump.{dispatch}

-- `consume_response` follows the dispatch of every frame, a fatal one too.
unfoldable pub consume : (Context → Context × Bool) → Bytes → Context × Bool → Context × Bool
consume again rest (c, true) = again (record c { read_buffer = rest })
consume again rest (c, false) = (record c { read_buffer = rest }, false)

unfoldable pub read_frame : (Context → Context × Bool) → Frame → Context → Context × Bool
unfolding consume dispatch
read_frame again starving c = (c, true)
read_frame again (unfinished s) c = (record c { lexer = s }, true)
read_frame again (framed text rest s) c =
    consume again rest (dispatch text (record c { lexer = s }))

-- A frame takes at least its CRLF out of the buffer, so the length of the buffer bounds the rounds.
unfoldable pub read_loop : ℕ → Context → Context × Bool
unfolding read_frame next_frame
read_loop zero c = (c, true)
read_loop (suc fuel) c = read_frame (read_loop fuel) (next_frame c.lexer c.read_buffer) c

abbrev pub stop_reading : Context → Context
stop_reading c = record c { read_running = false }

-- A recorded BYE is the reason for the end of the connection, whatever the transport says.
unfoldable pub lost_reason : ErrorCode → Bool → ErrorCode
lost_reason ec bye = if bye then server_bye else if is_error ec then ec else unexpected_response

-- Re-arming keeps `read_running`; the pump winds down otherwise.
unfoldable pub rearm : Context × Bool → Context
unfolding maybe_finish_close
rearm (c, false) = maybe_finish_close (stop_reading c)
rearm (c, true) =
    if is_open c.phase && (not c.suspend_read && not c.abandoned)
    then c
    else maybe_finish_close (stop_reading c)

unfoldable pub on_read : ErrorCode → Bytes → Context → Context
unfolding connection_lost rearm read_loop lost_reason
on_read ec bytes c =
    if is_error ec || is_empty bytes
    then connection_lost (lost_reason ec c.bye_received) (stop_reading c)
    else rearm (
        read_loop (suc (length (c.read_buffer ++ bytes)))
          (record c { read_buffer = c.read_buffer ++ bytes }))

-- `read_receiver::set_value`, for a read that is armed, as one step. The source releases the mutex between two
-- frames and around the handlers, so that another thread's call can come in between there.
unfoldable pub read_done : ErrorCode → Bytes → Context → Context
unfolding on_read maybe_finish_close
read_done ec bytes c =
    if not c.read_running
    then c
    else if c.abandoned || is_closed c.phase
    then maybe_finish_close (stop_reading c)
    else on_read ec bytes c
