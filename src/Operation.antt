-- ===== src/Operation.antt =====
-- include/bkmail/imap/operation_base.h: `operation_model`, the cell that owns a command and its
-- completion target. A cell's address is its number. The three terminal deliveries return what the
-- target is told; a delivered cell is destroyed, which is where `finished_` would be read.
use bkmail.Prelude.{
  ℕ, Bool, true, false, not, ◌&&◌, List, [], ◌∷◌, ◌++◌, Bytes, is_empty, if◌then◌else◌,
}
use bkmail.Error.{ErrorCode, map_status_to_ec}
use bkmail.Response.{ResponseStatus, UntaggedKind, UntaggedResponse}
use bkmail.Command.{Command}
use bkmail.Command

pub record Operation : Type 0 where
  pub id : ℕ
  pub tag : Bytes
  pub command : Command
  pub callback_path : Bool
  pub segment_staged : Bool
  pub has_written : Bool
  pub detached : Bool
  pub stopped : Bool
  pub stop_seen : Bool
  pub absorbed : List UntaggedResponse

-- What the handler or receiver is told: a value, a stop, or nothing, since a withdrawn callback is
-- never invoked.
pub data Completion : Type 0 where
  value : ErrorCode → Completion
  stop_signal withdrawn : Completion

unfoldable pub next_segment : Operation → Bytes
next_segment op = if op.segment_staged then [] else Command.next_segment op.command

unfoldable pub awaits_continuation : Operation → Bool
awaits_continuation op = Command.awaits_continuation op.command

unfoldable pub blocks_pipeline : Operation → Bool
blocks_pipeline op = Command.blocks_pipeline op.command

unfoldable pub on_segment_staged : Operation → Operation
on_segment_staged op = record op { segment_staged = true }

unfoldable pub on_segment_flushed : Operation → Operation
on_segment_flushed op = record op {
  segment_staged = false;
  has_written = true;
  command = Command.on_segment_flushed op.command;
}

unfoldable pub is_written : Operation → Bool
is_written op =
    not op.segment_staged
    && not (Command.awaits_continuation op.command)
    && is_empty (Command.next_segment op.command)

unfoldable pub on_continuation : Operation → Operation
on_continuation op = record op { command = Command.on_continuation op.command }

unfoldable pub on_untagged : UntaggedResponse → Operation → Operation
on_untagged r op = record op { absorbed = op.absorbed ++ r ∷ [] }

unfoldable pub wants_untagged : UntaggedKind → Operation → Bool
wants_untagged kind op = Command.wants_untagged kind op.command

unfoldable pub deliver_stopped : Operation → Completion
deliver_stopped op = if op.callback_path then withdrawn else stop_signal

unfoldable pub on_tagged : ResponseStatus → Operation → Completion
unfolding deliver_stopped
on_tagged status op = if op.stopped then deliver_stopped op else value (map_status_to_ec status)

unfoldable pub fail : ErrorCode → Operation → Completion
fail ec op = value ec

-- IDLE queues DONE and stays; any other command declines.
unfoldable pub cancel_written : Operation → Operation
cancel_written op =
    if Command.has_done op.command
    then record op { command = Command.done op.command; stopped = true }
    else op

unfoldable pub mark_detached : Operation → Operation
mark_detached op = record op { detached = true }
