-- ===== src/Command.antt =====
-- The commands as the write and read pumps drive them: `Segmented` for the commands that render
-- their whole text at once, cut at literals, and `Idle` for IDLE. What a command makes of the
-- untagged lines that reach it is left to its result parser; the cell keeps those lines in order.
pub mod Segmented
pub mod Idle
use bkmail.Prelude.{Bool, true, false, Bytes}
use bkmail.Response.{UntaggedKind}
use Segmented.{SegmentedCommand}
use Segmented
use Idle.{IdleCommand}
use Idle

pub data Command : Type 0 where
  segmented : SegmentedCommand → Command
  idle : IdleCommand → Command

abbrev pub next_segment : Command → Bytes
next_segment (segmented c) = Segmented.next_segment c
next_segment (idle c) = Idle.next_segment c

abbrev pub awaits_continuation : Command → Bool
awaits_continuation (segmented c) = Segmented.awaits_continuation c
awaits_continuation (idle c) = Idle.awaits_continuation c

-- IDLE has no `blocks_pipeline`: the default is false.
abbrev pub blocks_pipeline : Command → Bool
blocks_pipeline (segmented c) = c.blocks
blocks_pipeline (idle c) = false

abbrev pub wants_untagged : UntaggedKind → Command → Bool
wants_untagged kind (segmented c) = c.wants kind
wants_untagged kind (idle c) = false

abbrev pub on_segment_flushed : Command → Command
on_segment_flushed (segmented c) = segmented (Segmented.on_segment_flushed c)
on_segment_flushed (idle c) = idle (Idle.on_segment_flushed c)

abbrev pub on_continuation : Command → Command
on_continuation (segmented c) = segmented (Segmented.on_continuation c)
on_continuation (idle c) = idle (Idle.on_continuation c)

-- Only IDLE has `done`.
abbrev pub has_done : Command → Bool
has_done (segmented c) = false
has_done (idle c) = true

abbrev pub done : Command → Command
done (segmented c) = segmented c
done (idle c) = idle (Idle.done c)
