-- ===== src/Command/Idle.antt =====
-- include/bkmail/imap/command/idle_command.h: the IDLE state machine.
pub mod Order
use bkmail.Prelude.{Bool, true, false, [], ◌++◌, Bytes, codes, if◌then◌else◌}

pub data Phase : Type 0 where
  initial idle_sent idling done_pending done_sent finished : Phase

pub record IdleCommand : Type 0 where
  pub segment : Bytes
  pub phase : Phase
  pub segment_pending : Bool
  pub done_requested : Bool

abbrev pub new_idle : IdleCommand
new_idle = record { segment = []; phase = initial; segment_pending = false; done_requested = false }

abbrev pub done_line : Bytes
done_line = codes "DONE\r\n"

unfoldable pub queue_done : IdleCommand → IdleCommand
queue_done c = record c { segment = done_line; segment_pending = true; phase = done_pending }

abbrev if_idling : Phase → IdleCommand → IdleCommand → IdleCommand
if_idling idling yes_case no_case = yes_case
if_idling _ yes_case no_case = no_case

unfoldable pub done : IdleCommand → IdleCommand
unfolding queue_done
done c =
    let requested = record c { done_requested = true } in
    if_idling c.phase (queue_done requested) requested

unfoldable pub render : Bytes → IdleCommand → IdleCommand
render tag c = record c {
  segment = tag ++ codes " IDLE\r\n";
  phase = idle_sent;
  segment_pending = true;
}

unfoldable pub next_segment : IdleCommand → Bytes
next_segment c = if c.segment_pending then c.segment else []

abbrev is_idle_sent : Phase → Bool
is_idle_sent idle_sent = true
is_idle_sent _ = false

unfoldable pub awaits_continuation : IdleCommand → Bool
awaits_continuation c = is_idle_sent c.phase

abbrev flushed_phase : Phase → Phase
flushed_phase done_pending = done_sent
flushed_phase p = p

unfoldable pub on_segment_flushed : IdleCommand → IdleCommand
on_segment_flushed c = record c { segment_pending = false; phase = flushed_phase c.phase }

unfoldable pub on_continuation : IdleCommand → IdleCommand
unfolding queue_done
on_continuation c =
    let acknowledged = record c { phase = idling } in
    if is_idle_sent c.phase
    then if c.done_requested then queue_done acknowledged else acknowledged
    else c

unfoldable pub on_tagged : IdleCommand → IdleCommand
on_tagged c = record c { phase = finished }
