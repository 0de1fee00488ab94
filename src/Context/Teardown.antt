-- ===== src/Context/Teardown.antt =====
-- The teardown paths of imap_context.h: `connection_lost`, `close`, `abandon` and
-- `maybe_finish_close`.
use bkmail.Prelude.{ℕ, Bool, true, false, not, ◌&&◌, ◌||◌, [], ◌++◌, none, if◌then◌else◌, map}
use bkmail.Error.{ErrorCode, operation_canceled}
use bkmail.Operation.{Operation, Completion, fail, is_written}
use bkmail.Context.Defs.{Context, Phase, opened, draining, closed}
use bkmail.Context.Queue.{Queue, taken, kept, erase_all}

abbrev pub is_open : Phase → Bool
is_open opened = true
is_open _ = false

abbrev pub is_closed : Phase → Bool
is_closed closed = true
is_closed _ = false

abbrev pub is_draining : Phase → Bool
is_draining draining = true
is_draining _ = false

abbrev pub failed_with : ErrorCode → Operation → ℕ × Completion
failed_with ec op = (op.id, fail ec op)

-- Each cell of the list is failed, in order.
unfoldable pub fail_cells : ErrorCode → Queue → Context → Context
fail_cells ec cells c = record c { completions = c.completions ++ map (failed_with ec) cells }

-- The descriptor is closed once draining and both pumps are quiet.
unfoldable pub maybe_finish_close : Context → Context
maybe_finish_close c =
    if is_draining c.phase && (not c.read_running && not c.write_in_flight)
    then record c { descriptor_open = false; phase = closed }
    else c

abbrev pub not_staged : Operation → Bool
not_staged op = not op.segment_staged

-- Fails every cell that the in-flight write does not reference.
unfoldable pub connection_lost : ErrorCode → Context → Context
unfolding maybe_finish_close fail_cells
connection_lost ec c =
    if is_closed c.phase
    then c
    else maybe_finish_close (
        fail_cells ec (taken not_staged c.write_queue) (record c {
          phase = draining;
          write_queue = kept not_staged c.write_queue;
          registry = [];
          continuation_target = none;
          read_shut = c.read_shut || c.read_running;
        }))

abbrev pub never_written : Operation → Bool
never_written op = not (is_written op) && not op.segment_staged

unfoldable pub close : Context → Context
unfolding maybe_finish_close fail_cells
close c =
    if not (is_open c.phase)
    then c
    else maybe_finish_close (
        fail_cells operation_canceled (taken never_written c.write_queue) (record c {
          phase = draining;
          read_shut = true;
          continuation_target = none;
          write_queue = kept never_written c.write_queue;
          registry = erase_all (taken never_written c.write_queue) c.registry;
        }))

abbrev pub id_of : Operation → ℕ
id_of op = op.id

-- The shell is gone: the cells are dropped, and no handler is invoked.
unfoldable pub abandon : Context → Context
unfolding maybe_finish_close
abandon c =
    if is_closed c.phase
    then c
    else maybe_finish_close (record c {
      phase = draining;
      abandoned = true;
      read_shut = true;
      continuation_target = none;
      registry = [];
      write_queue = kept not_staged c.write_queue;
      dropped = c.dropped ++ map id_of (taken not_staged c.write_queue);
    })
