-- ===== src/Context/WritePump.antt =====
-- include/bkmail/imap/detail/write_pump.h: the batching drain, the literal wall, and what the
-- completion of a write does. An allocation that fails is not modelled.
pub mod Batch
pub mod Parked
use bkmail.Prelude.{
  ℕ, Bool, true, false, not, ◌&&◌, ◌||◌, List, [], ◌∷◌, ◌++◌, Option, none, some, ◌==◌,
  if◌then◌else◌, Bytes, is_empty, map,
}
use bkmail.Error.{ErrorCode, is_error, operation_canceled}
use bkmail.Operation.{
  Operation, is_written, awaits_continuation, blocks_pipeline, next_segment, on_segment_staged,
  on_segment_flushed,
}
use bkmail.Context.Defs.{Context}
use bkmail.Context.Queue.{Queue, find, remove, update}
use bkmail.Context.Teardown.{is_open, fail_cells, connection_lost, maybe_finish_close, id_of}
use bkmail.Context.Submit.{post_complete_stopped}

-- What the loop over the queue has built.
pub record Drain : Type 0 where
  pub queue : Queue
  pub bytes : Bytes
  pub staged : List ℕ
  pub target : Option ℕ

abbrev pub keep_cell : Operation → Drain → Drain
keep_cell op d = record d { queue = op ∷ d.queue }

abbrev pub stage_cell : Operation → Drain → Drain
stage_cell op d = record d {
  queue = on_segment_staged op ∷ d.queue;
  bytes = next_segment op ++ d.bytes;
  staged = op.id ∷ d.staged;
}

-- The loop stops: nothing behind this point is staged.
abbrev pub wall : Option ℕ → Queue → Drain
wall target ops = record { queue = ops; bytes = []; staged = []; target = target }

-- Staged a cell that waits for a continuation, which becomes the target, or one that blocks.
unfoldable pub stage_next : Option ℕ → Operation → Queue → Drain → Drain
unfolding on_segment_staged next_segment awaits_continuation blocks_pipeline
stage_next target op ops rest =
    if awaits_continuation (on_segment_staged op)
    then stage_cell op (wall (some op.id) ops)
    else if blocks_pipeline op
    then stage_cell op (wall target ops)
    else stage_cell op rest

-- The loop of `kick`.
unfoldable pub drain : Option ℕ → Queue → Drain
unfolding stage_next is_written
drain target [] = wall target []
drain target (op ∷ ops) =
    let rest = drain target ops in
    if is_written op
    then keep_cell op rest
    else if is_empty (next_segment op)
    then if awaits_continuation op then wall target (op ∷ ops) else keep_cell op rest
    else stage_next target op ops rest

unfoldable pub latch : Drain → Context → Context
latch d c =
    let drained = record c {
      write_queue = d.queue;
      write_staging = d.bytes;
      continuation_target = d.target;
    } in
    if is_empty d.bytes
    then drained
    else record drained { write_in_flight = true; arming = true; staged = d.staged }

-- `kick` up to the latch; `arm` follows in a step of its own.
unfoldable pub kick : Context → Context
unfolding drain latch
kick c =
    if not (is_open c.phase) || c.write_in_flight
    then c
    else latch (drain c.continuation_target c.write_queue) c

-- The posted kick runs; a stopping scheduler completes it with an error.
unfoldable pub run_kick : ErrorCode → Context → Context
unfolding kick
run_kick ec c =
    let unposted = record c { kick_posted = false } in
    if is_error ec || c.abandoned then unposted else kick unposted

-- The staged cells that the queue still owns, and the queue without them.
abbrev pub cell_list : Option Operation → Queue
cell_list none = []
cell_list (some op) = op ∷ []

unfoldable pub extracted : List ℕ → Queue → Queue
unfolding find remove
extracted [] ops = []
extracted (i ∷ ids) ops = cell_list (find i ops) ++ extracted ids (remove i ops)

unfoldable pub without : List ℕ → Queue → Queue
unfolding remove
without [] ops = ops
without (i ∷ ids) ops = without ids (remove i ops)

-- The write is over, and the queue no longer owns what it staged.
abbrev pub release : Context → Context
release c = record c {
  write_queue = without c.staged c.write_queue;
  write_in_flight = false;
  arming = false;
  staged = [];
}

-- The staged cells are dropped if the shell is gone, and failed if not.
unfoldable pub retire : ErrorCode → Context → Context
unfolding extracted without fail_cells
retire ec c =
    let cells = extracted c.staged c.write_queue in
    if c.abandoned
    then record (release c) { dropped = c.dropped ++ map id_of cells }
    else fail_cells ec cells (release c)

-- `arm`: the write starts, or teardown won the race.
unfoldable pub arm : Context → Context
unfolding retire maybe_finish_close
arm c =
    if not c.arming
    then c
    else if not (is_open c.phase) || c.abandoned
    then maybe_finish_close (retire operation_canceled c)
    else record c { arming = false; writes = c.writes ++ c.write_staging ∷ [] }

-- The state of the flush loop: the queue, the target and the retired cells.
pub record Flush : Type 0 where
  pub queue : Queue
  pub target : Option ℕ
  pub retired : Queue

unfoldable pub flushed_cell : ℕ → Operation → Flush → Flush
unfolding on_segment_flushed awaits_continuation is_written
flushed_cell i op f =
    if awaits_continuation (on_segment_flushed op)
    then record f { queue = update i on_segment_flushed f.queue; target = some i }
    else if op.detached && is_written (on_segment_flushed op)
    then record f { queue = remove i f.queue; retired = f.retired ++ on_segment_flushed op ∷ [] }
    else record f { queue = update i on_segment_flushed f.queue }

-- A cell whose tagged reply came first is gone from the queue and is skipped.
unfoldable pub flush_found : ℕ → Option Operation → Flush → Flush
unfolding flushed_cell
flush_found i none f = f
flush_found i (some op) f = flushed_cell i op f

unfoldable pub flush_staged : List ℕ → Flush → Flush
unfolding flush_found find
flush_staged [] f = f
flush_staged (i ∷ ids) f = flush_staged ids (flush_found i (find i f.queue) f)

unfoldable pub post_all : Queue → Context → Context
unfolding post_complete_stopped
post_all [] c = c
post_all (op ∷ ops) c = post_all ops (post_complete_stopped op c)

unfoldable pub flushed : Flush → Context → Context
unfolding post_all
flushed f c = post_all f.retired (record c {
  write_queue = f.queue;
  continuation_target = f.target;
  write_in_flight = false;
  staged = [];
})

-- A write error is fatal to the connection: the rest of the queue fails before the staged cells do.
unfoldable pub write_failed : ErrorCode → Context → Context
unfolding retire connection_lost maybe_finish_close fail_cells
write_failed ec c =
    if c.abandoned
    then maybe_finish_close (retire ec c)
    else maybe_finish_close
        (fail_cells ec (extracted c.staged c.write_queue) (connection_lost ec (release c)))

unfoldable pub write_succeeded : Context → Context
unfolding retire maybe_finish_close flushed flush_staged kick
write_succeeded c =
    if c.abandoned || not (is_open c.phase)
    then maybe_finish_close (retire operation_canceled c)
    else kick (
        flushed
          (flush_staged c.staged
            (record { queue = c.write_queue; target = c.continuation_target; retired = [] }))
          c)

-- `on_write_done`, for a write that is armed.
unfoldable pub on_write_done : ErrorCode → Context → Context
unfolding write_failed write_succeeded
on_write_done ec c =
    if not c.write_in_flight || c.arming
    then c
    else if is_error ec
    then write_failed ec c
    else write_succeeded c
