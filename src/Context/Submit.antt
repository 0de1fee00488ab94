-- ===== src/Context/Submit.antt =====
-- Submission and cancellation of imap_context.h.
pub mod Cancel
pub mod Tag
use bkmail.Prelude.{
  ℕ, suc, ◌+◌, ◌-◌, Bool, true, false, not, ◌&&◌, ◌||◌, List, [], ◌∷◌, ◌++◌, Option, none, some,
  ◌==◌, ltb, if◌then◌else◌, Bytes, length,
}
use bkmail.Astring.Decimal.{to_chars}
use bkmail.Error.{operation_canceled, server_bye}
use bkmail.Operation.{
  Operation, is_written, awaits_continuation, cancel_written, mark_detached, deliver_stopped,
}
use bkmail.Operation
use bkmail.Command.{Command, has_done}
use bkmail.Context.Defs.{Context}
use bkmail.Context.Queue.{Queue, find, remove, update, lookup, erase}
use bkmail.Context.Teardown.{is_open, fail_cells}

abbrev pub zeros : ℕ → Bytes
zeros ℕ.zero = []
zeros (suc n) = b'0' ∷ zeros n

-- `a` and the counter in at least four digits.
unfoldable pub tag_of : ℕ → Bytes
tag_of value = let digits = to_chars value in b'a' ∷ (zeros (4 - length digits) ++ digits)

-- `attach`: the sink is the context, and the command is rendered with the tag before.
unfoldable pub new_operation : (Bytes → Command) → Bool → Bool → Context → Operation
unfolding tag_of
new_operation render callback_path stop_seen c = record {
  id = c.next_id;
  tag = tag_of c.tag_counter;
  command = render (tag_of c.tag_counter);
  callback_path = callback_path;
  segment_staged = false;
  has_written = false;
  detached = false;
  stopped = false;
  stop_seen = stop_seen;
  absorbed = [];
}

-- A kick is posted only if none is outstanding.
unfoldable pub post_kick : Context → Context
post_kick c =
    if not (is_open c.phase) || (c.write_in_flight || (c.kick_posted || no_work c.write_queue))
    then c
    else record c { kick_posted = true }
  where
    no_work : Queue → Bool
    no_work [] = true
    no_work (op ∷ ops) = false

unfoldable pub post_complete_stopped : Operation → Context → Context
post_complete_stopped op c = record c { posted_stops = c.posted_stops ++ op ∷ [] }

unfoldable pub push_operation : Operation → Context → Context
push_operation op c = record c {
  write_queue = c.write_queue ++ op ∷ [];
  registry = (op.tag, op.id) ∷ c.registry;
}

-- The cell is pushed before its stop request is looked at; a stopped one is taken out again.
unfoldable pub enqueue_operation : Operation → Bool → Context → Context
unfolding post_kick post_complete_stopped fail_cells push_operation
enqueue_operation op kick c =
    if is_open c.phase
    then if op.stop_seen
      then post_complete_stopped (record op { stop_seen = false }) c
      else (if kick then post_kick (push_operation op c) else push_operation op c)
    else fail_cells (if c.bye_received then server_bye else operation_canceled) (op ∷ []) c

-- The callback path (no kick) and the sender path (`start_operation`, with one).
unfoldable pub submit : (Bytes → Command) → Bool → Bool → Bool → Context → Context
unfolding new_operation enqueue_operation
submit render callback_path stop_seen kick c =
    enqueue_operation (new_operation render callback_path stop_seen c) kick
      (record c { tag_counter = c.tag_counter + 1; next_id = c.next_id + 1 })

-- Never staged: the server never saw the command.
abbrev pub is_unseen : Operation → Bool
is_unseen op =
    not op.has_written
    && (not (is_written op) && (not op.segment_staged && not (awaits_continuation op)))

-- `detach_locked` and `finish_cancellation` on the cell behind a registry entry.
unfoldable pub detach : Bytes → Operation → Context → Context
unfolding post_kick post_complete_stopped
detach tag op c =
    let extracted =
      post_complete_stopped op
        (record c { write_queue = remove op.id c.write_queue; registry = erase tag c.registry }) in
    if is_unseen op
    then extracted
    else if has_done op.command
    then post_kick (record c { write_queue = update op.id cancel_written c.write_queue })
    else if is_written op
    then extracted
    else record c {
      write_queue = update op.id mark_detached c.write_queue;
      registry = erase tag c.registry;
    }

unfoldable pub detach_found : Bytes → Option Operation → Context → Context
unfolding detach
detach_found tag none c = c
detach_found tag (some op) c = detach tag op c

unfoldable pub cancel_entry : Bytes → Option ℕ → Context → Context
unfolding detach_found
cancel_entry tag none c = c
cancel_entry tag (some i) c = detach_found tag (find i c.write_queue) c

-- `cancel`; `on_stop_requested` is the same for the tag of its operation.
unfoldable pub cancel : Bytes → Context → Context
unfolding cancel_entry
cancel tag c = if is_open c.phase then cancel_entry tag (lookup tag c.registry) c else c

unfoldable pub run_stop : List Operation → Context → Context
run_stop [] c = c
run_stop (op ∷ ops) c = record c {
  posted_stops = ops;
  completions = c.completions ++ (op.id, deliver_stopped op) ∷ [];
}

-- The scheduler completes the oldest posted cell.
unfoldable pub run_posted_stop : Context → Context
unfolding run_stop
run_posted_stop c = run_stop c.posted_stops c
