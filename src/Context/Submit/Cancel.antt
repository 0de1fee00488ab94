-- ===== src/Context/Submit/Cancel.antt =====
-- What `cancel` does with a cell, by how far its command went.
use bkmail.Prelude.{ℕ, ◌≡◌, true, false, [], ◌∷◌, ◌++◌, ◌⊎◌, Option, none, some, Bytes, arith}
use bkmail.Operation.{Operation, is_written, next_segment, mark_detached, on_segment_staged}
use bkmail.Command.{has_done}
use bkmail.Context.Defs.{Context}
use bkmail.Context.Queue.{Queue, find, remove, update, lookup, erase}
use bkmail.Context.Teardown.{is_open}
use bkmail.Context.Submit.{
  cancel, cancel_entry, detach_found, detach, is_unseen, post_complete_stopped,
}

-- Cancelling an operation of which nothing was staged, and which has no literal, takes it out of the
-- queue and the registry and posts its stop; one that is fully written is treated the same way.
pub cancel_extracts :
    (tag : Bytes) (op : Operation) (c : Context)
    → is_open c.phase ≡ true
    → lookup tag c.registry ≡ some op.id
    → find op.id c.write_queue ≡ some op
    → has_done op.command ≡ false
    → (is_unseen op ≡ true) ⊎ (is_written op ≡ true)
    → cancel tag c ≡ record c {
      write_queue = remove op.id c.write_queue;
      registry = erase tag c.registry;
      posted_stops = c.posted_stops ++ op ∷ [];
    }
unfolding cancel cancel_entry detach_found detach post_complete_stopped
cancel_extracts tag op c o l f d s = ground arith

abbrev left_behind : Bytes → Operation → Context → Context
left_behind tag op c = record c {
  write_queue = update op.id mark_detached c.write_queue;
  registry = erase tag c.registry;
}

abbrev pub id_at : Queue → Option ℕ
id_at [] = none
id_at (op ∷ ops) = some op.id

-- The context in which that segment is about to be written.
abbrev staged_first : Operation → Queue → Context → Context
staged_first op ops c = record c {
  kick_posted = false;
  write_queue = on_segment_staged (mark_detached op) ∷ ops;
  write_staging = next_segment op;
  continuation_target = some op.id;
  write_in_flight = true;
  arming = true;
  staged = op.id ∷ [];
}
