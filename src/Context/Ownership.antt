-- ===== src/Context/Ownership.antt =====
-- The places where a cell of context_core can be (include/bkmail/imap/imap_context.h), and how often the
-- operations of the context leave it there.
pub mod Writes
pub mod Reads
pub mod Once
use bkmail.Prelude.{
  ℕ, zero, suc, ◌+◌, ◌≡◌, refl, Bool, true, false, List, [], ◌∷◌, ◌++◌, Option, none, some, arith,
  ◌==◌, if◌then◌else◌, Bool-cases, inl, inr, map, ltb, Option-cases, Bytes, ap, ◌∙◌,
}
use bkmail.Error.{ErrorCode, operation_canceled, server_bye}
use bkmail.Operation.{
  Operation, Completion, on_segment_staged, on_segment_flushed, cancel_written, mark_detached,
  deliver_stopped, on_continuation, on_untagged,
}
use bkmail.Command.{Command}
use bkmail.Context.Defs.{Context, Phase, UnsolicitedEvent}
use bkmail.Context.Queue.{Queue, Registry, find, remove, update, taken, kept, lookup}
use bkmail.Context.Teardown.{
  fail_cells, maybe_finish_close, connection_lost, close, abandon, not_staged, never_written,
  failed_with, id_of,
}
use bkmail.Context.Submit.{
  submit, new_operation, enqueue_operation, push_operation, post_kick, post_complete_stopped,
  detach, detach_found, cancel_entry, cancel, run_stop, run_posted_stop,
}
use bkmail.Context.Count.{
  one_if, count, count_ids, count_told, count-append, count_ids-append, count_told-append,
  count_told-failed, count_ids-map, count-taken-kept, find_id, count-remove, remove-none,
  count-update,
}

-- The places where a cell can be: the queue, a posted stop, a delivery, or dropped with the shell.
abbrev pub owned : ℕ → Context → ℕ
owned i c =
    count i c.write_queue
    + count i c.posted_stops
    + count_told i c.completions
    + count_ids i c.dropped

-- Every cell is as often owned as before, and none was made.
abbrev pub Keeps : ℕ → Context → Context → Type 0
Keeps i c c' = (owned i c' ≡ owned i c) × (c'.next_id ≡ c.next_id)

module _ (i : ℕ) where
  pub maybe_finish_close-Keeps : (c : Context) → Keeps i c (maybe_finish_close c)
  unfolding maybe_finish_close
  maybe_finish_close-Keeps c = ground arith

  pub connection_lost-Keeps : (ec : ErrorCode) (c : Context) → Keeps i c (connection_lost ec c)
  unfolding connection_lost maybe_finish_close fail_cells
  connection_lost-Keeps ec c = ground (
    arith,
    count-taken-kept i not_staged c.write_queue,
    count_told-append i c.completions (map (failed_with ec) (taken not_staged c.write_queue)),
    count_told-failed i ec (taken not_staged c.write_queue),
  )

  pub close-Keeps : (c : Context) → Keeps i c (close c)
  unfolding close maybe_finish_close fail_cells
  close-Keeps c = ground (
    arith,
    count-taken-kept i never_written c.write_queue,
    count_told-append i c.completions
        (map (failed_with operation_canceled) (taken never_written c.write_queue)),
    count_told-failed i operation_canceled (taken never_written c.write_queue),
  )

  pub abandon-Keeps : (c : Context) → Keeps i c (abandon c)
  unfolding abandon maybe_finish_close
  abandon-Keeps c = ground (
    arith,
    count-taken-kept i not_staged c.write_queue,
    count_ids-append i c.dropped (map id_of (taken not_staged c.write_queue)),
    count_ids-map i (taken not_staged c.write_queue),
  )

  run_stop-Keeps : (ops : Queue) (c : Context) → c.posted_stops ≡ ops → Keeps i c (run_stop ops c)
  unfolding run_stop
  run_stop-Keeps [] c e = (refl, refl)
  run_stop-Keeps (op ∷ ops) c e =
      ground (arith, count_told-append i c.completions ((op.id, deliver_stopped op) ∷ []))

  pub run_posted_stop-Keeps : (c : Context) → Keeps i c (run_posted_stop c)
  unfolding run_posted_stop
  run_posted_stop-Keeps c = run_stop-Keeps c.posted_stops c refl

  cancel_written_id : (op : Operation) → (cancel_written op).id ≡ op.id
  unfolding cancel_written
  cancel_written_id op = ground arith

  pub post_kick-Keeps : (c : Context) → Keeps i c (post_kick c)
  unfolding post_kick
  post_kick-Keeps c = ground arith

  detach-Keeps :
      (tag : Bytes) (op : Operation) (c : Context)
      → find op.id c.write_queue ≡ some op
      → Keeps i c (detach tag op c)
  unfolding detach post_kick post_complete_stopped mark_detached
  detach-Keeps tag op c e = ground (
    arith,
    count-remove i op.id c.write_queue {op = op} e,
    count-append i c.posted_stops (op ∷ []),
    count-update i op.id cancel_written c.write_queue cancel_written_id,
    count-update i op.id mark_detached c.write_queue (λ op. refl),
  )

  detach_found-Keeps :
      (tag : Bytes) (j : ℕ) (found : Option Operation) (c : Context)
      → find j c.write_queue ≡ found
      → Keeps i c (detach_found tag found c)
  unfolding detach_found
  detach_found-Keeps tag j none c e = (refl, refl)
  detach_found-Keeps tag j (some op) c e =
      detach-Keeps tag op c
        (ap (λ k. find k c.write_queue) (find_id j c.write_queue {op = op} e) ∙ e)

  cancel_entry-Keeps :
      (tag : Bytes) (entry : Option ℕ) (c : Context) → Keeps i c (cancel_entry tag entry c)
  unfolding cancel_entry
  cancel_entry-Keeps tag none c = (refl, refl)
  cancel_entry-Keeps tag (some j) c = detach_found-Keeps tag j (find j c.write_queue) c refl

  pub cancel-Keeps : (tag : Bytes) (c : Context) → Keeps i c (cancel tag c)
  unfolding cancel
  cancel-Keeps tag c = ground (arith, cancel_entry-Keeps tag (lookup tag c.registry) c)

  enqueue-count :
      (op : Operation) (kick : Bool) (c : Context)
      → (owned i (enqueue_operation op kick c) ≡ one_if (op.id == i) + owned i c)
        × ((enqueue_operation op kick c).next_id ≡ c.next_id)
  unfolding enqueue_operation post_kick post_complete_stopped fail_cells push_operation
  enqueue-count op kick c = ground (
    arith,
    count-append i c.write_queue (op ∷ []),
    count-append i c.posted_stops (record op { stop_seen = false } ∷ []),
    count_told-append i c.completions (failed_with server_bye op ∷ []),
    count_told-append i c.completions (failed_with operation_canceled op ∷ []),
  )

  -- A submission makes one cell, with the next number.
  pub submit-count :
      (render : Bytes → Command) (callback_path stop_seen kick : Bool) (c : Context)
      → (owned i (submit render callback_path stop_seen kick c)
          ≡ one_if (c.next_id == i) + owned i c)
        × ((submit render callback_path stop_seen kick c).next_id ≡ c.next_id + 1)
  unfolding submit new_operation
  submit-count render callback_path stop_seen kick c =
      enqueue-count (new_operation render callback_path stop_seen c) kick
        (record c { tag_counter = c.tag_counter + 1; next_id = c.next_id + 1 })
