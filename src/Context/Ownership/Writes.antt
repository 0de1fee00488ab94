-- ===== src/Context/Ownership/Writes.antt =====
-- The places of the cells across include/bkmail/imap/detail/write_pump.h.
use bkmail.Prelude.{
  ℕ, ◌+◌, ◌≡◌, refl, false, List, [], ◌∷◌, ◌++◌, Option, none, some, arith, map, ap, sym, ◌∙◌,
}
use bkmail.Error.{ErrorCode, operation_canceled}
use bkmail.Operation.{Operation, on_segment_staged, on_segment_flushed, is_written, next_segment}
use bkmail.Context.Defs.{Context}
use bkmail.Context.Queue.{Queue, find, remove}
use bkmail.Context.Teardown.{fail_cells, connection_lost, failed_with, id_of}
use bkmail.Context.Submit.{post_complete_stopped}
use bkmail.Context.WritePump.{
  Flush, stage_next, drain, latch, kick, run_kick, cell_list, extracted, without, release, retire,
  arm, flushed_cell, flush_found, flush_staged, post_all, flushed, write_failed, write_succeeded,
  on_write_done,
}
use bkmail.Context.ReadPump.{}
use bkmail.Context.Count.{
  count, count-append, count_ids-append, count_told-append, count_told-failed, count_ids-map,
  find_id, count-remove, remove-none, count-update,
}
use bkmail.Context.Ownership.{owned, Keeps, maybe_finish_close-Keeps, connection_lost-Keeps}

module _ (i : ℕ) where
  drain-count : (target : Option ℕ) (ops : Queue) → count i (drain target ops).queue ≡ count i ops
  unfolding drain stage_next is_written next_segment on_segment_staged
  drain-count target [] = refl
  drain-count target (op ∷ ops) = ground (arith, drain-count target ops)

  pub kick-Keeps : (c : Context) → Keeps i c (kick c)
  unfolding kick latch
  kick-Keeps c = ground (arith, drain-count c.continuation_target c.write_queue)

  pub run_kick-Keeps : (ec : ErrorCode) (c : Context) → Keeps i c (run_kick ec c)
  unfolding run_kick
  run_kick-Keeps ec c = ground (arith, kick-Keeps (record c { kick_posted = false }))

  extracted_one :
      (j : ℕ) (ids : List ℕ) (ops : Queue) (found : Option Operation)
      → find j ops ≡ found
      → count i (remove j ops)
        ≡ count i (extracted ids (remove j ops)) + count i (without ids (remove j ops))
      → count i ops
        ≡ count i (cell_list found ++ extracted ids (remove j ops))
          + count i (without ids (remove j ops))
  extracted_one j ids ops none e h = ap (count i) (sym (remove-none j ops e)) ∙ h
  extracted_one j ids ops (some op) e h =
      ground (arith, count-remove i j ops {op = op} e, h, find_id j ops {op = op} e)

  extracted-count :
      (ids : List ℕ) (ops : Queue)
      → count i ops ≡ count i (extracted ids ops) + count i (without ids ops)
  unfolding extracted without
  extracted-count [] ops = omega arith
  extracted-count (j ∷ ids) ops =
      extracted_one j ids ops (find j ops) refl (extracted-count ids (remove j ops))

  retire-Keeps : (ec : ErrorCode) (c : Context) → Keeps i c (retire ec c)
  unfolding retire fail_cells
  retire-Keeps ec c = ground (
    arith,
    extracted-count c.staged c.write_queue,
    count_told-append i c.completions (map (failed_with ec) (extracted c.staged c.write_queue)),
    count_told-failed i ec (extracted c.staged c.write_queue),
    count_ids-append i c.dropped (map id_of (extracted c.staged c.write_queue)),
    count_ids-map i (extracted c.staged c.write_queue),
  )

  pub arm-Keeps : (c : Context) → Keeps i c (arm c)
  unfolding arm
  arm-Keeps c = ground (
    arith,
    retire-Keeps operation_canceled c,
    maybe_finish_close-Keeps i (retire operation_canceled c),
  )

  abbrev held : Flush → ℕ
  held f = count i f.queue + count i f.retired

  flushed_cell-held :
      (j : ℕ) (op : Operation) (f : Flush)
      → find j f.queue ≡ some op
      → held (flushed_cell j op f) ≡ held f
  unfolding flushed_cell on_segment_flushed
  flushed_cell-held j op f e = ground (
    arith,
    count-remove i j f.queue {op = op} e,
    find_id j f.queue {op = op} e,
    count-update i j on_segment_flushed f.queue (λ x. refl),
    count-append i f.retired (on_segment_flushed op ∷ []),
  )

  flush_found-held :
      (j : ℕ) (found : Option Operation) (f : Flush)
      → find j f.queue ≡ found
      → held (flush_found j found f) ≡ held f
  unfolding flush_found
  flush_found-held j none f e = refl
  flush_found-held j (some op) f e = flushed_cell-held j op f e

  flush_staged-held : (ids : List ℕ) (f : Flush) → held (flush_staged ids f) ≡ held f
  unfolding flush_staged
  flush_staged-held [] f = refl
  flush_staged-held (j ∷ ids) f =
      flush_staged-held ids (flush_found j (find j f.queue) f)
      ∙ flush_found-held j (find j f.queue) f refl

  post_all-count :
      (ops : Queue) (c : Context)
      → (owned i (post_all ops c) ≡ count i ops + owned i c)
        × ((post_all ops c).next_id ≡ c.next_id)
  unfolding post_all post_complete_stopped
  post_all-count [] c = (omega arith, refl)
  post_all-count (op ∷ ops) c = ground (
    arith,
    post_all-count ops (post_complete_stopped op c),
    count-append i c.posted_stops (op ∷ []),
  )

  flushed-count :
      (f : Flush) (c : Context)
      → (owned i (flushed f c) + count i c.write_queue ≡ held f + owned i c)
        × ((flushed f c).next_id ≡ c.next_id)
  unfolding flushed
  flushed-count f c = ground (
    arith,
    post_all-count f.retired (record c {
      write_queue = f.queue;
      continuation_target = f.target;
      write_in_flight = false;
      staged = [];
    }),
  )

  write_failed-Keeps : (ec : ErrorCode) (c : Context) → Keeps i c (write_failed ec c)
  unfolding write_failed fail_cells
  write_failed-Keeps ec c =
      let cells = extracted c.staged c.write_queue in
      let lost = connection_lost ec (release c) in
      ground (
        arith,
        retire-Keeps ec c,
        maybe_finish_close-Keeps i (retire ec c),
        extracted-count c.staged c.write_queue,
        connection_lost-Keeps i ec (release c),
        maybe_finish_close-Keeps i (fail_cells ec cells lost),
        count_told-append i lost.completions (map (failed_with ec) cells),
        count_told-failed i ec cells,
      )

  write_succeeded-Keeps : (c : Context) → Keeps i c (write_succeeded c)
  unfolding write_succeeded
  write_succeeded-Keeps c =
      let start : Flush = record {
        queue = c.write_queue;
        target = c.continuation_target;
        retired = [];
      } in
      let f = flush_staged c.staged start in
      ground (
        arith,
        retire-Keeps operation_canceled c,
        maybe_finish_close-Keeps i (retire operation_canceled c),
        flushed-count f c,
        flush_staged-held c.staged start,
        kick-Keeps (flushed f c),
      )

  pub on_write_done-Keeps : (ec : ErrorCode) (c : Context) → Keeps i c (on_write_done ec c)
  unfolding on_write_done
  on_write_done-Keeps ec c = ground (arith, write_failed-Keeps ec c, write_succeeded-Keeps c)
