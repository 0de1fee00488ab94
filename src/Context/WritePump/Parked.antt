-- ===== src/Context/WritePump/Parked.antt =====
-- An operation whose literal the server refuses after it was cancelled.
use bkmail.Prelude.{
  ℕ, ◌+◌, ◌≡◌, refl, ap, Bool, true, false, ◌&&◌, List, [], ◌∷◌, ◌++◌, Option, none, some, arith,
}
use bkmail.Error.{ErrorCode}
use bkmail.Operation.{Operation, is_written, awaits_continuation, next_segment}
use bkmail.Response.{TaggedResponse}
use bkmail.Context.Defs.{Context}
use bkmail.Context.Queue.{Queue, lookup}
use bkmail.Context.Submit.{
  submit, enqueue_operation, new_operation, push_operation, post_kick, post_complete_stopped,
  run_stop, run_posted_stop,
}
use bkmail.Context.Teardown.{fail_cells}
use bkmail.Context.WritePump.{drain, latch, kick, run_kick, arm}
use bkmail.Context.ReadPump.{dispatch_tagged, tagged_entry}
use bkmail.Context.Run.{
  Event, submits, cancels, flushes, closes, abandons, arms, stops, kicks, writes_done, reads_done,
  step, run,
}

-- Users submit and flush, and the scheduler runs what was posted.
abbrev pub is_sending : Event → Bool
is_sending (submits render callback_path stop_seen kick) = true
is_sending flushes = true
is_sending (kicks ec) = true
is_sending arms = true
is_sending stops = true
is_sending _ = false

abbrev pub all_sending : List Event → Bool
all_sending [] = true
all_sending (e ∷ es) = is_sending e && all_sending es

abbrev pub head : Queue → Option Operation
head [] = none
head (op ∷ ops) = some op

-- The cell stands in front, no write is under way, and none was made.
abbrev IsBlocked : Operation → Context → Context → Type 0
IsBlocked op before c =
    (head c.write_queue ≡ some op)
    × (c.write_in_flight ≡ false)
    × (c.arming ≡ false)
    × (c.writes ≡ before.writes)

head-append :
    (ops : Queue) (op last : Operation) → head ops ≡ some op → head (ops ++ last ∷ []) ≡ some op
head-append [] op last h = cc
head-append (first ∷ ops) op last h = h

module _ (op : Operation) (waits : awaits_continuation op ≡ true) (parked : next_segment op ≡ [])
    (before : Context) where
  enqueue-IsBlocked :
      (last : Operation) (kick : Bool) (c : Context)
      → IsBlocked op before c
      → IsBlocked op before (enqueue_operation last kick c)
  unfolding enqueue_operation push_operation post_kick fail_cells post_complete_stopped
  enqueue-IsBlocked last kick c h = ground (arith, head-append c.write_queue op last)

  drain_blocked :
      (target : Option ℕ) (ops : Queue)
      → head ops ≡ some op
      → (head (drain target ops).queue ≡ some op) × ((drain target ops).bytes ≡ [])
  unfolding drain is_written awaits_continuation
  drain_blocked target [] h = cc
  drain_blocked target (first ∷ ops) h = let same : first ≡ op = cc in rw same (ground arith)

  kick-IsBlocked :
      (ec : ErrorCode) (c : Context) → IsBlocked op before c → IsBlocked op before (run_kick ec c)
  unfolding run_kick kick latch
  kick-IsBlocked ec c h = ground (arith, drain_blocked c.continuation_target c.write_queue)

  stop-IsBlocked :
      (posted : List Operation) (c : Context)
      → IsBlocked op before c
      → IsBlocked op before (run_stop posted c)
  unfolding run_stop
  stop-IsBlocked [] c h = h
  stop-IsBlocked (first ∷ posted) c h = h

  step-IsBlocked :
      (e : Event) (c : Context)
      → is_sending e ≡ true
      → IsBlocked op before c
      → IsBlocked op before (step e c)
  unfolding step submit post_kick run_posted_stop arm
  step-IsBlocked (submits render callback_path stop_seen kick) c s h =
      enqueue-IsBlocked (new_operation render callback_path stop_seen c) kick
        (record c { tag_counter = c.tag_counter + 1; next_id = c.next_id + 1 }) h
  step-IsBlocked flushes c s h = ground arith
  step-IsBlocked (kicks ec) c s h = kick-IsBlocked ec c h
  step-IsBlocked arms c s h = ground arith
  step-IsBlocked stops c s h = stop-IsBlocked c.posted_stops c h
  step-IsBlocked (cancels tag) c s h = cc
  step-IsBlocked closes c s h = cc
  step-IsBlocked abandons c s h = cc
  step-IsBlocked (writes_done ec) c s h = cc
  step-IsBlocked (reads_done ec bytes) c s h = cc

  run-IsBlocked :
      (es : List Event) (c : Context)
      → all_sending es ≡ true
      → IsBlocked op before c
      → IsBlocked op before (run es c)
  unfolding run
  run-IsBlocked [] c s h = h
  run-IsBlocked (e ∷ es) c s h =
      run-IsBlocked es (step e c) (ground arith) (step-IsBlocked e c (ground arith) h)

-- A cell at the head of the queue that waits for a continuation and whose tag is no longer registered blocks
-- the connection when its tagged reply arrives while no write is under way: the reply changes nothing, and
-- whatever is submitted and flushed behind the cell and whatever posted tasks run then, nothing is written and
-- the cell stays at the head.
pub run-dispatch_tagged :
    (r : TaggedResponse) (op : Operation) (ops : Queue) (c : Context) (es : List Event)
    → c.write_queue ≡ op ∷ ops
    → awaits_continuation op ≡ true
    → next_segment op ≡ []
    → lookup r.tag c.registry ≡ none
    → c.write_in_flight ≡ false
    → c.arming ≡ false
    → all_sending es ≡ true
    → (dispatch_tagged r c ≡ (c, true))
      × ((run es (dispatch_tagged r c).0).writes ≡ c.writes)
      × (head (run es (dispatch_tagged r c).0).write_queue ≡ some op)
unfolding dispatch_tagged tagged_entry
run-dispatch_tagged r op ops c es q a n l f m s = rw l (
  refl,
  (run-IsBlocked op a n c es c s (ap head q, f, m, refl)).3,
  (run-IsBlocked op a n c es c s (ap head q, f, m, refl)).0,
)
